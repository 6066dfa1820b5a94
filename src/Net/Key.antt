-- ===== src/Net/Key.antt =====
-- The key of a group and its socket address: skey_from_ss (src/uspace.c) and sockaddr_from_msg_value
-- (src/udpgrm.c).
use udpgrm.Base.{
  ℕ, ◌%◌, ◌^◌, ◌<◌, Option, none, some, ◌⊎◌, inl, inr, ◌++◌, ◌==◌, if◌then◌else◌, u32_at, le32, u16,
  bswap16, ◌≡◌, arith,
}
use udpgrm.Storage.{SockKey}
use udpgrm.Storage.Helpers.{af_inet, af_inet6}
use udpgrm.Net.{Sockaddr, sin, sin6, sun, other, net_get_port}

-- (uint16_t)net_get_port(ss), of which -1 becomes 0xffff.
unfoldable pub port_of : Option ℕ → ℕ
port_of none = 0xffff
port_of (some port) = u16 port

-- skey_from_ss
unfoldable pub skey_from_ss : Sockaddr → SockKey
unfolding port_of net_get_port
skey_from_ss (sin port addr) = record {
  family = af_inet;
  src_port = port_of (net_get_port (sin port addr));
  ip0 = u32_at addr 0;
  ip1 = 0;
  ip2 = 0;
  ip3 = 0;
}
skey_from_ss (sin6 port addr) = record {
  family = af_inet6;
  src_port = port_of (net_get_port (sin6 port addr));
  ip0 = u32_at addr 0;
  ip1 = u32_at addr 4;
  ip2 = u32_at addr 8;
  ip3 = u32_at addr 12;
}
skey_from_ss (sun path) = record {
  family = 1;
  src_port = port_of none;
  ip0 = 0;
  ip1 = 0;
  ip2 = 0;
  ip3 = 0;
}
skey_from_ss (other family) = record {
  family = family % 256;
  src_port = port_of none;
  ip0 = 0;
  ip1 = 0;
  ip2 = 0;
  ip3 = 0;
}

-- sockaddr_from_msg_value
unfoldable pub sockaddr_from_msg_value : SockKey → Sockaddr
sockaddr_from_msg_value skey =
    if skey.family == af_inet
    then sin (bswap16 skey.src_port) (le32 skey.ip0)
    else if skey.family == af_inet6
    then sin6 (bswap16 skey.src_port)
        (le32 skey.ip0 ++ (le32 skey.ip1 ++ (le32 skey.ip2 ++ le32 skey.ip3)))
    else other 0

-- A key of an IPv4 or IPv6 group, with words of their widths.
pub record IsKey (skey : SockKey) : Type 0 where
  pub port : skey.src_port < 2 ^ 16
  pub word0 : skey.ip0 < 2 ^ 32
  pub word1 : skey.ip1 < 2 ^ 32
  pub word2 : skey.ip2 < 2 ^ 32
  pub word3 : skey.ip3 < 2 ^ 32
  pub family :
      ((skey.family ≡ af_inet) × (skey.ip1 ≡ 0) × (skey.ip2 ≡ 0) × (skey.ip3 ≡ 0))
      ⊎ (skey.family ≡ af_inet6)

pub skey_from_ss-sockaddr_from_msg_value :
    (skey : SockKey) → IsKey skey → skey_from_ss (sockaddr_from_msg_value skey) ≡ skey
unfolding skey_from_ss sockaddr_from_msg_value
skey_from_ss-sockaddr_from_msg_value skey h = four h.family
  where
    four :
        ((skey.family ≡ af_inet) × (skey.ip1 ≡ 0) × (skey.ip2 ≡ 0) × (skey.ip3 ≡ 0))
          ⊎ (skey.family ≡ af_inet6)
        → skey_from_ss (sockaddr_from_msg_value skey) ≡ skey
    four (inl v) = ground (arith, h.port, h.word0)
    four (inr v) = ground (arith, h.port, h.word0, h.word1, h.word2, h.word3)
