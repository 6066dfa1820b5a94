-- ===== src/Quic/Varint.antt =====
-- varint_decode against the encoding of RFC 9000, section 16 (ebpf/ebpf_quic.c).
use udpgrm.Base.{ℕ, ◌+◌, ◌*◌, ◌^◌, ◌<◌, ◌≡◌, some, bswap16, bswap32, bswap64, arith}
use udpgrm.Quic.{varint_decode}

-- The four lengths of an encoded number.
pub data Length : Type 0 where
  one two four eight : Length

abbrev pub bytes : Length → ℕ
bytes one = 1
bytes two = 2
bytes four = 4
bytes eight = 8

-- The numbers below this have an encoding of the length.
abbrev pub bound : Length → ℕ
bound one = 2 ^ 6
bound two = 2 ^ 14
bound four = 2 ^ 30
bound eight = 2 ^ 62

-- The bytes of the encoding in memory, as a number: the length in the two highest bits of the first
-- byte, then the number with its highest byte first; `rest` is what stands behind them.
abbrev pub wire : Length → ℕ → ℕ → ℕ
wire one v rest = v + rest * 2 ^ 8
wire two v rest = bswap16 (1 * 2 ^ 14 + v) + rest * 2 ^ 16
wire four v rest = bswap32 (2 * 2 ^ 30 + v) + rest * 2 ^ 32
wire eight v rest = bswap64 (3 * 2 ^ 62 + v)

-- A number that was encoded in one, two, four or eight bytes is decoded to itself and to this length,
-- whatever bytes stand behind it.
pub varint_decode-wire :
    (len : Length) (v rest : ℕ)
    → v < bound len
    → varint_decode (wire len v rest) ≡ some (v, bytes len)
unfolding varint_decode
varint_decode-wire one v rest h = ground arith
varint_decode-wire two v rest h = ground arith
varint_decode-wire four v rest h = ground arith
varint_decode-wire eight v rest h = ground arith
