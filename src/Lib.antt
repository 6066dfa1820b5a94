-- ===== src/Lib.antt =====
-- udpgrm, a daemon that spreads UDP sockets over generations of a server process: a model of its eBPF
-- programs and of the core of the daemon, with what makes them correct.
--
-- A server binds its sockets with SO_REUSEPORT. The cgroup/bind hooks give each of them a storage; the
-- cgroup/setsockopt and cgroup/getsockopt hooks take the options UDP_GRM_*, keep one state for each
-- reuseport group and send messages to the daemon through a ring buffer. The daemon copies the socket,
-- finds it a slot in the table of its generation, writes the slot back through the program
-- udpgrm_cb_update_map and attaches the reuseport program. For each packet that program asks the
-- dissector of the group for a flow hash, a cookie or an app, follows the flow table (which the sendmsg
-- hooks fill) or the table of sockets, and otherwise picks a socket of the working generation.
--
-- Files, with the code they model (paths from the root of the repository):
-- * Base and its children: tests, lists and byte strings, machine words, C's int, maps.
-- * Cookie (include/udpgrm_internal.h): GRM_COOKIE_CS, grm_cookie_pack, grm_cookie_unpack, TO_WRK_GEN.
-- * Storage, Storage.Counters, Storage.Helpers, Storage.Config (include/udpgrm.h,
--   include/udpgrm_internal.h, ebpf/ebpf_internal.h, ebpf/ebpf.c): the structs, the maps, METRIC_INC,
--   get_state, the dissector. Storage.Identity: what an operation may not change in a group.
-- * Interp, Interp.Opcode, Interp.Alu (ebpf/ebpf_inter.c): the cBPF interpreter. Interp.Reference is a
--   machine with a program counter.
-- * Siphash (ebpf/siphash.h): the flow hash.
-- * Flow (ebpf/ebpf.c): flow_assure, dissector_flow, _udp_sendmsg.
-- * Reuseport (ebpf/ebpf.c): dissector_cbpf and udpgrm_reuseport_prog.
-- * Hook, Sockopt, Sockopt.Get (ebpf/ebpf.c): udpgrm_setsockopt and udpgrm_getsockopt.
-- * Bind (ebpf/ebpf.c): _bpf_bind. Callback (ebpf/ebpf.c): udpgrm_cb_update_map.
-- * Tubular (src/tubular.c): the descriptors that are kept for tubular.
-- * Daemon (src/uspace.c, src/udpgrm.c): cookies_find_empty, metric_incr_critical, handle_msg.
-- * Aes (ebpf/ebpf_aes128.c): AES-128 on a block. Aes.Inverse has the inverse steps, Aes.Field the field
--   GF(2^8), Aes.Mixing the powers of mix_columns.
-- * Sha256 (ebpf/ebpf_sha256.c): SHA-256 and HMAC. Sha256.Pad and Sha256.Hmac have the definitions of
--   the standards.
-- * Quic, Quic.Keys, Quic.Decrypt, Quic.Header, Quic.Hello (ebpf/ebpf_quic.c): variable-length integers
--   and the block counter, the keys of initial packets, their decryption, quic_parse_hdr and
--   quic_extract_sni, and the search for the server name in a ClientHello.
-- * Dead (ebpf/ebpf_bespoke.c): parse_quic_fast, run_0xDEAD, run_bespoke_by_digest, over an argument
--   `slow` for initial packets. Quic.Slow: the value of that argument that the code has.
-- * Net (src/net.c): socket addresses as text and back. Net.Key (src/uspace.c, src/udpgrm.c): the key of a
--   group and its address.
-- * Listing (src/do_flows.c): the command that lists flows, up to the formatting of its lines.
-- * Machine (ebpf/ebpf.c, src/udpgrm.c): the programs, and what the daemon does to the maps, as steps of
--   one system; Machine.Walks, Machine.Counts, Machine.Options, Machine.Evolves and Machine.Invariant
--   follow the groups through each of them, Machine.Handling takes handle_msg apart into steps.
-- * Sticky, Switch, Daemon.Register, Daemon.Reach, Daemon.Protocol: theorems over several of these together.
-- * Examples and its children: concrete inputs.
--
-- State and its operations. World holds the maps: groups is reuseport_storage_map as an association
-- list, sockets is sk_storage_map by the identity of the socket, flows is lru_map, ring is msg_rb. A
-- program or hook is a function from World to World (and its return value); `none` is NULL or a failed
-- lookup. Two writes through one pointer into a map are one write of the new value. Each hook runs to
-- its end before the next one starts. What the kernel answers (time, return codes of map updates,
-- evicted flows, bpf_sk_select_reuseport, packet bytes) is the record Kernel, BindHelpers, Packet or
-- Answers, so that a theorem holds for all answers. Fixed arrays are functions of the index, which the
-- code reduces first. Numbers are natural numbers, reduced modulo 2 ^ w where the C type wraps; the
-- machine is little-endian. eBPF has x / 0 = 0 and x % 0 = x, and its 32-bit shifts use the low five
-- bits of the count; in the daemon a division by 0 is its end. scratch->pkt is a list of bytes with a
-- mark that an access behind it sets.
--
-- Loops. bpf_loop is recursion on its number of rounds (filter_len, up to 2 ^ 23); cookies_find_empty
-- goes over the 256 slots; the loops of src/tubular.c go over the list, the 32 generations and the
-- length of a generation; the search for the server name has the 32 rounds of the code. The loop of
-- AES_ECB_encrypt has no bound in the code; its ten rounds are fuel. The exponent of a double has
-- the bits of its number as fuel. No other loop needs any. The loops over the keys of a map go over a list.
--
-- Not modelled: lines of log and MSG_LOG, and the printing of a decrypted packet; calls with a null
-- pointer in the cryptography; the reuseport program takes any bespoke dissector as an argument, of
-- which run_bespoke_by_digest is one; tubular_register, which enters by the errno it returns; the rest
-- of src/ (start-up, cgroups, the commands list and delete, metrics, descriptors), and the vendored
-- src/list.h.
pub mod Base
pub mod Cookie
pub mod Storage
pub mod Interp
pub mod Siphash
pub mod Flow
pub mod Reuseport
pub mod Hook
pub mod Sockopt
pub mod Sticky
pub mod Bind
pub mod Callback
pub mod Tubular
pub mod Daemon
pub mod Aes
pub mod Sha256
pub mod Quic
pub mod Dead
pub mod Switch
pub mod Net
pub mod Listing
pub mod Machine
pub mod Examples
