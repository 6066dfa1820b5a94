-- ===== src/Quic/Inside.antt =====
-- decrypt_quic and the bounds of scratch->pkt (ebpf/ebpf_quic.c).
use udpgrm.Base.{
  ℕ, zero, suc, ◌+◌, ◌*◌, ◌/◌, ◌%◌, ◌≤◌, bit_xor, bit_and, false, length, ltb, ◌==◌, if◌then◌else◌,
  List, Bool-cases, inl, inr, ◌≡◌, ◌∙◌, arith,
}
use udpgrm.Aes.{AesCtx}
use udpgrm.Quic.{increment_counter}
use udpgrm.Quic.Decrypt.{
  combine_chunk, Decrypting, stream_block, do_decrypt_quic_loop, decrypt_loop, mask_bytes,
  decrypt_quic,
}
use udpgrm.Quic.Stream.{length-combine, length-decrypt_loop}

outside-combine_chunk :
    (f : ℕ → ℕ → ℕ) (off : ℕ) (ms : List ℕ) (s : Decrypting)
    → length s.pkt ≡ 1024
    → off ≤ 1008
    → s.outside ≡ false
    → (combine_chunk f off ms s).outside ≡ false
unfolding combine_chunk
outside-combine_chunk f off ms s full h e = rw e (ground arith)

length-combine_chunk :
    (f : ℕ → ℕ → ℕ) (off : ℕ) (ms : List ℕ) (s : Decrypting)
    → length (combine_chunk f off ms s).pkt ≡ length s.pkt
unfolding combine_chunk
length-combine_chunk f off ms s = length-combine f off ms s.pkt

outside-decrypt_loop :
    (ctx : AesCtx) (n index : ℕ) (s : Decrypting)
    → length s.pkt ≡ 1024
    → s.outside ≡ false
    → (decrypt_loop ctx n index s).outside ≡ false
unfolding decrypt_loop do_decrypt_quic_loop
outside-decrypt_loop ctx zero index s full e = e
outside-decrypt_loop ctx (suc n) index s full e =
    let counter = increment_counter s.counter in
    let tmp = stream_block ctx counter in
    let s₁ : Decrypting = record s { counter = counter } in
    elim (Bool-cases (ltb 1024 (index * 16 + 16))) [
      | inl stop ↦ rw stop e
      | inr go_on ↦ rw go_on (
          outside-decrypt_loop ctx n (index + 1) (combine_chunk bit_xor (index * 16) tmp s₁)
            (length-combine_chunk bit_xor (index * 16) tmp s₁ ∙ full)
            (outside-combine_chunk bit_xor (index * 16) tmp s₁ full (ground arith) e))
    ]

-- Both guards keep the accesses inside, for any number of bytes.
pub outside-decrypt_quic :
    (ctx : AesCtx) (packet_len : ℕ) (s : Decrypting)
    → length s.pkt ≡ 1024
    → s.outside ≡ false
    → (decrypt_quic ctx packet_len s).outside ≡ false
unfolding decrypt_quic
outside-decrypt_quic ctx packet_len s full e =
    let rounds = packet_len / 16 + (if packet_len % 16 == 0 then 0 else 1) in
    let looped = outside-decrypt_loop ctx rounds 0 s full e in
    elim (Bool-cases (ltb 1008 (packet_len / 16 * 16))) [
      | inl whole ↦ rw whole looped
      | inr part ↦ rw part (
          outside-combine_chunk bit_and (packet_len / 16 * 16) (mask_bytes (packet_len % 16))
            (decrypt_loop ctx rounds 0 s) (length-decrypt_loop ctx rounds 0 s ∙ full) (ground arith)
            looped)
    ]
