-- ===== src/Sctp/Checksum/Laws.antt =====
-- The checksum field: written, verified and restored.
use node_rtc_connection.Prelude.{length-append}
use node_rtc_connection.Prelude.{
  ℕ, ◌+◌, ◌*◌, ◌/◌, ◌%◌, ◌≤◌, ◌≡◌, refl, sym, ap, ◌∙◌, true, ◌++◌, append_assoc, arith, ◌==◌,
  lt→ltb, take-append-drop, length, take, drop, length-take, length-drop, drop-append_length,
  take-append_length, drop-drop, ok,
}
use node_rtc_connection.Buffer.{
  Buffer, IsU32, le32, read_uint32_le, overwrite, write_uint32_le, overwrite_seam,
}
use node_rtc_connection.Sctp.Checksum.{crc32c, apply_checksum, verify_checksum}

pub crc32c-IsU32 : (buf : Buffer) → IsU32 (crc32c buf)
unfolding crc32c
crc32c-IsU32 buf = omega arith

-- A packet around its checksum field.
pub around_checksum :
    (packet : Buffer)
    → 12 ≤ length packet
    → packet ≡ take 8 packet ++ (take 4 (drop 8 packet) ++ drop 12 packet)
around_checksum packet h =
    let rest : take 4 (drop 8 packet) ++ drop 12 packet ≡ drop 8 packet =
      rw (← drop-drop 4 8 packet) (take-append-drop 4 (drop 8 packet)) in
    rw rest (sym (take-append-drop 8 packet))

le32_lem :
    (v : ℕ) → v / 16777216 * 16777216 + v / 65536 % 256 * 65536 + v / 256 % 256 * 256 + v % 256 ≡ v
le32_lem v = omega arith

module _ (front rest : Buffer) (eight : length front ≡ 8) where
  pub write_checksum :
      (v : ℕ) (old : Buffer)
      → IsU32 v
      → length old ≡ 4
      → write_uint32_le v 8 (front ++ (old ++ rest)) ≡ ok (front ++ (le32 v ++ rest))
  write_checksum v old hv ho = rw (lt→ltb v 4294967296 hv) (
      ap (λ (n : ℕ). overwrite (le32 v) n (front ++ (old ++ rest))) (sym eight)
      ∙ overwrite_seam (le32 v) front old rest ho
      ∙ ap ok (append_assoc front (le32 v) rest))

  read_checksum : (v : ℕ) → read_uint32_le (front ++ (le32 v ++ rest)) 8 ≡ ok v
  read_checksum v = rw (← eight, drop-append_length front (le32 v ++ rest), le32_lem v)

  abbrev with_checksum : ℕ → Buffer
  with_checksum v = front ++ (le32 v ++ rest)

  apply_lem :
      (old : Buffer)
      → length old ≡ 4
      → apply_checksum (front ++ (old ++ rest)) ≡ ok (with_checksum (crc32c (with_checksum 0)))
  unfolding apply_checksum
  apply_lem old h =
      rw (write_checksum 0 old (omega arith) h)
        (write_checksum (crc32c (with_checksum 0)) (le32 0) (crc32c-IsU32 _) refl)

  verify_lem :
      (v : ℕ)
      → IsU32 v
      → verify_checksum (with_checksum v) ≡ ok (crc32c (with_checksum 0) == v, with_checksum v)
  unfolding verify_checksum
  verify_lem v h = rw (
    read_checksum v,
    write_checksum 0 (le32 v) (omega arith) refl,
    write_checksum v (le32 0) h refl,
  )

sizes :
    (packet : Buffer)
    → 12 ≤ length packet
    → (length (take 8 packet) ≡ 8) × (length (take 4 (drop 8 packet)) ≡ 4)
sizes packet h =
    omega
      (arith, length-take {0} 8 packet, length-take {0} 4 (drop 8 packet), length-drop {0} 8 packet)

-- On a packet of 12 bytes or more `applyChecksum` throws nothing; it writes into bytes 8 to 11 only,
-- and `verifyChecksum` accepts the packet that it returns, and leaves that packet as it was.
pub verify_checksum-apply_checksum :
    (packet : Buffer)
    → 12 ≤ length packet
    → (p : Buffer) × (apply_checksum packet ≡ ok p)
      × (take 8 p ≡ take 8 packet)
      × (drop 12 p ≡ drop 12 packet)
      × (length p ≡ length packet)
      × (verify_checksum p ≡ ok (true, p))
verify_checksum-apply_checksum packet h =
    let front = take 8 packet in
    let rest = drop 12 packet in
    let (eight, four) = sizes packet h in
    let v = crc32c (with_checksum front rest eight 0) in
    let p = with_checksum front rest eight v in
    (
      p,
      ap apply_checksum (around_checksum packet h)
          ∙ apply_lem front rest eight (take 4 (drop 8 packet)) four,
      ap (λ (n : ℕ). take n p) (sym eight) ∙ take-append_length front (le32 v ++ rest),
      sym (drop-drop 4 8 p)
          ∙ ap (λ (n : ℕ). drop 4 (drop n p)) (sym eight)
          ∙ ap (λ (q : Buffer). drop 4 q) (drop-append_length front (le32 v ++ rest)),
      omega (arith, eight, length-append {0} front (le32 v ++ rest), length-drop {0} 12 packet),
      verify_lem front rest eight v (crc32c-IsU32 _) ∙ ground (arith),
    )

-- `verifyChecksum` of a packet whose checksum field holds `v` answers whether `v` is the CRC of the
-- packet with a zero field, and restores the packet.
pub verify_checksum_lem :
    (front rest : Buffer) (v : ℕ)
    → length front ≡ 8
    → IsU32 v
    → verify_checksum (front ++ (le32 v ++ rest))
      ≡ ok (crc32c (front ++ (le32 0 ++ rest)) == v, front ++ (le32 v ++ rest))
verify_checksum_lem front rest v e h = verify_lem front rest e v h
