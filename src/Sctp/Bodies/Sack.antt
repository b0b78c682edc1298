-- ===== src/Sctp/Bodies/Sack.antt =====
-- SACK bodies, read back.
use node_rtc_connection.Prelude.{
  ℕ, suc, ◌+◌, ◌-◌, ◌*◌, ◌/◌, ◌%◌, ◌≡◌, refl, sym, ap, ◌∙◌, List, [], ◌∷◌, ◌++◌, append-nil,
  append_assoc, arith, lt→ltb, length, length-append, drop, replicate-add, drop-append_length, All,
  ok,
}
use node_rtc_connection.Buffer.{
  Buffer, IsU16, IsU32, to_uint32_id, be16, be32, alloc, write_uint16_be, write_uint32_be,
  overwrite_seam, alloc_four, be16_lem, be32_lem,
}
use node_rtc_connection.Buffer.Fields.{first_field, second_field}
use node_rtc_connection.Sctp.Bodies.{
  SackBody, write_gap_blocks, write_dup_tsns, encode_sack_body, read_gap_blocks, read_dup_tsns,
  parse_sack_body,
}

abbrev IsGapBlock : ℕ × ℕ → Type 0
IsGapBlock (start, end') = IsU16 start × IsU16 end'

pub record IsSack (s : SackBody) : Type 0 where
  pub cumulative_tsn_ack : IsU32 s.cumulative_tsn_ack
  pub a_rwnd : IsU32 s.a_rwnd
  pub gaps : All IsGapBlock s.gap_blocks
  pub dups : All IsU32 s.dup_tsns
  pub gap_count : IsU16 (length s.gap_blocks)
  pub dup_count : IsU16 (length s.dup_tsns)

abbrev pub gap_bytes : List (ℕ × ℕ) → Buffer
gap_bytes [] = []
gap_bytes ((start, end') ∷ rest) = be16 start ++ (be16 end' ++ gap_bytes rest)

abbrev pub dup_bytes : List ℕ → Buffer
dup_bytes [] = []
dup_bytes (d ∷ rest) = be32 d ++ dup_bytes rest

four_more : (n k : ℕ) → alloc (suc n * 4 + k) ≡ 0 ∷ 0 ∷ 0 ∷ 0 ∷ alloc (n * 4 + k)
four_more n k =
    let e : suc n * 4 + k - 4 ≡ n * 4 + k = omega arith in
    alloc_four (suc n * 4 + k) (omega arith) ∙ rw e

write_two :
    (v : ℕ) (front rest : Buffer)
    → IsU16 v
    → write_uint16_be v (length front) (front ++ (0 ∷ 0 ∷ rest)) ≡ ok ((front ++ be16 v) ++ rest)
write_two v front rest h =
    rw (lt→ltb v 65536 h) (overwrite_seam (be16 v) front (0 ∷ 0 ∷ []) rest refl)

three : (a b c d : Buffer) → ((a ++ b) ++ c) ++ d ≡ a ++ (b ++ (c ++ d))
three a b c d = simp append_assoc

write_gaps_lem :
    (gs : List (ℕ × ℕ)) (front : Buffer) (k : ℕ)
    → All IsGapBlock gs
    → write_gap_blocks gs (front ++ alloc (length gs * 4 + k)) (length front)
      ≡ ok ((front ++ gap_bytes gs) ++ alloc k, length (front ++ gap_bytes gs))
unfolding write_gap_blocks
write_gaps_lem [] front k h = let e : 0 * 4 + k ≡ k = omega arith in rw (e, append-nil front)
write_gaps_lem ((a, b) ∷ gs) front k ((ha, hb), h) =
    let two : length front + 2 ≡ length (front ++ be16 a) =
      omega (arith, length-append {0} front (be16 a)) in
    let four : length front + 4 ≡ length ((front ++ be16 a) ++ be16 b) =
      omega (arith, two, length-append {0} (front ++ be16 a) (be16 b)) in
    rw
      (
        four_more (length gs) k,
        write_two a front (0 ∷ 0 ∷ alloc (length gs * 4 + k)) ha,
        two,
        write_two b (front ++ be16 a) (alloc (length gs * 4 + k)) hb,
        four,
      )
      (write_gaps_lem gs ((front ++ be16 a) ++ be16 b) k h
        ∙ ap (λ (f : Buffer). ok (f ++ alloc k, length f))
            (three front (be16 a) (be16 b) (gap_bytes gs)))

write_dups_lem :
    (ds : List ℕ) (front : Buffer)
    → All IsU32 ds
    → write_dup_tsns ds (front ++ alloc (length ds * 4 + 0)) (length front)
      ≡ ok (front ++ dup_bytes ds)
unfolding write_dup_tsns
write_dups_lem [] front h = refl
write_dups_lem (d ∷ ds) front (hd, h) =
    let four : length front + 4 ≡ length (front ++ be32 d) =
      omega (arith, length-append {0} front (be32 d)) in
    let written : write_uint32_be d (length front)
          (front ++ (0 ∷ 0 ∷ 0 ∷ 0 ∷ alloc (length ds * 4 + 0)))
        ≡ ok ((front ++ be32 d) ++ alloc (length ds * 4 + 0)) =
      rw (lt→ltb d 4294967296 hd)
        (overwrite_seam (be32 d) front (0 ∷ 0 ∷ 0 ∷ 0 ∷ []) (alloc (length ds * 4 + 0)) refl) in
    rw (four_more (length ds) 0, to_uint32_id d hd, written, four)
      (write_dups_lem ds (front ++ be32 d) h ∙ ap ok (append_assoc front (be32 d) (dup_bytes ds)))

abbrev pub sack_bytes : SackBody → Buffer
sack_bytes s =
    be32 s.cumulative_tsn_ack
    ++ (be32 s.a_rwnd
        ++ (be16 (length s.gap_blocks)
            ++ (be16 (length s.dup_tsns) ++ (gap_bytes s.gap_blocks ++ dup_bytes s.dup_tsns))))

abbrev sack_head : SackBody → Buffer
sack_head s =
    be32 s.cumulative_tsn_ack
    ++ (be32 s.a_rwnd ++ (be16 (length s.gap_blocks) ++ be16 (length s.dup_tsns)))

pub encode_sack_body_lem : (s : SackBody) → IsSack s → encode_sack_body s ≡ ok (sack_bytes s)
unfolding encode_sack_body
encode_sack_body_lem s v =
    let total = length s.gap_blocks * 4 + (length s.dup_tsns * 4 + 0) in
    let room : alloc (12 + length s.gap_blocks * 4 + length s.dup_tsns * 4)
        ≡ 0 ∷ 0 ∷ 0 ∷ 0 ∷ 0 ∷ 0 ∷ 0 ∷ 0 ∷ 0 ∷ 0 ∷ 0 ∷ 0 ∷ alloc total =
      ap alloc (omega arith) ∙ replicate-add 12 total 0 in
    rw
      (
        room,
        to_uint32_id s.cumulative_tsn_ack v.cumulative_tsn_ack,
        to_uint32_id s.a_rwnd v.a_rwnd,
        lt→ltb s.cumulative_tsn_ack 4294967296 v.cumulative_tsn_ack,
        lt→ltb s.a_rwnd 4294967296 v.a_rwnd,
        lt→ltb (length s.gap_blocks) 65536 v.gap_count,
        lt→ltb (length s.dup_tsns) 65536 v.dup_count,
      )
      (ground (
        arith,
        write_gaps_lem s.gap_blocks (sack_head s) (length s.dup_tsns * 4 + 0) v.gaps,
        write_dups_lem s.dup_tsns (sack_head s ++ gap_bytes s.gap_blocks) v.dups,
      ))

read_gaps_lem :
    (gs : List (ℕ × ℕ)) (front rest : Buffer) (acc : List (ℕ × ℕ))
    → read_gap_blocks (length gs) (front ++ (gap_bytes gs ++ rest)) (length front) acc
      ≡ ok (acc ++ gs, length (front ++ gap_bytes gs))
unfolding read_gap_blocks
read_gaps_lem [] front rest acc = rw (append-nil acc, append-nil front)
read_gaps_lem ((a, b) ∷ gs) front rest acc =
    let packet : Buffer = front ++ (gap_bytes ((a, b) ∷ gs) ++ rest) in
    let here : drop (length front) packet
        ≡ a / 256 ∷ a % 256 ∷ b / 256 ∷ b % 256 ∷ (gap_bytes gs ++ rest) =
      drop-append_length front _ in
    let next : length front + 4 ≡ length (front ++ (be16 a ++ be16 b)) =
      omega (arith, length-append {0} front (be16 a ++ be16 b)) in
    let seam : packet ≡ (front ++ (be16 a ++ be16 b)) ++ (gap_bytes gs ++ rest) =
      sym (append_assoc front (be16 a ++ be16 b) (gap_bytes gs ++ rest)) in
    rw
      (
        first_field packet (length front) _ _ _ _ _ here,
        second_field packet (length front) _ _ _ _ _ here,
        be16_lem a,
        be16_lem b,
        next,
        seam,
      )
      (read_gaps_lem gs (front ++ (be16 a ++ be16 b)) rest (acc ++ ((a, b) ∷ []))
        ∙ rw (
          append_assoc acc ((a, b) ∷ []) gs,
          append_assoc front (be16 a ++ be16 b) (gap_bytes gs),
        ))

read_dups_lem :
    (ds : List ℕ) (front : Buffer) (acc : List ℕ)
    → read_dup_tsns (length ds) (front ++ dup_bytes ds) (length front) acc ≡ ok (acc ++ ds)
unfolding read_dup_tsns
read_dups_lem [] front acc = rw (append-nil acc)
read_dups_lem (d ∷ ds) front acc =
    let next : length front + 4 ≡ length (front ++ be32 d) =
      omega (arith, length-append {0} front (be32 d)) in
    rw
      (
        drop-append_length front (be32 d ++ dup_bytes ds),
        be32_lem d,
        next,
        ← append_assoc front (be32 d) (dup_bytes ds),
      )
      (read_dups_lem ds (front ++ be32 d) (acc ++ (d ∷ [])) ∙ ap ok (append_assoc acc (d ∷ []) ds))

parse_sack_bytes : (s : SackBody) → parse_sack_body (sack_bytes s) ≡ ok s
unfolding parse_sack_body
parse_sack_bytes s = rw (
  be32_lem s.cumulative_tsn_ack,
  be32_lem s.a_rwnd,
  be16_lem (length s.gap_blocks),
  be16_lem (length s.dup_tsns),
  read_gaps_lem s.gap_blocks (sack_head s) (dup_bytes s.dup_tsns) [],
  ← append_assoc (sack_head s) (gap_bytes s.gap_blocks) (dup_bytes s.dup_tsns),
  read_dups_lem s.dup_tsns (sack_head s ++ gap_bytes s.gap_blocks) [],
)

-- `parseSackBody` reads back the SACK body that `encodeSackBody` wrote, with every gap block and
-- every duplicate TSN, where the cumulative TSN, the window and the duplicates fit 32 bits, the ends of
-- the blocks fit 16 bits, and there are at most 65535 entries of each kind.
pub parse_sack_body-encode :
    (s : SackBody)
    → IsSack s
    → (b : Buffer) × (encode_sack_body s ≡ ok b) × (parse_sack_body b ≡ ok s)
parse_sack_body-encode s v = (sack_bytes s, encode_sack_body_lem s v, parse_sack_bytes s)
