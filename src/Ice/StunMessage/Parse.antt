-- ===== src/Ice/StunMessage/Parse.antt =====
-- `parse` returns on every datagram, and reads back the messages that `build` made.
use node_rtc_connection.Prelude.{
  ℕ, zero, suc, ◌+◌, ◌-◌, ◌*◌, ◌/◌, ◌%◌, ◌≤◌, ◌<◌, ◌≡◌, refl, sym, ap, ◌∙◌, true, false, inl, inr,
  ◌||◌, not, Option, none, some, List, [], ◌∷◌, ◌++◌, append_assoc, arith, ltb, leb, ◌==◌,
  if◌then◌else◌, Bool-cases, length, length-append, drop, length-drop, drop-append_length, All,
  take-append_length, ok, Result,
}
use node_rtc_connection.Buffer.{
  Buffer, be16, be32, slice, length-alloc, be16_lem, slice_seam, read_uint16_be,
}
use node_rtc_connection.Buffer.Fields.{
  four_bytes, uint16_be_returns, uint32_be_returns, first_field, second_field, behind_four,
}
use node_rtc_connection.Map.{nat_eq, put}
use native.Mathlib.Decide.{dec_le}
use node_rtc_connection.Sctp.Chunks.{pad4}
use node_rtc_connection.Ice.StunMessage.{
  StunAttribute, ParsedStunMessage, parse_loop, parse, magic_cookie,
}
use node_rtc_connection.Ice.StunMessage.Layout.{padding, attr_bytes, body_bytes, header_bytes, Fits}

-- One round of the loop where four bytes are left.
module _ (msg : Buffer) (end off a b c d : ℕ) (rest : Buffer)
    (here : drop off msg ≡ a ∷ b ∷ c ∷ d ∷ rest) where
  parse_round :
      (fuel : ℕ) (attrs : List (ℕ × Buffer))
      → off + 4 ≤ end
      → parse_loop (suc fuel) msg end off attrs ≡ (
          let alen = c * 256 + d in
          let more =
            parse_loop fuel msg end
              (off + 4 + pad4 alen)
              (put (a * 256 + b) (slice msg (off + 4) (off + 4 + alen)) attrs) in
          if ltb end (off + 4 + alen) then ok attrs else more)
  unfolding parse_loop
  parse_round fuel attrs h =
      let fits : leb (off + 4) end ≡ true = ground arith in
      rw (fits, first_field msg off a b c d rest here, second_field msg off a b c d rest here)

-- The loop's own exit.
parse_end :
    (fuel : ℕ) (msg : Buffer) (end off : ℕ) (attrs : List (ℕ × Buffer))
    → ¬ (off + 4 ≤ end)
    → parse_loop (suc fuel) msg end off attrs ≡ ok attrs
unfolding parse_loop
parse_end fuel msg end off attrs h = let e : leb (off + 4) end ≡ false = ground arith in rw e

parse_loop_returns :
    (fuel : ℕ) (msg : Buffer) (end off : ℕ) (attrs : List (ℕ × Buffer))
    → end ≤ length msg
    → length msg - off < fuel
    → (found : List (ℕ × Buffer)) × (parse_loop fuel msg end off attrs ≡ ok found)
parse_loop_returns zero msg end off attrs e h = absurd (omega arith)
parse_loop_returns (suc fuel) msg end off attrs e h = elim (dec_le (off + 4) end) [
  | no p ↦ (attrs, parse_end fuel msg end off attrs p)
  | yes p ↦
      let (a, b, c, d, rest, here) =
        four_bytes (drop off msg) (omega (arith, length-drop {0} off msg)) in
      let alen : ℕ = c * 256 + d in
      elim (Bool-cases (ltb end (off + 4 + alen))) [
        | inl stop ↦ (attrs, rw (parse_round msg end off a b c d rest here fuel attrs p, stop))
        | inr more ↦
            let (found, eq) =
              parse_loop_returns fuel msg end (off + 4 + pad4 alen)
                (put (a * 256 + b) (slice msg (off + 4) (off + 4 + alen)) attrs) e (omega arith) in
            (found, rw (parse_round msg end off a b c d rest here fuel attrs p, more) eq)
      ]
]

-- `parse` throws on no datagram, however short or damaged, and its loop ends.
pub parse_returns : (msg : Buffer) → (o : Option ParsedStunMessage) × (parse msg ≡ ok o)
unfolding parse
parse_returns msg = elim (dec_le 20 (length msg)) [
  | no p ↦ let short : ltb (length msg) 20 ≡ true = ground arith in (none, rw short)
  | yes p ↦
      let long : ltb (length msg) 20 ≡ false = ground arith in
      let (cookie, reads_cookie) =
        uint32_be_returns (drop 4 msg) (omega (arith, length-drop {0} 4 msg)) in
      let (type, reads_type) = uint16_be_returns msg (omega arith) in
      let (size, reads_size) =
        uint16_be_returns (drop 2 msg) (omega (arith, length-drop {0} 2 msg)) in
      elim (Bool-cases (not (cookie == magic_cookie) || ltb (length msg) (20 + size))) [
        | inl refused ↦ (none, rw (long, reads_cookie, reads_type, reads_size, refused))
        | inr accepted ↦
            let (found, eq) =
              parse_loop_returns (suc (length msg)) msg (20 + size) 20 [] (ground (arith, accepted))
                (omega arith) in
            (
              some (record {
                type = type;
                transaction_id = slice msg 8 20;
                attrs = found;
                raw = msg;
              }),
              rw (long, reads_cookie, reads_type, reads_size, accepted, eq),
            )
      ]
]

raw_of : Result (Option ParsedStunMessage) → Buffer
raw_of (ok (some p)) = p.raw
raw_of _ = []

-- What `parse` has seen of a message that it accepts.
pub parse_accepted :
    (msg : Buffer) (p : ParsedStunMessage)
    → parse msg ≡ ok (some p)
    → (size : ℕ) × (read_uint16_be msg 2 ≡ ok size) × (20 + size ≤ length msg) × (p.raw ≡ msg)
unfolding parse raw_of
parse_accepted msg p seen = elim (dec_le 20 (length msg)) [
  | no q ↦ let short : ltb (length msg) 20 ≡ true = ground arith in absurd (cc (rw short at seen))
  | yes q ↦
      let long : ltb (length msg) 20 ≡ false = ground arith in
      let (cookie, reads_cookie) =
        uint32_be_returns (drop 4 msg) (omega (arith, length-drop {0} 4 msg)) in
      let (type, reads_type) = uint16_be_returns msg (omega arith) in
      let (size, reads_size) =
        uint16_be_returns (drop 2 msg) (omega (arith, length-drop {0} 2 msg)) in
      elim (Bool-cases (not (cookie == magic_cookie) || ltb (length msg) (20 + size))) [
        | inl refused ↦
            absurd (cc (rw (long, reads_cookie, reads_type, reads_size, refused) at seen))
        | inr accepted ↦
            let room : 20 + size ≤ length msg = ground (arith, accepted) in
            let (found, eq) =
              parse_loop_returns (suc (length msg)) msg (20 + size) 20 [] room (omega arith) in
            (
              size,
              reads_size,
              room,
              sym (
                  ap raw_of
                    (rw (long, reads_cookie, reads_type, reads_size, accepted, eq) at seen)),
            )
      ]
]

-- The attributes as `parse` collects them: a later one of the same type takes the earlier's place.
abbrev pub collected : List StunAttribute → List (ℕ × Buffer) → List (ℕ × Buffer)
collected [] found = found
collected (a ∷ more) found = collected more (put a.type a.value found)

-- An attribute that `build` wrote, at a seam.
module _ (front tail : Buffer) (a : StunAttribute) where
  abbrev pub behind : Buffer
  behind = (a.value ++ padding (length a.value)) ++ tail

  pub here :
      drop (length front) (front ++ (attr_bytes a ++ tail))
      ≡ a.type / 256 ∷ a.type % 256 ∷ length a.value / 256 ∷ length a.value % 256 ∷ behind
  here = rw (drop-append_length front (attr_bytes a ++ tail))

  pub length-attr : length (attr_bytes a) ≡ 4 + pad4 (length a.value)
  length-attr = omega (
    arith,
    length-append {0} a.value (padding (length a.value)),
    length-alloc (pad4 (length a.value) - length a.value),
  )

  value_lem :
      slice (front ++ (attr_bytes a ++ tail)) (length front + 4) (length front + 4 + length a.value)
      ≡ a.value
  value_lem =
      let n : length front + 4 + length a.value - (length front + 4) ≡ length a.value =
        omega arith in
      rw (
        n,
        behind_four (front ++ (attr_bytes a ++ tail)) (length front) _ _ _ _ behind here,
        append_assoc a.value (padding (length a.value)) tail,
        take-append_length a.value (padding (length a.value) ++ tail),
      )

  parse_step :
      (fuel end : ℕ) (attrs : List (ℕ × Buffer))
      → length front + length (attr_bytes a) ≤ end
      → parse_loop (suc fuel) (front ++ (attr_bytes a ++ tail)) end (length front) attrs
        ≡ parse_loop fuel
            ((front ++ attr_bytes a) ++ tail)
            end
            (length (front ++ attr_bytes a))
            (put a.type a.value attrs)
  parse_step fuel end attrs h =
      let room : length front + 4 ≤ end = omega (arith, length-attr) in
      let going : ltb end (length front + 4 + length a.value) ≡ false =
        ground (arith, length-attr) in
      let next : length front + 4 + pad4 (length a.value) ≡ length (front ++ attr_bytes a) =
        omega (arith, length-attr, length-append {0} front (attr_bytes a)) in
      parse_round (front ++ (attr_bytes a ++ tail)) end (length front) _ _ _ _ behind here fuel
        attrs room
      ∙ rw (
        be16_lem a.type,
        be16_lem (length a.value),
        going,
        value_lem,
        next,
        append_assoc front (attr_bytes a) tail,
      )

parse_loop_reads :
    (fuel end : ℕ) (front : Buffer) (as' : List StunAttribute) (attrs : List (ℕ × Buffer))
    → All Fits as'
    → length (body_bytes as') < fuel
    → end ≡ length front + length (body_bytes as')
    → parse_loop fuel (front ++ body_bytes as') end (length front) attrs ≡ ok (collected as' attrs)
parse_loop_reads zero end front as' attrs f h e = absurd (omega arith)
parse_loop_reads (suc fuel) end front [] attrs f h e =
    parse_end fuel (front ++ []) end (length front) attrs (omega arith)
parse_loop_reads (suc fuel) end front (a ∷ more) attrs (f, fs) h e =
    let long : length (attr_bytes a ++ body_bytes more)
        ≡ length (attr_bytes a) + length (body_bytes more) =
      length-append (attr_bytes a) (body_bytes more) in
    parse_step front (body_bytes more) a fuel end attrs (omega (arith, long))
    ∙ parse_loop_reads fuel end (front ++ attr_bytes a) more (put a.type a.value attrs) fs
        (omega (arith, long, length-attr front (body_bytes more) a))
        (omega (arith, long, length-append {0} front (attr_bytes a)))

-- The message of a builder's attributes, as `build` lays it out.
abbrev pub message_bytes : ℕ → Buffer → List StunAttribute → Buffer
message_bytes type transaction_id attrs =
    header_bytes type (length (body_bytes attrs)) transaction_id ++ body_bytes attrs

pub parse-message :
    (type : ℕ) (transaction_id : Buffer) (attrs : List StunAttribute)
    → length transaction_id ≡ 12
    → All Fits attrs
    → parse (message_bytes type transaction_id attrs)
      ≡ ok (
          some (record {
            type = type;
            transaction_id = transaction_id;
            attrs = collected attrs [];
            raw = message_bytes type transaction_id attrs;
          }))
unfolding parse
parse-message type tid attrs h fits =
    let n = length (body_bytes attrs) in
    let front = header_bytes type n tid in
    let whole : length (message_bytes type tid attrs) ≡ 20 + n =
      omega (arith, length-append {0} tid (body_bytes attrs), h) in
    let long : ltb (length (message_bytes type tid attrs)) 20 ≡ false = ground (arith, whole) in
    let within : ltb (length (message_bytes type tid attrs)) (20 + n) ≡ false =
      ground (arith, whole) in
    let id : slice (message_bytes type tid attrs) 8 20 ≡ tid =
      slice_seam (be16 type ++ (be16 n ++ be32 magic_cookie)) tid (body_bytes attrs) 8 20 refl
        (omega (arith, h)) in
    let reads : parse_loop (suc (length (message_bytes type tid attrs)))
          (message_bytes type tid attrs) (20 + n) 20 []
        ≡ ok (collected attrs []) =
      ap
        (λ (off : ℕ).
          parse_loop (suc (length (message_bytes type tid attrs))) (message_bytes type tid attrs)
            (20 + n) off [])
        (omega (arith, h))
      ∙ parse_loop_reads (suc (length (message_bytes type tid attrs))) (20 + n) front attrs [] fits
          (omega (arith, whole)) (omega (arith, h)) in
    rw (long, be16_lem type, be16_lem n, within, id, reads)
