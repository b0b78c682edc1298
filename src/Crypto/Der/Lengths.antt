-- ===== src/Crypto/Der/Lengths.antt =====
-- src/crypto/der.ts: a wrapped value can be taken apart again, by a reader of DER as X.690 defines it.
use node_rtc_connection.Prelude.{
  ℕ, zero, suc, ◌+◌, ◌-◌, ◌*◌, ◌/◌, ◌%◌, ◌<◌, ◌≤◌, ◌≡◌, refl, sym, ap, ◌∙◌, Bool-cases, inl, inr,
  true, false, Option, none, some, [], ◌∷◌, ◌++◌, append-nil, append_assoc, ltb, ◌==◌,
  if◌then◌else◌, length, length-append, take, drop, take-append_length, drop-append_length, arith,
}
use Prim.Native.Nat.{bit_and, bit_or}
use node_rtc_connection.Prelude.{not, get_or}
use node_rtc_connection.Buffer.{Buffer}
use node_rtc_connection.Crypto.Der.{
  length_bytes, encode_length, tlv, integer_bytes, positive, strip_zeros, encode_integer,
  encode_integer_from_buffer,
}

-- The number that the bytes spell behind a number that is read so far.
abbrev pub value_from : ℕ → Buffer → ℕ
value_from x [] = x
value_from x (b ∷ bs) = value_from (x * 256 + b) bs

-- A length, as X.690 reads it, and the bytes behind it.
abbrev pub read_length : Buffer → Option (ℕ × Buffer)
read_length [] = none
read_length (b ∷ bs) =
    if ltb b 128
    then some (b, bs)
    else (if ltb (length bs) (b - 128)
        then none
        else some (value_from 0 (take (b - 128) bs), drop (b - 128) bs))

length_bytes-value :
    (fuel n : ℕ) (bytes : Buffer)
    → n ≤ fuel
    → n < 4294967296
    → value_from 0 (length_bytes fuel n bytes) ≡ value_from n bytes
unfolding length_bytes
length_bytes-value zero n bytes h small = let z : n ≡ 0 = omega arith in rw z
length_bytes-value (suc fuel) n bytes h small = elim (Bool-cases (n == 0)) [
  | inl e ↦ let z : n ≡ 0 = ground (arith, e) in rw (e, z)
  | inr e ↦
      let pos' : 0 < n = ground (arith, e) in
      let back : n % 4294967296 / 256 * 256 + n % 256 ≡ n = omega arith in
      rw e (
        length_bytes-value fuel (n % 4294967296 / 256) (n % 256 ∷ bytes) (omega arith) (omega arith)
        ∙ ap (λ (x : ℕ). value_from x bytes) back)
]

-- 256 to the power `k`.
abbrev limit : ℕ → ℕ
limit zero = 1
limit (suc k) = limit k * 256

length-length_bytes :
    (k fuel n : ℕ) (bytes : Buffer)
    → n < limit k
    → length (length_bytes fuel n bytes) ≤ k + length bytes
unfolding length_bytes
length-length_bytes k zero n bytes h = omega arith
length-length_bytes zero (suc fuel) n bytes h =
    let e : (n == 0) ≡ true = ground arith in rw e (omega arith)
length-length_bytes (suc k) (suc fuel) n bytes h = elim (Bool-cases (n == 0)) [
  | inl e ↦ rw e (omega arith)
  | inr e ↦ rw e (
      omega
        (arith, length-length_bytes k fuel (n % 4294967296 / 256) (n % 256 ∷ bytes) (omega arith)))
]

or_lem : (k : ℕ) → k ≤ 4 → bit_or 128 k ≡ 128 + k
or_lem zero h = refl
or_lem (suc zero) h = refl
or_lem (suc (suc zero)) h = refl
or_lem (suc (suc (suc zero))) h = refl
or_lem (suc (suc (suc (suc zero)))) h = refl
or_lem (suc (suc (suc (suc (suc k))))) h = absurd (omega arith)

-- A length below 2^32 is read back from what `encodeLength` wrote, whatever stands behind it.
pub read_length-encode_length :
    (len : ℕ) (rest : Buffer)
    → len < 4294967296
    → read_length (encode_length len ++ rest) ≡ some (len, rest)
unfolding encode_length
read_length-encode_length len rest h =
    let bytes = length_bytes len len [] in
    let size : length bytes ≤ 4 = omega (arith, length-length_bytes 4 len len [] (omega arith)) in
    let first = or_lem (length bytes) size in
    let value : value_from 0 bytes ≡ len = length_bytes-value len len [] (omega arith) h in
    elim (Bool-cases (ltb len 128)) [
      | inl e ↦ rw (e, e) refl
      | inr e ↦
          let long : ltb (128 + length bytes) 128 ≡ false = ground arith in
          let back : 128 + length bytes - 128 ≡ length bytes = omega arith in
          let enough : ltb (length (bytes ++ rest)) (length bytes) ≡ false =
            ground (arith, length-append bytes rest) in
          rw
            (
              e,
              first,
              long,
              back,
              enough,
              take-append_length bytes rest,
              drop-append_length bytes rest,
              value,
            )
            refl
    ]

-- The tag, the body and what stands behind them.
abbrev pub split_body : ℕ → Option (ℕ × Buffer) → Option (ℕ × Buffer × Buffer)
split_body tag none = none
split_body tag (some (len, bs)) =
    if ltb (length bs) len then none else some (tag, take len bs, drop len bs)

abbrev pub read_tlv : Buffer → Option (ℕ × Buffer × Buffer)
read_tlv [] = none
read_tlv (tag ∷ bs) = split_body tag (read_length bs)

-- A value that `tlv` wrapped, of fewer than 2^32 bytes and with a tag of one byte, is read back with its
-- tag by a reader of DER, whatever stands behind it.
pub read_tlv-tlv :
    (tag : ℕ) (body rest : Buffer)
    → tag < 256
    → length body < 4294967296
    → read_tlv (tlv tag body ++ rest) ≡ some (tag, body, rest)
unfolding tlv
read_tlv-tlv tag body rest t h =
    let tag_is : tag % 256 ≡ tag = omega arith in
    let enough : ltb (length (body ++ rest)) (length body) ≡ false =
      ground (arith, length-append body rest) in
    rw
      (
        tag_is,
        append-nil body,
        append_assoc (encode_length (length body)) body rest,
        read_length-encode_length (length body) (body ++ rest) h,
        enough,
        take-append_length body rest,
        drop-append_length body rest,
      )
      refl

integer_bytes-value :
    (fuel n : ℕ) (bytes : Buffer)
    → n ≤ fuel
    → value_from 0 (integer_bytes fuel n bytes) ≡ value_from n bytes
unfolding integer_bytes
integer_bytes-value zero n bytes h = let z : n ≡ 0 = omega arith in rw z
integer_bytes-value (suc fuel) n bytes h = elim (Bool-cases (n == 0)) [
  | inl e ↦ let z : n ≡ 0 = ground (arith, e) in rw (e, z)
  | inr e ↦
      let pos' : 0 < n = ground (arith, e) in
      let back : n / 256 * 256 + n % 256 ≡ n = omega arith in
      rw e (
        integer_bytes-value fuel (n / 256) (n % 256 ∷ bytes) (omega arith)
        ∙ ap (λ (x : ℕ). value_from x bytes) back)
]

value_from-positive : (body : Buffer) → value_from 0 (positive body) ≡ value_from 0 body
unfolding positive
value_from-positive body = elim (Bool-cases (not (bit_and (get_or body 0 0) 0x80 == 0))) [
  | inl e ↦ rw e refl
  | inr e ↦ rw e refl
]

value_from-strip_zeros : (bs : Buffer) → value_from 0 (strip_zeros bs) ≡ value_from 0 bs
unfolding strip_zeros
value_from-strip_zeros [] = refl
value_from-strip_zeros (a ∷ []) = refl
value_from-strip_zeros (a ∷ b ∷ bs) = elim (Bool-cases (a == 0)) [
  | inl e ↦ let z : a ≡ 0 = ground (arith, e) in rw (e, z) (value_from-strip_zeros (b ∷ bs))
  | inr e ↦ rw e refl
]

-- The body of the INTEGER that `encodeInteger` wraps spells the number, and the one that
-- `encodeIntegerFromBuffer` wraps spells the same number as the bytes that it was given.
pub encode_integer-value :
    (value : ℕ) (buf : Buffer)
    → ((body : Buffer) × (encode_integer value ≡ tlv 0x02 body) × (value_from 0 body ≡ value))
      × ((body : Buffer) × (encode_integer_from_buffer buf ≡ tlv 0x02 body)
          × (value_from 0 body ≡ value_from 0 buf))
unfolding encode_integer encode_integer_from_buffer
encode_integer-value value buf = (
  of_number,
  (
    positive (strip_zeros buf),
    refl,
    value_from-positive (strip_zeros buf) ∙ value_from-strip_zeros buf,
  ),
)
  where
    of_number :
        (body : Buffer) × (encode_integer value ≡ tlv 0x02 body) × (value_from 0 body ≡ value)
    of_number = elim (Bool-cases (value == 0)) [
      | inl e ↦ let z : value ≡ 0 = ground (arith, e) in (0 ∷ [], rw e refl, sym z)
      | inr e ↦ (
        positive (integer_bytes value value []),
        rw e refl,
        value_from-positive (integer_bytes value value [])
            ∙ integer_bytes-value value value [] (omega arith),
      )
    ]
