-- ===== src/Buffer.antt =====
-- Node's Buffer as a list of bytes: the operations of it that the code uses, with the RangeError
-- that an access out of bounds, or a value that does not fit its field, throws.
pub mod Fields
pub mod Equality
use node_rtc_connection.Prelude.{
  ℕ, zero, suc, ◌+◌, ◌-◌, ◌*◌, ◌/◌, ◌%◌, ◌≤◌, ◌<◌, ◌≡◌, refl, sym, ap, ◌∙◌, arith, List, [], ◌∷◌,
  ◌++◌, Bool, true, ltb, leb, lt→ltb, if◌then◌else◌, length, take, drop, replicate, length-append,
  length-drop, drop_all, take_all, drop-append_length, take-append_length, drop-append, take-append,
  append_assoc, Result, ok, err, range_error, ◌>>=◌, replicate-add, length-take, min,
  length-replicate,
}

abbrev pub Buffer : Type 0
Buffer = List ℕ

abbrev pub IsByte : ℕ → Type 0
IsByte b = b < 256

abbrev pub IsU16 : ℕ → Type 0
IsU16 v = v < 65536

abbrev pub IsU32 : ℕ → Type 0
IsU32 v = v < 4294967296

-- `v >>> 0` on a number that is not negative.
abbrev pub to_uint32 : ℕ → ℕ
to_uint32 v = v % 4294967296

pub to_uint32_id : (v : ℕ) → IsU32 v → to_uint32 v ≡ v
to_uint32_id v h = omega arith

-- The bytes of a number, the most significant first.
abbrev pub be16 : ℕ → Buffer
be16 v = v / 256 ∷ v % 256 ∷ []

abbrev pub be32 : ℕ → Buffer
be32 v = v / 16777216 ∷ v / 65536 % 256 ∷ v / 256 % 256 ∷ v % 256 ∷ []

abbrev pub le32 : ℕ → Buffer
le32 v = v % 256 ∷ v / 256 % 256 ∷ v / 65536 % 256 ∷ v / 16777216 ∷ []

-- The number in the first bytes of a buffer.
abbrev pub uint8 : Buffer → Result ℕ
uint8 (a ∷ r) = ok a
uint8 _ = err range_error

abbrev pub uint16_be : Buffer → Result ℕ
uint16_be (a ∷ b ∷ r) = ok (a * 256 + b)
uint16_be _ = err range_error

abbrev pub uint32_be : Buffer → Result ℕ
uint32_be (a ∷ b ∷ c ∷ d ∷ r) = ok (a * 16777216 + b * 65536 + c * 256 + d)
uint32_be _ = err range_error

abbrev pub uint32_le : Buffer → Result ℕ
uint32_le (a ∷ b ∷ c ∷ d ∷ r) = ok (d * 16777216 + c * 65536 + b * 256 + a)
uint32_le _ = err range_error

abbrev pub read_uint8 : Buffer → ℕ → Result ℕ
read_uint8 buf off = uint8 (drop off buf)

abbrev pub read_uint16_be : Buffer → ℕ → Result ℕ
read_uint16_be buf off = uint16_be (drop off buf)

abbrev pub read_uint32_be : Buffer → ℕ → Result ℕ
read_uint32_be buf off = uint32_be (drop off buf)

abbrev pub read_uint32_le : Buffer → ℕ → Result ℕ
read_uint32_le buf off = uint32_le (drop off buf)

-- `buf.slice(from, to)`: the ends are clamped to the buffer.
abbrev pub slice : Buffer → ℕ → ℕ → Buffer
slice buf from to = take (to - from) (drop from buf)

-- `Buffer.alloc(n)`.
abbrev pub alloc : ℕ → Buffer
alloc n = replicate n 0

-- `Buffer.concat(list)`.
abbrev pub concat : List Buffer → Buffer
concat [] = []
concat (b ∷ bs) = b ++ concat bs

abbrev pub overwrite : Buffer → ℕ → Buffer → Result Buffer
overwrite bytes off buf =
    if leb (off + length bytes) (length buf)
    then ok (take off buf ++ (bytes ++ drop (off + length bytes) buf))
    else err range_error

-- `buf.writeUInt8(v, off)` and the like, with the buffer as the last argument and the result.
abbrev pub write_uint8 : ℕ → ℕ → Buffer → Result Buffer
write_uint8 v off buf = if ltb v 256 then overwrite (v ∷ []) off buf else err range_error

abbrev pub write_uint16_be : ℕ → ℕ → Buffer → Result Buffer
write_uint16_be v off buf = if ltb v 65536 then overwrite (be16 v) off buf else err range_error

abbrev pub write_uint32_be : ℕ → ℕ → Buffer → Result Buffer
write_uint32_be v off buf = if ltb v 4294967296 then overwrite (be32 v) off buf else err range_error

abbrev pub write_uint32_le : ℕ → ℕ → Buffer → Result Buffer
write_uint32_le v off buf = if ltb v 4294967296 then overwrite (le32 v) off buf else err range_error

-- `src.copy(dst, off)`: what does not fit is left out.
unfoldable pub copy : Buffer → ℕ → Buffer → Buffer
copy src off dst = take off dst ++ (take (length dst - off) src ++ drop (off + length src) dst)

-- The fields read back.
pub be16_lem : (v : ℕ) → v / 256 * 256 + v % 256 ≡ v
be16_lem v = omega arith

pub be32_lem :
    (v : ℕ) → v / 16777216 * 16777216 + v / 65536 % 256 * 65536 + v / 256 % 256 * 256 + v % 256 ≡ v
be32_lem v = omega arith

pub concat-append : (xs ys : List Buffer) → concat (xs ++ ys) ≡ concat xs ++ concat ys
concat-append [] ys = refl
concat-append (x ∷ xs) ys = rw (concat-append xs ys, append_assoc)

pub length-drop_length : (xs ys : Buffer) → length (xs ++ ys) - length xs ≡ length ys
length-drop_length xs ys = omega (arith, length-append {0} xs ys)

-- `copy` at a seam.
pub copy-append :
    (src front rest : Buffer)
    → copy src (length front) (front ++ rest)
      ≡ front ++ (take (length rest) src ++ drop (length src) rest)
unfolding copy
copy-append src front rest =
    let e : length front + length src - length front ≡ length src = omega arith in
    let z : drop (length front + length src) front ≡ [] = drop_all _ front (omega arith) in
    rw (
      take-append_length front rest,
      length-drop_length front rest,
      drop-append (length front + length src) front rest,
      e,
      z,
    )

-- `alloc` in front of a field, and behind what is copied into it.
pub alloc_four : (n : ℕ) → 4 ≤ n → alloc n ≡ 0 ∷ 0 ∷ 0 ∷ 0 ∷ alloc (n - 4)
alloc_four zero h = absurd (omega arith)
alloc_four (suc zero) h = absurd (omega arith)
alloc_four (suc (suc zero)) h = absurd (omega arith)
alloc_four (suc (suc (suc zero))) h = absurd (omega arith)
alloc_four (suc (suc (suc (suc n)))) h =
    let e : suc (suc (suc (suc n))) - 4 ≡ n = omega arith in rw e

pub drop-alloc : (m n : ℕ) → drop m (alloc n) ≡ alloc (n - m)
drop-alloc zero n = let e : n - 0 ≡ n = omega arith in rw e
drop-alloc (suc m) zero = let e : 0 - suc m ≡ 0 = omega arith in rw e
drop-alloc (suc m) (suc n) = let e : suc n - suc m ≡ n - m = omega arith in rw e (drop-alloc m n)

pub length-alloc : (n : ℕ) → length (alloc n) ≡ n
length-alloc n = length-replicate n 0

-- A body copied into the zeros behind a header.
pub copy-alloc :
    (src front : Buffer) (n : ℕ)
    → length src ≤ n
    → copy src (length front) (front ++ alloc n) ≡ front ++ (src ++ alloc (n - length src))
copy-alloc src front n h =
    rw
      (copy-append src front (alloc n), length-alloc n, take_all n src h, drop-alloc (length src) n)

-- A field written, and read, at a seam.
pub overwrite_seam :
    (bytes front old rest : Buffer)
    → length old ≡ length bytes
    → overwrite bytes (length front) (front ++ (old ++ rest)) ≡ ok ((front ++ bytes) ++ rest)
overwrite_seam bytes front old rest h =
    let fits : leb (length front + length bytes) (length (front ++ (old ++ rest))) ≡ true =
      ground (arith, length-append front (old ++ rest), length-append old rest) in
    let none_left : length front + length old - length front ≡ length old = omega arith in
    let gone : drop (length front + length old) front ≡ [] = drop_all _ front (omega arith) in
    let behind : drop (length front + length bytes) (front ++ (old ++ rest)) ≡ rest =
      rw (← h, drop-append (length front + length old) front (old ++ rest), none_left, gone)
        (drop-append_length old rest) in
    rw (fits, take-append_length front (old ++ rest), behind, append_assoc)

-- A slice between two seams.
pub slice_seam :
    (front mid back : Buffer) (from to : ℕ)
    → from ≡ length front
    → to ≡ length front + length mid
    → slice (front ++ (mid ++ back)) from to ≡ mid
slice_seam front mid back from to f t =
    let n : to - length front ≡ length mid = omega arith in
    rw (f, drop-append_length front (mid ++ back), n) (take-append_length mid back)
