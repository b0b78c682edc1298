-- ===== src/Buffer/Fields.antt =====
-- Reads at an offset, from what stands there.
use node_rtc_connection.Prelude.{
  ℕ, ◌+◌, ◌-◌, ◌*◌, ◌≤◌, ◌≡◌, refl, ap, [], ◌∷◌, ◌++◌, arith, length, drop, length-take,
  length-drop, take-append_length, drop-drop, ok,
}
use node_rtc_connection.Buffer.{Buffer, uint16_be, uint32_be, read_uint8, read_uint16_be, slice}

-- The first four bytes of a buffer that has as many.
pub four_bytes :
    (buf : Buffer) → 4 ≤ length buf → (a b c d : ℕ) × (rest : Buffer) × (buf ≡ a ∷ b ∷ c ∷ d ∷ rest)
four_bytes [] h = absurd (omega arith)
four_bytes (a ∷ []) h = absurd (omega arith)
four_bytes (a ∷ b ∷ []) h = absurd (omega arith)
four_bytes (a ∷ b ∷ c ∷ []) h = absurd (omega arith)
four_bytes (a ∷ b ∷ c ∷ d ∷ rest) h = (a, b, c, d, rest, refl)

-- Reads within a buffer return.
pub uint16_be_returns : (buf : Buffer) → 2 ≤ length buf → (v : ℕ) × (uint16_be buf ≡ ok v)
uint16_be_returns [] h = absurd (omega arith)
uint16_be_returns (a ∷ []) h = absurd (omega arith)
uint16_be_returns (a ∷ b ∷ rest) h = (a * 256 + b, refl)

pub uint32_be_returns : (buf : Buffer) → 4 ≤ length buf → (v : ℕ) × (uint32_be buf ≡ ok v)
uint32_be_returns buf h =
    let (a, b, c, d, rest, here) = four_bytes buf h in
    (a * 16777216 + b * 65536 + c * 256 + d, ap uint32_be here)

module _ (packet : Buffer) (off a b c d : ℕ) (rest : Buffer)
    (here : drop off packet ≡ a ∷ b ∷ c ∷ d ∷ rest) where
  pub room_for_four : off + 4 ≤ length packet
  room_for_four = omega (arith, ap length here, length-drop {0} off packet)

  pub first_byte : read_uint8 packet off ≡ ok a
  first_byte = rw here

  pub second_byte : read_uint8 packet (off + 1) ≡ ok b
  second_byte = rw (← drop-drop 1 off packet, here)

  pub first_field : read_uint16_be packet off ≡ ok (a * 256 + b)
  first_field = rw here

  pub second_field : read_uint16_be packet (off + 2) ≡ ok (c * 256 + d)
  second_field = rw (← drop-drop 2 off packet, here)

  pub behind_four : drop (off + 4) packet ≡ rest
  behind_four = rw (← drop-drop 4 off packet, here)

  pub length-body :
      (size : ℕ)
      → 4 ≤ size
      → off + size ≤ length packet
      → size ≡ 4 + length (slice packet (off + 4) (off + size))
  length-body size lo hi = omega (
    arith,
    length-take {0} (off + size - (off + 4)) (drop (off + 4) packet),
    length-drop {0} (off + 4) packet,
  )

  -- A body of known length behind the four bytes.
  pub slice-body :
      (body more : Buffer)
      → rest ≡ body ++ more
      → slice packet (off + 4) (off + (4 + length body)) ≡ body
  slice-body body more e =
      let span : off + (4 + length body) - (off + 4) ≡ length body = omega arith in
      rw (behind_four, e, span, take-append_length body more)
