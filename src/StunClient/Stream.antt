-- ===== src/StunClient/Stream.antt =====
-- src/stun/stun-client.ts: the messages of a byte stream, over TLS or TCP, in whatever chunks it comes.
-- `#handleMessage` is taken to return; the messages that it is called with are the result.
use node_rtc_connection.Prelude.{
  ℕ, zero, suc, ◌+◌, ◌≤◌, ◌<◌, ◌≡◌, sym, ap, ◌∙◌, true, false, List, [], ◌∷◌, ◌++◌, arith, ltb,
  if◌then◌else◌, length, take, drop, length-drop, out_of_fuel, Result, ok, err, ◌>>=◌,
}
use native.Mathlib.Decide.{dec_le}
use node_rtc_connection.Buffer.{Buffer, read_uint16_be}
use node_rtc_connection.Buffer.Fields.{uint16_be_returns}

-- The messages in front, and what is kept in `#streamBuffer`.
abbrev pub Split : Type 0
Split = List Buffer × Buffer

abbrev pub prepend : Buffer → Split → Result Split
prepend message s = ok (message ∷ s.0, s.1)

-- The loop of `#onStreamData`. Each message has 20 bytes or more: one round more than there are bytes
-- is enough.
unfoldable pub stream_loop : ℕ → Buffer → Result Split
stream_loop zero buffer = err out_of_fuel
stream_loop (suc fuel) buffer =
    let round : Result Split = do
      message_length ← read_uint16_be buffer 2
      let total : ℕ = 20 + message_length
      let more : Result Split = stream_loop fuel (drop total buffer) >>= prepend (take total buffer)
      if ltb (length buffer) total then ok ([], buffer) else more
    in if ltb (length buffer) 20 then ok ([], buffer) else round

-- `#onStreamData` on what `#streamBuffer` holds and a chunk.
unfoldable pub on_stream_data : Buffer → Buffer → Result Split
on_stream_data held chunk =
    let joined : Buffer = if ltb 0 (length held) then held ++ chunk else chunk in
    stream_loop (suc (length joined)) joined

abbrev pub with_later : List Buffer → Split → Result Split
with_later messages s = ok (messages ++ s.0, s.1)

-- One chunk after another.
unfoldable pub on_chunks : List Buffer → Buffer → Result Split
on_chunks [] held = ok ([], held)
on_chunks (chunk ∷ more) held = do
  first ← on_stream_data held chunk
  later ← on_chunks more first.1
  with_later first.0 later

-- A buffer without a whole message.
pub stream_short :
    (fuel : ℕ) (buffer : Buffer)
    → length buffer < 20
    → stream_loop (suc fuel) buffer ≡ ok ([], buffer)
unfolding stream_loop
stream_short fuel buffer h = let e : ltb (length buffer) 20 ≡ true = ground arith in rw e

pub stream_partial :
    (fuel n : ℕ) (buffer : Buffer)
    → 20 ≤ length buffer
    → read_uint16_be buffer 2 ≡ ok n
    → length buffer < 20 + n
    → stream_loop (suc fuel) buffer ≡ ok ([], buffer)
unfolding stream_loop
stream_partial fuel n buffer h r l =
    let e : ltb (length buffer) 20 ≡ false = ground arith in
    let e' : ltb (length buffer) (20 + n) ≡ true = ground arith in rw (e, r, e')

pub stream_whole :
    (fuel n : ℕ) (buffer : Buffer)
    → read_uint16_be buffer 2 ≡ ok n
    → 20 + n ≤ length buffer
    → stream_loop (suc fuel) buffer
      ≡ (stream_loop fuel (drop (20 + n) buffer) >>= prepend (take (20 + n) buffer))
unfolding stream_loop
stream_whole fuel n buffer r l =
    let e : ltb (length buffer) 20 ≡ false = ground arith in
    let e' : ltb (length buffer) (20 + n) ≡ false = ground arith in rw (e, r, e')

-- The three cases of a buffer.
pub data Shape (buffer : Buffer) : Type 0 where
  short : length buffer < 20 → Shape buffer
  part :
      (n : ℕ)
      → 20 ≤ length buffer
      → read_uint16_be buffer 2 ≡ ok n
      → length buffer < 20 + n
      → Shape buffer
  whole : (n : ℕ) → read_uint16_be buffer 2 ≡ ok n → 20 + n ≤ length buffer → Shape buffer

pub shape : (buffer : Buffer) → Shape buffer
shape buffer = elim (dec_le 20 (length buffer)) [
  | no p ↦ short (omega arith)
  | yes p ↦
      let (n, r) = uint16_be_returns (drop 2 buffer) (omega (arith, length-drop {0} 2 buffer)) in
      elim (dec_le (20 + n) (length buffer)) [
        | yes q ↦ whole n r q
        | no q ↦ part n p r (omega arith)
      ]
]

-- Enough rounds are enough.
pub stream_fuel :
    (f g : ℕ) (buffer : Buffer)
    → length buffer < f
    → length buffer < g
    → stream_loop f buffer ≡ stream_loop g buffer
stream_fuel zero g buffer p q = absurd (omega arith)
stream_fuel (suc f) zero buffer p q = absurd (omega arith)
stream_fuel (suc f) (suc g) buffer p q = elim (shape buffer) [
  | short l ↦ stream_short f buffer l ∙ sym (stream_short g buffer l)
  | part n h r l ↦ stream_partial f n buffer h r l ∙ sym (stream_partial g n buffer h r l)
  | whole n r l ↦
      stream_whole f n buffer r l
      ∙ ap (λ (s : Result Split). s >>= prepend (take (20 + n) buffer))
          (stream_fuel f g (drop (20 + n) buffer) (omega (arith, length-drop {0} (20 + n) buffer))
            (omega (arith, length-drop {0} (20 + n) buffer)))
      ∙ sym (stream_whole g n buffer r l)
]
