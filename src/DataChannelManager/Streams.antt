-- ===== src/DataChannelManager/Streams.antt =====
-- src/sctp/datachannel-manager.ts: the streams that `#allocateStreamId` gives out.
use node_rtc_connection.Prelude.{
  ℕ, zero, suc, ◌+◌, ◌*◌, ◌≤◌, ◌<◌, ◌≡◌, refl, sym, ap, ◌∙◌, inl, inr, true, false, some, List, [],
  ◌∷◌, arith, ◌==◌, Bool-cases,
}
use node_rtc_connection.Buffer.{Buffer}
use node_rtc_connection.Map
use node_rtc_connection.Map.{nat_eq}
use node_rtc_connection.Effects.{returned}
use node_rtc_connection.DataChannelManager.{
  ChannelEntry, Manager, Transport, last_stream, free_stream,
}
use node_rtc_connection.DataChannelManager.Handlers.{allocate_stream_id}

has_bounded :
    {S : Type 0} (id : ℕ) (m : List (ℕ × ChannelEntry S)) → Map.has id m ≡ true → id ≤ last_stream m
unfolding Map.has
has_bounded id [] h = cc
has_bounded id ((j, e) ∷ m) h = elim (Bool-cases (j == id)) [
  | inl q ↦ ground (arith, q)
  | inr q ↦ let below = has_bounded id m (rw q at h) in omega (arith, below)
]

free_stream_lem :
    {S : Type 0} (fuel : ℕ) (m : List (ℕ × ChannelEntry S)) (id : ℕ)
    → 1 ≤ fuel
    → last_stream m + 1 < id + fuel
    → (k : ℕ) × (free_stream fuel m id ≡ some (id + 2 * k)) × (Map.has (id + 2 * k) m ≡ false)
unfolding free_stream
free_stream_lem zero m id f n = absurd (omega arith)
free_stream_lem (suc fuel) m id f n = elim (Bool-cases (Map.has id m)) [
  | inl h ↦
      let low = has_bounded id m h in
      let (k, found, free) =
        free_stream_lem fuel m (id + 2) (omega (arith, low, n)) (omega (arith, n)) in
      let next : id + 2 + 2 * k ≡ id + 2 * suc k = omega arith in
      (suc k, rw h (found ∙ ap some next), rw next at free)
  | inr h ↦
      let none_over : id ≡ id + 2 * 0 = omega arith in
      (0, rw h (ap some none_over), rw (sym none_over) h)
]

-- `#allocateStreamId` returns a stream that has no channel, and of the parity that the manager began with:
-- the next stream or one that is an even number above it; the stream after the next is taken up behind
-- it. The loop always ends.
pub allocate_stream_id_lem :
    {S T W : Type 0} (utf8 : S → Buffer) (of_utf8 : Buffer → S) (transport : Transport T W)
    (m : Manager S T)
    → (k : ℕ) × (allocate_stream_id utf8 of_utf8 transport m
        ≡ returned
            (m.next_stream_id + 2 * k)
            (record m { next_stream_id = m.next_stream_id + 2 * k + 2 })
            [])
      × (Map.has (m.next_stream_id + 2 * k) m.channels ≡ false)
unfolding allocate_stream_id
allocate_stream_id_lem utf8 of_utf8 transport m =
    let (k, found, free) =
      free_stream_lem (suc (suc (last_stream m.channels))) m.channels m.next_stream_id (omega arith)
        (omega arith) in
    (k, rw found refl, free)
