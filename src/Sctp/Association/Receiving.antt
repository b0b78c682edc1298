-- ===== src/Sctp/Association/Receiving.antt =====
-- src/sctp/association.ts: DATA chunks in: TSN tracking, reassembly, and the SACK that answers.
use node_rtc_connection.Prelude.{
  ℕ, zero, suc, Bool, ◌&&◌, not, Option, none, some, List, [], ◌∷◌, ◌++◌, ltb, leb, ◌==◌,
  if◌then◌else◌, out_of_fuel,
}
use node_rtc_connection.Buffer.{to_uint32, concat}
use node_rtc_connection.Sctp.Association.{
  Assoc, message, FragmentBuffer, default_rwnd, max_ooo_chunks,
}
use node_rtc_connection.Sctp.Association.Monad.{
  Handler, ◌>>=◌, ◌>>◌, skip, self, modify, emit, lift, throw, emit_packet,
}
use node_rtc_connection.Map
use node_rtc_connection.Map.{nat_eq, pair_eq}
use node_rtc_connection.Sctp.Chunks.{ParsedChunk, encode_chunk, sack}
use node_rtc_connection.Sctp.Bodies.{DataBody, parse_data_body, encode_sack_body}
use node_rtc_connection.Sctp.Serial.{next_tsn, sn_lt, sub_tsn}

-- `this.#peerCumulativeTSN as number`: null counts as 0 in arithmetic.
abbrev pub cumulative : Option ℕ → ℕ
cumulative none = 0
cumulative (some tsn) = tsn

-- `${data.streamId}:${data.unordered ? 'u' : 'o'}`.
abbrev pub fragment_key : DataBody → ℕ × Bool
fragment_key d = (d.stream_id, d.unordered)

-- The buffer that the map has for the key, with the data of `d` behind it.
abbrev pub extend : DataBody → Option FragmentBuffer → Option FragmentBuffer
extend d none = none
extend d (some b) = some (record b { parts = b.parts ++ (d.user_data ∷ []) })

-- The buffer that `#consume` goes on with: a new one at a beginning, else the map's, and `none` where
-- the beginning is missing.
abbrev pub extended : DataBody → Option FragmentBuffer → Option FragmentBuffer
extended d found =
    if d.beginning
    then some (record { ppid = d.ppid; parts = d.user_data ∷ [] })
    else extend d found

-- The rest of `#consume`: the buffer stays in the map, or the message is complete. (`set`, and `push`
-- on the map's own buffer, are both a `put` here.)
unfoldable pub settle : DataBody → Option FragmentBuffer → Handler
settle d none = skip
settle d (some b) = do
  modify (λ a. record a { fragments = Map.put (fragment_key d) b a.fragments })
  let whole : Handler = do
    modify (λ a. record a { fragments = Map.delete (fragment_key d) a.fragments })
    emit (message (record { stream_id = d.stream_id; ppid = b.ppid; message = concat b.parts }))
  if d.ending then whole else skip

-- `#consume`.
unfoldable pub consume : DataBody → Handler
consume d = do
  a ← self
  let single : Handler =
      emit (message (record { stream_id = d.stream_id; ppid = d.ppid; message = d.user_data }))
  let part = settle d (extended d (Map.get (fragment_key d) a.fragments))
  if d.beginning && d.ending then single else part

-- The `while` loop of `#deliverData`, with the rounds that are left: a buffered chunk is taken off
-- the map and consumed, and the loop goes on behind it. A round takes an entry off the map, so one
-- round more than the map has entries is enough.
unfoldable pub drain : ℕ → Handler
drain zero = throw out_of_fuel
drain (suc fuel) = do
  a ← self
  let next = next_tsn (cumulative a.peer_cumulative_tsn)
  let take_next : DataBody → Handler = λ d. do
    modify (λ b. record b {
      received_out_of_order = Map.delete next b.received_out_of_order;
      peer_cumulative_tsn = some next;
    })
    consume d
    drain fuel
  elim (Map.get next a.received_out_of_order) [ none ↦ skip | some d ↦ take_next d ]

-- `#deliverData`.
unfoldable pub deliver_data : DataBody → Handler
deliver_data d = do
  a ← self
  let expected = next_tsn (cumulative a.peer_cumulative_tsn)
  let in_order : Handler = do
    modify (λ b. record b { peer_cumulative_tsn = some d.tsn })
    consume d
    b ← self
    drain (suc (Map.size b.received_out_of_order))
  let buffer : Handler =
      modify (λ b. record b { received_out_of_order = Map.put d.tsn d b.received_out_of_order })
  let ahead =
      if not (Map.has d.tsn a.received_out_of_order)
        && ltb (Map.size a.received_out_of_order) max_ooo_chunks
      then buffer
      else skip
  if sn_lt d.tsn expected then skip else (if d.tsn == expected then in_order else ahead)

-- `sort` with a comparator that is -1 where `less` holds and 1 where it does not: an element goes in
-- front of the first one that it is less than.
insert_by : (ℕ → ℕ → Bool) → ℕ → List ℕ → List ℕ
insert_by less x [] = x ∷ []
insert_by less x (y ∷ ys) = if less x y then x ∷ (y ∷ ys) else y ∷ insert_by less x ys

sort_by : (ℕ → ℕ → Bool) → List ℕ → List ℕ → List ℕ
unfolding insert_by
sort_by less sorted [] = sorted
sort_by less sorted (x ∷ xs) = sort_by less (insert_by less x sorted) xs

-- `pushBlock`, with `cum` and the list that it pushes to.
abbrev push_block : ℕ → List (ℕ × ℕ) → ℕ × ℕ → List (ℕ × ℕ)
push_block cum blocks (start, prev) =
    let s = sub_tsn start cum in
    let e = sub_tsn prev cum in if leb e 65535 then blocks ++ ((s, e) ∷ []) else blocks

-- The loop over the sorted TSNs, with `start` and `prev`, which are null together.
block_loop : ℕ → List ℕ → Option (ℕ × ℕ) → List (ℕ × ℕ) → List (ℕ × ℕ)
block_loop cum [] none blocks = blocks
block_loop cum [] (some run) blocks = push_block cum blocks run
block_loop cum (tsn ∷ tsns) none blocks = block_loop cum tsns (some (tsn, tsn)) blocks
block_loop cum (tsn ∷ tsns) (some (start, prev)) blocks =
    let goes_on = tsn == next_tsn prev in
    block_loop cum tsns (some (if goes_on then start else tsn, tsn))
      (if goes_on then blocks else push_block cum blocks (start, prev))

-- The gap blocks of `#sendSack`.
unfoldable pub gap_blocks_of : Assoc → List (ℕ × ℕ)
unfolding sort_by block_loop
gap_blocks_of a =
    block_loop (cumulative a.peer_cumulative_tsn)
      (sort_by sn_lt [] (Map.keys a.received_out_of_order)) none []

-- `#sendSack`.
unfoldable pub send_sack : Handler
send_sack = do
  a ← self
  body ← lift (
      encode_sack_body (record {
        cumulative_tsn_ack = to_uint32 (cumulative a.peer_cumulative_tsn);
        a_rwnd = default_rwnd;
        gap_blocks = gap_blocks_of a;
        dup_tsns = [];
      }))
  chunk ← lift (encode_chunk sack 0 body)
  emit_packet a.remote_tag (chunk ∷ [])

-- `#handleData`.
unfoldable pub handle_data : ParsedChunk → Handler
handle_data chunk = do d ← lift (parse_data_body chunk.flags chunk.body); deliver_data d; send_sack
