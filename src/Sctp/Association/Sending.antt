-- ===== src/Sctp/Association/Sending.antt =====
-- src/sctp/association.ts: user messages out, and the SACKs that acknowledge them.
use node_rtc_connection.Prelude.{
  ℕ, zero, suc, ◌+◌, ◌-◌, ◌%◌, Bool, not, Option, none, some, List, [], ◌∷◌, ◌++◌, ltb, leb, ◌==◌,
  if◌then◌else◌, length, state_error, out_of_fuel,
}
use node_rtc_connection.Buffer.{Buffer, slice}
use node_rtc_connection.Sctp.Association.{established, state_eq, max_payload}
use node_rtc_connection.Sctp.Association.Monad.{
  M, Handler, ◌>>=◌, ◌>>◌, pure, skip, self, modify, lift, throw, emit_packet,
}
use node_rtc_connection.Map
use node_rtc_connection.Map.{nat_eq}
use node_rtc_connection.Sctp.Chunks.{ParsedChunk, encode_chunk, data_type}
use node_rtc_connection.Sctp.Bodies.{encode_data_body, parse_sack_body}
use node_rtc_connection.Sctp.Serial.{next_tsn, sn_lte}

abbrev pub number_or_zero : Option ℕ → ℕ
number_or_zero none = 0
number_or_zero (some n) = n

-- The stream sequence number of a message, and the map's next one: 0 and nothing for an unordered
-- message.
unfoldable pub take_ssn : ℕ → Bool → M ℕ
take_ssn stream_id unordered = do
  a ← self
  let ssn = number_or_zero (Map.get stream_id a.next_ssn)
  let ordered : M ℕ = do
    modify (λ b. record b { next_ssn = Map.put stream_id ((ssn + 1) % 65536) b.next_ssn })
    pure ssn
  if unordered then pure 0 else ordered

-- One round of the `do` loop of `sendData`: the chunk of the fragment at `offset`.
unfoldable pub send_fragment : ℕ → ℕ → Bool → ℕ → Buffer → ℕ → M Buffer
send_fragment stream_id ppid unordered ssn payload offset = do
  let piece = slice payload offset (offset + max_payload)
  a ← self
  let tsn = a.local_tsn
  modify (λ b. record b { local_tsn = next_tsn b.local_tsn })
  encoded ← lift (
      encode_data_body (record {
        unordered = unordered;
        beginning = offset == 0;
        ending = leb (length payload) (offset + length piece);
        tsn = tsn;
        stream_id = stream_id;
        stream_seq = ssn;
        ppid = ppid;
        user_data = piece;
      }))
  chunk ← lift (encode_chunk data_type encoded.flags encoded.body)
  modify (λ b. record b { sent_queue = Map.put tsn chunk b.sent_queue })
  pure chunk

-- The loop, with the rounds that are left. A round takes a byte at least, or it is the only one, so
-- one round more than there are bytes is enough.
unfoldable pub send_fragments : ℕ → ℕ → ℕ → Bool → ℕ → Buffer → ℕ → List Buffer → M (List Buffer)
send_fragments zero stream_id ppid unordered ssn payload offset chunks = throw out_of_fuel
send_fragments (suc fuel) stream_id ppid unordered ssn payload offset chunks = do
  chunk ← send_fragment stream_id ppid unordered ssn payload offset
  let offset' = offset + length (slice payload offset (offset + max_payload))
  let more =
      send_fragments fuel stream_id ppid unordered ssn payload offset' (chunks ++ (chunk ∷ []))
  if ltb offset' (length payload) then more else pure (chunks ++ (chunk ∷ []))

-- The last loop of `sendData`: a packet for each chunk.
unfoldable pub emit_each : List Buffer → Handler
emit_each [] = skip
emit_each (chunk ∷ chunks) = do a ← self; emit_packet a.remote_tag (chunk ∷ []); emit_each chunks

unfoldable pub send_data : ℕ → ℕ → Buffer → Bool → Handler
send_data stream_id ppid payload unordered = do
  a ← self
  let transmit : Handler = do
    ssn ← take_ssn stream_id unordered
    chunks ← send_fragments (suc (length payload)) stream_id ppid unordered ssn payload 0 []
    emit_each chunks
  if not (state_eq a.state established) then throw state_error else transmit

-- The first loop of `#handleSack`, over a copy of the keys.
unfoldable pub ack_cumulative : ℕ → List ℕ → List (ℕ × Buffer) → List (ℕ × Buffer)
ack_cumulative ack [] queue = queue
ack_cumulative ack (tsn ∷ tsns) queue =
    ack_cumulative ack tsns (if sn_lte tsn ack then Map.delete tsn queue else queue)

-- `(base + i - 1) >>> 0` for `i` from `i` on, as often as `rounds` says.
unfoldable pub ack_block : ℕ → ℕ → ℕ → List (ℕ × Buffer) → List (ℕ × Buffer)
ack_block base i zero queue = queue
ack_block base i (suc rounds) queue =
    ack_block base (i + 1) rounds (Map.delete ((base + i + 4294967295) % 4294967296) queue)

unfoldable pub ack_blocks : ℕ → List (ℕ × ℕ) → List (ℕ × Buffer) → List (ℕ × Buffer)
ack_blocks base [] queue = queue
ack_blocks base ((start, end') ∷ blocks) queue =
    ack_blocks base blocks (ack_block base start (end' + 1 - start) queue)

-- `#handleSack`.
unfoldable pub handle_sack : ParsedChunk → Handler
handle_sack chunk = do
  sack ← lift (parse_sack_body chunk.body)
  modify (λ a. record a {
    sent_queue =
        ack_blocks (next_tsn sack.cumulative_tsn_ack) sack.gap_blocks
          (ack_cumulative sack.cumulative_tsn_ack (Map.keys a.sent_queue) a.sent_queue);
  })
