-- ===== src/Sctp/Association/Emission.antt =====
-- The send path: the packets that `sendData` emits.
use node_rtc_connection.Prelude.{
  ℕ, zero, suc, ◌+◌, ◌-◌, ◌%◌, ◌≤◌, ◌<◌, min, ◌≡◌, refl, sym, ap, ◌∙◌, inl, inr, Bool, true, false,
  List, [], ◌∷◌, ◌++◌, append_assoc, arith, ltb, leb, ◌==◌, if◌then◌else◌, ltb→lt, Bool-cases,
  length, drop, take_all, length-take, length-drop, ok,
}
use node_rtc_connection.Buffer.{Buffer, IsU16, IsU32, slice}
use node_rtc_connection.Sctp.Association.{
  Assoc, State, established, state_eq, Event, output, max_payload,
}
use node_rtc_connection.Sctp.Association.Monad.{M, Outcome, pure, returned, bind_ok}
use node_rtc_connection.Prelude.{take-append-drop, drop-drop}
use node_rtc_connection.Map
use node_rtc_connection.Map.{nat_eq, get-put_lem}
use node_rtc_connection.Sctp.Chunks.Layout.{chunk_bytes, encode_chunk_lem}
use node_rtc_connection.Sctp.Chunks.{data_type}
use node_rtc_connection.Sctp.Bodies.{DataBody}
use node_rtc_connection.Sctp.Bodies.InitData.{
  IsData, data_bytes, data_flags_of, data_flags_of-IsByte, encode_data_body_lem,
}
use node_rtc_connection.Sctp.Serial.{next_tsn}
use node_rtc_connection.Sctp.Association.Packets.{HasPorts, emit_packet_lem}
use node_rtc_connection.Sctp.Association.Sending.{
  number_or_zero, take_ssn, send_fragment, send_fragments, emit_each, send_data,
}
use node_rtc_connection.Sctp.Association.Fragments.{Header, body_of, Carries, Fragments, last, more}
use node_rtc_connection.Sctp.Association.Reassembly.{Emitted}

-- What a fragment changes: the next TSN, and the queue of what was sent.
abbrev pub sent : Assoc → ℕ → List (ℕ × Buffer) → Assoc
sent a tsn queue = record a { local_tsn = tsn; sent_queue = queue }

-- A body of at most `MAX_PAYLOAD` bytes is encoded.
carried :
    (d : DataBody)
    → IsData d
    → length d.user_data ≤ max_payload
    → Carries d (chunk_bytes data_type (data_flags_of d) (data_bytes d))
carried d v short = record {
  is_data = v;
  encoded =
      ground (
        arith,
        encode_chunk_lem data_type (data_flags_of d) (data_bytes d),
        data_flags_of-IsByte d,
      );
}

module _ (h : Header) (payload : Buffer) (stream : IsU16 h.stream_id) (seq : IsU16 h.stream_seq)
    (ppid : IsU32 h.ppid) where
  piece_at : ℕ → Buffer
  piece_at offset = slice payload offset (offset + max_payload)

  piece_at-short : (offset : ℕ) → length (piece_at offset) ≤ max_payload
  unfolding piece_at
  piece_at-short offset =
      omega (arith, length-take (offset + max_payload - offset) (drop offset payload))

  body_at : ℕ → ℕ → DataBody
  unfolding piece_at
  body_at offset tsn =
      body_of h (offset == 0) (leb (length payload) (offset + length (piece_at offset))) tsn
        (piece_at offset)

  chunk_at : ℕ → ℕ → Buffer
  unfolding body_at
  chunk_at offset tsn =
      chunk_bytes data_type (data_flags_of (body_at offset tsn)) (data_bytes (body_at offset tsn))

  chunk_at-Carries :
      (offset tsn : ℕ) → IsU32 tsn → Carries (body_at offset tsn) (chunk_at offset tsn)
  unfolding body_at chunk_at
  chunk_at-Carries offset tsn v =
      carried (body_at offset tsn)
        (record { tsn = v; stream_id = stream; stream_seq = seq; ppid = ppid })
        (piece_at-short offset)

  send_fragment_lem :
      (offset : ℕ) (a : Assoc)
      → IsU32 a.local_tsn
      → send_fragment h.stream_id h.ppid h.unordered h.stream_seq payload offset a
        ≡ returned
            (chunk_at offset a.local_tsn)
            (sent a
              (next_tsn a.local_tsn)
              (Map.put a.local_tsn (chunk_at offset a.local_tsn) a.sent_queue))
            []
  unfolding send_fragment chunk_at body_at piece_at
  send_fragment_lem offset a v =
      let c = chunk_at-Carries offset a.local_tsn v in
      rw (encode_data_body_lem (body_at offset a.local_tsn) c.is_data, c.encoded) refl

  next_offset : ℕ → ℕ
  unfolding piece_at
  next_offset offset = offset + length (piece_at offset)

  length-piece_at :
      (offset : ℕ) → length (piece_at offset) ≡ min max_payload (length payload - offset)
  unfolding piece_at
  length-piece_at offset = omega (
    arith,
    length-take (offset + max_payload - offset) (drop offset payload),
    length-drop offset payload,
  )

  piece_last :
      (offset : ℕ) → length payload ≤ next_offset offset → piece_at offset ≡ drop offset payload
  unfolding next_offset piece_at
  piece_last offset done =
      take_all _ (drop offset payload)
        (omega (arith, length-piece_at offset, length-drop offset payload))

  piece_more :
      (offset : ℕ)
      → next_offset offset < length payload
      → drop offset payload ≡ piece_at offset ++ drop (next_offset offset) payload
  unfolding next_offset piece_at
  piece_more offset goes_on =
      let n : offset + length (piece_at offset) ≡ offset + (offset + max_payload - offset) =
        omega (arith, length-piece_at offset) in
      sym (take-append-drop (offset + max_payload - offset) (drop offset payload))
      ∙ ap (λ (q : Buffer). piece_at offset ++ q)
          (drop-drop (offset + max_payload - offset) offset payload
            ∙ ap (λ (k : ℕ). drop k payload) (sym n))

  -- The rest of a round, and the rounds after it.
  after_fragment : ℕ → ℕ → List Buffer → Buffer → M (List Buffer)
  unfolding next_offset piece_at
  after_fragment fuel offset chunks chunk =
      if ltb (next_offset offset) (length payload)
      then send_fragments fuel h.stream_id h.ppid h.unordered h.stream_seq payload
          (next_offset offset) (chunks ++ (chunk ∷ []))
      else pure (chunks ++ (chunk ∷ []))

  -- The loop from `offset` on, with enough rounds.
  send_fragments_lem :
      (fuel offset : ℕ) (chunks : List Buffer) (a : Assoc)
      → offset ≤ length payload
      → length payload < offset + fuel
      → IsU32 a.local_tsn
      → (es : List Buffer) × (end : ℕ) × (queue : List (ℕ × Buffer)) × (send_fragments fuel
            h.stream_id h.ppid h.unordered h.stream_seq payload offset chunks a
          ≡ returned (chunks ++ es) (sent a end queue) [])
        × Fragments h (offset == 0) a.local_tsn (drop offset payload) es end
        × IsU32 end
  unfolding send_fragments next_offset body_at piece_at after_fragment
  send_fragments_lem zero offset chunks a inside enough v = absurd (omega arith)
  send_fragments_lem (suc fuel) offset chunks a inside enough v =
      let chunk = chunk_at offset a.local_tsn in
      let a' = sent a (next_tsn a.local_tsn) (Map.put a.local_tsn chunk a.sent_queue) in
      let head = send_fragment_lem offset a v in
      let carries = chunk_at-Carries offset a.local_tsn v in
      elim (Bool-cases (ltb (next_offset offset) (length payload))) [
        | inl goes_on ↦
            let below : next_offset offset < length payload = ltb→lt _ _ goes_on in
            let full = length-piece_at offset in
            let (es, end, queue, run, pieces, v') =
              send_fragments_lem fuel (next_offset offset) (chunks ++ (chunk ∷ [])) a' (omega arith)
                (omega arith) (omega arith) in
            let later : (next_offset offset == 0) ≡ false = ground arith in
            let not_last : leb (length payload) (next_offset offset) ≡ false = ground arith in
            (
              chunk ∷ es,
              end,
              queue,
              bind_ok (send_fragment h.stream_id h.ppid h.unordered h.stream_seq payload offset)
                    (after_fragment fuel offset chunks) a chunk a' [] head
                  ∙ rw (goes_on, run, append_assoc chunks (chunk ∷ []) es) refl,
              more (piece_at offset) (drop (next_offset offset) payload) (piece_more offset below)
                  (rw not_last at carries) (rw later at pieces),
              v',
            )
        | inr done ↦
            let all_sent : length payload ≤ next_offset offset = ground (arith, done) in
            let is_last : leb (length payload) (next_offset offset) ≡ true = ground arith in
            (
              chunk ∷ [],
              next_tsn a.local_tsn,
              a'.sent_queue,
              bind_ok (send_fragment h.stream_id h.ppid h.unordered h.stream_seq payload offset)
                    (after_fragment fuel offset chunks) a chunk a' [] head
                  ∙ rw done refl,
              last (rw (is_last, piece_last offset all_sent) at carries) refl,
              omega arith,
            )
      ]

abbrev pub outputs : List Buffer → List Event
outputs [] = []
outputs (p ∷ ps) = output p ∷ outputs ps

-- A packet for each chunk.
emit_each_lem :
    (es : List Buffer) (a : Assoc)
    → HasPorts a
    → (ps : List Buffer) × (emit_each es a ≡ returned tt a (outputs ps)) × Emitted es ps
unfolding emit_each
emit_each_lem [] a v = ([], refl, tt)
emit_each_lem (e ∷ es) a v =
    let (p, one, is) = emit_packet_lem a.remote_tag (e ∷ []) a v in
    let (ps, rest, are) = emit_each_lem es a v in (p ∷ ps, rw (one, rest) refl, (is, are))

-- The ports, the TSN and the stream sequence numbers of a sender fit their fields.
pub record CanSend (a : Assoc) : Type 0 where
  pub ports : HasPorts a
  pub tsn : IsU32 a.local_tsn
  pub ssn : (stream_id : ℕ) → IsU16 (number_or_zero (Map.get stream_id a.next_ssn))

put_ssn :
    (k s n : ℕ) (m : List (ℕ × ℕ))
    → IsU16 n
    → IsU16 (number_or_zero (Map.get s m))
    → IsU16 (number_or_zero (Map.get s (Map.put k n m)))
put_ssn k s n m new old = elim (Bool-cases (k == s)) [
  | inl h ↦ rw (get-put_lem s k n m, h) new
  | inr h ↦ rw (get-put_lem s k n m, h) old
]

abbrev with_ssn : Assoc → List (ℕ × ℕ) → Assoc
with_ssn a ssns = record a { next_ssn = ssns }

take_ssn_lem :
    (stream_id : ℕ) (unordered : Bool) (a : Assoc)
    → CanSend a
    → (ssn : ℕ) × (ssns : List (ℕ × ℕ)) × (take_ssn stream_id unordered a
        ≡ returned ssn (with_ssn a ssns) [])
      × IsU16 ssn
      × CanSend (with_ssn a ssns)
unfolding take_ssn
take_ssn_lem stream_id true a v = (0, a.next_ssn, refl, omega arith, v)
take_ssn_lem stream_id false a v = (
  number_or_zero (Map.get stream_id a.next_ssn),
  Map.put stream_id ((number_or_zero (Map.get stream_id a.next_ssn) + 1) % 65536) a.next_ssn,
  refl,
  v.ssn stream_id,
  record {
    ports = v.ports;
    tsn = v.tsn;
    ssn = λ s. put_ssn stream_id s _ a.next_ssn (omega arith) (v.ssn s);
  },
)

-- What `sendData` emits, and leaves of a sender.
pub record Sent (h : Header) (tsn : ℕ) (payload : Buffer) (o : Outcome (Unit {0})) : Type 0 where
  pub returns : o.result ≡ ok tt
  pub chunks : List Buffer
  pub packets : List Buffer
  pub emits : o.events ≡ outputs packets
  pub fragments : Fragments h true tsn payload chunks o.assoc.local_tsn
  pub emitted : Emitted chunks packets
  pub can_send : CanSend o.assoc
  pub state : o.assoc.state ≡ established

abbrev pub header_of : ℕ → ℕ → Bool → ℕ → Header
header_of stream_id ppid unordered ssn = record {
  stream_id = stream_id;
  stream_seq = ssn;
  ppid = ppid;
  unordered = unordered;
}

pub send_data-Sent :
    (stream_id ppid : ℕ) (payload : Buffer) (unordered : Bool) (a : Assoc)
    → a.state ≡ established
    → CanSend a
    → IsU16 stream_id
    → IsU32 ppid
    → (ssn : ℕ) × Sent
        (header_of stream_id ppid unordered ssn)
        a.local_tsn
        payload
        (send_data stream_id ppid payload unordered a)
unfolding send_data
send_data-Sent stream_id ppid payload unordered a up v stream_fits ppid_fits =
    let (ssn, ssns, numbered, ssn_fits, v') = take_ssn_lem stream_id unordered a v in
    let (es, end, queue, run, pieces, end_fits) =
      send_fragments_lem (header_of stream_id ppid unordered ssn) payload stream_fits ssn_fits
        ppid_fits (suc (length payload)) 0 [] (with_ssn a ssns) (omega arith) (omega arith) v.tsn in
    let last_of = sent (with_ssn a ssns) end queue in
    let (ps, emitted, are) = emit_each_lem es last_of v.ports in
    let whole : send_data stream_id ppid payload unordered a ≡ returned tt last_of (outputs ps) =
      let is_open : state_eq a.state established ≡ true =
        ap (λ (s : State). state_eq s established) up in
      rw (is_open, numbered, run, emitted) refl in
    (
      ssn,
      rw whole (record {
        returns = refl;
        chunks = es;
        packets = ps;
        emits = refl;
        fragments = pieces;
        emitted = are;
        can_send = record { ports = v.ports; tsn = end_fits; ssn = v'.ssn };
        state = up;
      }),
    )
