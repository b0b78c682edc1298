-- ===== src/Sctp/Association/Reassembly.antt =====
-- The receive path on chunks that come in order: reassembly.
use node_rtc_connection.Prelude.{
  ℕ, suc, ◌≡◌, refl, sym, ap, ◌∙◌, inl, inr, Bool, true, false, ◌&&◌, Option, none, some, List, [],
  ◌∷◌, ◌++◌, append-nil, append_assoc, arith, ◌==◌, Bool-cases, ok,
}
use node_rtc_connection.Buffer.{Buffer, to_uint32, concat, concat-append}
use node_rtc_connection.Sctp.Association.{
  Assoc, Event, output, message, established_event, error_event, close_event, SctpMessage,
  FragmentBuffer, default_rwnd,
}
use node_rtc_connection.Sctp.Association.Monad.{
  Handler, Outcome, ◌>>◌, skip, after, returned, bind_ok, outcome_ok,
}
use node_rtc_connection.Map
use node_rtc_connection.Map.{nat_eq, pair_eq}
use node_rtc_connection.Sctp.Chunks.{encode_chunk, sack}
use node_rtc_connection.Sctp.Chunks.Layout.{chunk_bytes, encode_chunk_lem}
use node_rtc_connection.Sctp.Bodies.{DataBody, encode_sack_body, SackBody}
use node_rtc_connection.Sctp.Bodies.InitData.{parse_data_bytes}
use node_rtc_connection.Sctp.Bodies.Sack.{encode_sack_body_lem, sack_bytes}
use node_rtc_connection.Sctp.Serial.{next_tsn, sn_lt-false}
use node_rtc_connection.Sctp.Association.Dispatch.{handle_chunk, receive_packet}
use node_rtc_connection.Sctp.Association.Packets.{HasPorts, IsPacket, emit_packet_lem, receive_one}
use node_rtc_connection.Sctp.Association.Receiving.{
  cumulative, fragment_key, extended, settle, consume, drain, deliver_data, gap_blocks_of,
  send_sack, handle_data,
}
use node_rtc_connection.Sctp.Association.Fragments.{
  Header, body_of, data_chunk, Carries, Fragments, last, more,
}

-- `#consume` never throws, and changes the fragments only.
abbrev pub with_fragments : Assoc → List ((ℕ × Bool) × FragmentBuffer) → Assoc
with_fragments a fs = record a { fragments = fs }

pub record Consumed (a : Assoc) (o : Outcome (Unit {0})) : Type 0 where
  pub returns : o.result ≡ ok tt
  pub frame : o.assoc ≡ with_fragments a o.assoc.fragments

settle-Consumed :
    (d : DataBody) (found : Option FragmentBuffer) (a : Assoc) → Consumed a (settle d found a)
unfolding settle
settle-Consumed d none a = record { returns = refl; frame = refl }
settle-Consumed d (some b) a = elim (Bool-cases d.ending) [
  | inl e ↦ rw e (record { returns = refl; frame = refl })
  | inr e ↦ rw e (record { returns = refl; frame = refl })
]

pub consume-Consumed : (d : DataBody) (a : Assoc) → Consumed a (consume d a)
unfolding consume
consume-Consumed d a = elim (Bool-cases (d.beginning && d.ending)) [
  | inl e ↦ rw e (record { returns = refl; frame = refl })
  | inr e ↦ rw e (settle-Consumed d (extended d (Map.get (fragment_key d) a.fragments)) a)
]

-- The user messages among the events.
abbrev pub messages : List Event → List SctpMessage
messages [] = []
messages (message m ∷ es) = m ∷ messages es
messages (output p ∷ es) = messages es
messages (established_event ∷ es) = messages es
messages (error_event r ∷ es) = messages es
messages (close_event ∷ es) = messages es

pub messages-append : (es fs : List Event) → messages (es ++ fs) ≡ messages es ++ messages fs
messages-append [] fs = refl
messages-append (message m ∷ es) fs = ap (◌∷◌ m) (messages-append es fs)
messages-append (output p ∷ es) fs = messages-append es fs
messages-append (established_event ∷ es) fs = messages-append es fs
messages-append (error_event r ∷ es) fs = messages-append es fs
messages-append (close_event ∷ es) fs = messages-append es fs

abbrev pub with_cumulative : Assoc → ℕ → Assoc
with_cumulative a tsn = record a { peer_cumulative_tsn = some tsn }

drain_nothing :
    (fuel : ℕ) (a : Assoc)
    → a.received_out_of_order ≡ []
    → drain (suc fuel) a ≡ record { result = ok tt; assoc = a; events = [] }
unfolding drain
drain_nothing fuel a h = rw h (unfold Map.get in refl)

-- A chunk that comes in order, while nothing is buffered, is consumed.
pub deliver_in_order :
    (d : DataBody) (a : Assoc)
    → a.received_out_of_order ≡ []
    → d.tsn ≡ next_tsn (cumulative a.peer_cumulative_tsn)
    → deliver_data d a ≡ consume d (with_cumulative a d.tsn)
unfolding deliver_data
deliver_in_order d a empty expected =
    let now : (d.tsn == next_tsn (cumulative a.peer_cumulative_tsn)) ≡ true =
      ground (arith, expected) in
    let k = consume-Consumed d (with_cumulative a d.tsn) in
    let left : (consume d (with_cumulative a d.tsn)).assoc.received_out_of_order ≡ [] =
      ap (λ (b : Assoc). b.received_out_of_order) k.frame ∙ empty in
    rw (sn_lt-false d.tsn (next_tsn (cumulative a.peer_cumulative_tsn)), now)
      (bind_ok (consume d) _ (with_cumulative a d.tsn) tt _ _ (outcome_ok _ k.returns)
        ∙ ap (after (consume d (with_cumulative a d.tsn)).events) (drain_nothing _ _ left)
        ∙ rw (append-nil (consume d (with_cumulative a d.tsn)).events)
            (sym (outcome_ok _ k.returns)))

-- With nothing buffered the SACK has no gap blocks, and is one packet.
pub send_sack_lem :
    (a : Assoc)
    → HasPorts a
    → a.received_out_of_order ≡ []
    → (p : Buffer) × (send_sack a ≡ record { result = ok tt; assoc = a; events = output p ∷ [] })
unfolding send_sack
send_sack_lem a v empty =
    let s : SackBody = record {
      cumulative_tsn_ack = to_uint32 (cumulative a.peer_cumulative_tsn);
      a_rwnd = default_rwnd;
      gap_blocks = [];
      dup_tsns = [];
    } in
    let none_ahead : gap_blocks_of a ≡ [] = unfold gap_blocks_of in rw empty in
    let encoded : encode_sack_body s ≡ ok (sack_bytes s) = encode_sack_body_lem s (omega arith) in
    let wrapped : encode_chunk sack 0 (sack_bytes s) ≡ ok (chunk_bytes sack 0 (sack_bytes s)) =
      encode_chunk_lem sack 0 (sack_bytes s) in
    let (p, emitted, _) =
      emit_packet_lem a.remote_tag (chunk_bytes sack 0 (sack_bytes s) ∷ []) a v in
    (p, rw (none_ahead, encoded, wrapped) emitted)

-- What the receiver holds of a message before its next piece: nothing before the first one.
abbrev pub Begun : Header → Bool → List ((ℕ × Bool) × FragmentBuffer) → Buffer → Type 0
Begun h true fragments held = held ≡ []
Begun h false fragments held =
    (b : FragmentBuffer) × (Map.get (h.stream_id, h.unordered) fragments ≡ some b)
    × (b.ppid ≡ h.ppid)
    × (concat b.parts ≡ held)

abbrev pub message_of : Header → Buffer → SctpMessage
message_of h payload = record { stream_id = h.stream_id; ppid = h.ppid; message = payload }

concat-snoc :
    (bs : List Buffer) (b held : Buffer) → concat bs ≡ held → concat (bs ++ (b ∷ [])) ≡ held ++ b
concat-snoc bs b held e = rw (concat-append bs (b ∷ []), e, append-nil b)

-- The last piece completes the message.
consume_end :
    (h : Header) (first : Bool) (tsn : ℕ) (x held : Buffer) (a : Assoc)
    → Begun h first a.fragments held
    → messages (consume (body_of h first true tsn x) a).events ≡ message_of h (held ++ x) ∷ []
unfolding consume settle
consume_end h true tsn x held a e = rw e
consume_end h false tsn x held a (b, found, ppid, parts) =
    rw (found, ppid, concat-snoc b.parts x held parts)

-- Any other piece is put behind what is held.
consume_part :
    (h : Header) (first : Bool) (tsn : ℕ) (x held : Buffer) (a : Assoc)
    → Begun h first a.fragments held
    → (messages (consume (body_of h first false tsn x) a).events ≡ [])
      × Begun h false (consume (body_of h first false tsn x) a).assoc.fragments (held ++ x)
unfolding consume settle
consume_part h true tsn x held a e = (
  refl,
  (
    record { ppid = h.ppid; parts = x ∷ [] },
    Map.get-put _ _ a.fragments,
    refl,
    rw (e, append-nil x),
  ),
)
consume_part h false tsn x held a (b, found, ppid, parts) = rw found (
  refl,
  (
    record b { parts = b.parts ++ (x ∷ []) },
    Map.get-put _ _ a.fragments,
    ppid,
    concat-snoc b.parts x held parts,
  ),
)

-- The packets `ps` hold the chunks `es`, one each.
abbrev pub Emitted : List Buffer → List Buffer → Type 0
Emitted [] [] = Unit {0}
Emitted (e ∷ es) (p ∷ ps) = IsPacket p (concat (e ∷ [])) × Emitted es ps
Emitted _ _ = ⊥

-- What stands of a receiver that has taken all chunks before `next`.
pub record Expects (next : ℕ) (a : Assoc) : Type 0 where
  pub ports : HasPorts a
  pub nothing_ahead : a.received_out_of_order ≡ []
  pub expected : next ≡ next_tsn (cumulative a.peer_cumulative_tsn)

pub record Received (end : ℕ) (ms : List SctpMessage) (o : Outcome (Unit {0})) : Type 0 where
  pub returns : o.result ≡ ok tt
  pub delivered : messages o.events ≡ ms
  pub expects : Expects end o.assoc

module _ (hmac : Buffer → Buffer → Buffer) (fresh_secret : Buffer) where
  -- Packets received one after the other.
  unfoldable pub receive_all : List Buffer → Handler
  receive_all [] = skip
  receive_all (p ∷ ps) = do receive_packet hmac fresh_secret p; receive_all ps

  module _ (d : DataBody) (e p : Buffer) (a : Assoc) (carries : Carries d e)
      (holds : IsPacket p (concat (e ∷ []))) (x : Expects d.tsn a) where
    consumed : Outcome (Unit {0})
    consumed = consume d (with_cumulative a d.tsn)

    consumed_frame :
        consumed.assoc ≡ with_fragments (with_cumulative a d.tsn) consumed.assoc.fragments
    unfolding consumed
    consumed_frame = (consume-Consumed d (with_cumulative a d.tsn)).frame

    consumed-Expects : Expects (next_tsn d.tsn) consumed.assoc
    consumed-Expects = record {
      ports = (
        omega (arith, ap (λ (b : Assoc). b.local_port) consumed_frame, x.ports.0),
        omega (arith, ap (λ (b : Assoc). b.remote_port) consumed_frame, x.ports.1),
      );
      nothing_ahead = ap (λ (b : Assoc). b.received_out_of_order) consumed_frame ∙ x.nothing_ahead;
      expected =
          ap (λ (b : Assoc). next_tsn (cumulative b.peer_cumulative_tsn)) (sym consumed_frame);
    }

    -- A DATA chunk in order is consumed, and answered by one SACK.
    receive_data :
        (sp : Buffer) × (receive_packet hmac fresh_secret p a
          ≡ returned tt consumed.assoc (consumed.events ++ (output sp ∷ [])))
    unfolding consumed handle_chunk handle_data
    receive_data =
        let delivered : deliver_data d a ≡ returned tt consumed.assoc consumed.events =
          deliver_in_order d a x.nothing_ahead x.expected
          ∙ outcome_ok consumed (consume-Consumed d (with_cumulative a d.tsn)).returns in
        let (sp, answered) =
          send_sack_lem consumed.assoc consumed-Expects.ports consumed-Expects.nothing_ahead in
        (
          sp,
          receive_one hmac fresh_secret p e (data_chunk d) a holds (carries.encoded, refl, tt)
              ∙ rw (parse_data_bytes d, delivered, answered) refl,
        )

  -- Behind an outcome that returned, with these messages.
  Received-after :
      (end : ℕ) (es : List Event) (sp : Buffer) (ms ns : List SctpMessage) (o : Outcome (Unit {0}))
      → messages es ≡ ms
      → Received end ns o
      → Received end (ms ++ ns) (after (es ++ (output sp ∷ [])) o)
  Received-after end es sp ms ns o e r = record {
    returns = r.returns;
    delivered =
        messages-append (es ++ (output sp ∷ [])) o.events
        ∙ rw (messages-append es (output sp ∷ []), e, append-nil ms, r.delivered);
    expects = r.expects;
  }

  -- The packets of a message, received in order.
  pub receive_fragments :
      (h : Header) (first : Bool) (tsn end : ℕ) (payload held : Buffer) (es ps : List Buffer)
      (a : Assoc)
      → Fragments h first tsn payload es end
      → Emitted es ps
      → Expects tsn a
      → Begun h first a.fragments held
      → Received end (message_of h (held ++ payload) ∷ []) (receive_all ps a)
  unfolding receive_all consumed
  receive_fragments h first tsn end payload held (e ∷ []) (p ∷ []) a (last c end_is) (holds, _) x
        begun =
      let d = body_of h first true tsn payload in
      let (sp, got) = receive_data d e p a c holds x in
      let rest : Received end [] (skip (consumed d e p a c holds x).assoc) = record {
        returns = refl;
        delivered = refl;
        expects = rw end_is (consumed-Expects d e p a c holds x);
      } in
      rw (bind_ok (receive_packet hmac fresh_secret p) _ a tt _ _ got) (
        Received-after end _ sp _ [] _
          (consume_end h first tsn payload held (with_cumulative a tsn) begun) rest)
  receive_fragments h first tsn end payload held (e ∷ es) (p ∷ ps) a (more piece rest split c f)
        (holds, em) x begun =
      let d = body_of h first false tsn piece in
      let (sp, got) = receive_data d e p a c holds x in
      let (nothing, begun') = consume_part h first tsn piece held (with_cumulative a tsn) begun in
      let later =
        receive_fragments h false (next_tsn tsn) end rest (held ++ piece) es ps _ f em
          (consumed-Expects d e p a c holds x) begun' in
      rw
        (
          bind_ok (receive_packet hmac fresh_secret p) _ a tt _ _ got,
          split,
          ← append_assoc held piece rest,
        )
        (Received-after end _ sp [] _ _ nothing later)
  receive_fragments h first tsn end payload held (e ∷ []) [] a f em x begun = absurd em
  receive_fragments h first tsn end payload held (e ∷ e' ∷ es) [] a f em x begun = absurd em
  receive_fragments h first tsn end payload held (e ∷ []) (p ∷ q ∷ ps) a (last c end_is) em x
        begun =
      absurd em.1
  receive_fragments h first tsn end payload held [] ps a f em x begun = elim f [ ]
