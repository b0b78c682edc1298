-- ===== src/Sctp/Association/Transfer.antt =====
-- Messages from one end of an association to the other.
use node_rtc_connection.Prelude.{
  ℕ, ◌≡◌, refl, sym, ap, ◌∙◌, Bool, true, List, [], ◌∷◌, ◌++◌, map, append_assoc, All, Result, ok,
  err,
}
use node_rtc_connection.Buffer.{Buffer, IsU16, IsU32}
use node_rtc_connection.Sctp.Association.{Assoc, established, Event, output, SctpMessage}
use node_rtc_connection.Sctp.Association.Monad.{
  Handler, and_then, ◌>>◌, skip, after, bind_ok, outcome_ok,
}
use node_rtc_connection.Map.{nat_eq}
use node_rtc_connection.Sctp.Association.Dispatch.{receive_packet}
use node_rtc_connection.Sctp.Association.Sending.{send_data}
use node_rtc_connection.Sctp.Association.Reassembly.{
  messages-append, Expects, Received, receive_all, receive_fragments,
}
use node_rtc_connection.Sctp.Association.Emission.{outputs, CanSend, send_data-Sent}

and_then_ap :
    (r : Result (Unit {0})) (a : Assoc) (es : List Event) (k l : Handler)
    → ((b : Assoc) → k b ≡ l b)
    → and_then r a es (λ _. k) ≡ and_then r a es (λ _. l)
and_then_ap (ok tt) a es k l h = rw (h a)
and_then_ap (err e) a es k l h = refl

and_then_assoc :
    (q : Result (Unit {0})) (b : Assoc) (es fs : List Event) (l : Handler)
    → after es (and_then q b fs (λ _. l)) ≡ and_then q b (es ++ fs) (λ _. l)
and_then_assoc (ok tt) b es fs l = rw (append_assoc es fs (l b).events)
and_then_assoc (err e) b es fs l = refl

>>_assoc : (m k l : Handler) (a : Assoc) → (m >> (k >> l)) a ≡ ((m >> k) >> l) a
>>_assoc m k l a = go (m a).result (m a).assoc (m a).events
  where
    go :
        (r : Result (Unit {0})) (b : Assoc) (es : List Event)
        → and_then r b es (λ _. k >> l)
          ≡ (let o = and_then r b es (λ _. k) in and_then o.result o.assoc o.events (λ _. l))
    go (ok tt) b es = and_then_assoc (k b).result (k b).assoc es (k b).events l
    go (err e) b es = refl

join-Received :
    (m k : Handler) (b : Assoc) {mid end : ℕ} {ms ns : List SctpMessage}
    → Received mid ms (m b)
    → Received end ns (k (m b).assoc)
    → Received end (ms ++ ns) ((m >> k) b)
join-Received m k b first then' =
    rw (bind_ok m (λ _. k) b tt _ _ (outcome_ok (m b) first.returns)) (record {
      returns = then'.returns;
      delivered =
          messages-append (m b).events (k (m b).assoc).events
          ∙ rw (first.delivered, then'.delivered) refl;
      expects = then'.expects;
    })

-- A call of `sendData`.
pub record Call : Type 0 where
  pub stream_id : ℕ
  pub ppid : ℕ
  pub payload : Buffer
  pub unordered : Bool

pub record IsCall (c : Call) : Type 0 where
  pub stream_id : IsU16 c.stream_id
  pub ppid : IsU32 c.ppid

abbrev pub message_of_call : Call → SctpMessage
message_of_call c = record { stream_id = c.stream_id; ppid = c.ppid; message = c.payload }

unfoldable pub send_calls : List Call → Handler
send_calls [] = skip
send_calls (c ∷ cs) = do send_data c.stream_id c.ppid c.payload c.unordered; send_calls cs

module _ (hmac : Buffer → Buffer → Buffer) (fresh_secret : Buffer) where
  receive_all-append :
      (ps qs : List Buffer) (b : Assoc)
      → receive_all hmac fresh_secret (ps ++ qs) b
        ≡ (receive_all hmac fresh_secret ps >> receive_all hmac fresh_secret qs) b
  unfolding receive_all
  receive_all-append [] qs b = refl
  receive_all-append (p ∷ ps) qs b =
      let whole = receive_packet hmac fresh_secret p b in
      and_then_ap whole.result whole.assoc whole.events _ _ (receive_all-append ps qs)
      ∙ >>_assoc (receive_packet hmac fresh_secret p) (receive_all hmac fresh_secret ps)
          (receive_all hmac fresh_secret qs) b

  -- One message goes from an end to the other.
  pub send_data-receive_all :
      (c : Call) (a b : Assoc)
      → IsCall c
      → a.state ≡ established
      → CanSend a
      → Expects a.local_tsn b
      → let o = send_data c.stream_id c.ppid c.payload c.unordered a in
        (o.result ≡ ok tt)
        × (ps : List Buffer) × (o.events ≡ outputs ps)
        × Received o.assoc.local_tsn (message_of_call c ∷ []) (receive_all hmac fresh_secret ps b)
        × CanSend o.assoc
        × (o.assoc.state ≡ established)
  send_data-receive_all c a b fits up v x =
      let (ssn, s) =
        send_data-Sent c.stream_id c.ppid c.payload c.unordered a up v fits.stream_id fits.ppid in
      (
        s.returns,
        s.packets,
        s.emits,
        receive_fragments hmac fresh_secret _ true _ _ c.payload [] s.chunks s.packets b s.fragments
            s.emitted x refl,
        s.can_send,
        s.state,
      )

  nothing-Received :
      {end : ℕ} (b : Assoc) → Expects end b → Received end [] (receive_all hmac fresh_secret [] b)
  unfolding receive_all
  nothing-Received b x = record { returns = refl; delivered = refl; expects = x }

  outputs-append : (ps qs : List Buffer) → outputs (ps ++ qs) ≡ outputs ps ++ outputs qs
  outputs-append [] qs = refl
  outputs-append (p ∷ ps) qs = ap (◌∷◌ (output p)) (outputs-append ps qs)

  -- When an established end, whose ports, TSN and stream sequence numbers fit their fields, sends a
  -- number of messages, whose stream and protocol numbers fit their fields, no call throws and only
  -- packets are emitted. When the other end, with 16-bit ports, that expects the sender's TSN and has
  -- nothing buffered, receives these packets in order, nothing throws there, and it delivers exactly
  -- the messages that were sent, each once, whole, and in order; then it expects the sender's next
  -- TSN, again with nothing buffered.
  pub send_calls-receive_all :
      (cs : List Call) (a b : Assoc)
      → All IsCall cs
      → a.state ≡ established
      → CanSend a
      → Expects a.local_tsn b
      → let o = send_calls cs a in
        (o.result ≡ ok tt)
        × (ps : List Buffer) × (o.events ≡ outputs ps)
        × Received o.assoc.local_tsn (map message_of_call cs) (receive_all hmac fresh_secret ps b)
  unfolding send_calls
  send_calls-receive_all [] a b fits up v x = (refl, [], refl, nothing-Received b x)
  send_calls-receive_all (c ∷ cs) a b (fit, fits) up v x =
      let o = send_data c.stream_id c.ppid c.payload c.unordered a in
      let (returns, ps, emits, received, v', up') = send_data-receive_all c a b fit up v x in
      let b' = (receive_all hmac fresh_secret ps b).assoc in
      let (returns', qs, emits', received') =
        send_calls-receive_all cs o.assoc b' fits up' v' received.expects in
      let whole : send_calls (c ∷ cs) a ≡ after o.events (send_calls cs o.assoc) =
        bind_ok (send_data c.stream_id c.ppid c.payload c.unordered) (λ _. send_calls cs) a tt
          o.assoc o.events (outcome_ok o returns) in
      rw whole (
        returns',
        ps ++ qs,
        rw (emits, emits') (sym (outputs-append ps qs)),
        rw (receive_all-append ps qs b) (
            join-Received (receive_all hmac fresh_secret ps) (receive_all hmac fresh_secret qs) b
              received received'),
      )
