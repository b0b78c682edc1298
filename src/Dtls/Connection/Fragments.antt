-- ===== src/Dtls/Connection/Fragments.antt =====
-- src/dtls/connection.ts: a message cut into fragments by `#sendFlight` and put together again by the peer.
use node_rtc_connection.Dtls.Connection.Pieces.{
  fragment_bytes, fragment_at_lem, fragment, parse_fragment, partial, filled_lem,
}
use node_rtc_connection.Prelude.{
  ℕ, zero, suc, ◌+◌, ◌-◌, ◌≤◌, ◌<◌, max, ◌≡◌, refl, sym, ap, ◌∙◌, inl, inr, true, false, none, some,
  List, [], ◌∷◌, ◌++◌, append-nil, replicate-add, append_assoc, arith, ltb, ltb→lt, Bool-cases,
  length, length-append, length-take, length-drop, take, drop, take_all, take-append-drop,
  drop-append_length, ok,
}
use node_rtc_connection.Buffer.{Buffer, slice, alloc, copy, copy-alloc, length-alloc, IsByte, IsU16}
use node_rtc_connection.Map
use node_rtc_connection.Map.{nat_eq, get-put, put-put, delete-put}
use node_rtc_connection.Effects.{Outcome, returned, skip, ◌>>◌, then_skip}
use node_rtc_connection.Dtls.Protocol.{Handshake, parse_handshake}
use node_rtc_connection.Dtls.Primitives.{Crypto}
use node_rtc_connection.Dtls.Connection.{
  Dtls, Event, Method, HandshakeMessage, FlightDatagram, ReassemblyEntry, max_fragment,
}
use node_rtc_connection.Dtls.Connection.Outbound.{handshake}
use node_rtc_connection.Dtls.Connection.Framing.{Fresh, fragment_at, fragments_from}
use node_rtc_connection.Dtls.Connection.Inbound.{
  entry_or_new, filled, handle_handshake_fragment, dispatch_handshake, dispatch_ready,
}

not_lt : (a b : ℕ) → ltb a b ≡ false → b ≤ a
not_lt a b h = ground arith

irreflexive : (n : ℕ) → ltb n n ≡ false
irreflexive n = ground arith

copy-alloc_end :
    (n : ℕ) (chunk : Buffer) → copy chunk n (alloc (n + length chunk)) ≡ alloc n ++ chunk
copy-alloc_end n chunk =
    let spent : length chunk - length chunk ≡ 0 = omega arith in
    ap (λ (b : Buffer). copy chunk n b) (replicate-add n (length chunk) 0)
    ∙ ap (λ (k : ℕ). copy chunk k (alloc n ++ alloc (length chunk))) (sym (length-alloc n))
    ∙ copy-alloc chunk (alloc n) (length chunk) (omega arith)
    ∙ rw (spent, append-nil chunk) refl

module _ (c : Crypto) (fresh : Fresh) (secret : Buffer) where
  -- The fragments of a flight's message, handled one after the other.
  abbrev pub handle_fragments : List FlightDatagram → Method (Unit {0})
  handle_fragments [] = skip
  handle_fragments (f ∷ fs) =
      handle_handshake_fragment c fresh secret f.payload >> handle_fragments fs

  -- The message that is next goes to the handler of the role, with its number consumed and off the
  -- map; what waits behind it follows.
  abbrev pub delivered : ℕ → Buffer → Method (Unit {0})
  delivered type body d =
      (dispatch_handshake c fresh secret type body
          >> dispatch_ready c fresh secret (suc (Map.size d.reassembly)))
        (record d { next_expected_hs_seq = d.next_expected_hs_seq + 1 })

  -- What `#handleHandshakeFragment` goes on with once the map is `entries`.
  abbrev dispatched : Dtls → List (ℕ × ReassemblyEntry) → Outcome Dtls Event (Unit {0})
  dispatched d entries =
      dispatch_ready c fresh secret (suc (Map.size entries)) (record d { reassembly = entries })

  ready_lem :
      (fuel : ℕ) (d : Dtls) (e : ReassemblyEntry)
      → Map.get d.next_expected_hs_seq d.reassembly ≡ some e
      → ltb e.received e.size ≡ false
      → dispatch_ready c fresh secret (suc fuel) d
        ≡ (dispatch_handshake c fresh secret e.type e.content >> dispatch_ready c fresh secret fuel)
            (record d {
              reassembly = Map.delete d.next_expected_hs_seq d.reassembly;
              next_expected_hs_seq = d.next_expected_hs_seq + 1;
            })
  unfolding dispatch_ready
  ready_lem fuel d e there whole = rw (there, whole) refl

  not_ready_lem :
      (fuel : ℕ) (d : Dtls) (e : ReassemblyEntry)
      → Map.get d.next_expected_hs_seq d.reassembly ≡ some e
      → ltb e.received e.size ≡ true
      → dispatch_ready c fresh secret (suc fuel) d ≡ returned tt d []
  unfolding dispatch_ready
  not_ready_lem fuel d e there short = rw (there, short) refl

  module _ (buf : Buffer) (h : Handshake) (e : ReassemblyEntry) (d : Dtls)
      (parsed : parse_handshake buf ≡ ok h) (number : h.message_seq ≡ d.next_expected_hs_seq)
      (entry : filled h (entry_or_new h (Map.get d.next_expected_hs_seq d.reassembly)) ≡ e) where
    taken_lem :
        handle_handshake_fragment c fresh secret buf d
        ≡ dispatched d (Map.put d.next_expected_hs_seq e d.reassembly)
    unfolding handle_handshake_fragment
    taken_lem = rw (parsed, number, entry) refl

    waiting :
        ltb e.received e.size ≡ true
        → handle_handshake_fragment c fresh secret buf d
          ≡ returned tt (record d { reassembly = Map.put d.next_expected_hs_seq e d.reassembly }) []
    waiting short =
        taken_lem
        ∙ not_ready_lem _ (record d { reassembly = Map.put d.next_expected_hs_seq e d.reassembly })
            e (get-put d.next_expected_hs_seq e d.reassembly) short

    completed :
        (entries : List (ℕ × ReassemblyEntry))
        → ltb e.received e.size ≡ false
        → Map.get d.next_expected_hs_seq entries ≡ none
        → Map.put d.next_expected_hs_seq e d.reassembly ≡ Map.put d.next_expected_hs_seq e entries
        → handle_handshake_fragment c fresh secret buf d
          ≡ delivered e.type e.content (record d { reassembly = entries })
    completed entries whole absent same =
        let (back, one_more) = delete-put d.next_expected_hs_seq e entries absent in
        let next = record d { next_expected_hs_seq = d.next_expected_hs_seq + 1 } in
        let rest : ℕ → List (ℕ × ReassemblyEntry) → Outcome Dtls Event (Unit {0}) = λ fuel m.
          (dispatch_handshake c fresh secret e.type e.content >> dispatch_ready c fresh secret fuel)
            (record next { reassembly = m }) in
        taken_lem
        ∙ ap (dispatched d) same
        ∙ ready_lem _ (record d { reassembly = Map.put d.next_expected_hs_seq e entries }) e
            (get-put d.next_expected_hs_seq e entries) whole
        ∙ ap
            (λ (m : List (ℕ × ReassemblyEntry)).
              rest (Map.size (Map.put d.next_expected_hs_seq e entries)) m)
            back
        ∙ ap (λ (fuel : ℕ). rest fuel entries) one_more

  module _ (msg : HandshakeMessage) (t : IsByte msg.type) (m : length msg.body < 16777216)
      (d0 : Dtls) (s : IsU16 d0.next_expected_hs_seq)
      (absent : Map.get d0.next_expected_hs_seq d0.reassembly ≡ none) where
    abbrev seq : ℕ
    seq = d0.next_expected_hs_seq

    -- The map is that of `d0`, but for what it has of the message.
    record Gathers (front : Buffer) (left : ℕ) (map : List (ℕ × ReassemblyEntry)) : Type 0 where
      entry :
          (chunk : Buffer)
          → entry_or_new (fragment msg seq (length front) chunk) (Map.get seq map)
            ≡ partial msg front left
      others : (e : ReassemblyEntry) → Map.put seq e map ≡ Map.put seq e d0.reassembly

    fragments_lem :
        (fuel : ℕ) (front rest : Buffer) (out : List FlightDatagram)
        (entries : List (ℕ × ReassemblyEntry))
        → front ++ rest ≡ msg.body
        → length rest < fuel
        → Gathers front (length rest) entries
        → (fs : List FlightDatagram) × (fragments_from fuel msg seq (length front) out
            ≡ ok (out ++ fs))
          × (handle_fragments fs (record d0 { reassembly = entries })
              ≡ delivered msg.type msg.body d0)
    unfolding fragments_from
    fragments_lem zero front rest out entries whole n g = absurd (omega arith)
    fragments_lem (suc fuel) front rest out entries whole n g =
        let chunk = take max_fragment rest in
        let rest' = drop max_fragment rest in
        let width : length front + max_fragment - length front ≡ max_fragment = omega arith in
        let cut : slice msg.body (length front) (length front + max_fragment) ≡ chunk =
          rw (sym whole, drop-append_length front rest, width) refl in
        let made = fragment_at_lem msg seq (length front) chunk t s in
        let short = length-take {0} max_fragment rest in
        let total : length front + length rest ≡ length msg.body =
          omega (arith, ap length whole, length-append {0} front rest) in
        let f : FlightDatagram = record {
          type = handshake;
          payload = fragment_bytes msg seq (length front) chunk;
        } in
        let d = record d0 { reassembly = entries } in
        let h = fragment msg seq (length front) chunk in
        let e = partial msg (front ++ chunk) (length rest - length chunk) in
        let parsed =
          parse_fragment msg seq (length front) chunk m (omega (arith, total))
            (omega (arith, short, total)) in
        let filled_up : filled h (entry_or_new h (Map.get seq entries)) ≡ e =
          rw (g.entry chunk)
            (filled_lem msg seq (length rest) front chunk (omega (arith, short))) in
        let seam : length front + length chunk ≡ length (front ++ chunk) =
          omega (arith, length-append {0} front chunk) in
        elim (Bool-cases (ltb (length front + length chunk) (length msg.body))) [
          | inl more ↦
              let step = waiting f.payload h e d parsed refl filled_up (rw (sym seam) more) in
              let left : length rest - length chunk ≡ length rest' =
                omega (arith, short, length-drop {0} max_fragment rest) in
              let whole' =
                append_assoc front chunk rest'
                ∙ ap (λ (b : Buffer). front ++ b) (take-append-drop max_fragment rest)
                ∙ whole in
              let fewer : length rest' < fuel =
                omega
                  (arith, n, short, length-drop {0} max_fragment rest, total, ltb→lt _ _ more) in
              let g' : Gathers (front ++ chunk) (length rest') (Map.put seq e entries) = record {
                entry = λ k. rw (get-put seq e entries) (ap (partial msg (front ++ chunk)) left);
                others = λ x. put-put seq e x entries ∙ g.others x;
              } in
              let (fs, made', taken) =
                fragments_lem fuel (front ++ chunk) rest' (out ++ (f ∷ [])) (Map.put seq e entries)
                  whole' fewer g' in
              (
                f ∷ fs,
                rw (cut, made, more, seam) (made' ∙ ap ok (append_assoc out (f ∷ []) fs)),
                rw step taken,
              )
          | inr last ↦
              let reached = not_lt (length front + length chunk) (length msg.body) last in
              let all : chunk ≡ rest =
                take_all max_fragment rest (omega (arith, short, total, reached)) in
              let none_left : length rest - length chunk ≡ 0 =
                omega (arith, short, total, reached) in
              let content : (front ++ chunk) ++ alloc (length rest - length chunk) ≡ msg.body =
                rw (none_left, all) (append-nil (front ++ rest) ∙ whole) in
              let step =
                completed f.payload h e d parsed refl filled_up d0.reassembly (rw (sym seam) last)
                  absent (g.others e) in
              (
                f ∷ [],
                rw (cut, made, last) refl,
                then_skip (handle_handshake_fragment c fresh secret f.payload) d
                    ∙ step
                    ∙ ap (λ (b : Buffer). delivered msg.type b d0) content,
              )
        ]

    -- The peer gets back every message that `#sendFlight` cuts up, where the message is the one that the
    -- peer expects next and none of it has come: there are fragments, and handled one after the other by
    -- `#handleHandshakeFragment` they have the handler of the peer's role called with the message's
    -- type and its whole body, once its number is consumed, with what else waits in the reassembly map
    -- as it was and dispatched next. The type, the number and the length fit in 8, 16 and 24 bits; the
    -- body may be empty.
    pub handle_fragments-fragments_from :
        (fs : List FlightDatagram) × (fragments_from
            (suc (length msg.body))
            msg
            d0.next_expected_hs_seq
            0
            []
          ≡ ok fs)
        × (handle_fragments fs d0 ≡ delivered msg.type msg.body d0)
    handle_fragments-fragments_from =
        fragments_lem (suc (length msg.body)) [] msg.body [] d0.reassembly refl (omega arith)
          (record { entry = λ k. rw absent refl; others = λ e. refl })

    -- The last fragment of a message alone, where the message is the one that the peer expects next and
    -- none of it has come, has the handler of the peer's role called with zeros where the fragments
    -- before it belong: the count of bytes received is the message's length. The type, the number and
    -- the length fit their fields.
    pub last_fragment_lem :
        (front chunk : Buffer)
        → msg.body ≡ front ++ chunk
        → (payload : Buffer) × (fragment_at msg d0.next_expected_hs_seq (length front) chunk
            ≡ ok payload)
          × (handle_handshake_fragment c fresh secret payload d0
              ≡ delivered msg.type (alloc (length front) ++ chunk) d0)
    last_fragment_lem front chunk whole =
        let total : length msg.body ≡ length front + length chunk =
          omega (arith, ap length whole, length-append {0} front chunk) in
        let far : max 0 (length front + length chunk) ≡ length msg.body = omega (arith, total) in
        let placed : copy chunk (length front) (alloc (length msg.body))
            ≡ alloc (length front) ++ chunk =
          ap (λ (k : ℕ). copy chunk (length front) (alloc k)) total
          ∙ copy-alloc_end (length front) chunk in
        let e : ReassemblyEntry = record {
          type = msg.type;
          size = length msg.body;
          content = alloc (length front) ++ chunk;
          received = length msg.body;
        } in
        let h = fragment msg seq (length front) chunk in
        let filled_up : filled h (entry_or_new h (Map.get seq d0.reassembly)) ≡ e =
          rw (absent, far, placed) refl in
        let parsed =
          parse_fragment msg seq (length front) chunk m (omega (arith, total))
            (omega (arith, total)) in
        (
          fragment_bytes msg seq (length front) chunk,
          fragment_at_lem msg seq (length front) chunk t s,
          completed (fragment_bytes msg seq (length front) chunk) h e d0 parsed refl filled_up
              d0.reassembly (irreflexive (length msg.body)) absent refl,
        )
