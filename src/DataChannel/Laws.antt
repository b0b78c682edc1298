-- ===== src/DataChannel/Laws.antt =====
-- src/datachannel/RTCDataChannel.ts: what the methods of a channel keep.
use node_rtc_connection.Prelude.{
  ℕ, ◌+◌, ◌-◌, ◌≡◌, refl, [], ◌∷◌, ap, inl, inr, not, Bool, true, false, arith, leb, Bool-cases,
  Result-cases, length, ok,
}
use node_rtc_connection.Buffer.{Buffer}
use node_rtc_connection.Effects.{M, returned, ◌>>◌}
use node_rtc_connection.DataChannel.{
  Event, Held, Sent, string, bytes, blob_like, anything, opened, closing, closed, same_state,
  converted, transmit, send, close, run_immediate, open_internal, set_state,
  emit_buffered_amount_low, closing_event, open_event,
}

module _ {S T E : Type 0} (utf8 : S → Buffer) (of_utf8 : Buffer → S) (tell : Event S → E)
    (on_send : Buffer → Bool → M T E (Unit {0})) (on_close : M T E (Unit {0})) where
  transmit-channel :
      (data' : Buffer) (is_binary : Bool) (h : Held S T)
      → (transmit utf8 of_utf8 tell on_send on_close data' is_binary h).state.channel ≡ h.channel
  unfolding transmit emit_buffered_amount_low
  transmit-channel data' is_binary h =
      let b = h.channel.buffered_amount in
      let n : b + length data' - length data' ≡ b = omega arith in
      let same : record h.channel { buffered_amount = b + length data' - length data' }
          ≡ h.channel =
        ap (λ (k : ℕ). record h.channel { buffered_amount = k }) n in
      elim (Result-cases (on_send data' is_binary h.rest).result) [
        | inl (x, r) ↦
            elim (Bool-cases (leb (b + length data' - length data') h.channel.low_threshold)) [
              | inl l ↦ rw (r, l) same
              | inr l ↦ rw (r, l) same
            ]
        | inr (e, r) ↦ rw r same
      ]

  guarded-channel :
      (sent : Sent S) (data' : Buffer) (is_binary : Bool) (h : Held S T)
      → converted utf8 sent ≡ ok (data', is_binary)
      → (send utf8 of_utf8 tell on_send on_close sent h).state.channel ≡ h.channel
  unfolding send
  guarded-channel sent data' is_binary h k =
      elim (Bool-cases (same_state h.channel.ready_state opened)) [
        | inl o ↦ elim (Bool-cases h.channel.connected) [
          | inl c ↦
              let up : not h.channel.connected ≡ false = ap not c in
              rw (o, k, up) (transmit-channel data' is_binary h)
          | inr c ↦ let down : not h.channel.connected ≡ true = ap not c in rw (o, k, down) refl
        ]
        | inr o ↦ rw o refl
      ]

  -- `send` leaves every field of the channel as it was, `bufferedAmount` too, on all its ways out: when the
  -- channel is not open or not connected, for what cannot be sent, when the transport takes the bytes
  -- and when it throws.
  pub send-channel :
      (sent : Sent S) (h : Held S T)
      → (send utf8 of_utf8 tell on_send on_close sent h).state.channel ≡ h.channel
  unfolding send
  send-channel (string s) h = guarded-channel (string s) (utf8 s) false h refl
  send-channel (bytes b) h = guarded-channel (bytes b) b true h refl
  send-channel blob_like h = elim (Bool-cases (same_state h.channel.ready_state opened)) [
    | inl o ↦ rw o refl
    | inr o ↦ rw o refl
  ]
  send-channel anything h = elim (Bool-cases (same_state h.channel.ready_state opened)) [
    | inl o ↦ rw o refl
    | inr o ↦ rw o refl
  ]

  -- `close` of a channel that is neither closing nor closed, whose listeners are attached, for which
  -- no callback waits, and whose opening comes before the callback of `setImmediate` runs, does not
  -- close it: the channel ends open and connected, and its listeners have been told that it was
  -- closing and that it opened.
  pub reopened_lem :
      (h : Held S T)
      → same_state h.channel.ready_state closing ≡ false
      → same_state h.channel.ready_state closed ≡ false
      → h.channel.attached ≡ true
      → h.channel.immediates ≡ 0
      → (close utf8 of_utf8 tell on_send on_close
            >> open_internal utf8 of_utf8 tell on_send on_close
            >> run_immediate utf8 of_utf8 tell on_send on_close)
          h
        ≡ returned tt
            (record {
              channel = record h.channel { ready_state = opened; connected = true };
              rest = h.rest;
            })
            (tell closing_event ∷ tell open_event ∷ [])
  unfolding close open_internal run_immediate set_state
  reopened_lem h c d a i = simp (c, d, a, i)
