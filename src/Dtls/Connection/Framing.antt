-- ===== src/Dtls/Connection/Framing.antt =====
-- src/dtls/connection.ts: handshake messages as datagrams: their types, numbers and fragments.
use node_rtc_connection.Prelude.{
  ℕ, zero, suc, ◌+◌, Bool, true, false, Option, none, some, List, [], ◌∷◌, ◌++◌, ltb, ◌==◌,
  if◌then◌else◌, length, take, Result, ok, err, out_of_fuel, handshake_error,
}
use node_rtc_connection.Prelude
use node_rtc_connection.Buffer.{
  Buffer, slice, alloc, concat, copy, write_uint8, write_uint16_be, write_uint32_be,
}
use node_rtc_connection.Effects.{◌>>=◌, ◌>>◌, pure, self, modify, lift}
use node_rtc_connection.Dtls.Protocol.{uint24, encode_handshake}
use node_rtc_connection.Dtls.Connection.{Method, HandshakeMessage, FlightDatagram, max_fragment}
use node_rtc_connection.Dtls.Connection.Outbound.{handshake}

abbrev pub client_hello : ℕ
client_hello = 1

abbrev pub server_hello : ℕ
server_hello = 2

abbrev pub hello_verify_request : ℕ
hello_verify_request = 3

abbrev pub certificate : ℕ
certificate = 11

abbrev pub server_key_exchange : ℕ
server_key_exchange = 12

abbrev pub certificate_request_type : ℕ
certificate_request_type = 13

abbrev pub server_hello_done : ℕ
server_hello_done = 14

abbrev pub certificate_verify : ℕ
certificate_verify = 15

abbrev pub client_key_exchange : ℕ
client_key_exchange = 16

abbrev pub finished : ℕ
finished = 20

-- What the code draws during a call: the bytes of `randomBytes`, the seconds of `Date.now`, and the key
-- pair of `generateKeys`.
pub record Fresh : Type 0 where
  pub random_bytes : Buffer
  pub seconds : ℕ
  pub key_pair : Buffer

-- `#makeRandom`.
unfoldable pub make_random : Fresh → Result Buffer
make_random fresh = write_uint32_be fresh.seconds 0 fresh.random_bytes

-- One fragment of a handshake message: the chunk at `offset` behind its header.
unfoldable pub fragment_at : HandshakeMessage → ℕ → ℕ → Buffer → Result Buffer
fragment_at msg seq offset chunk = Prelude.◌>>=◌ (write_uint8 msg.type 0 (alloc 12)) λ h₁.
    let h₂ = copy (uint24 (length msg.body)) 1 h₁ in
    Prelude.◌>>=◌ (write_uint16_be seq 4 h₂) λ h₃.
      let h₄ = copy (uint24 offset) 6 h₃ in
      let h₅ = copy (uint24 (length chunk)) 9 h₄ in ok (concat (h₅ ∷ chunk ∷ []))

-- The `do` loop of `#sendFlight`, with the rounds that are left. A round takes a byte at least, or it is
-- the only one.
unfoldable pub fragments_from :
    ℕ → HandshakeMessage → ℕ → ℕ → List FlightDatagram → Result (List FlightDatagram)
fragments_from zero msg seq offset out = err out_of_fuel
fragments_from (suc fuel) msg seq offset out =
    Prelude.◌>>=◌ (fragment_at msg seq offset (slice msg.body offset (offset + max_fragment)))
      λ payload.
        let out' = out ++ (record { type = handshake; payload = payload } ∷ []) in
        let offset' = offset + length (slice msg.body offset (offset + max_fragment)) in
        let more = fragments_from fuel msg seq offset' out' in
        if ltb offset' (length msg.body) then more else ok out'

abbrev pub push_transcript : Buffer → Method (Unit {0})
push_transcript full = modify (λ d. record d { transcript = d.transcript ++ (full ∷ []) })

-- `this.#handshakeMessageSeq++`.
abbrev pub next_message_seq : Method ℕ
next_message_seq = do
  d ← self
  modify (λ x. record x { handshake_message_seq = x.handshake_message_seq + 1 })
  pure d.handshake_message_seq

-- The loop of `#sendFlight` over the messages, with the datagrams so far.
unfoldable pub frame_messages :
    List HandshakeMessage → List FlightDatagram → Method (List FlightDatagram)
frame_messages [] out = pure out
frame_messages (msg ∷ msgs) out = do
  seq ← next_message_seq
  full ← lift (encode_handshake msg.type seq msg.body)
  push_transcript full
  out' ← lift (fragments_from (suc (length msg.body)) msg seq 0 out)
  frame_messages msgs out'
