-- ===== src/Dtls/Connection/Inbound.antt =====
-- src/dtls/connection.ts: datagrams in: records, reassembly and the dispatch of handshake messages.
use node_rtc_connection.Prelude.{
  ℕ, zero, suc, ◌+◌, max, not, Option, none, some, List, [], ◌∷◌, ltb, leb, ◌==◌, if◌then◌else◌,
  length, get_or, alert_error, out_of_fuel, ok, err,
}
use node_rtc_connection.Buffer.{Buffer, alloc, copy}
use node_rtc_connection.Map
use node_rtc_connection.Map.{nat_eq}
use node_rtc_connection.Effects.{◌>>=◌, ◌>>◌, skip, self, modify, emit, lift, throw, try_then}
use node_rtc_connection.Dtls.Protocol.{DtlsRecord, Handshake, parse_records, parse_handshake}
use node_rtc_connection.Dtls.Primitives.{Crypto}
use node_rtc_connection.Dtls.Cipher.{GcmCipher, decrypt}
use node_rtc_connection.Dtls.Connection.{
  Method, Role, client, server, new, handshaking, connected, phase_eq, ReassemblyEntry, data_event,
}
use node_rtc_connection.Dtls.Connection.Outbound.{
  close, fail, is_over, set_phase, handshake, alert, application_data,
}
use node_rtc_connection.Dtls.Connection.Framing.{Fresh, make_random}
use node_rtc_connection.Dtls.Connection.Flights.{send_client_hello}
use node_rtc_connection.Dtls.Connection.Roles.{client_handle, server_handle}

-- The entry of a message, or a new one for the fragment's message.
abbrev pub entry_or_new : Handshake → Option ReassemblyEntry → ReassemblyEntry
entry_or_new h none = record {
  type = h.msg_type;
  size = h.size;
  content = alloc h.size;
  received = 0;
}
entry_or_new h (some e) = e

-- The fragment put into its place.
abbrev pub filled : Handshake → ReassemblyEntry → ReassemblyEntry
filled h e = record e {
  content = copy h.body h.fragment_offset e.content;
  received = max e.received (h.fragment_offset + h.fragment_length);
}

-- What each call may draw.
module _ (c : Crypto) (fresh : Fresh) (fresh_secret : Buffer) where
  -- `#handleAlert`.
  unfoldable pub handle_alert : Buffer → Method (Unit {0})
  handle_alert fragment =
      let other : Method (Unit {0}) = if get_or fragment 0 0 == 2 then fail alert_error else skip in
      if ltb (length fragment) 2
      then skip
      else (if get_or fragment 1 0 == 0 then close c else other)

  by_role : Role → ℕ → Buffer → Method (Unit {0})
  by_role client type body = client_handle c fresh type body
  by_role server type body = server_handle c fresh fresh_secret type body

  -- `#dispatchHandshake`.
  unfoldable pub dispatch_handshake : ℕ → Buffer → Method (Unit {0})
  unfolding by_role
  dispatch_handshake type body = do d ← self; by_role d.role type body

  -- The `while` loop of `#handleHandshakeFragment`. A round takes an entry off the map and adds none, so
  -- one round more than the map has entries is enough.
  unfoldable pub dispatch_ready : ℕ → Method (Unit {0})
  dispatch_ready zero = throw out_of_fuel
  dispatch_ready (suc fuel) = do
    d ← self
    let deliver : ReassemblyEntry → Method (Unit {0}) = λ e. do
      modify (λ x. record x {
        reassembly = Map.delete d.next_expected_hs_seq x.reassembly;
        next_expected_hs_seq = x.next_expected_hs_seq + 1;
      })
      dispatch_handshake e.type e.content
      dispatch_ready fuel
    elim (Map.get d.next_expected_hs_seq d.reassembly) [
      | none ↦ skip
      | some e ↦ if ltb e.received e.size then skip else deliver e
    ]

  -- `#handleHandshakeFragment`.
  unfoldable pub handle_handshake_fragment : Buffer → Method (Unit {0})
  handle_handshake_fragment buf = do
    h ← lift (parse_handshake buf)
    modify (λ x. record x {
      reassembly =
          Map.put h.message_seq (filled h (entry_or_new h (Map.get h.message_seq x.reassembly)))
            x.reassembly;
    })
    d ← self
    dispatch_ready (suc (Map.size d.reassembly))

  -- The `switch` of `#handleRecord`.
  unfoldable pub dispatch_record : ℕ → Buffer → Method (Unit {0})
  dispatch_record type fragment = do
    d ← self
    let received : Method (Unit {0}) =
        if phase_eq d.phase connected then emit (data_event fragment) else skip
    if type == handshake
        then handle_handshake_fragment fragment
        else (if type == application_data
            then received
            else (if type == alert then handle_alert fragment else skip))

  -- A record of an encrypted epoch: dropped before there are keys.
  unfoldable pub handle_encrypted : Option GcmCipher → DtlsRecord → Method (Unit {0})
  handle_encrypted none r = skip
  handle_encrypted (some g) r = do
    fragment ← lift (decrypt c g r.epoch r.seq r.type r.version r.fragment)
    dispatch_record r.type fragment

  -- `#handleRecord`.
  unfoldable pub handle_record : DtlsRecord → Method (Unit {0})
  handle_record r = do
    d ← self
    if leb 1 r.epoch then handle_encrypted d.read_cipher r else dispatch_record r.type r.fragment

  -- The loop of `handlePacket`: the first exception fails the connection and ends the loop.
  unfoldable pub handle_records : List DtlsRecord → Method (Unit {0})
  handle_records [] = skip
  handle_records (r ∷ rs) = try_then (handle_record r) (handle_records rs) fail

  -- `handlePacket`; a datagram that cannot be parsed is ignored.
  unfoldable pub handle_packet : Buffer → Method (Unit {0})
  handle_packet packet = do
    d ← self
    let parsed : Method (Unit {0}) = elim (parse_records packet) [
      | ok rs ↦ handle_records rs
      | err e ↦ skip
    ]
    if is_over d.phase then skip else parsed

  start_as : Role → Method (Unit {0})
  start_as server = skip
  start_as client = do
    random ← lift (make_random fresh)
    modify (λ x. record x { client_random = some random })
    send_client_hello c

  -- `start`.
  unfoldable pub start : Method (Unit {0})
  unfolding start_as
  start = do
    d ← self
    let begin : Method (Unit {0}) = do set_phase handshaking; start_as d.role
    if not (phase_eq d.phase new) then skip else begin
