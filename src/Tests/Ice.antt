-- ===== src/Tests/Ice.antt =====
-- Connectivity checks at concrete inputs. The HMAC is a stand-in of 20 bytes that depends on its key.
use node_rtc_connection.Prelude.{
  ℕ, ◌≡◌, refl, ◌<◌, true, false, none, some, [], ◌∷◌, ◌++◌, arith, length, replicate, ok,
  if◌then◌else◌,
}
use node_rtc_connection.Buffer.{Buffer}
use node_rtc_connection.Effects.{returned}
use node_rtc_connection.Buffer.Equality.{bytes_equal, buffer_eq}
use node_rtc_connection.Map.{get, put}
use node_rtc_connection.Ice.StunMessage.{
  StunMessageBuilder, StunAttribute, build, parse, verify_integrity, parse_loop, find_integrity,
  check_integrity, binding_request, binding_success, new_builder, add_username, add_priority,
  use_candidate,
}
use node_rtc_connection.Ice.StunMessage.Layout.{IsBuildable, sent_attrs, integrity_of, body_bytes}
use node_rtc_connection.Ice.StunMessage.Parse.{message_bytes, collected}
use node_rtc_connection.Ice.StunMessage.Verify.{verify_integrity-build}
use node_rtc_connection.Ice.StunMessage.RoundTrip.{parse-build, appended_lem}
use node_rtc_connection.Ice.Agent.{
  controlling, controlled, host, relay, frozen, IceAgent, CandidatePair, LocalCandidate, RemoteInfo,
  SelectedPair, new_agent, candidate_priority, sent, selected_pair, connected, some_of,
  same_address, find,
}
use node_rtc_connection.Ice.Agent.Checks.{send_check, path_of}
use node_rtc_connection.Ice.Agent.Handlers.{on_datagram}
use node_rtc_connection.Ice.Agent.Selection.{connections}
use node_rtc_connection.Ice.Agent.Steps.{datagram, interval_fires, events_of, run, connected_once}
use node_rtc_connection.Ice.Agent.Authentication.{unauthenticated_lem, unsigned_success_lem}
use node_rtc_connection.Ice.Agent.Connect.{check_connects}
use node_rtc_connection.Ice.Agent.Priority.{candidate_priority_lem}

abbrev toy_hmac : Buffer → Buffer → Buffer
toy_hmac key bytes = length key ∷ replicate 19 7

length-toy_hmac : (key bytes : Buffer) → length (toy_hmac key bytes) ≡ 20
length-toy_hmac key bytes = refl

abbrev draw : ℕ → Buffer
draw n = replicate 12 n

abbrev address_a : RemoteInfo
address_a = record { address = 49 ∷ 46 ∷ 49 ∷ 46 ∷ 49 ∷ 46 ∷ 49 ∷ []; port = 5000 }

abbrev address_b : RemoteInfo
address_b = record { address = 50 ∷ 46 ∷ 50 ∷ 46 ∷ 50 ∷ 46 ∷ 50 ∷ []; port = 6000 }

abbrev local_a : LocalCandidate
local_a = record {
  priority = candidate_priority host 65535 1;
  address = address_a.address;
  port = 5000;
  type = host;
  transport = 1;
}

abbrev pair_ab : CandidatePair
pair_ab = record { local = local_a; remote = address_b; state = frozen; pending_txid = none }

abbrev agent_a : IceAgent
agent_a = record (new_agent controlling (97 ∷ []) (120 ∷ []) (replicate 8 1)) {
  remote_ufrag = some (98 ∷ []);
  remote_pwd = some (112 ∷ 119 ∷ []);
  pairs = pair_ab ∷ [];
}

abbrev agent_b : IceAgent
agent_b = record (new_agent controlled (98 ∷ []) (112 ∷ 119 ∷ []) (replicate 8 2)) {
  remote_candidates = address_a ∷ [];
}

abbrev builder : StunMessageBuilder
builder =
    add_priority 1 (add_username (97 ∷ 58 ∷ 98 ∷ []) (new_builder binding_request (replicate 12 3)))

builder-IsBuildable : IsBuildable builder
builder-IsBuildable = record {
  type_fits = omega arith;
  id_is_whole = refl;
  attrs_fit = ((omega arith, omega arith), ((omega arith, omega arith), tt));
  room = omega arith;
}

parse-build_example :
    (message : Buffer) × (build toy_hmac builder (112 ∷ []) ≡ ok message)
    × (parse message
        ≡ ok (
            some (record {
              type = binding_request;
              transaction_id = replicate 12 3;
              attrs = collected (sent_attrs toy_hmac builder (112 ∷ [])) [];
              raw = message;
            })))
parse-build_example = parse-build toy_hmac length-toy_hmac builder (112 ∷ []) builder-IsBuildable

verify_integrity-build_example :
    (message : Buffer) × (build toy_hmac builder (112 ∷ []) ≡ ok message)
    × (verify_integrity toy_hmac message (112 ∷ 113 ∷ []) ≡ ok false)
    × (verify_integrity toy_hmac message (112 ∷ []) ≡ ok true)
unfolding bytes_equal
verify_integrity-build_example =
    verify_integrity-build toy_hmac length-toy_hmac builder 112 [] (112 ∷ 113 ∷ [])
      builder-IsBuildable (omega arith, (omega arith, tt))

abbrev nomination : StunAttribute
nomination = record { type = use_candidate; value = [] }

appended_lem_example :
    let m = integrity_of toy_hmac builder (112 ∷ []) (body_bytes builder.attrs) in
    let message =
      message_bytes binding_request (replicate 12 3) (builder.attrs ++ (m ∷ nomination ∷ [])) in
    (verify_integrity toy_hmac message (112 ∷ []) ≡ ok true)
    × (parse message
        ≡ ok (
            some (record {
              type = binding_request;
              transaction_id = replicate 12 3;
              attrs = collected (builder.attrs ++ (m ∷ nomination ∷ [])) [];
              raw = message;
            })))
appended_lem_example =
    appended_lem toy_hmac length-toy_hmac builder 112 [] (nomination ∷ []) builder-IsBuildable
      (omega arith, (omega arith, tt)) ((omega arith, omega arith), tt)

abbrev bare : Buffer
bare = message_bytes binding_success (replicate 12 0) []

-- An agent whose check of its only pair is out.
abbrev waiting_a : IceAgent
waiting_a = record agent_a { pending_checks = (replicate 12 0, 0) ∷ [] }

unsigned_success_lem_example :
    let o = on_datagram toy_hmac draw 1 bare address_a waiting_a in
    (o.result ≡ ok tt)
    × (o.state.selected ≡ some (path_of pair_ab))
    × (o.events ≡ selected_pair (path_of pair_ab) ∷ connected ∷ [])
unfolding get bytes_equal
unsigned_success_lem_example =
    unsigned_success_lem toy_hmac draw 1 (replicate 12 0) address_a waiting_a 0 pair_ab refl refl
      refl refl refl

abbrev unsigned_request : Buffer
unsigned_request = message_bytes binding_request (replicate 12 0) (nomination ∷ [])

unauthenticated_lem_example :
    on_datagram toy_hmac draw 2 unsigned_request address_a agent_b ≡ returned tt agent_b []
unfolding parse parse_loop put verify_integrity find_integrity check_integrity
unauthenticated_lem_example =
    unauthenticated_lem toy_hmac draw 2 0 _ address_a agent_b
      (record {
        type = binding_request;
        transaction_id = replicate 12 0;
        attrs = (use_candidate, []) ∷ [];
        raw = unsigned_request;
      })
      112 (119 ∷ []) (omega arith) refl refl refl refl

connected_once_example :
    connections (
      events_of toy_hmac draw
        (datagram 1 bare address_a ∷ datagram 1 bare address_a ∷ interval_fires ∷ [])
        waiting_a)
    ≡ (if some_of
          (run toy_hmac draw
            (datagram 1 bare address_a ∷ datagram 1 bare address_a ∷ interval_fires ∷ [])
            waiting_a).selected
        then 1
        else 0)
connected_once_example =
    connected_once toy_hmac draw
      (datagram 1 bare address_a ∷ datagram 1 bare address_a ∷ interval_fires ∷ []) waiting_a refl

check_connects_example :
    (request response : Buffer) × (path : SelectedPair) × let asked =
        send_check toy_hmac draw 0 pair_ab agent_a in
      let answered = on_datagram toy_hmac draw 2 request address_a agent_b in
      let settled = on_datagram toy_hmac draw 1 response address_b asked.state in
      (asked.result ≡ ok tt)
      × (asked.events ≡ sent 1 request address_b ∷ [])
      × (answered.result ≡ ok tt)
      × (answered.events ≡ sent 2 response address_a ∷ selected_pair path ∷ connected ∷ [])
      × (answered.state.selected ≡ some path)
      × (path.transport ≡ 2)
      × (same_address path.remote address_a ≡ true)
      × (settled.result ≡ ok tt)
      × (settled.events ≡ selected_pair (path_of pair_ab) ∷ connected ∷ [])
      × (settled.state.selected ≡ some (path_of pair_ab))
unfolding find bytes_equal
check_connects_example =
    check_connects toy_hmac length-toy_hmac draw draw agent_a agent_b 0 pair_ab 112 (119 ∷ []) 1 2
      address_a address_b address_a
      (record {
        type_fits = omega arith;
        id_is_whole = refl;
        attrs_fit = (
          (omega arith, omega arith),
          (
            (omega arith, omega arith),
            ((omega arith, omega arith), ((omega arith, omega arith), tt)),
          ),
        );
        room = omega arith;
      })
      refl refl refl refl refl refl refl refl (omega arith)

candidate_priority_lem_example :
    (0 < candidate_priority relay 65535 1)
    × (candidate_priority relay 65535 1 < candidate_priority host 0 1)
    × (candidate_priority host 0 1 < 2147483648)
candidate_priority_lem_example =
    candidate_priority_lem relay host 65535 0 1 1 (omega arith) (omega arith) (omega arith)
      (omega arith) (omega arith) (omega arith) (omega arith)
