-- ===== src/Tests/Association.antt =====
-- src/sctp/association.ts on concrete inputs.
use node_rtc_connection.Prelude.{
  ℕ, ◌+◌, ◌≡◌, ◌≢◌, refl, ap, true, false, none, some, List, [], ◌∷◌, ◌++◌, map, arith, length,
  replicate, ok,
}
use node_rtc_connection.Buffer.{Buffer, slice, alloc}
use node_rtc_connection.Map
use node_rtc_connection.Map.{nat_eq}
use node_rtc_connection.Sctp.Chunks.{ParsedChunk}
use node_rtc_connection.Sctp.Bodies.{SackBody, parse_sack_body, read_gap_blocks, read_dup_tsns}
use node_rtc_connection.Sctp.Serial.{sn_lt, sn_lt-false}
use node_rtc_connection.Sctp.Association.{
  Assoc, closed, cookie_wait, established, error_event, close_event, setup_timed_out, InitTimer,
}
use node_rtc_connection.Sctp.Association.Monad.{returned}
use node_rtc_connection.Sctp.Association.Setup.{handle_cookie_echo}
use node_rtc_connection.Sctp.Association.Sending.{handle_sack}
use node_rtc_connection.Sctp.Association.Reassembly.{Expects, Received, receive_all}
use node_rtc_connection.Sctp.Association.Emission.{outputs, CanSend}
use node_rtc_connection.Sctp.Association.Transfer.{
  Call, message_of_call, send_calls, send_calls-receive_all,
}
use node_rtc_connection.Sctp.Association.Cookies.{short_cookie, forged_cookie}
use node_rtc_connection.Sctp.Association.Acks.{handle_sack-get}
use node_rtc_connection.Sctp.Association.Timers.{fires, IsClosed, fires_lem}

-- The last TSN before the wrap-around is next.
abbrev pub sender : Assoc
sender = record {
  is_client = true;
  state = established;
  local_port = 5000;
  remote_port = 5000;
  local_tag = 7;
  remote_tag = 9;
  local_tsn = 4294967295;
  next_ssn = [];
  sent_queue = [];
  peer_cumulative_tsn = none;
  received_out_of_order = [];
  fragments = [];
  init_timer = none;
  cookie_secret = none;
}

abbrev pub receiver : Assoc
receiver = record sender { peer_cumulative_tsn = some 4294967294 }

abbrev pub toy_mac : Buffer → Buffer → Buffer
toy_mac key bytes = alloc 32

pub sender-CanSend : CanSend sender
unfolding Map.get
sender-CanSend = record {
  ports = (omega arith, omega arith);
  tsn = omega arith;
  ssn = λ s. omega arith;
}

pub receiver-Expects : Expects 4294967295 receiver
receiver-Expects = record {
  ports = (omega arith, omega arith);
  nothing_ahead = refl;
  expected = refl;
}

-- Two fragments ordered, then one unordered.
abbrev calls : List Call
calls =
    record { stream_id = 1; ppid = 51; payload = alloc 1300; unordered = false }
    ∷ record { stream_id = 1; ppid = 53; payload = 1 ∷ 2 ∷ []; unordered = true }
    ∷ []

send_calls-receive_all_example :
    ((send_calls calls sender).result ≡ ok tt)
    × (ps : List Buffer) × ((send_calls calls sender).events ≡ outputs ps)
    × Received
        (send_calls calls sender).assoc.local_tsn
        (map message_of_call calls)
        (receive_all toy_mac (alloc 32) ps receiver)
send_calls-receive_all_example =
    send_calls-receive_all toy_mac (alloc 32) calls sender receiver
      (
        record { stream_id = omega arith; ppid = omega arith },
        (record { stream_id = omega arith; ppid = omega arith }, tt),
      )
      refl sender-CanSend receiver-Expects

abbrev cookie_of : Buffer → ParsedChunk
cookie_of body = record { type = 10; flags = 0; size = 4 + length body; body = body }

-- A closed association is established by an empty cookie.
short_cookie_example :
    ((handle_cookie_echo toy_mac
        (alloc 32)
        (cookie_of [])
        (record sender { state = closed })).result
      ≡ ok tt)
    × ((handle_cookie_echo toy_mac
          (alloc 32)
          (cookie_of [])
          (record sender { state = closed })).assoc
        ≡ sender)
short_cookie_example =
    short_cookie toy_mac (alloc 32) (cookie_of []) (record sender { state = closed })
      (omega arith, omega arith) (omega arith)

abbrev first_byte : Buffer → ℕ
first_byte [] = 0
first_byte (b ∷ bs) = b

abbrev guarded : Assoc
guarded = record sender { state = closed; cookie_secret = some (5 ∷ []) }

forged_cookie_example :
    handle_cookie_echo toy_mac (alloc 32) (cookie_of (replicate 48 1)) guarded
    ≡ returned tt guarded []
forged_cookie_example =
    forged_cookie toy_mac (alloc 32) (cookie_of (replicate 48 1)) (5 ∷ []) guarded
      (λ key bytes. refl) refl (omega arith) other
  where
    other : slice (replicate 48 1) 16 48 ≢ alloc 32
    other h = let e : 1 ≡ 0 = ap first_byte h in omega (arith, e)

abbrev sack_chunk : ParsedChunk
sack_chunk = record {
  type = 3;
  flags = 0;
  size = 16;
  body = 0 ∷ 0 ∷ 0 ∷ 5 ∷ 0 ∷ 16 ∷ 0 ∷ 0 ∷ 0 ∷ 0 ∷ 0 ∷ 0 ∷ [];
}

abbrev ack_of_five : SackBody
ack_of_five = record { cumulative_tsn_ack = 5; a_rwnd = 1048576; gap_blocks = []; dup_tsns = [] }

sack_chunk_parsed : parse_sack_body sack_chunk.body ≡ ok ack_of_five
unfolding parse_sack_body read_gap_blocks read_dup_tsns
sack_chunk_parsed = refl

abbrev waiting : Assoc
waiting = record sender { sent_queue = (4, 1 ∷ []) ∷ (5, 2 ∷ []) ∷ [] }

-- TSN 4 stays, although 5 was acknowledged.
handle_sack-get_example :
    ((handle_sack sack_chunk waiting).result ≡ ok tt)
    × (Map.get 5 (handle_sack sack_chunk waiting).assoc.sent_queue ≡ none)
    × (Map.get 4 (handle_sack sack_chunk waiting).assoc.sent_queue ≡ Map.get 4 waiting.sent_queue)
handle_sack-get_example =
    handle_sack-get sack_chunk ack_of_five 4 waiting sack_chunk_parsed refl (λ e. omega (arith, e))

sn_lt-false_example : sn_lt 4 5 ≡ false
sn_lt-false_example = sn_lt-false 4 5

abbrev first_timer : InitTimer
first_timer = record { rto = 500; attempts = 0; chunks = (1 ∷ 0 ∷ 0 ∷ 4 ∷ []) ∷ [] }

abbrev in_setup : Assoc
in_setup = record sender { state = cookie_wait; init_timer = some first_timer }

fires_lem_example :
    (ps : List Buffer) × (length ps ≡ 8)
    × (end : Assoc) × (fires 9 in_setup
        ≡ returned tt end (outputs ps ++ (error_event setup_timed_out ∷ close_event ∷ [])))
    × IsClosed end
fires_lem_example =
    fires_lem 8 first_timer in_setup refl refl
      (record { not_up = refl; not_closed = refl; ports = (omega arith, omega arith) })
