-- ===== src/DataChannel.antt =====
-- src/datachannel/RTCDataChannel.ts: a data channel, over what the transport does with its signals.
pub mod Laws
use node_rtc_connection.Prelude.{
  ℕ, ◌+◌, ◌-◌, Bool, true, false, ◌&&◌, ◌||◌, not, Option, none, some, leb, ◌==◌, if◌then◌else◌,
  length, Exception, state_error, type_error, internal_error, Result, ok, err,
}
use node_rtc_connection.Buffer.{Buffer}
use node_rtc_connection.Effects.{
  M, Outcome, ◌>>=◌, ◌>>◌, skip, self, modify, emit, lift, throw, try_then,
}

-- `RTCDataChannelState`.
pub data ReadyState : Type 0 where
  connecting opened closing closed : ReadyState

abbrev pub same_state : ReadyState → ReadyState → Bool
same_state connecting connecting = true
same_state opened opened = true
same_state closing closing = true
same_state closed closed = true
same_state connecting _ = false
same_state opened _ = false
same_state closing _ = false
same_state closed _ = false

pub data BinaryType : Type 0 where
  arraybuffer blob : BinaryType

-- The fields of `RTCDataChannel`. The three internal listeners are attached or detached together;
-- `immediates` counts the callbacks of `close` that `setImmediate` has yet to run.
pub record Channel (S : Type 0) : Type 0 where
  pub label : S
  pub ordered : Bool
  pub max_packet_life_time : Option ℕ
  pub max_retransmits : Option ℕ
  pub protocol : S
  pub negotiated : Bool
  pub id : Option ℕ
  pub ready_state : ReadyState
  pub buffered_amount : ℕ
  pub low_threshold : ℕ
  pub binary_type : BinaryType
  pub connected : Bool
  pub attached : Bool
  pub immediates : ℕ

-- `RTCDataChannelInit`, undefined as `none`; `protocol` has its default.
pub record ChannelOptions (S : Type 0) : Type 0 where
  pub ordered : Option Bool
  pub max_packet_life_time : Option ℕ
  pub max_retransmits : Option ℕ
  pub protocol : S
  pub negotiated : Bool
  pub id : Option ℕ

-- What `message` events carry.
pub data Payload (S : Type 0) : Type 0 where
  text : S → Payload S
  array_buffer : Buffer → Payload S
  node_buffer : Buffer → Payload S

-- What `send` is given: a string, bytes in one of three forms, an object with `arrayBuffer`, or else.
pub data Sent (S : Type 0) : Type 0 where
  string : S → Sent S
  bytes : Buffer → Sent S
  blob_like : Sent S
  anything : Sent S

-- What listeners of the application are told.
pub data Event (S : Type 0) : Type 0 where
  open_event : Event S
  closing_event : Event S
  close_event : Event S
  message_event : Payload S → Event S
  buffered_amount_low : Event S
  error_event : Exception → Event S

-- `x !== undefined ? x : default`, and `x || null` on numbers.
abbrev pub given : {A : Type 0} → Option A → A → A
given none other = other
given (some x) other = x

abbrev pub nonzero : Option ℕ → Option ℕ
nonzero none = none
nonzero (some n) = if n == 0 then none else some n

-- The constructor.
unfoldable pub create : {S : Type 0} → S → ChannelOptions S → Channel S
create label init = record {
  label = label;
  ordered = given init.ordered true;
  max_packet_life_time = nonzero init.max_packet_life_time;
  max_retransmits = nonzero init.max_retransmits;
  protocol = init.protocol;
  negotiated = init.negotiated;
  id = init.id;
  ready_state = connecting;
  buffered_amount = 0;
  low_threshold = 0;
  binary_type = arraybuffer;
  connected = false;
  attached = true;
  immediates = 0;
}

abbrev is_none : {A : Type 0} → Option A → Bool
is_none none = true
is_none (some x) = false

-- `reliable`.
unfoldable pub reliable : {S : Type 0} → Channel S → Bool
reliable c = c.ordered && (is_none c.max_packet_life_time && is_none c.max_retransmits)

-- A channel and the rest of the world, on which the transport's listeners work.
pub record Held (S T : Type 0) : Type 0 where
  pub channel : Channel S
  pub rest : T

-- What the listener on the outside left and emitted.
abbrev pub carried : {S T E A : Type 0} → Channel S → Outcome T E A → Outcome (Held S T) E A
carried c o = record {
  result = o.result;
  state = record { channel = c; rest = o.state };
  events = o.events;
}

abbrev pub outside : {S T E A : Type 0} → M T E A → M (Held S T) E A
outside m h = carried h.channel (m h.rest)

-- What a `message` event carries of bytes that have come.
abbrev pub payload_of : {S : Type 0} → (Buffer → S) → BinaryType → Buffer → Bool → Payload S
payload_of of_utf8 type data' false = text (of_utf8 data')
payload_of of_utf8 arraybuffer data' true = array_buffer data'
payload_of of_utf8 blob data' true = node_buffer data'

-- The bytes of what is sent, and whether they are binary.
abbrev pub converted : {S : Type 0} → (S → Buffer) → Sent S → Result (Buffer × Bool)
converted utf8 (string s) = ok (utf8 s, false)
converted utf8 (bytes b) = ok (b, true)
converted utf8 blob_like = err internal_error
converted utf8 anything = err type_error

-- The codec of strings, and what the listeners of SEND and CLOSE do.
module _ {S T E : Type 0} (utf8 : S → Buffer) (of_utf8 : Buffer → S) (tell : Event S → E)
    (on_send : Buffer → Bool → M T E (Unit {0})) (on_close : M T E (Unit {0})) where
  abbrev pub update : (Channel S → Channel S) → M (Held S T) E (Unit {0})
  update f = modify (λ h. record h { channel = f h.channel })

  -- What `#setState` emits and does in a new state.
  entered : ReadyState → M (Held S T) E (Unit {0})
  entered connecting = skip
  entered opened = emit (tell open_event)
  entered closing = emit (tell closing_event)
  entered closed = do
    emit (tell close_event)
    outside on_close
    update (λ c. record c { attached = false })

  -- `#setState`.
  unfoldable pub set_state : ReadyState → M (Held S T) E (Unit {0})
  unfolding entered
  set_state s = do
    h ← self
    let change : M (Held S T) E (Unit {0}) = do
      update (λ c. record c { ready_state = s })
      entered s
    if same_state h.channel.ready_state s then skip else change

  -- The internal listeners, while they are attached.
  unfoldable pub attached_only : M (Held S T) E (Unit {0}) → M (Held S T) E (Unit {0})
  attached_only m = do h ← self; if h.channel.attached then m else skip

  unfoldable pub set_id : ℕ → M (Held S T) E (Unit {0})
  unfolding attached_only
  set_id id = attached_only (update (λ c. record c { id = some id }))

  unfoldable pub open_internal : M (Held S T) E (Unit {0})
  unfolding attached_only
  open_internal = attached_only (do update (λ c. record c { connected = true }); set_state opened)

  -- `#receiveMessage`, from the listener of RECEIVE.
  unfoldable pub receive : Buffer → Bool → M (Held S T) E (Unit {0})
  unfolding attached_only
  receive data' is_binary = attached_only (do
    h ← self
    emit (tell (message_event (payload_of of_utf8 h.channel.binary_type data' is_binary))))

  -- `#emitBufferedAmountLow`.
  unfoldable pub emit_buffered_amount_low : M (Held S T) E (Unit {0})
  emit_buffered_amount_low = do
    h ← self
    if leb h.channel.buffered_amount h.channel.low_threshold
        then emit (tell buffered_amount_low)
        else skip

  -- The end of `send`: the transport takes the bytes or throws.
  unfoldable pub transmit : Buffer → Bool → M (Held S T) E (Unit {0})
  transmit data' is_binary = do
    update (λ c. record c { buffered_amount = c.buffered_amount + length data' })
    let taken : M (Held S T) E (Unit {0}) =
        update (λ c. record c { buffered_amount = c.buffered_amount - length data' })
    try_then (outside (on_send data' is_binary)) (do taken; emit_buffered_amount_low)
        (λ e. do taken; emit (tell (error_event e)); throw e)

  -- `send`.
  unfoldable pub send : Sent S → M (Held S T) E (Unit {0})
  send sent = do
    h ← self
    let go : M (Held S T) E (Unit {0}) = do
      (data', is_binary) ← lift (converted utf8 sent)
      if not h.channel.connected then throw state_error else transmit data' is_binary
    if not (same_state h.channel.ready_state opened) then throw state_error else go

  -- `close`.
  unfoldable pub close : M (Held S T) E (Unit {0})
  close = do
    h ← self
    let begin : M (Held S T) E (Unit {0}) = do
      set_state closing
      update (λ c. record c { immediates = c.immediates + 1 })
    if same_state h.channel.ready_state closing || same_state h.channel.ready_state closed
        then skip
        else begin

  -- The event loop runs a callback of `close`, if one is waiting.
  unfoldable pub run_immediate : M (Held S T) E (Unit {0})
  run_immediate = do
    h ← self
    let callback : M (Held S T) E (Unit {0}) = do
      update (λ c. record c { immediates = c.immediates - 1 })
      if same_state h.channel.ready_state closing then set_state closed else skip
    if h.channel.immediates == 0 then skip else callback
