-- ===== src/Sctp/Association/Setup.antt =====
-- src/sctp/association.ts: the four-way setup, INIT, INIT_ACK, COOKIE_ECHO, COOKIE_ACK.
use node_rtc_connection.Prelude.{
  ℕ, not, Option, none, some, List, [], ◌∷◌, leb, ◌==◌, if◌then◌else◌, length, Result,
}
use node_rtc_connection.Buffer.Equality.{timing_safe_equal}
use node_rtc_connection.Buffer.{Buffer, slice, alloc, concat, write_uint32_be}
use node_rtc_connection.Sctp.Association.{
  Assoc, closed, cookie_wait, cookie_echoed, established, state_eq, established_event,
  missing_cookie, default_rwnd,
}
use node_rtc_connection.Sctp.Association.Monad.{
  M, Handler, ◌>>=◌, ◌>>◌, skip, self, modify, emit, lift, set_state, emit_packet, clear_init_timer,
  arm_init_retransmit, abort_with,
}
use node_rtc_connection.Sctp.Chunks.{
  ParsedChunk, ParsedParam, encode_chunk, encode_param, init, init_ack, cookie_echo, cookie_ack,
  state_cookie, forward_tsn_supported,
}
use node_rtc_connection.Sctp.Bodies.{encode_init_body, parse_init_body, InitBodyParams}
use node_rtc_connection.Sctp.Serial.{sub_tsn}

-- `#supportedExtParams`: a list of one parameter.
unfoldable pub supported_ext_params : Result Buffer
supported_ext_params = encode_param forward_tsn_supported (alloc 0)

-- The argument that `#sendInit` and `#handleInit` give to `encodeInitBody`.
abbrev pub own_init : Assoc → InitBodyParams
own_init a = record {
  initiate_tag = a.local_tag;
  a_rwnd = default_rwnd;
  out_streams = 65535;
  in_streams = 65535;
  initial_tsn = a.local_tsn;
}

-- `#sendInit`.
unfoldable pub send_init : Handler
send_init = do
  a ← self
  body ← lift (encode_init_body (own_init a))
  ext ← lift supported_ext_params
  chunk ← lift (encode_chunk init 0 (concat (body ∷ ext ∷ [])))
  emit_packet 0 (chunk ∷ [])
  arm_init_retransmit (chunk ∷ [])

unfoldable pub start : Handler
start = do
  a ← self
  let begin : Handler = do send_init; set_state cookie_wait
  if not (state_eq a.state closed) then skip else (if a.is_client then begin else skip)

-- `this.#cookieSecret`, set where it is not yet set.
abbrev ensure_secret : Buffer → Option Buffer → Buffer
ensure_secret fresh none = fresh
ensure_secret fresh (some secret) = secret

-- `initAck.params.find((p) => p.type === PARAM_TYPE.STATE_COOKIE)`.
pub find_cookie : List ParsedParam → Option ParsedParam
find_cookie [] = none
find_cookie (p ∷ ps) = if p.type == state_cookie then some p else find_cookie ps

-- `#establish`.
unfoldable pub establish : Handler
establish = do
  a ← self
  let up : Handler = do set_state established; emit established_event
  if state_eq a.state established then skip else up

-- The 16 bytes that the cookie's MAC covers.
unfoldable pub cookie_data : ℕ → M Buffer
cookie_data initial_tsn = do
  a ← self
  c₁ ← lift (write_uint32_be a.local_tag 0 (alloc 16))
  c₂ ← lift (write_uint32_be a.remote_tag 4 c₁)
  c₃ ← lift (write_uint32_be a.local_tsn 8 c₂)
  lift (write_uint32_be initial_tsn 12 c₃)

-- The HMAC of Node's crypto module, and the bytes that `randomBytes(32)` returns.
module _ (hmac : Buffer → Buffer → Buffer) (fresh_secret : Buffer) where
  -- `#handleInit`.
  unfoldable pub handle_init : ParsedChunk → Handler
  handle_init chunk = do
    parsed ← lift (parse_init_body chunk.body)
    modify (λ a. record a {
      remote_tag = parsed.initiate_tag;
      peer_cumulative_tsn = some (sub_tsn parsed.initial_tsn 1);
    })
    modify (λ a. record a { cookie_secret = some (ensure_secret fresh_secret a.cookie_secret) })
    covered ← cookie_data parsed.initial_tsn
    a ← self
    let mac = hmac (ensure_secret fresh_secret a.cookie_secret) covered
    let cookie = concat (covered ∷ mac ∷ [])
    ack_body ← lift (encode_init_body (own_init a))
    cookie_param ← lift (encode_param state_cookie cookie)
    ext ← lift supported_ext_params
    let params = concat (cookie_param ∷ ext ∷ [])
    ack ← lift (encode_chunk init_ack 0 (concat (ack_body ∷ params ∷ [])))
    emit_packet a.remote_tag (ack ∷ [])

  -- The end of `#handleCookieEcho`.
  unfoldable pub accept_cookie : Handler
  accept_cookie = do
    ack ← lift (encode_chunk cookie_ack 0 (alloc 0))
    a ← self
    emit_packet a.remote_tag (ack ∷ [])
    establish

  -- The cookie is checked only where it has 48 bytes and there is a secret.
  unfoldable pub check_cookie : Buffer → Option Buffer → Handler
  check_cookie cookie none = accept_cookie
  check_cookie cookie (some secret) =
      let checked : Handler = do
        let covered = slice cookie 0 16
        let mac = slice cookie 16 48
        let expected = hmac secret covered
        same ← lift (timing_safe_equal mac expected)
        if same then accept_cookie else skip
      in if leb 48 (length cookie) then checked else accept_cookie

  -- `#handleCookieEcho`.
  unfoldable pub handle_cookie_echo : ParsedChunk → Handler
  unfolding check_cookie accept_cookie
  handle_cookie_echo chunk = do a ← self; check_cookie chunk.body a.cookie_secret

-- The rest of `#handleInitAck`, once the cookie was looked for.
unfoldable pub echo_cookie : Option ParsedParam → Handler
echo_cookie none = abort_with missing_cookie
echo_cookie (some param) = do
  chunk ← lift (encode_chunk cookie_echo 0 param.value)
  set_state cookie_echoed
  a ← self
  emit_packet a.remote_tag (chunk ∷ [])
  arm_init_retransmit (chunk ∷ [])

-- `#handleInitAck`.
unfoldable pub handle_init_ack : ParsedChunk → Handler
handle_init_ack chunk = do
  a ← self
  let answer : Handler = do
    clear_init_timer
    parsed ← lift (parse_init_body chunk.body)
    modify (λ b. record b {
      remote_tag = parsed.initiate_tag;
      peer_cumulative_tsn = some (sub_tsn parsed.initial_tsn 1);
    })
    echo_cookie (find_cookie parsed.params)
  if state_eq a.state cookie_wait then answer else skip

-- `#handleCookieAck`.
unfoldable pub handle_cookie_ack : Handler
handle_cookie_ack = do
  a ← self
  let up : Handler = do clear_init_timer; establish
  if state_eq a.state cookie_echoed then up else skip
