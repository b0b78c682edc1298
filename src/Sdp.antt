-- ===== src/Sdp.antt =====
-- src/sdp/sdp-utils.ts: the text of a description, written and read. A character is its UTF-16 code.
pub mod Lines
pub mod RoundTrip
use node_rtc_connection.Prelude.{
  ℕ, zero, suc, ◌+◌, ◌*◌, ◌-◌, ◌/◌, ◌%◌, Bool, true, false, ◌&&◌, ◌||◌, Option, none, some, List,
  [], ◌∷◌, ◌++◌, ◌==◌, ltb, leb, if◌then◌else◌, map, length, drop,
}
use node_rtc_connection.Buffer.{Buffer}
use node_rtc_connection.Dtls.Cipher.{ascii}
use node_rtc_connection.Ice.Agent.{RemoteInfo}
use node_rtc_connection.PeerConnection.{
  Fingerprint, Setup, active, passive, actpass, IceParameters, DtlsParameters, SdpOptions, SdpUtils,
}
use node_rtc_connection.PeerConnection.Transport.{to_upper_case}

-- What `\s` and `trim` take for white space.
abbrev pub is_space : ℕ → Bool
is_space c =
    (leb 9 c && leb c 13)
    || c == 32
    || c == 160
    || c == 5760
    || (leb 8192 c && leb c 8202)
    || c == 8232
    || c == 8233
    || c == 8239
    || c == 8287
    || c == 12288
    || c == 65279

abbrev pub starts_with : Buffer → Buffer → Bool
starts_with [] text = true
starts_with (p ∷ ps) [] = false
starts_with (p ∷ ps) (c ∷ cs) = if p == c then starts_with ps cs else false

-- A character in front of the first piece.
abbrev pub push : ℕ → List Buffer → List Buffer
push c [] = (c ∷ []) ∷ []
push c (piece ∷ pieces) = (c ∷ piece) ∷ pieces

-- `text.split(/\r?\n/)`.
unfoldable pub split_lines : Buffer → List Buffer
split_lines [] = [] ∷ []
split_lines (c ∷ cs) =
    let rest = split_lines cs in
    if c == 10
    then [] ∷ rest
    else (if c == 13 && starts_with (10 ∷ []) cs then rest else push c rest)

abbrev pub starts_space : Buffer → Bool
starts_space [] = false
starts_space (c ∷ cs) = is_space c

-- `text.split(/\s+/)`.
unfoldable pub split_spaces : Buffer → List Buffer
split_spaces [] = [] ∷ []
split_spaces (c ∷ cs) =
    let rest = split_spaces cs in
    if is_space c then (if starts_space cs then rest else [] ∷ rest) else push c rest

unfoldable pub trim_start : Buffer → Buffer
trim_start [] = []
trim_start (c ∷ cs) = let rest = trim_start cs in if is_space c then rest else c ∷ cs

unfoldable pub trim_end : Buffer → Buffer
trim_end [] = []
trim_end (c ∷ cs) =
    let rest = trim_end cs in if length rest == 0 && is_space c then [] else c ∷ rest

unfoldable pub trim : Buffer → Buffer
trim text = trim_end (trim_start text)

-- A number below 10 ^ rounds in decimal digits.
unfoldable pub decimal : ℕ → ℕ → Buffer
decimal zero n = []
decimal (suc rounds) n =
    let front = decimal rounds (n / 10) in
    if ltb n 10 then (48 + n) ∷ [] else front ++ ((48 + n % 10) ∷ [])

abbrev pub setup_text : Setup → Buffer
setup_text active = ascii "active"
setup_text passive = ascii "passive"
setup_text actpass = ascii "actpass"

abbrev pub fingerprint_lines : Option Fingerprint → List Buffer
fingerprint_lines none = []
fingerprint_lines (some f) = (ascii "a=fingerprint:" ++ (f.algorithm ++ (32 ∷ f.value))) ∷ []

-- The lines behind the fingerprint.
abbrev pub last_lines : Setup → List Buffer
last_lines setup =
    (ascii "a=setup:" ++ setup_text setup)
    ∷ ascii "a=mid:0"
    ∷ ascii "a=sctp-port:5000"
    ∷ ascii "a=max-message-size:262144"
    ∷ []

-- `lines.join('\r\n') + '\r\n'`.
unfoldable pub joined : List Buffer → Buffer
joined [] = []
joined (line ∷ lines) = line ++ (13 ∷ 10 ∷ joined lines)

-- The lines of `buildSdp`, with the port and the size that stand in for those not given, and no
-- candidates: the connection gives none. `session_id` is the random number that the call draws.
abbrev pub sdp_lines : ℕ → SdpOptions → List Buffer
sdp_lines session_id o =
    ascii "v=0"
    ∷ (ascii "o=- " ++ (decimal 10 session_id ++ ascii " 2 IN IP4 127.0.0.1"))
    ∷ ascii "s=-"
    ∷ ascii "t=0 0"
    ∷ ascii "a=group:BUNDLE 0"
    ∷ ascii "a=msid-semantic: WMS"
    ∷ ascii "m=application 9 UDP/DTLS/SCTP webrtc-datachannel"
    ∷ ascii "c=IN IP4 0.0.0.0"
    ∷ (ascii "a=ice-ufrag:" ++ o.ice_ufrag)
    ∷ (ascii "a=ice-pwd:" ++ o.ice_pwd)
    ∷ ascii "a=ice-options:trickle"
    ∷ (fingerprint_lines o.fingerprint ++ last_lines o.setup)

unfoldable pub build_sdp : ℕ → SdpOptions → Buffer
build_sdp session_id o = joined (sdp_lines session_id o)

-- One round of the loop of `parseIceParameters`.
abbrev pub ice_line : IceParameters → Buffer → IceParameters
ice_line p line =
    if starts_with (ascii "a=ice-ufrag:") line
    then record p { username_fragment = some (trim (drop 12 line)) }
    else (if starts_with (ascii "a=ice-pwd:") line
        then record p { password = some (trim (drop 10 line)) }
        else p)

abbrev pub ice_lines : IceParameters → List Buffer → IceParameters
ice_lines p [] = p
ice_lines p (line ∷ lines) = ice_lines (ice_line p line) lines

unfoldable pub parse_ice_parameters : Buffer → IceParameters
parse_ice_parameters sdp =
    ice_lines (record { username_fragment = none; password = none }) (split_lines sdp)

-- `value.toLowerCase()` of ASCII characters.
abbrev pub lower_char : ℕ → ℕ
lower_char c = if leb 65 c && leb c 90 then c + 32 else c

-- The connection tells "active" and "passive" from the rest, which stands as "actpass".
abbrev pub setup_of : Buffer → Setup
setup_of text =
    if starts_with (ascii "active") text && length text == 6
    then active
    else (if starts_with (ascii "passive") text && length text == 7 then passive else actpass)

abbrev pub with_fingerprint : DtlsParameters → List Buffer → DtlsParameters
with_fingerprint p (algorithm ∷ value ∷ []) = record p {
  fingerprints =
      p.fingerprints
      ++ (record { algorithm = map lower_char algorithm; value = to_upper_case value } ∷ []);
}
with_fingerprint p _ = p

-- One round of the loop of `parseDtlsParameters`; the connection does not read its `role`.
abbrev pub dtls_line : DtlsParameters → Buffer → DtlsParameters
dtls_line p line =
    if starts_with (ascii "a=setup:") line
    then record p { setup = some (setup_of (trim (drop 8 line))) }
    else (if starts_with (ascii "a=fingerprint:") line
        then with_fingerprint p (split_spaces (trim (drop 14 line)))
        else p)

abbrev pub dtls_lines : DtlsParameters → List Buffer → DtlsParameters
dtls_lines p [] = p
dtls_lines p (line ∷ lines) = dtls_lines (dtls_line p line) lines

unfoldable pub parse_dtls_parameters : Buffer → DtlsParameters
parse_dtls_parameters sdp =
    dtls_lines (record { setup = none; fingerprints = [] }) (split_lines sdp)

-- `parseInt` of a port: the digits at the front; where there are none it is NaN, here 0, which is no
-- port to send to either.
unfoldable pub parse_port : ℕ → Buffer → ℕ
parse_port n [] = n
parse_port n (c ∷ cs) =
    let rest = parse_port (n * 10 + (c - 48)) cs in if leb 48 c && leb c 57 then rest else n

-- `parseCandidateLine`, of which the connection's model keeps the address and the port.
abbrev pub candidate_of : List Buffer → Option RemoteInfo
candidate_of (_ ∷ _ ∷ _ ∷ _ ∷ address ∷ port ∷ _ ∷ _ ∷ _) =
    some (record { address = address; port = parse_port 0 port })
candidate_of _ = none

unfoldable pub parse_candidate_line : Buffer → Option RemoteInfo
parse_candidate_line text =
    candidate_of
      (split_spaces (if starts_with (ascii "candidate:") text then drop 10 text else text))

abbrev pub or_skip : Option RemoteInfo → List RemoteInfo → List RemoteInfo
or_skip none cs = cs
or_skip (some c) cs = c ∷ cs

-- The loop of `parseCandidates`.
abbrev pub candidate_lines : List Buffer → List RemoteInfo
candidate_lines [] = []
candidate_lines (line ∷ lines) =
    if starts_with (ascii "a=candidate:") line
    then or_skip (parse_candidate_line (drop 2 line)) (candidate_lines lines)
    else candidate_lines lines

unfoldable pub parse_candidates : Buffer → List RemoteInfo
parse_candidates sdp = candidate_lines (split_lines sdp)

-- sdp-utils.ts as the connection calls it; a call that writes a description draws `session_id`.
abbrev pub sdp_utils : ℕ → SdpUtils
sdp_utils session_id = record {
  generate_offer = build_sdp session_id;
  generate_answer = build_sdp session_id;
  parse_ice_parameters = parse_ice_parameters;
  parse_dtls_parameters = parse_dtls_parameters;
  parse_candidates = parse_candidates;
  parse_candidate_line = parse_candidate_line;
}
