-- ===== src/Dtls/Connection/Pieces.antt =====
-- src/dtls/connection.ts: one fragment of a handshake message, made, read and put into its place.
use node_rtc_connection.Prelude.{
  ℕ, ◌+◌, ◌-◌, ◌≤◌, ◌<◌, max, ◌≡◌, refl, ◌∷◌, ◌++◌, append-nil, append_assoc, arith, length,
  length-append, take_all, ok,
}
use node_rtc_connection.Buffer.{Buffer, alloc, copy, copy-alloc, IsByte, IsU16, be16, be16_lem}
use node_rtc_connection.Dtls.Protocol.{uint24, Handshake, parse_handshake}
use node_rtc_connection.Dtls.Protocol.Handshakes.{uint24_lem}
use node_rtc_connection.Dtls.Connection.{HandshakeMessage, ReassemblyEntry}
use node_rtc_connection.Dtls.Connection.Framing.{fragment_at}
use node_rtc_connection.Dtls.Connection.Inbound.{filled}

abbrev pub fragment_bytes : HandshakeMessage → ℕ → ℕ → Buffer → Buffer
fragment_bytes msg seq offset chunk =
    msg.type
    ∷ (uint24 (length msg.body)
        ++ (be16 seq ++ (uint24 offset ++ (uint24 (length chunk) ++ chunk))))

pub fragment_at_lem :
    (msg : HandshakeMessage) (seq offset : ℕ) (chunk : Buffer)
    → IsByte msg.type
    → IsU16 seq
    → fragment_at msg seq offset chunk ≡ ok (fragment_bytes msg seq offset chunk)
unfolding fragment_at copy
fragment_at_lem msg seq offset chunk t s = ground (arith, append-nil chunk)

abbrev pub fragment : HandshakeMessage → ℕ → ℕ → Buffer → Handshake
fragment msg seq offset chunk = record {
  msg_type = msg.type;
  size = length msg.body;
  message_seq = seq;
  fragment_offset = offset;
  fragment_length = length chunk;
  body = chunk;
}

pub parse_fragment :
    (msg : HandshakeMessage) (seq offset : ℕ) (chunk : Buffer)
    → length msg.body < 16777216
    → offset < 16777216
    → length chunk < 16777216
    → parse_handshake (fragment_bytes msg seq offset chunk) ≡ ok (fragment msg seq offset chunk)
unfolding parse_handshake
parse_fragment msg seq offset chunk m o k =
    let n : 12 + length chunk - 12 ≡ length chunk = omega arith in
    rw
      (
        uint24_lem (length msg.body) m,
        be16_lem seq,
        uint24_lem offset o,
        uint24_lem (length chunk) k,
        n,
        take_all (length chunk) chunk (omega arith),
      )
      refl

-- The entry of a message of which the bytes of `front` have come, and as many zeros wait as are left.
abbrev pub partial : HandshakeMessage → Buffer → ℕ → ReassemblyEntry
partial msg front left = record {
  type = msg.type;
  size = length msg.body;
  content = front ++ alloc left;
  received = length front;
}

pub filled_lem :
    (msg : HandshakeMessage) (seq left : ℕ) (front chunk : Buffer)
    → length chunk ≤ left
    → filled (fragment msg seq (length front) chunk) (partial msg front left)
      ≡ partial msg (front ++ chunk) (left - length chunk)
filled_lem msg seq left front chunk n =
    let far : max (length front) (length front + length chunk) ≡ length (front ++ chunk) =
      omega (arith, length-append {0} front chunk) in
    rw (far, copy-alloc chunk front left n, append_assoc front chunk (alloc (left - length chunk)))
      refl
