-- ===== src/Dtls/Protocol/Handshakes.antt =====
-- src/dtls/protocol.ts: what `parseHandshake` makes of the bytes that `encodeHandshake` wrote.
use node_rtc_connection.Prelude.{
  ℕ, ◌+◌, ◌-◌, ◌*◌, ◌/◌, ◌%◌, ◌<◌, ◌≡◌, refl, ◌∷◌, ◌++◌, append-nil, length, take-append_length, ok,
  arith,
}
use node_rtc_connection.Buffer.{Buffer, IsByte, IsU16, be16, be16_lem, copy}
use node_rtc_connection.Dtls.Protocol.{uint24, encode_handshake, parse_handshake}

abbrev pub handshake_bytes : ℕ → ℕ → Buffer → Buffer
handshake_bytes msg_type message_seq body =
    msg_type
    ∷ (uint24 (length body) ++ (be16 message_seq ++ (uint24 0 ++ (uint24 (length body) ++ body))))

pub encode_handshake_lem :
    (msg_type message_seq : ℕ) (body : Buffer)
    → IsByte msg_type
    → IsU16 message_seq
    → encode_handshake msg_type message_seq body ≡ ok (handshake_bytes msg_type message_seq body)
unfolding encode_handshake copy
encode_handshake_lem msg_type message_seq body t s = ground (arith, append-nil body)

pub uint24_lem :
    (n : ℕ) → n < 16777216 → n / 65536 % 256 * 65536 + n / 256 % 256 * 256 + n % 256 ≡ n
uint24_lem n h = omega arith

-- `parseHandshake` reads back what `encodeHandshake` wrote, a message in one fragment, whatever stands
-- behind it, when the type, the number and the length fit in 8, 16 and 24 bits.
pub parse_handshake-encode_handshake :
    (msg_type message_seq : ℕ) (body rest : Buffer)
    → IsByte msg_type
    → IsU16 message_seq
    → length body < 16777216
    → (b : Buffer) × (encode_handshake msg_type message_seq body ≡ ok b)
      × (parse_handshake (b ++ rest)
          ≡ ok (record {
            msg_type = msg_type;
            size = length body;
            message_seq = message_seq;
            fragment_offset = 0;
            fragment_length = length body;
            body = body;
          }))
unfolding parse_handshake
parse_handshake-encode_handshake msg_type message_seq body rest t s short =
    let n : 12 + length body - 12 ≡ length body = omega arith in
    (
      handshake_bytes msg_type message_seq body,
      encode_handshake_lem msg_type message_seq body t s,
      rw (uint24_lem (length body) short, be16_lem message_seq, n, take-append_length body rest)
          refl,
    )
