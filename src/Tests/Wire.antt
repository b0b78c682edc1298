-- ===== src/Tests/Wire.antt =====
-- src/sctp/dcep.ts, src/dtls/protocol.ts and src/crypto/der.ts on concrete inputs.
use node_rtc_connection.Prelude.{◌≡◌, refl, [], ◌∷◌, ◌++◌, arith, ok}
use node_rtc_connection.Buffer.{Buffer, alloc}
use node_rtc_connection.Prelude.{some}
use node_rtc_connection.Crypto.Der.{
  tlv, encode_length, length_bytes, integer_bytes, positive, encode_integer,
}
use node_rtc_connection.Crypto.Der.Lengths.{read_tlv, read_tlv-tlv}
use node_rtc_connection.Sctp.Dcep.{OpenParams}
use node_rtc_connection.Dtls.Protocol.{DtlsRecord, encode_record}

-- Strings of ASCII characters, each its own code.
abbrev ascii : Buffer → Buffer
ascii s = s

abbrev chat : OpenParams Buffer
chat = record {
  channel_type = 0x80;
  priority = 0;
  reliability_parameter = 0;
  label = 99 ∷ 104 ∷ 97 ∷ 116 ∷ [];
  protocol = [];
}

abbrev some_record : DtlsRecord
some_record = record { type = 22; version = 0xfefd; epoch = 1; seq = 4294967296; fragment = 7 ∷ [] }

abbrev some_record_bytes : Buffer
some_record_bytes = 22 ∷ 254 ∷ 253 ∷ 0 ∷ 1 ∷ 0 ∷ 1 ∷ 0 ∷ 0 ∷ 0 ∷ 0 ∷ 0 ∷ 1 ∷ 7 ∷ []

some_record_encoded : encode_record some_record ≡ ok some_record_bytes
unfolding encode_record
some_record_encoded = refl

-- A body of 300 bytes, whose length takes two.
read_tlv-tlv_example :
    read_tlv (tlv 4 (alloc 300) ++ (1 ∷ 2 ∷ [])) ≡ some (4, alloc 300, 1 ∷ 2 ∷ [])
read_tlv-tlv_example = read_tlv-tlv 4 (alloc 300) (1 ∷ 2 ∷ []) (omega arith) (omega arith)

encode_200 : encode_integer 200 ≡ 2 ∷ 2 ∷ 0 ∷ 200 ∷ []
unfolding encode_integer tlv encode_length length_bytes integer_bytes positive
encode_200 = refl
