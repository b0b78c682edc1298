-- ===== src/Dtls/Connection/Data.antt =====
-- src/dtls/connection.ts: application data from `send` to the peer's `handlePacket`.
use node_rtc_connection.Prelude.{
  ℕ, ◌+◌, ◌≤◌, ◌<◌, ◌≡◌, refl, sym, ap, ◌∙◌, true, some, [], ◌∷◌, append-nil, arith, leb, length,
  ok,
}
use node_rtc_connection.Buffer.{Buffer, IsByte, IsU16}
use node_rtc_connection.Effects.{returned}
use node_rtc_connection.Dtls.Protocol.{DtlsRecord, dtls_1_2, encode_record, parse_records}
use node_rtc_connection.Dtls.Protocol.Records.{
  IsRecord, record_bytes, encode_record_lem, parse_records-encode_record,
}
use node_rtc_connection.Dtls.Primitives.{Crypto, IsSound}
use node_rtc_connection.Dtls.Cipher.{GcmCipher, decrypt}
use node_rtc_connection.Dtls.Cipher.Laws.{decrypt-encrypt}
use node_rtc_connection.Dtls.Connection.{Dtls, connected, output, data_event}
use node_rtc_connection.Dtls.Connection.Outbound.{protected, send_record, send, application_data}
use node_rtc_connection.Dtls.Connection.Framing.{Fresh}
use node_rtc_connection.Dtls.Connection.Inbound.{
  handle_record, handle_encrypted, handle_records, handle_packet, dispatch_record,
}

-- A connection whose next record goes out encrypted, with an epoch and a number that fit.
pub record IsSending (d : Dtls) (g : GcmCipher) : Type 0 where
  pub encrypted : d.send_encrypted ≡ true
  pub cipher : d.write_cipher ≡ some g
  pub epoch : IsU16 d.send_epoch
  pub past_handshake : 1 ≤ d.send_epoch
  pub seq : d.send_seq < 281474976710656

abbrev pub numbered : Dtls → ℕ → Buffer → DtlsRecord
numbered d type fragment = record {
  type = type;
  version = dtls_1_2;
  epoch = d.send_epoch;
  seq = d.send_seq;
  fragment = fragment;
}

parse_records_one : (r : DtlsRecord) → IsRecord r → parse_records (record_bytes r) ≡ ok (r ∷ [])
parse_records_one r v =
    ap parse_records (sym (append-nil (record_bytes r)))
    ∙ parse_records-encode_record (r ∷ []) (record_bytes r ∷ []) (v, encode_record_lem r v, tt)

-- A record of an encrypted epoch is sent as one datagram, which is read as that record, which the
-- same key opens.
pub send_record_sealed :
    (c : Crypto) (sound : IsSound c) (g : GcmCipher) (type : ℕ) (payload : Buffer) (d : Dtls)
    → IsSending d g
    → IsByte type
    → length payload ≤ 65511
    → (sealed bytes : Buffer) × (send_record c type payload d
        ≡ returned tt (record d { send_seq = d.send_seq + 1 }) (output bytes ∷ []))
      × (parse_records bytes ≡ ok (numbered d type sealed ∷ []))
      × (decrypt c g d.send_epoch d.send_seq type dtls_1_2 sealed ≡ ok payload)
unfolding send_record protected
send_record_sealed c sound g type payload d s t n =
    let (sealed, enc, dec, size) =
      decrypt-encrypt c g d.send_epoch d.send_seq type dtls_1_2 payload sound s.epoch s.seq t
        (omega arith) (omega arith) in
    let r = numbered d type sealed in
    let v : IsRecord r = record {
      type = t;
      version = omega arith;
      epoch = s.epoch;
      seq = s.seq;
      size = omega arith;
    } in
    (
      sealed,
      record_bytes r,
      rw (s.encrypted, s.cipher, enc, encode_record_lem r v) refl,
      parse_records_one r v,
      dec,
    )

-- What is sent over a connection that is connected, in an encrypted epoch, arrives unchanged at a peer
-- that is connected and reads with the sender's key: `send` puts out one datagram and counts it, and
-- `handlePacket` of it hands the bytes to the peer's listeners, emits nothing else and leaves the
-- peer's state as it was. Nothing ties the two states but the key, so the datagram can come at any
-- time. The primitives are sound, the sender's epoch and record number fit their fields, and there are
-- at most 65511 bytes.
pub send-handle_packet :
    (c : Crypto) (fresh : Fresh) (secret : Buffer) (g : GcmCipher) (bytes : Buffer) (d e : Dtls)
    → IsSound c
    → d.phase ≡ connected
    → IsSending d g
    → length bytes ≤ 65511
    → e.phase ≡ connected
    → e.read_cipher ≡ some g
    → (datagram : Buffer) × (send c bytes d
        ≡ returned tt (record d { send_seq = d.send_seq + 1 }) (output datagram ∷ []))
      × (handle_packet c fresh secret datagram e ≡ returned tt e (data_event bytes ∷ []))
unfolding send handle_packet handle_records handle_record handle_encrypted dispatch_record
send-handle_packet c fresh secret g bytes d e sound dp s n ep k =
    let (sealed, datagram, sent, parsed, opened) =
      send_record_sealed c sound g application_data bytes d s (omega arith) n in
    let past : leb 1 d.send_epoch ≡ true = ground (arith, s.past_handshake) in
    (datagram, simp (dp, sent), simp (ep, parsed, past, k, opened))

-- A connected connection takes application data that no key has protected: a datagram with one record
-- of epoch 0 and of type 23, whose number and length fit their fields, hands the record's bytes to the
-- listeners as they are, whatever the keys are, and `handlePacket` neither throws nor fails the
-- connection nor changes it.
pub plaintext_lem :
    (c : Crypto) (fresh : Fresh) (secret : Buffer) (bytes : Buffer) (seq : ℕ) (d : Dtls)
    → d.phase ≡ connected
    → seq < 281474976710656
    → IsU16 (length bytes)
    → (datagram : Buffer) × (encode_record (record {
      type = application_data;
      version = dtls_1_2;
      epoch = 0;
      seq = seq;
      fragment = bytes;
    })
        ≡ ok datagram)
      × (handle_packet c fresh secret datagram d ≡ returned tt d (data_event bytes ∷ []))
unfolding handle_packet handle_records handle_record dispatch_record
plaintext_lem c fresh secret bytes seq d p s n =
    let r : DtlsRecord = record {
      type = application_data;
      version = dtls_1_2;
      epoch = 0;
      seq = seq;
      fragment = bytes;
    } in
    let v : IsRecord r = record {
      type = omega arith;
      version = omega arith;
      epoch = omega arith;
      seq = s;
      size = n;
    } in
    (record_bytes r, encode_record_lem r v, simp (p, parse_records_one r v))
