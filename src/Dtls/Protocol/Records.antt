-- ===== src/Dtls/Protocol/Records.antt =====
-- src/dtls/protocol.ts: what `parseRecords` makes of the bytes that `encodeRecord` wrote.
use node_rtc_connection.Prelude.{
  ℕ, zero, suc, ◌+◌, ◌-◌, ◌*◌, ◌/◌, ◌%◌, ◌<◌, ◌≡◌, refl, sym, ap, ◌∙◌, true, false, List, [], ◌∷◌,
  ◌++◌, append-nil, append_assoc, ltb, leb, length, length-append, drop, drop-drop,
  take-append_length, drop-append_length, ok, arith,
}
use node_rtc_connection.Buffer.{Buffer, IsByte, IsU16, be16, be16_lem, concat}
use node_rtc_connection.Dtls.Protocol.{
  DtlsRecord, be48, encode_record, parse_records_loop, parse_records,
}

-- The fields fit in 8, 16, 16 and 48 bits, and the length of the fragment in 16.
pub record IsRecord (r : DtlsRecord) : Type 0 where
  pub type : IsByte r.type
  pub version : IsU16 r.version
  pub epoch : IsU16 r.epoch
  pub seq : r.seq < 281474976710656
  pub size : IsU16 (length r.fragment)

abbrev record_header : DtlsRecord → Buffer
record_header r =
    r.type ∷ (be16 r.version ++ (be16 r.epoch ++ (be48 r.seq ++ be16 (length r.fragment))))

abbrev pub record_bytes : DtlsRecord → Buffer
record_bytes r = record_header r ++ r.fragment

pub encode_record_lem : (r : DtlsRecord) → IsRecord r → encode_record r ≡ ok (record_bytes r)
unfolding encode_record
encode_record_lem r v =
    ground (arith, v.type, v.version, v.epoch, v.seq, v.size, append-nil r.fragment)

be48_lem :
    (v : ℕ)
    → v / 1099511627776 * 1099511627776
        + v / 4294967296 % 256 * 4294967296
        + v / 16777216 % 256 * 16777216
        + v / 65536 % 256 * 65536
        + v / 256 % 256 * 256
        + v % 256
      ≡ v
be48_lem v = omega arith

drop_past : (k : ℕ) (front rest : Buffer) → drop (length front + k) (front ++ rest) ≡ drop k rest
drop_past k front rest =
    sym (drop-drop k (length front) (front ++ rest)) ∙ ap (drop k) (drop-append_length front rest)

-- The buffers `es` are what `encodeRecord` wrote of the records.
abbrev pub EncodesRecords : List DtlsRecord → List Buffer → Type 0
EncodesRecords [] [] = Unit {0}
EncodesRecords (r ∷ rs) (e ∷ es) = IsRecord r × (encode_record r ≡ ok e) × EncodesRecords rs es
EncodesRecords _ _ = ⊥

-- One round, at a record.
record_step :
    (fuel : ℕ) (front tail : Buffer) (r : DtlsRecord) (records : List DtlsRecord)
    → parse_records_loop (suc fuel) (front ++ (record_bytes r ++ tail)) (length front) records
      ≡ parse_records_loop fuel
          ((front ++ record_bytes r) ++ tail)
          (length (front ++ record_bytes r))
          (records ++ (r ∷ []))
unfolding parse_records_loop
record_step fuel front tail r records =
    let here = record_bytes r ++ tail in
    let size = length front + 13 + length r.fragment in
    let whole : length (front ++ here) ≡ length front + (13 + (length r.fragment + length tail)) =
      omega (arith, length-append {0} front here, length-append {0} r.fragment tail) in
    let fits : leb (length front + 13) (length (front ++ here)) ≡ true = ground (arith, whole) in
    let goes_on : ltb (length (front ++ here)) size ≡ false = ground (arith, whole) in
    let next : size ≡ length (front ++ record_bytes r) =
      omega (arith, length-append {0} front (record_bytes r)) in
    let cut : size - (length front + 13) ≡ length r.fragment = omega arith in
    rw
      (
        fits,
        drop-append_length front here,
        drop_past 1 front here,
        drop_past 3 front here,
        drop_past 5 front here,
        drop_past 11 front here,
        drop_past 13 front here,
        be16_lem r.version,
        be16_lem r.epoch,
        be48_lem r.seq,
        be16_lem (length r.fragment),
        goes_on,
        cut,
        take-append_length r.fragment tail,
        next,
      )
      (rw (append_assoc front (record_bytes r) tail) refl)

record_end :
    (fuel : ℕ) (packet : Buffer) (records : List DtlsRecord)
    → parse_records_loop (suc fuel) packet (length packet) records ≡ ok records
unfolding parse_records_loop
record_end fuel packet records =
    let e : leb (length packet + 13) (length packet) ≡ false = ground arith in rw e

record_loop_reads :
    (fuel : ℕ) (front : Buffer) (rs : List DtlsRecord) (es : List Buffer)
    (records : List DtlsRecord)
    → length (concat es) < fuel
    → EncodesRecords rs es
    → parse_records_loop fuel (front ++ concat es) (length front) records ≡ ok (records ++ rs)
record_loop_reads zero front rs es records h k = absurd (omega arith)
record_loop_reads (suc fuel) front [] [] records h k =
    rw (append-nil front, append-nil records) (record_end fuel front records)
record_loop_reads (suc fuel) front [] (e ∷ es) records h k = absurd k
record_loop_reads (suc fuel) front (r ∷ rs) [] records h k = absurd k
record_loop_reads (suc fuel) front (r ∷ rs) (e ∷ es) records h (v, encoded, k) =
    let e_is : e ≡ record_bytes r = ground (arith, encode_record_lem r v, encoded) in
    let size = ap length e_is in
    ap
      (λ (b : Buffer).
        parse_records_loop (suc fuel) (front ++ (b ++ concat es)) (length front) records)
      e_is
    ∙ record_step fuel front (concat es) r records
    ∙ record_loop_reads fuel (front ++ record_bytes r) rs es (records ++ (r ∷ []))
        (omega (arith, size, length-append {0} e (concat es))) k
    ∙ ap ok (append_assoc records (r ∷ []) rs)

-- `parseRecords` reads back every list of records that `encodeRecord` encoded, when their fields fit in
-- 8, 16, 16 and 48 bits and their fragments' lengths in 16, from a packet that has them one after the
-- other and nothing else.
pub parse_records-encode_record :
    (rs : List DtlsRecord) (es : List Buffer)
    → EncodesRecords rs es
    → parse_records (concat es) ≡ ok rs
unfolding parse_records
parse_records-encode_record rs es k =
    record_loop_reads (suc (length (concat es))) [] rs es [] (omega arith) k
