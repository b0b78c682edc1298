-- ===== src/Tests/Codecs.antt =====
-- src/sctp/chunks.ts and src/sctp/crc32c.ts on concrete inputs.
use node_rtc_connection.Prelude.{
  ◌≡◌, refl, true, false, List, [], ◌∷◌, ◌++◌, arith, length, take, drop, All, ok,
}
use node_rtc_connection.Buffer.{Buffer, alloc, copy}
use node_rtc_connection.Sctp.Chunks.{
  ParsedChunk, ParsedParam, encode_chunk, encode_param, parse_chunks, parse_chunks_loop,
}
use node_rtc_connection.Sctp.Chunks.RoundTrip.{parse_chunks_returns, parse_chunks-encode, IsSized}
use node_rtc_connection.Sctp.Bodies.{
  InitBodyParams, DataBody, SackBody, encode_sack_body, parse_sack_body,
}
use node_rtc_connection.Sctp.Bodies.Sack.{parse_sack_body-encode}
use node_rtc_connection.Sctp.Checksum.{apply_checksum, verify_checksum}
use node_rtc_connection.Sctp.Checksum.Laws.{verify_checksum-apply_checksum}

abbrev small_chunk : ParsedChunk
small_chunk = record { type = 4; flags = 0; size = 5; body = 9 ∷ [] }

abbrev small_bytes : Buffer
small_bytes = 4 ∷ 0 ∷ 0 ∷ 5 ∷ 9 ∷ 0 ∷ 0 ∷ 0 ∷ []

small_encoded : encode_chunk 4 0 (9 ∷ []) ≡ ok small_bytes
unfolding encode_chunk copy
small_encoded = refl

parse_chunks-encode_example :
    parse_chunks (alloc 12 ++ (small_bytes ++ (small_bytes ++ [])))
    ≡ ok (small_chunk ∷ small_chunk ∷ [])
parse_chunks-encode_example =
    parse_chunks-encode (alloc 12) (small_chunk ∷ small_chunk ∷ []) (small_bytes ∷ small_bytes ∷ [])
      refl (small_encoded, refl, (small_encoded, refl, tt))

-- A chunk whose length field runs past the packet ends the loop.
parse_chunks_cut : parse_chunks (alloc 12 ++ (4 ∷ 0 ∷ 0 ∷ 9 ∷ 1 ∷ [])) ≡ ok []
unfolding parse_chunks parse_chunks_loop
parse_chunks_cut = refl

parse_chunks_returns_example :
    (cs : List ParsedChunk) × (parse_chunks (1 ∷ 2 ∷ []) ≡ ok cs) × All IsSized cs
parse_chunks_returns_example = parse_chunks_returns (1 ∷ 2 ∷ [])

abbrev cookie : ParsedParam
cookie = record { type = 7; size = 6; value = 1 ∷ 2 ∷ [] }

abbrev cookie_bytes : Buffer
cookie_bytes = 0 ∷ 7 ∷ 0 ∷ 6 ∷ 1 ∷ 2 ∷ 0 ∷ 0 ∷ []

cookie_encoded : encode_param 7 (1 ∷ 2 ∷ []) ≡ ok cookie_bytes
unfolding encode_param copy
cookie_encoded = refl

abbrev some_init : InitBodyParams
some_init = record {
  initiate_tag = 0xdead_beef;
  a_rwnd = 1048576;
  out_streams = 65535;
  in_streams = 65535;
  initial_tsn = 7;
}

abbrev some_data : DataBody
some_data = record {
  unordered = false;
  beginning = true;
  ending = false;
  tsn = 0xffff_ffff;
  stream_id = 2;
  stream_seq = 65535;
  ppid = 51;
  user_data = 104 ∷ 105 ∷ [];
}

abbrev some_sack : SackBody
some_sack = record {
  cumulative_tsn_ack = 100;
  a_rwnd = 1048576;
  gap_blocks = (2, 3) ∷ (5, 5) ∷ [];
  dup_tsns = 99 ∷ [];
}

parse_sack_body-encode_example :
    (b : Buffer) × (encode_sack_body some_sack ≡ ok b) × (parse_sack_body b ≡ ok some_sack)
parse_sack_body-encode_example = parse_sack_body-encode some_sack (omega arith)

verify_checksum-apply_checksum_example :
    (p : Buffer) × (apply_checksum (alloc 12 ++ small_bytes) ≡ ok p)
    × (take 8 p ≡ alloc 8)
    × (drop 12 p ≡ small_bytes)
    × (length p ≡ 20)
    × (verify_checksum p ≡ ok (true, p))
verify_checksum-apply_checksum_example =
    verify_checksum-apply_checksum (alloc 12 ++ small_bytes) (omega arith)
