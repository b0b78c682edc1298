-- ===== src/Tests/Stun.antt =====
-- The STUN client at concrete inputs.
use node_rtc_connection.Prelude.{◌≡◌, refl, arith, some, List, [], ◌∷◌, drop, replicate, ok}
use node_rtc_connection.Buffer.{Buffer, concat}
use node_rtc_connection.StunClient.Stream.{Split, stream_loop, on_stream_data, on_chunks}
use node_rtc_connection.StunClient.Chunks.{chunks_lem}
use node_rtc_connection.StunClient.Messages.{
  create_xor_peer_address_attribute, parse_xor_address, parse_xor_address-create,
}

-- A message of 21 bytes and a part of the next, in chunks that cut the length of the first.
abbrev chunks : List Buffer
chunks = (0 ∷ 1 ∷ 0 ∷ []) ∷ (1 ∷ replicate 17 7) ∷ (0 ∷ 3 ∷ []) ∷ []

whole_message : on_chunks chunks [] ≡ ok ((0 ∷ 1 ∷ 0 ∷ 1 ∷ replicate 17 7) ∷ [], 0 ∷ 3 ∷ [])
unfolding on_chunks on_stream_data stream_loop
whole_message = refl

chunks_lem_example :
    (s : Split) × (on_chunks chunks [] ≡ ok s) × (on_stream_data [] (concat chunks) ≡ ok s)
chunks_lem_example = chunks_lem chunks

parse_xor_address-create_example :
    (attribute : Buffer) × (create_xor_peer_address_attribute (10 ∷ 0 ∷ 1 ∷ 7 ∷ []) 4711
      ≡ ok attribute)
    × (parse_xor_address (drop 4 attribute)
        ≡ ok (some (record { port = 4711; address = 10 ∷ 0 ∷ 1 ∷ 7 ∷ [] })))
parse_xor_address-create_example =
    parse_xor_address-create 10 0 1 7 4711 (omega arith) (omega arith) (omega arith) (omega arith)
      (omega arith)
