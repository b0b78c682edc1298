-- ===== src/Sctp/Association/Dispatch.antt =====
-- src/sctp/association.ts: inbound packets and the dispatch on the chunk type; closing.
use node_rtc_connection.Prelude.{not, List, [], ◌∷◌, ltb, ◌==◌, if◌then◌else◌, length}
use node_rtc_connection.Buffer.{Buffer, to_uint32, alloc, write_uint32_be}
use node_rtc_connection.Sctp.Association.{established, state_eq, peer_abort}
use node_rtc_connection.Sctp.Association.Monad.{
  Handler, ◌>>=◌, ◌>>◌, skip, self, lift, emit_packet, abort_with, close,
}
use node_rtc_connection.Sctp.Chunks.{
  ParsedChunk, encode_chunk, parse_chunks, parse_common_header, init, init_ack, cookie_echo,
  cookie_ack, data_type, sack, heartbeat, heartbeat_ack, abort, shutdown_ack,
}
use node_rtc_connection.Sctp.Chunks
use node_rtc_connection.Sctp.Checksum.{verify_checksum}
use node_rtc_connection.Sctp.Association.Setup.{
  handle_init, handle_init_ack, handle_cookie_echo, handle_cookie_ack,
}
use node_rtc_connection.Sctp.Association.Sending.{handle_sack}
use node_rtc_connection.Sctp.Association.Receiving.{cumulative, handle_data}

-- `#handleHeartbeat`.
unfoldable pub handle_heartbeat : ParsedChunk → Handler
handle_heartbeat chunk = do
  ack ← lift (encode_chunk heartbeat_ack 0 chunk.body)
  a ← self
  emit_packet a.remote_tag (ack ∷ [])

-- `#handleShutdown`.
unfoldable pub handle_shutdown : Handler
handle_shutdown = do
  ack ← lift (encode_chunk shutdown_ack 0 (alloc 0))
  a ← self
  emit_packet a.remote_tag (ack ∷ [])
  close

-- `shutdown`.
unfoldable pub shutdown : Handler
shutdown = do
  a ← self
  let graceful : Handler = do
    body ← lift (write_uint32_be (to_uint32 (cumulative a.peer_cumulative_tsn)) 0 (alloc 4))
    chunk ← lift (encode_chunk Chunks.shutdown 0 body)
    emit_packet a.remote_tag (chunk ∷ [])
    close
  if not (state_eq a.state established) then close else graceful

module _ (hmac : Buffer → Buffer → Buffer) (fresh_secret : Buffer) where
  -- `#handleChunk`.
  unfoldable pub handle_chunk : ParsedChunk → Handler
  handle_chunk chunk =
      if chunk.type == init
      then handle_init hmac fresh_secret chunk
      else (if chunk.type == init_ack
          then handle_init_ack chunk
          else (if chunk.type == cookie_echo
              then handle_cookie_echo hmac fresh_secret chunk
              else (if chunk.type == cookie_ack
                  then handle_cookie_ack
                  else (if chunk.type == data_type
                      then handle_data chunk
                      else (if chunk.type == sack
                          then handle_sack chunk
                          else (if chunk.type == heartbeat
                              then handle_heartbeat chunk
                              else (if chunk.type == abort
                                  then abort_with peer_abort
                                  else (if chunk.type == Chunks.shutdown
                                      then handle_shutdown
                                      else skip))))))))

  -- The loop of `receivePacket` over the chunks.
  unfoldable pub handle_chunks : List ParsedChunk → Handler
  handle_chunks [] = skip
  handle_chunks (chunk ∷ chunks) = do handle_chunk chunk; handle_chunks chunks

  -- `receivePacket`. The parsed header is handed on and not read.
  unfoldable pub receive_packet : Buffer → Handler
  receive_packet packet = do
    let accepted : Handler = do
      (valid, restored) ← lift (verify_checksum packet)
      let handled : Handler = do
        _header ← lift (parse_common_header restored)
        chunks ← lift (parse_chunks restored)
        handle_chunks chunks
      if valid then handled else skip
    if ltb (length packet) 12 then skip else accepted
