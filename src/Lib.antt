-- ===== src/Lib.antt =====
-- A model of the node-rtc-connection library: WebRTC data channels in TypeScript. What is
-- modelled is the data channels, the SCTP layer, which carries their messages in packets, the messages
-- that open a channel, the buffer queue, DTLS, which carries those packets encrypted, ICE, which finds
-- the path that the encrypted packets take, the signaling of a connection with the text of its
-- descriptions, the messages of the STUN and TURN client, and the encoders of DER.
--
-- The parts and their files:
--   Prelude, Int           lists, results and signed integers over the native numbers; JavaScript's `&`
--   Buffer                 Node's Buffer as a list of bytes, with the RangeErrors of its accessors
--   Map                    JavaScript's Map as a list of entries in the order of insertion
--   ByteBufferQueue        src/foundation/ByteBufferQueue.ts: a queue of buffers read as one sequence of
--                          bytes; Invariant: its checks; Loop, Refinement: its operations against the
--                          list of bytes that it holds
--   Sctp.Chunks            src/sctp/chunks.ts: encodeCommonHeader, parseChunks, encodeParam, ...; Layout:
--                          the bytes that they write; RoundTrip, Params: what is read back
--   Sctp.Bodies            src/sctp/chunks.ts: the bodies of INIT, DATA and SACK; InitData, Sack: the same
--   Sctp.Checksum          src/sctp/crc32c.ts: the table, crc32c, applyChecksum, verifyChecksum; Laws
--   Sctp.Dcep              src/sctp/dcep.ts: encodeOpen, decodeOpen, encodeAck, messageType; RoundTrip
--   Dtls.Protocol          src/dtls/protocol.ts: encodeRecord, parseRecords, encodeHandshake,
--                          parseHandshake, the vectors; Records, Handshakes: what is read back
--   DataChannel            src/datachannel/RTCDataChannel.ts: the states of a channel, send, close, and what
--                          the transport's signals do; Laws
--   DataChannelManager     src/sctp/datachannel-manager.ts: channels over the streams of an association;
--                          Ppid, Handlers, Streams, Messages; Delivery: from channel to channel, with the
--                          association of Sctp.Association as the transport
--   Effects                methods that change an object and emit events
--   Dtls.Primitives        the functions of Node's crypto module that DTLS calls, as an interface
--   Dtls.Prf, Dtls.Cipher  src/dtls/prf.ts, src/dtls/cipher.ts: pHash, prf; the key derivation, GcmCipher;
--                          Laws
--   Dtls.Connection        src/dtls/connection.ts: the fields of DtlsConnection
--     Outbound             #sendRecord, #flushFlight, the timer, #onHandshakeComplete, #fail, send, close
--     Messages, Framing, Flights
--                          the bodies of handshake messages; their fragments; #sendFlight,
--                          #sendClientHello, the flights of both roles, #sendFinished, #deriveCipherKeys
--     Roles, Inbound       #clientHandle, #serverHandle; handlePacket, #handleRecord, the reassembly, start
--     Data, Pieces, Fragments, Keys, Authentication, Retransmission, Ends
--                          application data from end to end, messages in fragments, matching keys,
--                          Finished, the timer, closing and failing
--   Crypto.Der             src/crypto/der.ts: encodeLength, tlv, encodeInteger, ...; Lengths: a reader of
--                          DER against them
--   Bits                   the exclusive or, and the or, of numbers that vary
--   Ice.Crc32, Ice.StunMessage
--                          src/ice/stun-message.ts: crc32; StunMessageBuilder, parse, verifyIntegrity;
--                          Layout, Address: the bytes that are written; Parse, Verify, RoundTrip: what is
--                          made of them
--   Ice.Agent              src/ice/ice-agent.ts: the fields of IceAgent and candidatePriority
--     Checks, Handlers     #formPairs, #startChecks, #tick, #sendCheck, #select, addRemoteCandidate;
--                          #onDatagram, the handlers of requests and responses, send, close
--     Selection, Steps, Authentication, Connect, Priority
--                          the one selection of a run, what is authenticated, a check from end to end,
--                          priorities
--   PeerConnection         src/peerconnection/RTCPeerConnection.ts: the fields of RTCPeerConnection
--     Signaling            createOffer, createAnswer, setLocalDescription, setRemoteDescription, in the
--                          parts between their awaits; #setupRolesAndStack, #maybeStartChecks
--     Transport            createDataChannel, addIceCandidate, setConfiguration, close, the listeners
--                          of #createStack, #verifyRemoteFingerprint
--     Exchange, Fingerprints, Closing
--                          an offer and its answer, which certificates pass, what close leaves
--   Sdp                    src/sdp/sdp-utils.ts: buildSdp, parseIceParameters, parseDtlsParameters,
--                          parseCandidates, parseCandidateLine; Lines, RoundTrip: what is written, read
--   StunClient             src/stun/stun-client.ts; Stream: #onStreamData; Messages: #createMessage, the
--                          requests, #parseXorAddress; Chunks: a stream in chunks
--   Sctp.Serial            src/sctp/association.ts: snLt, snLte and the arithmetic on TSNs
--   Sctp.Association       src/sctp/association.ts: the fields of SctpAssociation
--     Monad                how a handler runs; emit, close, #abort, the timer of #armInitRetransmit
--     Setup                start, #handleInit, #handleInitAck, #handleCookieEcho, #handleCookieAck
--     Sending, Receiving   sendData, #handleSack; #handleData, #deliverData, #consume, #sendSack
--     Dispatch             receivePacket, #handleChunk, #handleHeartbeat, #handleShutdown, shutdown
--     Packets, Fragments, Reassembly, Emission, Transfer
--                          the way of a user message from sendData to the other end's `message` event
--     Cookies, Acks, Timers
--                          what passes the cookie check, what a SACK removes, how the setup ends
--   Tests                  runs on concrete inputs, and the theorems at such inputs
--
-- A method becomes a function on the association's state that returns the new state, the events
-- that it emitted, in order, and its result or what it threw. A change that was made before a
-- throw stays. Listeners return normally and do not call back into the association while it
-- emits.
--
-- Loops: parseChunks, parseParams and parseRecords run on a number of rounds, each of which takes
-- four bytes or more; sendData takes one round more than the payload has bytes; the loop of
-- #deliverData one more than the map has entries; the loops of the queue one round for each
-- buffer; encodeLength and encodeInteger as many rounds as the number says. Out of rounds, the
-- two of DER would return the bytes so far, and any other loop an error of its own, which the code
-- does not have.
--
-- In DTLS, the loop that hands on complete handshake messages takes one round more than the map has
-- entries, the loops over extensions and fragments one more than there are bytes, and pHash one more
-- than the bytes wanted.
--
-- In a STUN message, the loops over attributes take one round more than the message has bytes, and so
-- does the loop of #onStreamData.
--
-- Parameters: the hashes of src/stun/stun-client.ts; HMAC-SHA1, with digests of 20 bytes as a
-- hypothesis, and the random transaction ids of the ICE agent, a function of the number of draws;
-- the functions of Dtls.Primitives, with the lengths of digests and tags and that GCM's decryption
-- undoes its encryption as hypotheses; what a call draws (random bytes, the time, a key pair); the
-- HMAC of Node's crypto module, the bytes of `randomBytes`, the content of `Buffer.allocUnsafe`,
-- NODE_ENV, and the UTF-8 codec. `sort` with a comparator that is never 0 is taken as insertion in
-- front of the first element that is greater. Numbers are exact: no number of the modelled code
-- exceeds 2^53.
--
-- A data channel's methods work on the channel and on the rest of the world, which only the
-- transport's listeners touch; a channel stands in one entry of its manager. The loop of
-- #allocateStreamId takes two rounds more than the greatest stream in use.
--
-- In PeerConnection, sdp-utils.ts is the interface SdpUtils, which Sdp.sdp_utils fills with what a
-- call draws, its session id; `toUpperCase` and `toLowerCase` are those of ASCII; a certificate that
-- is generated is an argument. Ten rounds are enough for the digits of a session id below 2^32.
--
-- A DTLS connection has a listener of "error", as src/transport-stack.ts and src/stun/stun-client.ts
-- give it: Node's `emit` of an error that has none throws.
--
-- Not modelled: the transport stack (src/transport-stack.ts) and RTCError (src/foundation/RTCError.ts),
-- RTCCertificate (src/dtls), X.509 certificates and DER's object identifiers and times
-- (src/crypto), the sockets, relays and server URLs of ICE (src/ice/ice-agent.ts), its candidate
-- lines (src/ice/RTCIceCandidate.ts), the transactions and responses of the STUN and TURN client
-- (src/stun), and parseSctpParameters (src/sdp). Loss and reordering of
-- packets: what is proved of a transfer is about packets that arrive in the order in which they
-- were sent.
pub mod Prelude
pub mod Buffer
pub mod Int
pub mod Bits
pub mod Ice
pub mod PeerConnection
pub mod StunClient
pub mod Map
pub mod Effects
pub mod ByteBufferQueue
pub mod Sctp
pub mod Sdp
pub mod Dtls
pub mod Crypto
pub mod DataChannel
pub mod DataChannelManager
mod Tests
