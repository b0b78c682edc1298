-- ===== src/Sctp/Association/Fragments.antt =====
-- The DATA chunks of one user message, as both ends of an association see them.
use node_rtc_connection.Prelude.{ℕ, ◌+◌, ◌≡◌, Bool, true, false, List, [], ◌∷◌, ◌++◌, length, ok}
use node_rtc_connection.Buffer.{Buffer}
use node_rtc_connection.Map.{nat_eq}
use node_rtc_connection.Sctp.Chunks.{ParsedChunk, encode_chunk, data_type}
use node_rtc_connection.Sctp.Bodies.{DataBody}
use node_rtc_connection.Sctp.Bodies.InitData.{IsData, data_bytes, data_flags_of}
use node_rtc_connection.Sctp.Serial.{next_tsn}

-- What the DATA chunks of a message have in common.
pub record Header : Type 0 where
  pub stream_id : ℕ
  pub stream_seq : ℕ
  pub ppid : ℕ
  pub unordered : Bool

abbrev pub body_of : Header → Bool → Bool → ℕ → Buffer → DataBody
body_of h beginning ending tsn piece = record {
  unordered = h.unordered;
  beginning = beginning;
  ending = ending;
  tsn = tsn;
  stream_id = h.stream_id;
  stream_seq = h.stream_seq;
  ppid = h.ppid;
  user_data = piece;
}

abbrev pub data_chunk : DataBody → ParsedChunk
data_chunk d = record {
  type = data_type;
  flags = data_flags_of d;
  size = 4 + length (data_bytes d);
  body = data_bytes d;
}

-- A chunk on the wire that carries the body.
pub record Carries (d : DataBody) (e : Buffer) : Type 0 where
  pub is_data : IsData d
  pub encoded : encode_chunk data_type (data_flags_of d) (data_bytes d) ≡ ok e

-- The chunks `es` carry `payload` in pieces, with consecutive TSNs from `tsn` up to, not including,
-- `end`; the last piece has the E flag, the first has the B flag if `first` says so, no other has one.
pub data Fragments (h : Header) : Bool → ℕ → Buffer → List Buffer → ℕ → Type 0 where
  last :
      {first : Bool} {tsn end : ℕ} {payload e : Buffer}
      → Carries (body_of h first true tsn payload) e
      → end ≡ next_tsn tsn
      → Fragments h first tsn payload (e ∷ []) end
  more :
      {first : Bool} {tsn end : ℕ} {payload e : Buffer} {es : List Buffer}
      → (piece rest : Buffer) → payload ≡ piece ++ rest
      → Carries (body_of h first false tsn piece) e
      → Fragments h false (next_tsn tsn) rest es end
      → Fragments h first tsn payload (e ∷ es) end
