-- ===== src/Dtls/Connection.antt =====
-- src/dtls/connection.ts: the state of a DTLS connection and what it emits.
pub mod Outbound
pub mod Messages
pub mod Framing
pub mod Flights
pub mod Roles
pub mod Inbound
pub mod Ends
pub mod Data
pub mod Keys
pub mod Authentication
pub mod Pieces
pub mod Fragments
pub mod Retransmission
use node_rtc_connection.Prelude.{
  ℕ, Bool, true, false, Option, none, some, List, [], ◌∷◌, Exception, type_error, Result, ok, err,
}
use node_rtc_connection.Buffer.{Buffer}
use node_rtc_connection.Effects.{M}
use node_rtc_connection.Dtls.Cipher.{GcmCipher}

abbrev pub max_retransmits : ℕ
max_retransmits = 10

abbrev pub max_fragment : ℕ
max_fragment = 1200

abbrev pub handshake_timeout_ms : ℕ
handshake_timeout_ms = 1000

pub data Role : Type 0 where
  client server : Role

-- `STATE`.
pub data Phase : Type 0 where
  new handshaking connected closed failed : Phase

abbrev pub phase_eq : Phase → Phase → Bool
phase_eq new new = true
phase_eq handshaking handshaking = true
phase_eq connected connected = true
phase_eq closed closed = true
phase_eq failed failed = true
phase_eq new _ = false
phase_eq handshaking _ = false
phase_eq connected _ = false
phase_eq closed _ = false
phase_eq failed _ = false

pub record HandshakeMessage : Type 0 where
  pub type : ℕ
  pub body : Buffer

pub record FlightDatagram : Type 0 where
  pub type : ℕ
  pub payload : Buffer

-- `ReassemblyEntry`, without `ranges`, which nothing reads.
pub record ReassemblyEntry : Type 0 where
  pub type : ℕ
  pub size : ℕ
  pub content : Buffer
  pub received : ℕ

-- The fields of `DtlsConnection`. The callback that verifies a fingerprint takes the certificate, which
-- its other argument is computed from; a pending timer is its delay.
pub record Dtls : Type 0 where
  pub role : Role
  pub phase : Phase
  pub cert_der : Buffer
  pub private_key : Buffer
  pub verify_fingerprint : Option (Buffer → Bool)
  pub send_epoch : ℕ
  pub send_seq : ℕ
  pub handshake_message_seq : ℕ
  pub write_cipher : Option GcmCipher
  pub read_cipher : Option GcmCipher
  pub send_encrypted : Bool
  pub client_random : Option Buffer
  pub server_random : Option Buffer
  pub cookie : Buffer
  pub ecdh : Option Buffer
  pub master_secret : Option Buffer
  pub remote_cert_der : Option Buffer
  pub remote_ecdhe_pub : Option Buffer
  pub use_extended_master_secret : Bool
  pub transcript : List Buffer
  pub reassembly : List (ℕ × ReassemblyEntry)
  pub next_expected_hs_seq : ℕ
  pub last_flight : List FlightDatagram
  pub retransmit_timer : Option ℕ
  pub retransmit_count : ℕ
  pub handshake_done : Bool
  pub cookie_secret : Option Buffer
  pub reneg_requested : Bool
  pub cert_requested : Bool
  pub first_client_hello : Option Buffer

-- The calls of `output`, and what `emit` hands to the listeners.
pub data Event : Type 0 where
  output : Buffer → Event
  connect_event : Event
  data_event : Buffer → Event
  close_event : Event
  error_event : Exception → Event

abbrev pub Method : Type 0 → Type 0
Method A = M Dtls Event A

-- `x!` where the code goes on to read `x`: null makes it throw a TypeError.
abbrev pub the : Option Buffer → Result Buffer
the none = err type_error
the (some b) = ok b

-- The constructor.
unfoldable pub create : Role → Buffer → Buffer → Option (Buffer → Bool) → Dtls
create role cert_der private_key verify_fingerprint = record {
  role = role;
  phase = new;
  cert_der = cert_der;
  private_key = private_key;
  verify_fingerprint = verify_fingerprint;
  send_epoch = 0;
  send_seq = 0;
  handshake_message_seq = 0;
  write_cipher = none;
  read_cipher = none;
  send_encrypted = false;
  client_random = none;
  server_random = none;
  cookie = [];
  ecdh = none;
  master_secret = none;
  remote_cert_der = none;
  remote_ecdhe_pub = none;
  use_extended_master_secret = false;
  transcript = [];
  reassembly = [];
  next_expected_hs_seq = 0;
  last_flight = [];
  retransmit_timer = none;
  retransmit_count = 0;
  handshake_done = false;
  cookie_secret = none;
  reneg_requested = false;
  cert_requested = false;
  first_client_hello = none;
}
