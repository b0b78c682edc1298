-- ===== src/Dtls/Connection/Keys.antt =====
-- src/dtls/connection.ts: the keys of the two ends.
use node_rtc_connection.Prelude.{◌≡◌, some, [], ◌++◌}
use node_rtc_connection.Buffer.{Buffer, slice}
use node_rtc_connection.Effects.{returned}
use node_rtc_connection.Dtls.Primitives.{Crypto, IsSound}
use node_rtc_connection.Dtls.Prf.Laws.{prf_returns}
use node_rtc_connection.Dtls.Cipher.{GcmCipher, ascii, derive_keys}
use node_rtc_connection.Dtls.Connection.{Dtls, client, server}
use node_rtc_connection.Dtls.Connection.Flights.{derive_cipher_keys}

-- What the two ends have agreed on when they derive their keys.
pub record HasSecrets (d : Dtls) (master client_random server_random : Buffer) : Type 0 where
  pub secret : d.master_secret ≡ some master
  pub client_side : d.client_random ≡ some client_random
  pub server_side : d.server_random ≡ some server_random

-- From the same master secret and randoms a client and a server derive keys that match: both return,
-- emit nothing and set their two ciphers only, and each reads with the key and the fixed part of the
-- nonce that the other writes with. The primitives are sound.
pub derive_cipher_keys_lem :
    (c : Crypto) (master client_random server_random : Buffer) (a b : Dtls)
    → IsSound c
    → HasSecrets a master client_random server_random
    → HasSecrets b master client_random server_random
    → a.role ≡ client
    → b.role ≡ server
    → (g h : GcmCipher) × (derive_cipher_keys c a
        ≡ returned tt (record a { write_cipher = some g; read_cipher = some h }) [])
      × (derive_cipher_keys c b
          ≡ returned tt (record b { write_cipher = some h; read_cipher = some g }) [])
unfolding derive_cipher_keys derive_keys
derive_cipher_keys_lem c master client_random server_random a b sound s t ar br =
    let (v, keys, size) =
      prf_returns c.hmac master (ascii "key expansion") (server_random ++ (client_random ++ [])) 40
        sound.length-hmac in
    (
      record { key = slice v 0 16; fixed_iv = slice v 32 36 },
      record { key = slice v 16 32; fixed_iv = slice v 36 40 },
      simp (s.secret, s.client_side, s.server_side, keys, ar),
      simp (t.secret, t.client_side, t.server_side, keys, br),
    )
