-- ===== src/Dtls/Cipher.antt =====
-- src/dtls/cipher.ts: key derivation, and the protection of records.
pub mod Laws
use Prim.Native.Char.{code}
use Prim.Native.String.{String}
use Prim.Native.String
use node_rtc_connection.Prelude.{
  ℕ, leb, if◌then◌else◌, ◌-◌, ◌+◌, Option, none, some, List, [], ◌∷◌, length, Result, ok, err,
  decrypt_error, ◌>>=◌,
}
use node_rtc_connection.Buffer.{Buffer, slice, alloc, concat, write_uint8, write_uint16_be}
use node_rtc_connection.Dtls.Protocol.{write_uint48_be}
use node_rtc_connection.Dtls.Primitives.{Crypto}
use node_rtc_connection.Dtls.Prf.{prf}

-- `Buffer.from(s, 'ascii')`.
abbrev pub ascii : String → Buffer
ascii String.[] = []
ascii (String.◌∷◌ c s) = code c ∷ ascii s

pub record DerivedKeys : Type 0 where
  pub client_key : Buffer
  pub server_key : Buffer
  pub client_iv : Buffer
  pub server_iv : Buffer

pub record GcmCipher : Type 0 where
  pub key : Buffer
  pub fixed_iv : Buffer

-- The place that a slice means by `buf.length - n`: below zero it counts from the end again, and below
-- zero still it is 0.
abbrev pub from_end : Buffer → ℕ → ℕ
from_end buf n = if leb n (length buf) then length buf - n else length buf - (n - length buf)

-- `buildAAD`.
unfoldable pub build_aad : ℕ → ℕ → ℕ → ℕ → ℕ → Result Buffer
build_aad epoch seq type version plaintext_len = do
  a₁ ← write_uint16_be epoch 0 (alloc 13)
  a₂ ← write_uint48_be seq 2 a₁
  a₃ ← write_uint8 type 8 a₂
  a₄ ← write_uint16_be version 9 a₃
  write_uint16_be plaintext_len 11 a₄

module _ (c : Crypto) where
  unfoldable pub derive_master_secret : Buffer → Buffer → Buffer → Result Buffer
  derive_master_secret pre_master client_random server_random =
      prf c.hmac pre_master (ascii "master secret") (concat (client_random ∷ server_random ∷ [])) 48

  unfoldable pub derive_extended_master_secret : Buffer → Buffer → Result Buffer
  derive_extended_master_secret pre_master session_hash =
      prf c.hmac pre_master (ascii "extended master secret") session_hash 48

  unfoldable pub derive_keys : Buffer → Buffer → Buffer → Result DerivedKeys
  derive_keys master client_random server_random = do
    block ←
        prf c.hmac master (ascii "key expansion") (concat (server_random ∷ client_random ∷ [])) 40
    ok (record {
      client_key = slice block 0 16;
      server_key = slice block 16 32;
      client_iv = slice block 32 36;
      server_iv = slice block 36 40;
    })

  unfoldable pub encrypt : GcmCipher → ℕ → ℕ → ℕ → ℕ → Buffer → Result Buffer
  encrypt g epoch seq type version plaintext = do
    n₁ ← write_uint16_be epoch 0 (alloc 8)
    explicit_nonce ← write_uint48_be seq 2 n₁
    aad ← build_aad epoch seq type version (length plaintext)
    let (ct, tag) = c.seal g.key (concat (g.fixed_iv ∷ explicit_nonce ∷ [])) aad plaintext
    ok (concat (explicit_nonce ∷ ct ∷ tag ∷ []))

  -- What `final` returns or throws.
  abbrev unsealed : Option Buffer → Result Buffer
  unsealed none = err decrypt_error
  unsealed (some plaintext) = ok plaintext

  unfoldable pub decrypt : GcmCipher → ℕ → ℕ → ℕ → ℕ → Buffer → Result Buffer
  decrypt g epoch seq type version sealed = do
    let explicit_nonce = slice sealed 0 8
    let tag = slice sealed (from_end sealed 16) (length sealed)
    let ct = slice sealed 8 (from_end sealed 16)
    aad ← build_aad epoch seq type version (length ct)
    unsealed (c.unseal g.key (concat (g.fixed_iv ∷ explicit_nonce ∷ [])) aad ct tag)
