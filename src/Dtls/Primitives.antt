-- ===== src/Dtls/Primitives.antt =====
-- The functions of Node's crypto module that src/dtls calls, as an interface. A key object is taken as
-- bytes that stand for it.
use node_rtc_connection.Prelude.{◌≡◌, Bool, Option, some, length, Result}
use node_rtc_connection.Buffer.{Buffer}

pub record Crypto : Type 0 where
  -- `createHmac('sha256', key).update(bytes).digest()`, `createHash('sha256')…`.
  pub hmac : Buffer → Buffer → Buffer
  pub sha256 : Buffer → Buffer
  -- AES-128-GCM: key, nonce, additional data and plaintext, to the ciphertext and the tag; and back,
  -- where `none` is the exception that `final` throws.
  pub seal : Buffer → Buffer → Buffer → Buffer → Buffer × Buffer
  pub unseal : Buffer → Buffer → Buffer → Buffer → Buffer → Option Buffer
  -- `ECDH`: the public point of a key pair, and `computeSecret`, which throws on a bad point.
  pub public_key : Buffer → Buffer
  pub compute_secret : Buffer → Buffer → Result Buffer
  -- `crypto.sign`, and `crypto.verify` with the public key of a certificate, which throws where the
  -- certificate cannot be read.
  pub sign : Buffer → Buffer → Buffer
  pub verify : Buffer → Buffer → Buffer → Result Bool

-- What is documented of them and relied on here.
pub record IsSound (c : Crypto) : Type 0 where
  pub length-hmac : (key bytes : Buffer) → length (c.hmac key bytes) ≡ 32
  pub length-seal :
      (key nonce aad plain : Buffer) → length (c.seal key nonce aad plain).0 ≡ length plain
  pub length-tag : (key nonce aad plain : Buffer) → length (c.seal key nonce aad plain).1 ≡ 16
  pub unseal-seal :
      (key nonce aad plain : Buffer)
      → c.unseal key nonce aad (c.seal key nonce aad plain).0 (c.seal key nonce aad plain).1
        ≡ some plain
