-- ===== src/Host.antt =====
-- What the services take from outside the repository: configuration (`ConfigService.get`), the
-- password hash (bcryptjs), the tokens (`JwtService`) and the cipher (node's `crypto`, `Buffer`).
use Prim.Native.String.{slice}
use prismacv_backend.Shared.{
  ℕ, ◌≡◌, ◌≢◌, String, Bool, true, Option, some, List, [], length, Result, ok, ◌+◌, ◌<◌,
}

-- The claims that the services sign into a token and read back.
pub record Claims : Type 0 where
  pub sub : String
  pub email : String
  pub role : String
  pub is_master_admin : Bool
  pub iss : String
  pub aud : String
  pub jti : String

pub record Crypto : Type 0 where
  pub pbkdf2 : String → List ℕ → List ℕ
  pub gcm_encrypt : List ℕ → List ℕ → String → List ℕ
  pub gcm_tag : List ℕ → List ℕ → String → List ℕ
  pub gcm_decrypt : List ℕ → List ℕ → List ℕ → List ℕ → Option String
  pub to_base64 : List ℕ → String
  pub from_base64 : String → List ℕ
  pub length-gcm_tag : (key iv : List ℕ) (plain : String) → length (gcm_tag key iv plain) ≡ 16
  pub gcm_decrypt-gcm_encrypt :
      (key iv : List ℕ) (plain : String)
      → gcm_decrypt key iv (gcm_tag key iv plain) (gcm_encrypt key iv plain) ≡ some plain
  pub from_base64-to_base64 : (bytes : List ℕ) → from_base64 (to_base64 bytes) ≡ bytes
  pub to_base64-nonempty : (bytes : List ℕ) → bytes ≢ [] → to_base64 bytes ≢ ""

pub record Host : Type 0 where
  pub config_number : String → Option ℕ
  pub config_text : String → Option String
  -- `hash(text, rounds)` draws a salt, here its first argument.
  pub bcrypt_hash : String → String → String
  pub bcrypt_compare : String → String → Bool
  pub bcrypt_compare-bcrypt_hash :
      (salt text : String) → bcrypt_compare text (bcrypt_hash salt text) ≡ true
  pub bcrypt_hash-nonempty : (salt text : String) → bcrypt_hash salt text ≢ ""
  -- The hash reads the first 72 bytes of a text.
  pub bcrypt_compare_prefix :
      (s t hash : String)
      → slice s 0 72 ≡ slice t 0 72
      → bcrypt_compare s hash ≡ bcrypt_compare t hash
  -- Signed under a secret (which may be undefined) with a lifetime, at a time; verified under a
  -- secret, an audience and an issuer, at a time.
  pub jwt_sign : Option String → String → ℕ → Claims → Result String
  pub jwt_verify : Option String → String → String → ℕ → String → Option Claims
  pub lifetime : String → ℕ
  pub jwt_verify-jwt_sign :
      (secret : Option String) (expires_in : String) (now later : ℕ) (c : Claims) (token : String)
      → jwt_sign secret expires_in now c ≡ ok token
      → later < now + lifetime expires_in
      → jwt_verify secret c.aud c.iss later token ≡ some c
  pub jwt_verify_sound :
      (secret : Option String) (aud iss : String) (now : ℕ) (token : String) (c : Claims)
      → jwt_verify secret aud iss now token ≡ some c
      → (c.aud ≡ aud) × (c.iss ≡ iss)
  pub jwt_verify_payload :
      (secret : Option String) (aud iss aud' iss' : String) (now now' : ℕ) (token : String)
      (c c' : Claims)
      → jwt_verify secret aud iss now token ≡ some c
      → jwt_verify secret aud' iss' now' token ≡ some c'
      → c ≡ c'
  pub crypto : Crypto
