-- ===== src/Encryption.antt =====
-- src/shared/utils/encryption.util.ts: AES-256-GCM with a key that is derived from a secret.
pub mod Laws
use prismacv_backend.Shared.{
  ℕ, ◌+◌, ◌≡◌, String, Bool, ◌||◌, Option, none, some, List, ◌++◌, if◌then◌else◌, ltb, str_eq,
  Result, ok, err, internal, take, drop,
}
use prismacv_backend.Shared.Text.{js_length}
use prismacv_backend.Host.{Crypto}

abbrev pub iv_length : ℕ
iv_length = 16

abbrev pub salt_length : ℕ
salt_length = 64

abbrev pub tag_length : ℕ
tag_length = 16

abbrev pub tag_position : ℕ
tag_position = salt_length + iv_length

-- `!secretKey || secretKey.length < 32`
abbrev pub is_bad_key : String → Bool
is_bad_key key = str_eq key "" || ltb (js_length key) 32

-- `Buffer.subarray(from, to)`
abbrev pub subarray : ℕ → ℕ → List ℕ → List ℕ
subarray from to bytes = drop from (take to bytes)

abbrev pub or_fail : Option String → Result String
or_fail none = err (internal "Failed to decrypt token securely.")
or_fail (some plain) = ok plain

module _ (c : Crypto) where
  -- The salt and the initialisation vector are drawn by the caller.
  pub encrypt : List ℕ → List ℕ → String → String → Result String
  encrypt salt iv plaintext secret =
      if str_eq plaintext ""
      then ok plaintext
      else if is_bad_key secret
      then err (internal "Encryption requires a 32-character ENCRYPTION_KEY")
      else let key = c.pbkdf2 secret salt in
        ok (
          c.to_base64
            (salt ++ (iv ++ (c.gcm_tag key iv plaintext ++ c.gcm_encrypt key iv plaintext))))

  pub decrypt : String → String → Result String
  decrypt ciphertext secret =
      if str_eq ciphertext ""
      then ok ciphertext
      else if is_bad_key secret
      then err (internal "Decryption requires a 32-character ENCRYPTION_KEY")
      else let buffer = c.from_base64 ciphertext in
        let salt = subarray 0 salt_length buffer in
        let iv = subarray salt_length tag_position buffer in
        let tag = subarray tag_position (tag_position + tag_length) buffer in
        let encrypted = drop (tag_position + tag_length) buffer in
        or_fail (c.gcm_decrypt (c.pbkdf2 secret salt) iv tag encrypted)
