-- ===== src/Encryption/Laws.antt =====
-- What is encrypted under a key of 32 characters is read back.
use mathlib.Core.List.{append_assoc}
use prismacv_backend.Shared.{
  ℕ, ◌+◌, ◌≡◌, ◌≢◌, refl, sym, ◌∙◌, ap, String, true, false, List, [], ◌∷◌, ◌++◌, ok, length,
  length-append, drop, drop-append, drop-take-append, arith, str_eq, str_eq-false, Bool-cases, inl,
  inr,
}
use prismacv_backend.Host.{Crypto}
use prismacv_backend.Encryption.{encrypt, decrypt, is_bad_key, subarray}

subarray_middle :
    (pre mid post : List ℕ) (i j : ℕ)
    → length pre ≡ i
    → i + length mid ≡ j
    → subarray i j (pre ++ (mid ++ post)) ≡ mid
subarray_middle pre mid post i j h k = rw (← k, ← h) (drop-take-append pre mid post)

drop_front : (pre post : List ℕ) (i : ℕ) → length pre ≡ i → drop i (pre ++ post) ≡ post
drop_front pre post i h = rw (← h) (drop-append pre post)

nonempty_of_length : (xs ys : List ℕ) → length xs ≡ 64 → xs ++ ys ≢ []
nonempty_of_length [] ys h = absurd (omega (arith, h))
nonempty_of_length (x ∷ xs) ys h = λ e. cc

module _ (c : Crypto) (salt iv : List ℕ) (plain secret : String) where
  abbrev key : List ℕ
  key = c.pbkdf2 secret salt

  abbrev tag : List ℕ
  tag = c.gcm_tag key iv plain

  abbrev body : List ℕ
  body = c.gcm_encrypt key iv plain

  abbrev payload : List ℕ
  payload = salt ++ (iv ++ (tag ++ body))

  module _ (salt_64 : length salt ≡ 64) (iv_16 : length iv ≡ 16) where
    front_length : length (salt ++ iv) ≡ 80
    front_length = omega (arith, length-append salt iv)

    payload-salt : subarray 0 64 payload ≡ salt
    payload-salt = subarray_middle [] salt (iv ++ (tag ++ body)) 0 64 refl (omega arith)

    payload-iv : subarray 64 80 payload ≡ iv
    payload-iv = subarray_middle salt iv (tag ++ body) 64 80 salt_64 (omega arith)

    payload-tag : subarray 80 96 payload ≡ tag
    payload-tag =
        ap (subarray 80 96) (sym (append_assoc salt iv (tag ++ body)))
        ∙ subarray_middle (salt ++ iv) tag body 80 96 front_length
            (omega (arith, c.length-gcm_tag key iv plain))

    payload-body : drop 96 payload ≡ body
    payload-body =
        ap (drop 96)
          (sym (append_assoc salt iv (tag ++ body)) ∙ sym (append_assoc (salt ++ iv) tag body))
        ∙ drop_front ((salt ++ iv) ++ tag) body 96 (
            omega
              (arith, length-append (salt ++ iv) tag, front_length, c.length-gcm_tag key iv plain))

    decrypt-payload : is_bad_key secret ≡ false → decrypt c (c.to_base64 payload) secret ≡ ok plain
    unfolding decrypt
    decrypt-payload good =
        rw
          (
            str_eq-false (c.to_base64 payload) "" (
                c.to_base64-nonempty payload
                  (nonempty_of_length salt (iv ++ (tag ++ body)) salt_64)),
            good,
          )
          (simp (
            c.from_base64-to_base64 payload,
            payload-salt,
            payload-iv,
            payload-tag,
            payload-body,
            c.gcm_decrypt-gcm_encrypt key iv plain,
          ))

decrypt-empty :
    (c : Crypto) (text secret : String) → str_eq text "" ≡ true → decrypt c text secret ≡ ok text
unfolding decrypt
decrypt-empty c text secret empty = rw empty

-- Under a secret of at least 32 characters, with a salt of 64 and a vector of 16 bytes, encryption
-- succeeds, and decryption under the same secret gives the text back, the empty text included.
pub decrypt-encrypt :
    (c : Crypto) (salt iv : List ℕ) (plain secret : String)
    → length salt ≡ 64
    → length iv ≡ 16
    → is_bad_key secret ≡ false
    → (sealed : String) × (encrypt c salt iv plain secret ≡ ok sealed)
      × (decrypt c sealed secret ≡ ok plain)
unfolding encrypt
decrypt-encrypt c salt iv plain secret s v good = elim (Bool-cases (str_eq plain "")) [
  | inl empty ↦ (plain, rw empty, decrypt-empty c plain secret empty)
  | inr full ↦ (
    c.to_base64 (payload c salt iv plain secret),
    rw (full, good),
    decrypt-payload c salt iv plain secret s v good,
  )
]
