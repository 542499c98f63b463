-- ===== src/Examples/Auth.antt =====
-- Runs of the theorems on one-time codes.
use prismacv_backend.Shared.{
  ℕ, ◌<◌, ◌≤◌, ◌/◌, ◌≡◌, refl, String, false, some, List, [], ◌∷◌, ◌++◌, ok, err, arith,
}
use prismacv_backend.Shared.Text.{to_string, to_lower_case, trim}
use prismacv_backend.Encryption.{encrypt, decrypt}
use prismacv_backend.Encryption.Laws.{decrypt-encrypt}
use prismacv_backend.Auth.Model.{Db, PrismaUser, Otp, password_reset, signup_email_verification}
use prismacv_backend.Auth.Patch.{normalize_email}
use prismacv_backend.Auth.Users.{entity_with, prisma_user_to_entity, read_token}
use prismacv_backend.Auth.OtpStore.{new_otp, create_otp}
use prismacv_backend.Auth.Otp.{
  OtpDraw, generate_and_send_otp, max_attempts_for, expiry, verify_otp, no_otp, mail_for,
}
use prismacv_backend.Auth.Otp.Code.{
  generate_otp_code, generate_otp_code_bounds, code_of_uniform, draw_for, limit, code_of,
  code_count,
}
use prismacv_backend.Auth.Otp.Verify.{Registered}
use prismacv_backend.Auth.Otp.Lockout.{Try}
use prismacv_backend.Auth.Otp.RoundTrip.{reset_code_once}
use prismacv_backend.Examples.Codec.{plain_crypto}
use prismacv_backend.Examples.World.{example_host, example_prisma, ann, db_with, ann_entity}

generate_otp_code_bounds_example :
    ((code : ℕ) → generate_otp_code 3 (λ i. 12345) ≡ some code → (100000 ≤ code) × (code ≤ 999999))
    × ((k : ℕ)
        → k < 3
        → 12345 < limit
        → (code : ℕ) × (generate_otp_code 3 (λ i. 12345) ≡ some code))
generate_otp_code_bounds_example = generate_otp_code_bounds 3 (λ i. 12345)

code_of_uniform_example :
    ((k : ℕ) → k < 18 → (draw_for k 409670 < limit) × (code_of (draw_for k 409670) ≡ 409670))
    × ((random : ℕ)
        → random < limit
        → code_of random ≡ 409670
        → (random / code_count < 18) × (random ≡ draw_for (random / code_count) 409670))
code_of_uniform_example = code_of_uniform 409670 (omega arith) (omega arith)

abbrev draw : OtpDraw
draw = record { random = λ i. 12345; rounds = 1; salt = "s"; id = "o1" }

known : Registered example_host example_prisma (db_with ann).users "Ann@x.io" (ann_entity ann)
unfolding prisma_user_to_entity entity_with read_token normalize_email to_lower_case trim
known = refl

abbrev reset_otp : Otp
reset_otp = new_otp "o1" "u1" password_reset "112345" 600000 3

abbrev reset_db : Db example_prisma
reset_db = record (db_with ann) {
  otps = reset_otp ∷ [];
  sent = mail_for password_reset (ann_entity ann) "112345" ∷ [];
}

sent_reset :
    generate_and_send_otp example_host example_prisma draw 0
      (ann_entity ann)
      password_reset
      (db_with ann)
    ≡ (ok 600000, reset_db)
unfolding generate_and_send_otp generate_otp_code to_string create_otp expiry max_attempts_for
sent_reset = ground arith

reset_limit : 0 < max_attempts_for example_host example_prisma password_reset
unfolding max_attempts_for
reset_limit = omega arith

reset_code_once_example :
    (code : String) × (rows : List Otp) × (reset_db.sent
      ≡ mail_for password_reset (ann_entity ann) code ∷ [])
    × (verify_otp example_host example_prisma 1000 1001 "Ann@x.io" code password_reset reset_db
        ≡ (ok (ann_entity ann), record reset_db { otps = rows }))
    × ((later used_later : ℕ) (any : String)
        → verify_otp example_host example_prisma later used_later "Ann@x.io" any password_reset
            (record reset_db { otps = rows })
          ≡ (err (no_otp password_reset), record reset_db { otps = rows }))
reset_code_once_example =
    reset_code_once example_host example_prisma draw 0 (ann_entity ann) (db_with ann) reset_db
      600000 "Ann@x.io" 1000 1001 sent_reset known (omega arith) reset_limit

-- Before the address is verified.
abbrev newcomer : PrismaUser
newcomer = record ann { email_verified = false }

abbrev signup_db : Db example_prisma
signup_db = record (db_with newcomer) {
  otps = new_otp "o1" "u1" signup_email_verification "112345" 600000 5 ∷ [];
  sent = mail_for signup_email_verification (ann_entity newcomer) "112345" ∷ [];
}

abbrev wrong : Try
wrong = record { now = 5; used_now = 6; code = "000000" }

abbrev zeros : List ℕ
zeros = 0 ∷ 0 ∷ 0 ∷ 0 ∷ 0 ∷ 0 ∷ 0 ∷ 0 ∷ 0 ∷ 0 ∷ 0 ∷ 0 ∷ 0 ∷ 0 ∷ 0 ∷ 0 ∷ []

decrypt-encrypt_example :
    (sealed : String) × (encrypt plain_crypto
        (zeros ++ (zeros ++ (zeros ++ zeros)))
        zeros
        "token"
        "0123456789abcdef0123456789abcdef"
      ≡ ok sealed)
    × (decrypt plain_crypto sealed "0123456789abcdef0123456789abcdef" ≡ ok "token")
decrypt-encrypt_example =
    decrypt-encrypt plain_crypto (zeros ++ (zeros ++ (zeros ++ zeros))) zeros "token"
      "0123456789abcdef0123456789abcdef" refl refl refl
