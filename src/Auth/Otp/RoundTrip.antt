-- ===== src/Auth/Otp/RoundTrip.antt =====
-- A code that was sent is accepted, once.
use prismacv_backend.Shared.{
  ℕ, ◌<◌, ◌≡◌, refl, sym, String, true, none, some, ok, err, arith, inl, inr, ap, ◌∙◌, ◌∷◌, subst,
  lt→ltb, eq_refl, Option-cases, Result-cases,
}
use prismacv_backend.Shared.Text.{to_string}
use prismacv_backend.Host.{Host}
use prismacv_backend.Auth.Model.{Prisma, Db, User, Otp, OtpPurpose, password_reset}
use prismacv_backend.Auth.OtpStore.{
  belongs, is_valid_otp, new_otp, used, create_otp, mark_otp_as_used,
}
use prismacv_backend.Auth.OtpStore.Laws.{
  same_purpose_refl, IsOnly, find_first-IsOnly, find-updated_self, updated-IsOnly, find-created,
  created-IsOnly,
}
use prismacv_backend.Auth.Otp.{
  OtpDraw, generate_and_send_otp, max_attempts_for, expiry, mail_for, verify_otp, no_otp, accept,
}
use prismacv_backend.Auth.Otp.Code.{generate_otp_code}
use prismacv_backend.Auth.Otp.Verify.{Registered, IsOpen, verify_otp-missing, verify_otp-checked}

module _ (host : Host) (p : Prisma) where
  -- What a successful `generateAndSendOtp` leaves: the code in the mail, and its hash as the one
  -- pending code of the user and purpose.
  pub record Sent (draw : OtpDraw) (now : ℕ) (user : User) (purpose : OtpPurpose) (db db' : Db p)
      (expires_at : ℕ) : Type 0 where
    pub n : ℕ
    pub drawn : generate_otp_code draw.rounds draw.random ≡ some n
    pub mailed : db'.sent ≡ mail_for purpose user (to_string n) ∷ db.sent
    pub until : expires_at ≡ expiry host p now
    pub found :
        p.otps.find db'.otps draw.id
        ≡ some (
            new_otp draw.id user.id purpose
              (host.bcrypt_hash draw.salt (to_string n))
              (expiry host p now)
              (max_attempts_for host p purpose))
    pub only : IsOnly p db'.otps user.id purpose draw.id
    pub same_users : db'.users ≡ db.users
    pub same_tokens : db'.tokens ≡ db.tokens

  module _ (draw : OtpDraw) (now : ℕ) (user : User) (purpose : OtpPurpose) (db db' : Db p)
      (t : ℕ) where
    abbrev row : ℕ → Otp
    row n =
        new_otp draw.id user.id purpose (host.bcrypt_hash draw.salt (to_string n))
          (expiry host p now) (max_attempts_for host p purpose)

    abbrev stored_db : ℕ → p.otps.Rows → Db p
    stored_db n rows = record db {
      otps = rows;
      sent = mail_for purpose user (to_string n) ∷ db.sent;
    }

    -- Without a draw below the limit, or if the database refuses the code, nothing is returned.
    generate_and_send_otp-eq-ok :
        generate_and_send_otp host p draw now user purpose db ≡ (ok t, db')
        → (n : ℕ) × (rows : p.otps.Rows) × (generate_otp_code draw.rounds draw.random ≡ some n)
          × (p.otps.create (p.otps.delete_many db.otps (belongs user.id purpose)) (row n) ≡ ok rows)
          × (t ≡ expiry host p now)
          × (db' ≡ stored_db n rows)
    unfolding generate_and_send_otp create_otp
    generate_and_send_otp-eq-ok e =
        elim (Option-cases (generate_otp_code draw.rounds draw.random)) [
          | inl stuck ↦ ground (arith, e, stuck)
          | inr (n, drawn) ↦
              elim (Result-cases
                (p.otps.create (p.otps.delete_many db.otps (belongs user.id purpose)) (row n))) [
                  | inl (rows, stored) ↦ (
                    n,
                    rows,
                    drawn,
                    stored,
                    ground (arith, e, drawn, stored),
                    ground (arith, e, drawn, stored),
                  )
                  | inr (x, failed) ↦ ground (arith, e, drawn, failed)
                ]
        ]

    generate_and_send_otp-Sent :
        generate_and_send_otp host p draw now user purpose db ≡ (ok t, db')
        → Sent draw now user purpose db db' t
    generate_and_send_otp-Sent e =
        let (n, rows, drawn, stored, until, same) = generate_and_send_otp-eq-ok e in
        let o = row n in
        record {
          n = n;
          drawn = drawn;
          mailed = ap (λ (d : Db p). d.sent) same;
          until = until;
          found =
              ap (λ (d : Db p). p.otps.find d.otps draw.id) same
              ∙ find-created p draw.id user.id purpose o.otp_hash o.expires_at o.max_attempts db
                  rows stored draw.id
              ∙ simp (eq_refl draw.id);
          only =
              subst (λ (d : Db p). IsOnly p d.otps user.id purpose draw.id) (sym same)
                (created-IsOnly p draw.id user.id purpose o.otp_hash o.expires_at o.max_attempts db
                  rows stored);
          same_users = ap (λ (d : Db p). d.users) same;
          same_tokens = ap (λ (d : Db p). d.tokens) same;
        }

  module _ (k : String) (o : Otp) (db : Db p) (rows : p.otps.Rows) (used_now : ℕ)
      (found : p.otps.find db.otps k ≡ some o)
      (marked : p.otps.update db.otps o.id (used used_now) ≡ ok (used used_now o, rows)) where
    -- A used code is not found again, and no other code of the user and purpose is there.
    used_not_found :
        (user_id : String) (purpose : OtpPurpose) (later : ℕ)
        → IsOnly p db.otps user_id purpose k
        → p.otps.find_first rows (is_valid_otp user_id purpose later) ≡ none
    used_not_found user_id purpose later only =
        elim (Option-cases (p.otps.find_first rows (is_valid_otp user_id purpose later))) [
          | inl e ↦ e
          | inr (x, e) ↦
              let (at, valid) =
                p.otps.find_first_sound rows (is_valid_otp user_id purpose later) x e in
              let still =
                updated-IsOnly p db.otps rows (used used_now) (used used_now o) k o found marked
                  (λ y. refl) user_id purpose only in
              let here =
                find-updated_self p db.otps rows (used used_now) (used used_now o) k o found marked
                  (λ y. refl) in
              let same = still x.id x at (ground (arith, valid)) in
              let the_used = sym (ap (p.otps.find rows) same ∙ here) ∙ at in
              ground (arith, the_used, valid)
        ]

  -- The code of the mail passes the check while it is pending.
  module _ {draw : OtpDraw} {now : ℕ} {user : User} {purpose : OtpPurpose} {db db' : Db p} {t : ℕ}
      (s : Sent draw now user purpose db db' t) (email : String) (now' used_now : ℕ) where
    abbrev sent_row : Otp
    sent_row =
        new_otp draw.id user.id purpose (host.bcrypt_hash draw.salt (to_string s.n))
          (expiry host p now) (max_attempts_for host p purpose)

    verify_otp-sent :
        Registered host p db'.users email user
        → IsOpen host p purpose user
        → now' < t
        → 0 < max_attempts_for host p purpose
        → verify_otp host p now' used_now email (to_string s.n) purpose db'
          ≡ accept host p purpose user sent_row used_now db'
    verify_otp-sent known is_open early some_left =
        let in_time = lt→ltb now' (expiry host p now) (omega (arith, s.until)) in
        let fits : is_valid_otp user.id purpose now' sent_row ≡ true =
          ground (arith, eq_refl user.id, same_purpose_refl purpose, in_time) in
        let first =
          find_first-IsOnly p db'.otps user.id purpose now' draw.id sent_row s.only s.found fits in
        verify_otp-checked host p now' used_now email (to_string s.n) purpose db' user known is_open
          sent_row first some_left
        ∙ rw (host.bcrypt_compare-bcrypt_hash draw.salt (to_string s.n))

  module _ (draw : OtpDraw) (now : ℕ) (user : User) (db db' : Db p) (t : ℕ) (email : String)
      (now' used_now : ℕ) where
    -- A password-reset code that was mailed is accepted before it expires, where the limit of
    -- attempts is not zero; the answer is the user, only the codes change, and after it no code is
    -- accepted until another is sent.
    pub reset_code_once :
        generate_and_send_otp host p draw now user password_reset db ≡ (ok t, db')
        → Registered host p db'.users email user
        → now' < t
        → 0 < max_attempts_for host p password_reset
        → (code : String) × (rows : p.otps.Rows) × (db'.sent
            ≡ mail_for password_reset user code ∷ db.sent)
          × (verify_otp host p now' used_now email code password_reset db'
              ≡ (ok user, record db' { otps = rows }))
          × ((later used_later : ℕ) (any : String)
              → verify_otp host p later used_later email any password_reset
                  (record db' { otps = rows })
                ≡ (err (no_otp password_reset), record db' { otps = rows }))
    unfolding mark_otp_as_used
    reset_code_once e known early some_left =
        let s = generate_and_send_otp-Sent draw now user password_reset db db' t e in
        let code = to_string s.n in
        let o = row draw now user password_reset db db' t s.n in
        let (rows, marked) = p.otps.update_total db'.otps o.id (used used_now) o s.found refl in
        (
          code,
          rows,
          s.mailed,
          verify_otp-sent s email now' used_now known refl early some_left ∙ rw marked,
          λ later used_later any.
              verify_otp-missing host p later used_later email any password_reset _ user known refl
                (used_not_found o.id o db' rows used_now s.found marked user.id password_reset later
                  s.only),
        )
