-- ===== src/Auth/Guesses.antt =====
-- `verifyOtp` against the life of a code: what a guess does to the code of a user.
use esim_backend.Base.{
  ℕ, ◌+◌, ◌≤◌, ◌<◌, ◌≡◌, refl, ap, ◌∙◌, inl, inr, true, false, Option, none, some, Result, ok, err,
  throw, unless_found, arith, Bool-cases, Option-cases, ◌>>=◌, leb, ltb, ==_iff,
}
use esim_backend.Base.Stepping.{gets_step, unless_found-none, unless_found-some}
use esim_backend.Base.Text.{Text}
use esim_backend.Auth.Data.{
  AuthEnv, AuthDb, AuthException, User, Otp, find_by_email, otp_expired, otp_max_attempts_exceeded,
  otp_invalid, otp_not_found,
}
use esim_backend.Auth.Sessions.{find_active_otp}
use esim_backend.Auth.Codes.{LoginResponse, otp_max_attempts, check_otp, verify_otp}
use esim_backend.Auth.OneCode.{
  IsOneCode, latest_of, without, bump, bumped, latest_of-without, latest_of-bump,
}

-- What a user knows of a code: nothing of the rows that store it.
pub record Code : Type 0 where
  pub otp_hash : Text
  pub expires_at : ℕ
  pub attempts : ℕ

abbrev pub code_view : Option Otp → Option Code
code_view none = none
code_view (some o) =
    some (record { otp_hash = o.otp_hash; expires_at = o.expires_at; attempts = o.attempts })

abbrev pub refused : {A : Type 0} → Result AuthException A → Option AuthException
refused (ok a) = none
refused (err x) = some x

module _ ⦃e : AuthEnv⦄ where
  abbrev pub code_of : ℕ → AuthDb → Option Code
  code_of user_id db = code_view (latest_of user_id db.otps)

  -- A guess takes the code of a user to another, and is refused or not.
  pub data Guess (now : ℕ) (otp : Text)
      : Option Code → Option AuthException → Option Code → Type 0 where
    no_code : Guess now otp none (some otp_not_found) none
    late : (c : Code) → c.expires_at < now → Guess now otp (some c) (some otp_expired) none
    used_up :
        (c : Code)
        → now ≤ c.expires_at
        → otp_max_attempts ≤ c.attempts
        → Guess now otp (some c) (some otp_max_attempts_exceeded) none
    wrong :
        (c : Code)
        → now ≤ c.expires_at
        → c.attempts < otp_max_attempts
        → e.bcrypt_compare otp c.otp_hash ≡ false
        → Guess now otp (some c) (some otp_invalid) (some (record c { attempts = c.attempts + 1 }))
    right :
        (c : Code)
        → now ≤ c.expires_at
        → c.attempts < otp_max_attempts
        → e.bcrypt_compare otp c.otp_hash ≡ true
        → Guess now otp (some c) none none

  -- The ends of the checks, with what is left of the codes.
  pub data Checked (now : ℕ) (otp : Text) (u : ℕ) (row : Otp) (db : AuthDb)
      (out : Result AuthException LoginResponse × AuthDb) : Type 0 where
    was_late :
        row.expires_at < now
        → out.0 ≡ err otp_expired
        → out.1.otps ≡ without u db.otps
        → Checked now otp u row db out
    was_used_up :
        now ≤ row.expires_at
        → otp_max_attempts ≤ row.attempts
        → out.0 ≡ err otp_max_attempts_exceeded
        → out.1.otps ≡ without u db.otps
        → Checked now otp u row db out
    was_wrong :
        now ≤ row.expires_at
        → row.attempts < otp_max_attempts
        → e.bcrypt_compare otp row.otp_hash ≡ false
        → out.0 ≡ err otp_invalid
        → out.1.otps ≡ bump row.id db.otps
        → Checked now otp u row db out
    was_right :
        now ≤ row.expires_at
        → row.attempts < otp_max_attempts
        → e.bcrypt_compare otp row.otp_hash ≡ true
        → refused out.0 ≡ none
        → out.1.otps ≡ without u db.otps
        → Checked now otp u row db out

  pub check_otp-Checked :
      (now : ℕ) (hash : Text) (user : User) (otp : Text) (row : Otp) (db : AuthDb)
      → Checked now otp user.id row db (check_otp now hash user otp row db)
  unfolding check_otp ◌>>=◌
  check_otp-Checked now hash user otp row db = elim (Bool-cases (ltb row.expires_at now)) [
    | inl h ↦ was_late (ground arith) (rw h refl) (rw h refl)
    | inr h ↦ elim (Bool-cases (leb otp_max_attempts row.attempts)) [
      | inl k ↦ was_used_up (ground arith) (ground arith) (rw (h, k) refl) (rw (h, k) refl)
      | inr k ↦ elim (Bool-cases (e.bcrypt_compare otp row.otp_hash)) [
        | inl m ↦ was_right (ground arith) (ground arith) m (rw (h, k, m) refl) (rw (h, k, m) refl)
        | inr m ↦ was_wrong (ground arith) (ground arith) m (rw (h, k, m) refl) (rw (h, k, m) refl)
      ]
    ]
  ]

  module _ (now : ℕ) (hash address otp : Text) (db : AuthDb) {user : User}
      (account : find_by_email (some address) db ≡ some user) where
    verify_otp_step :
        verify_otp now hash address otp db
        ≡ unless_found
            (find_active_otp user.id db)
            (throw otp_not_found)
            (check_otp now hash user otp)
            db
    unfolding verify_otp
    verify_otp_step =
        gets_step _ _ db ∙ ap (λ k. k db) (unless_found-some _ _ account) ∙ gets_step _ _ db

    pub verify_otp-none :
        find_active_otp user.id db ≡ none
        → verify_otp now hash address otp db ≡ (err otp_not_found, db)
    unfolding throw
    verify_otp-none missing = verify_otp_step ∙ ap (λ k. k db) (unless_found-none _ _ missing)

    pub verify_otp-some :
        {row : Otp}
        → find_active_otp user.id db ≡ some row
        → verify_otp now hash address otp db ≡ check_otp now hash user otp row db
    verify_otp-some stored = verify_otp_step ∙ ap (λ k. k db) (unless_found-some _ _ stored)

    abbrev Ends : Otp → Result AuthException LoginResponse × AuthDb → Type 0
    Ends row out = Guess now otp (code_view (some row)) (refused out.0) (code_of user.id out.1)

    -- Each end of the checks is a step.
    Checked-Guess :
        (row : Otp) (out : Result AuthException LoginResponse × AuthDb)
        → IsOneCode db.otps
        → find_active_otp user.id db ≡ some row
        → Checked now otp user.id row db out
        → Ends row out
    Checked-Guess row out inv stored (was_late h r t) =
        rw (r, t, latest_of-without user.id db.otps) (late _ h)
    Checked-Guess row out inv stored (was_used_up h k r t) =
        rw (r, t, latest_of-without user.id db.otps) (used_up _ h k)
    Checked-Guess row out inv stored (was_right h k m r t) =
        rw (r, t, latest_of-without user.id db.otps) (right _ h k m)
    Checked-Guess row out inv stored (was_wrong h k m r t) = rw (r, t, after) (wrong _ h k m)
      where
        held : e.otp.Holds row db.otps
        held = e.otp.find_latest-Holds _ _ _ stored

        owner : row.user_id ≡ user.id
        owner = (==_iff row.user_id user.id).0 (e.otp.find_latest_passes _ _ _ stored)

        after : latest_of user.id (bump row.id db.otps) ≡ some (bumped row)
        after = rw (← owner) (latest_of-bump row db.otps held inv)

    -- What a guess does to the code of the account is a step of the code's life (`Guess`), and it is refused
    -- as the step says, where the table has one code for each user at most.
    pub verify_otp-Guess :
        IsOneCode db.otps
        → let out = verify_otp now hash address otp db in
          Guess now otp (code_of user.id db) (refused out.0) (code_of user.id out.1)
    verify_otp-Guess inv = elim (Option-cases (find_active_otp user.id db)) [
      | inl missing ↦ rw (verify_otp-none missing, missing) no_code
      | inr (row, stored) ↦
          rw (verify_otp-some stored, stored)
            (Checked-Guess row _ inv stored (check_otp-Checked now hash user otp row db))
    ]
