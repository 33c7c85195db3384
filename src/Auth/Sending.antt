-- ===== src/Auth/Sending.antt =====
-- `sendOtp`: what it stores, and the code that it mails signs the user in.
use esim_backend.Base.{
  ℕ, ◌+◌, ◌-◌, ◌*◌, ◌≤◌, ◌<◌, ◌≡◌, ◌≢◌, refl, ap, ◌∙◌, inl, inr, true, Option, none, some, ⊤, ok,
  err, pure, arith, Bool-cases, Option-cases, ◌>>=◌, ◌>>◌, ◌⊎◌, ltb, ==_iff,
}
use esim_backend.Base.Stepping.{bind_ok, bind_err, gets_step, unless_found-some}
use esim_backend.Base.Text.{Text}
use esim_backend.Auth.Data.{
  AuthEnv, AuthDb, AuthService, AuthException, User, Otp, find_by_email, mail, send_otp,
  otp_recently_sent,
}
use esim_backend.Auth.Sessions.{otp_of, find_active_otp, delete_otps, create_otp}
use esim_backend.Auth.Codes.{
  otp_ttl_ms, otp_max_attempts, account_of, throw_if_recent, send_otp_to, verify_otp,
}
use esim_backend.Auth.OneCode.{
  IsOneCode, latest_of, without, without-IsOneCode, insert-IsOneCode, latest_of-insert,
}
use esim_backend.Auth.Guesses.{
  Code, Guess, no_code, late, used_up, wrong, right, code_view, code_of, refused, verify_otp-Guess,
}

module _ ⦃e : AuthEnv⦄ where
  -- The code that `sendOtp` stores.
  abbrev pub sent_code : ℕ → Text → Text → ℕ → e.otp.Table → Otp
  sent_code now salt otp_code user_id t = record {
    id = e.otp.next_id t;
    user_id = user_id;
    otp_hash = e.bcrypt_hash salt otp_code;
    expires_at = now + otp_ttl_ms;
    attempts = 0;
    created_at = now;
  }

  -- The end of `sendOtp`, past its guard.
  abbrev resend : ℕ → Text → Text → Text → User → AuthService ⊤
  resend now salt otp_code address user = do
    delete_otps user.id
    create_otp user.id (e.bcrypt_hash salt otp_code) (now + otp_ttl_ms) now
    mail (send_otp address otp_code)

  accepted :
      {later : ℕ} {otp : Text} {before after : Option Code} {x : Option AuthException} (c : Code)
      → Guess later otp before x after
      → before ≡ some c
      → later ≤ c.expires_at
      → c.attempts < otp_max_attempts
      → e.bcrypt_compare otp c.otp_hash ≡ true
      → x ≡ none
  accepted c no_code h k l m = cc
  accepted c (late d h') h k l m = ground arith
  accepted c (used_up d h' k') h k l m = ground arith
  accepted c (wrong d h' k' m') h k l m = ground arith
  accepted c (right d h' k' m') h k l m = refl

  module _ (now : ℕ) (salt otp_code address : Text) (db : AuthDb) {user : User}
      (account : find_by_email (some address) db ≡ some user) where
    account_of-found : account_of salt address db ≡ (ok user, db)
    unfolding account_of pure
    account_of-found = gets_step _ _ db ∙ ap (λ k. k db) (unless_found-some _ _ account)

    send_otp_to_step :
        send_otp_to now salt otp_code address db
        ≡ (throw_if_recent now user.id >>= λ _. resend now salt otp_code address user) db
    unfolding send_otp_to
    send_otp_to_step = bind_ok _ _ db account_of-found

    throw_if_recent-cases :
        (throw_if_recent now user.id db ≡ (ok tt, db))
        ⊎ (throw_if_recent now user.id db ≡ (err otp_recently_sent, db))
    unfolding throw_if_recent ◌>>=◌
    throw_if_recent-cases = elim (Option-cases (find_active_otp user.id db)) [
      | inl missing ↦ inl (rw missing refl)
      | inr (row, stored) ↦ elim (Bool-cases (ltb (now - row.created_at) (60 * 1000))) [
        | inl recent ↦ inr (rw (stored, recent) refl)
        | inr old ↦ inl (rw (stored, old) refl)
      ]
    ]

    throw_if_recent-throws :
        (row : Otp)
        → find_active_otp user.id db ≡ some row
        → now - row.created_at < 60 * 1000
        → throw_if_recent now user.id db ≡ (err otp_recently_sent, db)
    unfolding throw_if_recent ◌>>=◌
    throw_if_recent-throws row stored recent = rw stored (ground arith)

    resend_otps :
        (resend now salt otp_code address user db).1.otps
        ≡ e.otp.insert
            (sent_code now salt otp_code user.id (without user.id db.otps))
            (without user.id db.otps)
    unfolding delete_otps create_otp ◌>>=◌
    resend_otps = refl

    resend_users : (resend now salt otp_code address user db).1.users ≡ db.users
    unfolding delete_otps create_otp ◌>>=◌
    resend_users = refl

    -- A code was sent less than a minute ago: nothing is sent, and nothing changes.
    pub send_otp_to_throttled :
        {row : Otp}
        → find_active_otp user.id db ≡ some row
        → now - row.created_at < 60 * 1000
        → send_otp_to now salt otp_code address db ≡ (err otp_recently_sent, db)
    send_otp_to_throttled {row} stored recent =
        send_otp_to_step ∙ bind_err _ _ db (throw_if_recent-throws row stored recent)

    pub send_otp_to-cases :
        (send_otp_to now salt otp_code address db ≡ resend now salt otp_code address user db)
        ⊎ (send_otp_to now salt otp_code address db ≡ (err otp_recently_sent, db))
    send_otp_to-cases = elim throw_if_recent-cases [
      | inl passes ↦ inl (send_otp_to_step ∙ bind_ok _ _ db passes)
      | inr throws ↦ inr (send_otp_to_step ∙ bind_err _ _ db throws)
    ]

    free_of : (x : Otp) → e.otp.Holds x (without user.id db.otps) → x.user_id ≢ user.id
    free_of x m h =
        let other = ((e.otp.Holds-delete x (otp_of user.id) db.otps).0 m).1 in
        cc (other, (==_iff x.user_id user.id).1 h)

    abbrev stored_code : Otp
    stored_code = sent_code now salt otp_code user.id (without user.id db.otps)

    -- Sending a code to an account that exists keeps the table at one code for each user at most, with at
    -- most five wrong guesses, also where it is refused or the mail fails.
    pub send_otp_to-IsOneCode :
        IsOneCode db.otps → IsOneCode (send_otp_to now salt otp_code address db).1.otps
    send_otp_to-IsOneCode inv = elim send_otp_to-cases [
      | inl resent ↦
          rw (resent, resend_otps)
            (insert-IsOneCode stored_code (without user.id db.otps) refl refl free_of
              (without-IsOneCode user.id db.otps inv))
      | inr throttled ↦ rw throttled inv
    ]

    resend-account :
        send_otp_to now salt otp_code address db ≡ resend now salt otp_code address user db
        → find_by_email (some address) (send_otp_to now salt otp_code address db).1 ≡ some user
    resend-account resent =
        let users : (send_otp_to now salt otp_code address db).1.users ≡ db.users =
          rw resent resend_users in
        ap (λ t. find_by_email (some address) (record db { users = t })) users ∙ account

    resend-code_of :
        send_otp_to now salt otp_code address db ≡ resend now salt otp_code address user db
        → code_of user.id (send_otp_to now salt otp_code address db).1
          ≡ code_view (some stored_code)
    resend-code_of resent =
        let latest : latest_of user.id (send_otp_to now salt otp_code address db).1.otps
            ≡ some stored_code =
          rw (resent, resend_otps)
            (latest_of-insert stored_code (without user.id db.otps) free_of) in
        ap code_view latest

    -- Where `sendOtp` to an account that exists succeeds, the code signs the account in for the five minutes
    -- that it lives, where the table had one code for each user at most and nothing else came in between.
    pub verify_otp-send_otp_to :
        (later : ℕ) (hash : Text)
        → IsOneCode db.otps
        → later ≤ now + 5 * 60 * 1000
        → (send_otp_to now salt otp_code address db).0 ≡ ok tt
        → let sent = send_otp_to now salt otp_code address db in
          refused (verify_otp later hash address otp_code sent.1).0 ≡ none
    verify_otp-send_otp_to later hash inv h sent = elim send_otp_to-cases [
      | inr throttled ↦ cc (throttled, sent)
      | inl resent ↦
          accepted _
            (verify_otp-Guess later hash address otp_code _ (resend-account resent)
              (send_otp_to-IsOneCode inv))
            (resend-code_of resent) h (omega arith) (e.bcrypt_compare-hash salt otp_code)
    ]
