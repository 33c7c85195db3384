-- ===== src/Auth/Attempts.antt =====
-- Sequences of guesses at the code of one account.
use esim_backend.Base.{
  ℕ, ◌+◌, ◌-◌, ◌≤◌, ◌≡◌, ◌≢◌, refl, ap, ◌∙◌, inl, inr, Option, none, some, List, [], ◌∷◌, Result,
  arith, Option-cases, ◌>>=◌, ==_iff,
}
use esim_backend.Base.Text.{Text}
use esim_backend.Auth.Data.{
  AuthEnv, AuthDb, AuthException, User, Otp, find_by_email, otp_invalid, otp_not_found,
}
use esim_backend.Auth.Sessions.{find_active_otp}
use esim_backend.Auth.Codes.{LoginResponse, otp_max_attempts, check_otp, verify_otp}
use esim_backend.Auth.OneCode.{
  IsOneCode, latest_of, without-IsOneCode, latest_of-without_ne, bump-IsOneCode, latest_of-bump_ne,
}
use esim_backend.Auth.Guesses.{
  Code, Guess, no_code, late, used_up, wrong, right, code_view, code_of, refused, Checked, was_late,
  was_used_up, was_wrong, was_right, check_otp-Checked, verify_otp-none, verify_otp-some,
  verify_otp-Guess,
}

-- One request of `verifyOtp`: the clock, the hash of the session it may open, and the guess.
pub record Attempt : Type 0 where
  pub now : ℕ
  pub hash : Text
  pub otp : Text

abbrev pub is_invalid : Option AuthException → ℕ
is_invalid (some otp_invalid) = 1
is_invalid _ = 0

-- The wrong guesses that a code has left.
abbrev pub guesses_left : Option Code → ℕ
guesses_left none = 0
guesses_left (some c) = otp_max_attempts - c.attempts

module _ ⦃e : AuthEnv⦄ where
  -- How many guesses of a sequence are answered that the code is wrong.
  unfoldable pub wrong_guesses : Text → List Attempt → AuthDb → ℕ
  wrong_guesses address [] db = 0
  wrong_guesses address (a ∷ as') db =
      let (r, db') = verify_otp a.now a.hash address a.otp db in
      is_invalid (refused r) + wrong_guesses address as' db'

  -- A wrong guess uses one of those that were left; no guess gives any back.
  Guess-left :
      {now : ℕ} {otp : Text} {before after : Option Code} {x : Option AuthException}
      → Guess now otp before x after
      → is_invalid x + guesses_left after ≤ guesses_left before
  Guess-left no_code = omega arith
  Guess-left (late c h) = omega arith
  Guess-left (used_up c h k) = omega arith
  Guess-left (wrong c h k m) = omega arith
  Guess-left (right c h k m) = omega arith

  check_otp_users :
      (now : ℕ) (hash : Text) (user : User) (otp : Text) (row : Otp) (db : AuthDb)
      → (check_otp now hash user otp row db).1.users ≡ db.users
  unfolding check_otp ◌>>=◌
  check_otp_users now hash user otp row db = ground arith

  module _ (now : ℕ) (hash address otp : Text) (db : AuthDb) {user : User}
      (account : find_by_email (some address) db ≡ some user) where
    verify_otp_users : (verify_otp now hash address otp db).1.users ≡ db.users
    verify_otp_users = elim (Option-cases (find_active_otp user.id db)) [
      | inl missing ↦ rw (verify_otp-none now hash address otp db account missing) refl
      | inr (row, stored) ↦
          rw (verify_otp-some now hash address otp db account stored)
            (check_otp_users now hash user otp row db)
    ]

    same_account : find_by_email (some address) (verify_otp now hash address otp db).1 ≡ some user
    same_account =
        ap (λ t. find_by_email (some address) (record db { users = t })) verify_otp_users ∙ account

    Checked-IsOneCode :
        (row : Otp) (out : Result AuthException LoginResponse × AuthDb)
        → IsOneCode db.otps
        → find_active_otp user.id db ≡ some row
        → Checked now otp user.id row db out
        → IsOneCode out.1.otps
    Checked-IsOneCode row out inv stored (was_late h r t) =
        rw t (without-IsOneCode user.id db.otps inv)
    Checked-IsOneCode row out inv stored (was_used_up h k r t) =
        rw t (without-IsOneCode user.id db.otps inv)
    Checked-IsOneCode row out inv stored (was_right h k m r t) =
        rw t (without-IsOneCode user.id db.otps inv)
    Checked-IsOneCode row out inv stored (was_wrong h k m r t) =
        rw t (bump-IsOneCode row db.otps (e.otp.find_latest-Holds _ _ _ stored) k inv)

    pub verify_otp-IsOneCode :
        IsOneCode db.otps → IsOneCode (verify_otp now hash address otp db).1.otps
    verify_otp-IsOneCode inv = elim (Option-cases (find_active_otp user.id db)) [
      | inl missing ↦ rw (verify_otp-none now hash address otp db account missing) inv
      | inr (row, stored) ↦
          rw (verify_otp-some now hash address otp db account stored)
            (Checked-IsOneCode row _ inv stored (check_otp-Checked now hash user otp row db))
    ]

    Checked-others :
        (v : ℕ) (row : Otp) (out : Result AuthException LoginResponse × AuthDb)
        → IsOneCode db.otps
        → v ≢ user.id
        → find_active_otp user.id db ≡ some row
        → Checked now otp user.id row db out
        → latest_of v out.1.otps ≡ latest_of v db.otps
    Checked-others v row out inv ne stored (was_late h r t) =
        rw t (latest_of-without_ne user.id v db.otps inv ne)
    Checked-others v row out inv ne stored (was_used_up h k r t) =
        rw t (latest_of-without_ne user.id v db.otps inv ne)
    Checked-others v row out inv ne stored (was_right h k m r t) =
        rw t (latest_of-without_ne user.id v db.otps inv ne)
    Checked-others v row out inv ne stored (was_wrong h k m r t) =
        rw t (latest_of-bump_ne row v db.otps (e.otp.find_latest-Holds _ _ _ stored) inv other)
      where
        other : v ≢ row.user_id
        other h = ne (h ∙ (==_iff row.user_id user.id).0 (e.otp.find_latest_passes _ _ _ stored))

    -- A guess at the code of an account leaves the codes of the other users as they were, where the table
    -- has one code for each user at most.
    pub verify_otp_others :
        (v : ℕ)
        → IsOneCode db.otps
        → v ≢ user.id
        → code_of v (verify_otp now hash address otp db).1 ≡ code_of v db
    verify_otp_others v inv ne = elim (Option-cases (find_active_otp user.id db)) [
      | inl missing ↦ rw (verify_otp-none now hash address otp db account missing) refl
      | inr (row, stored) ↦ rw (verify_otp-some now hash address otp db account stored) (
          ap code_view
            (Checked-others v row _ inv ne stored (check_otp-Checked now hash user otp row db)))
    ]

  add_left : (n m k l : ℕ) → n + k ≤ l → m ≤ k → n + m ≤ l
  add_left n m k l h j = omega arith

  wrong_guesses_left :
      (address : Text) (attempts : List Attempt) (db : AuthDb) {user : User}
      → find_by_email (some address) db ≡ some user
      → IsOneCode db.otps
      → wrong_guesses address attempts db ≤ guesses_left (code_of user.id db)
  unfolding wrong_guesses
  wrong_guesses_left address [] db account inv = omega arith
  wrong_guesses_left address (a ∷ attempts) db {user = user} account inv =
      add_left _ _ _ _ (Guess-left (verify_otp-Guess a.now a.hash address a.otp db account inv)) (
        wrong_guesses_left address attempts _ (same_account a.now a.hash address a.otp db account)
          (verify_otp-IsOneCode a.now a.hash address a.otp db account inv))

  guesses_left_bound : (c : Option Code) → guesses_left c ≤ otp_max_attempts
  guesses_left_bound none = omega arith
  guesses_left_bound (some c) = omega arith

  -- In any sequence of guesses for one account, at whatever times, with no new code sent in between, at
  -- most five are answered that the code is wrong, where the table has one code for each user at most.
  pub wrong_guesses_bound :
      (address : Text) (attempts : List Attempt) (db : AuthDb) {user : User}
      → find_by_email (some address) db ≡ some user
      → IsOneCode db.otps
      → wrong_guesses address attempts db ≤ 5
  wrong_guesses_bound address attempts db account inv =
      omega (arith, wrong_guesses_left address attempts db account inv, guesses_left_bound _)

  right_used :
      {now : ℕ} {otp : Text} {before after : Option Code} {x : Option AuthException}
      → Guess now otp before x after
      → x ≡ none
      → after ≡ none
  right_used no_code h = refl
  right_used (late c k) h = cc
  right_used (used_up c k l) h = cc
  right_used (wrong c k l m) h = cc
  right_used (right c k l m) h = refl

  absent_refused :
      {now : ℕ} {otp : Text} {before after : Option Code} {x : Option AuthException}
      → Guess now otp before x after
      → before ≡ none
      → x ≡ some otp_not_found
  absent_refused no_code h = refl
  absent_refused (late c k) h = cc h
  absent_refused (used_up c k l) h = cc h
  absent_refused (wrong c k l m) h = cc h
  absent_refused (right c k l m) h = cc h

  -- A code that signed its user in is spent: the next guess for the account, at any time and the same code
  -- included, is answered that there is no code, where the table has one code for each user at most.
  pub verify_otp_once :
      (now later : ℕ) (hash hash' address otp otp' : Text) (db : AuthDb) {user : User}
      → find_by_email (some address) db ≡ some user
      → IsOneCode db.otps
      → let out = verify_otp now hash address otp db in
        refused out.0 ≡ none
        → refused (verify_otp later hash' address otp' out.1).0 ≡ some otp_not_found
  verify_otp_once now later hash hash' address otp otp' db account inv accepted =
      let spent = right_used (verify_otp-Guess now hash address otp db account inv) accepted in
      let account' = same_account now hash address otp db account in
      let inv' = verify_otp-IsOneCode now hash address otp db account inv in
      absent_refused (verify_otp-Guess later hash' address otp' _ account' inv') spent
