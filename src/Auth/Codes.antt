-- ===== src/Auth/Codes.antt =====
-- The sign-in by a code that is mailed (src/auth/auth.service.ts: sendOtp, verifyOtp), and the tokens
-- that every sign-in returns (getTokensData). A request reads the clock once; the codes and the hashes
-- are what the random generators give.
use esim_backend.Base.{
  ℕ, not, Option, none, some, ⊤, pure, throw, gets, throw_if, unless_found, ◌+◌, ◌-◌, ◌*◌, ◌>>=◌,
  ◌>>◌, leb, ltb, if◌then◌else◌,
}
use esim_backend.Base.Text.{Text}
use esim_backend.Auth.Data.{
  AuthEnv, AuthService, User, Otp, active, user_role, find_user, find_by_email, mail, send_otp,
  email_not_found, user_creation_failed, otp_recently_sent, otp_not_found, otp_expired,
  otp_max_attempts_exceeded, otp_invalid,
}
use esim_backend.Auth.Users.{CreateUserDto, keep, create_user}
use esim_backend.Auth.Sessions.{
  create_session, find_active_otp, delete_otps, increment_attempts, create_otp,
}

abbrev pub otp_ttl_ms : ℕ
otp_ttl_ms = 5 * 60 * 1000

abbrev pub otp_max_attempts : ℕ
otp_max_attempts = 5

pub record Tokens : Type 0 where
  pub token : Text
  pub refresh_token : Text
  pub token_expires : ℕ

pub record LoginResponse : Type 0 where
  pub tokens : Tokens
  pub user : User

-- What `sendOtp` creates for an unknown address.
abbrev pub new_account : Text → CreateUserDto
new_account address = record {
  email = some address;
  password = none;
  first_name = none;
  last_name = none;
  phone_number = none;
  photo = keep;
  role = some user_role;
  status = some active;
  provider = none;
  social_id = none;
}

module _ ⦃e : AuthEnv⦄ where
  unfoldable pub get_tokens_data : ℕ → ℕ → Option ℕ → ℕ → Text → Tokens
  get_tokens_data now id role session_id hash = record {
    token =
        e.auth_jwt.sign now e.expires (record { id = id; role = role; session_id = session_id });
    refresh_token =
        e.refresh_jwt.sign now e.refresh_expires (record { session_id = session_id; hash = hash });
    token_expires = now + e.expires;
  }

  -- the end of every sign-in: a session and its tokens
  unfoldable pub sign_in : ℕ → Text → User → AuthService LoginResponse
  unfolding get_tokens_data create_session
  sign_in now hash user = do
    session ← create_session user.id hash
    pure (record { tokens = get_tokens_data now user.id user.role session.id hash; user = user })

  -- the account of an address, which is created where there is none
  unfoldable pub account_of : Text → Text → AuthService User
  unfolding create_user
  account_of salt address = do
    existing ← gets (find_by_email (some address))
    unless_found existing
        (do
          created ← create_user salt (new_account address)
          row ← gets (find_user created.id)
          unless_found row (throw user_creation_failed) pure)
        pure

  -- the guard on a code that was sent less than a minute ago
  unfoldable pub throw_if_recent : ℕ → ℕ → AuthService ⊤
  throw_if_recent now user_id = do
    existing ← gets (find_active_otp user_id)
    unless_found existing (pure tt)
        λ otp. throw_if (ltb (now - otp.created_at) (60 * 1000)) otp_recently_sent

  unfoldable pub send_otp_to : ℕ → Text → Text → Text → AuthService ⊤
  unfolding account_of throw_if_recent delete_otps create_otp
  send_otp_to now salt otp_code address = do
    user ← account_of salt address
    throw_if_recent now user.id
    delete_otps user.id
    create_otp user.id (e.bcrypt_hash salt otp_code) (now + otp_ttl_ms) now
    mail (send_otp address otp_code)

  -- the checks of `verifyOtp` on the code that is stored
  unfoldable pub check_otp : ℕ → Text → User → Text → Otp → AuthService LoginResponse
  unfolding delete_otps increment_attempts sign_in
  check_otp now hash user otp row =
      if ltb row.expires_at now
      then delete_otps user.id >> throw otp_expired
      else if leb otp_max_attempts row.attempts
      then delete_otps user.id >> throw otp_max_attempts_exceeded
      else if not (e.bcrypt_compare otp row.otp_hash)
      then increment_attempts row.id >> throw otp_invalid
      else delete_otps user.id >> sign_in now hash user

  unfoldable pub verify_otp : ℕ → Text → Text → Text → AuthService LoginResponse
  unfolding check_otp
  verify_otp now hash address otp = do
    account ← gets (find_by_email (some address))
    unless_found account (throw email_not_found) λ user. do
      stored ← gets (find_active_otp user.id)
      unless_found stored (throw otp_not_found) (check_otp now hash user otp)
