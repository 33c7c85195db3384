-- ===== src/Auth/Login.antt =====
-- The sign-in by password or by a social account, and the refresh and the end of a session
-- (src/auth/auth.service.ts: validateLogin, validateSocialLogin, refreshToken, logout).
use esim_backend.Base.{
  ℕ, Bool, true, false, not, ◌&&◌, Option, none, some, ⊤, pure, throw, gets, throw_if, unless_found,
  ◌>>=◌, ◌>>◌, ◌==◌, if◌then◌else◌,
}
use esim_backend.Base.Text.{Text, to_lower}
use esim_backend.Auth.Data.{
  AuthEnv, AuthService, AuthProvider, User, active, user_role, same_provider, given, find_user,
  find_by_email, find_by_social_id, email_not_found, need_login_via_provider, incorrect_password,
  user_not_found, unauthorized,
}
use esim_backend.Auth.Users.{CreateUserDto, keep, whole_user, create_user, update_user}
use esim_backend.Auth.Sessions.{update_by_hash, delete_sessions}
use esim_backend.Auth.Codes.{Tokens, LoginResponse, get_tokens_data, sign_in}

pub record SocialData : Type 0 where
  pub id : Text
  pub email : Option Text
  pub first_name : Option Text
  pub last_name : Option Text

-- What `validateSocialLogin` creates for an unknown account.
abbrev pub social_account : AuthProvider → SocialData → Option Text → CreateUserDto
social_account provider social address = record {
  email = address;
  password = none;
  first_name = social.first_name;
  last_name = social.last_name;
  phone_number = none;
  photo = keep;
  role = some user_role;
  status = some active;
  provider = some provider;
  social_id = some social.id;
}

abbrev pub is_some : {A : Type 0} → Option A → Bool
is_some none = false
is_some (some a) = true

-- `socialData.email?.toLowerCase()`
abbrev pub lower_case : Option Text → Option Text
lower_case none = none
lower_case (some a) = some (to_lower a)

module _ ⦃e : AuthEnv⦄ where
  -- `if (!await bcrypt.compare(plain, stored))`
  abbrev pub matches : Text → Text → Bool
  matches plain stored = e.bcrypt_compare plain stored

  unfoldable pub validate_login : ℕ → Text → Text → Text → AuthService LoginResponse
  unfolding sign_in
  validate_login now hash address password = do
    account ← gets (find_by_email (some address))
    unless_found account (throw email_not_found) λ user. do
      throw_if (not (same_provider user.provider AuthProvider.email))
          (need_login_via_provider user.provider)
      unless_found (given user.password) (throw incorrect_password) λ stored. do
        throw_if (not (matches password stored)) incorrect_password
        sign_in now hash user

  -- A social account that is known takes the e-mail of the provider where no user has it.
  unfoldable pub known_social : Text → User → Option Text → Option User → AuthService (Option User)
  unfolding update_user
  known_social salt user address by_email = do
    let address' = if is_some (given address) && not (is_some by_email) then address else user.email
    let changed = record user { email = address' }
    update_user salt user.id (whole_user changed)
    pure (some changed)

  unfoldable pub new_social :
      Text → AuthProvider → SocialData → Option Text → AuthService (Option User)
  unfolding create_user
  new_social salt provider social address = do
    created ← create_user salt (social_account provider social address)
    gets (find_user created.id)

  unfoldable pub validate_social_login :
      ℕ → Text → Text → AuthProvider → SocialData → AuthService LoginResponse
  unfolding known_social new_social sign_in
  validate_social_login now salt hash provider social = do
    let address = lower_case social.email
    by_email ← gets (find_by_email address)
    by_social ← gets (find_by_social_id (some social.id) provider)
    account ←
        unless_found by_social
          (unless_found by_email
            (unless_found (given (some social.id)) (pure none)
              λ id. new_social salt provider social address)
            λ user. pure (some user))
          λ user. known_social salt user address by_email
    unless_found account (throw user_not_found) λ user. sign_in now hash user

  -- `session_id` and `hash` come from a refresh token; the session's hash is replaced at once.
  unfoldable pub refresh_token : ℕ → Text → ℕ → Text → AuthService Tokens
  unfolding update_by_hash get_tokens_data
  refresh_token now new_hash session_id hash = do
    session ← update_by_hash session_id hash new_hash
    unless_found session (throw unauthorized) λ s. do
      account ← gets (find_user s.user_id)
      unless_found account (throw unauthorized) λ user.
          unless_found user.role (throw unauthorized)
            λ role. pure (get_tokens_data now s.user_id (some role) s.id new_hash)

  unfoldable pub logout : ℕ → AuthService ⊤
  unfolding delete_sessions
  logout session_id = delete_sessions λ s. s.id == session_id
