-- ===== src/Auth/Profile.antt =====
-- The registration, its confirmation, the passwords and the profile (src/auth/auth.service.ts: register,
-- confirmEmail, confirmNewEmail, forgotPassword, resetPassword, update, updateProfile).
use esim_backend.Base.{
  ℕ, ◌+◌, Bool, false, not, Option, none, some, ⊤, pure, throw, gets, throw_if, unless_found, when,
  ◌>>=◌, ◌>>◌, ◌==◌,
}
use esim_backend.Base.Text.{Text}
use esim_backend.Auth.Data.{
  AuthEnv, AuthService, User, active, inactive, user_role, given, has_text, find_user,
  find_by_email, mail, user_sign_up, forgot_password, confirm_new_email, invalid_hash, not_found,
  hash_not_found, email_not_exists, user_not_found, missing_old_password, incorrect_old_password,
  email_exists,
}
use esim_backend.Auth.Users.{
  Patch, CreateUserDto, UpdateUserDto, keep, put, whole_user, create_user, update_user,
}
use esim_backend.Auth.Sessions.{of_user, is_other, delete_sessions}

pub record AuthUpdateDto : Type 0 where
  pub photo : Patch ℕ
  pub first_name : Patch Text
  pub last_name : Patch Text
  pub phone_number : Patch Text
  pub email : Option Text
  pub password : Option Text
  pub old_password : Option Text

pub record AuthUpdateProfileDto : Type 0 where
  pub photo : Patch ℕ
  pub first_name : Patch Text
  pub last_name : Patch Text
  pub phone_number : Patch Text

-- What is left of the payload of `update` for `usersService.update`.
abbrev pub profile_of : AuthUpdateDto → UpdateUserDto
profile_of dto = record {
  email = keep;
  password = dto.password;
  first_name = dto.first_name;
  last_name = dto.last_name;
  phone_number = dto.phone_number;
  photo = dto.photo;
  role = none;
  status = none;
  provider = none;
  social_id = keep;
}

abbrev pub profile_only : AuthUpdateProfileDto → UpdateUserDto
profile_only dto = record {
  email = keep;
  password = none;
  first_name = dto.first_name;
  last_name = dto.last_name;
  phone_number = dto.phone_number;
  photo = dto.photo;
  role = none;
  status = none;
  provider = none;
  social_id = keep;
}

abbrev pub registered : Text → Text → Text → Text → CreateUserDto
registered address password first_name last_name = record {
  email = some address;
  password = some password;
  first_name = some first_name;
  last_name = some last_name;
  phone_number = none;
  photo = keep;
  role = some user_role;
  status = some inactive;
  provider = none;
  social_id = none;
}

abbrev pub has_status : ℕ → Option ℕ → Bool
has_status id none = false
has_status id (some s) = s == id

module _ ⦃e : AuthEnv⦄ where
  -- the token that confirms an address
  unfoldable pub confirm_token : ℕ → ℕ → Option Text → Text
  confirm_token now user_id address =
      e.confirm_email_jwt.sign now e.confirm_email_expires
        (record { confirm_email_user_id = user_id; new_email = address })

  unfoldable pub register : ℕ → Text → Text → Text → Text → Text → AuthService ⊤
  unfolding confirm_token create_user
  register now salt address password first_name last_name = do
    user ← create_user salt (registered address password first_name last_name)
    mail (user_sign_up address (confirm_token now user.id none))

  unfoldable pub confirm_email : ℕ → Text → Text → AuthService ⊤
  unfolding update_user
  confirm_email now salt hash =
      unless_found (e.confirm_email_jwt.verify now hash) (throw invalid_hash) λ claims. do
        account ← gets (find_user claims.confirm_email_user_id)
        unless_found account (throw not_found) λ user. do
          throw_if (not (has_status inactive user.status)) not_found
          update_user salt user.id (whole_user (record user { status = some active }))

  -- A token with no new address leaves the address alone.
  unfoldable pub confirm_new_address : ℕ → Text → Text → AuthService ⊤
  unfolding update_user
  confirm_new_address now salt hash =
      unless_found (e.confirm_email_jwt.verify now hash) (throw invalid_hash) λ claims. do
        account ← gets (find_user claims.confirm_email_user_id)
        unless_found account (throw not_found) λ user.
            update_user salt user.id (record (whole_user (record user { status = some active })) {
              email = elim claims.new_email [ none ↦ keep | some a ↦ put (some a) ];
            })

  -- the token that `forgotPassword` mails
  unfoldable pub forgot_token : ℕ → ℕ → Text
  forgot_token now user_id = e.forgot_jwt.sign now e.forgot_expires user_id

  unfoldable pub forgot : ℕ → Text → AuthService ⊤
  unfolding forgot_token
  forgot now address = do
    account ← gets (find_by_email (some address))
    unless_found account (throw email_not_exists)
        λ user. mail (forgot_password address (forgot_token now user.id) (now + e.forgot_expires))

  unfoldable pub reset_password : ℕ → Text → Text → Text → AuthService ⊤
  unfolding delete_sessions update_user
  reset_password now salt hash password =
      unless_found (e.forgot_jwt.verify now hash) (throw invalid_hash) λ user_id. do
        account ← gets (find_user user_id)
        unless_found account (throw hash_not_found) λ user. do
          delete_sessions (of_user user.id)
          update_user salt user.id (whole_user (record user { password = some password }))

  -- the part of `update` on a new password
  unfoldable pub check_old_password : User → ℕ → AuthUpdateDto → AuthService ⊤
  unfolding delete_sessions
  check_old_password user session_id dto = unless_found (given dto.password) (pure tt) λ password.
      unless_found (given dto.old_password) (throw missing_old_password) λ old.
        unless_found (given user.password) (throw incorrect_old_password) λ stored. do
          throw_if (not (e.bcrypt_compare old stored)) incorrect_old_password
          delete_sessions (is_other user.id session_id)

  -- the part of `update` on a new address, which is stored only once it is confirmed
  unfoldable pub ask_new_email : ℕ → User → AuthUpdateDto → AuthService ⊤
  unfolding confirm_token
  ask_new_email now user dto = unless_found (given dto.email) (pure tt) λ address.
      when (not (has_text address user.email)) do
        other ← gets (find_by_email (some address))
        throw_if (elim other [ none ↦ false | some u ↦ not (u.id == user.id) ]) email_exists
        mail (confirm_new_email address (confirm_token now user.id (some address)))

  unfoldable pub update_account : ℕ → Text → ℕ → ℕ → AuthUpdateDto → AuthService (Option User)
  unfolding check_old_password ask_new_email update_user
  update_account now salt user_id session_id dto = do
    account ← gets (find_user user_id)
    unless_found account (throw user_not_found) λ user. do
      check_old_password user session_id dto
      ask_new_email now user dto
      update_user salt user_id (profile_of dto)
      gets (find_user user_id)

  unfoldable pub update_profile : Text → ℕ → AuthUpdateProfileDto → AuthService (Option User)
  unfolding update_user
  update_profile salt user_id dto = do
    account ← gets (find_user user_id)
    unless_found account (throw user_not_found)
        λ user. do update_user salt user_id (profile_only dto); gets (find_user user_id)
