-- ===== src/Auth/Data.antt =====
-- The rows of the accounts (src/users/domain/user.ts, src/session/domain/session.ts,
-- src/otp/domain/otp.ts), the exceptions, and what the services call outside the modelled code:
-- TypeORM, bcrypt, the signed tokens, the mail service and the stored files. Times are milliseconds.
-- The bookkeeping dates of the rows are left out, but for an OTP's `createdAt`.
use esim_backend.Base.{
  ℕ, ◌+◌, ◌<◌, ◌≡◌, Bool, true, false, ◌||◌, ◌&&◌, ◌∷◌, Option, none, some, ⊤, Action, ◌==◌,
}
use esim_backend.Base.Text.{Text, eqb}
use esim_backend.Storage.Rows.{RowStore, find_one}

-- `AuthProvidersEnum`
pub data AuthProvider : Type 0 where
  email facebook google apple : AuthProvider

abbrev pub same_provider : AuthProvider → AuthProvider → Bool
same_provider email email = true
same_provider facebook facebook = true
same_provider google google = true
same_provider apple apple = true
same_provider _ _ = false

-- `StatusEnum` and `RoleEnum`
abbrev pub active : ℕ
active = 1

abbrev pub inactive : ℕ
inactive = 2

abbrev pub is_status : ℕ → Bool
is_status id = id == active || id == inactive

abbrev pub admin_role : ℕ
admin_role = 1

abbrev pub user_role : ℕ
user_role = 2

abbrev pub is_role : ℕ → Bool
is_role id = id == admin_role || id == user_role

pub record User : Type 0 where
  pub id : ℕ
  pub email : Option Text
  pub password : Option Text
  pub provider : AuthProvider
  pub social_id : Option Text
  pub first_name : Option Text
  pub last_name : Option Text
  pub phone_number : Option Text
  pub photo : Option ℕ
  pub role : Option ℕ
  pub status : Option ℕ

pub record Session : Type 0 where
  pub id : ℕ
  pub user_id : ℕ
  pub hash : Text

pub record Otp : Type 0 where
  pub id : ℕ
  pub user_id : ℕ
  pub otp_hash : Text
  pub expires_at : ℕ
  pub attempts : ℕ
  pub created_at : ℕ

-- The keys of the `errors` that the exceptions carry; the last ones are the repository's `Error`, and
-- whatever the mail service throws.
pub data AuthException : Type 0 where
  email_not_found email_not_exists email_already_exists email_exists : AuthException
  need_login_via_provider : AuthProvider → AuthException
  incorrect_password missing_old_password incorrect_old_password : AuthException
  invalid_hash hash_not_found not_found user_not_found unauthorized : AuthException
  image_not_exists role_not_exists status_not_exists user_creation_failed : AuthException
  otp_recently_sent otp_not_found otp_expired otp_max_attempts_exceeded otp_invalid : AuthException
  user_row_missing : AuthException
  mail_failed : Text → AuthException

-- The e-mails of src/mail/mail.service.ts.
pub data Mail : Type 0 where
  user_sign_up : Text → Text → Mail
  forgot_password : Text → Text → ℕ → Mail
  confirm_new_email : Text → Text → Mail
  send_otp : Text → Text → Mail

-- `jwtService` with one of the secrets: a token that was signed at `now` is read until it expires.
pub record Jwt (Claims : Type 0) : Type 0 where
  pub sign : ℕ → ℕ → Claims → Text
  pub verify : ℕ → Text → Option Claims
  pub verify-sign :
      (now expires_in later : ℕ) (c : Claims)
      → later < now + expires_in
      → verify later (sign now expires_in c) ≡ some c

pub record ConfirmClaims : Type 0 where
  pub confirm_email_user_id : ℕ
  pub new_email : Option Text

pub record AccessClaims : Type 0 where
  pub id : ℕ
  pub role : Option ℕ
  pub session_id : ℕ

pub record RefreshClaims : Type 0 where
  pub session_id : ℕ
  pub hash : Text

-- What the services are given.
pub record AuthEnv : Type 1 where
  pub user : RowStore User λ u. u.id
  pub session : RowStore Session λ s. s.id
  pub otp : RowStore Otp λ o. o.id
  pub Outbox : Type 0
  pub send : Mail → Action AuthException Outbox ⊤
  -- `bcrypt.hash` (with its salt) and `bcrypt.compare`
  pub bcrypt_hash : Text → Text → Text
  pub bcrypt_compare : Text → Text → Bool
  pub bcrypt_compare-hash :
      (salt plain : Text) → bcrypt_compare plain (bcrypt_hash salt plain) ≡ true
  -- `filesService.findById`
  pub find_file : ℕ → Option ℕ
  pub confirm_email_jwt : Jwt ConfirmClaims
  pub forgot_jwt : Jwt ℕ
  pub auth_jwt : Jwt AccessClaims
  pub refresh_jwt : Jwt RefreshClaims
  -- the durations of the configuration
  pub expires : ℕ
  pub refresh_expires : ℕ
  pub forgot_expires : ℕ
  pub confirm_email_expires : ℕ

-- The state: what each table holds, and the mail server.
pub record Accounts (e : AuthEnv) : Type 0 where
  pub users : e.user.Table
  pub sessions : e.session.Table
  pub otps : e.otp.Table
  pub outbox : e.Outbox

abbrev pub AuthDb : ⦃e : AuthEnv⦄ → Type 0
AuthDb ⦃e⦄ = Accounts e

abbrev pub AuthService : ⦃e : AuthEnv⦄ → Type 0 → Type 0
AuthService ⦃e⦄ A = Action AuthException AuthDb A

-- `if (text)`: the empty text counts as none.
abbrev pub given : Option Text → Option Text
given (some (c ∷ cs)) = some (c ∷ cs)
given _ = none

abbrev pub has_text : Text → Option Text → Bool
has_text t none = false
has_text t (some s) = eqb t s

module _ ⦃e : AuthEnv⦄ where
  -- `usersRepository.findById`, `findByEmail`, `findBySocialIdAndProvider`
  abbrev pub find_user : ℕ → AuthDb → Option User
  find_user id db = find_one e.user (λ u. u.id == id) db.users

  abbrev pub find_by_email : Option Text → AuthDb → Option User
  find_by_email address db = elim (given address) [
    | none ↦ none
    | some a ↦ find_one e.user (λ u. has_text a u.email) db.users
  ]

  abbrev pub find_by_social_id : Option Text → AuthProvider → AuthDb → Option User
  find_by_social_id social provider db = elim (given social) [
    | none ↦ none
    | some s ↦
        find_one e.user (λ u. has_text s u.social_id && same_provider provider u.provider) db.users
  ]

  abbrev pub mail : Mail → AuthService ⊤
  mail m db = let (r, outbox) = e.send m db.outbox in (r, record db { outbox = outbox })
