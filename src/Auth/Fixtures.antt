-- ===== src/Auth/Fixtures.antt =====
-- Accounts in lists, with a readable stand-in for bcrypt and the tokens: every law of `AuthEnv` holds.
use esim_backend.Base.{
  ℕ, ◌+◌, ◌<◌, ◌≡◌, refl, Option, none, some, true, List, [], ◌∷◌, ok, arith, ltb, if◌then◌else◌,
}
use esim_backend.Base.Text.{Text, text, eqb, eqb_iff}
use esim_backend.Storage.RowLists.{row_store}
use esim_backend.Auth.Data.{
  AuthEnv, AuthDb, AuthProvider, ConfirmClaims, AccessClaims, RefreshClaims, Jwt, User, Session,
  Mail,
}

-- A token is a list: the end of its life, and the claims.

module _ {C : Type 0} (write : C → Text) (read : Text → Option C)
    (read-write : (c : C) → read (write c) ≡ some c) where
  abbrev verify_with : ℕ → Text → Option C
  verify_with later [] = none
  verify_with later (end ∷ rest) = if ltb later end then read rest else none

  pub verify_with_sign :
      (now expires_in later : ℕ) (c : C)
      → later < now + expires_in
      → verify_with later ((now + expires_in) ∷ write c) ≡ some c
  verify_with_sign now expires_in later c h = ground (arith, read-write c)

  abbrev pub jwt : Jwt C
  jwt = record {
    sign = λ now expires_in c. (now + expires_in) ∷ write c;
    verify = verify_with;
    verify-sign = verify_with_sign;
  }

abbrev write_confirm : ConfirmClaims → Text
write_confirm c = elim c.new_email [
  | none ↦ c.confirm_email_user_id ∷ []
  | some a ↦ c.confirm_email_user_id ∷ 1 ∷ a
]

abbrev read_confirm : Text → Option ConfirmClaims
read_confirm [] = none
read_confirm (id ∷ []) = some (record { confirm_email_user_id = id; new_email = none })
read_confirm (id ∷ n ∷ a) = some (record { confirm_email_user_id = id; new_email = some a })

pub read_confirm-write : (c : ConfirmClaims) → read_confirm (write_confirm c) ≡ some c
read_confirm-write c = ground arith

abbrev write_id : ℕ → Text
write_id id = id ∷ []

abbrev read_id : Text → Option ℕ
read_id [] = none
read_id (id ∷ rest) = some id

abbrev write_access : AccessClaims → Text
write_access c = elim c.role [
  | none ↦ c.id ∷ c.session_id ∷ []
  | some r ↦ c.id ∷ c.session_id ∷ r ∷ []
]

abbrev read_access : Text → Option AccessClaims
read_access (id ∷ session_id ∷ []) = some (record { id = id; role = none; session_id = session_id })
read_access (id ∷ session_id ∷ r ∷ rest) =
    some (record { id = id; role = some r; session_id = session_id })
read_access _ = none

pub read_access-write : (c : AccessClaims) → read_access (write_access c) ≡ some c
read_access-write c = ground arith

abbrev write_refresh : RefreshClaims → Text
write_refresh c = c.session_id ∷ c.hash

abbrev read_refresh : Text → Option RefreshClaims
read_refresh [] = none
read_refresh (id ∷ hash) = some (record { session_id = id; hash = hash })

pub eqb_self : (salt plain : Text) → eqb plain plain ≡ true
eqb_self salt plain = (eqb_iff plain plain).1 refl

instance abbrev pub local : AuthEnv
local = record {
  user = row_store λ u. u.id;
  session = row_store λ s. s.id;
  otp = row_store λ o. o.id;
  Outbox = List Mail;
  send = λ m sent. (ok tt, m ∷ sent);
  bcrypt_hash = λ salt plain. plain;
  bcrypt_compare = eqb;
  bcrypt_compare-hash = eqb_self;
  find_file = λ id. none;
  confirm_email_jwt = jwt write_confirm read_confirm read_confirm-write;
  forgot_jwt = jwt write_id read_id (λ c. refl);
  auth_jwt = jwt write_access read_access read_access-write;
  refresh_jwt = jwt write_refresh read_refresh (λ c. refl);
  expires = 900000;
  refresh_expires = 3000000000;
  forgot_expires = 1800000;
  confirm_email_expires = 86400000;
}

-- A user with a password, one session, and nothing else.
abbrev pub ann : User
ann = record {
  id = 7;
  email = some (text "ann@x.vn");
  password = some (text "secret");
  provider = AuthProvider.email;
  social_id = none;
  first_name = some (text "Ann");
  last_name = none;
  phone_number = none;
  photo = none;
  role = some 2;
  status = some 1;
}

abbrev pub ann_session : Session
ann_session = record { id = 3; user_id = 7; hash = text "aa" }

abbrev pub one_account : AuthDb
one_account = record { users = ann ∷ []; sessions = ann_session ∷ []; otps = []; outbox = [] }
