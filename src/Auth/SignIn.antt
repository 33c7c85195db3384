-- ===== src/Auth/SignIn.antt =====
-- `validateLogin`: who is signed in.
use esim_backend.Base.{ℕ, ◌≡◌, refl, sym, ap, subst, ◌∙◌, true, some, ok, ◌>>=◌, not-false}
use mathlib.Core.Logic.{◌↔◌}
use esim_backend.Base.Stepping.{gets_step, unless_found_inv, throw_if_inv}
use esim_backend.Base.Text.{Text}
use esim_backend.Auth.Data.{
  AuthEnv, AuthDb, AuthProvider, User, given, same_provider, find_by_email, email_not_found,
  incorrect_password,
}
use esim_backend.Auth.Codes.{LoginResponse, sign_in}
use esim_backend.Auth.Login.{validate_login}

email_of_same :
    (p : AuthProvider) → same_provider p AuthProvider.email ≡ true → p ≡ AuthProvider.email
email_of_same AuthProvider.email h = refl
email_of_same AuthProvider.facebook h = cc h
email_of_same AuthProvider.google h = cc h
email_of_same AuthProvider.apple h = cc h

module _ ⦃e : AuthEnv⦄ where
  sign_in_user :
      (now : ℕ) (hash : Text) (user : User) (db : AuthDb) {r : LoginResponse}
      → (sign_in now hash user db).0 ≡ ok r
      → user ≡ r.user
  unfolding sign_in ◌>>=◌
  sign_in_user now hash user db h = cc h

  -- The account that a password signs in: the one of the address, registered by e-mail, with a hash that
  -- is stored and that the password matches.
  pub record MaySignIn (address password : Text) (db : AuthDb) (user : User) : Type 0 where
    pub stored : Text
    pub account : find_by_email (some address) db ≡ some user
    pub provider : user.provider ≡ AuthProvider.email
    pub known : given user.password ≡ some stored
    pub matching : e.bcrypt_compare password stored ≡ true

  may_sign_in :
      (now : ℕ) (hash address password : Text) (db : AuthDb) {r : LoginResponse}
      → (validate_login now hash address password db).0 ≡ ok r
      → MaySignIn address password db r.user × ((sign_in now hash r.user db).0 ≡ ok r)
  unfolding validate_login
  may_sign_in now hash address password db {r = r} h =
      let h1 = ap (λ out. out.0) (sym (gets_step _ _ db)) ∙ h in
      let (user, account, h2) = unless_found_inv email_not_found _ db h1 in
      let (provider, h3) = throw_if_inv _ _ _ db h2 in
      let (stored, known, h4) = unless_found_inv incorrect_password _ db h3 in
      let (compared, h5) = throw_if_inv _ _ _ db h4 in
      let same = sign_in_user now hash user db h5 in
      (
        record {
          stored = stored;
          account = account ∙ ap some same;
          provider =
              ap (λ u. u.provider) (sym same) ∙ email_of_same user.provider (not-false _ provider);
          known = ap (λ u. given u.password) (sym same) ∙ known;
          matching = not-false _ compared;
        },
        subst (λ u. (sign_in now hash u db).0 ≡ ok r) same h5,
      )

  signed_in :
      (now : ℕ) (hash address password : Text) (db : AuthDb) (user : User)
      → MaySignIn address password db user
      → validate_login now hash address password db ≡ sign_in now hash user db
  unfolding validate_login ◌>>=◌
  signed_in now hash address password db user m =
      rw (m.account, m.provider, m.known, m.matching) refl

  -- `validateLogin` signs a user in exactly where the user is the one of the address, is registered by
  -- e-mail, and has a hash that the given password matches; the answer is then that of the session that is
  -- opened for this user.
  pub validate_login_lem :
      (now : ℕ) (hash address password : Text) (db : AuthDb) (r : LoginResponse)
      → ((validate_login now hash address password db).0 ≡ ok r)
        ↔ (MaySignIn address password db r.user × ((sign_in now hash r.user db).0 ≡ ok r))
  validate_login_lem now hash address password db r = (
    may_sign_in now hash address password db,
    λ (m, opened). ap (λ out. out.0) (signed_in now hash address password db r.user m) ∙ opened,
  )
