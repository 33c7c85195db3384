-- ===== src/Auth/Passwords.antt =====
-- `resetPassword`: what it does to the sessions and the stored password of the account.
use esim_backend.Base.{
  ℕ, ◌≡◌, ◌≢◌, refl, sym, ap, ◌∙◌, inl, inr, Bool, false, Option, none, some, ◌∷◌, ok, modify,
  arith, Bool-cases, ◌>>=◌, ◌==◌, ==_iff,
}
use mathlib.Core.Logic.{◌↔◌}
use esim_backend.Base.Stepping.{reads_inv, bind_ok, gets_step, unless_found-some}
use esim_backend.Base.Text.{Text}
use esim_backend.Storage.Rows.{find_one, find_one-update}
use esim_backend.Auth.Data.{AuthEnv, AuthDb, AuthService, User, Session, has_text, find_user}
use esim_backend.Auth.Users.{
  Patch, UpdateUserDto, whole_user, resolve_photo, resolve_role, resolve_status, new_password,
  new_email, patch_user, save_user, update_user,
}
use esim_backend.Auth.Sessions.{of_user, delete_sessions}
use esim_backend.Auth.Profile.{reset_password}

module _ ⦃e : AuthEnv⦄ where
  -- A step that only reads.
  abbrev pub Reads : {A : Type 0} → AuthService A → Type 0
  Reads m = (db : AuthDb) → (m db).1 ≡ db

  new_password-Reads : (salt : Text) (id : ℕ) (p : Option Text) → Reads (new_password salt id p)
  unfolding new_password ◌>>=◌
  new_password-Reads salt id p db = ground arith

  new_email-Reads : (id : ℕ) (a : Patch Text) → Reads (new_email id a)
  unfolding new_email ◌>>=◌
  new_email-Reads id a db = ground arith

  resolve_photo-Reads : (p : Patch ℕ) → Reads (resolve_photo p)
  unfolding resolve_photo ◌>>=◌
  resolve_photo-Reads p db = ground arith

  resolve_role-Reads : (r : Option ℕ) → Reads (resolve_role r)
  unfolding resolve_role ◌>>=◌
  resolve_role-Reads r db = ground arith

  resolve_status-Reads : (s : Option ℕ) → Reads (resolve_status s)
  unfolding resolve_status ◌>>=◌
  resolve_status-Reads s db = ground arith

  -- What a successful update stores, on the path of its password.
  update_user_inv :
      (salt : Text) (id : ℕ) (dto : UpdateUserDto) (db : AuthDb)
      → (update_user salt id dto db).0 ≡ ok tt
      → (password : Option Text) × (payload : UpdateUserDto) × (new_password salt id dto.password db
          ≡ (ok password, db))
        × (payload.password ≡ password)
        × (update_user salt id dto db ≡ save_user id payload db)
  unfolding update_user
  update_user_inv salt id dto db h =
      let (password, e1, h1, s1) =
        reads_inv _ _ db (new_password-Reads salt id dto.password db) h in
      let (address, e2, h2, s2) = reads_inv _ _ db (new_email-Reads id dto.email db) h1 in
      let (photo, e3, h3, s3) = reads_inv _ _ db (resolve_photo-Reads dto.photo db) h2 in
      let (role, e4, h4, s4) = reads_inv _ _ db (resolve_role-Reads dto.role db) h3 in
      let (status, e5, h5, s5) = reads_inv _ _ db (resolve_status-Reads dto.status db) h4 in
      let payload = record dto {
        email = address;
        password = password;
        photo = photo;
        role = role;
        status = status;
      } in
      (password, payload, e1, refl, s1 ∙ (s2 ∙ (s3 ∙ (s4 ∙ s5))))

  -- The updates of users leave the sessions alone.
  save_user-sessions :
      (id : ℕ) (payload : UpdateUserDto) (db : AuthDb)
      → (save_user id payload db).1.sessions ≡ db.sessions
  unfolding save_user ◌>>=◌
  save_user-sessions id payload db = ground arith

  save_user_found :
      (id : ℕ) (payload : UpdateUserDto) (db : AuthDb) {u : User}
      → find_user id db ≡ some u
      → (save_user id payload db).1.users
        ≡ e.user.update (λ v. v.id == id) (patch_user payload) db.users
  unfolding save_user ◌>>=◌
  save_user_found id payload db found = rw found refl

  new_password-hash :
      (salt : Text) (id c : ℕ) (cs : Text) (db : AuthDb) {u : User}
      → find_user id db ≡ some u
      → has_text (c ∷ cs) u.password ≡ false
      → new_password salt id (some (c ∷ cs)) db ≡ (ok (some (e.bcrypt_hash salt (c ∷ cs))), db)
  unfolding new_password ◌>>=◌
  new_password-hash salt id c cs db found changed = rw (found, changed) refl

  delete_sessions_step :
      (p : Session → Bool) (db : AuthDb)
      → delete_sessions p db ≡ (ok tt, record db { sessions = e.session.delete p db.sessions })
  unfolding delete_sessions modify
  delete_sessions_step p db = refl

  module _ (now : ℕ) (salt hash password : Text) (db : AuthDb) {user_id : ℕ} {user : User}
      (token : e.forgot_jwt.verify now hash ≡ some user_id)
      (account : find_user user_id db ≡ some user) where
    abbrev signed_out : AuthDb
    signed_out = record db { sessions = e.session.delete (of_user user.id) db.sessions }

    reset_password_step :
        reset_password now salt hash password db
        ≡ update_user salt user.id
            (whole_user (record user { password = some password }))
            signed_out
    unfolding reset_password
    reset_password_step =
        ap (λ k. k db) (unless_found-some _ _ token)
        ∙ (gets_step _ _ db
            ∙ (ap (λ k. k db) (unless_found-some _ _ account)
                ∙ bind_ok _ _ db (delete_sessions_step (of_user user.id) db)))

    reset_user_id : user.id ≡ user_id
    reset_user_id = (==_iff user.id user_id).0 (e.user.find_latest_passes _ _ _ account)

    -- What the update after the deletion stores.
    reset_password_inv :
        (reset_password now salt hash password db).0 ≡ ok tt
        → (payload : UpdateUserDto) × (new_password salt user.id (some password) signed_out
            ≡ (ok payload.password, signed_out))
          × (reset_password now salt hash password db ≡ save_user user.id payload signed_out)
    reset_password_inv done =
        let (new, payload, hashed, same, stored) =
          update_user_inv salt user.id (whole_user (record user { password = some password }))
            signed_out (ap (λ out. out.0) (sym reset_password_step) ∙ done) in
        (payload, hashed ∙ ap (λ p. (ok p, signed_out)) (sym same), reset_password_step ∙ stored)

    -- A reset that succeeds, by a token that names a user who is found, ends every session of the user and
    -- no other.
    pub reset_password_sessions :
        (reset_password now salt hash password db).0 ≡ ok tt
        → (s : Session)
        → e.session.Holds s (reset_password now salt hash password db).1.sessions
          ↔ (e.session.Holds s db.sessions × (s.user_id ≢ user_id))
    reset_password_sessions done s =
        let (payload, hashed, stored) = reset_password_inv done in
        let left : (reset_password now salt hash password db).1.sessions ≡ signed_out.sessions =
          rw stored (save_user-sessions user.id payload signed_out) in
        let law = e.session.Holds-delete s (of_user user.id) db.sessions in
        rw left (
          λ m. let (row, other) = law.0 m in (row, λ h. foreign h other),
          λ (row, other). law.1 (
            row,
            elim (Bool-cases (of_user user.id s)) [
              | inl own ↦ absurd (other ((==_iff s.user_id user.id).0 own ∙ reset_user_id))
              | inr foreign' ↦ foreign'
            ],
          ),
        )
      where
        foreign : s.user_id ≡ user_id → of_user user.id s ≡ false → ⊥
        foreign h other = cc (other, (==_iff s.user_id user.id).1 (h ∙ sym reset_user_id))

  abbrev new_or : User → Option Text → Option Text
  new_or u p = elim p [ none ↦ u.password | some q ↦ some q ]

  -- After a reset that succeeds, by a token that names a user who is found, the account has the hash of the
  -- new password, where that is not empty and not spelled like the stored hash.
  pub reset_password_stored :
      (now : ℕ) (salt hash : Text) (c : ℕ) (cs : Text) (db : AuthDb) {user_id : ℕ} {user : User}
      → e.forgot_jwt.verify now hash ≡ some user_id
      → find_user user_id db ≡ some user
      → has_text (c ∷ cs) user.password ≡ false
      → (reset_password now salt hash (c ∷ cs) db).0 ≡ ok tt
      → (changed : User) × (find_user user_id (reset_password now salt hash (c ∷ cs) db).1
          ≡ some changed)
        × (changed.password ≡ some (e.bcrypt_hash salt (c ∷ cs)))
  reset_password_stored now salt hash c cs db {user_id} {user} token account fresh done =
      let (payload, hashed, stored) =
        reset_password_inv now salt hash (c ∷ cs) db token account done in
      let same = reset_user_id now salt hash (c ∷ cs) db token account in
      let found : find_user user.id db ≡ some user = ap (λ i. find_user i db) same ∙ account in
      let out = signed_out now salt hash (c ∷ cs) db token account in
      let hash' = new_password-hash salt user.id c cs out found fresh in
      let kept : payload.password ≡ some (e.bcrypt_hash salt (c ∷ cs)) = cc (hashed, hash') in
      let (y, row, passes, after) =
        find_one-update e.user (λ v. v.id == user.id) (patch_user payload) db.users (λ v h. h)
          found in
      let users : (reset_password now salt hash (c ∷ cs) db).1.users
          ≡ (e.user.update (λ v. v.id == user.id) (patch_user payload) db.users) =
        rw stored (save_user_found user.id payload out found) in
      let found' = ap (λ t. find_one e.user (λ v. v.id == user.id) t) users ∙ after in
      let done_db = (reset_password now salt hash (c ∷ cs) db).1 in
      (
        patch_user payload y,
        ap (λ i. find_user i done_db) (sym same) ∙ found',
        ap (λ p. new_or y p) kept,
      )
