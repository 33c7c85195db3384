-- ===== src/Auth/Users.antt =====
-- src/users/users.service.ts (create, update) over the users' repository
-- (src/users/infrastructure/persistence/relational/repositories/user.repository.ts).
use esim_backend.Base.{
  ℕ, true, false, not, Option, none, some, ⊤, pure, throw, gets, modify, throw_if, unless_found,
  ◌>>=◌, ◌>>◌, ◌==◌, if◌then◌else◌,
}
use esim_backend.Base.Text.{Text}
use esim_backend.Auth.Data.{
  AuthEnv, AuthService, AuthProvider, User, given, has_text, is_role, is_status, find_user,
  find_by_email, email_already_exists, image_not_exists, role_not_exists, status_not_exists,
  user_row_missing,
}

-- A field of a payload: absent (`undefined`), or given, by a value or by null.
pub data Patch (A : Type 0) : Type 0 where
  keep : Patch A
  put : Option A → Patch A

abbrev pub patched : {A : Type 0} → Patch A → Option A → Option A
patched keep old = old
patched (put new) old = new

pub record CreateUserDto : Type 0 where
  pub email : Option Text
  pub password : Option Text
  pub first_name : Option Text
  pub last_name : Option Text
  pub phone_number : Option Text
  pub photo : Patch ℕ
  pub role : Option ℕ
  pub status : Option ℕ
  pub provider : Option AuthProvider
  pub social_id : Option Text

pub record UpdateUserDto : Type 0 where
  pub email : Patch Text
  pub password : Option Text
  pub first_name : Patch Text
  pub last_name : Patch Text
  pub phone_number : Patch Text
  pub photo : Patch ℕ
  pub role : Option ℕ
  pub status : Option ℕ
  pub provider : Option AuthProvider
  pub social_id : Patch Text

-- `obj?.id` in a test: an absent object and the id 0 count as none.
abbrev pub id_of : Option ℕ → Option ℕ
id_of none = none
id_of (some id) = if id == 0 then none else some id

abbrev pub or_else : {A : Type 0} → A → Option A → A
or_else a none = a
or_else a (some b) = b

-- What `update` is given when it is handed a whole user.
abbrev pub whole_user : User → UpdateUserDto
whole_user u = record {
  email = put u.email;
  password = u.password;
  first_name = put u.first_name;
  last_name = put u.last_name;
  phone_number = put u.phone_number;
  photo = elim u.photo [ none ↦ keep | some p ↦ put (some p) ];
  role = u.role;
  status = u.status;
  provider = some u.provider;
  social_id = put u.social_id;
}

module _ ⦃e : AuthEnv⦄ where
  -- the part of `create` and `update` on the photo
  unfoldable pub resolve_photo : Patch ℕ → AuthService (Patch ℕ)
  resolve_photo keep = pure keep
  resolve_photo (put none) = pure (put none)
  resolve_photo (put (some id)) = elim (id_of (some id)) [
    | none ↦ pure keep
    | some i ↦ unless_found (e.find_file i) (throw image_not_exists) λ file. pure (put (some file))
  ]

  -- the part on the role
  unfoldable pub resolve_role : Option ℕ → AuthService (Option ℕ)
  resolve_role role = elim (id_of role) [
    | none ↦ pure none
    | some i ↦ throw_if (not (is_role i)) role_not_exists >> pure (some i)
  ]

  -- the part on the status
  unfoldable pub resolve_status : Option ℕ → AuthService (Option ℕ)
  resolve_status status = elim (id_of status) [
    | none ↦ pure none
    | some i ↦ throw_if (not (is_status i)) status_not_exists >> pure (some i)
  ]

  -- the e-mail of `create`
  unfoldable pub free_email : Option Text → AuthService (Option Text)
  free_email address = elim (given address) [
    | none ↦ pure none
    | some a ↦ do
      other ← gets (find_by_email (some a))
      throw_if (elim other [ none ↦ false | some u ↦ true ]) email_already_exists
      pure (some a)
  ]

  -- `usersRepository.create`
  unfoldable pub insert_user : (ℕ → User) → AuthService User
  insert_user new = do
    user ← gets λ db. new (e.user.next_id db.users)
    modify λ db. record db { users = e.user.insert user db.users }
    pure user

  -- the password of `create`; `salt` is what `bcrypt.genSalt` gives
  abbrev pub hashed : Text → Option Text → Option Text
  hashed salt password = elim (given password) [
    | none ↦ none
    | some p ↦ some (e.bcrypt_hash salt p)
  ]

  unfoldable pub create_user : Text → CreateUserDto → AuthService User
  unfolding resolve_photo resolve_role resolve_status free_email insert_user
  create_user salt dto = do
    let password = hashed salt dto.password
    address ← free_email dto.email
    photo ← resolve_photo dto.photo
    role ← resolve_role dto.role
    status ← resolve_status dto.status
    insert_user λ id. record {
      id = id;
      email = address;
      password = password;
      provider = or_else AuthProvider.email dto.provider;
      social_id = dto.social_id;
      first_name = dto.first_name;
      last_name = dto.last_name;
      phone_number = dto.phone_number;
      photo = patched photo none;
      role = role;
      status = status;
    }

  -- the password of `update`: hashed anew, unless it is the stored hash itself
  unfoldable pub new_password : Text → ℕ → Option Text → AuthService (Option Text)
  new_password salt id password = elim (given password) [
    | none ↦ pure none
    | some p ↦ do
      row ← gets (find_user id)
      pure elim row [
        | none ↦ none
        | some u ↦ if has_text p u.password then none else some (e.bcrypt_hash salt p)
      ]
  ]

  -- the e-mail of `update`
  unfoldable pub new_email : ℕ → Patch Text → AuthService (Patch Text)
  new_email id keep = pure keep
  new_email id (put none) = pure (put none)
  new_email id (put (some address)) = elim (given (some address)) [
    | none ↦ pure keep
    | some a ↦ do
      other ← gets (find_by_email (some a))
      throw_if (elim other [ none ↦ false | some u ↦ not (u.id == id) ]) email_already_exists
      pure (put (some a))
  ]

  -- `{ ...row, ...payload }`, where an absent field keeps the column
  abbrev pub patch_user : UpdateUserDto → User → User
  patch_user payload row = record {
    id = row.id;
    email = patched payload.email row.email;
    password = elim payload.password [ none ↦ row.password | some p ↦ some p ];
    provider = or_else row.provider payload.provider;
    social_id = patched payload.social_id row.social_id;
    first_name = patched payload.first_name row.first_name;
    last_name = patched payload.last_name row.last_name;
    phone_number = patched payload.phone_number row.phone_number;
    photo = patched payload.photo row.photo;
    role = elim payload.role [ none ↦ row.role | some r ↦ some r ];
    status = elim payload.status [ none ↦ row.status | some s ↦ some s ];
  }

  -- `usersRepository.update`
  unfoldable pub save_user : ℕ → UpdateUserDto → AuthService ⊤
  save_user id payload = do
    row ← gets (find_user id)
    unless_found row (throw user_row_missing) λ u.
        modify
          λ db. record db { users = e.user.update (λ v. v.id == id) (patch_user payload) db.users }

  unfoldable pub update_user : Text → ℕ → UpdateUserDto → AuthService ⊤
  unfolding resolve_photo resolve_role resolve_status new_password new_email save_user
  update_user salt id dto = do
    password ← new_password salt id dto.password
    address ← new_email id dto.email
    photo ← resolve_photo dto.photo
    role ← resolve_role dto.role
    status ← resolve_status dto.status
    save_user id (record dto {
      email = address;
      password = password;
      photo = photo;
      role = role;
      status = status;
    })
