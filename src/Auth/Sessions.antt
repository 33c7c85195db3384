-- ===== src/Auth/Sessions.antt =====
-- src/session/session.service.ts and src/otp/otp.service.ts over their repositories.
use esim_backend.Base.{
  ℕ, Bool, not, Option, none, ⊤, pure, gets, modify, unless_found, ◌+◌, ◌&&◌, ◌>>=◌, ◌>>◌, ◌==◌,
}
use esim_backend.Base.Text.{Text, eqb}
use esim_backend.Storage.Rows.{find_one}
use esim_backend.Auth.Data.{AuthEnv, AuthDb, AuthService, Session, Otp}

-- The conditions of `updateByHash` and of the deletions.
abbrev pub has_hash : ℕ → Text → Session → Bool
has_hash id hash s = s.id == id && eqb hash s.hash

abbrev pub of_user : ℕ → Session → Bool
of_user user_id s = s.user_id == user_id

abbrev pub is_other : ℕ → ℕ → Session → Bool
is_other user_id kept s = s.user_id == user_id && not (s.id == kept)

abbrev pub otp_of : ℕ → Otp → Bool
otp_of user_id o = o.user_id == user_id

module _ ⦃e : AuthEnv⦄ where
  abbrev pub find_session : (Session → Bool) → AuthDb → Option Session
  find_session p db = find_one e.session p db.sessions

  -- `sessionService.create`
  unfoldable pub create_session : ℕ → Text → AuthService Session
  create_session user_id hash = do
    session ←
        gets λ db. record { id = e.session.next_id db.sessions; user_id = user_id; hash = hash }
    modify λ db. record db { sessions = e.session.insert session db.sessions }
    pure session

  -- `sessionService.updateByHash`: `result.affected` is 0 exactly when no row meets the conditions.
  unfoldable pub update_by_hash : ℕ → Text → Text → AuthService (Option Session)
  update_by_hash id hash new_hash = do
    row ← gets (find_session (has_hash id hash))
    unless_found row (pure none) λ found. do
      modify λ db. record db {
        sessions =
            e.session.update (has_hash id hash) (λ s. record s { hash = new_hash }) db.sessions;
      }
      gets (find_session λ s. s.id == id)

  -- `sessionService.deleteById`, `deleteByUserId`, `deleteByUserIdWithExclude`
  unfoldable pub delete_sessions : (Session → Bool) → AuthService ⊤
  delete_sessions p = modify λ db. record db { sessions = e.session.delete p db.sessions }

  -- `otpService.findActiveByUserId`
  abbrev pub find_active_otp : ℕ → AuthDb → Option Otp
  find_active_otp user_id db = e.otp.find_latest (otp_of user_id) (λ o. o.created_at) db.otps

  -- `otpService.deleteByUserId`
  unfoldable pub delete_otps : ℕ → AuthService ⊤
  delete_otps user_id = modify λ db. record db { otps = e.otp.delete (otp_of user_id) db.otps }

  -- `otpService.incrementAttempts`
  unfoldable pub increment_attempts : ℕ → AuthService ⊤
  increment_attempts id = modify λ db. record db {
    otps = e.otp.update (λ o. o.id == id) (λ o. record o { attempts = o.attempts + 1 }) db.otps;
  }

  -- `otpService.create`
  unfoldable pub create_otp : ℕ → Text → ℕ → ℕ → AuthService ⊤
  create_otp user_id otp_hash expires_at now = modify λ db. record db {
    otps =
        e.otp.insert
          (record {
            id = e.otp.next_id db.otps;
            user_id = user_id;
            otp_hash = otp_hash;
            expires_at = expires_at;
            attempts = 0;
            created_at = now;
          })
          db.otps;
  }
