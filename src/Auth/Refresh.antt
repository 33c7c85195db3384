-- ===== src/Auth/Refresh.antt =====
-- `refreshToken`: the hash of a session is good for one refresh.
use esim_backend.Base.{
  ℕ, ◌≡◌, ◌≢◌, refl, sym, ap, ◌∙◌, inl, inr, false, none, some, err, arith, Bool-cases,
  Option-cases, ◌>>=◌,
}
use esim_backend.Base.Text.{Text, eqb, eqb_iff}
use esim_backend.Storage.Rows.{find_latest_absent}
use esim_backend.Auth.Data.{AuthEnv, AuthDb, Session, unauthorized}
use esim_backend.Auth.Sessions.{has_hash, find_session}
use esim_backend.Auth.Login.{refresh_token}

module _ ⦃e : AuthEnv⦄ where
  -- A session with this hash is not there.
  module _ (now : ℕ) (new_hash : Text) (id : ℕ) (hash : Text) (db : AuthDb) where
    refresh_token_refused :
        find_session (has_hash id hash) db ≡ none
        → refresh_token now new_hash id hash db ≡ (err unauthorized, db)
    unfolding refresh_token ◌>>=◌
    refresh_token_refused missing = rw missing refl

    refresh_token_sessions :
        {s : Session}
        → find_session (has_hash id hash) db ≡ some s
        → (refresh_token now new_hash id hash db).1.sessions
          ≡ e.session.update (has_hash id hash) (λ s. record s { hash = new_hash }) db.sessions
    unfolding refresh_token ◌>>=◌
    refresh_token_sessions found = rw found (ground arith)

    rehashed :
        (s : Session) → new_hash ≢ hash → has_hash id hash (record s { hash = new_hash }) ≡ false
    rehashed s ne = elim (Bool-cases (eqb hash new_hash)) [
      | inl same ↦ absurd (ne (sym ((eqb_iff hash new_hash).0 same)))
      | inr other ↦ ground arith
    ]

  -- A refresh token is good once: after a refresh, whatever its outcome, a second one with the same session
  -- and hash is refused, at any time, where the hash that the first one drew is another.
  pub refresh_token_once :
      (now later : ℕ) (new_hash other_hash : Text) (id : ℕ) (hash : Text) (db : AuthDb)
      → new_hash ≢ hash
      → (refresh_token later other_hash id hash (refresh_token now new_hash id hash db).1).0
        ≡ err unauthorized
  refresh_token_once now later new_hash other_hash id hash db ne =
      ap (λ out. out.0) (refresh_token_refused later other_hash id hash _ gone)
    where
      after : AuthDb
      after = (refresh_token now new_hash id hash db).1

      gone : find_session (has_hash id hash) after ≡ none
      gone = elim (Option-cases (find_session (has_hash id hash) db)) [
        | inl missing ↦
            ap (λ out. find_session (has_hash id hash) out.1)
              (refresh_token_refused now new_hash id hash db missing)
            ∙ missing
        | inr (s, found) ↦
            ap (λ t. find_session (has_hash id hash) (record db { sessions = t }))
              (refresh_token_sessions now new_hash id hash db found)
            ∙ (find_latest_absent e.session _ _ _ λ x row.
                let (y, m, h) = (e.session.Holds-update x (has_hash id hash) _ db.sessions).0 row in
                elim (Bool-cases (has_hash id hash y)) [
                  | inl hit ↦ rw (h, hit) (rehashed now new_hash id hash db y ne)
                  | inr miss ↦ rw (h, miss) miss
                ])
      ]
