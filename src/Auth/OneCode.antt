-- ===== src/Auth/OneCode.antt =====
-- The table of one-time codes: at most one for each user, with at most five wrong guesses.
use esim_backend.Base.{
  ℕ, ◌+◌, ◌≤◌, ◌<◌, ◌≡◌, ◌≢◌, refl, sym, ap, subst, ◌∙◌, inl, inr, true, false, Option, none, some,
  arith, Bool-cases, ◌==◌, ==_iff, ==_refl, if◌then◌else◌,
}
use esim_backend.Storage.Rows.{find_latest_only, find_latest_absent, find_latest_same}
use esim_backend.Auth.Data.{AuthEnv, Otp}
use esim_backend.Auth.Sessions.{otp_of}
use esim_backend.Auth.Codes.{otp_max_attempts}

module _ ⦃e : AuthEnv⦄ where
  pub record IsOneCode (t : e.otp.Table) : Type 0 where
    pub one : (x y : Otp) → e.otp.Holds x t → e.otp.Holds y t → x.user_id ≡ y.user_id → x ≡ y
    pub ids : (x y : Otp) → e.otp.Holds x t → e.otp.Holds y t → x.id ≡ y.id → x ≡ y
    pub capped : (x : Otp) → e.otp.Holds x t → x.attempts ≤ otp_max_attempts

  abbrev pub latest_of : ℕ → e.otp.Table → Option Otp
  latest_of user_id t = e.otp.find_latest (otp_of user_id) (λ o. o.created_at) t

  -- The table without the codes of a user.
  abbrev pub without : ℕ → e.otp.Table → e.otp.Table
  without user_id t = e.otp.delete (otp_of user_id) t

  abbrev pub bumped : Otp → Otp
  bumped o = record o { attempts = o.attempts + 1 }

  abbrev pub bump : ℕ → e.otp.Table → e.otp.Table
  bump id t = e.otp.update (λ o. o.id == id) bumped t

  of_one :
      (u : ℕ) (t : e.otp.Table)
      → IsOneCode t
      → (x y : Otp) → e.otp.Holds x t
      → e.otp.Holds y t
      → otp_of u x ≡ true
      → otp_of u y ≡ true
      → x ≡ y
  of_one u t inv x y row row' h k = inv.one x y row row' (ground arith)

  pub without-IsOneCode : (u : ℕ) (t : e.otp.Table) → IsOneCode t → IsOneCode (without u t)
  without-IsOneCode u t inv = record {
    one = λ x y row row'. inv.one x y (kept x row) (kept y row');
    ids = λ x y row row'. inv.ids x y (kept x row) (kept y row');
    capped = λ x row. inv.capped x (kept x row);
  }
    where
      kept : (x : Otp) → e.otp.Holds x (without u t) → e.otp.Holds x t
      kept x row = ((e.otp.Holds-delete x (otp_of u) t).0 row).0

  pub latest_of-without : (u : ℕ) (t : e.otp.Table) → latest_of u (without u t) ≡ none
  latest_of-without u t =
      find_latest_absent e.otp _ _ _ λ x row. ((e.otp.Holds-delete x (otp_of u) t).0 row).1

  pub latest_of-without_ne :
      (u v : ℕ) (t : e.otp.Table) → IsOneCode t → v ≢ u → latest_of v (without u t) ≡ latest_of v t
  latest_of-without_ne u v t inv ne =
      find_latest_same e.otp _ _ t (without u t)
        (λ x h row. (e.otp.Holds-delete x (otp_of u) t).1 (row, other x h))
        (λ x h row. ((e.otp.Holds-delete x (otp_of u) t).0 row).0) (of_one v t inv)
    where
      other : (x : Otp) → otp_of v x ≡ true → otp_of u x ≡ false
      other x h = elim (Bool-cases (otp_of u x)) [ inl k ↦ absurd (ne (ground arith)) | inr k ↦ k ]

  -- A new code for a user who has none.
  pub insert-IsOneCode :
      (o : Otp) (t : e.otp.Table)
      → o.id ≡ e.otp.next_id t
      → o.attempts ≡ 0
      → ((x : Otp) → e.otp.Holds x t → x.user_id ≢ o.user_id)
      → IsOneCode t
      → IsOneCode (e.otp.insert o t)
  insert-IsOneCode o t fresh zeroed free inv = record {
    one = λ x y row row'. elim ((e.otp.Holds-insert x o t).0 row) [
      | inl here ↦ elim ((e.otp.Holds-insert y o t).0 row') [
        | inl here' ↦ λ h. here ∙ sym here'
        | inr old' ↦ λ h. absurd (free y old' (sym h ∙ ap (λ z. z.user_id) here))
      ]
      | inr old ↦ elim ((e.otp.Holds-insert y o t).0 row') [
        | inl here' ↦ λ h. absurd (free x old (h ∙ ap (λ z. z.user_id) here'))
        | inr old' ↦ inv.one x y old old'
      ]
    ];
    ids = λ x y row row'. elim ((e.otp.Holds-insert x o t).0 row) [
      | inl here ↦ elim ((e.otp.Holds-insert y o t).0 row') [
        | inl here' ↦ λ h. here ∙ sym here'
        | inr old' ↦ λ h. absurd (later y old' (sym h ∙ ap (λ z. z.id) here))
      ]
      | inr old ↦ elim ((e.otp.Holds-insert y o t).0 row') [
        | inl here' ↦ λ h. absurd (later x old (h ∙ ap (λ z. z.id) here'))
        | inr old' ↦ inv.ids x y old old'
      ]
    ];
    capped = λ x row. elim ((e.otp.Holds-insert x o t).0 row) [
      | inl here ↦ omega (arith, ap (λ z. z.attempts) here)
      | inr old ↦ inv.capped x old
    ];
  }
    where
      later : (x : Otp) → e.otp.Holds x t → x.id ≢ o.id
      later x row h = absurd (omega (arith, e.otp.next_id_fresh x t row))

  pub latest_of-insert :
      (o : Otp) (t : e.otp.Table)
      → ((x : Otp) → e.otp.Holds x t → x.user_id ≢ o.user_id)
      → latest_of o.user_id (e.otp.insert o t) ≡ some o
  latest_of-insert o t free =
      find_latest_only e.otp _ _ _ o ((e.otp.Holds-insert o o t).1 (inl refl)) (==_refl o.user_id)
        λ x row h. elim ((e.otp.Holds-insert x o t).0 row) [
          | inl here ↦ here
          | inr old ↦ absurd (free x old (ground arith))
        ]

  -- What a wrong guess at the code `id` makes of a row.
  abbrev pub stepped : ℕ → Otp → Otp
  stepped id o = if o.id == id then bumped o else o

  stepped_keys :
      (id : ℕ) (o : Otp) → ((stepped id o).user_id ≡ o.user_id) × ((stepped id o).id ≡ o.id)
  stepped_keys id o = ground arith

  stepped_attempts :
      (id : ℕ) (o : Otp)
      → ((o.id == id) ≡ true → (stepped id o).attempts ≡ o.attempts + 1)
        × ((o.id == id) ≡ false → (stepped id o).attempts ≡ o.attempts)
  stepped_attempts id o = (λ h. rw h refl, λ h. rw h refl)

  -- A wrong guess at a code that has guesses left.
  pub bump-IsOneCode :
      (o : Otp) (t : e.otp.Table)
      → e.otp.Holds o t
      → o.attempts < otp_max_attempts
      → IsOneCode t
      → IsOneCode (bump o.id t)
  bump-IsOneCode o t row left inv = record {
    one = λ x y m m' h.
        let (a, ra, ea) = origin x m in
        let (b, rb, eb) = origin y m' in
        let same = ap (λ z. z.user_id) ea ∙ (stepped_keys o.id a).0 in
        let same' = ap (λ z. z.user_id) eb ∙ (stepped_keys o.id b).0 in
        ea ∙ ap (stepped o.id) (inv.one a b ra rb (sym same ∙ h ∙ same')) ∙ sym eb;
    ids = λ x y m m' h.
        let (a, ra, ea) = origin x m in
        let (b, rb, eb) = origin y m' in
        let same = ap (λ z. z.id) ea ∙ (stepped_keys o.id a).1 in
        let same' = ap (λ z. z.id) eb ∙ (stepped_keys o.id b).1 in
        ea ∙ ap (stepped o.id) (inv.ids a b ra rb (sym same ∙ h ∙ same')) ∙ sym eb;
    capped = λ x m.
        let (a, ra, ea) = origin x m in
        elim (Bool-cases (a.id == o.id)) [
          | inl hit ↦
              let same = inv.ids a o ra row ((==_iff a.id o.id).0 hit) in
              omega (
                arith,
                ap (λ z. z.attempts) ea,
                (stepped_attempts o.id a).0 hit,
                ap (λ z. z.attempts) same,
              )
          | inr miss ↦
              omega
                (arith, ap (λ z. z.attempts) ea, (stepped_attempts o.id a).1 miss, inv.capped a ra)
        ];
  }
    where
      origin :
          (x : Otp)
          → e.otp.Holds x (bump o.id t)
          → (y : Otp) × e.otp.Holds y t × (x ≡ stepped o.id y)
      origin x m = (e.otp.Holds-update x (λ z. z.id == o.id) bumped t).0 m

  pub latest_of-bump :
      (o : Otp) (t : e.otp.Table)
      → e.otp.Holds o t
      → IsOneCode t
      → latest_of o.user_id (bump o.id t) ≡ some (bumped o)
  latest_of-bump o t row inv =
      find_latest_only e.otp _ _ _ (bumped o)
        ((e.otp.Holds-update (bumped o) (λ z. z.id == o.id) bumped t).1
          (o, row, rw (==_refl o.id) refl))
        (==_refl o.user_id)
        λ x m h.
          let (a, ra, ea) = (e.otp.Holds-update x (λ z. z.id == o.id) bumped t).0 m in
          let user = ap (λ z. z.user_id) ea ∙ (stepped_keys o.id a).0 in
          let same = inv.one a o ra row (sym user ∙ (==_iff x.user_id o.user_id).0 h) in
          ea ∙ ap (stepped o.id) same ∙ rw (==_refl o.id) refl

  pub latest_of-bump_ne :
      (o : Otp) (v : ℕ) (t : e.otp.Table)
      → e.otp.Holds o t
      → IsOneCode t
      → v ≢ o.user_id
      → latest_of v (bump o.id t) ≡ latest_of v t
  latest_of-bump_ne o v t row inv ne =
      find_latest_same e.otp _ _ t (bump o.id t) to from (of_one v t inv)
    where
      other : (x : Otp) → e.otp.Holds x t → otp_of v x ≡ true → (x.id == o.id) ≡ false
      other x m h = elim (Bool-cases (x.id == o.id)) [
        | inl k ↦
            let same = inv.ids x o m row ((==_iff x.id o.id).0 k) in
            absurd (ne (sym ((==_iff x.user_id v).0 h) ∙ ap (λ z. z.user_id) same))
        | inr k ↦ k
      ]

      to : (x : Otp) → otp_of v x ≡ true → e.otp.Holds x t → e.otp.Holds x (bump o.id t)
      to x h m = (e.otp.Holds-update x (λ z. z.id == o.id) bumped t).1 (x, m, rw (other x m h) refl)

      from : (x : Otp) → otp_of v x ≡ true → e.otp.Holds x (bump o.id t) → e.otp.Holds x t
      from x h m =
          let (a, ra, ea) = (e.otp.Holds-update x (λ z. z.id == o.id) bumped t).0 m in
          let user = ap (λ z. z.user_id) ea ∙ (stepped_keys o.id a).0 in
          let miss = other a ra (rw (← user) h) in
          subst (λ z. e.otp.Holds z t) (sym (ea ∙ rw miss refl)) ra
