-- ===== src/Storage/Rows.antt =====
-- TypeORM's repositories for the tables that are read by more than one column and deleted from: a
-- table is seen as the set of its rows. Rows that were soft-deleted are out of sight, as in TypeORM.
use esim_backend.Base.{
  ℕ, ◌≤◌, ◌<◌, ◌≡◌, refl, sym, ap, ◌∙◌, Bool, true, false, List, Option, none, some, inl, inr, ◌⊎◌,
  Option-cases, Bool-cases, if◌then◌else◌,
}
use esim_backend.Base.Lists.{IsIn}
use mathlib.Core.Logic.{◌↔◌}

pub record RowStore (E : Type 0) (id : E → ℕ) : Type 1 where
  pub Table : Type 0
  pub Holds : E → Table → Type 0
  -- `findOne({ where, order: { <column>: 'DESC' } })`
  pub find_latest : (E → Bool) → (E → ℕ) → Table → Option E
  -- `find({ where })`
  pub find : (E → Bool) → Table → List E
  -- the value that the sequence of the primary column gives to the next row
  pub next_id : Table → ℕ
  -- `save` of an entity with a new primary key
  pub insert : E → Table → Table
  -- `update(<where>, <set>)`, `increment(<where>, <column>, 1)`, `save` of an entity that was found
  pub update : (E → Bool) → (E → E) → Table → Table
  -- `delete(<where>)`, `softDelete(<where>)`
  pub delete : (E → Bool) → Table → Table
  pub find_latest-Holds :
      (p : E → Bool) (c : E → ℕ) (t : Table) {e : E} → find_latest p c t ≡ some e → Holds e t
  pub find_latest_passes :
      (p : E → Bool) (c : E → ℕ) (t : Table) {e : E} → find_latest p c t ≡ some e → p e ≡ true
  pub find_latest-none :
      (p : E → Bool) (c : E → ℕ) (t : Table) (x : E)
      → find_latest p c t ≡ none
      → Holds x t
      → p x ≡ false
  pub find_latest_max :
      (p : E → Bool) (c : E → ℕ) (t : Table) (x : E) {e : E}
      → find_latest p c t ≡ some e
      → Holds x t
      → p x ≡ true
      → c x ≤ c e
  pub Holds-find :
      (x : E) (p : E → Bool) (t : Table) → IsIn x (find p t) ↔ (Holds x t × (p x ≡ true))
  pub Holds-insert : (x e : E) (t : Table) → Holds x (insert e t) ↔ (x ≡ e) ⊎ Holds x t
  pub Holds-update :
      (x : E) (p : E → Bool) (f : E → E) (t : Table)
      → Holds x (update p f t) ↔ ((y : E) × Holds y t × (x ≡ (if p y then f y else y)))
  pub Holds-delete :
      (x : E) (p : E → Bool) (t : Table) → Holds x (delete p t) ↔ (Holds x t × (p x ≡ false))
  pub next_id_fresh : (x : E) (t : Table) → Holds x t → id x < next_id t

module _ {E : Type 0} {id : E → ℕ} (r : RowStore E id) where
  -- `findOne({ where })`
  abbrev pub find_one : (E → Bool) → r.Table → Option E
  find_one p = r.find_latest p (λ e. 0)

  -- The only row that passes is the row that is found.
  pub find_latest_only :
      (p : E → Bool) (c : E → ℕ) (t : r.Table) (e : E)
      → r.Holds e t
      → p e ≡ true
      → ((x : E) → r.Holds x t → p x ≡ true → x ≡ e)
      → r.find_latest p c t ≡ some e
  find_latest_only p c t e row passes one = elim (Option-cases (r.find_latest p c t)) [
    | inl missing ↦ cc (passes, r.find_latest-none p c t e missing row)
    | inr (x, found) ↦
        let same = one x (r.find_latest-Holds p c t found) (r.find_latest_passes p c t found) in
        cc (found, same)
  ]

  -- No row passes, so none is found.
  pub find_latest_absent :
      (p : E → Bool) (c : E → ℕ) (t : r.Table)
      → ((x : E) → r.Holds x t → p x ≡ false)
      → r.find_latest p c t ≡ none
  find_latest_absent p c t fails = elim (Option-cases (r.find_latest p c t)) [
    | inl missing ↦ missing
    | inr (x, found) ↦
        let fails' = fails x (r.find_latest-Holds p c t found) in
        cc (fails', r.find_latest_passes p c t found)
  ]

  -- Two tables with the same rows of a kind, of which there is at most one, find the same row.
  pub find_latest_same :
      (p : E → Bool) (c : E → ℕ) (t t' : r.Table)
      → ((x : E) → p x ≡ true → r.Holds x t → r.Holds x t')
      → ((x : E) → p x ≡ true → r.Holds x t' → r.Holds x t)
      → ((x y : E) → r.Holds x t → r.Holds y t → p x ≡ true → p y ≡ true → x ≡ y)
      → r.find_latest p c t' ≡ r.find_latest p c t
  find_latest_same p c t t' to from one = elim (Option-cases (r.find_latest p c t)) [
    | inl missing ↦
        find_latest_absent p c t' (λ x row. elim (Bool-cases (p x)) [
          | inl passes ↦ r.find_latest-none p c t x missing (from x passes row)
          | inr fails ↦ fails
        ])
        ∙ sym missing
    | inr (x, found) ↦
        let row = r.find_latest-Holds p c t found in
        let passes = r.find_latest_passes p c t found in
        find_latest_only p c t' x (to x passes row) passes
          (λ y m k. one y x (from y k m) row k passes)
        ∙ sym found
  ]

  -- The row that is found after an update of the rows it is sought among.
  pub find_one-update :
      (p : E → Bool) (f : E → E) (t : r.Table) {x : E}
      → ((y : E) → p y ≡ true → p (f y) ≡ true)
      → find_one p t ≡ some x
      → (y : E) × r.Holds y t × (p y ≡ true) × (find_one p (r.update p f t) ≡ some (f y))
  find_one-update p f t {x = x} stays found = elim (Option-cases (find_one p (r.update p f t))) [
    | inl missing ↦
        let row = r.find_latest-Holds p _ t found in
        let passes = r.find_latest_passes p _ t found in
        let row' = (r.Holds-update (f x) p f t).1 (x, row, rw passes refl) in
        cc (r.find_latest-none p _ (r.update p f t) (f x) missing row', stays x passes)
    | inr (z, found') ↦
        let (y, row, e) = (r.Holds-update z p f t).0 (r.find_latest-Holds p _ _ found') in
        by_test z y row e found' (Bool-cases (p y))
  ]
    where
      by_test :
          (z y : E)
          → r.Holds y t
          → z ≡ (if p y then f y else y)
          → find_one p (r.update p f t) ≡ some z
          → (p y ≡ true) ⊎ (p y ≡ false)
          → (y : E) × r.Holds y t × (p y ≡ true) × (find_one p (r.update p f t) ≡ some (f y))
      by_test z y row e found' (inl passes) = (y, row, passes, cc (found', e, passes))
      by_test z y row e found' (inr fails) =
          cc (e, fails, r.find_latest_passes p _ (r.update p f t) found')

  -- An update by one test of the only row that passes another.
  pub find_latest-update :
      (p q : E → Bool) (c : E → ℕ) (f : E → E) (t : r.Table) (x : E)
      → ((y : E) → p (f y) ≡ p y)
      → ((y : E) → r.Holds y t → p y ≡ true → y ≡ x)
      → r.Holds x t
      → p x ≡ true
      → q x ≡ true
      → r.find_latest p c (r.update q f t) ≡ some (f x)
  find_latest-update p q c f t x stays one row passes hit =
      find_latest_only p c (r.update q f t) (f x)
        ((r.Holds-update (f x) q f t).1 (x, row, rw hit refl)) (stays x ∙ passes)
        λ z m h.
          let (y, row', e) = (r.Holds-update z q f t).0 m in
          let same = one y row' (sym (after_test y) ∙ ap p (sym e) ∙ h) in
          e ∙ ap step same ∙ rw hit refl
    where
      step : E → E
      step y = if q y then f y else y

      after_test : (y : E) → p (step y) ≡ p y
      after_test y = elim (Bool-cases (q y)) [ inl k ↦ rw k (stays y) | inr k ↦ rw k refl ]
