-- ===== src/Storage/RowLists.antt =====
-- An implementation of `RowStore` by lists of rows: its laws can be met, and the services run in tests.
use esim_backend.Base.Lists.{IsIn}
use esim_backend.Base.{
  ℕ, suc, ◌≤◌, ◌≡◌, refl, ap, ◌∙◌, Bool, true, false, List, [], ◌∷◌, Option, none, some, inl, inr,
  arith, if◌then◌else◌, ltb, Bool-cases, Option-cases,
}
use esim_backend.Storage.Memory.{update_rows, find_rows}
use esim_backend.Storage.Rows.{RowStore}
use mathlib.Core.Logic.{◌↔◌}

module _ {E : Type 0} where
  -- The later of a row and the best of the rows behind it.
  abbrev pub later : (E → ℕ) → E → Option E → Option E
  later c x none = some x
  later c x (some y) = if ltb (c x) (c y) then some y else some x

  abbrev pub latest_row : (E → Bool) → (E → ℕ) → List E → Option E
  latest_row p c [] = none
  latest_row p c (x ∷ xs) = let rest = latest_row p c xs in if p x then later c x rest else rest

  abbrev pub delete_rows : (E → Bool) → List E → List E
  delete_rows p [] = []
  delete_rows p (x ∷ xs) = let rest = delete_rows p xs in if p x then rest else x ∷ rest

  abbrev pub max_id : (E → ℕ) → List E → ℕ
  max_id id [] = 0
  max_id id (x ∷ xs) = let rest = max_id id xs in if ltb (id x) rest then rest else id x

  pub latest_row-IsIn :
      (p : E → Bool) (c : E → ℕ) (t : List E) {e : E} → latest_row p c t ≡ some e → IsIn e t
  latest_row-IsIn p c [] h = cc
  latest_row-IsIn p c (x ∷ t) {e} h = ground (arith, latest_row-IsIn p c t {e = e})

  pub latest_row_passes :
      (p : E → Bool) (c : E → ℕ) (t : List E) {e : E} → latest_row p c t ≡ some e → p e ≡ true
  latest_row_passes p c [] h = cc
  latest_row_passes p c (x ∷ t) {e} h = ground (arith, latest_row_passes p c t {e = e})

  pub latest_row-none :
      (p : E → Bool) (c : E → ℕ) (t : List E) (x : E)
      → latest_row p c t ≡ none
      → IsIn x t
      → p x ≡ false
  latest_row-none p c [] x h m = absurd m
  latest_row-none p c (y ∷ t) x h (inl e) = ground arith
  latest_row-none p c (y ∷ t) x h (inr m) = ground (arith, latest_row-none p c t x)

  pub latest_row_max :
      (p : E → Bool) (c : E → ℕ) (t : List E) (x : E) {e : E}
      → latest_row p c t ≡ some e
      → IsIn x t
      → p x ≡ true
      → c x ≤ c e
  latest_row_max p c [] x h m passes = absurd m
  latest_row_max p c (y ∷ t) x {e} h (inl e') passes = ground arith
  latest_row_max p c (y ∷ t) x {e} h (inr m) passes = elim (Option-cases (latest_row p c t)) [
    | inl missing ↦ cc (latest_row-none p c t x missing m, passes)
    | inr (z, found) ↦ ground (arith, latest_row_max p c t x found m passes)
  ]

  pub IsIn-update_rows :
      (x : E) (p : E → Bool) (f : E → E) (t : List E)
      → IsIn x (update_rows p f t) ↔ ((y : E) × IsIn y t × (x ≡ (if p y then f y else y)))
  IsIn-update_rows x p f [] = (λ m. absurd m, λ (y, m, e). absurd m)
  IsIn-update_rows x p f (z ∷ t) = (
    λ m. elim m [
      | inl e ↦ (z, inl refl, e)
      | inr m' ↦ let (y, k, e) = (IsIn-update_rows x p f t).0 m' in (y, inr k, e)
    ],
    λ (y, m, e). elim m [
      | inl e' ↦ inl (rw (← e') e)
      | inr m' ↦ inr ((IsIn-update_rows x p f t).1 (y, m', e))
    ],
  )

  pub IsIn-delete_rows :
      (x : E) (p : E → Bool) (t : List E) → IsIn x (delete_rows p t) ↔ (IsIn x t × (p x ≡ false))
  IsIn-delete_rows x p [] = (λ m. absurd m, λ m. absurd m.0)
  IsIn-delete_rows x p (z ∷ t) = elim (Bool-cases (p z)) [
    | inl gone ↦ rw gone (
      λ m. let (k, e) = (IsIn-delete_rows x p t).0 m in (inr k, e),
      λ (m, e). elim m [
        | inl e' ↦ cc (gone, e, ap p e')
        | inr m' ↦ (IsIn-delete_rows x p t).1 (m', e)
      ],
    )
    | inr stays ↦ rw stays (
      λ m. elim m [
        | inl e ↦ (inl e, ap p e ∙ stays)
        | inr m' ↦ let (k, e) = (IsIn-delete_rows x p t).0 m' in (inr k, e)
      ],
      λ (m, e). elim m [ inl e' ↦ inl e' | inr m' ↦ inr ((IsIn-delete_rows x p t).1 (m', e)) ],
    )
  ]

  pub IsIn-find_rows :
      (x : E) (p : E → Bool) (t : List E) → IsIn x (find_rows p t) ↔ (IsIn x t × (p x ≡ true))
  IsIn-find_rows x p [] = (λ m. absurd m, λ m. absurd m.0)
  IsIn-find_rows x p (z ∷ t) = elim (Bool-cases (p z)) [
    | inl passes ↦ rw passes (
      λ m. elim m [
        | inl e ↦ (inl e, ap p e ∙ passes)
        | inr m' ↦ let (k, e) = (IsIn-find_rows x p t).0 m' in (inr k, e)
      ],
      λ (m, e). elim m [ inl e' ↦ inl e' | inr m' ↦ inr ((IsIn-find_rows x p t).1 (m', e)) ],
    )
    | inr fails ↦ rw fails (
      λ m. let (k, e) = (IsIn-find_rows x p t).0 m in (inr k, e),
      λ (m, e). elim m [
        | inl e' ↦ cc (fails, e, ap p e')
        | inr m' ↦ (IsIn-find_rows x p t).1 (m', e)
      ],
    )
  ]

  pub IsIn-max_id : (id : E → ℕ) (x : E) (t : List E) → IsIn x t → id x ≤ max_id id t
  IsIn-max_id id x [] m = absurd m
  IsIn-max_id id x (y ∷ t) (inl e) = ground arith
  IsIn-max_id id x (y ∷ t) (inr m) = ground (arith, IsIn-max_id id x t)

  abbrev pub row_store : (id : E → ℕ) → RowStore E id
  row_store id = record {
    Table = List E;
    Holds = IsIn;
    find_latest = latest_row;
    find = find_rows;
    next_id = λ t. suc (max_id id t);
    insert = λ e t. e ∷ t;
    update = update_rows;
    delete = delete_rows;
    find_latest-Holds = latest_row-IsIn;
    find_latest_passes = latest_row_passes;
    find_latest-none = latest_row-none;
    find_latest_max = latest_row_max;
    Holds-find = IsIn-find_rows;
    Holds-insert = λ x e t. (λ m. m, λ m. m);
    Holds-update = IsIn-update_rows;
    Holds-delete = IsIn-delete_rows;
    next_id_fresh = λ x t m. omega (arith, IsIn-max_id id x t m);
  }
