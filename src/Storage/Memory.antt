-- ===== src/Storage/Memory.antt =====
-- An implementation of the repositories by lists of rows: the laws of `Repository`, `Journal` and
-- `DataSource` can be met, and the services run in tests.
use esim_backend.Base.{
  ℕ, suc, ◌≡◌, refl, ap, Bool, true, false, List, [], ◌∷◌, Option, none, some, inl, inr, arith,
  if◌then◌else◌, Bool-cases,
}
use esim_backend.Base.Int.{ℤ, pos, ◌+ℤ◌, +ℤ_regroup, int_laws}
use esim_backend.Base.Lists.{length}
use esim_backend.Storage.Interface.{Repository, Journal, DataSource, settle}
use mathlib.Core.Logic.{◌↔◌}

module _ {K E : Type 0} (same : K → K → Bool) (key : E → K) where
  abbrev pub find_row : K → List E → Option E
  find_row k [] = none
  find_row k (x ∷ xs) = if same k (key x) then some x else find_row k xs

  abbrev pub save_row : E → List E → List E
  save_row e [] = e ∷ []
  save_row e (x ∷ xs) = if same (key e) (key x) then e ∷ xs else x ∷ save_row e xs

module _ {E : Type 0} where
  abbrev pub update_rows : (E → Bool) → (E → E) → List E → List E
  update_rows p f [] = []
  update_rows p f (x ∷ xs) = (if p x then f x else x) ∷ update_rows p f xs

  abbrev pub find_rows : (E → Bool) → List E → List E
  find_rows p [] = []
  find_rows p (x ∷ xs) = let rest = find_rows p xs in if p x then x ∷ rest else rest

  abbrev pub sum_rows : (E → Bool) → (E → ℤ) → List E → ℤ
  sum_rows p f [] = pos 0
  sum_rows p f (x ∷ xs) = (if p x then f x else pos 0) +ℤ sum_rows p f xs

  abbrev pub count_rows : (E → Bool) → List E → ℕ
  count_rows p [] = 0
  count_rows p (x ∷ xs) = let n = count_rows p xs in if p x then suc n else n

module _ {K E : Type 0} (same : K → K → Bool) (key : E → K)
    (reflects : (a b : K) → (same a b ≡ true) ↔ (a ≡ b)) where
  pub find_row-save_row :
      (k : K) (e : E) (t : List E)
      → find_row same key k (save_row same key e t)
        ≡ (if same k (key e) then some e else find_row same key k t)
  find_row-save_row k e [] = refl
  find_row-save_row k e (x ∷ t) = ground (
    arith,
    reflects k (key e),
    reflects (key e) (key x),
    reflects k (key x),
    find_row-save_row k e t,
  )

  pub find_row-key : (k : K) (e : E) (t : List E) → find_row same key k t ≡ some e → key e ≡ k
  find_row-key k e [] h = cc
  find_row-key k e (x ∷ t) h = ground (arith, reflects k (key x), find_row-key k e t)

  pub find_row-update_rows :
      (k : K) (p : E → Bool) (f : E → E) (t : List E)
      → ((e : E) → key (f e) ≡ key e)
      → find_row same key k (update_rows p f t)
        ≡ elim (find_row same key k t) [ none ↦ none | some e ↦ some (if p e then f e else e) ]
  find_row-update_rows k p f [] h = refl
  find_row-update_rows k p f (x ∷ t) h = ground (arith, h x, find_row-update_rows k p f t h)

  pub sum_rows-save_row :
      (p : E → Bool) (f : E → ℤ) (e : E) (t : List E)
      → sum_rows p f (save_row same key e t) +ℤ elim (find_row same key (key e) t) [
        | none ↦ pos 0
        | some x ↦ (if p x then f x else pos 0)
      ]
        ≡ sum_rows p f t +ℤ (if p e then f e else pos 0)
  sum_rows-save_row p f e [] = omega int_laws
  sum_rows-save_row p f e (x ∷ t) = elim (Bool-cases (same (key e) (key x))) [
    | inl h ↦ rw h (omega int_laws)
    | inr h ↦ rw h (+ℤ_regroup _ _ _ _ _ (sum_rows-save_row p f e t))
  ]

  abbrev pub repository : Repository K E same key
  repository = record {
    Table = List E;
    find_one = find_row same key;
    next_id = λ t. suc (length t);
    save = save_row same key;
    find = find_rows;
    update = update_rows;
    sum = sum_rows;
    count = count_rows;
    find_one-save = find_row-save_row;
    find_one-key = find_row-key;
    find_one-update = find_row-update_rows;
    sum-save = sum_rows-save_row;
    next_id_pos = λ t. omega arith;
  }

-- The journal keeps its newest row first.
module _ {K E : Type 0} (same : K → K → Bool) (key : E → Option K)
    (reflects : (a b : K) → (same a b ≡ true) ↔ (a ≡ b)) where
  abbrev pub has_key : K → Option K → Bool
  has_key k none = false
  has_key k (some j) = same j k

  abbrev pub find_entry : K → List E → Option E
  find_entry k [] = none
  find_entry k (x ∷ xs) = if has_key k (key x) then some x else find_entry k xs

  pub find_entry_self :
      (k : K) (e : E) (t : List E) → key e ≡ some k → find_entry k (e ∷ t) ≡ some e
  find_entry_self k e t h = rw (h, (reflects k k).1 refl)

  pub has_key-some : (k : K) (o : Option K) → has_key k o ≡ true → o ≡ some k
  has_key-some k none h = cc
  has_key-some k (some j) h = ap some ((reflects j k).0 h)

  pub find_entry_ne :
      (k : K) (e : E) (t : List E) → ¬ (key e ≡ some k) → find_entry k (e ∷ t) ≡ find_entry k t
  find_entry_ne k e t h = elim (Bool-cases (has_key k (key e))) [
    | inl p ↦ absurd (h (has_key-some k (key e) p))
    | inr p ↦ rw p
  ]

  abbrev pub journal : Journal K E key
  journal = record {
    Table = List E;
    find_one = find_entry;
    next_id = λ t. suc (length t);
    insert = λ e t. e ∷ t;
    find = λ t. t;
    find_one-insert_self = find_entry_self;
    find_one-insert_ne = find_entry_ne;
    find-insert = λ e t. refl;
    next_id_pos = λ t. omega arith;
  }

-- A transaction that restores the state when its body throws.
module _ {X S : Type 0} where
  abbrev pub data_source : DataSource X S
  data_source = record { transaction = λ A m s. settle s (m s); transaction_lem = λ A m s. refl }
