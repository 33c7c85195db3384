-- ===== src/Storage/Interface.antt =====
-- TypeORM as the services use it (a third-party package): one repository for each table, seen
-- through the table's unique column, and `dataSource.transaction`. The services take both as
-- parameters; the laws are the documented behaviour that they rely on.
use esim_backend.Base.{
  ℕ, ◌<◌, ◌≡◌, Bool, List, ◌∷◌, Option, none, some, Result, ok, err, Action, if◌then◌else◌,
}
use esim_backend.Base.Int.{ℤ, pos, ◌+ℤ◌}

-- `K` is the type of the unique column, `key` the column and `same` the comparison.
pub record Repository (K E : Type 0) (same : K → K → Bool) (key : E → K) : Type 1 where
  pub Table : Type 0
  -- `findOne({ where: { <key>: k } })`
  pub find_one : K → Table → Option E
  -- the value that the sequence of the primary column gives to the next row
  pub next_id : Table → ℕ
  -- `save`: an insert, or an update of the row that has the entity's key
  pub save : E → Table → Table
  -- `find({ where })`
  pub find : (E → Bool) → Table → List E
  -- `update(<where>, <set>)`
  pub update : (E → Bool) → (E → E) → Table → Table
  -- `COALESCE(SUM(<column>), 0)` over the rows that pass the test
  pub sum : (E → Bool) → (E → ℤ) → Table → ℤ
  -- `count({ where })`
  pub count : (E → Bool) → Table → ℕ
  pub find_one-save :
      (k : K) (e : E) (t : Table)
      → find_one k (save e t) ≡ (if same k (key e) then some e else find_one k t)
  pub find_one-key : (k : K) (e : E) (t : Table) → find_one k t ≡ some e → key e ≡ k
  pub find_one-update :
      (k : K) (p : E → Bool) (f : E → E) (t : Table)
      → ((e : E) → key (f e) ≡ key e)
      → find_one k (update p f t)
        ≡ elim (find_one k t) [ none ↦ none | some e ↦ some (if p e then f e else e) ]
  pub sum-save :
      (p : E → Bool) (f : E → ℤ) (e : E) (t : Table)
      → sum p f (save e t)
          +ℤ elim (find_one (key e) t) [ none ↦ pos 0 | some x ↦ (if p x then f x else pos 0) ]
        ≡ sum p f t +ℤ (if p e then f e else pos 0)
  pub next_id_pos : (t : Table) → 0 < next_id t

-- A table that is only inserted into, and is read by a nullable unique column.
pub record Journal (K E : Type 0) (key : E → Option K) : Type 1 where
  pub Table : Type 0
  pub find_one : K → Table → Option E
  pub next_id : Table → ℕ
  pub insert : E → Table → Table
  -- `find({ order: { createdAt: 'DESC' } })`
  pub find : Table → List E
  pub find_one-insert_self :
      (k : K) (e : E) (t : Table) → key e ≡ some k → find_one k (insert e t) ≡ some e
  pub find_one-insert_ne :
      (k : K) (e : E) (t : Table) → ¬ (key e ≡ some k) → find_one k (insert e t) ≡ find_one k t
  pub find-insert : (e : E) (t : Table) → find (insert e t) ≡ e ∷ find t
  pub next_id_pos : (t : Table) → 0 < next_id t

-- How a transaction that began at `db` ends: an exception rolls it back.
abbrev pub settle : {X S A : Type 0} → S → Result X A × S → Result X A × S
settle s (ok a, s') = (ok a, s')
settle s (err e, s') = (err e, s)

-- `dataSource.transaction(async (manager) => …)`
pub record DataSource (X S : Type 0) : Type 1 where
  pub transaction : (A : Type 0) → Action X S A → Action X S A
  pub transaction_lem : (A : Type 0) (m : Action X S A) (s : S) → transaction A m s ≡ settle s (m s)
