-- ===== src/Base/Stepping.antt =====
-- One step of a `do` block at a time, with the actions shut: what the rest of the block runs on.
use esim_backend.Base.{
  ◌≡◌, refl, sym, ap, ◌∙◌, inl, inr, Bool-cases, pure, throw, Bool, true, false, Option, none, some,
  Result, ok, err, Action, throw_if, gets, unless_found, continue, ◌>>=◌, ◌>>◌,
}

module _ {X S A B : Type 0} (m : Action X S A) (f : A → Action X S B) (s : S) where
  pub bind_ok : {a : A} {s' : S} → m s ≡ (ok a, s') → (m >>= f) s ≡ f a s'
  unfolding ◌>>=◌
  bind_ok h = rw h

  pub bind_err : {e : X} {s' : S} → m s ≡ (err e, s') → (m >>= f) s ≡ (err e, s')
  unfolding ◌>>=◌
  bind_err h = rw h

module _ {X S B : Type 0} (b : Bool) (e : X) (k : Action X S B) (s : S) where
  pub throw_if_passes : b ≡ false → (throw_if b e >> k) s ≡ k s
  unfolding ◌>>=◌
  throw_if_passes h = rw h

  pub throw_if_throws : b ≡ true → (throw_if b e >> k) s ≡ (err e, s)
  unfolding ◌>>=◌
  throw_if_throws h = rw h

module _ {X S A B : Type 0} (m : Action X S B) (f : A → Action X S B) where
  pub unless_found-none : {o : Option A} → o ≡ none → unless_found o m f ≡ m
  unfolding unless_found
  unless_found-none h = rw h

  pub unless_found-some : {o : Option A} {a : A} → o ≡ some a → unless_found o m f ≡ f a
  unfolding unless_found
  unless_found-some h = rw h

-- A block that ends well: each of its steps did.
module _ {X S A B : Type 0} where
  pub bind_inv :
      (m : Action X S A) (f : A → Action X S B) (s : S) {b : B}
      → ((m >>= f) s).0 ≡ ok b
      → (a : A) × (s' : S) × (m s ≡ (ok a, s')) × ((f a s').0 ≡ ok b) × ((m >>= f) s ≡ f a s')
  unfolding ◌>>=◌
  bind_inv m f s {b = b} h = by_result (m s) refl h
    where
      by_result :
          (out : Result X A × S)
          → m s ≡ out
          → (continue out.0 f out.1).0 ≡ ok b
          → (a : A) × (s' : S) × (m s ≡ (ok a, s'))
            × ((f a s').0 ≡ ok b)
            × (continue (m s).0 f (m s).1 ≡ f a s')
      by_result (ok a, s') e h = (a, s', e, h, rw e refl)
      by_result (err x, s') e h = cc h

module _ {X S B : Type 0} (b : Bool) (e : X) (k : Action X S B) (s : S) where
  pub throw_if_inv : {x : B} → ((throw_if b e >> k) s).0 ≡ ok x → (b ≡ false) × ((k s).0 ≡ ok x)
  unfolding ◌>>=◌
  throw_if_inv {x} h = elim (Bool-cases b) [
    | inl stops ↦ cc (stops, h)
    | inr passes ↦ (passes, ap (λ out. out.0) (sym (throw_if_passes b e k s passes)) ∙ h)
  ]

module _ {X S A B : Type 0} (f : S → A) (k : A → Action X S B) (s : S) where
  pub gets_step : (gets f >>= k) s ≡ k (f s) s
  unfolding ◌>>=◌
  gets_step = refl

module _ {X S A : Type 0} where
  pub pure_inv : {a b : A} (s : S) → (pure {X = X} a s).0 ≡ ok b → a ≡ b
  unfolding pure
  pure_inv s h = cc h

  pub unless_found_inv :
      {B : Type 0} {o : Option A} (e : X) (f : A → Action X S B) (s : S) {b : B}
      → (unless_found o (throw e) f s).0 ≡ ok b
      → (a : A) × (o ≡ some a) × ((f a s).0 ≡ ok b)
  unfolding unless_found throw
  unless_found_inv {o = none} e f s h = cc h
  unless_found_inv {o = some a} e f s h = (a, refl, h)

  -- A block that goes on from a step that only read.
  pub reads_inv :
      {B : Type 0} (m : Action X S A) (f : A → Action X S B) (s : S) {b : B}
      → (m s).1 ≡ s
      → ((m >>= f) s).0 ≡ ok b
      → (a : A) × (m s ≡ (ok a, s)) × ((f a s).0 ≡ ok b) × ((m >>= f) s ≡ f a s)
  reads_inv m f s {b} reads h =
      let (a, s', step, done, rest) = bind_inv m f s h in
      let same : s' ≡ s = sym (ap (λ out. out.1) step) ∙ reads in
      (
        a,
        step ∙ ap (λ t. (ok a, t)) same,
        ap (λ t. (f a t).0) (sym same) ∙ done,
        rest ∙ ap (f a) same,
      )

  pub bind_reads :
      {B : Type 0} (m : Action X S A) (f : A → Action X S B) (s : S)
      → (m s).1 ≡ s
      → ((a : A) (t : S) → (f a t).1 ≡ t)
      → ((m >>= f) s).1 ≡ s
  unfolding ◌>>=◌
  bind_reads {B = B} m f s reads reads' = by_result (m s) reads
    where
      by_result : (out : Result X A × S) → out.1 ≡ s → (continue out.0 f out.1).1 ≡ s
      by_result (ok a, t) h = reads' a t ∙ h
      by_result (err e, t) h = h
