-- ===== src/Base/Loops.antt =====
-- A loop over rows that ends well has done its work for each of them.
use esim_backend.Base.{◌≡◌, refl, sym, subst, inl, inr, List, [], ◌∷◌, ⊤, ok, Action, for_each}
use esim_backend.Base.Lists.{IsIn}
use esim_backend.Base.Keeps.{Keeps, Keeps-bind, Keeps-pure, Keeps-for_each}
use esim_backend.Base.Stepping.{bind_inv}

module _ {X S A : Type 0} where
  -- What is so for each row of a list is kept where it is kept for a row.
  pub Keeps-each :
      {B : Type 0} (G : A → S → Type 0) (rows : List A) (action : Action X S B)
      → ((a : A) → Keeps (G a) action)
      → Keeps (λ s. (a : A) → IsIn a rows → G a s) action
  Keeps-each G rows action k = record {
    kept = λ before inv a is_in. (k a).kept before (inv a is_in);
  }

  module _ (G : A → S → Type 0) (body : A → Action X S ⊤)
      (works : (a : A) (s : S) → (body a s).0 ≡ ok tt → G a (body a s).1)
      (keeps : (a b : A) → Keeps (G a) (body b)) where
    pub for_each_all :
        (rows : List A) (s : S)
        → (for_each rows body s).0 ≡ ok tt
        → (a : A) → IsIn a rows
        → G a (for_each rows body s).1
    unfolding for_each
    for_each_all [] s done a is_in = absurd is_in
    for_each_all (b ∷ rows) s done a (inr is_in) =
        let (u, s', step, done', whole) = bind_inv (body b) (λ _. for_each rows body) s done in
        subst (λ out. G a out.1) (sym whole) (for_each_all rows s' done' a is_in)
    for_each_all (b ∷ rows) s done a (inl e) =
        let (u, s', step, done', whole) = bind_inv (body b) (λ _. for_each rows body) s done in
        let here : G b s' = subst (λ out. G b out.1) step (works b s (rw step refl)) in
        subst (λ out. G a out.1) (sym whole)
          (subst (λ x. G x (for_each rows body s').1) (sym e)
            ((Keeps-for_each {I = G b} rows body (keeps b)).kept s' here))

  pub Keeps-for_each_in :
      {I : S → Type 0} (rows : List A) (body : A → Action X S ⊤)
      → ((a : A) → IsIn a rows → Keeps I (body a))
      → Keeps I (for_each rows body)
  unfolding for_each
  Keeps-for_each_in [] body safe = Keeps-pure tt
  Keeps-for_each_in (a ∷ rows) body safe =
      Keeps-bind (body a) _ (safe a (inl refl))
        (λ _. Keeps-for_each_in rows body (λ b is_in. safe b (inr is_in)))

  -- The same for a loop whose body is only known for the rows of the list.
  pub for_each_all_in :
      (G : A → S → Type 0) (body : A → Action X S ⊤) (rows : List A)
      → ((a : A) (s : S) → IsIn a rows → (body a s).0 ≡ ok tt → G a (body a s).1)
      → ((a b : A) → IsIn b rows → Keeps (G a) (body b))
      → (s : S) → (for_each rows body s).0 ≡ ok tt
      → (a : A) → IsIn a rows
      → G a (for_each rows body s).1
  unfolding for_each
  for_each_all_in G body [] works keeps s done a is_in = absurd is_in
  for_each_all_in G body (b ∷ rows) works keeps s done a (inr is_in) =
      let (u, s', step, done', whole) = bind_inv (body b) (λ _. for_each rows body) s done in
      subst (λ out. G a out.1) (sym whole)
        (for_each_all_in G body rows (λ c t m. works c t (inr m)) (λ c c' m. keeps c c' (inr m)) s'
          done' a is_in)
  for_each_all_in G body (b ∷ rows) works keeps s done a (inl e) =
      let (u, s', step, done', whole) = bind_inv (body b) (λ _. for_each rows body) s done in
      let here : G b s' = subst (λ out. G b out.1) step (works b s (inl refl) (rw step refl)) in
      subst (λ out. G a out.1) (sym whole)
        (subst (λ x. G x (for_each rows body s').1) (sym e)
          ((Keeps-for_each_in {I = G b} rows body (λ c m. keeps b c (inr m))).kept s' here))
