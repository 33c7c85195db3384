-- ===== src/Supply/Composed.antt =====
-- Composed steps of a submission: what they leave when their parts leave it.
use esim_backend.Base.{
  ℕ, ◌≤◌, refl, sym, subst, inl, inr, not, List, [], ◌∷◌, ◌++◌, ⊤, for_each, when, ◌>>=◌, ◌>>◌,
}
use esim_backend.Base.Lists.{IsIn-append, is_nil}
use esim_backend.Base.Keeps.{Keeps, Keeps-bind, Keeps-for_each, Keeps-pure}
use esim_backend.Base.Returns.{Returns, Returns-bind, Returns-for_each, Returns-pure}
use esim_backend.Base.Loops.{for_each_all}
use esim_backend.Base.Stepping.{bind_inv}
use esim_backend.Supply.Data.{SupplyEnv, SupplyService}
use esim_backend.Supply.Direct.{WantedItem}
use esim_backend.Supply.Giving.{HasItem, Gives}

module _ ⦃s : SupplyEnv⦄ (order_id : ℕ) where
  pub Gives-ask :
      {A : Type 0} (ws : List WantedItem) (ask : SupplyService A) (rest : A → SupplyService ⊤)
      → Returns ask
      → ((plan_id : ℕ) → Keeps (HasItem order_id plan_id) ask)
      → ((a : A) → Gives order_id ws (rest a))
      → Gives order_id ws (ask >>= rest)
  Gives-ask ws ask rest returns keeps gives = record {
    returning = Returns-bind ask rest returns (λ a. (gives a).returning);
    keeping = λ plan_id. Keeps-bind ask rest (keeps plan_id) (λ a. (gives a).keeping plan_id);
    giving = λ w db is_in positive.
        let (u, done) = (Returns-bind ask rest returns (λ a. (gives a).returning)).returns db in
        let (a, db', step, done', whole) = bind_inv ask rest db done in
        subst (λ out. HasItem order_id w.plan_id out.1) (sym whole)
          ((gives a).giving w db' is_in positive);
  }

  pub Gives-then :
      (ws : List WantedItem) (first rest : SupplyService ⊤)
      → Gives order_id ws first
      → Returns rest
      → ((plan_id : ℕ) → Keeps (HasItem order_id plan_id) rest)
      → Gives order_id ws (first >> rest)
  Gives-then ws first rest gives returns keeps = record {
    returning = Returns-bind first _ gives.returning (λ u. returns);
    keeping = λ plan_id. Keeps-bind first _ (gives.keeping plan_id) (λ u. keeps plan_id);
    giving = λ w db is_in positive.
        let (u, done) =
          (Returns-bind first (λ u. rest) gives.returning (λ u. returns)).returns db in
        let (a, db', step, done', whole) = bind_inv first (λ u. rest) db done in
        let there =
          subst (λ out. HasItem order_id w.plan_id out.1) step (gives.giving w db is_in positive) in
        subst (λ out. HasItem order_id w.plan_id out.1) (sym whole)
          ((keeps w.plan_id).kept db' there);
  }

  pub Gives-when :
      (ws : List WantedItem) (action : SupplyService ⊤)
      → Gives order_id ws action
      → Gives order_id ws (when (not (is_nil ws)) action)
  Gives-when [] action gives = record {
    returning = Returns-pure tt;
    keeping = λ plan_id. Keeps-pure tt;
    giving = λ w db is_in. absurd is_in;
  }
  Gives-when (w ∷ ws) action gives = gives

  pub Gives-loop :
      (ws : List WantedItem) (body : WantedItem → SupplyService ⊤)
      → ((w : WantedItem) → Gives order_id (w ∷ []) (body w))
      → Gives order_id ws (for_each ws body)
  Gives-loop ws body gives = record {
    returning = Returns-for_each ws body (λ w. (gives w).returning);
    keeping = λ plan_id. Keeps-for_each ws body (λ w. (gives w).keeping plan_id);
    giving = λ w db is_in positive.
        let (u, done) = (Returns-for_each ws body (λ v. (gives v).returning)).returns db in
        for_each_all (λ v d. 1 ≤ v.quantity → HasItem order_id v.plan_id d) body
          (λ v d h positive'. (gives v).giving v d (inl refl) positive')
          (λ v v'. record {
            kept =
                λ before inv positive'. ((gives v').keeping v.plan_id).kept before (inv positive');
          })
          ws db done w is_in positive;
  }

  pub Gives-both :
      (xs ys : List WantedItem) (first rest : SupplyService ⊤)
      → Gives order_id xs first
      → Gives order_id ys rest
      → Gives order_id (xs ++ ys) (first >> rest)
  Gives-both xs ys first rest gives gives' =
      let early = Gives-then xs first rest gives gives'.returning gives'.keeping in
      let late = Gives-ask ys first (λ u. rest) gives.returning gives.keeping (λ u. gives') in
      record {
        returning = early.returning;
        keeping = early.keeping;
        giving = λ w db is_in positive. elim (IsIn-append w xs ys is_in) [
          | inl m ↦ early.giving w db m positive
          | inr m ↦ late.giving w db m positive
        ];
      }
