-- ===== src/Storage/Sums.antt =====
-- How a sum over the rows changes when a row is stored.
use esim_backend.Base.{◌≡◌, sym, ◌∙◌, Bool, true, false, none, some}
use esim_backend.Base.Int.{ℤ, pos, ◌+ℤ◌, int_laws}
use esim_backend.Storage.Interface.{Repository}

+ℤ-zero : (a : ℤ) → a +ℤ pos 0 ≡ a
+ℤ-zero a = omega int_laws

module _ {K E : Type 0} {same : K → K → Bool} {key : E → K} (r : Repository K E same key)
    (p : E → Bool) (f : E → ℤ) (e : E) (t : r.Table) where
  -- A row under a new key that passes the test adds its column.
  pub sum-save_new :
      r.find_one (key e) t ≡ none → p e ≡ true → r.sum p f (r.save e t) ≡ r.sum p f t +ℤ f e
  sum-save_new fresh passes =
      let law = r.sum-save p f e t in sym (+ℤ-zero _) ∙ (rw (fresh, passes) at law)

  -- A row that passed the test and no longer does takes its column away.
  pub sum-save_drop :
      {x : E}
      → r.find_one (key e) t ≡ some x
      → p x ≡ true
      → p e ≡ false
      → r.sum p f (r.save e t) +ℤ f x ≡ r.sum p f t
  sum-save_drop found passed fails =
      let law = r.sum-save p f e t in (rw (found, passed, fails) at law) ∙ +ℤ-zero _
