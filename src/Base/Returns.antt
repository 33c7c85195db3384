-- ===== src/Base/Returns.antt =====
-- Actions that never throw.
use esim_backend.Base.{
  ◌≡◌, refl, List, [], ◌∷◌, ⊤, Result, ok, err, Action, pure, gets, modify, attempt, recovered,
  for_each, continue, ◌>>=◌,
}

pub record Returns {X S A : Type 0} (action : Action X S A) : Type 0 where
  pub returns : (s : S) → (a : A) × ((action s).0 ≡ ok a)

module _ {X S A B : Type 0} where
  Returns-continue :
      (outcome : Result X A) (now : S) (rest : A → Action X S B)
      → (a : A) × (outcome ≡ ok a)
      → ((a : A) → Returns (rest a))
      → (b : B) × ((continue outcome rest now).0 ≡ ok b)
  Returns-continue (ok a) now rest (x, e) r = (r a).returns now
  Returns-continue (err e) now rest (x, h) r = cc h

  pub Returns-bind :
      (step : Action X S A) (rest : A → Action X S B)
      → Returns step
      → ((a : A) → Returns (rest a))
      → Returns (step >>= rest)
  unfolding ◌>>=◌
  Returns-bind step rest r rs = record {
    returns = λ s. Returns-continue (step s).0 (step s).1 rest (r.returns s) rs;
  }

module _ {X S A : Type 0} where
  pub Returns-pure : (a : A) → Returns {X = X} {S = S} (pure a)
  unfolding pure
  Returns-pure a = record { returns = λ s. (a, refl) }

  pub Returns-gets : (f : S → A) → Returns {X = X} (gets f)
  unfolding gets
  Returns-gets f = record { returns = λ s. (f s, refl) }

  pub Returns-recovered : (default : A) (m : Action X S A) → Returns (recovered default m)
  unfolding recovered
  Returns-recovered default m = record { returns = λ s. (_, refl) }

  pub Returns-attempt : (m : Action X S A) → Returns (attempt m)
  unfolding attempt
  Returns-attempt m = record { returns = λ s. (tt, refl) }

module _ {X S : Type 0} where
  pub Returns-modify : (f : S → S) → Returns {X = X} (modify f)
  unfolding modify
  Returns-modify f = record { returns = λ s. (tt, refl) }

module _ {X S A : Type 0} where
  pub Returns-for_each :
      (rows : List A) (body : A → Action X S ⊤)
      → ((a : A) → Returns (body a))
      → Returns (for_each rows body)
  unfolding for_each
  Returns-for_each [] body r = Returns-pure tt
  Returns-for_each (a ∷ rows) body r =
      Returns-bind (body a) _ (r a) (λ _. Returns-for_each rows body r)

pub ruleset returns_rules = (
  Returns-bind, Returns-for_each, Returns-recovered, Returns-attempt, Returns-modify, Returns-gets,
  Returns-pure,
)
