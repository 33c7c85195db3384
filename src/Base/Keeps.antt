-- ===== src/Base/Keeps.antt =====
-- Invariants of actions: one rule for each way to build an action.
use esim_backend.Base.{
  Bool, true, false, Option, none, some, List, [], ◌∷◌, ⊤, Result, ok, err, Action, pure, throw,
  gets, throw_if, attempt, recover, catching, succeeds, recovered, unless_found, continue, for_each,
  ◌>>=◌, if◌then◌else◌,
}

-- Whether the action returns or throws, the invariant `I` holds after it where it held before.
pub record Keeps {X S A : Type 0} (I : S → Type 0) (action : Action X S A) : Type 0 where
  pub kept : (before : S) → I before → I (action before).1

-- The rules of the loops and the branches come first, those of the steps after them.
module _ {X S A B : Type 0} {I : S → Type 0} where
  Keeps-continue :
      (outcome : Result X A) (now : S) (rest : A → Action X S B)
      → ((a : A) → Keeps I (rest a))
      → I now
      → I (continue outcome rest now).1
  Keeps-continue (err e) now rest safe inv = inv
  Keeps-continue (ok a) now rest safe inv = (safe a).kept now inv

  pub Keeps-bind :
      (step : Action X S A) (rest : A → Action X S B)
      → Keeps I step
      → ((a : A) → Keeps I (rest a))
      → Keeps I (step >>= rest)
  unfolding ◌>>=◌
  Keeps-bind step rest first safe = record {
    kept = λ before inv.
        Keeps-continue (step before).0 (step before).1 rest safe (first.kept before inv);
  }

  pub Keeps-unless_found :
      (row : Option A) (missing : Action X S B) (found : A → Action X S B)
      → Keeps I missing
      → ((a : A) → Keeps I (found a))
      → Keeps I (unless_found row missing found)
  unfolding unless_found
  Keeps-unless_found (some a) missing found k safe = safe a
  Keeps-unless_found none missing found k safe = k

module _ {X S : Type 0} {I : S → Type 0} where
  pub Keeps-throw_if : (test : Bool) (e : X) → Keeps I (throw_if test e)
  unfolding throw_if
  Keeps-throw_if test e = record { kept = λ before inv. inv }

module _ {X S A : Type 0} {I : S → Type 0} where
  pub Keeps-attempt : (tried : Action X S A) → Keeps I tried → Keeps I (attempt tried)
  unfolding attempt
  Keeps-attempt tried k = record { kept = λ before inv. k.kept before inv }

  Keeps-recover :
      (outcome : Result X A) (now : S) (handler : Action X S A)
      → Keeps I handler
      → I now
      → I (recover outcome handler now).1
  Keeps-recover (ok a) now handler k inv = inv
  Keeps-recover (err e) now handler k inv = k.kept now inv

  pub Keeps-catching :
      (tried handler : Action X S A)
      → Keeps I tried
      → Keeps I handler
      → Keeps I (catching tried handler)
  unfolding catching
  Keeps-catching tried handler k k' = record {
    kept = λ before inv.
        Keeps-recover (tried before).0 (tried before).1 handler k' (k.kept before inv);
  }

  pub Keeps-succeeds : (tried : Action X S A) → Keeps I tried → Keeps I (succeeds tried)
  unfolding succeeds
  Keeps-succeeds tried k = record { kept = λ before inv. k.kept before inv }

  pub Keeps-recovered :
      (default : A) (tried : Action X S A) → Keeps I tried → Keeps I (recovered default tried)
  unfolding recovered
  Keeps-recovered default tried k = record { kept = λ before inv. k.kept before inv }

  pub Keeps-if :
      (test : Bool) (positive negative : Action X S A)
      → Keeps I positive
      → Keeps I negative
      → Keeps I (if test then positive else negative)
  Keeps-if false positive negative k k' = k'
  Keeps-if true positive negative k k' = k

  pub Keeps-gets : (read : S → A) → Keeps {X = X} I (gets read)
  unfolding gets
  Keeps-gets read = record { kept = λ before inv. inv }

  pub Keeps-throw : (e : X) → Keeps {A = A} I (throw e)
  unfolding throw
  Keeps-throw e = record { kept = λ before inv. inv }

  pub Keeps-pure : (a : A) → Keeps {X = X} I (pure a)
  unfolding pure
  Keeps-pure a = record { kept = λ before inv. inv }

module _ {X S A : Type 0} {I : S → Type 0} where
  pub Keeps-for_each :
      (rows : List A) (body : A → Action X S ⊤)
      → ((a : A) → Keeps I (body a))
      → Keeps I (for_each rows body)
  unfolding for_each
  Keeps-for_each [] body safe = Keeps-pure tt
  Keeps-for_each (a ∷ rows) body safe =
      Keeps-bind (body a) _ (safe a) (λ _. Keeps-for_each rows body safe)

pub ruleset keeps_rules = (
  Keeps-bind, Keeps-unless_found, Keeps-for_each, Keeps-if, Keeps-attempt, Keeps-catching,
  Keeps-succeeds, Keeps-recovered, Keeps-throw_if, Keeps-throw, Keeps-gets, Keeps-pure,
)
