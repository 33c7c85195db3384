-- ===== src/Base/Effects.antt =====
-- The effect of a service method: the state is what the tables hold, and a rejected promise is an
-- `err` that comes with the state reached so far, since what was saved stays saved.
use mathlib.Core.Bool.{Bool, true, false}
use mathlib.Core.Option.{Option, none, some}
use mathlib.Core.List.{List, [], ◌∷◌}
use esim_backend.Base.Tests.{if◌then◌else◌}

abbrev pub ⊤ : Type 0
⊤ = Unit

pub data Result {ℓ} (X A : Type ℓ) : Type ℓ where
  ok : A → Result X A
  err : X → Result X A

-- X is the type of the exceptions, S that of the state.
abbrev pub Action : Type 0 → Type 0 → Type 0 → Type 0
Action X S A = S → Result X A × S

module _ {X S A : Type 0} where
  unfoldable pub pure : A → Action X S A
  pure a s = (ok a, s)

  unfoldable pub throw : X → Action X S A
  throw e s = (err e, s)

  unfoldable pub gets : (S → A) → Action X S A
  gets f s = (ok (f s), s)

module _ {X S : Type 0} where
  unfoldable pub modify : (S → S) → Action X S ⊤
  modify f s = (ok tt, f s)

  -- `if (test) throw e`
  unfoldable pub throw_if : Bool → X → Action X S ⊤
  throw_if b e s = (if b then err e else ok tt, s)

  -- `try { … } catch { log }`: the exception is swallowed, what was saved before it stays.
  unfoldable pub attempt : {A : Type 0} → Action X S A → Action X S ⊤
  attempt m s = let (r, s') = m s in (ok tt, s')

  abbrev pub recover : {A : Type 0} → Result X A → Action X S A → Action X S A
  recover (ok a) handler s = (ok a, s)
  recover (err e) handler s = handler s

  -- `try { … } catch { … }`
  unfoldable pub catching : {A : Type 0} → Action X S A → Action X S A → Action X S A
  catching m handler s = let (r, s') = m s in recover r handler s'

abbrev is_ok : {X A : Type 0} → Result X A → Bool
is_ok (ok a) = true
is_ok (err e) = false

abbrev value_or : {X A : Type 0} → A → Result X A → A
value_or default (ok a) = a
value_or default (err e) = default

module _ {X S A : Type 0} where
  -- `try { result = … } catch { log }`, where the result is what it was without the call
  unfoldable pub recovered : A → Action X S A → Action X S A
  recovered default m s = let (r, s') = m s in (ok (value_or default r), s')

  -- `try { …; return true } catch { return false }`
  unfoldable pub succeeds : Action X S A → Action X S Bool
  succeeds m s = let (r, s') = m s in (ok (is_ok r), s')

module _ {X S A B : Type 0} where
  -- `if (!row) { … } else { … }`
  unfoldable pub unless_found : Option A → Action X S B → (A → Action X S B) → Action X S B
  unless_found none m f = m
  unless_found (some a) m f = f a

  abbrev pub continue : Result X A → (A → Action X S B) → Action X S B
  continue (ok a) f s = f a s
  continue (err e) f s = (err e, s)

  infixl 5 ◌>>=◌ ◌>>◌
  -- To open this is to open the actions above too.
  unfoldable pub ◌>>=◌ : Action X S A → (A → Action X S B) → Action X S B
  unfolding pure throw gets modify throw_if attempt catching succeeds recovered unless_found
  ◌>>=◌ m f s = let (r, s') = m s in continue r f s'

  abbrev pub ◌>>◌ : Action X S A → Action X S B → Action X S B
  m >> k = m >>= λ _. k

module _ {X S A : Type 0} where
  -- `for (const row of rows) { … }`
  unfoldable pub for_each : List A → (A → Action X S ⊤) → Action X S ⊤
  for_each [] f = pure tt
  for_each (a ∷ as') f = f a >> for_each as' f

-- `if (test) { … }`
abbrev pub when : {X S : Type 0} → Bool → Action X S ⊤ → Action X S ⊤
when b m = if b then m else pure tt
