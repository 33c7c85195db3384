-- ===== src/Supply/Links.antt =====
-- The text of an eSIM's link, "LPA:1$<smdp>$<matching id>".
use esim_backend.Base.{ℕ, ◌≡◌, refl, ap, ◌∙◌, false, Option, some, [], ◌∷◌, ◌++◌, ◌==◌, ==_refl}
use esim_backend.Base.Text.{Text}
use esim_backend.Supply.Matching.{split, dollar, parts_or, parse_link}

-- A text in which a character does not occur.
abbrev pub IsWithout : ℕ → Text → Type 0
IsWithout c [] = Unit {0}
IsWithout c (x ∷ xs) = ((x == c) ≡ false) × IsWithout c xs

split_last : (c : ℕ) (a : Text) → IsWithout c a → split c a ≡ a ∷ []
unfolding split
split_last c [] h = refl
split_last c (x ∷ xs) (ne, h) = rw (ne, split_last c xs h) refl

split_next : (c : ℕ) (a rest : Text) → IsWithout c a → split c (a ++ c ∷ rest) ≡ a ∷ split c rest
unfolding split
split_next c [] rest h = rw (==_refl c) refl
split_next c (x ∷ xs) rest (ne, h) = rw (ne, split_next c xs rest h) refl

-- The address and the matching id are read back from a link that is printed from them, whatever the
-- prefix, where none of the three has a dollar sign; the fields given beside the link do not matter.
pub parse_link-print :
    (smdp code : Option Text) (p : ℕ) (prefix address matching_id : Text)
    → IsWithout dollar (p ∷ prefix)
    → IsWithout dollar address
    → IsWithout dollar matching_id
    → parse_link smdp code (some ((p ∷ prefix) ++ dollar ∷ (address ++ dollar ∷ matching_id)))
      ≡ (some address, some matching_id)
unfolding parse_link
parse_link-print smdp code p prefix address matching_id h k l = ap (parts_or smdp code) (
    split_next dollar (p ∷ prefix) _ h
    ∙ ap (◌∷◌ (p ∷ prefix))
        (split_next dollar address _ k ∙ ap (◌∷◌ address) (split_last dollar matching_id l)))
