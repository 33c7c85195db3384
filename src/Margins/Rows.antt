-- ===== src/Margins/Rows.antt =====
-- The rows that the repository's queries select.
use esim_backend.Base.{
  ◌≡◌, refl, ap, ◌∙◌, ◌⊎◌, inl, inr, ℕ, ◌==◌, Bool, true, false, [], ◌∷◌, leb, if◌then◌else◌,
}
use esim_backend.Margins.Tiers.{
  ProfitMarginTier, Tiers, rows_where, store_tier, insert_by_min, sort_by_min,
}

abbrev pub IsRow : ProfitMarginTier → Tiers → Type 0
IsRow t [] = ⊥
IsRow t (s ∷ ts) = (t ≡ s) ⊎ IsRow t ts

IsRow-if :
    (b : Bool) (t : ProfitMarginTier) (xs ys : Tiers)
    → (b ≡ true → IsRow t xs)
    → (b ≡ false → IsRow t ys)
    → IsRow t (if b then xs else ys)
IsRow-if true t xs ys h h' = h refl
IsRow-if false t xs ys h h' = h' refl

of_IsRow_if :
    (b : Bool) (t : ProfitMarginTier) (xs ys : Tiers)
    → IsRow t (if b then xs else ys)
    → ((b ≡ true) × IsRow t xs) ⊎ ((b ≡ false) × IsRow t ys)
of_IsRow_if true t xs ys h = inl (refl, h)
of_IsRow_if false t xs ys h = inr (refl, h)

pub rows_where_sound :
    (test : ProfitMarginTier → Bool) (ts : Tiers) (t : ProfitMarginTier)
    → IsRow t (rows_where test ts)
    → IsRow t ts × (test t ≡ true)
unfolding rows_where
rows_where_sound test [] t h = absurd h
rows_where_sound test (s ∷ ts) t h =
    elim (of_IsRow_if (test s) t (s ∷ rows_where test ts) (rows_where test ts) h) [
      | inl (passes, inl e) ↦ (inl e, ap test e ∙ passes)
      | inl (passes, inr r) ↦ let (m, p) = rows_where_sound test ts t r in (inr m, p)
      | inr (fails, r) ↦ let (m, p) = rows_where_sound test ts t r in (inr m, p)
    ]

pub rows_where_complete :
    (test : ProfitMarginTier → Bool) (ts : Tiers) (t : ProfitMarginTier)
    → IsRow t ts
    → test t ≡ true
    → IsRow t (rows_where test ts)
unfolding rows_where
rows_where_complete test [] t h passes = absurd h
rows_where_complete test (s ∷ ts) t (inl e) passes =
    IsRow-if (test s) t (s ∷ rows_where test ts) (rows_where test ts) (λ b. inl e)
      (λ fails. cc (passes, ap test e, fails))
rows_where_complete test (s ∷ ts) t (inr m) passes =
    let r = rows_where_complete test ts t m passes in
    IsRow-if (test s) t (s ∷ rows_where test ts) (rows_where test ts) (λ b. inr r) (λ b. r)

-- After an update a row is the new one, or an old one with another id.
pub store_tier_sound :
    (id : ℕ) (new : ProfitMarginTier) (ts : Tiers) (t : ProfitMarginTier)
    → IsRow t (store_tier id new ts)
    → (t ≡ new) ⊎ (IsRow t ts × ((t.id == id) ≡ false))
unfolding store_tier
store_tier_sound id new [] t h = absurd h
store_tier_sound id new (s ∷ ts) t h =
    let later : IsRow t (store_tier id new ts)
        → (t ≡ new) ⊎ (IsRow t (s ∷ ts) × ((t.id == id) ≡ false)) =
      λ m. elim (store_tier_sound id new ts t m) [ inl e ↦ inl e | inr (r, k) ↦ inr (inr r, k) ] in
    elim (of_IsRow_if (s.id == id) t (new ∷ store_tier id new ts) (s ∷ store_tier id new ts) h) [
      | inl (same, inl e) ↦ inl e
      | inl (same, inr m) ↦ later m
      | inr (other, inl e) ↦ inr (inl e, ap (λ x. x.id == id) e ∙ other)
      | inr (other, inr m) ↦ later m
    ]

insert_by_min_sound :
    (t s : ProfitMarginTier) (ts : Tiers) → IsRow s (insert_by_min t ts) → IsRow s (t ∷ ts)
unfolding insert_by_min
insert_by_min_sound t s [] h = h
insert_by_min_sound t s (r ∷ ts) h =
    elim (of_IsRow_if (leb t.min_vnd r.min_vnd) s (t ∷ r ∷ ts) (r ∷ insert_by_min t ts) h) [
      | inl (b, m) ↦ m
      | inr (b, inl e) ↦ inr (inl e)
      | inr (b, inr m) ↦ elim (insert_by_min_sound t s ts m) [ inl e ↦ inl e | inr n ↦ inr (inr n) ]
    ]

insert_by_min_complete :
    (t s : ProfitMarginTier) (ts : Tiers) → IsRow s (t ∷ ts) → IsRow s (insert_by_min t ts)
unfolding insert_by_min
insert_by_min_complete t s [] h = h
insert_by_min_complete t s (r ∷ ts) h =
    IsRow-if (leb t.min_vnd r.min_vnd) s (t ∷ r ∷ ts) (r ∷ insert_by_min t ts) (λ b. h)
      λ b. elim h [
        | inl e ↦ inr (insert_by_min_complete t s ts (inl e))
        | inr (inl e) ↦ inl e
        | inr (inr m) ↦ inr (insert_by_min_complete t s ts (inr m))
      ]

pub sort_by_min_sound : (ts : Tiers) (s : ProfitMarginTier) → IsRow s (sort_by_min ts) → IsRow s ts
unfolding sort_by_min
sort_by_min_sound [] s h = h
sort_by_min_sound (t ∷ ts) s h = elim (insert_by_min_sound t s (sort_by_min ts) h) [
  | inl e ↦ inl e
  | inr m ↦ inr (sort_by_min_sound ts s m)
]

pub sort_by_min_complete :
    (ts : Tiers) (s : ProfitMarginTier) → IsRow s ts → IsRow s (sort_by_min ts)
unfolding sort_by_min
sort_by_min_complete [] s h = h
sort_by_min_complete (t ∷ ts) s (inl e) = insert_by_min_complete t s (sort_by_min ts) (inl e)
sort_by_min_complete (t ∷ ts) s (inr m) =
    insert_by_min_complete t s (sort_by_min ts) (inr (sort_by_min_complete ts s m))
