-- ===== src/Margins/Separate.antt =====
-- The tiers do not overlap, so that a price has at most one tier.
use esim_backend.Base.{
  ℕ, ◌≤◌, ◌≡◌, refl, sym, ap, subst, ◌∙◌, modify, inl, inr, Bool, true, false, not, none, [], ◌∷◌,
  arith, Bool-cases, ◌>>=◌, ◌==◌, ltb,
}
use esim_backend.Margins.Tiers.{
  ProfitMarginTier, CreateTierDto, Tiers, rows_where, overlaps, find_overlapping, is_empty,
  validate_no_overlap, new_tier, create_tier, remove_tier, sort_by_min, find_all, contains,
  first_percentage, get_profit_percentage,
}
use esim_backend.Margins.Rows.{
  IsRow, rows_where_sound, rows_where_complete, sort_by_min_sound, sort_by_min_complete,
}

-- Every range is proper, and two rows whose ranges meet are one.
pub record IsSeparate (ts : Tiers) : Type 0 where
  pub proper : (t : ProfitMarginTier) → IsRow t ts → t.min_vnd ≤ t.max_vnd
  pub apart :
      (s t : ProfitMarginTier)
      → IsRow s ts
      → IsRow t ts
      → s.min_vnd ≤ t.max_vnd
      → t.min_vnd ≤ s.max_vnd
      → s ≡ t

-- The loop finds the tier of a price that every row with the price is.
first_percentage_lem :
    (v : ℕ) (t : ProfitMarginTier) (ts : Tiers)
    → IsRow t ts
    → contains v t ≡ true
    → ((s : ProfitMarginTier) → IsRow s ts → contains v s ≡ true → s ≡ t)
    → first_percentage v ts ≡ t.percentage
unfolding first_percentage
first_percentage_lem v t [] h inside one = absurd h
first_percentage_lem v t (s ∷ ts) h inside one = elim (Bool-cases (contains v s)) [
  | inl here ↦ rw here (ap (λ x. x.percentage) (one s (inl refl) here))
  | inr other ↦ rw other (elim h [
    | inl e ↦ cc (other, ap (contains v) e, inside)
    | inr m ↦ first_percentage_lem v t ts m inside (λ r k. one r (inr k))
  ])
]

meets :
    (v : ℕ) (s t : ProfitMarginTier)
    → contains v s ≡ true
    → contains v t ≡ true
    → (s.min_vnd ≤ t.max_vnd) × (t.min_vnd ≤ s.max_vnd)
meets v s t h k = (ground arith, ground arith)

-- Where the rows are separate, the percentage of a price is that of the active row whose range contains
-- the price: which row the loop meets first does not matter.
pub get_profit_percentage_lem :
    (v : ℕ) (t : ProfitMarginTier) (ts : Tiers)
    → IsSeparate ts
    → IsRow t ts
    → t.is_active ≡ true
    → contains v t ≡ true
    → get_profit_percentage v ts ≡ t.percentage
unfolding get_profit_percentage find_all
get_profit_percentage_lem v t ts separate row active inside =
    let actives = rows_where (λ x. x.is_active) ts in
    first_percentage_lem v t (sort_by_min actives)
      (sort_by_min_complete actives t (rows_where_complete (λ x. x.is_active) ts t row active))
      inside
      (λ s m here.
        let (below, above) = meets v s t here inside in
        separate.apart s t
          (rows_where_sound (λ x. x.is_active) ts s (sort_by_min_sound actives s m)).0 row below
          above)

pub none_pass :
    (test : ProfitMarginTier → Bool) (ts : Tiers) (t : ProfitMarginTier)
    → is_empty (rows_where test ts) ≡ true
    → IsRow t ts
    → test t ≡ false
none_pass test ts t none_found row = elim (Bool-cases (test t)) [
  | inr e ↦ e
  | inl e ↦ absurd (no_row (rows_where test ts) t none_found (rows_where_complete test ts t row e))
]
  where
    no_row : (xs : Tiers) (t : ProfitMarginTier) → is_empty xs ≡ true → IsRow t xs → ⊥
    no_row [] t e m = m
    no_row (x ∷ xs) t e m = cc e

overlapping :
    (n t : ProfitMarginTier)
    → n.min_vnd ≤ t.max_vnd
    → t.min_vnd ≤ n.max_vnd
    → overlaps n.min_vnd n.max_vnd none t ≡ true
overlapping n t h k = ground arith

IsSeparate-cons :
    (n : ProfitMarginTier) (ts : Tiers)
    → IsSeparate ts
    → n.min_vnd ≤ n.max_vnd
    → ((t : ProfitMarginTier) → IsRow t ts → overlaps n.min_vnd n.max_vnd none t ≡ false)
    → IsSeparate (n ∷ ts)
IsSeparate-cons n ts separate proper free = record {
  proper = λ t row. elim row [
    | inl e ↦ subst (λ x. x.min_vnd ≤ x.max_vnd) (sym e) proper
    | inr m ↦ separate.proper t m
  ];
  apart = λ s t row_s row_t h k. elim row_s [
    | inl e ↦ elim row_t [
      | inl e' ↦ e ∙ sym e'
      | inr m ↦ cc (
        free t m,
        overlapping n t (subst (λ x. x.min_vnd ≤ t.max_vnd) e h)
            (subst (λ x. t.min_vnd ≤ x.max_vnd) e k),
      )
    ]
    | inr m ↦ elim row_t [
      | inl e' ↦ cc (
        free s m,
        overlapping n s (subst (λ x. x.min_vnd ≤ s.max_vnd) e' k)
            (subst (λ x. s.min_vnd ≤ x.max_vnd) e' h),
      )
      | inr m' ↦ separate.apart s t m m' h k
    ]
  ];
}

-- `createTier` keeps the rows separate, whether it stores the tier or refuses it.
pub create_tier-IsSeparate :
    (id : ℕ) (dto : CreateTierDto) (ts : Tiers)
    → IsSeparate ts
    → IsSeparate (create_tier id dto ts).1
unfolding create_tier validate_no_overlap find_overlapping ◌>>=◌
create_tier-IsSeparate id dto ts separate =
    let free = is_empty (rows_where (overlaps dto.min_vnd dto.max_vnd none) ts) in
    elim (Bool-cases (ltb dto.max_vnd dto.min_vnd)) [
      | inl refused ↦ rw refused separate
      | inr good ↦ elim (Bool-cases free) [
        | inr taken ↦ rw (good, taken) separate
        | inl room ↦
            rw (good, room)
              (IsSeparate-cons (new_tier id dto) ts separate (ground arith)
                (λ t m. none_pass (overlaps dto.min_vnd dto.max_vnd none) ts t room m))
      ]
    ]

-- `removeTier` keeps the rows separate.
pub remove_tier-IsSeparate :
    (id : ℕ) (ts : Tiers) → IsSeparate ts → IsSeparate (remove_tier id ts).1
unfolding remove_tier modify
remove_tier-IsSeparate id ts separate =
    let row : (s : ProfitMarginTier)
        → IsRow s (rows_where (λ t. not (t.id == id)) ts)
        → IsRow s ts =
      λ s m. (rows_where_sound (λ t. not (t.id == id)) ts s m).0 in
    record {
      proper = λ t m. separate.proper t (row t m);
      apart = λ s t m m' h k. separate.apart s t (row s m) (row t m') h k;
    }
