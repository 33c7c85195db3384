-- ===== src/Margins/Updates.antt =====
-- The tiers through a sequence of calls.
use esim_backend.Base.{
  ℕ, ◌≤◌, ◌≡◌, refl, sym, subst, ◌∙◌, inl, inr, true, false, none, some, Option, List, [], ◌∷◌,
  arith, Bool-cases, ◌>>=◌, ◌==◌, ltb,
}
use esim_backend.Margins.Tiers.{
  ProfitMarginTier, CreateTierDto, UpdateTierDto, Tiers, rows_where, overlaps, find_overlapping,
  is_empty, find_tier, updated_tier, store_tier, validate_no_overlap, create_tier, update_tier,
  remove_tier,
}
use esim_backend.Margins.Rows.{IsRow, store_tier_sound}
use esim_backend.Margins.Separate.{
  IsSeparate, none_pass, create_tier-IsSeparate, remove_tier-IsSeparate,
}

overlapping_other :
    (n t : ProfitMarginTier) (id : ℕ)
    → n.min_vnd ≤ t.max_vnd
    → t.min_vnd ≤ n.max_vnd
    → (t.id == id) ≡ false
    → overlaps n.min_vnd n.max_vnd (some id) t ≡ true
overlapping_other n t id h k other = ground arith

IsSeparate-store_tier :
    (id : ℕ) (n : ProfitMarginTier) (ts : Tiers)
    → IsSeparate ts
    → n.min_vnd ≤ n.max_vnd
    → ((t : ProfitMarginTier) → IsRow t ts → overlaps n.min_vnd n.max_vnd (some id) t ≡ false)
    → IsSeparate (store_tier id n ts)
IsSeparate-store_tier id n ts separate proper free = record {
  proper = λ t row. elim (store_tier_sound id n ts t row) [
    | inl e ↦ subst (λ x. x.min_vnd ≤ x.max_vnd) (sym e) proper
    | inr (m, other) ↦ separate.proper t m
  ];
  apart = λ s t row_s row_t h k. elim (store_tier_sound id n ts s row_s) [
    | inl e ↦ elim (store_tier_sound id n ts t row_t) [
      | inl e' ↦ e ∙ sym e'
      | inr (m, other) ↦ cc (
        free t m,
        overlapping_other n t id (subst (λ x. x.min_vnd ≤ t.max_vnd) e h)
            (subst (λ x. t.min_vnd ≤ x.max_vnd) e k) other,
      )
    ]
    | inr (m, other) ↦ elim (store_tier_sound id n ts t row_t) [
      | inl e' ↦ cc (
        free s m,
        overlapping_other n s id (subst (λ x. x.min_vnd ≤ s.max_vnd) e' k)
            (subst (λ x. s.min_vnd ≤ x.max_vnd) e' h) other,
      )
      | inr (m', other') ↦ separate.apart s t m m' h k
    ]
  ];
}

store_validated-IsSeparate :
    (id : ℕ) (dto : UpdateTierDto) (ts : Tiers) (found : Option ProfitMarginTier)
    → find_tier id ts ≡ found
    → IsSeparate ts
    → IsSeparate (update_tier id dto ts).1
unfolding update_tier validate_no_overlap find_overlapping ◌>>=◌
store_validated-IsSeparate id dto ts none e separate = rw e separate
store_validated-IsSeparate id dto ts (some t) e separate =
    let n = updated_tier t dto in
    let free = is_empty (rows_where (overlaps n.min_vnd n.max_vnd (some id)) ts) in
    elim (Bool-cases (ltb n.max_vnd n.min_vnd)) [
      | inl refused ↦ rw (e, refused) separate
      | inr good ↦ elim (Bool-cases free) [
        | inr taken ↦ rw (e, good, taken) separate
        | inl room ↦
            rw (e, good, room)
              (IsSeparate-store_tier id n ts separate (ground arith)
                (λ s m. none_pass (overlaps n.min_vnd n.max_vnd (some id)) ts s room m))
      ]
    ]

-- `updateTier` keeps the rows separate, whether it stores the tier or refuses it.
update_tier-IsSeparate :
    (id : ℕ) (dto : UpdateTierDto) (ts : Tiers)
    → IsSeparate ts
    → IsSeparate (update_tier id dto ts).1
update_tier-IsSeparate id dto ts separate =
    store_validated-IsSeparate id dto ts (find_tier id ts) refl separate

-- A call of the service that changes the tiers; a new row's id comes from the sequence.
pub data TierCall : Type 0 where
  create : ℕ → CreateTierDto → TierCall
  update : ℕ → UpdateTierDto → TierCall
  remove : ℕ → TierCall

abbrev pub run_tier_calls : List TierCall → Tiers → Tiers
run_tier_calls [] ts = ts
run_tier_calls (create id dto ∷ calls) ts = run_tier_calls calls (create_tier id dto ts).1
run_tier_calls (update id dto ∷ calls) ts = run_tier_calls calls (update_tier id dto ts).1
run_tier_calls (remove id ∷ calls) ts = run_tier_calls calls (remove_tier id ts).1

-- No sequence of calls of `createTier`, `updateTier` and `removeTier`, refused ones included, makes tiers
-- that were proper and apart overlap.
pub run_tier_calls-IsSeparate :
    (calls : List TierCall) (ts : Tiers) → IsSeparate ts → IsSeparate (run_tier_calls calls ts)
run_tier_calls-IsSeparate [] ts separate = separate
run_tier_calls-IsSeparate (create id dto ∷ calls) ts separate =
    run_tier_calls-IsSeparate calls _ (create_tier-IsSeparate id dto ts separate)
run_tier_calls-IsSeparate (update id dto ∷ calls) ts separate =
    run_tier_calls-IsSeparate calls _ (update_tier-IsSeparate id dto ts separate)
run_tier_calls-IsSeparate (remove id ∷ calls) ts separate =
    run_tier_calls-IsSeparate calls _ (remove_tier-IsSeparate id ts separate)
