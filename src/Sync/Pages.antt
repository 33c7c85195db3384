-- ===== src/Sync/Pages.antt =====
-- The loop over the pages of Airalo's answer.
use esim_backend.Base.{
  ℕ, zero, suc, ◌+◌, ◌≡◌, ◌≤◌, ap, ◌∙◌, refl, true, false, List, ◌++◌, ok, leb, arith,
}
use esim_backend.Base.Text.{Text}
use esim_backend.Sync.Data.{AiraloCountry, SyncEnv}
use esim_backend.Sync.Airalo.{after_page, after_sign_in, fetch_from, fetch_all_packages}

-- A page and `n` pages behind it.
abbrev pub pages : (ℕ → List AiraloCountry) → ℕ → ℕ → List AiraloCountry
pages data' zero page = data' page
pages data' (suc n) page = data' page ++ pages data' n (page + 1)

module _ ⦃env : SyncEnv⦄ (token : Text) (data' : ℕ → List AiraloCountry) (last_page : ℕ)
    (answers : (page : ℕ) → env.get_packages token page ≡ ok (data' page, last_page)) where
  fetch_from-pages :
      (fuel n page : ℕ)
      → n ≤ fuel
      → page + n ≡ last_page
      → fetch_from (suc fuel) token page ≡ ok (pages data' n page)
  unfolding fetch_from
  fetch_from-pages fuel zero page enough e =
      let stops : leb (page + 1) last_page ≡ false = ground arith in
      ap (after_page page (fetch_from fuel token (page + 1))) (answers page) ∙ rw stops refl
  fetch_from-pages zero (suc n) page enough e = absurd (omega arith)
  fetch_from-pages (suc fuel) (suc n) page enough e =
      let goes_on : leb (page + 1) last_page ≡ true = ground arith in
      let rest = fetch_from-pages fuel n (page + 1) (omega arith) (omega arith) in
      ap (after_page page (fetch_from (suc fuel) token (page + 1))) (answers page)
      ∙ ap (λ r. after_page page r (ok (data' page, last_page))) rest
      ∙ rw goes_on refl

  -- Where every page is answered and each answer names the same last page, the loop ends: with as much fuel as
  -- there are pages, or more, it returns the countries of the pages from the first to the last.
  pub fetch_all_packages_lem :
      (fuel n : ℕ)
      → n ≤ fuel
      → env.authenticate ≡ ok token
      → suc n ≡ last_page
      → fetch_all_packages (suc fuel) ≡ ok (pages data' n 1)
  unfolding fetch_all_packages
  fetch_all_packages_lem fuel n enough signed_in e =
      ap (λ r. after_sign_in (suc fuel) r) signed_in
      ∙ fetch_from-pages fuel n 1 enough (omega arith)
