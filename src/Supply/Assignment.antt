-- ===== src/Supply/Assignment.antt =====
-- The loop over the eSIMs that EsimAccess supplies for an order: which item each is counted for.
use esim_backend.Base.Lists.{IsIn}
use esim_backend.Base.{
  ℕ, ◌+◌, ◌≤◌, ◌<◌, subst, none, ⊤, for_each, if◌then◌else◌, ◌≡◌, refl, sym, ap, ◌∙◌, inl, inr,
  Bool, true, Option, some, List, [], ◌∷◌, ok, pure, attempt, unless_found, arith, Bool-cases,
  Option-cases, ◌==◌, ==_iff,
}
use esim_backend.Base.Stepping.{bind_ok, unless_found-none, unless_found-some}
use esim_backend.Base.Text.{Text}
use esim_backend.Supply.Data.{SupplyEnv, SupplyDb, SupplyService, OrderItem, SupplierEsim, truthy}
use esim_backend.Supply.Esims.{EsimDto}
use esim_backend.Supply.Webhooks.{store_esim, store_supplied, esim_access_dto}
use esim_backend.Supply.Matching.{
  Counts, quantity_of, is_open_for, find_item, match_item, count_match,
}

-- Rows of a table: no two with one id.
abbrev pub AreDistinct : List OrderItem → Type 0
AreDistinct items = (x y : OrderItem) → IsIn x items → IsIn y items → x.id ≡ y.id → x ≡ y

abbrev pub AreCapped : List OrderItem → Counts → Type 0
AreCapped items counts = (i : OrderItem) → IsIn i items → counts i.id ≤ quantity_of i

find_item_sound :
    (p : OrderItem → Bool) (items : List OrderItem) {i : OrderItem}
    → find_item p items ≡ some i
    → IsIn i items × (p i ≡ true)
find_item_sound p [] h = cc h
find_item_sound p (x ∷ xs) {i} h = elim (Bool-cases (p x)) [
  | inl here ↦ let same : x ≡ i = cc (here, h) in (inl (sym same), ap p (sym same) ∙ here)
  | inr other ↦ let (m, passes) = find_item_sound p xs (cc (other, h)) in (inr m, passes)
]

match_item_open :
    (items : List OrderItem) (counts : Counts) (code : Option Text) {i : OrderItem}
    → match_item items counts code ≡ some i
    → IsIn i items × (counts i.id < quantity_of i)
unfolding match_item
match_item_open items counts code {i} h = elim (Option-cases (truthy code)) [
  | inl missing ↦ cc (missing, h)
  | inr (c, given) ↦
      let (m, passes) =
        find_item_sound (is_open_for c counts) items (rw (given, match_item) at h) in
      (m, ground arith)
]

count_match-AreCapped :
    (items : List OrderItem) (counts : Counts) (code : Option Text)
    → AreDistinct items
    → AreCapped items counts
    → AreCapped items (count_match (match_item items counts code) counts)
unfolding count_match
count_match-AreCapped items counts code distinct capped i row =
    elim (Option-cases (match_item items counts code)) [
      | inl missing ↦ rw missing (capped i row)
      | inr (m, matched) ↦
          let (row', room) = match_item_open items counts code matched in
          rw matched (elim (Bool-cases (i.id == m.id)) [
            | inl same ↦
                let one = distinct i m row row' ((==_iff i.id m.id).0 same) in
                rw same (omega (arith, room, ap (λ j. counts j.id) one, ap quantity_of one))
            | inr other ↦ rw other (capped i row)
          ])
    ]

-- The eSIMs that have an iccid.
abbrev pub with_iccid : Option Text → SupplierEsim → List SupplierEsim → List SupplierEsim
with_iccid none esim rest = rest
with_iccid (some iccid) esim rest = esim ∷ rest

abbrev pub named : List SupplierEsim → List SupplierEsim
named [] = []
named (esim ∷ esims) = with_iccid (truthy esim.iccid) esim (named esims)

named_missing :
    (esim : SupplierEsim) (esims : List SupplierEsim)
    → truthy esim.iccid ≡ none
    → named (esim ∷ esims) ≡ named esims
named_missing esim esims e = ap (λ o. with_iccid o esim (named esims)) e

named_given :
    (esim : SupplierEsim) (esims : List SupplierEsim) {iccid : Text}
    → truthy esim.iccid ≡ some iccid
    → named (esim ∷ esims) ≡ esim ∷ named esims
named_given esim esims e = ap (λ o. with_iccid o esim (named esims)) e

abbrev pub esims_of : List (SupplierEsim × Option OrderItem) → List SupplierEsim
esims_of [] = []
esims_of ((esim, item) ∷ assigned) = esim ∷ esims_of assigned

-- How many of the eSIMs are for the item with the id.
abbrev pub occurrences : ℕ → List (SupplierEsim × Option OrderItem) → ℕ
occurrences id [] = 0
occurrences id ((esim, item) ∷ assigned) =
    elim item [ none ↦ 0 | some i ↦ if id == i.id then 1 else 0 ] + occurrences id assigned

count_step :
    (item : Option OrderItem) (counts : Counts) (id : ℕ) (esim : SupplierEsim)
    (assigned : List (SupplierEsim × Option OrderItem))
    → count_match item counts id + occurrences id assigned
      ≡ counts id + occurrences id ((esim, item) ∷ assigned)
unfolding count_match
count_step none counts id esim assigned = omega arith
count_step (some i) counts id esim assigned = elim (Bool-cases (id == i.id)) [
  | inl this ↦ rw this (omega arith)
  | inr other ↦ rw other (omega arith)
]

module _ ⦃s : SupplyEnv⦄ where
  store_esim_ok :
      (iccid : Option Text) (dto : EsimDto) (db : SupplyDb) → (store_esim iccid dto db).0 ≡ ok tt
  unfolding store_esim attempt pure unless_found
  store_esim_ok iccid dto db = elim (Option-cases (truthy iccid)) [
    | inl missing ↦ rw missing refl
    | inr (i, given) ↦ rw given refl
  ]

  stored :
      (iccid : Option Text) (dto : EsimDto) (db : SupplyDb)
      → store_esim iccid dto db ≡ (ok tt, (store_esim iccid dto db).1)
  stored iccid dto db = ap (λ r. (r, (store_esim iccid dto db).1)) (store_esim_ok iccid dto db)

  -- What is stored of an assignment.
  abbrev pub store_assigned : Option ℕ → SupplierEsim × Option OrderItem → SupplyService ⊤
  store_assigned user_id (esim, item) = store_esim esim.iccid (esim_access_dto user_id item esim)

  stored_first :
      (user_id : Option ℕ) (esim : SupplierEsim) (item : Option OrderItem)
      (rest : List (SupplierEsim × Option OrderItem)) (db : SupplyDb)
      → for_each ((esim, item) ∷ rest) (store_assigned user_id) db
        ≡ for_each rest
            (store_assigned user_id)
            (store_esim esim.iccid (esim_access_dto user_id item esim) db).1
  unfolding for_each
  stored_first user_id esim item rest db =
      bind_ok _ _ db (stored esim.iccid (esim_access_dto user_id item esim) db)

  store_supplied-Assigned :
      (user_id : Option ℕ) (items : List OrderItem) (counts : Counts) (esims : List SupplierEsim)
      (db : SupplyDb)
      → AreDistinct items
      → AreCapped items counts
      → (counts' : Counts) × (assigned : List (SupplierEsim × Option OrderItem)) × (store_supplied
            user_id items counts esims db
          ≡ (ok counts', (for_each assigned (store_assigned user_id) db).1))
        × (esims_of assigned ≡ named esims)
        × ((i : OrderItem) → IsIn i items → counts i.id + occurrences i.id assigned ≤ quantity_of i)
  unfolding store_supplied pure for_each
  store_supplied-Assigned user_id items counts [] db distinct capped =
      (counts, [], refl, refl, λ i row. omega (arith, capped i row))
  store_supplied-Assigned user_id items counts (esim ∷ esims) db distinct capped =
      elim (Option-cases (truthy esim.iccid)) [
        | inl missing ↦
            let (counts', assigned, whole, same, room) =
              store_supplied-Assigned user_id items counts esims db distinct capped in
            (
              counts',
              assigned,
              ap (λ k. k db) (unless_found-none _ _ missing) ∙ whole,
              same ∙ sym (named_missing esim esims missing),
              room,
            )
        | inr (iccid, given) ↦
            let item = match_item items counts esim.package_code in
            let dto = esim_access_dto user_id item esim in
            let (counts', assigned, whole, same, room) =
              store_supplied-Assigned user_id items (count_match item counts) esims
                (store_esim esim.iccid dto db).1 distinct
                (count_match-AreCapped items counts esim.package_code distinct capped) in
            (
              counts',
              (esim, item) ∷ assigned,
              ap (λ k. k db) (unless_found-some _ _ given)
                  ∙ bind_ok _ _ db (stored esim.iccid dto db)
                  ∙ whole
                  ∙ ap (λ out. (ok counts', out.1))
                      (sym (stored_first user_id esim item assigned db)),
              ap (λ es. esim ∷ es) same ∙ sym (named_given esim esims given),
              λ i row.
                  subst (λ n. n ≤ quantity_of i) (count_step item counts i.id esim assigned)
                    (room i row),
            )
      ]

  -- However many eSIMs a supplier delivers for an order, the loop over them ends without an exception, and
  -- stores each that has an iccid once, in their order, for an item or for none; no item is given more eSIMs
  -- than its quantity, where the items have different ids.
  pub store_supplied_capped :
      (user_id : Option ℕ) (items : List OrderItem) (esims : List SupplierEsim) (db : SupplyDb)
      → AreDistinct items
      → (counts : Counts) × (assigned : List (SupplierEsim × Option OrderItem)) × (store_supplied
            user_id items
            (λ id. 0)
            esims
            db
          ≡ (ok counts, (for_each assigned (store_assigned user_id) db).1))
        × (esims_of assigned ≡ named esims)
        × ((i : OrderItem) → IsIn i items → occurrences i.id assigned ≤ quantity_of i)
  store_supplied_capped user_id items esims db distinct =
      let (counts, assigned, whole, same, room) =
        store_supplied-Assigned user_id items (λ id. 0) esims db distinct (λ i row. omega arith) in
      (counts, assigned, whole, same, λ i row. omega (arith, room i row))
