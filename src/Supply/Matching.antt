-- ===== src/Supply/Matching.antt =====
-- src/webhooks/webhooks.service.ts: the callbacks' payloads, the text of an eSIM's link, and the item of
-- an order that an eSIM is for.
use esim_backend.Base.{
  ℕ, suc, Bool, true, false, ◌&&◌, Option, none, some, List, [], ◌∷◌, ◌==◌, leb, ltb, if◌then◌else◌,
}
use esim_backend.Base.Text.{Text, eqb}
use esim_backend.Supply.Data.{DataTotal, OrderItem, in_gb, in_mb, truthy}

-- `text.split('$')`: the part that is being read, and the others.
unfoldable pub split : ℕ → Text → List Text
split c [] = [] ∷ []
split c (x ∷ xs) =
    let rest = split c xs in
    if x == c then [] ∷ rest else elim rest [ [] ↦ (x ∷ []) ∷ [] | p ∷ ps ↦ (x ∷ p) ∷ ps ]

abbrev pub dollar : ℕ
dollar = 36

-- the address and the code that are kept unless the link has its own
abbrev pub parts_or : Option Text → Option Text → List Text → Option Text × Option Text
parts_or smdp code (a ∷ b ∷ c ∷ rest) = (some b, some c)
parts_or smdp code (a ∷ b ∷ []) = (some b, code)
parts_or smdp code _ = (smdp, code)

-- "LPA:1$<smdp>$<matching id>"
unfoldable pub parse_link : Option Text → Option Text → Option Text → Option Text × Option Text
unfolding split
parse_link smdp code link = elim (truthy link) [
  | none ↦ (smdp, code)
  | some l ↦ parts_or smdp code (split dollar l)
]

-- `dataMb >= 1024 ? `${dataMb / 1024}GB` : `${dataMb}MB``
abbrev pub data_total : Option OrderItem → Option DataTotal
data_total none = none
data_total (some item) = elim item.plan [
  | none ↦ none
  | some plan ↦ elim plan.data_mb [
    | none ↦ none
    | some mb ↦ some (if leb 1024 mb then in_gb mb else in_mb mb)
  ]
]

abbrev pub first_item : List OrderItem → Option OrderItem
first_item [] = none
first_item (i ∷ is) = some i

abbrev pub id_of_item : Option OrderItem → Option ℕ
id_of_item none = none
id_of_item (some i) = some i.id

abbrev pub plan_of_item : Option OrderItem → Option ℕ
plan_of_item none = none
plan_of_item (some i) = i.plan_id

-- Airalo's callback.
pub record AiraloSim : Type 0 where
  pub iccid : Option Text
  pub lpa : Option Text
  pub matching_id : Option Text
  pub qrcode : Option Text
  pub direct_apple_installation_url : Option Text
  pub apn_value : Option Text
  pub is_roaming : Option Bool

pub record AiraloEvent : Type 0 where
  pub request_id : Option Text
  pub id : Option Text
  pub code : Option Text
  pub sims : List AiraloSim

pub record EsimAccessEvent : Type 0 where
  pub notify_type : Text
  pub order_no : Option Text
  pub order_status : Text

pub record GadgetKoreaEvent : Type 0 where
  pub topup_id : Option Text
  pub option_id : Option Text
  pub iccid : Option Text
  pub download_link : Option Text
  pub smdp : Option Text
  pub activate_code : Option Text
  pub qrcode_img_url : Option Text

abbrev pub has_sims : List AiraloSim → Bool
has_sims [] = false
has_sims (x ∷ xs) = true

-- `assignedCountMap`
abbrev pub Counts : Type 0
Counts = ℕ → ℕ

abbrev pub count_one : ℕ → Counts → Counts
count_one id counts i = if i == id then suc (counts i) else counts i

abbrev pub quantity_of : OrderItem → ℕ
quantity_of item = elim item.quantity [ none ↦ 1 | some q ↦ q ]

abbrev pub is_open_for : Text → Counts → OrderItem → Bool
is_open_for code counts item = elim item.plan [
  | none ↦ false
  | some plan ↦ eqb plan.provider_plan_id code && ltb (counts item.id) (quantity_of item)
]

abbrev pub find_item : (OrderItem → Bool) → List OrderItem → Option OrderItem
find_item p [] = none
find_item p (i ∷ is) = if p i then some i else find_item p is

-- the item that an eSIM is for
unfoldable pub match_item : List OrderItem → Counts → Option Text → Option OrderItem
match_item items counts package_code = elim (truthy package_code) [
  | none ↦ none
  | some code ↦ find_item (is_open_for code counts) items
]

unfoldable pub count_match : Option OrderItem → Counts → Counts
count_match none counts = counts
count_match (some item) counts = count_one item.id counts
