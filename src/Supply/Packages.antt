-- ===== src/Supply/Packages.antt =====
-- src/topup/topup.service.ts: the packages of the suppliers in one shape, with their price in VND. Prices
-- in dollars are in 1/10000, the exchange rate in millionths, and the arithmetic is exact; the label of
-- the data amount is left out.
use esim_backend.Base.{
  ℕ, ◌*◌, Bool, true, false, Option, none, some, List, [], ◌∷◌, ◌==◌, if◌then◌else◌,
}
use esim_backend.Base.Int.{round_div}
use esim_backend.Base.Text.{Text, text, eqb}
use esim_backend.Supply.Data.{
  Esim, TopupProvider, TopupStatus, OrderType, AiraloTopupPackage, EsimAccessPackage, airalo,
  esim_access, gadget_korea, unsupported, topup, buy_new, completed, manual_intervention, truthy,
}

pub record TopupPackage : Type 0 where
  pub provider : TopupProvider
  pub package_id : Text
  pub name : Text
  pub data_amount_bytes : ℕ
  pub duration_days : ℕ
  pub is_unlimited : Bool
  pub price : ℕ
  pub retail_price : ℕ
  pub vnd_price : Option ℕ

pub record TopupCheckoutDto : Type 0 where
  pub iccid : Text
  pub package_id : Text
  pub provider : TopupProvider

abbrev pub same_topup_provider : TopupProvider → TopupProvider → Bool
same_topup_provider airalo airalo = true
same_topup_provider esim_access esim_access = true
same_topup_provider gadget_korea gadget_korea = true
same_topup_provider _ _ = false

abbrev pub is_final : TopupStatus → Bool
is_final completed = true
is_final manual_intervention = true
is_final _ = false

abbrev pub is_topup : OrderType → Bool
is_topup topup = true
is_topup buy_new = false

-- `PROVIDER_NAME_TO_ENUM[name]`
abbrev pub provider_of : Text → Option TopupProvider
provider_of name =
    if eqb name (text "airalo")
    then some airalo
    else if eqb name (text "esimaccess")
    then some esim_access
    else if eqb name (text "gadgetkorea")
    then some gadget_korea
    else none

-- `roundVndToThousands(price * rate * percent / 100)`: 10^4 for the price, 10^6 for the rate, 10^2 for
-- the percentage and 10^3 for the unit.
unfoldable pub topup_vnd : ℕ → ℕ → ℕ → ℕ
unfolding round_div
topup_vnd price rate percent = round_div (price * rate * percent) 1000000000000000 * 1000

-- `vndRate ? … : undefined`
abbrev pub priced : ℕ → ℕ → Option ℕ → Option ℕ
priced price percent none = none
priced price percent (some rate) = if rate == 0 then none else some (topup_vnd price rate percent)

unfoldable pub map_airalo_package : Option ℕ → AiraloTopupPackage → TopupPackage
map_airalo_package rate pkg = record {
  provider = airalo;
  package_id = pkg.id;
  name = pkg.title;
  data_amount_bytes = if pkg.is_unlimited then 0 else pkg.amount * 1024 * 1024;
  duration_days = pkg.day;
  is_unlimited = pkg.is_unlimited;
  price = pkg.net_price;
  retail_price = pkg.price;
  vnd_price = priced pkg.price 130 rate;
}

unfoldable pub map_esim_access_package : Option ℕ → EsimAccessPackage → TopupPackage
map_esim_access_package rate pkg = record {
  provider = esim_access;
  package_id = pkg.package_code;
  name = pkg.name;
  data_amount_bytes = pkg.volume;
  duration_days = pkg.duration;
  is_unlimited = pkg.data_type == 4;
  price = pkg.price;
  retail_price = pkg.retail_price;
  vnd_price = priced pkg.retail_price 100 rate;
}

abbrev pub find_package : Text → List TopupPackage → Option TopupPackage
find_package id [] = none
find_package id (p ∷ ps) = if eqb p.package_id id then some p else find_package id ps

-- `if (!provider)`
abbrev pub given_provider : Option TopupProvider → Option TopupProvider
given_provider (some (unsupported [])) = none
given_provider p = p

abbrev pub id_of_esim : Option Esim → Option Text
id_of_esim none = none
id_of_esim (some e) = truthy e.esim_tran_no
