-- ===== src/Links/Service.antt =====
-- `finalizeFromIpn`, and the row that `createCustomLink` stores. The payment URL and the creator are
-- left out; `Date.now()` and the random suffix of the id are an argument, and an
-- amount is integral.
use Prim.Native.String.{String}
use esim_backend.Base.{
  ℕ, ◌++◌, Option, none, some, pure, gets, modify, throw_if, unless_found, ◌>>=◌, ◌>>◌, Bool, not,
  ◌==◌, if◌then◌else◌,
}
use esim_backend.Base.Int.{ℤ, pos, leb_ℤ}
use esim_backend.Base.Text.{Text, text, to_upper, eqb}
use esim_backend.Entities.{CustomPaymentLink, CustomPaymentLinkStatus, is_pending_link}
use esim_backend.Database.{
  Database, Db, Service, unsupported_currency, amount_not_positive, find_custom_link,
}

abbrev pub virtual_order_prefix : Text
virtual_order_prefix = text "VORD-"

-- `input.currency || 'VND'`
abbrev pub or_vnd : Text → Text
or_vnd currency = if eqb currency (text "") then text "VND" else currency

abbrev pub finalized : Bool → Option String → CustomPaymentLink → CustomPaymentLink
finalized is_success payment_id link = record link {
  status = if is_success then CustomPaymentLinkStatus.paid else CustomPaymentLinkStatus.failed;
  payment_id = payment_id;
}

module _ ⦃d : Database⦄ where
  unfoldable pub create_custom_link : ℤ → Text → Text → Service CustomPaymentLink
  create_custom_link amount currency suffix = do
    throw_if (not (eqb (to_upper (or_vnd currency)) (text "VND"))) unsupported_currency
    throw_if (leb_ℤ amount (pos 0)) amount_not_positive
    id ← gets (λ db. d.repositories.custom_link.next_id db.custom_links)
    let link : CustomPaymentLink = record {
      id = id;
      virtual_order_id = virtual_order_prefix ++ suffix;
      amount = amount;
      status = CustomPaymentLinkStatus.pending;
      payment_id = none;
    }
    modify λ db. record db { custom_links = d.repositories.custom_link.save link db.custom_links }
    pure link

  abbrev pub update_link : ℕ → (CustomPaymentLink → CustomPaymentLink) → Db → Db
  update_link id f db = record db {
    custom_links = d.repositories.custom_link.update (λ l. l.id == id) f db.custom_links;
  }

  unfoldable pub finalize_from_ipn :
      Text → Bool → Option String → Service (Option CustomPaymentLink)
  finalize_from_ipn virtual_order_id is_success payment_id = do
    found ← gets (find_custom_link virtual_order_id)
    unless_found found (pure none) λ link.
        if not (is_pending_link link.status) then pure (some link) else (do
          modify (update_link link.id (finalized is_success payment_id))
          pure (some (finalized is_success payment_id link)))
