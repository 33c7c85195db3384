-- ===== src/Links/Tests.antt =====
-- Two notifications about one custom payment link.
use esim_backend.Base.{[], ◌∷◌, none}
use esim_backend.Base.Int.{pos}
use esim_backend.Base.Text.{text}
use esim_backend.Entities.{CustomPaymentLink, CustomPaymentLinkStatus}
use esim_backend.Database.{Db}
use esim_backend.Fixtures.{memory, empty}

abbrev link_1 : CustomPaymentLink
link_1 = record {
  id = 1;
  virtual_order_id = text "VORD-1";
  amount = pos 1000;
  status = CustomPaymentLinkStatus.pending;
  payment_id = none;
}

abbrev linked : Db
linked = record empty { custom_links = link_1 ∷ [] }
