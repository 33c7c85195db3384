-- ===== src/Supply/Upserts.antt =====
-- What a callback leaves of the eSIM that it names.
use esim_backend.Base.{
  ◌orelse◌, ℕ, ◌≡◌, refl, sym, ap, ◌∙◌, inl, inr, true, none, some, Option-cases, ◌>>=◌, ◌==◌,
  ==_refl,
}
use esim_backend.Base.Text.{Text, eqb, eqb_iff}
use esim_backend.Storage.Rows.{find_one, find_latest_only, find_latest-update}
use esim_backend.Supply.Data.{SupplyEnv, SupplyDb, Esim, find_by_iccid}
use esim_backend.Supply.Esims.{EsimDto, new_esim, patch_esim, create_esim, update_esim}
use esim_backend.Supply.Webhooks.{upsert_esim}

-- The column is unique.
pub record AreUnique ⦃s : SupplyEnv⦄ (t : s.esim.Table) : Type 0 where
  pub iccids : (x y : Esim) → s.esim.Holds x t → s.esim.Holds y t → x.iccid ≡ y.iccid → x ≡ y

module _ ⦃s : SupplyEnv⦄ where
  find_by_id-some :
      (e : Esim) (t : s.esim.Table)
      → s.esim.Holds e t
      → (x : Esim) × (find_one s.esim (λ z. z.id == e.id) t ≡ some x)
  find_by_id-some e t row = elim (Option-cases (find_one s.esim (λ z. z.id == e.id) t)) [
    | inl missing ↦ cc (==_refl e.id, s.esim.find_latest-none _ _ t e missing row)
    | inr found ↦ found
  ]

  module _ (iccid : Text) (dto : EsimDto) (db : SupplyDb) where
    abbrev usage_kept : Esim → EsimDto
    usage_kept e = record dto { data_used = e.data_used orelse dto.data_used }

    upsert_esim_esims :
        {e : Esim}
        → find_by_iccid iccid db ≡ some e
        → (upsert_esim iccid dto db).1.esims
          ≡ s.esim.update (λ z. z.id == e.id) (patch_esim (usage_kept e)) db.esims
    unfolding upsert_esim update_esim ◌>>=◌
    upsert_esim_esims {e} found =
        let (x, by_id) = find_by_id-some e db.esims (s.esim.find_latest-Holds _ _ db.esims found) in
        rw (found, by_id) refl

    -- An eSIM that is there, after a callback.
    pub upsert_esim_updated :
        {e : Esim}
        → AreUnique db.esims
        → find_by_iccid iccid db ≡ some e
        → find_by_iccid iccid (upsert_esim iccid dto db).1 ≡ some (patch_esim (usage_kept e) e)
    upsert_esim_updated {e} unique found =
        ap (λ t. find_one s.esim (λ z. eqb iccid z.iccid) t) (upsert_esim_esims found)
        ∙ find_latest-update s.esim (λ z. eqb iccid z.iccid) (λ z. z.id == e.id) _
            (patch_esim (usage_kept e)) db.esims e (λ y. refl)
            (λ y row' h.
              unique.iccids y e row' row
                (sym ((eqb_iff iccid y.iccid).0 h) ∙ (eqb_iff iccid e.iccid).0 passes))
            row passes (==_refl e.id)
      where
        row : s.esim.Holds e db.esims
        row = s.esim.find_latest-Holds _ _ db.esims found

        passes : eqb iccid e.iccid ≡ true
        passes = s.esim.find_latest_passes _ _ db.esims found

    abbrev new_row : Esim
    new_row = new_esim (s.esim.next_id db.esims) iccid dto

    upsert_esim_inserted :
        find_by_iccid iccid db ≡ none
        → (upsert_esim iccid dto db).1.esims ≡ s.esim.insert new_row db.esims
    unfolding upsert_esim create_esim ◌>>=◌
    upsert_esim_inserted missing = rw (missing, missing) refl

    -- An eSIM that is new.
    pub upsert_esim_created :
        find_by_iccid iccid db ≡ none
        → find_by_iccid iccid (upsert_esim iccid dto db).1 ≡ some new_row
    upsert_esim_created missing =
        ap (λ t. find_one s.esim (λ z. eqb iccid z.iccid) t) (upsert_esim_inserted missing)
        ∙ find_latest_only s.esim (λ z. eqb iccid z.iccid) (λ z. 0) _ new_row
            ((s.esim.Holds-insert new_row new_row db.esims).1 (inl refl))
            ((eqb_iff iccid iccid).1 refl)
            λ x row h. elim ((s.esim.Holds-insert x new_row db.esims).0 row) [
              | inl here ↦ here
              | inr old ↦ cc (h, s.esim.find_latest-none _ _ db.esims x missing old)
            ]

    -- After a callback there is an eSIM with the iccid that it names, with its status, and with the user and
    -- the order item that it gives, whether the eSIM was there before or not, where no two have one iccid.
    pub upsert_esim_stored :
        AreUnique db.esims
        → (e : Esim) × (find_by_iccid iccid (upsert_esim iccid dto db).1 ≡ some e)
          × (e.status ≡ dto.status)
          × ((u : ℕ) → dto.user_id ≡ some u → e.user_id ≡ some u)
          × ((i : ℕ) → dto.order_item_id ≡ some i → e.order_item_id ≡ some i)
    upsert_esim_stored unique = elim (Option-cases (find_by_iccid iccid db)) [
      | inl missing ↦ (new_row, upsert_esim_created missing, refl, λ u h. h, λ i h. h)
      | inr (e, found) ↦ (
        patch_esim (usage_kept e) e,
        upsert_esim_updated unique found,
        refl,
        λ u h. ap (λ o. o orelse e.user_id) h,
        λ i h. ap (λ o. o orelse e.order_item_id) h,
      )
    ]

    -- A callback for an eSIM that is there changes neither its LPA nor its matching id, QR code,
    -- installation URL, APN and roaming flag, whatever it gives for them, where no two eSIMs have one iccid.
    pub upsert_esim_keeps :
        {e : Esim}
        → AreUnique db.esims
        → find_by_iccid iccid db ≡ some e
        → (after : Esim) × (find_by_iccid iccid (upsert_esim iccid dto db).1 ≡ some after)
          × (after.lpa ≡ e.lpa)
          × (after.match_id ≡ e.match_id)
          × (after.qrcode ≡ e.qrcode)
          × (after.direct_apple_installation_url ≡ e.direct_apple_installation_url)
          × (after.apn_value ≡ e.apn_value)
          × (after.is_roaming ≡ e.is_roaming)
    upsert_esim_keeps {e} unique found = (
      patch_esim (usage_kept e) e,
      upsert_esim_updated unique found,
      refl,
      refl,
      refl,
      refl,
      refl,
      refl,
    )
