-- ===== src/Links/Terminal.antt =====
-- A link that is paid or failed stays so.
use Prim.Native.String.{String}
use esim_backend.Base.{
  ◌≡◌, refl, ◌∙◌, Bool, true, false, Option, some, inl, inr, Option-cases, Bool-cases, ◌>>=◌, ◌==◌,
  ==_refl,
}
use esim_backend.Base.Text.{Text}
use esim_backend.Entities.{CustomPaymentLink, is_pending_link}
use esim_backend.Database.{Database, Db, find_custom_link}
use esim_backend.Links.Service.{finalized, update_link, finalize_from_ipn}

not_pending :
    (s : Bool) (p : Option String) (l : CustomPaymentLink)
    → is_pending_link (finalized s p l).status ≡ false
not_pending true p l = refl
not_pending false p l = refl

module _ ⦃d : Database⦄ where
  find_custom_link-update :
      (v : Text) (s : Bool) (p : Option String) (db : Db) (l : CustomPaymentLink)
      → find_custom_link v db ≡ some l
      → find_custom_link v (update_link l.id (finalized s p) db) ≡ some (finalized s p l)
  find_custom_link-update v s p db l found =
      d.repositories.custom_link.find_one-update v (λ x. x.id == l.id) (finalized s p)
        db.custom_links (λ e. refl)
      ∙ rw (found, ==_refl l.id) refl

  -- The first notification about a link decides: one that follows, whatever it says, changes nothing,
  -- and returns the link as the first one left it.
  pub finalize_from_ipn_once :
      (v : Text) (s s' : Bool) (p p' : Option String) (db : Db)
      → finalize_from_ipn v s' p' (finalize_from_ipn v s p db).1 ≡ finalize_from_ipn v s p db
  unfolding finalize_from_ipn ◌>>=◌
  finalize_from_ipn_once v s s' p p' db = elim (Option-cases (find_custom_link v db)) [
    | inl e ↦ rw (e, e) refl
    | inr (l, e) ↦ elim (Bool-cases (is_pending_link l.status)) [
      | inr done ↦ rw (e, done, e, done) refl
      | inl waits ↦ rw (e, waits, find_custom_link-update v s p db l e, not_pending s p l) refl
    ]
  ]
