-- ===== src/Service/Asset/Rules.antt =====
-- `Delete` of the asset service: what it does to the tables when it succeeds.
use kredit_plus.Base.{
  ℕ, Bool, false, List, [], ◌∷◌, All, ltb, ◌==◌, ◌≡◌, ap, sym, ◌∙◌, arith, Bool-cases, inl, inr,
  ==_iff,
}
use kredit_plus.Entity.Error.{Uuid}
use kredit_plus.Entity.Asset.{Asset}
use kredit_plus.Platform.Table.{ok, Fetch, found, missing, failed, In, erase, count_if}
use kredit_plus.Platform.World.{Db, World, Platform}
use kredit_plus.Platform.Laws.{IsPlatform}
use kredit_plus.Platform.Monad.{pure, raise}
use kredit_plus.Platform.Monad.Effects.{ReadOnly-ignore, ReadOnly-cache_del}
use kredit_plus.Platform.Monad.Outcomes.{
  after_bind, after_read, after_query, after_guard, after_transaction, after_write,
}
use kredit_plus.Repository.Asset as Repo
use kredit_plus.Repository.Asset.{set_assets, found_for_deletion}
use kredit_plus.Service.Asset.{delete}

count_none :
    {E : Type 0} (p : E → Bool) (rows : List E) (n : ℕ)
    → n ≡ count_if p rows
    → ltb 0 n ≡ false
    → All (λ e. p e ≡ false) rows
count_none p [] n e h = tt
count_none p (x ∷ xs) n e h = elim (Bool-cases (p x)) [
  | inl y ↦ absurd (ground arith)
  | inr z ↦ (z, count_none p xs n (ground arith) h)
]

found_for_deletion-ok :
    (p : Platform) (r : Fetch Asset) (w : World) {a : Asset} {w' : World}
    → found_for_deletion p r w ≡ (ok a, w')
    → (r ≡ found a) × (w' ≡ w)
unfolding found_for_deletion pure raise
found_for_deletion-ok p (found a) w h = (cc, cc)
found_for_deletion-ok p missing w h = cc
found_for_deletion-ok p (failed e) w h = cc

-- An asset that was deleted: it stood in the table, no transaction is of it, and the rows of its
-- key are gone.
pub record Removed (id : Uuid) (db db' : Db) : Type 0 where
  pub asset : Asset
  pub was : In asset db.assets
  pub key : asset.id ≡ id
  pub unused : All (λ t. (t.asset_id == id) ≡ false) db.transactions
  pub now_is : db' ≡ set_assets (erase (λ a. a.id) id db.assets) db

module _ (p : Platform) (laws : IsPlatform p) where
  -- An asset is deleted only where it stands in the table and no transaction is of it;
  -- the rows of its key are gone.
  pub delete_asset-ok :
      (id : Uuid) (w : World) {w' : World} → delete p id w ≡ (ok tt, w') → Removed id w.db w'.db
  unfolding delete Repo.delete
  delete_asset-ok id w {w'} h = after_transaction p _ w h λ w1 e d. after_read _ _ _ e λ e1.
      after_bind _ _ _ e1 λ a w2 e2 e3.
        let (f, same) = found_for_deletion-ok p _ _ e2 in
        after_query _ _ _ w2 e3 λ uses q e4. after_guard _ _ _ _ e4 λ unused e5.
          after_write _ _ _ _ _ e5 λ rows e6 e7.
            let (was, m) = laws.assets.first_found _ _ _ a f in
            let key : a.id ≡ id = (==_iff a.id id).0 m in
            record {
              asset = a;
              was = was;
              key = key;
              unused =
                  count_none _ w.db.transactions uses
                    (laws.transactions.count_ok _ _ _ _ q
                      ∙ ap (λ (v : World). count_if (λ t. t.asset_id == id) v.db.transactions) same)
                    unused;
              now_is =
                  d
                  ∙ ap (λ r. r.1.db) (sym e7)
                  ∙ (ReadOnly-ignore _ (ReadOnly-cache_del p _)).at _
                  ∙ cc (laws.assets.delete_ok _ _ _ _ e6, same, key);
            }
