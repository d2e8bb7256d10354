-- ===== src/Service/Transaction/Approval.antt =====
-- The checks of the transaction service's `Create`.
use kredit_plus.Base.{
  ℤ, Bool, true, false, not, All, Option, none, some, str_eq, ◌≡◌, refl, sym, ap, ◌∙◌, subst, inl,
  inr, String,
}
use kredit_plus.Entity.Error.{Uuid, Error}
use kredit_plus.Entity.CreditLimit.{CreditLimit}
use kredit_plus.Entity.Customer.{Customer}
use kredit_plus.Entity.Transaction.{Transaction, CreateTransactionRequest}
use kredit_plus.Platform.Table.{Result, ok, err, In, found}
use kredit_plus.Platform.World.{Db, World, Platform}
use kredit_plus.Platform.Laws.{IsPlatform}
use kredit_plus.Platform.Monad.{M, pure, raise, ◌>>=◌}
use kredit_plus.Platform.Monad.Effects.{after_reads}
use kredit_plus.Platform.Monad.Outcomes.{
  after_bind, after_read, after_guard, after_query, optional-ok, pure-ok,
}
use kredit_plus.Repository.CreditLimit as LimitRepo
use kredit_plus.Repository.CreditLimit.{of_tenor}
use kredit_plus.Repository.Customer as CustomerRepo
use kredit_plus.Repository.Asset as AssetRepo
use kredit_plus.Repository.Transaction as Repo
use kredit_plus.Repository.Transaction.{set_transactions}
use kredit_plus.Service.CreditLimit.{or_raise}
use kredit_plus.Service.CreditLimit.Rules.{or_raise-ok, is_set-false}
use kredit_plus.Service.Gathering.{Received}
use kredit_plus.Service.Gathering.Held.{IsGathered, gather-IsGathered, gather-ReadOnly}
use kredit_plus.Entity.Asset.{Asset}
use kredit_plus.Service.Transaction.{Approved, approve, checked}

checked-ok :
    {A : Type 0} (text : String) (r : Result A) (w : World) {a : A} {w' : World}
    → checked text r w ≡ (ok a, w')
    → (r ≡ ok a) × (w' ≡ w)
unfolding checked pure raise
checked-ok text (ok a) w h = (cc, cc)
checked-ok text (err e) w h = cc

-- What the read of a call at some moment gave, the tables being those of `db`.
pub record Read {A : Type 0} (m : M A) (db : Db) (a : A) : Type 0 where
  pub moment : World
  pub same : moment.db ≡ db
  pub gave : (m moment).0 ≡ ok a

-- The order is approved: no transaction has the contract number, the customer was read and is
-- active, the asset was read, and the limit is the customer's row for the tenor.
pub record IsApproved (p : Platform) (req : CreateTransactionRequest) (db : Db) (a : Approved)
    : Type 0 where
  pub new_contract : All (λ t. str_eq t.contract_number req.contract_number ≡ false) db.transactions
  pub customer : Customer
  pub customer_read : Read (CustomerRepo.get_by_id p req.customer_id) db (some customer)
  pub active : customer.is_active ≡ true
  pub asset_read : Read (AssetRepo.get_by_id p req.asset_id) db (some a.asset)
  pub limit_stands : In a.limit db.limits
  pub limit_tenor : of_tenor req.customer_id req.tenor_month a.limit ≡ true

module _ {ℓ} {B : Type 0} {G : Type ℓ} {w' : World} {b : B} where
  after_checked :
      {A : Type 0} (text : String) (r : Result A) (f : A → M B) (w : World)
      → (checked text r >>= f) w ≡ (ok b, w')
      → ((a : A) → r ≡ ok a → f a w ≡ (ok b, w') → G)
      → G
  after_checked text r f w h k = after_bind _ _ _ h λ a w1 e1 e2.
      let (q, same) = checked-ok text r w e1 in k a q (subst (λ w2. f a w2 ≡ (ok b, w')) same e2)

  pub after_set :
      {A : Type 0} (o : Option A) (e : Error) (f : A → M B) (w : World)
      → (or_raise o e >>= f) w ≡ (ok b, w')
      → ((a : A) → o ≡ some a → f a w ≡ (ok b, w') → G)
      → G
  after_set o e f w h k = after_bind _ _ _ h λ a w1 e1 e2.
      let (q, same) = or_raise-ok o e w e1 in k a q (subst (λ w2. f a w2 ≡ (ok b, w')) same e2)

-- a call whose result is known
ran : {A : Type 0} (m : M A) (w : World) {r : Result A} → (m w).0 ≡ r → m w ≡ (r, (m w).1)
ran m w e = ap (λ x. (x, (m w).1)) e

pub not-false : (b : Bool) → not b ≡ false → b ≡ true
not-false true h = refl
not-false false h = cc

module _ (p : Platform) (laws : IsPlatform p) where
  preloaded_none :
      (text : String) (c : Bool) (o : Option Transaction) (w : World) {w' : World}
      → Repo.with_associations p text c o w ≡ (ok none, w')
      → o ≡ none
  unfolding Repo.with_associations
  preloaded_none text c none w h = refl
  preloaded_none text c (some t) w h =
      after_query _ _ _ w h λ loaded q h1. let same = (pure-ok _ _ h1).0 in cc

  no_contract :
      (n : String) (w : World) {w' : World}
      → Repo.get_by_contract_number p n w ≡ (ok none, w')
      → All (λ t. str_eq t.contract_number n ≡ false) w.db.transactions
  unfolding Repo.get_by_contract_number
  no_contract n w h = after_read _ _ _ h λ h1. after_bind _ _ _ h1 λ o w1 e1 e2.
      elim (optional-ok _ _ _ e1).1 [
        | inl (t, f, s) ↦ cc (preloaded_none _ _ _ _ e2)
        | inr (m, s) ↦ laws.transactions.first_missing _ _ _ m
      ]

  tenor_row :
      (customer_id : Uuid) (tenor : ℤ) (w : World) {l : CreditLimit} {w' : World}
      → LimitRepo.get_by_customer_id_and_tenor p customer_id tenor w ≡ (ok (some l), w')
      → In l w.db.limits × (of_tenor customer_id tenor l ≡ true)
  unfolding LimitRepo.get_by_customer_id_and_tenor
  tenor_row customer_id tenor w {l} h = after_read _ _ _ h λ h1. elim (optional-ok _ _ _ h1).1 [
    | inl (l', f, s) ↦
        let row : p.limits.first (of_tenor customer_id tenor) w.db.limits w.tick ≡ found l = cc in
        laws.limits.first_found _ _ _ l row
    | inr (m, s) ↦ cc
  ]

  -- what was received, where it passes the checks
  approved :
      (req : CreateTransactionRequest) (db : Db) (r : Received) (c : Customer) (a : Asset)
      (l : CreditLimit)
      → IsGathered p req db r
      → r.contract ≡ ok none
      → r.customer ≡ ok (some c)
      → c.is_active ≡ true
      → r.asset ≡ ok (some a)
      → r.limit ≡ ok (some l)
      → IsApproved p req db (record { asset = a; limit = l })
  approved req db r c a l g e1 e2 active e3 e4 =
      let row = tenor_row req.customer_id req.tenor_month g.limit.moment (
        ran (LimitRepo.get_by_customer_id_and_tenor p req.customer_id req.tenor_month)
          g.limit.moment (g.limit.gave ∙ e4)) in
      record {
        new_contract =
            subst
              (λ (db : Db).
                All (λ t. str_eq t.contract_number req.contract_number ≡ false) db.transactions)
              g.contract.same
              (no_contract _ g.contract.moment (
                ran (Repo.get_by_contract_number p req.contract_number) g.contract.moment
                  (g.contract.gave ∙ e1)));
        customer = c;
        customer_read = record {
          moment = g.customer.moment;
          same = g.customer.same;
          gave = g.customer.gave ∙ e2;
        };
        active = active;
        asset_read = record {
          moment = g.asset.moment;
          same = g.asset.same;
          gave = g.asset.gave ∙ e3;
        };
        limit_stands = subst (λ (db : Db). In l db.limits) g.limit.same row.0;
        limit_tenor = row.1;
      }

  -- An order is approved only where no stored transaction has its contract number, the customer
  -- that was read is active, the asset was read, and the limit is a row of the customer and tenor.
  pub approve-ok :
      (req : CreateTransactionRequest) (w : World) {a : Approved} {w' : World}
      → approve p req w ≡ (ok a, w')
      → IsApproved p req w.db a
  unfolding approve
  approve-ok req w {a} {w'} h = after_reads _ _ w (gather-ReadOnly p req) h λ r w1 e0 same1 h1.
      let g = gather-IsGathered p req laws w e0 in
      after_checked _ _ _ w1 h1 λ existing e1 h2. after_guard _ _ _ w1 h2 λ absent h3.
        after_checked _ _ _ w1 h3 λ c e2 h4. after_set c _ _ w1 h4 λ customer e3 h5.
          after_guard _ _ _ w1 h5 λ active h6. after_checked _ _ _ w1 h6 λ found_asset e4 h7.
            after_set found_asset _ _ w1 h7 λ asset e5 h8.
              after_checked _ _ _ w1 h8 λ found_limit e6 h9.
                after_set found_limit _ _ w1 h9 λ limit e7 h10.
                  subst (λ (v : Approved). IsApproved p req w.db v) (sym (pure-ok _ _ h10).0)
                    (approved req w.db r customer asset limit g
                      (e1 ∙ ap (λ o. ok o) (is_set-false existing absent)) (e2 ∙ ap (λ o. ok o) e3)
                      (not-false _ active) (e4 ∙ ap (λ o. ok o) e5) (e6 ∙ ap (λ o. ok o) e7))
