-- ===== src/Service/Transaction/Success.antt =====
-- When a purchase succeeds.
use kredit_plus.Base.{
  String, str_eq, ℕ, ℤ, suc, pos, true, false, not, [], All, some, is_empty, ◌≡◌, refl, sym, ap,
  ◌∙◌, subst, inl, inr, arith,
}
use kredit_plus.Float.{add, sub, lt}
use kredit_plus.Entity.Error.{Uuid, Error}
use kredit_plus.Entity.CreditLimit.{CreditLimit}
use kredit_plus.Entity.Customer.{Customer}
use kredit_plus.Entity.Asset.{Asset}
use kredit_plus.Time.{Time}
use kredit_plus.Entity.Transaction.{
  Transaction, is_valid_status, TransactionResponse, CreateTransactionRequest, validate,
}
use kredit_plus.Platform.Table.{ok, In}
use kredit_plus.Platform.World.{Db, World, Platform}
use kredit_plus.Platform.Laws.{IsPlatform, SameTransaction}
use kredit_plus.Platform.Monad.{pure, new_uuid, now, step}
use kredit_plus.Platform.Monad.Success.{wrap_ok, gives_bind, gives_step, gives_guard}
use kredit_plus.Repository.CreditLimit.{of_tenor}
use kredit_plus.Repository.Transaction.Create.{Stored, store-ok}
use kredit_plus.Repository.Transaction.Accepted.{SaleAnswers, DrawsNew, FitsColumns, is_short}
use kredit_plus.Repository.Transaction.Success.{store-Succeeds}
use kredit_plus.Repository.CreditLimit.Success.{Takes, fits_column}
use kredit_plus.Service.CreditLimit.{or_raise}
use kredit_plus.Service.Transaction.{
  Approved, approve, settle, create, new_transaction, total_amount, interest_amount,
  installment_amount, to_response,
}
use kredit_plus.Entity.Validation.{IsTenor, purchase_request_iff}
use kredit_plus.Service.Transaction.Approval.{approve-ok}
use kredit_plus.Service.Transaction.Effects.{approve-ReadOnly}
use kredit_plus.Invariant.Tenors.{OneEach, same_tenor}
use kredit_plus.Service.Transaction.Charging.{charged_succeeds}

or_raise-some : {A : Type 0} (a : A) (e : Error) (w : World) → or_raise (some a) e w ≡ (ok a, w)
unfolding or_raise pure
or_raise-some a e w = refl

-- The limit has room for the order: for its total, and for its price and its total one after the
-- other, as the columns round them, which take what is written.
pub record HasRoom (p : Platform) (req : CreateTransactionRequest) (a : Approved) : Type 0 where
  pub affordable :
      lt (sub a.limit.limit_amount a.limit.used_amount) (total_amount a.asset req) ≡ false
  pub price : Takes a.limit.limit_amount a.limit.used_amount a.asset.price
  pub total :
      Takes
        (p.decimal a.limit.limit_amount)
        (p.decimal (add a.limit.used_amount a.asset.price))
        (total_amount a.asset req)

-- The columns take the amounts and the contract number of the order.
pub record FitsOrder (req : CreateTransactionRequest) (a : Approved) : Type 0 where
  pub price_fits : fits_column a.asset.price ≡ true
  pub fee_fits : fits_column req.admin_fee ≡ true
  pub interest_fits : fits_column (interest_amount a.asset req) ≡ true
  pub installment_fits : fits_column (installment_amount a.asset req) ≡ true
  pub contract_fits : is_short 50 req.contract_number ≡ true

-- The customer and the asset that the order names stand in the tables.
pub record Stand (req : CreateTransactionRequest) (db : Db) : Type 0 where
  pub customer : Customer
  pub customer_stands : In customer db.customers × (customer.id ≡ req.customer_id)
  pub asset : Asset
  pub asset_stands : In asset db.assets × (asset.id ≡ req.asset_id)

-- What is answered of a transaction that an order made.
pub record IsSold (req : CreateTransactionRequest) (drawn : Uuid) (r : TransactionResponse)
    : Type 0 where
  pub id : r.id ≡ drawn
  pub customer_id : r.customer_id ≡ req.customer_id
  pub asset_id : r.asset_id ≡ req.asset_id
  pub contract_number : r.contract_number ≡ req.contract_number
  pub tenor_month : r.tenor_month ≡ req.tenor_month
  pub status : ◌≡◌ {A = String} r.status "pending"

fits_new :
    (req : CreateTransactionRequest) (a : Approved) (id : Uuid) (created updated : Time)
    → FitsOrder req a
    → FitsColumns (new_transaction req a id created updated)
unfolding new_transaction is_valid_status
fits_new req a id created updated f = record {
  otr_fits = f.price_fits;
  fee_fits = f.fee_fits;
  interest_fits = f.interest_fits;
  installment_fits = f.installment_fits;
  contract_fits = f.contract_fits;
  status_valid = refl;
}

module _ (p : Platform) (laws : IsPlatform p) where
  sold :
      (req : CreateTransactionRequest) (a : Approved) (id : Uuid) (created updated : Time)
      (t : Transaction)
      → t.id ≡ id
      → SameTransaction (new_transaction req a id created updated) t
      → IsSold req id (to_response p t)
  unfolding new_transaction to_response
  sold req a id created updated t same_id same = record {
    id = same_id;
    customer_id = same.customer_id;
    asset_id = same.asset_id;
    contract_number = same.contract_number;
    tenor_month = same.tenor_month;
    status = same.status;
  }

  -- the writes of an order that is approved succeed
  settle_succeeds :
      (req : CreateTransactionRequest) (a : Approved) (w : World) (n : ℕ)
      → SaleAnswers p w.db
      → DrawsNew p w.db w.tick
      → Stand req w.db
      → FitsOrder req a
      → req.tenor_month ≡ pos (suc n)
      → OneEach w.db.limits
      → In a.limit w.db.limits
      → of_tenor req.customer_id req.tenor_month a.limit ≡ true
      → HasRoom p req a
      → All (λ t. str_eq t.contract_number req.contract_number ≡ false) w.db.transactions
      → (r : TransactionResponse) × (w' : World) × (settle p req a w ≡ (ok r, w'))
        × IsSold req (p.new_uuid w.tick) r
  unfolding settle new_uuid now new_transaction pure
  settle_succeeds req a w n answers draws stand fits months one stands of_it room new =
      let w3 = step (step (step w)) in
      let created = p.now (step w).tick in
      let updated = p.now (step (step w)).tick in
      let t = new_transaction req a (p.new_uuid w.tick) created updated in
      let fresh = draws.transactions w.tick (omega arith) in
      let same =
        λ (r : CreditLimit) (i : In r w.db.limits)
            (m : of_tenor req.customer_id req.tenor_month r ≡ true).
          same_tenor w.db.limits r a.limit req.customer_id req.tenor_month one i stands m of_it in
      let has_price =
        λ (r : CreditLimit) (i : In r w.db.limits)
            (m : of_tenor req.customer_id req.tenor_month r ≡ true).
          subst (λ (l : CreditLimit). Takes l.limit_amount l.used_amount a.asset.price)
            (sym (same r i m)) room.price in
      let (u, w4, e1) =
        store-Succeeds p laws t w3 answers w.tick draws a.limit n stand.customer stand.asset
          (omega arith) months stands of_it has_price fresh new stand.customer_stands
          stand.asset_stands (fits_new req a (p.new_uuid w.tick) created updated fits) in
      let s : Stored p t w.db w4.db = store-ok p laws t w3 e1 in
      let (w5, e2, (t', w6, e3, same_id, columns)) =
        charged_succeeds p laws w.db answers t w3 w4 s a.limit (total_amount a.asset req) one
          (same s.limit s.was s.owner) room.total fresh in
      (
        to_response p t',
        w6,
        gives_guard _ _ _ w room.affordable (
            gives_bind (new_uuid p) _ w refl (
              gives_bind (now p) _ (step w) refl (
                gives_bind (now p) _ (step (step w)) refl (
                  gives_step _ _ w3 (wrap_ok _ _ w3 e1) (
                    gives_step _ _ w4 (wrap_ok _ _ w4 e2) (
                      gives_bind _ _ w5 (wrap_ok _ _ w5 e3)
                        (gives_bind _ _ w6 (or_raise-some t' _ w6) refl))))))),
        sold req a (p.new_uuid w.tick) created updated t' same_id columns,
      )

-- a valid order has at least one month
months_of : (z : ℤ) → IsTenor z → (n : ℕ) × (z ≡ pos (suc n))
months_of z (inl e) = (0, e)
months_of z (inr (inl e)) = (1, e)
months_of z (inr (inr (inl e))) = (2, e)
months_of z (inr (inr (inr e))) = (5, e)

-- An order that is valid and approved is settled, so that the purchase gives the transaction that was
-- stored.
pub purchase_succeeds :
    (p : Platform) (laws : IsPlatform p) (req : CreateTransactionRequest) (w : World) (a : Approved)
    (w1 : World)
    → SaleAnswers p w.db
    → DrawsNew p w.db w1.tick
    → validate req ≡ []
    → approve p req w ≡ (ok a, w1)
    → Stand req w.db
    → FitsOrder req a
    → HasRoom p req a
    → OneEach w.db.limits
    → (r : TransactionResponse) × (w' : World) × (create p req w ≡ (ok r, w'))
      × IsSold req (p.new_uuid w1.tick) r
unfolding create
purchase_succeeds p laws req w a w1 answers draws valid approved stand fits room one =
    let (named, of_asset, tenor, fee, rate, contract) = (purchase_request_iff req).0 valid in
    let (n, months) = months_of req.tenor_month tenor in
    let is_approved = approve-ok p laws req w approved in
    let same : w.db ≡ w1.db =
      sym (ap (λ r. r.1.db) (sym approved) ∙ (approve-ReadOnly p req).at w) in
    let (r, w', e, is_sold) =
      settle_succeeds p laws req a w1 n (subst (SaleAnswers p) same answers)
        (subst (λ db. DrawsNew p db w1.tick) same draws) (subst (Stand req) same stand) fits months
        (subst (λ (db : Db). OneEach db.limits) same one)
        (subst (λ (db : Db). In a.limit db.limits) same is_approved.limit_stands)
        is_approved.limit_tenor room
        (subst
          (λ (db : Db).
            All (λ t. str_eq t.contract_number req.contract_number ≡ false) db.transactions)
          same is_approved.new_contract) in
    (
      r,
      w',
      gives_guard _ _ _ w (ap (λ es. not (is_empty es)) valid) (gives_bind _ _ w approved e),
      is_sold,
    )
