-- ===== src/Invariant/Contracts/Sales.antt =====
-- The calls keep the contract numbers apart: an order is approved only where its number is new, and
-- nothing changes the number of a row.
use kredit_plus.Base.{false, String, str_eq, ◌==◌, All, ◌≡◌, sym, ap, subst, arith, inl, inr}
use kredit_plus.Entity.Error.{Uuid, Error}
use kredit_plus.Entity.Transaction.{
  Transaction, TransactionResponse, CreateTransactionRequest, TransactionStatus,
}
use kredit_plus.Entity.CreditLimit.{CreateCreditLimitRequest}
use kredit_plus.Float.{Float64}
use kredit_plus.Time.{Time}
use kredit_plus.Platform.Table.{Result, ok, err}
use kredit_plus.Platform.World.{Db, World, Platform}
use kredit_plus.Platform.Laws.{IsPlatform}
use kredit_plus.Platform.Monad.{M, ◌>>=◌, ◌>>◌}
use kredit_plus.Platform.Monad.Effects.{
  Keeps, Keeps-of_ok, ReadOnly-fail_if, ReadOnly-now, ReadOnly-new_uuid, keeps_rules,
}
use kredit_plus.Platform.Monad.Outcomes.{Result-cases}
use kredit_plus.Platform.Monad.Leads.{Leads, Leads-read, Leads-kept, Leads-wrap}
use kredit_plus.Repository.CreditLimit as LimitRepo
use kredit_plus.Repository.CreditLimit.Effects as LimitEffects
use kredit_plus.Repository.Transaction as TransactionRepo
use kredit_plus.Repository.Transaction.Effects as TransactionEffects
use kredit_plus.Repository.Transaction.Create.{Stored, store-ok}
use kredit_plus.Service.CreditLimit as LimitService
use kredit_plus.Service.CreditLimit.Effects as LimitServiceEffects
use kredit_plus.Service.CreditLimit.Effects.{or_raise-ReadOnly}
use kredit_plus.Service.CreditLimit.Rules as Rules
use kredit_plus.Service.Transaction.{
  Approved, new_transaction, settle, create, update_status, approve,
}
use kredit_plus.Service.Transaction.Approval.{approve-ok}
use kredit_plus.Service.Transaction.Effects.{approve-ReadOnly, update_status-Atomic}
use kredit_plus.Service.Transaction.Status.{update_status-ok}
use kredit_plus.Invariant.Calls.{Call, run_call}
use kredit_plus.Invariant.Others as Others
use kredit_plus.Invariant.Others.{Ignores}
use kredit_plus.Invariant.Contracts.{OfSales, Contracts-append, change-Contracts}

module _ {A B : Type 0} (m : M A) (f : A → M B) (w : World) where
  bind_ok : (a : A) → (m w).0 ≡ ok a → f a (m w).1 ≡ (m >>= f) w
  unfolding ◌>>=◌
  bind_ok a e = ground (arith, e)

  bind_err : (x : Error) → (m w).0 ≡ err x → (err x, (m w).1) ≡ (m >>= f) w
  unfolding ◌>>=◌
  bind_err x e = ground (arith, e)

module _ (p : Platform) (laws : IsPlatform p) where
  -- no transaction has the contract number, and any two differ in theirs
  abbrev BeforeSale : String → Db → Type 0
  BeforeSale c db = All (λ t. str_eq t.contract_number c ≡ false) db.transactions × OfSales db

  weaker : (c : String) (db : Db) → BeforeSale c db → OfSales db
  weaker c db h = h.1

  Stored-OfSales :
      (t : Transaction) (db db' : Db)
      → Stored p t db db'
      → BeforeSale t.contract_number db
      → OfSales db'
  Stored-OfSales t db db' s (new, h) = subst OfSales (sym s.now_is) (
      Contracts-append db.transactions _
        (subst (λ c. All (λ r. str_eq r.contract_number c ≡ false) db.transactions)
          (sym (laws.transaction_stored s.number t).contract_number) new)
        h)

  store-Leads :
      (t : Transaction) → Leads (BeforeSale t.contract_number) OfSales (TransactionRepo.create p t)
  store-Leads t = record {
    at = λ w h. elim (Result-cases (TransactionRepo.create p t w).0) [
      | inl (a, e) ↦
          let w' = (TransactionRepo.create p t w).1 in
          Stored-OfSales t w.db w'.db (store-ok p laws t w {w' = w'} (ap (λ r. (r, w')) e)) h
      | inr (x, e) ↦ subst OfSales (sym ((TransactionEffects.create-Atomic p t).at w x e)) h.1
    ];
  }

  charge-Keeps :
      (id : Uuid) (amount : Float64) → Keeps OfSales (LimitRepo.update_used_amount p id amount)
  charge-Keeps id amount =
      Keeps-of_ok _ OfSales (LimitEffects.update_used_amount-Atomic p id amount) (λ w r w' h k.
        let (l, key, c) = LimitEffects.update_limit-ok p laws id amount w h in
        subst OfSales (sym c.now_is) k)

  new_transaction-Leads :
      (req : CreateTransactionRequest) (a : Approved) (id : Uuid) (created_at updated_at : Time)
      → Leads
          (BeforeSale req.contract_number)
          OfSales
          (TransactionRepo.create p (new_transaction req a id created_at updated_at))
  unfolding new_transaction
  new_transaction-Leads req a id created_at updated_at =
      store-Leads (new_transaction req a id created_at updated_at)

  settle-Leads :
      (req : CreateTransactionRequest) (a : Approved)
      → Leads (BeforeSale req.contract_number) OfSales (settle p req a)
  unfolding settle ◌>>◌
  settle-Leads req a =
      let c = req.contract_number in
      let weak = weaker c in
      Leads-read (BeforeSale c) OfSales _ _ weak (ReadOnly-fail_if _ _) λ _.
        Leads-read (BeforeSale c) OfSales _ _ weak (ReadOnly-new_uuid p) λ id.
          Leads-read (BeforeSale c) OfSales _ _ weak (ReadOnly-now p) λ created_at.
            Leads-read (BeforeSale c) OfSales _ _ weak (ReadOnly-now p) λ updated_at.
              Leads-kept (BeforeSale c) OfSales _ _
                (Leads-wrap (BeforeSale c) OfSales _ _
                  (new_transaction-Leads req a id created_at updated_at))
                λ _.
                  search
                    (
                      keeps_rules, charge-Keeps, TransactionEffects.get_by_id-ReadOnly,
                      or_raise-ReadOnly,
                    )
                    depth 20

  -- what an approved order leads to starts where no transaction has its contract number
  approved_settle-Keeps :
      (req : CreateTransactionRequest) → Keeps OfSales (approve p req >>= λ a. settle p req a)
  approved_settle-Keeps req = record {
    at = λ w h. elim (Result-cases (approve p req w).0) [
      | inl (a, e) ↦
          let w1 = (approve p req w).1 in
          let approved = approve-ok p laws req w {w' = w1} (ap (λ r. (r, w1)) e) in
          let before : BeforeSale req.contract_number w1.db =
            subst (BeforeSale req.contract_number) (sym ((approve-ReadOnly p req).at w))
              (approved.new_contract, h) in
          subst (λ (r : Result TransactionResponse × World). OfSales r.1.db)
            (bind_ok (approve p req) (λ a. settle p req a) w a e)
            ((settle-Leads req a).at w1 before)
      | inr (x, e) ↦
          subst (λ (r : Result TransactionResponse × World). OfSales r.1.db)
            (bind_err (approve p req) (λ a. settle p req a) w x e)
            (subst OfSales (sym ((approve-ReadOnly p req).at w)) h)
    ];
  }

  purchase-Keeps : (req : CreateTransactionRequest) → Keeps OfSales (create p req)
  unfolding create
  purchase-Keeps req = search (keeps_rules, approved_settle-Keeps) depth 20

  status-Keeps : (id : Uuid) (s : TransactionStatus) → Keeps OfSales (update_status p id s)
  status-Keeps id s = Keeps-of_ok _ OfSales (update_status-Atomic p id s) (λ w r w' h k.
      let (valid, (n, now_is)) = update_status-ok p laws id s w h in
      subst OfSales (sym now_is) (
        change-Contracts (λ t. t.id == id) (λ t. p.transactions.stored n (record t { status = s }))
          (λ t. (laws.transaction_stored n (record t { status = s })).contract_number)
          w.db.transactions k))

  limit-Keeps : (req : CreateCreditLimitRequest) → Keeps OfSales (LimitService.create p req)
  limit-Keeps req =
      Keeps-of_ok _ OfSales (LimitServiceEffects.create-Atomic p req)
        (λ w r w' h k. subst OfSales (sym (Rules.create_limit-ok p laws req w h).now_is) k)

  used-Keeps :
      (id : Uuid) (amount : Float64) → Keeps OfSales (LimitService.update_used_amount p id amount)
  used-Keeps id amount =
      Keeps-of_ok _ OfSales (LimitServiceEffects.update_used_amount-Atomic p id amount)
        (λ w r w' h k. elim (Rules.update_used-ok p laws id amount w h) [
          | inl (z, same) ↦ subst OfSales (sym same) k
          | inr (nz, (l, key, c)) ↦ subst OfSales (sym c.now_is) k
        ])

  deleted-Keeps : (id : Uuid) → Keeps OfSales (LimitService.delete p id)
  deleted-Keeps id = Keeps-of_ok _ OfSales (LimitServiceEffects.delete-Atomic p id) (λ w r w' h k.
      let (l, was, key, unused, now_is) = Rules.delete_limit-ok p laws id w h in
      subst OfSales (sym now_is) k)

  OfSales-Ignores : Ignores OfSales
  OfSales-Ignores = record {
    assets = λ rows db h. h;
    customers = λ rows db h. h;
    documents = λ rows db h. h;
  }

  pub run_call-Contracts : (c : Call) (w : World) → OfSales w.db → OfSales (run_call p c w).db
  unfolding run_call
  run_call-Contracts (Call.create_limit req) w h = (limit-Keeps req).at w h
  run_call-Contracts (Call.update_used_amount id amount) w h = (used-Keeps id amount).at w h
  run_call-Contracts (Call.delete_limit id) w h = (deleted-Keeps id).at w h
  run_call-Contracts (Call.purchase req) w h = (purchase-Keeps req).at w h
  run_call-Contracts (Call.update_status id s) w h = (status-Keeps id s).at w h
  run_call-Contracts (Call.create_asset req) w h =
      (Others.create_asset-Keeps OfSales OfSales-Ignores p req).at w h
  run_call-Contracts (Call.update_asset id req) w h =
      (Others.update_asset-Keeps OfSales OfSales-Ignores p id req).at w h
  run_call-Contracts (Call.delete_asset id) w h =
      (Others.delete_asset-Keeps OfSales OfSales-Ignores p id).at w h
  run_call-Contracts (Call.create_customer req) w h =
      (Others.create_customer-Keeps OfSales OfSales-Ignores p req).at w h
  run_call-Contracts (Call.update_customer id req) w h =
      (Others.update_customer-Keeps OfSales OfSales-Ignores p id req).at w h
  run_call-Contracts (Call.delete_customer id) w h =
      (Others.delete_customer-Keeps OfSales OfSales-Ignores p id).at w h
  run_call-Contracts (Call.upload_document id req) w h =
      (Others.upload_document-Keeps OfSales OfSales-Ignores p id req).at w h
