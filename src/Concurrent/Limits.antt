-- ===== src/Concurrent/Limits.antt =====
-- What the methods that write keep of the credit limits, in whatever order they run.
use kredit_plus.Base.{subst, sym, All-append, All}
use kredit_plus.Entity.Error.{Uuid}
use kredit_plus.Entity.CreditLimit.{CreditLimit}
use kredit_plus.Entity.Customer.{Customer, CustomerDocument}
use kredit_plus.Entity.Asset.{Asset}
use kredit_plus.Entity.Transaction.{TransactionStatus}
use kredit_plus.Platform.World.{Db, World, Platform}
use kredit_plus.Platform.Laws.{IsPlatform}
use kredit_plus.Platform.Monad.Effects.{Keeps, Keeps-of_ok, Keeps-transaction, keeps_rules}
use kredit_plus.Repository.CreditLimit as LimitRepo
use kredit_plus.Repository.CreditLimit.Effects as LimitEffects
use kredit_plus.Repository.Customer as CustomerRepo
use kredit_plus.Repository.Asset as AssetRepo
use kredit_plus.Repository.Transaction as TransactionRepo
use kredit_plus.Invariant.{IsCovered, WithinLimits, All-erase, stored-IsCovered}
use kredit_plus.Invariant.Calls.{OfLimits-Ignores, transactions-Keeps}
use kredit_plus.Invariant.Others.{other_tables}
use kredit_plus.Invariant.Operations.{charge-Keeps, store-Keeps}
use kredit_plus.Invariant.Covered.{IsCovered-RowChanges}
use kredit_plus.Concurrent.{Method, IsFair, run_method, Steps, stay, then_method}

module _ (p : Platform) (laws : IsPlatform p) where
  create_limit-Keeps : (l : CreditLimit) → IsCovered l → Keeps WithinLimits (LimitRepo.create p l)
  create_limit-Keeps l covered =
      Keeps-of_ok _ WithinLimits (LimitEffects.create-Atomic p l) (λ w r w' h k.
        let (n, d) = LimitEffects.create-ok p laws l w h in
        subst WithinLimits (sym d)
          (All-append IsCovered w.db.limits _ k (stored-IsCovered p laws n l covered, tt)))

  delete_limit-Keeps : (id : Uuid) → Keeps WithinLimits (LimitRepo.delete p id)
  delete_limit-Keeps id =
      Keeps-of_ok _ WithinLimits (LimitEffects.delete-Atomic p id) (λ w r w' h k.
        let (l, was, key, unused, d) = LimitEffects.delete-ok p laws id w h in
        subst WithinLimits (sym d) (All-erase IsCovered (λ r. r.id) id w.db.limits k))

  change_status-Keeps :
      (id : Uuid) (s : TransactionStatus)
      → Keeps WithinLimits (TransactionRepo.update_status p id s)
  unfolding TransactionRepo.update_status
  change_status-Keeps id s =
      let write = transactions-Keeps (All IsCovered) in
      search (keeps_rules, Keeps-transaction, write) depth 20

  create_asset-Keeps : (a : Asset) → Keeps WithinLimits (AssetRepo.create p a)
  unfolding AssetRepo.create
  create_asset-Keeps a =
      let ignores = OfLimits-Ignores (All IsCovered) in search other_tables depth 20

  update_asset-Keeps : (a : Asset) → Keeps WithinLimits (AssetRepo.update p a)
  unfolding AssetRepo.update
  update_asset-Keeps a =
      let ignores = OfLimits-Ignores (All IsCovered) in search other_tables depth 20

  delete_asset-Keeps : (id : Uuid) → Keeps WithinLimits (AssetRepo.delete p id)
  unfolding AssetRepo.delete
  delete_asset-Keeps id =
      let ignores = OfLimits-Ignores (All IsCovered) in search other_tables depth 20

  create_customer-Keeps : (c : Customer) → Keeps WithinLimits (CustomerRepo.create p c)
  unfolding CustomerRepo.create
  create_customer-Keeps c =
      let ignores = OfLimits-Ignores (All IsCovered) in search other_tables depth 20

  update_customer-Keeps : (c : Customer) → Keeps WithinLimits (CustomerRepo.update p c)
  unfolding CustomerRepo.update
  update_customer-Keeps c =
      let ignores = OfLimits-Ignores (All IsCovered) in search other_tables depth 20

  delete_customer-Keeps : (id : Uuid) → Keeps WithinLimits (CustomerRepo.delete p id)
  unfolding CustomerRepo.delete
  delete_customer-Keeps id =
      let ignores = OfLimits-Ignores (All IsCovered) in search other_tables depth 20

  create_document-Keeps :
      (d : CustomerDocument) → Keeps WithinLimits (CustomerRepo.create_document p d)
  unfolding CustomerRepo.create_document
  create_document-Keeps d =
      let ignores = OfLimits-Ignores (All IsCovered) in search other_tables depth 20

  run_method-WithinLimits :
      (m : Method) (w : World) → IsFair m → WithinLimits w.db → WithinLimits (run_method p m w).db
  unfolding run_method
  run_method-WithinLimits (Method.create_limit l) w fair = (create_limit-Keeps l fair).at w
  run_method-WithinLimits (Method.charge_limit id amount) w fair =
      (charge-Keeps (All IsCovered) p laws (IsCovered-RowChanges p laws) id amount).at w
  run_method-WithinLimits (Method.delete_limit id) w fair = (delete_limit-Keeps id).at w
  run_method-WithinLimits (Method.store_transaction t) w fair =
      (store-Keeps (All IsCovered) p laws (IsCovered-RowChanges p laws) t).at w
  run_method-WithinLimits (Method.change_status id s) w fair = (change_status-Keeps id s).at w
  run_method-WithinLimits (Method.create_asset a) w fair = (create_asset-Keeps a).at w
  run_method-WithinLimits (Method.update_asset a) w fair = (update_asset-Keeps a).at w
  run_method-WithinLimits (Method.delete_asset id) w fair = (delete_asset-Keeps id).at w
  run_method-WithinLimits (Method.create_customer c) w fair = (create_customer-Keeps c).at w
  run_method-WithinLimits (Method.update_customer c) w fair = (update_customer-Keeps c).at w
  run_method-WithinLimits (Method.delete_customer id) w fair = (delete_customer-Keeps id).at w
  run_method-WithinLimits (Method.create_document d) w fair = (create_document-Keeps d).at w

  -- The writing methods of the repositories, in any order and with any requests between them, the
  -- cache and the failures of the database as they like, never leave a credit limit with more used
  -- than it allows, where none had more used before and limits are opened covered.
  pub interleaved-WithinLimits :
      (start db : Db) → Steps p start db → WithinLimits start → WithinLimits db
  interleaved-WithinLimits start _ stay h = h
  interleaved-WithinLimits start _ (then_method w m fair before) h =
      run_method-WithinLimits m w fair (interleaved-WithinLimits start w.db before h)
