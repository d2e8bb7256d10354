-- ===== src/Concurrent.antt =====
-- Requests that run at the same time. Each method of a repository that writes (internal/repository)
-- is one transaction of the database, in which a credit limit is locked before it is charged
-- (`clause.Locking`), so requests interleave between these methods: what the tables go through is a
-- sequence of them, whatever requests they come from, and whatever the cache and the outside do in
-- between.
pub mod Methods
pub mod Calls
pub mod Limits
use kredit_plus.Float.{Float64, lt}
use kredit_plus.Base.{false, ◌≡◌}
use kredit_plus.Entity.Error.{Uuid}
use kredit_plus.Entity.CreditLimit.{CreditLimit}
use kredit_plus.Entity.Customer.{Customer, CustomerDocument}
use kredit_plus.Entity.Asset.{Asset}
use kredit_plus.Entity.Transaction.{Transaction, TransactionStatus}
use kredit_plus.Platform.World.{Db, World, Platform}
use kredit_plus.Repository.CreditLimit as LimitRepo
use kredit_plus.Repository.Customer as CustomerRepo
use kredit_plus.Repository.Asset as AssetRepo
use kredit_plus.Repository.Transaction as TransactionRepo
use kredit_plus.Invariant.{IsCovered}

-- the methods that write
pub data Method : Type 0 where
  create_limit : CreditLimit → Method
  charge_limit : Uuid → Float64 → Method
  delete_limit : Uuid → Method
  store_transaction : Transaction → Method
  change_status : Uuid → TransactionStatus → Method
  create_asset update_asset : Asset → Method
  delete_asset : Uuid → Method
  create_customer update_customer : Customer → Method
  delete_customer : Uuid → Method
  create_document : CustomerDocument → Method

-- A limit is only ever opened with at most its amount used.
abbrev pub IsFair : Method → Type 0
IsFair (create_limit l) = IsCovered l
IsFair _ = Unit

module _ (p : Platform) where
  -- the world behind a method; its result is left to the caller
  unfoldable pub run_method : Method → World → World
  run_method (create_limit l) w = (LimitRepo.create p l w).1
  run_method (charge_limit id amount) w = (LimitRepo.update_used_amount p id amount w).1
  run_method (delete_limit id) w = (LimitRepo.delete p id w).1
  run_method (store_transaction t) w = (TransactionRepo.create p t w).1
  run_method (change_status id s) w = (TransactionRepo.update_status p id s w).1
  run_method (create_asset a) w = (AssetRepo.create p a w).1
  run_method (update_asset a) w = (AssetRepo.update p a w).1
  run_method (delete_asset id) w = (AssetRepo.delete p id w).1
  run_method (create_customer c) w = (CustomerRepo.create p c w).1
  run_method (update_customer c) w = (CustomerRepo.update p c w).1
  run_method (delete_customer id) w = (CustomerRepo.delete p id w).1
  run_method (create_document d) w = (CustomerRepo.create_document p d w).1

  -- The tables that are reached from those of `start`.
  pub data Steps (start : Db) : Db → Type 0 where
    stay : Steps start start
    then_method :
        (w : World) (m : Method) → IsFair m → Steps start w.db → Steps start (run_method m w).db
