-- ===== src/Concurrent/Methods.antt =====
-- The methods of the repositories, each a step that the tables go through.
use kredit_plus.Base.{Bool, true, false, ◌≡◌, refl}
use kredit_plus.Float.{Float64}
use kredit_plus.Entity.Error.{Uuid, Error}
use kredit_plus.Entity.CreditLimit.{CreditLimit}
use kredit_plus.Entity.Customer.{Customer, CustomerDocument}
use kredit_plus.Entity.Asset.{Asset}
use kredit_plus.Entity.Transaction.{Transaction, TransactionStatus}
use kredit_plus.Platform.World.{Db, Platform}
use kredit_plus.Platform.Monad.{M, fail_if, ◌>>◌, ◌>>=◌}
use kredit_plus.Platform.Monad.Effects.{Keeps, keeps_rules}
use kredit_plus.Repository.CreditLimit as LimitRepo
use kredit_plus.Repository.CreditLimit.Effects as LimitEffects
use kredit_plus.Repository.Customer as CustomerRepo
use kredit_plus.Repository.Customer.Effects as CustomerEffects
use kredit_plus.Repository.Asset as AssetRepo
use kredit_plus.Repository.Asset.Effects as AssetEffects
use kredit_plus.Repository.Transaction as TransactionRepo
use kredit_plus.Repository.Transaction.Effects as TransactionEffects
use kredit_plus.Service.CreditLimit.Effects.{or_raise-ReadOnly}
use kredit_plus.Service.Transaction.Effects.{approve-ReadOnly}
use kredit_plus.Invariant.{IsCovered}
use kredit_plus.Concurrent.{Method, run_method, Steps, then_method}

-- what follows a test that passed
pub Keeps-guard :
    {A : Type 0} (P : Db → Type 0) (c : Bool) (e : Error) (k : M A)
    → (c ≡ false → Keeps P k)
    → Keeps P (fail_if c e >> k)
unfolding fail_if ◌>>◌ ◌>>=◌
Keeps-guard P true e k h = record { at = λ w q. q }
Keeps-guard P false e k h = record { at = λ w q. (h refl).at w q }

module _ (p : Platform) (start : Db) where
  abbrev pub Reached : Db → Type 0
  Reached db = Steps p start db

  pub created_limit : (l : CreditLimit) → IsCovered l → Keeps Reached (LimitRepo.create p l)
  unfolding run_method
  created_limit l covered = record { at = λ w s. then_method w (Method.create_limit l) covered s }

  pub charged :
      (id : Uuid) (amount : Float64) → Keeps Reached (LimitRepo.update_used_amount p id amount)
  unfolding run_method
  charged id amount = record { at = λ w s. then_method w (Method.charge_limit id amount) tt s }

  pub deleted_limit : (id : Uuid) → Keeps Reached (LimitRepo.delete p id)
  unfolding run_method
  deleted_limit id = record { at = λ w s. then_method w (Method.delete_limit id) tt s }

  pub stored : (t : Transaction) → Keeps Reached (TransactionRepo.create p t)
  unfolding run_method
  stored t = record { at = λ w s. then_method w (Method.store_transaction t) tt s }

  pub changed_status :
      (id : Uuid) (s : TransactionStatus) → Keeps Reached (TransactionRepo.update_status p id s)
  unfolding run_method
  changed_status id status = record {
    at = λ w s. then_method w (Method.change_status id status) tt s;
  }

  pub created_asset : (a : Asset) → Keeps Reached (AssetRepo.create p a)
  unfolding run_method
  created_asset a = record { at = λ w s. then_method w (Method.create_asset a) tt s }

  pub updated_asset : (a : Asset) → Keeps Reached (AssetRepo.update p a)
  unfolding run_method
  updated_asset a = record { at = λ w s. then_method w (Method.update_asset a) tt s }

  pub deleted_asset : (id : Uuid) → Keeps Reached (AssetRepo.delete p id)
  unfolding run_method
  deleted_asset id = record { at = λ w s. then_method w (Method.delete_asset id) tt s }

  pub created_customer : (c : Customer) → Keeps Reached (CustomerRepo.create p c)
  unfolding run_method
  created_customer c = record { at = λ w s. then_method w (Method.create_customer c) tt s }

  pub updated_customer : (c : Customer) → Keeps Reached (CustomerRepo.update p c)
  unfolding run_method
  updated_customer c = record { at = λ w s. then_method w (Method.update_customer c) tt s }

  pub deleted_customer : (id : Uuid) → Keeps Reached (CustomerRepo.delete p id)
  unfolding run_method
  deleted_customer id = record { at = λ w s. then_method w (Method.delete_customer id) tt s }

  pub created_document : (d : CustomerDocument) → Keeps Reached (CustomerRepo.create_document p d)
  unfolding run_method
  created_document d = record { at = λ w s. then_method w (Method.create_document d) tt s }

pub ruleset method_rules = (
  keeps_rules, or_raise-ReadOnly, charged, deleted_limit, stored, changed_status, created_asset,
  updated_asset, deleted_asset, created_customer, updated_customer, deleted_customer,
  created_document, LimitEffects.get_by_id-ReadOnly,
  LimitEffects.get_by_customer_id_and_tenor-ReadOnly, CustomerEffects.get_by_id-ReadOnly,
  CustomerEffects.get_by_nik-ReadOnly, CustomerEffects.get_documents-ReadOnly,
  AssetEffects.get_by_id-ReadOnly, TransactionEffects.get_by_id-ReadOnly, approve-ReadOnly,
)
