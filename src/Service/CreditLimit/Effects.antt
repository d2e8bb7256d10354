-- ===== src/Service/CreditLimit/Effects.antt =====
-- A failed method of the credit limit service leaves the tables as they were.
use kredit_plus.Base.{Option, none, some}
use kredit_plus.Float.{Float64}
use kredit_plus.Entity.Error.{Uuid, Error}
use kredit_plus.Entity.CreditLimit.{CreateCreditLimitRequest}
use kredit_plus.Platform.World.{Platform}
use kredit_plus.Platform.Monad.Effects.{
  ReadOnly, ReadOnly-pure, ReadOnly-raise, Atomic, Atomic-of_ReadOnly, Atomic-if, atomic_rules,
}
use kredit_plus.Repository.CreditLimit.Effects as Repo
use kredit_plus.Service.CreditLimit.{
  or_raise, create, delete, update_used_amount, change_used_amount,
}

pub or_raise-ReadOnly : {A : Type 0} (o : Option A) (e : Error) → ReadOnly (or_raise o e)
unfolding or_raise
or_raise-ReadOnly none e = ReadOnly-raise e
or_raise-ReadOnly (some a) e = ReadOnly-pure a

module _ (p : Platform) where
  pub create-Atomic : (req : CreateCreditLimitRequest) → Atomic (create p req)
  unfolding create
  create-Atomic req =
      search (atomic_rules, Repo.get_by_customer_id_and_tenor-ReadOnly, Repo.create-Atomic) depth 20

  pub delete-Atomic : (id : Uuid) → Atomic (delete p id)
  unfolding delete
  delete-Atomic id =
      search (atomic_rules, or_raise-ReadOnly, Repo.get_by_id-ReadOnly, Repo.delete-Atomic) depth 20

  change_used_amount-Atomic :
      (id : Uuid) (amount : Float64) → Atomic (change_used_amount p id amount)
  unfolding change_used_amount
  change_used_amount-Atomic id amount =
      search
        (atomic_rules, or_raise-ReadOnly, Repo.get_by_id-ReadOnly, Repo.update_used_amount-Atomic)
        depth 20

  pub update_used_amount-Atomic :
      (id : Uuid) (amount : Float64) → Atomic (update_used_amount p id amount)
  unfolding update_used_amount
  update_used_amount-Atomic id amount =
      Atomic-if _ _ _ (Atomic-of_ReadOnly _ (ReadOnly-pure tt))
        (change_used_amount-Atomic id amount)
