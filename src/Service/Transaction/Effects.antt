-- ===== src/Service/Transaction/Effects.antt =====
-- What the reading half of the transaction service, and a failed change of status, do to the tables.
use kredit_plus.Base.{String}
use kredit_plus.Entity.Error.{Uuid, wrapped}
use kredit_plus.Entity.Transaction.{CreateTransactionRequest, TransactionStatus}
use kredit_plus.Platform.Table.{Result, ok, err}
use kredit_plus.Platform.World.{Platform}
use kredit_plus.Platform.Monad.Effects.{
  ReadOnly, ReadOnly-pure, ReadOnly-raise, Atomic, atomic_rules, read_rules,
}
use kredit_plus.Repository.Transaction.Effects as Repo
use kredit_plus.Service.Gathering.Held.{gather-ReadOnly}
use kredit_plus.Service.CreditLimit.Effects.{or_raise-ReadOnly}
use kredit_plus.Service.Transaction.{checked, approve, update_status}

checked-ReadOnly : {A : Type 0} (text : String) (r : Result A) → ReadOnly (checked text r)
unfolding checked
checked-ReadOnly text (ok a) = ReadOnly-pure a
checked-ReadOnly text (err e) = ReadOnly-raise (wrapped text e)

module _ (p : Platform) where
  pub approve-ReadOnly : (req : CreateTransactionRequest) → ReadOnly (approve p req)
  unfolding approve
  approve-ReadOnly req =
      search (read_rules, checked-ReadOnly, or_raise-ReadOnly, gather-ReadOnly) depth 30

  pub update_status-Atomic : (id : Uuid) (s : TransactionStatus) → Atomic (update_status p id s)
  unfolding update_status
  update_status-Atomic id s =
      search (atomic_rules, or_raise-ReadOnly, Repo.get_by_id-ReadOnly, Repo.update_status-Atomic)
        depth 20
