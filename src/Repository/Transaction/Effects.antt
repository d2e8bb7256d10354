-- ===== src/Repository/Transaction/Effects.antt =====
-- Which methods of the transaction repository leave the tables alone.
use kredit_plus.Base.{String, Bool, Option, none, some, ℕ, zero, suc, ℤ}
use kredit_plus.Time.{Time}
use kredit_plus.Entity.Error.{Uuid}
use kredit_plus.Entity.Transaction.{Transaction, TransactionStatus}
use kredit_plus.Platform.World.{Platform}
use kredit_plus.Platform.Monad.Effects.{ReadOnly, Atomic, Atomic-transaction, read_rules}
use kredit_plus.Repository.Transaction.{
  installments_from, generate_installments, create, with_associations, get_by_id,
  get_by_contract_number, update_status,
}

module _ (p : Platform) where
  installments_from-ReadOnly :
      (t : Transaction) (rounds : ℕ) (i : ℤ) (due : Time)
      → ReadOnly (installments_from p t rounds i due)
  unfolding installments_from
  installments_from-ReadOnly t zero i due = search read_rules
  installments_from-ReadOnly t (suc rounds) i due =
      search (read_rules, installments_from-ReadOnly t rounds) depth 12

  pub generate_installments-ReadOnly : (t : Transaction) → ReadOnly (generate_installments p t)
  unfolding generate_installments
  generate_installments-ReadOnly t = search (read_rules, installments_from-ReadOnly)

  with_associations-ReadOnly :
      (text : String) (customer : Bool) (o : Option Transaction)
      → ReadOnly (with_associations p text customer o)
  unfolding with_associations
  with_associations-ReadOnly text customer none = search read_rules
  with_associations-ReadOnly text customer (some c) = search read_rules

  pub get_by_id-ReadOnly : (id : Uuid) → ReadOnly (get_by_id p id)
  unfolding get_by_id
  get_by_id-ReadOnly id = search (with_associations-ReadOnly, read_rules)

  pub get_by_contract_number-ReadOnly : (n : String) → ReadOnly (get_by_contract_number p n)
  unfolding get_by_contract_number
  get_by_contract_number-ReadOnly n = search (with_associations-ReadOnly, read_rules)

  pub create-Atomic : (t : Transaction) → Atomic (create p t)
  unfolding create
  create-Atomic t = Atomic-transaction _ p

  pub update_status-Atomic : (id : Uuid) (s : TransactionStatus) → Atomic (update_status p id s)
  unfolding update_status
  update_status-Atomic id s = Atomic-transaction _ p
