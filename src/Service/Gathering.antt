-- ===== src/Service/Gathering.antt =====
-- The goroutines that `Create` of internal/service/transaction.go starts, each for one read, and what
-- it receives of them. The channels are not buffered and `Create` receives from all four before it
-- looks at a result, so the results do not depend on when they are received.
pub mod Held
pub mod Channels
use kredit_plus.Base.{List, [], ◌∷◌, Option, none}
use kredit_plus.Entity.CreditLimit.{CreditLimit}
use kredit_plus.Entity.Customer.{Customer}
use kredit_plus.Entity.Asset.{Asset}
use kredit_plus.Entity.Transaction.{Transaction, CreateTransactionRequest}
use kredit_plus.Platform.Table.{Result, ok}
use kredit_plus.Platform.World.{
  World, Platform, Goroutine, reads_contract, reads_customer, reads_asset, reads_limit,
}
use kredit_plus.Platform.Monad.{M}
use kredit_plus.Repository.Customer as CustomerRepo
use kredit_plus.Repository.Asset as AssetRepo
use kredit_plus.Repository.CreditLimit as CreditLimitRepo
use kredit_plus.Repository.Transaction as Repo

-- what the four channels give
pub record Received : Type 0 where
  pub contract : Result (Option Transaction)
  pub customer : Result (Option Customer)
  pub asset : Result (Option Asset)
  pub limit : Result (Option CreditLimit)

-- a channel that is closed gives the zero value
abbrev pub nothing_received : Received
nothing_received = record {
  contract = ok none;
  customer = ok none;
  asset = ok none;
  limit = ok none;
}

module _ (p : Platform) (req : CreateTransactionRequest) where
  unfoldable pub run_goroutine : Goroutine → Received × World → Received × World
  run_goroutine reads_contract (r, w) =
      let (x, w') = Repo.get_by_contract_number p req.contract_number w in
      (record r { contract = x }, w')
  run_goroutine reads_customer (r, w) =
      let (x, w') = CustomerRepo.get_by_id p req.customer_id w in (record r { customer = x }, w')
  run_goroutine reads_asset (r, w) =
      let (x, w') = AssetRepo.get_by_id p req.asset_id w in (record r { asset = x }, w')
  run_goroutine reads_limit (r, w) =
      let (x, w') =
        CreditLimitRepo.get_by_customer_id_and_tenor p req.customer_id req.tenor_month w in
      (record r { limit = x }, w')

  unfoldable pub run_goroutines : List Goroutine → Received × World → Received × World
  run_goroutines [] s = s
  run_goroutines (g ∷ gs) s = run_goroutines gs (run_goroutine g s)

  -- the four reads, in the order of the scheduler
  unfoldable pub gather : M Received
  gather w = let (r, w') = run_goroutines (p.schedule w.tick) (nothing_received, w) in (ok r, w')
