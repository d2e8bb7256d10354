-- ===== src/Platform/Laws.antt =====
-- The documented behaviour of what the program runs on, as one record of named laws.
use kredit_plus.Base.{ℕ, suc, Bool, true, false, if◌then◌else◌, List, [], ◌∷◌, ◌++◌, map, ◌≡◌}
use kredit_plus.Float.{Float64, lt}
use kredit_plus.Entity.CreditLimit.{CreditLimit}
use kredit_plus.Entity.Transaction.{Transaction, TransactionDetail}
use kredit_plus.Platform.Table.{ok, IsTable}
use kredit_plus.Platform.Redis.{IsRedis}
use kredit_plus.Platform.World.{
  Platform, Goroutine, reads_contract, reads_customer, reads_asset, reads_limit,
}

unfoldable pub same_goroutine : Goroutine → Goroutine → Bool
same_goroutine reads_contract reads_contract = true
same_goroutine reads_customer reads_customer = true
same_goroutine reads_asset reads_asset = true
same_goroutine reads_limit reads_limit = true
same_goroutine _ _ = false

-- how often a goroutine runs
abbrev pub times : Goroutine → List Goroutine → ℕ
times g [] = 0
times g (x ∷ xs) = if same_goroutine x g then suc (times g xs) else times g xs

-- What the columns of `credit_limits` keep of a row: the keys as they are, the amounts rounded.
pub record SameLimit (p : Platform) (l stored : CreditLimit) : Type 0 where
  pub customer_id : stored.customer_id ≡ l.customer_id
  pub tenor_month : stored.tenor_month ≡ l.tenor_month
  pub limit_amount : stored.limit_amount ≡ p.decimal l.limit_amount
  pub used_amount : stored.used_amount ≡ p.decimal l.used_amount

-- What the columns of `transactions` keep of a row that is not a number.
pub record SameTransaction (t stored : Transaction) : Type 0 where
  pub customer_id : stored.customer_id ≡ t.customer_id
  pub asset_id : stored.asset_id ≡ t.asset_id
  pub contract_number : stored.contract_number ≡ t.contract_number
  pub tenor_month : stored.tenor_month ≡ t.tenor_month
  pub status : stored.status ≡ t.status

pub record IsPlatform (p : Platform) : Type 0 where
  pub customers : IsTable (λ c. c.id) p.customers
  pub documents : IsTable (λ d. d.id) p.documents
  pub limits : IsTable (λ l. l.id) p.limits
  pub assets : IsTable (λ a. a.id) p.assets
  pub transactions : IsTable (λ t. t.id) p.transactions
  pub redis : IsRedis p.redis
  pub create_details_ok :
      (ds rows rows' : List TransactionDetail) (n : ℕ)
      → p.create_details ds rows n ≡ ok rows'
      → rows' ≡ rows ++ map (p.details.stored n) ds
  pub limit_stored : (n : ℕ) (l : CreditLimit) → SameLimit p l (p.limits.stored n l)
  pub transaction_stored : (n : ℕ) (t : Transaction) → SameTransaction t (p.transactions.stored n t)
  -- each goroutine runs once
  pub schedule_once : (n : ℕ) (g : Goroutine) → times g (p.schedule n) ≡ 1
  -- rounding keeps the order
  pub decimal_mono : (a b : Float64) → lt b a ≡ false → lt (p.decimal b) (p.decimal a) ≡ false
