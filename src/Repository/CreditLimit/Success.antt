-- ===== src/Repository/CreditLimit/Success.antt =====
-- When the credit limit repository adds an amount to what is used.
use kredit_plus.Base.{pos, refl, ◌&&◌, ℕ, ◌==◌, Bool, true, false, List, none, ◌≡◌, ap}
use kredit_plus.Float.{Float64, of_int, le, zero_float, add, lt}
use kredit_plus.Entity.Error.{Uuid, Error}
use kredit_plus.Entity.CreditLimit.{CreditLimit}
use kredit_plus.Platform.Table.{ok, failed, In}
use kredit_plus.Invariant.Tenors.{SameKeys}
use kredit_plus.Platform.World.{World, Platform}
use kredit_plus.Platform.Laws.{IsPlatform}
use kredit_plus.Platform.Monad.{step, require}
use kredit_plus.Platform.Monad.Success.{
  Succeeds, then_guard, then_query, ends_write, in_transaction, first_stands,
}
use kredit_plus.Repository.CreditLimit.{update_used_amount}

-- an amount that a column of the type DECIMAL(15,2) takes
unfoldable pub fits_column : Float64 → Bool
fits_column a = le zero_float a && le a (of_int (pos 9999999999999))

-- What the database answers when a limit is charged, whatever limits it holds: its reads do not fail,
-- and it saves a row that keeps the keys of one that stands, with amounts that the columns take.
pub record ChargeAnswers (p : Platform) : Type 0 where
  pub first_limit :
      (matches : CreditLimit → Bool) (rows : List CreditLimit) (n : ℕ) (e : Error)
      → ¬ (p.limits.first matches rows n ≡ failed e)
  pub save_limit :
      (old l : CreditLimit) (rows : List CreditLimit) (n : ℕ)
      → In old rows
      → SameKeys old l
      → fits_column l.limit_amount ≡ true
      → fits_column l.used_amount ≡ true
      → (rows' : List CreditLimit) × (p.limits.save l rows n ≡ ok rows')
  pub begins : (n : ℕ) → p.begin n ≡ none
  pub commits : (n : ℕ) → p.commit n ≡ none

-- A limit with these two amounts has room for a third, and the columns take what is written.
pub record Takes (limit used amount : Float64) : Type 0 where
  pub room : lt limit (add used amount) ≡ false
  pub limit_fits : fits_column limit ≡ true
  pub used_fits : fits_column (add used amount) ≡ true

pub saves_charged :
    (p : Platform) (answers : ChargeAnswers p) (l : CreditLimit) (amount : Float64)
    (rows : List CreditLimit) (n : ℕ)
    → In l rows
    → Takes l.limit_amount l.used_amount amount
    → (rows' : List CreditLimit) × (p.limits.save
          (record l { used_amount = add l.used_amount amount })
          rows
          n
        ≡ ok rows')
saves_charged p answers l amount rows n stands takes =
    answers.save_limit l (record l { used_amount = add l.used_amount amount }) rows n stands
      (record { id = refl; customer_id = refl; tenor_month = refl }) takes.limit_fits
      takes.used_fits

-- An amount is charged where a limit with the key stands and each such limit takes it.
pub charge-Succeeds :
    (p : Platform) (laws : IsPlatform p) (answers : ChargeAnswers p) (id : Uuid) (amount : Float64)
    (w : World) (l : CreditLimit)
    → In l w.db.limits
    → (l.id == id) ≡ true
    → ((r : CreditLimit)
        → In r w.db.limits
        → (r.id == id) ≡ true
        → Takes r.limit_amount r.used_amount amount)
    → Succeeds (update_used_amount p id amount) w
unfolding update_used_amount
charge-Succeeds p laws answers id amount w l stands key takes =
    let (r, found_r, r_stands, r_key) =
      first_stands (λ r. r.id) p.limits laws.limits answers.first_limit (λ r. r.id == id)
        w.db.limits (step w).tick l stands key in
    in_transaction p _ w answers.begins answers.commits (
      then_query _ _ _ (step w) (ap require found_r) (
        then_guard _ _ _ _ (takes r r_stands r_key).room (
          ends_write _ _ _ _
            (saves_charged p answers r amount w.db.limits _ r_stands (takes r r_stands r_key)).1)))
