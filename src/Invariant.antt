-- ===== src/Invariant.antt =====
-- The rule of the business process: no customer uses more of a credit limit than it allows.
pub mod Operations
pub mod Others
pub mod Calls
pub mod Failures
pub mod Tenors
pub mod Covered
pub mod Uniqueness
pub mod Contracts
use kredit_plus.Base.{
  ℕ, Bool, true, false, List, [], ◌∷◌, ◌++◌, ◌==◌, if◌then◌else◌, All, ◌≡◌, sym, subst, arith,
  All-append,
}
use kredit_plus.Float.{Float64, add, lt, le, zero_float}
use kredit_plus.Entity.Error.{Uuid}
use kredit_plus.Entity.CreditLimit.{CreditLimit}
use kredit_plus.Platform.Table.{In, put, erase}
use kredit_plus.Platform.World.{Db, Platform}
use kredit_plus.Platform.Laws.{IsPlatform}

-- The used amount of a row does not exceed its limit amount.
abbrev pub IsCovered : CreditLimit → Type 0
IsCovered l = lt l.limit_amount l.used_amount ≡ false

-- The used amount of no row exceeds its limit amount.
abbrev pub WithinLimits : Db → Type 0
WithinLimits db = All IsCovered db.limits

pub All-put {ℓ} :
    {E : Type 0} (P : E → Type ℓ) (key : E → Uuid) (e : E) (rows : List E)
    → P e
    → All P rows
    → All P (put key e rows)
All-put P key e [] h a = (h, tt)
All-put P key e (x ∷ xs) h a =
    elim (key x == key e) as (λ b. All P (if b then e ∷ xs else x ∷ put key e xs)) [
      | true ↦ (h, a.1)
      | false ↦ (a.0, All-put P key e xs h a.1)
    ]

pub All-erase {ℓ} :
    {E : Type 0} (P : E → Type ℓ) (key : E → Uuid) (k : Uuid) (rows : List E)
    → All P rows
    → All P (erase key k rows)
All-erase P key k [] a = tt
All-erase P key k (x ∷ xs) a =
    elim (key x == k) as (λ b. All P (if b then erase key k xs else x ∷ erase key k xs)) [
      | true ↦ All-erase P key k xs a.1
      | false ↦ (a.0, All-erase P key k xs a.1)
    ]

-- What the columns keep of a covered row is covered.
pub stored-IsCovered :
    (p : Platform) (laws : IsPlatform p) (n : ℕ) (l : CreditLimit)
    → IsCovered l
    → IsCovered (p.limits.stored n l)
stored-IsCovered p laws n l h =
    let s = laws.limit_stored n l in
    subst (λ a. lt a (p.limits.stored n l).used_amount ≡ false) (sym s.limit_amount)
      (subst (λ a. lt (p.decimal l.limit_amount) a ≡ false) (sym s.used_amount)
        (laws.decimal_mono l.used_amount l.limit_amount h))
