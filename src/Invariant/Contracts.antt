-- ===== src/Invariant/Contracts.antt =====
-- The contract numbers of the stored transactions differ: what is said of the rows, and the changes
-- of rows that keep it.
pub mod Sales
use kredit_plus.Base.{
  Bool, true, false, if◌then◌else◌, str_eq, List, [], ◌∷◌, ◌++◌, All, All-append, ◌≡◌, sym, arith,
  Bool-cases, inl, inr,
}
use kredit_plus.Entity.Transaction.{Transaction}
use kredit_plus.Platform.Table.{change}
use kredit_plus.Platform.World.{Db}

-- Two transactions with different contract numbers.
abbrev pub OtherContract : Transaction → Transaction → Type 0
OtherContract s t = str_eq s.contract_number t.contract_number ≡ false

abbrev pub Contracts : List Transaction → Type 0
Contracts [] = Unit
Contracts (t ∷ ts) = All (OtherContract t) ts × Contracts ts

abbrev pub OfSales : Db → Type 0
OfSales db = Contracts db.transactions

pub Contracts-append :
    (rows : List Transaction) (t : Transaction)
    → All (λ r. OtherContract r t) rows
    → Contracts rows
    → Contracts (rows ++ t ∷ [])
Contracts-append [] t new h = (tt, tt)
Contracts-append (x ∷ xs) t new h =
    (All-append (OtherContract x) xs (t ∷ []) h.0 (new.0, tt), Contracts-append xs t new.1 h.1)

-- a change of rows that keeps the contract numbers
module _ (p : Transaction → Bool) (f : Transaction → Transaction)
    (same : (t : Transaction) → (f t).contract_number ≡ t.contract_number) where
  changed : (t : Transaction) → (if p t then f t else t).contract_number ≡ t.contract_number
  changed t = elim (Bool-cases (p t)) [ inl y ↦ ground (arith, same t) | inr n ↦ ground arith ]

  change-All :
      (s t : Transaction) (rows : List Transaction)
      → s.contract_number ≡ t.contract_number
      → All (OtherContract s) rows
      → All (OtherContract t) (change p f rows)
  change-All s t [] e h = tt
  change-All s t (x ∷ xs) e (h, hs) = (cc (h, e, changed x), change-All s t xs e hs)

  pub change-Contracts : (rows : List Transaction) → Contracts rows → Contracts (change p f rows)
  change-Contracts [] h = tt
  change-Contracts (x ∷ xs) (h, hs) =
      (change-All x (if p x then f x else x) xs (sym (changed x)) h, change-Contracts xs hs)
