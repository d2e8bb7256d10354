-- ===== src/Repository/Transaction/Schedule.antt =====
-- `generateInstallments`: how many installments it makes, and what each of them is.
use kredit_plus.Base.{
  ℕ, zero, suc, ◌+◌, ℤ, pos, ◌+ℤ◌, List, [], ◌∷◌, String, some, length, get_elem?, ◌≡◌, refl, ap,
  ◌∙◌, arith, ltb_ℤ, subst, sym, false, pos_part,
}
use kredit_plus.Time.{Time, add_month}
use kredit_plus.Entity.Error.{Uuid, message}
use kredit_plus.Entity.Transaction.{Transaction, TransactionDetail}
use kredit_plus.Platform.Table.{ok}
use kredit_plus.Platform.World.{World, Platform}
use kredit_plus.Platform.Monad.{M, ◌>>=◌, ◌>>◌, pure, now, new_uuid, fail_if, step}
use kredit_plus.Platform.Monad.Outcomes.{>>=-of_ok}
use kredit_plus.Repository.Transaction.{installment, installments_from, generate_installments}

-- `AddDate(0, 1, 0)`, n times
abbrev pub months_after : ℕ → Time → Time
months_after zero t = t
months_after (suc n) t = months_after n (add_month t)

-- Installment `i`, of a plan that starts at `start`.
pub record Installment (t : Transaction) (start : Time) (i : ℤ) (k : ℕ) (d : TransactionDetail)
    : Type 0 where
  pub transaction_id : d.transaction_id ≡ t.id
  pub number : d.installment_number ≡ i +ℤ pos (k + 1)
  pub amount : d.amount ≡ t.installment_amount
  pub due_date : d.due_date ≡ months_after (suc k) start
  pub status : ◌≡◌ {A = String} d.status "pending"

pub record Schedule (t : Transaction) (start : Time) (i : ℤ) (n : ℕ) (ds : List TransactionDetail)
    : Type 0 where
  pub count : length ds ≡ n
  pub entries :
      (k : ℕ) (d : TransactionDetail) → get_elem? ds k ≡ some d → Installment t start i k d

add_twice : (i : ℤ) (k : ℕ) → i +ℤ pos 1 +ℤ pos (k + 1) ≡ i +ℤ pos (suc k + 1)
unfolding ◌+ℤ◌
add_twice i k = ground arith

Schedule-cons :
    (t : Transaction) (start : Time) (i : ℤ) (n : ℕ) (d : TransactionDetail)
    (ds : List TransactionDetail)
    → Installment t start i 0 d
    → Schedule t (add_month start) (i +ℤ pos 1) n ds
    → Schedule t start i (suc n) (d ∷ ds)
Schedule-cons t start i n d ds h s = record { count = ap suc s.count; entries = entries }
  where
    entries :
        (k : ℕ) (x : TransactionDetail) → get_elem? (d ∷ ds) k ≡ some x → Installment t start i k x
    entries zero x e = let q : d ≡ x = cc in subst (λ y. Installment t start i 0 y) q h
    entries (suc k) x e =
        let r = s.entries k x e in
        record {
          transaction_id = r.transaction_id;
          number = r.number ∙ add_twice i k;
          amount = r.amount;
          due_date = r.due_date;
          status = r.status;
        }

installment-Installment :
    (t : Transaction) (i : ℤ) (due : Time) (id : Uuid) (c u : Time)
    → Installment t due i 0 (installment t i due id c u)
unfolding installment
installment-Installment t i due id c u = record {
  transaction_id = refl;
  number = refl;
  amount = refl;
  due_date = refl;
  status = refl;
}

module _ (p : Platform) (t : Transaction) where
  installments_from-Schedule :
      (rounds : ℕ) (i : ℤ) (due : Time) (w : World)
      → (ds : List TransactionDetail) × (w' : World) × (installments_from p t rounds i due w
          ≡ (ok ds, w'))
        × Schedule t due i rounds ds
  unfolding installments_from ◌>>=◌ pure now new_uuid
  installments_from-Schedule zero i due w =
      ([], w, refl, record { count = refl; entries = λ k d e. absurd (ground arith) })
  installments_from-Schedule (suc rounds) i due w =
      let (ds, w', e, s) =
        installments_from-Schedule rounds (i +ℤ pos 1) (add_month due) (step (step (step w))) in
      let d =
        installment t i due (p.new_uuid w.tick) (p.now (step w).tick)
          (p.now (step (step w)).tick) in
      (
        d ∷ ds,
        w',
        >>=-of_ok (installments_from p t rounds (i +ℤ pos 1) (add_month due))
            (λ rest. pure (d ∷ rest)) _ e,
        Schedule-cons t due i rounds d ds (installment-Installment t i due _ _ _) s,
      )

  generate_for : ℤ → M (List TransactionDetail)
  generate_for z = do
    fail_if (ltb_ℤ z (pos 0)) (message "makeslice: len out of range")
    start ← now p
    installments_from p t (pos_part z) (pos 0) start

  -- For a tenor of `n` months the loop ends, always with a result: `n` installments, of which the
  -- one at place k (from 0) has number k + 1, the transaction's installment amount, the status
  -- "pending" and a due date k + 1 monthly steps after the time at which the call began.
  pub generate_installments-Schedule :
      (n : ℕ) (w : World)
      → t.tenor_month ≡ pos n
      → (ds : List TransactionDetail) × (w' : World) × (generate_installments p t w ≡ (ok ds, w'))
        × Schedule t (p.now w.tick) (pos 0) n ds
  unfolding generate_installments generate_for ◌>>=◌ ◌>>◌ now fail_if
  generate_installments-Schedule n w h =
      let (ds, w', e, s) = installments_from-Schedule n (pos 0) (p.now w.tick) (step w) in
      let q : ltb_ℤ (pos n) (pos 0) ≡ false = ground arith in
      (ds, w', subst (λ z. generate_for z w ≡ (ok ds, w')) (sym h) (rw q e), s)
