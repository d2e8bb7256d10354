-- ===== src/Repository/Transaction/Success.antt =====
-- When the transaction repository stores a transaction.
use Prim.Native.String.{[], ◌∷◌}
use kredit_plus.Base.{
  ◌<◌, ◌≤◌, ◌+◌, str_eq, sym, subst, ℕ, zero, suc, ℤ, pos, ◌+ℤ◌, ◌==◌, true, false, List, [], ◌∷◌,
  All, ◌≡◌, refl, ap, ◌∙◌, ltb_ℤ, pos_part, arith,
}
use kredit_plus.Time.{Time, add_month}
use kredit_plus.Entity.CreditLimit.{CreditLimit}
use kredit_plus.Entity.Transaction.{Transaction, TransactionDetail, is_valid_detail_status}
use kredit_plus.Entity.Customer.{Customer}
use kredit_plus.Entity.Asset.{Asset}
use kredit_plus.Platform.Table.{ok, In}
use kredit_plus.Platform.World.{Db, World, Platform}
use kredit_plus.Platform.Laws.{IsPlatform}
use kredit_plus.Platform.Monad.{pure, ◌>>=◌, ◌>>◌, new_uuid, now, step, fail_if, require}
use kredit_plus.Platform.Monad.Outcomes.{>>=-of_ok}
use kredit_plus.Platform.Monad.Success.{
  Succeeds, then_bind, then_guard, then_query, then_write, ends_write, in_transaction, first_stands,
}
use kredit_plus.Repository.CreditLimit.{of_tenor}
use kredit_plus.Repository.CreditLimit.Success.{Takes, fits_column, saves_charged}
use kredit_plus.Repository.Transaction.Effects.{generate_installments-ReadOnly}
use kredit_plus.Repository.Transaction.{
  create, generate_installments, installments_from, installment, set_transactions,
}
use kredit_plus.Repository.Transaction.Accepted.{
  FitsColumns, FitsDetail, Distinct, SaleAnswers, DrawsNew,
}

not_below : (n : ℕ) → ltb_ℤ (pos (suc n)) (pos 0) ≡ false
not_below n = ground arith

module _ (p : Platform) where
  -- one more round, in front of the others
  one_more :
      (t : Transaction) (rounds : ℕ) (i : ℤ) (due : Time) (w : World) {ds : List TransactionDetail}
      {w' : World}
      → installments_from p t rounds (i +ℤ pos 1) (add_month due) (step (step (step w)))
        ≡ (ok ds, w')
      → installments_from p t (suc rounds) i due w ≡ (
        ok (
            installment t i due
              (p.new_uuid w.tick)
              (p.now (step w).tick)
              (p.now (step (step w)).tick)
            ∷ ds),
        w',
      )
  unfolding installments_from ◌>>=◌ new_uuid now pure
  one_more t rounds i due w e =
      >>=-of_ok (installments_from p t rounds (i +ℤ pos 1) (add_month due))
        (λ rest. pure (
          installment t i due (p.new_uuid w.tick) (p.now (step w).tick) (p.now (step (step w)).tick)
          ∷ rest))
        (step (step (step w))) e

  -- The rows of a plan of `t`, each with an identifier that was drawn later than that before it.
  Drawn : Transaction → ℕ → List TransactionDetail → Type 0
  Drawn t m [] = Unit
  Drawn t m (d ∷ ds) =
      (k : ℕ) × (m ≤ k)
      × (d.id ≡ p.new_uuid k)
      × (d.transaction_id ≡ t.id)
      × (d.amount ≡ t.installment_amount)
      × (d.status ≡ "pending")
      × Drawn t (k + 1) ds

  Drawn-later :
      (t : Transaction) (j m : ℕ) (ds : List TransactionDetail)
      → j ≤ m
      → Drawn t m ds
      → Drawn t j ds
  unfolding Drawn
  Drawn-later t j m [] h g = tt
  Drawn-later t j m (d ∷ ds) h (k, le_k, id, owner, amount, status, rest) =
      (k, omega (arith, h, le_k), id, owner, amount, status, rest)

  Drawn-apart :
      (db : Db) (from : ℕ) (draws : DrawsNew p db from) (t : Transaction) (j m : ℕ)
      (ds : List TransactionDetail)
      → j < m
      → Drawn t m ds
      → All (λ x. (x.id == p.new_uuid j) ≡ false) ds
  unfolding Drawn
  Drawn-apart db from draws t j m [] h g = tt
  Drawn-apart db from draws t j m (d ∷ ds) h (k, le_k, id, owner, amount, status, rest) = (
    ap (λ x. x == p.new_uuid j) id ∙ draws.apart j k (omega (arith, h, le_k)),
    Drawn-apart db from draws t j (k + 1) ds (omega (arith, h, le_k)) rest,
  )

  Drawn-Distinct :
      (db : Db) (from : ℕ) (draws : DrawsNew p db from) (t : Transaction) (m : ℕ)
      (ds : List TransactionDetail)
      → Drawn t m ds
      → Distinct ds
  unfolding Drawn
  Drawn-Distinct db from draws t m [] g = tt
  Drawn-Distinct db from draws t m (d ∷ ds) (k, le_k, id, owner, amount, status, rest) = (
    subst (λ i. All (λ x. (x.id == i) ≡ false) ds) (sym id)
        (Drawn-apart db from draws t k (k + 1) ds (omega arith) rest),
    Drawn-Distinct db from draws t (k + 1) ds rest,
  )

  pending_valid : is_valid_detail_status "pending" ≡ true
  unfolding is_valid_detail_status
  pending_valid = refl

  Drawn-FitsDetail :
      (db : Db) (from : ℕ) (draws : DrawsNew p db from) (t : Transaction) (m : ℕ)
      (ds : List TransactionDetail)
      → fits_column t.installment_amount ≡ true
      → from ≤ m
      → Drawn t m ds
      → All (FitsDetail db t) ds
  unfolding Drawn
  Drawn-FitsDetail db from draws t m [] fits h g = tt
  Drawn-FitsDetail db from draws t m (d ∷ ds) fits h (k, le_k, id, owner, amount, status, rest) = (
    record {
      owner = owner;
      amount_fits = ap fits_column amount ∙ fits;
      status_valid = ap is_valid_detail_status status ∙ pending_valid;
      fresh =
          subst (λ i. All (λ r. (r.id == i) ≡ false) db.details) (sym id)
            (draws.details k (omega (arith, h, le_k)));
    },
    Drawn-FitsDetail db from draws t (k + 1) ds fits (omega (arith, h, le_k)) rest,
  )

  loop_succeeds :
      (t : Transaction) (rounds : ℕ) (i : ℤ) (due : Time) (w : World)
      → (ds : List TransactionDetail) × (w' : World) × (installments_from p t rounds i due w
          ≡ (ok ds, w'))
        × Drawn t w.tick ds
  unfolding installments_from pure Drawn installment
  loop_succeeds t zero i due w = ([], w, refl, tt)
  loop_succeeds t (suc rounds) i due w =
      let (ds, w', e, g) =
        loop_succeeds t rounds (i +ℤ pos 1) (add_month due) (step (step (step w))) in
      (
        _,
        w',
        one_more t rounds i due w e,
        (
          w.tick,
          omega arith,
          refl,
          refl,
          refl,
          refl,
          Drawn-later t (w.tick + 1) (w.tick + 1 + 1 + 1) ds (omega arith) g,
        ),
      )

  -- `make` does not panic
  generate_ok :
      (t : Transaction) (w : World)
      → ltb_ℤ t.tenor_month (pos 0) ≡ false
      → generate_installments p t w
        ≡ installments_from p t (pos_part t.tenor_month) (pos 0) (p.now w.tick) (step w)
  unfolding generate_installments ◌>>=◌ ◌>>◌ now fail_if
  generate_ok t w q = rw (q, fail_if)

  -- a plan of at least one month has a first installment
  plan_succeeds :
      (t : Transaction) (n : ℕ) (w : World)
      → t.tenor_month ≡ pos (suc n)
      → (d : TransactionDetail) × (ds : List TransactionDetail) × (w' : World)
        × (generate_installments p t w ≡ (ok (d ∷ ds), w'))
        × Drawn t w.tick (d ∷ ds)
  unfolding Drawn installment
  plan_succeeds t n w months =
      let start = p.now w.tick in
      let (ds, w', e, g) =
        loop_succeeds t n (pos 0 +ℤ pos 1) (add_month start) (step (step (step (step w)))) in
      (
        installment t (pos 0) start (p.new_uuid (step w).tick) (p.now (step (step w)).tick)
            (p.now (step (step (step w))).tick),
        ds,
        w',
        generate_ok t w (ap (λ z. ltb_ℤ z (pos 0)) months ∙ not_below n)
            ∙ ap (λ z. installments_from p t (pos_part z) (pos 0) start (step w)) months
            ∙ one_more t n (pos 0) start (step w) e,
        (
          w.tick + 1,
          omega arith,
          refl,
          refl,
          refl,
          refl,
          Drawn-later t (w.tick + 1 + 1) (w.tick + 1 + 1 + 1 + 1) ds (omega arith) g,
        ),
      )

  module _ (laws : IsPlatform p) where
    -- A transaction is stored where a limit of its customer and tenor stands, each such limit takes
    -- the price, its key and contract number are new, its customer and its asset stand, the columns
    -- take it, and it has at least one month.
    pub store-Succeeds :
        (t : Transaction) (w : World) (answers : SaleAnswers p w.db) (from : ℕ)
        (draws : DrawsNew p w.db from) (l : CreditLimit) (n : ℕ) (c : Customer) (a : Asset)
        → from ≤ w.tick
        → t.tenor_month ≡ pos (suc n)
        → In l w.db.limits
        → of_tenor t.customer_id t.tenor_month l ≡ true
        → ((r : CreditLimit)
            → In r w.db.limits
            → of_tenor t.customer_id t.tenor_month r ≡ true
            → Takes r.limit_amount r.used_amount t.otr_amount)
        → All (λ r. (r.id == t.id) ≡ false) w.db.transactions
        → All (λ r. str_eq r.contract_number t.contract_number ≡ false) w.db.transactions
        → In c w.db.customers × (c.id ≡ t.customer_id)
        → In a w.db.assets × (a.id ≡ t.asset_id)
        → FitsColumns t
        → Succeeds (create p t) w
    unfolding create
    store-Succeeds t w answers from draws l n c a later months stands of_it takes fresh new customer
          asset fits =
        let (r, found_r, r_stands, r_of) =
          first_stands (λ r. r.id) p.limits laws.limits answers.charges.first_limit
            (of_tenor t.customer_id t.tenor_month) w.db.limits (step w).tick l stands of_it in
        let (rows, e) =
          answers.insert_transaction t c a (step (step w)).tick fresh new customer asset fits in
        let w3 : World = record (step (step (step w))) { db = set_transactions rows w.db } in
        let (d, ds, w', planned, g) = plan_succeeds t n w3 months in
        let (details, q) =
          answers.insert_details t rows (step (step w)).tick d ds w'.tick e
            (Drawn-FitsDetail w.db from draws t w3.tick (d ∷ ds) fits.installment_fits
              (omega (arith, later)) g)
            (Drawn-Distinct w.db from draws t w3.tick (d ∷ ds) g) in
        let same : w'.db ≡ w3.db =
          ap (λ r. r.1.db) (sym planned) ∙ (generate_installments-ReadOnly p t).at w3 in
        let inserts : p.create_details (d ∷ ds) w'.db.details w'.tick ≡ ok details =
          ap (λ (db : Db). p.create_details (d ∷ ds) db.details w'.tick) same ∙ q in
        in_transaction p _ w answers.charges.begins answers.charges.commits (
          then_query _ _ _ (step w) (ap require found_r) (
            then_guard _ _ _ _ (takes r r_stands r_of).room (
              then_write _ _ _ _ _ e (
                then_bind _ _ _ planned (
                  then_write _ _ _ _ _ inserts (
                    ends_write _ _ _ _
                      (saves_charged p answers.charges r t.otr_amount w'.db.limits _
                        (subst (λ (db : Db). In r db.limits) (sym same) r_stands)
                        (takes r r_stands r_of)).1))))))
