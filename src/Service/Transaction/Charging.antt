-- ===== src/Service/Transaction/Charging.antt =====
-- The tables between the two charges of a purchase, and what succeeds behind the first.
use kredit_plus.Base.{
  All, ◌==◌, true, false, List, [], ◌∷◌, ◌++◌, some, ◌≡◌, refl, sym, ap, ◌∙◌, subst, inl, inr,
  ==_iff, arith,
}
use kredit_plus.Float.{Float64, add}
use kredit_plus.Entity.Error.{Uuid}
use kredit_plus.Entity.CreditLimit.{CreditLimit}
use kredit_plus.Entity.Transaction.{Transaction}
use kredit_plus.Platform.Table.{ok, In, put}
use kredit_plus.Platform.World.{Db, World, Platform}
use kredit_plus.Platform.Laws.{IsPlatform, SameTransaction}
use kredit_plus.Platform.Monad.{pure, ◌>>=◌, wrap, read, query, optional, step}
use kredit_plus.Platform.Monad.Success.{first_stands, last_match}
use kredit_plus.Repository.CreditLimit as LimitRepo
use kredit_plus.Repository.CreditLimit.{of_tenor}
use kredit_plus.Repository.CreditLimit.Effects as LimitEffects
use kredit_plus.Repository.CreditLimit.Success.{Takes, charge-Succeeds}
use kredit_plus.Repository.Transaction as Repo
use kredit_plus.Repository.Transaction.Create.{Stored, charged}
use kredit_plus.Repository.Transaction.Accepted.{SaleAnswers}
use kredit_plus.Invariant.Tenors.{OneEach, SameKeys, OneEach-put, same_key, In-put}

In-last : {A : Type 0} (xs : List A) (a : A) → In a (xs ++ a ∷ [])
In-last [] a = inl refl
In-last (x ∷ xs) a = inr (In-last xs a)

-- the same columns, by way of a third row
SameTransaction-trans :
    (a b c : Transaction) → SameTransaction a b → SameTransaction b c → SameTransaction a c
SameTransaction-trans a b c s r = record {
  customer_id = r.customer_id ∙ s.customer_id;
  asset_id = r.asset_id ∙ s.asset_id;
  contract_number = r.contract_number ∙ s.contract_number;
  tenor_month = r.tenor_month ∙ s.tenor_month;
  status = r.status ∙ s.status;
}

module _ (p : Platform) (laws : IsPlatform p) (db : Db) (answers : SaleAnswers p db) where
  -- a transaction that stands behind others with other keys is read
  get_by_id_succeeds :
      (id : Uuid) (w : World) (rows : List Transaction) (t : Transaction)
      → w.db.transactions ≡ rows ++ t ∷ []
      → All (λ r. (r.id == id) ≡ false) rows
      → (t.id == id) ≡ true
      → (t' : Transaction) × (w' : World) × (Repo.get_by_id p id w ≡ (ok (some t'), w'))
        × (t'.id ≡ t.id)
        × SameTransaction t t'
  unfolding Repo.get_by_id Repo.with_associations read query optional pure wrap ◌>>=◌
  get_by_id_succeeds id w rows t now_is others key =
      let stands : In t w.db.transactions = subst (In t) (sym now_is) (In-last rows t) in
      let (r, found_r, r_stands, r_key) =
        first_stands (λ r. r.id) p.transactions laws.transactions answers.first_transaction
          (λ r. r.id == id) w.db.transactions w.tick t stands key in
      let is_t : t ≡ r =
        last_match (λ (r : Transaction). r.id == id) rows t r others
          (subst (λ l. In r l) now_is r_stands) r_key in
      let (t', e, same_id, same) = answers.preload true w.db r (step w).tick in
      (
        t',
        step (step w),
        ground (arith, found_r, e),
        same_id ∙ ap (λ r. r.id) (sym is_t),
        subst (λ r. SameTransaction r t') (sym is_t) same,
      )

  -- the tables between the two charges
  module _ (t : Transaction) (w w1 : World) (s : Stored p t w.db w1.db) where
    abbrev row : CreditLimit
    row = p.limits.stored s.limit_number (charged s.limit t.otr_amount)

    row-SameKeys : SameKeys s.limit row
    row-SameKeys =
        let same = laws.limit_stored s.limit_number (charged s.limit t.otr_amount) in
        record {
          id = laws.limits.stored_key s.limit_number (charged s.limit t.otr_amount);
          customer_id = same.customer_id;
          tenor_month = same.tenor_month;
        }

    limits_now : w1.db.limits ≡ put (λ r. r.id) row w.db.limits
    limits_now = ap (λ (db : Db). db.limits) s.now_is

    OneEach-now : OneEach w.db.limits → OneEach w1.db.limits
    OneEach-now one =
        subst OneEach (sym limits_now) (OneEach-put s.limit row w.db.limits row-SameKeys s.was one)

    row_stands : In row w1.db.limits
    row_stands = subst (In row) (sym limits_now) (In-put row w.db.limits)

    -- the row is the only one with its key, and it has room
    row_room :
        (a : CreditLimit) (amount : Float64)
        → OneEach w.db.limits
        → s.limit ≡ a
        → Takes (p.decimal a.limit_amount) (p.decimal (add a.used_amount t.otr_amount)) amount
        → (r : CreditLimit) → In r w1.db.limits
        → (r.id == a.id) ≡ true
        → Takes r.limit_amount r.used_amount amount
    row_room a amount one same room r stands key =
        let stored = laws.limit_stored s.limit_number (charged s.limit t.otr_amount) in
        let is_row : row ≡ r =
          same_key w1.db.limits row r (OneEach-now one) row_stands stands
            (row-SameKeys.id ∙ ap (λ l. l.id) same ∙ sym ((==_iff r.id a.id).0 key)) in
        subst (λ l. Takes l.limit_amount l.used_amount amount) is_row
          (subst (λ x. Takes x row.used_amount amount) (sym stored.limit_amount)
            (subst (λ x. Takes (p.decimal s.limit.limit_amount) x amount) (sym stored.used_amount)
              (subst
                (λ (l : CreditLimit).
                  Takes (p.decimal l.limit_amount) (p.decimal (add l.used_amount t.otr_amount))
                    amount)
                (sym same) room)))

    rows_now : w1.db.transactions ≡ w.db.transactions ++ p.transactions.stored s.number t ∷ []
    rows_now = ap (λ (db : Db). db.transactions) s.now_is

    -- the second charge succeeds, and the transaction is read
    pub charged_succeeds :
        (a : CreditLimit) (amount : Float64)
        → OneEach w.db.limits
        → s.limit ≡ a
        → Takes (p.decimal a.limit_amount) (p.decimal (add a.used_amount t.otr_amount)) amount
        → All (λ r. (r.id == t.id) ≡ false) w.db.transactions
        → (w2 : World) × (LimitRepo.update_used_amount p a.id amount w1 ≡ (ok tt, w2))
          × ((t' : Transaction) × (w3 : World) × (Repo.get_by_id p t.id w2 ≡ (ok (some t'), w3))
              × (t'.id ≡ t.id)
              × SameTransaction t t')
    charged_succeeds a amount one same room others =
        let key : (row.id == a.id) ≡ true =
          (==_iff row.id a.id).1 (row-SameKeys.id ∙ ap (λ l. l.id) same) in
        let (u, w2, e) =
          charge-Succeeds p laws answers.charges a.id amount w1 row row_stands key
            (row_room a amount one same room) in
        let (l, l_key, charge) = LimitEffects.update_limit-ok p laws a.id amount w1 e in
        let stored = p.transactions.stored s.number t in
        let now_is : w2.db.transactions ≡ w.db.transactions ++ stored ∷ [] =
          ap (λ (db : Db). db.transactions) charge.now_is ∙ rows_now in
        let key = laws.transactions.stored_key s.number t in
        let (t', w3, q, same_id, columns) =
          get_by_id_succeeds t.id w2 w.db.transactions stored now_is others
            ((==_iff _ t.id).1 key) in
        (
          w2,
          e,
          (
            t',
            w3,
            q,
            same_id ∙ key,
            SameTransaction-trans t stored t' (laws.transaction_stored s.number t) columns,
          ),
        )
