-- ===== src/Service/CreditLimit/Success.antt =====
-- When the opening of a credit limit succeeds.
use kredit_plus.Base.{true, ℕ, Bool, ◌+◌, ◌==◌, false, List, [], All, none, ◌≡◌, refl, arith}
use kredit_plus.Float.{of_int, le, lt, eq, zero_float}
use kredit_plus.Entity.Error.{Uuid, Error}
use kredit_plus.Entity.CreditLimit.{
  CreditLimit, CreateCreditLimitRequest, CreditLimitResponse, validate,
}
use kredit_plus.Entity.Customer.{Customer}
use kredit_plus.Platform.Table.{ok, Fetch, found, missing, failed, In}
use kredit_plus.Platform.World.{Db, World, Platform}
use kredit_plus.Platform.Laws.{IsPlatform}
use kredit_plus.Platform.Monad.{
  pure, wrap, fail_if, read, optional, write, transaction, finish, now, new_uuid, step, ◌>>=◌, ◌>>◌,
}
use kredit_plus.Platform.Monad.Success.{none_In}
use kredit_plus.Repository.CreditLimit as Repo
use kredit_plus.Repository.CreditLimit.{of_tenor, set_limits}
use kredit_plus.Repository.CreditLimit.Success.{fits_column}
use kredit_plus.Service.CreditLimit.{create, to_response}

-- What the database answers while the tables are `db`: its reads do not fail, and it inserts a limit
-- with a new key, a customer whose row stands, and amounts that the columns take.
pub record Answers (p : Platform) (db : Db) : Type 0 where
  pub first_answers :
      (matches : CreditLimit → Bool) (n : ℕ) (e : Error)
      → ¬ (p.limits.first matches db.limits n ≡ failed e)
  pub insert_answers :
      (l : CreditLimit) (c : Customer) (n : ℕ)
      → All (λ r. (r.id == l.id) ≡ false) db.limits
      → In c db.customers
      → c.id ≡ l.customer_id
      → fits_column l.limit_amount ≡ true
      → fits_column l.used_amount ≡ true
      → (rows' : List CreditLimit) × (p.limits.create l db.limits n ≡ ok rows')
  pub begin_answers : (n : ℕ) → p.begin n ≡ none
  pub commit_answers : (n : ℕ) → p.commit n ≡ none

zero_fits : fits_column zero_float ≡ true
unfolding fits_column le lt eq zero_float of_int
zero_fits = refl

-- What is answered of a limit that a request opened.
pub record IsOpened (req : CreateCreditLimitRequest) (drawn : Uuid) (r : CreditLimitResponse)
    : Type 0 where
  pub id : r.id ≡ drawn
  pub customer_id : r.customer_id ≡ req.customer_id
  pub tenor_month : r.tenor_month ≡ req.tenor_month
  pub limit_amount : r.limit_amount ≡ req.limit_amount
  pub used_amount : r.used_amount ≡ zero_float

module _ (p : Platform) (laws : IsPlatform p) where
  -- no row matches, so none is found
  first_none :
      (db : Db) (answers : Answers p db) (matches : CreditLimit → Bool) (n : ℕ)
      → All (λ l. matches l ≡ false) db.limits
      → (f : Fetch CreditLimit) → p.limits.first matches db.limits n ≡ f
      → p.limits.first matches db.limits n ≡ missing
  first_none db answers matches n others (found l) e =
      let (stands, q) = laws.limits.first_found _ _ _ _ e in
      absurd (ground (arith, q, none_In matches db.limits l others stands))
  first_none db answers matches n others missing e = e
  first_none db answers matches n others (failed x) e = absurd (answers.first_answers matches n x e)

  insert_succeeds :
      (l : CreditLimit) (c : Customer) (w : World)
      → Answers p w.db
      → All (λ r. (r.id == l.id) ≡ false) w.db.limits
      → In c w.db.customers
      → c.id ≡ l.customer_id
      → fits_column l.limit_amount ≡ true
      → fits_column l.used_amount ≡ true
      → (w' : World) × (Repo.create p l w ≡ (ok tt, w'))
  unfolding Repo.create transaction finish wrap write
  insert_succeeds l c w answers fresh stands owner limit_fits used_fits =
      let (rows, e) =
        answers.insert_answers l c (w.tick + 1) fresh stands owner limit_fits used_fits in
      let starts = answers.begin_answers w.tick in
      let ends = answers.commit_answers (w.tick + 1 + 1) in
      (record (step (step (step w))) { db = set_limits rows w.db }, ground (arith, e, starts, ends))

  -- The opening of a limit succeeds where the request is valid, the customer stands and has none for
  -- the tenor, no row has the identifier that is drawn, the columns take the amount, and the
  -- database answers.
  pub create_succeeds :
      (req : CreateCreditLimitRequest) (c : Customer) (w : World)
      → Answers p w.db
      → validate req ≡ []
      → In c w.db.customers
      → c.id ≡ req.customer_id
      → fits_column req.limit_amount ≡ true
      → All (λ l. of_tenor req.customer_id req.tenor_month l ≡ false) w.db.limits
      → All (λ l. (l.id == p.new_uuid (w.tick + 1)) ≡ false) w.db.limits
      → (r : CreditLimitResponse) × (w' : World) × (create p req w ≡ (ok r, w'))
        × IsOpened req (p.new_uuid (w.tick + 1)) r
  unfolding create Repo.get_by_customer_id_and_tenor ◌>>=◌ ◌>>◌ wrap fail_if read optional pure now
      new_uuid to_response
  create_succeeds req c w answers valid stands owner fits new fresh =
      let none_stands =
        first_none w.db answers (of_tenor req.customer_id req.tenor_month) w.tick new _ refl in
      let limit : CreditLimit = record {
        id = p.new_uuid (w.tick + 1);
        customer_id = req.customer_id;
        tenor_month = req.tenor_month;
        limit_amount = req.limit_amount;
        used_amount = zero_float;
        created_at = p.now (w.tick + 1 + 1);
        updated_at = p.now (w.tick + 1 + 1 + 1);
      } in
      let (w', e) =
        insert_succeeds limit c (step (step (step (step w)))) answers fresh stands owner fits
          zero_fits in
      (
        to_response p limit,
        w',
        ground (arith, valid, none_stands, e),
        record {
          id = refl;
          customer_id = refl;
          tenor_month = refl;
          limit_amount = refl;
          used_amount = refl;
        },
      )
