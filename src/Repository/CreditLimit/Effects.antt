-- ===== src/Repository/CreditLimit/Effects.antt =====
-- What the writes of the credit limit repository do to the tables.
use kredit_plus.Base.{All, ◌==◌, ℕ, ℤ, false, [], ◌∷◌, ◌++◌, ◌≡◌, ap, ◌∙◌, ==_iff}
use kredit_plus.Float.{Float64, add, lt, zero_float}
use kredit_plus.Entity.Error.{Uuid}
use kredit_plus.Entity.CreditLimit.{CreditLimit}
use kredit_plus.Platform.Table.{ok, In, put, erase, Fetch, found, missing, failed}
use kredit_plus.Platform.World.{Db, World, Platform}
use kredit_plus.Platform.Laws.{IsPlatform}
use kredit_plus.Platform.Monad.{step}
use kredit_plus.Platform.Monad.{pure, raise}
use kredit_plus.Platform.Monad.Outcomes.{
  require-ok, after_transaction, after_read, after_bind, after_query, after_guard, last_write,
}
use kredit_plus.Platform.Monad.Effects.{ReadOnly, Atomic, Atomic-transaction, read_rules}
use kredit_plus.Repository.CreditLimit.{
  found_for_deletion, get_by_id, get_by_customer_id_and_tenor, create, delete, update_used_amount,
  set_limits,
}

-- A charge of `amount` to the row `l`, which stood in the table and had room for it.
pub record Charge (p : Platform) (amount : Float64) (db db' : Db) (l : CreditLimit) : Type 0 where
  pub was : In l db.limits
  pub room : lt l.limit_amount (add l.used_amount amount) ≡ false
  pub number : ℕ
  pub now_is :
      db'
      ≡ set_limits
          (put
            (λ r. r.id)
            (p.limits.stored number (record l { used_amount = add l.used_amount amount }))
            db.limits)
          db

found_for_deletion-ok :
    (p : Platform) (r : Fetch CreditLimit) (w : World) {l : CreditLimit} {w' : World}
    → found_for_deletion p r w ≡ (ok l, w')
    → (r ≡ found l) × (w' ≡ w)
unfolding found_for_deletion pure raise
found_for_deletion-ok p (found l) w h = (cc, cc)
found_for_deletion-ok p missing w h = cc
found_for_deletion-ok p (failed e) w h = cc

module _ (p : Platform) (laws : IsPlatform p) where
  -- A successful charge adds the amount to the used amount of the row with the given key, and
  -- touches nothing else.
  pub update_limit-ok :
      (id : Uuid) (amount : Float64) (w : World) {w' : World}
      → update_used_amount p id amount w ≡ (ok tt, w')
      → (l : CreditLimit) × (l.id ≡ id) × Charge p amount w.db w'.db l
  unfolding update_used_amount
  update_limit-ok id amount w h = after_transaction p _ w h λ w1 e d.
      after_query _ _ _ (step w) e λ l q e1. after_guard _ _ _ _ e1 λ room e2.
        last_write _ _ _ _ e2 λ rows e3 d1.
          let (was, m) = laws.limits.first_found _ _ _ l (require-ok _ q) in
          (
            l,
            (==_iff l.id id).0 m,
            record {
              was = was;
              room = room;
              number = _;
              now_is = d ∙ d1 ∙ ap (λ r. set_limits r w.db) (laws.limits.save_ok _ _ _ _ e3);
            },
          )

  -- A successful insert appends the row.
  pub create-ok :
      (l : CreditLimit) (w : World) {w' : World}
      → create p l w ≡ (ok tt, w')
      → (n : ℕ) × (w'.db ≡ set_limits (w.db.limits ++ p.limits.stored n l ∷ []) w.db)
  unfolding create
  create-ok l w h = after_transaction p _ w h λ w1 e d.
      last_write _ _ _ _ e
        λ rows e1 d1. (_, d ∙ d1 ∙ ap (λ r. set_limits r w.db) (laws.limits.create_ok _ _ _ _ e1))

  -- An insert succeeds only where no row has the key.
  pub create-fresh :
      (l : CreditLimit) (w : World) {w' : World}
      → create p l w ≡ (ok tt, w')
      → All (λ r. (r.id == l.id) ≡ false) w.db.limits
  unfolding create
  create-fresh l w h =
      after_transaction p _ w h
        λ w1 e d. last_write _ _ _ _ e λ rows e1 d1. laws.limits.create_fresh _ _ _ _ e1

  -- A successful deletion removes a row with the given key, of which nothing is used.
  pub delete-ok :
      (id : Uuid) (w : World) {w' : World}
      → delete p id w ≡ (ok tt, w')
      → (l : CreditLimit) × In l w.db.limits
        × (l.id ≡ id)
        × (lt zero_float l.used_amount ≡ false)
        × (w'.db ≡ set_limits (erase (λ r. r.id) id w.db.limits) w.db)
  unfolding delete
  delete-ok id w h = after_transaction p _ w h λ w1 e d. after_read _ _ _ e λ e1.
      after_bind _ _ _ e1 λ l w2 e2 e3.
        let (f, e4) = found_for_deletion-ok p _ _ e2 in
        after_guard _ _ _ _ e3 λ unused e5. last_write _ _ _ _ e5 λ rows e6 d1.
          let (was, m) = laws.limits.first_found _ _ _ l f in
          let key = (==_iff l.id id).0 m in
          (l, was, key, unused, d ∙ d1 ∙ cc (laws.limits.delete_ok _ _ _ _ e6, e4, key))

module _ (p : Platform) where
  pub get_by_id-ReadOnly : (id : Uuid) → ReadOnly (get_by_id p id)
  unfolding get_by_id
  get_by_id-ReadOnly id = search read_rules

  pub get_by_customer_id_and_tenor-ReadOnly :
      (customer_id : Uuid) (tenor : ℤ) → ReadOnly (get_by_customer_id_and_tenor p customer_id tenor)
  unfolding get_by_customer_id_and_tenor
  get_by_customer_id_and_tenor-ReadOnly customer_id tenor = search read_rules

  pub create-Atomic : (l : CreditLimit) → Atomic (create p l)
  unfolding create
  create-Atomic l = Atomic-transaction _ p

  pub update_used_amount-Atomic :
      (id : Uuid) (amount : Float64) → Atomic (update_used_amount p id amount)
  unfolding update_used_amount
  update_used_amount-Atomic id amount = Atomic-transaction _ p

  pub delete-Atomic : (id : Uuid) → Atomic (delete p id)
  unfolding delete
  delete-Atomic id = Atomic-transaction _ p
