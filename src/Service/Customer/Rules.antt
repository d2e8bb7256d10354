-- ===== src/Service/Customer/Rules.antt =====
-- What the customer service does to the tables when it succeeds.
use kredit_plus.Base.{
  ℕ, Bool, true, false, [], ◌∷◌, ◌++◌, All, Option, none, some, String, str_eq, ◌==◌, ◌≡◌, refl, ap,
  ◌∙◌, subst, inl, inr,
}
use kredit_plus.Entity.Error.{Uuid}
use kredit_plus.Entity.Customer.{Customer, CustomerResponse, CreateCustomerRequest, validate_create}
use kredit_plus.Platform.Table.{ok, In}
use kredit_plus.Platform.World.{Db, World, Platform}
use kredit_plus.Platform.Laws.{IsPlatform}
use kredit_plus.Platform.Monad.Effects.{after_reads, after_stamps, ReadOnly-wrap}
use kredit_plus.Platform.Monad.Outcomes.{
  after_bind, after_read, after_step, after_guard, after_query, optional-ok, wrap-ok, pure-ok,
}
use kredit_plus.Repository.Cached.{through_cache-none}
use kredit_plus.Repository.Customer as Repo
use kredit_plus.Repository.Customer.{set_customers, set_documents, matching}
use kredit_plus.Repository.Customer.Writes.{deactivated, append_customer-ok, deactivate-ok}
use kredit_plus.Repository.Customer.Effects as Effects
use kredit_plus.Service.CreditLimit.Rules.{is_empty-nil, is_set-false}
use kredit_plus.Service.Customer.{create, delete}
use kredit_plus.Service.Transaction.Approval.{after_set}

-- A customer that was registered: the request was valid, no row had its NIK, and one active row
-- with the data of the request was appended.
pub record Registered (p : Platform) (req : CreateCustomerRequest) (db db' : Db) : Type 0 where
  pub valid : validate_create req ≡ []
  pub new : All (λ c. str_eq c.nik req.nik ≡ false) db.customers
  pub customer : Customer
  pub nik : customer.nik ≡ req.nik
  pub full_name : customer.full_name ≡ req.full_name
  pub legal_name : customer.legal_name ≡ req.legal_name
  pub birth_place : customer.birth_place ≡ req.birth_place
  pub birth_date : customer.birth_date ≡ req.birth_date
  pub salary : customer.salary ≡ req.salary
  pub active : customer.is_active ≡ true
  pub number : ℕ
  pub now_is : db' ≡ set_customers (db.customers ++ p.customers.stored number customer ∷ []) db

module _ (p : Platform) (laws : IsPlatform p) where
  loaded_none :
      (text : String) (o : Option Customer) (w : World) {w' : World}
      → Repo.with_documents p text o w ≡ (ok none, w')
      → o ≡ none
  unfolding Repo.with_documents
  loaded_none text none w h = refl
  loaded_none text (some c) w h =
      after_query _ _ _ w h λ loaded q h1. let same = (pure-ok _ _ h1).0 in cc

  absent_row :
      (text : String) (matches : Customer → Bool) (w : World) {w' : World}
      → Repo.load p text matches w ≡ (ok none, w')
      → All (λ c. matches c ≡ false) w.db.customers
  unfolding Repo.load
  absent_row text matches w h = after_read _ _ _ h λ h1. after_bind _ _ _ h1 λ o w1 e1 e2.
      elim (optional-ok _ _ _ e1).1 [
        | inl (t, f, s) ↦ let none_there = loaded_none _ _ _ e2 in cc
        | inr (m, s) ↦ laws.customers.first_missing _ _ _ m
      ]

  -- a NIK that the cached read does not find stands in no row
  absent_nik :
      (nik : String) (w : World) {o : Option Customer} {w' : World}
      → Repo.get_by_nik p nik w ≡ (ok o, w')
      → o ≡ none
      → All (λ c. str_eq c.nik nik ≡ false) w.db.customers
  unfolding Repo.get_by_nik
  absent_nik nik w {o} {w'} h e =
      let (w1, same, (w2, q)) = through_cache-none p _ _ _ _ w (h ∙ ap (λ o. (ok o, w')) e) in
      subst (λ (db : Db). All (λ c. str_eq c.nik nik ≡ false) db.customers) same
        (absent_row _ _ w1 q)

  -- A customer is registered only for a valid request with a NIK that no row has; an active row
  -- with the data of the request is appended.
  pub create_customer-ok :
      (req : CreateCustomerRequest) (w : World) {r : CustomerResponse} {w' : World}
      → create p req w ≡ (ok r, w')
      → Registered p req w.db w'.db
  unfolding create
  create_customer-ok req w {r} {w'} h = after_guard _ _ _ w h λ valid h1.
      after_reads _ _ w (ReadOnly-wrap _ _ (Effects.get_by_nik-ReadOnly p _)) h1 λ o w1 e1 same1 h2.
        after_guard _ _ _ w1 h2 λ absent h3.
          after_stamps p _ w1 h3 λ id created updated w2 same2 h4. after_step _ _ w2 h4 λ w3 e3 h5.
            let customer : Customer = record {
              id = id;
              nik = req.nik;
              full_name = req.full_name;
              legal_name = req.legal_name;
              birth_place = req.birth_place;
              birth_date = req.birth_date;
              salary = req.salary;
              is_active = true;
              created_at = created;
              updated_at = updated;
              documents = [];
            } in
            let (n, d) = append_customer-ok p laws customer w2 (wrap-ok _ _ _ e3) in
            record {
              valid = is_empty-nil _ valid;
              new = absent_nik _ w (wrap-ok _ _ _ e1) (is_set-false o absent);
              customer = customer;
              nik = refl;
              full_name = refl;
              legal_name = refl;
              birth_place = refl;
              birth_date = refl;
              salary = refl;
              active = refl;
              number = n;
              now_is =
                  (pure-ok _ _ h5).1
                  ∙ d
                  ∙ ap
                      (λ (db : Db).
                        set_customers (db.customers ++ p.customers.stored n customer ∷ []) db)
                      (same2 ∙ same1);
            }

  -- Deleting a customer removes no row: the rows of the key, of which there is one, are made
  -- inactive, and the others stay.
  pub delete_customer-ok :
      (id : Uuid) (w : World) {w' : World}
      → delete p id w ≡ (ok tt, w')
      → (c : Customer) × In c w.db.customers
        × ((c.id == id) ≡ true)
        × ((n : ℕ) × (w'.db ≡ deactivated p id n w.db))
  unfolding delete
  delete_customer-ok id w {w'} h =
      after_reads _ _ w (ReadOnly-wrap _ _ (Effects.get_by_id-ReadOnly p id)) h λ o w1 e1 same1 h1.
        after_set o _ _ w1 h1 λ c e2 h2. after_guard _ _ _ w1 h2 λ active h3.
          subst
            (λ (db : Db).
              (c : Customer) × In c db.customers
              × ((c.id == id) ≡ true)
              × ((n : ℕ) × (w'.db ≡ deactivated p id n db)))
            same1 (deactivate-ok p laws id w1 (wrap-ok _ _ _ h3))
