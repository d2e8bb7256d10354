-- ===== src/Service/CreditLimit/Rules.antt =====
-- What the credit limit service does when it succeeds.
use kredit_plus.Base.{
  ◌==◌, ℕ, ℤ, true, false, not, List, [], ◌∷◌, ◌++◌, All, Option, some, none, is_empty, ◌≡◌, refl,
  ap, ◌∙◌, ◌⊎◌, inl, inr, subst, Bool-cases,
}
use kredit_plus.Float.{Float64, lt, eq, zero_float}
use kredit_plus.Entity.Error.{Uuid, Error, credit_limit_not_found}
use kredit_plus.Entity.CreditLimit.{
  CreditLimit, CreateCreditLimitRequest, CreditLimitResponse, validate,
}
use kredit_plus.Platform.Table.{ok, In, erase}
use kredit_plus.Platform.World.{Db, World, Platform}
use kredit_plus.Platform.Laws.{IsPlatform}
use kredit_plus.Platform.Monad.{pure, raise}
use kredit_plus.Platform.Monad.Effects.{after_reads, after_stamps, ReadOnly-wrap}
use kredit_plus.Platform.Monad.Outcomes.{
  after_guard, after_step, after_read, optional-ok, wrap-ok, pure-ok,
}
use kredit_plus.Repository.CreditLimit as Repo
use kredit_plus.Repository.CreditLimit.{set_limits, of_tenor}
use kredit_plus.Repository.CreditLimit.Effects as Effects
use kredit_plus.Repository.CreditLimit.Effects.{Charge}
use kredit_plus.Service.CreditLimit.{
  create, delete, update_used_amount, change_used_amount, or_raise, is_set, to_response,
}
use kredit_plus.Service.CreditLimit.Effects.{or_raise-ReadOnly}

pub or_raise-ok :
    {A : Type 0} (o : Option A) (e : Error) (w : World) {a : A} {w' : World}
    → or_raise o e w ≡ (ok a, w')
    → (o ≡ some a) × (w' ≡ w)
unfolding or_raise pure raise
or_raise-ok none e w h = cc
or_raise-ok (some a) e w h = (cc, cc)

pub is_set-false : {A : Type 0} (o : Option A) → is_set o ≡ false → o ≡ none
is_set-false none h = refl
is_set-false (some a) h = cc

pub is_empty-nil : {A : Type 0} (xs : List A) → not (is_empty xs) ≡ false → xs ≡ []
is_empty-nil [] h = refl
is_empty-nil (x ∷ xs) h = cc

-- A limit that was opened: the request was valid, no row had its customer and tenor, and one row
-- with nothing used was appended.
pub record Opened (p : Platform) (req : CreateCreditLimitRequest) (db db' : Db) : Type 0 where
  pub valid : validate req ≡ []
  pub new : All (λ l. of_tenor req.customer_id req.tenor_month l ≡ false) db.limits
  pub limit : CreditLimit
  pub customer_id : limit.customer_id ≡ req.customer_id
  pub tenor_month : limit.tenor_month ≡ req.tenor_month
  pub limit_amount : limit.limit_amount ≡ req.limit_amount
  pub used_amount : limit.used_amount ≡ zero_float
  pub fresh : All (λ l. (l.id == limit.id) ≡ false) db.limits
  pub number : ℕ
  pub now_is : db' ≡ set_limits (db.limits ++ p.limits.stored number limit ∷ []) db

module _ (p : Platform) (laws : IsPlatform p) where
  -- what a missing row for customer and tenor tells of the table
  absent_limit :
      (customer_id : Uuid) (tenor : ℤ) (w : World) {o : Option CreditLimit} {w' : World}
      → Repo.get_by_customer_id_and_tenor p customer_id tenor w ≡ (ok o, w')
      → o ≡ none
      → All (λ l. of_tenor customer_id tenor l ≡ false) w.db.limits
  unfolding Repo.get_by_customer_id_and_tenor
  absent_limit customer_id tenor w h none_found = after_read _ _ _ h λ h1.
      elim (optional-ok _ _ _ h1).1 [
        | inl (e, f, s) ↦ cc
        | inr (m, s) ↦ laws.limits.first_missing _ _ _ m
      ]

  -- the limit that was opened is answered
  pub create_limit-answer :
      (req : CreateCreditLimitRequest) (w : World) {r : CreditLimitResponse} {w' : World}
      → create p req w ≡ (ok r, w')
      → (o : Opened p req w.db w'.db) × (r ≡ to_response p o.limit)
  unfolding create
  create_limit-answer req w h = after_guard _ _ _ _ h λ valid h1.
      after_reads _ _ _ (ReadOnly-wrap _ _ (Effects.get_by_customer_id_and_tenor-ReadOnly p _ _)) h1
        λ o w1 e1 same1 h2. after_guard _ _ _ _ h2 λ absent h3.
          after_stamps p _ _ h3 λ id created updated w2 same2 h4. after_step _ _ _ h4 λ w3 e3 h5.
            let limit : CreditLimit = record {
              id = id;
              customer_id = req.customer_id;
              tenor_month = req.tenor_month;
              limit_amount = req.limit_amount;
              used_amount = zero_float;
              created_at = created;
              updated_at = updated;
            } in
            let (n, d) = Effects.create-ok p laws limit _ (wrap-ok _ _ _ e3) in
            (
              record {
                valid = is_empty-nil _ valid;
                new = absent_limit _ _ _ (wrap-ok _ _ _ e1) (is_set-false o absent);
                limit = limit;
                customer_id = refl;
                tenor_month = refl;
                limit_amount = refl;
                used_amount = refl;
                fresh =
                    subst (λ (db : Db). All (λ l. (l.id == id) ≡ false) db.limits) (same2 ∙ same1)
                      (Effects.create-fresh p laws limit _ (wrap-ok _ _ _ e3));
                number = n;
                now_is =
                    (pure-ok _ _ h5).1
                    ∙ d
                    ∙ ap (λ (db : Db). set_limits (db.limits ++ p.limits.stored n limit ∷ []) db)
                        (same2 ∙ same1);
              },
              (pure-ok _ _ h5).0,
            )

  -- A limit is opened only for a valid request, and only where the customer has none for the tenor;
  -- nothing of it is used.
  pub create_limit-ok :
      (req : CreateCreditLimitRequest) (w : World) {r : CreditLimitResponse} {w' : World}
      → create p req w ≡ (ok r, w')
      → Opened p req w.db w'.db
  create_limit-ok req w h = (create_limit-answer req w h).0

  -- A successful change of the used amount is by nothing, and then nothing is done, or it adds the
  -- amount to the row with the given key, which had room for it.
  pub update_used-ok :
      (id : Uuid) (amount : Float64) (w : World) {w' : World}
      → update_used_amount p id amount w ≡ (ok tt, w')
      → ((eq amount zero_float ≡ true) × (w'.db ≡ w.db))
        ⊎ ((eq amount zero_float ≡ false)
            × ((l : CreditLimit) × (l.id ≡ id) × Charge p amount w.db w'.db l))
  unfolding update_used_amount change_used_amount
  update_used-ok id amount w {w'} h = elim (Bool-cases (eq amount zero_float)) [
    | inl none_asked ↦ inl (none_asked, (pure-ok _ _ (rw none_asked at h)).1)
    | inr asked ↦ inr (
      asked,
      after_reads _ _ _ (ReadOnly-wrap _ _ (Effects.get_by_id-ReadOnly p id)) (rw asked at h)
          λ o w1 e1 same1 h1.
            after_reads _ _ _ (or_raise-ReadOnly o credit_limit_not_found) h1 λ l w2 e2 same2 h2.
              after_guard _ _ _ _ h2 λ not_negative h3. after_guard _ _ _ _ h3 λ has_room h4.
                let (l', key, c) = Effects.update_limit-ok p laws id amount _ (wrap-ok _ _ _ h4) in
                (l', key, subst (λ (db : Db). Charge p amount db w'.db l') (same2 ∙ same1) c),
    )
  ]

  -- A limit that is deleted had nothing used, and only the rows of its key are gone.
  pub delete_limit-ok :
      (id : Uuid) (w : World) {w' : World}
      → delete p id w ≡ (ok tt, w')
      → (l : CreditLimit) × In l w.db.limits
        × (l.id ≡ id)
        × (lt zero_float l.used_amount ≡ false)
        × (w'.db ≡ set_limits (erase (λ r. r.id) id w.db.limits) w.db)
  unfolding delete
  delete_limit-ok id w {w'} h =
      after_reads _ _ _ (ReadOnly-wrap _ _ (Effects.get_by_id-ReadOnly p id)) h λ o w1 e1 same1 h1.
        after_reads _ _ _ (or_raise-ReadOnly o credit_limit_not_found) h1 λ l w2 e2 same2 h2.
          after_guard _ _ _ _ h2 λ unused h3.
            subst
              (λ (db : Db).
                (l : CreditLimit) × In l db.limits
                × (l.id ≡ id)
                × (lt zero_float l.used_amount ≡ false)
                × (w'.db ≡ set_limits (erase (λ r. r.id) id db.limits) db))
              (same2 ∙ same1) (Effects.delete-ok p laws id _ (wrap-ok _ _ _ h3))
