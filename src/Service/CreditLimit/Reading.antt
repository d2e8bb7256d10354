-- ===== src/Service/CreditLimit/Reading.antt =====
-- A credit limit that was opened is read back.
use kredit_plus.Base.{
  ℕ, ℤ, Bool, true, false, List, [], ◌∷◌, ◌++◌, All, ◌≡◌, refl, sym, ap, ◌∙◌, arith, inl, inr, ◌⊎◌,
  ◌==◌, ==_iff, eqb_ℤ, eqb_ℤ→eq, Bool-cases, ◌&&◌,
}
use kredit_plus.Float.{zero_float}
use kredit_plus.Entity.Error.{Uuid, Error, wrapped, credit_limit_not_found}
use kredit_plus.Entity.CreditLimit.{
  CreditLimit, CreateCreditLimitRequest, CreditLimitResponse, validate, is_valid_tenor,
}
use kredit_plus.Entity.Validation.{limit_request_iff, is_valid_tenor_iff}
use kredit_plus.Platform.Table.{Result, ok, err, Fetch, found, missing, failed}
use kredit_plus.Platform.World.{Db, World, Platform}
use kredit_plus.Platform.Laws.{IsPlatform}
use kredit_plus.Platform.Monad.Success.{last_match}
use kredit_plus.Platform.Monad.{pure, raise, wrap, fail_if, read, optional, ◌>>=◌, ◌>>◌}
use kredit_plus.Repository.CreditLimit as Repo
use kredit_plus.Repository.CreditLimit.{of_tenor}
use kredit_plus.Service.CreditLimit.{create, get_by_customer_id_and_tenor, to_response, or_raise}
use kredit_plus.Service.CreditLimit.Rules.{create_limit-answer}

last_none :
    {A : Type 0} (p : A → Bool) (rows : List A) (s : A)
    → All (λ r. p r ≡ false) (rows ++ s ∷ [])
    → p s ≡ false
last_none p [] s a = a.0
last_none p (x ∷ xs) s a = last_none p xs s a.1

true_both : (a b : Bool) → (a && b) ≡ true → (a ≡ true) × (b ≡ true)
true_both true true h = (refl, refl)
true_both true false h = cc
true_both false b h = cc

module _ (p : Platform) where
  abbrev database_failed : Error → Error
  database_failed e = wrapped "failed to get credit limit" (wrapped "failed to get credit limit" e)

  -- what is answered for what the table gives
  outcome : Fetch CreditLimit → Result CreditLimitResponse
  outcome (found l) = ok (to_response p l)
  outcome missing = err credit_limit_not_found
  outcome (failed e) = err (database_failed e)

  tenor_outcome :
      (customer_id : Uuid) (tenor : ℤ) (w : World) (f : Fetch CreditLimit)
      → is_valid_tenor tenor ≡ true
      → p.limits.first (of_tenor customer_id tenor) w.db.limits w.tick ≡ f
      → (get_by_customer_id_and_tenor p customer_id tenor w).0 ≡ outcome f
  unfolding outcome get_by_customer_id_and_tenor Repo.get_by_customer_id_and_tenor ◌>>=◌ ◌>>◌ wrap
      fail_if read optional pure raise or_raise
  tenor_outcome customer_id tenor w (found l) valid e = ground (arith, valid, e)
  tenor_outcome customer_id tenor w missing valid e = ground (arith, valid, e)
  tenor_outcome customer_id tenor w (failed x) valid e = ground (arith, valid, e)

  -- the row that the table gives, where one row matches and stands at the end
  first_last :
      (laws : IsPlatform p) (matches : CreditLimit → Bool) (rows : List CreditLimit)
      (s : CreditLimit) (n : ℕ)
      → All (λ l. matches l ≡ false) rows
      → matches s ≡ true
      → (f : Fetch CreditLimit) → p.limits.first matches (rows ++ s ∷ []) n ≡ f
      → (f ≡ found s) ⊎ ((e : Error) × (f ≡ failed e))
  first_last laws matches rows s n others m (found l) e =
      let (stands, q) = laws.limits.first_found _ _ _ _ e in
      inl (ap found (sym (last_match matches rows s l others stands q)))
  first_last laws matches rows s n others m missing e =
      absurd (ground (arith, m, last_none matches rows s (laws.limits.first_missing _ _ _ e)))
  first_last laws matches rows s n others m (failed x) e = inr (x, refl)

  valid_tenor :
      (req : CreateCreditLimitRequest) → validate req ≡ [] → is_valid_tenor req.tenor_month ≡ true
  valid_tenor req v = (is_valid_tenor_iff req.tenor_month).1 ((limit_request_iff req).0 v).1

  stored_matches :
      (laws : IsPlatform p) (req : CreateCreditLimitRequest) (n : ℕ) (l : CreditLimit)
      → l.customer_id ≡ req.customer_id
      → l.tenor_month ≡ req.tenor_month
      → of_tenor req.customer_id req.tenor_month (p.limits.stored n l) ≡ true
  stored_matches laws req n l c t =
      let s = laws.limit_stored n l in ground (arith, s.customer_id ∙ c, s.tenor_month ∙ t)

  by_fetch :
      (laws : IsPlatform p) (customer_id : Uuid) (tenor : ℤ) (w : World) (f : Fetch CreditLimit)
      {r : CreditLimitResponse}
      → p.limits.first (of_tenor customer_id tenor) w.db.limits w.tick ≡ f
      → outcome f ≡ ok r
      → (l : CreditLimit) × (of_tenor customer_id tenor l ≡ true) × (r ≡ to_response p l)
  unfolding outcome
  by_fetch laws customer_id tenor w (found l) e h = (l, (laws.limits.first_found _ _ _ l e).1, cc)
  by_fetch laws customer_id tenor w missing e h = cc
  by_fetch laws customer_id tenor w (failed x) e h = cc

  -- what is given was made of a row with the customer and the tenor
  given_row :
      (laws : IsPlatform p) (customer_id : Uuid) (tenor : ℤ) (w : World) (f : Fetch CreditLimit)
      {r : CreditLimitResponse}
      → p.limits.first (of_tenor customer_id tenor) w.db.limits w.tick ≡ f
      → (get_by_customer_id_and_tenor p customer_id tenor w).0 ≡ ok r
      → (l : CreditLimit) × (of_tenor customer_id tenor l ≡ true) × (r ≡ to_response p l)
  unfolding outcome get_by_customer_id_and_tenor fail_if ◌>>◌ ◌>>=◌ raise
  given_row laws customer_id tenor w f {r} e h = elim (Bool-cases (is_valid_tenor tenor)) [
    | inl valid ↦
        by_fetch laws customer_id tenor w f e
          (sym (tenor_outcome customer_id tenor w f valid e) ∙ h)
    | inr invalid ↦ absurd (ground (arith, h, invalid))
  ]

  given_owner :
      (laws : IsPlatform p) (customer_id : Uuid) (tenor : ℤ) (w : World) {r : CreditLimitResponse}
      → (get_by_customer_id_and_tenor p customer_id tenor w).0 ≡ ok r
      → (r.customer_id ≡ customer_id) × (r.tenor_month ≡ tenor)
  unfolding to_response
  given_owner laws customer_id tenor w {r} h =
      let (l, m, q) = given_row laws customer_id tenor w _ refl h in
      let (c, t) = true_both (l.customer_id == customer_id) (eqb_ℤ l.tenor_month tenor) m in
      (
        ap (λ r. r.customer_id) q ∙ (==_iff l.customer_id customer_id).0 c,
        ap (λ r. r.tenor_month) q ∙ eqb_ℤ→eq l.tenor_month tenor t,
      )

  -- What is given of the row `l` that a request added.
  pub record IsAdded (req : CreateCreditLimitRequest) (l : CreditLimit) (r : CreditLimitResponse)
      : Type 0 where
    pub id : r.id ≡ l.id
    pub customer_id : r.customer_id ≡ req.customer_id
    pub tenor_month : r.tenor_month ≡ req.tenor_month
    pub limit_amount : r.limit_amount ≡ p.decimal req.limit_amount
    pub used_amount : r.used_amount ≡ p.decimal zero_float

  -- Where a limit was opened, one row was appended, with the identifier that was answered. The limit
  -- of the customer and the tenor that is read next is that row, with the customer, the tenor and
  -- the amount of the request and nothing used, up to the rounding of the columns; or the database
  -- fails and its error is given. For no customer and tenor the limit of another one is read.
  pub create-get_by_customer_id_and_tenor :
      (laws : IsPlatform p) (req : CreateCreditLimitRequest) (w : World) {r : CreditLimitResponse}
      {w' : World}
      → create p req w ≡ (ok r, w')
      → let read = get_by_customer_id_and_tenor p in
        ((l : CreditLimit) × (w'.db.limits ≡ w.db.limits ++ l ∷ [])
          × (l.id ≡ r.id)
          × (((given : CreditLimitResponse) × ((read req.customer_id req.tenor_month w').0
                  ≡ ok given)
                × IsAdded req l given)
              ⊎ ((e : Error) × (p.limits.first
                      (of_tenor req.customer_id req.tenor_month)
                      w'.db.limits
                      w'.tick
                    ≡ failed e)
                  × ((read req.customer_id req.tenor_month w').0
                      ≡ err (
                          wrapped "failed to get credit limit"
                            (wrapped "failed to get credit limit" e))))))
        × ((customer_id : Uuid) (tenor : ℤ) (given : CreditLimitResponse)
            → (read customer_id tenor w').0 ≡ ok given
            → (given.customer_id ≡ customer_id) × (given.tenor_month ≡ tenor))
  unfolding outcome to_response
  create-get_by_customer_id_and_tenor laws req w {r} {w'} h =
      let (o, q) = create_limit-answer p laws req w h in
      let s = laws.limit_stored o.number o.limit in
      let row = p.limits.stored o.number o.limit in
      let f = p.limits.first (of_tenor req.customer_id req.tenor_month) w'.db.limits w'.tick in
      let reads =
        tenor_outcome req.customer_id req.tenor_month w' f (valid_tenor req o.valid) refl in
      let key = laws.limits.stored_key o.number o.limit in
      (
        (
          row,
          ap (λ (db : Db). db.limits) o.now_is,
          key ∙ sym (ap (λ r. r.id) q),
          elim (first_last laws _ w.db.limits row w'.tick o.new
              (stored_matches laws req _ _ o.customer_id o.tenor_month) f
              (ap
                (λ (db : Db).
                  p.limits.first (of_tenor req.customer_id req.tenor_month) db.limits w'.tick)
                (sym o.now_is))) [
                  | inl y ↦ inl (
                    to_response p row,
                    reads ∙ ap outcome y,
                    record {
                      id = refl;
                      customer_id = s.customer_id ∙ o.customer_id;
                      tenor_month = s.tenor_month ∙ o.tenor_month;
                      limit_amount = s.limit_amount ∙ ap p.decimal o.limit_amount;
                      used_amount = s.used_amount ∙ ap p.decimal o.used_amount;
                    },
                  )
                  | inr (e, y) ↦ inr (e, y, reads ∙ ap outcome y)
                ],
        ),
        λ customer_id tenor given e. given_owner laws customer_id tenor w' e,
      )
