-- ===== src/Handler/Lookups.antt =====
-- What the requests that read are answered, in terms of the tables.
use kredit_plus.Base.{
  ap, ◌∙◌, ℕ, String, [], ◌∷◌, none, ◌==◌, ==_iff, false, All, some, ◌≡◌, refl, ◌⊎◌, inl, inr,
  arith,
}
use kredit_plus.Entity.Error.{Uuid, Error, wrapped, credit_limit_not_found, error_text}
use kredit_plus.Entity.CreditLimit.{CreditLimit, CreditLimitResponse}
use kredit_plus.Platform.Table.{Fetch, found, missing, failed, In}
use kredit_plus.Platform.World.{World, Platform}
use kredit_plus.Platform.Laws.{IsPlatform}
use kredit_plus.Platform.Monad.{pure, raise, wrap, read, optional, ◌>>=◌, ◌>>◌}
use kredit_plus.Repository.CreditLimit as LimitRepo
use kredit_plus.Service.CreditLimit as LimitService
use kredit_plus.Handler.{
  Payload, Request, Reply, Http, parsed, answered, credit_limit, report, refuse, send, encoded,
  give, parse_or, answer,
}
use kredit_plus.Response.{Response, success, failure}
use kredit_plus.Handler.CreditLimit as LimitHandler

module _ (p : Platform) (h : Http) where
  -- what is answered for what the table gives
  limit_reply : Fetch CreditLimit → Reply
  limit_reply (found l) =
      give h (some (credit_limit (LimitService.to_response p l)))
        "Credit limit retrieved successfully"
  limit_reply missing = report h 404 "Credit limit not found" credit_limit_not_found
  limit_reply (failed e) =
      report h 500 "Failed to get credit limit"
        (wrapped "failed to get credit limit" (wrapped "failed to get credit limit" e))

  limit_read :
      (r : Request) (w : World) (id : Uuid) (f : Fetch CreditLimit)
      → h.parse_uuid (r.params "id") ≡ parsed id
      → p.limits.first (λ l. l.id == id) w.db.limits w.tick ≡ f
      → (LimitHandler.get_by_id p h r w).0 ≡ limit_reply f
  unfolding limit_reply LimitHandler.get_by_id LimitHandler.get_errors parse_or answer
      LimitService.get_by_id LimitService.or_raise LimitRepo.get_by_id ◌>>=◌ ◌>>◌ wrap read optional
      pure raise
  limit_read r w id (found l) e g = ground (arith, e, g)
  limit_read r w id missing e g = ground (arith, e, g)
  limit_read r w id (failed x) e g = ground (arith, e, g)

  -- What is given of a row.
  pub record Shows (l : CreditLimit) (given : CreditLimitResponse) : Type 0 where
    pub id : given.id ≡ l.id
    pub customer_id : given.customer_id ≡ l.customer_id
    pub tenor_month : given.tenor_month ≡ l.tenor_month
    pub limit_amount : given.limit_amount ≡ l.limit_amount
    pub used_amount : given.used_amount ≡ l.used_amount

  -- an answer, where every response can be encoded
  pub send_answered :
      ((x : Response Payload) → h.encode x ≡ none)
      → (status : ℕ) (x : Response Payload) → send h status x ≡ answered status x
  unfolding send encoded
  send_answered encodes status x = ap (λ o. encoded h status x o) (encodes x)

  limit_report : Error → ℕ → String → Reply
  limit_report e status text = answered status (failure status text (error_text e ∷ []))

  -- what an answer tells of the table
  limit_told :
      (laws : IsPlatform p) (reply : Reply) (w : World) (id : Uuid) (f : Fetch CreditLimit)
      → ((x : Response Payload) → h.encode x ≡ none)
      → reply ≡ limit_reply f
      → p.limits.first (λ l. l.id == id) w.db.limits w.tick ≡ f
      → ((l : CreditLimit) × In l w.db.limits
          × (l.id ≡ id)
          × ((given : CreditLimitResponse) × Shows l given
              × (reply
                  ≡ answered 200
                      (success (some (credit_limit given)) "Credit limit retrieved successfully"))))
        ⊎ ((All (λ l. (l.id == id) ≡ false) w.db.limits
              × (reply ≡ limit_report credit_limit_not_found 404 "Credit limit not found"))
            ⊎ ((e : Error) × (p.limits.first (λ l. l.id == id) w.db.limits w.tick ≡ failed e)
                × (reply
                    ≡ limit_report
                        (wrapped "failed to get credit limit"
                          (wrapped "failed to get credit limit" e))
                        500
                        "Failed to get credit limit")))
  unfolding limit_reply limit_report give report refuse LimitService.to_response
  limit_told laws reply w id (found l) encodes e g =
      let (stands, m) = laws.limits.first_found _ _ _ l g in
      inl (
        l,
        stands,
        (==_iff l.id id).0 m,
        (
          LimitService.to_response p l,
          record {
            id = refl;
            customer_id = refl;
            tenor_month = refl;
            limit_amount = refl;
            used_amount = refl;
          },
          e ∙ send_answered encodes _ _,
        ),
      )
  limit_told laws reply w id missing encodes e g =
      inr (inl (laws.limits.first_missing _ _ _ g, e ∙ send_answered encodes _ _))
  limit_told laws reply w id (failed x) encodes e g =
      inr (inr (x, g, e ∙ send_answered encodes _ _))

  -- Where every response can be encoded, a request for a limit is answered with 200 and the key, the
  -- customer, the tenor and the amounts of a row of the table that has the identifier, or with 404
  -- where no row has it, or with 500 and the error of the database where it fails.
  pub get_limit_answered :
      (laws : IsPlatform p) (r : Request) (w : World) (id : Uuid)
      → ((x : Response Payload) → h.encode x ≡ none)
      → h.parse_uuid (r.params "id") ≡ parsed id
      → let reply = (LimitHandler.get_by_id p h r w).0 in
        ((l : CreditLimit) × In l w.db.limits
          × (l.id ≡ id)
          × ((given : CreditLimitResponse) × Shows l given
              × (reply
                  ≡ answered 200
                      (success (some (credit_limit given)) "Credit limit retrieved successfully"))))
        ⊎ ((All (λ l. (l.id == id) ≡ false) w.db.limits
              × (reply
                  ≡ answered 404 (
                      failure 404 "Credit limit not found"
                        (error_text credit_limit_not_found ∷ []))))
            ⊎ ((e : Error) × (p.limits.first (λ l. l.id == id) w.db.limits w.tick ≡ failed e)
                × (reply
                    ≡ answered 500 (
                        failure 500 "Failed to get credit limit" (
                          error_text (
                            wrapped "failed to get credit limit"
                              (wrapped "failed to get credit limit" e))
                          ∷ [])))))
  unfolding limit_report
  get_limit_answered laws r w id encodes names =
      let f = p.limits.first (λ l. l.id == id) w.db.limits w.tick in
      limit_told laws _ w id f encodes (limit_read r w id f names refl) refl
