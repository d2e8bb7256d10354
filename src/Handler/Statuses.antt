-- ===== src/Handler/Statuses.antt =====
-- The status that a request is answered with.
use kredit_plus.Base.{
  ℕ, String, Bool, true, false, if◌then◌else◌, Option, none, some, ◌≡◌, ◌≢◌, refl,
}
use kredit_plus.Entity.Error.{
  Error, credit_limit_not_found, insufficient_credit_limit, duplicate_credit_limit,
  credit_limit_in_use, transaction_not_found, duplicate_contract, invalid_status, nil_dereference,
  message, wrapped,
}
use kredit_plus.Platform.Table.{Result, ok, err}
use kredit_plus.Platform.World.{World}
use kredit_plus.Platform.Monad.{M}
use kredit_plus.Platform.Monad.Failures.{Fails}
use kredit_plus.Response.{Response}
use kredit_plus.Handler.{
  Payload, Reply, answered, rejected, crashed, Http, Handler, Parsed, parsed, unparsed, send,
  encoded, refuse, report, parse_or, answer, answer_result, custom_error_handler,
}

-- The client is sent the status, by the handler or by the error handler.
abbrev pub HasStatus : ℕ → Reply → Type 0
HasStatus status (answered s r) = s ≡ status
HasStatus status (rejected s text) = s ≡ status
HasStatus status crashed = ⊥

module _ (h : Http) (status : ℕ) (other : 500 ≢ status) where
  abbrev pub Lacks : Reply → Type 0
  Lacks reply = ¬ (HasStatus status reply)

  encoded-Lacks :
      (s : ℕ) (r : Response Payload) (o : Option String) → s ≢ status → Lacks (encoded h s r o)
  unfolding encoded custom_error_handler
  encoded-Lacks s r none q = q
  encoded-Lacks s r (some text) q = other

  pub send-Lacks : (s : ℕ) (r : Response Payload) → s ≢ status → Lacks (send h s r)
  unfolding send
  send-Lacks s r q = encoded-Lacks s r (h.encode r) q

  pub report-Lacks : (s : ℕ) (text : String) (e : Error) → s ≢ status → Lacks (report h s text e)
  unfolding report refuse
  report-Lacks s text e q = send-Lacks s _ q

  pub if-Lacks :
      (c : Bool) (x y : Reply) → (c ≡ true → Lacks x) → Lacks y → Lacks (if c then x else y)
  if-Lacks true x y f g = f refl
  if-Lacks false x y f g = g

  module _ {A : Type 0} (P : Error → Type 0) (on_error : Error → Reply) (on_value : A → Reply) where
    error-Lacks :
        (e : Error) → Lacks (on_error e) → Lacks (answer_result h on_error on_value (err e))
    unfolding answer_result
    error-Lacks credit_limit_not_found q = q
    error-Lacks insufficient_credit_limit q = q
    error-Lacks duplicate_credit_limit q = q
    error-Lacks credit_limit_in_use q = q
    error-Lacks transaction_not_found q = q
    error-Lacks duplicate_contract q = q
    error-Lacks invalid_status q = q
    error-Lacks nil_dereference q = λ x. x
    error-Lacks (message text) q = q
    error-Lacks (wrapped text e) q = q

    result-Lacks :
        (r : Result A)
        → ((e : Error) → r ≡ err e → P e)
        → ((e : Error) → P e → Lacks (on_error e))
        → ((a : A) → Lacks (on_value a))
        → Lacks (answer_result h on_error on_value r)
    unfolding answer_result
    result-Lacks (ok a) fails bad good = good a
    result-Lacks (err e) fails bad good = error-Lacks e (bad e (fails e refl))

    pub answer-Lacks :
        (m : M A) (w : World)
        → Fails P m
        → ((e : Error) → P e → Lacks (on_error e))
        → ((a : A) → Lacks (on_value a))
        → Lacks (answer h m on_error on_value w).0
    unfolding answer
    answer-Lacks m w fails bad good = result-Lacks (m w).0 (λ e eq. fails.at w e eq) bad good

  pub parse_or-Lacks :
      {A : Type 0} (a : Parsed A) (text : String) (k : A → Handler) (w : World)
      → 400 ≢ status
      → ((a : A) → Lacks (k a w).0)
      → Lacks (parse_or h a text k w).0
  unfolding parse_or refuse
  parse_or-Lacks (parsed a) text k w q f = f a
  parse_or-Lacks (unparsed e) text k w q f = send-Lacks 400 _ q
