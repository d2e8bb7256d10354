-- ===== src/Handler/Effects.antt =====
-- What serving a request does to the tables: nothing, or what one call of a service does; and what
-- the answer tells of it.
use kredit_plus.Base.{
  ℕ, ◌<◌, Bool, true, false, if◌then◌else◌, String, Option, none, ◌≡◌, refl, ◌∙◌, ◌⊎◌, inl, inr,
  arith,
}
use kredit_plus.Entity.Error.{Error}
use kredit_plus.Platform.Table.{Result, ok, err}
use kredit_plus.Platform.World.{World, Platform}
use kredit_plus.Platform.Monad.{M}
use kredit_plus.Platform.Monad.Effects.{ReadOnly}
use kredit_plus.Response.{Response}
use kredit_plus.Invariant.Calls.{Call, run_call}
use kredit_plus.Invariant.Failures.{failure, error_of, is_purchase}
use kredit_plus.Handler.{
  Payload, Reply, Http, Handler, Parsed, parsed, unparsed, send, give, give_created, parse_or,
  answer, answer_result,
}

-- The handler leaves the tables alone.
pub record Reads (k : Handler) : Type 0 where
  pub at : (w : World) → (k w).1.db ≡ w.db

module _ (p : Platform) (h : Http) where
  -- A response with a status below 400.
  pub record Sends (reply : Reply) : Type 0 where
    pub status : ℕ
    pub good : status < 400
    pub response : Response Payload
    pub sent : reply ≡ send h status response

  -- A request is served by the call `c`, and is answered well if the call does not fail.
  pub record Serves (c : Call) (w : World) (r : Reply × World) : Type 0 where
    pub world : r.1 ≡ run_call p c w
    pub well : failure p c w ≡ none → Sends r.0

  -- The tables are left alone, or a call serves the request; `sale` says whether it is a purchase.
  pub record Served (sale : Bool) (k : Handler) : Type 0 where
    pub at :
        (w : World) → ((k w).1.db ≡ w.db) ⊎ ((c : Call) × Serves c w (k w) × (is_purchase c ≡ sale))

  pub Served-of_Reads : (k : Handler) → Reads k → Served false k
  Served-of_Reads k r = record { at = λ w. inl (r.at w) }

  module _ {A : Type 0} (m : M A) (on_error : Error → Reply) (on_value : A → Reply) where
    pub Reads-answer : ReadOnly m → Reads (answer h m on_error on_value)
    unfolding answer
    Reads-answer r = record { at = λ w. r.at w }

    value-Sends :
        (r : Result A)
        → ((a : A) → Sends (on_value a))
        → error_of r ≡ none
        → Sends (answer_result h on_error on_value r)
    unfolding answer_result
    value-Sends (ok a) good e = good a
    value-Sends (err x) good e = cc

    pub Served-call :
        (c : Call)
        → ((w : World) → (m w).1 ≡ run_call p c w)
        → ((w : World) → error_of (m w).0 ≡ failure p c w)
        → ((a : A) → Sends (on_value a))
        → Served (is_purchase c) (answer h m on_error on_value)
    unfolding answer
    Served-call c same fails good = record {
      at = λ w.
          inr (
            c,
            record { world = same w; well = λ e. value-Sends (m w).0 good (fails w ∙ e) },
            refl,
          );
    }

  module _ {A : Type 0} (text : String) (k : A → Handler) where
    pub Reads-parse_or : (a : Parsed A) → ((a : A) → Reads (k a)) → Reads (parse_or h a text k)
    unfolding parse_or
    Reads-parse_or (parsed a) r = record { at = λ w. (r a).at w }
    Reads-parse_or (unparsed e) r = record { at = λ w. refl }

    pub Served-parse_or :
        (sale : Bool) (a : Parsed A)
        → ((a : A) → Served sale (k a))
        → Served sale (parse_or h a text k)
    unfolding parse_or
    Served-parse_or sale (parsed a) r = record { at = λ w. (r a).at w }
    Served-parse_or sale (unparsed e) r = record { at = λ w. inl refl }

  pub Reads-refused : (reply : Reply) → Reads (λ w. (reply, w))
  Reads-refused reply = record { at = λ w. refl }

  pub Reads-if : (c : Bool) (k l : Handler) → Reads k → Reads l → Reads (if c then k else l)
  Reads-if c k l r s = elim c as (λ b. Reads (if b then k else l)) [ true ↦ r | false ↦ s ]

  pub Sends-give : (payload : Option Payload) (text : String) → Sends (give h payload text)
  unfolding give
  Sends-give payload text = record { status = 200; good = omega arith; response = _; sent = refl }

  pub Sends-give_created : (payload : Payload) (text : String) → Sends (give_created h payload text)
  unfolding give_created
  Sends-give_created payload text = record {
    status = 201;
    good = omega arith;
    response = _;
    sent = refl;
  }
