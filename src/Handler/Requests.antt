-- ===== src/Handler/Requests.antt =====
-- What any request, and any sequence of requests, does to the tables.
use kredit_plus.Base.{
  ◌≤◌, true, false, List, [], ◌∷◌, All, none, ◌≡◌, sym, ap, ◌∙◌, inl, inr, arith, subst,
  Option-cases,
}
use kredit_plus.Platform.World.{Db, World, Platform}
use kredit_plus.Platform.Laws.{IsPlatform}
use kredit_plus.Response.{Response}
use kredit_plus.Invariant.{IsCovered}
use kredit_plus.Invariant.Calls.{Call, run_call, run_call_keeps}
use kredit_plus.Invariant.Contracts.{Contracts, OfSales}
use kredit_plus.Invariant.Contracts.Sales.{run_call-Contracts}
use kredit_plus.Invariant.Covered.{LimitCalls-IsCovered}
use kredit_plus.Invariant.Failures.{failure, failure_unchanged}
use kredit_plus.Invariant.Tenors.{OneEach}
use kredit_plus.Invariant.Uniqueness.{LimitCalls-OneEach}
use kredit_plus.Handler.{Payload, Request, Reply, answered, rejected, crashed, Http, send, encoded}
use kredit_plus.Handler.Effects.{Sends}
use kredit_plus.Handler.Routes.{Endpoint, is_sale, is_read, serve, serve_all}
use kredit_plus.Handler.Served.{serve-Reads, serve-Served}

-- The requests of the eleven methods that read leave the tables alone.
pub serve_unchanged :
    (p : Platform) (h : Http) (e : Endpoint) (r : Request) (w : World)
    → is_read e ≡ true
    → (serve p h e r w).1.db ≡ w.db
serve_unchanged p h e r w reads = (serve-Reads p h r e reads).at w

-- A client is told of a failure: a status from 400 on, the body of the error handler, or no answer.
abbrev pub IsRefusal : Reply → Type 0
IsRefusal (answered status r) = 400 ≤ status
IsRefusal (rejected status text) = Unit
IsRefusal crashed = Unit

-- a good answer is no refusal, where every response can be encoded
Sends-not-IsRefusal :
    (p : Platform) (h : Http) (reply : Reply)
    → ((x : Response Payload) → h.encode x ≡ none)
    → Sends p h reply
    → ¬ (IsRefusal reply)
unfolding send
Sends-not-IsRefusal p h reply encodes s refusal =
    let plain : reply ≡ answered s.status s.response =
      s.sent ∙ ap (λ o. encoded h s.status s.response o) (encodes s.response) in
    let late : 400 ≤ s.status = subst IsRefusal plain refusal in
    absurd (omega (arith, late, s.good))

-- Where every response can be encoded, a request that is answered with a failure left the tables as
-- they were, unless it was a purchase.
pub refusal_unchanged :
    (p : Platform) (h : Http) (e : Endpoint) (r : Request) (w : World)
    → ((x : Response Payload) → h.encode x ≡ none)
    → is_sale e ≡ false
    → IsRefusal (serve p h e r w).0
    → (serve p h e r w).1.db ≡ w.db
refusal_unchanged p h e r w encodes other refusal = elim ((serve-Served p h r e).at w) [
  | inl same ↦ same
  | inr (c, s, kind) ↦ elim (Option-cases (failure p c w)) [
    | inl well ↦ absurd (Sends-not-IsRefusal p h _ encodes (s.well well) refusal)
    | inr (x, bad) ↦ ap (λ v. v.db) s.world ∙ failure_unchanged p c w x (kind ∙ other) bad
  ]
]

-- What each call keeps of the tables, any sequence of requests keeps.
module _ (P : Db → Type 0) (p : Platform) (h : Http)
    (kept : (c : Call) (w : World) → P w.db → P (run_call p c w).db) where
  serve_keeps : (e : Endpoint) (r : Request) (w : World) → P w.db → P (serve p h e r w).1.db
  serve_keeps e r w q = elim ((serve-Served p h r e).at w) [
    | inl same ↦ subst P (sym same) q
    | inr (c, s, kind) ↦ subst (λ (v : World). P v.db) (sym s.world) (kept c w q)
  ]

  serve_all_keeps :
      (rs : List (Endpoint × Request)) (w : World) → P w.db → P (serve_all p h rs w).db
  unfolding serve_all
  serve_all_keeps [] w q = q
  serve_all_keeps ((e, r) ∷ rs) w q = serve_all_keeps rs (serve p h e r w).1 (serve_keeps e r w q)

-- No limit is overdrawn, each customer has at most one for a tenor, and each transaction has a
-- contract number of its own.
pub record IsSound (db : Db) : Type 0 where
  pub covered : All IsCovered db.limits
  pub one_each : OneEach db.limits
  pub contracts : Contracts db.transactions

-- After any sequence of requests, whatever they hold and whatever fails on the way, no credit limit
-- is used beyond its amount, any two differ in the key, and in the customer or the tenor, and any
-- two transactions differ in the contract number, where this held before.
pub serve_all-IsSound :
    (p : Platform) (laws : IsPlatform p) (h : Http) (rs : List (Endpoint × Request)) (w : World)
    → IsSound w.db
    → IsSound (serve_all p h rs w).db
serve_all-IsSound p laws h rs w s = record {
  covered =
      serve_all_keeps (λ db. All IsCovered db.limits) p h
        (run_call_keeps (All IsCovered) p (LimitCalls-IsCovered p laws)) rs w s.covered;
  one_each =
      serve_all_keeps (λ db. OneEach db.limits) p h
        (run_call_keeps OneEach p (LimitCalls-OneEach p laws)) rs w s.one_each;
  contracts = serve_all_keeps OfSales p h (run_call-Contracts p laws) rs w s.contracts;
}
