-- ===== src/Startup/Release.antt =====
-- What the program of cmd/main.go has closed when it ends.
use kredit_plus.Base.{if◌then◌else◌, List, [], ◌∷◌, none, ◌≡◌, ap, ◌↔◌, inl, inr}
use kredit_plus.Startup.Main.{Resource, Event, returned, Host, signalled, run}
use kredit_plus.Startup.Ready.{IsReady, start_cases, closings, is_returned}
use kredit_plus.Startup.Serving.{served}

-- what was opened, the last one first
abbrev pub opened_before : List Resource → List Event → List Resource
opened_before rs [] = rs
opened_before rs (Event.opened r ∷ es) = opened_before (r ∷ rs) es
opened_before rs (e ∷ es) = opened_before rs es

returns_iff :
    (h : Host) → ((run h).0 ≡ returned) ↔ (IsReady h × (h.wake ≡ signalled) × (h.shutdown ≡ none))
returns_iff h = (to, from)
  where
    to : (run h).0 ≡ returned → IsReady h × (h.wake ≡ signalled) × (h.shutdown ≡ none)
    to q = elim (start_cases h) [
      | inr e ↦ absurd (cc (e.not_returned, ap is_returned q, ap (λ x. is_returned (x.0)) e.is_run))
      | inl r ↦ elim (served h r) [
        | inl (s, t, is_run) ↦ (r, s, t)
        | inr (k, (es, c, l, is_run)) ↦ absurd (cc (q, ap (λ x. x.0) is_run))
      ]
    ]

    from : IsReady h × (h.wake ≡ signalled) × (h.shutdown ≡ none) → (run h).0 ≡ returned
    from (r, s, t) = elim (served h r) [
      | inl (s', t', is_run) ↦ ap (λ x. x.0) is_run
      | inr (k, rest) ↦ absurd (k (s, t))
    ]

run_closes :
    (h : Host)
    → closings (run h).1 ≡ (if is_returned (run h).0 then opened_before [] (run h).1 else [])
run_closes h = elim (start_cases h) [
  | inr e ↦ rw (e.is_run, e.not_returned, e.unreleased)
  | inl r ↦ elim (served h r) [
    | inl (s, t, is_run) ↦ rw is_run
    | inr (k, (es, c, l, is_run)) ↦ rw (is_run, c)
  ]
]

-- `main` returns exactly where everything could be opened, a signal came before the listener failed,
-- and the server could be shut down: then everything that was opened is closed, the last one first.
-- Where the process panics or exits, nothing is closed.
pub run_ends :
    (h : Host)
    → (((run h).0 ≡ returned) ↔ (IsReady h × (h.wake ≡ signalled) × (h.shutdown ≡ none)))
      × (closings (run h).1 ≡ (if is_returned (run h).0 then opened_before [] (run h).1 else []))
run_ends h = (returns_iff h, run_closes h)
