-- ===== src/Service/Gathering/Channels.antt =====
-- The channels and the wait group of `Create`: four goroutines read and send, `Create` receives from
-- the channels in their order, and a last goroutine closes them when the wait group lets it. The
-- counter of the wait group is apart from the goroutines. A send on a closed channel and a counter
-- below zero panic.
use kredit_plus.Base.{
  ℕ, zero, suc, ◌+◌, ◌≤◌, Bool, true, false, List, [], ◌∷◌, ◌++◌, All, ◌≡◌, refl, sym, ap, ◌∙◌,
  subst, ◌⊎◌, inl, inr, arith, Bool-cases,
}

-- A goroutine reads, its result waits in the send, it was received of, or it has called `wg.Done()`.
pub data Phase : Type 0 where
  reading sending received ended : Phase

pub record Channels : Type 0 where
  -- the goroutines, in the order of the receives
  pub phases : List Phase
  -- the counter of the wait group
  pub counter : ℕ
  pub closed : Bool
  pub panicked : Bool

abbrev all_reading : ℕ → List Phase
all_reading zero = []
all_reading (suc n) = reading ∷ all_reading n

-- `wg.Add(added)`, and the goroutines are started
abbrev started : ℕ → ℕ → Channels
started goroutines added = record {
  phases = all_reading goroutines;
  counter = added;
  closed = false;
  panicked = false;
}

-- `wg.Add(4)`, and four goroutines
unfoldable pub gathering : Channels
gathering = started 4 4

-- it was received of
abbrev pub IsPast : Phase → Type 0
IsPast reading = ⊥
IsPast sending = ⊥
IsPast received = Unit
IsPast ended = Unit

pub data Step : Channels → Channels → Type 0 where
  -- a read ends, of any goroutine
  reads :
      (before after : List Phase) (n : ℕ) (c : Bool)
      → Step
          (record { phases = before ++ reading ∷ after; counter = n; closed = c; panicked = false })
          (record { phases = before ++ sending ∷ after; counter = n; closed = c; panicked = false })
  -- the next result is received
  receives :
      (before after : List Phase) (n : ℕ)
      → All IsPast before
      → Step
          (record {
            phases = before ++ sending ∷ after;
            counter = n;
            closed = false;
            panicked = false;
          })
          (record {
            phases = before ++ received ∷ after;
            counter = n;
            closed = false;
            panicked = false;
          })
  -- a send on a closed channel
  send_panics :
      (before after : List Phase) (n : ℕ)
      → Step
          (record {
            phases = before ++ sending ∷ after;
            counter = n;
            closed = true;
            panicked = false;
          })
          (record {
            phases = before ++ sending ∷ after;
            counter = n;
            closed = true;
            panicked = true;
          })
  -- a goroutine that was received of ends: `wg.Done()`
  ends :
      (before after : List Phase) (n : ℕ) (c : Bool)
      → Step
          (record {
            phases = before ++ received ∷ after;
            counter = suc n;
            closed = c;
            panicked = false;
          })
          (record { phases = before ++ ended ∷ after; counter = n; closed = c; panicked = false })
  -- `wg.Done()` on a counter of zero
  done_panics :
      (before after : List Phase) (c : Bool)
      → Step
          (record {
            phases = before ++ received ∷ after;
            counter = 0;
            closed = c;
            panicked = false;
          })
          (record { phases = before ++ received ∷ after; counter = 0; closed = c; panicked = true })
  -- `wg.Wait()` is over, and the channels are closed
  closes :
      (ws : List Phase)
      → Step
          (record { phases = ws; counter = 0; closed = false; panicked = false })
          (record { phases = ws; counter = 0; closed = true; panicked = false })

-- `k` steps from the start
pub data Reach : ℕ → Channels → Type 0 where
  start : Reach 0 gathering
  later : {k : ℕ} {s t : Channels} → Reach k s → Step s t → Reach (suc k) t

abbrev pub IsEnded : Phase → Type 0
IsEnded ended = Unit
IsEnded _ = ⊥

-- The goroutines have ended, and the channels are closed.
abbrev pub IsOver : Channels → Type 0
IsOver s = All IsEnded s.phases × (s.counter ≡ 0) × (s.closed ≡ true)

-- the goroutines that have not ended
abbrev live : List Phase → ℕ
live [] = 0
live (ended ∷ ws) = live ws
live (_ ∷ ws) = suc (live ws)

-- what is left to do
abbrev left : List Phase → ℕ
left [] = 0
left (reading ∷ ws) = 3 + left ws
left (sending ∷ ws) = 2 + left ws
left (received ∷ ws) = 1 + left ws
left (ended ∷ ws) = left ws

abbrev open_left : Bool → ℕ
open_left true = 0
open_left false = 1

abbrev work : Channels → ℕ
work s = left s.phases + open_left s.closed

-- The counter counts the goroutines that have not ended, and the channels are closed at zero.
record IsWaited (s : Channels) : Type 0 where
  counted : live s.phases ≡ s.counter
  over : s.closed ≡ true → s.counter ≡ 0
  alive : s.panicked ≡ false

live-append : (xs ys : List Phase) → live (xs ++ ys) ≡ live xs + live ys
live-append [] ys = omega arith
live-append (reading ∷ xs) ys = omega (arith, live-append xs ys)
live-append (sending ∷ xs) ys = omega (arith, live-append xs ys)
live-append (received ∷ xs) ys = omega (arith, live-append xs ys)
live-append (ended ∷ xs) ys = live-append xs ys

left-append : (xs ys : List Phase) → left (xs ++ ys) ≡ left xs + left ys
left-append [] ys = omega arith
left-append (reading ∷ xs) ys = omega (arith, left-append xs ys)
left-append (sending ∷ xs) ys = omega (arith, left-append xs ys)
left-append (received ∷ xs) ys = omega (arith, left-append xs ys)
left-append (ended ∷ xs) ys = left-append xs ys

-- A step keeps the counter right, does not panic, and does one piece of the work.
Step-IsWaited : (s t : Channels) → Step s t → IsWaited s → IsWaited t × (work s ≡ suc (work t))
Step-IsWaited s t (Step.reads before after n c) i = (
  record {
    counted = omega (
      arith,
      i.counted,
      live-append before (reading ∷ after),
      live-append before (sending ∷ after),
    );
    over = i.over;
    alive = refl;
  },
  omega (arith, left-append before (reading ∷ after), left-append before (sending ∷ after)),
)
Step-IsWaited s t (Step.receives before after n past) i = (
  record {
    counted = omega (
      arith,
      i.counted,
      live-append before (sending ∷ after),
      live-append before (received ∷ after),
    );
    over = i.over;
    alive = refl;
  },
  omega (arith, left-append before (sending ∷ after), left-append before (received ∷ after)),
)
Step-IsWaited s t (Step.send_panics before after n) i =
    absurd (omega (arith, i.counted, i.over refl, live-append before (sending ∷ after)))
Step-IsWaited s t (Step.ends before after n c) i = (
  record {
    counted = omega (
      arith,
      i.counted,
      live-append before (received ∷ after),
      live-append before (ended ∷ after),
    );
    over = λ h. absurd (omega (arith, i.over h));
    alive = refl;
  },
  omega (arith, left-append before (received ∷ after), left-append before (ended ∷ after)),
)
Step-IsWaited s t (Step.done_panics before after c) i =
    absurd (omega (arith, i.counted, live-append before (received ∷ after)))
Step-IsWaited s t (Step.closes ws) i =
    (record { counted = i.counted; over = λ _. refl; alive = refl }, omega arith)

reached : (k : ℕ) (s : Channels) → Reach k s → IsWaited s × (k + work s ≡ 13)
unfolding gathering
reached k s start = (record { counted = refl; over = λ h. cc; alive = refl }, refl)
reached k t (later {k = j} {s = s} r step) =
    let (i, e) = reached j s r in
    let (i', w) = Step-IsWaited s t step i in (i', omega (arith, e, w))

-- the first goroutine that has not ended
record Next (ws : List Phase) : Type 0 where
  before : List Phase
  phase : Phase
  after : List Phase
  split : ws ≡ before ++ phase ∷ after
  past : All IsPast before
  busy : ¬ (IsEnded phase)

next : (ws : List Phase) → All IsEnded ws ⊎ Next ws
next [] = inl tt
next (ended ∷ ws) = elim (next ws) [
  | inl a ↦ inl (tt, a)
  | inr x ↦ inr (record {
    before = ended ∷ x.before;
    phase = x.phase;
    after = x.after;
    split = ap (λ ys. ended ∷ ys) x.split;
    past = (tt, x.past);
    busy = x.busy;
  })
]
next (reading ∷ ws) =
    inr
      (record { before = []; phase = reading; after = ws; split = refl; past = tt; busy = λ h. h })
next (sending ∷ ws) =
    inr
      (record { before = []; phase = sending; after = ws; split = refl; past = tt; busy = λ h. h })
next (received ∷ ws) =
    inr
      (record { before = []; phase = received; after = ws; split = refl; past = tt; busy = λ h. h })

abbrev channels : List Phase → ℕ → Bool → Channels
channels ws n c = record { phases = ws; counter = n; closed = c; panicked = false }

-- a goroutine that has not ended can go on
busy_goes_on :
    (before after : List Phase) (x : Phase) (n : ℕ) (c : Bool)
    → All IsPast before
    → ¬ (IsEnded x)
    → IsWaited (channels (before ++ x ∷ after) n c)
    → (t : Channels) × Step (channels (before ++ x ∷ after) n c) t
busy_goes_on before after reading n c past busy i = (_, Step.reads before after n c)
busy_goes_on before after sending n false past busy i = (_, Step.receives before after n past)
busy_goes_on before after sending n true past busy i = (_, Step.send_panics before after n)
busy_goes_on before after received zero c past busy i = (_, Step.done_panics before after c)
busy_goes_on before after received (suc n) c past busy i = (_, Step.ends before after n c)
busy_goes_on before after ended n c past busy i = absurd (busy tt)

live_none : (ws : List Phase) → All IsEnded ws → live ws ≡ 0
live_none [] a = refl
live_none (ended ∷ ws) a = live_none ws a.1
live_none (reading ∷ ws) a = absurd a.0
live_none (sending ∷ ws) a = absurd a.0
live_none (received ∷ ws) a = absurd a.0

none_live : (ws : List Phase) → live ws ≡ 0 → All IsPast ws
none_live [] h = tt
none_live (ended ∷ ws) h = (tt, none_live ws h)
none_live (reading ∷ ws) h = absurd (omega (arith, h))
none_live (sending ∷ ws) h = absurd (omega (arith, h))
none_live (received ∷ ws) h = absurd (omega (arith, h))

goes_on :
    (ws : List Phase) (n : ℕ) (c : Bool)
    → IsWaited (channels ws n c)
    → IsOver (channels ws n c) ⊎ ((t : Channels) × Step (channels ws n c) t)
goes_on ws n c i = elim (next ws) [
  | inl a ↦ all_ended c n a (sym i.counted ∙ live_none ws a)
  | inr x ↦ inr (
      subst (λ ys. (t : Channels) × Step (channels ys n c) t) (sym x.split)
        (busy_goes_on x.before x.after x.phase n c x.past x.busy
          (subst (λ ys. IsWaited (channels ys n c)) x.split i)))
]
  where
    all_ended :
        (c : Bool) (n : ℕ)
        → All IsEnded ws
        → n ≡ 0
        → IsOver (channels ws n c) ⊎ ((t : Channels) × Step (channels ws n c) t)
    all_ended true n a z = inl (a, z, refl)
    all_ended false zero a z = inr (_, Step.closes ws)
    all_ended false (suc n) a z = absurd (omega (arith, z))

received_when_closed : (s : Channels) → IsWaited s → (s.closed ≡ false) ⊎ All IsPast s.phases
received_when_closed s i = elim (Bool-cases s.closed) [
  | inl y ↦ inr (none_live s.phases (i.counted ∙ i.over y))
  | inr z ↦ inl z
]

can_go :
    (ws : List Phase) (n : ℕ) (c b : Bool)
    → let s : Channels = record { phases = ws; counter = n; closed = c; panicked = b } in
      IsWaited s → IsOver s ⊎ ((t : Channels) × Step s t)
can_go ws n c true i = absurd (cc i.alive)
can_go ws n c false i = goes_on ws n c i

-- However the four goroutines are scheduled, they are done within thirteen steps, nothing panics, no
-- channel is closed before `Create` has received of all, and until all is over some step is possible:
-- no goroutine waits for ever.
pub gathering_ends :
    (k : ℕ) (s : Channels)
    → Reach k s
    → (k ≤ 13)
      × (s.panicked ≡ false)
      × ((s.closed ≡ false) ⊎ All IsPast s.phases)
      × (IsOver s ⊎ ((t : Channels) × Step s t))
gathering_ends k s r =
    let (i, e) = reached k s r in
    (
      omega (arith, e),
      i.alive,
      received_when_closed s i,
      can_go s.phases s.counter s.closed s.panicked i,
    )
