-- ===== src/Tests/Concurrency.antt =====
-- What runs at the same time, in the small shop.
use kredit_plus.Base.{All, ◌≤◌, pos, false, [], ◌∷◌, none, ◌≡◌, refl, ◌⊎◌}
use kredit_plus.Float.{of_int, lt, zero_float}
use kredit_plus.Platform.Table.{ok}
use kredit_plus.Platform.World.{World}
use kredit_plus.Service.Gathering.{Received, gather, run_goroutines}
use kredit_plus.Service.Gathering.Held.{IsGathered, gather-IsGathered}
use kredit_plus.Service.Gathering.Channels.{
  reading, sending, Channels, gathering, IsPast, Step, Reach, start, later, IsOver, gathering_ends,
}
use kredit_plus.Invariant.{WithinLimits}
use kredit_plus.Concurrent.{Method, run_method, Steps, stay, then_method}
use kredit_plus.Concurrent.Calls.{serve-Steps}
use kredit_plus.Concurrent.Limits.{interleaved-WithinLimits}
use kredit_plus.Handler.Routes.{create_limit, serve}
use kredit_plus.Tests.Memory.{memory, memory-IsPlatform}
use kredit_plus.Tests.Fixtures.{shop, order}
use kredit_plus.Tests.Web.{web, request}

-- the limits of the shop are not used
shop-WithinLimits : WithinLimits shop.db
unfolding lt of_int zero_float
shop-WithinLimits = (refl, tt)

-- two charges, which fit one by one and not together
abbrev first_charge : World
first_charge = run_method memory (Method.charge_limit 5 (of_int (pos 3000))) shop

abbrev second_charge : World
second_charge = run_method memory (Method.charge_limit 5 (of_int (pos 4000))) first_charge

both_charges : Steps memory shop.db second_charge.db
both_charges =
    then_method first_charge (Method.charge_limit 5 (of_int (pos 4000))) tt
      (then_method shop (Method.charge_limit 5 (of_int (pos 3000))) tt stay)

interleaved-WithinLimits_example : WithinLimits second_charge.db
interleaved-WithinLimits_example =
    interleaved-WithinLimits memory memory-IsPlatform shop.db second_charge.db both_charges
      shop-WithinLimits

serve-Steps_example :
    Steps memory shop.db (serve memory web create_limit (request "5" "six") shop).1.db
serve-Steps_example = serve-Steps memory web create_limit (request "5" "six") shop

abbrev received : Received
received =
    (run_goroutines memory order (memory.schedule shop.tick)
      (record { contract = ok none; customer = ok none; asset = ok none; limit = ok none }, shop)).0

gather-IsGathered_example : IsGathered memory order shop.db received
unfolding gather
gather-IsGathered_example = gather-IsGathered memory order memory-IsPlatform shop refl

-- the third read ends first
abbrev third_read : Channels
third_read = record {
  phases = reading ∷ reading ∷ sending ∷ reading ∷ [];
  counter = 4;
  closed = false;
  panicked = false;
}

third_first : Reach 1 third_read
unfolding gathering
third_first = later start (Step.reads (reading ∷ reading ∷ []) (reading ∷ []) 4 false)

gathering_ends_example :
    (1 ≤ 13)
    × (third_read.panicked ≡ false)
    × ((third_read.closed ≡ false) ⊎ All IsPast third_read.phases)
    × (IsOver third_read ⊎ ((t : Channels) × Step third_read t))
gathering_ends_example = gathering_ends 1 third_read third_first
