-- ===== src/Platform/Monad.antt =====
-- A method call: it reads and writes the world and returns a value or an error, as Go's pairs
-- `(value, error)` do. The world comes back beside an error too.
pub mod Outcomes
pub mod Effects
pub mod Failures
pub mod Leads
pub mod Success
use kredit_plus.Base.{ℕ, ◌+◌, Bool, true, false, List, String, Option, none, some}
use kredit_plus.Time.{Time}
use kredit_plus.Entity.Error.{Uuid, Error, message, wrapped}
use kredit_plus.Platform.Table.{Result, ok, err, Fetch, found, missing, failed}
use kredit_plus.Platform.Redis.{Entries}
use kredit_plus.Platform.World.{Db, World, Platform}

abbrev pub M : Type 0 → Type 0
M A = World → Result A × World

module _ {A : Type 0} where
  unfoldable pub pure : A → M A
  pure a w = (ok a, w)

  unfoldable pub raise : Error → M A
  raise e w = (err e, w)

  -- `return err` where the error was just got
  abbrev pub lift : Result A → M A
  lift r w = (r, w)

  -- `if err != nil { return fmt.Errorf("text: %w", err) }`
  unfoldable pub wrap : String → M A → M A
  wrap text m w =
      let (r, w') = m w in elim r [ ok a ↦ (ok a, w') | err e ↦ (err (wrapped text e), w') ]

infixl 5 ◌>>=◌ ◌>>◌
unfoldable pub ◌>>=◌ : {A B : Type 0} → M A → (A → M B) → M B
◌>>=◌ m f w = let (r, w') = m w in elim r [ ok a ↦ f a w' | err e ↦ (err e, w') ]

unfoldable pub ◌>>◌ : {B : Type 0} → M (Unit {0}) → M B → M B
m >> k = m >>= λ _. k

-- `if cond { return err }`
unfoldable pub fail_if : Bool → Error → M (Unit {0})
fail_if true e w = (err e, w)
fail_if false e w = (ok tt, w)

-- One more external call.
abbrev pub step : World → World
step w = record w { tick = w.tick + 1 }

-- `gorm.ErrRecordNotFound`
abbrev pub record_not_found : Error
record_not_found = message "record not found"

-- a statement whose answer is looked at by the caller
unfoldable pub read : {A : Type 0} → (Db → ℕ → A) → M A
read f w = (ok (f w.db w.tick), step w)

-- a statement that may fail
unfoldable pub query : {A : Type 0} → (Db → ℕ → Result A) → M A
query f w = (f w.db w.tick, step w)

-- a call whose error is handed on as a value
unfoldable pub attempt : {A : Type 0} → M A → M (Result A)
attempt m w = let (r, w') = m w in (ok r, w')

-- a statement that writes: `put` sets the rows of its table
unfoldable pub write : {E : Type 0} → (Db → ℕ → Result (List E)) → (List E → Db → Db) → M (Unit {0})
write f put w = elim (f w.db w.tick) [
  | ok rows ↦ (ok tt, record (step w) { db = put rows w.db })
  | err e ↦ (err e, step w)
]

-- the row that `First` gave, where a missing one is an error as any other
abbrev pub require : {E : Type 0} → Fetch E → Result E
require (found e) = ok e
require missing = err record_not_found
require (failed e) = err e

-- a read of one row where a missing one is `nil`: `return nil, nil`
unfoldable pub optional : {E : Type 0} → String → Fetch E → M (Option E)
optional text (found e) = pure (some e)
optional text missing = pure none
optional text (failed e) = raise (wrapped text e)

-- the commit's answer
commit : {A : Type 0} → Db → A → World → Option Error → Result A × World
commit db a w none = (ok a, step w)
commit db a w (some e) = (err e, record (step w) { db = db })

module _ (p : Platform) where
  -- `time.Now().UTC()`
  unfoldable pub now : M Time
  now w = (ok (p.now w.tick), step w)

  -- `uuid.New()`
  unfoldable pub new_uuid : M Uuid
  new_uuid w = (ok (p.new_uuid w.tick), step w)

  -- How a database transaction ends: an error, also of the commit, brings the tables back.
  unfoldable pub finish : {A : Type 0} → Db → Result A × World → Result A × World
  unfolding commit
  finish db (ok a, w) = commit db a w (p.commit w.tick)
  finish db (err e, w) = (err e, record w { db = db })

  started : {A : Type 0} → M A → World → Option Error → Result A × World
  unfolding finish
  started body w none = finish w.db (body (step w))
  started body w (some e) = (err e, step w)

  -- `Client.Transaction` of infra/mysql
  unfoldable pub transaction : {A : Type 0} → M A → M A
  unfolding started
  transaction body w = started body w (p.begin w.tick)

  -- `Client.Get` of infra/redis
  unfoldable pub cache_get : String → M String
  cache_get key w = elim (p.redis.get key w.cache w.tick) [
    | ok v ↦ (ok v, step w)
    | err e ↦ (err (wrapped "failed to get key from redis" e), step w)
  ]

  -- the outcome of a call of redis that changes the entries
  cache_result : String → Option Error × Entries → M (Unit {0})
  cache_result text (none, c) w = (ok tt, record (step w) { cache = c })
  cache_result text (some e, c) w = (err (wrapped text e), record (step w) { cache = c })

  -- `Client.Set` of infra/redis
  unfoldable pub cache_set : String → String → M (Unit {0})
  unfolding cache_result
  cache_set key value w =
      cache_result "failed to set key in redis" (p.redis.set key value w.cache w.tick) w

  -- `Client.Del` of infra/redis
  unfoldable pub cache_del : List String → M (Unit {0})
  unfolding cache_result
  cache_del keys w =
      cache_result "failed to delete keys from redis" (p.redis.del keys w.cache w.tick) w

-- a call whose error is logged and dropped
unfoldable pub ignore : M (Unit {0}) → M (Unit {0})
ignore m w = (ok tt, (m w).1)
