-- ===== src/Repository/Cached.antt =====
-- The read-through cache, which three methods of internal/repository write out alike: a hit that
-- decodes is the answer; else the database is read, and what is found is put into the cache. An entry
-- that does not decode is taken to leave the struct as it was: what json.Unmarshal may have written
-- into it by then, of which First would make a further condition, is not modelled.
use kredit_plus.Base.{String, Option, none, some, ◌≡◌, refl}
use kredit_plus.Platform.Table.{Result, ok, err}
use kredit_plus.Platform.World.{World, Platform}
use kredit_plus.Platform.Monad.Effects.{after_reads}
use kredit_plus.Platform.Monad.Outcomes.{after_bind, after_step, pure-ok}
use kredit_plus.Platform.Monad.Effects.{
  ReadOnly, ReadOnly-pure, ReadOnly-bind, ReadOnly-then, read_rules,
}
use kredit_plus.Platform.Monad.{M, pure, ◌>>=◌, ◌>>◌, attempt, cache_get, cache_set, ignore}

-- the cached text, where there is one that decodes
decoded : {E : Type 0} → (String → Option E) → Result String → Option E
decoded unmarshal (ok text) = unmarshal text
decoded unmarshal (err e) = none

module _ (p : Platform) where
  -- a text that did not encode is not cached
  remember_text : String → Option String → M (Unit {0})
  remember_text key none = pure tt
  remember_text key (some text) = ignore (cache_set p key text)

  remember : {E : Type 0} → String → (E → Option String) → Option E → M (Option E)
  unfolding remember_text
  remember key marshal none = pure none
  remember key marshal (some e) = do remember_text key (marshal e); pure (some e)

  or_load : {E : Type 0} → String → (E → Option String) → M (Option E) → Option E → M (Option E)
  unfolding remember
  or_load key marshal load (some e) = pure (some e)
  or_load key marshal load none = do row ← load; remember key marshal row

  unfoldable pub through_cache :
      {E : Type 0}
      → String
      → (String → Option E)
      → (E → Option String)
      → M (Option E)
      → M (Option E)
  unfolding decoded or_load
  through_cache key unmarshal marshal load = do
    cached ← attempt (cache_get p key)
    or_load key marshal load (decoded unmarshal cached)

  remember_text-ReadOnly : (key : String) (text : Option String) → ReadOnly (remember_text key text)
  unfolding remember_text
  remember_text-ReadOnly key none = search read_rules
  remember_text-ReadOnly key (some text) = search read_rules

  remember-ReadOnly :
      {E : Type 0} (key : String) (marshal : E → Option String) (row : Option E)
      → ReadOnly (remember key marshal row)
  unfolding remember
  remember-ReadOnly key marshal none = search read_rules
  remember-ReadOnly key marshal (some e) =
      ReadOnly-then _ _ (remember_text-ReadOnly key (marshal e)) (ReadOnly-pure (some e))

  or_load-ReadOnly :
      {E : Type 0} (key : String) (marshal : E → Option String) (load : M (Option E))
      (hit : Option E)
      → ReadOnly load
      → ReadOnly (or_load key marshal load hit)
  unfolding or_load
  or_load-ReadOnly key marshal load (some e) h = ReadOnly-pure (some e)
  or_load-ReadOnly key marshal load none h =
      ReadOnly-bind _ _ h (λ row. remember-ReadOnly key marshal row)

  -- The cached read leaves the tables alone if the read of the database does.
  pub through_cache-ReadOnly :
      {E : Type 0} (key : String) (unmarshal : String → Option E) (marshal : E → Option String)
      (load : M (Option E))
      → ReadOnly load
      → ReadOnly (through_cache key unmarshal marshal load)
  unfolding through_cache
  through_cache-ReadOnly key unmarshal marshal load h =
      ReadOnly-bind _ _ (search read_rules) (λ c. or_load-ReadOnly key marshal load _ h)

  -- what is remembered is what is handed on
  remember-none :
      {E : Type 0} (key : String) (marshal : E → Option String) (row : Option E) (w : World)
      {w' : World}
      → remember key marshal row w ≡ (ok none, w')
      → row ≡ none
  unfolding remember
  remember-none key marshal none w h = refl
  remember-none key marshal (some e) w h =
      after_step _ _ w h λ w1 e1 e2. let q = (pure-ok _ _ e2).0 in cc

  or_load-none :
      {E : Type 0} (key : String) (marshal : E → Option String) (load : M (Option E))
      (hit : Option E) (w : World) {w' : World}
      → or_load key marshal load hit w ≡ (ok none, w')
      → (w1 : World) × (load w ≡ (ok none, w1))
  unfolding or_load
  or_load-none key marshal load (some e) w h = let q = (pure-ok _ _ h).0 in cc
  or_load-none key marshal load none w h =
      after_bind _ _ w h λ row w1 e1 e2. (w1, cc (e1, remember-none key marshal row w1 e2))

  -- A cached read finds nothing only where the read of the database, of the same tables, does.
  pub through_cache-none :
      {E : Type 0} (key : String) (unmarshal : String → Option E) (marshal : E → Option String)
      (load : M (Option E)) (w : World) {w' : World}
      → through_cache key unmarshal marshal load w ≡ (ok none, w')
      → (w1 : World) × (w1.db ≡ w.db) × ((w2 : World) × (load w1 ≡ (ok none, w2)))
  unfolding through_cache
  through_cache-none key unmarshal marshal load w h =
      after_reads _ _ w (search read_rules) h
        λ c w1 e1 same e2. (w1, same, or_load-none key marshal load _ w1 e2)
