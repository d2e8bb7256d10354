-- ===== src/Platform/Redis.antt =====
-- go-redis, as functions of the cache's entries and of the number of the call. A call may fail at
-- any time, and a read may miss an entry that has expired.
use kredit_plus.Base.{ℕ, List, String, Option, none, ◌≡◌, ◌⊎◌}
use kredit_plus.Entity.Error.{Error}
use kredit_plus.Platform.Table.{Result, ok, In}

abbrev pub Entries : Type 0
Entries = List (String × String)

-- `set` and `del` give the entries that the call leaves, also where it reports an error.
pub record Redis : Type 0 where
  pub get : String → Entries → ℕ → Result String
  pub set : String → String → Entries → ℕ → Option Error × Entries
  pub del : List String → Entries → ℕ → Option Error × Entries

pub record IsRedis (r : Redis) : Type 0 where
  pub get_ok : (k v : String) (c : Entries) (n : ℕ) → r.get k c n ≡ ok v → In (k, v) c
  pub set_entries :
      (k v : String) (c : Entries) (n : ℕ) (e : String × String)
      → In e (r.set k v c n).1
      → (e ≡ (k, v)) ⊎ In e c
  pub del_entries :
      (ks : List String) (c : Entries) (n : ℕ) (e : String × String)
      → In e (r.del ks c n).1
      → In e c
  pub del_ok :
      (ks : List String) (c : Entries) (n : ℕ) (k v : String)
      → (r.del ks c n).0 ≡ none
      → In k ks
      → ¬ (In (k, v) (r.del ks c n).1)
