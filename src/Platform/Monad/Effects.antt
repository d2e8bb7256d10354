-- ===== src/Platform/Monad/Effects.antt =====
-- Three properties of a call, each with a rule for every operator: it leaves the tables alone; it
-- leaves them alone when it fails; it keeps a property of the tables.
use kredit_plus.Base.{
  ℕ, Bool, true, false, String, List, none, some, ◌≡◌, refl, sym, ap, subst, ◌∙◌, inl, inr, arith,
  if◌then◌else◌,
}
use kredit_plus.Time.{Time}
use kredit_plus.Entity.Error.{Uuid, Error, wrapped}
use kredit_plus.Platform.Table.{Result, ok, err, Fetch, found, missing, failed}
use kredit_plus.Platform.World.{Db, World, Platform}
use kredit_plus.Platform.Monad.{
  M, pure, raise, ◌>>=◌, ◌>>◌, wrap, fail_if, read, query, write, optional, step, transaction,
  attempt, ignore, now, new_uuid, cache_get, cache_set, cache_del,
}
use kredit_plus.Platform.Monad.Outcomes.{
  Result-cases, after_bind, transaction-err, transaction-keeps,
}

module _ {A : Type 0} where
  pub record ReadOnly (m : M A) : Type 0 where
    pub at : (w : World) → (m w).1.db ≡ w.db

  pub record Atomic (m : M A) : Type 0 where
    pub at : (w : World) (e : Error) → (m w).0 ≡ err e → (m w).1.db ≡ w.db

  pub record Keeps {ℓ} (P : Db → Type ℓ) (m : M A) : Type ℓ where
    pub at : (w : World) → P w.db → P (m w).1.db

module _ {A : Type 0} where
  pub ReadOnly-pure : (a : A) → ReadOnly (pure a)
  unfolding pure
  ReadOnly-pure a = record { at = λ w. refl }

  pub ReadOnly-raise : (e : Error) → ReadOnly (raise {A = A} e)
  unfolding raise
  ReadOnly-raise e = record { at = λ w. refl }

  pub ReadOnly-read : (f : Db → ℕ → A) → ReadOnly (read f)
  unfolding read
  ReadOnly-read f = record { at = λ w. refl }

  pub ReadOnly-query : (f : Db → ℕ → Result A) → ReadOnly (query f)
  unfolding query
  ReadOnly-query f = record { at = λ w. refl }

  pub ReadOnly-wrap : (text : String) (m : M A) → ReadOnly m → ReadOnly (wrap text m)
  unfolding wrap
  ReadOnly-wrap text m h = record { at = λ w. ground (arith, h.at w) }

  pub ReadOnly-attempt : (m : M A) → ReadOnly m → ReadOnly (attempt m)
  unfolding attempt
  ReadOnly-attempt m h = record { at = λ w. h.at w }

pub ReadOnly-optional : {E : Type 0} (text : String) (r : Fetch E) → ReadOnly (optional text r)
unfolding optional
ReadOnly-optional text (found e) = ReadOnly-pure (some e)
ReadOnly-optional text missing = ReadOnly-pure none
ReadOnly-optional text (failed e) = ReadOnly-raise (wrapped text e)

pub ReadOnly-fail_if : (c : Bool) (e : Error) → ReadOnly (fail_if c e)
unfolding fail_if
ReadOnly-fail_if true e = record { at = λ w. refl }
ReadOnly-fail_if false e = record { at = λ w. refl }

pub ReadOnly-ignore : (m : M Unit) → ReadOnly m → ReadOnly (ignore m)
unfolding ignore
ReadOnly-ignore m h = record { at = λ w. h.at w }

module _ {A B : Type 0} (m : M A) (f : A → M B) where
  pub ReadOnly-bind : ReadOnly m → ((a : A) → ReadOnly (f a)) → ReadOnly (m >>= f)
  unfolding ◌>>=◌
  ReadOnly-bind hm hf = record {
    at = λ w. elim (Result-cases (m w).0) [
      | inl (a, e) ↦ ground (arith, hm.at w, (hf a).at (m w).1)
      | inr (x, e) ↦ ground (arith, hm.at w)
    ];
  }

  pub Atomic-bind : ReadOnly m → ((a : A) → Atomic (f a)) → Atomic (m >>= f)
  unfolding ◌>>=◌
  Atomic-bind hm hf = record {
    at = λ w x h. elim (Result-cases (m w).0) [
      | inl (a, e) ↦ ground (arith, hm.at w, (hf a).at (m w).1 x)
      | inr (y, e) ↦ ground (arith, hm.at w)
    ];
  }

  pub Keeps-bind {ℓ} : (P : Db → Type ℓ) → Keeps P m → ((a : A) → Keeps P (f a)) → Keeps P (m >>= f)
  unfolding ◌>>=◌
  Keeps-bind P hm hf = record { at = λ w h. go (m w) (hm.at w h) }
    where
      go :
          (r : Result A × World)
          → P r.1.db
          → P
              (let (x, w1) = r in
                elim x as (λ _. Result B × World) [ ok a ↦ f a w1 | err e ↦ (err e, w1) ]).1.db
      go (ok a, w1) h = (hf a).at w1 h
      go (err e, w1) h = h

module _ {B : Type 0} (m : M Unit) (n : M B) where
  pub ReadOnly-then : ReadOnly m → ReadOnly n → ReadOnly (m >> n)
  unfolding ◌>>◌
  ReadOnly-then hm hn = ReadOnly-bind m (λ _. n) hm (λ _. hn)

  pub Atomic-then : ReadOnly m → Atomic n → Atomic (m >> n)
  unfolding ◌>>◌
  Atomic-then hm hn = Atomic-bind m (λ _. n) hm (λ _. hn)

  pub Keeps-then {ℓ} : (P : Db → Type ℓ) → Keeps P m → Keeps P n → Keeps P (m >> n)
  unfolding ◌>>◌
  Keeps-then P hm hn = Keeps-bind m (λ _. n) P hm (λ _. hn)

module _ {A : Type 0} (c : Bool) (m n : M A) where
  pub ReadOnly-if : ReadOnly m → ReadOnly n → ReadOnly (if c then m else n)
  ReadOnly-if hm hn = elim c as (λ b. ReadOnly (if b then m else n)) [ true ↦ hm | false ↦ hn ]

  pub Atomic-if : Atomic m → Atomic n → Atomic (if c then m else n)
  Atomic-if hm hn = elim c as (λ b. Atomic (if b then m else n)) [ true ↦ hm | false ↦ hn ]

module _ {A : Type 0} (m : M A) where
  pub Atomic-of_ReadOnly : ReadOnly m → Atomic m
  Atomic-of_ReadOnly h = record { at = λ w e _. h.at w }

  pub Keeps-of_ReadOnly {ℓ} : (P : Db → Type ℓ) → ReadOnly m → Keeps P m
  Keeps-of_ReadOnly P h = record { at = λ w k. subst P (sym (h.at w)) k }

  pub Atomic-wrap : (text : String) → Atomic m → Atomic (wrap text m)
  unfolding wrap
  Atomic-wrap text h = record {
    at = λ w e k. elim (Result-cases (m w).0) [
      | inl (a, eq) ↦ ground arith
      | inr (x, eq) ↦ ground (arith, h.at w x eq)
    ];
  }

  pub Keeps-wrap {ℓ} : (P : Db → Type ℓ) (text : String) → Keeps P m → Keeps P (wrap text m)
  unfolding wrap
  Keeps-wrap P text h = record { at = λ w k. go (m w) (h.at w k) }
    where
      go :
          (r : Result A × World)
          → P r.1.db
          → P
              (let (x, w1) = r in
                elim x as (λ _. Result A × World) [
                  | ok a ↦ (ok a, w1)
                  | err e ↦ (err (wrapped text e), w1)
                ]).1.db
      go (ok a, w1) q = q
      go (err e, w1) q = q

  pub Atomic-transaction : (p : Platform) → Atomic (transaction p m)
  Atomic-transaction p = record {
    at = λ w e h. transaction-err p m w (ap (λ r. (r, (transaction p m w).1)) h);
  }

  pub Keeps-transaction {ℓ} :
      (P : Db → Type ℓ) (p : Platform) → Keeps P m → Keeps P (transaction p m)
  Keeps-transaction P p h = record { at = λ w k. transaction-keeps P p m w (h.at (step w)) k }

  -- a call that leaves the tables alone when it fails, and keeps the property when it succeeds
  pub Keeps-of_ok {ℓ} :
      (P : Db → Type ℓ)
      → Atomic m
      → ((w : World) (a : A) (w' : World) → m w ≡ (ok a, w') → P w.db → P w'.db)
      → Keeps P m
  Keeps-of_ok P atomic k = record {
    at = λ w h. elim (Result-cases (m w).0) [
      | inl (a, e) ↦ k w a (m w).1 (ap (λ r. (r, (m w).1)) e) h
      | inr (x, e) ↦ subst P (sym (atomic.at w x e)) h
    ];
  }

module _ {B : Type 0} (m : M Unit) (b : B) where
  -- nothing fails behind the last write
  pub Atomic-then_pure : Atomic m → Atomic (m >> pure b)
  unfolding ◌>>◌ ◌>>=◌ pure
  Atomic-then_pure h = record {
    at = λ w e k. elim (Result-cases (m w).0) [
      | inl (a, eq) ↦ ground arith
      | inr (x, eq) ↦ ground (arith, h.at w x eq)
    ];
  }

-- A write keeps what the new rows do not break.
pub Keeps-write {ℓ} :
    {E : Type 0} (P : Db → Type ℓ) (f : Db → ℕ → Result (List E)) (put : List E → Db → Db)
    → ((db : Db) (n : ℕ) (rows : List E) → f db n ≡ ok rows → P db → P (put rows db))
    → Keeps P (write f put)
unfolding write
Keeps-write {E} P f put k = record { at = λ w h. go w h (f w.db w.tick) refl }
  where
    go :
        (w : World)
        → P w.db
        → (r : Result (List E)) → f w.db w.tick ≡ r
        → P (
            (elim r as (λ _. Result Unit × World) [
              | ok rows ↦ (ok tt, record (step w) { db = put rows w.db })
              | err e ↦ (err e, step w)
            ]).1.db)
    go w h (ok rows) e = k w.db w.tick rows e h
    go w h (err x) e = h

module _ (p : Platform) where
  pub ReadOnly-now : ReadOnly (now p)
  unfolding now
  ReadOnly-now = record { at = λ w. refl }

  pub ReadOnly-new_uuid : ReadOnly (new_uuid p)
  unfolding new_uuid
  ReadOnly-new_uuid = record { at = λ w. refl }

  pub ReadOnly-cache_get : (key : String) → ReadOnly (cache_get p key)
  unfolding cache_get
  ReadOnly-cache_get key = record { at = λ w. ground arith }

  pub ReadOnly-cache_set : (key value : String) → ReadOnly (cache_set p key value)
  unfolding cache_set
  ReadOnly-cache_set key value = record { at = λ w. ground arith }

  pub ReadOnly-cache_del : (keys : List String) → ReadOnly (cache_del p keys)
  unfolding cache_del
  ReadOnly-cache_del keys = record { at = λ w. ground arith }

-- A call that leaves the tables alone, in front of the rest of a method.
module _ {ℓ} {B : Type 0} {G : Type ℓ} {w' : World} {b : B} where
  pub after_reads :
      {A : Type 0} (m : M A) (f : A → M B) (w : World)
      → ReadOnly m
      → (m >>= f) w ≡ (ok b, w')
      → ((a : A) (w1 : World) → m w ≡ (ok a, w1) → w1.db ≡ w.db → f a w1 ≡ (ok b, w') → G)
      → G
  after_reads {A} m f w r h k =
      after_bind m f w h
        λ a w1 e1 e2. k a w1 e1 (ap (λ (r : Result A × World). r.1.db) (sym e1) ∙ r.at w) e2

  -- a new identifier and the two times of a new row
  pub after_stamps :
      (p : Platform) (f : Uuid → Time → Time → M B) (w : World)
      → (new_uuid p >>= λ id. now p >>= λ created. now p >>= λ updated. f id created updated) w
        ≡ (ok b, w')
      → ((id : Uuid) (created updated : Time) (w1 : World)
          → w1.db ≡ w.db
          → f id created updated w1 ≡ (ok b, w')
          → G)
      → G
  unfolding new_uuid now ◌>>=◌
  after_stamps p f w h k = k _ _ _ _ refl h

pub ruleset read_rules = (
  ReadOnly-pure, ReadOnly-raise, ReadOnly-read, ReadOnly-query, ReadOnly-wrap, ReadOnly-attempt,
  ReadOnly-optional, ReadOnly-fail_if, ReadOnly-ignore, ReadOnly-bind, ReadOnly-then, ReadOnly-now,
  ReadOnly-new_uuid, ReadOnly-cache_get, ReadOnly-cache_set, ReadOnly-cache_del,
)

pub ruleset atomic_rules =
    (Atomic-bind, Atomic-then, Atomic-then_pure, Atomic-wrap, Atomic-transaction, read_rules)

pub ruleset keeps_rules = (Keeps-bind, Keeps-then, Keeps-wrap, Keeps-of_ReadOnly, read_rules)
