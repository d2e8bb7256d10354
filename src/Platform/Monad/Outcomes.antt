-- ===== src/Platform/Monad/Outcomes.antt =====
-- Inversion of the operators that the methods are written with: from how a call ended to how its
-- parts did.
use kredit_plus.Base.{
  ℕ, Bool, true, false, String, List, Option, none, some, ◌≡◌, refl, sym, ap, subst, ◌⊎◌, inl, inr,
}
use kredit_plus.Entity.Error.{Error, wrapped}
use kredit_plus.Platform.Table.{Result, ok, err, Fetch, found, missing, failed}
use kredit_plus.Platform.World.{Db, World, Platform}
use kredit_plus.Platform.Monad
use kredit_plus.Platform.Monad.{
  M, pure, raise, ◌>>=◌, ◌>>◌, wrap, fail_if, read, query, write, require, optional, step, finish,
  transaction, attempt, ignore,
}

pub Result-cases :
    {A : Type 0} (r : Result A) → ((a : A) × (r ≡ ok a)) ⊎ ((e : Error) × (r ≡ err e))
Result-cases (ok a) = inl (a, refl)
Result-cases (err e) = inr (e, refl)

pub >>=-ok :
    {A B : Type 0} (m : M A) (f : A → M B) (w : World) {b : B} {w' : World}
    → (m >>= f) w ≡ (ok b, w')
    → (a : A) × (w1 : World) × (m w ≡ (ok a, w1)) × (f a w1 ≡ (ok b, w'))
unfolding ◌>>=◌
>>=-ok {A} {B} m f w {b} {w'} = go (m w) refl
  where
    go :
        (r : Result A × World)
        → m w ≡ r
        → (let (x, w1) = r in
            elim x as (λ _. Result B × World) [ ok a ↦ f a w1 | err e ↦ (err e, w1) ])
          ≡ (ok b, w')
        → (a : A) × (w1 : World) × (m w ≡ (ok a, w1)) × (f a w1 ≡ (ok b, w'))
    go (ok a, w1) e h = (a, w1, e, h)
    go (err e, w1) _ h = cc

pub >>=-of_ok :
    {A B : Type 0} (m : M A) (f : A → M B) (w : World) {a : A} {w1 : World}
    → m w ≡ (ok a, w1)
    → (m >>= f) w ≡ f a w1
unfolding ◌>>=◌
>>=-of_ok {A} {B} m f w e =
    ap
      (λ (r : Result A × World).
        let (x, w1) = r in
        elim x as (λ _. Result B × World) [ ok a ↦ f a w1 | err e ↦ (err e, w1) ])
      e

pub >>-ok :
    {B : Type 0} (m : M Unit) (k : M B) (w : World) {b : B} {w' : World}
    → (m >> k) w ≡ (ok b, w')
    → (w1 : World) × (m w ≡ (ok tt, w1)) × (k w1 ≡ (ok b, w'))
unfolding ◌>>◌
>>-ok m k w h = let (u, w1, e, h1) = >>=-ok m (λ _. k) w h in (w1, e, h1)

pub wrap-ok :
    {A : Type 0} (text : String) (m : M A) (w : World) {a : A} {w' : World}
    → wrap text m w ≡ (ok a, w')
    → m w ≡ (ok a, w')
unfolding wrap
wrap-ok {A} text m w {a} {w'} = go (m w)
  where
    go :
        (r : Result A × World)
        → (let (x, w1) = r in
            elim x as (λ _. Result A × World) [
              | ok a ↦ (ok a, w1)
              | err e ↦ (err (wrapped text e), w1)
            ])
          ≡ (ok a, w')
        → r ≡ (ok a, w')
    go (ok b, w1) h = h
    go (err e, w1) h = cc

pub fail_if-ok :
    (c : Bool) (e : Error) (w : World) {u : Unit} {w' : World}
    → fail_if c e w ≡ (ok u, w')
    → (c ≡ false) × (w' ≡ w)
unfolding fail_if
fail_if-ok true e w h = cc
fail_if-ok false e w h = (refl, cc)

pub pure-ok :
    {A : Type 0} (a : A) (w : World) {b : A} {w' : World}
    → pure a w ≡ (ok b, w')
    → (b ≡ a) × (w'.db ≡ w.db)
unfolding pure
pure-ok a w h = (cc, cc)

pub query-ok :
    {A : Type 0} (f : Db → ℕ → Result A) (w : World) {a : A} {w' : World}
    → query f w ≡ (ok a, w')
    → (f w.db w.tick ≡ ok a) × (w' ≡ step w)
unfolding query
query-ok f w h = (cc, cc)

pub write-ok :
    {E : Type 0} (f : Db → ℕ → Result (List E)) (put : List E → Db → Db) (w : World) {u : Unit}
    {w' : World}
    → write f put w ≡ (ok u, w')
    → (rows : List E) × (f w.db w.tick ≡ ok rows) × (w' ≡ record (step w) { db = put rows w.db })
unfolding write
write-ok {E} f put w {u} {w'} = go (f w.db w.tick) refl
  where
    go :
        (r : Result (List E))
        → f w.db w.tick ≡ r
        → (elim r as (λ _. Result Unit × World) [
          | ok rows ↦ (ok tt, record (step w) { db = put rows w.db })
          | err e ↦ (err e, step w)
        ])
          ≡ (ok u, w')
        → (rows : List E) × (f w.db w.tick ≡ ok rows)
          × (w' ≡ record (step w) { db = put rows w.db })
    go (ok rows) e h = (rows, e, cc)
    go (err x) e h = cc

pub require-ok : {E : Type 0} (r : Fetch E) {e : E} → require r ≡ ok e → r ≡ found e
require-ok (found x) h = cc
require-ok missing h = cc
require-ok (failed e) h = cc

pub optional-ok :
    {E : Type 0} (text : String) (r : Fetch E) (w : World) {o : Option E} {w' : World}
    → optional text r w ≡ (ok o, w')
    → (w' ≡ w) × (((e : E) × (r ≡ found e) × (o ≡ some e)) ⊎ ((r ≡ missing) × (o ≡ none)))
unfolding optional pure raise
optional-ok text (found e) w h = (cc, inl (e, refl, cc))
optional-ok text missing w h = (cc, inr (refl, cc))
optional-ok text (failed e) w h = cc

-- What a database transaction comes to: the effect of its body, or an error and no effect.
pub data Ends {A : Type 0} (w : World) (body : Result A × World) : Result A × World → Type 0 where
  committed :
      (a : A) (w1 w' : World)
      → body ≡ (ok a, w1)
      → w'.db ≡ w1.db
      → w'.cache ≡ w1.cache
      → Ends w body (ok a, w')
  rolled_back : (e : Error) (w' : World) → w'.db ≡ w.db → Ends w body (err e, w')

commit-Ends :
    {A : Type 0} (w : World) (a : A) (w' : World) (e : Option Error)
    → Ends w (ok a, w') (Monad.commit w.db a w' e)
unfolding Monad.commit
commit-Ends w a w' none = committed a w' (step w') refl refl refl
commit-Ends w a w' (some e) = rolled_back e _ refl

module _ (p : Platform) where
  finish-Ends : {A : Type 0} (w : World) (r : Result A × World) → Ends w r (finish p w.db r)
  unfolding finish
  finish-Ends w (ok a, w') = commit-Ends w a w' (p.commit w'.tick)
  finish-Ends w (err e, w') = rolled_back e _ refl

  started-Ends :
      {A : Type 0} (body : M A) (w : World) (e : Option Error)
      → Ends w (body (step w)) (Monad.started p body w e)
  unfolding Monad.started
  started-Ends body w none = finish-Ends w (body (step w))
  started-Ends body w (some e) = rolled_back e (step w) refl

  pub transaction-Ends :
      {A : Type 0} (body : M A) (w : World) → Ends w (body (step w)) (transaction p body w)
  unfolding transaction
  transaction-Ends body w = started-Ends body w (p.begin w.tick)

Ends-ok :
    {A : Type 0} {w : World} {body r : Result A × World} {a : A} {w' : World}
    → Ends w body r
    → r ≡ (ok a, w')
    → (w1 : World) × (body ≡ (ok a, w1)) × (w'.db ≡ w1.db)
Ends-ok (committed b w1 v e d c) h = (w1, cc, cc)
Ends-ok (rolled_back e v d) h = cc

Ends-err :
    {A : Type 0} {w : World} {body r : Result A × World} {e : Error} {w' : World}
    → Ends w body r
    → r ≡ (err e, w')
    → w'.db ≡ w.db
Ends-err (committed b w1 v e d c) h = cc
Ends-err (rolled_back e v d) h = cc

Ends-keeps {ℓ} :
    {A : Type 0} {w : World} {body r : Result A × World} (P : Db → Type ℓ)
    → Ends w body r
    → (P w.db → P body.1.db)
    → P w.db
    → P r.1.db
Ends-keeps P (committed b w1 v e d c) k h = subst P (sym d) (subst (λ r. P r.1.db) e (k h))
Ends-keeps P (rolled_back e v d) k h = subst P (sym d) h

-- A property of the tables that the body keeps is kept by the transaction.
pub transaction-keeps {ℓ} :
    (P : Db → Type ℓ) (p : Platform) {A : Type 0} (body : M A) (w : World)
    → (P w.db → P (body (step w)).1.db)
    → P w.db
    → P (transaction p body w).1.db
transaction-keeps P p body w k h = Ends-keeps P (transaction-Ends p body w) k h

module _ (p : Platform) {A : Type 0} (body : M A) (w : World) {w' : World} where
  pub transaction-ok :
      {a : A}
      → transaction p body w ≡ (ok a, w')
      → (w1 : World) × (body (step w) ≡ (ok a, w1)) × (w'.db ≡ w1.db)
  transaction-ok h = Ends-ok (transaction-Ends p body w) h

  pub transaction-err : {e : Error} → transaction p body w ≡ (err e, w') → w'.db ≡ w.db
  transaction-err h = Ends-err (transaction-Ends p body w) h

-- The same in the order of a method's lines: what holds after each, handed to the rest of a proof.
module _ {ℓ} {B : Type 0} {G : Type ℓ} {w' : World} {b : B} where
  pub after_bind :
      {A : Type 0} (m : M A) (f : A → M B) (w : World)
      → (m >>= f) w ≡ (ok b, w')
      → ((a : A) (w1 : World) → m w ≡ (ok a, w1) → f a w1 ≡ (ok b, w') → G)
      → G
  after_bind m f w h k = let (a, w1, e1, e2) = >>=-ok m f w h in k a w1 e1 e2

  pub after_step :
      (m : M Unit) (n : M B) (w : World)
      → (m >> n) w ≡ (ok b, w')
      → ((w1 : World) → m w ≡ (ok tt, w1) → n w1 ≡ (ok b, w') → G)
      → G
  after_step m n w h k = let (w1, e1, e2) = >>-ok m n w h in k w1 e1 e2

  pub after_read :
      {A : Type 0} (f : Db → ℕ → A) (k : A → M B) (w : World)
      → (read f >>= k) w ≡ (ok b, w')
      → (k (f w.db w.tick) (step w) ≡ (ok b, w') → G)
      → G
  unfolding read ◌>>=◌
  after_read f k w h n = n h

  pub after_query :
      {A : Type 0} (text : String) (f : Db → ℕ → Result A) (n : A → M B) (w : World)
      → (wrap text (query f) >>= n) w ≡ (ok b, w')
      → ((a : A) → f w.db w.tick ≡ ok a → n a (step w) ≡ (ok b, w') → G)
      → G
  after_query text f n w h k = after_bind (wrap text (query f)) n w h λ a w1 e1 e2.
      let (e3, e4) = query-ok f w (wrap-ok text (query f) w e1) in
      k a e3 (subst (λ v. n a v ≡ (ok b, w')) e4 e2)

  pub after_guard :
      (c : Bool) (e : Error) (n : M B) (w : World)
      → (fail_if c e >> n) w ≡ (ok b, w')
      → (c ≡ false → n w ≡ (ok b, w') → G)
      → G
  after_guard c e n w h k =
      after_step (fail_if c e) n w h
        λ w1 e1 e2. let (e3, e4) = fail_if-ok c e w e1 in k e3 (subst (λ v. n v ≡ (ok b, w')) e4 e2)

  pub after_write :
      {E : Type 0} (text : String) (f : Db → ℕ → Result (List E)) (put : List E → Db → Db) (n : M B)
      (w : World)
      → (wrap text (write f put) >> n) w ≡ (ok b, w')
      → ((rows : List E)
          → f w.db w.tick ≡ ok rows
          → n (record (step w) { db = put rows w.db }) ≡ (ok b, w')
          → G)
      → G
  after_write text f put n w h k = after_step (wrap text (write f put)) n w h λ w1 e1 e2.
      let (rows, e3, e4) = write-ok f put w (wrap-ok text (write f put) w e1) in
      k rows e3 (subst (λ v. n v ≡ (ok b, w')) e4 e2)

module _ {ℓ} {G : Type ℓ} {w' : World} where
  pub last_write :
      {E : Type 0} (text : String) (f : Db → ℕ → Result (List E)) (put : List E → Db → Db)
      (w : World)
      → wrap text (write f put) w ≡ (ok tt, w')
      → ((rows : List E) → f w.db w.tick ≡ ok rows → w'.db ≡ put rows w.db → G)
      → G
  last_write text f put w h k =
      let (rows, e3, e4) = write-ok f put w (wrap-ok text (write f put) w h) in
      k rows e3 (ap (λ v. v.db) e4)

  pub after_transaction :
      (p : Platform) {A : Type 0} {a : A} (body : M A) (w : World)
      → transaction p body w ≡ (ok a, w')
      → ((w1 : World) → body (step w) ≡ (ok a, w1) → w'.db ≡ w1.db → G)
      → G
  after_transaction p body w h k = let (w1, e, d) = transaction-ok p body w h in k w1 e d
