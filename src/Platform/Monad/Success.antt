-- ===== src/Platform/Monad/Success.antt =====
-- How a call goes on where its parts succeed, in the order of a method's lines.
use kredit_plus.Base.{
  ◌++◌, arith, ℕ, Bool, false, String, List, none, ◌≡◌, ap, ◌∙◌, refl, sym, true, [], ◌∷◌, All, inl,
  inr,
}
use kredit_plus.Entity.Error.{Error, wrapped}
use kredit_plus.Platform.Table.{Result, ok, err, Table, IsTable, Fetch, found, missing, failed, In}
use kredit_plus.Platform.World.{Db, World, Platform}
use kredit_plus.Platform.Monad
use kredit_plus.Platform.Monad.{
  M, ◌>>=◌, ◌>>◌, wrap, fail_if, query, write, step, transaction, finish,
}
use kredit_plus.Platform.Monad.Outcomes.{>>=-of_ok}

-- The call gives a value.
abbrev pub Succeeds : {A : Type 0} → M A → World → Type 0
Succeeds {A} m w = (a : A) × (w' : World) × (m w ≡ (ok a, w'))

pub wrap_ok :
    {A : Type 0} (text : String) (m : M A) (w : World) {a : A} {w' : World}
    → m w ≡ (ok a, w')
    → wrap text m w ≡ (ok a, w')
unfolding wrap
wrap_ok {A} text m w e =
    ap
      (λ (r : Result A × World).
        let (x, w1) = r in
        elim x as (λ _. Result A × World) [
          | ok a ↦ (ok a, w1)
          | err e ↦ (err (wrapped text e), w1)
        ])
      e

pub write_ok :
    {E : Type 0} (f : Db → ℕ → Result (List E)) (put : List E → Db → Db) (w : World) {rows : List E}
    → f w.db w.tick ≡ ok rows
    → write f put w ≡ (ok tt, record (step w) { db = put rows w.db })
unfolding write
write_ok f put w e = rw (e, write)

module _ {B : Type 0} where
  pub then_bind :
      {A : Type 0} (m : M A) (f : A → M B) (w : World) {a : A} {w1 : World}
      → m w ≡ (ok a, w1)
      → Succeeds (f a) w1
      → Succeeds (m >>= f) w
  then_bind m f w e (b, w', q) = (b, w', >>=-of_ok m f w e ∙ q)

  pub then_step :
      (m : M (Unit {0})) (k : M B) (w : World) {w1 : World}
      → m w ≡ (ok tt, w1)
      → Succeeds k w1
      → Succeeds (m >> k) w
  unfolding ◌>>◌
  then_step m k w e s = then_bind m (λ _. k) w e s

  pub then_guard :
      (c : Bool) (e : Error) (k : M B) (w : World)
      → c ≡ false
      → Succeeds k w
      → Succeeds (fail_if c e >> k) w
  unfolding fail_if
  then_guard c e k w q s = then_step (fail_if c e) k w (rw (q, fail_if)) s

  pub then_query :
      {A : Type 0} (text : String) (f : Db → ℕ → Result A) (n : A → M B) (w : World) {a : A}
      → f w.db w.tick ≡ ok a
      → Succeeds (n a) (step w)
      → Succeeds (wrap text (query f) >>= n) w
  unfolding query
  then_query text f n w e s =
      then_bind (wrap text (query f)) n w (wrap_ok text (query f) w (ap (λ r. (r, step w)) e)) s

  pub then_write :
      {E : Type 0} (text : String) (f : Db → ℕ → Result (List E)) (put : List E → Db → Db) (n : M B)
      (w : World) {rows : List E}
      → f w.db w.tick ≡ ok rows
      → Succeeds n (record (step w) { db = put rows w.db })
      → Succeeds (wrap text (write f put) >> n) w
  unfolding write
  then_write text f put n w e s =
      then_step (wrap text (write f put)) n w (wrap_ok text (write f put) w (write_ok f put w e)) s

-- what the call gives, where its first part succeeds
pub gives_bind :
    {A B : Type 0} (m : M A) (f : A → M B) (w : World) {a : A} {w1 : World} {x : Result B × World}
    → m w ≡ (ok a, w1)
    → f a w1 ≡ x
    → (m >>= f) w ≡ x
gives_bind m f w e q = >>=-of_ok m f w e ∙ q

pub gives_step :
    {B : Type 0} (m : M (Unit {0})) (k : M B) (w : World) {w1 : World} {x : Result B × World}
    → m w ≡ (ok tt, w1)
    → k w1 ≡ x
    → (m >> k) w ≡ x
unfolding ◌>>◌
gives_step m k w e q = gives_bind m (λ _. k) w e q

pub gives_guard :
    {B : Type 0} (c : Bool) (e : Error) (k : M B) (w : World) {x : Result B × World}
    → c ≡ false
    → k w ≡ x
    → (fail_if c e >> k) w ≡ x
unfolding fail_if
gives_guard c e k w q r = gives_step (fail_if c e) k w (rw (q, fail_if)) r

pub ends_write :
    {E : Type 0} (text : String) (f : Db → ℕ → Result (List E)) (put : List E → Db → Db) (w : World)
    {rows : List E}
    → f w.db w.tick ≡ ok rows
    → Succeeds (wrap text (write f put)) w
unfolding write
ends_write text f put w {rows} e =
    (tt, record (step w) { db = put rows w.db }, wrap_ok text (write f put) w (write_ok f put w e))

pub in_transaction :
    (p : Platform) {A : Type 0} (body : M A) (w : World)
    → ((n : ℕ) → p.begin n ≡ none)
    → ((n : ℕ) → p.commit n ≡ none)
    → Succeeds body (step w)
    → Succeeds (transaction p body) w
unfolding transaction finish Monad.started Monad.commit
in_transaction p body w starts ends (a, w', e) = (a, step w', rw (starts w.tick, e, ends w'.tick))

pub none_In :
    {A : Type 0} (p : A → Bool) (rows : List A) (a : A)
    → All (λ r. p r ≡ false) rows
    → In a rows
    → p a ≡ false
none_In p [] a others h = absurd h
none_In p (x ∷ xs) a (n, ns) (inl same) = ap p (sym same) ∙ n
none_In p (x ∷ xs) a (n, ns) (inr there) = none_In p xs a ns there

-- The one row that matches, at the end of rows that do not.
pub last_match :
    {A : Type 0} (p : A → Bool) (rows : List A) (s e : A)
    → All (λ r. p r ≡ false) rows
    → In e (rows ++ s ∷ [])
    → p e ≡ true
    → s ≡ e
last_match p [] s e none_matches (inl same) m = same
last_match p [] s e none_matches (inr there) m = elim there [ ]
last_match p (x ∷ xs) s e (n, ns) (inl same) m = absurd (ground (arith, ap p same))
last_match p (x ∷ xs) s e (n, ns) (inr there) m = last_match p xs s e ns there m

-- A row that matches stands in the table and no read fails, so one is found.
pub first_stands :
    {E : Type 0} (key : E → ℕ) (t : Table E) (law : IsTable key t)
    → ((matches : E → Bool) (rows : List E) (n : ℕ) (e : Error)
        → ¬ (t.first matches rows n ≡ failed e))
    → (matches : E → Bool) (rows : List E) (n : ℕ) (row : E) → In row rows
    → matches row ≡ true
    → (found_row : E) × (t.first matches rows n ≡ found found_row)
      × In found_row rows
      × (matches found_row ≡ true)
first_stands {E} key t law answers matches rows n row stands matched =
    go (t.first matches rows n) refl
  where
    go :
        (f : Fetch E)
        → t.first matches rows n ≡ f
        → (found_row : E) × (t.first matches rows n ≡ found found_row)
          × In found_row rows
          × (matches found_row ≡ true)
    go (found r) e = let (i, m) = law.first_found matches rows n r e in (r, e, i, m)
    go missing e =
        absurd (cc (matched, none_In matches rows row (law.first_missing matches rows n e) stands))
    go (failed x) e = absurd (answers matches rows n x e)
