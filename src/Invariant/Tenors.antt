-- ===== src/Invariant/Tenors.antt =====
-- Each customer has at most one credit limit for a tenor, and each row its own key.
use kredit_plus.Base.{
  Bool, true, false, ◌&&◌, eqb_ℤ, List, [], ◌∷◌, ◌++◌, ◌==◌, if◌then◌else◌, All, All-append, ◌≡◌,
  sym, subst, ap, ◌∙◌, ==_iff, inl, inr, refl, ℤ, arith, eqb_ℤ→eq,
}
use kredit_plus.Entity.Error.{Uuid}
use kredit_plus.Entity.CreditLimit.{CreditLimit}
use kredit_plus.Platform.Table.{In, put, erase}
use kredit_plus.Repository.CreditLimit.{of_tenor}
use kredit_plus.Invariant.{All-put, All-erase}

-- Two rows have different keys, and not both customer and tenor in common.
pub record Apart (a b : CreditLimit) : Type 0 where
  pub keys : (a.id == b.id) ≡ false
  pub tenors : of_tenor a.customer_id a.tenor_month b ≡ false

-- Any two rows are apart.
abbrev pub OneEach : List CreditLimit → Type 0
OneEach [] = Unit
OneEach (x ∷ xs) = All (Apart x) xs × OneEach xs

-- The row keeps its key, its customer and its tenor.
pub record SameKeys (a b : CreditLimit) : Type 0 where
  pub id : b.id ≡ a.id
  pub customer_id : b.customer_id ≡ a.customer_id
  pub tenor_month : b.tenor_month ≡ a.tenor_month

Apart-right : (x a b : CreditLimit) → SameKeys a b → Apart x a → Apart x b
Apart-right x a b s h = record {
  keys = subst (λ k. (x.id == k) ≡ false) (sym s.id) h.keys;
  tenors =
      subst (λ k. (k == x.customer_id && eqb_ℤ b.tenor_month x.tenor_month) ≡ false)
        (sym s.customer_id)
        (subst (λ z. (a.customer_id == x.customer_id && eqb_ℤ z x.tenor_month) ≡ false)
          (sym s.tenor_month) h.tenors);
}

Apart-left : (a b y : CreditLimit) → SameKeys a b → Apart a y → Apart b y
Apart-left a b y s h = record {
  keys = subst (λ k. (k == y.id) ≡ false) (sym s.id) h.keys;
  tenors =
      subst (λ k. (y.customer_id == k && eqb_ℤ y.tenor_month b.tenor_month) ≡ false)
        (sym s.customer_id)
        (subst (λ z. (y.customer_id == a.customer_id && eqb_ℤ y.tenor_month z) ≡ false)
          (sym s.tenor_month) h.tenors);
}

All-map {ℓ ℓ'} :
    {A : Type 0} {P : A → Type ℓ} {Q : A → Type ℓ'} (xs : List A)
    → ((a : A) → P a → Q a)
    → All P xs
    → All Q xs
All-map [] f h = tt
All-map (x ∷ xs) f h = (f x h.0, All-map xs f h.1)

All-In {ℓ} : {A : Type 0} (P : A → Type ℓ) (xs : List A) (a : A) → In a xs → All P xs → P a
All-In P [] a i h = absurd i
All-In P (x ∷ xs) a (inl e) h = subst P e h.0
All-In P (x ∷ xs) a (inr i) h = All-In P xs a i h.1

-- A row that is apart from all others is appended.
pub OneEach-append :
    (rows : List CreditLimit) (e : CreditLimit)
    → All (λ r. Apart r e) rows
    → OneEach rows
    → OneEach (rows ++ e ∷ [])
OneEach-append [] e h k = (tt, tt)
OneEach-append (x ∷ xs) e h k =
    (All-append (Apart x) xs (e ∷ []) k.0 (h.0, tt), OneEach-append xs e h.1 k.1)

pub OneEach-erase :
    (k : Uuid) (rows : List CreditLimit) → OneEach rows → OneEach (erase (λ r. r.id) k rows)
OneEach-erase k [] h = tt
OneEach-erase k (x ∷ xs) h =
    elim (x.id == k)
      as (λ b. OneEach (if b then erase (λ r. r.id) k xs else x ∷ erase (λ r. r.id) k xs)) [
        | true ↦ OneEach-erase k xs h.1
        | false ↦ (All-erase (Apart x) (λ r. r.id) k xs h.0, OneEach-erase k xs h.1)
      ]

-- A row is replaced by one with the same key, customer and tenor.
pub OneEach-put :
    (l e : CreditLimit) (rows : List CreditLimit)
    → SameKeys l e
    → In l rows
    → OneEach rows
    → OneEach (put (λ r. r.id) e rows)
OneEach-put l e [] s i h = absurd i
OneEach-put l e (x ∷ xs) s (inl q) h =
    let here : (x.id == e.id) ≡ true = (==_iff x.id e.id).1 (ap (λ r. r.id) q ∙ sym s.id) in
    subst (λ b. OneEach (if b then e ∷ xs else x ∷ put (λ r. r.id) e xs)) (sym here)
      (All-map xs (λ y a. Apart-left l e y s (subst (λ r. Apart r y) q a)) h.0, h.1)
OneEach-put l e (x ∷ xs) s (inr i) h =
    let apart : Apart x e = Apart-right x l e s (All-In (Apart x) xs l i h.0) in
    subst (λ b. OneEach (if b then e ∷ xs else x ∷ put (λ r. r.id) e xs)) (sym apart.keys)
      (All-put (Apart x) (λ r. r.id) e xs apart h.0, OneEach-put l e xs s i h.1)

-- Two rows that are not apart, in either order, are one.
one_of_both :
    (rows : List CreditLimit) (a b : CreditLimit)
    → OneEach rows
    → In a rows
    → In b rows
    → ¬ (Apart a b)
    → ¬ (Apart b a)
    → a ≡ b
one_of_both [] a b h i j n m = absurd i
one_of_both (x ∷ xs) a b h (inl p) (inl q) n m = sym p ∙ q
one_of_both (x ∷ xs) a b h (inl p) (inr j) n m =
    absurd (n (subst (λ r. Apart r b) p (All-In (Apart x) xs b j h.0)))
one_of_both (x ∷ xs) a b h (inr i) (inl q) n m =
    absurd (m (subst (λ r. Apart r a) q (All-In (Apart x) xs a i h.0)))
one_of_both (x ∷ xs) a b h (inr i) (inr j) n m = one_of_both xs a b h.1 i j n m

-- A row is known by its key.
pub same_key :
    (rows : List CreditLimit) (a b : CreditLimit)
    → OneEach rows
    → In a rows
    → In b rows
    → a.id ≡ b.id
    → a ≡ b
same_key rows a b h i j k =
    one_of_both rows a b h i j (λ x. cc (x.keys, (==_iff a.id b.id).1 k))
      (λ x. cc (x.keys, (==_iff b.id a.id).1 (sym k)))

both : (x y : Bool) → (x && y) ≡ true → (x ≡ true) × (y ≡ true)
both x y h = ground arith

tenor_of :
    (a b : CreditLimit) (customer_id : Uuid) (tenor : ℤ)
    → of_tenor customer_id tenor a ≡ true
    → of_tenor customer_id tenor b ≡ true
    → of_tenor a.customer_id a.tenor_month b ≡ true
tenor_of a b customer_id tenor m n =
    let (c, t) = both (a.customer_id == customer_id) (eqb_ℤ a.tenor_month tenor) m in
    subst (λ k. of_tenor k a.tenor_month b ≡ true) (sym ((==_iff a.customer_id customer_id).0 c))
      (subst (λ k. of_tenor customer_id k b ≡ true) (sym (eqb_ℤ→eq a.tenor_month tenor t)) n)

-- A row is known by its customer and its tenor.
pub same_tenor :
    (rows : List CreditLimit) (a b : CreditLimit) (customer_id : Uuid) (tenor : ℤ)
    → OneEach rows
    → In a rows
    → In b rows
    → of_tenor customer_id tenor a ≡ true
    → of_tenor customer_id tenor b ≡ true
    → a ≡ b
same_tenor rows a b customer_id tenor h i j m n =
    one_of_both rows a b h i j (λ x. cc (x.tenors, tenor_of a b customer_id tenor m n))
      (λ x. cc (x.tenors, tenor_of b a customer_id tenor n m))

pub In-put : (e : CreditLimit) (rows : List CreditLimit) → In e (put (λ r. r.id) e rows)
In-put e [] = inl refl
In-put e (x ∷ xs) =
    elim (x.id == e.id) as (λ b. In e (if b then e ∷ xs else x ∷ put (λ r. r.id) e xs)) [
      | true ↦ inl refl
      | false ↦ inr (In-put e xs)
    ]
