-- ===== src/Platform/Table.antt =====
-- gorm's statements on one table, as functions of its rows and of the number of the call, and
-- their documented behaviour. A statement may fail at any call.
use kredit_plus.Base.{
  ℕ, ℤ, pos, some, suc, Bool, true, false, if◌then◌else◌, ◌==◌, List, [], ◌∷◌, ◌++◌, Option, String,
  All, ◌≡◌, ◌⊎◌,
}
use kredit_plus.Entity.Error.{Uuid, Error}

pub data Result (A : Type 0) : Type 0 where
  ok : A → Result A
  err : Error → Result A

-- What `First` gives: a row, `gorm.ErrRecordNotFound`, or another error.
pub data Fetch (E : Type 0) : Type 0 where
  found : E → Fetch E
  missing : Fetch E
  failed : Error → Fetch E

-- A chain of `Where`, `Order`, `Limit` and `Offset`; `matches` is the `Where` clauses' test.
pub record Query (E : Type 0) : Type 0 where
  pub matches : E → Bool
  pub order : String
  pub limit : Option ℤ
  pub offset : Option ℤ

pub record Table (E : Type 0) : Type 0 where
  pub first : (E → Bool) → List E → ℕ → Fetch E
  pub find : Query E → List E → ℕ → Result (List E)
  pub count : (E → Bool) → List E → ℕ → Result ℕ
  pub create : E → List E → ℕ → Result (List E)
  pub save : E → List E → ℕ → Result (List E)
  pub update : (E → Bool) → (E → E) → List E → ℕ → Result (List E)
  pub delete : E → List E → ℕ → Result (List E)
  -- the row that a write leaves: columns rounded to their types, `updated_at` stamped
  pub stored : ℕ → E → E

-- Membership, by recursion.
abbrev pub In : {A : Type 0} → A → List A → Type 0
In a [] = ⊥
In a (x ∷ xs) = (x ≡ a) ⊎ In a xs

module _ {E : Type 0} where
  abbrev pub put : (E → Uuid) → E → List E → List E
  put key e [] = e ∷ []
  put key e (x ∷ xs) = if key x == key e then e ∷ xs else x ∷ put key e xs

  abbrev pub erase : (E → Uuid) → Uuid → List E → List E
  erase key k [] = []
  erase key k (x ∷ xs) = if key x == k then erase key k xs else x ∷ erase key k xs

  abbrev pub change : (E → Bool) → (E → E) → List E → List E
  change p f [] = []
  change p f (x ∷ xs) = (if p x then f x else x) ∷ change p f xs

  abbrev pub count_if : (E → Bool) → List E → ℕ
  count_if p [] = 0
  count_if p (x ∷ xs) = if p x then suc (count_if p xs) else count_if p xs

  -- The documented behaviour of gorm over a table with primary key `key`.
  pub record IsTable (key : E → Uuid) (t : Table E) : Type 0 where
    pub first_found :
        (p : E → Bool) (rows : List E) (n : ℕ) (e : E)
        → t.first p rows n ≡ found e
        → In e rows × (p e ≡ true)
    pub first_missing :
        (p : E → Bool) (rows : List E) (n : ℕ)
        → t.first p rows n ≡ missing
        → All (λ e. p e ≡ false) rows
    -- a page from the start, of at least one row, is empty only where no row matches
    pub find_empty :
        (q : Query E) (rows : List E) (n k : ℕ)
        → q.limit ≡ some (pos (suc k))
        → q.offset ≡ some (pos 0)
        → t.find q rows n ≡ ok []
        → All (λ e. q.matches e ≡ false) rows
    pub count_ok :
        (p : E → Bool) (rows : List E) (n c : ℕ) → t.count p rows n ≡ ok c → c ≡ count_if p rows
    pub create_ok :
        (e : E) (rows rows' : List E) (n : ℕ)
        → t.create e rows n ≡ ok rows'
        → rows' ≡ rows ++ t.stored n e ∷ []
    -- an insert fails where a row has the key
    pub create_fresh :
        (e : E) (rows rows' : List E) (n : ℕ)
        → t.create e rows n ≡ ok rows'
        → All (λ r. (key r == key e) ≡ false) rows
    pub save_ok :
        (e : E) (rows rows' : List E) (n : ℕ)
        → t.save e rows n ≡ ok rows'
        → rows' ≡ put key (t.stored n e) rows
    pub update_ok :
        (p : E → Bool) (f : E → E) (rows rows' : List E) (n : ℕ)
        → t.update p f rows n ≡ ok rows'
        → rows' ≡ change p (λ e. t.stored n (f e)) rows
    pub delete_ok :
        (e : E) (rows rows' : List E) (n : ℕ)
        → t.delete e rows n ≡ ok rows'
        → rows' ≡ erase key (key e) rows
    pub stored_key : (n : ℕ) (e : E) → key (t.stored n e) ≡ key e
