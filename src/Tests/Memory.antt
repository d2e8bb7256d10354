-- ===== src/Tests/Memory.antt =====
-- A platform held in memory, which meets the laws: tables are lists, no call fails, every column
-- keeps its value, the clock stands still and identifiers count up from 1000.
use kredit_plus.Base.{
  ◌+◌, Bool, true, false, ◌==◌, if◌then◌else◌, List, [], ◌∷◌, ◌++◌, map, String, str_eq, eq_iff,
  none, ◌≡◌, refl, sym, inl, inr, ap, arith, All, Bool-cases,
}
use kredit_plus.Time.{Time}
use kredit_plus.Entity.Error.{Uuid, Error, message}
use kredit_plus.Entity.Transaction.{TransactionDetail}
use kredit_plus.Platform.Table.{
  Table, IsTable, Fetch, found, missing, failed, Result, ok, err, In, put, erase, change, count_if,
}
use kredit_plus.Platform.Redis.{Redis, IsRedis, Entries}
use kredit_plus.Platform.World.{
  Platform, Goroutine, reads_contract, reads_customer, reads_asset, reads_limit,
}
use kredit_plus.Platform.Laws.{IsPlatform, same_goroutine, times}

module _ {E : Type 0} where
  abbrev pub first : (E → Bool) → List E → Fetch E
  first p [] = missing
  first p (x ∷ xs) = if p x then found x else first p xs

  abbrev pub matching : (E → Bool) → List E → List E
  matching p [] = []
  matching p (x ∷ xs) = if p x then x ∷ matching p xs else matching p xs

  first_found :
      (p : E → Bool) (rows : List E) (e : E) → first p rows ≡ found e → In e rows × (p e ≡ true)
  first_found p [] e h = cc
  first_found p (x ∷ xs) e h = elim (Bool-cases (p x)) [
    | inl y ↦ let q : x ≡ e = ground arith in (inl q, cc (y, ap p q))
    | inr z ↦ let r = first_found p xs e (ground arith) in (inr r.0, r.1)
  ]

  first_missing :
      (p : E → Bool) (rows : List E) → first p rows ≡ missing → All (λ e. p e ≡ false) rows
  first_missing p [] h = tt
  first_missing p (x ∷ xs) h = elim (Bool-cases (p x)) [
    | inl y ↦ absurd (ground arith)
    | inr z ↦ (z, first_missing p xs (ground arith))
  ]

module _ {E : Type 0} where
  matching_empty :
      (p : E → Bool) (rows : List E) → matching p rows ≡ [] → All (λ e. p e ≡ false) rows
  matching_empty p [] h = tt
  matching_empty p (x ∷ xs) h = elim (Bool-cases (p x)) [
    | inl y ↦ absurd (ground arith)
    | inr z ↦ (z, matching_empty p xs (ground arith))
  ]

module _ {E : Type 0} (key : E → Uuid) where
  abbrev pub has_key : Uuid → List E → Bool
  has_key k [] = false
  has_key k (x ∷ xs) = if key x == k then true else has_key k xs

  abbrev pub insert : E → List E → Result (List E)
  insert e rows =
      if has_key (key e) rows
      then err (message "Error 1062: Duplicate entry")
      else ok (rows ++ e ∷ [])

  insert-ok : (e : E) (rows rows' : List E) → insert e rows ≡ ok rows' → rows' ≡ rows ++ e ∷ []
  insert-ok e rows rows' h = ground arith

  no_key :
      (k : Uuid) (rows : List E) → has_key k rows ≡ false → All (λ r. (key r == k) ≡ false) rows
  no_key k [] h = tt
  no_key k (x ∷ xs) h = elim (Bool-cases (key x == k)) [
    | inl y ↦ absurd (ground arith)
    | inr z ↦ (z, no_key k xs (ground arith))
  ]

  insert-fresh :
      (e : E) (rows rows' : List E)
      → insert e rows ≡ ok rows'
      → All (λ r. (key r == key e) ≡ false) rows
  insert-fresh e rows rows' h = no_key (key e) rows (ground arith)

  abbrev pub table : Table E
  table = record {
    first = λ p rows n. first p rows;
    find = λ q rows n. ok (matching q.matches rows);
    count = λ p rows n. ok (count_if p rows);
    create = λ e rows n. insert e rows;
    save = λ e rows n. ok (put key e rows);
    update = λ p f rows n. ok (change p f rows);
    delete = λ e rows n. ok (erase key (key e) rows);
    stored = λ n e. e;
  }

  table-IsTable : IsTable key table
  table-IsTable = record {
    first_found = λ p rows n e h. first_found p rows e h;
    first_missing = λ p rows n h. first_missing p rows h;
    find_empty = λ q rows n k l o h. matching_empty q.matches rows (cc h);
    count_ok = λ p rows n c h. cc;
    create_ok = λ e rows rows' n h. insert-ok e rows rows' h;
    create_fresh = λ e rows rows' n h. insert-fresh e rows rows' h;
    save_ok = λ e rows rows' n h. cc;
    update_ok = λ p f rows rows' n h. cc;
    delete_ok = λ e rows rows' n h. cc;
    stored_key = λ n e. refl;
  }

abbrev mentions : List String → String → Bool
mentions [] k = false
mentions (x ∷ xs) k = if str_eq x k then true else mentions xs k

abbrev get_entry : String → Entries → Result String
get_entry k [] = err (message "redis: nil")
get_entry k ((j, v) ∷ c) = if str_eq j k then ok v else get_entry k c

abbrev drop_entries : List String → Entries → Entries
drop_entries ks [] = []
drop_entries ks ((j, v) ∷ c) =
    if mentions ks j then drop_entries ks c else (j, v) ∷ drop_entries ks c

abbrev redis : Redis
redis = record {
  get = λ k c n. get_entry k c;
  set = λ k v c n. (none, (k, v) ∷ c);
  del = λ ks c n. (none, drop_entries ks c);
}

get_ok : (k v : String) (c : Entries) → get_entry k c ≡ ok v → In (k, v) c
get_ok k v [] h = cc
get_ok k v ((j, u) ∷ c) h = elim (Bool-cases (str_eq j k)) [
  | inl y ↦ inl (ground (arith, eq_iff j k))
  | inr z ↦ inr (get_ok k v c (ground arith))
]

drop_In : (ks : List String) (c : Entries) (e : String × String) → In e (drop_entries ks c) → In e c
drop_In ks [] e h = h
drop_In ks ((j, u) ∷ c) e h = elim (Bool-cases (mentions ks j)) [
  | inl y ↦ inr (drop_In ks c e (rw y at h))
  | inr z ↦ kept (drop_In ks c e) (rw z at h)
]
  where
    kept :
        (In e (drop_entries ks c) → In e c) → In e ((j, u) ∷ drop_entries ks c) → In e ((j, u) ∷ c)
    kept rec (inl q) = inl q
    kept rec (inr q) = inr (rec q)

mentions-In : (ks : List String) (k : String) → In k ks → mentions ks k ≡ true
mentions-In [] k h = absurd h
mentions-In (x ∷ xs) k (inl h) = ground (arith, eq_iff x k)
mentions-In (x ∷ xs) k (inr h) = ground (arith, mentions-In xs k h)

drop_gone :
    (ks : List String) (c : Entries) (k v : String)
    → mentions ks k ≡ true
    → ¬ (In (k, v) (drop_entries ks c))
drop_gone ks [] k v m h = h
drop_gone ks ((j, u) ∷ c) k v m h = elim (Bool-cases (mentions ks j)) [
  | inl y ↦ drop_gone ks c k v m (rw y at h)
  | inr z ↦ gone z (drop_gone ks c k v m) (rw z at h)
]
  where
    gone :
        mentions ks j ≡ false
        → ¬ (In (k, v) (drop_entries ks c))
        → ¬ (In (k, v) ((j, u) ∷ drop_entries ks c))
    gone z rec (inl q) = cc (z, m, ap (λ r. mentions ks (r.0)) q)
    gone z rec (inr q) = rec q

redis-IsRedis : IsRedis redis
redis-IsRedis = record {
  get_ok = λ k v c n h. get_ok k v c h;
  set_entries = λ k v c n e h. elim h [ inl q ↦ inl (sym q) | inr q ↦ inr q ];
  del_entries = λ ks c n e h. drop_In ks c e h;
  del_ok = λ ks c n k v e m. drop_gone ks c k v (mentions-In ks k m);
}

map-id : {A : Type 0} (xs : List A) → map (λ x. x) xs ≡ xs
map-id [] = refl
map-id (x ∷ xs) = ap (λ ys. x ∷ ys) (map-id xs)

-- gorm refuses an insert of no rows
abbrev insert_all :
    List TransactionDetail → List TransactionDetail → Result (List TransactionDetail)
insert_all [] rows = err (message "empty slice found")
insert_all (d ∷ ds) rows = ok (rows ++ (d ∷ ds))

insert_all-ok :
    (ds rows rows' : List TransactionDetail)
    → insert_all ds rows ≡ ok rows'
    → rows' ≡ rows ++ map (λ d. d) ds
insert_all-ok [] rows rows' h = cc
insert_all-ok (d ∷ ds) rows rows' h = cc (h, map-id (d ∷ ds))

abbrev noon : Time
noon = record { year = 2024; month = 1; day = 31; nanos = 43200000000000 }

abbrev pub memory : Platform
memory = record {
  customers = table (λ c. c.id);
  documents = table (λ d. d.id);
  limits = table (λ l. l.id);
  assets = table (λ a. a.id);
  transactions = table (λ t. t.id);
  details = table (λ d. d.id);
  create_details = λ ds rows n. insert_all ds rows;
  preload_transaction = λ c db t n. ok t;
  preload_transactions = λ c db ts n. ok ts;
  preload_documents = λ db c n. ok c;
  decimal = λ x. x;
  begin = λ n. none;
  commit = λ n. none;
  schedule = λ n. reads_limit ∷ reads_contract ∷ reads_asset ∷ reads_customer ∷ [];
  redis = redis;
  now = λ n. noon;
  new_uuid = λ n. 1000 + n;
  check_create_asset = λ r. [];
  check_update_asset = λ r. [];
  marshal_customer = λ c. none;
  unmarshal_customer = λ s. none;
  marshal_asset = λ a. none;
  unmarshal_asset = λ s. none;
  uuid_text = λ id. if id == 7 then "7" else "id";
  int_text = λ n. "n";
  amount_text = λ x. "x";
  format = λ layout t. layout;
}

scheduled_once :
    (g : Goroutine) → times g (reads_limit ∷ reads_contract ∷ reads_asset ∷ reads_customer ∷ []) ≡ 1
unfolding same_goroutine
scheduled_once reads_contract = refl
scheduled_once reads_customer = refl
scheduled_once reads_asset = refl
scheduled_once reads_limit = refl

pub memory-IsPlatform : IsPlatform memory
memory-IsPlatform = record {
  customers = table-IsTable (λ c. c.id);
  documents = table-IsTable (λ d. d.id);
  limits = table-IsTable (λ l. l.id);
  assets = table-IsTable (λ a. a.id);
  transactions = table-IsTable (λ t. t.id);
  redis = redis-IsRedis;
  schedule_once = λ n g. scheduled_once g;
  create_details_ok = λ ds rows rows' n h. insert_all-ok ds rows rows' h;
  limit_stored = λ n l. record {
    customer_id = refl;
    tenor_month = refl;
    limit_amount = refl;
    used_amount = refl;
  };
  transaction_stored = λ n t. record {
    customer_id = refl;
    asset_id = refl;
    contract_number = refl;
    tenor_month = refl;
    status = refl;
  };
  decimal_mono = λ a b h. h;
}

-- a read in memory does not fail
pub never_failed :
    {E : Type 0} (p : E → Bool) (rows : List E) (e : Error) → ¬ (first p rows ≡ failed e)
never_failed p [] e h = cc
never_failed p (x ∷ xs) e h =
    elim (p x) as (λ b. (if b then found x else first p xs) ≡ failed e → ⊥) [
      | true ↦ λ q. cc
      | false ↦ λ q. never_failed p xs e q
    ]
      h

module _ {E : Type 0} (key : E → Uuid) where
  new_key :
      (k : Uuid) (rows : List E) → All (λ r. (key r == k) ≡ false) rows → has_key key k rows ≡ false
  new_key k [] h = refl
  new_key k (x ∷ xs) (h, hs) = ground (arith, new_key k xs hs)

  -- an insert of a new key does not fail
  pub inserted :
      (e : E) (rows : List E)
      → All (λ r. (key r == key e) ≡ false) rows
      → insert key e rows ≡ ok (rows ++ e ∷ [])
  inserted e rows h = ground (arith, new_key (key e) rows h)
