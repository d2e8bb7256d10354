-- ===== src/Handler/Routing.antt =====
-- Which of the registered routes a path belongs to. A segment `:name` takes any segment of a path,
-- a literal one takes the segments that `fold` brings to its text.
use kredit_plus.Base.{
  Bool, true, false, ◌&&◌, ◌||◌, not, String, str_eq, eq_iff, List, [], ◌∷◌, ◌++◌, ◌≡◌, refl, sym,
  ap, ◌∙◌, arith, inl, inr,
}
use kredit_plus.Platform.Table.{In}
use kredit_plus.Handler.Routes.{
  Segment, lit, param, Route, asset_routes, customer_routes, credit_limit_routes,
  transaction_routes,
}

-- the routes in the order in which cmd/main.go has them registered
abbrev pub routes : List Route
routes = asset_routes ++ (customer_routes ++ (credit_limit_routes ++ transaction_routes))

abbrev pub takes : (String → String) → Segment → String → Bool
takes fold (lit s) x = str_eq s (fold x)
takes fold (param name) x = not (str_eq x "")

abbrev pub covers : (String → String) → List Segment → List String → Bool
covers fold [] [] = true
covers fold [] (x ∷ xs) = false
covers fold (s ∷ ss) [] = false
covers fold (s ∷ ss) (x ∷ xs) = takes fold s x && covers fold ss xs

-- two segments, and two patterns, that may take the same text
segments_meet : Segment → Segment → Bool
segments_meet (lit s) (lit t) = str_eq s t
segments_meet (lit s) (param name) = true
segments_meet (param name) t = true

abbrev meet : List Segment → List Segment → Bool
meet [] [] = true
meet [] (t ∷ ts) = false
meet (s ∷ ss) [] = false
meet (s ∷ ss) (t ∷ ts) = segments_meet s t && meet ss ts

-- the paths that two patterns share
abbrev joined : List Segment → List Segment → List Segment
joined [] ts = []
joined (s ∷ ss) [] = []
joined (lit s ∷ ss) (t ∷ ts) = lit s ∷ joined ss ts
joined (param name ∷ ss) (t ∷ ts) = t ∷ joined ss ts

-- patterns of literals
abbrev same_literals : List Segment → List Segment → Bool
same_literals [] [] = true
same_literals (lit s ∷ ss) (lit t ∷ ts) = str_eq s t && same_literals ss ts
same_literals _ _ = false

-- `/api/v1/customers/nik/documents`, which `/customers/nik/:nik` takes and `/customers/:id/documents`
abbrev pub documents_of_nik : List Segment
documents_of_nik = lit "api" ∷ lit "v1" ∷ lit "customers" ∷ lit "nik" ∷ lit "documents" ∷ []

-- what two routes may not both do: have the method and take a path of the other, but for this one
abbrev clash : Route → Route → Bool
clash r s =
    str_eq r.method s.method
    && (meet r.pattern s.pattern
        && not (same_literals (joined r.pattern s.pattern) documents_of_nik))

abbrev clashes : Route → List Route → Bool
clashes r [] = false
clashes r (s ∷ rs) = clash r s || clashes r rs

abbrev apart : List Route → Bool
apart [] = true
apart (r ∷ rs) = not (clashes r rs) && apart rs

module _ (fold : String → String) where
  both_take :
      (s t : Segment) (x : String)
      → takes fold s x ≡ true
      → takes fold t x ≡ true
      → segments_meet s t ≡ true
  unfolding segments_meet
  both_take (lit s) (lit t) x h k =
      (eq_iff s t).1 ((eq_iff s (fold x)).0 h ∙ sym ((eq_iff t (fold x)).0 k))
  both_take (lit s) (param name) x h k = refl
  both_take (param name) t x h k = refl

  both_cover :
      (ss ts : List Segment) (path : List String)
      → covers fold ss path ≡ true
      → covers fold ts path ≡ true
      → meet ss ts ≡ true
  both_cover [] [] path h k = refl
  both_cover [] (t ∷ ts) [] h k = cc
  both_cover [] (t ∷ ts) (x ∷ xs) h k = cc
  both_cover (s ∷ ss) [] [] h k = cc
  both_cover (s ∷ ss) [] (x ∷ xs) h k = cc
  both_cover (s ∷ ss) (t ∷ ts) [] h k = cc
  both_cover (s ∷ ss) (t ∷ ts) (x ∷ xs) h k = ground (arith, both_take s t x, both_cover ss ts xs)

  joined-covers :
      (ss ts : List Segment) (path : List String)
      → covers fold ss path ≡ true
      → covers fold ts path ≡ true
      → covers fold (joined ss ts) path ≡ true
  joined-covers [] [] path h k = h
  joined-covers [] (t ∷ ts) path h k = h
  joined-covers (s ∷ ss) [] [] h k = cc
  joined-covers (s ∷ ss) [] (x ∷ xs) h k = cc
  joined-covers (lit s ∷ ss) (t ∷ ts) [] h k = cc
  joined-covers (lit s ∷ ss) (t ∷ ts) (x ∷ xs) h k = ground (arith, joined-covers ss ts xs)
  joined-covers (param name ∷ ss) (t ∷ ts) [] h k = cc
  joined-covers (param name ∷ ss) (t ∷ ts) (x ∷ xs) h k = ground (arith, joined-covers ss ts xs)

  same_literals-covers :
      (ss ts : List Segment) (path : List String)
      → same_literals ss ts ≡ true
      → covers fold ss path ≡ true
      → covers fold ts path ≡ true
  same_literals-covers [] [] path e h = h
  same_literals-covers [] (t ∷ ts) path e h = cc
  same_literals-covers (lit s ∷ ss) [] path e h = cc
  same_literals-covers (param name ∷ ss) ts path e h = cc
  same_literals-covers (lit s ∷ ss) (lit t ∷ ts) [] e h = cc
  same_literals-covers (lit s ∷ ss) (param name ∷ ts) path e h = cc
  same_literals-covers (lit s ∷ ss) (lit t ∷ ts) (x ∷ xs) e h =
      ground
        (arith, eq_iff s t, eq_iff s (fold x), eq_iff t (fold x), same_literals-covers ss ts xs)

  clash-covers :
      (r s : Route) (path : List String)
      → covers fold documents_of_nik path ≡ false
      → r.method ≡ s.method
      → covers fold r.pattern path ≡ true
      → covers fold s.pattern path ≡ true
      → clash r s ≡ true
  clash-covers r s path other m h k =
      let shared = joined-covers r.pattern s.pattern path h k in
      let special = same_literals-covers (joined r.pattern s.pattern) documents_of_nik path in
      ground (
        arith,
        (eq_iff r.method s.method).1 m,
        both_cover r.pattern s.pattern path h k,
        shared,
        special,
        other,
      )

  clashes-In : (r s : Route) (rs : List Route) → In s rs → clash r s ≡ true → clashes r rs ≡ true
  clashes-In r s [] h c = absurd h
  clashes-In r s (x ∷ rs) (inl same) c = ground (arith, ap (λ z. clash r z) same, c)
  clashes-In r s (x ∷ rs) (inr there) c = ground (arith, clashes-In r s rs there c)

  one_of :
      (rs : List Route) (r s : Route) (path : List String)
      → covers fold documents_of_nik path ≡ false
      → apart rs ≡ true
      → In r rs
      → In s rs
      → r.method ≡ s.method
      → covers fold r.pattern path ≡ true
      → covers fold s.pattern path ≡ true
      → r ≡ s
  one_of [] r s path o a i j m h k = absurd i
  one_of (x ∷ rs) r s path o a (inl same) (inl other) m h k = sym same ∙ other
  one_of (x ∷ rs) r s path o a (inl same) (inr there) m h k =
      let both = clashes-In r s rs there (clash-covers r s path o m h k) in
      absurd (ground (arith, a, ap (λ z. clashes z rs) same, both))
  one_of (x ∷ rs) r s path o a (inr there) (inl other) m h k =
      let both = clashes-In s r rs there (clash-covers s r path o (sym m) k h) in
      absurd (ground (arith, a, ap (λ z. clashes z rs) other, both))
  one_of (x ∷ rs) r s path o a (inr there) (inr here) m h k =
      one_of rs r s path o (ground arith) there here m h k

apart-routes : apart routes ≡ true
unfolding segments_meet
apart-routes = refl

-- What is relied on of fiber, of which `finds` says whether a pattern is found to take a path: the
-- segments are taken one by one, a literal one after the case of the path is lowered by `fold`.
pub record IsRouter (fold : String → String) (finds : List Segment → List String → Bool)
    : Type 0 where
  pub by_segments :
      (pattern : List Segment) (path : List String)
      → finds pattern path ≡ true
      → covers fold pattern path ≡ true

-- Where fiber finds that two registered routes of one method take a path, they are the same route, so
-- the order in which they are registered makes no difference, but for the path
-- /api/v1/customers/nik/documents.
pub one_route :
    (fold : String → String) (finds : List Segment → List String → Bool)
    (router : IsRouter fold finds) (r s : Route) (path : List String)
    → covers fold documents_of_nik path ≡ false
    → In r routes
    → In s routes
    → r.method ≡ s.method
    → finds r.pattern path ≡ true
    → finds s.pattern path ≡ true
    → r ≡ s
one_route fold finds router r s path other i j m h k =
    one_of fold routes r s path other apart-routes i j m (router.by_segments r.pattern path h)
      (router.by_segments s.pattern path k)
