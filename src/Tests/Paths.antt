-- ===== src/Tests/Paths.antt =====
-- The theorem on the routes, applied to a path.
use kredit_plus.Base.{String, List, [], ◌∷◌, inl, inr, ◌≡◌, refl}
use kredit_plus.Handler.Routes.{Route, route, lit, param, get_customer_by_nik}
use kredit_plus.Handler.Routing.{covers, IsRouter, one_route}

abbrev nik_route : Route
nik_route = route "GET" (lit "customers" ∷ lit "nik" ∷ param "nik" ∷ []) get_customer_by_nik

abbrev nik_path : List String
nik_path = "api" ∷ "v1" ∷ "customers" ∷ "nik" ∷ "3201010101010001" ∷ []

-- a router that takes the segments as they are
exact-IsRouter : IsRouter (λ s. s) (covers (λ s. s))
exact-IsRouter = record { by_segments = λ pattern path h. h }

one_route_example : nik_route ≡ nik_route
one_route_example =
    one_route (λ s. s) (covers (λ s. s)) exact-IsRouter nik_route nik_route nik_path refl
      (inr (inr (inr (inr (inr (inr (inr (inl refl))))))))
      (inr (inr (inr (inr (inr (inr (inr (inl refl)))))))) refl refl refl
