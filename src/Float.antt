-- ===== src/Float.antt =====
-- Go's `float64`: the finite values as whole multiples of 2^-1074, the infinities and NaN.
-- Every operation rounds the exact result to 53 significant bits, ties to even. The sign of zero
-- is not kept: no operation that the program uses tells the two zeros apart.
use kredit_plus.Base.{
  ℕ, zero, suc, ◌+◌, ◌-◌, ◌*◌, ◌/◌, ◌%◌, ◌^◌, ℤ, pos, negsuc, pos_part, neg_part, sub_ℕ, ◌+ℤ◌,
  ltb_ℤ, eqb_ℤ, Bool, true, false, not, ltb, leb, ◌==◌, if◌then◌else◌, ◌≡◌, refl,
}

pub data Float64 : Type 0 where
  fin : ℤ → Float64
  inf : Float64
  neg_inf : Float64
  nan : Float64

-- The number of binary digits; the fuel bounds the answer.
bits : ℕ → ℕ → ℕ
bits zero n = 0
bits (suc fuel) n = let rest = bits fuel (n / 2) in if n == 0 then 0 else rest + 1

-- The quotient p / q to the nearest whole number, ties to even.
nearest : ℕ → ℕ → ℕ
nearest p q =
    let k = p / q in
    let r = p % q in if ltb (2 * r) q then k else if ltb q (2 * r) then k + 1 else k + k % 2

-- p / q units, to 53 significant bits. Products of finite values have less than 3200 units' bits.
round_ratio : ℕ → ℕ → ℕ
unfolding bits nearest
round_ratio p q = let s = 2 ^ (bits 4400 (p / q) - 53) in nearest p (q * s) * s

-- A magnitude in units of 2^-1074, rounded already; from 2^1024 on it is infinite.
magnitude : Bool → ℕ → Float64
magnitude false n = if leb (2 ^ 2098) n then inf else fin (pos n)
magnitude true n = if leb (2 ^ 2098) n then neg_inf else fin (sub_ℕ 0 n)

is_negative : ℤ → Bool
is_negative (pos n) = false
is_negative (negsuc n) = true

abs : ℤ → ℕ
abs x = pos_part x + neg_part x

-- An exact number of units, as a `float64`.
of_units : ℤ → Float64
unfolding round_ratio magnitude is_negative abs
of_units x = magnitude (is_negative x) (round_ratio (abs x) 1)

negate : Float64 → Float64
negate (fin x) = fin (sub_ℕ (neg_part x) (pos_part x))
negate inf = neg_inf
negate neg_inf = inf
negate nan = nan

-- `a + b`
unfoldable pub add : Float64 → Float64 → Float64
unfolding of_units ◌+ℤ◌
add nan b = nan
add inf nan = nan
add inf neg_inf = nan
add inf _ = inf
add neg_inf nan = nan
add neg_inf inf = nan
add neg_inf _ = neg_inf
add (fin a) (fin b) = of_units (a +ℤ b)
add (fin a) b = b

-- `a - b`
unfoldable pub sub : Float64 → Float64 → Float64
unfolding add negate
sub a b = add a (negate b)

-- exactly one of two signs is negative
differ : Bool → Bool → Bool
differ true b = not b
differ false b = b

-- an infinity times a value of the given sign, which is not zero
signed_inf : Bool → Float64
signed_inf true = neg_inf
signed_inf false = inf

inf_times : Bool → Float64 → Float64
unfolding differ signed_inf is_negative abs
inf_times s nan = nan
inf_times s inf = signed_inf s
inf_times s neg_inf = signed_inf (not s)
inf_times s (fin x) = if abs x == 0 then nan else signed_inf (differ s (is_negative x))

-- `a * b`
unfoldable pub mul : Float64 → Float64 → Float64
unfolding inf_times round_ratio magnitude is_negative abs
mul nan b = nan
mul inf b = inf_times false b
mul neg_inf b = inf_times true b
mul (fin a) nan = nan
mul (fin a) inf = inf_times false (fin a)
mul (fin a) neg_inf = inf_times true (fin a)
mul (fin a) (fin b) =
    magnitude (differ (is_negative a) (is_negative b)) (round_ratio (abs a * abs b) (2 ^ 1074))

-- `a / b`, where a finite value over zero is infinite, or NaN for 0 / 0
unfoldable pub div : Float64 → Float64 → Float64
unfolding signed_inf differ round_ratio magnitude is_negative abs
div nan b = nan
div inf nan = nan
div inf inf = nan
div inf neg_inf = nan
div inf (fin b) = signed_inf (is_negative b)
div neg_inf nan = nan
div neg_inf inf = nan
div neg_inf neg_inf = nan
div neg_inf (fin b) = signed_inf (not (is_negative b))
div (fin a) nan = nan
div (fin a) inf = fin (pos 0)
div (fin a) neg_inf = fin (pos 0)
div (fin a) (fin b) =
    if abs b == 0
    then (if abs a == 0 then nan else signed_inf (is_negative a))
    else magnitude (differ (is_negative a) (is_negative b)) (round_ratio (abs a * 2 ^ 1074) (abs b))

-- `a < b`; a comparison with NaN fails
unfoldable pub lt : Float64 → Float64 → Bool
lt nan b = false
lt inf b = false
lt neg_inf nan = false
lt neg_inf neg_inf = false
lt neg_inf _ = true
lt (fin a) nan = false
lt (fin a) inf = true
lt (fin a) neg_inf = false
lt (fin a) (fin b) = ltb_ℤ a b

-- `a == b`
unfoldable pub eq : Float64 → Float64 → Bool
eq (fin a) (fin b) = eqb_ℤ a b
eq inf inf = true
eq neg_inf neg_inf = true
eq _ _ = false

-- `a <= b`
unfoldable pub le : Float64 → Float64 → Bool
unfolding lt eq
le a b = if lt a b then true else eq a b

-- `float64(n)`
unfoldable pub of_int : ℤ → Float64
unfolding of_units
of_int (pos n) = of_units (pos (n * 2 ^ 1074))
of_int (negsuc n) = of_units (sub_ℕ 0 ((n + 1) * 2 ^ 1074))

unfoldable pub zero_float : Float64
zero_float = fin (pos 0)

-- `math.Ceil`
unfoldable pub ceil : Float64 → Float64
ceil (fin (pos n)) = fin (pos ((n + (2 ^ 1074 - 1)) / 2 ^ 1074 * 2 ^ 1074))
ceil (fin (negsuc n)) = fin (sub_ℕ 0 ((n + 1) / 2 ^ 1074 * 2 ^ 1074))
ceil x = x

-- `int(x)`: the fraction is cut off. A value out of range gives the least integer, as on amd64.
unfoldable pub to_int : Float64 → ℤ
to_int (fin (pos n)) = let k = n / 2 ^ 1074 in if ltb k (2 ^ 63) then pos k else negsuc (2 ^ 63 - 1)
to_int (fin (negsuc n)) =
    let k = (n + 1) / 2 ^ 1074 in if leb k (2 ^ 63) then sub_ℕ 0 k else negsuc (2 ^ 63 - 1)
to_int _ = negsuc (2 ^ 63 - 1)

tenth : Float64
unfolding of_int div
tenth = div (of_int (pos 1)) (of_int (pos 10))

-- 0.1 + 0.2 is not 0.3
tenths : eq (add tenth (add tenth tenth)) (div (of_int (pos 3)) (of_int (pos 10))) ≡ false
unfolding tenth eq add
tenths = refl

half_of_three :
    eq (mul (div (of_int (pos 3)) (of_int (pos 2))) (of_int (pos 4))) (of_int (pos 6)) ≡ true
unfolding eq mul div of_int
half_of_three = refl
