-- ===== src/Strconv.antt =====
-- `strconv.Atoi` of Go's standard library, which reads the numbers in a request's path and query.
use Prim.Native.Char.{code}
use Prim.Native.String.{[], ◌∷◌}
use kredit_plus.Base.{
  ℕ, ◌+◌, ◌-◌, ◌*◌, ◌^◌, ℤ, pos, negsuc, sub_ℕ, Bool, ◌&&◌, ltb, leb, ◌==◌, if◌then◌else◌, String,
  append, Option, none, some, ◌≡◌, refl,
}

-- `strconv.ErrSyntax` and `strconv.ErrRange`
pub data NumError : Type 0 where
  syntax_error range_error : NumError

pub record Atoi : Type 0 where
  pub value : ℤ
  pub error : Option NumError

-- What the loop over the digits gives: it stops at the first character that is no digit, and at the
-- first digit that takes the number out of 64 bits.
pub data Digits : Type 0 where
  number : ℕ → Digits
  not_a_digit : Digits
  too_large : Digits

abbrev pub is_digit : ℕ → Bool
is_digit c = leb b'0' c && leb c b'9'

unfoldable pub scan : String → ℕ → Digits
scan [] n = number n
scan (c ∷ s) n =
    let longer = scan s (n * 10 + (code c - b'0')) in
    if is_digit (code c)
    then (if ltb (n * 10 + (code c - b'0')) (2 ^ 64) then longer else too_large)
    else not_a_digit

above : Atoi
above = record { value = pos (2 ^ 63 - 1); error = some range_error }

below : Atoi
below = record { value = negsuc (2 ^ 63 - 1); error = some range_error }

malformed : Atoi
malformed = record { value = pos 0; error = some syntax_error }

-- the number behind a `+` or no sign
positive : Digits → Atoi
unfolding above malformed
positive (number n) = if ltb n (2 ^ 63) then record { value = pos n; error = none } else above
positive not_a_digit = malformed
positive too_large = above

-- the number behind a `-`
negative : Digits → Atoi
unfolding below malformed
negative (number n) = if leb n (2 ^ 63) then record { value = sub_ℕ 0 n; error = none } else below
negative not_a_digit = malformed
negative too_large = below

-- the number behind the sign; no digit at all is malformed
digits_of : String → Digits
unfolding scan
digits_of [] = not_a_digit
digits_of (c ∷ s) = scan (c ∷ s) 0

unfoldable pub atoi : String → Atoi
unfolding malformed positive negative digits_of
atoi [] = malformed
atoi (c ∷ s) =
    if code c == b'-'
    then negative (digits_of s)
    else if code c == b'+'
    then positive (digits_of s)
    else positive (digits_of (c ∷ s))

-- the text of the error, over `strconv.Quote`
unfoldable pub atoi_text : (String → String) → String → NumError → String
atoi_text quote s syntax_error =
    append "strconv.Atoi: parsing " (append (quote s) ": invalid syntax")
atoi_text quote s range_error =
    append "strconv.Atoi: parsing " (append (quote s) ": value out of range")

minus_42 : (atoi "-42").value ≡ negsuc 41
unfolding atoi scan
minus_42 = refl

out_of_range :
    atoi "99999999999999999999x" ≡ record { value = pos (2 ^ 63 - 1); error = some range_error }
unfolding atoi scan
out_of_range = refl
