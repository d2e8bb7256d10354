-- ===== src/Startup/Attempts.antt =====
-- Go's pairs of a value and an error, where no table is at hand.
use kredit_plus.Base.{String, Option, none, some}
use kredit_plus.Entity.Error.{Error, wrapped}
use kredit_plus.Platform.Table.{Result, ok, err}

infixl 5 ◌>>=◌ ◌>>◌
unfoldable pub ◌>>=◌ : {A B : Type 0} → Result A → (A → Result B) → Result B
◌>>=◌ (ok a) f = f a
◌>>=◌ (err e) f = err e

unfoldable pub ◌>>◌ : {B : Type 0} → Result (Unit {0}) → Result B → Result B
m >> k = m >>= λ _. k

-- `value, err := call; if err != nil { return nil, fmt.Errorf("text: %w", err) }`
unfoldable pub wrap_error : {A : Type 0} → String → Result A → Result A
wrap_error text (ok a) = ok a
wrap_error text (err e) = err (wrapped text e)

-- a call that gives an error or nothing
abbrev pub of_error : Option Error → Result (Unit {0})
of_error none = ok tt
of_error (some e) = err e
