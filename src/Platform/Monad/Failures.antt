-- ===== src/Platform/Monad/Failures.antt =====
-- A fourth property of a call: each error that it may give has a property. Its rules for the
-- operators.
use kredit_plus.Base.{Bool, true, false, String, ◌≡◌, subst, arith, inl, inr}
use kredit_plus.Entity.Error.{Error, wrapped}
use kredit_plus.Platform.Table.{err}
use kredit_plus.Platform.World.{World, Platform}
use kredit_plus.Platform.Monad.{M, pure, raise, ◌>>=◌, ◌>>◌, wrap, fail_if, now, new_uuid}
use kredit_plus.Platform.Monad.Outcomes.{Result-cases}

pub record Fails {A : Type 0} (P : Error → Type 0) (m : M A) : Type 0 where
  pub at : (w : World) (e : Error) → (m w).0 ≡ err e → P e

module _ (P : Error → Type 0) where
  pub Fails-pure : {A : Type 0} (a : A) → Fails P (pure a)
  unfolding pure
  Fails-pure a = record { at = λ w e h. cc }

  pub Fails-raise : {A : Type 0} (x : Error) → P x → Fails {A = A} P (raise x)
  unfolding raise
  Fails-raise x q = record { at = λ w e h. ground (arith, q) }

  pub Fails-fail_if : (c : Bool) (x : Error) → P x → Fails P (fail_if c x)
  unfolding fail_if
  Fails-fail_if true x q = record { at = λ w e h. ground (arith, q) }
  Fails-fail_if false x q = record { at = λ w e h. cc }

  pub Fails-wrap :
      {A : Type 0} (text : String) (m : M A)
      → ((x : Error) → P (wrapped text x))
      → Fails P (wrap text m)
  unfolding wrap
  Fails-wrap text m q = record {
    at = λ w e h. elim (Result-cases (m w).0) [
      | inl (a, eq) ↦ absurd (ground arith)
      | inr (x, eq) ↦ let same : wrapped text x ≡ e = ground arith in subst P same (q x)
    ];
  }

  pub Fails-bind :
      {A B : Type 0} (m : M A) (f : A → M B)
      → Fails P m
      → ((a : A) → Fails P (f a))
      → Fails P (m >>= f)
  unfolding ◌>>=◌
  Fails-bind m f hm hf = record {
    at = λ w e h. elim (Result-cases (m w).0) [
      | inl (a, eq) ↦ (hf a).at (m w).1 e (ground arith)
      | inr (x, eq) ↦ let same : x ≡ e = ground arith in subst P same (hm.at w x eq)
    ];
  }

  pub Fails-then :
      {B : Type 0} (m : M (Unit {0})) (k : M B) → Fails P m → Fails P k → Fails P (m >> k)
  unfolding ◌>>◌
  Fails-then m k hm hk = Fails-bind m (λ _. k) hm (λ _. hk)

  pub Fails-now : (p : Platform) → Fails P (now p)
  unfolding now
  Fails-now p = record { at = λ w e h. cc }

  pub Fails-new_uuid : (p : Platform) → Fails P (new_uuid p)
  unfolding new_uuid
  Fails-new_uuid p = record { at = λ w e h. cc }

pub ruleset fails_rules = (
  Fails-pure, Fails-raise, Fails-fail_if, Fails-wrap, Fails-bind, Fails-then, Fails-now,
  Fails-new_uuid,
)
