-- ===== src/Platform/Monad/Leads.antt =====
-- A fifth property of a call: it leads from tables of one kind to tables of another, whatever it
-- answers. Its rules for the operators.
use kredit_plus.Base.{String, sym, subst}
use kredit_plus.Entity.Error.{wrapped}
use kredit_plus.Platform.Table.{Result, ok, err}
use kredit_plus.Platform.World.{Db, World}
use kredit_plus.Platform.Monad.{M, ◌>>=◌, wrap}
use kredit_plus.Platform.Monad.Effects.{ReadOnly, Keeps}

pub record Leads {A : Type 0} (P Q : Db → Type 0) (m : M A) : Type 0 where
  pub at : (w : World) → P w.db → Q (m w).1.db

module _ {A B : Type 0} (P Q : Db → Type 0) where
  -- a read in front of the call, where the tables may stay as they are
  pub Leads-read :
      (m : M A) (f : A → M B)
      → ((db : Db) → P db → Q db)
      → ReadOnly m
      → ((a : A) → Leads P Q (f a))
      → Leads P Q (m >>= f)
  unfolding ◌>>=◌
  Leads-read m f weak r k = record { at = λ w h. go (m w) (subst P (sym (r.at w)) h) }
    where
      go :
          (x : Result A × World)
          → P x.1.db
          → Q
              (let (r, w1) = x in
                elim r as (λ _. Result B × World) [ ok a ↦ f a w1 | err e ↦ (err e, w1) ]).1.db
      go (ok a, w1) h = (k a).at w1 h
      go (err e, w1) h = weak w1.db h

  -- calls behind it that keep what it leads to
  pub Leads-kept :
      (m : M A) (f : A → M B) → Leads P Q m → ((a : A) → Keeps Q (f a)) → Leads P Q (m >>= f)
  unfolding ◌>>=◌
  Leads-kept m f l k = record { at = λ w h. go (m w) (l.at w h) }
    where
      go :
          (x : Result A × World)
          → Q x.1.db
          → Q
              (let (r, w1) = x in
                elim r as (λ _. Result B × World) [ ok a ↦ f a w1 | err e ↦ (err e, w1) ]).1.db
      go (ok a, w1) h = (k a).at w1 h
      go (err e, w1) h = h

module _ {A : Type 0} (P Q : Db → Type 0) where
  pub Leads-wrap : (text : String) (m : M A) → Leads P Q m → Leads P Q (wrap text m)
  unfolding wrap
  Leads-wrap text m l = record { at = λ w h. go (m w) (l.at w h) }
    where
      go :
          (x : Result A × World)
          → Q x.1.db
          → Q
              (let (r, w1) = x in
                elim r as (λ _. Result A × World) [
                  | ok a ↦ (ok a, w1)
                  | err e ↦ (err (wrapped text e), w1)
                ]).1.db
      go (ok a, w1) h = h
      go (err e, w1) h = h
