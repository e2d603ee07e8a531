-- ===== src/Prelude/Commands.antt =====
-- Commands that carry a state and may end in an error, and how a statement passes through a chain.
use mathlib.Core.Path.{subst}
use mathlib.Core.Path.{◌≡◌, refl, sym, ap}
use mathlib.Core.Bool.{Bool, true, false}

pub data Run (E S A : Type 0) : Type 0 where
  ok : A → S → Run E S A
  err : E → S → Run E S A

abbrev pub Cmd : Type 0 → Type 0 → Type 0 → Type 0
Cmd E S A = S → Run E S A

module _ {E S A B : Type 0} where
  abbrev pub and_then : Run E S A → (A → Cmd E S B) → Run E S B
  and_then (ok a s) k = k a s
  and_then (err e s) k = err e s

  infixl 5 ◌>>=◌ ◌>>◌
  abbrev pub ◌>>=◌ : Cmd E S A → (A → Cmd E S B) → Cmd E S B
  m >>= k = λ s. and_then (m s) k

  abbrev pub ◌>>◌ : Cmd E S A → Cmd E S B → Cmd E S B
  m >> n = m >>= λ _. n

module _ {E S : Type 0} where
  abbrev pub pure : {A : Type 0} → A → Cmd E S A
  pure = ok

  abbrev pub throw : {A : Type 0} → E → Cmd E S A
  throw = err

  abbrev pub finished : E → Bool × S → Run E S (Unit {0})
  finished e (true, s) = ok tt s
  finished e (false, s) = err e s

  -- A command that may change the state; false is a failure.
  abbrev pub act : E → (S → Bool × S) → Cmd E S (Unit {0})
  act e write = λ s. finished e (write s)

  abbrev pub guard : Bool → E → Cmd E S (Unit {0})
  guard true e = pure tt
  guard false e = throw e

module _ {E S A : Type 0} where
  -- A command that leaves the state as it is.
  abbrev pub Reads : S → Run E S A → Type 0
  Reads s (ok a t) = t ≡ s
  Reads s (err e t) = t ≡ s

pub guard-Reads : {E S : Type 0} (b : Bool) (e : E) (s : S) → Reads s (guard b e s)
guard-Reads true e s = refl
guard-Reads false e s = refl

module _ {E S A B : Type 0} (P : Run E S B → Type 0) where
  -- A statement of a chain holds if it holds where its first step fails and behind that step.
  pub run-then :
      (Q : Run E S A → Type 0) (r : Run E S A) (k : A → Cmd E S B)
      → Q r
      → ((a : A) (t : S) → Q (ok a t) → P (k a t))
      → ((e : E) (t : S) → Q (err e t) → P (err e t))
      → P (and_then r k)
  run-then Q (ok a t) k q f g = f a t q
  run-then Q (err e t) k q f g = g e t q

  pub reads-then :
      (r : Run E S A) (k : A → Cmd E S B) (s : S)
      → Reads s r
      → ((e : E) → P (err e s))
      → ((a : A) → r ≡ ok a s → P (k a s))
      → P (and_then r k)
  reads-then (ok a t) k s q h f = subst (λ x. P (k a x)) (sym q) (f a (ap (ok a) q))
  reads-then (err e t) k s q h f = subst (λ x. P (err e x)) (sym q) (h e)

module _ {E S B : Type 0} (P : Run E S B → Type 0) where
  pub guard-then :
      (b : Bool) (e : E) (k : Unit {0} → Cmd E S B) (s : S)
      → P (err e s)
      → (b ≡ true → P (k tt s))
      → P (and_then (guard b e s) k)
  guard-then true e k s h f = f refl
  guard-then false e k s h f = h

  pub act-then :
      (e : E) (write : S → Bool × S) (k : Unit {0} → Cmd E S B) (s : S)
      → ((t : S) → write s ≡ (false, t) → P (err e t))
      → ((t : S) → write s ≡ (true, t) → P (k tt t))
      → P (and_then (act e write s) k)
  act-then e write k s h f = by_result (write s) refl
    where
      by_result : (r : Bool × S) → write s ≡ r → P (and_then (finished e r) k)
      by_result (true, t) q = f t q
      by_result (false, t) q = h t q
