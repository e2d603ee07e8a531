-- ===== src/Prelude/Lists.antt =====
-- Lists measured by native numbers, and the loops over slices that the packages share.
use Prim.Native.Nat.{ℕ, suc, ◌+◌}
use mathlib.Core.Path.{◌≡◌, refl}
use mathlib.Core.Bool.{Bool, true, false, ◌&&◌, ◌||◌}
use mathlib.Core.Option.{Option, none, some}
use mathlib.Core.List.{List, [], ◌∷◌, ◌++◌, Memᴰ}
use native.Mathlib.Omega.{arith}
use mathlib.Core.List.Memᴰ
use mathlib.Core.Path.{sym, ap, ◌∙◌, subst}
use mathlib.Core.Logic.{◌⊎◌, inl, inr}
use draiver.Prelude.Tests.{if◌then◌else◌, Bool-cases}

module _ {ℓ} {A : Type ℓ} where
  abbrev pub length : List A → ℕ
  length [] = 0
  length (x ∷ xs) = suc (length xs)

  pub length-append : (xs ys : List A) → length (xs ++ ys) ≡ length xs + length ys
  length-append [] ys = omega arith
  length-append (x ∷ xs) ys = omega (arith, length-append xs ys)

  -- `xs[len(xs)-1]`, with the test on the length.
  abbrev pub last : List A → Option A
  last [] = none
  last (x ∷ []) = some x
  last (x ∷ y ∷ ys) = last (y ∷ ys)

  pub last-append : (xs : List A) (y : A) → last (xs ++ y ∷ []) ≡ some y
  last-append [] y = refl
  last-append (x ∷ []) y = refl
  last-append (x ∷ z ∷ xs) y = last-append (z ∷ xs) y

  -- A loop that appends the elements that pass a test.
  abbrev pub select : (A → Bool) → List A → List A
  select p [] = []
  select p (x ∷ xs) = let rest = select p xs in if p x then x ∷ rest else rest

  -- A loop that returns true at the first element that passes a test.
  abbrev pub any : (A → Bool) → List A → Bool
  any p [] = false
  any p (x ∷ xs) = p x || any p xs

  abbrev pub every : (A → Bool) → List A → Bool
  every p [] = true
  every p (x ∷ xs) = p x && every p xs

  abbrev pub All {κ} : (A → Type κ) → List A → Type κ
  All P [] = Unit
  All P (x ∷ xs) = P x × All P xs

  pub All-append {κ} : (P : A → Type κ) (xs ys : List A) → All P xs → All P ys → All P (xs ++ ys)
  All-append P [] ys hx hy = hy
  All-append P (x ∷ xs) ys hx hy = (hx.0, All-append P xs ys hx.1 hy)

  pub select-append :
      (p : A → Bool) (xs ys : List A) → select p (xs ++ ys) ≡ select p xs ++ select p ys
  select-append p [] ys = refl
  select-append p (x ∷ xs) ys = ground (arith, select-append p xs ys)

  pub select-cong :
      (p q : A → Bool) (xs : List A) → All (λ x. p x ≡ q x) xs → select p xs ≡ select q xs
  select-cong p q [] h = refl
  select-cong p q (x ∷ xs) h = ground (arith, select-cong p q xs h.1)

  pub any-append : (p : A → Bool) (xs ys : List A) → any p (xs ++ ys) ≡ (any p xs || any p ys)
  any-append p [] ys = refl
  any-append p (x ∷ xs) ys = ground (arith, any-append p xs ys)

module _ {ℓ} {A : Type ℓ} where
  select_yes :
      (p : A → Bool) (x : A) (xs : List A) → p x ≡ true → select p (x ∷ xs) ≡ x ∷ select p xs
  select_yes p x xs h = rw h

  select_no : (p : A → Bool) (x : A) (xs : List A) → p x ≡ false → select p (x ∷ xs) ≡ select p xs
  select_no p x xs h = rw h

  pub Mem-select_of :
      (p : A → Bool) {x : A} (xs : List A) → p x ≡ true → Memᴰ x xs → Memᴰ x (select p xs)
  Mem-select_of p [] h m = elim m [ ]
  Mem-select_of p (y ∷ ys) h (Memᴰ.head e) =
      subst (Memᴰ _) (sym (select_yes p y ys (ap p (sym e) ∙ h))) (Memᴰ.head e)
  Mem-select_of p (y ∷ ys) h (Memᴰ.tail m) = elim (Bool-cases (p y)) [
    | inl t ↦ subst (Memᴰ _) (sym (select_yes p y ys t)) (Memᴰ.tail (Mem-select_of p ys h m))
    | inr f ↦ subst (Memᴰ _) (sym (select_no p y ys f)) (Mem-select_of p ys h m)
  ]

  pub of_Mem-select :
      (p : A → Bool) {x : A} (xs : List A) → Memᴰ x (select p xs) → Memᴰ x xs × (p x ≡ true)
  of_Mem-select p [] m = elim m [ ]
  of_Mem-select p (y ∷ ys) m = elim (Bool-cases (p y)) [
    | inl t ↦ kept (Memᴰ.cases_cons (subst (Memᴰ _) (select_yes p y ys t) m)) t (of_Mem-select p ys)
    | inr f ↦
        let (k, h) = of_Mem-select p ys (subst (Memᴰ _) (select_no p y ys f) m) in (Memᴰ.tail k, h)
  ]
    where
      kept :
          {x : A}
          → (x ≡ y) ⊎ Memᴰ x (select p ys)
          → p y ≡ true
          → (Memᴰ x (select p ys) → Memᴰ x ys × (p x ≡ true))
          → Memᴰ x (y ∷ ys) × (p x ≡ true)
      kept (inl e) t ih = (Memᴰ.head e, ap p e ∙ t)
      kept (inr k) t ih = let (j, h) = ih k in (Memᴰ.tail j, h)

  pub select-select :
      (p q : A → Bool) (xs : List A) → select p (select q xs) ≡ select (λ x. q x && p x) xs
  select-select p q [] = refl
  select-select p q (x ∷ xs) = ground (arith, select-select p q xs)

  pub select-ext :
      (p q : A → Bool) (xs : List A) → ((x : A) → p x ≡ q x) → select p xs ≡ select q xs
  select-ext p q [] h = refl
  select-ext p q (x ∷ xs) h = ground (arith, h x, select-ext p q xs h)
