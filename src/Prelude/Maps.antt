-- ===== src/Prelude/Maps.antt =====
-- Go maps as association lists: the first entry of a key counts. The packages sort whatever a
-- map's iteration order would decide, or fold by an operation that the order does not change.
use Prim.Native.Nat.{ℕ}
use Prim.Native.String.{String}
use mathlib.Core.Path.{◌≡◌, refl, sym, ap, ap₂}
use mathlib.Core.Logic.{◌↔◌}
use mathlib.Core.Bool.{Bool, true, false, ◌||◌, ◌&&◌}
use mathlib.Core.Option.{Option, none, some}
use mathlib.Core.List.{List, [], ◌∷◌, ◌++◌, Memᴰ}
use mathlib.Core.Logic.{inl, inr}
use native.Mathlib.Omega.{arith}
use text.Mathlib.Text.{◌==◌}
use text.Mathlib.TextEquality.{eq_iff}
use draiver.Prelude.Tests.{eqb, if◌then◌else◌, Bool-cases, eqb→eq, eqb_refl}

pub record Key {ℓ} (K : Type ℓ) : Type ℓ where
  pub same : K → K → Bool
  pub same_iff : (a b : K) → (same a b ≡ true) ↔ (a ≡ b)

instance abbrev pub string_key : Key String
string_key = record { same = ◌==◌; same_iff = eq_iff }

pub eqb_iff : (a b : ℕ) → (eqb a b ≡ true) ↔ (a ≡ b)
eqb_iff a b = (eqb→eq a b, λ e. rw e (eqb_refl b))

instance abbrev pub nat_key : Key ℕ
nat_key = record { same = eqb; same_iff = eqb_iff }

abbrev pub same_ref : String × String → String × String → Bool
same_ref a b = (a.0 == b.0) && (a.1 == b.1)

pub same_ref_iff : (a b : String × String) → (same_ref a b ≡ true) ↔ (a ≡ b)
same_ref_iff a b = (
  λ h.
      ap₂ (λ (x y : String). (x, y)) ((eq_iff a.0 b.0).0 (ground arith))
        ((eq_iff a.1 b.1).0 (ground arith)),
  λ e. rw (
    (eq_iff a.0 b.0).1 (ap (λ (x : String × String). x.0) e),
    (eq_iff a.1 b.1).1 (ap (λ (x : String × String). x.1) e),
  ),
)

-- A struct of two strings as a key.
instance abbrev pub ref_key : Key (String × String)
ref_key = record { same = same_ref; same_iff = same_ref_iff }

module _ {ℓ} {K : Type ℓ} ⦃key : Key K⦄ where
  -- `set[k]` on a `map[K]bool` that holds only true.
  unfoldable pub has : List K → K → Bool
  has [] k = false
  has (j ∷ s) k = key.same j k || has s k

  pub has→Mem : (s : List K) (k : K) → has s k ≡ true → Memᴰ k s
  unfolding has
  has→Mem [] k h = cc
  has→Mem (j ∷ s) k h = elim (Bool-cases (key.same j k)) [
    | inl e ↦ Memᴰ.head (rw ((key.same_iff j k).0 e))
    | inr e ↦ Memᴰ.tail (has→Mem s k (rw e at h))
  ]

  pub Mem→has : (s : List K) (k : K) → Memᴰ k s → has s k ≡ true
  unfolding has
  Mem→has [] k h = elim h [ ]
  Mem→has (j ∷ s) k (Memᴰ.head e) = rw ((key.same_iff j k).1 (sym e))
  Mem→has (j ∷ s) k (Memᴰ.tail m) = ground (arith, Mem→has s k m)

module _ {ℓ κ} {K : Type ℓ} {V : Type κ} ⦃key : Key K⦄ where
  -- `v, ok := m[k]`
  unfoldable pub lookup : List (K × V) → K → Option V
  lookup [] k = none
  lookup ((j, v) ∷ m) k = let rest = lookup m k in if key.same j k then some v else rest

  -- `m[k] = v`
  unfoldable pub insert : K → V → List (K × V) → List (K × V)
  insert k v [] = (k, v) ∷ []
  insert k v ((j, w) ∷ m) =
      let rest = insert k v m in if key.same j k then (k, v) ∷ m else (j, w) ∷ rest

  -- `delete(m, k)`
  unfoldable pub delete : K → List (K × V) → List (K × V)
  delete k [] = []
  delete k ((j, w) ∷ m) = let rest = delete k m in if key.same j k then rest else (j, w) ∷ rest

  pub lookup-insert :
      (k j : K) (v : V) (m : List (K × V))
      → lookup (insert k v m) j ≡ (if key.same k j then some v else lookup m j)
  unfolding lookup insert
  lookup-insert k j v [] = refl
  lookup-insert k j v ((i, w) ∷ m) =
      ground (arith, key.same_iff k j, key.same_iff i k, key.same_iff i j, lookup-insert k j v m)

  pub lookup-delete :
      (k j : K) (m : List (K × V))
      → lookup (delete k m) j ≡ (if key.same k j then none else lookup m j)
  unfolding lookup delete
  lookup-delete k j [] = ground arith
  lookup-delete k j ((i, w) ∷ m) =
      ground (arith, key.same_iff k j, key.same_iff i k, key.same_iff i j, lookup-delete k j m)

module _ {ℓ} {K : Type ℓ} ⦃key : Key K⦄ where
  pub has-append : (s t : List K) (k : K) → has (s ++ t) k ≡ (has s k || has t k)
  unfolding has
  has-append [] t k = refl
  has-append (j ∷ s) t k = ground (arith, has-append s t k)
