-- ===== src/Kb/Chain/Seen.antt =====
-- The seqs that the walk of `Chain` has seen.
use mathlib.Core.Path.{subst}
use mathlib.Core.List.Memᴰ
use draiver.Prelude.{
  ℕ, suc, ◌≤◌, ◌<◌, ◌≡◌, refl, sym, ap, ◌∙◌, ◌⊎◌, inl, inr, true, false, ◌||◌, Option, none, some,
  List, [], ◌∷◌, Memᴰ, arith, eqb, if◌then◌else◌, Bool-cases,
}
use draiver.Prelude.Maps.{string_key, nat_key, ref_key, has, has→Mem, Mem→has}
use draiver.Kb.Chain.{older}

-- The ids of a list that are not seen yet.
abbrev pub unseen : List ℕ → List ℕ → ℕ
unseen [] seen = 0
unseen (x ∷ xs) seen = if has seen x then unseen xs seen else suc (unseen xs seen)

has_cons : (s x : ℕ) (seen : List ℕ) → has (s ∷ seen) x ≡ (eqb s x || has seen x)
unfolding has
has_cons s x seen = refl

pub unseen-le :
    (xs seen more : List ℕ)
    → ((x : ℕ) → Memᴰ x seen → Memᴰ x more)
    → unseen xs more ≤ unseen xs seen
unseen-le [] seen more h = omega arith
unseen-le (x ∷ xs) seen more h = elim (Bool-cases (has seen x)) [
  | inl t ↦ rw (t, Mem→has more x (h x (has→Mem seen x t))) (unseen-le xs seen more h)
  | inr f ↦ elim (Bool-cases (has more x)) [
    | inl t ↦ rw (f, t) (omega (arith, unseen-le xs seen more h))
    | inr n ↦ rw (f, n) (omega (arith, unseen-le xs seen more h))
  ]
]

-- A seq that is seen for the first time leaves fewer.
pub unseen-lt :
    (xs seen : List ℕ) (s : ℕ)
    → has seen s ≡ false
    → Memᴰ s xs
    → unseen xs (s ∷ seen) < unseen xs seen
unseen-lt [] seen s f m = elim m [ ]
unseen-lt (x ∷ xs) seen s f m = elim (Memᴰ.cases_cons m) [
  | inl p ↦
      let here : has (s ∷ seen) x ≡ true = Mem→has (s ∷ seen) x (Memᴰ.head (sym p)) in
      let new : has seen x ≡ false = ap (has seen) (sym p) ∙ f in
      rw (here, new) (omega (arith, unseen-le xs seen (s ∷ seen) (λ y k. Memᴰ.tail k)))
  | inr k ↦ elim (Bool-cases (has seen x)) [
    | inl t ↦ rw (t, Mem→has (s ∷ seen) x (Memᴰ.tail (has→Mem seen x t))) (unseen-lt xs seen s f k)
    | inr n ↦ elim (Bool-cases (has (s ∷ seen) x)) [
      | inl t ↦ rw (n, t) (omega (arith, unseen-lt xs seen s f k))
      | inr o ↦ rw (n, o) (omega (arith, unseen-lt xs seen s f k))
    ]
  ]
]

-- A chain of supersessions, of any length.
pub data Retires (retires : List (ℕ × List ℕ)) : ℕ → ℕ → Type 0 where
  here : {s : ℕ} → Retires retires s s
  next : {s t u : ℕ} → Memᴰ t (older retires s) → Retires retires t u → Retires retires s u

module _ (retires : List (ℕ × List ℕ)) where
  -- The seqs seen after a walk from those of a list: the ones before, the list's, and of the new ones
  -- only those behind the list, with all that they retire.
  pub record Walked (from seen after : List ℕ) : Type 0 where
    pub kept : (x : ℕ) → Memᴰ x seen → Memᴰ x after
    pub visited : (x : ℕ) → Memᴰ x from → Memᴰ x after
    pub fresh :
        (x : ℕ)
        → Memᴰ x after
        → Memᴰ x seen
          ⊎ (((s : ℕ) × Memᴰ s from × Retires retires s x)
              × ((c : ℕ) → Memᴰ c (older retires x) → Memᴰ c after))

  abbrev pub Ends : List ℕ → List ℕ → Option (List ℕ) → Type 0
  Ends from seen none = ⊥
  Ends from seen (some after) = Walked from seen after

  pub Walked-nil : (seen : List ℕ) → Walked [] seen seen
  Walked-nil seen = record { kept = λ x m. m; visited = λ x m. elim m [ ]; fresh = λ x m. inl m }

  pub Walked-seen : (s : ℕ) (seen : List ℕ) → Memᴰ s seen → Walked (s ∷ []) seen seen
  Walked-seen s seen m = record {
    kept = λ x k. k;
    visited = λ x k. Memᴰ.cast (Memᴰ.eq_of_singleton k) m;
    fresh = λ x k. inl k;
  }

  pub Walked-cons :
      (s : ℕ) (rest seen mid after : List ℕ)
      → Walked (s ∷ []) seen mid
      → Walked rest mid after
      → Walked (s ∷ rest) seen after
  Walked-cons s rest seen mid after a b = record {
    kept = λ x m. b.kept x (a.kept x m);
    visited = λ x m. elim (Memᴰ.cases_cons m) [
      | inl e ↦ b.kept x (a.visited x (Memᴰ.head e))
      | inr k ↦ b.visited x k
    ];
    fresh = λ x m. elim (b.fresh x m) [
      | inl k ↦ elim (a.fresh x k) [
        | inl z ↦ inl z
        | inr ((t, i, r), g) ↦
            inr ((t, Memᴰ.head (Memᴰ.eq_of_singleton i), r), λ c o. b.kept c (g c o))
      ]
      | inr ((t, i, r), g) ↦ inr ((t, Memᴰ.tail i, r), g)
    ];
  }

  pub Walked-below :
      (s : ℕ) (seen after : List ℕ)
      → Walked (older retires s) (s ∷ seen) after
      → Walked (s ∷ []) seen after
  Walked-below s seen after w = record {
    kept = λ x m. w.kept x (Memᴰ.tail m);
    visited = λ x m. w.kept x (Memᴰ.head (Memᴰ.eq_of_singleton m));
    fresh = λ x m. elim (w.fresh x m) [
      | inl k ↦ elim (Memᴰ.cases_cons k) [
        | inl e ↦ inr (
          (s, Memᴰ.head refl, subst (Retires retires s) (sym e) here),
          λ c o. w.visited c (subst (λ y. Memᴰ c (older retires y)) e o),
        )
        | inr z ↦ inl z
      ]
      | inr ((t, i, r), g) ↦ inr ((s, Memᴰ.head refl, next i r), g)
    ];
  }
