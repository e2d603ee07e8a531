-- ===== src/Kb/Chain/Reached.antt =====
-- `Chain`: the walk ends and has seen the whole history of a fact.
use mathlib.Core.List.Memᴰ
use mathlib.Core.Path.{subst}
use draiver.Prelude.{
  ℕ, zero, suc, ◌≤◌, ◌<◌, ◌≡◌, refl, ◌↔◌, inl, inr, Bool, true, false, Option, none, some, List, [],
  ◌∷◌, Memᴰ, arith, eqb, if◌then◌else◌, Bool-cases, length,
}
use draiver.Prelude.Maps.{string_key, nat_key, ref_key, has, has→Mem, lookup}
use draiver.Kb.Chain.{older, then_seen, walk_each, walk_chain, all_older}
use draiver.Kb.Chain.Seen.{
  unseen, unseen-le, unseen-lt, Retires, here, next, Walked, Ends, Walked-nil, Walked-seen,
  Walked-cons, Walked-below,
}

older-cons :
    (k : ℕ) (targets : List ℕ) (retires : List (ℕ × List ℕ)) (s : ℕ)
    → older ((k, targets) ∷ retires) s ≡ (if eqb k s then targets else older retires s)
unfolding lookup
older-cons k targets retires s = elim (Bool-cases (eqb k s)) [
  | inl t ↦ rw t refl
  | inr f ↦ rw f refl
]

older-nil : (s c : ℕ) → ¬ Memᴰ c (older [] s)
unfolding lookup
older-nil s c m = elim m [ ]

Mem-all_older :
    (retires : List (ℕ × List ℕ)) (s c : ℕ) → Memᴰ c (older retires s) → Memᴰ c (all_older retires)
unfolding all_older
Mem-all_older [] s c m = absurd (older-nil s c m)
Mem-all_older ((k, targets) ∷ retires) s c m =
    let i : Memᴰ c (if eqb k s then targets else older retires s) =
      subst (Memᴰ c) (older-cons k targets retires s) m in
    elim (Bool-cases (eqb k s)) [
      | inl t ↦
          Memᴰ.append_left (all_older retires)
            (subst (λ b. Memᴰ c (if b then targets else older retires s)) t i)
      | inr f ↦ Memᴰ.append_right targets (
          Mem-all_older retires s c
            (subst (λ b. Memᴰ c (if b then targets else older retires s)) f i))
    ]

unseen-length : (xs seen : List ℕ) → unseen xs seen ≤ length xs
unseen-length [] seen = omega arith
unseen-length (x ∷ xs) seen = ground (arith, unseen-length xs seen)

module _ (retires : List (ℕ × List ℕ)) (ids : List ℕ)
    (known : (s c : ℕ) → Memᴰ c (older retires s) → Memᴰ c ids) where
  then-Ends :
      (s : ℕ) (rest seen : List ℕ) (go_on : List ℕ → Option (List ℕ)) (o : Option (List ℕ))
      → Ends retires (s ∷ []) seen o
      → ((mid : List ℕ) → Walked retires (s ∷ []) seen mid → Ends retires rest mid (go_on mid))
      → Ends retires (s ∷ rest) seen (then_seen o go_on)
  unfolding then_seen
  then-Ends s rest seen go_on none e f = e
  then-Ends s rest seen go_on (some mid) e f = go (go_on mid) (f mid e)
    where
      go : (o : Option (List ℕ)) → Ends retires rest mid o → Ends retires (s ∷ rest) seen o
      go none z = z
      go (some after) w = Walked-cons retires s rest seen mid after e w

  each-Ends :
      (n : ℕ) (visit : ℕ → List ℕ → Option (List ℕ))
      → ((s : ℕ) (seen : List ℕ)
          → Memᴰ s ids
          → unseen ids seen < n
          → Ends retires (s ∷ []) seen (visit s seen))
      → (cs seen : List ℕ) → ((c : ℕ) → Memᴰ c cs → Memᴰ c ids)
      → unseen ids seen < n
      → Ends retires cs seen (walk_each visit cs seen)
  unfolding walk_each
  each-Ends n visit v [] seen k lt = Walked-nil retires seen
  each-Ends n visit v (s ∷ cs) seen k lt =
      then-Ends s cs seen (walk_each visit cs) (visit s seen) (v s seen (k s (Memᴰ.head refl)) lt)
        (λ mid w.
          each-Ends n visit v cs mid (λ c m. k c (Memᴰ.tail m))
            (omega (arith, lt, unseen-le ids seen mid w.kept)))

  if-Ends :
      (b : Bool) (from seen : List ℕ) (x y : Option (List ℕ))
      → (b ≡ true → Ends retires from seen x)
      → (b ≡ false → Ends retires from seen y)
      → Ends retires from seen (if b then x else y)
  if-Ends true from seen x y f g = f refl
  if-Ends false from seen x y f g = g refl

  below-Ends :
      (s : ℕ) (seen : List ℕ) (o : Option (List ℕ))
      → Ends retires (older retires s) (s ∷ seen) o
      → Ends retires (s ∷ []) seen o
  below-Ends s seen none e = e
  below-Ends s seen (some after) w = Walked-below retires s seen after w

  -- With more fuel than unseen seqs, the walk ends.
  walk_chain-Ends :
      (n s : ℕ) (seen : List ℕ)
      → Memᴰ s ids
      → unseen ids seen < n
      → Ends retires (s ∷ []) seen (walk_chain n retires s seen)
  unfolding walk_chain
  walk_chain-Ends zero s seen m lt = omega (arith, lt)
  walk_chain-Ends (suc n) s seen m lt =
      if-Ends (has seen s) (s ∷ []) seen (some seen) _
        (λ t. Walked-seen retires s seen (has→Mem seen s t))
        (λ f. below-Ends s seen _ (
          each-Ends n (walk_chain n retires) (λ x more i l. walk_chain-Ends n x more i l)
            (older retires s) (s ∷ seen) (λ c i. known s c i)
            (omega (arith, lt, unseen-lt ids seen s f m))))

-- The walk from a seq has seen exactly the seqs of its history.
module _ (retires : List (ℕ × List ℕ)) (seq : ℕ) where
  behind :
      (after : List ℕ)
      → Walked retires (seq ∷ []) [] after
      → (x u : ℕ) → Memᴰ x after
      → Retires retires x u
      → Memᴰ u after
  behind after w x u m here = m
  behind after w x u m (next {t = t} i r) = elim (w.fresh x m) [
    | inl z ↦ elim z [ ]
    | inr (a, g) ↦ behind after w t u (g t i) r
  ]

  history :
      (after : List ℕ)
      → Walked retires (seq ∷ []) [] after
      → (x : ℕ) → Memᴰ x after ↔ Retires retires seq x
  history after w x = (
    λ m. elim (w.fresh x m) [
      | inl z ↦ elim z [ ]
      | inr ((s, i, r), g) ↦ subst (λ y. Retires retires y x) (Memᴰ.eq_of_singleton i) r
    ],
    λ r. behind after w seq x (w.visited seq (Memᴰ.head refl)) r,
  )

  pub walk_chain-history :
      (after : List ℕ) × (walk_chain (suc (suc (length (all_older retires)))) retires seq []
        ≡ some after)
      × ((x : ℕ) → Memᴰ x after ↔ Retires retires seq x)
  walk_chain-history =
      of_end (walk_chain (suc (suc (length (all_older retires)))) retires seq []) refl (
        walk_chain-Ends retires (seq ∷ all_older retires)
          (λ s c m. Memᴰ.tail (Mem-all_older retires s c m))
          (suc (suc (length (all_older retires)))) seq [] (Memᴰ.head refl)
          (omega (arith, unseen-length (seq ∷ all_older retires) [])))
    where
      of_end :
          (o : Option (List ℕ))
          → walk_chain (suc (suc (length (all_older retires)))) retires seq [] ≡ o
          → Ends retires (seq ∷ []) [] o
          → (after : List ℕ) × (walk_chain (suc (suc (length (all_older retires)))) retires seq []
              ≡ some after)
            × ((x : ℕ) → Memᴰ x after ↔ Retires retires seq x)
      of_end none e z = absurd z
      of_end (some after) e w = (after, e, history after w)
