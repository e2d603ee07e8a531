-- ===== src/Project/Fleet/Desired.antt =====
-- Which attempts the tickets' edges and logs ask for, and who takes a child's escalation.
use mathlib.Core.List.Memᴰ
use mathlib.Core.Path.{subst}
use draiver.Prelude.{
  String, ◌≡◌, refl, sym, ap, ◌∙◌, ◌↔◌, ◌⊎◌, inl, inr, true, false≢true, Option, none, some, List,
  [], ◌∷◌, ◌++◌, map, Memᴰ, arith, Bool-cases, select, Mem-select_of, of_Mem-select,
}
use draiver.Prelude.Maps.{string_key, nat_key, ref_key}
use draiver.Project.Edges.{EdgeMap, all}
use draiver.Project.Edges.Closure.{Reaches, wants_closure-Reaches}
use draiver.Project.Fleet.{
  Attempt, is_running, latest, Ref, ref, is_direct, sources, add_running, wanted_refs, desired_of,
  derive_desired,
}

-- The ticket has an enabled attempt that is Running.
abbrev pub IsSource : List Attempt → String → Type 0
IsSource all t = (a : Attempt) × Memᴰ a all × (is_direct a ≡ true) × (t ≡ a.ticket)

-- The ticket's latest attempt is Running.
abbrev pub LatestRuns : List Attempt → String → Attempt → Type 0
LatestRuns all t a = (latest all t ≡ some a) × (is_running a.state ≡ true)

abbrev pub IsDesired : List Attempt → EdgeMap → Ref → Type 0
IsDesired all edges r =
    ((a : Attempt) × Memᴰ a all × (is_direct a ≡ true) × (r ≡ ref a))
    ⊎ ((child : String) × (a : Attempt) × Reaches (sources all) edges child
        × (¬ Memᴰ child (sources all))
        × LatestRuns all child a
        × (r ≡ ref a))

pub some_inj : {a b : Attempt} → some a ≡ some b → a ≡ b
some_inj e = ground arith

abbrev pub Wants : List Attempt → List String → Ref → Type 0
Wants all cs r =
    (child : String) × (a : Attempt) × Memᴰ child cs × LatestRuns all child a × (r ≡ ref a)

module _ (all : List Attempt) (c : String) (cs : List String) (r : Ref) where
  later : Wants all cs r → Wants all (c ∷ cs) r
  later (child, a, m, l, p) = (child, a, Memᴰ.tail m, l, p)

  here : (a : Attempt) → LatestRuns all c a → r ≡ ref a → Wants all (c ∷ cs) r
  here a l p = (c, a, Memᴰ.head refl, l, p)

  split : Wants all (c ∷ cs) r → ((a : Attempt) × LatestRuns all c a × (r ≡ ref a)) ⊎ Wants all cs r
  split (child, a, m, l, p) = elim (Memᴰ.cases_cons m) [
    | inl e ↦ inl (a, subst (λ x. LatestRuns all x a) e l, p)
    | inr k ↦ inr (child, a, k, l, p)
  ]

  -- What `add_running` makes of the list when the rest is right.
  add_running_iff :
      (o : Option Attempt) (rest : List Ref)
      → latest all c ≡ o
      → Memᴰ r rest ↔ Wants all cs r
      → Memᴰ r (add_running o rest) ↔ Wants all (c ∷ cs) r
  unfolding add_running
  add_running_iff none rest n h =
      (λ m. later (h.0 m), λ w. elim (split w) [ inl (a, l, p) ↦ cc | inr k ↦ h.1 k ])
  add_running_iff (some a) rest s h = elim (Bool-cases (is_running a.state)) [
    | inl t ↦ rw t (
      λ m. elim (Memᴰ.cases_cons m) [ inl p ↦ here a (s, t) p | inr k ↦ later (h.0 k) ],
      λ w. elim (split w) [
        | inl (b, l, p) ↦ Memᴰ.head (p ∙ ap ref (some_inj (sym l.0 ∙ s)))
        | inr k ↦ Memᴰ.tail (h.1 k)
      ],
    )
    | inr f ↦ rw f (
      λ m. later (h.0 m),
      λ w. elim (split w) [
        | inl (b, l, p) ↦
            absurd
              (false≢true (sym f ∙ ap (λ x. is_running x.state) (some_inj (sym s ∙ l.0)) ∙ l.1))
        | inr k ↦ h.1 k
      ],
    )
  ]

wanted_refs_iff :
    (all : List Attempt) (cs : List String) (r : Ref) → Memᴰ r (wanted_refs all cs) ↔ Wants all cs r
unfolding wanted_refs
wanted_refs_iff all [] r = (λ m. elim m [ ], λ w. elim w.2 [ ])
wanted_refs_iff all (c ∷ cs) r =
    add_running_iff all c cs r (latest all c) (wanted_refs all cs) refl (wanted_refs_iff all cs r)

-- An attempt is desired exactly if it is enabled and Running, or it is the latest attempt, and
-- Running, of a ticket without such an attempt that the walk down `wants:` reaches from one.
pub derive_desired-IsDesired :
    (all : List Attempt) (edges : EdgeMap)
    → (d : List Ref) × (derive_desired all edges ≡ some d)
      × ((r : Ref) → Memᴰ r d ↔ IsDesired all edges r)
unfolding derive_desired desired_of
derive_desired-IsDesired all edges =
    let (wanted, h, f) = wants_closure-Reaches (sources all) edges in
    let direct = map ref (select is_direct all) in
    (
      direct ++ wanted_refs all wanted,
      ap (desired_of all) h,
      λ r. (
        λ m. elim (Memᴰ.append_cases direct m) [
          | inl d ↦
              let (a, k, e) = Memᴰ.of_map ref (select is_direct all) d in
              let (i, t) = of_Mem-select is_direct all k in inl (a, i, t, sym e)
          | inr d ↦
              let (c, a, k, l, e) = (wanted_refs_iff all wanted r).0 d in
              let (x, y) = (f c).0 k in inr (c, a, x, y, l, e)
        ],
        λ d. elim d [
          | inl (a, i, t, e) ↦
              subst (λ x. Memᴰ x (direct ++ wanted_refs all wanted)) (sym e)
                (Memᴰ.append_left (wanted_refs all wanted)
                  (Memᴰ.map ref (Mem-select_of is_direct all t i)))
          | inr (c, a, x, y, l, e) ↦
              Memᴰ.append_right direct
                ((wanted_refs_iff all wanted r).1 (c, a, (f c).1 (x, y), l, e))
        ],
      ),
    )
