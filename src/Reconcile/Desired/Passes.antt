-- ===== src/Reconcile/Desired/Passes.antt =====
-- reconcile.go: which attempts `desired`'s first loop and `desireWantedChild` add to the set.
use mathlib.Core.List.Memᴰ
use mathlib.Core.Path.{subst}
use draiver.Prelude.{
  String, ◌≡◌, refl, sym, ap, ◌∙◌, ◌↔◌, ◌⊎◌, inl, inr, Bool, true, false, false≢true, Option, none,
  some, List, [], ◌∷◌, map, Memᴰ, arith, if◌then◌else◌, Bool-cases,
}
use draiver.Prelude.Maps.{
  string_key, nat_key, same_ref, same_ref_iff, ref_key, has→Mem, Mem→has, insert,
}
use draiver.Prelude.Text.{trim_space, sort_strings}
use draiver.Project.State.{Parsed, ok, err}
use draiver.Project.Fleet.{Attempt, is_running, latest, Ref, ref, is_direct}
use draiver.Project.Fleet.Desired.{LatestRuns, some_inj, Wants}
use draiver.Project.Fleet.Escalated.{has-sort_strings}
use draiver.Reconcile.Gates.{Desired}
use draiver.Reconcile.Desired.{
  Site, Direct, holds_nonce, on_marker, direct_step, direct_from, mint_wanted_child,
  desire_wanted_child, desire_each,
}

abbrev pub keys : Desired → List Ref
keys out = map (λ entry. entry.0) out

-- The marker names the live controller.
abbrev pub honoured : Site → Parsed (Option String) → Bool
honoured s (err e) = false
honoured s (ok none) = false
honoured s (ok (some nonce)) = holds_nonce s.controller nonce

pub Mem-insert :
    (k : Ref) (v : Attempt) (m : Desired) (r : Ref)
    → Memᴰ r (keys (insert k v m)) ↔ (r ≡ k) ⊎ Memᴰ r (keys m)
unfolding insert
Mem-insert k v [] r = (
  λ m. elim (Memᴰ.cases_cons m) [ inl p ↦ inl p | inr q ↦ inr q ],
  λ o. elim o [ inl p ↦ Memᴰ.head p | inr q ↦ Memᴰ.tail q ],
)
Mem-insert k v ((j, w) ∷ m) r = elim (Bool-cases (same_ref j k)) [
  | inl e ↦
      let p : j ≡ k = (same_ref_iff j k).0 e in
      rw e (
        λ x. elim (Memᴰ.cases_cons x) [ inl q ↦ inl q | inr q ↦ inr (Memᴰ.tail q) ],
        λ o. elim o [
          | inl q ↦ Memᴰ.head q
          | inr q ↦ elim (Memᴰ.cases_cons q) [ inl i ↦ Memᴰ.head (i ∙ p) | inr i ↦ Memᴰ.tail i ]
        ],
      )
  | inr f ↦
      let (g, h) = Mem-insert k v m r in
      rw f (
        λ x. elim (Memᴰ.cases_cons x) [
          | inl q ↦ inr (Memᴰ.head q)
          | inr q ↦ elim (g q) [ inl i ↦ inl i | inr i ↦ inr (Memᴰ.tail i) ]
        ],
        λ o. elim o [
          | inl q ↦ Memᴰ.tail (h (inl q))
          | inr q ↦ elim (Memᴰ.cases_cons q) [ inl i ↦ Memᴰ.head i | inr i ↦ Memᴰ.tail (h (inr i)) ]
        ],
      )
]

pub Mem-sort_strings : (l : List String) (x : String) → Memᴰ x (sort_strings l) ↔ Memᴰ x l
Mem-sort_strings l x = (
  λ m. has→Mem l x (sym (has-sort_strings l x) ∙ Mem→has (sort_strings l) x m),
  λ m. has→Mem (sort_strings l) x (has-sort_strings l x ∙ Mem→has l x m),
)

-- The entries that the direct pass adds.
abbrev pub Directly : List Attempt → Ref → Type 0
Directly attempts r = (a : Attempt) × Memᴰ a attempts × (is_direct a ≡ true) × (r ≡ ref a)

by_direct :
    (b : Bool) (a : Attempt) (out : Desired) (r : Ref)
    → Memᴰ r (keys (if b then insert (ref a) a out else out))
      ↔ (((b ≡ true) × (r ≡ ref a)) ⊎ Memᴰ r (keys out))
by_direct true a out r =
    let (g, h) = Mem-insert (ref a) a out r in
    (
      λ m. elim (g m) [ inl p ↦ inl (refl, p) | inr q ↦ inr q ],
      λ o. elim o [ inl p ↦ h (inl p.1) | inr q ↦ h (inr q) ],
    )
by_direct false a out r = (λ m. inr m, λ o. elim o [ inl p ↦ absurd (false≢true p.0) | inr q ↦ q ])

module _ (s : Site) where
  abbrev pub NoStart : List Attempt → Type 0
  NoStart attempts =
      (a : Attempt) → Memᴰ a attempts → a.enabled ≡ false → honoured s (s.marker (ref a)) ≡ false

  on_marker_out :
      (a : Attempt) (p : Parsed (Option String)) (d : Direct)
      → honoured s p ≡ false
      → (on_marker s a p d).out ≡ d.out
  unfolding on_marker
  on_marker_out a (err e) d h = refl
  on_marker_out a (ok none) d h = refl
  on_marker_out a (ok (some nonce)) d h = rw h refl

  direct_step_out :
      (a : Attempt) (d : Direct)
      → (a.enabled ≡ false → honoured s (s.marker (ref a)) ≡ false)
      → (direct_step s d a).out ≡ (if is_direct a then insert (ref a) a d.out else d.out)
  unfolding direct_step
  direct_step_out a d n = elim (Bool-cases a.enabled) [
    | inl u ↦ ground (arith, u)
    | inr v ↦ ground (arith, v, on_marker_out a (s.marker (ref a)) d (n v))
  ]

  direct_step_iff :
      (a : Attempt) (d : Direct) (r : Ref)
      → (a.enabled ≡ false → honoured s (s.marker (ref a)) ≡ false)
      → Memᴰ r (keys (direct_step s d a).out)
        ↔ (((is_direct a ≡ true) × (r ≡ ref a)) ⊎ Memᴰ r (keys d.out))
  direct_step_iff a d r n = rw (direct_step_out a d n) (by_direct (is_direct a) a d.out r)

  pub direct_from_iff :
      (attempts : List Attempt) (d : Direct) (r : Ref)
      → NoStart attempts
      → Memᴰ r (keys (direct_from s d attempts).out) ↔ (Directly attempts r ⊎ Memᴰ r (keys d.out))
  unfolding direct_from
  direct_from_iff [] d r n = (λ m. inr m, λ o. elim o [ inl (b, i, t, p) ↦ elim i [ ] | inr q ↦ q ])
  direct_from_iff (a ∷ attempts) d r n =
      let (f, g) = direct_from_iff attempts (direct_step s d a) r (λ b m. n b (Memᴰ.tail m)) in
      let (h, k) = direct_step_iff a d r (n a (Memᴰ.head refl)) in
      (
        λ m. elim (f m) [
          | inl (b, i, t, p) ↦ inl (b, Memᴰ.tail i, t, p)
          | inr q ↦ elim (h q) [ inl (t, p) ↦ inl (a, Memᴰ.head refl, t, p) | inr j ↦ inr j ]
        ],
        λ o. elim o [
          | inl (b, i, t, p) ↦ elim (Memᴰ.cases_cons i) [
            | inl e ↦ g (inr (k (inl (subst (λ x. (is_direct x ≡ true) × (r ≡ ref x)) e (t, p)))))
            | inr j ↦ g (inl (b, j, t, p))
          ]
          | inr q ↦ g (inr (k (inr q)))
        ],
      )

  module _ (blank : trim_space s.default_repo ≡ "") where
    desire_wanted_child_iff :
        (child : String) (o : Option Attempt) (out : Desired) (r : Ref)
        → Memᴰ r (keys (desire_wanted_child s child o out)) ↔ (
            ((a : Attempt) × (o ≡ some a) × (is_running a.state ≡ true) × (r ≡ ref a))
            ⊎ Memᴰ r (keys out))
    unfolding desire_wanted_child mint_wanted_child
    desire_wanted_child_iff child none out r =
        rw blank (λ m. inr m, λ p. elim p [ inl (a, e, t, q) ↦ cc | inr q ↦ q ])
    desire_wanted_child_iff child (some a) out r = elim (Bool-cases (is_running a.state)) [
      | inl t ↦
          let (g, h) = Mem-insert (ref a) a out r in
          rw t (
            λ m. elim (g m) [ inl p ↦ inl (a, refl, t, p) | inr q ↦ inr q ],
            λ p. elim p [
              | inl (b, e, u, q) ↦ h (inl (q ∙ ap ref (some_inj (sym e))))
              | inr q ↦ h (inr q)
            ],
          )
      | inr f ↦ rw f (
        λ m. inr m,
        λ p. elim p [
          | inl (b, e, u, q) ↦
              absurd (false≢true (sym f ∙ ap (λ x. is_running x.state) (some_inj e) ∙ u))
          | inr q ↦ q
        ],
      )
    ]

    pub desire_each_iff :
        (attempts : List Attempt) (cs : List String) (out : Desired) (r : Ref)
        → Memᴰ r (keys (desire_each s attempts cs out)) ↔ (Wants attempts cs r ⊎ Memᴰ r (keys out))
    unfolding desire_each
    desire_each_iff attempts [] out r =
        (λ m. inr m, λ o. elim o [ inl (c, a, i, l, p) ↦ elim i [ ] | inr q ↦ q ])
    desire_each_iff attempts (c ∷ cs) out r =
        let next = desire_wanted_child s c (latest attempts c) out in
        let (f, g) = desire_each_iff attempts cs next r in
        let (h, k) = desire_wanted_child_iff c (latest attempts c) out r in
        (
          λ m. elim (f m) [
            | inl (child, a, i, l, p) ↦ inl (child, a, Memᴰ.tail i, l, p)
            | inr q ↦ elim (h q) [
              | inl (a, e, t, p) ↦ inl (c, a, Memᴰ.head refl, (e, t), p)
              | inr j ↦ inr j
            ]
          ],
          λ o. elim o [
            | inl (child, a, i, l, p) ↦ elim (Memᴰ.cases_cons i) [
              | inl e ↦
                  let (x, y) = subst (λ z. LatestRuns attempts z a) e l in
                  g (inr (k (inl (a, x, y, p))))
              | inr j ↦ g (inl (child, a, j, l, p))
            ]
            | inr q ↦ g (inr (k (inr q)))
          ],
        )
