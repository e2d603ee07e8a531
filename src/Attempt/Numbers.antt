-- ===== src/Attempt/Numbers.antt =====
-- `nextID` gives an id that no attempt has.
use mathlib.Core.List.Memᴰ
use draiver.Prelude.{
  ℕ, ◌+◌, ◌≤◌, String, ◌≡◌, ap, inl, inr, Option, some, List, [], ◌∷◌, Memᴰ, arith, ltb,
  if◌then◌else◌,
}
use draiver.Attempt.{or_zero, max_id, next_id}

max_id-le : (atoi : String → Option ℕ) (ids : List String) (n : ℕ) → n ≤ max_id atoi ids n
unfolding max_id
max_id-le atoi [] n = omega arith
max_id-le atoi (id ∷ ids) n =
    ground (arith, max_id-le atoi ids (if ltb n (or_zero (atoi id)) then or_zero (atoi id) else n))

id-le-max_id :
    (atoi : String → Option ℕ) (ids : List String) (n : ℕ) (id : String)
    → Memᴰ id ids
    → or_zero (atoi id) ≤ max_id atoi ids n
unfolding max_id
id-le-max_id atoi [] n id m = elim m [ ]
id-le-max_id atoi (x ∷ ids) n id m =
    let k = if ltb n (or_zero (atoi x)) then or_zero (atoi x) else n in
    elim (Memᴰ.cases_cons m) [
      | inl e ↦
          let h = max_id-le atoi ids k in
          let p : or_zero (atoi id) ≡ or_zero (atoi x) = ap (λ y. or_zero (atoi y)) e in
          ground (arith, h, p)
      | inr i ↦ id-le-max_id atoi ids k id i
    ]

-- The id that `nextID` makes is none of the ids that it has read, if Atoi reads it back.
pub next_id-new :
    (atoi : String → Option ℕ) (ids : List String)
    → atoi (next_id atoi ids) ≡ some (max_id atoi ids 0 + 1)
    → ¬ Memᴰ (next_id atoi ids) ids
unfolding or_zero
next_id-new atoi ids h m =
    let p = id-le-max_id atoi ids 0 (next_id atoi ids) m in
    let q : or_zero (atoi (next_id atoi ids)) ≡ max_id atoi ids 0 + 1 = ap or_zero h in
    omega (arith, p, q)
