-- ===== src/Pyramid/Check/Valid.antt =====
-- What `validate` lets pass.
use draiver.Prelude.{
  ℕ, suc, String, ◌≡◌, refl, ◌∙◌, ◌⊎◌, inl, inr, Bool, true, false, not, ◌&&◌, ◌||◌, Option, none,
  some, List, [], ◌∷◌, map, arith, ◌==◌, eq_iff, if◌then◌else◌, Bool-cases, any, every,
}
use draiver.Prelude.Maps.{string_key, nat_key, ref_key, has}
use draiver.Prelude.Text.{trim_space}
use draiver.Project.State.{is_empty}
use draiver.Pyramid.Check.{
  Fault, none_required, environment_unnamed, environment_twice, level_unnamed, level_twice,
  level_empty, level_undeclared, Checked, bad, good, check_healthchecks, unless, check_environments,
  check_levels, check_promotions, or_promotions, with_environments, validate,
}
use draiver.Pyramid.{Level, is_required, Healthcheck, Environment, Promotion, Pyramid, is_blank}

-- No name stands twice.
abbrev pub distinct : List String → Bool
distinct [] = true
distinct (n ∷ ns) = not (has ns n) && distinct ns

abbrev names_of {ℓ} : {A : Type ℓ} → (A → String) → List A → List String
names_of f xs = map (λ x. trim_space (f x)) xs

abbrev declared : Pyramid → List String
declared p = names_of (λ e. e.name) p.environments

abbrev valid_healthcheck : Healthcheck → Bool
valid_healthcheck hc = not (is_blank hc.name) && not (is_blank hc.script)

abbrev valid_environment : Environment → Bool
valid_environment e = not (is_blank e.name) && every valid_healthcheck e.healthchecks

abbrev valid_level : List String → Level → Bool
valid_level envs lv =
    not (is_blank lv.name)
    && not (is_blank lv.run)
    && (is_blank lv.environment || has envs (trim_space lv.environment))

abbrev valid_promotion : List String → Promotion → Bool
valid_promotion envs pr =
    not (is_blank pr.environment) && has envs (trim_space pr.environment) && not (is_blank pr.qa)

-- There is a level, one at least is required, nothing that needs a name or a script lacks it, no
-- name stands twice, and levels and promotions name declared environments.
abbrev pub well_formed : Pyramid → Bool
well_formed p =
    not (is_empty p.levels)
    && (every valid_environment p.environments && distinct (declared p))
    && (every (valid_level (declared p)) p.levels && distinct (names_of (λ lv. lv.name) p.levels))
    && any is_required p.levels
    && (every (valid_promotion (declared p)) p.promotions
        && distinct (names_of (λ pr. pr.environment) p.promotions))

abbrev pub is_none {ℓ} : {A : Type ℓ} → Option A → Bool
is_none none = true
is_none (some a) = false

abbrev fresh : List String → List String → Bool
fresh seen ns = every (λ n. not (has seen n)) ns

eq_sym : (a b : String) → (a == b) ≡ (b == a)
eq_sym a b = ground (arith, eq_iff a b, eq_iff b a)

fresh-cons :
    (n : String) (seen ns : List String) → fresh (n ∷ seen) ns ≡ (not (has ns n) && fresh seen ns)
unfolding has
fresh-cons n seen [] = refl
fresh-cons n seen (m ∷ ns) = ground (arith, eq_sym n m, fresh-cons n seen ns)

check_healthchecks_lem :
    (env : String) (j : ℕ) (hcs : List Healthcheck)
    → is_none (check_healthchecks env j hcs) ≡ every valid_healthcheck hcs
unfolding check_healthchecks
check_healthchecks_lem env j [] = refl
check_healthchecks_lem env j (hc ∷ hcs) = ground (arith, check_healthchecks_lem env (suc j) hcs)

four_tests :
    (a b c d : Bool) (w x y z : Fault) (o : Option Fault)
    → is_none
        (if a then some w else if b then some x else if c then some y else if d then some z else o)
      ≡ (not a && not b && not c && not d && is_none o)
four_tests a b c d w x y z o = ground arith

regroup :
    (a b c e g v n f d : Bool)
    → (not a && not b && not c && not (not e && not g) && (v && (not n && f) && d))
      ≡ (((not a && not c && (e || g)) && v) && (not b && f) && (not n && d))
regroup a b c e g v n f d = ground arith

check_levels_lem :
    (envs names : List String) (i : ℕ) (seen : List String) (levels : List Level)
    → ((n : String) → has envs n ≡ has names n)
    → is_none (check_levels envs i seen levels) ≡ (
        every (valid_level names) levels
        && fresh seen (names_of (λ lv. lv.name) levels)
        && distinct (names_of (λ lv. lv.name) levels))
unfolding check_levels
check_levels_lem envs names i seen [] h = refl
check_levels_lem envs names i seen (lv ∷ levels) h =
    let name = trim_space lv.name in
    let env = trim_space lv.environment in
    let ns = names_of (λ l. l.name) levels in
    four_tests (name == "") (has seen name) (is_blank lv.run)
      (not (env == "") && not (has envs env)) (level_unnamed i) (level_twice i name)
      (level_empty i name) (level_undeclared name env)
      (check_levels envs (suc i) (name ∷ seen) levels)
    ∙ rw
        (check_levels_lem envs names (suc i) (name ∷ seen) levels h, fresh-cons name seen ns, h env)
        (regroup (name == "") (has seen name) (is_blank lv.run) (env == "") (has names env)
          (every (valid_level names) levels) (has ns name) (fresh seen ns) (distinct ns))

check_promotions_lem :
    (envs names : List String) (i : ℕ) (seen : List String) (prs : List Promotion)
    → ((n : String) → has envs n ≡ has names n)
    → is_none (check_promotions envs i seen prs) ≡ (
        every (valid_promotion names) prs
        && fresh seen (names_of (λ pr. pr.environment) prs)
        && distinct (names_of (λ pr. pr.environment) prs))
unfolding check_promotions
check_promotions_lem envs names i seen [] h = refl
check_promotions_lem envs names i seen (pr ∷ prs) h =
    let env = trim_space pr.environment in
    let rest = check_promotions_lem envs names (suc i) (env ∷ seen) prs h in
    let f = fresh-cons env seen (names_of (λ q. q.environment) prs) in
    ground (arith, rest, f, h env)

fresh_nil : (ns : List String) → fresh [] ns ≡ true
unfolding has
fresh_nil [] = refl
fresh_nil (n ∷ ns) = fresh_nil ns

-- The loop over the environments fails, or ends with the names that it has seen.
abbrev Seen : Checked → Bool → List String → List String → Type 0
Seen c valid names envs =
    ((s : List String) × (c ≡ good s)
      × (valid ≡ true)
      × ((n : String) → has s n ≡ (has names n || has envs n)))
    ⊎ ((f : Fault) × (c ≡ bad f) × (valid ≡ false))

Seen-unless :
    (o : Option Fault) (c : Checked) (valid v : Bool) (name : String) (names envs : List String)
    → Seen c valid names (name ∷ envs)
    → v ≡ (is_none o && valid)
    → Seen (unless o c) v (name ∷ names) envs
unfolding unless has
Seen-unless (some f) c valid v name names envs k e = inr (f, refl, e)
Seen-unless none c valid v name names envs (inr (f, p, q)) e = inr (f, p, e ∙ q)
Seen-unless none c valid v name names envs (inl (s, p, q, h)) e =
    inl (s, p, e ∙ q, λ n. ground (arith, h n))

check_environments_lem :
    (i : ℕ) (envs : List String) (es : List Environment)
    → Seen
        (check_environments i envs es)
        (every valid_environment es
          && fresh envs (names_of (λ e. e.name) es)
          && distinct (names_of (λ e. e.name) es))
        (names_of (λ e. e.name) es)
        envs
unfolding check_environments has
check_environments_lem i envs [] = inl (envs, refl, refl, λ n. refl)
check_environments_lem i envs (e ∷ es) =
    let name = trim_space e.name in
    let names = names_of (λ x. x.name) es in
    let rest = check_environments_lem (suc i) (name ∷ envs) es in
    let f = fresh-cons name envs names in
    let hc = check_healthchecks_lem name 0 e.healthchecks in
    elim (Bool-cases (name == "")) [
      | inl t ↦ rw t (inr (environment_unnamed i, refl, refl))
      | inr n ↦ elim (Bool-cases (has envs name)) [
        | inl t ↦ rw (n, t) (inr (environment_twice i name, refl, ground arith))
        | inr m ↦
            rw (n, m)
              (Seen-unless (check_healthchecks name 0 e.healthchecks) _ _ _ name names envs rest
                (ground (arith, f, hc)))
      ]
    ]

or_nothing : (ns : List String) (n : String) → (has ns n || has [] n) ≡ has ns n
unfolding has
or_nothing ns n = ground arith

last_three :
    (o : Option Fault) (b : Bool) (q : Option Fault)
    → is_none (or_promotions o (if not b then some none_required else q))
      ≡ (is_none o && b && is_none q)
unfolding or_promotions
last_three none b q = ground arith
last_three (some f) b q = refl

-- `validate` finds no fault exactly in the pyramids that are well-formed.
pub validate-well_formed : (p : Pyramid) → is_none (validate p) ≡ well_formed p
unfolding validate with_environments or_promotions
validate-well_formed p = elim (Bool-cases (is_empty p.levels)) [
  | inl t ↦ rw t refl
  | inr f ↦ elim (check_environments_lem 0 [] p.environments) [
    | inr (x, e, v) ↦ rw (f, e) (ground (arith, v, fresh_nil (declared p)))
    | inl (envs, e, v, h) ↦
        let same : (n : String) → has envs n ≡ has (declared p) n =
          λ n. h n ∙ or_nothing (declared p) n in
        rw (f, e)
          (last_three (check_levels envs 0 [] p.levels) (any is_required p.levels)
              (check_promotions envs 0 [] p.promotions)
            ∙ rw
                (
                  check_levels_lem envs (declared p) 0 [] p.levels same,
                  check_promotions_lem envs (declared p) 0 [] p.promotions same,
                  fresh_nil (names_of (λ l. l.name) p.levels),
                  fresh_nil (names_of (λ r. r.environment) p.promotions),
                )
                (ground (arith, v, fresh_nil (declared p))))
  ]
]
