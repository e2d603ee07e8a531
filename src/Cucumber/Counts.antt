-- ===== src/Cucumber/Counts.antt =====
-- The counts of a report against its verdict.
use draiver.Prelude.{
  ℕ, suc, ◌+◌, String, ◌≡◌, refl, sym, ap, ap₂, ◌∙◌, inl, inr, Bool, true, false, not, ◌&&◌, ◌||◌,
  List, [], ◌∷◌, arith, ◌==◌, eqb, if◌then◌else◌, Bool-cases,
}
use draiver.Cucumber.{
  Step, Element, Report, Summary, step_green, steps_pass, elements_pass, passed, bump, count_step,
  count_steps, count_scenario, count_kind, count_elements, count_feature, count_features, no_counts,
  summary,
}

-- The steps that a breakdown by status counts.
abbrev pub tally : List (String × ℕ) → ℕ
tally [] = 0
tally ((k, n) ∷ m) = n + tally m

tally-bump : (k : String) (m : List (String × ℕ)) → tally (bump k m) ≡ suc (tally m)
unfolding bump
tally-bump k [] = refl
tally-bump k ((j, n) ∷ m) = elim (Bool-cases (j == k)) [
  | inl t ↦ rw t (omega arith)
  | inr f ↦ rw f (omega (arith, tally-bump k m))
]

-- Each scenario has passed or failed, and each step is in the breakdown once.
pub Balanced : Summary → Type 0
Balanced s =
    (s.scenarios ≡ s.scenarios_passed + s.scenarios_failed) × (s.steps ≡ tally s.step_status)

both_green : (a b c : Bool) → ((if a then b else false) && c) ≡ (b && (a && c))
both_green true b c = refl
both_green false b c = ground arith

count_steps-Balanced :
    (steps : List Step) (ok : Bool) (s : Summary)
    → Balanced s
    → Balanced (count_steps steps ok s).0
      × ((count_steps steps ok s).0.scenarios_failed ≡ s.scenarios_failed)
      × ((count_steps steps ok s).1 ≡ (ok && steps_pass steps))
unfolding count_steps count_step steps_pass Balanced
count_steps-Balanced [] ok s h = (h, refl, ground arith)
count_steps-Balanced (st ∷ steps) ok s (p, q) =
    let green = step_green st.status in
    let k = if st.status == "" then "unknown" else st.status in
    let (b, f, g) =
      count_steps-Balanced steps (if green then ok else false) (count_step st s)
        (p, ap suc q ∙ sym (tally-bump k s.step_status)) in
    (b, f, g ∙ both_green green ok (steps_pass steps))

abbrev pub all_of {ℓ} : {A : Type ℓ} → (A → Bool) → List A → Bool
all_of p [] = true
all_of p (x ∷ xs) = p x && all_of p xs

and_assoc : (a b c : Bool) → ((a && b) && c) ≡ (a && (b && c))
and_assoc true b c = refl
and_assoc false b c = refl

-- Whether a scenario is green; a background is not counted.
abbrev pub scenario_green : Element → Bool
scenario_green el = el.kind == "background" || steps_pass el.steps

abbrev pub background_green : Element → Bool
background_green el = not (el.kind == "background") || steps_pass el.steps

count_kind-Balanced :
    (kind : String) (ok : Bool) (s : Summary)
    → Balanced s
    → Balanced (count_kind kind (s, ok))
      × (eqb (count_kind kind (s, ok)).scenarios_failed 0
          ≡ (eqb s.scenarios_failed 0 && (kind == "background" || ok)))
unfolding count_kind count_scenario Balanced
count_kind-Balanced kind ok s (p, q) = elim (Bool-cases (kind == "background")) [
  | inl t ↦ rw t ((p, q), ground arith)
  | inr f ↦ rw f (by_verdict ok)
]
  where
    by_verdict :
        (v : Bool)
        → Balanced (count_scenario v s)
          × (eqb (count_scenario v s).scenarios_failed 0 ≡ (eqb s.scenarios_failed 0 && v))
    by_verdict true = ((omega (arith, p), q), ground arith)
    by_verdict false = ((omega (arith, p), q), ground arith)

count_elements-Balanced :
    (elements : List Element) (s : Summary)
    → Balanced s
    → Balanced (count_elements elements s)
      × (eqb (count_elements elements s).scenarios_failed 0
          ≡ (eqb s.scenarios_failed 0 && all_of scenario_green elements))
unfolding count_elements
count_elements-Balanced [] s h = (h, ground arith)
count_elements-Balanced (el ∷ elements) s h =
    let r = count_steps el.steps true s in
    let (b, f, g) = count_steps-Balanced el.steps true s h in
    let (c, d) = count_kind-Balanced el.kind r.1 r.0 b in
    let (e, z) = count_elements-Balanced elements (count_kind el.kind r) c in
    (
      e,
      z
          ∙ ap (λ v. v && all_of scenario_green elements)
              (d ∙ ap₂ (λ n v. eqb n 0 && (el.kind == "background" || v)) f g)
          ∙ and_assoc (eqb s.scenarios_failed 0) (scenario_green el)
              (all_of scenario_green elements),
    )

count_features-Balanced :
    (report : Report) (s : Summary)
    → Balanced s
    → Balanced (count_features report s)
      × (eqb (count_features report s).scenarios_failed 0
          ≡ (eqb s.scenarios_failed 0 && all_of (λ f. all_of scenario_green f.elements) report))
unfolding count_features count_feature Balanced
count_features-Balanced [] s h = (h, ground arith)
count_features-Balanced (f ∷ report) s h =
    let (b, g) = count_elements-Balanced f.elements (count_feature s) h in
    let (e, z) = count_features-Balanced report (count_elements f.elements (count_feature s)) b in
    let rest = all_of (λ x. all_of scenario_green x.elements) report in
    (
      e,
      z
          ∙ ap (λ v. v && rest) g
          ∙ and_assoc (eqb s.scenarios_failed 0) (all_of scenario_green f.elements) rest,
    )

-- A step list is judged as a scenario's or as a background's.
by_kind : (bg p s t : Bool) → (p && (s && t)) ≡ (((bg || p) && s) && ((not bg || p) && t))
by_kind true true s t = refl
by_kind true false s t = ground arith
by_kind false true s t = refl
by_kind false false s t = refl

elements_pass-kinds :
    (elements : List Element)
    → elements_pass elements ≡ (all_of scenario_green elements && all_of background_green elements)
unfolding elements_pass
elements_pass-kinds [] = refl
elements_pass-kinds (el ∷ elements) =
    ap (λ v. steps_pass el.steps && v) (elements_pass-kinds elements)
    ∙ by_kind (el.kind == "background") (steps_pass el.steps) (all_of scenario_green elements)
        (all_of background_green elements)

and_swap : (a b c d : Bool) → ((a && b) && (c && d)) ≡ ((a && c) && (b && d))
and_swap true b c d = ground arith
and_swap false b c d = refl

passed-kinds :
    (report : Report)
    → passed report ≡ (
        all_of (λ f. all_of scenario_green f.elements) report
        && all_of (λ f. all_of background_green f.elements) report)
unfolding passed
passed-kinds [] = refl
passed-kinds (f ∷ report) =
    ap₂ (λ a b. a && b) (elements_pass-kinds f.elements) (passed-kinds report)
    ∙ and_swap (all_of scenario_green f.elements) (all_of background_green f.elements)
        (all_of (λ x. all_of scenario_green x.elements) report)
        (all_of (λ x. all_of background_green x.elements) report)

-- The counts of a report balance: each scenario has passed or failed, and the breakdown by status
-- counts each step once. The report has passed exactly when no scenario is counted as failed and the
-- steps of every background, which is not counted as a scenario, are green.
pub summary-passed :
    (report : Report)
    → Balanced (summary report)
      × (passed report ≡ (
          eqb (summary report).scenarios_failed 0
          && all_of (λ f. all_of background_green f.elements) report))
unfolding summary Balanced
summary-passed report =
    let (b, f) = count_features-Balanced report no_counts (refl, refl) in
    (
      b,
      passed-kinds report
          ∙ ap (λ v. v && all_of (λ x. all_of background_green x.elements) report) (sym f),
    )
