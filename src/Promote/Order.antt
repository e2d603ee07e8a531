-- ===== src/Promote/Order.antt =====
-- Which scripts a promotion runs, in which order.
use draiver.Prelude.{
  String, ◌≡◌, refl, sym, ap, ◌∙◌, ◌⊎◌, inl, inr, Bool, true, false, Option, none, some, List, [],
  ◌∷◌, ◌++◌, map, append_assoc, append-nil, if◌then◌else◌, Bool-cases,
}
use draiver.Pyramid.{Healthcheck, Environment, Promotion, is_blank}
use draiver.Promote.{
  Status, blocked, env_fault, pass, Ran, Shell, ended, after_qa, qa_script, after_check,
  check_health, after_up, in_environment, torn_down, run_qa,
}

-- Bring-up, healthchecks and qa.
abbrev pub declared_scripts : Option Environment → Promotion → List String
declared_scripts none promo = promo.qa ∷ []
declared_scripts (some env) promo =
    (if is_blank env.up then [] else env.up ∷ [])
    ++ map (λ hc. hc.script) env.healthchecks
    ++ promo.qa ∷ []

abbrev pub teardown : Option Environment → List String
teardown none = []
teardown (some env) = if is_blank env.down then [] else env.down ∷ []

-- The scripts up to the first that fails, itself included.
abbrev pub until_failure : Shell → List String → List String → List String
until_failure sh before [] = []
until_failure sh before (s ∷ ss) =
    s ∷ elim (sh before s) [ none ↦ until_failure sh (before ++ s ∷ []) ss | some e ↦ [] ]

abbrev pub all_pass : Shell → List String → List String → Bool
all_pass sh before [] = true
all_pass sh before (s ∷ ss) = elim (sh before s) [
  | none ↦ all_pass sh (before ++ s ∷ []) ss
  | some e ↦ false
]

Option-cases : (o : Option String) → (o ≡ none) ⊎ ((e : String) × (o ≡ some e))
Option-cases none = inl refl
Option-cases (some e) = inr (e, refl)

pass_first :
    (sh : Shell) (before : List String) (s : String) (ss : List String)
    → sh before s ≡ none
    → all_pass sh before (s ∷ ss) ≡ all_pass sh (before ++ s ∷ []) ss
pass_first sh before s ss n = rw (all_pass, n) refl

fail_first :
    (sh : Shell) (before : List String) (s : String) (ss : List String) (e : String)
    → sh before s ≡ some e
    → all_pass sh before (s ∷ ss) ≡ false
fail_first sh before s ss e h = rw (all_pass, h) refl

module _ (sh : Shell) (promo : Promotion) where
  Follows : List String → List String → Ran → Type 0
  Follows before scripts ran =
      (ran.scripts ≡ before ++ until_failure sh before scripts)
      × (pass ran.outcome.status ≡ all_pass sh before scripts)

  Follows-qa_script :
      (before : List String) → Follows before (promo.qa ∷ []) (qa_script sh promo before)
  unfolding Follows qa_script after_qa ended
  Follows-qa_script before = elim (Option-cases (sh before promo.qa)) [
    | inl n ↦ (rw n refl, rw n (sym (pass_first sh before promo.qa [] n)))
    | inr (e, h) ↦ (rw h refl, rw h (sym (fail_first sh before promo.qa [] e h)))
  ]

  -- One script that fails.
  Follows-ended :
      (before : List String) (s : String) (ss : List String) (status : Status) (e : String)
      → sh before s ≡ some e
      → pass status ≡ false
      → Follows before (s ∷ ss) (ended sh promo status (before ++ s ∷ []))
  unfolding Follows ended
  Follows-ended before s ss status e h f = (rw h refl, f ∙ sym (fail_first sh before s ss e h))

  -- One script that passes, and the rest.
  Follows-cons :
      (before : List String) (s : String) (ss : List String) (ran : Ran)
      → sh before s ≡ none
      → Follows (before ++ s ∷ []) ss ran
      → Follows before (s ∷ ss) ran
  unfolding Follows
  Follows-cons before s ss ran n (p, q) =
      (p ∙ append_assoc before (s ∷ []) _ ∙ rw n refl, q ∙ sym (pass_first sh before s ss n))

  Follows-check_health :
      (before : List String) (hcs : List Healthcheck)
      → Follows before
          (map (λ hc. hc.script) hcs ++ promo.qa ∷ [])
          (check_health sh promo before hcs)
  unfolding check_health after_check
  Follows-check_health before [] = Follows-qa_script before
  Follows-check_health before (hc ∷ hcs) =
      let ran = before ++ hc.script ∷ [] in
      let ss = map (λ c. c.script) hcs ++ promo.qa ∷ [] in
      elim (Option-cases (sh before hc.script)) [
        | inl n ↦ rw n (
            Follows-cons before hc.script ss (check_health sh promo ran hcs) n
              (Follows-check_health ran hcs))
        | inr (e, h) ↦ rw h (Follows-ended before hc.script ss blocked e h refl)
      ]

  Follows-in_environment :
      (env : Environment)
      → Follows [] (declared_scripts (some env) promo) (in_environment sh promo env)
  unfolding in_environment after_up
  Follows-in_environment env = elim (Bool-cases (is_blank env.up)) [
    | inl t ↦ rw t (Follows-check_health [] env.healthchecks)
    | inr f ↦
        let ss = map (λ hc. hc.script) env.healthchecks ++ promo.qa ∷ [] in
        rw f (elim (Option-cases (sh [] env.up)) [
          | inl n ↦
              Follows-cons [] env.up ss _ n
                (rw n (Follows-check_health (env.up ∷ []) env.healthchecks))
          | inr (e, h) ↦ rw h (Follows-ended [] env.up ss env_fault e h refl)
        ])
  ]

-- A promotion runs its environment's bring-up, its healthchecks and its qa in this order up to the
-- first that fails, then its environment's teardown if it declares one, whatever has failed; and it
-- is green exactly if all of them but the teardown pass.
pub run_qa-until_failure :
    (sh : Shell) (promo : Promotion) (env : Option Environment)
    → ((run_qa sh promo env).scripts
        ≡ until_failure sh [] (declared_scripts env promo) ++ teardown env)
      × (pass (run_qa sh promo env).outcome.status ≡ all_pass sh [] (declared_scripts env promo))
unfolding run_qa torn_down Follows
run_qa-until_failure sh promo none =
    let (p, q) = Follows-qa_script sh promo [] in (p ∙ sym (append-nil _), q)
run_qa-until_failure sh promo (some env) =
    let (p, q) = Follows-in_environment sh promo env in
    elim (Bool-cases (is_blank env.down)) [
      | inl t ↦ rw t (p ∙ sym (append-nil _), q)
      | inr f ↦ rw f (ap (λ l. l ++ env.down ∷ []) p, q)
    ]
