-- ===== src/Gates/Permission/Laws.antt =====
-- Layering policies: what the layered policy decides.
use draiver.Prelude.{
  String, ◌≡◌, refl, sym, ap, ap₂, ◌∙◌, inl, inr, true, none, List, [], ◌∷◌, ◌++◌, map, arith, ◌==◌,
  eq_iff, if◌then◌else◌, Bool-cases, All,
}
use draiver.Prelude.Maps.{string_key, nat_key, ref_key, lookup, insert, lookup-insert}
use draiver.Gates.Permission.{
  Rule, unset, escalate, Policy, is_unset, rule_or_unset, decide, layer_tools, layer_step,
  layer_from, layer,
}

-- The last set rule of a list of rules.
abbrev pub last_set : List Rule → Rule
last_set [] = unset
last_set (r ∷ rs) = let rest = last_set rs in if is_unset rest then r else rest

or_rule : Rule → Rule → Rule
or_rule new old = if is_unset new then old else new

-- What a policy says of a tool; the keys of a Go map are distinct.
abbrev pub says : String → Policy → Rule
says tool p = rule_or_unset (lookup p.tools tool)

abbrev pub Distinct : List (String × Rule) → Type 0
Distinct [] = Unit
Distinct ((t, r) ∷ tools) = (lookup tools t ≡ none) × Distinct tools

layer_tools_lem :
    (out tools : List (String × Rule)) (tool : String)
    → Distinct tools
    → rule_or_unset (lookup (layer_tools out tools) tool)
      ≡ or_rule (rule_or_unset (lookup tools tool)) (rule_or_unset (lookup out tool))
unfolding layer_tools or_rule lookup
layer_tools_lem out [] tool d = refl
layer_tools_lem out ((t, r) ∷ tools) tool d =
    let moved : (t == tool) ≡ true → lookup tools t ≡ lookup tools tool =
      λ h. ap (lookup tools) ((eq_iff t tool).0 h) in
    elim (Bool-cases (is_unset r)) [
      | inl u ↦ rw u (layer_tools_lem out tools tool d.1 ∙ ground (arith, moved, d.0, u))
      | inr n ↦ rw n (
          layer_tools_lem (insert t r out) tools tool d.1
          ∙ ground (arith, moved, d.0, n, lookup-insert t tool r out))
    ]

last_set_two : (a b : Rule) (rs : List Rule) → last_set (a ∷ b ∷ rs) ≡ last_set (or_rule b a ∷ rs)
unfolding or_rule
last_set_two a b rs = ground arith

fallback-layer_from :
    (out : Policy) (ls : List Policy)
    → (layer_from out ls).fallback ≡ last_set (out.fallback ∷ map (λ l. l.fallback) ls)
unfolding layer_from layer_step or_rule
fallback-layer_from out [] = ground arith
fallback-layer_from out (l ∷ ls) =
    fallback-layer_from (layer_step out l) ls
    ∙ sym (last_set_two out.fallback l.fallback (map (λ x. x.fallback) ls))

says-layer_from :
    (out : Policy) (ls : List Policy) (tool : String)
    → All (λ l. Distinct l.tools) ls
    → says tool (layer_from out ls) ≡ last_set (says tool out ∷ map (says tool) ls)
unfolding layer_from layer_step
says-layer_from out [] tool d = ground arith
says-layer_from out (l ∷ ls) tool d =
    says-layer_from (layer_step out l) ls tool d.1
    ∙ ap (λ r. last_set (r ∷ map (says tool) ls)) (layer_tools_lem out.tools l.tools tool d.0)
    ∙ sym (last_set_two (says tool out) (says tool l) (map (says tool) ls))

last_set-append : (xs ys : List Rule) → last_set (xs ++ ys) ≡ or_rule (last_set ys) (last_set xs)
unfolding or_rule
last_set-append [] ys = ground arith
last_set-append (x ∷ xs) ys = ground (arith, last_set-append xs ys)

decide_lem :
    (p : Policy) (tool : String)
    → decide p tool ≡ or_rule (says tool p) (or_rule p.fallback escalate)
unfolding decide or_rule
decide_lem p tool = ground arith

set_over :
    (xs ys : List Rule)
    → or_rule (last_set (unset ∷ ys)) (or_rule (last_set (unset ∷ xs)) escalate)
      ≡ last_set (escalate ∷ xs ++ ys)
unfolding or_rule
set_over xs ys = ground (arith, last_set-append xs ys)

-- What layered policies decide on a tool: the rule of the last layer that sets one for the tool;
-- if none does, the default of the last layer that sets one; otherwise to escalate. Each layer has
-- one rule for a tool.
pub decide-layer :
    (ls : List Policy) (tool : String)
    → All (λ l. Distinct l.tools) ls
    → decide (layer ls) tool ≡ last_set (escalate ∷ map (λ l. l.fallback) ls ++ map (says tool) ls)
unfolding layer lookup
decide-layer ls tool d =
    let start : Policy = record { fallback = unset; tools = [] } in
    decide_lem (layer_from start ls) tool
    ∙ ap₂ (λ a b. or_rule a (or_rule b escalate)) (says-layer_from start ls tool d)
        (fallback-layer_from start ls)
    ∙ set_over (map (λ l. l.fallback) ls) (map (says tool) ls)
