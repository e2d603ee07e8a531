-- ===== src/Gates/Permission.antt =====
-- internal/gate/policy.go: which tools a session may use without a human.
use draiver.Prelude.{
  String, Bool, true, false, not, Option, none, some, List, [], ◌∷◌, ◌==◌, if◌then◌else◌,
}
use draiver.Prelude.Maps.{string_key, nat_key, ref_key, lookup, insert}
use draiver.Project.State.{Parsed, ok, err}
pub mod Laws
pub mod Request

-- `Rule`, whose values are the two constants and the empty string (ParseRule refuses others).
pub data Rule : Type 0 where
  unset allow escalate : Rule

pub record Policy : Type 0 where
  pub fallback : Rule
  pub tools : List (String × Rule)

abbrev pub is_unset : Rule → Bool
is_unset unset = true
is_unset r = false

abbrev rule_or_unset : Option Rule → Rule
rule_or_unset none = unset
rule_or_unset (some r) = r

-- `Policy.Decide`
unfoldable pub decide : Policy → String → Rule
decide p tool =
    let r = rule_or_unset (lookup p.tools tool) in
    if not (is_unset r) then r else if not (is_unset p.fallback) then p.fallback else escalate

layer_tools : List (String × Rule) → List (String × Rule) → List (String × Rule)
layer_tools out [] = out
layer_tools out ((tool, rule) ∷ tools) =
    layer_tools (if is_unset rule then out else insert tool rule out) tools

layer_step : Policy → Policy → Policy
unfolding layer_tools
layer_step out l = record {
  fallback = if is_unset l.fallback then out.fallback else l.fallback;
  tools = layer_tools out.tools l.tools;
}

layer_from : Policy → List Policy → Policy
unfolding layer_step
layer_from out [] = out
layer_from out (l ∷ ls) = layer_from (layer_step out l) ls

-- `Layer`
unfoldable pub layer : List Policy → Policy
unfolding layer_from
layer layers = layer_from (record { fallback = unset; tools = [] }) layers

unfoldable pub parse_rule : String → Parsed Rule
parse_rule s = if s == "allow" then ok allow else if s == "escalate" then ok escalate else err s

abbrev parse_default : String → Parsed Rule
parse_default s = if s == "" then ok unset else parse_rule s

policy_tools : List (String × Rule) → List (String × String) → Parsed (List (String × Rule))
unfolding parse_rule
policy_tools out [] = ok out
policy_tools out ((tool, s) ∷ tools) = elim (parse_rule s) [
  | err e ↦ err tool
  | ok r ↦ policy_tools (insert tool r out) tools
]

with_tools : Rule → Parsed (List (String × Rule)) → Parsed Policy
with_tools r (err e) = err e
with_tools r (ok tools) = ok (record { fallback = r; tools = tools })

-- `PolicyFromMap`
unfoldable pub policy_from_map : String → List (String × String) → Parsed Policy
unfolding policy_tools with_tools
policy_from_map def tools = elim (parse_default def) [
  | err e ↦ err e
  | ok r ↦ with_tools r (policy_tools [] tools)
]
