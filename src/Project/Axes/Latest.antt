-- ===== src/Project/Axes/Latest.antt =====
-- The last event that speaks of a bit decides it: `DeriveEnabled`, `DeriveArchived` and
-- `DeriveSupervision` against that description.
use mathlib.Core.Path.{subst}
use draiver.Prelude.{
  ◌≡◌, refl, sym, ap, ◌∙◌, ◌⊎◌, inl, inr, Bool, true, false, Option, none, some, List, [], ◌∷◌,
  ◌++◌, arith, ◌==◌, if◌then◌else◌, Option-cases, All,
}
use draiver.Event.{Event}
use draiver.Project.Axes.{
  enable_step, enabled_from, derive_enabled, archive_step, archived_from, derive_archived,
  Supervision, unset, parse_supervision, supervision_step, supervision_from, derive_supervision,
}

-- The last event of the log about which `says` has a word says `v`.
pub record LastSays {ℓ} {A : Type ℓ} (says : Event → Option A) (es : List Event) (v : A)
    : Type ℓ where
  pub before : List Event
  pub event : Event
  pub after : List Event
  pub split : es ≡ before ++ event ∷ after
  pub word : says event ≡ some v
  pub silent : All (λ e. says e ≡ none) after

-- Either the whole log is silent and the result is the default, or the result is the last word.
abbrev pub Follows {ℓ} : {A : Type ℓ} → (Event → Option A) → A → List Event → A → Type ℓ
Follows says default_value es result =
    (All (λ e. says e ≡ none) es × (result ≡ default_value)) ⊎ LastSays says es result

abbrev word_or {ℓ} : {A : Type ℓ} → Option A → A → A
word_or (some w) v = w
word_or none v = v

module _ {ℓ} {A : Type ℓ} (says : Event → Option A) where
  abbrev latest_from : A → List Event → A
  latest_from v [] = v
  latest_from v (e ∷ es) = latest_from (word_or (says e) v) es

  skip : (e : Event) (es : List Event) (v : A) → LastSays says es v → LastSays says (e ∷ es) v
  skip e es v l = record {
    before = e ∷ l.before;
    event = l.event;
    after = l.after;
    split = ap (λ (t : List Event). e ∷ t) l.split;
    word = l.word;
    silent = l.silent;
  }

  latest_from-Follows : (v : A) (es : List Event) → Follows says v es (latest_from v es)
  latest_from-Follows v [] = inl (tt, refl)
  latest_from-Follows v (e ∷ es) = elim (Option-cases (says e)) [
    | inl n ↦
        subst (Follows says v (e ∷ es)) (ap (λ o. latest_from (word_or o v) es) (sym n))
          (silent_first n (latest_from-Follows v es))
    | inr (w, s) ↦
        subst (Follows says v (e ∷ es)) (ap (λ o. latest_from (word_or o v) es) (sym s))
          (inr (word_first w s (latest_from-Follows w es)))
  ]
    where
      silent_first :
          says e ≡ none
          → Follows says v es (latest_from v es)
          → Follows says v (e ∷ es) (latest_from v es)
      silent_first n (inl (a, r)) = inl ((n, a), r)
      silent_first n (inr l) = inr (skip e es (latest_from v es) l)

      word_first :
          (w : A)
          → says e ≡ some w
          → Follows says w es (latest_from w es)
          → LastSays says (e ∷ es) (latest_from w es)
      word_first w s (inr l) = skip e es (latest_from w es) l
      word_first w s (inl (a, r)) = record {
        before = [];
        event = e;
        after = es;
        split = refl;
        word = rw r s;
        silent = a;
      }

-- What an event says of the enabled bit, of the archived bit and of the supervision mode.
abbrev pub says_enabled : Event → Option Bool
says_enabled e =
    if e.kind == "enable" then some true else if e.kind == "disable" then some false else none

abbrev pub says_archived : Event → Option Bool
says_archived e =
    if e.kind == "archive" then some true else if e.kind == "unarchive" then some false else none

abbrev pub says_supervision : Event → Option Supervision
says_supervision e = if e.kind == "supervision" then parse_supervision e.outcome else none

enabled_latest : (v : Bool) (es : List Event) → enabled_from v es ≡ latest_from says_enabled v es
unfolding enabled_from
enabled_latest v [] = refl
enabled_latest v (e ∷ es) =
    enabled_latest (enable_step v e) es ∙ ap (λ w. latest_from says_enabled w es) (ground arith)

archived_latest : (v : Bool) (es : List Event) → archived_from v es ≡ latest_from says_archived v es
unfolding archived_from
archived_latest v [] = refl
archived_latest v (e ∷ es) =
    archived_latest (archive_step v e) es ∙ ap (λ w. latest_from says_archived w es) (ground arith)

supervision_latest :
    (v : Supervision) (es : List Event) → supervision_from v es ≡ latest_from says_supervision v es
unfolding supervision_from
supervision_latest v [] = refl
supervision_latest v (e ∷ es) =
    supervision_latest (supervision_step v e) es
    ∙ ap (λ w. latest_from says_supervision w es) (ground arith)

-- The three bits follow the last word of the log: a log without enable and disable is disabled,
-- one without archive and unarchive is on the board, and one without a supervision event of a
-- known mode has no override; otherwise the last such event decides.
pub derive-Follows :
    (es : List Event)
    → Follows says_enabled false es (derive_enabled es)
      × Follows says_archived false es (derive_archived es)
      × Follows says_supervision unset es (derive_supervision es)
unfolding derive_enabled derive_archived derive_supervision
derive-Follows es = (
  subst (Follows says_enabled false es) (sym (enabled_latest false es))
      (latest_from-Follows says_enabled false es),
  subst (Follows says_archived false es) (sym (archived_latest false es))
      (latest_from-Follows says_archived false es),
  subst (Follows says_supervision unset es) (sym (supervision_latest unset es))
      (latest_from-Follows says_supervision unset es),
)
