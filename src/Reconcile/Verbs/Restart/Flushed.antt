-- ===== src/Reconcile/Verbs/Restart/Flushed.antt =====
-- `Restart` at the level of the attempt: the parent is parked and a fresh child takes over.
use draiver.Prelude.{
  String, ◌≡◌, refl, ◌∙◌, ◌⊎◌, inl, inr, Bool, true, false, none, some, List, [], ◌∷◌, ◌++◌,
  Bool-cases,
}
use draiver.Prelude.Maps.{string_key, nat_key, same_ref, ref_key, lookup, lookup-insert}
use draiver.Prelude.Commands.{Run, ok, err}
use draiver.Event.{Event}
use draiver.Project.Axes.{enable_step, enabled_from, derive_enabled}
use draiver.Project.Fleet.{Ref}
use draiver.Reconcile.Activation.{zero_event}
use draiver.Reconcile.Verbs.{
  Slot, World, Write, append, unmark, Options, Fault, failed, load, put, write, append_event, note,
  remove_marker, park_body, park_attempt,
}
use draiver.Reconcile.Verbs.Handed.{lookup-put}

pub lookup-put_other :
    (k j : Ref) (s : Slot) (w : World)
    → same_ref k j ≡ false
    → lookup (put k s w).slots j ≡ lookup w.slots j
lookup-put_other k j s w e = lookup-insert k j s w.slots ∙ rw e refl

disable-enabled_from :
    (b : Bool) (es : List Event) (e : Event)
    → e.kind ≡ "disable"
    → enabled_from b (es ++ e ∷ []) ≡ false
unfolding enabled_from enable_step
disable-enabled_from b [] e k = rw k refl
disable-enabled_from b (x ∷ es) e k = disable-enabled_from (enable_step b x) es e k

module _ (opt : Options) (r child : Ref) (other : same_ref r child ≡ false) where
  -- A step of the parent's that leaves the child.
  pub record Parent (v : World) (p : Slot) (t : World) (q : Slot) : Type 0 where
    pub there : lookup t.slots r ≡ some q
    pub child_kept : lookup t.slots child ≡ lookup v.slots child
    pub identity_kept : q.identity ≡ p.identity

  put-Parent : (v : World) (p q : Slot) → q.identity ≡ p.identity → Parent v p (put r q v) q
  put-Parent v p q e = record {
    there = lookup-put r q v;
    child_kept = lookup-put_other r child q v other;
    identity_kept = e;
  }

  abbrev appended : String → String → Slot → Slot
  appended kind body s = record s {
    events = s.events ++ record zero_event { kind = kind; actor = opt.actor; body = body } ∷ [];
  }

  append_event_cases :
      (kind body : String) (v : World) (p : Slot)
      → lookup v.slots r ≡ some p
      → (append_event opt r kind body v ≡ ok tt (put r (appended kind body p) v))
        ⊎ ((append_event opt r kind body v ≡ err (failed (append r kind)) v)
            × (opt.fails (append r kind) ≡ true))
  unfolding append_event load write
  append_event_cases kind body v p e = elim (Bool-cases (opt.fails (append r kind))) [
    | inl f ↦ inr (rw (e, f) refl, f)
    | inr f ↦ inl (rw (e, f) refl)
  ]

  pub note-Parent :
      (body : String) (v : World) (p : Slot)
      → lookup v.slots r ≡ some p
      → (t : World) × (q : Slot) × (note opt r body v ≡ ok tt t) × Parent v p t q
  unfolding note
  note-Parent body v p e = elim (append_event_cases "note" body v p e) [
    | inl a ↦ (
      put r (appended "note" body p) v,
      appended "note" body p,
      rw (note, a) refl,
      put-Parent v p _ refl,
    )
    | inr (a, f) ↦
        (v, p, rw (note, a) refl, record { there = e; child_kept = refl; identity_kept = refl })
  ]

  abbrev pub Parks : World → Slot → Run Fault World (Unit {0}) → Type 0
  Parks v p (err e t) = (x : Write) × (e ≡ failed x) × (opt.fails x ≡ true)
  Parks v p (ok u t) =
      (q : Slot) × Parent v p t q × (derive_enabled q.events ≡ false) × (q.marker ≡ none)

  pub park-Parks :
      (v : World) (p : Slot) → lookup v.slots r ≡ some p → Parks v p (park_attempt opt r v)
  unfolding park_attempt remove_marker load write derive_enabled
  park-Parks v p e = elim (append_event_cases "disable" (park_body opt r) v p e) [
    | inr (a, f) ↦ rw a (append r "disable", refl, f)
    | inl a ↦
        let s = appended "disable" (park_body opt r) p in
        elim (Bool-cases (opt.fails (unmark r))) [
          | inl f ↦ rw (a, lookup-put r s v, f) (unmark r, refl, f)
          | inr f ↦
              rw (a, lookup-put r s v, f)
                (
                  record s { marker = none },
                  record {
                    there = lookup-put r (record s { marker = none }) (put r s v);
                    child_kept =
                        lookup-put_other r child _ (put r s v) other
                        ∙ lookup-put_other r child s v other;
                    identity_kept = refl;
                  },
                  disable-enabled_from false p.events _ refl,
                  refl,
                )
        ]
  ]
