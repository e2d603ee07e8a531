-- ===== src/Reconcile/Verbs/Restart/Forked.antt =====
-- What a fork makes, and `Restart` at the level of the attempt as a whole.
use draiver.Prelude.{
  ℕ, zero, suc, ◌+◌, String, ◌≡◌, refl, inl, inr, true, false, not, Option, none, some, List, arith,
  ◌==◌, eq_iff, Bool-cases,
}
use draiver.Prelude.Maps.{string_key, nat_key, ref_key, has, has→Mem, lookup}
use draiver.Prelude.Commands.{Run, ok, err, and_then, ◌>>◌, pure}
use draiver.Prelude.Text.{trim_space}
use draiver.Project.Fleet.{Ref}
use draiver.Attempt.Numbers.{next_id-new}
use draiver.Attempt.{Meta, max_id, next_id}
use draiver.Reconcile.Verbs.{
  Slot, World, make, Options, Fault, no_controller, no_attempt, no_repo, gave_up, failed, load, put,
  write,
}
use draiver.Reconcile.Verbs.Restart.{ids_of, fresh_slot, claim, create, fork_attempt}
use draiver.Reconcile.Verbs.Restart.Kept.{lookup_free}
use draiver.Reconcile.Verbs.Reaped.{ReadsBack, Excused}

-- A fresh attempt that carries the parent's settings and names it.
pub record ChildOf (parent : Slot) (r : Ref) (c : Slot) : Type 0 where
  pub from : c.meta.from ≡ r.1
  pub tool : c.meta.tool ≡ parent.meta.tool
  pub model : c.meta.model ≡ parent.meta.model
  pub repo : c.meta.repo ≡ trim_space parent.meta.repo
  pub no_session : c.identity ≡ none

abbrev pub Forks : Options → World → Ref → Run Fault World Ref → Type 0
Forks opt w r (err e t) = Excused opt w r e
Forks opt w r (ok child t) =
    (s : Slot) × (c : Slot) × (lookup w.slots r ≡ some s)
    × (lookup w.slots child ≡ none)
    × (t ≡ put child c w)
    × ChildOf s r c

abbrev GivenUp : Options → Fault → Type 0
GivenUp opt no_controller = ⊥
GivenUp opt no_attempt = ⊥
GivenUp opt no_repo = ⊥
GivenUp opt gave_up = ¬ ReadsBack opt
GivenUp opt (failed x) = opt.fails x ≡ true

GivenUp-Excused :
    (opt : Options) (w : World) (r : Ref) (e : Fault) → GivenUp opt e → Excused opt w r e
GivenUp-Excused opt w r no_controller p = elim p [ ]
GivenUp-Excused opt w r no_attempt p = elim p [ ]
GivenUp-Excused opt w r no_repo p = elim p [ ]
GivenUp-Excused opt w r gave_up p = p
GivenUp-Excused opt w r (failed x) p = p

abbrev Claims : Options → World → String → Meta → Run Fault World String → Type 0
Claims opt w ticket m (err e t) = GivenUp opt e
Claims opt w ticket m (ok id t) =
    (lookup w.slots (ticket, id) ≡ none) × (t ≡ put (ticket, id) (fresh_slot opt id m) w)

module _ (opt : Options) where
  made-Claims :
      (ticket id : String) (m : Meta) (w : World)
      → has (ids_of ticket w.slots) id ≡ false
      → Claims opt w ticket m
          ((write opt (make (ticket, id)) (ticket, id) (fresh_slot opt id m) >> pure id) w)
  unfolding write
  made-Claims ticket id m w e = elim (Bool-cases (opt.fails (make (ticket, id)))) [
    | inl f ↦ rw f f
    | inr f ↦ rw f (lookup_free ticket id w.slots e, refl)
  ]

  taken-unread : (ids : List String) → has ids (next_id opt.atoi ids) ≡ true → ¬ ReadsBack opt
  unfolding next_id
  taken-unread ids e reads =
      next_id-new opt.atoi ids (reads (max_id opt.atoi ids 0 + 1)) (has→Mem ids _ e)

  claim-Claims :
      (n : ℕ) (ticket : String) (m : Meta) (w : World)
      → Claims opt w ticket m (claim opt (suc n) ticket m w)
  unfolding claim
  claim-Claims zero ticket m w =
      elim (Bool-cases (has (ids_of ticket w.slots) (next_id opt.atoi (ids_of ticket w.slots)))) [
        | inl e ↦ rw e (taken-unread (ids_of ticket w.slots) e)
        | inr e ↦ rw e (made-Claims ticket (next_id opt.atoi (ids_of ticket w.slots)) m w e)
      ]
  claim-Claims (suc n) ticket m w =
      elim (Bool-cases (has (ids_of ticket w.slots) (next_id opt.atoi (ids_of ticket w.slots)))) [
        | inl e ↦ rw e (rw e at (claim-Claims n ticket m w))
        | inr e ↦ rw e (made-Claims ticket (next_id opt.atoi (ids_of ticket w.slots)) m w e)
      ]

  claimed-Forks :
      (w : World) (r : Ref) (s : Slot) (m : Meta) (o : Run Fault World String)
      → lookup w.slots r ≡ some s
      → ((id : String) → ChildOf s r (fresh_slot opt id m))
      → Claims opt w r.0 m o
      → Forks opt w r (and_then {B = Ref} o (λ id. pure (r.0, id)))
  claimed-Forks w r s m (err e t) there child p = GivenUp-Excused opt w r e p
  claimed-Forks w r s m (ok id t) there child (free, q) =
      (s, fresh_slot opt id m, there, free, q, child id)

  pub fork_attempt-Forks : (w : World) (r : Ref) → Forks opt w r (fork_attempt opt r w)
  unfolding fork_attempt load create
  fork_attempt-Forks w r = at_slot (lookup w.slots r) refl
    where
      at_slot : (o : Option Slot) → lookup w.slots r ≡ o → Forks opt w r (fork_attempt opt r w)
      at_slot none e = rw e e
      at_slot (some s) e = elim (Bool-cases (not (trim_space s.meta.repo == ""))) [
        | inl f ↦
            rw (e, f)
              (claimed-Forks w r s
                (record s.meta {
                  actor = opt.actor;
                  from = r.1;
                  repo = trim_space s.meta.repo;
                  base = trim_space s.meta.base;
                })
                _ e
                (λ id. record {
                  from = refl;
                  tool = refl;
                  model = refl;
                  repo = refl;
                  no_session = refl;
                })
                (claim-Claims 7 r.0 _ w))
        | inr f ↦ rw (e, f) (s, e, (eq_iff (trim_space s.meta.repo) "").0 (ground arith))
      ]
