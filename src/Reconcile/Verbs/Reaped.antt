-- ===== src/Reconcile/Verbs/Reaped.antt =====
-- What a reap and a stop leave of an attempt, and why they may fail.
use draiver.Prelude.{
  ℕ, String, ◌≡◌, refl, inl, inr, Bool, true, not, ◌&&◌, Option, none, some, List, ◌∷◌, eqb,
  if◌then◌else◌, Bool-cases, eqb→eq,
}
use draiver.Prelude.Text.{trim_space, pad}
use draiver.Prelude.Maps.{string_key, nat_key, ref_key, has, lookup}
use draiver.Prelude.Commands.{Run, ok, err, and_then, ◌>>◌, pure}
use draiver.Project.Fleet.{Ref}
use draiver.Reconcile.Verbs.{
  Identity, Slot, World, unmark, identify, terminate, Options, Fault, no_controller, no_attempt,
  no_repo, gave_up, failed, StopResult, live_controller, load, write, remove_marker, write_identity,
  signal, clear_pid, reap_identity, reap, stop,
}
use draiver.Reconcile.Verbs.Handed.{lookup-put}

abbrev pub pid_of : Option Identity → ℕ
pid_of none = 0
pid_of (some id) = id.pid

abbrev pub session_of : Option Identity → Option String
session_of none = none
session_of (some id) = some id.session_id

-- The session has a live process.
abbrev pub runs : List ℕ → Option Identity → Bool
runs alive o = not (eqb (pid_of o) 0) && has alive (pid_of o)

-- What a reap leaves of the attempt: the session that was recorded, without a process.
pub record Reaped (w : World) (s t : Slot) : Type 0 where
  pub no_process : pid_of t.identity ≡ 0
  pub session : session_of t.identity ≡ session_of s.identity
  pub marker : t.marker ≡ s.marker
  pub events : t.events ≡ s.events
  pub meta : t.meta ≡ s.meta

pub record Reports (w : World) (o : Option Identity) (res : StopResult) (t : World) : Type 0 where
  pub pid : res.pid ≡ pid_of o
  pub signaled : res.signaled ≡ runs w.alive o
  pub already : res.already_stopped ≡ not (runs w.alive o)
  pub terminated : t.signaled ≡ (if runs w.alive o then pid_of o ∷ w.signaled else w.signaled)

-- strconv.Atoi reads the numbers of attempts back.
abbrev pub ReadsBack : Options → Type 0
ReadsBack opt = (n : ℕ) → opt.atoi (pad 4 n) ≡ some n

-- Why a verb on an attempt may fail: each fault says what is missing, or which write failed.
abbrev pub Excused : Options → World → Ref → Fault → Type 0
Excused opt w r no_controller = live_controller w ≡ none
Excused opt w r no_attempt = lookup w.slots r ≡ none
Excused opt w r no_repo = (s : Slot) × (lookup w.slots r ≡ some s) × (trim_space s.meta.repo ≡ "")
Excused opt w r gave_up = ¬ ReadsBack opt
Excused opt w r (failed x) = opt.fails x ≡ true

abbrev pub Reaps : Options → World → Ref → Run Fault World StopResult → Type 0
Reaps opt w r (err e t) = Excused opt w r e
Reaps opt w r (ok res t) =
    (s : Slot) × (s' : Slot) × (lookup w.slots r ≡ some s)
    × (lookup t.slots r ≡ some s')
    × Reaped w s s'
    × Reports w s.identity res t

module _ (opt : Options) (w : World) (r : Ref) where
  module _ (s : Slot) (there : lookup w.slots r ≡ some s) where
    no_session : s.identity ≡ none → Reaps opt w r (reap_identity opt r none w)
    unfolding reap_identity
    no_session e = (
      s,
      s,
      there,
      there,
      record { no_process = rw e refl; session = refl; marker = refl; events = refl; meta = refl },
      record { pid = rw e refl; signaled = rw e refl; already = rw e refl; terminated = rw e refl },
    )

    module _ (id : Identity) (its : s.identity ≡ some id) where
      cleared :
          (v : World) (res : StopResult)
          → lookup v.slots r ≡ some s
          → Reports w s.identity res v
          → Reaps opt w r (clear_pid opt r id res v)
      unfolding clear_pid write_identity load write
      cleared v res e rep = elim (Bool-cases (eqb id.pid 0)) [
        | inl z ↦ rw z (
          s,
          s,
          there,
          e,
          record {
            no_process = rw its (eqb→eq id.pid 0 z);
            session = refl;
            marker = refl;
            events = refl;
            meta = refl;
          },
          rep,
        )
        | inr z ↦ elim (Bool-cases (opt.fails (identify r))) [
          | inl f ↦ rw (z, e, f) f
          | inr f ↦
              rw (z, e, f)
                (
                  s,
                  record s { identity = some (record id { pid = 0 }) },
                  there,
                  lookup-put r (record s { identity = some (record id { pid = 0 }) }) v,
                  record {
                    no_process = refl;
                    session = rw its refl;
                    marker = refl;
                    events = refl;
                    meta = refl;
                  },
                  record {
                    pid = rep.pid;
                    signaled = rep.signaled;
                    already = rep.already;
                    terminated = rep.terminated;
                  },
                )
        ]
      ]

      a_session : Reaps opt w r (reap_identity opt r (some id) w)
      unfolding reap_identity signal
      a_session = elim (Bool-cases (not (eqb id.pid 0) && has w.alive id.pid)) [
        | inl up ↦ elim (Bool-cases (opt.fails (terminate id.pid))) [
          | inl f ↦ rw (up, f) f
          | inr f ↦
              rw (up, f)
                (cleared _ _ there (record {
                  pid = rw its refl;
                  signaled = rw (its, up) refl;
                  already = rw (its, up) refl;
                  terminated = rw (its, up) refl;
                }))
        ]
        | inr up ↦ rw up (
            cleared w _ there (record {
              pid = rw its refl;
              signaled = rw (its, up) refl;
              already = rw (its, up) refl;
              terminated = rw (its, up) refl;
            }))
      ]

    by_identity : (o : Option Identity) → s.identity ≡ o → Reaps opt w r (reap_identity opt r o w)
    by_identity none e = no_session e
    by_identity (some id) e = a_session id e

  pub reap-Reaps : Reaps opt w r (reap opt r w)
  unfolding reap load
  reap-Reaps = at_slot (lookup w.slots r) refl
    where
      at_slot : (o : Option Slot) → lookup w.slots r ≡ o → Reaps opt w r (reap opt r w)
      at_slot none e = rw e e
      at_slot (some s) e = rw e (by_identity s e s.identity refl)

-- What a stop leaves: the recorded session without a process, no marker, and its reports.
pub record Stopped (w : World) (r : Ref) (res : StopResult) (t : World) : Type 0 where
  pub was : Slot
  pub is : Slot
  pub before : lookup w.slots r ≡ some was
  pub after : lookup t.slots r ≡ some is
  pub no_process : pid_of is.identity ≡ 0
  pub session : session_of is.identity ≡ session_of was.identity
  pub unmarked : is.marker ≡ none
  pub events : is.events ≡ was.events
  pub reports : Reports w was.identity res t

abbrev pub Stops : Options → World → Ref → Run Fault World StopResult → Type 0
Stops opt w r (err e t) = Excused opt w r e
Stops opt w r (ok res t) = Stopped w r res t

module _ (opt : Options) (w : World) (r : Ref) where
  then_unmarked :
      (o : Run Fault World StopResult)
      → Reaps opt w r o
      → Stops opt w r (and_then o (λ res. remove_marker opt r >> pure res))
  unfolding remove_marker load write
  then_unmarked (err e t) p = p
  then_unmarked (ok res t) (s, s', e, e', reaped, reports) =
      elim (Bool-cases (opt.fails (unmark r))) [
        | inl f ↦ rw (e', f) f
        | inr f ↦
            rw (e', f)
              (record {
                was = s;
                is = record s' { marker = none };
                before = e;
                after = lookup-put r (record s' { marker = none }) t;
                no_process = reaped.no_process;
                session = reaped.session;
                unmarked = refl;
                events = reaped.events;
                reports = record {
                  pid = reports.pid;
                  signaled = reports.signaled;
                  already = reports.already;
                  terminated = reports.terminated;
                };
              })
      ]

  -- A stop that succeeds leaves the attempt with no recorded process and no marker, its log and the
  -- recorded session as they were; it has signaled the recorded process exactly if that was alive,
  -- and reports that.
  pub stop-Stops : Stops opt w r (stop opt r w)
  unfolding stop
  stop-Stops = then_unmarked (reap opt r w) (reap-Reaps opt w r)
