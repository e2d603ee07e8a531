-- ===== src/Audit.antt =====
-- internal/audit: a log is intact if each event recomputes to its hash and links to the one before.
pub mod Chain
pub mod Growth
pub mod Tamper
use draiver.Prelude.{
  ℕ, String, Bool, true, false, not, Option, none, some, List, [], ◌∷◌, ◌++◌, ◌==◌, if◌then◌else◌,
  length,
}
use draiver.Event.{Event, Codec, compute_hash}
use draiver.Log.{Result, ok, err, Dir, read}

-- Why an event breaks the chain; the code's text for it is not modelled.
pub data Fault : Type 0 where
  prev_mismatch hash_mismatch : Fault

-- `Result`, without the id of the attempt that VerifyAttempt adds.
pub record Verdict : Type 0 where
  pub intact : Bool
  pub count : ℕ
  pub broken_seq : ℕ
  pub reason : Option Fault

module _ (codec : Codec) where
  verify_from : ℕ → String → List Event → Verdict
  verify_from count prev_hash [] = record {
    intact = true;
    count = count;
    broken_seq = 0;
    reason = none;
  }
  verify_from count prev_hash (e ∷ es) =
      let rest = verify_from count e.hash es in
      if not (e.prev == prev_hash)
      then record { intact = false; count = count; broken_seq = e.seq; reason = some prev_mismatch }
      else if not (compute_hash codec e == e.hash)
      then record { intact = false; count = count; broken_seq = e.seq; reason = some hash_mismatch }
      else rest

  unfoldable pub verify : List Event → Verdict
  unfolding verify_from
  verify es = verify_from (length es) "" es

  abbrev verdict_of : Result (List Event) → Result Verdict
  verdict_of (ok es) = ok (verify es)
  verdict_of (err x) = err x

  -- `VerifyAttempt`: the verdict on the log that the directory holds.
  unfoldable pub verify_attempt : Dir → Result Verdict
  verify_attempt d = verdict_of (read d)

  verify_each : List Dir → List Verdict → Result (List Verdict)
  verify_each [] results = ok results
  verify_each (d ∷ ds) results = elim (verify_attempt d) [
    | err x ↦ err x
    | ok res ↦ verify_each ds (results ++ res ∷ [])
  ]

  -- `VerifyTicket` on the logs of the ticket's attempts, in the order of their ids.
  unfoldable pub verify_ticket : List Dir → Result (List Verdict)
  unfolding verify_each
  verify_ticket ds = verify_each ds []
