-- ===== src/Lib.antt =====
-- Draiver keeps the durable state of supervised coding agents as an append-only, hash-chained event
-- log for each attempt on a ticket, and derives everything else from it.
--
-- Prelude holds what the packages share: tests on numbers, lists, Go's strings and sort functions
--   over the native String, Go maps as association lists, commands that carry a state and may fail.
-- Event models internal/event: the event record, `ComputeHash` and `Filename`, and its file, `Marshal`
--   and `Parse` (Disk). yaml, sha256 and time.Format are parameters, the records Codec and Yaml.
-- Log models internal/ticketlog: `Read`, `Last` and `Append` over a log directory that other
--   writers may change between a round's read and its create. Append's maxRetries is its fuel, so
--   no bound is added.
-- Audit models internal/audit: `Verify`, `VerifyAttempt` and `VerifyTicket`.
-- Project models internal/project: `Derive`, `restingState`, `Control` (State), the enable, archive,
--   supervision and promotion axes (Axes), the walk down `wants:` (Edges; its fuel is a round for
--   each source and each edge, since a ticket enters the frontier once), `CheckCycle` (Edges/Cycle; its
--   fuel bounds the depth of the search, which is at most the number of ids, since each id is entered
--   once), and what attempts and edges say
--   together (Fleet): `DeriveDesired`, `DeriveEscalated`, `bestReached`, `WaitingReason`.
-- Kb models internal/kb: the fold over the supersedes edge, its agreement with `Derive`, and `Chain` (its
--   fuel bounds the depth of the walk, at most one for each retired seq and the first).
-- Attempt models internal/attempt: `ValidateName` and `nextID`, with strconv.Atoi as a parameter.
-- Wake models internal/wake: what can wake a parked attempt, `Pending`.
-- Reconcile models internal/reconcile: `desired` (Desired) with its passes, the forward and the
--   coordinator gate (Gates), the wake machine of the coordinators (Activation) and that of the workers
--   behind a detached test (Async); `Tick` from the desired set on (Tick) with `retire` (Retire) and the
--   health edges (Health). The markers, the session ids and pids on record, the answers of git and of the
--   processes, the bring-up of a session and the failure of an append are parameters, which do not
--   change within a tick. Verbs models the verbs that clients run beside the daemon, over the files of
--   the attempts: `Start`, `EnableNow`, `Stop`, and with Restart `StartNewAttempt`, `Restart` and
--   `Create` of internal/attempt, whose 8 rounds are its own. Verbs/Daemons is the step relation of
--   clients, processes and daemons; Verbs/Lifetime joins it to the daemon's direct pass. Which writes
--   fail is an argument, and no other process writes during a verb.
-- Gates models the seams of a live session: the tool policy and gate of internal/gate (Permission), the
--   rationale gate of internal/protocol (Rationale), the hand-off gate of internal/completion
--   (Completion) and the context-window stop of internal/limit (Context; the fuel of `commas` is the
--   number itself, which has no more groups of digits). Dispatch takes one frame through them, as
--   `dispatch` of internal/reconcile does.
-- Pyramid models internal/pyramid: the queries on a repository's rungs and `validate` (Check). Promote models
--   internal/promote: `RunQA` over a shell, a parameter, and the decisions of `Run`.
-- Watch models internal/watch: `tokenize`, the recognition of the protocol verbs in a shell call
--   (Recognize) and what a watcher makes of each frame of a stream (Stream). The decoding of JSON, Atoi
--   and EqualFold are parameters, the record Codecs (a negative --ref is left out); which writes fail
--   is an argument, and Stream/Failure tells from it how far a frame is processed.
-- Worktree models internal/worktree's land.go: `Merge`, and `Fetch`, `PullBase` and `MergeRemote`
--   (Remote), over the commands of git, the record Git. Land models internal/land: the choice of the
--   remote, the gate and `MergeRemote`, which records the done.
-- Cucumber models internal/cucumber: `Passed`, `Summary` and the summary line of a report.
-- Scenarios holds the theorems at concrete inputs.
--
-- Integers that the code keeps at 0 or above are natural numbers, a time is the nanoseconds since
-- Go's zero time, and the texts of errors are left out. Of I/O failures a taken file name, the
-- writes of a watcher and of a verb and the failures of git commands are modelled, and no others.
-- Not modelled: internal/web, cmd, internal/report and the other packages that render or print;
-- internal/streamlog, internal/config, internal/brief and internal/overlay; of internal/worktree the
-- creation, the removal and the sync of checkouts, of internal/land `Push` and `Sync`, of
-- internal/reconcile the bring-up of a session, of internal/attempt the encoding of attempt.md; the
-- agent, the session files and the review environments, which are processes and files; the
-- acceptance suites, which are tests.
pub mod Attempt
pub mod Audit
pub mod Cucumber
pub mod Event
pub mod Gates
pub mod Kb
pub mod Land
pub mod Log
pub mod Prelude
pub mod Project
pub mod Promote
pub mod Pyramid
pub mod Reconcile
pub mod Scenarios
pub mod Wake
pub mod Watch
pub mod Worktree
