-- ===== src/Log.antt =====
-- internal/ticketlog: reading and appending an attempt's write-once, hash-chained log.
-- The log directory is a list of named nodes. What other processes do to it during an append is
-- an argument: what the directory holds when a round reads it, and when it creates its file.

pub mod Append
use draiver.Prelude.{
  ℕ, zero, suc, ◌+◌, String, ◌≡◌, refl, ◌⊎◌, inl, inr, Bool, false, not, ◌||◌, Option, none, some,
  List, [], ◌∷◌, ◌++◌, ◌==◌, ltb, eqb, if◌then◌else◌, last,
}
use draiver.Prelude.Text.{has_suffix}
use draiver.Event.{Event, Codec, truncate_second, compute_hash, filename}

pub data LogError : Type 0 where
  no_attempt no_kind malformed gave_up : LogError

pub data Result {ℓ} (A : Type ℓ) : Type ℓ where
  ok : A → Result A
  err : LogError → Result A

pub Result-cases {ℓ} :
    {A : Type ℓ} (r : Result A) → ((a : A) × (r ≡ ok a)) ⊎ ((x : LogError) × (r ≡ err x))
Result-cases (ok a) = inl (a, refl)
Result-cases (err x) = inr (x, refl)

-- A node of the log directory. `file none` holds text that event.Parse refuses.
pub data Node : Type 0 where
  dir : Node
  file : Option Event → Node

abbrev pub Dir : Type 0
Dir = List (String × Node)

abbrev cons_event : Event → Result (List Event) → Result (List Event)
cons_event e (ok es) = ok (e ∷ es)
cons_event e (err x) = err x

read_node : String → Node → Result (List Event) → Result (List Event)
read_node name dir rest = rest
read_node name (file none) rest = if has_suffix name ".md" then err malformed else rest
read_node name (file (some e)) rest = if has_suffix name ".md" then cons_event e rest else rest

-- The loop of `Read`. Every error is the same value, so the order of the nodes does not show.
read_nodes : Dir → Result (List Event)
unfolding read_node
read_nodes [] = ok []
read_nodes ((name, node) ∷ d) = read_node name node (read_nodes d)

unfoldable pub insert_by_seq : Event → List Event → List Event
insert_by_seq e [] = e ∷ []
insert_by_seq e (x ∷ xs) =
    let rest = insert_by_seq e xs in if ltb x.seq e.seq then x ∷ rest else e ∷ x ∷ xs

-- sort.Slice by Seq; equal seqs keep the directory's order, which Go leaves open.
unfoldable pub sort_by_seq : List Event → List Event
unfolding insert_by_seq
sort_by_seq [] = []
sort_by_seq (e ∷ es) = insert_by_seq e (sort_by_seq es)

abbrev sorted : Result (List Event) → Result (List Event)
sorted (ok es) = ok (sort_by_seq es)
sorted (err x) = err x

unfoldable pub read : Dir → Result (List Event)
unfolding read_nodes sort_by_seq
read d = sorted (read_nodes d)

abbrev last_of : Result (List Event) → Result (Option Event)
last_of (ok es) = ok (last es)
last_of (err x) = err x

-- `Last`
unfoldable pub last_event : Dir → Result (Option Event)
unfolding read
last_event d = last_of (read d)

-- os.OpenFile with O_CREATE|O_EXCL refuses a name that is taken.
unfoldable pub is_taken : Dir → String → Bool
is_taken [] name = false
is_taken ((n, node) ∷ d) name = n == name || is_taken d name

module _ (codec : Codec) where
  -- Seq, Prev and Hash of the event that follows the tail.
  unfoldable pub link : Option Event → Event → Event
  link none e =
      let e' = record e { seq = 1; prev = "" } in record e' { hash = compute_hash codec e' }
  link (some tail) e =
      let e' = record e { seq = tail.seq + 1; prev = tail.hash } in
      record e' { hash = compute_hash codec e' }

  -- One round of the loop of `Append`: `none` is the `continue` on a taken name.
  create : Dir → Event → Option (Event × Dir)
  create now e =
      let name = filename codec e in
      if is_taken now name then none else some (e, now ++ (name, file (some e)) ∷ [])

  try_append : Result (Option Event) → Dir → Event → Result (Option (Event × Dir))
  unfolding create link
  try_append (err x) now e = err x
  try_append (ok tail) now e = ok (create now (link tail e))

  -- `rounds` is what is left of maxRetries; `view n` the directory at the n-th round, at its
  -- read and at its create.
  append_loop : ℕ → ℕ → (ℕ → Dir × Dir) → Event → Result (Event × Dir)
  unfolding try_append
  append_loop zero n view e = err gave_up
  append_loop (suc rounds) n view e =
      let again = append_loop rounds (n + 1) view e in
      elim (try_append (last_event (view n).0) (view n).1 e) [
        | err x ↦ err x
        | ok none ↦ again
        | ok (some done) ↦ ok done
      ]

  abbrev pub max_retries : ℕ
  max_retries = 8

  -- The fields that `Append` stamps before its loop; `now` is time.Now().
  unfoldable pub stamped : String → String → ℕ → Event → Event
  stamped ticket attempt now e = record e {
    ticket = ticket;
    attempt = attempt;
    ts = truncate_second (if eqb e.ts 0 then now else e.ts);
  }

  unfoldable pub append :
      Bool → String → String → ℕ → (ℕ → Dir × Dir) → Event → Result (Event × Dir)
  unfolding append_loop stamped
  append exists ticket attempt now view e =
      if not exists
      then err no_attempt
      else if e.kind == ""
      then err no_kind
      else append_loop 8 0 view (stamped ticket attempt now e)
