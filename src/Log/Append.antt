-- ===== src/Log/Append.antt =====
-- What ticketlog.Append does whatever other processes do to the log directory meanwhile.
use mathlib.Core.Path.{subst}
use draiver.Prelude.{
  ℕ, zero, suc, ◌+◌, ◌≤◌, ◌<◌, String, ◌≡◌, refl, sym, ◌≢◌, ◌↔◌, inl, inr, Bool, true, false, ◌||◌,
  Option, none, some, [], ◌∷◌, ◌++◌, arith, ◌==◌, eq_iff, eqb, Bool-cases, eqb→eq,
}
use draiver.Event.{Event, Codec, compute_hash, filename}
use draiver.Log.{
  LogError, malformed, gave_up, ok, err, Result-cases, Node, dir, file, Dir, read_nodes, last_event,
  is_taken, link, append_loop, stamped, append,
}

-- `Read` fails on a malformed event alone.
read_nodes-malformed : (d : Dir) (x : LogError) → read_nodes d ≡ err x → x ≡ malformed
unfolding read_nodes
read_nodes-malformed [] x h = cc
read_nodes-malformed ((name, dir) ∷ d) x h = read_nodes-malformed d x h
read_nodes-malformed ((name, file none) ∷ d) x h = ground (arith, read_nodes-malformed d x)
read_nodes-malformed ((name, file (some e)) ∷ d) x h = ground (arith, read_nodes-malformed d x)

last_event-malformed : (d : Dir) → last_event d ≢ err gave_up
unfolding last_event
last_event-malformed d h = ground (arith, read_nodes-malformed d gave_up)

pub is_taken-append :
    (d : Dir) (n m : String) (node : Node)
    → is_taken (d ++ (n, node) ∷ []) m ≡ (is_taken d m || n == m)
unfolding is_taken
is_taken-append [] n m node = ground arith
is_taken-append ((k, v) ∷ d) n m node = ground (arith, is_taken-append d n m node)

-- What the next event of a log takes from the tail: its seq and its hash, or nothing.
abbrev pub seq_of : Option Event → ℕ
seq_of none = 0
seq_of (some tail) = tail.seq

abbrev pub hash_of : Option Event → String
hash_of none = ""
hash_of (some tail) = tail.hash

-- The event that was written: the next seq, the tail's hash as its predecessor, its own hash over
-- what it holds, and all else as it was stamped.
pub record Follows (codec : Codec) (tail : Option Event) (e e' : Event) : Type 0 where
  pub next_seq : e'.seq ≡ seq_of tail + 1
  pub after : e'.prev ≡ hash_of tail
  pub digest : e'.hash ≡ compute_hash codec (record e { seq = e'.seq; prev = e'.prev })
  pub kept : e' ≡ record e { seq = e'.seq; prev = e'.prev; hash = e'.hash }

link-Follows :
    (codec : Codec) (tail : Option Event) (e : Event) → Follows codec tail e (link codec tail e)
unfolding link
link-Follows codec none e = record {
  next_seq = omega arith;
  after = refl;
  digest = refl;
  kept = refl;
}
link-Follows codec (some tail) e = record {
  next_seq = refl;
  after = refl;
  digest = refl;
  kept = refl;
}

module _ (codec : Codec) where
  -- The round, from `lo` on and before `hi`, that wrote `e'`: what it read and what it found.
  pub record Written (lo hi : ℕ) (view : ℕ → Dir × Dir) (e e' : Event) (d' : Dir) : Type 0 where
    pub round : ℕ
    pub from_lo : lo ≤ round
    pub before_hi : round < hi
    pub tail : Option Event
    pub read_tail : last_event (view round).0 ≡ ok tail
    pub linked : e' ≡ link codec tail e
    pub follows : Follows codec tail e e'
    pub was_free : is_taken (view round).1 (filename codec e') ≡ false
    pub added : d' ≡ (view round).1 ++ (filename codec e', file (some e')) ∷ []

  -- A round that goes on finds its file's name taken.
  pub record Busy (view : ℕ → Dir × Dir) (e : Event) (n : ℕ) : Type 0 where
    pub tail : Option Event
    pub read_tail : last_event (view n).0 ≡ ok tail
    pub taken : is_taken (view n).1 (filename codec (link codec tail e)) ≡ true

  widen :
      (n rounds : ℕ) {view : ℕ → Dir × Dir} {e e' : Event} {d' : Dir}
      → Written (n + 1) (n + 1 + rounds) view e e' d'
      → Written n (n + suc rounds) view e e' d'
  widen n rounds w = record {
    round = w.round;
    from_lo = omega arith;
    before_hi = omega arith;
    tail = w.tail;
    read_tail = w.read_tail;
    linked = w.linked;
    follows = w.follows;
    was_free = w.was_free;
    added = w.added;
  }

  Written-append_loop :
      (rounds n : ℕ) (view : ℕ → Dir × Dir) (e e' : Event) (d' : Dir)
      → append_loop codec rounds n view e ≡ ok (e', d')
      → Written n (n + rounds) view e e' d'
  unfolding append_loop
  Written-append_loop zero n view e e' d' h = cc
  Written-append_loop (suc rounds) n view e e' d' h = elim (Result-cases (last_event (view n).0)) [
    | inr (x, p) ↦ absurd (ground arith)
    | inl (tail, p) ↦ elim (Bool-cases (is_taken (view n).1 (filename codec (link codec tail e)))) [
      | inl busy ↦ widen n rounds (Written-append_loop rounds (n + 1) view e e' d' (ground arith))
      | inr free ↦
          let eq : e' ≡ link codec tail e = ground arith in
          record {
            round = n;
            from_lo = omega arith;
            before_hi = omega arith;
            tail = tail;
            read_tail = p;
            linked = eq;
            follows = subst (Follows codec tail e) (sym eq) (link-Follows codec tail e);
            was_free = rw eq free;
            added = rw eq (ground arith);
          }
    ]
  ]

  -- An append that returns has, in one of its eight rounds, read a tail and written the stamped event
  -- with the seq after the tail's, the tail's hash as its predecessor (1 and no hash where the log is
  -- empty) and its own hash over both, all else unchanged; it found the event's file name free and
  -- added that one file to what the directory held. The attempt exists and the event has a kind.
  pub append-Written :
      (exists : Bool) (ticket attempt : String) (now : ℕ) (view : ℕ → Dir × Dir) (e e' : Event)
      (d' : Dir)
      → append codec exists ticket attempt now view e ≡ ok (e', d')
      → Written 0 8 view (stamped codec ticket attempt now e) e' d'
        × (exists ≡ true)
        × (e.kind ≢ "")
  unfolding append
  append-Written exists ticket attempt now view e e' d' h = (
    Written-append_loop 8 0 view (stamped codec ticket attempt now e) e' d' (ground arith),
    ground arith,
    λ p. ground (arith, eq_iff e.kind ""),
  )

  Busy-append_loop_first :
      (rounds n : ℕ) (view : ℕ → Dir × Dir) (e : Event)
      → append_loop codec (suc rounds) n view e ≡ err gave_up
      → Busy view e n × (append_loop codec rounds (n + 1) view e ≡ err gave_up)
  unfolding append_loop
  Busy-append_loop_first rounds n view e h = elim (Result-cases (last_event (view n).0)) [
    | inr (x, p) ↦ absurd (ground (arith, last_event-malformed (view n).0))
    | inl (tail, p) ↦ (record { tail = tail; read_tail = p; taken = ground arith }, ground arith)
  ]

  Busy-append_loop :
      (rounds n : ℕ) (view : ℕ → Dir × Dir) (e : Event)
      → append_loop codec rounds n view e ≡ err gave_up
      → (k : ℕ) → n ≤ k
      → k < n + rounds
      → Busy view e k
  Busy-append_loop zero n view e h k lo hi = absurd (omega arith)
  Busy-append_loop (suc rounds) n view e h k lo hi =
      let (here, later) = Busy-append_loop_first rounds n view e h in
      elim (Bool-cases (eqb n k)) [
        | inl eq ↦ subst (Busy view e) (eqb→eq n k eq) here
        | inr ne ↦ Busy-append_loop rounds (n + 1) view e later k (ground arith) (omega arith)
      ]

  append_loop-Busy :
      (rounds n : ℕ) (view : ℕ → Dir × Dir) (e : Event)
      → ((k : ℕ) → n ≤ k → k < n + rounds → Busy view e k)
      → append_loop codec rounds n view e ≡ err gave_up
  unfolding append_loop
  append_loop-Busy zero n view e h = refl
  append_loop-Busy (suc rounds) n view e h =
      let b = h n (omega arith) (omega arith) in
      ground (
        arith,
        b.read_tail,
        b.taken,
        append_loop-Busy rounds (n + 1) view e (λ k lo hi. h k (omega arith) (omega arith)),
      )

  -- For an attempt that exists and an event with a kind, an append gives up exactly when each of
  -- its eight rounds reads the log and then finds the file name of the linked event taken.
  pub append-gave_up :
      (ticket attempt : String) (now : ℕ) (view : ℕ → Dir × Dir) (e : Event)
      → e.kind ≢ ""
      → (append codec true ticket attempt now view e ≡ err gave_up)
        ↔ ((k : ℕ) → k < 8 → Busy view (stamped codec ticket attempt now e) k)
  unfolding append
  append-gave_up ticket attempt now view e named =
      let nonempty : (e.kind == "") ≡ false = ground (arith, named, eq_iff e.kind "") in
      (
        λ h k lt. Busy-append_loop 8 0 view _ (rw nonempty at h) k (omega arith) (omega arith),
        λ all. rw nonempty (append_loop-Busy 8 0 view _ (λ k lo hi. all k (omega arith))),
      )

  -- The event that an append writes, from the tail that its round read.
  abbrev pub written_as : Option Event → String → String → ℕ → Event → Event
  written_as tail ticket attempt now e = link codec tail (stamped codec ticket attempt now e)

  -- One round suffices when the name is free.
  pub append_first_round :
      (seen now_dir : Dir) (tail : Option Event) (ticket attempt : String) (now : ℕ) (e : Event)
      → last_event seen ≡ ok tail
      → e.kind ≢ ""
      → is_taken now_dir (filename codec (written_as tail ticket attempt now e)) ≡ false
      → append codec true ticket attempt now (λ _. (seen, now_dir)) e
        ≡ ok (
          written_as tail ticket attempt now e,
          now_dir
              ++ (
                filename codec (written_as tail ticket attempt now e),
                file (some (written_as tail ticket attempt now e)),
              )
                ∷ [],
        )
  unfolding append append_loop
  append_first_round seen now_dir tail ticket attempt now e r named free =
      let nonempty : (e.kind == "") ≡ false = ground (arith, named, eq_iff e.kind "") in
      rw nonempty (ground (arith, r, free))
