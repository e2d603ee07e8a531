-- ===== src/Project/State/Control.antt =====
-- `Derive` against its description: which state a log stands for, and which escalations are open.
use draiver.Prelude.{
  ℕ, String, ◌≡◌, refl, sym, ap, ◌∙◌, ◌≢◌, ◌↔◌, inl, inr, Bool, true, false, not, false≢true,
  Option, none, some, List, [], ◌∷◌, Memᴰ, arith, eq_iff, if◌then◌else◌, Bool-cases, Option-cases,
  not_equal, false_iff, Mem-select_of, of_Mem-select,
}
use draiver.Prelude.Maps.{string_key, nat_key, has, has→Mem, Mem→has}
use draiver.Event.{Event}
use draiver.Project.State.{
  State, running, pending, needs_me, review, done, resolved_seqs, is_open, kind_is, is_empty,
  decide_state, derive,
}
use draiver.Project.State.Laws.{
  last_where, lifecycle, derive_lem, derive-open, Resolves, of_Mem-resolved_seqs, Mem-resolved_seqs,
  LastLifecycle, last_where-LastLifecycle, LastLifecycle-last_where,
}

-- An escalation of the log to which no resolution of the log refers.
abbrev pub IsOpen : List Event → Event → Type 0
IsOpen es e = Memᴰ e es × (e.kind ≡ "escalation") × (¬ Resolves es e.seq)

-- The last event that moves the control state is of a given kind.
abbrev pub Ends : String → List Event → Type 0
Ends k es = (e : Event) × LastLifecycle es e × (e.kind ≡ k)

abbrev pub HasOpen : List Event → Type 0
HasOpen es = (e : Event) × IsOpen es e

unresolved : (es : List Event) (n : ℕ) → (has (resolved_seqs es) n ≡ false) ↔ (¬ Resolves es n)
unresolved es n = (
  λ h r. false≢true (sym h ∙ Mem→has (resolved_seqs es) n (Mem-resolved_seqs es n r)),
  λ h. elim (Bool-cases (has (resolved_seqs es) n)) [
    | inl t ↦ absurd (h (of_Mem-resolved_seqs es n (has→Mem (resolved_seqs es) n t)))
    | inr f ↦ f
  ],
)

is_open_iff :
    (es : List Event) (e : Event)
    → (is_open (resolved_seqs es) e ≡ true) ↔ ((e.kind ≡ "escalation") × (¬ Resolves es e.seq))
is_open_iff es e = (
  λ h. ((eq_iff e.kind "escalation").0 (ground arith), (unresolved es e.seq).0 (ground arith)),
  λ h. rw ((eq_iff e.kind "escalation").1 h.0, (unresolved es e.seq).1 h.1),
)

-- The second result of `Derive` holds exactly the open escalations of the log.
pub derive-IsOpen : (es : List Event) (e : Event) → Memᴰ e (derive es).1 ↔ IsOpen es e
derive-IsOpen es e = (
  λ m.
      let (k, h) = of_Mem-select (is_open (resolved_seqs es)) es (rw derive-open at m) in
      let (a, b) = (is_open_iff es e).0 h in (k, a, b),
  λ o.
      rw derive-open
        (Mem-select_of (is_open (resolved_seqs es)) es ((is_open_iff es e).1 (o.1, o.2)) o.0),
)

some_member : (xs : List Event) → is_empty xs ≡ false → (e : Event) × Memᴰ e xs
some_member [] h = cc
some_member (x ∷ xs) h = (x, Memᴰ.head refl)

member_some : (xs : List Event) (e : Event) → Memᴰ e xs → is_empty xs ≡ false
member_some [] e m = elim m [ ]
member_some (x ∷ xs) e m = refl

found_open : (es : List Event) → (is_empty (derive es).1 ≡ false) ↔ HasOpen es
found_open es = (
  λ h. let (e, m) = some_member (derive es).1 h in (e, (derive-IsOpen es e).0 m),
  λ (e, o). member_some (derive es).1 e ((derive-IsOpen es e).1 o),
)

found_end :
    (k : String) (es : List Event) → (kind_is k (last_where lifecycle es) ≡ true) ↔ Ends k es
found_end k es = (
  λ h. elim (Option-cases (last_where lifecycle es)) [
    | inl n ↦ absurd (false≢true (ap (kind_is k) (sym n) ∙ h))
    | inr (e, s) ↦
        (e, last_where-LastLifecycle es e s, (eq_iff e.kind k).0 (ap (kind_is k) (sym s) ∙ h))
  ],
  λ (e, l, p). rw (LastLifecycle-last_where es e l) ((eq_iff e.kind k).1 p),
)

not-false : {P : Type 0} {b : Bool} → (b ≡ false) ↔ P → (not b ≡ true) ↔ P
not-false h = (λ e. h.0 (ground arith), λ p. ground (arith, h.1 p))

table : Bool → Bool → Bool → State
table d o r = if d then done else if o then needs_me else if r then review else running

derive-table :
    (es : List Event)
    → (derive es).0
      ≡ table
          (kind_is "done" (last_where lifecycle es))
          (not (is_empty (derive es).1))
          (kind_is "review" (last_where lifecycle es))
unfolding table decide_state
derive-table es = rw derive_lem (ground arith)

-- The ends of a log are exclusive.
one_end : (o : Option Event) → kind_is "review" o ≡ true → kind_is "done" o ≡ false
one_end none h = refl
one_end (some e) h =
    not_equal (λ p. false≢true ((eq_iff "done" "review").1 (sym p ∙ (eq_iff e.kind "review").0 h)))

abbrev IsState : Bool → Bool → Bool → Type 0
IsState d o r =
    ((table d o r ≡ done) ↔ (d ≡ true))
    × ((table d o r ≡ needs_me) ↔ ((d ≡ false) × (o ≡ true)))
    × ((table d o r ≡ review) ↔ ((r ≡ true) × (o ≡ false)))
    × ((table d o r ≡ running) ↔ ((d ≡ false) × (r ≡ false) × (o ≡ false)))
    × (table d o r ≢ pending)

table_lem : (d o r : Bool) → (r ≡ true → d ≡ false) → IsState d o r
unfolding table
table_lem d o r h = (
  (λ x. ground arith, λ x. ground arith),
  (λ x. ground arith, λ x. ground arith),
  (λ x. ground arith, λ x. ground arith),
  (λ x. ground arith, λ x. ground arith),
  λ x. ground arith,
)

-- The control state of a log. It is done exactly if the last event that moves it is a done;
-- otherwise Needs me exactly if an escalation is open; Review exactly if the last such event is a
-- review and none is open; Running exactly in all other cases; and never Pending.
pub derive_states :
    (es : List Event)
    → (((derive es).0 ≡ done) ↔ Ends "done" es)
      × (((derive es).0 ≡ needs_me) ↔ ((¬ Ends "done" es) × HasOpen es))
      × (((derive es).0 ≡ review) ↔ (Ends "review" es × (¬ HasOpen es)))
      × (((derive es).0 ≡ running) ↔ ((¬ Ends "done" es) × (¬ Ends "review" es) × (¬ HasOpen es)))
      × ((derive es).0 ≢ pending)
derive_states es =
    let d : Bool = kind_is "done" (last_where lifecycle es) in
    let o : Bool = not (is_empty (derive es).1) in
    let r : Bool = kind_is "review" (last_where lifecycle es) in
    let (a, b, c, e, f) = table_lem d o r (one_end (last_where lifecycle es)) in
    let td = found_end "done" es in
    let tr = found_end "review" es in
    let to = found_open es in
    let fd = false_iff d td in
    let fr = false_iff r tr in
    let fo = false_iff o (not-false to) in
    let no = not-false to in
    rw derive-table (
      (λ x. td.0 (a.0 x), λ x. a.1 (td.1 x)),
      (λ x. (fd.0 (b.0 x).0, no.0 (b.0 x).1), λ x. b.1 (fd.1 x.0, no.1 x.1)),
      (λ x. (tr.0 (c.0 x).0, fo.0 (c.0 x).1), λ x. c.1 (tr.1 x.0, fo.1 x.1)),
      (
        λ x. (fd.0 (e.0 x).0, fr.0 (e.0 x).1, fo.0 (e.0 x).2),
        λ x. e.1 (fd.1 x.0, fr.1 x.1, fo.1 x.2),
      ),
      f,
    )
