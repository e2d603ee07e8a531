-- ===== src/Project/State/Moves.antt =====
-- How one more event moves the control state and the open escalations.
use draiver.Prelude.{
  ℕ, String, ◌≡◌, refl, sym, ap, ap₂, ◌∙◌, ◌≢◌, Bool, true, false, not, ◌&&◌, false≢true, Option,
  some, List, [], ◌∷◌, ◌++◌, append_assoc, append-nil, arith, ◌==◌, eq_iff, if◌then◌else◌,
  not_equal, select, select-append, select-select, select-ext,
}
use draiver.Prelude.Maps.{string_key, nat_key, has, has-append}
use draiver.Event.{Event}
use draiver.Project.State.{
  running, needs_me, is_lifecycle, resolved_seqs, is_open, is_empty, decide_state, derive,
}
use draiver.Project.State.Laws.{last_where, lifecycle, derive_lem, derive-open}

resolved_seqs-append :
    (es : List Event) (e : Event)
    → resolved_seqs (es ++ e ∷ [])
      ≡ resolved_seqs es ++ (if e.kind == "resolution" then e.refs else [])
unfolding resolved_seqs
resolved_seqs-append [] e = ground (arith, append-nil e.refs)
resolved_seqs-append (x ∷ es) e = ground (
  arith,
  resolved_seqs-append es e,
  append_assoc x.refs (resolved_seqs es) (if e.kind == "resolution" then e.refs else []),
)

last_where-append :
    (es : List Event) (e : Event)
    → last_where lifecycle (es ++ e ∷ [])
      ≡ (if is_lifecycle e.kind then some e else last_where lifecycle es)
unfolding lifecycle
last_where-append [] e = ground arith
last_where-append (x ∷ es) e = ground (arith, last_where-append es e)

derive-append :
    (es : List Event) (e : Event) (resolved : List ℕ)
    → resolved ≡ resolved_seqs (es ++ e ∷ [])
    → derive (es ++ e ∷ [])
      ≡ decide_state (
        select (is_open resolved) es ++ select (is_open resolved) (e ∷ []),
        (if is_lifecycle e.kind then some e else last_where lifecycle es),
      )
derive-append es e resolved p =
    derive_lem (es ++ e ∷ [])
    ∙ ap₂ (λ (a : List Event) (b : Option Event). decide_state (a, b))
        (ap (λ (t : List ℕ). select (is_open t) (es ++ e ∷ [])) (sym p)
          ∙ select-append (is_open resolved) es (e ∷ []))
        (last_where-append es e)

same_resolved :
    (es : List Event) (e : Event)
    → e.kind ≢ "resolution"
    → resolved_seqs es ≡ resolved_seqs (es ++ e ∷ [])
same_resolved es e h = rw (resolved_seqs-append, not_equal h) (sym (append-nil (resolved_seqs es)))

not_open :
    (resolved : List ℕ) (e : Event)
    → is_lifecycle e.kind ≡ false
    → select (is_open resolved) (e ∷ []) ≡ []
unfolding is_lifecycle
not_open resolved e n = ground arith

-- An event that neither moves the control state nor resolves leaves the state and the open
-- escalations as they are; so notes, parks, wake-ups and enables never move the board.
pub derive_neutral :
    (es : List Event) (e : Event)
    → is_lifecycle e.kind ≡ false
    → e.kind ≢ "resolution"
    → derive (es ++ e ∷ []) ≡ derive es
derive_neutral es e n r =
    derive-append es e (resolved_seqs es) (same_resolved es e r)
    ∙ rw (n, not_open (resolved_seqs es) e n, append-nil, derive_lem)

not_kind : (e : Event) (s t : String) → e.kind ≡ s → (s == t) ≡ false → e.kind ≢ t
not_kind e s t k d p = false≢true (sym d ∙ (eq_iff s t).1 (sym k ∙ p))

not_empty : (xs : List Event) (e : Event) → is_empty (xs ++ e ∷ []) ≡ false
not_empty [] e = refl
not_empty (x ∷ xs) e = refl

-- After a decision the attempt is Running, a reviewed or closed one too, unless an escalation is
-- open: then it is Needs me. The open escalations stay.
pub derive_decision :
    (es : List Event) (e : Event)
    → e.kind ≡ "decision"
    → derive (es ++ e ∷ [])
      ≡ ((if is_empty (derive es).1 then running else needs_me), (derive es).1)
unfolding decide_state is_lifecycle
derive_decision es e k =
    let kind : String → Bool = λ t. e.kind == t in
    let is : (t : String) → kind t ≡ ("decision" == t) = λ t. ap (λ (x : String). x == t) k in
    let life : is_lifecycle e.kind ≡ true = ap is_lifecycle k in
    let none_new : select (is_open (resolved_seqs es)) (e ∷ []) ≡ [] =
      ground (arith, is "escalation") in
    derive-append es e (resolved_seqs es)
      (same_resolved es e (not_kind e "decision" "resolution" k refl))
    ∙ rw (life, none_new, append-nil, ← derive-open) (ground (arith, is "done", is "review"))

-- An escalation that no earlier resolution refers to is open, behind those open before, and the
-- attempt is then Needs me, a closed one too.
pub derive_escalation :
    (es : List Event) (e : Event)
    → e.kind ≡ "escalation"
    → has (resolved_seqs es) e.seq ≡ false
    → derive (es ++ e ∷ []) ≡ (needs_me, (derive es).1 ++ e ∷ [])
unfolding decide_state is_lifecycle
derive_escalation es e k f =
    let is : (t : String) → (e.kind == t) ≡ ("escalation" == t) =
      λ t. ap (λ (x : String). x == t) k in
    let life : is_lifecycle e.kind ≡ true = ap is_lifecycle k in
    let new : select (is_open (resolved_seqs es)) (e ∷ []) ≡ e ∷ [] =
      ground (arith, is "escalation", f) in
    derive-append es e (resolved_seqs es)
      (same_resolved es e (not_kind e "escalation" "resolution" k refl))
    ∙ rw (life, new, ← derive-open)
        (ground (arith, is "done", is "review", not_empty (derive es).1 e))

still_open :
    (resolved refs : List ℕ) (x : Event)
    → is_open (resolved ++ refs) x ≡ (is_open resolved x && not (has refs x.seq))
still_open resolved refs x = rw has-append (ground arith)

-- A resolution closes the open escalations whose seqs it refers to, and no others; their order
-- stays.
pub derive_resolution :
    (es : List Event) (r : Event)
    → r.kind ≡ "resolution"
    → (derive (es ++ r ∷ [])).1 ≡ select (λ o. not (has r.refs o.seq)) (derive es).1
derive_resolution es r k =
    let is : (t : String) → (r.kind == t) ≡ ("resolution" == t) =
      λ t. ap (λ (x : String). x == t) k in
    let refs : resolved_seqs (es ++ r ∷ []) ≡ resolved_seqs es ++ r.refs =
      resolved_seqs-append es r
      ∙ ap (λ (b : Bool). resolved_seqs es ++ (if b then r.refs else [])) (is "resolution") in
    let none_new : select (is_open (resolved_seqs es ++ r.refs)) (r ∷ []) ≡ [] =
      ground (arith, is "escalation") in
    derive-open (es ++ r ∷ [])
    ∙ rw (refs, select-append, none_new, append-nil, derive-open, select-select)
        (select-ext _ _ es (still_open (resolved_seqs es) r.refs))
