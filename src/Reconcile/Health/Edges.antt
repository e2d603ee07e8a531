-- ===== src/Reconcile/Health/Edges.antt =====
-- The log of health edges, read back, shows the class of the last observation and nothing else.
use draiver.Prelude.{
  String, ◌≡◌, refl, sym, ap, ◌∙◌, inl, inr, Bool, true, false, not, ◌&&◌, ◌||◌, false≢true, List,
  [], ◌∷◌, ◌++◌, append-nil, arith, ◌==◌, eq_iff, if◌then◌else◌, Bool-cases, not_equal, select,
}
use draiver.Prelude.Maps.{string_key, nat_key, ref_key, has}
use draiver.Reconcile.Health.{HealthEvent, ended, started, close_others, keep_class, report_health}

-- What a reader of the log has open: a start opens a class, an end closes it.
abbrev pub read_edge : List String → HealthEvent → List String
read_edge s e = if e.start then e.class ∷ s else select (λ c. not (c == e.class)) s

abbrev pub read_edges : List String → List HealthEvent → List String
read_edges s [] = s
read_edges s (e ∷ es) = read_edges (read_edge s e) es

read_edges-append :
    (s : List String) (es fs : List HealthEvent)
    → read_edges s (es ++ fs) ≡ read_edges (read_edges s es) fs
read_edges-append s [] fs = refl
read_edges-append s (e ∷ es) fs = read_edges-append (read_edge s e) es fs

has-select :
    (p : String → Bool) (s : List String) (c : String) → has (select p s) c ≡ (has s c && p c)
unfolding has
has-select p [] c = refl
has-select p (x ∷ s) c =
    let same : (x == c) ≡ true → p x ≡ p c = λ h. ap p ((eq_iff x c).0 h) in
    ground (arith, has-select p s c, same)

swap : (a b : String) → (a == b) ≡ (b == a)
swap a b = elim (Bool-cases (a == b)) [
  | inl t ↦ t ∙ sym ((eq_iff b a).1 (sym ((eq_iff a b).0 t)))
  | inr f ↦ f ∙ sym (not_equal (λ e. false≢true (sym f ∙ (eq_iff a b).1 (sym e))))
]

read_closed :
    (class : String) (active s : List String) (c : String)
    → has (read_edges s (close_others class active)) c
      ≡ (has s c && ((c == class) || not (has active c)))
unfolding close_others ended has
read_closed class [] s c = ground arith
read_closed class (x ∷ active) s c =
    let to_class : (x == c) ≡ true → (x == class) ≡ (c == class) =
      λ h. ap (λ k. k == class) ((eq_iff x c).0 h) in
    elim (Bool-cases (x == class)) [
      | inl t ↦ rw t (read_closed class active s c ∙ ground (arith, to_class, t))
      | inr f ↦ rw f (
          read_closed class active (select (λ k. not (k == x)) s) c
          ∙ ground (arith, has-select (λ k. not (k == x)) s c, to_class, f, swap c x))
    ]

-- The classes that the log of one attempt has open and those that the reconciler holds active.
abbrev Shows : List String → List String → Type 0
Shows s active = (c : String) → has s c ≡ has active c

report_health-Shows :
    (s active : List String) (class message : String)
    → Shows s active
    → Shows
        (read_edges s (report_health active class message).1)
        (report_health active class message).0
unfolding report_health keep_class started has
report_health-Shows s active class message h c =
    let kept = has-select (λ k. k == class) active c in
    let closed = read_closed class active s c in
    let both : has (read_edges s (close_others class active)) c
        ≡ has (select (λ k. k == class) active) c =
      closed ∙ ground (arith, kept, h c) in
    elim (Bool-cases (class == "")) [
      | inl t ↦ rw t both
      | inr f ↦ elim (Bool-cases (has (select (λ k. k == class) active) class)) [
        | inl y ↦ rw (f, y) both
        | inr n ↦ rw (f, n, read_edges-append) (ground (arith, both))
      ]
    ]

-- After an observation exactly its class is active, or none after a healthy one.
report_health-last :
    (active : List String) (class message c : String)
    → has active "" ≡ false
    → has (report_health active class message).0 c ≡ ((class == c) && not (class == ""))
unfolding report_health keep_class started has
report_health-last active class message c h =
    let kept = has-select (λ k. k == class) active c in
    let own = has-select (λ k. k == class) active class in
    let itself : (class == class) ≡ true = (eq_iff class class).1 refl in
    let moved : (class == c) ≡ true → has active class ≡ has active c =
      λ e. ap (has active) ((eq_iff class c).0 e) in
    let blank : (class == "") ≡ true → has active class ≡ has active "" =
      λ e. ap (has active) ((eq_iff class "").0 e) in
    ground (arith, kept, own, itself, moved, blank, h, swap c class)

-- The log of one attempt that a series of observations (class, message) leaves.
abbrev pub health_log : List String → List (String × String) → List HealthEvent
health_log active [] = []
health_log active ((class, message) ∷ rest) =
    (report_health active class message).1 ++ health_log (report_health active class message).0 rest

no_blank :
    (active : List String) (class message : String)
    → has active "" ≡ false
    → has (report_health active class message).0 "" ≡ false
no_blank active class message h = report_health-last active class message "" h ∙ ground arith

health_log_from :
    (s active : List String) (before : List (String × String)) (class message c : String)
    → Shows s active
    → has active "" ≡ false
    → has (read_edges s (health_log active (before ++ (class, message) ∷ []))) c
      ≡ ((class == c) && not (class == ""))
health_log_from s active [] class message c h b =
    ap (λ es. has (read_edges s es) c) (append-nil (report_health active class message).1)
    ∙ report_health-Shows s active class message h c
    ∙ report_health-last active class message c b
health_log_from s active ((k, m) ∷ before) class message c h b =
    let (active', es) = report_health active k m in
    ap (λ t. has t c)
      (read_edges-append s es (health_log active' (before ++ (class, message) ∷ [])))
    ∙ health_log_from (read_edges s es) active' before class message c
        (report_health-Shows s active k m h) (no_blank active k m b)

-- A reader of the log of an attempt that was healthy at first has open, after any series of
-- observations, exactly the class of the last one, and none if that one was healthy.
pub report_health-health_log :
    (before : List (String × String)) (class message c : String)
    → has (read_edges [] (health_log [] (before ++ (class, message) ∷ []))) c
      ≡ ((class == c) && not (class == ""))
unfolding has
report_health-health_log before class message c =
    health_log_from [] [] before class message c (λ k. refl) refl

none_other :
    (class : String) (active : List String)
    → close_others class (select (λ k. k == class) active) ≡ []
unfolding close_others
none_other class [] = refl
none_other class (x ∷ active) = elim (Bool-cases (x == class)) [
  | inl t ↦ rw (t, t) (none_other class active)
  | inr f ↦ rw f (none_other class active)
]

others_left :
    (active : List String) (class message : String)
    → close_others class (report_health active class message).0 ≡ []
unfolding report_health keep_class close_others
others_left active class message =
    let itself : (class == class) ≡ true = (eq_iff class class).1 refl in
    ground (arith, itself, none_other class active)

settled :
    (class again : String) (l : List String)
    → close_others class l ≡ []
    → ((class == "") || has l class) ≡ true
    → (report_health l class again).1 ≡ []
unfolding report_health keep_class
settled class again l e h =
    let itself : (class == class) ≡ true = (eq_iff class class).1 refl in
    ground (arith, e, h, itself, has-select (λ k. k == class) l class)

-- Attempts that stay in trouble, or healthy, write nothing: the second of two observations of one
-- class emits no edge.
pub report_health-quiet :
    (active : List String) (class message again : String)
    → has active "" ≡ false
    → (report_health (report_health active class message).0 class again).1 ≡ []
report_health-quiet active class message again h =
    let l = (report_health active class message).0 in
    let itself : (class == class) ≡ true = (eq_iff class class).1 refl in
    settled class again l (others_left active class message)
      (ground (arith, report_health-last active class message class h, itself))
