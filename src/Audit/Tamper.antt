-- ===== src/Audit/Tamper.antt =====
-- Tamper evidence: what two logs that audit.Verify accepts have in common if they end in one hash.
use mathlib.Core.Path.{subst}
use native.Mathlib.Decide.{ℕ_discrete}
use draiver.Audit.Chain.{Chain, tail_hash, verify-intact_iff, Chain-suffix, Chain-prefix}
use draiver.Audit.{verify}
use draiver.Prelude.{
  ℕ, ◌≤◌, String, ◌≡◌, refl, sym, ap, ap₂, ◌∙◌, ◌≢◌, ◌⊎◌, inl, inr, true, false≢true, List, [], ◌∷◌,
  ◌++◌, map, arith, ◌==◌, eq_iff, leb, Bool-cases, length,
}
use draiver.Event.{Event, Hashable, Codec, canonical_body, hashable, digest, compute_hash}

String-discrete : Discrete String
String-discrete s t = elim (Bool-cases (s == t)) [
  | inl e ↦ yes ((eq_iff s t).0 e)
  | inr e ↦ no (λ p. false≢true (sym e ∙ (eq_iff s t).1 p))
]

-- What the hash is computed from.
abbrev pub Content : Type 0
Content = Hashable × String

Content-discrete : Discrete Content
Content-discrete = hlevel (String-discrete, ℕ_discrete)

module _ (codec : Codec) where
  unfoldable pub content : Event → Content
  content e = (hashable codec e, canonical_body e.body)

  -- Two different contents with one digest.
  pub record Collision : Type 0 where
    pub left : Content
    pub right : Content
    pub differ : left ≢ right
    pub agree : digest codec left.0 left.1 ≡ digest codec right.0 right.1

  same_content :
      (x y : Event)
      → compute_hash codec x ≡ x.hash
      → compute_hash codec y ≡ y.hash
      → x.hash ≡ y.hash
      → (content x ≡ content y) ⊎ Collision
  unfolding content compute_hash
  same_content x y hx hy e = elim (Content-discrete (content x) (content y)) [
    | yes p ↦ inl p
    | no p ↦
        inr (record { left = content x; right = content y; differ = p; agree = hx ∙ e ∙ sym hy })
  ]

  prev_of_content : (x y : Event) → content x ≡ content y → x.prev ≡ y.prev
  unfolding content hashable
  prev_of_content x y e = ap (λ (c : Content). c.0.prev) e

  abbrev Agree : String → String → List Event → List Event → Type 0
  Agree p q xs ys = ((p ≡ q) × (map content xs ≡ map content ys)) ⊎ Collision

  Agree-cons :
      (p q : String) (x y : Event) (xs ys : List Event)
      → Chain codec p (x ∷ xs)
      → Chain codec q (y ∷ ys)
      → Agree x.hash y.hash xs ys
      → Agree p q (x ∷ xs) (y ∷ ys)
  Agree-cons p q x y xs ys hx hy (inr c) = inr c
  Agree-cons p q x y xs ys hx hy (inl (e, es)) = elim (same_content x y hx.1 hy.1 e) [
    | inr c ↦ inr c
    | inl s ↦ inl (sym hx.0 ∙ prev_of_content x y s ∙ hy.0, ap₂ (λ (c : Content) cs. c ∷ cs) s es)
  ]

  -- Chains of one length with one last hash start from one hash and hold the same contents.
  equal_length :
      (p q : String) (xs ys : List Event)
      → length xs ≡ length ys
      → Chain codec p xs
      → Chain codec q ys
      → tail_hash codec p xs ≡ tail_hash codec q ys
      → Agree p q xs ys
  equal_length p q [] [] n hx hy e = inl (e, refl)
  equal_length p q [] (y ∷ ys) n hx hy e = absurd (omega arith)
  equal_length p q (x ∷ xs) [] n hx hy e = absurd (omega arith)
  equal_length p q (x ∷ xs) (y ∷ ys) n hx hy e =
      Agree-cons p q x y xs ys hx hy (equal_length x.hash y.hash xs ys (omega arith) hx.2 hy.2 e)

  -- The last hash of a chain that is not empty is a digest.
  tail_hash-digest :
      (p : String) (y : Event) (ys : List Event)
      → Chain codec p (y ∷ ys)
      → (c : Content) × (digest codec c.0 c.1 ≡ tail_hash codec p (y ∷ ys))
  unfolding compute_hash
  tail_hash-digest p y [] h = ((hashable codec y, canonical_body y.body), h.1)
  tail_hash-digest p y (z ∷ ys) h = tail_hash-digest y.hash z ys h.2

  -- A list split so that its second part has `n` elements.
  split_last :
      (n : ℕ) (ys : List Event)
      → n ≤ length ys
      → (front : List Event) × (back : List Event) × (ys ≡ front ++ back) × (length back ≡ n)
  split_last n [] h = ([], [], refl, omega arith)
  split_last n (y ∷ ys) h = elim (Bool-cases (leb n (length ys))) [
    | inl le ↦
        let (front, back, e, l) = split_last n ys (ground arith) in
        (y ∷ front, back, ap (λ (t : List Event). y ∷ t) e, l)
    | inr gt ↦ ([], y ∷ ys, refl, ground arith)
  ]

  tail_hash-append :
      (p : String) (xs ys : List Event)
      → tail_hash codec p (xs ++ ys) ≡ tail_hash codec (tail_hash codec p xs) ys
  tail_hash-append p [] ys = refl
  tail_hash-append p (x ∷ xs) ys = tail_hash-append x.hash xs ys

  forget :
      (p q : String) (xs ys : List Event)
      → Agree p q xs ys
      → (map content xs ≡ map content ys) ⊎ Collision
  forget p q xs ys (inl (e, es)) = inl es
  forget p q xs ys (inr c) = inr c

  flip :
      (p q : String) (xs ys : List Event)
      → Agree p q ys xs
      → (map content xs ≡ map content ys) ⊎ Collision
  flip p q xs ys (inl (e, es)) = inl (sym es)
  flip p q xs ys (inr c) = inr c

  module _ (digest_nonempty : (c : Content) → digest codec c.0 c.1 ≢ "") where
    no_front :
        (front back xs : List Event)
        → length back ≡ length xs
        → Chain codec "" xs
        → Chain codec "" (front ++ back)
        → tail_hash codec "" xs ≡ tail_hash codec "" (front ++ back)
        → Agree "" "" xs (front ++ back)
    no_front [] back xs n hx hy e = equal_length "" "" xs back (sym n) hx hy e
    no_front (z ∷ front) back xs n hx hy e =
        elim (equal_length "" (tail_hash codec z.hash front) xs back (sym n) hx
          (Chain-suffix codec "" (z ∷ front) back hy) (e ∙ tail_hash-append "" (z ∷ front) back)) [
            | inr c ↦ inr c
            | inl (p, q) ↦
                let (c, d) =
                  tail_hash-digest "" z front (Chain-prefix codec "" (z ∷ front) back hy) in
                absurd (digest_nonempty c (d ∙ sym p))
          ]

    shorter_first :
        (xs ys : List Event)
        → length xs ≤ length ys
        → Chain codec "" xs
        → Chain codec "" ys
        → tail_hash codec "" xs ≡ tail_hash codec "" ys
        → Agree "" "" xs ys
    shorter_first xs ys n hx hy e =
        let (front, back, s, l) = split_last (length xs) ys n in
        subst (λ (t : List Event). Agree "" "" xs t) (sym s)
          (no_front front back xs l hx (subst (Chain codec "") s hy)
            (e ∙ ap (tail_hash codec "") s))

    -- Two logs that audit.Verify accepts and that end in the same hash hold the same contents,
    -- event by event, or else two different contents with one digest can be shown. So an edited
    -- log cannot keep both its verdict and its last hash without a collision.
    pub verify-same_tail :
        (xs ys : List Event)
        → (verify codec xs).intact ≡ true
        → (verify codec ys).intact ≡ true
        → tail_hash codec "" xs ≡ tail_hash codec "" ys
        → (map content xs ≡ map content ys) ⊎ Collision
    verify-same_tail xs ys hx hy e =
        let cx = (verify-intact_iff codec xs).0 hx in
        let cy = (verify-intact_iff codec ys).0 hy in
        elim (Bool-cases (leb (length xs) (length ys))) [
          | inl le ↦ forget "" "" xs ys (shorter_first xs ys (ground arith) cx cy e)
          | inr gt ↦ flip "" "" xs ys (shorter_first ys xs (ground arith) cy cx (sym e))
        ]
