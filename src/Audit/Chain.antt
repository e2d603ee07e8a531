-- ===== src/Audit/Chain.antt =====
-- What audit.Verify decides: the hash chain as a predicate on the log.
use draiver.Prelude.{
  ℕ, String, ◌≡◌, refl, sym, ap, ◌∙◌, ◌≢◌, ◌↔◌, ◌⊎◌, inl, inr, true, false, false≢true, List, [],
  ◌∷◌, ◌++◌, arith, ◌==◌, eq_iff, Bool-cases, length,
}
use draiver.Event.{Event, Codec, compute_hash}
use draiver.Audit.{verify_from, verify}

module _ (codec : Codec) where
  -- Every event records the hash before it and its own recomputed hash.
  abbrev pub Chain : String → List Event → Type 0
  Chain prev [] = Unit
  Chain prev (e ∷ es) = (e.prev ≡ prev) × (compute_hash codec e ≡ e.hash) × Chain e.hash es

  -- The hash that the next event must record.
  abbrev pub tail_hash : String → List Event → String
  tail_hash prev [] = prev
  tail_hash prev (e ∷ es) = tail_hash e.hash es

  abbrev pub Breaks : String → Event → Type 0
  Breaks prev e = (e.prev ≢ prev) ⊎ (compute_hash codec e ≢ e.hash)

  pub record FirstBreak (prev : String) (es : List Event) (seq : ℕ) : Type 0 where
    pub before : List Event
    pub event : Event
    pub after : List Event
    pub split : es ≡ before ++ event ∷ after
    pub chained : Chain prev before
    pub breaks : Breaks (tail_hash prev before) event
    pub reported : seq ≡ event.seq

  verify_from-Chain :
      (n : ℕ) (prev : String) (es : List Event)
      → (verify_from codec n prev es).intact ≡ true
      → Chain prev es
  unfolding verify_from
  verify_from-Chain n prev [] h = tt
  verify_from-Chain n prev (e ∷ es) h = grind (
    arith,
    eq_iff e.prev prev,
    eq_iff (compute_hash codec e) e.hash,
    verify_from-Chain n e.hash es,
  )

  Chain-verify_from :
      (n : ℕ) (prev : String) (es : List Event)
      → Chain prev es
      → (verify_from codec n prev es).intact ≡ true
  unfolding verify_from
  Chain-verify_from n prev [] h = refl
  Chain-verify_from n prev (e ∷ es) h = ground (
    arith,
    eq_iff e.prev prev,
    eq_iff (compute_hash codec e) e.hash,
    Chain-verify_from n e.hash es,
  )

  -- audit.Verify calls a log intact exactly when it is a hash chain from the empty hash.
  pub verify-intact_iff : (es : List Event) → ((verify codec es).intact ≡ true) ↔ Chain "" es
  unfolding verify
  verify-intact_iff es = (verify_from-Chain (length es) "" es, Chain-verify_from (length es) "" es)

  step_break :
      (e : Event) (es : List Event) (prev : String) (seq : ℕ)
      → e.prev ≡ prev
      → compute_hash codec e ≡ e.hash
      → FirstBreak e.hash es seq
      → FirstBreak prev (e ∷ es) seq
  step_break e es prev seq p q b = record {
    before = e ∷ b.before;
    event = b.event;
    after = b.after;
    split = ap (λ (l : List Event). e ∷ l) b.split;
    chained = (p, q, b.chained);
    breaks = b.breaks;
    reported = b.reported;
  }

  head_break :
      (e : Event) (es : List Event) (prev : String) → Breaks prev e → FirstBreak prev (e ∷ es) e.seq
  head_break e es prev b = record {
    before = [];
    event = e;
    after = es;
    split = refl;
    chained = tt;
    breaks = b;
    reported = refl;
  }

  verify_from-FirstBreak :
      (n : ℕ) (prev : String) (es : List Event)
      → (verify_from codec n prev es).intact ≡ false
      → FirstBreak prev es (verify_from codec n prev es).broken_seq
  unfolding verify_from
  verify_from-FirstBreak n prev [] h = cc
  verify_from-FirstBreak n prev (e ∷ es) h = elim (Bool-cases (e.prev == prev)) [
    | inr p ↦ rw p (head_break e es prev (inl (λ x. false≢true (sym p ∙ (eq_iff e.prev prev).1 x))))
    | inl p ↦ elim (Bool-cases (compute_hash codec e == e.hash)) [
      | inr q ↦
          rw (p, q)
            (head_break e es prev
              (inr (λ x. false≢true (sym q ∙ (eq_iff (compute_hash codec e) e.hash).1 x))))
      | inl q ↦
          rw (p, q)
            (step_break e es prev _ ((eq_iff e.prev prev).0 p)
              ((eq_iff (compute_hash codec e) e.hash).0 q)
              (verify_from-FirstBreak n e.hash es (rw (p, q) at h)))
    ]
  ]

  -- A verdict that is not intact names the first broken event: the log splits into a hash chain,
  -- then an event that records another hash than the chain's last or recomputes to another hash
  -- than its own, whose seq is the one reported.
  pub verify-FirstBreak :
      (es : List Event)
      → (verify codec es).intact ≡ false
      → FirstBreak "" es (verify codec es).broken_seq
  unfolding verify
  verify-FirstBreak es h = verify_from-FirstBreak (length es) "" es h

  pub Chain-append :
      (prev : String) (xs ys : List Event)
      → Chain prev xs
      → Chain (tail_hash prev xs) ys
      → Chain prev (xs ++ ys)
  Chain-append prev [] ys hx hy = hy
  Chain-append prev (x ∷ xs) ys hx hy = (hx.0, hx.1, Chain-append x.hash xs ys hx.2 hy)

  pub Chain-suffix :
      (prev : String) (xs ys : List Event) → Chain prev (xs ++ ys) → Chain (tail_hash prev xs) ys
  Chain-suffix prev [] ys h = h
  Chain-suffix prev (x ∷ xs) ys h = Chain-suffix x.hash xs ys h.2

  pub Chain-prefix : (prev : String) (xs ys : List Event) → Chain prev (xs ++ ys) → Chain prev xs
  Chain-prefix prev [] ys h = tt
  Chain-prefix prev (x ∷ xs) ys h = (h.0, h.1, Chain-prefix x.hash xs ys h.2)
