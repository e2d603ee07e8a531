-- ===== src/Audit/Growth.antt =====
-- Appends seen by the audit: one writer keeps the chain, two racing writers can fork it.
use text.Mathlib.TextLemmas.{append_cancel_left, append_cancel_right}
use draiver.Prelude.{
  ℕ, String, ◌<>◌, ◌≡◌, refl, sym, ap₂, ◌∙◌, ◌≢◌, inl, inr, true, false, ◌||◌, Option, none, some,
  List, [], ◌∷◌, ◌++◌, arith, ◌==◌, Bool-cases, not_equal, last,
}
use draiver.Event.{Event, Codec, hashable, compute_hash, filename}
use draiver.Log.{ok, file, Dir, last_event, is_taken, link, stamped, append}
use draiver.Audit.{verify}
use draiver.Audit.Chain.{Chain, tail_hash, verify-intact_iff, Chain-append, Chain-suffix}
use draiver.Log.Append.{is_taken-append, written_as, append_first_round}
use draiver.Prelude.Text.{pad}

module _ (codec : Codec) where
  -- The hash after which an append links is the hash of the last event.
  tail_hash-last :
      (prev : String) (e : Event) (es : List Event) {t : Event}
      → last (e ∷ es) ≡ some t
      → tail_hash codec prev (e ∷ es) ≡ t.hash
  tail_hash-last prev e [] h = ground arith
  tail_hash-last prev e (x ∷ es) h = tail_hash-last e.hash x es h

  last-ne-none : (e : Event) (es : List Event) → last (e ∷ es) ≢ none
  last-ne-none e [] h = cc
  last-ne-none e (x ∷ es) h = last-ne-none x es h

  Chain-link :
      (es : List Event) (o : Option Event) (e : Event)
      → last es ≡ o
      → Chain codec (tail_hash codec "" es) (link codec o e ∷ [])
  unfolding link compute_hash hashable
  Chain-link [] none e h = (refl, refl, tt)
  Chain-link [] (some t) e h = absurd (cc)
  Chain-link (x ∷ es) none e h = absurd (last-ne-none x es h)
  Chain-link (x ∷ es) (some t) e h = (sym (tail_hash-last "" x es h), refl, tt)

  -- Linking an event to the last one of an intact log gives an intact log.
  pub verify-link :
      (es : List Event) (e : Event)
      → (verify codec es).intact ≡ true
      → (verify codec (es ++ link codec (last es) e ∷ [])).intact ≡ true
  verify-link es e h = (verify-intact_iff codec _).1 (
      Chain-append codec "" es _ ((verify-intact_iff codec es).0 h)
        (Chain-link es (last es) e refl))

  not-Chain-fork :
      (es : List Event) (x y : Event)
      → x.prev ≡ y.prev
      → x.prev ≢ x.hash
      → ¬ Chain codec "" (es ++ x ∷ y ∷ [])
  not-Chain-fork es x y same moved c =
      let (px, hx, rest) = Chain-suffix codec "" es (x ∷ y ∷ []) c in moved (same ∙ rest.0)

  link_seq : (tail : Option Event) (x y : Event) → (link codec tail x).seq ≡ (link codec tail y).seq
  unfolding link
  link_seq none x y = refl
  link_seq (some t) x y = refl

  link_prev :
      (tail : Option Event) (x y : Event) → (link codec tail x).prev ≡ (link codec tail y).prev
  unfolding link
  link_prev none x y = refl
  link_prev (some t) x y = refl

  written_kind :
      (tail : Option Event) (ticket attempt : String) (now : ℕ) (x : Event)
      → (written_as codec tail ticket attempt now x).kind ≡ x.kind
  unfolding link stamped
  written_kind none ticket attempt now x = refl
  written_kind (some t) ticket attempt now x = refl

  verify-fork :
      (es : List Event) (x y : Event)
      → x.prev ≡ y.prev
      → x.prev ≢ x.hash
      → (verify codec (es ++ x ∷ y ∷ [])).intact ≡ false
  verify-fork es x y same moved = elim (Bool-cases (verify codec (es ++ x ∷ y ∷ [])).intact) [
    | inl fine ↦ absurd (not-Chain-fork es x y same moved ((verify-intact_iff codec _).0 fine))
    | inr broken ↦ broken
  ]

  filename_kind :
      (x y : Event)
      → x.ts ≡ y.ts
      → x.seq ≡ y.seq
      → filename codec x ≡ filename codec y
      → x.kind ≡ y.kind
  unfolding filename
  filename_kind x y t s e =
      let same : filename codec y
          ≡ codec.stamp x.ts <> "-" <> pad 4 x.seq <> "-" <> y.kind <> ".md" =
        rw (t, s) in
      append_cancel_right _ _ ".md" (
        append_cancel_left "-" _ _ (
          append_cancel_left (pad 4 x.seq) _ _
            (append_cancel_left "-" _ _ (append_cancel_left (codec.stamp x.ts) _ _ (e ∙ same)))))

  abbrev first : Option Event → String → String → ℕ → Event → Event
  first = written_as codec

  -- The directory with one more file.
  abbrev after : Dir → Event → Dir
  after d e = d ++ (filename codec e, file (some e)) ∷ []

  -- Two processes append to one log: the second reads the directory before the first has created
  -- its file. If both events have a kind, different kinds and the same second, and neither name is
  -- taken, then O_EXCL stops neither. Both appends return, with the same seq and the same prev, and
  -- unless the first event's hash is its own prev the audit rejects every log that ends in the two,
  -- in either order.
  pub append_race :
      (d : Dir) (tail : Option Event) (ticket attempt : String) (now now' : ℕ) (x y : Event)
      (before : List Event)
      → last_event d ≡ ok tail
      → x.kind ≢ ""
      → y.kind ≢ ""
      → x.kind ≢ y.kind
      → (first tail ticket attempt now x).ts ≡ (first tail ticket attempt now' y).ts
      → is_taken d (filename codec (first tail ticket attempt now x)) ≡ false
      → is_taken d (filename codec (first tail ticket attempt now' y)) ≡ false
      → (first tail ticket attempt now x).prev ≢ (first tail ticket attempt now x).hash
      → (first tail ticket attempt now' y).prev ≢ (first tail ticket attempt now' y).hash
      → let x' = first tail ticket attempt now x in
        let y' = first tail ticket attempt now' y in
        (append codec true ticket attempt now (λ _. (d, d)) x ≡ ok (x', after d x'))
        × (append codec true ticket attempt now' (λ _. (d, after d x')) y
            ≡ ok (y', after (after d x') y'))
        × (x'.seq ≡ y'.seq)
        × (x'.prev ≡ y'.prev)
        × ((verify codec (before ++ x' ∷ y' ∷ [])).intact ≡ false)
        × ((verify codec (before ++ y' ∷ x' ∷ [])).intact ≡ false)
  append_race d tail ticket attempt now now' x y before r nx ny differ t fx fy mx my =
      let x' : Event = first tail ticket attempt now x in
      let y' : Event = first tail ticket attempt now' y in
      let s : x'.seq ≡ y'.seq = link_seq tail _ _ in
      let p : x'.prev ≡ y'.prev = link_prev tail _ _ in
      let kinds : x'.kind ≢ y'.kind = λ e. differ (
        sym (written_kind tail ticket attempt now x)
        ∙ e
        ∙ written_kind tail ticket attempt now' y) in
      let names : (filename codec x' == filename codec y') ≡ false =
        not_equal (λ e. kinds (filename_kind x' y' t s e)) in
      let free : is_taken (after d x') (filename codec y') ≡ false =
        is_taken-append d (filename codec x') (filename codec y') (file (some x'))
        ∙ ap₂ (λ a b. a || b) fy names in
      (
        append_first_round codec d d tail ticket attempt now x r nx fx,
        append_first_round codec d (after d x') tail ticket attempt now' y r ny free,
        s,
        p,
        verify-fork before x' y' p mx,
        verify-fork before y' x' (sym p) my,
      )
