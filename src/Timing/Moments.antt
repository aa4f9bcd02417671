-- ===== src/Timing/Moments.antt =====
-- What the two moments are, once the events of a response are over.
use airgate_openai.Base.{
  Bool-cases, if_true, if_false, Text, ℕ, ◌≤◌, ◌≡◌, refl, sym, ap, ◌∙◌, ◌≢◌, inl, inr, Bool, true,
  false, not, ◌&&◌, ◌||◌, Option, none, some, List, [], ◌∷◌, arith,
}
use airgate_openai.Base.Json.{Json}
use mathlib.Core.Path.{subst}
use airgate_openai.Timing.Clock.{
  Timing, Event, new_response_event_timing, since_ms, is_output, is_seen, note_event, note_token,
  observe, observe_all, Ordered,
}

-- A time if it is recorded, and what `other` says if it is not.
abbrev pub kept : Bool → ℕ → Option ℕ → Option ℕ
kept true ms other = some ms
kept false ms other = other

-- The time from the start to the first of the events that has the property, if one has it.
abbrev pub first_ms : (Event → Bool) → (Event → ℕ) → ℕ → List Event → Option ℕ
first_ms has at start [] = none
first_ms has at start (e ∷ es) = kept (has e) (since_ms start (at e)) (first_ms has at start es)

module _ (raw : Json → Text) where
  -- A response that has begun speaking has begun, and not after it spoke; what is recorded is past.
  pub record Consistent (now : ℕ) (t : Timing) : Type 0 where
    pub event_past : t.first_event_recorded ≡ true → t.first_event_ms ≤ since_ms t.start now
    pub token_after :
        t.first_token_recorded ≡ true
        → (t.first_event_recorded ≡ true) × (t.first_event_ms ≤ t.first_token_ms)

  noted : (e : Event) (t : Timing) → t.first_event_recorded ≡ true → note_event raw e t ≡ t
  unfolding note_event
  noted e t h = if_true _ _ h

  noting :
      (e : Event) (t : Timing)
      → t.first_event_recorded ≡ false
      → note_event raw e t
        ≡ record t { first_event_ms = since_ms t.start e.event_at; first_event_recorded = true }
  unfolding note_event
  noting e t h = if_false _ _ h

  token_noted :
      (e : Event) (t : Timing)
      → (not t.first_token_recorded && is_output raw e) ≡ true
      → note_token raw e t
        ≡ record t { first_token_ms = since_ms t.start e.token_at; first_token_recorded = true }
  unfolding note_token
  token_noted e t h = if_true _ _ h

  token_kept :
      (e : Event) (t : Timing)
      → (not t.first_token_recorded && is_output raw e) ≡ false
      → note_token raw e t ≡ t
  unfolding note_token
  token_kept e t h = if_false _ _ h

  observe_nothing :
      (e : Event) (t : Timing)
      → (not (is_seen raw e) || not t.has_start) ≡ true
      → observe raw e t ≡ t
  unfolding observe
  observe_nothing e t h = if_true _ _ h

  observe_both :
      (e : Event) (t : Timing)
      → (not (is_seen raw e) || not t.has_start) ≡ false
      → observe raw e t ≡ note_token raw e (note_event raw e t)
  unfolding observe
  observe_both e t h = if_false _ _ h

  contrary : false ≢ true
  contrary h = ground arith

  since_mono : (s a b : ℕ) → a ≤ b → since_ms s a ≤ since_ms s b
  since_mono s a b l = omega (arith, l)

  Consistent-later :
      (now later : ℕ) (t : Timing) → now ≤ later → Consistent now t → Consistent later t
  Consistent-later now later t l c = record {
    event_past = λ e.
        let x = c.event_past e in let y = since_mono t.start now later l in omega (arith, x, y);
    token_after = c.token_after;
  }

  note_event-Consistent :
      (now : ℕ) (e : Event) (t : Timing)
      → now ≤ e.event_at
      → Consistent now t
      → Consistent e.event_at (note_event raw e t)
        × ((note_event raw e t).first_event_recorded ≡ true)
  note_event-Consistent now e t l c = elim (Bool-cases t.first_event_recorded) [
    | inl b ↦
        let q = noted e t b in
        (
          subst (Consistent e.event_at) (sym q) (Consistent-later now e.event_at t l c),
          ap (λ (u : Timing). u.first_event_recorded) q ∙ b,
        )
    | inr b ↦
        let q = noting e t b in
        (
          subst (Consistent e.event_at) (sym q) (record {
            event_past = λ _. omega arith;
            token_after = λ f. absurd (contrary (sym b ∙ (c.token_after f).0));
          }),
          ap (λ (u : Timing). u.first_event_recorded) q,
        )
  ]

  note_token-Consistent :
      (now : ℕ) (e : Event) (t : Timing)
      → now ≤ e.token_at
      → t.first_event_recorded ≡ true
      → Consistent now t
      → Consistent e.token_at (note_token raw e t)
  note_token-Consistent now e t l r c =
      elim (Bool-cases (not t.first_token_recorded && is_output raw e)) [
        | inr b ↦
            subst (Consistent e.token_at) (sym (token_kept e t b))
              (Consistent-later now e.token_at t l c)
        | inl b ↦
            let x = c.event_past r in
            let y = since_mono t.start now e.token_at l in
            subst (Consistent e.token_at) (sym (token_noted e t b)) (record {
              event_past = λ _. omega (arith, x, y);
              token_after = λ _. (r, omega (arith, x, y));
            })
      ]

  observe-Consistent :
      (now : ℕ) (e : Event) (t : Timing)
      → now ≤ e.event_at
      → e.event_at ≤ e.token_at
      → Consistent now t
      → Consistent e.token_at (observe raw e t)
  observe-Consistent now e t l m c = elim (Bool-cases (not (is_seen raw e) || not t.has_start)) [
    | inl b ↦
        subst (Consistent e.token_at) (sym (observe_nothing e t b))
          (Consistent-later now e.token_at t (omega (arith, l, m)) c)
    | inr b ↦
        let (d, r) = note_event-Consistent now e t l c in
        subst (Consistent e.token_at) (sym (observe_both e t b))
          (note_token-Consistent e.event_at e (note_event raw e t) m r d)
  ]

  -- The last moment of the events, or `now`.
  abbrev pub end_of : ℕ → List Event → ℕ
  end_of now [] = now
  end_of now (e ∷ es) = end_of e.token_at es

  observe_all-Consistent :
      (now : ℕ) (es : List Event) (t : Timing)
      → Ordered raw now es
      → Consistent now t
      → Consistent (end_of now es) (observe_all raw es t)
  unfolding observe_all
  observe_all-Consistent now [] t o c = c
  observe_all-Consistent now (e ∷ es) t o c =
      observe_all-Consistent e.token_at es (observe raw e t) o.2
        (observe-Consistent now e t o.0 o.1 c)

  observe_first :
      (e : Event) (t : Timing) (o : Option ℕ)
      → t.has_start ≡ true
      → ((observe raw e t).has_start ≡ true)
        × ((observe raw e t).start ≡ t.start)
        × (kept (observe raw e t).first_event_recorded (observe raw e t).first_event_ms o
            ≡ kept t.first_event_recorded t.first_event_ms
                (kept (is_seen raw e) (since_ms t.start e.event_at) o))
        × (kept (observe raw e t).first_token_recorded (observe raw e t).first_token_ms o
            ≡ kept t.first_token_recorded t.first_token_ms
                (kept (is_seen raw e && is_output raw e) (since_ms t.start e.token_at) o))
  unfolding observe note_event note_token
  observe_first e t o h = ground arith

  observe_all_first :
      (es : List Event) (t : Timing)
      → t.has_start ≡ true
      → (kept (observe_all raw es t).first_event_recorded (observe_all raw es t).first_event_ms none
          ≡ kept t.first_event_recorded t.first_event_ms
              (first_ms (is_seen raw) (λ e. e.event_at) t.start es))
        × (kept
              (observe_all raw es t).first_token_recorded
              (observe_all raw es t).first_token_ms
              none
            ≡ kept t.first_token_recorded t.first_token_ms
                (first_ms (λ e. is_seen raw e && is_output raw e) (λ e. e.token_at) t.start es))
  unfolding observe_all
  observe_all_first [] t h = (refl, refl)
  observe_all_first (e ∷ es) t h =
      let u = observe raw e t in
      let seen = first_ms (is_seen raw) (λ e. e.event_at) t.start es in
      let spoke = first_ms (λ e. is_seen raw e && is_output raw e) (λ e. e.token_at) t.start es in
      let (a, b, c, _) = observe_first e t seen h in
      let d = (observe_first e t spoke h).3 in
      let (f, g) = observe_all_first es u a in
      (
        f
            ∙ ap
                (λ s.
                  kept u.first_event_recorded u.first_event_ms
                    (first_ms (is_seen raw) (λ e. e.event_at) s es))
                b
            ∙ c,
        g
            ∙ ap
                (λ s.
                  kept u.first_token_recorded u.first_token_ms
                    (first_ms (λ e. is_seen raw e && is_output raw e) (λ e. e.token_at) s es))
                b
            ∙ d,
      )

  -- Of the events of a response, in the order of their moments: the first event's time is that of the
  -- first event that is seen, and the first token's that of the first one seen that holds output, each
  -- recorded exactly where there is one; and the first token's time is never below the first event's.
  pub observe_all_lem :
      (start : ℕ) (es : List Event)
      → Ordered raw start es
      → let t = observe_all raw es (new_response_event_timing start) in
        (kept t.first_event_recorded t.first_event_ms none
          ≡ first_ms (is_seen raw) (λ e. e.event_at) start es)
        × (kept t.first_token_recorded t.first_token_ms none
            ≡ first_ms (λ e. is_seen raw e && is_output raw e) (λ e. e.token_at) start es)
        × (t.first_token_recorded ≡ true → t.first_event_ms ≤ t.first_token_ms)
  observe_all_lem start es o =
      let t = new_response_event_timing start in
      let (a, b) = observe_all_first es t refl in
      let c = observe_all-Consistent start es t o (record {
        event_past = λ h. absurd (contrary h);
        token_after = λ h. absurd (contrary h);
      }) in
      (a, b, λ h. (c.token_after h).1)
