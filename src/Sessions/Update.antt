-- ===== src/Sessions/Update.antt =====
-- session_state.go: what `Update`, `Store` and `Load` of the memory store keep to.
use airgate_openai.Base.{
  if_true, if_false, ◌==◌, Bool-cases, Option-cases, Text, Text-discrete, GoMap, get-delete,
  get-put_self, get-delete_self, get-delete_ne, ℕ, zero, suc, ◌-◌, ◌≤◌, ◌<◌, ◌≡◌, sym, ap, ◌∙◌, ◌⊎◌,
  inl, inr, Option, none, some, arith, dec_le,
}
use mathlib.Core.Path.{subst}
use airgate_openai.Sessions.State.{SessionState, fresh_state, last_activity}
use airgate_openai.Sessions.Store.{
  MemoryStore, truncate, is_expired, get_state, delete_state, cleanup_loop, cleanup_expired,
  current_state, update_time, updated, update, cache_cleanup_budget,
}

last_updated_at-le : (s : SessionState) → s.last_updated_at ≤ last_activity s
unfolding last_activity
last_updated_at-le s = ground arith

current_state-before :
    (ttl clock : ℕ) (key : Text) (s : SessionState)
    → (s.last_updated_at
        < update_time (truncate clock) (current_state ttl (truncate clock) key (some s)))
unfolding current_state is_expired
current_state-before ttl clock key s = ground (arith, last_updated_at-le s)

later_than :
    (now ttl : ℕ) (s : SessionState) → ttl < now - last_activity s → s.last_updated_at < now
later_than now ttl s l = ground (arith, last_updated_at-le s)

fresh-before : (now : ℕ) (key : Text) (n : ℕ) → n < now → n < update_time now (fresh_state key)
fresh-before now key n l = ground arith

get-delete_none :
    (key k : Text) (items : GoMap Text SessionState)
    → get_state key items ≡ none
    → get_state key (delete_state k items) ≡ none
get-delete_none key k items e = get-delete Text-discrete key k items ∙ ground arith

of_option : Option SessionState → ℕ
of_option none = 0
of_option (some s) = last_activity s

module _ (oldest : GoMap Text SessionState → Option Text) where
  -- What the cleanup makes of an entry: it stays, or its state was last active more than the time to
  -- live ago.
  Cleaned : ℕ → ℕ → Text → SessionState → GoMap Text SessionState → Type 0
  Cleaned ttl now key s items =
      (get_state key items ≡ some s)
      ⊎ ((get_state key items ≡ none) × (ttl < now - last_activity s))

  delete-Cleaned :
      (ttl now : ℕ) (k key : Text) (s t : SessionState) (items : GoMap Text SessionState)
      → get_state key items ≡ some s
      → get_state k items ≡ some t
      → ttl < now - last_activity t
      → Cleaned ttl now key s (delete_state k items)
  unfolding Cleaned of_option
  delete-Cleaned ttl now k key s t items e f l = elim (Text-discrete k key) [
    | no n ↦ inl (get-delete_ne Text-discrete key k items n ∙ e)
    | yes p ↦ inr (
      ap (λ x. get_state x (delete_state k items)) (sym p) ∙ get-delete_self Text-discrete k items,
      subst (λ o. ttl < now - of_option o) (sym f ∙ ap (λ x. get_state x items) p ∙ e) l,
    )
  ]

  -- One round: nothing is done, or an entry that is too old goes.
  cleanup_round :
      (budget ttl now : ℕ) (items : GoMap Text SessionState)
      → (cleanup_loop oldest (suc budget) ttl now items ≡ items)
        ⊎ ((k : Text) × (t : SessionState) × (get_state k items ≡ some t)
            × (ttl < now - last_activity t)
            × (cleanup_loop oldest (suc budget) ttl now items
                ≡ cleanup_loop oldest budget ttl now (delete_state k items)))
  unfolding cleanup_loop
  cleanup_round budget ttl now items = elim (Option-cases (oldest items)) [
    | inl e ↦ inl (ground arith)
    | inr (k, e) ↦ elim (Option-cases (get_state k items)) [
      | inl f ↦ inl (ground arith)
      | inr (t, f) ↦ elim (dec_le (now - last_activity t) ttl) [
        | yes l ↦ inl (ground arith)
        | no n ↦ inr (k, t, f, omega arith, ground arith)
      ]
    ]
  ]

  none-Cleaned :
      (budget ttl now : ℕ) (key : Text) (items : GoMap Text SessionState)
      → get_state key items ≡ none
      → get_state key (cleanup_loop oldest budget ttl now items) ≡ none
  unfolding cleanup_loop
  none-Cleaned zero ttl now key items e = e
  none-Cleaned (suc budget) ttl now key items e = elim (cleanup_round budget ttl now items) [
    | inl p ↦ ap (get_state key) p ∙ e
    | inr (k, t, f, l, p) ↦
        ap (get_state key) p
        ∙ none-Cleaned budget ttl now key (delete_state k items) (get-delete_none key k items e)
  ]

  cleanup_loop-Cleaned :
      (budget ttl now : ℕ) (key : Text) (s : SessionState) (items : GoMap Text SessionState)
      → get_state key items ≡ some s
      → Cleaned ttl now key s (cleanup_loop oldest budget ttl now items)
  unfolding cleanup_loop Cleaned
  cleanup_loop-Cleaned zero ttl now key s items e = inl e
  cleanup_loop-Cleaned (suc budget) ttl now key s items e =
      elim (cleanup_round budget ttl now items) [
        | inl p ↦ inl (ap (get_state key) p ∙ e)
        | inr (k, t, f, l, p) ↦ elim (delete-Cleaned ttl now k key s t items e f l) [
          | inl q ↦ elim (cleanup_loop-Cleaned budget ttl now key s (delete_state k items) q) [
            | inl u ↦ inl (ap (get_state key) p ∙ u)
            | inr (u, v) ↦ inr (ap (get_state key) p ∙ u, v)
          ]
          | inr (q, v) ↦
              inr
                (ap (get_state key) p ∙ none-Cleaned budget ttl now key (delete_state k items) q, v)
        ]
      ]

  cleanup_expired-Cleaned :
      (ttl now : ℕ) (key : Text) (s : SessionState) (items : GoMap Text SessionState)
      → get_state key items ≡ some s
      → Cleaned ttl now key s (cleanup_expired oldest ttl now items)
  unfolding cleanup_expired Cleaned
  cleanup_expired-Cleaned ttl now key s items e = elim (Bool-cases (ttl == 0)) [
    | inl t ↦ inl (ap (get_state key) (if_true _ _ t) ∙ e)
    | inr t ↦
        subst (Cleaned ttl now key s) (sym (if_false _ _ t))
          (cleanup_loop-Cleaned cache_cleanup_budget ttl now key s items e)
  ]

  -- Every update of a session that is stored has a later time than the update before, whatever the
  -- clock says, which entries the cleanup takes and what the update does.
  pub update-later :
      (key : Text) (f : SessionState → SessionState) (clock : ℕ) (m : MemoryStore)
      (s : SessionState)
      → get_state key m.items ≡ some s
      → (s.last_updated_at < (update oldest key f clock m).1.last_updated_at)
        × (get_state key (update oldest key f clock m).0.items
            ≡ some (update oldest key f clock m).1)
  unfolding update updated Cleaned
  update-later key f clock m s e = (
    elim (cleanup_expired-Cleaned m.ttl (truncate clock) key s m.items e) [
      | inl q ↦ rw q (current_state-before m.ttl clock key s)
      | inr (q, l) ↦ rw q (
          fresh-before (truncate clock) key s.last_updated_at
            (later_than (truncate clock) m.ttl s l))
    ],
    get-put_self Text-discrete key _ _,
  )
