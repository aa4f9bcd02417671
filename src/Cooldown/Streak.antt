-- ===== src/Cooldown/Streak.antt =====
-- oauth_model_cooldown.go: what a whole run of calls leaves in the tracker.
use airgate_openai.Base.{
  if◌then◌else◌, lt→ltb, Bool-cases, get, put, get-put, get-delete, ℕ, ◌+◌, ◌≤◌, min, ◌≡◌, refl,
  sym, ap, ◌∙◌, inl, inr, ite, true, Option, none, some, List, [], ◌∷◌, arith, dec_lt,
}
use airgate_openai.Errors.Classify.{success, client_error}
use airgate_openai.Cooldown.Tracker.{
  Key, Key-discrete, Tracker, Account, Request, Outcome, tracker_key, is_tracked,
  is_entitlement_unavailable, cooled, failures_of, schedule_at, next, reset, apply_keyed,
  apply_guarded, apply,
}

-- One call of `apply`: the request and the outcome it is given.
abbrev pub Call : Type 0
Call = Option Request × Outcome

-- The tracker after the calls, the newest first.
unfoldable pub after : List Call → Tracker
after [] = []
after (c ∷ older) = (apply c.0 c.1 (after older)).0

pub data Verdict : Type 0 where
  ignored succeeded rejected : Verdict

-- What the outcome of a tracked request says.
abbrev pub verdict_of_outcome : Outcome → Verdict
verdict_of_outcome o = elim o.kind [
  | success ↦ succeeded
  | client_error ↦ if is_entitlement_unavailable o then rejected else ignored
  | _ ↦ ignored
]

abbrev pub verdict_of_key : Key → Key → Verdict → Verdict
verdict_of_key key k v = ite (Key-discrete k key) v ignored

abbrev pub verdict_guarded : Key → Outcome → Option (Key × Account) → Verdict
verdict_guarded key o none = ignored
verdict_guarded key o (some (k, a)) =
    verdict_of_key key k (if is_tracked a.credentials then verdict_of_outcome o else ignored)

-- What a call says of the key, read off the request and the outcome alone.
unfoldable pub verdict : Key → Call → Verdict
verdict key (request, o) = verdict_guarded key o (tracker_key request)

-- What a verdict makes of the number of rejections, and of the number that the tracker keeps.
abbrev pub counted : Verdict → ℕ → ℕ
counted ignored n = n
counted succeeded n = 0
counted rejected n = n + 1

abbrev pub kept : Verdict → ℕ → ℕ
kept ignored n = n
kept succeeded n = 0
kept rejected n = min (n + 1) 5

-- How many rejections of the key there were since it last succeeded.
unfoldable pub streak : Key → List Call → ℕ
streak key [] = 0
streak key (c ∷ older) = counted (verdict key c) (streak key older)

failures_of-put :
    (key k : Key) (n : ℕ) (t : Tracker)
    → failures_of key (put Key-discrete k n t) ≡ ite (Key-discrete k key) n (failures_of key t)
unfolding failures_of
failures_of-put key k n t = ground (arith, get-put Key-discrete key k n t)

failures_of-reset :
    (key k : Key) (t : Tracker)
    → failures_of key (reset k t) ≡ ite (Key-discrete k key) 0 (failures_of key t)
unfolding failures_of reset
failures_of-reset key k t = ground (arith, get-delete Key-discrete key k t)

next_capped : (k : Key) (t : Tracker) → 5 ≤ failures_of k t → (next k t).0 ≡ t
unfolding next
next_capped k t h = ground arith

ite_capped :
    (key k : Key) (t : Tracker)
    → failures_of k t ≡ 5
    → failures_of key t ≡ ite (Key-discrete k key) (min (failures_of k t + 1) 5) (failures_of key t)
ite_capped key k t h =
    elim (Key-discrete k key)
      as (λ d. failures_of key t ≡ ite d (min (failures_of k t + 1) 5) (failures_of key t)) [
        | yes e ↦ ap (λ x. failures_of x t) (sym e) ∙ omega arith
        | no n ↦ refl
      ]

failures_of-next :
    (key k : Key) (t : Tracker)
    → failures_of k t ≤ 5
    → failures_of key (next k t).0
      ≡ ite (Key-discrete k key) (min (failures_of k t + 1) 5) (failures_of key t)
unfolding next
failures_of-next key k t h = elim (dec_lt (failures_of k t) 5) [
  | yes l ↦ rw (lt→ltb _ 5 l) (
      failures_of-put key k _ t
      ∙ ap (λ n. ite (Key-discrete k key) n (failures_of key t)) (omega arith))
  | no n ↦ ap (failures_of key) (next_capped k t (omega arith)) ∙ ite_capped key k t (omega arith)
]

kept_same :
    (key k : Key) (v : Verdict) (t : Tracker)
    → ite (Key-discrete k key) (kept v (failures_of k t)) (failures_of key t)
      ≡ kept (verdict_of_key key k v) (failures_of key t)
kept_same key k v t =
    elim (Key-discrete k key)
      as (λ d.
        ite d (kept v (failures_of k t)) (failures_of key t)
        ≡ kept (ite d v ignored) (failures_of key t)) [
          | yes e ↦ ap (λ x. kept v (failures_of x t)) e
          | no n ↦ refl
        ]

step_keyed :
    (key k : Key) (o : Outcome) (t : Tracker)
    → failures_of k t ≤ 5
    → failures_of key (apply_keyed k o t).0
      ≡ kept (verdict_of_key key k (verdict_of_outcome o)) (failures_of key t)
unfolding apply_keyed
step_keyed key k o t h = ground (
  arith,
  failures_of-next key k t h,
  failures_of-reset key k t,
  kept_same key k succeeded t,
  kept_same key k rejected t,
)

kept_ignored : (key k : Key) (n : ℕ) → n ≡ kept (verdict_of_key key k ignored) n
kept_ignored key k n = ground arith

-- `apply` and `verdict` take the same way through the guards.
guarded_lem :
    (key : Key) (o : Outcome) (t : Tracker)
    → ((k : Key) → failures_of k t ≤ 5)
    → (k : Option (Key × Account))
    → failures_of key (apply_guarded o t k).0 ≡ kept (verdict_guarded key o k) (failures_of key t)
guarded_lem key o t h none = refl
guarded_lem key o t h (some (k, a)) = elim (Bool-cases (is_tracked a.credentials)) [
  | inl e ↦ rw e (step_keyed key k o t (h k))
  | inr e ↦ rw e (kept_ignored key k (failures_of key t))
]

-- A whole call on the tracker, as its verdict says.
step_lem :
    (key : Key) (c : Call) (t : Tracker)
    → ((k : Key) → failures_of k t ≤ 5)
    → failures_of key (apply c.0 c.1 t).0 ≡ kept (verdict key c) (failures_of key t)
unfolding apply verdict
step_lem key (request, o) t h = guarded_lem key o t h (tracker_key request)

at_most_5 : {m : ℕ} (n : ℕ) → m ≡ min n 5 → m ≤ 5
at_most_5 n e = omega arith

kept-counted : (v : Verdict) (n : ℕ) → kept v (min n 5) ≡ min (counted v n) 5
kept-counted v n = ground arith

-- After any run of calls, of any accounts and models in any order, the tracker keeps for every key
-- the number of rejections since the key last succeeded, and 5 where there were more.
pub after_lem :
    (key : Key) (calls : List Call) → failures_of key (after calls) ≡ min (streak key calls) 5
unfolding after streak failures_of get
after_lem key [] = refl
after_lem key (c ∷ older) =
    step_lem key c (after older) (λ k. at_most_5 _ (after_lem k older))
    ∙ ap (kept (verdict key c)) (after_lem key older)
    ∙ kept-counted (verdict key c) (streak key older)

next_delay : (k : Key) (t : Tracker) → (next k t).1 ≡ schedule_at (min (failures_of k t) 4)
unfolding next
next_delay k t = ap schedule_at (ground arith)

apply-rejected :
    (request : Option Request) (o : Outcome) (t : Tracker) (key : Key) (account : Account)
    → tracker_key request ≡ some (key, account)
    → verdict key (request, o) ≡ rejected
    → apply request o t ≡ ((next key t).0, cooled o (next key t).1, true)
unfolding apply verdict apply_keyed
apply-rejected request o t key account e v = ground arith

-- A rejected call of a run cools the account for the model: as an account's rate limit without a scope
-- of failover, for the time that the schedule has at the number of rejections since the key last
-- succeeded, its last time where there were more than four.
pub apply_after_lem :
    (request : Option Request) (o : Outcome) (older : List Call) (key : Key) (account : Account)
    → tracker_key request ≡ some (key, account)
    → verdict key (request, o) ≡ rejected
    → ((apply request o (after older)).1 ≡ cooled o (schedule_at (min (streak key older) 4)))
      × ((apply request o (after older)).2 ≡ true)
apply_after_lem request o older key account e v =
    let r = apply-rejected request o (after older) key account e v in
    let n = after_lem key older in
    (
      ap (λ p. p.1) r ∙ ap (cooled o) (next_delay key (after older) ∙ ap schedule_at (omega arith)),
      ap (λ p. p.2) r,
    )
