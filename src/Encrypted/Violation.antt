-- ===== src/Encrypted/Violation.antt =====
-- runtime_encrypted_content_cache.go: what a rejection of a request records.
use airgate_openai.Base.{
  arith, ◌||◌, is_text, is_one_of, if◌then◌else◌, not, ◌&&◌, Bool-cases, All, List-cases, Text, ℕ,
  ◌≡◌, refl, sym, ap, ◌∙◌, ◌⊎◌, inl, inr, Bool, true, false, some, List, [], ◌∷◌, map,
}
use airgate_openai.Safety.Cache.{SafetyRequestCache}
use airgate_openai.Safety.Store.{add_hashes_with_limits}
use airgate_openai.Safety.Segment.{Item}
use airgate_openai.Safety.Laws.{Holds, effective_limit, added, add_hashes_lem}
use mathlib.Core.Path.{subst}
use airgate_openai.Errors.Codes.{
  cybersecurity_risk_error_code, prompt_usage_policy_error_code,
  normalize_explicit_upstream_error_code,
}
use airgate_openai.Encrypted.Laws.{inspected, recorded, inspect_all_lem}
use airgate_openai.Encrypted.Session.{
  Session, new_session, forwarded, is_cached_rejection, cache_violation, inspect_all,
  encrypted_content_cache_ttl, encrypted_content_cache_max_entries,
}

abbrev pub is_null : List ℕ → Bool
is_null [] = true
is_null (h ∷ hs) = false

map_twice :
    (f : Text → ℕ) (p : ℕ → Bool) (raws : List Text)
    → map p (map f raws) ≡ map (λ raw. p (f raw)) raws
map_twice f p [] = refl
map_twice f p (raw ∷ raws) = ap (◌∷◌ (p (f raw))) (map_twice f p raws)

-- The hashes that do not have the property, in their order.
abbrev pub without : (ℕ → Bool) → List ℕ → List ℕ
without p [] = []
without p (h ∷ hs) = if p h then without p hs else h ∷ without p hs

forwarded-map : (p : ℕ → Bool) (hs : List ℕ) → forwarded hs (map p hs) ≡ without p hs
unfolding forwarded
forwarded-map p [] = refl
forwarded-map p (h ∷ hs) =
    let q = forwarded-map p hs in
    elim (Bool-cases (p h)) [
      | inl t ↦ rw (t, forwarded) q
      | inr t ↦ rw (t, forwarded) (ap (◌∷◌ h) q)
    ]

-- Only hashes of ciphertexts that were left in the request are recorded: none of them has the
-- property that takes a ciphertext out.
pub without-All : (p : ℕ → Bool) (hs : List ℕ) → All (λ h. p h ≡ false) (without p hs)
without-All p [] = tt
without-All p (h ∷ hs) = elim (Bool-cases (p h)) [
  | inl t ↦ rw t (without-All p hs)
  | inr t ↦ rw t (t, without-All p hs)
]

violation_recorded :
    (ttl limit : ℕ) (c : SafetyRequestCache) (l : List Item) (s : Session) (code : Text) (now h : ℕ)
    (hs : List ℕ)
    → Holds ttl limit (effective_limit limit encrypted_content_cache_max_entries) c l
    → forwarded s.candidates s.matches ≡ h ∷ hs
    → is_cached_rejection code ≡ true
    → (c' : SafetyRequestCache) × (cache_violation (some c) s code now ≡ some (some c', true))
      × Holds ttl limit (effective_limit limit encrypted_content_cache_max_entries) c' (
          added ttl
            (effective_limit limit encrypted_content_cache_max_entries)
            []
            []
            (h ∷ hs)
            now
            encrypted_content_cache_ttl
            l)
unfolding add_hashes_with_limits cache_violation
violation_recorded ttl limit c l s code now h hs k e p =
    let (c1, e1, k1) =
      add_hashes_lem ttl limit c l h hs now [] [] encrypted_content_cache_ttl
        encrypted_content_cache_max_entries k in
    (c1, rw (e, cache_violation, p, e1), k1)

violation_none :
    (c : SafetyRequestCache) (s : Session) (code : Text) (now : ℕ)
    → (is_cached_rejection code ≡ false) ⊎ (forwarded s.candidates s.matches ≡ [])
    → cache_violation (some c) s code now ≡ some (some c, false)
unfolding cache_violation
violation_none c s code now (inr e) = rw (e, cache_violation)
violation_none c s code now (inl p) = elim (List-cases (forwarded s.candidates s.matches)) [
  | inl e ↦ rw (e, cache_violation)
  | inr (h, hs, e) ↦ rw (e, cache_violation, p)
]

-- What a rejection leaves of the items: those of the hashes are added if it is one to record.
abbrev pub after_violation : ℕ → ℕ → Bool → List ℕ → ℕ → List Item → List Item
after_violation ttl limit recording hs now l =
    if recording && not (is_null hs)
    then added ttl (effective_limit limit encrypted_content_cache_max_entries) [] [] hs now
        encrypted_content_cache_ttl l
    else l

-- What a rejection does, by whether it is one to record.
abbrev Violated :
    ℕ → ℕ → SafetyRequestCache → List Item → Session → Text → ℕ → List ℕ → Bool → Type 0
Violated ttl limit c l s code now hs recording =
    (c' : SafetyRequestCache) × (cache_violation (some c) s code now
      ≡ some (some c', recording && not (is_null hs)))
    × Holds ttl limit (effective_limit limit encrypted_content_cache_max_entries) c'
        (after_violation ttl limit recording hs now l)

violation_of :
    (ttl limit : ℕ) (c : SafetyRequestCache) (l : List Item) (s : Session) (code : Text) (now : ℕ)
    (hs : List ℕ)
    → Holds ttl limit (effective_limit limit encrypted_content_cache_max_entries) c l
    → forwarded s.candidates s.matches ≡ hs
    → Violated ttl limit c l s code now hs (is_cached_rejection code)
violation_of ttl limit c l s code now [] k e = elim (Bool-cases (is_cached_rejection code)) [
  | inl p ↦ (c, violation_none c s code now (inr e) ∙ rw p refl, rw p k)
  | inr p ↦ (c, violation_none c s code now (inr e) ∙ rw p refl, rw p k)
]
violation_of ttl limit c l s code now (h ∷ hs) k e = elim (Bool-cases (is_cached_rejection code)) [
  | inl p ↦
      let (c', r, k') = violation_recorded ttl limit c l s code now h hs k e p in
      (c', r ∙ rw p refl, rw p k')
  | inr p ↦ (c, violation_none c s code now (inl p) ∙ rw p refl, rw p k)
]

-- The codes, in their normal form, that are recorded.
abbrev pub is_recorded : Text → Bool
is_recorded code =
    let normal = normalize_explicit_upstream_error_code code in
    is_text normal prompt_usage_policy_error_code || is_text normal cybersecurity_risk_error_code

is_cached_rejection_lem : (code : Text) → is_cached_rejection code ≡ is_recorded code
unfolding is_cached_rejection is_one_of
is_cached_rejection_lem code = ground arith

-- The ciphertexts of a request are inspected in a new session, which takes of the cache the items alone
-- that have expired, and the request is rejected later. A prompt or cybersecurity rejection adds to the
-- cache the hashes of exactly those ciphertexts that it did not hold, unexpired, when the session
-- began, in their order and if there are any; any other rejection adds nothing. The result tells
-- whether hashes were added.
pub cache_violation_lem :
    (hash : ℕ → Text → ℕ) (ttl limit : ℕ) (c : SafetyRequestCache) (l : List Item)
    (checked_at scope : ℕ) (raws : List Text) (code : Text) (now : ℕ)
    → Holds ttl limit (effective_limit limit encrypted_content_cache_max_entries) c l
    → let fresh = without (recorded l checked_at) (map (hash scope) raws) in
      let l1 = inspected raws checked_at l in
      (c1 : SafetyRequestCache) × (s : Session) × (c2 : SafetyRequestCache) × (inspect_all hash
          (some c)
          (new_session checked_at scope)
          raws
        ≡ some (some c1, s))
      × Holds ttl limit (effective_limit limit encrypted_content_cache_max_entries) c1 l1
      × (cache_violation (some c1) s code now
          ≡ some (some c2, is_recorded code && not (is_null fresh)))
      × Holds ttl limit
          (effective_limit limit encrypted_content_cache_max_entries)
          c2
          (after_violation ttl limit (is_recorded code) fresh now l1)
unfolding new_session
cache_violation_lem hash ttl limit c l checked_at scope raws code now k =
    let room = effective_limit limit encrypted_content_cache_max_entries in
    let seen = recorded l checked_at in
    let l1 = inspected raws checked_at l in
    let hs = map (hash scope) raws in
    let (c1, e1, k1) =
      inspect_all_lem hash ttl limit room raws c l (new_session checked_at scope) k in
    let s = record (new_session checked_at scope) {
      candidates = hs;
      matches = map (λ raw. seen (hash scope raw)) raws;
    } in
    let (c2, e2, k2) =
      subst (Violated ttl limit c1 l1 s code now (without seen hs)) (is_cached_rejection_lem code) (
        violation_of ttl limit c1 l1 s code now (without seen hs) k1
          (ap (forwarded hs) (sym (map_twice (hash scope) seen raws)) ∙ forwarded-map seen hs)) in
    (c1, s, c2, e1, k1, e2, k2)
