-- ===== src/Basispoints/Sessions/Answers.antt =====
-- `PrepareWithCatalog` of backend/internal/basispoints/catalog_cache.go: the answer to a request.
use airgate_openai.Base.{
  if◌then◌else◌, Bool-cases, Sum-cases, if_true, if_false, take, Text, codes, is_empty, is_text,
  GoMap, ℕ, ◌≡◌, refl, sym, ap, ◌∙◌, ◌≢◌, ◌⊎◌, inl, inr, Bool, true, false, ◌||◌, Option, some,
  List, [], ◌∷◌, arith,
}
use airgate_openai.Base.Json.{Json, obj, Fields, field_at, string_of, is_present}
use airgate_openai.Basispoints.Catalog.{CatalogCache, snapshot, commit}
use airgate_openai.Basispoints.Catalogs.{CatalogSound, commit-Sound}
use airgate_openai.Basispoints.Catalogs.Versions.{Holds, snapshot-Sound, commit-snapshot}
use airgate_openai.Basispoints.Session.{
  Tool, PrepareError, changed_concurrently, Prepared, failed, prepared, run_calls, Attempt,
  max_attempts, work, attempts, prepare_with_catalog,
}
use airgate_openai.Basispoints.Sessions.{
  Scheduled, Quiet, AnyQuiet, run_calls-Sound, no_calls, the_or, flag,
}

module _ {B : Type 0} (prepare : Text → Text ⊎ B) (tools_of : B → GoMap Text Tool)
    (decode : Text → Option Json) (marshal : Json → Text) (scope : Text) (source : Fields)
    (explicit : Bool) where
  abbrev tries : List Attempt → CatalogCache → Option (CatalogCache × Prepared B)
  tries = attempts prepare tools_of decode marshal scope source explicit

  abbrev done : Option Text → PrepareError ⊎ (B × Text)
  done = work prepare tools_of decode marshal source explicit

  attempt_failed :
      (a : Attempt) (later : List Attempt) (c d r : CatalogCache) (p : Option Text) (v : ℕ)
      (e : PrepareError)
      → run_calls a.earlier c ≡ some d
      → snapshot a.snapshot_at scope d ≡ some (r, p, v)
      → done p ≡ inl e
      → tries (a ∷ later) c ≡ some (r, failed e)
  unfolding attempts
  attempt_failed a later c d r p v e x y z = ground arith

  attempt_committed :
      (a : Attempt) (later : List Attempt) (c d r s q : CatalogCache) (p : Option Text) (v : ℕ)
      (b : B) (saved : Text) (ok : Bool)
      → run_calls a.earlier c ≡ some d
      → snapshot a.snapshot_at scope d ≡ some (r, p, v)
      → done p ≡ inr (b, saved)
      → run_calls a.between r ≡ some s
      → commit a.commit_at scope v saved s ≡ some (q, ok)
      → tries (a ∷ later) c ≡ (if ok || explicit then some (q, prepared b) else tries later q)
  unfolding attempts
  attempt_committed a later c d r s q p v b saved ok x y z i j = ground arith

  work_errors : (p : Option Text) → done p ≢ inl changed_concurrently
  unfolding work
  work_errors p h = ground arith

  -- What a request meets: an answer, in a sound cache, and when it is not told to try again.
  pub record Answered (schedule : List Attempt) (q : CatalogCache × Prepared B) : Type 0 where
    pub sound : (u : ℕ) × CatalogSound u q.0.elements
    pub quiet : AnyQuiet schedule → q.1 ≢ failed changed_concurrently
    pub replaces : explicit ≡ true → schedule ≢ [] → q.1 ≢ failed changed_concurrently

  no_attempts : (c : CatalogCache) → tries [] c ≡ some (c, failed changed_concurrently)
  unfolding attempts
  no_attempts c = refl

  error_kept :
      (e : PrepareError)
      → e ≢ changed_concurrently
      → Path (Prepared B) (failed e) (failed changed_concurrently)
      → ⊥
  error_kept e n h = ground arith

  prepared_stays : (b : B) → Path (Prepared B) (prepared b) (failed changed_concurrently) → ⊥
  prepared_stays b h = ground arith

  not_both : (x y : Bool) → (x || y) ≡ false → x ≢ true
  not_both x y h = λ g. ground arith

  not_right : (x y : Bool) → (x || y) ≡ false → y ≢ true
  not_right x y h = λ g. ground arith

  commit-Quiet :
      (a : Attempt) (v : ℕ) (saved : Text) (r s q : CatalogCache) (ok : Bool)
      → Quiet a
      → CatalogSound a.snapshot_at r.elements
      → Holds a.snapshot_at scope v r.elements
      → run_calls a.between r ≡ some s
      → commit a.commit_at scope v saved s ≡ some (q, ok)
      → ok ≡ true
  commit-Quiet a v saved r s q ok (e, l, m) k h x y =
      let none_between = ap (λ ks. run_calls ks r) e ∙ no_calls r in
      let same : s ≡ r = ap (the_or r) (sym x ∙ none_between) in
      let (r', g, _) = commit-snapshot a.snapshot_at a.commit_at v scope saved r l m k h in
      ap flag (sym y ∙ ap (commit a.commit_at scope v saved) same ∙ g)

  -- A request is answered.
  pub attempts-Answered :
      (t : ℕ) (schedule : List Attempt) (c : CatalogCache)
      → Scheduled t schedule
      → CatalogSound t c.elements
      → (q : CatalogCache × Prepared B) × (tries schedule c ≡ some q) × Answered schedule q
  attempts-Answered t [] c l k = (
    (c, failed changed_concurrently),
    no_attempts c,
    record { sound = (t, k); quiet = λ h. absurd h; replaces = λ e n. absurd (n refl) },
  )
  attempts-Answered t (a ∷ later) c (l, m, n) k =
      let (d, x, kd) = run_calls-Sound t a.snapshot_at a.earlier c l k in
      let (r, p, v, y, kr, h, w) =
        snapshot-Sound a.snapshot_at a.snapshot_at scope d (omega arith) kd in
      elim (Sum-cases (done p)) [
        | inl (e, z) ↦
            let n = error_kept e (λ f. work_errors p (z ∙ ap inl f)) in
            (
              (r, failed e),
              attempt_failed a later c d r p v e x y z,
              record { sound = (a.snapshot_at, kr); quiet = λ _. n; replaces = λ _ _. n },
            )
        | inr ((b, saved), z) ↦
            let (s, i, ks) = run_calls-Sound a.snapshot_at a.commit_at a.between r m kr in
            let (u, _, (q, ok, j, kq, _)) =
              commit-Sound a.commit_at a.commit_at scope v saved s (omega arith) ks in
            let step = attempt_committed a later c d r s q p v b saved ok x y z i j in
            elim (Bool-cases (ok || explicit)) [
              | inl f ↦ (
                (q, prepared b),
                step ∙ if_true _ _ f,
                record {
                  sound = (a.commit_at, kq);
                  quiet = λ _. prepared_stays b;
                  replaces = λ _ _. prepared_stays b;
                },
              )
              | inr f ↦
                  let (g, o, ans) = attempts-Answered a.commit_at later q n kq in
                  (
                    g,
                    step ∙ if_false _ _ f ∙ o,
                    record {
                      sound = ans.sound;
                      quiet = λ (h' : AnyQuiet (a ∷ later)). elim h' [
                        | inl h1 ↦
                            let k1 = commit-Quiet a v saved r s q ok h1 kr h i j in
                            absurd (not_both ok explicit f k1)
                        | inr h2 ↦ ans.quiet h2
                      ];
                      replaces = λ e1 _. absurd (not_right ok explicit f e1);
                    },
                  )
            ]
      ]

  pub of_attempts :
      (raw : Text) (schedule : List Attempt) (c : CatalogCache)
      → is_empty scope ≡ false
      → decode raw ≡ some (obj source)
      → is_text (string_of (field_at (codes "tool_choice") source)) (codes "none") ≡ false
      → is_present (field_at (codes "tools") source) ≡ explicit
      → prepare_with_catalog prepare tools_of decode marshal raw scope schedule c
        ≡ tries (take max_attempts schedule) c
  unfolding prepare_with_catalog
  of_attempts raw schedule c s d n x = ground arith

module _ {B : Type 0} (prepare : Text → Text ⊎ B) (tools_of : B → GoMap Text Tool)
    (decode : Text → Option Json) (marshal : Json → Text) where
  -- A request of a session, which decodes to an object and does not refuse tools, is answered,
  -- between any calls of other requests to a sound cache that come in the order of their times; and
  -- the cache is left sound and within its bounds.
  pub prepare_with_catalog-ends :
      (t : ℕ) (raw scope : Text) (source : Fields) (schedule : List Attempt) (c : CatalogCache)
      → decode raw ≡ some (obj source)
      → is_text (string_of (field_at (codes "tool_choice") source)) (codes "none") ≡ false
      → is_empty scope ≡ false
      → Scheduled t (take max_attempts schedule)
      → CatalogSound t c.elements
      → (q : CatalogCache × Prepared B) × (prepare_with_catalog prepare tools_of decode marshal raw
            scope schedule c
          ≡ some q)
        × ((u : ℕ) × CatalogSound u q.0.elements)
  prepare_with_catalog-ends t raw scope source schedule c d n s h k =
      let explicit = is_present (field_at (codes "tools") source) in
      let (q, e, a) =
        attempts-Answered prepare tools_of decode marshal scope source explicit t
          (take max_attempts schedule) c h k in
      (
        q,
        of_attempts prepare tools_of decode marshal scope source explicit raw schedule c s d n refl
            ∙ e,
        a.sound,
      )

  -- A request of a session, which decodes to an object and does not refuse tools, is answered, and not told to try again if in one of its first eight attempts no other call
  -- comes between the snapshot and the commit, which is less than two hours later, or if it has
  -- tools of its own and makes an attempt.
  pub prepare_with_catalog-quiet :
      (t : ℕ) (raw scope : Text) (source : Fields) (schedule : List Attempt) (c : CatalogCache)
      → decode raw ≡ some (obj source)
      → is_text (string_of (field_at (codes "tool_choice") source)) (codes "none") ≡ false
      → is_empty scope ≡ false
      → Scheduled t (take max_attempts schedule)
      → CatalogSound t c.elements
      → AnyQuiet (take max_attempts schedule)
        ⊎ ((is_present (field_at (codes "tools") source) ≡ true)
            × (take max_attempts schedule ≢ []))
      → (q : CatalogCache × Prepared B) × (prepare_with_catalog prepare tools_of decode marshal raw
            scope schedule c
          ≡ some q)
        × (q.1 ≢ failed changed_concurrently)
  prepare_with_catalog-quiet t raw scope source schedule c d n s h k w =
      let explicit = is_present (field_at (codes "tools") source) in
      let (q, e, a) =
        attempts-Answered prepare tools_of decode marshal scope source explicit t
          (take max_attempts schedule) c h k in
      (
        q,
        of_attempts prepare tools_of decode marshal scope source explicit raw schedule c s d n refl
            ∙ e,
        elim w [ inl f ↦ a.quiet f | inr (f, g) ↦ a.replaces f g ],
      )
