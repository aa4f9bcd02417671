-- ===== src/Sessions/Isolation.antt =====
-- session_state.go: the responses of one account stay with it.
use airgate_openai.Base.{
  ltb, ◌&&◌, ◌==◌, not, if◌then◌else◌, if◌then◌else◌, Text, is_empty, trim_space, ℕ, ◌<◌, ◌≡◌, refl,
  ◌∙◌, ◌≢◌, Bool, false, Option, some, [], arith,
}
use airgate_openai.Sessions.State.{
  SessionState, update_from_request, switch_account, if_present, normalize_session_value,
}
use airgate_openai.Sessions.Resolve.{
  Sent, Resolution, is_same_account, merge_stored, borrow_session_ids, requested, resolve_session,
}

-- Nothing of a stored state's responses is in the resolution: the response before is the one that the
-- request names.
pub record WithoutResponses (r : Resolution) (previous : Text) : Type 0 where
  pub response_id : r.previous_resp_id ≡ previous
  pub turn_state : r.last_turn_state ≡ []

borrow_session_ids-previous_resp_id :
    (r : Resolution) → (borrow_session_ids r).previous_resp_id ≡ r.previous_resp_id
unfolding borrow_session_ids
borrow_session_ids-previous_resp_id r = ground arith

borrow_session_ids-last_turn_state :
    (r : Resolution) → (borrow_session_ids r).last_turn_state ≡ r.last_turn_state
unfolding borrow_session_ids
borrow_session_ids-last_turn_state r = ground arith

merge_stored-other :
    (s : SessionState) (account_id : ℕ) (r : Resolution)
    → is_same_account s account_id ≡ false
    → ((merge_stored (some s) account_id r).previous_resp_id ≡ r.previous_resp_id)
      × ((merge_stored (some s) account_id r).last_turn_state ≡ r.last_turn_state)
unfolding merge_stored
merge_stored-other s account_id r e = ground arith

is_same_account-other :
    (s : SessionState) (account_id : ℕ)
    → 0 < s.account_id
    → s.account_id ≢ account_id
    → is_same_account s account_id ≡ false
is_same_account-other s account_id p n = ground arith

-- Whether a request is of another account than the state.
abbrev pub is_switch : ℕ → SessionState → Bool
is_switch account_id s =
    ltb 0 account_id && (ltb 0 s.account_id && not (s.account_id == account_id))

-- The state after an update by a request of an account.
pub record Switched (account_id : ℕ) (s t : SessionState) : Type 0 where
  pub account : t.account_id ≡ (if ltb 0 account_id then account_id else s.account_id)
  pub response_id : t.last_response_id ≡ (if is_switch account_id s then [] else s.last_response_id)
  pub response_at : t.last_response_at ≡ (if is_switch account_id s then 0 else s.last_response_at)
  pub turn_state : t.last_turn_state ≡ (if is_switch account_id s then [] else s.last_turn_state)
  pub turn_state_at :
      t.last_turn_state_at ≡ (if is_switch account_id s then 0 else s.last_turn_state_at)

switch_account_lem :
    (account_id : ℕ) (s : SessionState) → Switched account_id s (switch_account account_id s)
switch_account_lem account_id s = record {
  account = ground arith;
  response_id = ground arith;
  response_at = ground arith;
  turn_state = ground arith;
  turn_state_at = ground arith;
}

module _ (sha256_hex : Text → Text) where
  -- An update for a request of an account makes the state that account's, and one without an account
  -- leaves it. Where the request's account is not the state's, and both have one, the response, the
  -- turn state and their times are forgotten; otherwise they are kept.
  pub update_from_request_lem :
      (key sid cid pck : Text) (account_id : ℕ) (s : SessionState)
      → Switched account_id s (update_from_request sha256_hex key sid cid pck account_id s)
  unfolding update_from_request
  update_from_request_lem key sid cid pck account_id s =
      let w = switch_account_lem account_id (record s {
        session_key = if is_empty s.session_key then key else s.session_key;
        session_id = if_present (normalize_session_value sha256_hex sid) s.session_id;
        conversation_id = if_present (normalize_session_value sha256_hex cid) s.conversation_id;
        prompt_cache_key = if_present (normalize_session_value sha256_hex pck) s.prompt_cache_key;
      }) in
      record {
        account = w.account;
        response_id = w.response_id;
        response_at = w.response_at;
        turn_state = w.turn_state;
        turn_state_at = w.turn_state_at;
      }

-- The steps after the key is known, on any state read.
merged-other :
    (o : Option SessionState) (s : SessionState) (account_id : ℕ) (r : Resolution)
    → o ≡ some s
    → 0 < s.account_id
    → s.account_id ≢ account_id
    → r.last_turn_state ≡ []
    → WithoutResponses (borrow_session_ids (merge_stored o account_id r)) r.previous_resp_id
merged-other o s account_id r e p n t =
    let m = merge_stored-other s account_id r (is_same_account-other s account_id p n) in
    rw e (record {
      response_id = borrow_session_ids-previous_resp_id _ ∙ m.0;
      turn_state = borrow_session_ids-last_turn_state _ ∙ m.1 ∙ t;
    })

module _ (sha256_hex : Text → Text) (scoped_session_key : Text → Text → Text) where
  -- A request of one account never sees a response or a turn state that is stored for another: the
  -- resolution's previous response is then what the request's own header names.
  pub resolve_session-other :
      (read : Text → Option SessionState × Bool) (q : Sent) (account_id : ℕ) (scope : Text)
      (s : SessionState)
      → (read (requested sha256_hex scoped_session_key q account_id scope).session_key).0 ≡ some s
      → 0 < s.account_id
      → s.account_id ≢ account_id
      → WithoutResponses
          (resolve_session sha256_hex scoped_session_key read q account_id scope)
          (trim_space q.header_previous_response_id)
  unfolding resolve_session requested
  resolve_session-other read q account_id scope s e p n =
      merged-other _ s account_id
        (record (requested sha256_hex scoped_session_key q account_id scope) {
          state_error =
              (read (requested sha256_hex scoped_session_key q account_id scope).session_key).1;
        })
        e p n refl
