-- ===== src/Sessions/Resolve.antt =====
-- session_state.go, `resolveOpenAISessionWithScope`. What is read from the headers and the JSON body,
-- the stored state that `readSessionState` finds for a key, and `scopedSessionKey` are parameters.
use airgate_openai.Base.{
  ◌==◌, if◌then◌else◌, Text, codes, is_empty, trim_space, ℕ, Bool, true, false, not, ◌&&◌, ◌||◌,
  Option, none, some, [],
}
use airgate_openai.Sessions.State.{SessionState, normalize_session_value, session_key_from_values}

-- The texts of the request.
pub record Sent : Type 0 where
  pub body_prompt_cache_key : Text
  pub body_session_id : Text
  pub body_conversation_id : Text
  pub header_session_id : Text
  pub header_conversation_id : Text
  pub header_previous_response_id : Text

-- The digests of `openAISessionResolution` are filled in elsewhere.
pub record Resolution : Type 0 where
  pub state_error : Bool
  pub scope : Text
  pub session_key : Text
  pub session_id : Text
  pub conversation_id : Text
  pub prompt_cache_key : Text
  pub previous_resp_id : Text
  pub last_turn_state : Text
  pub account_id : ℕ
  pub from_stored_state : Bool
  pub session_source : Text

abbrev pub or_else : Text → Text → Text
or_else a b = if is_empty a then b else a

abbrev pub is_same_account : SessionState → ℕ → Bool
is_same_account s account_id = s.account_id == 0 || s.account_id == account_id

unfoldable pub merge_stored : Option SessionState → ℕ → Resolution → Resolution
merge_stored none account_id r = r
merge_stored (some s) account_id r = record r {
  from_stored_state = true;
  session_id = or_else r.session_id s.session_id;
  conversation_id = or_else r.conversation_id s.conversation_id;
  prompt_cache_key = or_else r.prompt_cache_key s.prompt_cache_key;
  previous_resp_id =
      if is_empty r.previous_resp_id && is_same_account s account_id
      then s.last_response_id
      else r.previous_resp_id;
  last_turn_state = if is_same_account s account_id then s.last_turn_state else r.last_turn_state;
  session_source = or_else r.session_source (codes "stored_session_state");
}

-- `if r.SessionID == "" && value != ""`
abbrev borrow_session_id : Text → Text → Resolution → Resolution
borrow_session_id value source r =
    if is_empty r.session_id && not (is_empty value)
    then record r { session_id = value; session_source = or_else r.session_source source }
    else r

unfoldable pub borrow_session_ids : Resolution → Resolution
borrow_session_ids r =
    let p = borrow_session_id r.prompt_cache_key (codes "prompt_cache_key") r in
    borrow_session_id p.conversation_id (codes "header_conversation_id") p

module _ (sha256_hex : Text → Text) (scoped_session_key : Text → Text → Text) where
  abbrev normal : Text → Text
  normal = normalize_session_value sha256_hex

  unfoldable pub session_source : Sent → Text
  session_source q =
      if not (is_empty (normal q.body_session_id))
      then codes "metadata_user_id"
      else if not (is_empty (normal q.header_session_id))
      then codes "header_session_id"
      else if not (is_empty (normal q.body_conversation_id))
      then codes "body_conversation_id"
      else if not (is_empty (normal q.header_conversation_id))
      then codes "header_conversation_id"
      else if not (is_empty (normal q.body_prompt_cache_key))
      then codes "prompt_cache_key"
      else []

  -- What the request itself says, before the stored state is read.
  unfoldable pub requested : Sent → ℕ → Text → Resolution
  unfolding session_source
  requested q account_id scope =
      let session_id = or_else (normal q.body_session_id) (normal q.header_session_id) in
      let conversation_id =
        or_else (normal q.body_conversation_id) (normal q.header_conversation_id) in
      let prompt_cache_key = normal q.body_prompt_cache_key in
      record {
        state_error = false;
        scope = scope;
        session_key =
            scoped_session_key scope
              (session_key_from_values sha256_hex session_id conversation_id prompt_cache_key);
        session_id = session_id;
        conversation_id = conversation_id;
        prompt_cache_key = prompt_cache_key;
        previous_resp_id = trim_space q.header_previous_response_id;
        last_turn_state = [];
        account_id = account_id;
        from_stored_state = false;
        session_source = session_source q;
      }

  unfoldable pub resolve_session :
      (Text → Option SessionState × Bool) → Sent → ℕ → Text → Resolution
  unfolding requested merge_stored borrow_session_ids
  resolve_session read_session_state q account_id scope =
      let r = requested q account_id scope in
      let stored = read_session_state r.session_key in
      borrow_session_ids (merge_stored stored.0 account_id (record r { state_error = stored.1 }))
