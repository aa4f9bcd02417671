-- ===== src/Sessions/State.antt =====
-- session_state.go: the state of a session and its updates. Times are nanoseconds, 0 the zero time, and
-- an account's number that is 0 is none. The SHA-256 of a text, in hexadecimal, is a parameter.
use airgate_openai.Base.{
  ltb, leb, ◌==◌, if◌then◌else◌, length, Text, codes, is_empty, byte_length, trim_space, ℕ, not,
  ◌&&◌, List, [], ◌∷◌, ◌++◌,
}

pub record SessionState : Type 0 where
  pub session_key : Text
  pub session_id : Text
  pub conversation_id : Text
  pub prompt_cache_key : Text
  pub account_id : ℕ
  pub last_response_id : Text
  pub last_turn_state : Text
  pub last_seen_at : ℕ
  pub last_updated_at : ℕ
  pub last_response_at : ℕ
  pub last_turn_state_at : ℕ

-- `&openAISessionState{SessionKey: key}`
abbrev pub fresh_state : Text → SessionState
fresh_state key = record {
  session_key = key;
  session_id = [];
  conversation_id = [];
  prompt_cache_key = [];
  account_id = 0;
  last_response_id = [];
  last_turn_state = [];
  last_seen_at = 0;
  last_updated_at = 0;
  last_response_at = 0;
  last_turn_state_at = 0;
}

abbrev later : ℕ → List ℕ → ℕ
later last [] = last
later last (t ∷ ts) = later (if ltb last t then t else last) ts

unfoldable pub last_activity : SessionState → ℕ
last_activity s =
    later s.last_seen_at (s.last_updated_at ∷ s.last_response_at ∷ s.last_turn_state_at ∷ [])

abbrev pub if_present : Text → Text → Text
if_present value old = if is_empty value then old else value

-- The state forgets the responses of another account.
abbrev pub switch_account : ℕ → SessionState → SessionState
switch_account account_id s =
    if ltb 0 account_id
    then (if ltb 0 s.account_id && not (s.account_id == account_id)
        then record s {
          account_id = account_id;
          last_response_id = [];
          last_response_at = 0;
          last_turn_state = [];
          last_turn_state_at = 0;
        }
        else record s { account_id = account_id })
    else s

module _ (sha256_hex : Text → Text) where
  unfoldable pub normalize_session_value : Text → Text
  normalize_session_value value =
      let v = trim_space value in
      if ltb 1024 (byte_length v) then codes "sha256:" ++ sha256_hex v else v

  unfoldable pub upstream_prompt_cache_key : Text → Text
  unfolding normalize_session_value
  upstream_prompt_cache_key key =
      let k = normalize_session_value key in
      if is_empty k then [] else if leb (length k) 64 then k else sha256_hex k

  unfoldable pub session_key_from_values : Text → Text → Text → Text
  unfolding normalize_session_value
  session_key_from_values session_id conversation_id prompt_cache_key =
      if not (is_empty (normalize_session_value session_id))
      then codes "sid:" ++ normalize_session_value session_id
      else if not (is_empty (normalize_session_value conversation_id))
      then codes "cid:" ++ normalize_session_value conversation_id
      else if not (is_empty (normalize_session_value prompt_cache_key))
      then codes "pcache:" ++ normalize_session_value prompt_cache_key
      else []

  -- The update of `updateSessionStateFromRequest`, of the key and identifiers of a resolution.
  unfoldable pub update_from_request : Text → Text → Text → Text → ℕ → SessionState → SessionState
  unfolding normalize_session_value
  update_from_request key session_id conversation_id prompt_cache_key account_id s =
      switch_account account_id (record s {
        session_key = if is_empty s.session_key then key else s.session_key;
        session_id = if_present (normalize_session_value session_id) s.session_id;
        conversation_id = if_present (normalize_session_value conversation_id) s.conversation_id;
        prompt_cache_key = if_present (normalize_session_value prompt_cache_key) s.prompt_cache_key;
      })

-- The update of `updateSessionStateResponseID`, where the identifier is not blank.
unfoldable pub update_response_id : ℕ → Text → ℕ → SessionState → SessionState
update_response_id now response_id account_id s = record s {
  account_id = if ltb 0 account_id then account_id else s.account_id;
  last_response_id = response_id;
  last_response_at = now;
}

unfoldable pub clear_response_id : SessionState → SessionState
clear_response_id s = record s { last_response_id = []; last_response_at = 0 }

unfoldable pub update_turn_state : ℕ → Text → SessionState → SessionState
update_turn_state now turn_state s = record s {
  last_turn_state = turn_state;
  last_turn_state_at = now;
}
