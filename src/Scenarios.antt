-- ===== src/Scenarios.antt =====
-- The theorems at concrete inputs: sessions and digests.
use airgate_openai.Base.{
  take, Text, codes, Text-discrete, trim_space, GoMap, get, ℕ, ◌<◌, ◌≡◌, refl, Bool, false, Option,
  none, some, [], ◌∷◌, arith,
}
use airgate_openai.Sessions.State.{SessionState, fresh_state, update_from_request}
use airgate_openai.Sessions.Resolve.{Sent, resolve_session}
use airgate_openai.Sessions.Isolation.{
  WithoutResponses, Switched, update_from_request_lem, resolve_session-other,
}
use airgate_openai.Sessions.Store.{MemoryStore, get_state, update}
use airgate_openai.Sessions.Update.{update-later}
use airgate_openai.Sessions.Digest.{DigestCache, find_digest_session, store_digest, remove_node}
use airgate_openai.Sessions.Search.{Longest, find_digest_session-Longest, store_digest_lem}

-- A digest is hashed to itself and a key is scoped by nothing in these examples.
abbrev same : Text → Text
same t = t

abbrev unscoped : Text → Text → Text
unscoped scope key = key

-- The state of a session of the account 1, which has had a response.
abbrev state : SessionState
state = record (fresh_state (codes "sid:a")) {
  session_id = codes "a";
  account_id = 1;
  last_response_id = codes "resp_1";
  last_turn_state = codes "turn";
  last_seen_at = 5000;
  last_updated_at = 5000;
}

abbrev sent : Sent
sent = record {
  body_prompt_cache_key = [];
  body_session_id = codes "a";
  body_conversation_id = [];
  header_session_id = [];
  header_conversation_id = [];
  header_previous_response_id = codes "resp_0";
}

abbrev read : Text → Option SessionState × Bool
read key = (some state, false)

resolve_session-other_example :
    WithoutResponses (resolve_session same unscoped read sent 2 []) (trim_space (codes "resp_0"))
resolve_session-other_example =
    resolve_session-other same unscoped read sent 2 [] state refl (omega arith) (omega arith)

update_from_request_lem_example :
    Switched 2 state (update_from_request same (codes "sid:a") (codes "a") [] [] 2 state)
update_from_request_lem_example =
    update_from_request_lem same (codes "sid:a") (codes "a") [] [] 2 state

abbrev first_key : GoMap Text SessionState → Option Text
first_key [] = none
first_key ((k, s) ∷ m) = some k

abbrev memory : MemoryStore
memory = record { items = (codes "sid:a", state) ∷ []; ttl = 1000; max_entries = 2 }

-- The clock has gone back since the update before.
update-later_example :
    (5000 < (update first_key (codes "sid:a") (λ s. s) 4000 memory).1.last_updated_at)
    × (get_state (codes "sid:a") (update first_key (codes "sid:a") (λ s. s) 4000 memory).0.items
        ≡ some (update first_key (codes "sid:a") (λ s. s) 4000 memory).1)
unfolding get Text-discrete
update-later_example = update-later first_key (codes "sid:a") (λ s. s) 4000 memory state refl

abbrev namespace : ℕ → Option Text → Text
namespace account_id scope = codes "1|"

abbrev digests : DigestCache
digests = record {
  nodes = (codes "1|s:a", record { session_id = codes "x"; updated_at = 100 }) ∷ [];
  max_size = 3;
  ttl = 50;
}

find_digest_session-Longest_example :
    Longest
      (codes "1|")
      (codes "s:a-u:b-a:c")
      120
      digests
      (find_digest_session namespace 1 (codes "s:a-u:b-a:c") none 120 digests).1
find_digest_session-Longest_example =
    find_digest_session-Longest namespace 1 (codes "s:a-u:b-a:c") none 120 digests refl

store_digest_lem_example :
    (store_digest (codes "k") (record { session_id = codes "y"; updated_at = 120 }) digests).nodes
    ≡ take 3 (
        (codes "k", record { session_id = codes "y"; updated_at = 120 })
        ∷ remove_node (codes "k") digests.nodes)
unfolding get
store_digest_lem_example =
    store_digest_lem (codes "k") (record { session_id = codes "y"; updated_at = 120 }) digests
      (refl, tt) (omega arith) (omega arith)
