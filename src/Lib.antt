-- ===== src/Lib.antt =====
-- A model of the core of airgate-openai, a gateway that forwards requests to OpenAI accounts and keeps
-- caches, sessions and cooldowns of them. The Go code stands in backend/internal/gateway, that of the
-- Basispoints adapter in backend/internal/basispoints; the modules here take the part of it that
-- decides and remembers, and leave the network and the text of JSON out.
--
-- Base: lists, texts as code points with the string functions that the code calls, Go's maps as
-- association lists with distinct keys, the tests on numbers, int as an integer, and JSON values.
--
-- Safety: safety_request_cache.go. Safety.Cache has the entries in a map from hash to entry, where
-- an entry names its older and newer neighbour by their hashes, as the code does by pointers, the two
-- ends, and the counters of categories; Safety.Store has the operations. A nil dereference is the
-- result none. Safety.Spec is the cache as a list of items, the oldest first, and the record
-- Represents between the two. Safety.Segment, Chain, Moves, Adds, Refresh, Refine, Loop, Order and
-- Laws lead from the pointers to the operations of the list. The loops that evict run on the number of
-- entries as fuel: each round takes one entry out.
--
-- Encrypted: runtime_encrypted_content_cache.go, the session of one request with such a cache
-- (Encrypted.Session), which looks ciphertexts up, removes those that were rejected before and records
-- those that were forwarded. Encrypted.Laws and Encrypted.Violation use the cache by the theorems of
-- Safety.Laws, and follow a request from its inspection to its rejection.
--
-- Sessions: session_state.go. Sessions.State has the state and its updates, Sessions.Resolve
-- `resolveOpenAISessionWithScope`, Sessions.Store the memory store with its cleanup, Sessions.Digest
-- the cache of digest chains and the search in it. The search has the length of the chain and one as
-- its fuel, since every round shortens the chain; the cleanup has the budget of cache_expiry.go.
--
-- Cooldown: oauth_model_cooldown.go, with the tests on credentials of agent_identity.go and
-- `firstNonEmptyString` of ws.go. Cooldown.Tracker is the code; Cooldown.Streak reads a run of calls.
--
-- Pending: persistence_pending.go, the snapshots that wait to be written.
--
-- Responses: response_limits.go, the limit of a stream and the writer that counts its bytes
-- (Responses.Limits); Responses.Budget reads runs of writes.
--
-- Errors: errors.go and explicit_upstream_error.go, responses_failure.go and parts of outcome.go,
-- continuation_recovery.go, stream.go and anthropic_response.go. Errors.Codes, Errors.Classify and
-- Errors.Keywords are the tests on codes, states and texts, Errors.Failure the failure that an error
-- stands for, Errors.Events the reading of events and bodies, Errors.Outcome what is reported to the
-- core, Errors.Anchors what an outcome tells of the context. A nil failure is the option none. A
-- message may hold another body, one level deep, which is the fuel of Errors.Events.explicit_error.
--
-- Continuation: continuation_recovery.go and tool_continuation.go, with the test on items of
-- responses_input_compat.go. Continuation.Items and Continuation.Signals read a request,
-- Continuation.Recovery takes its previous response away. Continuation.Recode is a body that is
-- decoded into a map and encoded again, where a number is written as its float64;
-- Continuation.Branches and Laws are on the recovery, Continuation.Steps on the signals.
--
-- Timing: response_timing.go. Timing.Events tells which events hold output, Timing.Clock keeps the two
-- moments of a response.
--
-- Basispoints: the caches and plans of the adapter. Basispoints.Elements is what the caches of
-- tools.go and catalog_cache.go share: a list of elements in the order of use, which are named by
-- addresses, the map to them, and the bytes. Its two loops take an element out in each round and have
-- one more than there are elements as fuel. Basispoints.Replay is the cache of tool identities of
-- tools.go, Basispoints.Catalog that of catalogs, and Basispoints.Session `PrepareWithCatalog`, with
-- the calls of other requests as a schedule of attempts. Basispoints.Schema and Basispoints.Plan are
-- plan.go; a schema is read nine levels deep, as in the code. Basispoints.Steps, Calls and Plans tell
-- what the steps, the call and the arguments of a translated plan are. Basispoints.Order, Kept, Loops and Sound
-- lead to Basispoints.Replays, Catalogs and Sessions, and their children, on what the caches promise.
--
-- Usage: usage_cache.go and `splitInputTokenBuckets` of outcome.go (Usage.Tokens); service_tier.go and
-- the tiers of request_convert.go (Usage.Tiers).
--
-- Images: image_size_util.go (Images.Size, Images.Scale) and image_token_calculator.go
-- (Images.Tokens), with the wrap-around of 64 bits written out. The search for a scaled size has its
-- first candidate and one as fuel, since every round takes the multiple, which is positive, off.
--
-- Parameters: the hashes xxh3 and SHA-256, the regular expression for disabled accounts, what the JSON
-- readers and the headers give, the literal that a number has after float64, which code points beyond
-- ASCII are letters or digits, the first of a heap of container/heap, the square root of math,
-- fmt of a namespace, `Prepare` of the adapter, `parseRetryDelay`, and the clock. A method that holds
-- a mutex is one step. Letters are lowered for ASCII, and the white space of Unicode is trimmed.
--
-- Not modelled: the shared state of the SDK that a deployment may use in place of the memory stores,
-- the conversions between the API formats, the forwarding and streaming, image generation, the
-- database, OAuth itself, the requests, streams and tool calls of the Basispoints adapter, the
-- commands and the frontend.
--
-- Examples, Scenarios, Accounts, Figures, Requests and Adapters apply the theorems at concrete inputs.
pub mod Base
pub mod Errors
pub mod Safety
pub mod Encrypted
pub mod Timing
pub mod Usage
pub mod Images
pub mod Cooldown
pub mod Sessions
pub mod Pending
pub mod Responses
pub mod Basispoints
pub mod Continuation
mod Examples
mod Scenarios
mod Accounts
mod Figures
mod Requests
mod Adapters
