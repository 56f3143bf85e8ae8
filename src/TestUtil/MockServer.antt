-- ===== src/TestUtil/MockServer.antt =====
-- grcache-shared/src/test/grpc_server.rs: a server that answers the requests that a test expects, in
-- their order. The streams of the h2 crate are the parameter `H2`; a connection and its tasks are left
-- out, since requests meet only in the state, which each holds locked in one piece. `none` is a panic.
use grcache.Prelude.{
  Bool, true, false, not, ◌&&◌, Option, none, some, List, [], ◌∷◌, ◌++◌, Text, text_eq, ◌==◌,
  if◌then◌else◌,
}
use grcache.Service.{Result}
use grcache.Store.{◌>>=◌}
use grcache.TestUtil.Client.{uri_of}

-- What the server uses of http and h2; `none` is an error of a send.
pub record H2 : Type 1 where
  pub Parts : Type 0
  pub HeaderMap : Type 0
  pub ReadError : Type 0
  pub SendResponse : Type 0
  pub SendStream : Type 0
  pub path : Parts → Text
  pub new_headers : HeaderMap
  -- with `Reason::REFUSED_STREAM`
  pub send_reset : SendResponse → SendResponse
  -- of an empty response
  pub send_response : SendResponse → Option (SendResponse × SendStream)
  pub send_data : Text → SendStream → Option SendStream
  pub send_trailers : HeaderMap → SendStream → Option SendStream

-- `b"\0\0\0\0\0"`
abbrev pub empty_message : Text
empty_message = 0 ∷ 0 ∷ 0 ∷ 0 ∷ 0 ∷ []

module _ (h2 : H2) where
  open h2 use {
    Parts, HeaderMap, ReadError, SendResponse, SendStream, path, new_headers, send_reset,
    send_response, send_data, send_trailers,
  }

  -- A closure of a test, which may panic.
  abbrev pub HandleFn : Type 0
  HandleFn = Parts → Text → Option (Text × HeaderMap)

  -- `State`, and whether its mutex is poisoned.
  pub record State : Type 0 where
    pub got_extra_requests : Bool
    pub expects : List (Text × Text × HandleFn)
    pub poisoned : Bool

  pub record Incoming : Type 0 where
    pub parts : Parts
    -- what the reads of the body return, up to its end
    pub body : List (Result Text ReadError)
    pub respond : SendResponse

  -- `MockServer::new`
  abbrev pub new_state : State
  new_state = record { got_extra_requests = false; expects = []; poisoned = false }

  unfoldable pub expect : Text → Text → HandleFn → State → Option State
  expect service method handle state =
      if state.poisoned
      then none
      else some (record state { expects = state.expects ++ (service, method, handle) ∷ [] })

  -- `finish`, whether it returns: it panics on a poisoned lock, and where its assertion fails.
  unfoldable pub finish : State → Bool
  finish state = not state.poisoned && not state.got_extra_requests

  -- The loop over the body.
  unfoldable pub full_body : List (Result Text ReadError) → Text → Option Text
  full_body [] buf = some buf
  full_body (Result.ok bytes ∷ l) buf = full_body l (buf ++ bytes)
  full_body (Result.err e ∷ l) buf = none

  -- A response, data and trailers, each unwrapped.
  unfoldable pub send : Text → HeaderMap → SendResponse → Option SendResponse
  send body trailers respond = do
    started ← send_response respond
    sent ← send_data body started.1
    ended ← send_trailers trailers sent
    some started.0

  abbrev pub poison : State → State
  poison state = record state { poisoned = true }

  -- The `else` of the locked block.
  unfoldable pub answer : HandleFn → Text → Incoming → State → Option SendResponse × State
  answer handler body r state = elim (handler r.parts body) [
    | none ↦ (none, poison state)
    | some (resp_body, resp_parts) ↦ elim (send resp_body resp_parts r.respond) [
      | none ↦ (none, poison state)
      | some respond ↦ (some respond, state)
    ]
  ]

  unfoldable pub respond_to :
      List (Text × Text × HandleFn) → Text → Incoming → State → Option SendResponse × State
  respond_to [] body r state =
      (some (send_reset r.respond), record state { got_extra_requests = true })
  respond_to ((service, method, handler) ∷ expects) body r state =
      if path r.parts == uri_of service method
      then answer handler body r (record state { expects = expects })
      else (none, poison (record state { expects = expects }))

  -- The second response, after the block.
  abbrev pub send_again : Option SendResponse × State → Option SendResponse × State
  send_again (none, state) = (none, state)
  send_again (some respond, state) = (send empty_message new_headers respond, state)

  unfoldable pub dummy_handle_request : Incoming → State → Option SendResponse × State
  dummy_handle_request r state = elim (full_body r.body []) [
    | none ↦ (none, state)
    | some body ↦
        if state.poisoned then (none, state) else send_again (respond_to state.expects body r state)
  ]

  -- Requests, in the order in which they take the lock.
  unfoldable pub handle_requests : List Incoming → State → State
  handle_requests [] state = state
  handle_requests (r ∷ rs) state = handle_requests rs (dummy_handle_request r state).1

  unfoldable pub expect_all : List (Text × Text × HandleFn) → State → Option State
  expect_all [] state = some state
  expect_all ((service, method, handle) ∷ l) state = do
    more ← expect service method handle state
    expect_all l more
