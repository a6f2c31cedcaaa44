-- ===== src/NightShifts/Inference/Gateway.antt =====
-- `TrustedInferenceGateway` of night_shifts/inference.py. Each call of the gateway is one step: the
-- locks are not modelled.
pub mod Steps
pub mod History
pub mod Quota
pub mod Life
mod Tests
use simple_ai_agent.Common.{
  ℕ, ◌+◌, String, Bool, true, false, not, ◌&&◌, ◌||◌, Option, none, some, List, [], ◌∷◌, ◌++◌, ◌==◌,
  Result, ok, err, Action, pure, raise, gets, or_raise, raise_if, modify, ◌>>=◌, ◌>>◌, leb,
  contains, length, lookup, insert, erase, if◌then◌else◌,
}
use simple_ai_agent.Common.Int.{pos_part}
use simple_ai_agent.NightShifts.Policy.{InferenceLimits}
use simple_ai_agent.NightShifts.Inference.{
  InferenceRequest, InferenceResponse, WorkerToolSpec, worker_tool_names,
}
use simple_ai_agent.NightShifts.Inference.Checks.{
  BoundaryError, empty_job, unknown_profile, unknown_model, not_owned, policy_mismatch,
  no_cancellation, unavailable, expired, wrong_job, wrong_profile, request_limit, model_raised,
  invalid_response, Checked, check_request, check_response,
}

-- What the gateway takes from outside: the n-th token and time, the schemas' size, `str.strip`, what
-- the model answers to the n-th request (`none` for an exception), and which models can cancel.
pub record Host : Type 0 where
  pub token_urlsafe : ℕ → String
  pub utc_now : ℕ → ℕ
  pub schema_bytes : List WorkerToolSpec → Option ℕ
  pub strip : String → String
  pub model_infer : ℕ → InferenceRequest → Option (Option InferenceResponse)
  pub can_cancel : String → Bool

-- `_Session`, without its model and its lock.
pub record Session : Type 0 where
  pub job_id : String
  pub worker_profile : String
  pub model_id : String
  pub limits : InferenceLimits
  pub expires_at : ℕ
  pub requests : ℕ

-- The session of a client that is created now.
unfoldable pub new_session : String → String → String → InferenceLimits → ℕ → Session
new_session job profile model limits created = record {
  job_id = job;
  worker_profile = profile;
  model_id = model;
  limits = limits;
  expires_at = created + pos_part limits.ttl_seconds;
  requests = 0;
}

-- `dispatched` has the requests that a model was given, each with the token it came under.
pub record Gateway : Type 0 where
  pub models : List String
  pub sessions : List (String × Session)
  pub dispatched : List (String × InferenceRequest)
  pub draws : ℕ
  pub readings : ℕ

-- A client, and whether it is a `BoundInferenceClient` of this gateway.
pub record Client : Type 0 where
  pub is_own : Bool
  pub token : String

abbrev pub Gated : Type 0 → Type 0
Gated A = Action Gateway BoundaryError A

module _ (host : Host) where
  unfoldable pub now : Gated ℕ
  now g = (ok (host.utc_now g.readings), record g { readings = g.readings + 1 })

  unfoldable pub fresh_token : Gated String
  fresh_token g = (ok (host.token_urlsafe g.draws), record g { draws = g.draws + 1 })

  unfoldable pub create_client : String → String → String → InferenceLimits → Gated Client
  unfolding worker_tool_names now fresh_token insert new_session
  create_client job profile model limits = do
    raise_if (job == "") empty_job
    or_raise (worker_tool_names profile) unknown_profile
    raise_if (not (contains model (← gets (λ g. g.models)))) unknown_model
    token ← fresh_token
    created ← now
    modify (λ g. record g {
      sessions = insert token (new_session job profile model limits created) g.sessions;
    })
    pure (record { is_own = true; token = token })

  unfoldable pub authorize_client : Client → String → String → String → Gated (Unit {0})
  unfolding lookup
  authorize_client client job profile model = do
    raise_if (not client.is_own) not_owned
    session ← or_raise (← gets (λ g. lookup client.token g.sessions)) policy_mismatch
    raise_if
        (not (session.job_id == job)
          || not (session.worker_profile == profile)
          || not (session.model_id == model))
        policy_mismatch

  -- The session of the client, which is there no more.
  unfoldable pub pop_session : Client → Gated (Option Session)
  unfolding lookup erase
  pop_session client = do
    raise_if (not client.is_own) not_owned
    session ← gets (λ g. lookup client.token g.sessions)
    modify (λ g. record g { sessions = erase client.token g.sessions })
    pure session

  -- Then the model is closed, if it can be.
  unfoldable pub close_client : Client → Gated (Unit {0})
  unfolding pop_session
  close_client client = do pop_session client; pure tt

  -- Then the model is cancelled.
  unfoldable pub cancel_client : Client → Gated (Unit {0})
  unfolding pop_session
  cancel_client client = do
    session ← pop_session client
    elim session [
      | none ↦ pure tt
      | some s ↦ raise_if (not (host.can_cancel s.model_id)) no_cancellation
    ]

  -- `_authorize`
  unfoldable pub authorize : Session → InferenceRequest → Gated (Unit {0})
  unfolding now
  authorize session request = do
    time ← now
    raise_if (leb session.expires_at time) expired
    raise_if (not (request.job_id == session.job_id)) wrong_job
    raise_if (not (request.worker_profile == session.worker_profile)) wrong_profile
    raise_if (leb (pos_part session.limits.max_requests) session.requests) request_limit

  unfoldable pub checked : {A : Type 0} → Checked A → Gated A
  checked (ok a) = pure a
  checked (err e) = raise e

  -- `session.requests += 1`, and the call of the model.
  unfoldable pub dispatch : String → Session → InferenceRequest → Gated (Option InferenceResponse)
  unfolding insert
  dispatch token session request = do
    modify (λ g. record g {
      sessions = insert token (record session { requests = session.requests + 1 }) g.sessions;
    })
    answer ← gets (λ g. host.model_infer (length g.dispatched) request)
    modify (λ g. record g { dispatched = g.dispatched ++ (token, request) ∷ [] })
    or_raise answer model_raised

  unfoldable pub validated : Session → Option InferenceResponse → Gated InferenceResponse
  unfolding checked check_response
  validated session answer = do
    checked (check_response host.strip session.limits session.worker_profile answer)
    or_raise answer invalid_response

  unfoldable pub infer : String → InferenceRequest → Gated InferenceResponse
  unfolding lookup authorize checked check_request dispatch validated
  infer token request = do
    session ← or_raise (← gets (λ g. lookup token g.sessions)) unavailable
    authorize session request
    checked (check_request host.schema_bytes session.limits session.worker_profile request)
    answer ← dispatch token session request
    validated session answer
