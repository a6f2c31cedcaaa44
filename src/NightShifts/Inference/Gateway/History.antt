-- ===== src/NightShifts/Inference/Gateway/History.antt =====
-- Sequences of calls of the gateway, and what each session may send in them.
use simple_ai_agent.Common.{
  ℕ, ◌+◌, ◌≡◌, refl, String, true, false, Option, List, [], ◌∷◌, ◌++◌, ◌==◌, Result, ok, err, arith,
  length, Ensures, if◌then◌else◌,
}
use simple_ai_agent.NightShifts.Policy.{InferenceLimits}
use simple_ai_agent.NightShifts.Inference.{InferenceRequest, WorkerToolSpec}
use simple_ai_agent.NightShifts.Inference.Checks.{BoundaryError, check_request}
use simple_ai_agent.NightShifts.Inference.Gateway.{
  Host, Gateway, Client, create_client, authorize_client, close_client, cancel_client, infer,
}
use simple_ai_agent.NightShifts.Inference.Gateway.Steps.{
  Step, Steps, create_client-Steps, authorize_client-Steps, close_client-Steps, cancel_client-Steps,
  infer-Steps,
}

-- A call of a method of the gateway.
pub data GatewayCall : Type 0 where
  creates : String → String → String → InferenceLimits → GatewayCall
  authorizes : Client → String → String → String → GatewayCall
  closes : Client → GatewayCall
  cancels : Client → GatewayCall
  infers : String → InferenceRequest → GatewayCall

-- A gateway with these models that was not called yet.
unfoldable pub new_gateway : List String → Gateway
new_gateway models = record {
  models = models;
  sessions = [];
  dispatched = [];
  draws = 0;
  readings = 0;
}

-- The requests that were sent under a token, in their order.
unfoldable pub sent_under : String → List (String × InferenceRequest) → List InferenceRequest
sent_under token [] = []
sent_under token ((t, r) ∷ rest) =
    if t == token then r ∷ sent_under token rest else sent_under token rest

-- All are requests of this job and profile that `_validate_request` accepts.
unfoldable pub AllOwn :
    (List WorkerToolSpec → Option ℕ)
    → InferenceLimits
    → String
    → String
    → List InferenceRequest
    → Type 0
unfolding check_request
AllOwn schema_bytes limits job profile [] = Unit {0}
AllOwn schema_bytes limits job profile (r ∷ rest) =
    (r.job_id ≡ job)
    × (r.worker_profile ≡ profile)
    × (check_request schema_bytes limits profile r ≡ ok tt)
    × AllOwn schema_bytes limits job profile rest

pub sent_under-own :
    (token t : String) (r : InferenceRequest) (d : List (String × InferenceRequest))
    → t == token ≡ true
    → sent_under token (d ++ (t, r) ∷ []) ≡ sent_under token d ++ r ∷ []
unfolding sent_under
sent_under-own token t r [] is = ground (arith, is)
sent_under-own token t r ((u, q) ∷ d) is = ground (arith, sent_under-own token t r d is)

pub sent_under-other :
    (token t : String) (r : InferenceRequest) (d : List (String × InferenceRequest))
    → t == token ≡ false
    → sent_under token (d ++ (t, r) ∷ []) ≡ sent_under token d
unfolding sent_under
sent_under-other token t r [] differs = ground (arith, differs)
sent_under-other token t r ((u, q) ∷ d) differs =
    ground (arith, sent_under-other token t r d differs)

pub AllOwn-snoc :
    (schema_bytes : List WorkerToolSpec → Option ℕ) (limits : InferenceLimits)
    (job profile : String) (r : InferenceRequest) (rs : List InferenceRequest)
    → AllOwn schema_bytes limits job profile rs
    → r.job_id ≡ job
    → r.worker_profile ≡ profile
    → check_request schema_bytes limits profile r ≡ ok tt
    → AllOwn schema_bytes limits job profile (rs ++ r ∷ [])
unfolding AllOwn
AllOwn-snoc schema_bytes limits job profile r [] own p q good = (p, q, good, tt)
AllOwn-snoc schema_bytes limits job profile r (x ∷ rs) (own_job, own_profile, own_good, own) p q
      good =
    (own_job, own_profile, own_good, AllOwn-snoc schema_bytes limits job profile r rs own p q good)

pub length-snoc :
    (r : InferenceRequest) (rs : List InferenceRequest) → length (rs ++ r ∷ []) ≡ length rs + 1
length-snoc r [] = refl
length-snoc r (x ∷ rs) = ground (arith, length-snoc r rs)

module _ (host : Host) where
  -- What a call leaves, whether it returns or raises.
  unfoldable pub perform : GatewayCall → Gateway → Gateway
  unfolding create_client authorize_client close_client cancel_client infer
  perform (creates job profile model limits) g = (create_client host job profile model limits g).1
  perform (authorizes client job profile model) g =
      (authorize_client host client job profile model g).1
  perform (closes client) g = (close_client host client g).1
  perform (cancels client) g = (cancel_client host client g).1
  perform (infers token request) g = (infer host token request g).1

  unfoldable pub perform_all : List GatewayCall → Gateway → Gateway
  unfolding perform
  perform_all [] g = g
  perform_all (c ∷ cs) g = perform_all cs (perform c g)

  step_of :
      {A : Type 0} (g : Gateway) (r : Result BoundaryError A × Gateway)
      → Steps host g r
      → Step host g (r.1)
  unfolding Ensures
  step_of g (ok a, h) step = step
  step_of g (err e, h) step = step

  perform-Step : (c : GatewayCall) (g : Gateway) → Step host g (perform c g)
  unfolding perform
  perform-Step (creates job profile model limits) g =
      step_of g (create_client host job profile model limits g)
        (create_client-Steps host job profile model limits g)
  perform-Step (authorizes client job profile model) g =
      step_of g (authorize_client host client job profile model g)
        (authorize_client-Steps host client job profile model g)
  perform-Step (closes client) g =
      step_of g (close_client host client g) (close_client-Steps host client g)
  perform-Step (cancels client) g =
      step_of g (cancel_client host client g) (cancel_client-Steps host client g)
  perform-Step (infers token request) g =
      step_of g (infer host token request g) (infer-Steps host token request g)

  -- What every step keeps holds after any calls.
  pub perform_all-Keeps :
      (P : Gateway → Type 0)
      → ((g h : Gateway) → Step host g h → P g → P h)
      → (cs : List GatewayCall) (g : Gateway) → P g
      → P (perform_all cs g)
  unfolding perform_all
  perform_all-Keeps P keep [] g p = p
  perform_all-Keeps P keep (c ∷ cs) g p =
      perform_all-Keeps P keep cs (perform c g) (keep g (perform c g) (perform-Step c g) p)
