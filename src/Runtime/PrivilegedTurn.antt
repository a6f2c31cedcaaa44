-- ===== src/Runtime/PrivilegedTurn.antt =====
-- runtime/privileged_turn.py: `PrivilegedTurn`. The value of the context variable, the readings of
-- the clocks and the text of the review are arguments of the calls; a time is a whole number.
pub mod History
pub mod Moves
pub mod Handoff
pub mod Status
pub mod Revoked
pub mod Budget
mod Tests
use Prim.Native.String.{len}
use simple_ai_agent.Common.{
  ℕ, ◌+◌, ◌-◌, String, Bool, true, false, not, ◌&&◌, ◌||◌, Option, none, some, List, [], ◌∷◌, ◌++◌,
  ◌==◌, ok, err, Action, pure, raise, gets, or_raise, raise_if, modify, ◌>>=◌, ◌>>◌, ltb, leb, eqb,
  contains, lookup, insert, if◌then◌else◌,
}

abbrev pub arm_seconds : ℕ
arm_seconds = 120

abbrev pub turn_seconds : ℕ
turn_seconds = 1_800

abbrev pub evidence_operation : String
evidence_operation = "collect_host_evidence"

abbrev pub inspection_operation : String
inspection_operation = "inspect_image_copy"

abbrev pub elevated_operation : String
elevated_operation = "elevated_commands"

abbrev pub operations : List String
operations = evidence_operation ∷ inspection_operation ∷ elevated_operation ∷ []

pub record PrivilegedClaim : Type 0 where
  pub request_id : String
  pub deadline_unix : ℕ
  pub operation : String

pub record PendingPrivilege : Type 0 where
  pub id : String
  pub claim : PrivilegedClaim
  pub review_json : String
  pub review_sha256 : String

pub data Decision : Type 0 where
  pending accepted rejected expired handed_off : Decision

-- The fields of the object. `events` tells of each request whether its event is set; `draws`
-- counts the identifiers that `uuid4` gave.
pub record PrivilegedTurn : Type 0 where
  pub armed_until : ℕ
  pub turn : Option String
  pub deadline : ℕ
  pub used : Bool
  pub operation : String
  pub fixed_used : List String
  pub claims : List (String × PrivilegedClaim)
  pub requests : List (String × PendingPrivilege)
  pub decisions : List (String × Decision)
  pub events : List (String × Bool)
  pub draws : ℕ

-- The exceptions.
pub data Denied : Type 0 where
  unknown_operation active_turn concurrent_turn not_enabled : Denied
  unserializable oversized not_live not_pending not_accepted : Denied

abbrev pub Guarded : Type 0 → Type 0
Guarded A = Action PrivilegedTurn Denied A

-- `__init__`
unfoldable pub new_turn : PrivilegedTurn
new_turn = record {
  armed_until = 0;
  turn = none;
  deadline = 0;
  used = false;
  operation = evidence_operation;
  fixed_used = [];
  claims = [];
  requests = [];
  decisions = [];
  events = [];
  draws = 0;
}

same_claim : PrivilegedClaim → PrivilegedClaim → Bool
same_claim a b =
    a.request_id == b.request_id
    && eqb a.deadline_unix b.deadline_unix
    && a.operation == b.operation

unfoldable pub is_claim : PrivilegedClaim → Option PrivilegedClaim → Bool
unfolding same_claim
is_claim claim none = false
is_claim claim (some c) = same_claim c claim

-- The value found, compared with a request.
unfoldable pub is_request : PendingPrivilege → Option PendingPrivilege → Bool
unfolding same_claim
is_request request none = false
is_request request (some r) =
    r.id == request.id
    && same_claim r.claim request.claim
    && r.review_json == request.review_json
    && r.review_sha256 == request.review_sha256

unfoldable pub same_turn : Option String → Option String → Bool
same_turn none none = true
same_turn (some a) (some b) = a == b
same_turn _ _ = false

unfoldable pub is_absent : {A : Type 0} → Option A → Bool
is_absent none = true
is_absent (some a) = false

unfoldable pub is_decision : Decision → Option Decision → Bool
is_decision pending (some pending) = true
is_decision accepted (some accepted) = true
is_decision _ _ = false

-- The loop of `_invalidate`: of the decisions, and of the events.
unfoldable pub expire_all :
    List (String × Bool) → List (String × Decision) → List (String × Decision)
unfolding insert
expire_all [] decisions = decisions
expire_all (event ∷ rest) decisions = expire_all rest (insert (event.0) expired decisions)

set_all : List (String × Bool) → List (String × Bool)
set_all [] = []
set_all (event ∷ rest) = (event.0, true) ∷ set_all rest

-- `_invalidate`
unfoldable pub invalidate : PrivilegedTurn → PrivilegedTurn
unfolding expire_all set_all
invalidate g = record g { decisions = expire_all g.events g.decisions; events = set_all g.events }

unfoldable pub arm : String → ℕ → Guarded (Unit {0})
arm operation now = do
  raise_if (not (contains operation operations)) unknown_operation
  raise_if (not (is_absent (← gets (λ g. g.turn)))) active_turn
  modify (λ g. record g { operation = operation; armed_until = now + arm_seconds })

unfoldable pub revoke : Guarded (Unit {0})
unfolding invalidate
revoke = modify (λ g. invalidate (record g { armed_until = 0; deadline = 0; used = true }))

-- `_live`
unfoldable pub is_live : PrivilegedClaim → ℕ → PrivilegedTurn → Bool
unfolding is_absent is_claim lookup
is_live claim now g =
    not (is_absent g.turn)
    && ltb now g.deadline
    && is_claim claim (lookup claim.request_id g.claims)

unfoldable pub submit_id : PrivilegedClaim → String
submit_id claim = String.◌∷◌ "E" claim.request_id

-- `pending`: the requests that are still pending.
unfoldable pub still_pending :
    List (String × Decision) → List (String × PendingPrivilege) → List (String × PendingPrivilege)
unfolding is_decision lookup
still_pending decisions [] = []
still_pending decisions (entry ∷ rest) =
    let others = still_pending decisions rest in
    if is_decision pending (lookup (entry.0) decisions) then entry ∷ others else others

unfoldable pub pending_requests : ℕ → Guarded (List (String × PendingPrivilege))
unfolding invalidate still_pending
pending_requests now = do
  modify (λ g. if leb g.deadline now then invalidate g else g)
  gets (λ g. still_pending g.decisions g.requests)

-- `decide`
unfoldable pub decide : String → Bool → ℕ → Guarded Decision
unfolding is_decision is_live lookup insert
decide identity accept now = do
  request ← or_raise (← gets (λ g. lookup identity g.requests)) not_pending
  raise_if (not (is_decision pending (← gets (λ g. lookup identity g.decisions)))) not_pending
  live ← gets (is_live request.claim now)
  let decision = if not live then expired else if accept then accepted else rejected
  modify (λ g. record g {
    decisions = insert identity decision g.decisions;
    events = insert identity true g.events;
  })
  pure decision

-- One look of `wait`: `none` if it has to wait on.
unfoldable pub look : PendingPrivilege → ℕ → Guarded (Option Decision)
unfolding is_request is_live is_decision lookup
look request now = do
  found ← gets (λ g. lookup request.id g.requests)
  live ← gets (is_live request.claim now)
  decision ← gets (λ g. lookup request.id g.decisions)
  pure (
      if not (is_request request found) || not live
      then some expired
      else if is_decision pending decision
      then none
      else decision)

-- The guard of `require_accepted`.
unfoldable pub is_refused : Option String → PendingPrivilege → ℕ → PrivilegedTurn → Bool
unfolding same_turn is_request is_live is_decision lookup
is_refused context request now g =
    not (same_turn context g.turn)
    || not (is_live request.claim now g)
    || not (is_request request (lookup request.id g.requests))
    || not (is_decision accepted (lookup request.id g.decisions))

-- `require_accepted`
unfoldable pub require_accepted : Option String → PendingPrivilege → ℕ → Guarded (Unit {0})
unfolding is_refused insert
require_accepted context request now = do
  raise_if (← gets (is_refused context request now)) not_accepted
  modify (λ g. record g { decisions = insert request.id handed_off g.decisions })

module _ (uuid4 : ℕ → String) (sha256 : String → String) where
  fresh : Guarded String
  fresh g = (ok (uuid4 g.draws), record g { draws = g.draws + 1 })

  -- The head's part of `turn`, up to its `yield`: the new value of the context variable.
  unfoldable pub enter_turn : String → ℕ → ℕ → Guarded (Option String)
  unfolding fresh is_absent
  enter_turn profile now later = if not (profile == "head") then pure none else do
    identity ← fresh
    raise_if (not (is_absent (← gets (λ g. g.turn)))) concurrent_turn
    enabled ← gets (λ g. ltb now g.armed_until)
    modify (λ g. record g {
      armed_until = 0;
      turn = some identity;
      deadline = if enabled then later + turn_seconds else 0;
      used = not enabled;
      fixed_used = [];
      claims = [];
      requests = [];
      decisions = [];
      events = [];
    })
    pure (some identity)

  -- The `finally` of a head's turn.
  unfoldable pub leave_turn : Guarded (Unit {0})
  unfolding invalidate
  leave_turn = modify (λ g. record (invalidate g) { turn = none; deadline = 0; used = true })

  -- The guard of `claim`.
  unfoldable pub claim_refused : Option String → String → ℕ → PrivilegedTurn → Bool
  unfolding is_absent same_turn
  claim_refused context operation now g =
      not (contains operation operations)
      || is_absent context
      || not (same_turn context g.turn)
      || g.used
      || leb g.deadline now
      || not (g.operation == elevated_operation) && not (operation == g.operation)
      || g.operation == elevated_operation
        && not (operation == elevated_operation)
        && contains operation g.fixed_used

  unfoldable pub claim : Option String → String → ℕ → ℕ → Guarded PrivilegedClaim
  unfolding fresh claim_refused insert
  claim context operation now wall = do
    g ← gets (λ g. g)
    raise_if (claim_refused context operation now g) not_enabled
    modify (λ s.
        if not (s.operation == elevated_operation)
        then record s { used = true }
        else if not (operation == elevated_operation)
        then record s { fixed_used = s.fixed_used ++ operation ∷ [] }
        else s)
    id ← fresh
    let made : PrivilegedClaim = record {
      request_id = id;
      deadline_unix = wall + g.deadline - now;
      operation = operation;
    }
    modify (λ s. record s { claims = insert id made s.claims })
    pure made

  -- The guard of `submit`.
  unfoldable pub submit_refused : Option String → PendingPrivilege → ℕ → PrivilegedTurn → Bool
  unfolding same_turn is_live is_absent lookup
  submit_refused context request now g =
      not (same_turn context g.turn)
      || not (is_live request.claim now g)
      || not (is_absent (lookup request.id g.requests))

  -- `submit`; the review is `none` if the details cannot be dumped.
  unfoldable pub submit :
      Option String → PrivilegedClaim → Option String → ℕ → Guarded PendingPrivilege
  unfolding submit_refused submit_id insert
  submit context claim details now = do
    review ← or_raise details unserializable
    raise_if (ltb 65_536 (len review)) oversized
    let request : PendingPrivilege = record {
      id = submit_id claim;
      claim = claim;
      review_json = review;
      review_sha256 = sha256 review;
    }
    raise_if (← gets (submit_refused context request now)) not_live
    modify (λ g. record g {
      requests = insert request.id request g.requests;
      decisions = insert request.id pending g.decisions;
      events = insert request.id false g.events;
    })
    pure request
