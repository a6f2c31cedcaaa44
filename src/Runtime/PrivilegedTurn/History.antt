-- ===== src/Runtime/PrivilegedTurn/History.antt =====
-- Sequences of calls of `PrivilegedTurn`, with the approvals and the hand-offs among them.
use simple_ai_agent.Common.{
  ℕ, ◌+◌, ◌≡◌, String, Bool, false, Option, none, some, List, [], ◌∷◌, ◌++◌, Result, ok, err,
  lookup, insert,
}
use simple_ai_agent.Runtime.PrivilegedTurn.{
  PrivilegedClaim, PendingPrivilege, Decision, pending, accepted, handed_off, PrivilegedTurn,
  Denied, invalidate, arm, revoke, is_decision, is_absent, submit_id, pending_requests, decide,
  look, require_accepted, enter_turn, leave_turn, claim, submit,
}

-- A call, with the context of the caller and the readings of the clocks.
pub data TurnCall : Type 0 where
  arms : String → ℕ → TurnCall
  revokes : TurnCall
  enters : String → ℕ → ℕ → TurnCall
  leaves : TurnCall
  claims_one : Option String → String → ℕ → ℕ → TurnCall
  submits : Option String → PrivilegedClaim → Option String → ℕ → TurnCall
  lists : ℕ → TurnCall
  decides : String → Bool → ℕ → TurnCall
  looks : PendingPrivilege → ℕ → TurnCall
  requires : Option String → PendingPrivilege → ℕ → TurnCall

-- What a call says of a request: that the user accepted it, or that it was handed off.
pub data Entry : Type 0 where
  approval : String → Entry
  handoff : String → Entry

unfoldable pub approval_of : String → Result Denied Decision → List Entry
approval_of id (ok accepted) = approval id ∷ []
approval_of id _ = []

unfoldable pub handoff_of : String → Result Denied (Unit {0}) → List Entry
handoff_of id (ok u) = handoff id ∷ []
handoff_of id (err e) = []

module _ (uuid4 : ℕ → String) (sha256 : String → String) where
  unfoldable pub perform : TurnCall → PrivilegedTurn → List Entry × PrivilegedTurn
  unfolding arm revoke enter_turn leave_turn claim submit pending_requests decide look
      require_accepted approval_of handoff_of
  perform (arms operation now) g = ([], (arm operation now g).1)
  perform revokes g = ([], (revoke g).1)
  perform (enters profile now later) g = ([], (enter_turn uuid4 sha256 profile now later g).1)
  perform leaves g = ([], (leave_turn uuid4 sha256 g).1)
  perform (claims_one context operation now wall) g =
      ([], (claim uuid4 sha256 context operation now wall g).1)
  perform (submits context c details now) g = ([], (submit uuid4 sha256 context c details now g).1)
  perform (lists now) g = ([], (pending_requests now g).1)
  perform (decides id accept now) g = let (r, h) = decide id accept now g in (approval_of id r, h)
  perform (looks request now) g = ([], (look request now g).1)
  perform (requires context request now) g =
      let (r, h) = require_accepted context request now g in (handoff_of request.id r, h)

  -- The entries of a history, in its order, and the state that it leaves.
  unfoldable pub perform_all : List TurnCall → PrivilegedTurn → List Entry × PrivilegedTurn
  unfolding perform
  perform_all [] g = ([], g)
  perform_all (c ∷ cs) g =
      let (entries, h) = perform c g in
      let (later, final) = perform_all cs h in (entries ++ later, final)

  -- What a call changes of the requests and of their decisions.
  pub data Move (g : PrivilegedTurn) : List Entry → PrivilegedTurn → Type 0 where
    stays :
        (h : PrivilegedTurn)
        → h.claims ≡ g.claims
        → h.requests ≡ g.requests
        → h.decisions ≡ g.decisions
        → h.draws ≡ g.draws
        → Move g [] h
    closes :
        (h : PrivilegedTurn)
        → h.claims ≡ g.claims
        → h.requests ≡ g.requests
        → h.decisions ≡ (invalidate g).decisions
        → h.draws ≡ g.draws
        → Move g [] h
    begins :
        (h : PrivilegedTurn)
        → h.claims ≡ []
        → h.requests ≡ []
        → h.decisions ≡ []
        → h.draws ≡ g.draws + 1
        → Move g [] h
    refuses_turn :
        (h : PrivilegedTurn)
        → h.claims ≡ g.claims
        → h.requests ≡ g.requests
        → h.decisions ≡ g.decisions
        → h.draws ≡ g.draws + 1
        → Move g [] h
    makes_claim :
        (h : PrivilegedTurn) (c : PrivilegedClaim)
        → h.claims ≡ insert (uuid4 g.draws) c g.claims
        → h.requests ≡ g.requests
        → h.decisions ≡ g.decisions
        → h.draws ≡ g.draws + 1
        → Move g [] h
    makes_request :
        (h : PrivilegedTurn) (r : PendingPrivilege)
        → r.id ≡ submit_id r.claim
        → is_absent (lookup r.claim.request_id g.claims) ≡ false
        → lookup r.id g.requests ≡ none
        → h.claims ≡ g.claims
        → h.requests ≡ insert r.id r g.requests
        → h.decisions ≡ insert r.id pending g.decisions
        → h.draws ≡ g.draws
        → Move g [] h
    makes_decision :
        (h : PrivilegedTurn) (id : String) (d : Decision)
        → lookup id g.decisions ≡ some pending
        → is_absent (lookup id g.requests) ≡ false
        → h.claims ≡ g.claims
        → h.requests ≡ g.requests
        → h.decisions ≡ insert id d g.decisions
        → is_decision pending (some d) ≡ false
        → h.draws ≡ g.draws
        → Move g (approval_of id (ok d)) h
    hands_off :
        (h : PrivilegedTurn) (id : String)
        → lookup id g.decisions ≡ some accepted
        → is_absent (lookup id g.requests) ≡ false
        → h.claims ≡ g.claims
        → h.requests ≡ g.requests
        → h.decisions ≡ insert id handed_off g.decisions
        → h.draws ≡ g.draws
        → Move g (handoff id ∷ []) h
