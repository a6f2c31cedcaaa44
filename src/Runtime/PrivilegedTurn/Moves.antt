-- ===== src/Runtime/PrivilegedTurn/Moves.antt =====
-- Each call of `PrivilegedTurn` is one of the moves.
use Prim.Native.String.{len}
use simple_ai_agent.Common.{
  ℕ, ◌+◌, ◌-◌, ◌≡◌, refl, ap, String, Bool, true, false, Option, none, some, List, [], ◌==◌, arith,
  ltb, leb, lookup, inl, inr, Bool-cases, Option-cases,
}
use simple_ai_agent.Runtime.PrivilegedTurn.{
  PrivilegedClaim, PendingPrivilege, Decision, pending, accepted, rejected, expired, handed_off,
  PrivilegedTurn, invalidate, arm, revoke, is_live, is_decision, is_refused, submit_refused,
  claim_refused, is_request, is_absent, submit_id, pending_requests, decide, is_claim, look,
  require_accepted, enter_turn, leave_turn, claim, submit,
}
use simple_ai_agent.Runtime.PrivilegedTurn.History.{
  Entry, TurnCall, arms, revokes, enters, leaves, claims_one, submits, lists, decides, looks,
  requires, perform, approval_of, handoff_of, Move, stays, closes, begins, refuses_turn,
  makes_claim, makes_request, makes_decision, hands_off,
}

accepted_found : (o : Option Decision) → is_decision accepted o ≡ true → o ≡ some accepted
unfolding is_decision
accepted_found none h = ground (arith, h)
accepted_found (some pending) h = ground (arith, h)
accepted_found (some accepted) h = refl
accepted_found (some rejected) h = ground (arith, h)
accepted_found (some expired) h = ground (arith, h)
accepted_found (some handed_off) h = ground (arith, h)

pending_found : (o : Option Decision) → is_decision pending o ≡ true → o ≡ some pending
unfolding is_decision
pending_found none h = ground (arith, h)
pending_found (some pending) h = refl
pending_found (some accepted) h = ground (arith, h)
pending_found (some rejected) h = ground (arith, h)
pending_found (some expired) h = ground (arith, h)
pending_found (some handed_off) h = ground (arith, h)

request_found :
    (request : PendingPrivilege) (o : Option PendingPrivilege)
    → is_request request o ≡ true
    → is_absent o ≡ false
unfolding is_request is_absent
request_found request none h = ground (arith, h)
request_found request (some r) h = refl

claim_found :
    (c : PrivilegedClaim) (o : Option PrivilegedClaim) → is_claim c o ≡ true → is_absent o ≡ false
unfolding is_claim is_absent
claim_found c none h = ground (arith, h)
claim_found c (some d) h = refl

absent_none : {A : Type 0} (o : Option A) → is_absent o ≡ true → o ≡ none
unfolding is_absent
absent_none none h = refl
absent_none (some a) h = ground (arith, h)

module _ (uuid4 : ℕ → String) (sha256 : String → String) where
  abbrev Moved : PrivilegedTurn → List Entry × PrivilegedTurn → Type 0
  Moved g r = Move uuid4 sha256 g (r.0) (r.1)

  arm-Move :
      (operation : String) (now : ℕ) (g : PrivilegedTurn) → Moved g ([], (arm operation now g).1)
  unfolding arm
  arm-Move operation now g =
      stays ((arm operation now g).1) (ground arith) (ground arith) (ground arith) (ground arith)

  enter_turn-Move :
      (profile : String) (now later : ℕ) (g : PrivilegedTurn)
      → Moved g ([], (enter_turn uuid4 sha256 profile now later g).1)
  unfolding enter_turn
  enter_turn-Move profile now later g = elim (Bool-cases (profile == "head")) [
    | inr other ↦ rw other (stays g refl refl refl refl)
    | inl head ↦ elim (Bool-cases (is_absent g.turn)) [
      | inr busy ↦ rw (head, busy) (refuses_turn _ refl refl refl refl)
      | inl free ↦ rw (head, free) (begins _ refl refl refl refl)
    ]
  ]

  claim-Move :
      (context : Option String) (operation : String) (now wall : ℕ) (g : PrivilegedTurn)
      → Moved g ([], (claim uuid4 sha256 context operation now wall g).1)
  unfolding claim
  claim-Move context operation now wall g =
      let made : PrivilegedClaim = record {
        request_id = uuid4 g.draws;
        deadline_unix = wall + g.deadline - now;
        operation = operation;
      } in
      elim (Bool-cases (claim_refused uuid4 sha256 context operation now g)) [
        | inl bad ↦ rw bad (stays g refl refl refl refl)
        | inr good ↦
            rw good (makes_claim _ made (ground arith) (ground arith) (ground arith) (ground arith))
      ]

  pending_requests-Move : (now : ℕ) (g : PrivilegedTurn) → Moved g ([], (pending_requests now g).1)
  unfolding pending_requests invalidate
  pending_requests-Move now g = elim (Bool-cases (leb g.deadline now)) [
    | inl late ↦ rw late (closes _ refl refl refl refl)
    | inr early ↦ rw early (stays g refl refl refl refl)
  ]

  require_accepted-Move :
      (context : Option String) (request : PendingPrivilege) (now : ℕ) (g : PrivilegedTurn)
      → (let (r, h) = require_accepted context request now g in
          Moved g (handoff_of request.id r, h))
  unfolding require_accepted handoff_of is_refused
  require_accepted-Move context request now g =
      elim (Bool-cases (is_refused context request now g)) [
        | inl bad ↦ rw bad (stays g refl refl refl refl)
        | inr good ↦ rw good (
            hands_off _ request.id
              (accepted_found (lookup request.id g.decisions) (ground (arith, good)))
              (request_found request (lookup request.id g.requests) (ground (arith, good))) refl
              refl refl refl)
      ]

  decide-Move :
      (id : String) (accept : Bool) (now : ℕ) (g : PrivilegedTurn)
      → (let (r, h) = decide id accept now g in Moved g (approval_of id r, h))
  unfolding decide is_absent approval_of is_decision
  decide-Move id accept now g = elim (Option-cases (lookup id g.requests)) [
    | inl none_there ↦ rw none_there (stays g refl refl refl refl)
    | inr (request, there) ↦ elim (Bool-cases (is_decision pending (lookup id g.decisions))) [
      | inr over ↦ rw (there, over) (stays g refl refl refl refl)
      | inl still ↦
          rw (there, still)
            (makes_decision _ id _ (pending_found (lookup id g.decisions) still)
              (ap is_absent there) refl refl refl (ground arith) refl)
    ]
  ]

  submit-Move :
      (context : Option String) (c : PrivilegedClaim) (details : Option String) (now : ℕ)
      (g : PrivilegedTurn)
      → Moved g ([], (submit uuid4 sha256 context c details now g).1)
  unfolding submit submit_refused is_live
  submit-Move context c none now g = stays g refl refl refl refl
  submit-Move context c (some review) now g =
      let request : PendingPrivilege = record {
        id = submit_id c;
        claim = c;
        review_json = review;
        review_sha256 = sha256 review;
      } in
      elim (Bool-cases (ltb 65_536 (len review))) [
        | inl large ↦ rw large (stays g refl refl refl refl)
        | inr small ↦ elim (Bool-cases (submit_refused uuid4 sha256 context request now g)) [
          | inl bad ↦ rw (small, bad) (stays g refl refl refl refl)
          | inr good ↦
              rw (small, good)
                (makes_request _ request refl
                  (claim_found c (lookup c.request_id g.claims) (ground (arith, good)))
                  (absent_none (lookup (submit_id c) g.requests) (ground (arith, good))) refl refl
                  refl refl)
        ]
      ]

  pub perform-Move : (c : TurnCall) (g : PrivilegedTurn) → Moved g (perform uuid4 sha256 c g)
  unfolding perform revoke leave_turn invalidate look
  perform-Move (arms operation now) g = arm-Move operation now g
  perform-Move revokes g = closes _ refl refl refl refl
  perform-Move (enters profile now later) g = enter_turn-Move profile now later g
  perform-Move leaves g = closes _ refl refl refl refl
  perform-Move (claims_one context operation now wall) g = claim-Move context operation now wall g
  perform-Move (submits context c details now) g = submit-Move context c details now g
  perform-Move (lists now) g = pending_requests-Move now g
  perform-Move (decides id accept now) g = decide-Move id accept now g
  perform-Move (looks request now) g = stays g refl refl refl refl
  perform-Move (requires context request now) g = require_accepted-Move context request now g
