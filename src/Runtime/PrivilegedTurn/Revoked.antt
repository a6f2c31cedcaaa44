-- ===== src/Runtime/PrivilegedTurn/Revoked.antt =====
-- What a revocation ends.
use simple_ai_agent.Common.{
  ℕ, none, if◌then◌else◌, ◌≡◌, ◌≢◌, refl, String, Bool, true, false, ◌||◌, Option, List, [], ◌∷◌,
  ok, err, arith, lookup, Bool-cases, Option-cases, inl, inr,
}
use simple_ai_agent.Runtime.PrivilegedTurn.{
  PrivilegedClaim, PendingPrivilege, is_absent, accepted, pending, PrivilegedTurn, not_enabled,
  not_accepted, invalidate, revoke, is_live, is_decision, is_refused, claim_refused,
  pending_requests, decide, look, require_accepted, enter_turn, leave_turn, claim, submit,
}
use simple_ai_agent.Runtime.PrivilegedTurn.History.{
  TurnCall, arms, revokes, enters, leaves, claims_one, submits, lists, decides, looks, requires,
  perform, perform_all,
}
use simple_ai_agent.Runtime.PrivilegedTurn.Status.{armed_operation, status}

-- Whether some call arms the next turn.
unfoldable pub has_arm : List TurnCall → Bool
has_arm [] = false
has_arm (arms operation now ∷ rest) = true
has_arm (_ ∷ rest) = has_arm rest

-- No turn is armed, and the turn that may run is over.
pub record IsDisarmed (g : PrivilegedTurn) : Type 0 where
  pub unarmed : g.armed_until ≡ 0
  pub over : g.deadline ≡ 0

module _ (uuid4 : ℕ → String) (sha256 : String → String) where
  kept :
      (g h : PrivilegedTurn)
      → IsDisarmed g
      → h.armed_until ≡ g.armed_until
      → h.deadline ≡ g.deadline
      → IsDisarmed h
  kept g h d armed deadline = record {
    unarmed = ground (arith, armed, d.unarmed);
    over = ground (arith, deadline, d.over);
  }

  enter_turn-Disarmed :
      (profile : String) (now later : ℕ) (g : PrivilegedTurn)
      → IsDisarmed g
      → IsDisarmed ((enter_turn uuid4 sha256 profile now later g).1)
  unfolding enter_turn
  enter_turn-Disarmed profile now later g d = record {
    unarmed = ground (arith, d.unarmed);
    over = ground (arith, d.unarmed, d.over);
  }

  perform-Disarmed :
      (c : TurnCall) (g : PrivilegedTurn)
      → has_arm (c ∷ []) ≡ false
      → IsDisarmed g
      → IsDisarmed ((perform uuid4 sha256 c g).1)
  unfolding perform has_arm revoke leave_turn invalidate look claim submit pending_requests decide
      require_accepted
  perform-Disarmed (arms operation now) g quiet d = ground (arith, quiet)
  perform-Disarmed revokes g quiet d = record { unarmed = refl; over = refl }
  perform-Disarmed (enters profile now later) g quiet d = enter_turn-Disarmed profile now later g d
  perform-Disarmed leaves g quiet d = record { unarmed = d.unarmed; over = refl }
  perform-Disarmed (claims_one context operation now wall) g quiet d =
      kept g ((claim uuid4 sha256 context operation now wall g).1) d (ground arith) (ground arith)
  perform-Disarmed (submits context c details now) g quiet d =
      kept g ((submit uuid4 sha256 context c details now g).1) d (ground arith) (ground arith)
  perform-Disarmed (lists now) g quiet d =
      kept g ((pending_requests now g).1) d (ground arith) (ground arith)
  perform-Disarmed (decides id accept now) g quiet d =
      kept g ((decide id accept now g).1) d (ground arith) (ground arith)
  perform-Disarmed (looks request now) g quiet d = d
  perform-Disarmed (requires context request now) g quiet d =
      kept g ((require_accepted context request now g).1) d (ground arith) (ground arith)

  has_arm-cons :
      (c : TurnCall) (cs : List TurnCall) → has_arm (c ∷ cs) ≡ has_arm (c ∷ []) || has_arm cs
  unfolding has_arm
  has_arm-cons (arms operation now) cs = refl
  has_arm-cons revokes cs = refl
  has_arm-cons (enters profile now later) cs = refl
  has_arm-cons leaves cs = refl
  has_arm-cons (claims_one context operation now wall) cs = refl
  has_arm-cons (submits context c details now) cs = refl
  has_arm-cons (lists now) cs = refl
  has_arm-cons (decides id accept now) cs = refl
  has_arm-cons (looks request now) cs = refl
  has_arm-cons (requires context request now) cs = refl

  pub perform_all-Disarmed :
      (cs : List TurnCall) (g : PrivilegedTurn)
      → has_arm cs ≡ false
      → IsDisarmed g
      → IsDisarmed ((perform_all uuid4 sha256 cs g).1)
  unfolding perform_all
  perform_all-Disarmed [] g quiet d = d
  perform_all-Disarmed (c ∷ cs) g quiet d =
      perform_all-Disarmed cs ((perform uuid4 sha256 c g).1)
        (ground (arith, quiet, has_arm-cons c cs))
        (perform-Disarmed c g (ground (arith, quiet, has_arm-cons c cs)) d)

  pub over-claim :
      (g : PrivilegedTurn) (context : Option String) (operation : String) (now wall : ℕ)
      → g.deadline ≡ 0
      → (claim uuid4 sha256 context operation now wall g).0 ≡ err not_enabled
  unfolding claim claim_refused
  over-claim g context operation now wall over = ground (arith, over)

  over-is_live :
      (g : PrivilegedTurn) (c : PrivilegedClaim) (now : ℕ)
      → g.deadline ≡ 0
      → is_live c now g ≡ false
  unfolding is_live
  over-is_live g c now over = ground (arith, over)

  over-decide :
      (g : PrivilegedTurn) (id : String) (accept : Bool) (now : ℕ)
      → g.deadline ≡ 0
      → (decide id accept now g).0 ≢ ok accepted
  unfolding decide
  over-decide g id accept now over = elim (Option-cases (lookup id g.requests)) [
    | inl missing ↦ rw missing (λ h. ground (arith, h))
    | inr (request, there) ↦ elim (Bool-cases (is_decision pending (lookup id g.decisions))) [
      | inr settled ↦ rw (there, settled) (λ h. ground (arith, h))
      | inl still ↦
          rw (there, still, over-is_live g request.claim now over) (λ h. ground (arith, h))
    ]
  ]

  pub unarmed-armed_operation :
      (g : PrivilegedTurn) (now : ℕ) → g.armed_until ≡ 0 → armed_operation now g ≡ none
  unfolding armed_operation
  unarmed-armed_operation g now unarmed = ground (arith, unarmed)

  over-status :
      (g : PrivilegedTurn) (now : ℕ)
      → IsDisarmed g
      → status now g ≡ (if is_absent g.turn then "disabled" else "expired")
  unfolding status
  over-status g now d = ground (arith, d.unarmed, d.over)

  over-require_accepted :
      (g : PrivilegedTurn) (context : Option String) (request : PendingPrivilege) (now : ℕ)
      → g.deadline ≡ 0
      → (require_accepted context request now g).0 ≡ err not_accepted
  unfolding require_accepted is_refused is_live
  over-require_accepted g context request now over = ground (arith, over)

  -- After a revocation, and any calls that arm no turn: no claim is granted, no decision accepts a
  -- request, and no request is handed off, whatever the context and the time; no operation is
  -- shown as armed, and the status is that of a turn that expired, or of no turn.
  pub revoke-ends :
      (g : PrivilegedTurn) (calls : List TurnCall) (context : Option String) (operation id : String)
      (request : PendingPrivilege) (accept : Bool) (now wall : ℕ)
      → has_arm calls ≡ false
      → (let final = (perform_all uuid4 sha256 calls ((revoke g).1)).1 in
          ((claim uuid4 sha256 context operation now wall final).0 ≡ err not_enabled)
          × ((decide id accept now final).0 ≢ ok accepted)
          × ((require_accepted context request now final).0 ≡ err not_accepted)
          × (armed_operation now final ≡ none)
          × (status now final ≡ (if is_absent final.turn then "disabled" else "expired")))
  unfolding revoke invalidate
  revoke-ends g calls context operation id request accept now wall quiet =
      let d =
        perform_all-Disarmed calls ((revoke g).1) quiet (record { unarmed = refl; over = refl }) in
      let final = (perform_all uuid4 sha256 calls ((revoke g).1)).1 in
      (
        over-claim final context operation now wall d.over,
        over-decide final id accept now d.over,
        over-require_accepted final context request now d.over,
        unarmed-armed_operation final now d.unarmed,
        over-status final now d,
      )
