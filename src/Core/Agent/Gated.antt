-- ===== src/Core/Agent/Gated.antt =====
-- `Agent.step` of core/agent.py: `_step` in a turn of runtime/privileged_turn.py.
use simple_ai_agent.Common.{
  ℕ, ◌≡◌, refl, String, Bool, true, false, ◌||◌, Option, Option-cases, inl, inr, none, some, List,
  [], ◌∷◌, Result, ok, err, arith, Ensures,
}
use simple_ai_agent.Core.Protocol.{Reader}
use simple_ai_agent.Core.Agent.{Tools, Llm, Agent, Exit}
use simple_ai_agent.Core.Agent.Loop.{step}
use simple_ai_agent.Runtime.PrivilegedTurn.{
  PrivilegedTurn, Denied, not_enabled, arm, revoke, invalidate, enter_turn, leave_turn, claim,
  submit, pending_requests, decide, look, require_accepted,
}
use simple_ai_agent.Runtime.PrivilegedTurn.Status.{armed_operation}
use simple_ai_agent.Runtime.PrivilegedTurn.History.{
  TurnCall, arms, revokes, enters, leaves, claims_one, submits, lists, decides, looks, requires,
  perform, perform_all,
}
use simple_ai_agent.Runtime.PrivilegedTurn.Revoked.{
  IsDisarmed, has_arm, perform_all-Disarmed, over-claim, unarmed-armed_operation,
}

-- A turn of the gate ends, by its own context manager.
unfoldable pub has_leave : List TurnCall → Bool
has_leave [] = false
has_leave (leaves ∷ rest) = true
has_leave (_ ∷ rest) = has_leave rest

module _ (uuid4 : ℕ → String) (sha256 : String → String) where
  -- The end of the `with` block, by what its start returned: only the head agent has a turn.
  unfoldable pub finish_turn : Option String → PrivilegedTurn → PrivilegedTurn
  unfolding leave_turn
  finish_turn none g = g
  finish_turn (some identity) g = (leave_turn uuid4 sha256 g).1

  -- The `with` block, by what the start of the turn gave: an exception leaves the agent as it was.
  -- `during` are the calls that the gate gets while `_step` runs, from tools and from the user.
  unfoldable pub in_turn :
      Reader
      → Llm
      → Tools
      → List TurnCall
      → String
      → Result Denied (Option String)
      → PrivilegedTurn
      → Agent
      → Result Denied Exit × PrivilegedTurn × Agent
  unfolding step perform_all finish_turn
  in_turn reader llm tools during input (err e) g a = (err e, g, a)
  in_turn reader llm tools during input (ok token) g a =
      let (e, b) = step reader llm tools input a in
      (ok e, finish_turn token ((perform_all uuid4 sha256 during g).1), b)

  -- `step` of an agent with a gate, and of the profile that is named.
  unfoldable pub gated_step :
      Reader
      → Llm
      → Tools
      → String
      → ℕ
      → ℕ
      → List TurnCall
      → String
      → PrivilegedTurn
      → Agent
      → Result Denied Exit × PrivilegedTurn × Agent
  unfolding enter_turn in_turn
  gated_step reader llm tools profile now later during input g a =
      let (entered, h) = enter_turn uuid4 sha256 profile now later g in
      in_turn reader llm tools during input entered h a

  -- A turn that runs, with nothing armed after it.
  record IsRunning (g : PrivilegedTurn) : Type 0 where
    identity : String
    runs : g.turn ≡ some identity
    unarmed : g.armed_until ≡ 0

  kept-Running :
      (g h : PrivilegedTurn)
      → IsRunning g
      → h.turn ≡ g.turn
      → h.armed_until ≡ g.armed_until
      → IsRunning h
  kept-Running g h r turn armed = record {
    identity = r.identity;
    runs = ground (arith, turn, r.runs);
    unarmed = ground (arith, armed, r.unarmed);
  }

  perform-Running :
      (c : TurnCall) (g : PrivilegedTurn)
      → has_leave (c ∷ []) ≡ false
      → IsRunning g
      → IsRunning ((perform uuid4 sha256 c g).1)
  unfolding perform has_leave arm revoke enter_turn invalidate look claim submit pending_requests
      decide require_accepted
  perform-Running (arms operation now) g quiet r =
      kept-Running g ((arm operation now g).1) r (ground (arith, r.runs)) (ground (arith, r.runs))
  perform-Running revokes g quiet r = record {
    identity = r.identity;
    runs = r.runs;
    unarmed = refl;
  }
  perform-Running (enters profile now later) g quiet r =
      kept-Running g ((enter_turn uuid4 sha256 profile now later g).1) r (ground (arith, r.runs))
        (ground (arith, r.runs))
  perform-Running leaves g quiet r = ground (arith, quiet)
  perform-Running (claims_one context operation now wall) g quiet r =
      kept-Running g ((claim uuid4 sha256 context operation now wall g).1) r (ground arith)
        (ground arith)
  perform-Running (submits context c details now) g quiet r =
      kept-Running g ((submit uuid4 sha256 context c details now g).1) r (ground arith)
        (ground arith)
  perform-Running (lists now) g quiet r =
      kept-Running g ((pending_requests now g).1) r (ground arith) (ground arith)
  perform-Running (decides id accept now) g quiet r =
      kept-Running g ((decide id accept now g).1) r (ground arith) (ground arith)
  perform-Running (looks request now) g quiet r = r
  perform-Running (requires context request now) g quiet r =
      kept-Running g ((require_accepted context request now g).1) r (ground arith) (ground arith)

  has_leave-cons :
      (c : TurnCall) (cs : List TurnCall) → has_leave (c ∷ cs) ≡ has_leave (c ∷ []) || has_leave cs
  unfolding has_leave
  has_leave-cons (arms operation now) cs = refl
  has_leave-cons revokes cs = refl
  has_leave-cons (enters profile now later) cs = refl
  has_leave-cons leaves cs = refl
  has_leave-cons (claims_one context operation now wall) cs = refl
  has_leave-cons (submits context c details now) cs = refl
  has_leave-cons (lists now) cs = refl
  has_leave-cons (decides id accept now) cs = refl
  has_leave-cons (looks request now) cs = refl
  has_leave-cons (requires context request now) cs = refl

  perform_all-Running :
      (cs : List TurnCall) (g : PrivilegedTurn)
      → has_leave cs ≡ false
      → IsRunning g
      → IsRunning ((perform_all uuid4 sha256 cs g).1)
  unfolding perform_all
  perform_all-Running [] g quiet r = r
  perform_all-Running (c ∷ cs) g quiet r =
      perform_all-Running cs ((perform uuid4 sha256 c g).1)
        (ground (arith, quiet, has_leave-cons c cs))
        (perform-Running c g (ground (arith, quiet, has_leave-cons c cs)) r)

  -- The head agent's turn, once it has begun.
  enter_turn-Running :
      (now later : ℕ) (g : PrivilegedTurn)
      → Ensures
          (λ token h. IsRunning h × ((id : String) × (token ≡ some id)))
          (λ e h. Unit)
          (enter_turn uuid4 sha256 "head" now later g)
  unfolding enter_turn Ensures
  enter_turn-Running now later g = elim (Option-cases g.turn) [
    | inl free ↦
        rw (enter_turn, free)
          (record { identity = uuid4 g.draws; runs = refl; unarmed = refl }, (_, refl))
    | inr (id, busy) ↦ rw (enter_turn, busy) tt
  ]

  leave_turn-Disarmed :
      (g : PrivilegedTurn) → IsRunning g → IsDisarmed ((leave_turn uuid4 sha256 g).1)
  unfolding leave_turn invalidate
  leave_turn-Disarmed g r = record { unarmed = r.unarmed; over = refl }

  in_turn-Disarmed :
      (reader : Reader) (llm : Llm) (tools : Tools) (during : List TurnCall) (input : String)
      (r : Result Denied (Option String) × PrivilegedTurn) (a : Agent) (e : Exit)
      → has_leave during ≡ false
      → Ensures (λ token h. IsRunning h × ((id : String) × (token ≡ some id))) (λ e h. Unit {0}) r
      → (in_turn reader llm tools during input r.0 r.1 a).0 ≡ ok e
      → IsDisarmed ((in_turn reader llm tools during input r.0 r.1 a).1)
  unfolding in_turn Ensures finish_turn
  in_turn-Disarmed reader llm tools during input (err d, g) a e quiet begun h = ground (arith, h)
  in_turn-Disarmed reader llm tools during input (ok none, g) a e quiet (_, (id, token)) h =
      ground (arith, token)
  in_turn-Disarmed reader llm tools during input (ok (some id), g) a e quiet (r, _) h =
      leave_turn-Disarmed ((perform_all uuid4 sha256 during g).1)
        (perform_all-Running during g quiet r)

  -- However a step of the head agent ends, and whatever calls the gate gets in it, other than the end
  -- of a turn: after it, and after any calls that arm no turn, no claim is granted and no operation is
  -- armed.
  pub gated_step-revokes :
      (reader : Reader) (llm : Llm) (tools : Tools) (now later : ℕ) (during : List TurnCall)
      (input : String) (g : PrivilegedTurn) (a : Agent) (e : Exit)
      → has_leave during ≡ false
      → (gated_step reader llm tools "head" now later during input g a).0 ≡ ok e
      → (after : List TurnCall) → has_arm after ≡ false
      → (context : Option String) (operation : String) (time wall : ℕ)
      → let h =
          (perform_all uuid4 sha256 after
            ((gated_step reader llm tools "head" now later during input g a).1)).1 in
        ((claim uuid4 sha256 context operation time wall h).0 ≡ err not_enabled)
        × (armed_operation time h ≡ none)
  unfolding gated_step
  gated_step-revokes reader llm tools now later during input g a e quiet ended after unarmed context
        operation time wall =
      let over =
        in_turn-Disarmed reader llm tools during input (enter_turn uuid4 sha256 "head" now later g)
          a e quiet (enter_turn-Running now later g) ended in
      let still = perform_all-Disarmed uuid4 sha256 after _ unarmed over in
      (
        over-claim uuid4 sha256 _ context operation time wall still.over,
        unarmed-armed_operation uuid4 sha256 _ time still.unarmed,
      )
