-- ===== src/Core/Agent/Batch/Ran.antt =====
-- What the execution of a batch does to the agent.
use simple_ai_agent.Common.{
  ℕ, ◌+◌, ◌≤◌, ◌≡◌, refl, sym, ◌∙◌, String, true, ◌==◌, eq_iff, Option, none, some, List, [], ◌∷◌,
  arith, length, lookup, Bool-cases, Option-cases, inl, inr,
}
use simple_ai_agent.Core.Json.{Members}
use simple_ai_agent.Core.Protocol.{ToolCall}
use simple_ai_agent.Core.Registry.{ToolSpec, ToolRegistry, names, has_tool}
use simple_ai_agent.Core.Agent.{Tools, Agent, max_batch_tool_calls}
use simple_ai_agent.Core.Agent.Batch.{
  Execution, observe, missing_tool, settle, complete_audit, execute_one_tool_call, is_failed,
  execute_from, execute_tool_batch, take_calls, execute_limited,
}
use simple_ai_agent.Core.Agent.Batch.Order.{length-take_calls}
use simple_ai_agent.Core.Agent.Change.{
  Added, Added-none, Added-one, Added-trans, Added-weaken, IsKnown,
}

lookup-has_tool :
    (name : String) (registry : ToolRegistry) (spec : ToolSpec)
    → lookup name registry ≡ some spec
    → has_tool registry name ≡ true
unfolding lookup has_tool names
lookup-has_tool name [] spec h = ground arith
lookup-has_tool name (entry ∷ rest) spec h = elim (Bool-cases (name == entry.0)) [
  | inl same ↦
      let found : (entry.0 == name) ≡ true =
        (eq_iff (entry.0) name).1 (sym ((eq_iff name (entry.0)).0 same)) in
      ground (arith, found)
  | inr other ↦
      let rest_has = lookup-has_tool name rest spec (ground (arith, h, other)) in
      grind (arith, rest_has)
]

module _ (tools : Tools) where
  -- Only registered tools are called; the messages and the requests stay as they are.
  pub record Ran (x : ℕ) (a b : Agent) : Type 0 where
    pub ran : Added (IsKnown tools) x a.executed b.executed
    pub messages : b.messages ≡ a.messages
    pub requests : b.requests ≡ a.requests

  Ran-trans : {x y : ℕ} {a b c : Agent} → Ran x a b → Ran y b c → Ran (x + y) a c
  Ran-trans h k = record {
    ran = Added-trans (IsKnown tools) h.ran k.ran;
    messages = k.messages ∙ h.messages;
    requests = k.requests ∙ h.requests;
  }

  Ran-weaken : {x y : ℕ} {a b : Agent} → x ≤ y → Ran x a b → Ran y a b
  Ran-weaken le h = record {
    ran = Added-weaken (IsKnown tools) le h.ran;
    messages = h.messages;
    requests = h.requests;
  }

  settle-Ran :
      (x : ℕ) (id : Option String) (e : Execution) (a b : Agent)
      → Ran x a b
      → Ran x a ((settle id e b).1)
  unfolding settle complete_audit
  settle-Ran x none e a b h = h
  settle-Ran x (some id) e a b h = record {
    ran = h.ran;
    messages = h.messages;
    requests = h.requests;
  }

  execute_one-Ran :
      (action : String) (input : Members) (a : Agent)
      → Ran 1 a ((execute_one_tool_call tools action input a).1)
  unfolding execute_one_tool_call IsKnown
  execute_one-Ran action input a =
      let id = tools.start_audit a.audit_starts in
      elim (Option-cases (lookup action tools.registry)) [
        | inl missing ↦
            rw (execute_one_tool_call, missing)
              (settle-Ran 1 id (missing_tool tools action) a _ record {
                ran =
                    Added-weaken (IsKnown tools) (omega arith)
                      (Added-none (IsKnown tools) a.executed);
                messages = refl;
                requests = refl;
              })
        | inr (spec, found) ↦
            rw (execute_one_tool_call, found)
              (settle-Ran 1 id (observe action (tools.call (length a.executed) spec input)) a _
                record {
                  ran =
                      Added-one (IsKnown tools) a.executed _
                        (lookup-has_tool action tools.registry spec found);
                  messages = refl;
                  requests = refl;
                })
      ]

  execute_from-Ran :
      (total i : ℕ) (calls : List ToolCall) (a : Agent)
      → Ran (length calls) a ((execute_from tools total i calls a).1)
  unfolding execute_from
  execute_from-Ran total i [] a = record {
    ran = Added-none (IsKnown tools) a.executed;
    messages = refl;
    requests = refl;
  }
  execute_from-Ran total i (c ∷ cs) a =
      let first = execute_one-Ran c.action c.tool_input a in
      let b = (execute_one_tool_call tools c.action c.tool_input a).1 in
      elim (Bool-cases
        (is_failed ((execute_one_tool_call tools c.action c.tool_input a).0).status)) [
          | inl failing ↦ rw failing (Ran-weaken (omega arith) first)
          | inr fine ↦
              rw fine
                (Ran-weaken (omega arith) (Ran-trans first (execute_from-Ran total (i + 1) cs b)))
        ]

  -- A batch calls ten tools at most.
  pub execute_limited-Ran :
      (calls : List ToolCall) (a : Agent)
      → Ran max_batch_tool_calls a ((execute_limited tools calls a).1)
  unfolding execute_limited execute_tool_batch
  execute_limited-Ran calls a =
      let first = take_calls max_batch_tool_calls calls in
      Ran-weaken (length-take_calls tools max_batch_tool_calls calls)
        (execute_from-Ran (length first) 1 first a)
