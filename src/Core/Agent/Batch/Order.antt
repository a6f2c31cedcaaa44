-- ===== src/Core/Agent/Batch/Order.antt =====
-- The records of a batch, against the rule that says which calls run.
use simple_ai_agent.Common.{
  ℕ, zero, suc, ◌+◌, ◌≤◌, ◌≡◌, refl, sym, ap, subst, String, Bool, true, false, ◌||◌, List, [], ◌∷◌,
  ◌++◌, arith, length, lookup, Bool-cases, Option-cases, inl, inr,
}
use simple_ai_agent.Core.Json.{Members}
use simple_ai_agent.Core.Protocol.{ToolCall}
use simple_ai_agent.Core.Agent.{
  Status, success, failed, skipped, BatchToolRecord, Outcome, returned, type_error, raised, Tools,
  Agent, max_batch_tool_calls,
}
use simple_ai_agent.Core.Agent.Batch.{
  failure, observe, missing_tool, settle, execute_one_tool_call, record_of, skipped_record,
  skip_rest, is_failed, execute_from, execute_tool_batch, take_calls, drop_calls, excess_records,
  with_total, execute_limited,
}

unfoldable pub is_skipped : Status → Bool
is_skipped skipped = true
is_skipped success = false
is_skipped failed = false

-- No more calls may run: an earlier one failed, or the batch is full.
unfoldable pub is_closed : Bool → ℕ → Bool
is_closed aborted zero = true
is_closed aborted (suc left) = aborted

unfoldable pub pred : ℕ → ℕ
pred zero = zero
pred (suc n) = n

-- One record for each call, in the order of the calls, with its place: a call is skipped exactly if
-- an earlier one failed, or the batch was full.
unfoldable pub IsBatch : Bool → ℕ → ℕ → ℕ → List ToolCall → List BatchToolRecord → Type 0
unfolding is_skipped is_closed is_failed pred
IsBatch aborted left i total [] [] = Unit
IsBatch aborted left i total (call ∷ calls) (r ∷ records) =
    (r.index ≡ i)
    × (r.total ≡ total)
    × (r.action ≡ call.action)
    × (r.tool_input ≡ call.tool_input)
    × (is_skipped r.status ≡ is_closed aborted left)
    × IsBatch (aborted || is_failed r.status) (pred left) (i + 1) total calls records
IsBatch aborted left i total _ _ = ⊥

pub IsBatch-length :
    (aborted : Bool) (left i total : ℕ) (calls : List ToolCall) (records : List BatchToolRecord)
    → IsBatch aborted left i total calls records
    → length records ≡ length calls
unfolding IsBatch
IsBatch-length aborted left i total [] [] h = refl
IsBatch-length aborted left i total (c ∷ cs) (r ∷ rs) (_, _, _, _, _, h) =
    ap suc (IsBatch-length (aborted || is_failed r.status) (pred left) (i + 1) total cs rs h)
IsBatch-length aborted left i total [] (r ∷ rs) h = absurd h
IsBatch-length aborted left i total (c ∷ cs) [] h = absurd h

or-true : (b : Bool) → (b || true) ≡ true
or-true true = refl
or-true false = refl

is_closed-true : (left : ℕ) → is_closed true left ≡ true
unfolding is_closed
is_closed-true zero = refl
is_closed-true (suc left) = refl

-- After a failure all others are skipped.
skip_rest-IsBatch :
    (left i total : ℕ) (calls : List ToolCall)
    → IsBatch true left i total calls (skip_rest total i calls)
unfolding IsBatch skip_rest skipped_record is_skipped is_failed
skip_rest-IsBatch left i total [] = tt
skip_rest-IsBatch left i total (c ∷ cs) = (
  refl,
  refl,
  refl,
  refl,
  sym (is_closed-true left),
  skip_rest-IsBatch (pred left) (i + 1) total cs,
)

observed : (action : String) (o : Outcome) → is_skipped (observe action o).status ≡ false
unfolding observe failure is_skipped
observed action (returned s) = refl
observed action (type_error s) = refl
observed action (raised s) = refl

module _ (tools : Tools) where
  -- A call that runs is not skipped.
  runs :
      (action : String) (input : Members) (a : Agent)
      → is_skipped ((execute_one_tool_call tools action input a).0).status ≡ false
  unfolding execute_one_tool_call settle missing_tool failure is_skipped
  runs action input a = elim (Option-cases (lookup action tools.registry)) [
    | inl missing ↦ rw (is_skipped, missing) refl
    | inr (spec, found) ↦
        rw (is_skipped, found) (observed action (tools.call (length a.executed) spec input))
  ]

  -- What is executed, if the limit is not reached.
  execute_from-IsBatch :
      (left i total : ℕ) (calls : List ToolCall) (a : Agent)
      → length calls ≤ left
      → IsBatch false left i total calls ((execute_from tools total i calls a).0)
  unfolding IsBatch execute_from record_of
  execute_from-IsBatch left i total [] a fits = tt
  execute_from-IsBatch zero i total (c ∷ cs) a fits = absurd (omega arith)
  execute_from-IsBatch (suc left) i total (c ∷ cs) a fits =
      let e = (execute_one_tool_call tools c.action c.tool_input a).0 in
      let ran = runs c.action c.tool_input a in
      elim (Bool-cases (is_failed e.status)) [
        | inl failing ↦
            rw (IsBatch, failing)
              (
                refl,
                refl,
                refl,
                refl,
                ran,
                subst (λ b. IsBatch (false || b) left (i + 1) total cs (skip_rest total (i + 1) cs))
                    (sym failing) (skip_rest-IsBatch left (i + 1) total cs),
              )
        | inr fine ↦
            rw (IsBatch, fine)
              (
                refl,
                refl,
                refl,
                refl,
                ran,
                subst
                    (λ b. IsBatch (false || b) left (i + 1) total cs (
                      (execute_from tools total (i + 1) cs
                        ((execute_one_tool_call tools c.action c.tool_input a).1)).0))
                    (sym fine)
                    (execute_from-IsBatch left (i + 1) total cs
                      ((execute_one_tool_call tools c.action c.tool_input a).1) (omega arith)),
              )
      ]

  excess_records-IsBatch :
      (aborted : Bool) (i total : ℕ) (calls : List ToolCall)
      → IsBatch aborted 0 i total calls (excess_records tools total i calls)
  unfolding IsBatch excess_records skipped_record is_skipped is_closed is_failed pred
  excess_records-IsBatch aborted i total [] = tt
  excess_records-IsBatch aborted i total (c ∷ cs) =
      (refl, refl, refl, refl, refl, excess_records-IsBatch (aborted || false) (i + 1) total cs)

  -- The calls beyond the limit follow the ones within it.
  with_excess :
      (aborted : Bool) (left i n total m : ℕ) (calls : List ToolCall)
      (records : List BatchToolRecord)
      → m ≡ left + i
      → IsBatch aborted left i n (take_calls left calls) records
      → IsBatch aborted left i total calls
          (with_total total records ++ excess_records tools total m (drop_calls left calls))
  unfolding IsBatch take_calls drop_calls with_total excess_records
  with_excess aborted zero i n total m calls [] from h =
      let here : i ≡ m = omega arith in
      subst (λ j. IsBatch aborted 0 i total calls (excess_records tools total j calls)) here
        (excess_records-IsBatch aborted i total calls)
  with_excess aborted zero i n total m [] (r ∷ rs) from h = absurd h
  with_excess aborted zero i n total m (c ∷ cs) (r ∷ rs) from h = absurd h
  with_excess aborted (suc left) i n total m [] [] from h = tt
  with_excess aborted (suc left) i n total m [] (r ∷ rs) from h = absurd h
  with_excess aborted (suc left) i n total m (c ∷ cs) [] from h = absurd h
  with_excess aborted (suc left) i n total m (c ∷ cs) (r ∷ rs) from (at, _, named, given, ran, h) =
      (
        at,
        refl,
        named,
        given,
        ran,
        with_excess (aborted || is_failed r.status) left (i + 1) n total m cs rs (omega arith) h,
      )

  pub length-take_calls : (n : ℕ) (calls : List ToolCall) → length (take_calls n calls) ≤ n
  unfolding take_calls
  length-take_calls zero calls = omega arith
  length-take_calls (suc n) [] = omega arith
  length-take_calls (suc n) (c ∷ cs) = let h = length-take_calls n cs in omega arith

  -- The calls of a response have one record each, in their order and with their place: a call is
  -- skipped exactly if an earlier one failed or ten came before it.
  pub execute_limited-IsBatch :
      (calls : List ToolCall) (a : Agent)
      → IsBatch false max_batch_tool_calls 1
          (length calls)
          calls
          ((execute_limited tools calls a).0)
  unfolding execute_limited execute_tool_batch
  execute_limited-IsBatch calls a =
      let first = take_calls max_batch_tool_calls calls in
      with_excess false max_batch_tool_calls 1 (length first) (length calls)
        (max_batch_tool_calls + 1) calls ((execute_tool_batch tools first a).0) refl
        (execute_from-IsBatch max_batch_tool_calls 1 (length first) first a
          (length-take_calls max_batch_tool_calls calls))
