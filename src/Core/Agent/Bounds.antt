-- ===== src/Core/Agent/Bounds.antt =====
-- A whole `_step`: its results, its requests and its calls.
use simple_ai_agent.Common.{
  ℕ, zero, suc, ◌+◌, ◌*◌, ◌≤◌, ◌≡◌, ◌≢◌, refl, String, true, Option, none, some, List, [], ◌∷◌,
  ◌++◌, arith, length, Result, ok, err, modify, ◌>>=◌, ◌>>◌, Ensures, Bool-cases, Option-cases, inl,
  inr,
}
use simple_ai_agent.Core.Protocol.{Reader, Kind, ParsedResponse, of_calls, parse}
use simple_ai_agent.Core.Agent.{
  NativeToolCall, Reply, plain, response, Role, words, said, Tools, Llm, Agent, answered, Exit,
  Work,
}
use simple_ai_agent.Core.Agent.Transcript.{IsTranscript, IsAcceptable, Awaiting, Awaiting-append}
use simple_ai_agent.Core.Agent.Change.{
  Added, IsKnown, IsExpected, Change, Change-trans, Change-weaken, Turned, Turned-weaken,
  Turned-bind,
}
use simple_ai_agent.Core.Agent.Turn.{
  still, remind-Turned, check_client-Turned, ask-Turned, retry_if_empty-Turned,
}
use simple_ai_agent.Core.Agent.Calls.{IsPaired, normalize-length, use_tools-Turned}
use simple_ai_agent.Core.Agent.Reading.{
  is_nil, text_or, Interpreted, parsed_text, normalize, interpret_calls, interpret,
  is_effectively_empty,
}
use simple_ai_agent.Core.Agent.Loop.{
  stop, use_tools, retry_if_invalid, respond, react, react_to, remind, check_client, ask, run_turn,
  turns, begin, step,
}

-- A response that the parser refused counts as empty.
invalid-is_effectively_empty :
    (p : ParsedResponse) → p.kind ≡ Kind.invalid → is_effectively_empty p ≡ true
unfolding is_effectively_empty
invalid-is_effectively_empty p h = rw h refl

module _ (reader : Reader) (llm : Llm) (tools : Tools) where
  unfoldable pub Pairs : Option Interpreted → Type 0
  Pairs none = Unit
  Pairs (some i) = IsPaired reader llm tools i

  parsed-Pairs : (s : String) (o : Option ParsedResponse) → Pairs (parsed_text reader s o)
  unfolding parsed_text Pairs IsPaired is_nil
  parsed-Pairs s none = tt
  parsed-Pairs s (some r) = λ h. ground (arith, h)

  interpret_calls-Pairs :
      (s : String) (calls : List NativeToolCall) → Pairs (interpret_calls reader s calls)
  unfolding interpret_calls Pairs IsPaired is_nil of_calls
  interpret_calls-Pairs s [] = parsed-Pairs s (parse reader s)
  interpret_calls-Pairs s (tc ∷ rest) = elim (Option-cases (normalize reader (tc ∷ rest))) [
    | inl fails ↦ rw (interpret_calls, fails) tt
    | inr (calls, fine) ↦
        rw (interpret_calls, fine) (λ _. normalize-length reader llm tools (tc ∷ rest) calls fine)
  ]

  pub interpret-Pairs : (reply : Reply) → Pairs (interpret reader reply)
  unfolding interpret Pairs IsPaired is_nil
  interpret-Pairs (plain s) = parsed-Pairs s (parse reader s)
  interpret-Pairs (response content calls) = interpret_calls-Pairs (text_or content "") calls

  respond_to :
      (i : Interpreted) (kind : Kind) (a : Agent)
      → kind ≢ Kind.invalid
      → IsPaired reader llm tools i
      → Turned tools 0 10 a (
          (elim kind as (λ _. Work (Unit {0})) [
            | Kind.invalid ↦ retry_if_invalid reader llm tools i
            | Kind.tool ↦ modify (λ b. record b { retry_count = 0 }) >> use_tools reader llm tools i
            | Kind.final ↦
                modify (λ b. record b {
                  retry_count = 0;
                  pending = [];
                  messages = b.messages ++ said Role.assistant (words i.reply) ∷ [];
                })
                >> stop (answered i.parsed.final)
          ])
            a)
  unfolding Turned Ensures stop IsExpected IsTranscript Awaiting
  respond_to i Kind.invalid a valid paired = absurd (valid refl)
  respond_to i Kind.tool a valid paired =
      Turned-bind tools 0 0 0 10 a (modify (λ b. record b { retry_count = 0 }))
        (λ _. use_tools reader llm tools i) (still tools a _ refl refl (λ start. start))
        (λ v b c. use_tools-Turned reader llm tools i b paired)
  respond_to i Kind.final a valid paired = (
    Change-weaken tools (omega arith) (omega arith)
        (still tools a _ refl refl (λ start. Awaiting-append [] a.messages _ start tt)),
    tt,
  )

  pub react-Turned :
      (i : Interpreted) (a : Agent)
      → IsPaired reader llm tools i
      → Turned tools 0 10 a (react reader llm tools i a)
  unfolding react respond Turned Ensures
  react-Turned i a paired = elim (Bool-cases (is_effectively_empty i.parsed)) [
    | inl empty ↦
        rw (react, empty)
          (Turned-weaken tools 0 0 0 10 a _ (omega arith) (omega arith)
            (retry_if_empty-Turned tools reader llm a))
    | inr full ↦
        rw (react, full)
          (Turned-bind tools 0 0 0 10 a (modify (λ b. record b { empty_retry_count = 0 }))
            (λ _. respond reader llm tools i) (still tools a _ refl refl (λ start. start))
            (λ v b c.
              respond_to i i.parsed.kind b
                (λ refused. ground (arith, full, invalid-is_effectively_empty i.parsed refused))
                paired))
  ]

  -- What some turns do, and how they end.
  Ends : ℕ → Agent → Exit × Agent → Type 0
  unfolding IsExpected
  Ends left a (e, b) = Change tools left (left * 10) a b × IsExpected e

  interpreted-Turned :
      (o : Option Interpreted) (a : Agent)
      → Pairs o
      → Turned tools 0 10 a (react_to reader llm tools o a)
  unfolding react_to Pairs Turned Ensures IsExpected
  interpreted-Turned none a h = (
    Change-weaken tools (omega arith) (omega arith) (still tools a a refl refl (λ start. start)),
    tt,
  )
  interpreted-Turned (some i) a paired = react-Turned i a paired

  run_turn-Turned : (n : ℕ) (a : Agent) → Turned tools 1 10 a (run_turn reader llm tools n a)
  unfolding run_turn
  run_turn-Turned n a =
      let go : Reply → Work (Unit {0}) =
        λ reply. react_to reader llm tools (interpret reader reply) in
      Turned-bind tools 0 1 0 10 a (remind reader llm tools n)
        (λ _. check_client reader llm tools >> (ask reader llm tools >>= go))
        (remind-Turned tools reader llm n a)
        (λ v b c.
          Turned-bind tools 0 1 0 10 b (check_client reader llm tools)
            (λ _. ask reader llm tools >>= go) (check_client-Turned tools reader llm b)
            (λ w d e.
              Turned-bind tools 1 0 0 10 d (ask reader llm tools) go (ask-Turned tools reader llm d)
                (λ reply f g.
                  interpreted-Turned (interpret reader reply) f (interpret-Pairs reply))))

  -- The turns after one that gave `r`.
  follow :
      (left n : ℕ) (a : Agent) (r : Result Exit (Unit {0}) × Agent)
      → Turned tools 1 10 a r
      → ((b : Agent) → Ends left b (turns reader llm tools left n b))
      → Ends (suc left) a (elim r.0 as (λ _. Exit × Agent) [
        | ok u ↦ turns reader llm tools left n r.1
        | err e ↦ (e, r.1)
      ])
  unfolding Turned Ensures Ends
  follow left n a (ok u, b) first rest = (
    Change-weaken tools (omega arith) (omega arith) (Change-trans tools first ((rest b).0)),
    (rest b).1,
  )
  follow left n a (err e, b) first rest =
      (Change-weaken tools (omega arith) (omega arith) (first.0), first.1)

  turns-Ends : (left n : ℕ) (a : Agent) → Ends left a (turns reader llm tools left n a)
  unfolding turns IsExpected Ends
  turns-Ends zero n a = (still tools a a refl refl (λ start. start), tt)
  turns-Ends (suc left) n a =
      follow left (n + 1) a (run_turn reader llm tools n a) (run_turn-Turned n a)
        (turns-Ends left (n + 1))

  step_lem :
      (input : String) (a : Agent)
      → (Change tools 10 100 a ((step reader llm tools input a).1))
        × IsExpected ((step reader llm tools input a).0)
  unfolding step begin Ends IsTranscript Awaiting
  step_lem input a =
      let run = turns-Ends 10 1 (begin input a) in
      (
        Change-trans tools
            (still tools a (begin input a) refl refl
              (λ start. Awaiting-append [] a.messages _ start tt))
            (run.0),
        run.1,
      )

  -- One `_step` sends at most ten requests and calls at most a hundred tools, each of which is
  -- registered.
  pub step-bounds :
      (input : String) (a : Agent)
      → (length ((step reader llm tools input a).1).requests ≤ length a.requests + 10)
        × Added (IsKnown tools) 100 a.executed ((step reader llm tools input a).1).executed
  step-bounds input a = let h = (step_lem input a).0 in (h.few, h.ran)

  -- If each message that asks for calls is followed by their answers, in order and alone, then
  -- `_step` adds at most ten requests, each of them that has messages has such messages, and so has
  -- the agent in the end.
  pub step-IsTranscript :
      (input : String) (a : Agent)
      → IsTranscript a.messages
      → Added IsAcceptable 10 a.requests ((step reader llm tools input a).1).requests
        × IsTranscript ((step reader llm tools input a).1).messages
  step-IsTranscript input a start = ((step_lem input a).0).asked start

  -- `_step` never ends with the error of an invalid response, nor with that of an unexpected state.
  pub step-IsExpected :
      (input : String) (a : Agent) → IsExpected ((step reader llm tools input a).0)
  step-IsExpected input a = (step_lem input a).1
