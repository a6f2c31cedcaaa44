-- ===== src/NightShifts/Executor/Run/Turns.antt =====
-- The invariant through the turns, and the whole run.
use simple_ai_agent.Common.{
  ℕ, zero, suc, ◌+◌, ◌≤◌, ◌≡◌, refl, sym, ap, subst, ◌∙◌, String, true, not, Option, none, some,
  List, [], ◌∷◌, ◌++◌, Result, ok, err, raise, modify, pure, ◌>>=◌, ◌>>◌, arith, length,
  length-append, Result-cases, inl, inr, Ensures, Ensures-bind, Ensures-guard, Ensures-weaken,
}
use simple_ai_agent.NightShifts.Protocol.{WorkerTask}
use simple_ai_agent.NightShifts.Policy.{ModelExecutorLimits, InferenceLimits}
use simple_ai_agent.NightShifts.Inference.{
  InferenceToolCall, InferenceRequest, InferenceResponse, WorkerToolSpec,
}
use simple_ai_agent.NightShifts.Inference.Transcript.{ids}
use simple_ai_agent.NightShifts.Executor.{
  Surroundings, Progress, Exit, finished, Work, valid_calls, failure, inference_requested,
  inference_completed, tally_usage,
}
use simple_ai_agent.NightShifts.Executor.Loop.{
  abort, emit, use_tools, answer_turn, let_through, fail, submission, request, ask, valid_response,
  run_turn, turns,
}
use simple_ai_agent.NightShifts.Executor.Planned.{All-append}
use simple_ai_agent.NightShifts.Executor.Steps.{
  Core, core, Leaves-bind, abort-Leaves, emit-Leaves, tally_usage-core,
}
use simple_ai_agent.NightShifts.Executor.Invariant.{names_of, IsOwn, IsAcceptable, IsSound-IsLeft}
use simple_ai_agent.NightShifts.Executor.Run.{use_tools-Settled}
use simple_ai_agent.NightShifts.Executor.Run

module _ (world : Surroundings) (limits : ModelExecutorLimits) (task : WorkerTask)
    (specifications : List WorkerToolSpec) (session : InferenceLimits) (tools : List String)
    (Trust : Type 0) where
  abbrev pub Left : ℕ → Core → Type 0
  Left asked c = Run.Left world limits task specifications session tools Trust asked c

  abbrev pub Settled : ℕ → Core → Type 0
  Settled asked c = Run.Settled world limits task specifications session tools Trust asked c

  abbrev pub IsFine : InferenceResponse → Type 0
  IsFine response = Run.IsFine world limits task specifications session tools Trust response

  Settled-Left : {asked : ℕ} (c : Core) → Settled asked c → Left asked c
  Settled-Left c (planned, sound) =
      IsSound-IsLeft limits task specifications session tools Trust sound

  answer_turn-Settled :
      (turn asked : ℕ) (response : InferenceResponse) (p : Progress)
      → Settled asked (core p)
      → valid_calls (names_of specifications) p.seen_calls [] response.tool_calls ≡ true
      → (Trust → IsFine response)
      → Ensures
          (λ u t. Settled asked (core t))
          (λ e t. Left asked (core t))
          (answer_turn world limits task specifications turn response p)
  unfolding answer_turn Ensures
  answer_turn-Settled turn asked response p (planned, sound) valid fine =
      let answers : List InferenceToolCall → Work (Unit {0}) = λ calls. elim calls [
        | [] ↦ λ s. raise (finished (submission world limits task turn response.content s)) s
        | (call ∷ rest) ↦ use_tools world limits task specifications response
      ] in
      elim response.tool_calls
        as (λ calls.
          Ensures (λ (u : Unit {0}) t. Settled asked (core t)) (λ e t. Left asked (core t))
            (answers calls p)) [
              | [] ↦ Settled-Left (core p) (planned, sound)
              | (call ∷ rest) ↦
                  use_tools-Settled world limits task specifications session tools Trust planned
                    asked response p sound valid fine
            ]

  valid_response-gives :
      (answer : Option InferenceResponse) (p : Progress)
      → Ensures
          (λ response t.
            (core t ≡ core p)
            × (answer ≡ some response)
            × (valid_calls (names_of specifications) p.seen_calls [] response.tool_calls ≡ true))
          (λ e t. core t ≡ core p)
          (valid_response world limits task specifications answer p)
  unfolding valid_response Ensures fail
  valid_response-gives none p = refl
  valid_response-gives (some response) p =
      Ensures-guard (λ e t. core t ≡ core p)
        (λ r t.
          (core t ≡ core p)
          × (some response ≡ some r)
          × (valid_calls (names_of specifications) p.seen_calls [] r.tool_calls ≡ true))
        (not (valid_calls (names_of specifications) p.seen_calls [] response.tool_calls))
        (finished (failure task "worker model returned an invalid tool call or response"))
        (pure response) p (λ bad. refl) (λ good. (refl, refl, ground (arith, good)))

  -- The answer that `ask` returns is one of the model's.
  ask-gives :
      (p : Progress)
      → Ensures
          (λ answer t.
            (core t ≡ record (core p) {
              requests = p.requests ++ request world limits task specifications p ∷ [];
            })
            × (world.infer (length p.requests) (request world limits task specifications p)
                ≡ ok answer))
          (λ e t. core t ≡ record (core p) {
            requests = p.requests ++ request world limits task specifications p ∷ [];
          })
          (ask world limits task specifications p)
  unfolding ask Ensures let_through
  ask-gives p =
      elim (Result-cases
        (world.infer (length p.requests) (request world limits task specifications p))) [
          | inl (answer, said) ↦ rw said (refl, refl)
          | inr (e, fails) ↦ rw fails refl
        ]

  more : {asked many : ℕ} {c : Core} → asked ≤ many → Left asked c → Left many c
  more le left = record {
    made = left.made;
    requests = record {
      few = omega (arith, le, left.requests.few);
      own = left.requests.own;
      acceptable = left.requests.acceptable;
    };
  }

  asked-Settled :
      (asked : ℕ) (p : Progress)
      → Settled asked (core p)
      → Settled (asked + 1) (record (core p) {
        requests = p.requests ++ request world limits task specifications p ∷ [];
      })
  unfolding request
  asked-Settled asked p (planned, sound) =
      let r = request world limits task specifications p in
      (
        planned,
        record {
          plan = sound.plan;
          orderly = sound.orderly;
          seen = sound.seen;
          used = sound.used;
          transcript = sound.transcript;
          requests = record {
            few = omega (arith, sound.requests.few, length-append p.requests (r ∷ []));
            own =
                All-append (IsOwn task specifications) p.requests (r ∷ []) sound.requests.own
                  (record { own_job = refl; own_profile = refl; own_tools = refl }, tt);
            acceptable = λ trust.
                All-append (IsAcceptable session tools) p.requests (r ∷ [])
                  (sound.requests.acceptable trust) ((ids planned, sound.transcript trust), tt);
          };
        },
      )

  module _
      (trusts : Trust
        → (n : ℕ) (r : InferenceRequest) (response : InferenceResponse)
        → world.infer n r ≡ ok (some response)
        → IsFine response) where
    -- From the answer of the model on.
    replied :
        (turn asked n : ℕ) (r : InferenceRequest) (answer : Option InferenceResponse) (p : Progress)
        → Settled asked (core p)
        → world.infer n r ≡ ok answer
        → Ensures
            (λ u t. Settled asked (core t))
            (λ e t. Left asked (core t))
            ((do
              abort world limits task
              response ← valid_response world limits task specifications answer
              modify (tally_usage response.usage)
              emit world limits task (inference_completed turn (length response.tool_calls))
              answer_turn world limits task specifications turn response)
              p)
    replied turn asked n r answer p settled said =
        let Q : (Unit {0}) → Progress → Type 0 = λ u t. Settled asked (core t) in
        let L : Core → Type 0 = Left asked in
        let going : InferenceResponse → Work (Unit {0}) = λ response. do
          modify (tally_usage response.usage)
          emit world limits task (inference_completed turn (length response.tool_calls))
          answer_turn world limits task specifications turn response
        in Leaves-bind (core p) L Q (abort world limits task p)
          (λ u. do
            response ← valid_response world limits task specifications answer
            going response)
          (abort-Leaves world limits task p) (Settled-Left (core p) settled)
          (λ u t₁ same₁.
            let there : Settled asked (core t₁) = subst (Settled asked) (sym same₁) settled in
            let valid : InferenceResponse → Progress → Type 0 = λ response t.
              (core t ≡ core t₁)
              × (answer ≡ some response)
              × (valid_calls (names_of specifications) t₁.seen_calls [] response.tool_calls
                  ≡ true) in
            Ensures-bind valid (λ e t. L (core t)) Q
              (valid_response world limits task specifications answer t₁) going
              (Ensures-weaken valid valid (λ e t. core t ≡ core t₁) (λ e t. L (core t))
                (valid_response world limits task specifications answer t₁)
                (valid_response-gives answer t₁) (λ a t h. h)
                (λ e t same. subst L (sym same) (Settled-Left (core t₁) there)))
              (λ response t₂ good.
                let (same₂, given, fits) = good in
                let tallied : Progress = tally_usage response.usage t₂ in
                let same : core tallied ≡ core t₁ =
                  tally_usage-core world limits task response.usage t₂ ∙ same₂ in
                Leaves-bind (core tallied) L Q
                  (emit world limits task (inference_completed turn (length response.tool_calls))
                    tallied)
                  (λ u. answer_turn world limits task specifications turn response)
                  (emit-Leaves world limits task
                    (inference_completed turn (length response.tool_calls)) tallied)
                  (subst L (sym same) (Settled-Left (core t₁) there))
                  (λ u t₃ same₃.
                    answer_turn-Settled turn asked response t₃
                      (subst (Settled asked) (sym (same₃ ∙ same)) there)
                      (subst
                        (λ seen.
                          valid_calls (names_of specifications) seen [] response.tool_calls ≡ true)
                        (sym (ap (λ (c : Core). c.seen_calls) (same₃ ∙ same))) fits)
                      (λ trust. trusts trust n r response (said ∙ ap (λ a. ok a) given)))))

    run_turn-Settled :
        (turn asked : ℕ) (p : Progress)
        → Settled asked (core p)
        → Ensures
            (λ u t. Settled (asked + 1) (core t))
            (λ e t. Left (asked + 1) (core t))
            (run_turn world limits task specifications turn p)
    unfolding run_turn
    run_turn-Settled turn asked p settled =
        let Q : (Unit {0}) → Progress → Type 0 = λ u t. Settled (asked + 1) (core t) in
        let L : Core → Type 0 = Left (asked + 1) in
        let asking : Core → Core = λ c. record c {
          requests =
              c.requests
              ++ (record {
                job_id = task.job_id;
                worker_profile = task.worker_profile;
                messages = c.messages;
                tools = specifications;
              })
                ∷ [];
        } in
        let before : Left (asked + 1) (core p) =
          more (omega arith) (Settled-Left (core p) settled) in
        let now : Settled (asked + 1) (asking (core p)) = asked-Settled asked p settled in
        let replying : Option InferenceResponse → Work (Unit {0}) = λ answer. do
          abort world limits task
          response ← valid_response world limits task specifications answer
          modify (tally_usage response.usage)
          emit world limits task (inference_completed turn (length response.tool_calls))
          answer_turn world limits task specifications turn response
        in Leaves-bind (core p) L Q (abort world limits task p)
          (λ u. do
            emit world limits task (inference_requested turn)
            answer ← ask world limits task specifications
            replying answer)
          (abort-Leaves world limits task p) before
          (λ u t₁ same₁.
            Leaves-bind (core t₁) L Q (emit world limits task (inference_requested turn) t₁)
              (λ u. do answer ← ask world limits task specifications; replying answer)
              (emit-Leaves world limits task (inference_requested turn) t₁)
              (subst L (sym same₁) before)
              (λ u t₂ same₂.
                let there : Settled (asked + 1) (asking (core t₂)) =
                  subst (Settled (asked + 1)) (sym (ap asking (same₂ ∙ same₁))) now in
                Ensures-bind
                  (λ answer t.
                    (core t ≡ asking (core t₂))
                    × (world.infer (length t₂.requests)
                          (request world limits task specifications t₂)
                        ≡ ok answer))
                  (λ e t. L (core t)) Q (ask world limits task specifications t₂) replying
                  (Ensures-weaken _ _ (λ e t. core t ≡ asking (core t₂)) (λ e t. L (core t))
                    (ask world limits task specifications t₂) (ask-gives t₂) (λ a t h. h)
                    (λ e t same. subst L (sym same) (Settled-Left (asking (core t₂)) there)))
                  (λ answer t₃ got.
                    replied turn (asked + 1) (length t₂.requests)
                      (request world limits task specifications t₂) answer t₃
                      (subst (Settled (asked + 1)) (sym (got.0)) there) (got.1))))

    -- The turns after one that was run.
    next_turns :
        (left turn asked : ℕ) (r : Result Exit (Unit {0}) × Progress)
        → Ensures (λ u t. Settled (asked + 1) (core t)) (λ e t. Left (asked + 1) (core t)) r
        → ((p : Progress)
            → Settled (asked + 1) (core p)
            → Left
                (asked + 1 + left)
                (core ((turns world limits task specifications left (turn + 1) p).1)))
        → Left (asked + suc left) (
            core (
              (elim (r.0) as (λ (x : Result Exit (Unit {0})). Exit × Progress) [
                | ok u ↦ turns world limits task specifications left (turn + 1) (r.1)
                | err e ↦ (e, r.1)
              ]).1))
    unfolding Ensures
    next_turns left turn asked (ok u, p) h rest = more (omega arith) (rest p h)
    next_turns left turn asked (err e, p) h rest = more (omega arith) h

    pub turns-Left :
        (left turn asked : ℕ) (p : Progress)
        → Settled asked (core p)
        → Left (asked + left) (core ((turns world limits task specifications left turn p).1))
    unfolding turns Ensures
    turns-Left zero turn asked p settled = more (omega arith) (Settled-Left (core p) settled)
    turns-Left (suc left) turn asked p settled =
        next_turns left turn asked (run_turn world limits task specifications turn p)
          (run_turn-Settled turn asked p settled)
          (λ q h. turns-Left left (turn + 1) (asked + 1) q h)
