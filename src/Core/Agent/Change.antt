-- ===== src/Core/Agent/Change.antt =====
-- What calls of the agent's loop do to the agent, and how that adds up.
use simple_ai_agent.Common.{
  ℕ, ◌+◌, ◌≤◌, ◌≡◌, refl, sym, ap, ◌∙◌, true, List, [], ◌∷◌, ◌++◌, append_assoc, append-nil, arith,
  length, length-append, All, Result, ◌>>=◌, Ensures, Ensures-bind, Ensures-weaken,
}
use simple_ai_agent.Core.Protocol.{ToolCall}
use simple_ai_agent.Core.Registry.{has_tool}
use simple_ai_agent.Core.Agent.{
  Tools, Agent, answered, configuration_mismatch, unsupported_api_type, empty_response,
  unexpected_state, too_many_steps, request_failed, invalid_response, Exit, finished, escaped, Work,
}
use simple_ai_agent.Core.Agent.Transcript.{IsTranscript, IsAcceptable}

All-append : {A : Type 0} (P : A → Type 0) (xs ys : List A) → All P xs → All P ys → All P (xs ++ ys)
All-append P [] ys h k = k
All-append P (x ∷ xs) ys (p, h) k = (p, All-append P xs ys h k)

-- A longer list: what was added, its bound, and what holds of each new element.
pub record Added {A : Type 0} (P : A → Type 0) (n : ℕ) (xs ys : List A) : Type 0 where
  pub new : List A
  pub longer : ys ≡ xs ++ new
  pub few : length new ≤ n
  pub sound : All P new

pub Added-none : {A : Type 0} (P : A → Type 0) (xs : List A) → Added P 0 xs xs
Added-none P xs = record { new = []; longer = sym (append-nil xs); few = omega arith; sound = tt }

pub Added-one :
    {A : Type 0} (P : A → Type 0) (xs : List A) (x : A) → P x → Added P 1 xs (xs ++ x ∷ [])
Added-one P xs x p = record { new = x ∷ []; longer = refl; few = omega arith; sound = (p, tt) }

pub Added-trans :
    {A : Type 0} (P : A → Type 0) {m n : ℕ} {xs ys zs : List A}
    → Added P m xs ys
    → Added P n ys zs
    → Added P (m + n) xs zs
Added-trans P {m} {n} {xs} h k = record {
  new = h.new ++ k.new;
  longer = k.longer ∙ ap (λ l. l ++ k.new) h.longer ∙ append_assoc xs h.new k.new;
  few = omega (arith, length-append h.new k.new, h.few, k.few);
  sound = All-append P h.new k.new h.sound k.sound;
}

pub Added-weaken :
    {A : Type 0} (P : A → Type 0) {m n : ℕ} {xs ys : List A}
    → m ≤ n
    → Added P m xs ys
    → Added P n xs ys
Added-weaken P le h = record {
  new = h.new;
  longer = h.longer;
  few = omega (arith, le, h.few);
  sound = h.sound;
}

-- The results that `_step` can give: not those of a response that the parser refused.
unfoldable pub IsExpected : Exit → Type 0
IsExpected (finished (invalid_response e)) = ⊥
IsExpected (finished unexpected_state) = ⊥
IsExpected (finished (answered s)) = Unit
IsExpected (finished configuration_mismatch) = Unit
IsExpected (finished unsupported_api_type) = Unit
IsExpected (finished empty_response) = Unit
IsExpected (finished too_many_steps) = Unit
IsExpected (finished (request_failed s)) = Unit
IsExpected escaped = Unit

module _ (tools : Tools) where
  -- The tool of a call is registered.
  unfoldable pub IsKnown : ToolCall → Type 0
  unfolding has_tool
  IsKnown call = has_tool tools.registry call.action ≡ true

  -- At most `q` requests and `x` calls; a transcript stays one, and is what is sent.
  pub record Change (q x : ℕ) (a b : Agent) : Type 0 where
    pub asked :
        IsTranscript a.messages
        → Added IsAcceptable q a.requests b.requests × IsTranscript b.messages
    pub ran : Added IsKnown x a.executed b.executed
    pub few : length b.requests ≤ length a.requests + q
    pub kept : length a.requests ≤ length b.requests

  pub Change-trans :
      {q p x y : ℕ} {a b c : Agent} → Change q x a b → Change p y b c → Change (q + p) (x + y) a c
  Change-trans h k = record {
    asked = λ start.
        let (first, middle) = h.asked start in
        let (second, last) = k.asked middle in (Added-trans IsAcceptable first second, last);
    ran = Added-trans IsKnown h.ran k.ran;
    few = omega (arith, h.few, k.few);
    kept = omega (arith, h.kept, k.kept);
  }

  pub Change-weaken : {q p x y : ℕ} {a b : Agent} → q ≤ p → x ≤ y → Change q x a b → Change p y a b
  Change-weaken few less h = record {
    asked =
        λ start. let (first, last) = h.asked start in (Added-weaken IsAcceptable few first, last);
    ran = Added-weaken IsKnown less h.ran;
    few = omega (arith, few, h.few);
    kept = h.kept;
  }

  -- A call that ends in one of the expected ways, if it does not return.
  unfoldable pub Turned : {A : Type 0} → ℕ → ℕ → Agent → Result Exit A × Agent → Type 0
  unfolding Ensures IsExpected
  Turned q x a r = Ensures (λ _ t. Change q x a t) (λ e t. Change q x a t × IsExpected e) r

  pub Turned-weaken :
      {A : Type 0} (q p x y : ℕ) (a : Agent) (r : Result Exit A × Agent)
      → q ≤ p
      → x ≤ y
      → Turned q x a r
      → Turned p y a r
  unfolding Turned
  Turned-weaken q p x y a r few less h =
      Ensures-weaken (λ _ t. Change q x a t) (λ _ t. Change p y a t)
        (λ e t. Change q x a t × IsExpected e) (λ e t. Change p y a t × IsExpected e) r h
        (λ v t c. Change-weaken few less c) (λ e t c. (Change-weaken few less (c.0), c.1))

  pub Turned-bind :
      {A B : Type 0} (q p x y : ℕ) (a : Agent) (m : Work A) (f : A → Work B)
      → Turned q x a (m a)
      → ((v : A) (t : Agent) → Change q x a t → Turned p y t (f v t))
      → Turned (q + p) (x + y) a ((m >>= f) a)
  unfolding Turned Ensures
  Turned-bind {A} {B} q p x y a m f h k =
      Ensures-bind (λ _ t. Change q x a t) (λ e t. Change (q + p) (x + y) a t × IsExpected e)
        (λ _ t. Change (q + p) (x + y) a t) (m a) f
        (Ensures-weaken (λ _ t. Change q x a t) (λ _ t. Change q x a t)
          (λ e t. Change q x a t × IsExpected e) (λ e t. Change (q + p) (x + y) a t × IsExpected e)
          (m a) h (λ v t c. c) (λ e t c. (Change-weaken (omega arith) (omega arith) (c.0), c.1)))
        (λ v t c.
          Ensures-weaken (λ _ u. Change p y t u) (λ _ u. Change (q + p) (x + y) a u)
            (λ e u. Change p y t u × IsExpected e)
            (λ e u. Change (q + p) (x + y) a u × IsExpected e) (f v t) (k v t c)
            (λ w u d. Change-trans c d) (λ e u d. (Change-trans c (d.0), d.1)))
