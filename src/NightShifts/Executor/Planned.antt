-- ===== src/NightShifts/Executor/Planned.antt =====
-- The calls that a run has made or is about to make: each is new, authorised, and within the limit.
use simple_ai_agent.Common.{
  ℕ, ◌≤◌, ◌≡◌, sym, subst, String, true, List, [], ◌∷◌, ◌++◌, arith, contains, length,
  length-append, append_assoc, append-nil, All,
}
use simple_ai_agent.NightShifts.Inference.{InferenceToolCall}
use simple_ai_agent.NightShifts.Inference.Transcript.{ids, AllNew, contains-append}
use simple_ai_agent.NightShifts.Executor.{valid_calls}

abbrev pub IsAllowed : List String → InferenceToolCall → Type 0
IsAllowed allowed c = contains c.name allowed ≡ true

-- What `valid_calls` finds, for calls that follow those of `seen` and `before`.
pub valid_calls-AllNew :
    (allowed seen before : List String) (calls : List InferenceToolCall)
    → valid_calls allowed seen before calls ≡ true
    → AllNew (seen ++ before) calls × All (IsAllowed allowed) calls
unfolding valid_calls AllNew
valid_calls-AllNew allowed seen before [] h = (tt, tt)
valid_calls-AllNew allowed seen before (c ∷ cs) h =
    let (new, rest) =
      valid_calls-AllNew allowed seen (before ++ c.call_id ∷ []) cs (ground (arith, h)) in
    (
      (
        ground (arith, h, contains-append c.call_id seen before),
        subst (λ k. AllNew k cs) (sym (append_assoc seen before (c.call_id ∷ []))) new,
      ),
      (ground (arith, h), rest),
    )

pub AllNew-append :
    (known : List String) (xs ys : List InferenceToolCall)
    → AllNew known xs
    → AllNew (known ++ ids xs) ys
    → AllNew known (xs ++ ys)
unfolding AllNew
AllNew-append known [] ys h k = subst (λ l. AllNew l ys) (append-nil known) k
AllNew-append known (x ∷ xs) ys (new, h) k = (
  new,
  AllNew-append (known ++ x.call_id ∷ []) xs ys h
      (subst (λ l. AllNew l ys) (sym (append_assoc known (x.call_id ∷ []) (ids xs))) k),
)

AllNew-prefix :
    (known : List String) (xs ys : List InferenceToolCall)
    → AllNew known (xs ++ ys)
    → AllNew known xs
unfolding AllNew
AllNew-prefix known [] ys h = tt
AllNew-prefix known (x ∷ xs) ys (new, h) = (new, AllNew-prefix (known ++ x.call_id ∷ []) xs ys h)

pub All-append {ℓ κ} :
    {A : Type ℓ} (P : A → Type κ) (xs ys : List A) → All P xs → All P ys → All P (xs ++ ys)
All-append P [] ys h k = k
All-append P (x ∷ xs) ys (p, h) k = (p, All-append P xs ys h k)

All-prefix {ℓ κ} : {A : Type ℓ} (P : A → Type κ) (xs ys : List A) → All P (xs ++ ys) → All P xs
All-prefix P [] ys h = tt
All-prefix P (x ∷ xs) ys (p, h) = (p, All-prefix P xs ys h)

-- No identifier twice, no call of a tool that is not allowed, and no more calls than `most`.
pub record IsOrderly (allowed : List String) (most : ℕ) (calls : List InferenceToolCall)
    : Type 0 where
  pub new : AllNew [] calls
  pub authorised : All (IsAllowed allowed) calls
  pub few : length calls ≤ most

pub IsOrderly-prefix :
    (allowed : List String) (most : ℕ) (xs ys : List InferenceToolCall)
    → IsOrderly allowed most (xs ++ ys)
    → IsOrderly allowed most xs
IsOrderly-prefix allowed most xs ys o = record {
  new = AllNew-prefix [] xs ys o.new;
  authorised = All-prefix (IsAllowed allowed) xs ys o.authorised;
  few = omega (arith, o.few, length-append xs ys);
}
