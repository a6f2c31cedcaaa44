-- ===== src/NightShifts/Inference/Gateway/Steps.antt =====
-- What one call of the gateway changes.
use simple_ai_agent.Common.{
  ◌+◌, ◌≤◌, ◌<◌, ◌≡◌, refl, sym, ap, subst, String, not, Option, none, some, [], ◌∷◌, ◌++◌, ◌==◌,
  Result, ok, err, pure, or_raise, raise_if, ◌>>=◌, ◌>>◌, arith, leb, contains, lookup, insert,
  erase, eq_iff, inl, inr, Option-cases, Bool-cases, Ensures, Ensures-bind, Ensures-weaken,
}
use simple_ai_agent.Common.Int.{pos_part}
use simple_ai_agent.NightShifts.Policy.{InferenceLimits}
use simple_ai_agent.NightShifts.Inference.{worker_tool_names, InferenceRequest, InferenceResponse}
use simple_ai_agent.NightShifts.Inference.Checks.{
  BoundaryError, no_cancellation, Checked, unavailable, check_request,
}
use simple_ai_agent.NightShifts.Inference.Gateway.{
  Host, Session, Gateway, Client, Gated, now, fresh_token, new_session, create_client,
  authorize_client, pop_session, close_client, cancel_client, authorize, checked, dispatch,
  validated, infer,
}

-- The request is the session's own, and one more is allowed.
pub record IsPermitted (s : Session) (r : InferenceRequest) : Type 0 where
  pub own_job : r.job_id ≡ s.job_id
  pub own_profile : r.worker_profile ≡ s.worker_profile
  pub within : s.requests < pos_part s.limits.max_requests

module _ (host : Host) where
  -- A call keeps the sessions, opens one under the next token, removes one, or sends a request that
  -- a session permits; the clock may have been read.
  pub data Step (g h : Gateway) : Type 0 where
    keeps : h.sessions ≡ g.sessions → h.dispatched ≡ g.dispatched → g.draws ≤ h.draws → Step g h
    opens :
        (s : Session)
        → h.sessions ≡ insert (host.token_urlsafe g.draws) s g.sessions
        → h.dispatched ≡ g.dispatched
        → h.draws ≡ g.draws + 1
        → Step g h
    removes :
        (token : String)
        → h.sessions ≡ erase token g.sessions
        → h.dispatched ≡ g.dispatched
        → h.draws ≡ g.draws
        → Step g h
    sends :
        (token : String) (s : Session) (r : InferenceRequest)
        → lookup token g.sessions ≡ some s
        → IsPermitted s r
        → check_request host.schema_bytes s.limits s.worker_profile r ≡ ok tt
        → h.sessions ≡ insert token (record s { requests = s.requests + 1 }) g.sessions
        → h.dispatched ≡ g.dispatched ++ (token, r) ∷ []
        → h.draws ≡ g.draws
        → Step g h

  -- Whatever the call returns or raises.
  abbrev pub Steps : {A : Type 0} → Gateway → Result BoundaryError A × Gateway → Type 0
  Steps g r = Ensures (λ a h. Step g h) (λ e h. Step g h) r

  abbrev Kept : {A : Type 0} → Gateway → A → Gateway → Type 0
  Kept g a h = Step g h

  -- A call that leaves the gateway as it is.
  same : (g : Gateway) → Step g g
  same g = keeps refl refl (omega arith)

  -- What follows a step leaves the gateway as it is.
  unchanged :
      {A : Type 0} (g h : Gateway) (r : Result BoundaryError A × Gateway)
      → Step g h
      → r.1 ≡ h
      → Steps g r
  unfolding Ensures
  unchanged g h (ok a, t) step q = subst (Step g) (sym q) step
  unchanged g h (err e, t) step q = subst (Step g) (sym q) step

  pub create_client-Steps :
      (job profile model : String) (limits : InferenceLimits) (g : Gateway)
      → Steps g (create_client host job profile model limits g)
  unfolding create_client now fresh_token Ensures
  create_client-Steps job profile model limits g = elim (Bool-cases (job == "")) [
    | inl bad ↦ rw bad (same g)
    | inr named ↦ elim (Option-cases (worker_tool_names profile)) [
      | inl bad ↦ rw (named, bad) (same g)
      | inr (_, known) ↦ elim (Bool-cases (contains model g.models)) [
        | inr bad ↦ rw (named, known, bad) (same g)
        | inl has ↦
            rw (named, known, has)
              (opens (new_session job profile model limits (host.utc_now g.readings)) refl refl
                refl)
      ]
    ]
  ]

  pub authorize_client-Steps :
      (client : Client) (job profile model : String) (g : Gateway)
      → Steps g (authorize_client host client job profile model g)
  unfolding authorize_client
  authorize_client-Steps client job profile model g =
      unchanged g g (authorize_client host client job profile model g) (same g) (ground arith)

  pop_session-Steps : (client : Client) (g : Gateway) → Steps g (pop_session host client g)
  unfolding pop_session Ensures
  pop_session-Steps client g = elim (Bool-cases client.is_own) [
    | inr bad ↦ rw bad (same g)
    | inl own ↦ rw own (removes client.token refl refl refl)
  ]

  pub close_client-Steps : (client : Client) (g : Gateway) → Steps g (close_client host client g)
  unfolding close_client Ensures
  close_client-Steps client g =
      Ensures-bind (Kept g) (Kept g) (Kept g) (pop_session host client g) (λ _. pure tt)
        (pop_session-Steps client g) (λ _ _ step. step)

  pub cancel_client-Steps : (client : Client) (g : Gateway) → Steps g (cancel_client host client g)
  unfolding cancel_client Ensures
  cancel_client-Steps client g =
      let cancel : Option Session → Gated (Unit {0}) = λ session. elim session [
        | none ↦ pure tt
        | some s ↦ raise_if (not (host.can_cancel s.model_id)) no_cancellation
      ] in
      Ensures-bind (Kept g) (Kept g) (Kept g) (pop_session host client g) cancel
        (pop_session-Steps client g)
        (λ session h step. unchanged g h (cancel session h) step (ground arith))

  -- Only the clock was read.
  record IsRead (g h : Gateway) : Type 0 where
    same_sessions : h.sessions ≡ g.sessions
    same_dispatched : h.dispatched ≡ g.dispatched
    same_draws : h.draws ≡ g.draws

  authorize-permits :
      (s : Session) (r : InferenceRequest) (g : Gateway)
      → Ensures (λ _ h. IsRead g h × IsPermitted s r) (λ _ h. IsRead g h) (authorize host s r g)
  unfolding authorize now Ensures
  authorize-permits s r g =
      let read : IsRead g (record g { readings = g.readings + 1 }) = record {
        same_sessions = refl;
        same_dispatched = refl;
        same_draws = refl;
      } in
      elim (Bool-cases (leb s.expires_at (host.utc_now g.readings))) [
        | inl bad ↦ rw bad read
        | inr live ↦ elim (Bool-cases (r.job_id == s.job_id)) [
          | inr bad ↦ rw (live, bad) read
          | inl job ↦ elim (Bool-cases (r.worker_profile == s.worker_profile)) [
            | inr bad ↦ rw (live, job, bad) read
            | inl profile ↦ elim (Bool-cases (leb (pos_part s.limits.max_requests) s.requests)) [
              | inl bad ↦ rw (live, job, profile, bad) read
              | inr more ↦
                  rw (live, job, profile, more)
                    (
                      read,
                      record {
                        own_job = (eq_iff r.job_id s.job_id).0 job;
                        own_profile = (eq_iff r.worker_profile s.worker_profile).0 profile;
                        within = ground (arith, more);
                      },
                    )
            ]
          ]
        ]
      ]

  validated-Steps :
      (s : Session) (answer : Option InferenceResponse) (g h : Gateway)
      → Step g h
      → Steps g (validated host s answer h)
  unfolding validated checked
  validated-Steps s answer g h step = unchanged g h (validated host s answer h) step (ground arith)

  -- What `dispatch` leaves.
  after_dispatch : String → Session → InferenceRequest → Gateway → Gateway
  after_dispatch token s r h = record h {
    sessions = insert token (record s { requests = s.requests + 1 }) h.sessions;
    dispatched = h.dispatched ++ (token, r) ∷ [];
  }

  dispatch-after :
      (token : String) (s : Session) (r : InferenceRequest) (h : Gateway)
      → (dispatch host token s r h).1 ≡ after_dispatch token s r h
  unfolding dispatch after_dispatch
  dispatch-after token s r h = ground arith

  dispatch-Steps :
      (token : String) (s : Session) (r : InferenceRequest) (g h : Gateway)
      → lookup token g.sessions ≡ some s
      → IsRead g h
      → IsPermitted s r
      → check_request host.schema_bytes s.limits s.worker_profile r ≡ ok tt
      → Steps g (dispatch host token s r h)
  unfolding after_dispatch
  dispatch-Steps token s r g h found read permitted good =
      unchanged g (after_dispatch token s r h) (dispatch host token s r h)
        (sends token s r found permitted good
          (ap (insert token (record s { requests = s.requests + 1 })) read.same_sessions)
          (ap (λ d. d ++ (token, r) ∷ []) read.same_dispatched) read.same_draws)
        (dispatch-after token s r h)

  after_verdict :
      {A : Type 0} (c : Checked (Unit {0})) (k : Gated A) (g h : Gateway)
      → Step g h
      → (c ≡ ok tt → Steps g (k h))
      → Steps g ((checked host c >> k) h)
  unfolding checked Ensures
  after_verdict (ok _) k g h step rest = rest refl
  after_verdict (err e) k g h step rest = step

  granted-Steps :
      (token : String) (s : Session) (r : InferenceRequest) (g : Gateway)
      → lookup token g.sessions ≡ some s
      → Steps g (
          (authorize host s r
              >> (checked host (check_request host.schema_bytes s.limits s.worker_profile r)
                  >> (dispatch host token s r >>= validated host s)))
            g)
  granted-Steps token s r g found =
      let read_step : (h : Gateway) → IsRead g h → Step g h =
        λ h read. keeps read.same_sessions read.same_dispatched (ground (arith, read.same_draws)) in
      Ensures-bind (λ _ h. IsRead g h × IsPermitted s r) (Kept g) (Kept g) (authorize host s r g) _
        (Ensures-weaken (λ _ h. IsRead g h × IsPermitted s r) (λ _ h. IsRead g h × IsPermitted s r)
          (λ _ h. IsRead g h) (Kept g) (authorize host s r g) (authorize-permits s r g) (λ _ _ p. p)
          (λ _ h read. read_step h read))
        (λ _ h (read, permitted).
          after_verdict (check_request host.schema_bytes s.limits s.worker_profile r)
            (dispatch host token s r >>= validated host s) g h (read_step h read)
            (λ good.
              Ensures-bind (Kept g) (Kept g) (Kept g) (dispatch host token s r h) (validated host s)
                (dispatch-Steps token s r g h found read permitted good)
                (λ answer t step. validated-Steps s answer g t step)))

  -- The rest of `infer`, with what the lookup found.
  with_session :
      (o : Option Session) (token : String) (r : InferenceRequest) (g : Gateway)
      → lookup token g.sessions ≡ o
      → Steps g (
          (or_raise o unavailable >>= λ s.
          authorize host s r
          >> (checked host (check_request host.schema_bytes s.limits s.worker_profile r)
              >> (dispatch host token s r >>= validated host s)))
            g)
  unfolding Ensures
  with_session none token r g found = same g
  with_session (some s) token r g found = granted-Steps token s r g found

  pub infer-Steps :
      (token : String) (r : InferenceRequest) (g : Gateway) → Steps g (infer host token r g)
  unfolding infer
  infer-Steps token r g = with_session (lookup token g.sessions) token r g refl
