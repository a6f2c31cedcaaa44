-- ===== src/NightShifts/Inference/Gateway/Life.antt =====
-- What a client may send through the gateway over its life. The hypothesis on `token_urlsafe` is
-- that no token comes twice.
use simple_ai_agent.Common.{
  ℕ, ◌+◌, ◌≤◌, ◌≡◌, refl, sym, subst, String, true, List, [], ◌==◌, ok, err, arith, length, insert,
  lookup-insert, lookup-erase, eq_iff, inl, inr, Bool-cases, Option-cases, contains, Ensures,
}
use simple_ai_agent.Common.Int.{pos_part}
use simple_ai_agent.NightShifts.Policy.{InferenceLimits}
use simple_ai_agent.NightShifts.Inference.{worker_tool_names, InferenceRequest}
use simple_ai_agent.NightShifts.Inference.Checks.{unavailable}
use simple_ai_agent.NightShifts.Inference.Gateway.{
  Host, Gateway, Client, new_session, now, fresh_token, create_client, pop_session, close_client,
  cancel_client, infer,
}
use simple_ai_agent.NightShifts.Inference.Gateway.History.{
  GatewayCall, closes, cancels, new_gateway, sent_under, AllOwn, perform, perform_all,
  perform_all-Keeps,
}
use simple_ai_agent.NightShifts.Inference.Gateway.Quota.{
  IsFresh, Tracks, IsGone, IsDrawn, IsFresh-step, IsFresh-start, Tracks-step, IsGone-step,
}

module _ (host : Host)
    (injective : (m n : ℕ) → host.token_urlsafe m ≡ host.token_urlsafe n → m ≡ n) where
  -- What `create_client` leaves when it returns a client.
  record IsCreated (job profile model : String) (limits : InferenceLimits) (g : Gateway)
      (client : Client) (h : Gateway) : Type 0 where
    owned : client.is_own ≡ true
    drawn_now : client.token ≡ host.token_urlsafe g.draws
    opened :
        h.sessions
        ≡ insert client.token
            (new_session job profile model limits (host.utc_now g.readings))
            g.sessions
    nothing_sent : h.dispatched ≡ g.dispatched
    one_drawn : h.draws ≡ g.draws + 1

  create_client-Created :
      (job profile model : String) (limits : InferenceLimits) (g : Gateway)
      → Ensures
          (IsCreated job profile model limits g)
          (λ _ _. Unit {0})
          (create_client host job profile model limits g)
  unfolding create_client now fresh_token Ensures
  create_client-Created job profile model limits g = elim (Bool-cases (job == "")) [
    | inl bad ↦ rw bad tt
    | inr named ↦ elim (Option-cases (worker_tool_names profile)) [
      | inl bad ↦ rw (named, bad) tt
      | inr (_, known) ↦ elim (Bool-cases (contains model g.models)) [
        | inr bad ↦ rw (named, known, bad) tt
        | inl has ↦
            rw (named, known, has)
              (record {
                owned = refl;
                drawn_now = refl;
                opened = refl;
                nothing_sent = refl;
                one_drawn = refl;
              })
      ]
    ]
  ]

  Tracks-created :
      (job profile model : String) (limits : InferenceLimits) (g : Gateway) (client : Client)
      (h : Gateway)
      → IsFresh host injective g
      → IsCreated job profile model limits g client h
      → Tracks host injective client.token
          (new_session job profile model limits (host.utc_now g.readings))
          h
  unfolding AllOwn new_session
  Tracks-created job profile model limits g client h fresh c =
      let s = new_session job profile model limits (host.utc_now g.readings) in
      let nothing : sent_under client.token h.dispatched ≡ [] =
        rw (c.nothing_sent, c.drawn_now) (fresh.no_request g.draws (omega arith)) in
      record {
        drawn = record {
          not_again = λ n le. ground (arith, c.drawn_now, injective n g.draws, c.one_drawn, le);
        };
        own = rw nothing tt;
        within = rw nothing (omega arith);
        counted = inr (
            rw
              (
                c.opened,
                lookup-insert client.token client.token s g.sessions,
                (eq_iff client.token client.token).1 refl,
                c.nothing_sent,
                c.drawn_now,
                fresh.no_request g.draws (omega arith),
              )
              refl);
      }

  kept :
      (models : List String) (before after : List GatewayCall) (job profile model : String)
      (limits : InferenceLimits) (client : Client) (h : Gateway)
      (created : create_client host job profile model limits
          (perform_all host before (new_gateway models))
        ≡ (ok client, h))
      → Tracks host injective client.token
          (new_session job profile model limits
            (host.utc_now (perform_all host before (new_gateway models)).readings))
          (perform_all host after h)
  unfolding Ensures
  kept models before after job profile model limits client h created =
      let g = perform_all host before (new_gateway models) in
      let s = new_session job profile model limits (host.utc_now g.readings) in
      perform_all-Keeps host (Tracks host injective client.token s)
        (Tracks-step host injective client.token s) after h
        (Tracks-created job profile model limits g client h
          (perform_all-Keeps host (IsFresh host injective) (IsFresh-step host injective) before
            (new_gateway models) (IsFresh-start host injective models))
          (subst (Ensures (IsCreated job profile model limits g) (λ _ _. Unit {0})) created
            (create_client-Created job profile model limits g)))

  is_own :
      (models : List String) (before : List GatewayCall) (job profile model : String)
      (limits : InferenceLimits) (client : Client) (h : Gateway)
      → create_client host job profile model limits (perform_all host before (new_gateway models))
        ≡ (ok client, h)
      → client.is_own ≡ true
  unfolding Ensures
  is_own models before job profile model limits client h created =
      let g = perform_all host before (new_gateway models) in
      (subst (Ensures (IsCreated job profile model limits g) (λ _ _. Unit {0})) created
        (create_client-Created job profile model limits g)).owned

  closes-Gone :
      (client : Client) (g : Gateway)
      → client.is_own ≡ true
      → IsDrawn host injective client.token g
      → IsGone host injective client.token (perform host (closes client) g)
  unfolding perform close_client pop_session
  closes-Gone client g own drawn = record {
    drawn = rw own (record { not_again = drawn.not_again });
    none_left = ground (
      arith,
      own,
      lookup-erase client.token client.token g.sessions,
      (eq_iff client.token client.token).1 refl,
    );
  }

  -- Both leave the same gateway.
  cancels-closes :
      (client : Client) (g : Gateway)
      → perform host (cancels client) g ≡ perform host (closes client) g
  unfolding perform cancel_client close_client pop_session
  cancels-closes client g = ground arith

  gone_refuses :
      (after : List GatewayCall) (token : String) (request : InferenceRequest) (g : Gateway)
      → IsGone host injective token g
      → (infer host token request (perform_all host after g)).0 ≡ err unavailable
  unfolding infer
  gone_refuses after token request g gone =
      let left =
        perform_all-Keeps host (IsGone host injective token) (IsGone-step host injective token)
          after g gone in
      rw left.none_left refl

  -- Of a client that the gateway creates after any calls, and in any calls after that: the requests
  -- sent under its token are at most `max_requests`, and each has the job and the profile that the
  -- client was created for and passes `_validate_request`.
  pub create_client-sent_under :
      (models : List String) (before after : List GatewayCall) (job profile model : String)
      (limits : InferenceLimits) (client : Client) (h : Gateway)
      → create_client host job profile model limits (perform_all host before (new_gateway models))
        ≡ (ok client, h)
      → (length (sent_under client.token (perform_all host after h).dispatched)
          ≤ pos_part limits.max_requests)
        × AllOwn host.schema_bytes limits job profile
            (sent_under client.token (perform_all host after h).dispatched)
  unfolding Ensures new_session
  create_client-sent_under models before after job profile model limits client h created =
      let t = kept models before after job profile model limits client h created in
      (t.within, t.own)

  -- A client that is created, is then closed or cancelled after any calls, and is used after any
  -- more calls: `infer` under its token raises that the session is not available.
  pub create_client-close_client-infer :
      (models : List String) (before between after : List GatewayCall) (job profile model : String)
      (limits : InferenceLimits) (client : Client) (h : Gateway) (request : InferenceRequest)
      → create_client host job profile model limits (perform_all host before (new_gateway models))
        ≡ (ok client, h)
      → (let closed = perform host (closes client) (perform_all host between h) in
          (infer host client.token request (perform_all host after closed)).0 ≡ err unavailable)
        × (let cancelled = perform host (cancels client) (perform_all host between h) in
            (infer host client.token request (perform_all host after cancelled)).0
            ≡ err unavailable)
  create_client-close_client-infer models before between after job profile model limits client h
        request created =
      let g = perform_all host between h in
      let t = kept models before between job profile model limits client h created in
      let own = is_own models before job profile model limits client h created in
      (
        gone_refuses after client.token request (perform host (closes client) g)
            (closes-Gone client g own t.drawn),
        gone_refuses after client.token request (perform host (cancels client) g) (
            subst (IsGone host injective client.token) (sym (cancels-closes client g))
              (closes-Gone client g own t.drawn)),
      )
