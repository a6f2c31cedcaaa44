-- ===== src/NightShifts/Inference/Gateway/Quota.antt =====
-- What each step of the gateway keeps about the tokens and the sessions. The hypothesis on `token_urlsafe` is
-- that no token comes twice.
use simple_ai_agent.Common.{
  ℕ, ◌+◌, ◌≤◌, ◌<◌, ◌≡◌, ◌≢◌, refl, sym, ap, ◌∙◌, String, false, none, some, List, [], ◌==◌, arith,
  length, lookup, lookup-insert, lookup-erase, eq_iff, ◌⊎◌, inl, inr, Bool-cases,
}
use simple_ai_agent.Common.Int.{pos_part}
use simple_ai_agent.NightShifts.Inference.Checks.{check_request}
use simple_ai_agent.NightShifts.Inference.Gateway.{Host, Session, Gateway}
use simple_ai_agent.NightShifts.Inference.Gateway.Steps.{Step, keeps, opens, removes, sends}
use simple_ai_agent.NightShifts.Inference.Gateway.History.{
  new_gateway, sent_under, AllOwn, sent_under-own, sent_under-other, AllOwn-snoc, length-snoc,
}

-- One that has a session is not one that has none.
found-differs :
    (t k : String) (s : Session) (m : List (String × Session))
    → lookup t m ≡ some s
    → lookup k m ≡ none
    → t == k ≡ false
found-differs t k s m found gone = elim (Bool-cases (t == k)) [
  | inr differs ↦ differs
  | inl is ↦ ground (arith, found, gone, ap (λ u. lookup u m) ((eq_iff t k).0 is))
]

module _ (host : Host)
    (injective : (m n : ℕ) → host.token_urlsafe m ≡ host.token_urlsafe n → m ≡ n) where
  -- The token was drawn, so it does not come again.
  pub record IsDrawn (token : String) (g : Gateway) : Type 0 where
    pub not_again : (n : ℕ) → g.draws ≤ n → host.token_urlsafe n ≢ token

  -- The tokens to come have no session and sent nothing.
  pub record IsFresh (g : Gateway) : Type 0 where
    pub no_session : (n : ℕ) → g.draws ≤ n → lookup (host.token_urlsafe n) g.sessions ≡ none
    pub no_request : (n : ℕ) → g.draws ≤ n → sent_under (host.token_urlsafe n) g.dispatched ≡ []

  later-differs : (m n : ℕ) → m < n → host.token_urlsafe m == host.token_urlsafe n ≡ false
  later-differs m n less =
      ground (arith, eq_iff (host.token_urlsafe m) (host.token_urlsafe n), injective m n, less)

  pub IsFresh-step : (g h : Gateway) → Step host g h → IsFresh g → IsFresh h
  IsFresh-step g h (keeps sessions dispatched draws) fresh = record {
    no_session = λ n le. rw sessions (fresh.no_session n (omega arith));
    no_request = λ n le. rw dispatched (fresh.no_request n (omega arith));
  }
  IsFresh-step g h (opens s sessions dispatched draws) fresh = record {
    no_session = λ n le.
        rw
          (
            sessions,
            lookup-insert (host.token_urlsafe g.draws) (host.token_urlsafe n) s g.sessions,
            later-differs g.draws n (omega arith),
          )
          (fresh.no_session n (omega arith));
    no_request = λ n le. rw dispatched (fresh.no_request n (omega arith));
  }
  IsFresh-step g h (removes token sessions dispatched draws) fresh = record {
    no_session = λ n le. ground (
      arith,
      sessions,
      lookup-erase token (host.token_urlsafe n) g.sessions,
      fresh.no_session n (omega arith),
    );
    no_request = λ n le. rw dispatched (fresh.no_request n (omega arith));
  }
  IsFresh-step g h (sends token s r found permitted good sessions dispatched draws) fresh =
      let other : (n : ℕ) → g.draws ≤ n → token == host.token_urlsafe n ≡ false = λ n le.
        found-differs token (host.token_urlsafe n) s g.sessions found (fresh.no_session n le) in
      record {
        no_session = λ n le.
            rw
              (
                sessions,
                lookup-insert token (host.token_urlsafe n) (record s { requests = s.requests + 1 })
                    g.sessions,
                other n (omega arith),
              )
              (fresh.no_session n (omega arith));
        no_request = λ n le.
            rw
              (
                dispatched,
                sent_under-other (host.token_urlsafe n) token r g.dispatched
                    (other n (omega arith)),
                fresh.no_request n (omega arith),
              )
              refl;
      }

  pub IsFresh-start : (models : List String) → IsFresh (new_gateway models)
  unfolding new_gateway sent_under lookup
  IsFresh-start models = record { no_session = λ n le. refl; no_request = λ n le. refl }

  -- A session's client in a gateway: its token does not come again, all that was sent under it is
  -- the session's own, and it is gone or counts what was sent.
  pub record Tracks (token : String) (s : Session) (g : Gateway) : Type 0 where
    pub drawn : IsDrawn token g
    pub own :
        AllOwn host.schema_bytes s.limits s.job_id s.worker_profile (sent_under token g.dispatched)
    pub within : length (sent_under token g.dispatched) ≤ pos_part s.limits.max_requests
    pub counted :
        (lookup token g.sessions ≡ none)
        ⊎ (lookup token g.sessions
            ≡ some (record s { requests = length (sent_under token g.dispatched) }))

  pub Tracks-step :
      (token : String) (s : Session) (g h : Gateway)
      → Step host g h
      → Tracks token s g
      → Tracks token s h
  Tracks-step token s g h (keeps sessions dispatched draws) t = record {
    drawn = record { not_again = λ n le. t.drawn.not_again n (omega arith) };
    own = rw dispatched t.own;
    within = rw dispatched t.within;
    counted = rw (sessions, dispatched) t.counted;
  }
  Tracks-step token s g h (opens s' sessions dispatched draws) t =
      let other : host.token_urlsafe g.draws == token ≡ false = ground (
        arith,
        eq_iff (host.token_urlsafe g.draws) token,
        t.drawn.not_again g.draws (omega arith),
      ) in
      record {
        drawn = record { not_again = λ n le. t.drawn.not_again n (omega arith) };
        own = rw dispatched t.own;
        within = rw dispatched t.within;
        counted =
            rw
              (
                sessions,
                dispatched,
                lookup-insert (host.token_urlsafe g.draws) token s' g.sessions,
                other,
              )
              t.counted;
      }
  Tracks-step token s g h (removes token' sessions dispatched draws) t = record {
    drawn = record { not_again = λ n le. t.drawn.not_again n (omega arith) };
    own = rw dispatched t.own;
    within = rw dispatched t.within;
    counted =
        rw (sessions, dispatched, lookup-erase token' token g.sessions)
          (elim (Bool-cases (token' == token)) [
            | inl is ↦ rw is (inl refl)
            | inr differs ↦ rw differs t.counted
          ]);
  }
  Tracks-step token s g h (sends token' s' r found permitted good sessions dispatched draws) t =
      elim (Bool-cases (token' == token)) [
        | inr differs ↦ record {
          drawn = record { not_again = λ n le. t.drawn.not_again n (omega arith) };
          own = rw (dispatched, sent_under-other token token' r g.dispatched differs) t.own;
          within = rw (dispatched, sent_under-other token token' r g.dispatched differs) t.within;
          counted =
              rw
                (
                  dispatched,
                  sent_under-other token token' r g.dispatched differs,
                  sessions,
                  lookup-insert token' token (record s' { requests = s'.requests + 1 }) g.sessions,
                  differs,
                )
                t.counted;
        }
        | inl is ↦
            let mine : s' ≡ record s { requests = length (sent_under token g.dispatched) } =
              elim t.counted [
                | inl gone ↦ ground (arith, found, gone, (eq_iff token' token).0 is)
                | inr there ↦ ground (arith, found, there, (eq_iff token' token).0 is)
              ] in
            record {
              drawn = record { not_again = λ n le. t.drawn.not_again n (omega arith) };
              own =
                  rw (dispatched, sent_under-own token token' r g.dispatched is)
                    (AllOwn-snoc host.schema_bytes s.limits s.job_id s.worker_profile r
                      (sent_under token g.dispatched) t.own
                      (permitted.own_job ∙ ap (λ (x : Session). x.job_id) mine)
                      (permitted.own_profile ∙ ap (λ (x : Session). x.worker_profile) mine)
                      (ap
                          (λ (x : Session).
                            check_request host.schema_bytes x.limits x.worker_profile r)
                          (sym mine)
                        ∙ good));
              within =
                  rw
                    (
                      dispatched,
                      sent_under-own token token' r g.dispatched is,
                      length-snoc r (sent_under token g.dispatched),
                    )
                    (ground (
                      arith,
                      permitted.within,
                      ap (λ (x : Session). x.requests) mine,
                      ap (λ (x : Session). pos_part x.limits.max_requests) mine,
                    ));
              counted = inr (
                  rw
                    (
                      dispatched,
                      sent_under-own token token' r g.dispatched is,
                      length-snoc r (sent_under token g.dispatched),
                      sessions,
                      lookup-insert token' token (record s' { requests = s'.requests + 1 })
                          g.sessions,
                      is,
                    )
                    (ap (λ (x : Session). some (record x { requests = x.requests + 1 })) mine));
            }
      ]

  -- A session that is gone, under a token that does not come again.
  pub record IsGone (token : String) (g : Gateway) : Type 0 where
    pub drawn : IsDrawn token g
    pub none_left : lookup token g.sessions ≡ none

  pub IsGone-step :
      (token : String) (g h : Gateway) → Step host g h → IsGone token g → IsGone token h
  IsGone-step token g h (keeps sessions dispatched draws) t = record {
    drawn = record { not_again = λ n le. t.drawn.not_again n (omega arith) };
    none_left = rw sessions t.none_left;
  }
  IsGone-step token g h (opens s' sessions dispatched draws) t = record {
    drawn = record { not_again = λ n le. t.drawn.not_again n (omega arith) };
    none_left = ground (
      arith,
      sessions,
      lookup-insert (host.token_urlsafe g.draws) token s' g.sessions,
      eq_iff (host.token_urlsafe g.draws) token,
      t.drawn.not_again g.draws (omega arith),
      t.none_left,
    );
  }
  IsGone-step token g h (removes token' sessions dispatched draws) t = record {
    drawn = record { not_again = λ n le. t.drawn.not_again n (omega arith) };
    none_left = ground (arith, sessions, lookup-erase token' token g.sessions, t.none_left);
  }
  IsGone-step token g h (sends token' s' r found permitted good sessions dispatched draws) t =
      record {
        drawn = record { not_again = λ n le. t.drawn.not_again n (omega arith) };
        none_left =
            rw
              (
                sessions,
                lookup-insert token' token (record s' { requests = s'.requests + 1 }) g.sessions,
                found-differs token' token s' g.sessions found t.none_left,
              )
              t.none_left;
      }
