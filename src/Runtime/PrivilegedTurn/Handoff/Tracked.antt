-- ===== src/Runtime/PrivilegedTurn/Handoff/Tracked.antt =====
-- What each move keeps of the approvals, of the hand-offs and of the identifiers.
use simple_ai_agent.Common.{
  ℕ, ◌+◌, ◌≤◌, ◌≡◌, refl, sym, ap, subst, ◌∙◌, String, true, false, none, some, List, [], ◌==◌,
  arith, contains, lookup, insert, lookup-insert, eq_iff, inl, inr, Bool-cases,
}
use simple_ai_agent.Runtime.PrivilegedTurn.{
  PrivilegedClaim, PendingPrivilege, Decision, pending, accepted, PrivilegedTurn, expire_all,
  is_decision, is_absent, submit_id,
}
use simple_ai_agent.Runtime.PrivilegedTurn.Handoff.{
  expire_all-lookup, tail_same, IsSpent, IsTracked,
}

module _ (uuid4 : ℕ → String) (sha256 : String → String)
    (injective : (m n : ℕ) → uuid4 m ≡ uuid4 n → m ≡ n) where
  abbrev Spent : String → PrivilegedTurn → Type 0
  Spent id g = IsSpent uuid4 sha256 injective id g

  abbrev Tracked : PrivilegedTurn → List String → List String → Type 0
  Tracked g approved handed = IsTracked uuid4 sha256 injective g approved handed

  -- A call that keeps the decision, brings no claim and forgets no request.
  kept-Spent :
      (id : String) (g h : PrivilegedTurn)
      → Spent id g
      → lookup id h.decisions ≡ lookup id g.decisions
      → ((c : PrivilegedClaim)
          → submit_id c ≡ id
          → is_absent (lookup c.request_id h.claims) ≡ false
          → is_absent (lookup c.request_id g.claims) ≡ false)
      → (is_absent (lookup id g.requests) ≡ false → is_absent (lookup id h.requests) ≡ false)
      → g.draws ≤ h.draws
      → Spent id h
  kept-Spent id g h s same old kept draws = record {
    not_pending = rw same s.not_pending;
    not_accepted = rw same s.not_accepted;
    submitted = λ c own claimed. kept (s.submitted c own (old c own claimed));
    drawn = λ n le. s.drawn n (omega arith);
  }

  -- One that keeps claims, requests and decisions.
  pub kept-Tracked :
      (g h : PrivilegedTurn) (approved handed : List String)
      → Tracked g approved handed
      → h.claims ≡ g.claims
      → h.requests ≡ g.requests
      → h.decisions ≡ g.decisions
      → g.draws ≤ h.draws
      → Tracked h approved handed
  kept-Tracked g h approved handed t claims requests decisions draws = record {
    approved_before = λ id. rw decisions (t.approved_before id);
    spent = λ id known.
        kept-Spent id g h (t.spent id known) (ap (lookup id) decisions)
          (λ c own. rw claims (λ claimed. claimed)) (rw requests (λ there. there)) draws;
    unused_request = λ n le. rw requests (t.unused_request n (omega arith));
    unused_claim = λ n le. rw claims (t.unused_claim n (omega arith));
  }

  -- `_invalidate`
  pub closed-Tracked :
      (g h : PrivilegedTurn) (approved handed : List String)
      → Tracked g approved handed
      → h.claims ≡ g.claims
      → h.requests ≡ g.requests
      → h.decisions ≡ expire_all g.events g.decisions
      → h.draws ≡ g.draws
      → Tracked h approved handed
  unfolding is_decision
  closed-Tracked g h approved handed t claims requests decisions draws = record {
    approved_before = λ id. rw decisions (elim (expire_all-lookup g.events g.decisions id) [
      | inl same ↦ rw same (t.approved_before id)
      | inr gone ↦ rw gone (λ no. ground (arith, no))
    ]);
    spent = λ id known.
        let s = t.spent id known in
        record {
          not_pending = rw decisions (elim (expire_all-lookup g.events g.decisions id) [
            | inl same ↦ rw same s.not_pending
            | inr gone ↦ rw gone refl
          ]);
          not_accepted = rw decisions (elim (expire_all-lookup g.events g.decisions id) [
            | inl same ↦ rw same s.not_accepted
            | inr gone ↦ rw gone refl
          ]);
          submitted = λ c. rw (claims, requests) (s.submitted c);
          drawn = λ n le. s.drawn n (ground (arith, draws, le));
        };
    unused_request = λ n le. rw requests (t.unused_request n (ground (arith, draws, le)));
    unused_claim = λ n le. rw claims (t.unused_claim n (ground (arith, draws, le)));
  }

  -- A new turn.
  pub begun-Tracked :
      (g h : PrivilegedTurn) (approved handed : List String)
      → Tracked g approved handed
      → h.claims ≡ []
      → h.requests ≡ []
      → h.decisions ≡ []
      → h.draws ≡ g.draws + 1
      → Tracked h approved handed
  unfolding is_decision is_absent lookup
  begun-Tracked g h approved handed t claims requests decisions draws = record {
    approved_before = λ id. rw decisions (λ no. ground (arith, no));
    spent = λ id known.
        let s = t.spent id known in
        record {
          not_pending = rw decisions refl;
          not_accepted = rw decisions refl;
          submitted = λ c own. rw claims (λ no. ground (arith, no));
          drawn = λ n le. s.drawn n (ground (arith, draws, le));
        };
    unused_request = λ n le. rw requests refl;
    unused_claim = λ n le. rw claims refl;
  }

  pub claimed-Tracked :
      (g h : PrivilegedTurn) (c : PrivilegedClaim) (approved handed : List String)
      → Tracked g approved handed
      → h.claims ≡ insert (uuid4 g.draws) c g.claims
      → h.requests ≡ g.requests
      → h.decisions ≡ g.decisions
      → h.draws ≡ g.draws + 1
      → Tracked h approved handed
  unfolding submit_id
  claimed-Tracked g h c approved handed t claims requests decisions draws = record {
    approved_before = λ id. rw decisions (t.approved_before id);
    spent = λ id known.
        kept-Spent id g h (t.spent id known) (ap (lookup id) decisions)
          (λ d own. elim (Bool-cases (uuid4 g.draws == d.request_id)) [
            | inl is ↦ λ claimed. absurd (
                (t.spent id known).drawn g.draws (omega arith)
                  (ap (λ u. String.◌∷◌ "E" u) ((eq_iff (uuid4 g.draws) d.request_id).0 is) ∙ own))
            | inr differs ↦
                rw (claims, lookup-insert (uuid4 g.draws) d.request_id c g.claims, differs)
                  (λ claimed. claimed)
          ])
          (rw requests (λ there. there)) (ground (arith, draws));
    unused_request = λ n le. rw requests (t.unused_request n (ground (arith, draws, le)));
    unused_claim = λ n le.
        let differs : uuid4 g.draws == uuid4 n ≡ false =
          ground (arith, eq_iff (uuid4 g.draws) (uuid4 n), injective g.draws n, draws, le) in
        rw (claims, lookup-insert (uuid4 g.draws) (uuid4 n) c g.claims, differs)
          (t.unused_claim n (ground (arith, draws, le)));
  }

  pub requested-Tracked :
      (g h : PrivilegedTurn) (r : PendingPrivilege) (approved handed : List String)
      → Tracked g approved handed
      → r.id ≡ submit_id r.claim
      → is_absent (lookup r.claim.request_id g.claims) ≡ false
      → lookup r.id g.requests ≡ none
      → h.claims ≡ g.claims
      → h.requests ≡ insert r.id r g.requests
      → h.decisions ≡ insert r.id pending g.decisions
      → h.draws ≡ g.draws
      → Tracked h approved handed
  unfolding is_decision is_absent submit_id
  requested-Tracked g h r approved handed t named claimed new claims requests decisions draws =
      record {
        approved_before = λ id.
            rw (decisions, lookup-insert r.id id pending g.decisions)
              (elim (Bool-cases (r.id == id)) [
                | inl is ↦ rw is (λ no. ground (arith, no))
                | inr differs ↦ rw differs (t.approved_before id)
              ]);
        spent = λ id known.
            let s = t.spent id known in
            let differs : r.id == id ≡ false = elim (Bool-cases (r.id == id)) [
              | inr differs ↦ differs
              | inl is ↦
                  let same = (eq_iff r.id id).0 is in
                  ground (
                    arith,
                    s.submitted r.claim (sym named ∙ same) claimed,
                    new,
                    ap (λ i. lookup i g.requests) same,
                  )
            ] in
            kept-Spent id g h s
              (rw (decisions, lookup-insert r.id id pending g.decisions, differs) refl)
              (λ c own. rw claims (λ there. there))
              (rw (requests, lookup-insert r.id id r g.requests, differs) (λ there. there))
              (ground (arith, draws));
        unused_request = λ n le.
            let differs : r.id == String.◌∷◌ "E" (uuid4 n) ≡ false =
              elim (Bool-cases (r.id == String.◌∷◌ "E" (uuid4 n))) [
                | inr differs ↦ differs
                | inl is ↦
                    let same =
                      tail_same r.claim.request_id (uuid4 n)
                        (sym named ∙ (eq_iff r.id (String.◌∷◌ "E" (uuid4 n))).0 is) in
                    ground (
                      arith,
                      claimed,
                      t.unused_claim n (ground (arith, draws, le)),
                      ap (λ i. lookup i g.claims) same,
                    )
              ] in
            rw (requests, lookup-insert r.id (String.◌∷◌ "E" (uuid4 n)) r g.requests, differs)
              (t.unused_request n (ground (arith, draws, le)));
        unused_claim = λ n le. rw claims (t.unused_claim n (ground (arith, draws, le)));
      }

  pub decided-Tracked :
      (g h : PrivilegedTurn) (id : String) (d : Decision)
      (approved approved' handed handed' : List String)
      → Tracked g approved handed
      → is_absent (lookup id g.requests) ≡ false
      → h.claims ≡ g.claims
      → h.requests ≡ g.requests
      → h.decisions ≡ insert id d g.decisions
      → h.draws ≡ g.draws
      → is_decision pending (some d) ≡ false
      → (is_decision accepted (some d) ≡ true → contains id approved' ≡ true)
      → ((i : String) → contains i approved ≡ true → contains i approved' ≡ true)
      → ((i : String) → contains i handed' ≡ true → (i == id ≡ false → contains i handed ≡ true))
      → (contains id handed' ≡ true → is_decision accepted (some d) ≡ false)
      → Tracked h approved' handed'
  unfolding submit_id
  decided-Tracked g h id d approved approved' handed handed' t there claims requests decisions draws
        decided accepts more fewer ends =
      record {
        approved_before = λ i.
            rw (decisions, lookup-insert id i d g.decisions)
              (elim (Bool-cases (id == i)) [
                | inl is ↦ rw (is, sym ((eq_iff id i).0 is)) accepts
                | inr differs ↦ rw differs (λ was. more i (t.approved_before i was))
              ]);
        spent = λ i known. elim (Bool-cases (id == i)) [
          | inl is ↦
              let same = (eq_iff id i).0 is in
              record {
                not_pending = rw (decisions, lookup-insert id i d g.decisions, is) decided;
                not_accepted =
                    rw (decisions, lookup-insert id i d g.decisions, is)
                      (ends (subst (λ k. contains k handed' ≡ true) (sym same) known));
                submitted = λ c own claimed.
                    rw requests (subst (λ k. is_absent (lookup k g.requests) ≡ false) same there);
                drawn = λ n le taken. ground (
                  arith,
                  there,
                  t.unused_request n (ground (arith, draws, le)),
                  ap (λ k. lookup k g.requests) (taken ∙ sym same),
                );
              }
          | inr differs ↦
              kept-Spent i g h
                (t.spent i (fewer i known (ground (arith, differs, eq_iff id i, eq_iff i id))))
                (rw (decisions, lookup-insert id i d g.decisions, differs) refl)
                (λ c own. rw claims (λ k. k)) (rw requests (λ k. k)) (ground (arith, draws))
        ];
        unused_request = λ n le. rw requests (t.unused_request n (ground (arith, draws, le)));
        unused_claim = λ n le. rw claims (t.unused_claim n (ground (arith, draws, le)));
      }
