-- ===== src/Runtime/PrivilegedTurn/Budget.antt =====
-- How many claims a turn grants.
use simple_ai_agent.Common.{
  ℕ, ◌+◌, ◌-◌, ◌≤◌, ◌≡◌, refl, ap, String, true, false, ◌||◌, Option, List, [], ◌∷◌, ◌++◌, ◌==◌,
  arith, contains, insert, eq_iff, Bool-cases, inl, inr, if◌then◌else◌,
}
use simple_ai_agent.Runtime.PrivilegedTurn.{
  PrivilegedClaim, PrivilegedTurn, elevated_operation, operations, new_turn, invalidate, arm,
  revoke, claim_refused, is_absent, pending_requests, decide, look, require_accepted, enter_turn,
  leave_turn, claim, submit,
}
use simple_ai_agent.Runtime.PrivilegedTurn.History.{
  TurnCall, arms, revokes, enters, leaves, claims_one, submits, lists, decides, looks, requires,
  perform, perform_all,
}

-- The number of claims of an operation.
unfoldable pub claims_of : String → List (String × PrivilegedClaim) → ℕ
claims_of operation [] = 0
claims_of operation (entry ∷ rest) =
    (if (entry.1).operation == operation then 1 else 0) + claims_of operation rest

claims_of-insert :
    (operation id : String) (c : PrivilegedClaim) (claims : List (String × PrivilegedClaim))
    → claims_of operation (insert id c claims)
      ≤ claims_of operation claims + (if c.operation == operation then 1 else 0)
unfolding claims_of insert
claims_of-insert operation id c [] = ground arith
claims_of-insert operation id c (entry ∷ rest) =
    ground (arith, claims_of-insert operation id c rest)

contains-snoc :
    (k x : String) (xs : List String) → contains k (xs ++ x ∷ []) ≡ contains k xs || x == k
contains-snoc k x [] = ground arith
contains-snoc k x (y ∷ xs) = ground (arith, contains-snoc k x xs)

other :
    (p o : String)
    → p == elevated_operation ≡ true
    → o == elevated_operation ≡ false
    → p == o ≡ false
other p o is differs =
    ground
      (arith, is, differs, eq_iff p elevated_operation, eq_iff o elevated_operation, eq_iff p o)

-- In a turn, what was claimed so far.
record IsLimited (g : PrivilegedTurn) : Type 0 where
  bounded : (o : String) → o == elevated_operation ≡ false → claims_of o g.claims ≤ 1
  single : g.operation == elevated_operation ≡ false → g.used ≡ false → g.claims ≡ []
  unclaimed :
      g.operation == elevated_operation ≡ true
      → (o : String) → o == elevated_operation ≡ false
      → contains o g.fixed_used ≡ false
      → claims_of o g.claims ≡ 0

Limits : PrivilegedTurn → Type 0
Limits g = is_absent g.turn ≡ false → IsLimited g

module _ (uuid4 : ℕ → String) (sha256 : String → String) where
  kept :
      (g h : PrivilegedTurn)
      → Limits g
      → h.turn ≡ g.turn
      → h.claims ≡ g.claims
      → h.operation ≡ g.operation
      → h.used ≡ g.used
      → h.fixed_used ≡ g.fixed_used
      → Limits h
  unfolding Limits
  kept g h l turn claims operation used fixed running =
      let s = l (ground (arith, running, ap is_absent turn)) in
      record {
        bounded = λ o. rw claims (s.bounded o);
        single = rw (operation, used, claims) s.single;
        unclaimed = rw (operation, fixed, claims) s.unclaimed;
      }

  granted :
      (context : Option String) (operation : String) (now wall : ℕ) (g : PrivilegedTurn)
      → claim_refused uuid4 sha256 context operation now g ≡ false
      → IsLimited g
      → IsLimited ((claim uuid4 sha256 context operation now wall g).1)
  unfolding claim claim_refused claims_of
  granted context operation now wall g good s =
      let made : PrivilegedClaim = record {
        request_id = uuid4 g.draws;
        deadline_unix = wall + g.deadline - now;
        operation = operation;
      } in
      let added : (o : String)
          → claims_of o (insert (uuid4 g.draws) made g.claims)
            ≤ claims_of o g.claims + (if operation == o then 1 else 0) =
        λ o. claims_of-insert o (uuid4 g.draws) made g.claims in
      elim (Bool-cases (g.operation == elevated_operation)) [
        | inr legacy ↦
            let empty : g.claims ≡ [] = s.single legacy (ground (arith, good)) in
            rw (good, legacy)
              (record {
                bounded = λ o fixed. ground (arith, added o, ap (claims_of o) empty);
                single = λ _ unused. ground (arith, unused);
                unclaimed = λ unified. ground (arith, unified, legacy);
              })
        | inl unified ↦ elim (Bool-cases (operation == elevated_operation)) [
          | inl elevated ↦
              rw (good, unified, elevated)
                (record {
                  bounded = λ o fixed.
                      ground (arith, added o, s.bounded o fixed, other operation o elevated fixed);
                  single = λ legacy. ground (arith, unified, legacy);
                  unclaimed = λ _ o fixed unused. ground (
                    arith,
                    added o,
                    s.unclaimed unified o fixed unused,
                    other operation o elevated fixed,
                  );
                })
          | inr once ↦
              let unused : contains operation g.fixed_used ≡ false =
                ground (arith, good, unified, once) in
              rw (good, unified, once)
                (record {
                  bounded = λ o fixed. elim (Bool-cases (operation == o)) [
                    | inl same ↦ ground (
                      arith,
                      added o,
                      s.unclaimed unified operation once unused,
                      ap (λ k. claims_of k g.claims) ((eq_iff operation o).0 same),
                      same,
                    )
                    | inr differs ↦ ground (arith, added o, differs, s.bounded o fixed)
                  ];
                  single = λ legacy. ground (arith, unified, legacy);
                  unclaimed = λ _ o fixed free. ground (
                    arith,
                    added o,
                    free,
                    contains-snoc o operation g.fixed_used,
                    s.unclaimed unified o fixed,
                  );
                })
        ]
      ]

  arm-Limits :
      (operation : String) (now : ℕ) (g : PrivilegedTurn)
      → Limits g
      → Limits ((arm operation now g).1)
  unfolding Limits arm
  arm-Limits operation now g l = elim (Bool-cases (contains operation (operations))) [
    | inr unknown ↦ rw unknown l
    | inl known ↦ elim (Bool-cases (is_absent g.turn)) [
      | inr busy ↦ rw (known, busy) l
      | inl free ↦ rw (known, free) (λ running. ground (arith, free, running))
    ]
  ]

  revoke-Limits : (g : PrivilegedTurn) → Limits g → Limits ((revoke g).1)
  unfolding Limits revoke invalidate
  revoke-Limits g l running =
      let s = l running in
      record {
        bounded = s.bounded;
        single = λ legacy unused. ground (arith, unused);
        unclaimed = s.unclaimed;
      }

  enter_turn-Limits :
      (profile : String) (now later : ℕ) (g : PrivilegedTurn)
      → Limits g
      → Limits ((enter_turn uuid4 sha256 profile now later g).1)
  unfolding Limits enter_turn claims_of
  enter_turn-Limits profile now later g l = elim (Bool-cases (profile == "head")) [
    | inr guest ↦ rw guest l
    | inl head ↦ elim (Bool-cases (is_absent g.turn)) [
      | inr busy ↦
          rw (head, busy) (kept g (record g { draws = g.draws + 1 }) l refl refl refl refl refl)
      | inl free ↦
          rw (head, free)
            (λ _. record {
              bounded = λ o fixed. omega arith;
              single = λ _ _. refl;
              unclaimed = λ _ o fixed unused. refl;
            })
    ]
  ]

  leave_turn-Limits : (g : PrivilegedTurn) → Limits ((leave_turn uuid4 sha256 g).1)
  unfolding Limits leave_turn is_absent
  leave_turn-Limits g running = ground (arith, running)

  claim-Limits :
      (context : Option String) (operation : String) (now wall : ℕ) (g : PrivilegedTurn)
      → Limits g
      → Limits ((claim uuid4 sha256 context operation now wall g).1)
  unfolding Limits claim
  claim-Limits context operation now wall g l =
      elim (Bool-cases (claim_refused uuid4 sha256 context operation now g)) [
        | inl bad ↦ rw bad l
        | inr good ↦
            λ running. granted context operation now wall g good (l (ground (arith, running, good)))
      ]

  perform-Limits :
      (c : TurnCall) (g : PrivilegedTurn) → Limits g → Limits ((perform uuid4 sha256 c g).1)
  unfolding perform submit pending_requests decide look require_accepted invalidate
  perform-Limits (arms operation now) g l = arm-Limits operation now g l
  perform-Limits revokes g l = revoke-Limits g l
  perform-Limits (enters profile now later) g l = enter_turn-Limits profile now later g l
  perform-Limits leaves g l = leave_turn-Limits g
  perform-Limits (claims_one context operation now wall) g l =
      claim-Limits context operation now wall g l
  perform-Limits (submits context c details now) g l =
      kept g ((submit uuid4 sha256 context c details now g).1) l (ground arith) (ground arith)
        (ground arith) (ground arith) (ground arith)
  perform-Limits (lists now) g l =
      kept g ((pending_requests now g).1) l (ground arith) (ground arith) (ground arith)
        (ground arith) (ground arith)
  perform-Limits (decides id accept now) g l =
      kept g ((decide id accept now g).1) l (ground arith) (ground arith) (ground arith)
        (ground arith) (ground arith)
  perform-Limits (looks request now) g l = l
  perform-Limits (requires context request now) g l =
      kept g ((require_accepted context request now g).1) l (ground arith) (ground arith)
        (ground arith) (ground arith) (ground arith)

  perform_all-Limits :
      (cs : List TurnCall) (g : PrivilegedTurn)
      → Limits g
      → Limits ((perform_all uuid4 sha256 cs g).1)
  unfolding perform_all
  perform_all-Limits [] g l = l
  perform_all-Limits (c ∷ cs) g l =
      perform_all-Limits cs ((perform uuid4 sha256 c g).1) (perform-Limits c g l)

  -- After any calls of a new object, while a turn runs: it holds at most one claim of each
  -- operation other than the elevated commands.
  pub perform_all-claims_of :
      (calls : List TurnCall) (operation : String)
      → is_absent ((perform_all uuid4 sha256 calls new_turn).1).turn ≡ false
      → operation == elevated_operation ≡ false
      → claims_of operation ((perform_all uuid4 sha256 calls new_turn).1).claims ≤ 1
  unfolding Limits new_turn is_absent
  perform_all-claims_of calls operation running fixed =
      (perform_all-Limits calls new_turn (λ none_runs. ground (arith, none_runs)) running).bounded
        operation fixed
