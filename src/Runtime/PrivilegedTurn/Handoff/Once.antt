-- ===== src/Runtime/PrivilegedTurn/Handoff/Once.antt =====
-- No operation is handed off without an approval, or twice.
use simple_ai_agent.Common.{
  ℕ, ◌≡◌, refl, String, false, some, List, [], ◌∷◌, ok, arith, contains, lookup, insert, eq_iff,
  inl, inr, Bool-cases,
}
use simple_ai_agent.Runtime.PrivilegedTurn.{
  Decision, pending, accepted, rejected, expired, handed_off, PrivilegedTurn, new_turn, invalidate,
  is_decision, is_absent,
}
use simple_ai_agent.Runtime.PrivilegedTurn.History.{
  Entry, approval_of, TurnCall, perform, perform_all, Move, stays, closes, begins, refuses_turn,
  makes_claim, makes_request, makes_decision, hands_off,
}
use simple_ai_agent.Runtime.PrivilegedTurn.Moves.{perform-Move}
use simple_ai_agent.Runtime.PrivilegedTurn.Handoff.{HandsOff, HandsOff-append, IsTracked}
use simple_ai_agent.Runtime.PrivilegedTurn.Handoff.Tracked.{
  kept-Tracked, closed-Tracked, begun-Tracked, claimed-Tracked, requested-Tracked, decided-Tracked,
}

module _ (uuid4 : ℕ → String) (sha256 : String → String)
    (injective : (m n : ℕ) → uuid4 m ≡ uuid4 n → m ≡ n) where
  abbrev Tracked : PrivilegedTurn → List String → List String → Type 0
  Tracked g approved handed = IsTracked uuid4 sha256 injective g approved handed

  decided_Tracks :
      (g h : PrivilegedTurn) (id : String) (d : Decision) (approved handed : List String)
      → Tracked g approved handed
      → lookup id g.decisions ≡ some pending
      → is_absent (lookup id g.requests) ≡ false
      → h.claims ≡ g.claims
      → h.requests ≡ g.requests
      → h.decisions ≡ insert id d g.decisions
      → h.draws ≡ g.draws
      → is_decision pending (some d) ≡ false
      → HandsOff (Tracked h) approved handed (approval_of id (ok d))
  unfolding HandsOff approval_of is_decision
  decided_Tracks g h id pending a hd t was there claims requests decisions draws decided =
      absurd (ground (arith, decided))
  decided_Tracks g h id accepted a hd t was there claims requests decisions draws decided =
      decided-Tracked uuid4 sha256 injective g h id accepted a (id ∷ a) hd hd t there claims
        requests decisions draws decided (λ _. ground (arith, eq_iff id id))
        (λ i known. ground (arith, known)) (λ i known _. known)
        (λ known. ground (arith, was, (t.spent id known).not_pending))
  decided_Tracks g h id rejected a hd t was there claims requests decisions draws decided =
      decided-Tracked uuid4 sha256 injective g h id rejected a a hd hd t there claims requests
        decisions draws decided (λ no. ground (arith, no)) (λ i known. known) (λ i known _. known)
        (λ _. refl)
  decided_Tracks g h id expired a hd t was there claims requests decisions draws decided =
      decided-Tracked uuid4 sha256 injective g h id expired a a hd hd t there claims requests
        decisions draws decided (λ no. ground (arith, no)) (λ i known. known) (λ i known _. known)
        (λ _. refl)
  decided_Tracks g h id handed_off a hd t was there claims requests decisions draws decided =
      decided-Tracked uuid4 sha256 injective g h id handed_off a a hd hd t there claims requests
        decisions draws decided (λ no. ground (arith, no)) (λ i known. known) (λ i known _. known)
        (λ _. refl)

  Move-Tracks :
      (g h : PrivilegedTurn) (entries : List Entry) (approved handed : List String)
      → Move uuid4 sha256 g entries h
      → Tracked g approved handed
      → HandsOff (Tracked h) approved handed entries
  unfolding HandsOff invalidate is_decision
  Move-Tracks g h entries a hd (stays _ claims requests decisions draws) t =
      kept-Tracked uuid4 sha256 injective g h a hd t claims requests decisions
        (ground (arith, draws))
  Move-Tracks g h entries a hd (closes _ claims requests decisions draws) t =
      closed-Tracked uuid4 sha256 injective g h a hd t claims requests decisions draws
  Move-Tracks g h entries a hd (begins _ claims requests decisions draws) t =
      begun-Tracked uuid4 sha256 injective g h a hd t claims requests decisions draws
  Move-Tracks g h entries a hd (refuses_turn _ claims requests decisions draws) t =
      kept-Tracked uuid4 sha256 injective g h a hd t claims requests decisions
        (ground (arith, draws))
  Move-Tracks g h entries a hd (makes_claim _ c claims requests decisions draws) t =
      claimed-Tracked uuid4 sha256 injective g h c a hd t claims requests decisions draws
  Move-Tracks g h entries a hd (makes_request _ r named claimed new claims requests decisions draws)
        t =
      requested-Tracked uuid4 sha256 injective g h r a hd t named claimed new claims requests
        decisions draws
  Move-Tracks g h entries a hd
        (makes_decision _ id d was there claims requests decisions decided draws) t =
      decided_Tracks g h id d a hd t was there claims requests decisions draws decided
  Move-Tracks g h entries a hd (hands_off _ id was there claims requests decisions draws) t = (
    t.approved_before id (rw was refl),
    elim (Bool-cases (contains id hd)) [
      | inr new ↦ new
      | inl known ↦ ground (arith, was, (t.spent id known).not_accepted)
    ],
    decided-Tracked uuid4 sha256 injective g h id handed_off a a hd (id ∷ hd) t there claims
        requests decisions draws refl (λ no. ground (arith, no)) (λ i known. known)
        (λ i known differs. ground (arith, known, differs, eq_iff id i, eq_iff i id)) (λ _. refl),
  )

  -- A new object.
  new_turn-Tracked : Tracked new_turn [] []
  unfolding new_turn is_absent is_decision lookup
  new_turn-Tracked = record {
    approved_before = λ id no. ground (arith, no);
    spent = λ id no. ground (arith, no);
    unused_request = λ n le. refl;
    unused_claim = λ n le. refl;
  }

  perform_all-Tracks :
      (calls : List TurnCall) (g : PrivilegedTurn) (approved handed : List String)
      → Tracked g approved handed
      → HandsOff (λ _ _. Unit) approved handed ((perform_all uuid4 sha256 calls g).0)
  unfolding perform_all HandsOff
  perform_all-Tracks [] g approved handed t = tt
  perform_all-Tracks (c ∷ cs) g approved handed t =
      let after = (perform uuid4 sha256 c g).1 in
      HandsOff-append (Tracked after) (λ _ _. Unit) approved handed ((perform uuid4 sha256 c g).0)
        ((perform_all uuid4 sha256 cs after).0)
        (Move-Tracks g after ((perform uuid4 sha256 c g).0) approved handed
          (perform-Move uuid4 sha256 c g) t)
        (λ a hd tracked. perform_all-Tracks cs after a hd tracked)

  -- In any sequence of calls of a new object, in any contexts and at any times: an operation is
  -- handed off only for a request that the user accepted before, and at most once for each
  -- request, over all turns.
  pub perform_all-HandsOff :
      (calls : List TurnCall)
      → HandsOff (λ _ _. Unit) [] [] ((perform_all uuid4 sha256 calls new_turn).0)
  perform_all-HandsOff calls = perform_all-Tracks calls new_turn [] [] new_turn-Tracked
