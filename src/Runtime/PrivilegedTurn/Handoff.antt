-- ===== src/Runtime/PrivilegedTurn/Handoff.antt =====
-- What the approvals and the hand-offs of a history are. The hypothesis on `uuid4` is that no
-- identifier comes twice.
pub mod Tracked
pub mod Once
use simple_ai_agent.Common.{
  ℕ, ◌+◌, ◌≤◌, ◌<◌, ◌≡◌, ◌≢◌, refl, sym, ap, subst, ◌∙◌, String, Bool, true, false, not, ◌&&◌, ◌||◌,
  Option, none, some, List, [], ◌∷◌, ◌++◌, ◌==◌, Result, ok, err, arith, contains, lookup, insert,
  lookup-insert, eq_iff, ◌⊎◌, inl, inr, Bool-cases, if◌then◌else◌,
}
use simple_ai_agent.Runtime.PrivilegedTurn.{
  PrivilegedClaim, PendingPrivilege, Decision, pending, accepted, rejected, expired, handed_off,
  PrivilegedTurn, new_turn, invalidate, expire_all, is_decision, is_absent, submit_id,
}
use simple_ai_agent.Runtime.PrivilegedTurn.History.{
  Entry, approval, handoff, approval_of, TurnCall, perform, perform_all, Move, stays, closes,
  begins, refuses_turn, makes_claim, makes_request, makes_decision, hands_off,
}

-- Each hand-off follows an approval of its request, and no other hand-off of it, where `approved`
-- and `handed` came before; what holds then is `After` of all of them.
unfoldable pub HandsOff :
    (List String → List String → Type 0) → List String → List String → List Entry → Type 0
HandsOff After approved handed [] = After approved handed
HandsOff After approved handed (approval id ∷ rest) = HandsOff After (id ∷ approved) handed rest
HandsOff After approved handed (handoff id ∷ rest) =
    (contains id approved ≡ true)
    × (contains id handed ≡ false)
    × HandsOff After approved (id ∷ handed) rest

pub HandsOff-append :
    (Between After : List String → List String → Type 0) (approved handed : List String)
    (xs ys : List Entry)
    → HandsOff Between approved handed xs
    → ((a h : List String) → Between a h → HandsOff After a h ys)
    → HandsOff After approved handed (xs ++ ys)
unfolding HandsOff
HandsOff-append Between After approved handed [] ys p next = next approved handed p
HandsOff-append Between After approved handed (approval id ∷ xs) ys p next =
    HandsOff-append Between After (id ∷ approved) handed xs ys p next
HandsOff-append Between After approved handed (handoff id ∷ xs) ys (known, new, p) next =
    (known, new, HandsOff-append Between After approved (id ∷ handed) xs ys p next)

-- What `_invalidate` makes of a decision.
pub expire_all-lookup :
    (events : List (String × Bool)) (decisions : List (String × Decision)) (id : String)
    → (lookup id (expire_all events decisions) ≡ lookup id decisions)
      ⊎ (lookup id (expire_all events decisions) ≡ some expired)
unfolding expire_all
expire_all-lookup [] decisions id = inl refl
expire_all-lookup (event ∷ rest) decisions id =
    elim (expire_all-lookup rest (insert (event.0) expired decisions) id) [
      | inr gone ↦ inr gone
      | inl same ↦ elim (Bool-cases (event.0 == id)) [
        | inl is ↦ inr (same ∙ lookup-insert (event.0) id expired decisions ∙ rw is refl)
        | inr differs ↦ inl (same ∙ lookup-insert (event.0) id expired decisions ∙ rw differs refl)
      ]
    ]

pub tail_same : (s t : String) → String.◌∷◌ "E" s ≡ String.◌∷◌ "E" t → s ≡ t
tail_same s t h = ground (arith, h)

module _ (uuid4 : ℕ → String) (sha256 : String → String)
    (injective : (m n : ℕ) → uuid4 m ≡ uuid4 n → m ≡ n) where
  -- A request that was handed off: it is not pending or accepted, and a live claim cannot submit
  -- it again.
  pub record IsSpent (id : String) (g : PrivilegedTurn) : Type 0 where
    pub not_pending : is_decision pending (lookup id g.decisions) ≡ false
    pub not_accepted : is_decision accepted (lookup id g.decisions) ≡ false
    pub submitted :
        (c : PrivilegedClaim)
        → submit_id c ≡ id
        → is_absent (lookup c.request_id g.claims) ≡ false
        → is_absent (lookup id g.requests) ≡ false
    pub drawn : (n : ℕ) → g.draws ≤ n → String.◌∷◌ "E" (uuid4 n) ≢ id

  pub record IsTracked (g : PrivilegedTurn) (approved handed : List String) : Type 0 where
    pub approved_before :
        (id : String)
        → is_decision accepted (lookup id g.decisions) ≡ true
        → contains id approved ≡ true
    pub spent : (id : String) → contains id handed ≡ true → IsSpent id g
    -- The identifiers to come are not in use.
    pub unused_request :
        (n : ℕ) → g.draws ≤ n → is_absent (lookup (String.◌∷◌ "E" (uuid4 n)) g.requests) ≡ true
    pub unused_claim : (n : ℕ) → g.draws ≤ n → is_absent (lookup (uuid4 n) g.claims) ≡ true
