-- ===== src/Runtime/PrivilegedTurn/Tests.antt =====
-- A turn with one command that the user accepts, and the theorems on its history.
use Prim.Native.String.{count}
use Prim.Native.String.count as Count
use simple_ai_agent.Common.{
  ℕ, none, if◌then◌else◌, zero, suc, ◌≤◌, ◌≡◌, ◌≢◌, refl, sym, ap, ◌∙◌, String, true, false, some,
  List, [], ◌∷◌, ok, err,
}
use simple_ai_agent.Runtime.PrivilegedTurn.{
  PrivilegedClaim, PendingPrivilege, new_turn, elevated_operation, evidence_operation, is_absent,
  accepted, not_enabled, not_accepted, claim, decide, require_accepted, revoke,
}
use simple_ai_agent.Runtime.PrivilegedTurn.History.{
  TurnCall, arms, enters, leaves, claims_one, submits, decides, requires, approval, handoff,
  perform_all,
}
use simple_ai_agent.Runtime.PrivilegedTurn.Handoff.{HandsOff}
use simple_ai_agent.Runtime.PrivilegedTurn.Handoff.Once.{perform_all-HandsOff}
use simple_ai_agent.Runtime.PrivilegedTurn.Budget.{claims_of, perform_all-claims_of}
use simple_ai_agent.Runtime.PrivilegedTurn.Status.{armed_operation, status}
use simple_ai_agent.Runtime.PrivilegedTurn.Revoked.{has_arm, revoke-ends}

abbrev identifiers : ℕ → String
identifiers zero = ""
identifiers (suc n) = String.◌∷◌ "a" (identifiers n)

count-identifiers : (n : ℕ) → count (identifiers n) ≡ n
count-identifiers zero = refl
count-identifiers (suc n) = Count.cons "a" (identifiers n) ∙ ap suc (count-identifiers n)

identifiers-injective : (m n : ℕ) → identifiers m ≡ identifiers n → m ≡ n
identifiers-injective m n same = sym (count-identifiers m) ∙ ap count same ∙ count-identifiers n

abbrev digest : String → String
digest s = "0"

-- The turn is the first to draw an identifier, the claim the second.
abbrev made : PrivilegedClaim
made = record { request_id = "a"; deadline_unix = 2_805; operation = elevated_operation }

abbrev request : PendingPrivilege
request = record { id = "Ea"; claim = made; review_json = "{}"; review_sha256 = "0" }

-- The second hand-off is refused.
command : List TurnCall
command =
    arms elevated_operation 5
    ∷ enters "head" 10 10
    ∷ claims_one (some "") elevated_operation 15 1_010
    ∷ submits (some "") made (some "{}") 16
    ∷ decides "Ea" true 20
    ∷ requires (some "") request 21
    ∷ requires (some "") request 22
    ∷ []

command_is_handed_off :
    (perform_all identifiers digest command new_turn).0 ≡ approval "Ea" ∷ handoff "Ea" ∷ []
unfolding perform_all new_turn command
command_is_handed_off = refl

perform_all-HandsOff_example :
    HandsOff (λ _ _. Unit) [] [] ((perform_all identifiers digest command new_turn).0)
perform_all-HandsOff_example = perform_all-HandsOff identifiers digest identifiers-injective command

no_arm : has_arm (leaves ∷ enters "head" 30 30 ∷ []) ≡ false
unfolding has_arm
no_arm = refl

revoke-ends_example :
    let final =
      (perform_all identifiers digest
        (leaves ∷ enters "head" 30 30 ∷ [])
        ((revoke new_turn).1)).1 in
    ((claim identifiers digest (some "a") elevated_operation 31 31 final).0 ≡ err not_enabled)
    × ((decide "Ea" true 31 final).0 ≢ ok accepted)
    × ((require_accepted (some "a") request 31 final).0 ≡ err not_accepted)
    × (armed_operation 31 final ≡ none)
    × (status 31 final ≡ (if is_absent final.turn then "disabled" else "expired"))
revoke-ends_example =
    revoke-ends identifiers digest new_turn (leaves ∷ enters "head" 30 30 ∷ []) (some "a")
      elevated_operation "Ea" request true 31 31 no_arm

-- The second claim is refused.
two_collections : List TurnCall
two_collections =
    arms elevated_operation 5
    ∷ enters "head" 10 10
    ∷ claims_one (some "") evidence_operation 15 1_010
    ∷ claims_one (some "") evidence_operation 16 1_011
    ∷ []

a_turn_runs : is_absent ((perform_all identifiers digest two_collections new_turn).1).turn ≡ false
unfolding perform_all new_turn two_collections is_absent
a_turn_runs = refl

perform_all-claims_of_example :
    claims_of evidence_operation
      ((perform_all identifiers digest two_collections new_turn).1).claims
    ≤ 1
perform_all-claims_of_example =
    perform_all-claims_of identifiers digest two_collections evidence_operation a_turn_runs refl
