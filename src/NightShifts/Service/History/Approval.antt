-- ===== src/NightShifts/Service/History/Approval.antt =====
-- Nothing is published or merged without a recorded approval.
use simple_ai_agent.Common.{
  ◌≡◌, refl, sym, subst, ◌∙◌, ◌++◌, String, eq_refl, Bool, true, false, ◌&&◌, ◌⊎◌, inl, inr, none,
  some, List, [], ◌∷◌, arith, All, any, any-append,
}
use simple_ai_agent.NightShifts.Models.{
  JobStatus, NightShiftJob, NightShiftEvent, Payload, same_status,
}
use simple_ai_agent.NightShifts.StateMachine.{is_allowed}
use simple_ai_agent.NightShifts.Storage.{World, Database, get_job}
use simple_ai_agent.NightShifts.Storage.Invariant.{IsFresh}
use simple_ai_agent.NightShifts.Service.Local.{Texts}
use simple_ai_agent.NightShifts.Service.Local.Refinement.{AllowsResults}
use simple_ai_agent.NightShifts.Service.Trace.{
  Rules, Says, Change, move_payload, moves, flags, Trace, here, next,
}
use simple_ai_agent.NightShifts.Service.History.{
  Act, act_all, act_all-Refines, empty, empty-IsValid, IsLawfulAct, JobStep, elsewhere, appears,
  alters, Step-JobStep,
}
use simple_ai_agent.NightShifts.Service.History.Trail.{
  entry, is_about, status_told, told_moved, results_plain,
}

-- Jobs are created as drafts, and no payload of a transition has an entry `to`.
abbrev pub drafts : Rules
drafts = record {
  AllowedJob = λ j. j.status ≡ JobStatus.draft;
  AllowedPayload = λ p. entry "to" p ≡ none;
}

unfoldable pub is_past_review : JobStatus → Bool
is_past_review JobStatus.approved = true
is_past_review JobStatus.published = true
is_past_review JobStatus.merged = true
is_past_review _ = false

-- The event records that job `id` was approved.
pub tells_approval : String → NightShiftEvent → Bool
unfolding is_about status_told same_status
tells_approval id e =
    is_about id e
    && elim (status_told e) [ some s ↦ same_status s JobStatus.approved | none ↦ false ]

before_published :
    (from : JobStatus) → is_allowed from JobStatus.published ≡ true → is_past_review from ≡ true
unfolding is_allowed is_past_review
before_published JobStatus.draft allowed = cc
before_published _ allowed = ground arith

before_merged :
    (from : JobStatus) → is_allowed from JobStatus.merged ≡ true → is_past_review from ≡ true
unfolding is_allowed is_past_review
before_merged JobStatus.draft allowed = cc
before_merged _ allowed = ground arith

enters_past_review :
    (from to : JobStatus)
    → is_allowed from to ≡ true
    → is_past_review to ≡ true
    → (is_past_review from ≡ true) ⊎ (to ≡ JobStatus.approved)
unfolding is_past_review
enters_past_review from JobStatus.approved allowed past = inr refl
enters_past_review from JobStatus.published allowed past = inl (before_published from allowed)
enters_past_review from JobStatus.merged allowed past = inl (before_merged from allowed)
enters_past_review from _ allowed past = cc

same_status_refl : (s : JobStatus) → same_status s s ≡ true
unfolding same_status
same_status_refl s = eq_refl _

drafts_allow : AllowsResults drafts
drafts_allow = record {
  allows_none = results_plain.allows_none;
  allows_result = results_plain.allows_result;
}

abbrev IsReviewed : String → Database → Type 0
IsReviewed id db =
    (j : NightShiftJob)
    → get_job id db ≡ some j
    → is_past_review j.status ≡ true
    → any (tells_approval id) db.events ≡ true

-- An approval in the trail stays there.
kept_approval :
    (id : String) (events : List NightShiftEvent) (e : NightShiftEvent)
    → any (tells_approval id) events ≡ true
    → any (tells_approval id) (events ++ e ∷ []) ≡ true
kept_approval id events e h = rw (any-append (tells_approval id) events (e ∷ []), h) refl

new_approval :
    (id : String) (events : List NightShiftEvent) (e : NightShiftEvent)
    → tells_approval id e ≡ true
    → any (tells_approval id) (events ++ e ∷ []) ≡ true
new_approval id events e h = ground (arith, any-append (tells_approval id) events (e ∷ []))

tells_moved :
    (id : String) (e : NightShiftEvent) (current target : JobStatus) (extra : Payload)
    → entry "to" extra ≡ none
    → Says e id "job_status_changed" (move_payload current target extra)
    → target ≡ JobStatus.approved
    → tells_approval id e ≡ true
unfolding tells_approval is_about
tells_moved id e current target extra plain says approved =
    rw (says.of_job, told_moved id e current target extra plain says, approved, eq_refl id)
      (same_status_refl JobStatus.approved)

altered_reviewed :
    (id : String) (s : Database) (job updated : NightShiftJob) (event : NightShiftEvent)
    → IsReviewed id s
    → get_job id s ≡ some job
    → job.job_id ≡ id
    → is_past_review updated.status ≡ true
    → Change drafts job updated event
    → any (tells_approval id) (s.events ++ event ∷ []) ≡ true
altered_reviewed id s job updated event h found mine past (moves extra plain allowed _ says) =
    elim (enters_past_review job.status updated.status allowed past) [
      | inl before ↦ kept_approval id s.events event (h job found before)
      | inr approved ↦ new_approval id s.events event (
          tells_moved id event job.status updated.status extra plain
            (subst
              (λ k.
                Says event k "job_status_changed" (move_payload job.status updated.status extra))
              mine says)
            approved)
    ]
altered_reviewed id s job updated event h found mine past (flags _ same _ says) =
    kept_approval id s.events event (h job found (subst (λ st. is_past_review st ≡ true) same past))

JobStep-IsReviewed :
    (id : String) {s t : Database} → IsReviewed id s → JobStep drafts id s t → IsReviewed id t
unfolding is_past_review
JobStep-IsReviewed id {s} {t} h (elsewhere other event same _ _ events) j found past =
    rw events (kept_approval id s.events event (h j (sym same ∙ found) past))
JobStep-IsReviewed id {s} {t} h (appears job event draft _ there _ events) j found past =
    let same : job ≡ j = ground arith in
    let unreviewed : is_past_review j.status ≡ false = rw (← same) (rw draft refl) in
    absurd (cc (unreviewed, past))
JobStep-IsReviewed id {s} {t} h (alters job updated event found new mine _ change events) j there
      past =
    let same : j ≡ updated = ground arith in
    rw events (
      altered_reviewed id s job updated event h found mine
        (subst (λ (k : NightShiftJob). is_past_review k.status ≡ true) same past) change)

Trace-IsReviewed :
    (id : String) {s t : Database} → IsReviewed id s → Trace drafts s t → IsReviewed id t
Trace-IsReviewed id h here = h
Trace-IsReviewed id h (next {t} {u} trace step) =
    JobStep-IsReviewed id (Trace-IsReviewed id h trace) (Step-JobStep drafts id t u step)

empty-IsReviewed : (id : String) → IsReviewed id empty
unfolding get_job
empty-IsReviewed id j found past = cc

-- After any history from the empty database in which jobs are created as drafts and no transition
-- payload has an entry `to`, where identifiers never repeat and every event can be stored, a job
-- that is approved, published or merged has an event in the trail that records its approval.
pub act_all-approval :
    (w : World) (texts : Texts) (acts : List Act) (id : String) {job : NightShiftJob}
    → IsFresh w
    → All (IsLawfulAct drafts) acts
    → get_job id (act_all w texts acts empty) ≡ some job
    → is_past_review job.status ≡ true
    → any (tells_approval id) (act_all w texts acts empty).events ≡ true
act_all-approval w texts acts id {job} fresh lawful found past =
    Trace-IsReviewed id (empty-IsReviewed id)
      (act_all-Refines w fresh texts drafts drafts_allow acts empty lawful
        (empty-IsValid w fresh)).trace
      job found past
