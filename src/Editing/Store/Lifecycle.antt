-- ===== src/Editing/Store/Lifecycle.antt =====
-- Histories of a session: proposals and decisions in any order, while other programs change the
-- disk between them.
use simple_ai_agent.Common.{
  ℕ, ◌+◌, ◌≤◌, ◌≡◌, refl, subst, ap, ◌∙◌, false, none, some, List, [], ◌∷◌, Result, ok, err, arith,
  eqb, inl, inr, Bool-cases, eqb→eq,
}
use simple_ai_agent.Editing.Disk.{Disk}
use simple_ai_agent.Editing.Spans.{TextTools}
use simple_ai_agent.Editing.Model.{PendingEdit, EditStatus, pending, applied, rejected}
use simple_ai_agent.Editing.Store.{Editor, EditError, get, find_edit, put_edit, is_pending, reject}
use simple_ai_agent.Editing.Store.Approve.{approve}
use simple_ai_agent.Editing.Store.Lookup.{find_edit-put_edit, find_edit-put_edit_other}
use simple_ai_agent.Editing.Store.Contract.{Proposal, make, IsProposed, make-IsProposed}
use simple_ai_agent.Editing.Store.Decision.{IsDecided, approve-IsDecided, reject-IsDecided}

pub data Operation : Type 0 where
  proposes : Proposal → Operation
  approves rejects : ℕ → Operation
  others_change : (Disk → Disk) → Operation

abbrev after : {A : Type 0} → Result EditError A × Editor → Editor
after (r, t) = t

unfoldable pub perform : TextTools → Operation → Editor → Editor
unfolding make approve reject
perform tools (proposes p) s = after (make p s)
perform tools (approves k) s = after (approve tools k s)
perform tools (rejects k) s = after (reject k s)
perform tools (others_change f) s = record s { disk = f s.disk }

unfoldable pub perform_all : TextTools → List Operation → Editor → Editor
unfolding perform
perform_all tools [] s = s
perform_all tools (o ∷ rest) s = perform_all tools rest (perform tools o s)

-- Every identifier in the store was handed out.
unfoldable pub IsNumbered : Editor → Type 0
IsNumbered s = (n : ℕ) → s.next_id ≤ n → get n s ≡ none

-- What one operation does to the edits.
data Step (s t : Editor) : Type 0 where
  keeps : t.edits ≡ s.edits → t.next_id ≡ s.next_id → Step s t
  adds :
      (e : PendingEdit)
      → e.status ≡ pending
      → t.edits ≡ put_edit s.next_id e s.edits
      → t.next_id ≡ s.next_id + 1
      → Step s t
  decides :
      (k : ℕ) (e : PendingEdit) (status : EditStatus)
      → get k s ≡ some e
      → e.status ≡ pending
      → is_pending status ≡ false
      → t.edits ≡ put_edit k (record e { status = status }) s.edits
      → t.next_id ≡ s.next_id
      → Step s t

proposed-Step :
    (s : Editor) (r : Result EditError PendingEdit × Editor) → IsProposed s r → Step s (after r)
unfolding IsProposed
proposed-Step s (err x, t) same = keeps (ap (λ u. u.edits) same) (ap (λ u. u.next_id) same)
proposed-Step s (ok e, t) (_, open_edit, same) =
    adds e open_edit (ap (λ u. u.edits) same) (ap (λ u. u.next_id) same)

decided-Step :
    (k : ℕ) (status : EditStatus) (s : Editor) (r : Result EditError (Unit {0}) × Editor)
    → is_pending status ≡ false
    → IsDecided k status s r
    → Step s (after r)
unfolding IsDecided
decided-Step k status s (err x, t) final (same, next) = keeps same next
decided-Step k status s (ok u, t) final (e, found, open_edit, same, next) =
    decides k e status found open_edit final same next

perform-Step : (tools : TextTools) (o : Operation) (s : Editor) → Step s (perform tools o s)
unfolding perform is_pending
perform-Step tools (proposes p) s = proposed-Step s (make p s) (make-IsProposed p s)
perform-Step tools (approves k) s =
    decided-Step k applied s (approve tools k s) refl (approve-IsDecided tools k s)
perform-Step tools (rejects k) s =
    decided-Step k rejected s (reject k s) refl (reject-IsDecided k s)
perform-Step tools (others_change f) s = keeps refl refl

Step-IsNumbered : {s t : Editor} → IsNumbered s → Step s t → IsNumbered t
unfolding IsNumbered get
Step-IsNumbered h (keeps same next) n le = ap (find_edit n) same ∙ h n (subst (λ m. m ≤ n) next le)
Step-IsNumbered {s} {t} h (adds e open_edit same next) n le =
    ap (find_edit n) same
    ∙ find_edit-put_edit_other n s.next_id e s.edits (ground (arith, next))
    ∙ h n (ground (arith, next))
Step-IsNumbered {s} {t} h (decides k e status found open_edit final same next) n le =
    let later : s.next_id ≤ n = subst (λ m. m ≤ n) next le in
    elim (Bool-cases (eqb n k)) [
      | inl here ↦ absurd (cc (h n later, found, eqb→eq n k here))
      | inr other ↦
          ap (find_edit n) same
          ∙ find_edit-put_edit_other n k (record e { status = status }) s.edits other
          ∙ h n later
    ]

-- How an edit may have changed: not at all, or it was pending, and has been decided and changed in
-- nothing else.
pub data Since (old : PendingEdit) : PendingEdit → Type 0 where
  unchanged : Since old old
  decided :
      (status : EditStatus)
      → old.status ≡ pending
      → is_pending status ≡ false
      → Since old (record old { status = status })

Since-trans : {a b c : PendingEdit} → Since a b → Since b c → Since a c
unfolding is_pending
Since-trans unchanged q = q
Since-trans (decided status open_edit final) unchanged = decided status open_edit final
Since-trans (decided status open_edit final) (decided other now_open later) =
    absurd (cc (ap is_pending now_open, final))

-- What has become of an edit in a later state.
abbrev pub Still : ℕ → PendingEdit → Editor → Type 0
Still k old t = (new : PendingEdit) × (get k t ≡ some new) × Since old new

Step-Still :
    {s t : Editor} (k : ℕ) (old : PendingEdit)
    → IsNumbered s
    → get k s ≡ some old
    → Step s t
    → Still k old t
unfolding get IsNumbered
Step-Still k old h found (keeps same next) = (old, ap (find_edit k) same ∙ found, unchanged)
Step-Still {s} k old h found (adds e open_edit same next) = (
  old,
  ap (find_edit k) same
      ∙ find_edit-put_edit_other k s.next_id e s.edits (ground (arith, h k, found))
      ∙ found,
  unchanged,
)
Step-Still {s} k old h found (decides i e status found' open_edit final same next) =
    elim (Bool-cases (eqb k i)) [
      | inl here ↦
          let decide : PendingEdit → PendingEdit = λ d. record d { status = status } in
          let same_edit : e ≡ old = ground (arith, found, found', eqb→eq k i here) in
          (
            record old { status = status },
            ap (find_edit k) same
                ∙ subst (λ j. find_edit k (put_edit j (decide e) s.edits) ≡ some (decide e))
                    (eqb→eq k i here) (find_edit-put_edit k (decide e) s.edits)
                ∙ ap (λ d. some (decide d)) same_edit,
            decided status (subst (λ d. d.status ≡ pending) same_edit open_edit) final,
          )
      | inr other ↦ (
        old,
        ap (find_edit k) same
            ∙ find_edit-put_edit_other k i (record e { status = status }) s.edits other
            ∙ found,
        unchanged,
      )
    ]

-- In every history that starts in a store whose identifiers were all handed out, with other
-- programs changing the disk in between, an edit of the store is never lost; it stays as it is, or
-- it was pending and is applied or rejected later, which changes its status and nothing else; so
-- one that is applied or rejected stays so.
pub perform_all-Since :
    (tools : TextTools) (history : List Operation) (s : Editor) (k : ℕ) (old : PendingEdit)
    → IsNumbered s
    → get k s ≡ some old
    → Still k old (perform_all tools history s)
unfolding perform_all
perform_all-Since tools [] s k old h found = (old, found, unchanged)
perform_all-Since tools (o ∷ rest) s k old h found =
    let step = perform-Step tools o s in
    let (mid, there, first) = Step-Still k old h found step in
    let (new, finally, later) =
      perform_all-Since tools rest (perform tools o s) k mid (Step-IsNumbered h step) there in
    (new, finally, Since-trans first later)
