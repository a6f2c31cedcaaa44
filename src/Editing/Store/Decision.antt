-- ===== src/Editing/Store/Decision.antt =====
-- What `approve` and `reject` do to the store of edits, whatever they do to the disk.
use simple_ai_agent.Common.{
  ℕ, ◌≡◌, refl, true, some, Result, ok, err, arith, ◌>>◌, subst, sym, bind_raises, bind_passes, ◌⊎◌,
  inl, inr, ap, Option-cases, Bool-cases,
}
use simple_ai_agent.Editing.Spans.{TextTools}
use simple_ai_agent.Editing.Model.{
  PendingEdit, EditStatus, EditKind, pending, applied, rejected, edit, create, move, delete, copy,
}
use simple_ai_agent.Editing.Store.{
  Editor, Editing, EditError, unknown_edit, already, get, put_edit, is_pending, require_pending,
  set_status, reject,
}
use simple_ai_agent.Editing.Store.Approve.{
  on_disk, rebase, write_file, approve_edit, approve_create, require_destination, clear_destination,
  move_to, copy_to, approve_move, approve_delete, approve_copy, apply_kind, approve,
}

-- The edits are the same after the call.
unfoldable pub KeepsEdits : {A : Type 0} → Editor → Result EditError A × Editor → Type 0
KeepsEdits s (r, t) = (t.edits ≡ s.edits) × (t.next_id ≡ s.next_id)

module _ (tools : TextTools) (e : PendingEdit) (s : Editor) where
  approve_edit-KeepsEdits : KeepsEdits s (approve_edit tools e s)
  unfolding approve_edit KeepsEdits rebase on_disk write_file
  approve_edit-KeepsEdits = ground arith

  approve_create-KeepsEdits : KeepsEdits s (approve_create tools e s)
  unfolding approve_create KeepsEdits on_disk write_file
  approve_create-KeepsEdits = ground arith

  approve_move-KeepsEdits : KeepsEdits s (approve_move e s)
  unfolding approve_move move_to KeepsEdits on_disk clear_destination require_destination
  approve_move-KeepsEdits = ground arith

  approve_delete-KeepsEdits : KeepsEdits s (approve_delete e s)
  unfolding approve_delete KeepsEdits
  approve_delete-KeepsEdits = ground arith

  approve_copy-KeepsEdits : KeepsEdits s (approve_copy e s)
  unfolding approve_copy copy_to KeepsEdits on_disk clear_destination require_destination
  approve_copy-KeepsEdits = ground arith

  pub apply_kind-KeepsEdits : (kind : EditKind) → KeepsEdits s (apply_kind tools kind e s)
  unfolding apply_kind
  apply_kind-KeepsEdits edit = approve_edit-KeepsEdits
  apply_kind-KeepsEdits create = approve_create-KeepsEdits
  apply_kind-KeepsEdits move = approve_move-KeepsEdits
  apply_kind-KeepsEdits delete = approve_delete-KeepsEdits
  apply_kind-KeepsEdits copy = approve_copy-KeepsEdits

-- The outcome of a decision: it raises and no edit changes, or the edit was pending and has the
-- status of the decision, and no other edit changes.
unfoldable pub IsDecided : ℕ → EditStatus → Editor → Result EditError (Unit {0}) × Editor → Type 0
IsDecided k status s (err x, t) = (t.edits ≡ s.edits) × (t.next_id ≡ s.next_id)
IsDecided k status s (ok u, t) =
    (e : PendingEdit) × (get k s ≡ some e)
    × (e.status ≡ pending)
    × (t.edits ≡ put_edit k (record e { status = status }) s.edits)
    × (t.next_id ≡ s.next_id)

is_pending→pending : (status : EditStatus) → is_pending status ≡ true → status ≡ pending
unfolding is_pending
is_pending→pending pending h = refl
is_pending→pending applied h = ground arith
is_pending→pending rejected h = ground arith

-- What the guards of both calls find.
pub require_pending-cases :
    (k : ℕ) (s : Editor)
    → ((x : EditError) × (require_pending k s ≡ (err x, s)))
      ⊎ ((e : PendingEdit) × (get k s ≡ some e)
          × (e.status ≡ pending)
          × (require_pending k s ≡ (ok e, s)))
unfolding require_pending
require_pending-cases k s = elim (Option-cases (get k s)) [
  | inl missing ↦ inl (unknown_edit, rw missing refl)
  | inr (e, found) ↦ elim (Bool-cases (is_pending e.status)) [
    | inl open_edit ↦
        inr (e, found, is_pending→pending e.status open_edit, rw (found, open_edit) refl)
    | inr closed ↦ inl (already e.status, rw (found, closed) refl)
  ]
]

pub reject-IsDecided : (k : ℕ) (s : Editor) → IsDecided k rejected s (reject k s)
unfolding reject IsDecided set_status
reject-IsDecided k s = elim (require_pending-cases k s) [
  | inl (x, stopped) ↦
      subst (IsDecided k rejected s)
        (sym (bind_raises (require_pending k) (λ e. set_status k e rejected) s stopped))
        (refl, refl)
  | inr (e, found, open_edit, passed) ↦
      subst (IsDecided k rejected s)
        (sym (bind_passes (require_pending k) (λ e. set_status k e rejected) s passed))
        (e, found, open_edit, refl, refl)
]

-- `set_status` after the change of the disk.
after-IsDecided :
    (k : ℕ) (e : PendingEdit) (s : Editor) (r : Result EditError (Unit {0}) × Editor)
    → get k s ≡ some e
    → e.status ≡ pending
    → KeepsEdits s r
    → IsDecided k applied s (((λ (u : Editor). r) >> set_status k e applied) s)
unfolding IsDecided KeepsEdits set_status
after-IsDecided k e s (err x, t) found open_edit kept = kept
after-IsDecided k e s (ok u, t) found open_edit (kept, same) =
    (e, found, open_edit, ap (put_edit k (record e { status = applied })) kept, same)

pub approve-IsDecided :
    (tools : TextTools) (k : ℕ) (s : Editor) → IsDecided k applied s (approve tools k s)
unfolding approve IsDecided
approve-IsDecided tools k s =
    let finish : PendingEdit → Editing (Unit {0}) =
      λ e. apply_kind tools e.kind e >> set_status k e applied in
    elim (require_pending-cases k s) [
      | inl (x, stopped) ↦
          subst (IsDecided k applied s) (sym (bind_raises (require_pending k) finish s stopped))
            (refl, refl)
      | inr (e, found, open_edit, passed) ↦
          subst (IsDecided k applied s) (sym (bind_passes (require_pending k) finish s passed)) (
            after-IsDecided k e s (apply_kind tools e.kind e s) found open_edit
              (apply_kind-KeepsEdits tools e s e.kind))
    ]
