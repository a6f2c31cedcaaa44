-- ===== src/Editing/Store.antt =====
-- `EditStore` of editing/store.py: its state, its queries, `reject`, and what the proposals and
-- `approve` share. The store and the disk are one state; a call that raises keeps what it had
-- written before. Messages and previews are not modelled.
pub mod Propose
pub mod Approve
pub mod Contract
pub mod Lookup
pub mod Decision
pub mod Lifecycle
pub mod Landing
pub mod Guarded
pub mod Atomic
pub mod Ancestor
use simple_ai_agent.Common.{
  ℕ, ◌+◌, ◌≡◌, Bool, true, false, not, Option, none, some, List, [], ◌∷◌, Action, Result, ok, err,
  pure, raise, gets, or_raise, raise_if, modify, ◌>>=◌, ◌>>◌, eqb, if◌then◌else◌,
}
use simple_ai_agent.Editing.Text.{ExactError}
use simple_ai_agent.Editing.Disk.{Disk, FilePath}
use simple_ai_agent.Editing.Model.{PendingEdit, EditStatus, pending, applied, rejected}

pub data EditError : Type 0 where
  unknown_edit path_exists path_missing not_a_file identical_content same_paths : EditError
  into_itself needs_recursive stale_replacement changes_overlap missing_destination : EditError
  os_error not_encodable : EditError
  already : EditStatus → EditError
  bad_edit cannot_reapply : ExactError → EditError

pub record Editor : Type 0 where
  pub edits : List (ℕ × PendingEdit)
  pub next_id : ℕ
  pub disk : Disk

abbrev pub Editing : Type 0 → Type 0
Editing A = Action Editor EditError A

-- `self._edits.get(edit_id)`
unfoldable pub find_edit : ℕ → List (ℕ × PendingEdit) → Option PendingEdit
find_edit k [] = none
find_edit k ((j, e) ∷ rest) = if eqb j k then some e else find_edit k rest

-- `self._edits[edit_id] = edit`
unfoldable pub put_edit : ℕ → PendingEdit → List (ℕ × PendingEdit) → List (ℕ × PendingEdit)
put_edit k e [] = (k, e) ∷ []
put_edit k e ((j, d) ∷ rest) = if eqb j k then (j, e) ∷ rest else (j, d) ∷ put_edit k e rest

-- The state before any proposal.
unfoldable pub fresh : Disk → Editor
fresh disk = record { edits = []; next_id = 1; disk = disk }

unfoldable pub get : ℕ → Editor → Option PendingEdit
unfolding find_edit
get k s = find_edit k s.edits

-- `edit.status == "pending"`
unfoldable pub is_pending : EditStatus → Bool
is_pending pending = true
is_pending _ = false

-- `pending()`
unfoldable pub pending_edits : List (ℕ × PendingEdit) → List (ℕ × PendingEdit)
unfolding is_pending
pending_edits [] = []
pending_edits ((k, e) ∷ rest) =
    let others = pending_edits rest in if is_pending e.status then (k, e) ∷ others else others

-- The guards that `approve` and `reject` begin with.
unfoldable pub require_pending : ℕ → Editing PendingEdit
unfolding get is_pending
require_pending k = do
  e ← or_raise (← gets (get k)) unknown_edit
  raise_if (not (is_pending e.status)) (already e.status)
  pure e

-- `edit.status = …`, on the object that the store holds.
unfoldable pub set_status : ℕ → PendingEdit → EditStatus → Editing (Unit {0})
unfolding put_edit
set_status k e status =
    modify (λ s. record s { edits = put_edit k (record e { status = status }) s.edits })

unfoldable pub reject : ℕ → Editing (Unit {0})
unfolding require_pending set_status
reject k = do e ← require_pending k; set_status k e rejected

-- The end of every proposal: the next identifier, and the new edit under it.
unfoldable pub add_edit : (ℕ → PendingEdit) → Editing PendingEdit
unfolding put_edit
add_edit make s =
    let e = make s.next_id in
    (ok e, record s { edits = put_edit s.next_id e s.edits; next_id = s.next_id + 1 })
