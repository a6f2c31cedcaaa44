-- ===== src/Editing/Store/Approve.antt =====
-- `EditStore.approve`: the state of the disk is checked again, the change is made, and only then is
-- the edit marked as applied.
use simple_ai_agent.Common.{
  ℕ, Bool, true, false, not, ◌&&◌, Option, List, [], ok, err, pure, raise, gets, or_raise, raise_if,
  modify, ◌>>=◌, ◌>>◌, if◌then◌else◌,
}
use simple_ai_agent.Editing.Text.{Content, FileEdit, apply_edits, same_content}
use simple_ai_agent.Editing.Disk.{
  Disk, FilePath, exists, is_dir, read_text, open_text, write_at, file, make_dirs, remove_path,
  move_path, copy_path, parent, is_relative_to,
}
use simple_ai_agent.Editing.Spans.{TextTools, changes_overlap as touch}
use simple_ai_agent.Editing.Model.{PendingEdit, EditKind, applied, edit, create, move, delete, copy}
use simple_ai_agent.Editing.Store.{
  Editing, cannot_reapply, stale_replacement, changes_overlap, missing_destination, os_error,
  not_encodable, path_exists, path_missing, into_itself, needs_recursive, require_pending,
  set_status,
}

-- A change of the disk that may raise an exception of the operating system.
unfoldable pub on_disk : (Disk → Option Disk) → Editing (Unit {0})
on_disk change = do
  disk ← or_raise (← gets (λ s. change s.disk)) os_error
  modify (λ s. record s { disk = disk })

-- `path.write_text(text)`: the file is emptied before the text is encoded.
unfoldable pub write_file : TextTools → FilePath → Content → Editing (Unit {0})
unfolding on_disk open_text write_at
write_file tools path content = do
  on_disk (open_text path)
  stored ← or_raise (tools.stored content) not_encodable
  modify (λ s. record s { disk = write_at path (file stored) s.disk })

unfoldable pub is_empty : List FileEdit → Bool
is_empty [] = true
is_empty _ = false

-- The text that an edit of the content writes, when the file holds `current` now.
unfoldable pub rebase : TextTools → PendingEdit → Content → Editing Content
unfolding same_content is_empty touch apply_edits
rebase tools e current = if same_content current e.original_content then pure e.new_content else do
  raise_if (is_empty e.edits) stale_replacement
  raise_if (touch tools e.original_content current e.new_content) changes_overlap
  elim (apply_edits current e.edits) [
    | ok updated ↦ pure updated
    | err x ↦ raise (cannot_reapply x)
  ]

unfoldable pub approve_edit : TextTools → PendingEdit → Editing (Unit {0})
unfolding read_text rebase write_file
approve_edit tools e = do
  current ← or_raise (← gets (λ s. read_text e.path s.disk)) os_error
  updated ← rebase tools e current
  write_file tools e.path updated

unfoldable pub approve_create : TextTools → PendingEdit → Editing (Unit {0})
unfolding exists on_disk make_dirs parent write_file
approve_create tools e = do
  raise_if (← gets (λ s. exists e.path s.disk)) path_exists
  on_disk (make_dirs (parent e.path))
  write_file tools e.path e.new_content

-- `_require_destination`
unfoldable pub require_destination : PendingEdit → Editing FilePath
require_destination e = or_raise e.destination_path missing_destination

-- What moves and copies do with the destination: one that exists is removed if the edit forces it.
unfoldable pub clear_destination : PendingEdit → FilePath → Editing (Unit {0})
unfolding exists remove_path on_disk make_dirs parent
clear_destination e destination = do
  there ← gets (λ s. exists destination s.disk)
  raise_if (there && not e.force) path_exists
  modify (λ s. record s { disk = if there then remove_path destination s.disk else s.disk })
  on_disk (make_dirs (parent destination))

-- A move whose destination is known.
unfoldable pub move_to : PendingEdit → FilePath → Editing (Unit {0})
unfolding exists is_dir is_relative_to clear_destination on_disk move_path
move_to e destination = do
  raise_if (not (← gets (λ s. exists e.path s.disk))) path_missing
  raise_if (← gets (λ s. is_dir e.path s.disk && is_relative_to destination e.path)) into_itself
  clear_destination e destination
  on_disk (move_path e.path destination)

unfoldable pub approve_move : PendingEdit → Editing (Unit {0})
unfolding require_destination move_to
approve_move e = do destination ← require_destination e; move_to e destination

unfoldable pub approve_delete : PendingEdit → Editing (Unit {0})
unfolding exists is_dir remove_path
approve_delete e = do
  there ← gets (λ s. exists e.path s.disk)
  raise_if (not there && not e.force) path_missing
  raise_if (← gets (λ s. there && (is_dir e.path s.disk && not e.recursive))) needs_recursive
  modify (λ s. record s { disk = if there then remove_path e.path s.disk else s.disk })

-- A copy whose destination is known.
unfoldable pub copy_to : PendingEdit → FilePath → Editing (Unit {0})
unfolding exists is_dir is_relative_to clear_destination on_disk copy_path
copy_to e destination = do
  raise_if (not (← gets (λ s. exists e.path s.disk))) path_missing
  raise_if (← gets (λ s. is_dir e.path s.disk && not e.recursive)) needs_recursive
  raise_if (← gets (λ s. is_dir e.path s.disk && is_relative_to destination e.path)) into_itself
  clear_destination e destination
  on_disk (copy_path e.path destination)

unfoldable pub approve_copy : PendingEdit → Editing (Unit {0})
unfolding require_destination copy_to
approve_copy e = do destination ← require_destination e; copy_to e destination

-- The branch of `approve` that the edit's kind selects.
unfoldable pub apply_kind : TextTools → EditKind → PendingEdit → Editing (Unit {0})
unfolding approve_edit approve_create approve_move approve_delete approve_copy
apply_kind tools edit e = approve_edit tools e
apply_kind tools create e = approve_create tools e
apply_kind tools move e = approve_move e
apply_kind tools delete e = approve_delete e
apply_kind tools copy e = approve_copy e

unfoldable pub approve : TextTools → ℕ → Editing (Unit {0})
unfolding require_pending apply_kind set_status
approve tools k = do e ← require_pending k; apply_kind tools e.kind e; set_status k e applied
