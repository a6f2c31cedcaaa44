-- ===== src/Editing/Store/Propose.antt =====
-- The proposals: `propose`, `propose_create`, `propose_replace`, `propose_move`, `propose_delete`
-- and `propose_copy`.
use simple_ai_agent.Common.{
  ℕ, Bool, false, not, ◌&&◌, none, some, List, [], ok, err, raise, gets, or_raise, raise_if, ◌>>=◌,
  ◌>>◌, if◌then◌else◌,
}
use simple_ai_agent.Editing.Text.{Content, FileEdit, apply_edits, same_content}
use simple_ai_agent.Editing.Disk.{
  FilePath, exists, is_dir, is_file, read_text, same_path, is_relative_to,
}
use simple_ai_agent.Editing.Model.{PendingEdit, EditKind, pending, edit, create, move, delete, copy}
use simple_ai_agent.Editing.Store.{
  Editing, bad_edit, os_error, path_exists, path_missing, not_a_file, identical_content, same_paths,
  into_itself, needs_recursive, add_edit,
}

-- A proposal of a kind for a path, with the defaults of the data class.
unfoldable pub plain_edit : ℕ → EditKind → FilePath → PendingEdit
plain_edit id kind path = record {
  id = id;
  path = path;
  original_content = [];
  new_content = [];
  edits = [];
  status = pending;
  kind = kind;
  destination_path = none;
  recursive = false;
  force = false;
  is_directory = false;
}

unfoldable pub propose : FilePath → List FileEdit → Editing PendingEdit
unfolding read_text apply_edits add_edit plain_edit
propose path edits = do
  original ← or_raise (← gets (λ s. read_text path s.disk)) os_error
  elim (apply_edits original edits) [
    | err e ↦ raise (bad_edit e)
    | ok updated ↦ add_edit (λ id. record (plain_edit id edit path) {
      original_content = original;
      new_content = updated;
      edits = edits;
    })
  ]

unfoldable pub propose_create : FilePath → Content → Editing PendingEdit
unfolding exists add_edit plain_edit
propose_create path content = do
  raise_if (← gets (λ s. exists path s.disk)) path_exists
  add_edit (λ id. record (plain_edit id create path) { new_content = content })

-- `propose_replace` for a path that exists.
unfoldable pub propose_new_content : FilePath → Content → Editing PendingEdit
unfolding is_file read_text same_content add_edit plain_edit
propose_new_content path content = do
  raise_if (not (← gets (λ s. is_file path s.disk))) not_a_file
  original ← or_raise (← gets (λ s. read_text path s.disk)) os_error
  raise_if (same_content original content) identical_content
  add_edit (λ id. record (plain_edit id edit path) {
    original_content = original;
    new_content = content;
  })

unfoldable pub propose_replace : FilePath → Content → Bool → Editing PendingEdit
unfolding exists propose_create propose_new_content
propose_replace path content create_if_missing = do
  there ← gets (λ s. exists path s.disk)
  if there
      then propose_new_content path content
      else if create_if_missing
      then propose_create path content
      else raise path_missing

unfoldable pub propose_move : FilePath → FilePath → Bool → Editing PendingEdit
unfolding exists same_path is_dir is_relative_to add_edit plain_edit
propose_move source destination force = do
  raise_if (not (← gets (λ s. exists source s.disk))) path_missing
  raise_if (same_path source destination) same_paths
  directory ← gets (λ s. is_dir source s.disk)
  raise_if (directory && is_relative_to destination source) into_itself
  raise_if (← gets (λ s. exists destination s.disk && not force)) path_exists
  add_edit (λ id. record (plain_edit id move source) {
    destination_path = some destination;
    force = force;
    is_directory = directory;
  })

unfoldable pub propose_delete : FilePath → Bool → Bool → Editing PendingEdit
unfolding exists is_dir add_edit plain_edit
propose_delete path recursive force = do
  there ← gets (λ s. exists path s.disk)
  directory ← gets (λ s. is_dir path s.disk)
  raise_if (not there && not force) path_missing
  raise_if (there && (directory && not recursive)) needs_recursive
  add_edit (λ id. record (plain_edit id delete path) {
    recursive = recursive;
    force = force;
    is_directory = there && directory;
  })

unfoldable pub propose_copy : FilePath → FilePath → Bool → Bool → Editing PendingEdit
unfolding exists same_path is_dir is_relative_to add_edit plain_edit
propose_copy source destination recursive force = do
  raise_if (not (← gets (λ s. exists source s.disk))) path_missing
  raise_if (same_path source destination) same_paths
  directory ← gets (λ s. is_dir source s.disk)
  raise_if (directory && not recursive) needs_recursive
  raise_if (directory && is_relative_to destination source) into_itself
  raise_if (← gets (λ s. exists destination s.disk && not force)) path_exists
  add_edit (λ id. record (plain_edit id copy source) {
    destination_path = some destination;
    recursive = recursive;
    force = force;
    is_directory = directory;
  })
