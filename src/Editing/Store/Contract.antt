-- ===== src/Editing/Store/Contract.antt =====
-- What the six proposals promise, whatever they are given.
use simple_ai_agent.Common.{
  ◌+◌, ◌≡◌, refl, Bool, true, false, List, Result, ok, err, raise, arith, if◌then◌else◌,
}
use simple_ai_agent.Editing.Text.{Content, FileEdit}
use simple_ai_agent.Editing.Disk.{FilePath, exists}
use simple_ai_agent.Editing.Model.{PendingEdit, pending}
use simple_ai_agent.Editing.Store.{Editor, Editing, EditError, add_edit, put_edit, path_missing}
use simple_ai_agent.Editing.Store.Propose.{
  propose, propose_create, propose_new_content, propose_replace, propose_move, propose_delete,
  propose_copy,
}

-- A call of one of the proposals.
pub data Proposal : Type 0 where
  edits : FilePath → List FileEdit → Proposal
  creates : FilePath → Content → Proposal
  replaces : FilePath → Content → Bool → Proposal
  moves : FilePath → FilePath → Bool → Proposal
  deletes : FilePath → Bool → Bool → Proposal
  copies : FilePath → FilePath → Bool → Bool → Proposal

unfoldable pub make : Proposal → Editing PendingEdit
unfolding propose propose_create propose_replace propose_move propose_delete propose_copy
make (edits path es) = propose path es
make (creates path content) = propose_create path content
make (replaces path content create_if_missing) = propose_replace path content create_if_missing
make (moves source destination force) = propose_move source destination force
make (deletes path recursive force) = propose_delete path recursive force
make (copies source destination recursive force) = propose_copy source destination recursive force

-- The store with the edit under the next identifier.
abbrev pub with_edit : Editor → PendingEdit → Editor
with_edit s e = record s { edits = put_edit s.next_id e s.edits; next_id = s.next_id + 1 }

-- The outcome of a proposal: it raises and nothing changes, or the edit it returns waits in the
-- store under the next identifier.
unfoldable pub IsProposed : Editor → Result EditError PendingEdit × Editor → Type 0
IsProposed s (err x, t) = t ≡ s
IsProposed s (ok e, t) = (e.id ≡ s.next_id) × (e.status ≡ pending) × (t ≡ with_edit s e)

module _ (s : Editor) where
  propose-IsProposed : (path : FilePath) (es : List FileEdit) → IsProposed s (propose path es s)
  unfolding propose IsProposed add_edit
  propose-IsProposed path es = ground arith

  propose_create-IsProposed :
      (path : FilePath) (content : Content) → IsProposed s (propose_create path content s)
  unfolding propose_create add_edit IsProposed
  propose_create-IsProposed path content = ground arith

  propose_new_content-IsProposed :
      (path : FilePath) (content : Content) → IsProposed s (propose_new_content path content s)
  unfolding propose_new_content add_edit IsProposed
  propose_new_content-IsProposed path content = ground arith

  either :
      (b : Bool) (m n : Editing PendingEdit)
      → IsProposed s (m s)
      → IsProposed s (n s)
      → IsProposed s ((if b then m else n) s)
  either true m n hm hn = hm
  either false m n hm hn = hn

  propose_replace-IsProposed :
      (path : FilePath) (content : Content) (create_if_missing : Bool)
      → IsProposed s (propose_replace path content create_if_missing s)
  unfolding propose_replace IsProposed
  propose_replace-IsProposed path content create_if_missing =
      either (exists path s.disk) (propose_new_content path content)
        (if create_if_missing then propose_create path content else raise path_missing)
        (propose_new_content-IsProposed path content)
        (either create_if_missing (propose_create path content) (raise path_missing)
          (propose_create-IsProposed path content) refl)

  propose_move-IsProposed :
      (source destination : FilePath) (force : Bool)
      → IsProposed s (propose_move source destination force s)
  unfolding propose_move add_edit IsProposed
  propose_move-IsProposed source destination force = ground arith

  propose_delete-IsProposed :
      (path : FilePath) (recursive force : Bool)
      → IsProposed s (propose_delete path recursive force s)
  unfolding propose_delete add_edit IsProposed
  propose_delete-IsProposed path recursive force = ground arith

  propose_copy-IsProposed :
      (source destination : FilePath) (recursive force : Bool)
      → IsProposed s (propose_copy source destination recursive force s)
  unfolding propose_copy add_edit IsProposed
  propose_copy-IsProposed source destination recursive force = ground arith

-- Every proposal leaves the disk alone: either it raises and the store is the same, or the edit it
-- returns is pending and has joined the store under the next identifier.
pub make-IsProposed : (p : Proposal) (s : Editor) → IsProposed s (make p s)
unfolding make
make-IsProposed (edits path es) s = propose-IsProposed s path es
make-IsProposed (creates path content) s = propose_create-IsProposed s path content
make-IsProposed (replaces path content create_if_missing) s =
    propose_replace-IsProposed s path content create_if_missing
make-IsProposed (moves source destination force) s =
    propose_move-IsProposed s source destination force
make-IsProposed (deletes path recursive force) s = propose_delete-IsProposed s path recursive force
make-IsProposed (copies source destination recursive force) s =
    propose_copy-IsProposed s source destination recursive force
