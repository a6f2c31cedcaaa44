-- ===== src/Editing/Tests.antt =====
-- A small disk and session, and the theorems on them.
use simple_ai_agent.Common.{
  ◌≡◌, refl, true, none, some, [], ◌∷◌, ◌++◌, arith, length, if◌then◌else◌,
}
use simple_ai_agent.Editing.Text.{Content, FileEdit, apply_exact_edit, count}
use simple_ai_agent.Editing.Text.Exact.{apply_exact_edit_sound}
use simple_ai_agent.Editing.Disk.{
  Disk, FilePath, file, directory, same_path, exists, is_dir, is_file, read_text,
}
use simple_ai_agent.Editing.Spans.{TextTools, Tag, changes_overlap}
use simple_ai_agent.Editing.Spans.Overlap.{changes_overlap_comm}
use simple_ai_agent.Editing.Model.{PendingEdit, edit, move}
use simple_ai_agent.Editing.Store.{Editor, fresh, get}
use simple_ai_agent.Editing.Store.Propose.{plain_edit}
use simple_ai_agent.Editing.Store.Approve.{approve}
use simple_ai_agent.Editing.Store.Contract.{
  make, IsProposed, make-IsProposed, edits, creates, moves,
}
use simple_ai_agent.Editing.Store.Lifecycle.{
  approves, rejects, proposes, perform_all, Still, IsNumbered, perform_all-Since,
}
use simple_ai_agent.Editing.Store.Landing.{IsWritten, approve-lands}
use simple_ai_agent.Editing.Store.Guarded.{IsAtomic}
use simple_ai_agent.Editing.Store.Atomic.{approve-IsAtomic}
use simple_ai_agent.Editing.Store.Ancestor.{IsLost, approve-IsLost}

-- Tools that see one line, and a change of all of it.
abbrev whole_lines : TextTools
whole_lines = record {
  splitlines = λ s. s ∷ [];
  line_opcodes = λ a b.
      record {
        tag = Tag.delete;
        original_start = 0;
        original_end = length a;
        modified_start = 0;
        modified_end = length b;
      }
      ∷ [];
  character_opcodes = λ a b. [];
  stored = λ c. some c;
}

abbrev notes : FilePath
notes = "home" ∷ "notes" ∷ []

-- A directory with one file, that holds "ab".
abbrev disk : Disk
disk = λ q.
    if same_path q ("home" ∷ [])
    then some directory
    else if same_path q notes
    then some (file (97 ∷ 98 ∷ []))
    else none

abbrev b_to_c : FileEdit
b_to_c = record { find = 98 ∷ []; replace = 99 ∷ [] }

abbrev session : Editor
session = perform_all whole_lines (proposes (edits notes (b_to_c ∷ [])) ∷ []) (fresh disk)

abbrev proposed : PendingEdit
proposed = record (plain_edit 1 edit notes) {
  original_content = 97 ∷ 98 ∷ [];
  new_content = 97 ∷ 99 ∷ [];
  edits = b_to_c ∷ [];
}

session_found : get 1 session ≡ some proposed
unfolding perform_all make get same_path is_file read_text fresh
session_found = refl

session-IsNumbered : IsNumbered session
unfolding IsNumbered perform_all make get same_path is_file read_text fresh
session-IsNumbered n le = ground arith

make-IsProposed_example :
    IsProposed (fresh disk) (make (creates ("home" ∷ "plan" ∷ []) []) (fresh disk))
make-IsProposed_example = make-IsProposed (creates ("home" ∷ "plan" ∷ []) []) (fresh disk)

perform_all-Since_example :
    Still 1 proposed (perform_all whole_lines (rejects 1 ∷ approves 1 ∷ []) session)
perform_all-Since_example =
    perform_all-Since whole_lines (rejects 1 ∷ approves 1 ∷ []) session 1 proposed
      session-IsNumbered session_found

approve-lands_example : IsWritten whole_lines proposed session (approve whole_lines 1 session)
unfolding plain_edit
approve-lands_example = approve-lands whole_lines 1 session proposed session_found refl

approve-IsAtomic_example : IsAtomic session (approve whole_lines 1 session)
unfolding plain_edit
approve-IsAtomic_example = approve-IsAtomic whole_lines 1 session proposed session_found refl

abbrev upwards : Editor
upwards = perform_all whole_lines (proposes (moves notes ("home" ∷ []) true) ∷ []) (fresh disk)

abbrev proposed_move : PendingEdit
proposed_move = record (plain_edit 1 move notes) {
  destination_path = some ("home" ∷ []);
  force = true;
}

upwards_found : get 1 upwards ≡ some proposed_move
unfolding perform_all make get same_path exists is_dir fresh
upwards_found = refl

approve-IsLost_example : IsLost notes (approve whole_lines 1 upwards)
unfolding exists perform_all make get same_path is_dir fresh
approve-IsLost_example =
    approve-IsLost whole_lines 1 upwards proposed_move "home" "notes" [] [] upwards_found refl refl
      refl refl refl refl refl

changes_overlap_comm_example :
    changes_overlap whole_lines (97 ∷ []) [] (98 ∷ [])
    ≡ changes_overlap whole_lines (97 ∷ []) (98 ∷ []) []
changes_overlap_comm_example = changes_overlap_comm whole_lines (97 ∷ []) [] (98 ∷ [])

apply_exact_edit_sound_example :
    (pre : Content) × (post : Content) × (97 ∷ 98 ∷ [] ≡ pre ++ (98 ∷ [] ++ post))
    × (97 ∷ 99 ∷ [] ≡ pre ++ (99 ∷ [] ++ post))
    × (count (98 ∷ []) post ≡ 0)
unfolding apply_exact_edit count
apply_exact_edit_sound_example = apply_exact_edit_sound (97 ∷ 98 ∷ []) b_to_c (λ e. cc) refl
