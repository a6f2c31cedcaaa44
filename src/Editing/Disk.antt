-- ===== src/Editing/Disk.antt =====
-- The file system as editing/store.py uses it: `pathlib.Path` and `shutil`. A path is absolute and
-- resolved, the list of its components; symbolic links and permissions are not modelled. The
-- text of a file is what `read_text` gives of it.
pub mod Writes
use simple_ai_agent.Common.{
  ℕ, ◌≡◌, refl, String, ◌==◌, eq_iff, Bool, true, false, not, ◌&&◌, ◌||◌, Option, none, some, List,
  [], ◌∷◌, ◌++◌, arith, length, drop, any, map, if◌then◌else◌,
}
use simple_ai_agent.Editing.Text.{Content}

abbrev pub FilePath : Type 0
FilePath = List String

pub data Node : Type 0 where
  file : Content → Node
  binary directory : Node

-- What stands at each path. The root is a directory by itself.
abbrev pub Disk : Type 0
Disk = FilePath → Option Node

-- `path.relative_to(root)` does not raise.
unfoldable pub is_relative_to : FilePath → FilePath → Bool
is_relative_to path [] = true
is_relative_to [] (r ∷ root) = false
is_relative_to (p ∷ path) (r ∷ root) = p == r && is_relative_to path root

unfoldable pub same_path : FilePath → FilePath → Bool
unfolding is_relative_to
same_path p q = is_relative_to p q && is_relative_to q p

unfoldable pub node_at : FilePath → Disk → Option Node
node_at [] disk = some directory
node_at (p ∷ path) disk = disk (p ∷ path)

unfoldable pub exists : FilePath → Disk → Bool
unfolding node_at
exists p disk = elim (node_at p disk) [ none ↦ false | some _ ↦ true ]

unfoldable pub is_dir : FilePath → Disk → Bool
unfolding node_at
is_dir p disk = elim (node_at p disk) [ some directory ↦ true | _ ↦ false ]

unfoldable pub is_file : FilePath → Disk → Bool
unfolding node_at
is_file p disk = elim (node_at p disk) [ some (file c) ↦ true | some binary ↦ true | _ ↦ false ]

-- `path.parent`
unfoldable pub parent : FilePath → FilePath
parent [] = []
parent (p ∷ []) = []
parent (p ∷ q ∷ rest) = p ∷ parent (q ∷ rest)

-- The path and all its ancestors.
unfoldable pub prefixes : FilePath → List FilePath
prefixes [] = [] ∷ []
prefixes (p ∷ rest) = [] ∷ map (λ (q : FilePath). p ∷ q) (prefixes rest)

-- `path.read_text()`; `none` stands for an exception, here and below. A binary file is one that
-- cannot be decoded.
unfoldable pub read_text : FilePath → Disk → Option Content
unfolding node_at
read_text p disk = elim (node_at p disk) [ some (file c) ↦ some c | _ ↦ none ]

unfoldable pub write_at : FilePath → Node → Disk → Disk
unfolding same_path
write_at p n disk = λ q. if same_path q p then some n else disk q

-- What `path.write_text` does first: the file is opened, which empties it. The parent must be a
-- directory, and the path none.
unfoldable pub open_text : FilePath → Disk → Option Disk
unfolding is_dir parent write_at
open_text p disk =
    if is_dir (parent p) disk && not (is_dir p disk) then some (write_at p (file []) disk) else none

-- `path.mkdir(parents=True, exist_ok=True)`: no ancestor may be a file.
unfoldable pub make_dirs : FilePath → Disk → Option Disk
unfolding prefixes is_file is_relative_to
make_dirs p disk =
    if any (λ q. is_file q disk) (prefixes p)
    then none
    else some (λ q. if is_relative_to p q then some directory else disk q)

-- `_remove_path`: a file, or a directory with all that it holds.
unfoldable pub remove_path : FilePath → Disk → Disk
unfolding is_relative_to
remove_path p disk = λ q. if is_relative_to q p then none else disk q

-- Where a path under `target` comes from when `source` has moved there.
unfoldable pub moved_from : FilePath → FilePath → FilePath → FilePath
moved_from source target q = source ++ drop (length target) q

-- The disk with a copy of all that stands under `source`.
unfoldable pub with_copy : FilePath → FilePath → Disk → Disk
unfolding moved_from is_relative_to
with_copy source target disk =
    λ q. if is_relative_to q target then disk (moved_from source target q) else disk q

-- `shutil.copytree` and `shutil.copy2` to a path that does not exist.
unfoldable pub copy_path : FilePath → FilePath → Disk → Option Disk
unfolding exists is_dir parent with_copy
copy_path source target disk =
    if exists source disk && is_dir (parent target) disk
    then some (with_copy source target disk)
    else none

-- The disk without all that stands under `source`, but for what stands under `target`.
unfoldable pub without_source : FilePath → FilePath → Disk → Disk
unfolding is_relative_to
without_source source target disk = λ q.
    if is_relative_to q target then disk q else if is_relative_to q source then none else disk q

-- `shutil.move` to a path that does not exist.
unfoldable pub move_path : FilePath → FilePath → Disk → Option Disk
unfolding copy_path without_source
move_path source target disk = elim (copy_path source target disk) [
  | none ↦ none
  | some copied ↦ some (without_source source target copied)
]
