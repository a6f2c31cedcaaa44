-- ===== src/Editing/Disk/Writes.antt =====
-- What writing a file, making directories and removing leave on the disk.
use simple_ai_agent.Common.{String, ◌≡◌, refl, eq_refl, true, false, some, [], ◌∷◌, ◌++◌, arith}
use simple_ai_agent.Editing.Text.{Content}
use simple_ai_agent.Editing.Disk.{
  Disk, FilePath, is_relative_to, same_path, node_at, exists, is_dir, parent, read_text, write_at,
  open_text, file, make_dirs, remove_path,
}

pub is_relative_to_refl : (p : FilePath) → is_relative_to p p ≡ true
unfolding is_relative_to
is_relative_to_refl [] = refl
is_relative_to_refl (x ∷ p) = ground (arith, eq_refl x, is_relative_to_refl p)

pub is_relative_to-append : (p q : FilePath) → is_relative_to (p ++ q) p ≡ true
unfolding is_relative_to
is_relative_to-append [] q = refl
is_relative_to-append (x ∷ p) q = ground (arith, eq_refl x, is_relative_to-append p q)

same_path_refl : (p : FilePath) → same_path p p ≡ true
unfolding same_path
same_path_refl p = ground (arith, is_relative_to_refl p)

-- A file that was opened is empty, and holds what is written then.
pub read_text-open_text :
    (p : FilePath) (disk d : Disk) → open_text p disk ≡ some d → read_text p d ≡ some []
unfolding open_text read_text write_at node_at is_dir
read_text-open_text [] disk d h = ground (arith, h)
read_text-open_text (x ∷ p) disk d h = ground (arith, h, same_path_refl (x ∷ p))

pub read_text-write_at :
    (p : FilePath) (c : Content) (disk d : Disk)
    → open_text p disk ≡ some d
    → read_text p (write_at p (file c) d) ≡ some c
unfolding open_text read_text write_at node_at is_dir
read_text-write_at [] c disk d h = ground (arith, h)
read_text-write_at (x ∷ p) c disk d h = ground (arith, h, same_path_refl (x ∷ p))

-- Nothing else changes.
pub open_text_elsewhere :
    (p q : FilePath) (disk d : Disk)
    → open_text p disk ≡ some d
    → same_path q p ≡ false
    → d q ≡ disk q
unfolding open_text write_at
open_text_elsewhere p q disk d h other = ground (arith, h, other)

pub write_at_elsewhere :
    (p q : FilePath) (c : Content) (disk d : Disk)
    → open_text p disk ≡ some d
    → same_path q p ≡ false
    → write_at p (file c) d q ≡ disk q
unfolding open_text write_at
write_at_elsewhere p q c disk d h other = ground (arith, h, other)

pub is_dir-make_dirs :
    (p : FilePath) (disk d : Disk) → make_dirs p disk ≡ some d → is_dir p d ≡ true
unfolding make_dirs is_dir node_at
is_dir-make_dirs [] disk d h = refl
is_dir-make_dirs (x ∷ p) disk d h = ground (arith, h, is_relative_to_refl (x ∷ p))

pub exists-make_dirs :
    (p q : FilePath) (disk d : Disk)
    → make_dirs p disk ≡ some d
    → exists q disk ≡ true
    → exists q d ≡ true
unfolding make_dirs exists node_at
exists-make_dirs p [] disk d h there = refl
exists-make_dirs p (x ∷ q) disk d h there = ground (arith, h, there)

-- The parent of a path is above everything below that path.
pub is_relative_to-parent :
    (x : String) (p q : FilePath) → is_relative_to (parent (x ∷ p)) ((x ∷ p) ++ q) ≡ false
unfolding is_relative_to parent
is_relative_to-parent x [] q = refl
is_relative_to-parent x (y ∷ p) q = ground (arith, is_relative_to-parent y p q)

pub is_relative_to-parent_self :
    (x : String) (p : FilePath) → is_relative_to (parent (x ∷ p)) (x ∷ p) ≡ false
unfolding is_relative_to parent
is_relative_to-parent_self x [] = refl
is_relative_to-parent_self x (y ∷ p) = ground (arith, is_relative_to-parent_self y p)

-- Nothing is below what stands strictly under it.
pub is_relative_to_strict :
    (p : FilePath) (y : String) (q : FilePath) → is_relative_to p (p ++ y ∷ q) ≡ false
unfolding is_relative_to
is_relative_to_strict [] y q = refl
is_relative_to_strict (x ∷ p) y q = ground (arith, is_relative_to_strict p y q)

-- What was under a path that was removed is gone, and making the parent of that path again does
-- not bring it back.
pub exists-remove_path :
    (x : String) (p q : FilePath) (disk : Disk)
    → exists ((x ∷ p) ++ q) (remove_path (x ∷ p) disk) ≡ false
unfolding exists remove_path node_at
exists-remove_path x p q disk = ground (arith, is_relative_to-append (x ∷ p) q)

pub exists-make_dirs-parent :
    (x : String) (p q : FilePath) (disk d : Disk)
    → make_dirs (parent (x ∷ p)) disk ≡ some d
    → exists ((x ∷ p) ++ q) disk ≡ false
    → exists ((x ∷ p) ++ q) d ≡ false
unfolding exists make_dirs node_at
exists-make_dirs-parent x p q disk d made gone =
    ground (arith, made, gone, is_relative_to-parent x p q)
