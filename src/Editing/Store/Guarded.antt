-- ===== src/Editing/Store/Guarded.antt =====
-- The parts of an approval, each of which leaves everything as it was if it raises.
use simple_ai_agent.Common.{
  ◌≡◌, ◌⊎◌, inl, inr, or_raise, modify, ◌>>=◌, refl, ap₂, [], String, Bool, true, false, ◌&&◌,
  Option, none, some, ◌∷◌, Result, ok, err, arith, raise_if, ◌>>◌, if◌then◌else◌,
}
use simple_ai_agent.Editing.Disk.{
  Disk, FilePath, exists, is_dir, with_copy, without_source, write_at, file, node_at, make_dirs,
  parent, open_text, move_path, copy_path,
}
use simple_ai_agent.Editing.Disk.Writes.{
  is_relative_to-parent_self, is_dir-make_dirs, exists-make_dirs,
}
use simple_ai_agent.Editing.Spans.{TextTools}
use simple_ai_agent.Editing.Text.{Content}
use simple_ai_agent.Editing.Model.{PendingEdit}
use simple_ai_agent.Editing.Store.{Editor, Editing, EditError, not_encodable}
use simple_ai_agent.Editing.Store.Landing.{IsWritten, IsEmptied}
use simple_ai_agent.Editing.Store.Approve.{on_disk, write_file}

-- If the call raised, the state is the same, or a text could not be encoded and only the disk is
-- another.
unfoldable pub IsAtomic : Editor → Result EditError (Unit {0}) × Editor → Type 0
IsAtomic s (err x, t) = (t ≡ s) ⊎ ((x ≡ not_encodable) × (t ≡ record s { disk = t.disk }))
IsAtomic s (ok u, t) = Unit

pub written-IsAtomic :
    (tools : TextTools) (e : PendingEdit) (s : Editor) (r : Result EditError (Unit {0}) × Editor)
    → IsWritten tools e s r
    → IsAtomic s r
unfolding IsAtomic IsWritten IsEmptied
written-IsAtomic tools e s (err x, t) (inl same) = inl same
written-IsAtomic tools e s (err x, t)
      (inr (refused, (current, c, found, right, no_text, kept, emptied, frame))) =
    inr (refused, kept)
written-IsAtomic tools e s (ok u, t) h = tt

-- Changes of the disk of which only the first may fail.
last-IsAtomic :
    (o : Option Disk) (s t : Editor)
    → (d : Disk) × (o ≡ some d)
    → IsAtomic s (on_disk (λ disk. o) t)
unfolding IsAtomic on_disk
last-IsAtomic none s t (d, same) = ground (arith, same)
last-IsAtomic (some d') s t h = tt

first-IsAtomic :
    (o : Option Disk) (change : Disk → Option Disk) (s : Editor)
    → ((d : Disk) → o ≡ some d → (d' : Disk) × (change d ≡ some d'))
    → IsAtomic s ((on_disk (λ disk. o) >> on_disk change) s)
unfolding IsAtomic on_disk
first-IsAtomic none change s works = inl refl
first-IsAtomic (some d) change s works =
    last-IsAtomic (change d) s (record s { disk = d }) (works d refl)

-- A file that can be opened is written, or its text cannot be encoded.
stored-IsAtomic :
    (o : Option Disk) (c : Option Content) (p : FilePath) (s : Editor) (first : Disk)
    → (d : Disk) × (o ≡ some d)
    → IsAtomic s (
        (on_disk (λ disk. o)
            >> (or_raise c not_encodable >>= λ stored.
                modify (λ u. record u { disk = write_at p (file stored) u.disk })))
          (record s { disk = first }))
unfolding IsAtomic on_disk
stored-IsAtomic none c p s first (d, same) = ground (arith, same)
stored-IsAtomic (some d') none p s first h = inr (refl, refl)
stored-IsAtomic (some d') (some stored) p s first h = tt

make_file :
    (o : Option Disk) (tools : TextTools) (p : FilePath) (c : Content) (s : Editor)
    → ((d : Disk) → o ≡ some d → (d' : Disk) × (open_text p d ≡ some d'))
    → IsAtomic s ((on_disk (λ disk. o) >> write_file tools p c) s)
unfolding IsAtomic on_disk write_file
make_file none tools p c s works = inl refl
make_file (some d) tools p c s works =
    stored-IsAtomic (open_text p d) (tools.stored c) p s d (works d refl)

pub made_file-IsAtomic :
    (tools : TextTools) (q p : FilePath) (c : Content) (s : Editor)
    → ((d : Disk) → make_dirs q s.disk ≡ some d → (d' : Disk) × (open_text p d ≡ some d'))
    → IsAtomic s ((on_disk (make_dirs q) >> write_file tools p c) s)
unfolding on_disk
made_file-IsAtomic tools q p c s works = make_file (make_dirs q s.disk) tools p c s works

pub made-IsAtomic :
    (p : FilePath) (change : Disk → Option Disk) (s : Editor)
    → ((d : Disk) → make_dirs p s.disk ≡ some d → (d' : Disk) × (change d ≡ some d'))
    → IsAtomic s ((on_disk (make_dirs p) >> on_disk change) s)
unfolding on_disk
made-IsAtomic p change s works = first-IsAtomic (make_dirs p s.disk) change s works

not_made :
    (x : String) (p : FilePath) (disk d : Disk)
    → exists (x ∷ p) disk ≡ false
    → make_dirs (parent (x ∷ p)) disk ≡ some d
    → is_dir (x ∷ p) d ≡ false
unfolding exists make_dirs is_dir node_at
not_made x p disk d free made = ground (arith, free, made, is_relative_to-parent_self x p)

pub open_text-made :
    (p : FilePath) (disk d : Disk)
    → exists p disk ≡ false
    → make_dirs (parent p) disk ≡ some d
    → (d' : Disk) × (open_text p d ≡ some d')
unfolding open_text exists node_at
open_text-made [] disk d free made = absurd (ground (arith, free))
open_text-made (x ∷ p) disk d free made =
    let up : is_dir (parent (x ∷ p)) d ≡ true = is_dir-make_dirs (parent (x ∷ p)) disk d made in
    let still : is_dir (x ∷ p) d ≡ false = not_made x p disk d free made in
    (write_at (x ∷ p) (file []) d, rw (up, still) refl)

pub copy_path-made :
    (source target : FilePath) (disk d : Disk)
    → exists source disk ≡ true
    → make_dirs (parent target) disk ≡ some d
    → (d' : Disk) × (copy_path source target d ≡ some d')
unfolding copy_path
copy_path-made source target disk d there made = (
  with_copy source target d,
  ap₂ (λ a b. if a && b then some (with_copy source target d) else none)
      (exists-make_dirs (parent target) source disk d made there)
      (is_dir-make_dirs (parent target) disk d made),
)

pub move_path-made :
    (source target : FilePath) (disk d : Disk)
    → exists source disk ≡ true
    → make_dirs (parent target) disk ≡ some d
    → (d' : Disk) × (move_path source target d ≡ some d')
unfolding move_path
move_path-made source target disk d there made =
    let (copied, done) = copy_path-made source target disk d there made in
    (without_source source target copied, rw (done, move_path) refl)

-- A guard that fails changes nothing.
pub guard-IsAtomic :
    (b : Bool) (x : EditError) (k : Editing (Unit {0})) (s : Editor)
    → (b ≡ false → IsAtomic s (k s))
    → IsAtomic s ((raise_if b x >> k) s)
unfolding IsAtomic
guard-IsAtomic true x k s h = inl refl
guard-IsAtomic false x k s h = h refl
