-- ===== src/Editing/Store/Atomic.antt =====
-- When an approval that raises leaves everything as it was, the disk included.
use simple_ai_agent.Common.{
  ℕ, ◌≡◌, refl, sym, subst, false, not, ◌&&◌, inl, inr, Option, none, some, Result, ok, err, arith,
  raise_if, or_raise, ◌>>=◌, bind_passes, bind_raises, Bool-cases, ◌>>◌,
}
use simple_ai_agent.Editing.Disk.{
  Disk, FilePath, exists, is_dir, is_relative_to, make_dirs, parent, move_path, copy_path,
}
use simple_ai_agent.Editing.Spans.{TextTools}
use simple_ai_agent.Editing.Model.{PendingEdit, EditKind, applied, edit, create, move, delete, copy}
use simple_ai_agent.Editing.Store.{
  Editor, Editing, EditError, get, require_pending, set_status, path_exists, path_missing,
  into_itself, needs_recursive, missing_destination,
}
use simple_ai_agent.Editing.Store.Decision.{require_pending-cases}
use simple_ai_agent.Editing.Store.Landing.{approve_edit-IsWritten}
use simple_ai_agent.Editing.Store.Approve.{
  on_disk, write_file, clear_destination, require_destination, approve_edit, approve_create,
  move_to, copy_to, approve_move, approve_delete, approve_copy, apply_kind, approve,
}
use simple_ai_agent.Editing.Store.Guarded.{
  IsAtomic, written-IsAtomic, made-IsAtomic, made_file-IsAtomic, open_text-made, copy_path-made,
  move_path-made, guard-IsAtomic,
}

module _ (e : PendingEdit) (s : Editor) where
  approve_create-IsAtomic : (tools : TextTools) → IsAtomic s (approve_create tools e s)
  unfolding approve_create
  approve_create-IsAtomic tools =
      guard-IsAtomic (exists e.path s.disk) path_exists
        (on_disk (make_dirs (parent e.path)) >> write_file tools e.path e.new_content) s
        (λ free.
          made_file-IsAtomic tools (parent e.path) e.path e.new_content s
            (λ d made. open_text-made e.path s.disk d free made))

  approve_delete-IsAtomic : IsAtomic s (approve_delete e s)
  unfolding approve_delete IsAtomic
  approve_delete-IsAtomic = ground arith

  -- What a move or a copy that is not forced does, once the destination is known to be free.
  clear_destination-IsAtomic :
      (destination : FilePath) (change : Disk → Option Disk)
      → e.force ≡ false
      → ((d : Disk)
          → make_dirs (parent destination) s.disk ≡ some d
          → (d' : Disk) × (change d ≡ some d'))
      → IsAtomic s ((clear_destination e destination >> on_disk change) s)
  unfolding clear_destination IsAtomic
  clear_destination-IsAtomic destination change gentle works =
      let then_change : Result EditError (Unit {0}) × Editor → Type 0 =
        λ r. IsAtomic s (((λ (u : Editor). r) >> on_disk change) s) in
      elim (Bool-cases (exists destination s.disk)) [
        | inl there ↦
            let stops : clear_destination e destination s ≡ (err path_exists, s) =
              rw (there, gentle) refl in
            subst then_change (sym stops) (inl refl)
        | inr free ↦
            let clear : clear_destination e destination s
                ≡ on_disk (make_dirs (parent destination)) s =
              rw free refl in
            subst then_change (sym clear) (made-IsAtomic (parent destination) change s works)
      ]

  require_destination-IsAtomic :
      (k : FilePath → Editing (Unit {0}))
      → ((destination : FilePath) → IsAtomic s (k destination s))
      → IsAtomic s ((require_destination e >>= k) s)
  unfolding require_destination IsAtomic
  require_destination-IsAtomic k h =
      elim e.destination_path as (λ d. IsAtomic s ((or_raise d missing_destination >>= k) s)) [
        | none ↦ inl refl
        | some destination ↦ h destination
      ]

  approve_move-IsAtomic : e.force ≡ false → IsAtomic s (approve_move e s)
  unfolding approve_move move_to
  approve_move-IsAtomic gentle = require_destination-IsAtomic (move_to e) (λ destination.
      let there = exists e.path s.disk in
      let inside = is_dir e.path s.disk && is_relative_to destination e.path in
      let effect = clear_destination e destination >> on_disk (move_path e.path destination) in
      guard-IsAtomic (not there) path_missing (raise_if inside into_itself >> effect) s (λ found.
        guard-IsAtomic inside into_itself effect s (λ apart.
          clear_destination-IsAtomic destination (move_path e.path destination) gentle
            (λ d made. move_path-made e.path destination s.disk d (ground (arith, found)) made))))

  approve_copy-IsAtomic : e.force ≡ false → IsAtomic s (approve_copy e s)
  unfolding approve_copy copy_to
  approve_copy-IsAtomic gentle = require_destination-IsAtomic (copy_to e) (λ destination.
      let there = exists e.path s.disk in
      let whole = is_dir e.path s.disk && not e.recursive in
      let inside = is_dir e.path s.disk && is_relative_to destination e.path in
      let effect = clear_destination e destination >> on_disk (copy_path e.path destination) in
      let rest = raise_if inside into_itself >> effect in
      guard-IsAtomic (not there) path_missing (raise_if whole needs_recursive >> rest) s (λ found.
        guard-IsAtomic whole needs_recursive rest s (λ deep.
          guard-IsAtomic inside into_itself effect s (λ apart.
            clear_destination-IsAtomic destination (copy_path e.path destination) gentle (λ d made.
              copy_path-made e.path destination s.disk d (ground (arith, found)) made)))))

  apply_kind-IsAtomic :
      (tools : TextTools) (kind : EditKind)
      → e.force ≡ false
      → IsAtomic s (apply_kind tools kind e s)
  unfolding apply_kind
  apply_kind-IsAtomic tools edit gentle =
      written-IsAtomic tools e s (approve_edit tools e s) (approve_edit-IsWritten tools e s)
  apply_kind-IsAtomic tools create gentle = approve_create-IsAtomic tools
  apply_kind-IsAtomic tools move gentle = approve_move-IsAtomic gentle
  apply_kind-IsAtomic tools delete gentle = approve_delete-IsAtomic
  apply_kind-IsAtomic tools copy gentle = approve_copy-IsAtomic gentle

marked-IsAtomic :
    (k : ℕ) (e : PendingEdit) (s : Editor) (r : Result EditError (Unit {0}) × Editor)
    → IsAtomic s r
    → IsAtomic s (((λ (u : Editor). r) >> set_status k e applied) s)
unfolding IsAtomic set_status
marked-IsAtomic k e s (err x, t) h = h
marked-IsAtomic k e s (ok u, t) h = tt

-- The approval of an edit that is not forced, of any kind and in any state: a call that raises has
-- changed nothing, neither on the disk nor in the store, unless it raised because a text could not
-- be encoded, and then it has changed nothing in the store; so the edit is still there to be approved
-- again.
pub approve-IsAtomic :
    (tools : TextTools) (k : ℕ) (s : Editor) (e : PendingEdit)
    → get k s ≡ some e
    → e.force ≡ false
    → IsAtomic s (approve tools k s)
unfolding approve IsAtomic
approve-IsAtomic tools k s e found gentle =
    let finish : PendingEdit → Editing (Unit {0}) =
      λ d. apply_kind tools d.kind d >> set_status k d applied in
    elim (require_pending-cases k s) [
      | inl (x, stopped) ↦
          subst (IsAtomic s) (sym (bind_raises (require_pending k) finish s stopped)) (inl refl)
      | inr (d, found', open_edit, passed) ↦
          subst (IsAtomic s) (sym (bind_passes (require_pending k) finish s passed)) (
            marked-IsAtomic k d s (apply_kind tools d.kind d s)
              (apply_kind-IsAtomic d s tools d.kind (ground (arith, found, found', gentle))))
    ]
