-- ===== src/Editing/Store/Ancestor.antt =====
-- A forced move to a directory that holds the source.
use simple_ai_agent.Common.{
  ℕ, ◌≡◌, refl, sym, ap, subst, ◌∙◌, String, true, false, ◌&&◌, Option, none, some, ◌∷◌, ◌++◌,
  Result, ok, err, arith, bind_passes, bind_raises, ◌>>◌,
}
use simple_ai_agent.Editing.Disk.{
  Disk, FilePath, exists, is_dir, is_relative_to, remove_path, make_dirs, parent, move_path,
  copy_path,
}
use simple_ai_agent.Editing.Disk.Writes.{
  is_relative_to_strict, exists-remove_path, exists-make_dirs-parent,
}
use simple_ai_agent.Editing.Spans.{TextTools}
use simple_ai_agent.Editing.Model.{PendingEdit, pending, applied, move}
use simple_ai_agent.Editing.Store.{
  Editor, Editing, EditError, get, is_pending, require_pending, set_status, os_error,
}
use simple_ai_agent.Editing.Store.Approve.{
  on_disk, clear_destination, require_destination, move_to, approve_move, apply_kind, approve,
}

-- The call raises an exception of the operating system, and nothing stands at the path any more.
unfoldable pub IsLost : FilePath → Result EditError (Unit {0}) × Editor → Type 0
IsLost path r = (t : Editor) × (r ≡ (err os_error, t)) × (exists path t.disk ≡ false)

module _ (x y : String) (p q : FilePath) where
  move_path-none :
      (d : Disk)
      → exists ((x ∷ p) ++ y ∷ q) d ≡ false
      → move_path ((x ∷ p) ++ y ∷ q) (x ∷ p) d ≡ none
  unfolding move_path copy_path
  move_path-none d gone = rw gone refl

  cleared-IsLost :
      (o : Option Disk) (s : Editor)
      → exists ((x ∷ p) ++ y ∷ q) s.disk ≡ false
      → ((d : Disk) → o ≡ some d → exists ((x ∷ p) ++ y ∷ q) d ≡ false)
      → IsLost
          ((x ∷ p) ++ y ∷ q)
          ((on_disk (λ disk. o) >> on_disk (move_path ((x ∷ p) ++ y ∷ q) (x ∷ p))) s)
  unfolding IsLost on_disk
  cleared-IsLost none s gone later = (s, refl, gone)
  cleared-IsLost (some d) s gone later =
      (record s { disk = d }, rw (move_path-none d (later d refl)) refl, later d refl)

  clear_destination-removes :
      (e : PendingEdit) (s : Editor)
      → e.force ≡ true
      → exists (x ∷ p) s.disk ≡ true
      → clear_destination e (x ∷ p) s
        ≡ on_disk (make_dirs (parent (x ∷ p))) (record s { disk = remove_path (x ∷ p) s.disk })
  unfolding clear_destination
  clear_destination-removes e s forced above = rw (above, forced) refl

  move_to-passes :
      (e : PendingEdit) (s : Editor)
      → exists e.path s.disk ≡ true
      → (is_dir e.path s.disk && is_relative_to (x ∷ p) e.path) ≡ false
      → move_to e (x ∷ p) s ≡ (clear_destination e (x ∷ p) >> on_disk (move_path e.path (x ∷ p))) s
  unfolding move_to
  move_to-passes e s there outside = rw (there, outside) refl

  move_to-IsLost :
      (e : PendingEdit) (s : Editor)
      → e.path ≡ (x ∷ p) ++ y ∷ q
      → e.force ≡ true
      → exists e.path s.disk ≡ true
      → exists (x ∷ p) s.disk ≡ true
      → IsLost e.path (move_to e (x ∷ p) s)
  unfolding on_disk
  move_to-IsLost e s below forced there above =
      let removed : Editor = record s { disk = remove_path (x ∷ p) s.disk } in
      let gone = exists-remove_path x p (y ∷ q) s.disk in
      let moves : FilePath
          → Result EditError (Unit {0}) × Editor
          → Result EditError (Unit {0}) × Editor =
        λ path r. ((λ (u : Editor). r) >> on_disk (move_path path (x ∷ p))) s in
      let outside : (is_dir e.path s.disk && is_relative_to (x ∷ p) e.path) ≡ false =
        ground (arith, below, is_relative_to_strict (x ∷ p) y q) in
      let runs : move_to e (x ∷ p) s ≡ moves e.path (on_disk (make_dirs (parent (x ∷ p))) removed) =
        move_to-passes e s there outside
        ∙ ap (moves e.path) (clear_destination-removes e s forced above) in
      subst (IsLost e.path) (sym runs) (
        subst (λ path. IsLost path (moves path (on_disk (make_dirs (parent (x ∷ p))) removed)))
          (sym below)
          (cleared-IsLost (make_dirs (parent (x ∷ p)) removed.disk) removed gone
            (λ d made. exists-make_dirs-parent x p (y ∷ q) removed.disk d made gone)))

-- The approval of a pending forced move whose destination is a directory above the source, both
-- of which exist: the call raises an exception of the operating system after it has removed the
-- destination with all that it holds, so that the source is gone and was moved nowhere.
pub approve-IsLost :
    (tools : TextTools) (k : ℕ) (s : Editor) (e : PendingEdit) (x y : String) (p q : FilePath)
    → get k s ≡ some e
    → e.status ≡ pending
    → e.kind ≡ move
    → e.force ≡ true
    → e.destination_path ≡ some (x ∷ p)
    → e.path ≡ (x ∷ p) ++ y ∷ q
    → exists e.path s.disk ≡ true
    → exists (x ∷ p) s.disk ≡ true
    → IsLost e.path (approve tools k s)
unfolding approve IsLost require_pending is_pending apply_kind approve_move require_destination
approve-IsLost tools k s e x y p q found open_edit kind forced target below there above =
    let finish : PendingEdit → Editing (Unit {0}) =
      λ d. apply_kind tools d.kind d >> set_status k d applied in
    let passed : require_pending k s ≡ (ok e, s) = rw (found, open_edit) refl in
    let (t, stops, gone) = move_to-IsLost x y p q e s below forced there above in
    let moves : apply_kind tools e.kind e s ≡ (err os_error, t) =
      ap (λ kd. apply_kind tools kd e s) kind
      ∙ bind_passes (require_destination e) (move_to e) s (rw (target, require_destination) refl)
      ∙ stops in
    (
      t,
      bind_passes (require_pending k) finish s passed
          ∙ bind_raises (apply_kind tools e.kind e) (λ u. set_status k e applied) s moves,
      gone,
    )
