-- ===== src/Editing/Store/Landing.antt =====
-- What an approved edit of a file writes, also when the file has changed since the proposal.
use simple_ai_agent.Common.{
  ℕ, Option, or_raise, modify, ◌>>=◌, ◌≡◌, ◌≢◌, ◌∙◌, none, [], refl, sym, subst, true, false, ◌⊎◌,
  inl, inr, some, Result, ok, err, arith, bind_passes, ◌>>◌, bind_raises, Bool-cases, Option-cases,
  Result-cases,
}
use simple_ai_agent.Editing.Text.{Content, apply_edits, same_content}
use simple_ai_agent.Editing.Disk.{Disk, FilePath, file, read_text, open_text, write_at, same_path}
use simple_ai_agent.Editing.Disk.Writes.{
  read_text-open_text, read_text-write_at, open_text_elsewhere, write_at_elsewhere,
}
use simple_ai_agent.Editing.Spans.{TextTools, changes_overlap as touch}
use simple_ai_agent.Editing.Model.{PendingEdit, applied, edit}
use simple_ai_agent.Editing.Store.{
  Editor, Editing, EditError, get, require_pending, set_status, stale_replacement, changes_overlap,
  cannot_reapply, not_encodable, os_error,
}
use simple_ai_agent.Editing.Store.Decision.{require_pending-cases}
use simple_ai_agent.Editing.Store.Approve.{
  is_empty, rebase, on_disk, write_file, approve_edit, apply_kind, approve,
}

-- The text an approved edit may write over `current`: the one that was proposed, if the file is
-- as it was then; otherwise the replacements of the edit, applied to what the file holds now, if
-- there are any and they touch nothing that has changed since.
unfoldable pub IsRightText : TextTools → PendingEdit → Content → Content → Type 0
IsRightText tools e current c =
    ((same_content current e.original_content ≡ true) × (c ≡ e.new_content))
    ⊎ ((same_content current e.original_content ≡ false)
        × (is_empty e.edits ≡ false)
        × (touch tools e.original_content current e.new_content ≡ false)
        × (apply_edits current e.edits ≡ ok c))

on_disk_fails :
    (f : Disk → Option Disk) (s : Editor) → f s.disk ≡ none → on_disk f s ≡ (err os_error, s)
unfolding on_disk
on_disk_fails f s h = rw h refl

on_disk_passes :
    (f : Disk → Option Disk) (s : Editor) (d : Disk)
    → f s.disk ≡ some d
    → on_disk f s ≡ (ok tt, record s { disk = d })
unfolding on_disk
on_disk_passes f s d h = rw h refl

module _ (tools : TextTools) (e : PendingEdit) where
  rebase-cases :
      (current : Content) (s : Editor)
      → ((x : EditError) × (rebase tools e current s ≡ (err x, s)))
        ⊎ ((c : Content) × IsRightText tools e current c × (rebase tools e current s ≡ (ok c, s)))
  unfolding rebase IsRightText
  rebase-cases current s = elim (Bool-cases (same_content current e.original_content)) [
    | inl same ↦ inr (e.new_content, inl (same, refl), rw same refl)
    | inr changed ↦ elim (Bool-cases (is_empty e.edits)) [
      | inl whole ↦ inl (stale_replacement, rw (changed, whole) refl)
      | inr partial ↦ elim (Bool-cases (touch tools e.original_content current e.new_content)) [
        | inl clash ↦ inl (changes_overlap, rw (changed, partial, clash) refl)
        | inr apart ↦ elim (Result-cases (apply_edits current e.edits)) [
          | inl (c, applies) ↦ inr (
            c,
            inr (changed, partial, apart, applies),
            rw (changed, partial, apart, applies) refl,
          )
          | inr (x, fails) ↦ inl (cannot_reapply x, rw (changed, partial, apart, fails) refl)
        ]
      ]
    ]
  ]

  -- The text to be written could not be encoded: the file is empty, and nothing else has changed.
  unfoldable pub IsEmptied : Editor → Editor → Type 0
  unfolding IsRightText
  IsEmptied s t =
      (current c : Content) × (read_text e.path s.disk ≡ some current)
      × IsRightText tools e current c
      × (tools.stored c ≡ none)
      × (t ≡ record s { disk = t.disk })
      × (read_text e.path t.disk ≡ some [])
      × ((q : FilePath) → same_path q e.path ≡ false → t.disk q ≡ s.disk q)

  -- The disk afterwards: the file holds the right text, and nothing else has changed.
  unfoldable pub IsWritten : Editor → Result EditError (Unit {0}) × Editor → Type 0
  IsWritten s (err x, t) = (t ≡ s) ⊎ ((x ≡ not_encodable) × IsEmptied s t)
  IsWritten s (ok u, t) =
      (current c : Content) × (read_text e.path s.disk ≡ some current)
      × IsRightText tools e current c
      × (tools.stored c ≢ none)
      × (read_text e.path t.disk ≡ tools.stored c)
      × ((q : FilePath) → same_path q e.path ≡ false → t.disk q ≡ s.disk q)

  pub IsWritten-err : (s : Editor) (x : EditError) → IsWritten s (err x, s)
  unfolding IsWritten
  IsWritten-err s x = inl refl

  unfoldable finish_write : Content → Editing (Unit {0})
  finish_write c = do
    written ← or_raise (tools.stored c) not_encodable
    modify (λ s. record s { disk = write_at e.path (file written) s.disk })

  -- The end of the call, once the text is chosen.
  write_file-IsWritten :
      (current c : Content) (s : Editor)
      → read_text e.path s.disk ≡ some current
      → IsRightText tools e current c
      → IsWritten s (write_file tools e.path c s)
  unfolding IsWritten IsEmptied write_file finish_write
  write_file-IsWritten current c s found right = elim (Option-cases (open_text e.path s.disk)) [
    | inl fails ↦
        let stops : write_file tools e.path c s ≡ (err os_error, s) =
          bind_raises (on_disk (open_text e.path)) (λ u. finish_write c) s
            (on_disk_fails (open_text e.path) s fails) in
        subst (IsWritten s) (sym stops) (inl refl)
    | inr (d, opens) ↦ elim (Option-cases (tools.stored c)) [
      | inl refused ↦
          let stops : write_file tools e.path c s ≡ (err not_encodable, record s { disk = d }) =
            bind_passes (on_disk (open_text e.path)) (λ u. finish_write c) s
              (on_disk_passes (open_text e.path) s d opens)
            ∙ rw (finish_write, refused) refl in
          subst (IsWritten s) (sym stops) (
            inr (
              refl,
              (
                current,
                c,
                found,
                right,
                refused,
                refl,
                read_text-open_text e.path s.disk d opens,
                λ q other. open_text_elsewhere e.path q s.disk d opens other,
              ),
            ))
      | inr (written, encodes) ↦
          let writes : write_file tools e.path c s
              ≡ (ok tt, record s { disk = write_at e.path (file written) d }) =
            bind_passes (on_disk (open_text e.path)) (λ u. finish_write c) s
              (on_disk_passes (open_text e.path) s d opens)
            ∙ rw (finish_write, encodes) refl in
          subst (IsWritten s) (sym writes) (
            current,
            c,
            found,
            right,
            (λ h. ground (arith, h, encodes)),
            read_text-write_at e.path written s.disk d opens ∙ sym encodes,
            λ q other. write_at_elsewhere e.path q written s.disk d opens other,
          )
    ]
  ]

  pub approve_edit-IsWritten : (s : Editor) → IsWritten s (approve_edit tools e s)
  unfolding IsWritten approve_edit
  approve_edit-IsWritten s =
      let write : Content → Editing (Unit {0}) = λ c. write_file tools e.path c in
      elim (Option-cases (read_text e.path s.disk)) [
        | inl missing ↦ rw missing (inl refl)
        | inr (current, found) ↦ elim (rebase-cases current s) [
          | inl (x, fails) ↦ rw found (
              subst (IsWritten s) (sym (bind_raises (rebase tools e current) write s fails))
                (inl refl))
          | inr (c, right, chosen) ↦ rw found (
              subst (IsWritten s) (sym (bind_passes (rebase tools e current) write s chosen))
                (write_file-IsWritten current c s found right))
        ]
      ]

-- Marking the edit as applied writes no file.
marked-IsWritten :
    (tools : TextTools) (k : ℕ) (e : PendingEdit) (s : Editor)
    → (r : Result EditError (Unit {0}) × Editor) → IsWritten tools e s r
    → IsWritten tools e s (((λ (u : Editor). r) >> set_status k e applied) s)
unfolding IsWritten set_status
marked-IsWritten tools k e s (err x, t) h = h
marked-IsWritten tools k e s (ok u, t) h = h

-- The approval of an edit of a file, however the file has changed since the proposal. If the call
-- raises nothing changes, or the right text could not be encoded, and then the file that held a
-- text is empty and nothing else has changed. Otherwise the file could be read before, and it now
-- reads as what `stored` makes of the right text; no other path has changed. The right text is the
-- one that was proposed if the text of the file is still the original one, and if not, the result of the
-- edit's replacements, of which there are some, on the text that it held, where the changes
-- overlap nothing that changed since.
pub approve-lands :
    (tools : TextTools) (k : ℕ) (s : Editor) (e : PendingEdit)
    → get k s ≡ some e
    → e.kind ≡ edit
    → IsWritten tools e s (approve tools k s)
unfolding approve apply_kind
approve-lands tools k s e found kind =
    let finish : PendingEdit → Editing (Unit {0}) =
      λ d. apply_kind tools d.kind d >> set_status k d applied in
    elim (require_pending-cases k s) [
      | inl (x, stopped) ↦
          subst (IsWritten tools e s) (sym (bind_raises (require_pending k) finish s stopped))
            (IsWritten-err tools e s x)
      | inr (d, found', open_edit, passed) ↦
          let mine : d ≡ e = ground (arith, found, found') in
          subst (IsWritten tools e s)
            (sym (
              bind_passes (require_pending k) finish s
                (subst (λ f. require_pending k s ≡ (ok f, s)) mine passed)))
            (subst (λ kd. IsWritten tools e s ((apply_kind tools kd e >> set_status k e applied) s))
              (sym kind)
              (marked-IsWritten tools k e s (approve_edit tools e s)
                (approve_edit-IsWritten tools e s)))
    ]
