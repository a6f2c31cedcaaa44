-- ===== src/Editing/Store/Lookup.antt =====
-- The dictionary of edits: what `put_edit` changes.
use simple_ai_agent.Common.{ℕ, ◌≡◌, false, some, List, [], ◌∷◌, arith, eqb}
use simple_ai_agent.Editing.Model.{PendingEdit}
use simple_ai_agent.Editing.Store.{find_edit, put_edit}

pub find_edit-put_edit :
    (k : ℕ) (e : PendingEdit) (es : List (ℕ × PendingEdit)) → find_edit k (put_edit k e es) ≡ some e
unfolding find_edit put_edit
find_edit-put_edit k e [] = ground arith
find_edit-put_edit k e ((j, d) ∷ es) = ground (arith, find_edit-put_edit k e es)

pub find_edit-put_edit_other :
    (k i : ℕ) (e : PendingEdit) (es : List (ℕ × PendingEdit))
    → eqb k i ≡ false
    → find_edit k (put_edit i e es) ≡ find_edit k es
unfolding find_edit put_edit
find_edit-put_edit_other k i e [] h = ground arith
find_edit-put_edit_other k i e ((j, d) ∷ es) h = ground (arith, find_edit-put_edit_other k i e es h)
