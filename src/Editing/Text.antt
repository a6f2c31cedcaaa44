-- ===== src/Editing/Text.antt =====
-- `_apply_exact_edit` of editing/store.py, and the methods of `str` that it uses. A text is its
-- list of code points.
pub mod Exact
use simple_ai_agent.Common.{
  ℕ, zero, suc, ◌+◌, ◌-◌, Bool, true, false, ◌&&◌, List, [], ◌∷◌, ◌++◌, Result, ok, err, length,
  drop, eqb, ltb, if◌then◌else◌,
}

abbrev pub Content : Type 0
Content = List ℕ

-- `s.startswith(find)`
unfoldable pub starts : Content → Content → Bool
starts [] s = true
starts (c ∷ find) [] = false
starts (c ∷ find) (d ∷ s) = eqb c d && starts find s

-- The number of matches in `s`, none of which overlaps another, when the first `skip` places are
-- taken by a match before.
unfoldable pub count_from : Content → ℕ → Content → ℕ
unfolding starts
count_from find skip [] = 0
count_from find (suc skip) (c ∷ s) = count_from find skip s
count_from find zero (c ∷ s) =
    let rest = count_from find 0 s in
    let beyond = suc (count_from find (length find - 1) s) in
    if starts find (c ∷ s) then beyond else rest

-- `s.count(find)`: an empty text is found before each place and at the end.
unfoldable pub count : Content → Content → ℕ
unfolding count_from
count [] s = suc (length s)
count (c ∷ find) s = count_from (c ∷ find) 0 s

-- `s.replace(find, new, 1)`
unfoldable pub replace_first : Content → Content → Content → Content
unfolding starts
replace_first find new [] = if starts find [] then new else []
replace_first find new (c ∷ s) =
    let rest = c ∷ replace_first find new s in
    if starts find (c ∷ s) then new ++ drop (length find) (c ∷ s) else rest

pub record FileEdit : Type 0 where
  pub find : Content
  pub replace : Content

pub data ExactError : Type 0 where
  not_found ambiguous : ExactError

-- `_apply_exact_edit`
unfoldable pub apply_exact_edit : Content → FileEdit → Result ExactError Content
unfolding count replace_first
apply_exact_edit content edit =
    let matches = count edit.find content in
    if eqb matches 0
    then err not_found
    else if ltb 1 matches
    then err ambiguous
    else ok (replace_first edit.find edit.replace content)

-- The loop over a proposal's edits, each on the text that the one before it left.
unfoldable pub apply_edits : Content → List FileEdit → Result ExactError Content
unfolding apply_exact_edit
apply_edits content [] = ok content
apply_edits content (e ∷ rest) = elim (apply_exact_edit content e) [
  | ok next ↦ apply_edits next rest
  | err x ↦ err x
]

-- `a == b` on texts.
unfoldable pub same_content : Content → Content → Bool
same_content [] [] = true
same_content (c ∷ a) (d ∷ b) = eqb c d && same_content a b
same_content _ _ = false
