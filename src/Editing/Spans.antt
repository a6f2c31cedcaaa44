-- ===== src/Editing/Spans.antt =====
-- Which parts of the original text two changes touch: `_changes_overlap` of editing/store.py and
-- below. `difflib.SequenceMatcher`, `str.splitlines` and the encoding of files are parameters.
pub mod Overlap
use simple_ai_agent.Common.{
  ℕ, zero, suc, ◌+◌, ◌-◌, ◌*◌, Option, Bool, true, false, ◌&&◌, List, [], ◌∷◌, ◌++◌, length, take,
  drop, any, eqb, ltb, leb, if◌then◌else◌,
}
use simple_ai_agent.Editing.Text.{Content}

pub data Tag : Type 0 where
  equal replace delete insert : Tag

-- One of `get_opcodes()`.
pub record Opcode : Type 0 where
  pub tag : Tag
  pub original_start : ℕ
  pub original_end : ℕ
  pub modified_start : ℕ
  pub modified_end : ℕ

-- What the store takes from the standard library: the parts of a text and what differs, and the text
-- that `read_text` gives of a file that `write_text` has written, after the translation of line
-- ends; `none` for a text that cannot be encoded.
pub record TextTools : Type 0 where
  pub splitlines : Content → List Content
  pub line_opcodes : List Content → List Content → List Opcode
  pub character_opcodes : Content → Content → List Opcode
  pub stored : Content → Option Content

pub record Span : Type 0 where
  pub start : ℕ
  pub end : ℕ

abbrev pub max_character_diff_cells : ℕ
max_character_diff_cells = 1_000_000

-- `s[a:b]`
unfoldable pub slice : Content → ℕ → ℕ → Content
slice s a b = take (b - a) (drop a s)

offsets_from : ℕ → List Content → List ℕ
offsets_from n [] = n ∷ []
offsets_from n (line ∷ lines) = n ∷ offsets_from (n + length line) lines

-- `_line_offsets`
unfoldable pub line_offsets : List Content → List ℕ
unfolding offsets_from
line_offsets lines = offsets_from 0 lines

-- `offsets[i]`; an opcode never points past the last offset.
unfoldable pub offset_at : List ℕ → ℕ → ℕ
offset_at [] i = 0
offset_at (n ∷ rest) zero = n
offset_at (n ∷ rest) (suc i) = offset_at rest i

is_equal : Tag → Bool
is_equal Tag.equal = true
is_equal _ = false

is_replace : Tag → Bool
is_replace Tag.replace = true
is_replace _ = false

shifted : ℕ → List Opcode → List Span
unfolding is_equal
shifted offset [] = []
shifted offset (o ∷ rest) =
    let others = shifted offset rest in
    let span : Span = record { start = offset + o.original_start; end = offset + o.original_end } in
    if is_equal o.tag then others else span ∷ others

module _ (tools : TextTools) where
  -- `_character_changed_spans`
  unfoldable pub character_changed_spans : Content → Content → ℕ → List Span
  unfolding shifted
  character_changed_spans original_block modified_block block_offset =
      if ltb max_character_diff_cells (length original_block * length modified_block)
      then record { start = block_offset; end = block_offset + length original_block } ∷ []
      else shifted block_offset (tools.character_opcodes original_block modified_block)

  -- The loop of `_changed_spans`.
  opcode_spans : Content → Content → List ℕ → List ℕ → List Opcode → List Span
  unfolding is_equal is_replace offset_at slice character_changed_spans
  opcode_spans original modified original_offsets modified_offsets [] = []
  opcode_spans original modified original_offsets modified_offsets (o ∷ rest) =
      let others = opcode_spans original modified original_offsets modified_offsets rest in
      let start = offset_at original_offsets o.original_start in
      let end = offset_at original_offsets o.original_end in
      let refined =
        character_changed_spans (slice original start end)
          (slice modified (offset_at modified_offsets o.modified_start)
            (offset_at modified_offsets o.modified_end))
          start in
      let whole : List Span = record { start = start; end = end } ∷ [] in
      if is_equal o.tag then others else (if is_replace o.tag then refined else whole) ++ others

  -- `_changed_spans`
  unfoldable pub changed_spans : Content → Content → List Span
  unfolding opcode_spans line_offsets
  changed_spans original modified =
      let original_lines = tools.splitlines original in
      let modified_lines = tools.splitlines modified in
      opcode_spans original modified (line_offsets original_lines) (line_offsets modified_lines)
        (tools.line_opcodes original_lines modified_lines)

-- `_spans_overlap`
unfoldable pub spans_overlap : Span → Span → Bool
spans_overlap first second =
    if eqb first.start first.end
    then leb second.start first.start && leb first.start second.end
    else if eqb second.start second.end
    then leb first.start second.start && leb second.start first.end
    else ltb first.start second.end && ltb second.start first.end

-- `_changes_overlap`
unfoldable pub changes_overlap : TextTools → Content → Content → Content → Bool
unfolding changed_spans spans_overlap
changes_overlap tools original current proposed =
    let proposed_spans = changed_spans tools original proposed in
    any (λ a. any (λ b. spans_overlap a b) proposed_spans) (changed_spans tools original current)
