-- ===== src/Editing/Text/Exact.antt =====
-- An exact edit replaces the one place where its text is found.
use simple_ai_agent.Common.{
  ℕ, zero, suc, ◌≡◌, ◌<◌, sym, ◌≢◌, refl, ap, ◌∙◌, true, [], ◌∷◌, ◌++◌, ok, length, drop, arith,
  inl, inr, Bool-cases,
}
use simple_ai_agent.Editing.Text.{
  Content, FileEdit, starts, count_from, count, replace_first, apply_exact_edit,
}

-- What `starts` finds is there.
starts-append : (find s : Content) → starts find s ≡ true → find ++ drop (length find) s ≡ s
unfolding starts
starts-append [] s h = refl
starts-append (c ∷ find) [] h = cc
starts-append (c ∷ find) (d ∷ s) h = ground (arith, starts-append find s)

starts_self : (find post : Content) → starts find (find ++ post) ≡ true
unfolding starts
starts_self [] post = refl
starts_self (c ∷ find) post = ground (arith, starts_self find post)

-- Places that a match has taken are passed over.
count_from-drop :
    (find : Content) (skip : ℕ) (s : Content)
    → count_from find skip s ≡ count_from find 0 (drop skip s)
unfolding count_from
count_from-drop find zero s = refl
count_from-drop find (suc skip) [] = refl
count_from-drop find (suc skip) (c ∷ s) = count_from-drop find skip s

-- The first match of `find` in `s` stands between `pre` and `post`; `replace_first` replaces it,
-- and `more` matches follow.
pub record FirstMatch (find new s : Content) (more : ℕ) : Type 0 where
  pub pre : Content
  pub post : Content
  pub parts : s ≡ pre ++ (find ++ post)
  pub replaced : replace_first find new s ≡ pre ++ (new ++ post)
  pub rest : count_from find 0 post ≡ more

match_here :
    (c : ℕ) (find new s : Content) (more : ℕ)
    → starts (c ∷ find) s ≡ true
    → count_from (c ∷ find) 0 s ≡ suc more
    → FirstMatch (c ∷ find) new s more
unfolding count_from replace_first
match_here c find new [] more here n = absurd (cc (here))
match_here c find new (d ∷ s) more here n = record {
  pre = [];
  post = drop (length find) s;
  parts = sym (starts-append (c ∷ find) (d ∷ s) here);
  replaced = rw here refl;
  rest = ground (arith, count_from-drop (c ∷ find) (length find) s);
}

first_match :
    (c : ℕ) (find new s : Content) (more : ℕ)
    → count_from (c ∷ find) 0 s ≡ suc more
    → FirstMatch (c ∷ find) new s more
unfolding count_from replace_first
first_match c find new [] more n = absurd (cc (n))
first_match c find new (d ∷ s) more n = elim (Bool-cases (starts (c ∷ find) (d ∷ s))) [
  | inl here ↦ match_here c find new (d ∷ s) more here n
  | inr not_here ↦
      let later = first_match c find new s more (ground arith) in
      record {
        pre = d ∷ later.pre;
        post = later.post;
        parts = ap (◌∷◌ d) later.parts;
        replaced = rw not_here (ap (◌∷◌ d) later.replaced);
        rest = later.rest;
      }
]

-- A text that stands somewhere is counted.
count_from_pos :
    (c : ℕ) (find pre post : Content) → 0 < count_from (c ∷ find) 0 (pre ++ ((c ∷ find) ++ post))
unfolding count_from
count_from_pos c find [] post = ground (arith, starts_self (c ∷ find) post)
count_from_pos c find (d ∷ pre) post = ground (arith, count_from_pos c find pre post)

ok_counts_one :
    (content find new : Content) {r : Content}
    → apply_exact_edit content (record { find = find; replace = new }) ≡ ok r
    → (count find content ≡ 1) × (r ≡ replace_first find new content)
unfolding apply_exact_edit
ok_counts_one content find new {r} done = ground arith

-- An edit with a text to find that succeeds has found it: the content is that text between `pre`
-- and `post`, the result is the replacement between them, and the text has no match in `post`.
pub apply_exact_edit_sound :
    (content : Content) (edit : FileEdit) {r : Content}
    → edit.find ≢ []
    → apply_exact_edit content edit ≡ ok r
    → (pre : Content) × (post : Content) × (content ≡ pre ++ (edit.find ++ post))
      × (r ≡ pre ++ (edit.replace ++ post))
      × (count edit.find post ≡ 0)
unfolding count
apply_exact_edit_sound content edit {r} = sound edit.find edit.replace
  where
    sound :
        (find new : Content)
        → find ≢ []
        → apply_exact_edit content (record { find = find; replace = new }) ≡ ok r
        → (pre : Content) × (post : Content) × (content ≡ pre ++ (find ++ post))
          × (r ≡ pre ++ (new ++ post))
          × (count find post ≡ 0)
    sound [] new some_text done = absurd (some_text refl)
    sound (c ∷ find) new some_text done =
        let facts = ok_counts_one content (c ∷ find) new done in
        let m = first_match c find new content 0 facts.0 in
        (m.pre, m.post, m.parts, facts.1 ∙ m.replaced, m.rest)
