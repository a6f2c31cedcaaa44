-- ===== src/Editing/Spans/Overlap.antt =====
-- The test of two changes of one text is symmetric.
use simple_ai_agent.Common.{◌≡◌, arith, any, any-any, any-cong, ◌∙◌}
use simple_ai_agent.Editing.Text.{Content}
use simple_ai_agent.Editing.Spans.{Span, TextTools, spans_overlap, changed_spans, changes_overlap}

-- The order of two spans does not matter.
pub spans_overlap_comm : (a b : Span) → spans_overlap a b ≡ spans_overlap b a
unfolding spans_overlap
spans_overlap_comm a b = ground arith

-- Whether two changes of a text overlap does not depend on which of them came first.
pub changes_overlap_comm :
    (tools : TextTools) (original a b : Content)
    → changes_overlap tools original a b ≡ changes_overlap tools original b a
unfolding changes_overlap
changes_overlap_comm tools original a b =
    let firsts = changed_spans tools original a in
    let seconds = changed_spans tools original b in
    any-any spans_overlap firsts seconds
    ∙ any-cong (λ y. any (λ x. spans_overlap x y) firsts) (λ y. any (λ x. spans_overlap y x) firsts)
        seconds
        (λ y.
          any-cong (λ x. spans_overlap x y) (λ x. spans_overlap y x) firsts
            (λ x. spans_overlap_comm x y))
