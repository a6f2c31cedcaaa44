-- ===== src/Core/Registry/Select.antt =====
-- What `select` selects.
use simple_ai_agent.Common.{
  ◌≢◌, ◌≡◌, ap, sym, subst, ◌∙◌, String, true, some, List, [], ◌∷◌, ◌++◌, ◌==◌, Result, ok, err,
  arith, lookup, eq_iff, append_assoc, append-nil, Bool-cases, Option-cases, Result-cases, inl, inr,
}
use simple_ai_agent.Core.Registry.{
  ToolSpec, ToolRegistry, RegistryError, register, select_from, finish_select, select, IsKeyed,
  IsFrom,
}

lookup-IsKeyed :
    (name : String) (source : ToolRegistry) (spec : ToolSpec)
    → IsKeyed source
    → lookup name source ≡ some spec
    → spec.name ≡ name
unfolding lookup IsKeyed
lookup-IsKeyed name [] spec keyed found = ground (arith, found)
lookup-IsKeyed name (entry ∷ rest) spec (own, keyed) found = elim (Bool-cases (name == entry.0)) [
  | inl is ↦ ground (arith, found, is, own, (eq_iff name (entry.0)).0 is)
  | inr differs ↦ lookup-IsKeyed name rest spec keyed (ground (arith, found, differs))
]

register-appends :
    (selected more : ToolRegistry) (spec : ToolSpec)
    → register selected spec ≡ ok more
    → more ≡ selected ++ (spec.name, spec) ∷ []
unfolding register
register-appends selected more spec h = ground (arith, h)

no_snoc : (xs : List String) (x : String) → xs ++ x ∷ [] ≢ []
no_snoc [] x h = ground (arith, h)
no_snoc (y ∷ xs) x h = ground (arith, h)

-- What the loop selected in the end, if nothing is missing.
Selected : ToolRegistry → List String → ToolRegistry → List String → ToolRegistry → Type 0
Selected source wanted selected missing out =
    (missing ≡ []) × ((tail : ToolRegistry) × (out ≡ selected ++ tail) × IsFrom source wanted tail)

select_from-Selected :
    (source : ToolRegistry) (wanted : List String) (selected : ToolRegistry) (missing : List String)
    (out : ToolRegistry)
    → IsKeyed source
    → select_from source wanted selected missing ≡ ok (out, [])
    → Selected source wanted selected missing out
unfolding select_from Selected IsFrom
select_from-Selected source [] selected missing out keyed =
    λ h. (ground (arith, h), ([], ground (arith, h, append-nil selected), tt))
select_from-Selected source (name ∷ rest) selected missing out keyed =
    elim (Option-cases (lookup name source)) [
      | inl none_there ↦
          rw (select_from, none_there)
            (λ h.
              let (empty, _) =
                select_from-Selected source rest selected (missing ++ name ∷ []) out keyed h in
              absurd (no_snoc missing name empty))
      | inr (spec, found) ↦ elim (Result-cases (register selected spec)) [
        | inr (e, refused) ↦ rw (select_from, found, refused) (λ h. ground (arith, h))
        | inl (more, added) ↦
            rw (select_from, found, added)
              (λ h.
                let (empty, (tail, whole, from)) =
                  select_from-Selected source rest more missing out keyed h in
                (
                  empty,
                  (
                    (spec.name, spec) ∷ tail,
                    whole
                        ∙ ap (λ m. m ++ tail) (register-appends selected more spec added)
                        ∙ append_assoc selected ((spec.name, spec) ∷ []) tail,
                    (lookup-IsKeyed name source spec keyed found, found, from),
                  ),
                ))
      ]
    ]

finish-strict :
    (r : Result RegistryError (ToolRegistry × List String)) (out : ToolRegistry)
    → finish_select true r ≡ ok out
    → r ≡ ok (out, [])
unfolding finish_select
finish-strict (err e) out h = ground (arith, h)
finish-strict (ok (selected, [])) out h = ground (arith, h)
finish-strict (ok (selected, name ∷ rest)) out h = ground (arith, h)

-- If a strict selection from a registry returns, it has exactly the tools that were named, in the order
-- of the names, and each is the source's tool of that name.
pub select-IsFrom :
    (source : ToolRegistry) (wanted : List String) (selected : ToolRegistry)
    → IsKeyed source
    → select source wanted true ≡ ok selected
    → IsFrom source wanted selected
unfolding select Selected
select-IsFrom source wanted selected keyed h =
    let (_, (tail, whole, from)) =
      select_from-Selected source wanted [] [] selected keyed
        (finish-strict (select_from source wanted [] []) selected h) in
    subst (IsFrom source wanted) (sym whole) from
