-- ===== src/Runtime/ToolProfiles/Allowed.antt =====
-- An agent whose tools are those of a profile calls no others.
use simple_ai_agent.Common.{
  ◌≡◌, refl, ap₂, subst, String, true, Option, none, some, List, [], ◌∷◌, Result, ok, err, arith,
  contains, All,
}
use simple_ai_agent.Core.Protocol.{Reader, ToolCall}
use simple_ai_agent.Core.Registry.{
  ToolRegistry, RegistryError, names, has_tool, select, IsKeyed, IsFrom,
}
use simple_ai_agent.Core.Registry.Select.{select-IsFrom}
use simple_ai_agent.Core.Agent.{Tools, Llm, Agent}
use simple_ai_agent.Core.Agent.Change.{Added, IsKnown}
use simple_ai_agent.Core.Agent.Loop.{step}
use simple_ai_agent.Core.Agent.Bounds.{step-bounds}
use simple_ai_agent.Runtime.ToolProfiles.{
  AgentProfile, profile_of, profile_tools, profile_tool_names, listed_names, of_selection,
  build_from, build_profile_registry,
}

names-IsFrom :
    (source : ToolRegistry) (wanted : List String) (selected : ToolRegistry)
    → IsFrom source wanted selected
    → names selected ≡ wanted
unfolding IsFrom names
names-IsFrom source [] [] h = refl
names-IsFrom source [] (e ∷ es) h = absurd h
names-IsFrom source (w ∷ ws) [] h = absurd h
names-IsFrom source (w ∷ ws) (e ∷ es) (named, _, rest) =
    ap₂ (λ x l. x ∷ l) named (names-IsFrom source ws es rest)

All-map :
    {A : Type 0} (P Q : A → Type 0) (xs : List A) → ((x : A) → P x → Q x) → All P xs → All Q xs
All-map P Q [] f h = tt
All-map P Q (x ∷ xs) f (p, h) = (f x p, All-map P Q xs f h)

-- The tool of a call is on the list of the profile.
unfoldable pub IsAllowed : String → ToolCall → Type 0
unfolding profile_of profile_tools
IsAllowed s call =
    (profile : AgentProfile) × (profile_of s ≡ some profile)
    × (contains call.action (profile_tools profile) ≡ true)

of_selection-ok :
    (r : Result RegistryError ToolRegistry) (selected : ToolRegistry)
    → of_selection r ≡ ok selected
    → r ≡ ok selected
unfolding of_selection
of_selection-ok (err e) selected h = ground (arith, h)
of_selection-ok (ok other) selected h = ground (arith, h)

-- What `build_profile_registry` returns is selected by the list of a profile.
build_from-selects :
    (s : String) (o : Option AgentProfile) (source selected : ToolRegistry)
    → build_from source (listed_names s o) ≡ ok selected
    → (profile : AgentProfile) × (o ≡ some profile)
      × (select source (profile_tools profile) true ≡ ok selected)
unfolding build_from listed_names
build_from-selects s none source selected h = ground (arith, h)
build_from-selects s (some profile) source selected h =
    (profile, refl, of_selection-ok (select source (profile_tools profile) true) selected h)

-- If an agent's tools are what `build_profile_registry` made for a profile, each tool that a step calls
-- is on the list of that profile.
pub build_profile_registry-step :
    (reader : Reader) (llm : Llm) (tools : Tools) (s : String) (source : ToolRegistry)
    (input : String) (a : Agent)
    → IsKeyed source
    → build_profile_registry s source ≡ ok tools.registry
    → Added (IsAllowed s) 100 a.executed ((step reader llm tools input a).1).executed
unfolding IsAllowed IsKnown has_tool build_profile_registry profile_tool_names
build_profile_registry-step reader llm tools s source input a keyed built =
    let (profile, known, selected) =
      build_from-selects s (profile_of s) source tools.registry built in
    let same =
      names-IsFrom source (profile_tools profile) tools.registry
        (select-IsFrom source (profile_tools profile) tools.registry keyed selected) in
    let ran = (step-bounds reader llm tools input a).1 in
    record {
      new = ran.new;
      longer = ran.longer;
      few = ran.few;
      sound =
          All-map (IsKnown tools) (IsAllowed s) ran.new
            (λ call h. (profile, known, subst (λ l. contains call.action l ≡ true) same h))
            ran.sound;
    }
