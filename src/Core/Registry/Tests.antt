-- ===== src/Core/Registry/Tests.antt =====
-- A profile of one tool of two.
use simple_ai_agent.Common.{◌≡◌, refl, String, true, false, [], ◌∷◌, ok}
use simple_ai_agent.Core.Registry.{ToolSpec, ToolRegistry, select, IsKeyed, IsFrom}
use simple_ai_agent.Core.Registry.Select.{select-IsFrom}

abbrev spec_of : String → ToolSpec
spec_of name = record { name = name; function = 0; description = "A tool."; requires_state = false }

abbrev source : ToolRegistry
source = ("pwd", spec_of "pwd") ∷ ("head", spec_of "head") ∷ []

abbrev selected : ToolRegistry
selected = ("head", spec_of "head") ∷ []

source-IsKeyed : IsKeyed source
unfolding IsKeyed
source-IsKeyed = (refl, (refl, tt))

selects_head : select source ("head" ∷ []) true ≡ ok selected
unfolding select
selects_head = refl

select-IsFrom_example : IsFrom source ("head" ∷ []) selected
select-IsFrom_example = select-IsFrom source ("head" ∷ []) selected source-IsKeyed selects_head
