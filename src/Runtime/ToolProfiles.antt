-- ===== src/Runtime/ToolProfiles.antt =====
-- runtime/tool_profiles.py: the tools that each kind of agent may have.
pub mod Allowed
mod Tests
use simple_ai_agent.Common.{
  String, true, ◌==◌, Option, none, some, List, [], ◌∷◌, ◌++◌, Result, ok, err, if◌then◌else◌,
}
use simple_ai_agent.Core.Registry.{ToolRegistry, RegistryError, select}

pub data AgentProfile : Type 0 where
  head coding_worker read_only_worker review_worker : AgentProfile

-- `AgentProfile(value)`
unfoldable pub profile_of : String → Option AgentProfile
profile_of s =
    if s == "head"
    then some head
    else if s == "coding-worker"
    then some coding_worker
    else if s == "read-only-worker"
    then some read_only_worker
    else if s == "review-worker"
    then some review_worker
    else none

abbrev pub inspection_tools : List String
inspection_tools =
    "analyze_python_file" ∷ "analyze_python_files" ∷ "file_info" ∷ "pwd" ∷ "ls" ∷ "cd" ∷ "read_file"
    ∷ "find_files" ∷ "search_text" ∷ []

abbrev pub mutation_tools : List String
mutation_tools =
    "propose_file_edit" ∷ "propose_file_replace" ∷ "create_file" ∷ "move_file" ∷ "delete_path"
    ∷ "copy_file" ∷ "create_folder" ∷ []

-- `_PROFILE_TOOLS`
unfoldable pub profile_tools : AgentProfile → List String
profile_tools head =
    inspection_tools
    ++ mutation_tools
    ++ "knowledge_search" ∷ "http_get" ∷ "run_shell_command" ∷ "run_elevated_shell_command"
      ∷ "collect_privileged_host_evidence" ∷ "inspect_privileged_image_copy" ∷ []
profile_tools coding_worker = inspection_tools ++ mutation_tools ++ "run_shell_command" ∷ []
profile_tools read_only_worker = inspection_tools ++ "knowledge_search" ∷ []
profile_tools review_worker = inspection_tools ++ "run_shell_command" ∷ []

-- The exceptions: an unknown profile, or those of the selection.
pub data ProfileError : Type 0 where
  unknown_profile : String → ProfileError
  not_selected : RegistryError → ProfileError

unfoldable pub listed_names : String → Option AgentProfile → Result ProfileError (List String)
unfolding profile_tools
listed_names s none = err (unknown_profile s)
listed_names s (some profile) = ok (profile_tools profile)

unfoldable pub profile_tool_names : String → Result ProfileError (List String)
unfolding profile_of listed_names
profile_tool_names s = listed_names s (profile_of s)

unfoldable pub of_selection : Result RegistryError ToolRegistry → Result ProfileError ToolRegistry
of_selection (err e) = err (not_selected e)
of_selection (ok selected) = ok selected

unfoldable pub build_from :
    ToolRegistry → Result ProfileError (List String) → Result ProfileError ToolRegistry
unfolding of_selection select
build_from source (err e) = err e
build_from source (ok names) = of_selection (select source names true)

unfoldable pub build_profile_registry : String → ToolRegistry → Result ProfileError ToolRegistry
unfolding profile_tool_names build_from
build_profile_registry s source = build_from source (profile_tool_names s)
