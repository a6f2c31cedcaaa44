-- ===== src/NightShifts/Inference.antt =====
-- Model inference for workers: the values that the executor and the gateway exchange, of
-- night_shifts/contracts, and the tools of a profile, of night_shifts/worker_capabilities.py.
pub mod Checks
pub mod Transcript
pub mod Gateway
use Prim.Native.Char.{Char, code}
use Prim.Native.String.{count}
use simple_ai_agent.Common.{
  ℕ, String, Bool, true, false, ◌&&◌, ◌||◌, Option, none, some, List, [], ◌∷◌, ◌==◌, leb, eqb,
  if◌then◌else◌,
}

-- The arguments of a call, by what the code asks of them: whether they are a mapping with text
-- keys, and the number of bytes that `json.dumps` writes of them, with sorted keys and with
-- `allow_nan=False`; `none` stands for its exception.
pub record Arguments : Type 0 where
  pub is_object : Bool
  pub sorted_bytes : Option ℕ
  pub strict_bytes : Option ℕ

pub record InferenceToolCall : Type 0 where
  pub call_id : String
  pub name : String
  pub arguments : Arguments

pub data InferenceRole : Type 0 where
  system user assistant tool : InferenceRole

pub record InferenceMessage : Type 0 where
  pub role : InferenceRole
  pub content : String
  pub tool_calls : List InferenceToolCall
  pub tool_call_id : Option String

-- `input_schema` is a mapping that the code only passes on and dumps.
pub record WorkerToolSpec : Type 0 where
  pub name : String
  pub description : String
  pub input_schema : String

pub record InferenceRequest : Type 0 where
  pub job_id : String
  pub worker_profile : String
  pub messages : List InferenceMessage
  pub tools : List WorkerToolSpec

pub record InferenceUsage : Type 0 where
  pub input_tokens : Option ℕ
  pub output_tokens : Option ℕ
  pub cached_input_tokens : Option ℕ
  pub reasoning_output_tokens : Option ℕ

pub record InferenceResponse : Type 0 where
  pub content : String
  pub tool_calls : List InferenceToolCall
  pub usage : Option InferenceUsage

pub record WorkerToolResult : Type 0 where
  pub tool_name : String
  pub output : String
  pub is_error : Bool

-- `worker_tool_names`
unfoldable pub worker_tool_names : String → Option (List String)
worker_tool_names profile =
    if profile == "coding-worker"
    then some (
        "list_files" ∷ "read_file" ∷ "search_text" ∷ "apply_patch" ∷ "run_command"
        ∷ "write_artifact" ∷ [])
    else if profile == "read-only-worker"
    then some ("list_files" ∷ "read_file" ∷ "search_text" ∷ "write_artifact" ∷ [])
    else if profile == "review-worker"
    then some ("list_files" ∷ "read_file" ∷ "search_text" ∷ "run_command" ∷ "write_artifact" ∷ [])
    else none

-- The tools of a session: its profile was looked up when it was created.
unfoldable pub tools_of : String → List String
unfolding worker_tool_names
tools_of profile = elim (worker_tool_names profile) [ none ↦ [] | some tools ↦ tools ]

-- `[A-Za-z0-9]`, and the characters that may follow one in an identifier.
is_alphanumeric : ℕ → Bool
is_alphanumeric c = leb 65 c && leb c 90 || leb 97 c && leb c 122 || leb 48 c && leb c 57

is_name_character : ℕ → Bool
unfolding is_alphanumeric
is_name_character c = is_alphanumeric c || eqb c 46 || eqb c 95 || eqb c 58 || eqb c 45

all_name_characters : String → Bool
unfolding is_name_character
all_name_characters String.[] = true
all_name_characters (String.◌∷◌ c s) = is_name_character (code c) && all_name_characters s

-- `_CALL_ID.fullmatch`
unfoldable pub is_call_id : String → Bool
unfolding is_alphanumeric all_name_characters
is_call_id String.[] = false
is_call_id (String.◌∷◌ c s) = is_alphanumeric (code c) && all_name_characters s && leb (count s) 127

abbrev pub max_argument_bytes : ℕ
max_argument_bytes = 262_144
