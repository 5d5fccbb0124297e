-- ===== src/Engine.antt =====
-- src/engine.rs: the registry of agent engines and the command line that starts one.
pub mod Quoted
mod Examples
use Prim.Native.Char.{Char}
use Prim.Native.String.{String, ◌++◌}
use sandboard.Prelude.{
  Option, none, some, find_first, any, List, [], ◌∷◌, Bool, true, false, ◌||◌, not, is_some,
  if◌then◌else◌,
}
use sandboard.Prelude.Result.{Result, ok, err}
use mathlib.Core.List.{◌++◌ as ◌++ˡ◌}
use sandboard.Prelude.Text.{char_eq, trim, is_empty, str_eq, join}

-- Each single quote is closed, put between double quotes and opened again; `tail` follows.
unfoldable pub requote : String → String → String
requote String.[] tail = tail
requote (String.◌∷◌ c s) tail =
    let rest = requote s tail in
    if char_eq c "'"
    then String.◌∷◌ "'" (String.◌∷◌ "\"" (String.◌∷◌ "'" (String.◌∷◌ "\"" (String.◌∷◌ "'" rest))))
    else String.◌∷◌ c rest

unfoldable pub shell_single_quote : String → String
unfolding requote
shell_single_quote s = String.◌∷◌ "'" (requote s "'")

pub data ResumeFlag : Type 0 where
  conversation resume session : ResumeFlag

pub data PreStartAuth : Type 0 where
  no_auth agy : PreStartAuth

pub data PromptStyle : Type 0 where
  flag_p positional query_file : PromptStyle

pub data PromptEnv : Type 0 where
  briefing prompt : PromptEnv

pub record Engine : Type 0 where
  pub id : String
  pub prefix : String
  pub post_model : String
  pub trailing : String
  pub prompt_style : PromptStyle
  pub resume_flag : Option ResumeFlag
  pub conversation_id_pointers : List String
  pub pre_start_auth : PreStartAuth

unfoldable pub argv : ResumeFlag → String
argv ResumeFlag.conversation = "--conversation \"$SANDBOARD_CONVERSATION\""
argv ResumeFlag.resume = "--resume \"$SANDBOARD_CONVERSATION\""
argv ResumeFlag.session = "--session \"$SANDBOARD_CONVERSATION\""

unfoldable pub shell_ref : PromptEnv → String
shell_ref PromptEnv.briefing = "\"$SANDBOARD_BRIEFING\""
shell_ref PromptEnv.prompt = "\"$SANDBOARD_PROMPT\""

abbrev pub cursor : Engine
cursor = record {
  id = "cursor";
  prefix = "agent -p --force --trust --approve-mcps --sandbox disabled --output-format stream-json";
  post_model = "";
  trailing = "";
  prompt_style = PromptStyle.positional;
  resume_flag = some ResumeFlag.resume;
  conversation_id_pointers = "/session_id" ∷ "/result/session_id" ∷ [];
  pre_start_auth = PreStartAuth.no_auth;
}

abbrev pub agy_engine : Engine
agy_engine = record {
  id = "agy";
  prefix = "agy --dangerously-skip-permissions";
  post_model = "--print-timeout 24h --output-format stream-json";
  trailing = "";
  prompt_style = PromptStyle.flag_p;
  resume_flag = some ResumeFlag.conversation;
  conversation_id_pointers =
      "/conversation_id" ∷ "/step_update/conversation_id" ∷ "/result/conversation_id"
      ∷ "/message/conversation_id" ∷ [];
  pre_start_auth = PreStartAuth.agy;
}

abbrev pub claude : Engine
claude = record {
  id = "claude";
  prefix = "claude --bare --strict-mcp-config --mcp-config /sandbox/.sandboard/mcp/claude_mcp.json";
  post_model = "";
  trailing = "--output-format stream-json --verbose --permission-mode bypassPermissions";
  prompt_style = PromptStyle.flag_p;
  resume_flag = none;
  conversation_id_pointers = [];
  pre_start_auth = PreStartAuth.no_auth;
}

abbrev pub opencode : Engine
opencode = record {
  id = "opencode";
  prefix = "opencode run --format json --auto";
  post_model = "";
  trailing = "";
  prompt_style = PromptStyle.positional;
  resume_flag = some ResumeFlag.session;
  conversation_id_pointers = "/sessionID" ∷ "/part/sessionID" ∷ [];
  pre_start_auth = PreStartAuth.no_auth;
}

abbrev pub hermes : Engine
hermes = record {
  id = "hermes";
  prefix = "hermes --yolo --accept-hooks --provider openrouter";
  post_model = "chat";
  trailing = "";
  prompt_style = PromptStyle.query_file;
  resume_flag = some ResumeFlag.resume;
  conversation_id_pointers = [];
  pre_start_auth = PreStartAuth.no_auth;
}

abbrev pub pi : Engine
pi = record {
  id = "pi";
  prefix = "pi --mode json";
  post_model = "";
  trailing = "";
  prompt_style = PromptStyle.positional;
  resume_flag = none;
  conversation_id_pointers = [];
  pre_start_auth = PreStartAuth.no_auth;
}

abbrev pub engines : List Engine
engines = cursor ∷ agy_engine ∷ claude ∷ opencode ∷ hermes ∷ pi ∷ []

-- The error is the trimmed id.
unfoldable pub lookup : String → Result String Engine
unfolding trim
lookup id =
    let id = trim id in
    elim (find_first (λ e. str_eq e.id id) engines) [ none ↦ err id | some e ↦ ok e ]

unfoldable pub supports_resume : String → Bool
unfolding lookup
supports_resume id = elim (lookup id) [ err _ ↦ false | ok e ↦ is_some e.resume_flag ]

unfoldable pub default_model_for_engine : String → Option String
unfolding trim
default_model_for_engine id = if str_eq (trim id) "agy" then some "gemini-3.6-flash-high" else none

unfoldable pub engine_accepts_cli_model : String → Bool
unfolding trim
engine_accepts_cli_model id =
    let id = trim id in
    str_eq id "agy" || str_eq id "cursor" || str_eq id "opencode" || str_eq id "hermes"

-- A model that is given, is not blank, and is without blanks around it.
given_model : Option String → Option String
unfolding trim
given_model none = none
given_model (some model) = let model = trim model in if is_empty model then none else some model

or_default : Option String → Option String → Option String
or_default (some model) other = some model
or_default none other = other

model_flag : Option String → Option String
unfolding shell_single_quote
model_flag none = none
model_flag (some model) = some ("--model " ++ shell_single_quote model)

unfoldable pub cli_model_argv : String → Option String → Option String
unfolding engine_accepts_cli_model given_model or_default default_model_for_engine model_flag
cli_model_argv id model =
    if not (engine_accepts_cli_model id)
    then none
    else model_flag (or_default (given_model model) (default_model_for_engine id))

one_or_none : Option String → List String
one_or_none none = []
one_or_none (some part) = part ∷ []

unless_empty : String → List String
unless_empty part = if is_empty part then [] else part ∷ []

resume_part : Bool → Option ResumeFlag → List String
unfolding argv
resume_part true (some flag) = argv flag ∷ []
resume_part _ _ = []

prompt_part : PromptStyle → PromptEnv → List String
unfolding shell_ref
prompt_part PromptStyle.flag_p env = "-p" ∷ shell_ref env ∷ []
prompt_part PromptStyle.positional env = shell_ref env ∷ []
prompt_part PromptStyle.query_file env = "--query-file" ∷ "/tmp/sandboard-hermes-query" ∷ []

parts : Engine → PromptEnv → Option String → Option String → List String
unfolding cli_model_argv one_or_none unless_empty resume_part prompt_part
parts engine env conversation_id model =
    (engine.prefix ∷ one_or_none (cli_model_argv engine.id model))
    ++ˡ (unless_empty engine.post_model
        ++ˡ (resume_part (is_some conversation_id) engine.resume_flag
            ++ˡ (prompt_part engine.prompt_style env ++ˡ unless_empty engine.trailing)))

unfoldable pub command_line :
    String → PromptEnv → Option String → Option String → Result String String
unfolding lookup parts join
command_line id env conversation_id model = elim (lookup id) [
  | err e ↦ err e
  | ok engine ↦ ok (join " " (parts engine env conversation_id model))
]

-- Sandbox variables for the engines that speak to `inference.local`.
unfoldable pub anthropic_inference_env : String → List (String × String)
unfolding trim
anthropic_inference_env id =
    let id = trim id in
    if str_eq id "opencode"
    then ("ANTHROPIC_BASE_URL", "https://inference.local/v1") ∷ ("ANTHROPIC_API_KEY", "unused") ∷ []
    else if str_eq id "claude"
    then ("ANTHROPIC_BASE_URL", "https://inference.local") ∷ ("ANTHROPIC_API_KEY", "unused") ∷ []
    else []

unfoldable pub anthropic_inference_exports : String → String
unfolding trim
anthropic_inference_exports id =
    let id = trim id in
    if str_eq id "opencode"
    then "export ANTHROPIC_BASE_URL=https://inference.local/v1\nexport ANTHROPIC_API_KEY=unused\nunset CLAUDE_CODE_USE_VERTEX\n"
    else if str_eq id "claude"
    then "export ANTHROPIC_BASE_URL=https://inference.local\nexport ANTHROPIC_API_KEY=unused\nunset CLAUDE_CODE_USE_VERTEX\n"
    else ""

unfoldable pub hermes_inference_env : String → List (String × String)
unfolding trim
hermes_inference_env id =
    if str_eq (trim id) "hermes"
    then (("HERMES_HOME", "/sandbox/.hermes")
        ∷ ("PYTHONUNBUFFERED", "1")
        ∷ ("PYTHONDONTWRITEBYTECODE", "1")
        ∷ [])
    else []

unfoldable pub pre_start_auth : String → Result String PreStartAuth
unfolding lookup
pre_start_auth id = elim (lookup id) [ err e ↦ err e | ok engine ↦ ok engine.pre_start_auth ]

-- The keys that are not there yet are added behind, in their order.
add_new : List String → List String → List String
add_new out [] = out
add_new out (key ∷ keys) =
    let known = add_new out keys in
    let longer = add_new (out ++ˡ (key ∷ [])) keys in if any (str_eq key) out then known else longer

add_pointers : List String → List Engine → List String
unfolding add_new
add_pointers out [] = out
add_pointers out (engine ∷ rest) = add_pointers (add_new out engine.conversation_id_pointers) rest

unfoldable pub conversation_id_pointers_of_all : List String
unfolding add_pointers
conversation_id_pointers_of_all = add_pointers [] engines
