-- ===== src/Engine/Examples.antt =====
-- src/engine.rs: command lines that are built.
use sandboard.Prelude.{◌≡◌, refl, none, some, [], ◌∷◌}
use sandboard.Prelude.Result.{ok, err}
use sandboard.Engine.{PromptEnv, requote, shell_single_quote, command_line}
use sandboard.Engine.{conversation_id_pointers_of_all, anthropic_inference_env}
use sandboard.Engine.Quoted.{Mode, word, word-shell_single_quote}

word-shell_single_quote_example :
    word Mode.plain ("'it'\"'\"'s $HOME; rm *' -p x") ≡ some ("it's $HOME; rm *", " -p x")
unfolding requote shell_single_quote
word-shell_single_quote_example = word-shell_single_quote "it's $HOME; rm *" "-p x"

fresh_agy :
    command_line " agy " PromptEnv.briefing none none
    ≡ ok
        "agy --dangerously-skip-permissions --model 'gemini-3.6-flash-high' --print-timeout 24h --output-format stream-json -p \"$SANDBOARD_BRIEFING\""
unfolding command_line
fresh_agy = refl

-- Claude resumes no conversation and takes no model.
claude_turn :
    command_line "claude" PromptEnv.prompt (some "c1") (some "opus")
    ≡ ok
        "claude --bare --strict-mcp-config --mcp-config /sandbox/.sandboard/mcp/claude_mcp.json -p \"$SANDBOARD_PROMPT\" --output-format stream-json --verbose --permission-mode bypassPermissions"
unfolding command_line
claude_turn = refl

resumed_hermes :
    command_line "hermes" PromptEnv.briefing (some "s1") (some " x/y ")
    ≡ ok
        "hermes --yolo --accept-hooks --provider openrouter --model 'x/y' chat --resume \"$SANDBOARD_CONVERSATION\" --query-file /tmp/sandboard-hermes-query"
unfolding command_line
resumed_hermes = refl

nobody_knows : command_line "gpt" PromptEnv.briefing none none ≡ err "gpt"
unfolding command_line
nobody_knows = refl

all_pointers :
    conversation_id_pointers_of_all
    ≡ "/session_id" ∷ "/result/session_id" ∷ "/conversation_id" ∷ "/step_update/conversation_id"
      ∷ "/result/conversation_id" ∷ "/message/conversation_id" ∷ "/sessionID" ∷ "/part/sessionID"
      ∷ []
unfolding conversation_id_pointers_of_all
all_pointers = refl

routed : anthropic_inference_env "hermes" ≡ []
unfolding anthropic_inference_env
routed = refl
