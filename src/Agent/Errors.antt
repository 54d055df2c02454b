-- ===== src/Agent/Errors.antt =====
-- error.rs and agent/mod.rs: the errors of a turn and of a tool, as far as the agent loop reads
-- them, and the class by which identical failures are grouped.
use kitaebot.Common.{ℕ, ◌+◌, List, ◌∷◌, ◌++◌, Text, codes, decimal}

-- An `i32`.
pub data Signed : Type 0 where
  nonneg below : ℕ → Signed

-- `below n` is -(n + 1).
signed_text : Signed → Text
signed_text (nonneg n) = decimal n
signed_text (below n) = b'-' ∷ decimal (n + 1)

pub data GithubError : Type 0 where
  api : ℕ → Text → GithubError
  deserialize network rate_limited : Text → GithubError

pub data LinearError : Type 0 where
  api deserialize network : Text → LinearError

-- The last field of `timeout` is its evidence.
pub data ToolError : Type 0 where
  blocked : Text → Text → ToolError
  cancelled : ToolError
  command_failed : Text → Signed → Text → ToolError
  edit_loop : Text → ℕ → Text → ToolError
  fts_query : Text → Text → ToolError
  github : GithubError → ToolError
  linear : LinearError → ToolError
  http : Text → Text → ToolError
  http_status : Text → ℕ → ToolError
  invalid_arguments join : Text → ToolError
  io : Text → Text → Text → ToolError
  mcp : Text → Text → ToolError
  not_found precondition : Text → ToolError
  sqlite : Text → Text → ToolError
  spawn : Text → Text → Text → ToolError
  sub_agent telegram web_search : Text → ToolError
  timeout : Text → ℕ → Text → ToolError

github_class : GithubError → Text
github_class (GithubError.api status body) = codes "github:api:" ++ decimal status
github_class (GithubError.deserialize e) = codes "github:deserialize"
github_class (GithubError.network e) = codes "github:network"
github_class (rate_limited e) = codes "github:rate_limited"

linear_class : LinearError → Text
linear_class (LinearError.api e) = codes "linear:api"
linear_class (LinearError.deserialize e) = codes "linear:deserialize"
linear_class (LinearError.network e) = codes "linear:network"

unfoldable pub error_class : ToolError → Text
unfolding github_class linear_class signed_text
error_class (blocked operation guidance) = codes "blocked"
error_class ToolError.cancelled = codes "cancelled"
error_class (command_failed command exit_code output) =
    codes "command_failed:" ++ signed_text exit_code
error_class (edit_loop path attempts outcome) = codes "edit_loop"
error_class (fts_query pattern source) = codes "fts_query"
error_class (github e) = github_class e
error_class (linear e) = linear_class e
error_class (http url source) = codes "http"
error_class (http_status url status) = codes "http_status:" ++ decimal status
error_class (invalid_arguments e) = codes "invalid_arguments"
error_class (join e) = codes "join"
error_class (io operation path source) = codes "io"
error_class (mcp tool source) = codes "mcp"
error_class (not_found name) = codes "not_found"
error_class (precondition what) = codes "precondition"
error_class (sqlite context source) = codes "sqlite:" ++ context
error_class (spawn argv cwd source) = codes "spawn"
error_class (sub_agent source) = codes "sub_agent"
error_class (telegram e) = codes "telegram"
error_class (timeout command secs evidence) = codes "timeout"
error_class (web_search e) = codes "web_search"

-- `Error`, the outcomes of a turn that are no reply.
pub data TurnError : Type 0 where
  engine_failed provider_failed : Text → TurnError
  cancelled no_progress : TurnError
  max_iterations_reached : Text → TurnError

pub data TurnOutput : Type 0 where
  text : Text → TurnOutput
  policy_halt : List Text → TurnOutput
  tool_halt : Text → Text → Text → ℕ → TurnOutput
