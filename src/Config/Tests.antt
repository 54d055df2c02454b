-- ===== src/Config/Tests.antt =====
-- The validation of the `[context]` section at work on the defaults.
use kitaebot.Common.{◌≡◌, ◌↔◌, ok, err, refl, codes}
use kitaebot.Config.{default_context, ContextConfig, validate}
use kitaebot.Config.Valid.{ValidContext, validate_iff}

validate_iff_example : (validate default_context ≡ ok tt) ↔ ValidContext default_context
validate_iff_example = validate_iff default_context

-- The first check that fails gives the message.
abbrev no_window : ContextConfig
unfolding default_context
no_window = record default_context { max_tokens = 0; budget_percent = 0 }

first_failure : validate no_window ≡ err (codes "context max_tokens must be > 0")
unfolding validate default_context kitaebot.Config.refuse_first kitaebot.Config.context_checks
first_failure = refl
