-- ===== src/Agent/Directives.antt =====
-- agent/mod.rs: the texts that the loop writes into the conversation, word for word. A dash or
-- other character beyond ASCII is one number here, its code point.
use kitaebot.Common.{Text, codes}

unfoldable pub repeat_error : Text
repeat_error =
    codes
      "ERROR: You have called this tool with identical arguments multiple times and received the same result. Do NOT retry the same call. Either use a different tool or action, or respond to the user explaining what you tried and why it did not work."

unfoldable pub policy_stop_directive : Text
policy_stop_directive =
    codes
      "POLICY VIOLATION: A tool call was blocked. Do NOT work around this. Report the situation to the user and await direction."

unfoldable pub confirm_reply_directive : Text
confirm_reply_directive =
    codes
      "Your previous message was not published. You are working unattended; your next text reply will be posted verbatim as a public comment. If the work is unfinished, continue with tool calls. Otherwise reply with exactly the comment to publish: what was done, what remains, and any branch or PR created."

unfoldable pub midpoint_checkpoint_directive : Text
midpoint_checkpoint_directive =
    codes
      "Half the iteration budget for this task is spent. In your next reasoning, restate the objective, list what is verified done, and name the current obstacle. If you are debugging a failing check, derive the expected value from first principles before suspecting the code: your own expectation may be the bug. If an approach has failed twice, drop it and take a different one. Then continue with tool calls; do not end the turn with a status summary."

unfoldable pub final_answer_directive : Text
final_answer_directive =
    codes
      "Your tool-call budget for this task is exhausted; no further tool calls will be executed. Reply now with your final answer from the evidence gathered so far, and state what remains unverified."

unfoldable pub state_report_directive : Text
state_report_directive =
    codes
      "Your iteration budget is exhausted and this turn is about to be reported as failed. No further tool calls will be executed. Reply now with a state report for a successor: what you were doing, what is complete (branch names and commits pushed or left in the working tree), what remains, and the specific obstacle if you were stuck. Concrete paths and refs over prose."
