-- ===== src/Lcm/Prompts.antt =====
-- context/lcm/summarize.rs: the instructions of the two levels that ask the model.
use kitaebot.Common.{Text, codes, ◌++◌}

abbrev pub level_1_prompt : Text
level_1_prompt =
    codes "You are summarizing a SEGMENT of an agent conversation for future model turns. "
    ++ codes "Treat this as incremental memory compaction input, not a full-conversation "
    ++ codes "summary.\n"
    ++ codes "\n"
    ++ codes "Normal summary policy:\n"
    ++ codes "- Preserve key decisions, rationale, constraints, and active tasks.\n"
    ++ codes "- Keep essential technical details needed to continue work safely.\n"
    ++ codes "- Preserve specifics: file paths, commands, tool names and their outcomes, open "
    ++ codes "questions.\n"
    ++ codes "- Preserve any <file id=\"...\"> reference tags exactly as they appear.\n"
    ++ codes "- Include timestamps for key decisions if they appear in the input.\n"
    ++ codes "- Remove obvious repetition, conversational filler, and verbose tool output (the "
    ++ codes "originals remain on disk).\n"
    ++ codes "\n"
    ++ codes "Output requirements:\n"
    ++ codes "- Plain text only. No preamble, headings, or markdown formatting.\n"
    ++ codes "- Include a \"Files:\" line tracking file operations (created, modified, deleted, "
    ++ codes "renamed). Each entry: the path plus a short clause on why it matters, e.g. "
    ++ codes "\"src/exec.rs (modified: added retry wrapper)\".\n"
    ++ codes "- If no file operations appear, include exactly: \"Files: none\".\n"
    ++ codes "- End with exactly: \"Expand for details about: <comma-separated list of what was "
    ++ codes "dropped or compressed>\"."

abbrev pub level_2_prompt : Text
level_2_prompt =
    codes "You are aggressively summarizing a SEGMENT of an agent conversation for future "
    ++ codes "model turns. The level-1 summary was rejected for being too long; produce something "
    ++ codes "tighter.\n"
    ++ codes "\n"
    ++ codes "Aggressive summary policy:\n"
    ++ codes "- Keep only durable facts and current task state.\n"
    ++ codes "- One bullet per key decision or outcome where useful.\n"
    ++ codes "- Drop everything that is not load-bearing.\n"
    ++ codes "- Preserve explicit TODOs, blockers, decisions, and constraints.\n"
    ++ codes "- Preserve any <file id=\"...\"> reference tags exactly as they appear.\n"
    ++ codes "- Aim for the smallest summary that still lets a future reader reconstruct what "
    ++ codes "happened. Originals remain available via lcm_grep and lcm_expand if details are "
    ++ codes "needed.\n"
    ++ codes "\n"
    ++ codes "Output requirements:\n"
    ++ codes "- Plain text only. No preamble, headings, or markdown formatting.\n"
    ++ codes "- Include a \"Files:\" line tracking file operations (created, modified, deleted, "
    ++ codes "renamed). Each entry: the path plus a short clause on why it matters, e.g. "
    ++ codes "\"src/exec.rs (modified: added retry wrapper)\".\n"
    ++ codes "- If no file operations appear, include exactly: \"Files: none\".\n"
    ++ codes "- End with exactly: \"Expand for details about: <comma-separated list of what was "
    ++ codes "dropped or compressed>\"."
