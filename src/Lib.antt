-- ===== src/Lib.antt =====
-- Kitaebot: the turn loop of the agent, the engine of its context, the scheduler of its duties,
-- its polls of pull requests, and two of its tools.
--
-- A turn (src/agent/mod.rs) alternates requests to the provider with rounds of tool calls until a
-- text, a halt or the iteration cap ends it. The scheduler (src/duty/mod.rs) starts turns of its
-- own: it runs the duties that are due, behind gates on new commits or on recorded symptoms, and
-- persists when each ran and how far it has read. The context engine (src/context/lcm) stores what
-- a turn pushes, assembles it for each request, and replaces old messages by summaries of the model.
--
-- - Types: src/types.rs, and Agent.Errors: the errors of src/error.rs that a turn distinguishes. A
--   text is the list of its bytes.
-- - Agent.World: the state of a turn (`Turn`: the engine, the statistics and the counters that are
--   local variables of `turn_loop`) and the components that it calls (`Outside`), which are
--   parameters. The trace of a turn lists its messages, requests and activity in their order.
-- - Agent.Usage, Agent.Repeats and Agent.Strikes: `TurnUsage`, `RepeatDetector` and
--   `ToolStrikeTracker`. Costs are exact numbers of a unit: the rounding of f64 is not modelled.
-- - Agent.Results and Agent.Rounds: `record_tool_results` and one iteration of `turn_loop`, a
--   definition for each of its branches. Agent.Turn: the loop, by recursion on the iterations that
--   are left, `squeeze`, `state_report` and `final_answer`. What the provider and the tools answer
--   and when the token fires is an arbitrary `Course`. Parallel tool calls are joined before they
--   are looked at, so their results are a list.
-- - Agent.Hints: src/agent/hints.rs. Names: src/context/names.rs. Time: src/time.rs.
--   Trust: src/channel/github/trust.rs.
-- - Agent.Escalation: src/agent/escalation.rs, with the table as the list of its tasks.
-- - Ephemeral: src/context/ephemeral.rs, and the turn loop with that engine in the place of the
--   parameter. Agent.Turn.Kept: what every step of a turn keeps, a turn keeps.
-- - FileEdit: src/tools/file_edit.rs. FileEdit.Lines has the standard library's lines and white
--   space, Matching the ladder, History the futile attempts, Messages the texts; the path guard, the
--   disk and the hash are a record (`Outside`), and a panic of a splice is a fault. A write is
--   recorded where it is attempted. Texts.Utf8: what of UTF-8 the splices rest on.
-- - Exec: of src/tools/exec.rs, `blocked_reason` and what it calls. Exec.Quotes has the scans that
--   keep track of quotes, Exec.Rules the words of a segment. The shell's word splitting, the regular
--   expressions and fractional seconds are parameters (`Matchers`); a budget is whole seconds.
-- - Prs: src/channel/github/prs.rs, and the names and checks of review_checkout.rs beside it and of
--   src/tools/git. Prs.Wire has what is read of GitHub, Messages and Briefs the texts, Feedback and
--   Reviews the decisions, State the poll state, Poll and Passes the four passes and the loop. What
--   GitHub, the ledger and git answer is a record (`Outside`) of functions of what was saved and sent
--   before. A crash is an end of the list of events, and
--   every save is taken as stored, though state_db.rs only logs a write that fails. Logging and the reply of a turn are left out.
-- - Config: the `[context]` section of src/config.rs. Texts: src/text.rs and, of
--   src/context/mod.rs, `truncate_tool_output`. Types.Same: the derived equality of messages.
-- - Lcm.Store: the tables of src/context/lcm/migrations as lists of the rows of one conversation,
--   and of src/context/lcm/engine.rs `push_message_sync`, `reconstruct_message` and
--   `repair_dangling_tool_calls`. An insert fails where a primary key is taken; a transaction that
--   fails leaves the store. Lcm.Assemble: `assemble_sync`. Lcm.Transcript: the clamp of
--   `transcript_since_sync`. Lcm.Engine: the thresholds, the statistics and the compactions.
-- - Lcm.Summarize and Lcm.Prompts: src/context/lcm/summarize.rs. Lcm.Ride, Lcm.Leaf, Lcm.Condensed,
--   Lcm.Writes and Lcm.Compaction: src/context/lcm/compaction.rs, from the choice of the chunks to
--   `run_compaction`. The model is a function on a world that each request may change (`Model`);
--   SHA-256 and the matches of the file-id expression are functions (`Hashes`).
-- - Duty.Schedule and Duty.State: src/duty/schedule.rs and src/duty/state.rs, with the
--   wrap-around of unsigned arithmetic in a release build.
-- - Duty.Dispatch, Duty.Analysis, Duty.Warm and Duty.Scheduler: src/duty/mod.rs. Git, GitHub, the
--   answers of the actor and the clock are a `World`; what a run does outside its state is a list
--   of effects. `run_due` is a timed round of `run_loop` and `run_trigger` an operator's.
--
-- The loops recurse on lists or on the iterations that are left, but for the condensed pass of a
-- compaction, which runs on a fuel of one more than the number of context items: each of its passes
-- leaves fewer items, and the pass that finds nothing to do ends it.
--
-- Not modelled: files, SQL as such, the network and subprocesses; logging; sessions other than the
-- active one, payloads that are moved to disk and the retrieval tools of the context engine; the
-- other context engines, channels and tools. The token sums of the chunk loops are not cut to an i64.
pub mod Common
pub mod Agent
pub mod Config
pub mod Duty
pub mod Ephemeral
pub mod Exec
pub mod FileEdit
pub mod Lcm
pub mod Names
pub mod Prs
pub mod Texts
pub mod Time
pub mod Trust
pub mod Types
