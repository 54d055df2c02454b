-- ===== src/Duty/World.antt =====
-- The data of duty/mod.rs. What a run learns from git, GitHub, the symptom sources, the agent
-- actor and the clock is the record `World`; what it does outside its state is a list of effects.
use kitaebot.Common.{ℕ, Bool, List, Option, Text, list_key, nat_key}
use kitaebot.Duty.Schedule.{Schedule}
use kitaebot.Duty.State.{DutyState}

pub data Gate : Type 0 where
  new_commits : Text → Gate

pub data Action : Type 0 where
  dispatches : Text → Option Text → Action
  self_analysis : Text → ℕ → Action
  warm : Action

pub record Duty : Type 0 where
  pub name : Text
  pub action : Action
  pub schedule : Schedule
  pub gate : Option Gate

-- What the probe of the symptom sources decided; a cursor and a delta are their JSON and text.
pub data Probe : Type 0 where
  open_with : Text → Text → Probe
  closed : Probe
  prime : Text → Probe

pub data Effect : Type 0 where
  sent : Text → Text → Option Text → Effect
  journaled : Text → Text → Effect
  saved : DutyState → Effect

-- `GitCli`: `none` is an error. `prepare` gives the note that the checkout is ready.
pub record Git : Type 0 where
  pub remote_head : Text → Option Text
  pub checkout_exists : Text → Bool
  pub prepare : Text → Option Text
  pub prepare_and_warm : Text → Text
  pub warm_repos : List Text

-- `GithubClient` and the prompt that is made of its answer.
pub record Github : Type 0 where
  pub open_proposals : Text → Option (List Text)
  pub bot_proposal_count : Text → Option ℕ

pub record World : Type 0 where
  pub git : Option Git
  pub github : Option Github
  pub probe : Option Text → ℕ → Option Probe
  pub format_prompt : Text → Text → List Text → Text
  pub replies : Text → Text → Bool
  pub clock : ℕ
