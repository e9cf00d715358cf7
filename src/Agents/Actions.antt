-- ===== src/Agents/Actions.antt =====
-- src/agents/types.ts: the action types, and the queue settings of src/agents/dispatcher.ts and
-- src/domain/transactional-dispatch.ts.
use nestfleet.Prelude.{ℕ, String, List, [], ◌∷◌, Option, some, find, str_eq, ◌≡◌, refl}

pub data ActionType : Type 0 where
  auto_reply triage known_issue_match change_prep pr_draft_prep : ActionType
  outage_routing knowledge_capture : ActionType

unfoldable pub action_name : ActionType → String
action_name auto_reply = "auto_reply"
action_name triage = "triage"
action_name known_issue_match = "known_issue_match"
action_name change_prep = "change_prep"
action_name pr_draft_prep = "pr_draft_prep"
action_name outage_routing = "outage_routing"
action_name knowledge_capture = "knowledge_capture"

abbrev pub valid_actions : List ActionType
valid_actions =
    auto_reply ∷ triage ∷ known_issue_match ∷ change_prep ∷ pr_draft_prep ∷ outage_routing
    ∷ knowledge_capture ∷ []

-- The type guard `isValidActionType`: the action type that the string is narrowed to.
unfoldable pub action_of : String → Option ActionType
unfolding action_name
action_of s = find (λ a. str_eq (action_name a) s) valid_actions

pub record QueueConfig : Type 0 where
  pub retry_limit : ℕ
  pub retry_delay_seconds : ℕ

-- `QUEUE_CONFIG` of dispatcher.ts (the concurrency is read by the workers alone).
unfoldable pub queue_config : ActionType → QueueConfig
queue_config auto_reply = record { retry_limit = 2; retry_delay_seconds = 5 }
queue_config triage = record { retry_limit = 2; retry_delay_seconds = 5 }
queue_config known_issue_match = record { retry_limit = 2; retry_delay_seconds = 5 }
queue_config change_prep = record { retry_limit = 2; retry_delay_seconds = 10 }
queue_config pr_draft_prep = record { retry_limit = 2; retry_delay_seconds = 10 }
queue_config outage_routing = record { retry_limit = 2; retry_delay_seconds = 3 }
queue_config knowledge_capture = record { retry_limit = 2; retry_delay_seconds = 5 }

-- `QUEUE_CONFIG` of transactional-dispatch.ts.
unfoldable pub transactional_queue_config : ActionType → QueueConfig
transactional_queue_config auto_reply = record { retry_limit = 2; retry_delay_seconds = 5 }
transactional_queue_config triage = record { retry_limit = 2; retry_delay_seconds = 5 }
transactional_queue_config known_issue_match = record { retry_limit = 2; retry_delay_seconds = 5 }
transactional_queue_config change_prep = record { retry_limit = 2; retry_delay_seconds = 10 }
transactional_queue_config pr_draft_prep = record { retry_limit = 2; retry_delay_seconds = 10 }
transactional_queue_config outage_routing = record { retry_limit = 2; retry_delay_seconds = 3 }
transactional_queue_config knowledge_capture = record { retry_limit = 2; retry_delay_seconds = 5 }

-- A name is narrowed to the action that it names.
pub action_of-action_name : (a : ActionType) → action_of (action_name a) ≡ some a
unfolding action_of
action_of-action_name auto_reply = refl
action_of-action_name _ = refl
