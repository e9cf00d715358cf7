-- ===== src/Agents/Budget.antt =====
-- src/agents/budget.ts: the monthly token budget of a product and an action.
use nestfleet.Prelude.{
  ℕ, ◌+◌, ◌≤◌, ◌≡◌, String, List, [], ◌∷◌, Bool, true, ◌&&◌, leb, arith, str_eq, if◌then◌else◌,
}
use nestfleet.Agents.Actions.{
  ActionType, auto_reply, triage, known_issue_match, change_prep, pr_draft_prep, outage_routing,
  knowledge_capture, action_name,
}

unfoldable pub default_soft_limit_tokens : ActionType → ℕ
default_soft_limit_tokens auto_reply = 500_000
default_soft_limit_tokens triage = 300_000
default_soft_limit_tokens known_issue_match = 200_000
default_soft_limit_tokens change_prep = 150_000
default_soft_limit_tokens pr_draft_prep = 100_000
default_soft_limit_tokens outage_routing = 200_000
default_soft_limit_tokens knowledge_capture = 400_000

unfoldable pub default_hard_limit_tokens : ActionType → ℕ
default_hard_limit_tokens auto_reply = 2_000_000
default_hard_limit_tokens triage = 1_000_000
default_hard_limit_tokens known_issue_match = 800_000
default_hard_limit_tokens change_prep = 600_000
default_hard_limit_tokens pr_draft_prep = 400_000
default_hard_limit_tokens outage_routing = 800_000
default_hard_limit_tokens knowledge_capture = 1_500_000

-- A row of `product_llm_usage`.
pub record UsageRow : Type 0 where
  pub product_id : String
  pub action_type : String
  pub month_year : String
  pub model_id : String
  pub input_tokens : ℕ
  pub output_tokens : ℕ

pub record BudgetStatus : Type 0 where
  pub hard_limit_exceeded : Bool
  pub soft_limit_exceeded : Bool
  pub current_tokens : ℕ
  pub soft_limit : ℕ
  pub hard_limit : ℕ
  pub month_year : String

-- `SELECT COALESCE(SUM(input_tokens + output_tokens), 0) … WHERE …`
unfoldable pub used_tokens : String → String → String → List UsageRow → ℕ
used_tokens product action month [] = 0
used_tokens product action month (r ∷ rows) =
    (if str_eq r.product_id product && str_eq r.action_type action && str_eq r.month_year month
      then r.input_tokens + r.output_tokens
      else 0)
    + used_tokens product action month rows

unfoldable pub check_budget : String → ActionType → String → List UsageRow → BudgetStatus
check_budget product_id action_type month usage =
    let current = used_tokens product_id (action_name action_type) month usage in
    let soft = default_soft_limit_tokens action_type in
    let hard = default_hard_limit_tokens action_type in
    record {
      hard_limit_exceeded = leb hard current;
      soft_limit_exceeded = leb soft current;
      current_tokens = current;
      soft_limit = soft;
      hard_limit = hard;
      month_year = month;
    }

soft-le-hard : (a : ActionType) → default_soft_limit_tokens a ≤ default_hard_limit_tokens a
unfolding default_soft_limit_tokens default_hard_limit_tokens
soft-le-hard auto_reply = omega arith
soft-le-hard _ = omega arith

-- Whatever was used, a product over its hard limit is over its soft limit too.
pub hard_implies_soft :
    (product month : String) (a : ActionType) (usage : List UsageRow)
    → (check_budget product a month usage).hard_limit_exceeded ≡ true
    → (check_budget product a month usage).soft_limit_exceeded ≡ true
unfolding check_budget
hard_implies_soft product month a usage h = ground (arith, soft-le-hard a)
