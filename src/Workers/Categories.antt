-- ===== src/Workers/Categories.antt =====
-- src/workers/frontline-worker.ts: how a triage answer becomes a type and a severity of a case.
use nestfleet.Prelude.{
  ℕ, nat_beq, String, List, [], ◌∷◌, Bool, true, false, not, ◌&&◌, ◌||◌, any, str_eq, if◌then◌else◌,
}
use nestfleet.Prelude.Phrases.{lower, contains}
use nestfleet.Prelude.Text.{codes}
use nestfleet.Cases.Rows.{
  CaseType, CaseSeverity, user_request, bug_report, outage_report, user_feedback, sales_inquiry,
}

-- In the order in which the keys are written.
abbrev pub category_to_case_type : List (String × CaseType)
category_to_case_type =
    ("capability question", user_request)
    ∷ ("integration question", user_request)
    ∷ ("webhook question", user_request)
    ∷ ("bug", bug_report)
    ∷ ("error", bug_report)
    ∷ ("crash", bug_report)
    ∷ ("runtime error", bug_report)
    ∷ ("export", bug_report)
    ∷ ("authentication", bug_report)
    ∷ ("auth", bug_report)
    ∷ ("integration", bug_report)
    ∷ ("integrations", bug_report)
    ∷ ("performance", bug_report)
    ∷ ("data loss", bug_report)
    ∷ ("outage", outage_report)
    ∷ ("incident", outage_report)
    ∷ ("billing", user_request)
    ∷ ("configuration", user_request)
    ∷ ("how-to", user_request)
    ∷ ("question", user_request)
    ∷ ("feedback", user_feedback)
    ∷ ("feature", user_feedback)
    ∷ ("sales", sales_inquiry)
    ∷ ("sales_inquiry", sales_inquiry)
    ∷ ("sales inquiry", sales_inquiry)
    ∷ ("pre-sales", sales_inquiry)
    ∷ ("presales", sales_inquiry)
    ∷ []

-- `text.toLowerCase().includes(key)`
abbrev pub mentions : String → String → Bool
mentions text key = contains (lower text) (codes key)

abbrev type_in : String → List (String × CaseType) → CaseType
type_in category [] = user_request
type_in category ((key, type) ∷ rest) =
    if mentions category key then type else type_in category rest

unfoldable pub infer_case_type : String → CaseType
unfolding lower contains
infer_case_type category = type_in category category_to_case_type

abbrev config_category_keys : List String
config_category_keys =
    "configuration" ∷ "how-to" ∷ "setup" ∷ "question" ∷ "feature request" ∷ "feature-request" ∷ []

abbrev config_label_keys : List String
config_label_keys = "how-to" ∷ "configuration" ∷ "question" ∷ "feature-request" ∷ "setup" ∷ []

abbrev error_category_keys : List String
error_category_keys = "bug" ∷ "error" ∷ "crash" ∷ "runtime error" ∷ "exception" ∷ []

abbrev enterprise_category_keys : List String
enterprise_category_keys =
    "sales" ∷ "sales_inquiry" ∷ "sales inquiry" ∷ "pre-sales" ∷ "presales" ∷ []

abbrev enterprise_label_keys : List String
enterprise_label_keys =
    "enterprise" ∷ "soc2" ∷ "on-premise" ∷ "on-prem" ∷ "sso" ∷ "okta" ∷ "compliance" ∷ "hipaa"
    ∷ "gdpr" ∷ "sla" ∷ []

abbrev same_codes : List ℕ → List ℕ → Bool
same_codes [] [] = true
same_codes (x ∷ xs) (y ∷ ys) = nat_beq x y && same_codes xs ys
same_codes _ _ = false

-- `keys.includes(label.toLowerCase())`
abbrev pub is_label : List String → String → Bool
is_label keys label = any (λ k. same_codes (lower label) (codes k)) keys

unfoldable pub is_error_category : String → Bool
unfolding lower contains
is_error_category category = any (mentions category) error_category_keys

unfoldable pub is_config_question : String → List String → Bool
unfolding lower contains is_error_category
is_config_question category labels =
    not (is_error_category category)
    && (any (mentions category) config_category_keys || any (is_label config_label_keys) labels)

unfoldable pub is_enterprise_sale : String → List String → Bool
unfolding lower contains
is_enterprise_sale category labels =
    any (mentions category) enterprise_category_keys && any (is_label enterprise_label_keys) labels

-- The severity after the rules, and whether one of them applied.
unfoldable pub apply_triage_overrides : String → String → List String → String × Bool
unfolding is_config_question is_enterprise_sale
apply_triage_overrides severity category labels =
    if is_config_question category labels && (str_eq severity "high" || str_eq severity "critical")
    then ("normal", true)
    else if is_enterprise_sale category labels && str_eq severity "low"
    then ("normal", true)
    else (severity, false)

unfoldable pub map_severity : String → CaseSeverity
map_severity s =
    if str_eq s "critical"
    then CaseSeverity.critical
    else if str_eq s "high"
    then CaseSeverity.high
    else if str_eq s "medium"
    then CaseSeverity.normal
    else if str_eq s "normal"
    then CaseSeverity.normal
    else CaseSeverity.low
