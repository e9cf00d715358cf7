-- ===== src/Access/Permissions.antt =====
-- src/infra/db/repositories/permissions.ts: the registry of permissions and the default roles.
use nestfleet.Prelude.{
  String, Bool, true, false, List, [], ◌∷◌, ◌++◌, map, Option, none, some, str_eq, includes,
  by_text, if◌then◌else◌,
}

pub record PermissionDefinition : Type 0 where
  pub id : String
  pub domain : String
  pub action : String
  pub label : String
  pub description : String
  pub destructive : Bool
  pub sensitive : Bool

-- Cases, signals, change requests, drafts, approvals and analytics.
abbrev pub work_permissions : List PermissionDefinition
work_permissions =
    record {
      id = "cases:read";
      domain = "cases";
      action = "read";
      label = "View cases";
      description = "Read support cases and their full conversation history.";
      destructive = false;
      sensitive = false;
    }
    ∷ record {
      id = "cases:create";
      domain = "cases";
      action = "create";
      label = "Create cases";
      description = "Open new support cases on behalf of users.";
      destructive = false;
      sensitive = false;
    }
    ∷ record {
      id = "cases:transition";
      domain = "cases";
      action = "transition";
      label = "Transition case status";
      description = "Move cases between workflow states (triage, resolve, close).";
      destructive = false;
      sensitive = false;
    }
    ∷ record {
      id = "cases:delete";
      domain = "cases";
      action = "delete";
      label = "Delete cases";
      description = "Permanently remove a case and its history. Irreversible.";
      destructive = true;
      sensitive = false;
    }
    ∷ record {
      id = "cases:export";
      domain = "cases";
      action = "export";
      label = "Export cases";
      description = "Download cases in bulk (CSV / JSON). May contain PII.";
      destructive = false;
      sensitive = true;
    }
    ∷ record {
      id = "signals:read";
      domain = "signals";
      action = "read";
      label = "View signals";
      description = "Read incoming signals and alerts surfaced by the agent.";
      destructive = false;
      sensitive = false;
    }
    ∷ record {
      id = "signals:dismiss";
      domain = "signals";
      action = "dismiss";
      label = "Dismiss signals";
      description = "Mark signals as reviewed and remove them from the active queue.";
      destructive = false;
      sensitive = false;
    }
    ∷ record {
      id = "change_requests:read";
      domain = "change_requests";
      action = "read";
      label = "View change requests";
      description = "Read change requests and their review history.";
      destructive = false;
      sensitive = false;
    }
    ∷ record {
      id = "change_requests:create";
      domain = "change_requests";
      action = "create";
      label = "Create change requests";
      description = "Draft and submit new change requests for review.";
      destructive = false;
      sensitive = false;
    }
    ∷ record {
      id = "change_requests:approve";
      domain = "change_requests";
      action = "approve";
      label = "Approve change requests";
      description = "Grant approval on a pending change request.";
      destructive = false;
      sensitive = false;
    }
    ∷ record {
      id = "change_requests:reject";
      domain = "change_requests";
      action = "reject";
      label = "Reject change requests";
      description = "Decline and close a pending change request.";
      destructive = false;
      sensitive = false;
    }
    ∷ record {
      id = "change_requests:complete";
      domain = "change_requests";
      action = "complete";
      label = "Complete change requests";
      description = "Mark an approved change request as deployed and done.";
      destructive = false;
      sensitive = false;
    }
    ∷ record {
      id = "pr_drafts:read";
      domain = "pr_drafts";
      action = "read";
      label = "View PR drafts";
      description = "Read agent-generated pull request drafts and diffs.";
      destructive = false;
      sensitive = false;
    }
    ∷ record {
      id = "pr_drafts:push";
      domain = "pr_drafts";
      action = "push";
      label = "Push PR drafts";
      description = "Submit PR drafts to the configured version-control repository.";
      destructive = false;
      sensitive = false;
    }
    ∷ record {
      id = "approvals:read";
      domain = "approvals";
      action = "read";
      label = "View approvals";
      description = "Read the approval queue and individual approval decisions.";
      destructive = false;
      sensitive = false;
    }
    ∷ record {
      id = "approvals:act";
      domain = "approvals";
      action = "act";
      label = "Act on approvals";
      description = "Approve or reject items in the human-in-the-loop approval queue.";
      destructive = false;
      sensitive = false;
    }
    ∷ []

-- Settings, compliance, memory, audit and products.
abbrev pub admin_permissions : List PermissionDefinition
admin_permissions =
    record {
      id = "analytics:read";
      domain = "analytics";
      action = "read";
      label = "View analytics";
      description = "Access the analytics dashboard — case volumes, resolution rates, CSAT.";
      destructive = false;
      sensitive = false;
    }
    ∷ record {
      id = "settings:read";
      domain = "settings";
      action = "read";
      label = "View settings";
      description = "Read product configuration — LLM provider, agent behavior, channels.";
      destructive = false;
      sensitive = false;
    }
    ∷ record {
      id = "settings:write";
      domain = "settings";
      action = "write";
      label = "Manage settings";
      description = "Update product configuration. Includes LLM API key rotation.";
      destructive = false;
      sensitive = true;
    }
    ∷ record {
      id = "compliance:read";
      domain = "compliance";
      action = "read";
      label = "View compliance";
      description = "Read compliance reports, DSAR status summaries, and retention stats.";
      destructive = false;
      sensitive = false;
    }
    ∷ record {
      id = "compliance:dsar_search";
      domain = "compliance";
      action = "dsar_search";
      label = "Search DSARs";
      description = "Search for a user's personal data across all NestFleet stores (GDPR Art. 15).";
      destructive = false;
      sensitive = true;
    }
    ∷ record {
      id = "compliance:dsar_export";
      domain = "compliance";
      action = "dsar_export";
      label = "Export DSAR data";
      description = "Export a full data subject access report. Contains raw PII.";
      destructive = false;
      sensitive = true;
    }
    ∷ record {
      id = "compliance:retention_run";
      domain = "compliance";
      action = "retention_run";
      label = "Run retention sweep";
      description =
          "Trigger a retention purge that permanently deletes records past their retention window.";
      destructive = true;
      sensitive = false;
    }
    ∷ record {
      id = "memory:read";
      domain = "memory";
      action = "read";
      label = "View memory";
      description = "Read product knowledge base entries used by the agent.";
      destructive = false;
      sensitive = false;
    }
    ∷ record {
      id = "memory:write";
      domain = "memory";
      action = "write";
      label = "Edit memory";
      description = "Create and update knowledge base entries.";
      destructive = false;
      sensitive = false;
    }
    ∷ record {
      id = "memory:delete";
      domain = "memory";
      action = "delete";
      label = "Delete memory";
      description = "Permanently remove knowledge base entries. Irreversible.";
      destructive = true;
      sensitive = false;
    }
    ∷ record {
      id = "audit:read";
      domain = "audit";
      action = "read";
      label = "View audit log";
      description = "Read the immutable audit trail of all operator actions.";
      destructive = false;
      sensitive = false;
    }
    ∷ record {
      id = "products:read";
      domain = "products";
      action = "read";
      label = "View products";
      description = "List and read products in the portfolio.";
      destructive = false;
      sensitive = false;
    }
    ∷ record {
      id = "products:create";
      domain = "products";
      action = "create";
      label = "Create products";
      description = "Provision new products in the portfolio.";
      destructive = false;
      sensitive = false;
    }
    ∷ record {
      id = "products:update";
      domain = "products";
      action = "update";
      label = "Update products";
      description = "Modify product metadata (name, stage, channels).";
      destructive = false;
      sensitive = false;
    }
    ∷ []

abbrev pub permission_registry : List PermissionDefinition
permission_registry = work_permissions ++ admin_permissions

abbrev pub all_permission_ids : List String
all_permission_ids = map (λ p. p.id) permission_registry

abbrev pub operator_permissions : List String
operator_permissions =
    "cases:read" ∷ "cases:create" ∷ "cases:transition" ∷ "cases:export" ∷ "signals:read"
    ∷ "signals:dismiss" ∷ "change_requests:read" ∷ "change_requests:create" ∷ "pr_drafts:read"
    ∷ "pr_drafts:push" ∷ "approvals:read" ∷ "approvals:act" ∷ "analytics:read" ∷ "settings:read"
    ∷ "compliance:read" ∷ "memory:read" ∷ "audit:read" ∷ "products:read" ∷ []

abbrev pub support_lead_permissions : List String
support_lead_permissions =
    "cases:read" ∷ "cases:transition" ∷ "signals:read" ∷ "change_requests:read" ∷ "approvals:read"
    ∷ "approvals:act" ∷ "analytics:read" ∷ "settings:read" ∷ "compliance:read" ∷ "memory:read"
    ∷ "audit:read" ∷ "products:read" ∷ []

abbrev pub knowledge_lead_permissions : List String
knowledge_lead_permissions =
    "cases:read" ∷ "signals:read" ∷ "change_requests:read" ∷ "change_requests:create"
    ∷ "change_requests:approve" ∷ "change_requests:reject" ∷ "change_requests:complete"
    ∷ "pr_drafts:read" ∷ "pr_drafts:push" ∷ "approvals:read" ∷ "analytics:read" ∷ "settings:read"
    ∷ "memory:read" ∷ "memory:write" ∷ "audit:read" ∷ "products:read" ∷ []

abbrev pub change_lead_permissions : List String
change_lead_permissions =
    "cases:read" ∷ "signals:read" ∷ "change_requests:read" ∷ "change_requests:create"
    ∷ "change_requests:approve" ∷ "change_requests:reject" ∷ "change_requests:complete"
    ∷ "pr_drafts:read" ∷ "pr_drafts:push" ∷ "approvals:read" ∷ "approvals:act" ∷ "analytics:read"
    ∷ "memory:read" ∷ "audit:read" ∷ "products:read" ∷ []

abbrev pub product_lead_permissions : List String
product_lead_permissions =
    "cases:read" ∷ "cases:transition" ∷ "signals:read" ∷ "change_requests:read"
    ∷ "change_requests:approve" ∷ "change_requests:reject" ∷ "pr_drafts:read" ∷ "approvals:read"
    ∷ "approvals:act" ∷ "analytics:read" ∷ "compliance:read" ∷ "memory:read" ∷ "audit:read"
    ∷ "products:read" ∷ []

-- `DEFAULT_ROLE_PERMISSIONS`, in the order of the source.
abbrev pub default_role_permissions : List (String × List String)
default_role_permissions =
    ("admin", all_permission_ids)
    ∷ ("operator", operator_permissions)
    ∷ ("support_lead", support_lead_permissions)
    ∷ ("knowledge_lead", knowledge_lead_permissions)
    ∷ ("change_lead", change_lead_permissions)
    ∷ ("product_lead", product_lead_permissions)
    ∷ []

-- `TABLE[key]`, where a missing key is undefined.
unfoldable pub entry : String → List (String × List String) → Option (List String)
entry key [] = none
entry key ((k, v) ∷ m) = if str_eq k key then some v else entry key m

unfoldable pub default_permissions : String → Option (List String)
unfolding entry
default_permissions role = entry role default_role_permissions

pub record GrantedPermission : Type 0 where
  pub permission : PermissionDefinition
  pub granted : Bool

abbrev annotate : List String → PermissionDefinition → GrantedPermission
annotate granted p = record { permission = p; granted = includes granted p.id }

-- `getRolePermissionMatrix`
unfoldable pub get_role_permission_matrix : String → Option (List GrantedPermission)
unfolding default_permissions
get_role_permission_matrix role = elim (default_permissions role) [
  | none ↦ none
  | some granted ↦ some (map (annotate granted) permission_registry)
]
