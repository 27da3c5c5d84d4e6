-- ===== src/Automations/Actions.antt =====
-- The allowlist of src/ops-automation/actions/ops-actions-registry.service.ts: the registered
-- actions with their declared inputs and their `retrySafe` flag.
use robia_back.Prelude.{String, Bool, true, false, Option, none, some, List, [], ◌∷◌, find, str_eq}

-- `OpsActionDescriptor`, less its description and its `execute`.
pub record Descriptor : Type 0 where
  pub type_name : String
  pub retry_safe : Bool
  pub input_schema : List String
  pub optional_input_schema : List String
  pub object_input_fields : List String

abbrev pub registered : List Descriptor
registered =
    record {
      type_name = "robia.audit.run_diagnostic";
      retry_safe = false;
      input_schema = "websiteId" ∷ [];
      optional_input_schema = [];
      object_input_fields = [];
    }
    ∷ record {
      type_name = "robia.opportunities.regenerate";
      retry_safe = true;
      input_schema = "auditId" ∷ [];
      optional_input_schema = [];
      object_input_fields = [];
    }
    ∷ record {
      type_name = "robia.report.prepare_organization_summary";
      retry_safe = true;
      input_schema = [];
      optional_input_schema = [];
      object_input_fields = [];
    }
    ∷ record {
      type_name = "robia.action_items.create_internal_task";
      retry_safe = false;
      input_schema = "title" ∷ [];
      optional_input_schema = [];
      object_input_fields = [];
    }
    ∷ record {
      type_name = "robia.notification.send_email";
      retry_safe = true;
      input_schema = "templateKey" ∷ [];
      optional_input_schema = "auditId" ∷ [];
      object_input_fields = "templateData" ∷ [];
    }
    ∷ record {
      type_name = "robia.odc.prepare_application_summary";
      retry_safe = true;
      input_schema = "applicationId" ∷ [];
      optional_input_schema = [];
      object_input_fields = [];
    }
    ∷ record {
      type_name = "robia.odc.flag_missing_documents";
      retry_safe = false;
      input_schema = "applicationId" ∷ [];
      optional_input_schema = [];
      object_input_fields = [];
    }
    ∷ record {
      type_name = "robia.odc.create_review_task";
      retry_safe = false;
      input_schema = "applicationId" ∷ [];
      optional_input_schema = [];
      object_input_fields = [];
    }
    ∷ []

-- `this.actions.get(actionType)`
unfoldable pub get_action : String → Option Descriptor
get_action action_type = find (λ d. str_eq d.type_name action_type) registered

unfoldable pub is_allowed : String → Bool
unfolding get_action
is_allowed action_type = elim (get_action action_type) [ none ↦ false | some d ↦ true ]

unfoldable pub is_retry_safe : String → Bool
unfolding get_action
is_retry_safe action_type = elim (get_action action_type) [ none ↦ false | some d ↦ d.retry_safe ]
