-- ===== src/Notifications/Creation/Tests.antt =====
-- Runs of src/notifications/notifications.service.ts on new deliveries.
use robia_back.Prelude.{◌≡◌, refl, String, Option, none, some, [], ◌∷◌}
use robia_back.Storage.Texts.{codes}
use robia_back.Notifications.Templates.{TemplateData, object, text, not_an_object}
use robia_back.Notifications.Creation.{
  User, Notification, World, Params, delivered, handled_by_n8n, failed, audit_resolution,
  automation_context, new_notification, create_email_delivery, find_one,
}
use robia_back.Notifications.Creation.Numbers.{decimal}
use robia_back.Notifications.Creation.Repeats.{Repeats, create_all, create_email_delivery-Repeats}

abbrev owner : User
owner = record { id = 2; email = codes "o@x.org" }

abbrev tables : World
tables = record {
  automations = record { id = 4; organization_id = 1; created_by = owner } ∷ [];
  organizations = record { id = 1; owner_id = 2 } ∷ [];
  audits =
      record { id = 7; organization_id = 1; website_url = codes "x.org"; global_score = some 82 }
      ∷ [];
  deliveries = [];
  next_id = 30;
}

abbrev audited : Params
audited = record {
  organization_id = 1;
  automation_id = 4;
  automation_run_id = 5;
  automation_step_run_id = 6;
  template_key = "audit_completed";
  template_data = not_an_object;
  audit_id = some 7;
}

abbrev audit_7 : TemplateData
audit_7 = object (("websiteUrl", text (codes "x.org")) ∷ ("scoreLine", text (codes "82/100")) ∷ [])

abbrev fresh : Notification
fresh = new_notification audited audit_7 owner tables

abbrev filled : World
filled = record tables { deliveries = fresh ∷ []; next_id = 31 }

created :
    create_email_delivery (some "notifications") audited tables
    ≡ (filled, delivered fresh (codes "o@x.org"))
unfolding create_email_delivery decimal
created = refl

-- The same step again, after a call for another step.
abbrev other_call : Option String × Params
other_call = (some "notifications", record audited { automation_step_run_id = 8 })

create_email_delivery-Repeats_example :
    Repeats fresh
      (create_all (other_call ∷ []) filled)
      (create_email_delivery (some "notifications") audited (create_all (other_call ∷ []) filled))
create_email_delivery-Repeats_example =
    create_email_delivery-Repeats (some "notifications") (some "notifications") audited audited
      tables filled fresh (codes "o@x.org") (other_call ∷ []) created refl refl

by_default : (create_email_delivery none audited tables).1 ≡ handled_by_n8n
unfolding create_email_delivery
by_default = refl

other_audit :
    (create_email_delivery (some "notifications") (record audited { audit_id = some 9 }) tables).1
    ≡ failed audit_resolution
unfolding create_email_delivery
other_audit = refl

not_the_owner :
    (create_email_delivery
      (some "notifications")
      audited
      (record tables { organizations = record { id = 1; owner_id = 3 } ∷ [] })).1
    ≡ failed automation_context
unfolding create_email_delivery decimal
not_the_owner = refl

other_organization : find_one 2 30 filled ≡ none
unfolding find_one
other_organization = refl
