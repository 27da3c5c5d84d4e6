-- ===== src/Publication/Tests.antt =====
-- Runs of src/content-studio/publication-policy.ts on one binding.
use robia_back.Prelude.{◌≡◌, ◌↔◌, refl, String, true, false, none, some, is_blank}
use robia_back.Publication.Policy.{
  Binding, google_post, Input, allowed, valid_binding, evaluate_publication,
}
use robia_back.Publication.Permission.{MayPublish, evaluate_publication_iff}

abbrev binding : Binding
binding = record {
  organization_id = "org";
  document_id = "doc";
  revision = 2;
  content_digest = "0123456789abcdef0123456789abcdef0123456789abcdef0123456789abcdef";
  destination = google_post;
  target_id = "place";
  connection_version = 1;
}

abbrev key_of : Binding → String
key_of b = b.document_id

abbrev input : Input
input = record {
  current = binding;
  approval = some (record { binding = binding; approved_by = some "ada"; revoked = false });
  publishing_enabled = true;
  connection_ready = true;
  previous_attempt = none;
}

abbrev doc : String
doc = "doc"

allowed_input : evaluate_publication key_of input ≡ allowed "doc"
unfolding evaluate_publication valid_binding is_blank
allowed_input = refl

evaluate_publication_iff_example :
    (evaluate_publication key_of input ≡ allowed "doc") ↔ (MayPublish key_of input × (doc ≡ doc))
evaluate_publication_iff_example = evaluate_publication_iff key_of input "doc"
