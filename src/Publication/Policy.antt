-- ===== src/Publication/Policy.antt =====
-- `evaluatePublication` of src/content-studio/publication-policy.ts.
use Prim.Native.Char.{code}
use robia_back.Prelude.{
  ℕ, zero, suc, String, Bool, true, false, not, ◌&&◌, ◌||◌, Option, none, some, ltb, leb, str_eq,
  is_blank, if◌then◌else◌,
}

pub data Destination : Type 0 where
  google_post wordpress_post other_destination : Destination

-- `PublicationBinding`. A number is a natural number; the tests that JavaScript makes for others
-- are those for 0 and for more than `Number.MAX_SAFE_INTEGER`.
pub record Binding : Type 0 where
  pub organization_id : String
  pub document_id : String
  pub revision : ℕ
  pub content_digest : String
  pub destination : Destination
  pub target_id : String
  pub connection_version : ℕ

-- `PublicationApproval`
pub record Approval : Type 0 where
  pub binding : Binding
  pub approved_by : Option String
  pub revoked : Bool

pub data AttemptState : Type 0 where
  in_flight unknown confirmed failed : AttemptState

pub data Reason : Type 0 where
  invalid_binding publishing_disabled connection_unavailable approval_required : Reason
  approval_stale already_confirmed reconciliation_required : Reason

pub data Verdict : Type 0 where
  allowed : String → Verdict
  refused : Reason → Verdict

abbrev pub max_safe_integer : ℕ
max_safe_integer = 9007199254740991

unfoldable pub is_positive_integer : ℕ → Bool
is_positive_integer n = leb n max_safe_integer && ltb 0 n

-- `[a-f0-9]`
abbrev pub is_hex : ℕ → Bool
is_hex c = leb 97 c && leb c 102 || leb 48 c && leb c 57

-- `/^[a-f0-9]{n}$/`
unfoldable pub is_hex_text : ℕ → String → Bool
is_hex_text zero String.[] = true
is_hex_text zero (String.◌∷◌ c s) = false
is_hex_text (suc n) String.[] = false
is_hex_text (suc n) (String.◌∷◌ c s) = is_hex (code c) && is_hex_text n s

abbrev pub is_destination : Destination → Bool
is_destination other_destination = false
is_destination _ = true

-- `validBinding`
unfoldable pub valid_binding : Binding → Bool
unfolding is_positive_integer is_hex_text
valid_binding b =
    not (is_blank b.organization_id)
    && not (is_blank b.document_id)
    && not (is_blank b.target_id)
    && is_positive_integer b.revision
    && is_positive_integer b.connection_version
    && is_hex_text 64 b.content_digest
    && is_destination b.destination

pub record Input : Type 0 where
  pub current : Binding
  pub approval : Option Approval
  pub publishing_enabled : Bool
  pub connection_ready : Bool
  pub previous_attempt : Option AttemptState

abbrev pub lacks_approver : Option String → Bool
lacks_approver none = true
lacks_approver (some u) = is_blank u

-- After the approval has been found to stand.
unfoldable pub attempt_verdict : Option AttemptState → String → Verdict
attempt_verdict (some confirmed) key = refused already_confirmed
attempt_verdict (some _) key = refused reconciliation_required
attempt_verdict none key = allowed key

-- `operationKey` is `content-publish:v1:` and the SHA-256 digest of the JSON array of the fields;
-- the hash of Node is a parameter.
unfoldable pub evaluate_publication : (Binding → String) → Input → Verdict
unfolding attempt_verdict
evaluate_publication operation_key input =
    if not (valid_binding input.current)
    then refused invalid_binding
    else if not input.publishing_enabled
    then refused publishing_disabled
    else if not input.connection_ready
    then refused connection_unavailable
    else elim input.approval [
      | none ↦ refused approval_required
      | some a ↦
          if a.revoked || lacks_approver a.approved_by
          then refused approval_required
          else if not (valid_binding a.binding)
              || not (str_eq (operation_key input.current) (operation_key a.binding))
          then refused approval_stale
          else attempt_verdict input.previous_attempt (operation_key input.current)
    ]
