-- ===== src/Media/Errors.antt =====
-- `classifyMediaError` of src/utils/mediaErrors.ts. The tests of a message by regular expressions are
-- parameters.
use strangertv.Common.{Bool, true, false, String, ◌==◌, String_eq, if◌then◌else◌}

pub data MediaErrorCode : Type 0 where
  permission in_use not_found overconstrained security abort unknown : MediaErrorCode

-- An exception, as `name` and `message`; the empty text where there is none.
pub record Failure : Type 0 where
  pub name : String
  pub message : String

-- /permission/i, /Permission|NotAllowed/i, /Could not start|busy|in use|Device in use/i and
-- /Requested device not found|not found/i
pub record Patterns : Type 0 where
  pub permission_word : String → Bool
  pub refused : String → Bool
  pub busy : String → Bool
  pub missing : String → Bool

unfoldable pub code_of_message : Patterns → String → MediaErrorCode
code_of_message p message =
    if p.refused message
    then permission
    else if p.busy message
    then in_use
    else if p.missing message
    then not_found
    else unknown

unfoldable pub code_of_name : Patterns → Failure → MediaErrorCode
code_of_name p e =
    if e.name == "NotAllowedError"
    then permission
    else if e.name == "PermissionDeniedError"
    then permission
    else if e.name == "NotReadableError"
    then in_use
    else if e.name == "TrackStartError"
    then in_use
    else if e.name == "AbortError"
    then (if p.permission_word e.message then permission else abort)
    else if e.name == "NotFoundError"
    then not_found
    else if e.name == "DevicesNotFoundError"
    then not_found
    else if e.name == "OverconstrainedError"
    then overconstrained
    else if e.name == "ConstraintNotSatisfiedError"
    then overconstrained
    else if e.name == "SecurityError"
    then security
    else code_of_message p e.message

-- `secure` is `window.isSecureContext`.
unfoldable pub classify_media_error : Patterns → Bool → Failure → MediaErrorCode
classify_media_error p secure e = if secure then code_of_name p e else security

-- `code === 'permission' || code === 'security'`
unfoldable pub is_final : MediaErrorCode → Bool
is_final permission = true
is_final security = true
is_final _ = false

abbrev pub code_text : MediaErrorCode → String
code_text permission = "permission"
code_text in_use = "in_use"
code_text not_found = "not_found"
code_text overconstrained = "overconstrained"
code_text security = "security"
code_text abort = "abort"
code_text unknown = "unknown"
