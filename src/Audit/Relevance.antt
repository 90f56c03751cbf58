-- ===== src/Audit/Relevance.antt =====
-- `_is_tampering_relevant` of secure-framework/tamper_logger.py.
use s_com_control_plane.Base.{
  Bool, List, Text, [], any, codes, contains, false, if◌then◌else◌, is_infix, lower, true, ◌&&◌,
  ◌++◌, ◌||◌, ◌∷◌,
}
use s_com_control_plane.Audit.Entry.{Severity, severity_dec, severity_eq}

abbrev modification_keywords : List Text
modification_keywords =
    codes "create"
    ∷ codes "delete"
    ∷ codes "update"
    ∷ codes "set"
    ∷ codes "modify"
    ∷ codes "acl"
    ∷ codes "rule"
    ∷ codes "table"
    ∷ []

abbrev auth_keywords : List Text
auth_keywords =
    codes "unauthorized"
    ∷ codes "denied"
    ∷ codes "permission"
    ∷ codes "access denied"
    ∷ codes "forbidden"
    ∷ []

abbrev modification_actions : List Text
modification_actions =
    codes "create"
    ∷ codes "delete"
    ∷ codes "update"
    ∷ codes "set"
    ∷ codes "modify"
    ∷ codes "edit"
    ∷ codes "create_acl"
    ∷ codes "delete_acl"
    ∷ codes "acl_create"
    ∷ codes "acl_delete"
    ∷ codes "create_acl_rule"
    ∷ codes "delete_acl_table"
    ∷ codes "edit_config"
    ∷ []

abbrev auth_failure_keywords : List Text
auth_failure_keywords =
    codes "unauthorized"
    ∷ codes "denied"
    ∷ codes "forbidden"
    ∷ codes "permission"
    ∷ codes "not allowed"
    ∷ []

abbrev read_only_actions : List Text
read_only_actions =
    codes "get"
    ∷ codes "query"
    ∷ codes "retrieve"
    ∷ codes "fetch"
    ∷ codes "list"
    ∷ codes "read"
    ∷ []

abbrev system_actions : List Text
system_actions =
    codes "start"
    ∷ codes "stop"
    ∷ codes "initialize"
    ∷ codes "connect"
    ∷ codes "disconnect"
    ∷ codes "startup"
    ∷ codes "shutdown"
    ∷ codes "session"
    ∷ []

-- `any(kw in t for kw in kws)`
abbrev pub mentions : List Text → Text → Bool
mentions kws t = any (λ kw. is_infix kw t) kws

-- `any(kw in a or kw in d for kw in kws)`
abbrev either_mentions : List Text → Text → Text → Bool
either_mentions kws a d = any (λ kw. is_infix kw a || is_infix kw d) kws

abbrev is_error : Severity → Bool
unfolding severity_dec
is_error s = contains s (Severity.error ∷ Severity.critical ∷ [])

abbrev relevant : Text → Text → Severity → Bool
unfolding is_error
relevant a d s =
    if is_error s && either_mentions (modification_keywords ++ auth_keywords) a d
    then true
    else if mentions modification_actions a
    then true
    else if either_mentions auth_failure_keywords a d
    then true
    else if mentions read_only_actions a
    then false
    else if mentions system_actions a
    then false
    else false

unfoldable pub is_tampering_relevant : Text → Text → Severity → Bool
unfolding relevant
is_tampering_relevant action details severity = relevant (lower action) (lower details) severity
