-- ===== src/Audit/Entry.antt =====
-- The entries of secure-framework/tamper_logger.py and the identity that each is given.
--
-- A key that a dictionary lacks and a key with the value None are both `none` where the code
-- treats them alike. The entry is the dictionary without its signature, and the signature. An
-- entry that an older version wrote may lack `is_tampering`, its identity, its transaction and
-- its signature; the other keys, which the code reads by `log["action"]`, are there.
use s_com_control_plane.Base.{
  Bool, Eq, List, Option, Text, [], before, contains, false, if◌then◌else◌, is_empty, ltb, nat_eq,
  none, not, some, text_dec, ℕ,
}

pub record Identity : Type 0 where
  pub cn : Option Text
  pub ou : Option Text
  pub ip : Option Text
  pub port : Option ℕ
  pub role : Option Text
  pub session_id : Option Text

abbrev pub nobody : Identity
nobody = record { cn = none; ou = none; ip = none; port = none; role = none; session_id = none }

-- `client_addr`: no such key, or a value of no type that the code takes; an empty sequence; one of
-- a host alone, or with a port and what may follow it; a text.
pub data ClientAddr : Type 0 where
  missing : ClientAddr
  empty : ClientAddr
  host : Text → ClientAddr
  host_port : Text → ℕ → ClientAddr
  text : Text → ClientAddr

-- The keys of `client_info` that the code reads or writes; `others` are those that it passes on.
pub record ClientInfo : Type 0 where
  pub client_ip : Option Text
  pub client_addr : ClientAddr
  pub cert_cn : Option Text
  pub cert_ou : Option Text
  pub onap_role : Option Text
  pub sonic_role : Option Text
  pub session_id : Option Text
  pub success : Option Bool
  pub error : Option Text
  pub access_denied : Option Bool
  pub others : List (Text × Text)

abbrev pub no_info : ClientInfo
no_info = record {
  client_ip = none;
  client_addr = ClientAddr.missing;
  cert_cn = none;
  cert_ou = none;
  onap_role = none;
  sonic_role = none;
  session_id = none;
  success = none;
  error = none;
  access_denied = none;
  others = [];
}

-- `bool(x)` of a text or a number that may be `None`, and of a flag.
abbrev pub has_text : Option Text → Bool
has_text none = false
has_text (some t) = not (is_empty t)

abbrev pub has_number : Option ℕ → Bool
has_number none = false
has_number (some n) = ltb 0 n

abbrev pub is_set : Option Bool → Bool
is_set none = false
is_set (some b) = b

-- `identity[key] = user_identity[key]`, if that is truthy.
abbrev merge : Option Identity → Identity
merge none = nobody
merge (some u) = record {
  cn = if has_text u.cn then u.cn else none;
  ou = if has_text u.ou then u.ou else none;
  ip = if has_text u.ip then u.ip else none;
  port = if has_number u.port then u.port else none;
  role = if has_text u.role then u.role else none;
  session_id = if has_text u.session_id then u.session_id else none;
}

-- `addr.split(":")[0] if ":" in addr else addr`
abbrev host_of : Text → Text
unfolding text_dec
host_of a = if contains b':' a then before b':' a else a

abbrev from_addr : ClientAddr → Identity → Identity
from_addr ClientAddr.missing i = i
from_addr ClientAddr.empty i = i
from_addr (ClientAddr.host h) i = record i { ip = some h }
from_addr (ClientAddr.host_port h p) i = record i { ip = some h; port = some p }
from_addr (ClientAddr.text a) i = record i { ip = some (host_of a) }

-- `if not x and key in client_info: x = client_info[key]`
abbrev fallback : Option Text → Option Text → Option Text
fallback x none = x
fallback x (some t) = if has_text x then x else some t

abbrev address_fallback : ClientAddr → Identity → Identity
address_fallback a i = if has_text i.ip then i else from_addr a i

abbrev with_info : Option ClientInfo → Identity → Identity
with_info none i = i
with_info (some c) i =
    let a = address_fallback c.client_addr (record i { ip = fallback i.ip c.client_ip }) in
    record a {
      cn = fallback a.cn c.cert_cn;
      ou = fallback a.ou c.cert_ou;
      role = fallback (fallback a.role c.onap_role) c.sonic_role;
      session_id = fallback a.session_id c.session_id;
    }

-- `_build_user_identity`; an empty dictionary does what none does.
unfoldable pub build_user_identity : Option Identity → Option ClientInfo → Identity
unfolding host_of
build_user_identity u c = with_info c (merge u)

pub data Severity : Type 0 where
  info : Severity
  warning : Severity
  error : Severity
  critical : Severity

unfoldable pub severity_dec : Discrete Severity
severity_dec = hlevel

instance abbrev pub severity_eq : Eq Severity
severity_eq = record { dec = severity_dec }

-- What a caller hands over as a request or a state: `None`, or a value and its text, which for a
-- value that is no text is its JSON. An empty value is falsy.
pub record Payload : Type 0 where
  pub is_falsy : Bool
  pub body : Text

-- The dictionary without its signature.
pub record Fields : Type 0 where
  pub timestamp : Text
  pub event_type : Text
  pub action : Text
  pub severity : Severity
  pub details : Text
  pub is_tampering : Option Bool
  pub transaction_id : Option Text
  pub user_identity : Option Identity
  pub request_hash : Option Text
  pub data_before_hash : Option Text
  pub data_after_hash : Option Text
  pub client_info : ClientInfo

pub record LogEntry : Type 0 where
  pub fields : Fields
  pub integrity_signature : Option Text
