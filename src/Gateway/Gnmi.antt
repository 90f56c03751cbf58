-- ===== src/Gateway/Gnmi.antt =====
-- secure-framework/gnmi/gnmiclient.py: the client of one SONiC switch. The gNMI library is a
-- parameter: what a connection attempt comes to, and what a call gives. The start and the end of the
-- thread that watches the connection, its exception hook, the callback on a lost connection and
-- console output are left out. A call and a turn of the thread are one step each, although the code
-- has no lock and `close` waits for the thread for two seconds only, so that they can overlap there.
-- A set call that raises is taken as not applied, also where the device answers too late.
use s_com_control_plane.Base.{
  Bool, List, Option, Text, [], any, codes, false, if◌then◌else◌, is_infix, keep, lower, ltb, none,
  some, split, starts_with, true, ℕ, ◌&&◌, ◌++◌, ◌==◌, ◌||◌, ◌∷◌,
}
use s_com_control_plane.Agent.Intent.{show_ℕ}
pub mod Acl
pub mod Laws
pub mod Rules

-- What an attempt to connect comes to: the library's client is not made, it does not connect, the
-- callback raises, or all is well.
pub data Dial : Type 0 where
  unbuilt unreachable callback_raises dialled : Dial

-- What a reading call of the library comes to: what the answer holds, an answer that has not the
-- members that are looked up in it, or what the call raises.
pub data Rpc (D : Type 0) : Type 0 where
  gives : D → Rpc D
  misshapen fails : Text → Rpc D

-- What a writing call comes to.
pub data Write : Type 0 where
  accepted : Write
  refused : Text → Write

pub data LogEvent : Type 0 where
  tables_not_connected tables_request tables_success tables_failed : LogEvent
  create_not_connected create_request create_success create_failed : Text → LogEvent
  delete_not_connected delete_request delete_success delete_failed : Text → LogEvent

-- `open` says whether `gc` is set. The log is newest first.
pub record GnmiClient : Type 0 where
  pub auto_reconnect : Bool
  pub connected : Bool
  pub is_open : Bool
  pub log : List LogEvent

unfoldable pub new : Bool → GnmiClient
new auto_reconnect = record {
  auto_reconnect = auto_reconnect;
  connected = false;
  is_open = false;
  log = [];
}

unfoldable pub connect : Dial → GnmiClient → GnmiClient × Bool
connect unbuilt c = (record c { connected = false }, false)
connect unreachable c = (record c { connected = false; is_open = true }, false)
connect callback_raises c = (record c { connected = false; is_open = true }, false)
connect dialled c = (record c { connected = true; is_open = true }, true)

unfoldable pub is_connected : GnmiClient → Bool
is_connected c = c.connected && c.is_open

-- `_ensure_connected`
unfoldable pub ensure_connected : Dial → GnmiClient → GnmiClient × Bool
unfolding connect
ensure_connected d c =
    if c.connected && c.is_open
    then (c, true)
    else if c.auto_reconnect
    then connect d c
    else (c, false)

abbrev pub connection_errors : List Text
connection_errors =
    codes "unavailable"
    ∷ codes "connection"
    ∷ codes "eof"
    ∷ codes "reset"
    ∷ codes "broken pipe"
    ∷ codes "deadline"
    ∷ []

-- `_handle_rpc_error`
unfoldable pub handle_rpc_error : Text → GnmiClient → GnmiClient
handle_rpc_error message c =
    if any (λ e. is_infix e (lower message)) connection_errors
    then record c { connected = false }
    else c

-- `close`; an error of the library's own close is passed over.
unfoldable pub close : GnmiClient → GnmiClient
close c = if c.is_open then record c { connected = false; is_open = false } else c

abbrev pub logged : LogEvent → GnmiClient → GnmiClient
logged v c = record c { log = v ∷ c.log }

module _ {D : Type 0} (default : D) where
  abbrev pub answered : Rpc D → GnmiClient → GnmiClient × D
  unfolding handle_rpc_error
  answered (gives x) c = (c, x)
  answered (misshapen m) c = (handle_rpc_error m c, default)
  answered (fails m) c = (handle_rpc_error m c, default)

  abbrev pub if_ready : Rpc D → GnmiClient × Bool → GnmiClient × D
  unfolding answered
  if_ready rpc (c, false) = (c, default)
  if_ready rpc (c, true) = answered rpc c

  -- A reading call: `get_capabilities`, `get_acl_rules` and `get_available_interfaces`, each with the
  -- answer that it gives where it cannot read.
  unfoldable pub read : Dial → Rpc D → GnmiClient → GnmiClient × D
  unfolding if_ready ensure_connected
  read d rpc c = if_ready rpc (ensure_connected d c)

  abbrev pub tables_answered : Rpc D → GnmiClient → GnmiClient × D
  unfolding handle_rpc_error
  tables_answered (gives x) c = (logged tables_success c, x)
  tables_answered (misshapen m) c =
      (logged tables_failed (handle_rpc_error m (logged tables_success c)), default)
  tables_answered (fails m) c = (logged tables_failed (handle_rpc_error m c), default)

  abbrev pub tables_if_ready : Rpc D → GnmiClient × Bool → GnmiClient × D
  unfolding tables_answered
  tables_if_ready rpc (c, false) = (logged tables_not_connected c, default)
  tables_if_ready rpc (c, true) = tables_answered rpc (logged tables_request c)

  -- `get_acl_tables`
  unfoldable pub get_acl_tables : Dial → Rpc D → GnmiClient → GnmiClient × D
  unfolding tables_if_ready ensure_connected
  get_acl_tables d rpc c = tables_if_ready rpc (ensure_connected d c)

abbrev pub default_interfaces : List Text
default_interfaces =
    codes "Ethernet0" ∷ codes "Ethernet4" ∷ codes "Ethernet8" ∷ codes "Ethernet12" ∷ []

-- `sorted`, on texts.
abbrev pub text_leb : Text → Text → Bool
text_leb [] t = true
text_leb (a ∷ s) [] = false
text_leb (a ∷ s) (b ∷ t) = ltb a b || (a == b && text_leb s t)

abbrev pub insert_sorted : Text → List Text → List Text
insert_sorted x [] = x ∷ []
insert_sorted x (y ∷ ys) = if text_leb x y then x ∷ y ∷ ys else y ∷ insert_sorted x ys

abbrev pub sorted : List Text → List Text
sorted [] = []
sorted (x ∷ xs) = insert_sorted x (sorted xs)

abbrev pub ethernet_ports : Rpc (List Text) → Rpc (List Text)
ethernet_ports (gives names) = gives (sorted (keep (starts_with (codes "Ethernet")) names))
ethernet_ports (misshapen m) = misshapen m
ethernet_ports (fails m) = fails m

-- `get_available_interfaces`, from the names of the interfaces in the answer.
unfoldable pub get_available_interfaces :
    Dial → Rpc (List Text) → GnmiClient → GnmiClient × List Text
unfolding read
get_available_interfaces d rpc c = read default_interfaces d (ethernet_ports rpc) c

-- The paths of the deletions.
unfoldable pub rule_path : Text → Text → Text → Text
rule_path table acl_type sequence_id =
    codes "openconfig-acl:acl/acl-sets/acl-set[name="
    ++ (table
        ++ (codes "][type="
            ++ (acl_type
                ++ (codes "]/acl-entries/acl-entry[sequence-id=" ++ (sequence_id ++ codes "]")))))

abbrev pub last_of : List Text → Text
last_of [] = []
last_of (w ∷ []) = w
last_of (w ∷ v ∷ ws) = last_of (v ∷ ws)

-- `acl_type.split(':')[-1]`, which leaves a type with no colon as it is.
unfoldable pub table_path : Text → Text → Text
table_path table acl_type =
    codes "openconfig-acl:acl/acl-sets/acl-set[name="
    ++ (table ++ (codes "][type=openconfig-acl:" ++ (last_of (split b':' acl_type) ++ codes "]")))

-- How a writing call ends.
pub data Ended : Type 0 where
  returned : Ended
  not_connected : Ended
  raised : Text → Ended

-- `gc.set` of a deletion: the path that is deleted, if any, and how the call ends.
abbrev pub rule_deleted : Text → Write → GnmiClient × Bool → GnmiClient × Option Text × Ended
rule_deleted path rpc (c, false) = (c, none, not_connected)
rule_deleted path accepted (c, true) = (c, some path, returned)
rule_deleted path (refused m) (c, true) = (c, none, raised m)

-- `delete_acl_rule`
unfoldable pub delete_acl_rule :
    (table acl_type : Text) → ℕ → Dial → Write → GnmiClient → GnmiClient × Option Text × Ended
unfolding ensure_connected rule_path
delete_acl_rule table acl_type sequence_id d rpc c =
    rule_deleted (rule_path table acl_type (show_ℕ sequence_id)) rpc (ensure_connected d c)

abbrev pub table_deleted :
    (table acl_type : Text) → Write → GnmiClient × Bool → GnmiClient × Option Text × Ended
unfolding table_path
table_deleted table acl_type rpc (c, false) =
    (logged (delete_not_connected table) c, none, not_connected)
table_deleted table acl_type accepted (c, true) = (
  logged (delete_success table) (logged (delete_request table) c),
  some (table_path table acl_type),
  returned,
)
table_deleted table acl_type (refused m) (c, true) =
    (logged (delete_failed table) (logged (delete_request table) c), none, raised m)

-- `delete_acl_table`
unfoldable pub delete_acl_table :
    (table acl_type : Text) → Dial → Write → GnmiClient → GnmiClient × Option Text × Ended
unfolding ensure_connected table_deleted
delete_acl_table table acl_type d rpc c = table_deleted table acl_type rpc (ensure_connected d c)

-- What the stream that `_connection_monitor_loop` reads comes to.
pub data Stream : Type 0 where
  ran_out told_to_stop broke : Stream

abbrev pub after_stream : Stream → GnmiClient → GnmiClient × Bool
after_stream ran_out c = (c, true)
after_stream told_to_stop c = (c, false)
after_stream broke c = (record c { connected = false }, true)

-- One turn of `_connection_monitor_loop`, and whether the loop goes on; the sleeps are left out.
unfoldable pub monitor_turn : Dial → Stream → GnmiClient → GnmiClient × Bool
unfolding connect
monitor_turn d s c =
    if c.connected && c.is_open
    then after_stream s c
    else if c.auto_reconnect
    then ((connect d c).0, true)
    else (c, false)
