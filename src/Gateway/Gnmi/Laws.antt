-- ===== src/Gateway/Gnmi/Laws.antt =====
-- What the client of one switch keeps to: gnmiclient.py of secure-framework.
use s_com_control_plane.Base.{
  Bool, List, Option, Text, [], any, false, if◌then◌else◌, is_infix, lower, none, refl, some, true,
  ℕ, ◌&&◌, ◌∷◌, ◌≡◌,
}
use s_com_control_plane.Gateway.Gnmi.{
  Dial, unbuilt, unreachable, callback_raises, dialled, Rpc, gives, misshapen, fails, Write,
  accepted, refused, GnmiClient, Stream, ran_out, told_to_stop, broke, new, connect, is_connected,
  ensure_connected, handle_rpc_error, close, read, if_ready, tables_if_ready, get_acl_tables,
  ethernet_ports, default_interfaces, get_available_interfaces, delete_acl_rule, delete_acl_table,
  rule_deleted, table_deleted, monitor_turn, after_stream, connection_errors,
}
use s_com_control_plane.Gateway.Gnmi.Acl.{
  Arguments, create_advanced_acl_rule, ports_of, written, AclConfig, after_write,
}

-- The calls on a client, with what the library's part in them comes to.
pub data Call : Type 0 where
  connecting : Dial → Call
  monitoring : Dial → Stream → Call
  closing : Call
  reading : Dial → Rpc Text → Call
  reading_tables : Dial → Rpc Text → Call
  reading_interfaces : Dial → Rpc (List Text) → Call
  deleting_rule : Text → Text → ℕ → Dial → Write → Call
  deleting_table : Text → Text → Dial → Write → Call
  creating : Dial → Dial → Rpc (List Text) → Write → Arguments → Call

unfoldable pub perform : Call → GnmiClient → GnmiClient
unfolding connect monitor_turn close read get_acl_tables get_available_interfaces delete_acl_rule
    delete_acl_table create_advanced_acl_rule
perform (connecting d) c = (connect d c).0
perform (monitoring d s) c = (monitor_turn d s c).0
perform closing c = close c
perform (reading d r) c = (read [] d r c).0
perform (reading_tables d r) c = (get_acl_tables [] d r c).0
perform (reading_interfaces d r) c = (get_available_interfaces d r c).0
perform (deleting_rule t a n d w) c = (delete_acl_rule t a n d w c).0
perform (deleting_table t a d w) c = (delete_acl_table t a d w c).0
perform (creating d e r w a) c = (create_advanced_acl_rule d e r w a c).0

unfoldable pub perform_all : List Call → GnmiClient → GnmiClient
unfolding perform
perform_all [] c = c
perform_all (k ∷ ks) c = perform_all ks (perform k c)

-- The cached state is right about the handle.
abbrev pub IsSound : GnmiClient → Type 0
unfolding is_connected
IsSound c = is_connected c ≡ c.connected

connect-IsSound : (d : Dial) (c : GnmiClient) → IsSound ((connect d c).0)
unfolding connect is_connected
connect-IsSound unbuilt c = refl
connect-IsSound unreachable c = refl
connect-IsSound callback_raises c = refl
connect-IsSound dialled c = refl

-- The two branches of a test.
if_IsSound : (b : Bool) (c c' : GnmiClient) → IsSound c → IsSound c' → IsSound (if b then c else c')
if_IsSound true x y h h' = h
if_IsSound false x y h h' = h'

if_pair-IsSound :
    (b : Bool) (p p' : GnmiClient × Bool)
    → IsSound p.0
    → IsSound p'.0
    → IsSound ((if b then p else p').0)
if_pair-IsSound true x y h h' = h
if_pair-IsSound false x y h h' = h'

ensure_connected-IsSound :
    (d : Dial) (c : GnmiClient) → IsSound c → IsSound ((ensure_connected d c).0)
unfolding ensure_connected
ensure_connected-IsSound d c h =
    if_pair-IsSound (c.connected && c.is_open) _ _ h
      (if_pair-IsSound c.auto_reconnect _ _ (connect-IsSound d c) h)

handle_rpc_error-IsSound : (m : Text) (c : GnmiClient) → IsSound c → IsSound (handle_rpc_error m c)
unfolding handle_rpc_error is_connected
handle_rpc_error-IsSound m c h =
    if_IsSound (any (λ e. is_infix e (lower m)) connection_errors) _ _ refl h

close-IsSound : (c : GnmiClient) → IsSound c → IsSound (close c)
unfolding close is_connected
close-IsSound c h = if_IsSound c.is_open _ _ refl h

after_stream-IsSound : (s : Stream) (c : GnmiClient) → IsSound c → IsSound ((after_stream s c).0)
unfolding is_connected
after_stream-IsSound ran_out c h = h
after_stream-IsSound told_to_stop c h = h
after_stream-IsSound broke c h = refl

monitor_turn-IsSound :
    (d : Dial) (s : Stream) (c : GnmiClient) → IsSound c → IsSound ((monitor_turn d s c).0)
unfolding monitor_turn is_connected
monitor_turn-IsSound d s c h =
    if_pair-IsSound (c.connected && c.is_open) _ _ (after_stream-IsSound s c h)
      (if_pair-IsSound c.auto_reconnect _ _ (connect-IsSound d c) h)

module _ {D : Type 0} (default : D) where
  if_ready-IsSound :
      (r : Rpc D) (p : GnmiClient × Bool) → IsSound p.0 → IsSound ((if_ready default r p).0)
  unfolding if_ready
  if_ready-IsSound r (c, false) h = h
  if_ready-IsSound (gives x) (c, true) h = h
  if_ready-IsSound (misshapen m) (c, true) h = handle_rpc_error-IsSound m c h
  if_ready-IsSound (fails m) (c, true) h = handle_rpc_error-IsSound m c h

  tables_if_ready-IsSound :
      (r : Rpc D) (p : GnmiClient × Bool) → IsSound p.0 → IsSound ((tables_if_ready default r p).0)
  unfolding tables_if_ready IsSound
  tables_if_ready-IsSound r (c, false) h = h
  tables_if_ready-IsSound (gives x) (c, true) h = h
  tables_if_ready-IsSound (misshapen m) (c, true) h = handle_rpc_error-IsSound m _ h
  tables_if_ready-IsSound (fails m) (c, true) h = handle_rpc_error-IsSound m _ h

delete_rule-IsSound :
    (path : Text) (w : Write) (p : GnmiClient × Bool)
    → IsSound p.0
    → IsSound ((rule_deleted path w p).0)
delete_rule-IsSound path w (c, false) h = h
delete_rule-IsSound path accepted (c, true) h = h
delete_rule-IsSound path (refused m) (c, true) h = h

delete_table-IsSound :
    (table acl_type : Text) (w : Write) (p : GnmiClient × Bool)
    → IsSound p.0
    → IsSound ((table_deleted table acl_type w p).0)
unfolding table_deleted IsSound
delete_table-IsSound t a w (c, false) h = h
delete_table-IsSound t a accepted (c, true) h = h
delete_table-IsSound t a (refused m) (c, true) h = h

after_write-IsSound :
    (o : Option Text) (t : Text) (c : GnmiClient) → IsSound c → IsSound ((after_write o t c).0)
unfolding IsSound
after_write-IsSound none t c h = h
after_write-IsSound (some p) t c h = h

written-IsSound :
    (w : Write) (o : Option Text) (t : Text) (config : AclConfig) (p : GnmiClient × Bool)
    → IsSound p.0
    → IsSound ((written w o t config p).0)
unfolding IsSound
written-IsSound w o t config (c, false) h = h
written-IsSound (refused m) o t config (c, true) h = h
written-IsSound accepted o t config (c, true) h = after_write-IsSound o t _ h

read-IsSound :
    {D : Type 0} (default : D) (d : Dial) (r : Rpc D) (c : GnmiClient)
    → IsSound c
    → IsSound ((read default d r c).0)
unfolding read
read-IsSound default d r c h =
    if_ready-IsSound default r (ensure_connected d c) (ensure_connected-IsSound d c h)

ports_of-IsSound :
    (names : List Text) (d : Dial) (r : Rpc (List Text)) (c : GnmiClient)
    → IsSound c
    → IsSound ((ports_of names d r c).0)
unfolding ports_of get_available_interfaces
ports_of-IsSound (n ∷ ns) d r c h = h
ports_of-IsSound [] d r c h = read-IsSound default_interfaces d (ethernet_ports r) c h

perform-IsSound : (k : Call) (c : GnmiClient) → IsSound c → IsSound (perform k c)
unfolding perform get_acl_tables get_available_interfaces delete_acl_rule delete_acl_table
    create_advanced_acl_rule
perform-IsSound (connecting d) c h = connect-IsSound d c
perform-IsSound (monitoring d s) c h = monitor_turn-IsSound d s c h
perform-IsSound closing c h = close-IsSound c h
perform-IsSound (reading d r) c h = read-IsSound [] d r c h
perform-IsSound (reading_tables d r) c h =
    tables_if_ready-IsSound [] r (ensure_connected d c) (ensure_connected-IsSound d c h)
perform-IsSound (reading_interfaces d r) c h =
    read-IsSound default_interfaces d (ethernet_ports r) c h
perform-IsSound (deleting_rule t a n d w) c h =
    delete_rule-IsSound _ w (ensure_connected d c) (ensure_connected-IsSound d c h)
perform-IsSound (deleting_table t a d w) c h =
    delete_table-IsSound t a w (ensure_connected d c) (ensure_connected-IsSound d c h)
perform-IsSound (creating d e r w a) c h =
    written-IsSound w a.ip_protocol a.table_name _ _
      (ensure_connected-IsSound e _ (ports_of-IsSound a.interfaces d r c h))

-- Whatever is called on a new client, and whatever the switch answers, the client says that it is
-- connected exactly when its cached state says so: a cached connection always has its handle.
pub perform_all-IsSound :
    (auto_reconnect : Bool) (ks : List Call) → IsSound (perform_all ks (new auto_reconnect))
unfolding perform_all new is_connected
perform_all-IsSound auto_reconnect ks = go ks (new auto_reconnect) refl
  where
    go : (ks : List Call) (c : GnmiClient) → IsSound c → IsSound (perform_all ks c)
    go [] c h = h
    go (k ∷ ks) c h = go ks (perform k c) (perform-IsSound k c h)
