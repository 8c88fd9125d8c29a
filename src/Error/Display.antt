-- ===== src/Error/Display.antt =====
-- `impl Display for Error`
use killjoy.Base.{String, ◌<>◌, none, some}
use killjoy.ActiveState.{debug_state}
use killjoy.Error.{Error, IntErrorKind, ParseIntError}

-- The derived `Debug` of `ParseIntError`.
unfoldable pub debug_kind : IntErrorKind → String
debug_kind IntErrorKind.empty = "Empty"
debug_kind IntErrorKind.invalid_digit = "InvalidDigit"
debug_kind IntErrorKind.pos_overflow = "PosOverflow"
debug_kind IntErrorKind.neg_overflow = "NegOverflow"
debug_kind IntErrorKind.zero = "Zero"

unfoldable pub debug_parse : ParseIntError → String
unfolding debug_kind
debug_parse e = "ParseIntError { kind: " <> debug_kind e.kind <> " }"

-- The message of each error; foreign errors contribute their own text, or what their `Debug`
-- writes where the message asks for that. A panic's payload is opaque to `Debug`.
unfoldable pub display : Error → String
unfolding debug_parse
display Error.missing_loop_timeout_arg =
    "Failed to get --loop-timeout argument. A default should've been set in the argument parser."
display (Error.monitoring_thread_panicked _) = "A monitoring thread panicked. Source: Any { .. }"
display (Error.parse_loop_timeout_arg e) =
    "Failed to parse --loop-timeout argument: " <> debug_parse e
display (Error.unexpected_subcommand (some subcmd)) =
    "An unexpected subcommand was encountered: " <> subcmd
display (Error.unexpected_subcommand none) = "An unexpected subcommand was encountered."
display (Error.settings_file_deserialization_failed e) =
    "Failed to deserialize the settings file: " <> e.text
display (Error.settings_file_not_found path) =
    "Failed to find a configuration file in $XDG_CONFIG_HOME or $XDG_CONFIG_DIRS with path " <> path
display (Error.settings_file_not_readable e) = "Failed to read settings file: " <> e.text
display (Error.invalid_active_state as_str) = "Found invalid active state: " <> as_str
display (Error.invalid_bus_name bn_str) = "Found invalid bus name: " <> bn_str
display (Error.invalid_bus_type bt_str) = "Found invalid bus type: " <> bt_str
display (Error.invalid_expression_type et_str) = "Found invalid expression type: " <> et_str
display (Error.invalid_regex e) = "Found invalid regular expression: " <> e.text
display (Error.invalid_notifier notifier) = "Rule references non-existent notifier: " <> notifier
display (Error.add_signal_match match_str e) =
    "Failed to add match string '" <> match_str <> "': " <> e.text
display (Error.call_properties_get_all e) =
    "Failed to call org.freedesktop.DBus.Properties.GetAll: " <> e.text
display (Error.call_manager_get_unit e) =
    "Failed to call org.freedesktop.systemd1.Manager.GetUnit: " <> e.text
display (Error.call_manager_list_units e) =
    "Failed to call org.freedesktop.systemd1.Manager.ListUnits: " <> e.text
display (Error.call_manager_subscribe e) =
    "Failed to call org.freedesktop.systemd1.Manager.Subscribe: " <> e.text
display (Error.cast_bus_name_to_str e) = "Failed to cast bus name to UTF-8 string: " <> e.text
display (Error.cast_unit_timestamp key) =
    "Failed to cast org.freedesktop.systemd1.Unit." <> key <> " to a u64."
display Error.cast_unit_active_state =
    "Failed to cast org.freedesktop.systemd1.Unit.ActiveState to a string."
display Error.cast_unit_id = "Failed to cast org.freedesktop.systemd1.Unit.Id to a string."
display (Error.cast_str_to_path source) = source
display (Error.connect_to_bus e) = "Failed to connect to D-Bus bus. Cause: " <> e.text
display (Error.get_unit_id e) = "Failed to get org.freedesktop.systemd1.Unit.Id for: " <> e.text
display Error.message_lacks_path = "Failed to get path from message headers."
display Error.properties_lacks_active_state = "A unit's properties lacks the ActiveState property."
display (Error.properties_lacks_timestamp s key) =
    "A unit has entered the "
    <> debug_state s
    <> " state, but that unit's properties lack a timestamp named '"
    <> key
    <> "'."
display (Error.remove_signal_match match_str e) =
    "Failed to remove match string '" <> match_str <> "': " <> e.text
