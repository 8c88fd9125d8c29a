-- ===== src/Lib.antt =====
-- killjoy: a monitor of systemd units.
--
-- The program reads a settings file, starts one thread for each D-Bus bus that a rule of the
-- settings names, and in each thread follows the states of the units of that bus's systemd. When a
-- unit enters a state that a rule asks for, the thread calls the notifiers that the rule names.
--
-- Parts, with the files that they model:
--
--   Base             lists, texts, and hash maps as association lists
--   ActiveState, Unit   src/unit.rs: the states, their texts (Unit/State) and the state machine of
--                    one unit (Unit/Machine), whose callback is an action on a state of its own
--   Error            src/error.rs: the variants, their messages (Error/Display) and their sources
--                    (Error/Source)
--   Timestamp        src/timestamp.rs
--   Settings         src/settings.rs: expressions, notifiers and rules (Settings/Types), what the
--                    file decodes to (Settings/Decode), the buses to watch (Settings/Buses), and
--                    loading (Settings/Load)
--   Generated        src/generated/org_freedesktop_systemd1.rs: the client methods and the signals
--                    that the program uses (Client, Signals), the interfaces Peer, Introspectable
--                    and Properties with their servers. The manager's interface is in
--                    Generated/Systemd: its types (Kinds), the shapes of clients and servers
--                    (Typed), ten groups of methods (Finding to Users) and nine of properties
--                    (Boot to Scheduling), each with its part of the trait, the
--                    client and the server, the signals (Signals), and the whole server (Server);
--                    Setting has the client's `Properties::set`
--   Watcher          src/bus.rs: `BusWatcher`. Watcher/Names, Rules, Notify, Manager, Units,
--                    Handlers and Run hold its functions, from the constants to `run`.
--                    Watcher/Monitor is a specification of it: steps between what is known of the
--                    units and what was sent, without a map, a connection or other calls
--   Cli              src/cli.rs: the declaration of the command line and the help messages
--   Main             src/main.rs: the subcommands (Main/Args) and the threads (Main/Threads)
--   Exec, Dbus       the two notions that the parts share: an action that may fail or panic, and the
--                    calls that reach the outside
--
-- State. A watcher's world (`World`) is its map of unit state machines and the trace of the calls
-- that it has made, the latest first. An action gives an outcome (a value, an error of the program,
-- or a panic) beside the world that it leaves, so what was changed before a failure stays changed.
-- The `?` operator is the bind of `Exec`, `match` on a result is `attempt`, and `expect`, `unwrap`
-- and `panic!` are the outcome `panicked`.
--
-- The outside. The dbus crate with systemd and the notifiers behind it (`Dbus`), the regex crate
-- (`RegexCrate`), the file system, the xdg crate and serde_json (`Files`), clap (`Clap`) and textwrap
-- (`TextCrates`) are parameters. Every answer of the bus is a function of the calls made before, so a
-- theorem holds for every systemd. What a theorem needs of the outside is a named hypothesis:
-- `IsHealthy`, `IsUp`, `HasAddress`, `IsLawful`, `Marshal`, `IsServed`, `Wired`,
-- `HasMethods`, `HasProperties` and `ReadsAlike`. The typed code of the manager has the dbus crate's
-- values, reading and calling as the parameters `Typed` and `Line`.
--
-- Loops. The loops over lists are recursions on them. The signal loop of `run` has no end of its
-- own; `serve` reads a schedule, a message or a timeout for each poll, and says whether the loop has
-- returned when the schedule ends. A theorem about every schedule is one about every moment of a run.
--
-- Timestamps are u64 values that are only stored, compared and sent, so they are natural numbers. The
-- generated code computes with no number.
--
-- Standard library. `str::trim` and the texts of `ParseIntError` are written out as its documentation
-- and its code have them; `Debug` shows nothing of the payload of a panic.
--
-- Not modelled: the unit tests, src/utils.rs (rules for unit tests), tests/cli.rs, and the packaging.
-- The texts that watchers print are calls in their traces. The order in which a hash map or a hash set
-- yields its elements is that of the list that stands for it; no theorem on such an order is stated.
pub mod Base
pub mod ActiveState
pub mod Error
pub mod Exec
pub mod Unit
pub mod Dbus
pub mod Generated
pub mod Timestamp
pub mod Settings
pub mod Watcher
pub mod Cli
pub mod Main
pub mod Tests
