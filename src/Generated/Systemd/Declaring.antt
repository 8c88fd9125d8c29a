-- ===== src/Generated/Systemd/Declaring.antt =====
-- The manager's server against its declarations, and its signals against themselves.
use killjoy.Base.{String, List, map, ◌≡◌}
use killjoy.Dbus.{Dbus}
use killjoy.Generated.Systemd.Kinds.{Kind, notation}
use killjoy.Generated.Systemd.Typed.{Typed, Served, unnamed}
use killjoy.Generated.Systemd.Server.{Systemd}
use killjoy.Generated.Systemd.Finding
use killjoy.Generated.Systemd.Starting
use killjoy.Generated.Systemd.Units
use killjoy.Generated.Systemd.Processes
use killjoy.Generated.Systemd.Listing
use killjoy.Generated.Systemd.Power
use killjoy.Generated.Systemd.Environment
use killjoy.Generated.Systemd.Enabling
use killjoy.Generated.Systemd.Targets
use killjoy.Generated.Systemd.Users

-- Unnamed arguments of these types, as a server declares them.
abbrev pub declared : List Kind → List (String × String)
declared ks = unnamed (map notation ks)

module _ (B : Dbus) (T : Typed B) where
  -- A method declares the types that its handler reads and those that it appends.
  abbrev pub Declares : {S : Type 0} → Served B T S → Type 0
  Declares m = (m.in_args ≡ declared m.ins) × (m.out_args ≡ declared m.outs)
