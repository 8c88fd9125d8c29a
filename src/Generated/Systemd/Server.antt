-- ===== src/Generated/Systemd/Server.antt =====
-- The server of the manager's interface as a whole, and an object that it serves.
use killjoy.Base.{String, List, [], ◌∷◌, ◌++◌, some, ◌≡◌}
use killjoy.Error.{ExternResult, ok, err}
use killjoy.Dbus.{Dbus, ConnPath}
use killjoy.Generated.Client.{manager_interface}
use killjoy.Generated.Systemd.Kinds.{Kind}
use killjoy.Generated.Systemd.Typed.{
  Typed, Line, Val, Vals, Takes, Served, Property, handle_call, handle_set, find_method,
  find_property,
}
use killjoy.Generated.Systemd.Finding
use killjoy.Generated.Systemd.Starting
use killjoy.Generated.Systemd.Units
use killjoy.Generated.Systemd.Processes
use killjoy.Generated.Systemd.Listing
use killjoy.Generated.Systemd.Power
use killjoy.Generated.Systemd.Environment
use killjoy.Generated.Systemd.Enabling
use killjoy.Generated.Systemd.Targets
use killjoy.Generated.Systemd.Users
use killjoy.Generated.Systemd.Boot
use killjoy.Generated.Systemd.Startup
use killjoy.Generated.Systemd.Initrd
use killjoy.Generated.Systemd.Logging
use killjoy.Generated.Systemd.Watchdogs
use killjoy.Generated.Systemd.Defaults
use killjoy.Generated.Systemd.Limits
use killjoy.Generated.Systemd.MoreLimits
use killjoy.Generated.Systemd.Scheduling

-- `OrgFreedesktopSystemd1Manager`, of an implementation with a state, by the parts of the trait
pub record Systemd (B : Dbus) (T : Typed B) (S : Type 0) : Type 0 where
  pub finding : Finding.Methods B T S
  pub starting : Starting.Methods B T S
  pub units : Units.Methods B T S
  pub processes : Processes.Methods B T S
  pub listing : Listing.Methods B T S
  pub power : Power.Methods B T S
  pub environment : Environment.Methods B T S
  pub enabling : Enabling.Methods B T S
  pub targets : Targets.Methods B T S
  pub users : Users.Methods B T S
  pub boot : Boot.Methods B T S
  pub startup : Startup.Methods B T S
  pub initrd : Initrd.Methods B T S
  pub logging : Logging.Methods B T S
  pub watchdogs : Watchdogs.Methods B T S
  pub defaults : Defaults.Methods B T S
  pub limits : Limits.Methods B T S
  pub more_limits : MoreLimits.Methods B T S
  pub scheduling : Scheduling.Methods B T S

module _ (B : Dbus) (T : Typed B) {S : Type 0} where
  unfoldable pub methods : Systemd B T S → List (Served B T S)
  unfolding Finding.server Starting.server Units.server Processes.server Listing.server Power.server
      Environment.server Enabling.server Targets.server Users.server
  methods d =
      Finding.server B T d.finding
      ++ (Starting.server B T d.starting
          ++ (Units.server B T d.units
              ++ (Processes.server B T d.processes
                  ++ (Listing.server B T d.listing
                      ++ (Power.server B T d.power
                          ++ (Environment.server B T d.environment
                              ++ (Enabling.server B T d.enabling
                                  ++ (Targets.server B T d.targets
                                      ++ (Users.server B T d.users)))))))))

  unfoldable pub properties : Systemd B T S → List (Property B T S)
  unfolding Boot.server Startup.server Initrd.server Logging.server Watchdogs.server Defaults.server
      Limits.server MoreLimits.server Scheduling.server
  properties d =
      Boot.server B T d.boot
      ++ (Startup.server B T d.startup
          ++ (Initrd.server B T d.initrd
              ++ (Logging.server B T d.logging
                  ++ (Watchdogs.server B T d.watchdogs
                      ++ (Defaults.server B T d.defaults
                          ++ (Limits.server B T d.limits
                              ++ (MoreLimits.server B T d.more_limits
                                  ++ (Scheduling.server B T d.scheduling))))))))

-- Typed arguments are read as they were appended.
pub record Wired (B : Dbus) (T : Typed B) : Type 0 where
  pub iter_of : (ks : List Kind) → Vals B T ks → Dbus.Iter B
  pub reads :
      (k : Kind) (ks : List Kind) (v : Val B T k) (vs : Vals B T ks)
      → Typed.read T k (iter_of (k ∷ ks) (v, vs)) ≡ ok (v, iter_of ks vs)

module _ (B : Dbus) (T : Typed B) (N : Line B T) (W : Wired B T) where
  -- What the caller gets when the callee's reply is this.
  abbrev pub Answered :
      (ks : List Kind) → ExternResult (Vals B T ks) → ExternResult (Dbus.Message B) → Type 0
  Answered ks (ok values) r =
      (m : Dbus.Message B) × (r ≡ ok m)
      × (Dbus.as_result B m ≡ ok tt)
      × (Dbus.iter_init B m ≡ Wired.iter_of W ks values)
  Answered ks (err e) r = r ≡ err e

  module _ {S : Type 0} where
    -- The object at `c` has these methods: a call is handed to the method of its name, and the reply
    -- of its handler, or the error, is the answer.
    abbrev pub HasMethods : List (Served B T S) → S → ConnPath → Type 0
    HasMethods ms s c =
        (member : String) (m : Served B T S)
        → find_method B T member ms ≡ some m
        → (args : Vals B T m.ins)
        → Answered m.outs (handle_call B T m (Wired.iter_of W m.ins args) s).0
            (Line.method_call_with_args N c manager_interface member m.ins args)

    -- The object has these properties: getting one, and setting one that has a setter, run its handlers.
    abbrev pub HasProperties : List (Property B T S) → S → ConnPath → Type 0
    HasProperties ps s c =
        (name : String) (p : Property B T S)
        → find_property B T name ps ≡ some p
        → (Line.get N c manager_interface name p.kind ≡ (p.on_get s).0)
          × ((f : Takes B T S p.kind)
              → p.on_set ≡ some f
              → (v : Val B T p.kind)
              → Line.set N c manager_interface name p.kind v
                ≡ (handle_set B T p.kind f (Wired.iter_of W (p.kind ∷ []) (v, tt)) s).0)
