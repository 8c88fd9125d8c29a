-- ===== src/Generated/Systemd/Users.antt =====
-- The manager's interface: the methods on the exit code and on dynamic users.
use killjoy.Base.{List, [], ◌∷◌}
use killjoy.Dbus.{Dbus, ConnPath}
use killjoy.Generated.Systemd.Kinds.{byte, u32, string, array, struct, ◌⊗◌}
use killjoy.Generated.Systemd.Typed.{Typed, Line, ask, Asks, Does, Served, served, unnamed, Obtains}

-- The part of the trait, of an implementation with a state.
pub record Methods (B : Dbus) (T : Typed B) (S : Type 0) : Type 0 where
  pub set_exit_code : Does B T S (byte ∷ []) []
  pub lookup_dynamic_user_by_name : Does B T S (string ∷ []) (u32 ∷ [])
  pub lookup_dynamic_user_by_uid : Does B T S (u32 ∷ []) (string ∷ [])
  pub get_dynamic_users : Does B T S [] (array (struct (u32 ⊗ string)) ∷ [])

module _ (B : Dbus) (T : Typed B) (N : Line B T) where
  unfoldable pub set_exit_code : Asks B T (byte ∷ []) []
  unfolding ask
  set_exit_code = ask B T N "SetExitCode" (byte ∷ []) []

  unfoldable pub lookup_dynamic_user_by_name : Asks B T (string ∷ []) (u32 ∷ [])
  unfolding ask
  lookup_dynamic_user_by_name = ask B T N "LookupDynamicUserByName" (string ∷ []) (u32 ∷ [])

  unfoldable pub lookup_dynamic_user_by_uid : Asks B T (u32 ∷ []) (string ∷ [])
  unfolding ask
  lookup_dynamic_user_by_uid = ask B T N "LookupDynamicUserByUID" (u32 ∷ []) (string ∷ [])

  unfoldable pub get_dynamic_users : Asks B T [] (array (struct (u32 ⊗ string)) ∷ [])
  unfolding ask
  get_dynamic_users = ask B T N "GetDynamicUsers" [] (array (struct (u32 ⊗ string)) ∷ [])

module _ (B : Dbus) (T : Typed B) where
  -- The part of the server.
  unfoldable pub server : {S : Type 0} → Methods B T S → List (Served B T S)
  server d =
      served B T "SetExitCode" (byte ∷ []) [] d.set_exit_code (unnamed ("y" ∷ [])) (unnamed [])
      ∷ served B T "LookupDynamicUserByName" (string ∷ []) (u32 ∷ []) d.lookup_dynamic_user_by_name
          (unnamed ("s" ∷ [])) (unnamed ("u" ∷ []))
      ∷ served B T "LookupDynamicUserByUID" (u32 ∷ []) (string ∷ []) d.lookup_dynamic_user_by_uid
          (unnamed ("u" ∷ [])) (unnamed ("s" ∷ []))
      ∷ served B T "GetDynamicUsers" [] (array (struct (u32 ⊗ string)) ∷ []) d.get_dynamic_users
          (unnamed []) (unnamed ("a(us)" ∷ []))
      ∷ []

module _ (B : Dbus) (T : Typed B) (N : Line B T) where
  -- Each client method obtains what the implementation's method of its name gives.
  abbrev pub Agrees : {S : Type 0} → Methods B T S → ConnPath → S → Type 0
  Agrees d c s =
      Obtains B T (byte ∷ []) [] (set_exit_code B T N) d.set_exit_code c s
      × Obtains B T (string ∷ []) (u32 ∷ []) (lookup_dynamic_user_by_name B T N)
          d.lookup_dynamic_user_by_name c s
      × Obtains B T (u32 ∷ []) (string ∷ []) (lookup_dynamic_user_by_uid B T N)
          d.lookup_dynamic_user_by_uid c s
      × Obtains B T [] (array (struct (u32 ⊗ string)) ∷ []) (get_dynamic_users B T N)
          d.get_dynamic_users c s
