-- ===== src/Generated/Systemd/Listing.antt =====
-- The manager's interface: the methods that list units and jobs.
use killjoy.Base.{List, [], ◌∷◌}
use killjoy.Dbus.{Dbus, ConnPath}
use killjoy.Generated.Systemd.Kinds.{string, array, unit_entry, job_entry}
use killjoy.Generated.Systemd.Typed.{Typed, Line, ask, Asks, Does, Served, served, unnamed, Obtains}

-- The part of the trait, of an implementation with a state.
pub record Methods (B : Dbus) (T : Typed B) (S : Type 0) : Type 0 where
  pub list_units : Does B T S [] (array unit_entry ∷ [])
  pub list_units_filtered : Does B T S (array string ∷ []) (array unit_entry ∷ [])
  pub list_units_by_patterns : Does B T S (array string ∷ array string ∷ []) (array unit_entry ∷ [])
  pub list_units_by_names : Does B T S (array string ∷ []) (array unit_entry ∷ [])
  pub list_jobs : Does B T S [] (array job_entry ∷ [])

module _ (B : Dbus) (T : Typed B) (N : Line B T) where
  unfoldable pub list_units_filtered : Asks B T (array string ∷ []) (array unit_entry ∷ [])
  unfolding ask
  list_units_filtered = ask B T N "ListUnitsFiltered" (array string ∷ []) (array unit_entry ∷ [])

  unfoldable pub list_units_by_patterns :
      Asks B T (array string ∷ array string ∷ []) (array unit_entry ∷ [])
  unfolding ask
  list_units_by_patterns =
      ask B T N "ListUnitsByPatterns" (array string ∷ array string ∷ []) (array unit_entry ∷ [])

  unfoldable pub list_units_by_names : Asks B T (array string ∷ []) (array unit_entry ∷ [])
  unfolding ask
  list_units_by_names = ask B T N "ListUnitsByNames" (array string ∷ []) (array unit_entry ∷ [])

  unfoldable pub list_jobs : Asks B T [] (array job_entry ∷ [])
  unfolding ask
  list_jobs = ask B T N "ListJobs" [] (array job_entry ∷ [])

module _ (B : Dbus) (T : Typed B) where
  -- The part of the server.
  unfoldable pub server : {S : Type 0} → Methods B T S → List (Served B T S)
  server d =
      served B T "ListUnits" [] (array unit_entry ∷ []) d.list_units (unnamed [])
        (unnamed ("a(ssssssouso)" ∷ []))
      ∷ served B T "ListUnitsFiltered" (array string ∷ []) (array unit_entry ∷ [])
          d.list_units_filtered (unnamed ("as" ∷ [])) (unnamed ("a(ssssssouso)" ∷ []))
      ∷ served B T "ListUnitsByPatterns" (array string ∷ array string ∷ []) (array unit_entry ∷ [])
          d.list_units_by_patterns (unnamed ("as" ∷ "as" ∷ [])) (unnamed ("a(ssssssouso)" ∷ []))
      ∷ served B T "ListUnitsByNames" (array string ∷ []) (array unit_entry ∷ [])
          d.list_units_by_names (unnamed ("as" ∷ [])) (unnamed ("a(ssssssouso)" ∷ []))
      ∷ served B T "ListJobs" [] (array job_entry ∷ []) d.list_jobs (unnamed [])
          (unnamed ("a(usssoo)" ∷ []))
      ∷ []

module _ (B : Dbus) (T : Typed B) (N : Line B T) where
  -- Each client method obtains what the implementation's method of its name gives.
  abbrev pub Agrees : {S : Type 0} → Methods B T S → ConnPath → S → Type 0
  Agrees d c s =
      Obtains B T (array string ∷ []) (array unit_entry ∷ []) (list_units_filtered B T N)
        d.list_units_filtered c s
      × Obtains B T (array string ∷ array string ∷ []) (array unit_entry ∷ [])
          (list_units_by_patterns B T N) d.list_units_by_patterns c s
      × Obtains B T (array string ∷ []) (array unit_entry ∷ []) (list_units_by_names B T N)
          d.list_units_by_names c s
      × Obtains B T [] (array job_entry ∷ []) (list_jobs B T N) d.list_jobs c s
