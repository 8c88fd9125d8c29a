-- ===== src/Settings/Load.antt =====
-- src/settings.rs: finding and reading the settings file. The XDG directories, the file system and
-- the JSON reader are parameters.
use killjoy.Base.{String, Option, none, some, ◌≡◌, ◌<>◌}
use killjoy.Error.{Error, Result, ok, ExternError, ExternResult, map_err, ok_or, ◌>>=◌, >>=-eq-ok}
use killjoy.Dbus.{Dbus}
use killjoy.Settings.Regex.{RegexCrate}
use killjoy.Settings.Types.{Settings}
use killjoy.Settings.Decode.{SerdeSettings, decode_settings}
use killjoy.Settings.Sound.{IsSound, decode_settings-IsSound}

pub record Files : Type 1 where
  -- `BaseDirectories::with_prefix` and `find_config_file` of the xdg crate
  pub Directories : Type 0
  pub with_prefix : String → ExternResult Directories
  pub find_config_file : Directories → String → Option String
  -- `File::open`, with the `BufReader` around it
  pub Reader : Type 0
  pub open_file : String → ExternResult Reader
  -- `serde_json::from_reader`
  pub from_reader : Reader → ExternResult SerdeSettings

module _ (F : Files) where
  open F use {Directories, with_prefix, find_config_file, open_file}

  unfoldable pub get_load_path : Result Error String
  get_load_path = do
    let prefix : String = "killjoy"
    let suffix : String = "settings.json"
    directories ←
        map_err {D = ExternError} (λ _. Error.settings_file_not_found (prefix <> "/" <> suffix))
          (with_prefix prefix)
    ok_or (Error.settings_file_not_found (prefix <> "/" <> suffix))
        (find_config_file directories suffix)

module _ (F : Files) (B : Dbus) (R : RegexCrate) where
  open F use {Reader, open_file, from_reader}

  -- `Settings::new`
  unfoldable pub new : Reader → Result Error (Settings R)
  new reader = do
    serde_settings ← map_err Error.settings_file_deserialization_failed (from_reader reader)
    decode_settings B R serde_settings

  unfoldable pub path_to_load : Option String → Result Error String
  path_to_load none = get_load_path F
  path_to_load (some path) = ok path

  unfoldable pub load : Option String → Result Error (Settings R)
  unfolding path_to_load get_load_path new
  load path_opt = do
    path ← path_to_load path_opt
    handle ← map_err Error.settings_file_not_readable (open_file path)
    new handle

  -- Settings that were loaded from a file are sound.
  pub load-IsSound :
      (path_opt : Option String) (settings : Settings R)
      → load path_opt ≡ ok settings
      → IsSound B R settings
  unfolding load
  load-IsSound path_opt settings h =
      let (path, e, h') =
        >>=-eq-ok (path_to_load path_opt)
          (λ path. map_err Error.settings_file_not_readable (open_file path) >>= new) h in
      let (handle, e', h'') =
        >>=-eq-ok (map_err Error.settings_file_not_readable (open_file path)) new h' in
      let (value, e'', h''') =
        >>=-eq-ok (map_err Error.settings_file_deserialization_failed (from_reader handle))
          (decode_settings B R) h'' in
      decode_settings-IsSound B R value settings h'''
