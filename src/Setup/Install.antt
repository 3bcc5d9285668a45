-- ===== src/Setup/Install.antt =====
-- internal/service/control_windows.go: `Install` with `installApp`, `installProgram`, `copyWhenReleased`
-- and `removeLegacyBinary`. The data directory, the folders of Windows and what the file system holds are
-- arguments, as are `filepath.Abs`, `filepath.Dir`, `filepath.Clean` and `strings.EqualFold`.
pub mod Program
pub mod Guarded
use awgsocks.Base.{
  ℕ, suc, zero, Bool, true, false, not, ◌&&◌, List, [], ◌∷◌, ◌++◌, Option, none, some, codes,
  Result, ok, err, ◌>>=◌, if◌then◌else◌, equal,
}
use awgsocks.Strings.{Text, trim_space}
use awgsocks.Config.App.{App, AppError, Platform, default_app, load_app, normalize}
use awgsocks.Setup.{
  Access, data_dir, log_dir, secret, readable, program_dir, program, State, running, Action,
  protects, copies, saves, deletes, creates, restricts, unregisters, recovers, starts, Machine,
  SetupError, not_elevated, no_config_path, bad_path, bad_config, no_scm, already_installed,
  no_program_dir, no_executable, bad_app, failed, Answers, Outcome, perform, performed, next,
  attempt, join,
}
use awgsocks.Setup.Control.{wait_for_state}

-- `InstallOptions`.
pub record InstallOptions : Type 0 where
  pub config_path : Text
  pub in_place : Bool
  pub socks5_listen : Text
  pub log_level : Text
  pub auto_start_tunnel : Bool
  pub start_service : Bool
  pub scripts : List Text

-- What `Install` finds. `stored` is what `LoadApp` reads from config.json; `tries` answers the copy of a
-- file when that many tries are left; `polls` answers `waitForState`.
pub record Site : Type 0 where
  pub elevated : Bool
  pub root : Text
  pub abs : Text → Option Text
  pub loads : Text → Bool
  pub connects : Bool
  pub installed : Bool
  pub program_files : Option Text
  pub exists : Text → Bool
  pub stored : Option (Option App)
  pub platform : Platform
  pub executable : Option Text
  pub dir : Text → Text
  pub clean : Text → Text
  pub equal_fold : Text → Text → Bool
  pub tries : Text → Text → ℕ → Option Text
  pub polls : List (Option State)

module _ (w : Site) (answers : Answers) where
  -- `TunnelConfigPath`, `AppConfigPath`, `LogDir` and the binary of an older version.
  abbrev pub tunnel_config_path : Text
  tunnel_config_path = join w.root (codes "client.conf")

  abbrev pub app_config_path : Text
  app_config_path = join w.root (codes "config.json")

  abbrev pub logs_path : Text
  logs_path = join w.root (codes "logs")

  abbrev pub legacy_path : Text
  legacy_path = join w.root (codes "awgsocks.exe")

  -- The settings that are there, or the defaults.
  abbrev pub readable_settings : Option (Result AppError App) → App
  readable_settings none = default_app tunnel_config_path
  readable_settings (some (err e)) = default_app tunnel_config_path
  readable_settings (some (ok a)) = a

  abbrev pub settings_before : App
  settings_before =
      if w.exists app_config_path
      then readable_settings (load_app w.platform w.stored)
      else default_app tunnel_config_path

  -- The options on top of the settings.
  abbrev pub with_options : InstallOptions → Text → App → App
  with_options o dest a = record a {
    config_path = dest;
    auto_start = a.auto_start && o.auto_start_tunnel;
    socks5_listen = if equal o.socks5_listen [] then a.socks5_listen else o.socks5_listen;
    log_level = if equal o.log_level [] then a.log_level else o.log_level;
  }

  abbrev pub as_setup : Result AppError App → Result SetupError App
  as_setup (err e) = err (bad_app e)
  as_setup (ok a) = ok a

  -- `installApp`.
  unfoldable pub install_app : InstallOptions → Text → Result SetupError App
  install_app o dest = as_setup (normalize w.platform (with_options o dest settings_before))

  -- `copyWhenReleased`: the error of the last of the tries, or none.
  unfoldable pub tries_over : (ℕ → Option Text) → ℕ → Option Text → Option Text
  tries_over answer zero last = last
  tries_over answer (suc left) last = elim (answer left) [
    | none ↦ none
    | some e ↦ tries_over answer left (some e)
  ]

  unfoldable pub copy_when_released : Text → Text → Machine → Outcome (Unit {0})
  copy_when_released src dst m = performed (tries_over (w.tries src dst) 20 none) (copies src dst) m

  -- One of the jobs of `installProgram`.
  unfoldable pub run_job : Text × Text → Machine → Outcome (Unit {0})
  run_job (src, dst) m =
      next
        (if w.equal_fold (w.clean src) (w.clean dst)
          then (ok tt, m)
          else copy_when_released src dst m)
        (λ u m'. perform answers (protects program dst) m')

  unfoldable pub run_jobs : List (Text × Text) → Machine → Outcome (Unit {0})
  run_jobs [] m = (ok tt, m)
  run_jobs (job ∷ jobs) m = next (run_job job m) (λ u m'. run_jobs jobs m')

  -- The scripts that lie beside the executable.
  unfoldable pub script_jobs : Text → Text → List Text → List (Text × Text)
  script_jobs from to [] = []
  script_jobs from to (name ∷ names) =
      if w.exists (join from name)
      then (join from name, join to name) ∷ script_jobs from to names
      else script_jobs from to names

  abbrev pub service_path : Text → Text
  service_path dir = join dir (codes "awgsocks.exe")

  -- `installProgram`.
  unfoldable pub install_program : Text → Text → List Text → Machine → Outcome (Unit {0})
  install_program exe dir scripts m =
      next (perform answers (protects program_dir dir) m)
        (λ u m'. run_jobs ((exe, service_path dir) ∷ script_jobs (w.dir exe) dir scripts) m')

  -- `removeLegacyBinary`.
  unfoldable pub remove_legacy_binary : Machine → Machine
  remove_legacy_binary m =
      if w.exists legacy_path then attempt answers (deletes legacy_path) m else m

  -- What follows the service's creation. A service whose privileges cannot be restricted is deleted again.
  unfoldable pub start_if_wanted : InstallOptions → Machine → Outcome (Unit {0})
  start_if_wanted o m =
      if o.start_service
      then next (perform answers starts m) (λ u m'. (wait_for_state running w.polls, m'))
      else (ok tt, m)

  unfoldable pub restrict_privileges : InstallOptions → Option Text → Machine → Outcome (Unit {0})
  restrict_privileges o (some e) m = (err (failed restricts e), attempt answers unregisters m)
  restrict_privileges o none m =
      start_if_wanted o (attempt answers recovers (performed none restricts m).1)

  unfoldable pub register : InstallOptions → Text → Machine → Outcome (Unit {0})
  register o dir m =
      next (perform answers (creates (service_path dir)) m)
        (λ u m'. restrict_privileges o (answers restricts) m')

  abbrev pub put_program : InstallOptions → Text → Option Text → Machine → Outcome (Unit {0})
  put_program o dir none m = (err no_executable, m)
  put_program o dir (some exe) m =
      next (install_program exe dir o.scripts m) (λ u m'. register o dir (remove_legacy_binary m'))

  -- The settings, written and opened to every user for reading.
  unfoldable pub put_settings :
      InstallOptions → Text → Result SetupError App → Machine → Outcome (Unit {0})
  put_settings o dir (err e) m = (err e, m)
  put_settings o dir (ok app) m = next (perform answers (saves app_config_path app) m) (λ u m1.
      next (perform answers (protects readable app_config_path) m1)
        (λ v m2. put_program o dir w.executable m2))

  -- `destPath`.
  unfoldable pub destination : InstallOptions → Text → Text
  destination o src = if o.in_place then src else tunnel_config_path

  unfoldable pub put_config : InstallOptions → Text → Machine → Outcome (Unit {0})
  put_config o src m =
      if o.in_place
      then (ok tt, m)
      else if w.equal_fold src tunnel_config_path
      then (ok tt, m)
      else perform answers (copies src tunnel_config_path) m

  -- `Install` behind its checks.
  unfoldable pub set_up : InstallOptions → Text → Text → Machine → Outcome (Unit {0})
  set_up o src dir m = next (perform answers (protects data_dir w.root) m) (λ u m1.
      next (perform answers (protects log_dir logs_path) m1) (λ u m2.
        next (put_config o src m2) (λ u m3.
          next (perform answers (protects secret (destination o src)) m3)
            (λ u m4. put_settings o dir (install_app o (destination o src)) m4))))

  -- `programDir`.
  unfoldable pub set_up_in : InstallOptions → Text → Option Text → Machine → Outcome (Unit {0})
  set_up_in o src none m = (err no_program_dir, m)
  set_up_in o src (some files) m = set_up o src (join files (codes "AWGSocks")) m

  unfoldable pub checked_path : InstallOptions → Option Text → Machine → Outcome (Unit {0})
  checked_path o none m = (err bad_path, m)
  checked_path o (some src) m =
      if not (w.loads src)
      then (err bad_config, m)
      else if not w.connects
      then (err no_scm, m)
      else if w.installed
      then (err already_installed, m)
      else set_up_in o src w.program_files m

  -- `Install`.
  unfoldable pub install : InstallOptions → Machine → Outcome (Unit {0})
  install o m =
      if not w.elevated
      then (err not_elevated, m)
      else if equal (trim_space o.config_path) []
      then (err no_config_path, m)
      else checked_path o (w.abs o.config_path) m
