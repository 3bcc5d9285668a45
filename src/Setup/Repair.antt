-- ===== src/Setup/Repair.antt =====
-- internal/service/control_windows.go: `RepairPermissions`.
pub mod Routing
pub mod Secret
use awgsocks.Base.{
  Bool, true, false, not, List, [], ◌∷◌, ◌++◌, Option, none, some, codes, Result, ok, err,
  if◌then◌else◌, equal,
}
use awgsocks.Strings.{Text}
use awgsocks.Config.App.{App, AppError}
use awgsocks.Setup.{
  Access, data_dir, log_dir, secret, readable, program_dir, program, admins_only, Action, protects,
  Machine, SetupError, not_elevated, no_data_dir, Answers, Outcome, perform, next, join,
}

-- What `RepairPermissions` finds: what exists, what `LoadApp` answers, and the program directory with the
-- files in it, if it can be read.
pub record Disk : Type 0 where
  pub elevated : Bool
  pub root : Text
  pub exists : Text → Bool
  pub app : Option App
  pub programs : Option (Text × List Text)

module _ (w : Disk) (answers : Answers) where
  abbrev pub Repairs : Type 0
  Repairs = Machine → Outcome (Unit {0})

  -- A path that is there is given these rights.
  unfoldable pub protect_if : Access → Text → Bool → Repairs
  protect_if kind path true m = perform answers (protects kind path) m
  protect_if kind path false m = (ok tt, m)

  unfoldable pub protect_existing : Access → Text → Repairs
  protect_existing kind path m = protect_if kind path (w.exists path) m

  -- The tunnel configuration that config.json names.
  unfoldable pub protect_config : Option App → Repairs
  protect_config none m = (ok tt, m)
  protect_config (some a) m =
      if equal a.config_path [] then (ok tt, m) else protect_existing secret a.config_path m

  unfoldable pub protect_each : Text → List Text → Repairs
  protect_each dir [] m = (ok tt, m)
  protect_each dir (name ∷ names) m =
      next (perform answers (protects program (join dir name)) m)
        (λ u m'. protect_each dir names m')

  unfoldable pub protect_programs : Option (Text × List Text) → Repairs
  protect_programs none m = (ok tt, m)
  protect_programs (some (dir, names)) m =
      next (perform answers (protects program_dir dir) m) (λ u m'. protect_each dir names m')

  -- `repairPermissions`.
  unfoldable pub repair_all : Repairs
  repair_all m = next (perform answers (protects data_dir w.root) m) (λ u m1.
      next (protect_existing log_dir (join w.root (codes "logs")) m1) (λ u m2.
        next (protect_config w.app m2) (λ u m3.
          next (protect_existing admins_only (join w.root (codes "awgsocks.exe")) m3) (λ u m4.
            next (protect_existing readable (join w.root (codes "config.json")) m4)
              (λ u m5. protect_programs w.programs m5)))))

  -- `RepairPermissions`.
  unfoldable pub repair_permissions : Repairs
  repair_permissions m =
      if not w.elevated
      then (err not_elevated, m)
      else if not (w.exists w.root)
      then (err no_data_dir, m)
      else repair_all m
