-- ===== src/Setup/Uninstall.antt =====
-- internal/service/control_windows.go: `Uninstall` with `removeInstalledData`.
pub mod Spared
use awgsocks.Base.{
  Bool, true, false, not, ◌&&◌, List, [], ◌∷◌, ◌++◌, Option, none, some, codes, Result, ok, err,
  if◌then◌else◌,
}
use awgsocks.Strings.{Text}
use awgsocks.Setup.{
  State, stopped, Action, deletes, deletes_all, unregisters, stops, Machine, SetupError,
  not_elevated, no_scm, purge_keeps, Answers, Outcome, perform, next, attempt, join,
}
use awgsocks.Setup.Control.{is_in}

-- What `Uninstall` finds. A file that is not there can be deleted, as far as its answer goes.
pub record Remains : Type 0 where
  pub elevated : Bool
  pub connects : Bool
  pub present : Bool
  pub first : Option State
  pub root : Text
  pub exists : Text → Bool

module _ (w : Remains) (answers : Answers) where
  -- `removeInstalledData`; its errors are only printed.
  unfoldable pub remove_installed_data : Bool → Machine → Machine
  remove_installed_data true m = m
  remove_installed_data false m =
      attempt answers (deletes (join w.root (codes "config.json")))
        (attempt answers (deletes_all (join w.root (codes "logs"))) m)

  -- `removeLegacyBinary`.
  unfoldable pub remove_legacy : Machine → Machine
  remove_legacy m =
      if w.exists (join w.root (codes "awgsocks.exe"))
      then attempt answers (deletes (join w.root (codes "awgsocks.exe"))) m
      else m

  -- The end of `Uninstall`: the whole directory, or the directory if the configuration is not there.
  unfoldable pub remove_root : Bool → Machine → Outcome (Unit {0})
  remove_root true m = perform answers (deletes_all w.root) m
  remove_root false m =
      if w.exists (join w.root (codes "client.conf"))
      then (ok tt, m)
      else (ok tt, attempt answers (deletes w.root) m)

  unfoldable pub stop_first : Option State → Machine → Machine
  stop_first none m = m
  stop_first (some s) m = if is_in stopped (some s) then m else attempt answers stops m

  unfoldable pub remove_service : Machine → Outcome (Unit {0})
  remove_service m =
      if w.present then perform answers unregisters (stop_first w.first m) else (ok tt, m)

  -- `Uninstall`.
  unfoldable pub uninstall : Bool → Bool → Machine → Outcome (Unit {0})
  uninstall purge keep_settings m =
      if purge && keep_settings
      then (err purge_keeps, m)
      else if not w.elevated
      then (err not_elevated, m)
      else if not w.connects
      then (err no_scm, m)
      else next (remove_service m)
          (λ u m1. remove_root purge (remove_legacy (remove_installed_data keep_settings m1)))
