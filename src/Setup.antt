-- ===== src/Setup.antt =====
-- internal/service/control_windows.go: installing, repairing and removing the service. The machine is what
-- the calls of Windows change, and a call changes it only if it works; whether it works, and what is
-- found, is an argument. What is printed is left out.
pub mod Control
pub mod Install
pub mod Repair
pub mod Uninstall
use awgsocks.Base.{
  ℕ, suc, zero, Bool, true, false, not, List, [], ◌∷◌, ◌++◌, Option, none, some, codes, Result, ok,
  err, if◌then◌else◌, Bytes, equal, ◌≡◌, refl, sym, subst, Option-cases, inl, inr,
}
use awgsocks.Strings.{Text}
use awgsocks.Config.App.{App, AppError}

-- What a path was given: the calls of internal/winsys that set its access rights.
pub data Access : Type 0 where
  data_dir log_dir secret readable program_dir program admins_only : Access

-- `svc.State`.
pub data State : Type 0 where
  stopped start_pending stop_pending running continue_pending pause_pending paused : State

-- The calls that change something.
pub data Action : Type 0 where
  protects : Access → Text → Action
  copies : Text → Text → Action
  saves : Text → App → Action
  deletes : Text → Action
  deletes_all : Text → Action
  creates : Text → Action
  restricts : Action
  unregisters : Action
  recovers : Action
  starts : Action
  stops : Action

-- The service as it is registered.
pub record Registered : Type 0 where
  pub path : Text
  pub restricted : Bool

-- What was done, newest first, and the service.
pub record Machine : Type 0 where
  pub access : List (Text × Access)
  pub written : List (Text × Option App)
  pub deleted : List Text
  pub service : Option Registered

with_restricted : Option Registered → Option Registered
with_restricted none = none
with_restricted (some s) = some (record s { restricted = true })

unfoldable pub apply : Action → Machine → Machine
unfolding with_restricted
apply (protects kind path) m = record m { access = (path, kind) ∷ m.access }
apply (copies src dst) m = record m { written = (dst, none) ∷ m.written }
apply (saves path app) m = record m { written = (path, some app) ∷ m.written }
apply (deletes path) m = record m { deleted = path ∷ m.deleted }
apply (deletes_all path) m = record m { deleted = path ∷ m.deleted }
apply (creates path) m = record m { service = some (record { path = path; restricted = false }) }
apply restricts m = record m { service = with_restricted m.service }
apply unregisters m = record m { service = none }
apply recovers m = m
apply starts m = m
apply stops m = m

pub data SetupError : Type 0 where
  failed : Action → Text → SetupError
  not_elevated no_config_path bad_path bad_config no_scm already_installed no_program_dir
        no_executable not_found no_state purge_keeps no_data_dir :
      SetupError
  bad_app : AppError → SetupError
  not_reached : State → SetupError

-- What a call answers: `none`, or the text of its error.
abbrev pub Answers : Type 0
Answers = Action → Option Text

abbrev pub Outcome : Type 0 → Type 0
Outcome A = Result SetupError A × Machine

unfoldable pub performed : Option Text → Action → Machine → Outcome (Unit {0})
performed none a m = (ok tt, apply a m)
performed (some e) a m = (err (failed a e), m)

-- One call.
unfoldable pub perform : Answers → Action → Machine → Outcome (Unit {0})
unfolding performed
perform answers a m = performed (answers a) a m

-- `if err != nil { return err }`.
unfoldable pub next : {A B : Type 0} → Outcome A → (A → Machine → Outcome B) → Outcome B
next (err e, m) k = (err e, m)
next (ok a, m) k = k a m

-- A call whose error is only printed.
unfoldable pub attempt : Answers → Action → Machine → Machine
attempt answers a m = (perform answers a m).1

-- The last rights that a path was given.
abbrev pub access_of : Text → List (Text × Access) → Option Access
access_of path [] = none
access_of path ((p, kind) ∷ rest) = if equal p path then some kind else access_of path rest

-- `filepath.Join` of a clean directory and a name.
abbrev pub join : Text → Text → Text
join dir name = dir ++ (92 ∷ name)

-- What holds at the end of a step and of what follows it.
pub next-all {ℓ} :
    {A B : Type 0} (Q : Outcome B → Type ℓ) (o : Outcome A) (k : A → Machine → Outcome B)
    → ((e : SetupError) → o.0 ≡ err e → Q (err e, o.1))
    → ((a : A) → o.0 ≡ ok a → Q (k a o.1))
    → Q (next o k)
unfolding next
next-all Q (err e, m) k f g = f e refl
next-all Q (ok a, m) k f g = g a refl

pub perform-all {ℓ} :
    {B : Type 0} (Q : Outcome B → Type ℓ) (answers : Answers) (a : Action) (m : Machine)
    (k : Unit {0} → Machine → Outcome B)
    → ((e : Text) → answers a ≡ some e → Q (err (failed a e), m))
    → (answers a ≡ none → Q (k tt (apply a m)))
    → Q (next (perform answers a m) k)
unfolding next perform performed
perform-all Q answers a m k f g = elim (Option-cases (answers a)) [
  | inl works ↦ subst (λ o. Q (next (performed o a m) k)) (sym works) (g works)
  | inr (e, fails) ↦ subst (λ o. Q (next (performed o a m) k)) (sym fails) (f e fails)
]

pub attempt-all {ℓ} :
    (Q : Machine → Type ℓ) (answers : Answers) (a : Action) (m : Machine)
    → Q m
    → Q (apply a m)
    → Q (attempt answers a m)
unfolding attempt perform performed
attempt-all Q answers a m f g = elim (Option-cases (answers a)) [
  | inl works ↦ subst (λ o. Q (performed o a m).1) (sym works) g
  | inr (e, fails) ↦ subst (λ o. Q (performed o a m).1) (sym fails) f
]
