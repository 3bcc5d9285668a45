-- ===== src/Setup/Control.antt =====
-- internal/service/control_windows.go: waiting for a state, starting, stopping and reading the service.
use awgsocks.Base.{
  ℕ, Bool, false, not, List, [], ◌∷◌, Option, none, some, codes, Result, ok, err, if◌then◌else◌,
  ◌==◌,
}
use awgsocks.Strings.{Text}
use awgsocks.Setup.{
  State, stopped, start_pending, stop_pending, running, continue_pending, pause_pending, paused,
  Action, starts, stops, Machine, SetupError, not_elevated, no_scm, not_found, no_state,
  not_reached, Answers, Outcome, perform, next,
}

abbrev pub state_number : State → ℕ
state_number stopped = 1
state_number start_pending = 2
state_number stop_pending = 3
state_number running = 4
state_number continue_pending = 5
state_number pause_pending = 6
state_number paused = 7

abbrev pub same_state : State → State → Bool
same_state a b = state_number a == state_number b

-- `stateName`.
unfoldable pub state_name : State → Text
state_name stopped = codes "stopped"
state_name start_pending = codes "starting"
state_name stop_pending = codes "stopping"
state_name running = codes "running"
state_name continue_pending = codes "continuing"
state_name pause_pending = codes "pausing"
state_name paused = codes "paused"

-- `waitForState`. The list holds what each `Query` before the deadline answers; `none` is its error.
unfoldable pub wait_for_state : State → List (Option State) → Result SetupError (Unit {0})
wait_for_state want [] = err (not_reached want)
wait_for_state want (none ∷ polls) = err no_state
wait_for_state want (some s ∷ polls) =
    let rest = wait_for_state want polls in if same_state s want then ok tt else rest

-- What a command finds: whether it runs elevated, whether the service control manager answers and the
-- service is there, the first `Query`, and those of `waitForState`.
pub record Found : Type 0 where
  pub elevated : Bool
  pub connects : Bool
  pub present : Bool
  pub first : Option State
  pub polls : List (Option State)

-- `withService`.
unfoldable pub with_service : Found → (Machine → Outcome (Unit {0})) → Machine → Outcome (Unit {0})
with_service f body m =
    if not f.elevated
    then (err not_elevated, m)
    else if not f.connects
    then (err no_scm, m)
    else if not f.present
    then (err not_found, m)
    else body m

unfoldable pub is_in : State → Option State → Bool
is_in want none = false
is_in want (some s) = same_state s want

-- Both commands: nothing if the service is there already, or else the call and the wait.
unfoldable pub bring_to : Answers → Action → State → Found → Machine → Outcome (Unit {0})
bring_to answers a want f m =
    if is_in want f.first
    then (ok tt, m)
    else next (perform answers a m) (λ u m'. (wait_for_state want f.polls, m'))

-- `StartService` and `StopService`.
unfoldable pub start_service : Answers → Found → Machine → Outcome (Unit {0})
start_service answers f m = with_service f (bring_to answers starts running f) m

unfoldable pub stop_service : Answers → Found → Machine → Outcome (Unit {0})
stop_service answers f m = with_service f (bring_to answers stops stopped f) m

-- `RestartService`; each command looks at the service anew.
unfoldable pub restart_service : Answers → Found → Found → Machine → Outcome (Unit {0})
restart_service answers f g m = next (stop_service answers f m) (λ u m'. start_service answers g m')

-- `QueryState`: the errors of the two handles, and the name.
unfoldable pub query_state : Found → Result SetupError Text
query_state f =
    if not f.connects
    then err no_scm
    else if not f.present
    then ok (codes "not installed")
    else elim f.first [ none ↦ err no_state | some s ↦ ok (state_name s) ]
