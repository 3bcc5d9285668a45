-- ===== src/Setup/Install/Guarded.antt =====
-- What `Install` leaves registered.
use awgsocks.Base.{
  Bool, ◌≡◌, refl, sym, subst, inl, inr, true, false, not, [], Option, none, some, codes, Result,
  ok, err, if-case, Option-cases, equal, equal_self,
}
use awgsocks.Strings.{Text, trim_space}
use awgsocks.Config.App.{App}
use awgsocks.Setup.{
  data_dir, log_dir, secret, readable, program_dir, program, protects, copies, saves, deletes,
  creates, restricts, unregisters, recovers, starts, Registered, Machine, SetupError, Answers,
  Outcome, perform, performed, attempt, join, apply, access_of, next-all, perform-all, attempt-all,
}
use awgsocks.Setup.Install.{
  InstallOptions, Site, app_config_path, logs_path, legacy_path, tunnel_config_path, install_app,
  service_path, install_program, remove_legacy_binary, start_if_wanted, restrict_privileges,
  register, put_program, put_settings, destination, put_config, set_up, checked_path, set_up_in,
  install,
}
use awgsocks.Setup.Install.Program.{Has, IsSecured, IsClear, install_program-SecuredIfOk}

module _ (w : Site) (answers : Answers) where
  -- The service has restricted privileges, and is run from the secured program.
  abbrev pub IsSafe : Text → Text → Registered → Machine → Type 0
  IsSafe dest dir s m =
      (s.restricted ≡ true)
      × (s.path ≡ service_path w answers dir)
      × (access_of (service_path w answers dir) m.access ≡ some program)
      × (access_of dir m.access ≡ some program_dir)
      × (access_of dest m.access ≡ some secret)

  abbrev succeeds : Result SetupError (Unit {0}) → Bool
  succeeds (err e) = false
  succeeds (ok u) = true

  -- Behind a success there is a service.
  abbrev pub GuardedAfter : Text → Text → Bool → Option Registered → Machine → Type 0
  GuardedAfter dest dir false none m = Unit
  GuardedAfter dest dir true none m = ⊥
  GuardedAfter dest dir true (some s) m = IsSafe dest dir s m
  GuardedAfter dest dir false (some s) m = IsSafe dest dir s m

  abbrev pub IsGuarded : Text → Text → Outcome (Unit {0}) → Type 0
  IsGuarded dest dir o = GuardedAfter dest dir (succeeds o.0) o.1.service o.1

  no_service :
      (dest dir : Text) (m : Machine) → m.service ≡ none → GuardedAfter dest dir false m.service m
  no_service dest dir m e = subst (λ o. GuardedAfter dest dir false o m) (sym e) tt

  -- With the service there, it does not matter what is returned.
  abbrev HasSafe : Text → Text → Machine → Type 0
  HasSafe dest dir m = (s : Registered) × (m.service ≡ some s) × IsSafe dest dir s m

  safe_service :
      (dest dir : Text) (b : Bool) (m : Machine)
      → HasSafe dest dir m
      → GuardedAfter dest dir b m.service m
  safe_service dest dir true m (s, e, h) = subst (λ o. GuardedAfter dest dir true o m) (sym e) h
  safe_service dest dir false m (s, e, h) = subst (λ o. GuardedAfter dest dir false o m) (sym e) h

  start_if_wanted-all :
      (P : Machine → Type 0) (o : InstallOptions) (m : Machine)
      → P m
      → P (start_if_wanted w answers o m).1
  unfolding start_if_wanted apply
  start_if_wanted-all P o m h =
      if-case (λ (r : Outcome (Unit {0})). P r.1) o.start_service _ _
        (λ e.
          perform-all (λ (r : Outcome (Unit {0})). P r.1) answers starts m _ (λ x y. h) (λ y. h))
        (λ e. h)

  register-IsGuarded :
      (dest dir : Text) (o : InstallOptions) (m : Machine)
      → answers unregisters ≡ none
      → IsSecured w answers dest dir m
      → IsGuarded dest dir (register w answers o dir m)
  unfolding register restrict_privileges
  register-IsGuarded dest dir o m works h =
      let path = service_path w answers dir in
      let m1 = apply (creates path) m in
      let m2 = attempt answers recovers (performed none restricts m1).1 in
      let safe : (s : Registered) × IsSafe dest dir s m =
        (record { path = path; restricted = true }, (refl, refl, h.1, h.0.2, h.0.1)) in
      let recovered : HasSafe dest dir m2 =
        unfold performed apply in
        attempt-all (HasSafe dest dir) answers recovers (apply restricts m1)
          (record { path = path; restricted = true }, refl, safe.1)
          (record { path = path; restricted = true }, refl, safe.1) in
      let gone : (attempt answers unregisters m1).service ≡ none =
        unfold attempt perform performed apply in
        subst (λ r. (performed r unregisters m1).1.service ≡ none) (sym works) refl in
      let started = start_if_wanted w answers o m2 in
      perform-all (IsGuarded dest dir) answers (creates path) m _
        (λ x y. no_service dest dir m h.0.0)
        (λ y. elim (Option-cases (answers restricts)) [
          | inl e ↦
              subst (λ r. IsGuarded dest dir (restrict_privileges w answers o r m1)) (sym e)
                (safe_service dest dir (succeeds started.0) started.1
                  (start_if_wanted-all (HasSafe dest dir) o m2 recovered))
          | inr (x, e) ↦
              subst (λ r. IsGuarded dest dir (restrict_privileges w answers o r m1)) (sym e)
                (no_service dest dir (attempt answers unregisters m1) gone)
        ])

  remove_legacy_binary-IsSecured :
      (dest dir : Text) (m : Machine)
      → IsSecured w answers dest dir m
      → IsSecured w answers dest dir (remove_legacy_binary w answers m)
  unfolding remove_legacy_binary apply
  remove_legacy_binary-IsSecured dest dir m h =
      if-case (IsSecured w answers dest dir) (w.exists (legacy_path w answers)) _ _
        (λ e.
          attempt-all (IsSecured w answers dest dir) answers (deletes (legacy_path w answers)) m h
            h)
        (λ e. h)

  put_program-IsGuarded :
      (dest dir : Text) (o : InstallOptions) (exe : Option Text) (m : Machine)
      → answers unregisters ≡ none
      → w.executable ≡ exe
      → IsClear w answers dest dir o exe
      → m.service ≡ none
      → Has w answers dest secret m
      → IsGuarded dest dir (put_program w answers o dir exe m)
  put_program-IsGuarded dest dir o none m works e clear quiet kept = no_service dest dir m quiet
  put_program-IsGuarded dest dir o (some exe) m works e (other, apart) quiet kept =
      let (still, secured) =
        install_program-SecuredIfOk w answers dest dir exe o.scripts m other apart quiet kept in
      next-all (IsGuarded dest dir) (install_program w answers exe dir o.scripts m) _
        (λ x y. no_service dest dir _ still)
        (λ u y.
          register-IsGuarded dest dir o _ works
            (remove_legacy_binary-IsSecured dest dir _ (secured y)))

  put_settings-IsGuarded :
      (dest dir : Text) (o : InstallOptions) (r : Result SetupError App) (m : Machine)
      → answers unregisters ≡ none
      → IsClear w answers dest dir o w.executable
      → equal (app_config_path w answers) dest ≡ false
      → m.service ≡ none
      → Has w answers dest secret m
      → IsGuarded dest dir (put_settings w answers o dir r m)
  unfolding put_settings
  put_settings-IsGuarded dest dir o (err e) m works clear other quiet kept =
      no_service dest dir m quiet
  put_settings-IsGuarded dest dir o (ok app) m works clear other quiet kept =
      let path = app_config_path w answers in
      perform-all (IsGuarded dest dir) answers (saves path app) m _
        (λ x y. no_service dest dir m quiet)
        (λ y.
          let m1 = apply (saves path app) m in
          let quiet1 : m1.service ≡ none = unfold apply in quiet in
          perform-all (IsGuarded dest dir) answers (protects readable path) m1 _
            (λ x z. no_service dest dir m1 quiet1)
            (λ z.
              put_program-IsGuarded dest dir o w.executable (apply (protects readable path) m1)
                works refl clear (unfold apply in quiet) (unfold apply in rw other kept)))

  put_config-all :
      (P : Machine → Type 0) (o : InstallOptions) (src : Text) (m : Machine)
      → P m
      → P (apply (copies src (tunnel_config_path w answers)) m)
      → P (put_config w answers o src m).1
  unfolding put_config
  put_config-all P o src m h k =
      let Q = λ (r : Outcome (Unit {0})). P r.1 in
      let copied : Q (perform answers (copies src (tunnel_config_path w answers)) m) =
        unfold attempt in attempt-all P answers (copies src (tunnel_config_path w answers)) m h k in
      if-case Q o.in_place _ _ (λ e. h)
        (λ e.
          if-case Q (w.equal_fold src (tunnel_config_path w answers)) _ _ (λ x. h) (λ x. copied))

  set_up-IsGuarded :
      (o : InstallOptions) (src dir : Text) (m : Machine)
      → answers unregisters ≡ none
      → IsClear w answers (destination w answers o src) dir o w.executable
      → equal (app_config_path w answers) (destination w answers o src) ≡ false
      → m.service ≡ none
      → IsGuarded (destination w answers o src) dir (set_up w answers o src dir m)
  unfolding set_up
  set_up-IsGuarded o src dir m works clear other quiet =
      let dest = destination w answers o src in
      let Q = IsGuarded dest dir in
      let m1 = apply (protects data_dir w.root) m in
      let quiet1 : m1.service ≡ none = unfold apply in quiet in
      let m2 = apply (protects log_dir (logs_path w answers)) m1 in
      let quiet2 : m2.service ≡ none = unfold apply in quiet in
      let m3 = (put_config w answers o src m2).1 in
      let quiet3 : m3.service ≡ none =
        put_config-all (λ r. r.service ≡ none) o src m2 quiet2 (unfold apply in quiet) in
      perform-all Q answers (protects data_dir w.root) m _ (λ x y. no_service dest dir m quiet)
        (λ y.
          perform-all Q answers (protects log_dir (logs_path w answers)) m1 _
            (λ x z. no_service dest dir m1 quiet1)
            (λ z.
              next-all Q (put_config w answers o src m2) _ (λ x v. no_service dest dir m3 quiet3)
                (λ u v.
                  perform-all Q answers (protects secret dest) m3 _
                    (λ x t. no_service dest dir m3 quiet3)
                    (λ t.
                      put_settings-IsGuarded dest dir o (install_app w answers o dest)
                        (apply (protects secret dest) m3) works clear other (unfold apply in quiet3)
                        (unfold apply in rw (equal_self dest) refl)))))

  -- Where there was no service, if the calls that delete one work: an `Install` that succeeds leaves a
  -- service, and whatever fails on the way, a service that it leaves has restricted privileges and runs the
  -- copy in the program directory; the copy, the directory and the tunnel configuration have been given the
  -- rights of a program, of its directory and of a secret. The configuration is neither config.json, nor
  -- the program directory, nor one of the files that are copied there.
  pub install-IsGuarded :
      (o : InstallOptions) (src files : Text) (m : Machine)
      → w.abs o.config_path ≡ some src
      → w.program_files ≡ some files
      → answers unregisters ≡ none
      → IsClear w answers
          (destination w answers o src)
          (join files (codes "AWGSocks"))
          o
          w.executable
      → equal (app_config_path w answers) (destination w answers o src) ≡ false
      → m.service ≡ none
      → let r = install w answers o m in
        IsGuarded (destination w answers o src) (join files (codes "AWGSocks")) r
  unfolding install checked_path set_up_in
  install-IsGuarded o src files m named found works clear other quiet =
      let dest = destination w answers o src in
      let dir = join files (codes "AWGSocks") in
      let Q = IsGuarded dest dir in
      let none_yet = no_service dest dir m quiet in
      if-case Q (not w.elevated) _ _ (λ e. none_yet)
        (λ e.
          if-case Q (equal (trim_space o.config_path) []) _ _ (λ e. none_yet)
            (λ e.
              subst (λ a. Q (checked_path w answers o a m)) (sym named)
                (if-case Q (not (w.loads src)) _ _ (λ e. none_yet)
                  (λ e.
                    if-case Q (not w.connects) _ _ (λ e. none_yet)
                      (λ e.
                        if-case Q w.installed _ _ (λ e. none_yet)
                          (λ e.
                            subst (λ f. Q (set_up_in w answers o src f m)) (sym found)
                              (set_up-IsGuarded o src dir m works clear other quiet)))))))
