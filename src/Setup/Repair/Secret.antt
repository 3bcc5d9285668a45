-- ===== src/Setup/Repair/Secret.antt =====
-- What becomes of the file with the private key.
use awgsocks.Base.{
  ◌≡◌, equal_self, refl, Option-cases, Bool-cases, sym, subst, inl, inr, true, false, not, List, [],
  ◌∷◌, Option, none, some, codes, ok, equal, All, if-case,
}
use awgsocks.Strings.{Text}
use awgsocks.Config.App.{App}
use awgsocks.Setup.{
  Access, data_dir, log_dir, secret, readable, program_dir, program, admins_only, protects, Machine,
  Answers, Outcome, perform, next, join, apply, access_of, next-all, performed,
}
use awgsocks.Setup.Repair.{
  Disk, protect_if, protect_existing, protect_config, protect_each, protect_programs, repair_all,
  repair_permissions,
}

module _ (w : Disk) (answers : Answers) where
  -- The file stays readable only for SYSTEM, the administrators and the service.
  abbrev IsSecret : Text → Machine → Type 0
  IsSecret conf m = access_of conf m.access ≡ some secret

  perform-IsSecret :
      (conf : Text) (kind : Access) (path : Text) (m : Machine)
      → equal path conf ≡ false
      → IsSecret conf m
      → IsSecret conf (perform answers (protects kind path) m).1
  unfolding perform performed apply
  perform-IsSecret conf kind path m other h = elim (Option-cases (answers (protects kind path))) [
    | inl e ↦ rw e (rw other h)
    | inr (x, e) ↦ rw e h
  ]

  protect_existing-IsSecret :
      (conf : Text) (kind : Access) (path : Text) (m : Machine)
      → equal path conf ≡ false
      → IsSecret conf m
      → IsSecret conf (protect_existing w answers kind path m).1
  unfolding protect_existing protect_if
  protect_existing-IsSecret conf kind path m other h = elim (Bool-cases (w.exists path)) [
    | inl e ↦ rw e (perform-IsSecret conf kind path m other h)
    | inr e ↦ rw e h
  ]

  protect_each-IsSecret :
      (conf dir : Text) (names : List Text) (m : Machine)
      → All (λ name. equal (join dir name) conf ≡ false) names
      → IsSecret conf m
      → IsSecret conf (protect_each w answers dir names m).1
  unfolding protect_each
  protect_each-IsSecret conf dir [] m others h = h
  protect_each-IsSecret conf dir (name ∷ names) m others h =
      let now = perform-IsSecret conf program (join dir name) m others.0 h in
      next-all (λ o. IsSecret conf o.1) (perform answers (protects program (join dir name)) m) _
        (λ e x. now) (λ a x. protect_each-IsSecret conf dir names _ others.1 now)

  -- The program directory and its files are other paths than this one.
  abbrev pub IsOutside : Text → Option (Text × List Text) → Type 0
  IsOutside conf none = Unit
  IsOutside conf (some (dir, names)) =
      (equal dir conf ≡ false) × All (λ name. equal (join dir name) conf ≡ false) names

  protect_programs-IsSecret :
      (conf : Text) (o : Option (Text × List Text)) (m : Machine)
      → IsOutside conf o
      → IsSecret conf m
      → IsSecret conf (protect_programs w answers o m).1
  unfolding protect_programs
  protect_programs-IsSecret conf none m others h = h
  protect_programs-IsSecret conf (some (dir, names)) m others h =
      let now = perform-IsSecret conf program_dir dir m others.0 h in
      next-all (λ o. IsSecret conf o.1) (perform answers (protects program_dir dir) m) _
        (λ e x. now) (λ a x. protect_each-IsSecret conf dir names _ others.1 now)

  -- The step that makes the file a secret either fails or has done so.
  protect_config-IsSecret :
      (a : App) (m : Machine)
      → equal a.config_path [] ≡ false
      → w.exists a.config_path ≡ true
      → (protect_config w answers (some a) m).0 ≡ ok tt
      → IsSecret a.config_path (protect_config w answers (some a) m).1
  unfolding protect_config protect_existing protect_if perform performed apply
  protect_config-IsSecret a m named there = rw named (
      rw there (elim (Option-cases (answers (protects secret a.config_path))) [
        | inl e ↦ rw e (λ x. rw (equal_self a.config_path) refl)
        | inr (x, e) ↦ rw e (λ y. cc y)
      ]))

  -- What is left to do behind that step.
  abbrev after_config : Machine → Outcome (Unit {0})
  after_config m3 =
      next (protect_existing w answers admins_only (join w.root (codes "awgsocks.exe")) m3) (λ u m4.
        next (protect_existing w answers readable (join w.root (codes "config.json")) m4)
          (λ u m5. protect_programs w answers w.programs m5))

  after_config-IsSecret :
      (conf : Text) (m : Machine)
      → equal (join w.root (codes "awgsocks.exe")) conf ≡ false
      → equal (join w.root (codes "config.json")) conf ≡ false
      → IsOutside conf w.programs
      → IsSecret conf m
      → IsSecret conf (after_config m).1
  after_config-IsSecret conf m exe json others h =
      let h1 = protect_existing-IsSecret conf admins_only _ m exe h in
      next-all (λ o. IsSecret conf o.1)
        (protect_existing w answers admins_only (join w.root (codes "awgsocks.exe")) m) _
        (λ e x. h1)
        (λ a x.
          let m4 =
            (protect_existing w answers admins_only (join w.root (codes "awgsocks.exe")) m).1 in
          let h2 =
            protect_existing-IsSecret conf readable (join w.root (codes "config.json")) m4 json
              h1 in
          next-all (λ o. IsSecret conf o.1)
            (protect_existing w answers readable (join w.root (codes "config.json")) m4) _
            (λ e y. h2) (λ b y. protect_programs-IsSecret conf w.programs _ others h2))

  -- If it succeeds.
  abbrev SecretIfOk : Text → Outcome (Unit {0}) → Type 0
  SecretIfOk conf o = o.0 ≡ ok tt → IsSecret conf o.1

  repair_all-SecretIfOk :
      (a : App) (m : Machine)
      → w.app ≡ some a
      → equal a.config_path [] ≡ false
      → w.exists a.config_path ≡ true
      → equal (join w.root (codes "awgsocks.exe")) a.config_path ≡ false
      → equal (join w.root (codes "config.json")) a.config_path ≡ false
      → IsOutside a.config_path w.programs
      → SecretIfOk a.config_path (repair_all w answers m)
  unfolding repair_all
  repair_all-SecretIfOk a m e named there exe json others =
      next-all (SecretIfOk a.config_path) (perform answers (protects data_dir w.root) m) _
        (λ x y z. cc z)
        (λ u x.
          let m1 = (perform answers (protects data_dir w.root) m).1 in
          let logs = protect_existing w answers log_dir (join w.root (codes "logs")) m1 in
          next-all (SecretIfOk a.config_path) logs _ (λ x y z. cc z)
            (λ u x.
              next-all (SecretIfOk a.config_path) (protect_config w answers w.app logs.1) _
                (λ x y z. cc z)
                (λ u done ends.
                  after_config-IsSecret a.config_path (protect_config w answers w.app logs.1).1 exe
                    json others (kept logs.1 done))))
    where
      kept :
          (m : Machine)
          → (protect_config w answers w.app m).0 ≡ ok tt
          → IsSecret a.config_path (protect_config w answers w.app m).1
      kept m done =
          subst
            (λ o.
              (protect_config w answers o m).0 ≡ ok tt
              → IsSecret a.config_path (protect_config w answers o m).1)
            (sym e) (protect_config-IsSecret a m named there) done

  -- If a repair succeeds, the tunnel configuration that config.json names is a secret at its end, provided
  -- that it exists, is neither config.json nor the binary of an older version, and does not lie in the
  -- program directory.
  pub repair_permissions-keeps_secret :
      (a : App) (m : Machine)
      → w.app ≡ some a
      → equal a.config_path [] ≡ false
      → w.exists a.config_path ≡ true
      → equal (join w.root (codes "awgsocks.exe")) a.config_path ≡ false
      → equal (join w.root (codes "config.json")) a.config_path ≡ false
      → IsOutside a.config_path w.programs
      → (repair_permissions w answers m).0 ≡ ok tt
      → access_of a.config_path (repair_permissions w answers m).1.access ≡ some secret
  unfolding repair_permissions
  repair_permissions-keeps_secret a m e named there exe json others =
      if-case (SecretIfOk a.config_path) (not w.elevated) _ _ (λ x y. cc y)
        (λ x.
          if-case (SecretIfOk a.config_path) (not (w.exists w.root)) _ _ (λ y z. cc z)
            (λ y. repair_all-SecretIfOk a m e named there exe json others))
