-- ===== src/Setup/Repair/Routing.antt =====
-- Which path is given which rights.
use awgsocks.Base.{
  false, ◌≡◌, refl, Option-cases, Bool-cases, inl, inr, not, List, [], ◌∷◌, Option, none, some,
  codes, equal, All, if-case,
}
use awgsocks.Strings.{Text}
use awgsocks.Config.App.{App}
use awgsocks.Setup.{
  Access, data_dir, log_dir, secret, readable, program_dir, program, admins_only, protects, Machine,
  Answers, Outcome, perform, next, join, apply, next-all, performed,
}
use awgsocks.Setup.Repair.{
  Disk, protect_if, protect_existing, protect_config, protect_each, protect_programs, repair_all,
  repair_permissions,
}

-- The path is not that of the tunnel configuration.
abbrev pub IsNoSecret : Option App → Text → Type 0
IsNoSecret none path = Unit
IsNoSecret (some a) path = equal path a.config_path ≡ false

-- No file of the program directory is the tunnel configuration.
abbrev pub IsApart : Option App → Option (Text × List Text) → Type 0
IsApart o none = Unit
IsApart o (some (dir, names)) = All (λ name. IsNoSecret o (join dir name)) names

module _ (w : Disk) (answers : Answers) where
  -- The rights fit the path: only the file that config.json names is a secret, only config.json is opened
  -- for reading, and only the program directory and what lies in it, the secret excepted, for running.
  abbrev pub IsMeant : Text × Access → Type 0
  IsMeant (path, data_dir) = path ≡ w.root
  IsMeant (path, log_dir) = path ≡ join w.root (codes "logs")
  IsMeant (path, secret) = (a : App) × (w.app ≡ some a) × (path ≡ a.config_path)
  IsMeant (path, readable) = path ≡ join w.root (codes "config.json")
  IsMeant (path, program_dir) = (names : List Text) × (w.programs ≡ some (path, names))
  IsMeant (path, program) =
      (dir : Text) × (names : List Text) × (name : Text) × (w.programs ≡ some (dir, names))
      × (path ≡ join dir name)
      × IsNoSecret w.app path
  IsMeant (path, admins_only) = path ≡ join w.root (codes "awgsocks.exe")

  abbrev pub AllMeant : Outcome (Unit {0}) → Type 0
  AllMeant o = All IsMeant o.1.access

  perform-AllMeant :
      (kind : Access) (path : Text) (m : Machine)
      → IsMeant (path, kind)
      → All IsMeant m.access
      → AllMeant (perform answers (protects kind path) m)
  unfolding perform performed apply
  perform-AllMeant kind path m fits h = elim (Option-cases (answers (protects kind path))) [
    | inl e ↦ rw e (fits, h)
    | inr (x, e) ↦ rw e h
  ]

  protect_existing-AllMeant :
      (kind : Access) (path : Text) (m : Machine)
      → IsMeant (path, kind)
      → All IsMeant m.access
      → AllMeant (protect_existing w answers kind path m)
  unfolding protect_existing protect_if
  protect_existing-AllMeant kind path m fits h = elim (Bool-cases (w.exists path)) [
    | inl e ↦ rw e (perform-AllMeant kind path m fits h)
    | inr e ↦ rw e h
  ]

  -- A step and what follows it.
  next-AllMeant :
      (o : Outcome (Unit {0})) (k : Unit {0} → Machine → Outcome (Unit {0}))
      → AllMeant o
      → ((m : Machine) → All IsMeant m.access → AllMeant (k tt m))
      → AllMeant (next o k)
  next-AllMeant o k h f = next-all AllMeant o k (λ e x. h) (λ a x. f o.1 h)

  protect_config-AllMeant :
      (o : Option App) (m : Machine)
      → w.app ≡ o
      → All IsMeant m.access
      → AllMeant (protect_config w answers o m)
  unfolding protect_config
  protect_config-AllMeant none m e h = h
  protect_config-AllMeant (some a) m e h =
      if-case AllMeant (equal a.config_path []) _ _ (λ x. h)
        (λ x. protect_existing-AllMeant secret a.config_path m (a, e, refl) h)

  protect_each-AllMeant :
      (dir : Text) (all names : List Text) (m : Machine)
      → w.programs ≡ some (dir, all)
      → All (λ name. IsNoSecret w.app (join dir name)) names
      → All IsMeant m.access
      → AllMeant (protect_each w answers dir names m)
  unfolding protect_each
  protect_each-AllMeant dir all [] m e apart h = h
  protect_each-AllMeant dir all (name ∷ names) m e apart h =
      next-AllMeant _ _
        (perform-AllMeant program (join dir name) m (dir, all, name, e, refl, apart.0) h)
        (λ m' k. protect_each-AllMeant dir all names m' e apart.1 k)

  protect_programs-AllMeant :
      (o : Option (Text × List Text)) (m : Machine)
      → w.programs ≡ o
      → IsApart w.app o
      → All IsMeant m.access
      → AllMeant (protect_programs w answers o m)
  unfolding protect_programs
  protect_programs-AllMeant none m e apart h = h
  protect_programs-AllMeant (some (dir, names)) m e apart h =
      next-AllMeant _ _ (perform-AllMeant program_dir dir m (names, e) h)
        (λ m' k. protect_each-AllMeant dir names names m' e apart k)

  repair_all-AllMeant :
      (m : Machine)
      → IsApart w.app w.programs
      → All IsMeant m.access
      → AllMeant (repair_all w answers m)
  unfolding repair_all
  repair_all-AllMeant m apart h =
      next-AllMeant _ _ (perform-AllMeant data_dir w.root m refl h) (λ m1 h1.
        next-AllMeant _ _ (protect_existing-AllMeant log_dir _ m1 refl h1) (λ m2 h2.
          next-AllMeant _ _ (protect_config-AllMeant w.app m2 refl h2) (λ m3 h3.
            next-AllMeant _ _ (protect_existing-AllMeant admins_only _ m3 refl h3) (λ m4 h4.
              next-AllMeant _ _ (protect_existing-AllMeant readable _ m4 refl h4)
                (λ m5 h5. protect_programs-AllMeant w.programs m5 refl apart h5)))))

  -- Where no file of the program directory is the tunnel configuration: whatever fails, every path is given
  -- only the rights that are meant for it. Only the file that config.json names is made a secret, only
  -- config.json is opened for reading, and only the program directory and its files for running.
  pub repair_permissions-IsMeant :
      (m : Machine)
      → IsApart w.app w.programs
      → m.access ≡ []
      → All IsMeant (repair_permissions w answers m).1.access
  unfolding repair_permissions
  repair_permissions-IsMeant m apart fresh =
      let none_yet : All IsMeant m.access = rw fresh tt in
      if-case AllMeant (not w.elevated) _ _ (λ x. none_yet)
        (λ x.
          if-case AllMeant (not (w.exists w.root)) _ _ (λ y. none_yet)
            (λ y. repair_all-AllMeant m apart none_yet))
