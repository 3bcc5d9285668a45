-- ===== src/Setup/Install/Program.antt =====
-- Putting the program in place: what copying and securing its files keeps.
use awgsocks.Base.{
  ◌≡◌, refl, sym, subst, ap, inl, inr, false, List, [], ◌∷◌, Option, none, some, ok, All, if-case,
  Option-cases, Bool-cases, equal, equal_self, equal_iff, if◌then◌else◌, length, length-append,
  arith,
}
use awgsocks.Strings.{Text}
use awgsocks.Setup.{
  Access, secret, program_dir, program, protects, copies, Machine, Answers, Outcome, perform,
  performed, attempt, join, apply, access_of, next-all, perform-all, attempt-all,
}
use awgsocks.Setup.Install.{
  InstallOptions, Site, tries_over, copy_when_released, run_job, run_jobs, script_jobs,
  service_path, install_program,
}

module _ (w : Site) (answers : Answers) where
  -- A property of the machine that copying keeps, and securing each of these programs.
  abbrev pub Keeps : (Machine → Type 0) → List (Text × Text) → Type 0
  Keeps P jobs =
      ((src dst : Text) (m : Machine) → P m → P (apply (copies src dst) m))
      × All (λ job. (m : Machine) → P m → P (apply (protects program job.1) m)) jobs

  pub copy_when_released-all :
      (P : Machine → Type 0) (src dst : Text) (m : Machine)
      → P m
      → P (apply (copies src dst) m)
      → P (copy_when_released w answers src dst m).1
  unfolding copy_when_released performed
  copy_when_released-all P src dst m f g =
      elim (Option-cases (tries_over w answers (w.tries src dst) 20 none)) [
        | inl e ↦ subst (λ o. P (performed o (copies src dst) m).1) (sym e) g
        | inr (x, e) ↦ subst (λ o. P (performed o (copies src dst) m).1) (sym e) f
      ]

  pub run_job-all :
      (P : Machine → Type 0) (job : Text × Text) (m : Machine)
      → ((src dst : Text) (m : Machine) → P m → P (apply (copies src dst) m))
      → ((m : Machine) → P m → P (apply (protects program job.1) m))
      → P m
      → P (run_job w answers job m).1
  unfolding run_job
  run_job-all P (src, dst) m copy protect h =
      let P' = λ (o : Outcome (Unit {0})). P o.1 in
      let copied : P
          (if w.equal_fold (w.clean src) (w.clean dst)
            then (ok tt, m)
            else copy_when_released w answers src dst m).1 =
        if-case P' (w.equal_fold (w.clean src) (w.clean dst)) _ _ (λ e. h)
          (λ e. copy_when_released-all P src dst m h (copy src dst m h)) in
      next-all P'
        (if w.equal_fold (w.clean src) (w.clean dst)
          then (ok tt, m)
          else copy_when_released w answers src dst m)
        _ (λ e x. copied)
        (λ u x.
          unfold attempt in
          attempt-all P answers (protects program dst) _ copied (protect _ copied))

  pub run_jobs-all :
      (P : Machine → Type 0) (jobs : List (Text × Text)) (m : Machine)
      → Keeps P jobs
      → P m
      → P (run_jobs w answers jobs m).1
  unfolding run_jobs
  run_jobs-all P [] m k h = h
  run_jobs-all P (job ∷ jobs) m (copy, protect) h =
      let now = run_job-all P job m copy protect.0 h in
      next-all (λ (o : Outcome (Unit {0})). P o.1) (run_job w answers job m) _ (λ e x. now)
        (λ u x. run_jobs-all P jobs _ (copy, protect.1) now)

  pub perform-program :
      (dst : Text) (m : Machine)
      → (perform answers (protects program dst) m).0 ≡ ok tt
      → access_of dst (perform answers (protects program dst) m).1.access ≡ some program
  unfolding perform performed apply
  perform-program dst m = elim (Option-cases (answers (protects program dst))) [
    | inl e ↦ rw e (λ x. rw (equal_self dst) refl)
    | inr (x, e) ↦ rw e (λ y. cc y)
  ]

  pub run_job-program :
      (src dst : Text) (m : Machine)
      → (run_job w answers (src, dst) m).0 ≡ ok tt
      → access_of dst (run_job w answers (src, dst) m).1.access ≡ some program
  unfolding run_job
  run_job-program src dst m =
      next-all (λ (o : Outcome (Unit {0})). o.0 ≡ ok tt → access_of dst o.1.access ≡ some program)
        (if w.equal_fold (w.clean src) (w.clean dst)
          then (ok tt, m)
          else copy_when_released w answers src dst m)
        _ (λ e x y. cc y) (λ u x. perform-program dst _)

  -- Rights that no step behind this takes away again.
  abbrev pub Has : Text → Access → Machine → Type 0
  Has path kind m = access_of path m.access ≡ some kind

  pub Has-other :
      (path other : Text) (kind was : Access) (m : Machine)
      → equal other path ≡ false
      → Has path was m
      → Has path was (apply (protects kind other) m)
  unfolding apply
  Has-other path other kind was m e h = rw e h

  pub Has-program :
      (path other : Text) (m : Machine)
      → Has path program m
      → Has path program (apply (protects program other) m)
  unfolding apply
  Has-program path other m h =
      if-case (λ x. x ≡ some program) (equal other path) _ _ (λ e. refl) (λ e. h)

  -- While the program is put in place: no service, the configuration a secret, the directory closed.
  abbrev pub IsPlaced : Text → Text → Machine → Type 0
  IsPlaced dest dir m = (m.service ≡ none) × Has dest secret m × Has dir program_dir m

  -- And the program itself secured.
  abbrev pub IsSecured : Text → Text → Machine → Type 0
  IsSecured dest dir m = IsPlaced dest dir m × Has (service_path w answers dir) program m

  -- A file of the directory is another path than the directory, and than the configuration.
  abbrev pub AreApart : Text → Text → List (Text × Text) → Type 0
  AreApart dest dir jobs = All (λ job. (equal job.1 dest ≡ false) × (equal job.1 dir ≡ false)) jobs

  pub IsPlaced-Keeps :
      (dest dir : Text) (jobs : List (Text × Text))
      → AreApart dest dir jobs
      → Keeps (IsPlaced dest dir) jobs
  unfolding apply
  IsPlaced-Keeps dest dir [] h = ((λ src dst m k. k), tt)
  IsPlaced-Keeps dest dir (job ∷ jobs) h =
      let (copy, rest) = IsPlaced-Keeps dest dir jobs h.1 in
      (copy, ((λ m (k : IsPlaced dest dir m). (k.0, rw h.0.0 k.1, rw h.0.1 k.2)), rest))

  pub IsSecured-Keeps :
      (dest dir : Text) (jobs : List (Text × Text))
      → AreApart dest dir jobs
      → Keeps (IsSecured dest dir) jobs
  unfolding apply
  IsSecured-Keeps dest dir [] h = ((λ src dst m k. k), tt)
  IsSecured-Keeps dest dir (job ∷ jobs) h =
      let (copy, rest) = IsSecured-Keeps dest dir jobs h.1 in
      (
        copy,
        (
          (λ m (k : IsSecured dest dir m). (
            (k.0.0, rw h.0.0 k.0.1, rw h.0.1 k.0.2),
            Has-program (service_path w answers dir) job.1 m k.1,
          )),
          rest,
        ),
      )

  pub join_differs : (dir name : Text) → equal (join dir name) dir ≡ false
  join_differs dir name = elim (Bool-cases (equal (join dir name) dir)) [
    | inr e ↦ e
    | inl e ↦ absurd (
        omega
          (arith, ap length ((equal_iff (join dir name) dir).0 e), length-append dir (92 ∷ name)))
  ]

  -- The program is in place only once it is secured, and there is no service before.
  abbrev pub SecuredIfOk : Text → Text → Outcome (Unit {0}) → Type 0
  SecuredIfOk dest dir o = (o.1.service ≡ none) × (o.0 ≡ ok tt → IsSecured dest dir o.1)

  pub run_jobs-SecuredIfOk :
      (dest dir src : Text) (jobs : List (Text × Text)) (m : Machine)
      → AreApart dest dir ((src, service_path w answers dir) ∷ jobs)
      → IsPlaced dest dir m
      → SecuredIfOk dest dir (run_jobs w answers ((src, service_path w answers dir) ∷ jobs) m)
  unfolding run_jobs
  run_jobs-SecuredIfOk dest dir src jobs m apart h =
      let path = service_path w answers dir in
      let (copy, protect) = IsPlaced-Keeps dest dir ((src, path) ∷ jobs) apart in
      let first = run_job w answers (src, path) m in
      let placed = run_job-all (IsPlaced dest dir) (src, path) m copy protect.0 h in
      next-all (SecuredIfOk dest dir) first _ (λ e x. (placed.0, (λ y. cc y)))
        (λ u x.
          let secured =
            run_jobs-all (IsSecured dest dir) jobs first.1 (IsSecured-Keeps dest dir jobs apart.1)
              (placed, run_job-program src path m x) in
          (secured.0.0, (λ y. secured)))

  -- The configuration is not among the paths of the program.
  abbrev pub IsClear : Text → Text → InstallOptions → Option Text → Type 0
  IsClear dest dir o none = Unit
  IsClear dest dir o (some exe) =
      (equal dir dest ≡ false)
      × AreApart dest dir
          ((exe, service_path w answers dir) ∷ script_jobs w answers (w.dir exe) dir o.scripts)

  pub install_program-SecuredIfOk :
      (dest dir exe : Text) (scripts : List Text) (m : Machine)
      → equal dir dest ≡ false
      → AreApart dest dir
          ((exe, service_path w answers dir) ∷ script_jobs w answers (w.dir exe) dir scripts)
      → m.service ≡ none
      → Has dest secret m
      → SecuredIfOk dest dir (install_program w answers exe dir scripts m)
  unfolding install_program
  install_program-SecuredIfOk dest dir exe scripts m other apart quiet kept =
      perform-all (SecuredIfOk dest dir) answers (protects program_dir dir) m _
        (λ x y. (quiet, (λ z. cc z)))
        (λ y.
          run_jobs-SecuredIfOk dest dir exe (script_jobs w answers (w.dir exe) dir scripts)
            (apply (protects program_dir dir) m) apart
            (unfold apply in (quiet, rw other kept, rw (equal_self dir) refl)))
