-- ===== src/Tests/Installing.antt =====
-- Installing, repairing and removing the service.
use awgsocks.Base.{◌≡◌, refl, true, false, [], ◌∷◌, none, some, ok, codes, All, equal}
use awgsocks.Setup.{
  secret, program, running, Machine, Answers, access_of, join, apply, perform, performed, next,
}
use awgsocks.Setup.Install.{InstallOptions, Site, install, destination, script_jobs}
use awgsocks.Setup.Install.Guarded.{IsGuarded, install-IsGuarded}
use awgsocks.Setup.Repair.{
  Disk, repair_permissions, repair_all, protect_existing, protect_if, protect_config, protect_each,
  protect_programs,
}
use awgsocks.Setup.Repair.Routing.{IsMeant, repair_permissions-IsMeant}
use awgsocks.Setup.Repair.Secret.{repair_permissions-keeps_secret}
use awgsocks.Setup.Uninstall.{Remains, uninstall}
use awgsocks.Setup.Uninstall.Spared.{IsRemoved, uninstall-IsRemoved}
use awgsocks.Tests.Manager.{platform, settings}

-- Every call works.
abbrev works : Answers
works a = none

abbrev untouched : Machine
untouched = record { access = []; written = []; deleted = []; service = none }

abbrev site : Site
site = record {
  elevated = true;
  root = codes "D";
  abs = λ path. some path;
  loads = λ path. true;
  connects = true;
  installed = false;
  program_files = some (codes "P");
  exists = λ path. false;
  stored = none;
  platform = platform;
  executable = some (codes "X");
  dir = λ path. codes "Y";
  clean = λ path. path;
  equal_fold = equal;
  tries = λ src dst left. none;
  polls = some running ∷ [];
}

abbrev options : InstallOptions
options = record {
  config_path = codes "C";
  in_place = false;
  socks5_listen = [];
  log_level = [];
  auto_start_tunnel = true;
  start_service = true;
  scripts = [];
}

install-IsGuarded_example :
    let r = install site works options untouched in
    IsGuarded site works
      (destination site works options (codes "C"))
      (join (codes "P") (codes "AWGSocks"))
      r
install-IsGuarded_example =
    install-IsGuarded site works options (codes "C") (codes "P") untouched refl refl refl
      (unfold destination script_jobs in (refl, ((refl, refl), tt))) (unfold destination in refl)
      refl

abbrev disk : Disk
disk = record {
  elevated = true;
  root = codes "D";
  exists = λ path. true;
  app = some settings;
  programs = some (codes "P", codes "awgsocks.exe" ∷ []);
}

repair_permissions-IsMeant_example :
    All (IsMeant disk works) (repair_permissions disk works untouched).1.access
repair_permissions-IsMeant_example = repair_permissions-IsMeant disk works untouched (refl, tt) refl

repair_works : (repair_permissions disk works untouched).0 ≡ ok tt
unfolding repair_permissions repair_all protect_existing protect_if protect_config protect_each
    protect_programs next perform performed apply
repair_works = refl

repair_permissions-keeps_secret_example :
    access_of settings.config_path (repair_permissions disk works untouched).1.access ≡ some secret
repair_permissions-keeps_secret_example =
    repair_permissions-keeps_secret disk works settings untouched refl refl refl refl refl
      (refl, (refl, tt)) repair_works

-- A configuration that lies in the program directory is opened to every user by a repair.
abbrev beside_program : Disk
beside_program = record disk {
  app = some (record settings { config_path = join (codes "P") (codes "client.conf") });
  programs = some (codes "P", codes "awgsocks.exe" ∷ codes "client.conf" ∷ []);
}

key_published :
    access_of
      (join (codes "P") (codes "client.conf"))
      (repair_permissions beside_program works untouched).1.access
    ≡ some program
unfolding repair_permissions repair_all protect_existing protect_if protect_config protect_each
    protect_programs next perform performed apply
key_published = refl

abbrev remains : Remains
remains = record {
  elevated = true;
  connects = true;
  present = true;
  first = some running;
  root = codes "D";
  exists = λ path. true;
}

uninstall-IsRemoved_example :
    IsRemoved remains works false false (uninstall remains works false false untouched)
uninstall-IsRemoved_example =
    uninstall-IsRemoved remains works false false untouched refl (λ absent. refl)
