-- ===== src/Setup/Uninstall/Spared.antt =====
-- What the removal of the service deletes.
use awgsocks.Base.{
  Option-cases, Result, ok, err, ◌≡◌, ◌⊎◌, refl, sym, subst, inl, inr, Bool, true, false, not, ◌&&◌,
  [], Option, none, some, codes, All, if-case,
}
use awgsocks.Strings.{Text}
use awgsocks.Setup.{
  perform, performed, Registered, SetupError, State, deletes, deletes_all, unregisters, stops,
  Machine, Answers, Outcome, attempt, join, apply, next-all, attempt-all,
}
use awgsocks.Setup.Uninstall.{
  Remains, remove_installed_data, remove_legacy, remove_root, stop_first, remove_service, uninstall,
}
use awgsocks.Setup.Control.{is_in}

module _ (w : Remains) (answers : Answers) where
  -- What may be deleted: the settings and the logs, unless they are kept; the binary of an older version;
  -- and the data directory, if that was asked for or if it holds no tunnel configuration.
  abbrev pub MayGo : Bool → Bool → Text → Type 0
  MayGo purge keep_settings path =
      ((keep_settings ≡ false)
        × ((path ≡ join w.root (codes "config.json")) ⊎ (path ≡ join w.root (codes "logs"))))
      ⊎ ((path ≡ join w.root (codes "awgsocks.exe"))
          ⊎ ((path ≡ w.root)
              × ((purge ≡ true) ⊎ (w.exists (join w.root (codes "client.conf")) ≡ false))))

  abbrev pub OnlyWhatMay : Bool → Bool → Machine → Type 0
  OnlyWhatMay purge keep m = All (MayGo purge keep) m.deleted

  attempt-deletes :
      (purge keep : Bool) (path : Text) (m : Machine)
      → MayGo purge keep path
      → OnlyWhatMay purge keep m
      → OnlyWhatMay purge keep (attempt answers (deletes path) m)
  unfolding apply
  attempt-deletes purge keep path m may h =
      attempt-all (OnlyWhatMay purge keep) answers (deletes path) m h (may, h)

  attempt-deletes_all :
      (purge keep : Bool) (path : Text) (m : Machine)
      → MayGo purge keep path
      → OnlyWhatMay purge keep m
      → OnlyWhatMay purge keep (attempt answers (deletes_all path) m)
  unfolding apply
  attempt-deletes_all purge keep path m may h =
      attempt-all (OnlyWhatMay purge keep) answers (deletes_all path) m h (may, h)

  remove_installed_data-OnlyWhatMay :
      (purge keep : Bool) (m : Machine)
      → OnlyWhatMay purge keep m
      → OnlyWhatMay purge keep (remove_installed_data w answers keep m)
  unfolding remove_installed_data
  remove_installed_data-OnlyWhatMay purge true m h = h
  remove_installed_data-OnlyWhatMay purge false m h =
      attempt-deletes purge false (join w.root (codes "config.json")) _ (inl (refl, inl refl))
        (attempt-deletes_all purge false (join w.root (codes "logs")) m (inl (refl, inr refl)) h)

  remove_legacy-OnlyWhatMay :
      (purge keep : Bool) (m : Machine)
      → OnlyWhatMay purge keep m
      → OnlyWhatMay purge keep (remove_legacy w answers m)
  unfolding remove_legacy
  remove_legacy-OnlyWhatMay purge keep m h =
      if-case (OnlyWhatMay purge keep) (w.exists (join w.root (codes "awgsocks.exe"))) _ _
        (λ e. attempt-deletes purge keep (join w.root (codes "awgsocks.exe")) m (inr (inl refl)) h)
        (λ e. h)

  remove_root-OnlyWhatMay :
      (purge keep : Bool) (m : Machine)
      → OnlyWhatMay purge keep m
      → OnlyWhatMay purge keep (remove_root w answers purge m).1
  unfolding remove_root
  remove_root-OnlyWhatMay true keep m h =
      unfold attempt in attempt-deletes_all true keep w.root m (inr (inr (refl, inl refl))) h
  remove_root-OnlyWhatMay false keep m h =
      if-case (λ (o : Outcome (Unit {0})). OnlyWhatMay false keep o.1)
        (w.exists (join w.root (codes "client.conf"))) _ _ (λ e. h)
        (λ e. attempt-deletes false keep w.root m (inr (inr (refl, inr e))) h)

  deleted-stop_first :
      (o : Option State) (m : Machine) → (stop_first w answers o m).deleted ≡ m.deleted
  unfolding stop_first apply
  deleted-stop_first none m = refl
  deleted-stop_first (some s) m =
      if-case (λ (r : Machine). r.deleted ≡ m.deleted) (is_in _ (some s)) _ _ (λ e. refl)
        (λ e. attempt-all (λ r. r.deleted ≡ m.deleted) answers stops m refl refl)

  deleted-remove_service : (m : Machine) → (remove_service w answers m).1.deleted ≡ m.deleted
  unfolding remove_service apply
  deleted-remove_service m =
      if-case (λ (o : Outcome (Unit {0})). o.1.deleted ≡ m.deleted) w.present _ _
        (λ there.
          unfold attempt in
          attempt-all (λ r. r.deleted ≡ m.deleted) answers unregisters
            (stop_first w answers w.first m) (deleted-stop_first w.first m)
            (deleted-stop_first w.first m))
        (λ absent. refl)

  service-remove_rest :
      (keep : Bool) (m : Machine)
      → m.service ≡ none
      → (remove_legacy w answers (remove_installed_data w answers keep m)).service ≡ none
  unfolding remove_installed_data remove_legacy apply
  service-remove_rest keep m h =
      let P = λ (r : Machine). r.service ≡ none in
      let left : P (remove_installed_data w answers keep m) = data_left keep in
      if-case P (w.exists (join w.root (codes "awgsocks.exe"))) _ _
        (λ e. attempt-all P answers (deletes (join w.root (codes "awgsocks.exe"))) _ left left)
        (λ e. left)
    where
      data_left : (k : Bool) → (remove_installed_data w answers k m).service ≡ none
      data_left true = h
      data_left false =
          let P = λ (r : Machine). r.service ≡ none in
          let logs = attempt-all P answers (deletes_all (join w.root (codes "logs"))) m h h in
          attempt-all P answers (deletes (join w.root (codes "config.json"))) _ logs logs

  service-remove_root :
      (purge : Bool) (m : Machine)
      → m.service ≡ none
      → (remove_root w answers purge m).1.service ≡ none
  unfolding remove_root apply
  service-remove_root true m h =
      unfold attempt in attempt-all (λ r. r.service ≡ none) answers (deletes_all w.root) m h h
  service-remove_root false m h =
      if-case (λ (o : Outcome (Unit {0})). o.1.service ≡ none)
        (w.exists (join w.root (codes "client.conf"))) _ _ (λ e. h)
        (λ e. attempt-all (λ r. r.service ≡ none) answers (deletes w.root) m h h)

  -- Behind a success there is no service.
  abbrev pub GoneAfter : Result SetupError (Unit {0}) → Option Registered → Type 0
  GoneAfter (err e) service = Unit
  GoneAfter (ok u) service = service ≡ none

  abbrev pub IsRemoved : Bool → Bool → Outcome (Unit {0}) → Type 0
  IsRemoved purge keep o = OnlyWhatMay purge keep o.1 × GoneAfter o.0 o.1.service

  gone_anyway :
      (r : Result SetupError (Unit {0})) (service : Option Registered)
      → service ≡ none
      → GoneAfter r service
  gone_anyway (err e) service h = tt
  gone_anyway (ok u) service h = h

  unregistered :
      (m : Machine)
      → (perform answers unregisters m).0 ≡ ok tt
      → (perform answers unregisters m).1.service ≡ none
  unfolding perform performed apply
  unregistered m = elim (Option-cases (answers unregisters)) [
    | inl e ↦ rw e (λ done. refl)
    | inr (x, e) ↦ rw e (λ done. cc done)
  ]

  remove_service-GoneAfter :
      (m : Machine)
      → (w.present ≡ false → m.service ≡ none)
      → (remove_service w answers m).0 ≡ ok tt
      → (remove_service w answers m).1.service ≡ none
  unfolding remove_service
  remove_service-GoneAfter m absent =
      let Q = λ (o : Outcome (Unit {0})). o.0 ≡ ok tt → o.1.service ≡ none in
      if-case Q w.present _ _ (λ there. unregistered (stop_first w answers w.first m))
        (λ none_there done. absent none_there)

  -- Whatever fails, nothing else is deleted than what may be: never the tunnel configuration by itself, and
  -- never the data directory with it in it unless that was asked for. And behind a success there is no
  -- service, if there was none where it could not be opened.
  pub uninstall-IsRemoved :
      (purge keep : Bool) (m : Machine)
      → m.deleted ≡ []
      → (w.present ≡ false → m.service ≡ none)
      → IsRemoved purge keep (uninstall w answers purge keep m)
  unfolding uninstall
  uninstall-IsRemoved purge keep m fresh absent =
      let none_yet : OnlyWhatMay purge keep m = rw fresh tt in
      let Q = IsRemoved purge keep in
      let first = remove_service w answers m in
      let still : OnlyWhatMay purge keep first.1 =
        subst (All (MayGo purge keep)) (sym (deleted-remove_service m)) none_yet in
      let rest = remove_legacy w answers (remove_installed_data w answers keep first.1) in
      if-case Q (purge && keep) _ _ (λ e. (none_yet, tt))
        (λ e.
          if-case Q (not w.elevated) _ _ (λ e. (none_yet, tt))
            (λ e.
              if-case Q (not w.connects) _ _ (λ e. (none_yet, tt))
                (λ e.
                  next-all Q first _ (λ x y. (still, tt))
                    (λ u y. (
                      remove_root-OnlyWhatMay purge keep rest (
                          remove_legacy-OnlyWhatMay purge keep _
                            (remove_installed_data-OnlyWhatMay purge keep first.1 still)),
                      gone_anyway (remove_root w answers purge rest).0
                          (remove_root w answers purge rest).1.service
                          (service-remove_root purge rest (
                            service-remove_rest keep first.1
                              (remove_service-GoneAfter m absent y))),
                    )))))
