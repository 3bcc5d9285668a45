-- ===== src/Service/Reload/Stored.antt =====
-- A reload that succeeds stores what was loaded.
use awgsocks.Base.{
  ◌≡◌, refl, not, equal, if-case, ◌∷◌, [], Bool, List, Option, none, some, Result, ok, err,
}
use awgsocks.Strings.{Text}
use awgsocks.Config.App.{App, AppError}
use awgsocks.Config.Finalize.{TunnelConfig}
use awgsocks.Socks5.Failure.{GoError}
use awgsocks.Awg.State.{Tunnel}
use awgsocks.Awg.Reload as Awg
use awgsocks.Netip.{AddrPort}
use awgsocks.Service.Manager.{check_conflict}
use awgsocks.Service.Control.Begin.{check_conflict-Lowers}
use awgsocks.Service.Reload.{
  Proxy, Change, swap, swap_elsewhere, swap_in_place, relisten, relisten_for, changes, Report,
  Runtime, no_service, ReloadError, Setting, Listening, untouched, rebuilt, Surroundings, ended,
  after_tunnel, reload_tunnel, loaded_with, reload_on, reload, logged, log_applied,
}

module _ (new : App) (c : TunnelConfig) where
  -- The two configurations that were loaded are the ones that the manager keeps.
  abbrev pub IsStored : Runtime → Type 0
  IsStored r = (r.app ≡ some new) × (r.manager.tun_cfg ≡ some c)

  abbrev pub Stores : Result ReloadError Report × Runtime → Type 0
  Stores (ok rep, r) = IsStored r
  Stores (err e, r) = Unit

  HasTunnel : Runtime → Type 0
  HasTunnel r = r.manager.tun_cfg ≡ some c

  Relistens : Listening → Type 0
  unfolding HasTunnel
  Relistens untouched = Unit
  Relistens (rebuilt why (e, r)) = HasTunnel r

  ended-Stores :
      (reapplied : Bool) (applied : List Setting) (old : Option App) (how : Listening) (r : Runtime)
      → HasTunnel r
      → Relistens how
      → Stores (ended reapplied applied old new how r)
  unfolding ended HasTunnel Relistens
  ended-Stores reapplied applied old untouched r has h = (refl, has)
  ended-Stores reapplied applied old (rebuilt why (some e, r')) r has h = tt
  ended-Stores reapplied applied old (rebuilt why (none, r')) r has h = (refl, h)

  swap_elsewhere-HasTunnel :
      (started : Option Proxy) (p : Proxy) (r : Runtime)
      → HasTunnel r
      → HasTunnel (swap_elsewhere started p r).1
  unfolding swap_elsewhere HasTunnel
  swap_elsewhere-HasTunnel none p r has = has
  swap_elsewhere-HasTunnel (some q) p r has = has

  swap_in_place-HasTunnel :
      (started : Option Proxy) (unstarted p : Proxy) (r : Runtime)
      → HasTunnel r
      → HasTunnel (swap_in_place started unstarted p r).1
  unfolding swap_in_place HasTunnel
  swap_in_place-HasTunnel none unstarted p r has = has
  swap_in_place-HasTunnel (some q) unstarted p r has = has

  swap-HasTunnel :
      (parsed : Option AddrPort) (bindable : Bool) (old : App) (p : Proxy) (r : Runtime)
      → HasTunnel r
      → HasTunnel (swap parsed bindable old new p r).1
  unfolding swap
  swap-HasTunnel parsed bindable old p r has =
      if-case (λ (s : Option ReloadError × Runtime). HasTunnel s.1)
        (not (equal new.socks5_listen old.socks5_listen)) _ _
        (λ e. swap_elsewhere-HasTunnel _ p r has) (λ e. swap_in_place-HasTunnel _ _ p r has)

  relisten_for-Relistens :
      (why : List Change) (swapped : Option ReloadError × Runtime)
      → HasTunnel swapped.1
      → Relistens (relisten_for why swapped)
  unfolding relisten_for Relistens
  relisten_for-Relistens [] swapped has = tt
  relisten_for-Relistens (x ∷ why) (e, r) has = has

  relisten-Relistens :
      (parsed : Option AddrPort) (bindable : Bool) (old : Option App) (p : Option Proxy)
      (r : Runtime)
      → HasTunnel r
      → Relistens (relisten parsed bindable old new p r)
  unfolding relisten Relistens
  relisten-Relistens parsed bindable none p r has = tt
  relisten-Relistens parsed bindable (some old) none r has = tt
  relisten-Relistens parsed bindable (some old) (some p) r has =
      relisten_for-Relistens (changes old new p) _ (swap-HasTunnel parsed bindable old p r has)

  after_tunnel-Stores :
      (w : Surroundings) (applied : List Setting) (p : Result GoError Bool × Tunnel) (r : Runtime)
      → Stores (after_tunnel w applied new c p r)
  unfolding after_tunnel HasTunnel
  after_tunnel-Stores w applied (err e, t) r = tt
  after_tunnel-Stores w applied (ok changed, t) r =
      let m = record r.manager { tunnel = some t; tun_cfg = some c } in
      let r' = record r { manager = (check_conflict w.listed m).1 } in
      let has = (check_conflict-Lowers w.listed m).tun_cfg in
      ended-Stores changed applied r.app (relisten w.parsed w.bindable r.app new r.proxy r') r' has
        (relisten-Relistens w.parsed w.bindable r.app r.proxy r' has)

-- What a successful reload stores is what was loaded.
abbrev pub StoresLoaded :
    Result AppError (App × Result Text TunnelConfig) → Result ReloadError Report × Runtime → Type 0
StoresLoaded (ok (new, ok c)) p = Stores new c p
StoresLoaded (ok (new, err why)) (ok rep, r) = ⊥
StoresLoaded (ok (new, err why)) (err e, r) = Unit
StoresLoaded (err e) (ok rep, r) = ⊥
StoresLoaded (err e) (err e', r) = Unit

pub loaded_with-Stores :
    (w : Surroundings) (loaded : Result AppError (App × Result Text TunnelConfig)) (t : Tunnel)
    (r : Runtime)
    → StoresLoaded loaded (loaded_with w loaded t r)
unfolding loaded_with reload_tunnel
loaded_with-Stores w (err e) t r = tt
loaded_with-Stores w (ok (new, err why)) t r = tt
loaded_with-Stores w (ok (new, ok c)) t r =
    after_tunnel-Stores new c w (log_applied w.lower_other r.app new)
      (Awg.reload w.tunnel (some c) t) (logged new r)

StoresLoaded-err :
    (loaded : Result AppError (App × Result Text TunnelConfig)) (e : ReloadError) (r : Runtime)
    → StoresLoaded loaded (err e, r)
StoresLoaded-err (ok (new, ok c)) e r = tt
StoresLoaded-err (ok (new, err why)) e r = tt
StoresLoaded-err (err e') e r = tt

pub reload-StoresLoaded :
    (w : Surroundings) (loaded : Result AppError (App × Result Text TunnelConfig)) (r : Runtime)
    → StoresLoaded loaded (reload w loaded r)
unfolding reload reload_on
reload-StoresLoaded w loaded r = on r.manager.tunnel
  where
    on : (o : Option Tunnel) → StoresLoaded loaded (reload_on w loaded o r)
    on none = StoresLoaded-err loaded no_service r
    on (some t) = loaded_with-Stores w loaded t r
