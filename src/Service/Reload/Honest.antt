-- ===== src/Service/Reload/Honest.antt =====
-- What is in force after a reload.
use awgsocks.Base.{◌≡◌, ◌⊎◌, true, Option, none, some, Result, ok, err}
use awgsocks.Config.App.{App, udp_enabled}
use awgsocks.Socks5.Listener.{Listener, resolve_max_conns}
use awgsocks.Socks5.Listener as Listener
use awgsocks.Awg.Reload as Awg
use awgsocks.Service.Reload.{
  Proxy, Report, Runtime, ReloadError, Listening, untouched, rebuilt, lost_listener,
}

-- The server has the settings of the configuration, and listens.
pub record IsInForce (new : App) (p : Proxy) : Type 0 where
  pub same_listen : p.listen ≡ new.socks5_listen
  pub same_udp : p.udp ≡ udp_enabled new
  pub same_max : p.listener.max_conns ≡ resolve_max_conns new.max_connections
  pub serves : Listener.listening p.listener ≡ true
  pub holds_port : p.listener.bound ≡ true

module _ (old new : App) (p : Proxy) where
  -- The server behind a reload that has failed: the old one, unless the error says that it is lost.
  abbrev pub Kept : ReloadError → Proxy → Type 0
  Kept e q = (q.listen ≡ old.socks5_listen) × ((q ≡ p) ⊎ (e ≡ lost_listener))

  -- A reload that succeeds has the new settings in force, on the old server if no session was cut; one
  -- that fails keeps the old configuration.
  abbrev pub Honest : Result ReloadError Report × Runtime → Type 0
  Honest (ok rep, r) =
      (r.app ≡ some new)
      × ((q : Proxy) × (r.proxy ≡ some q) × IsInForce new q × ((rep.sessions_cut ≡ true) ⊎ (q ≡ p)))
  Honest (err e, r) = (r.app ≡ some old) × ((q : Proxy) × (r.proxy ≡ some q) × Kept e q)

  -- The listener's part.
  Swapped : Option ReloadError × Runtime → Type 0
  Swapped (none, r) = (q : Proxy) × (r.proxy ≡ some q) × IsInForce new q
  Swapped (some e, r) = (r.app ≡ some old) × ((q : Proxy) × (r.proxy ≡ some q) × Kept e q)

  Relistened : Listening → Type 0
  unfolding Swapped
  Relistened untouched = IsInForce new p
  Relistened (rebuilt why swapped) = Swapped swapped
