-- ===== src/Config/App/Ready.antt =====
-- What an application configuration consists of when it is accepted.
use awgsocks.Base.{
  ◌≡◌, ◌≢◌, refl, subst, ap, arith, true, false, ◌||◌, [], Option, none, some, ◌==◌, if◌then◌else◌,
  Result, ok, err, IfOk, IfOk-eq, IfOk-if, IfOk->>=, equal, Bool-cases, inl, inr,
}
use awgsocks.Strings.{Text, trim_space, to_lower}
use awgsocks.Netip.{AddrPort, is_loopback}
use awgsocks.Socks5.Listener.{Listener, start}
use awgsocks.Config.App.{
  App, AppError, Platform, is_negative, is_blank, default_log_level, default_socks_listen, is_level,
  is_bind, host_checked, listen_checked, validate_loopback_listen, with_path, with_listen,
  with_level, with_bind, within_limits, normalize,
}

module _ (w : Platform) where
  -- The address can be listened on: it is on loopback, and its port is not zero.
  abbrev pub IsListen : Text → Type 0
  IsListen addr =
      (ap : AddrPort) × (w.parse_addr_port addr ≡ some ap)
      × ((ap.port == 0) ≡ false)
      × (is_loopback ap.addr ≡ true)

  -- `netip.ParseAddr` reads what `Addr.String` writes of an address that `netip.ParseAddrPort` has read.
  abbrev pub RoundTrips : Type 0
  RoundTrips =
      (addr : Text) (ap : AddrPort)
      → w.parse_addr_port addr ≡ some ap
      → w.parse_addr (w.addr_text ap.addr) ≡ some ap.addr

  host_checked-IsListen :
      RoundTrips
      → (addr : Text) (ap : AddrPort) → w.parse_addr_port addr ≡ some ap
      → (ap.port == 0) ≡ false
      → IfOk (λ valid. IsListen addr) (host_checked w (w.parse_addr (w.addr_text ap.addr)))
  unfolding host_checked
  host_checked-IsListen back addr ap e port =
      rw (back addr ap e) (elim (Bool-cases (is_loopback ap.addr)) [
        | inl near ↦ rw near (ap, e, port, near)
        | inr far ↦ rw far tt
      ])

  listen_checked-IsListen :
      RoundTrips
      → (addr : Text) (parsed : Option AddrPort) → w.parse_addr_port addr ≡ parsed
      → IfOk (λ valid. IsListen addr) (listen_checked w parsed)
  unfolding listen_checked
  listen_checked-IsListen back addr none e = tt
  listen_checked-IsListen back addr (some ap) e =
      IfOk-if (λ valid. IsListen addr) (ap.port == 0) _ _ (λ zero_port. tt)
        (λ port. host_checked-IsListen back addr ap e port)

  -- The level is one that the log knows.
  abbrev pub HasLevel : App → Type 0
  HasLevel a = is_level (to_lower w.lower_other a.log_level) ≡ true

-- What `Normalize` makes sure of.
pub record IsReady (w : Platform) (a : App) : Type 0 where
  pub listens : IsListen w a.socks5_listen
  pub levelled : HasLevel w a
  pub bound : is_bind a.udp_bind ≡ true
  pub chosen : a.udp_associate ≢ none
  pub limited :
      (is_negative a.max_connections
        || is_negative a.log_max_size_mb
        || is_negative a.log_max_files)
      ≡ false

-- A text to listen on that is accepted starts the SOCKS5 server if the system lets the port be bound.
IsListen-start :
    (w : Platform) (addr : Text) (l : Listener)
    → IsListen w addr
    → start (w.parse_addr_port addr) true l ≢ none
unfolding start
IsListen-start w addr l (ap, e, port, near) refused =
    let none_started = subst (λ o. start o true l ≡ none) e refused in ground (arith, near)

anything : (r : Result AppError App) → IfOk (λ (b : App). Unit {0}) r
anything (err e) = tt
anything (ok a) = tt

module _ (w : Platform) (back : RoundTrips w) where
  with_listen-IsListen :
      (a : App) → IfOk (λ (b : App). IsListen w b.socks5_listen) (with_listen w a)
  unfolding with_listen validate_loopback_listen
  with_listen-IsListen a =
      let listen = if is_blank a.socks5_listen then default_socks_listen else a.socks5_listen in
      IfOk->>= (λ valid. IsListen w listen) (λ (b : App). IsListen w b.socks5_listen)
        (validate_loopback_listen w listen) _
        (listen_checked-IsListen w back listen (w.parse_addr_port listen) refl) (λ valid h. h)

  with_level-HasLevel :
      (a : App)
      → IsListen w a.socks5_listen
      → IfOk (λ (b : App). IsListen w b.socks5_listen × HasLevel w b) (with_level w a)
  unfolding with_level
  with_level-HasLevel a h =
      let level = if is_blank a.log_level then default_log_level else a.log_level in
      elim (Bool-cases (is_level (to_lower w.lower_other level))) [
        | inl known ↦ rw known (h, known)
        | inr unknown ↦ rw unknown tt
      ]

  IsBound : App → Type 0
  IsBound b =
      (IsListen w b.socks5_listen × HasLevel w b)
      × (is_bind b.udp_bind ≡ true)
      × (b.udp_associate ≢ none)

  with_bind-IsBound :
      (a : App) → IsListen w a.socks5_listen × HasLevel w a → IfOk IsBound (with_bind w a)
  unfolding with_bind IsBound
  with_bind-IsBound a h =
      let bind = to_lower w.lower_other (trim_space a.udp_bind) in
      elim (Bool-cases (equal bind [])) [
        | inl blank ↦ rw blank (h, refl, (λ e. cc))
        | inr named ↦ elim (Bool-cases (is_bind bind)) [
          | inl known ↦ rw (named, known) (h, known, (λ e. cc))
          | inr unknown ↦ rw (named, unknown) tt
        ]
      ]

  within_limits-IsReady : (a : App) → IsBound a → IfOk (IsReady w) (within_limits w a)
  unfolding within_limits IsBound
  within_limits-IsReady a ((listens, level), bind, chosen) =
      elim (Bool-cases (is_negative a.max_connections)) [
        | inl bad ↦ rw bad tt
        | inr good ↦
            elim (Bool-cases (is_negative a.log_max_size_mb || is_negative a.log_max_files)) [
              | inl bad ↦ rw (good, bad) tt
              | inr fine ↦
                  rw (good, fine)
                    (record {
                      listens = listens;
                      levelled = level;
                      bound = bind;
                      chosen = chosen;
                      limited = ground (arith, good, fine);
                    })
            ]
      ]

  normalize-Ready : (a : App) → IfOk (IsReady w) (normalize w a)
  unfolding normalize
  normalize-Ready a =
      IfOk->>= (λ b. Unit) (IsReady w) (with_path w a) _ (anything (with_path w a))
        (λ a1 u.
          IfOk->>= (λ (b : App). IsListen w b.socks5_listen) (IsReady w) (with_listen w a1) _
            (with_listen-IsListen a1)
            (λ a2 h2.
              IfOk->>= (λ (b : App). IsListen w b.socks5_listen × HasLevel w b) (IsReady w)
                (with_level w a2) _ (with_level-HasLevel a2 h2)
                (λ a3 h3.
                  IfOk->>= IsBound (IsReady w) (with_bind w a3) _ (with_bind-IsBound a3 h3)
                    (λ a4 h4. within_limits-IsReady a4 h4))))

-- If `netip.ParseAddr` reads what `Addr.String` writes of an address that was read, an application configuration that is accepted names
-- a loopback address with a port that is not zero, a level of the log, one of the two binds, and no
-- negative limit, and says whether UDP is on; and the SOCKS5 server starts at its address if the system lets
-- the port be bound.
pub normalize-IsReady :
    (w : Platform) (a b : App) (l : Listener)
    → RoundTrips w
    → normalize w a ≡ ok b
    → IsReady w b × (start (w.parse_addr_port b.socks5_listen) true l ≢ none)
normalize-IsReady w a b l back e =
    let ready = IfOk-eq (IsReady w) (normalize w a) b (normalize-Ready w back a) e in
    (ready, IsListen-start w b.socks5_listen l ready.listens)
