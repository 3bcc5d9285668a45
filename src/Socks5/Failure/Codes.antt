-- ===== src/Socks5/Failure/Codes.antt =====
-- The reply codes that a failure can get.
use awgsocks.Base.{ℕ, true, ◌||◌, Option, none, some, ◌≡◌, ◌↔◌, arith}
use awgsocks.Socks5.Failure.{GoError, reply_for_error, rep_success, rep_network_unreachable}

module _ (lower_other : ℕ → ℕ) where
  -- The client is told of success exactly when there is no error, whatever the fallback.
  pub reply_for_error-eq-success :
      (e : Option GoError) (fallback : ℕ)
      → (reply_for_error lower_other e fallback ≡ rep_success) ↔ (e ≡ none)
  unfolding reply_for_error
  reply_for_error-eq-success none fallback = ground arith
  reply_for_error-eq-success (some e) fallback = ground arith

  -- A tunnel that is down, or has no handshake, is "network unreachable", whatever else the error says.
  pub reply_for_error-tunnel :
      (e : GoError) (fallback : ℕ)
      → (e.tunnel_down || e.not_ready) ≡ true
      → reply_for_error lower_other (some e) fallback ≡ rep_network_unreachable
  unfolding reply_for_error
  reply_for_error-tunnel e fallback h = ground arith
