-- ===== src/Transport/Context.antt =====
-- core/transport/src/lib.rs: `ConnectContext::check`, which bounds every step of a connection attempt.
use cyberia_vpn.Prelude.{leb, if◌then◌else◌, Result, ok}
use cyberia_vpn.Exec.{Exec, raise, pure, ◌>>=◌}
use cyberia_vpn.Transport.Types.{TransportError, ConnectContext, cancelled, timed_out}
use cyberia_vpn.Transport.Platform.{World, now, is_cancelled}

unfoldable pub observe {ℓ} :
    {A : Type ℓ} → (World → A × World) → World → Result TransportError A × World
observe f w = (ok (f w).0, (f w).1)

unfoldable pub check : ConnectContext → Exec TransportError World (Unit {0})
unfolding observe now is_cancelled
check context = do
  stop ← observe (is_cancelled context.cancellation)
  if stop then raise cancelled else do
    instant ← observe now
    if leb context.deadline instant then raise timed_out else pure tt
