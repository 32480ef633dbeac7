-- ===== src/Client/Run.antt =====
-- apps/linux-client/src/lib.rs: the run of a connection until the client is told to stop.
pub mod Ended
pub mod Live
pub mod Success
use cyberia_vpn.Prelude.{ℕ, Bool, not, if◌then◌else◌, Result, ok, err}
use cyberia_vpn.Exec.{Exec, pure, raise, attempt, ◌>>=◌, ◌>>◌, mapped}
use cyberia_vpn.Transport.Types.{Session}
use cyberia_vpn.Transport.Platform.{World}
use cyberia_vpn.KillSwitch.Controller.{ConnectionError}
use cyberia_vpn.KillSwitch.Connection
use cyberia_vpn.KillSwitch.Connection.{LinuxWireGuardConnection}
use cyberia_vpn.Result.{Abort, returned, panicked}

-- The trait, implemented by `C`. A connection attempt may panic, and the panic ends the run.
pub record ManagedClientConnection (C : Type 0) : Type 0 where
  pub connect : ℕ → Exec (Abort ConnectionError) (C × World) Session
  pub disconnect : Exec ConnectionError (C × World) (Unit {0})
  pub disable : Exec ConnectionError (C × World) (Unit {0})

-- `impl ManagedClientConnection for LinuxWireGuardConnection`.
unfoldable pub linux_client : ManagedClientConnection LinuxWireGuardConnection
linux_client = record {
  connect = Connection.connect;
  disconnect = Connection.disconnect;
  disable = Connection.disable;
}

module _ {C : Type 0} (m : ManagedClientConnection C) where
  -- `if let Err(error) = connection.connect(cancellation) { … return Err(error); }`.
  unfoldable pub after_connect :
      Bool
      → Result (Abort ConnectionError) Session
      → Exec (Abort ConnectionError) (C × World) (Unit {0})
  after_connect always_on (ok _) = pure tt
  after_connect always_on (err panicked) = raise panicked
  after_connect always_on (err (returned error)) = do
    attempt (if not always_on then m.disable else pure tt)
    raise (returned error)

  -- What the closure waits for changes nothing of the connection.
  abbrev pub waiting : (World → World) → Exec (Abort ConnectionError) (C × World) (Unit {0})
  waiting wait_for_shutdown (c, w) = (ok tt, (c, wait_for_shutdown w))

  unfoldable pub run_until_shutdown :
      Bool → ℕ → (World → World) → Exec (Abort ConnectionError) (C × World) (Unit {0})
  run_until_shutdown always_on cancellation wait_for_shutdown = do
    connected ← attempt (m.connect cancellation)
    after_connect always_on connected
    waiting wait_for_shutdown
    mapped returned m.disconnect
    if not always_on then mapped returned m.disable else pure tt
