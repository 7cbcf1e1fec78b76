-- ===== src/Websocket/Base/Shutdown.antt =====
-- Close of pkg/websocket/websocket.go: what it leaves behind, and when it returns.
use go_exchange_connector.Prelude.{ℕ, true, [], none, ◌≡◌, refl, arith}
use go_exchange_connector.Websocket.Options.{Options}
use go_exchange_connector.Websocket.Base.{
  Socket, connected, Dial, refused, hook_failed, accepted, dial_sync, connect, close,
  read_loop_reports, read_loop_cleans,
}

-- A connected socket that is closed, and whose read loop then ends, holds no connection but goes on
-- reporting the status connected; OnDisconnect is not called.
pub close_keeps_connected :
    (c : ℕ) (s : Socket)
    → s.status ≡ connected
    → s.has_cancel ≡ true
    → let s' = read_loop_cleans c (close s).0 in
      (s'.status ≡ connected) × (s'.conn ≡ none) × (read_loop_reports c (close s).0 ≡ [])
unfolding close read_loop_reports read_loop_cleans
close_keeps_connected c s up can = ground arith

-- Close returns after a Connect exactly if that Connect succeeded: after a failed one it waits for
-- a channel that no goroutine will close.
pub close-connect_returns :
    (opts : Options) (dial : Dial) (now : ℕ) (s : Socket)
    → let (s', _, ok) = connect opts dial now s in (close s').1 ≡ ok
unfolding close connect dial_sync
close-connect_returns opts refused now s = refl
close-connect_returns opts (hook_failed c) now s = refl
close-connect_returns opts (accepted c) now s = refl
