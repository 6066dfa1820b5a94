-- ===== src/Machine/Handling.antt =====
-- handle_msg of the daemon as steps of the system (src/udpgrm.c).
use udpgrm.Base.{◌≡◌}
use udpgrm.Storage.{World, sock_key}
use udpgrm.Reuseport.{Bespoke}
use udpgrm.Daemon.{DaemonState, Handled, go_on}
use udpgrm.Machine.{Reach}

module _ (b : Bespoke) (w : World) where
  -- Where the daemon goes on, its maps are reached from w.
  abbrev Goes : Handled → Type 0
  Goes h = (d' : DaemonState) → h ≡ go_on d' → Reach b w d'.maps
