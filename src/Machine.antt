-- ===== src/Machine.antt =====
-- The whole system (ebpf/ebpf.c, src/udpgrm.c): any sequence of option calls, binds, sendmsgs,
-- packets, what the daemon does to the maps, closed sockets and evicted flows, over the maps.
pub mod Walks
pub mod Counts
pub mod Options
pub mod Evolves
pub mod Invariant
pub mod Handling
use udpgrm.Base.{ℕ, List, [], ◌∷◌, ◌≡◌, none, some, ◌==◌, if◌then◌else◌}
use udpgrm.Storage.{World, SocketStorage, Msg}
use udpgrm.Storage.Helpers.{Kernel, BpfSock, Packet}
use udpgrm.Flow.{BpfSockAddr, udp_sendmsg}
use udpgrm.Hook.{BpfSockopt}
use udpgrm.Sockopt.{put_socket, setsockopt}
use udpgrm.Bind.{BindHelpers, bpf_bind}
use udpgrm.Reuseport.{Bespoke, reuseport_prog}
use udpgrm.Callback.{cb_update_map}

-- One step: a program that runs to its end with any answers of the kernel, or what the daemon and the
-- kernel do to the maps themselves. The command `delete`, which removes a group, is no step.
pub data Step (bespoke : Bespoke) : World → World → Type 0 where
  option : (k : Kernel) (w : World) (ctx : BpfSockopt) → Step bespoke w (setsockopt k w ctx).world
  send :
      (k : Kernel) (w : World) (ctx : BpfSockAddr) (family : ℕ)
      → Step bespoke w (udp_sendmsg k w ctx family)
  packet : (k : Kernel) (w : World) (md : Packet) → Step bespoke w (reuseport_prog bespoke k w md).0
  bind : (h : BindHelpers) (w : World) (ctx : BpfSockAddr) → Step bespoke w (bpf_bind h w ctx)
  update : (w : World) (size : ℕ) (msg : Msg) → Step bespoke w (cb_update_map w size msg).0
  -- The daemon writes back the storage of a socket, as a lookup gave it to it, with a new index.
  store :
      (w : World) (sk : BpfSock) (s now : SocketStorage) (idx : ℕ)
      → w.sockets sk.id ≡ some now
      → Step bespoke w (put_socket w sk (record s { sock_idx = idx }))
  take_message :
      (w : World) (msg : Msg) (rest : List Msg)
      → w.ring ≡ msg ∷ rest
      → Step bespoke w (record w { ring = rest })
  close :
      (w : World) (id : ℕ)
      → Step bespoke w (record w { sockets = λ i. if i == id then none else w.sockets i })
  evict :
      (w : World) (hash : ℕ)
      → Step bespoke w (record w { flows = λ h. if h == hash then none else w.flows h })

pub data Reach (bespoke : Bespoke) (w : World) : World → Type 0 where
  here : Reach bespoke w w
  next : {v u : World} → Reach bespoke w v → Step bespoke v u → Reach bespoke w u

-- No group, no socket, no flow and no message.
abbrev pub empty_maps : World
empty_maps = record { groups = []; sockets = λ _. none; flows = λ _. none; ring = [] }
