-- ===== src/Machine/Invariant.antt =====
-- What holds of all groups in every reachable state of the maps (ebpf/ebpf.c).
use udpgrm.Base.{refl, lookup}
use udpgrm.Storage.{World, sock_key}
use udpgrm.Storage.Identity.{Keeps, AllGroups}
use udpgrm.Sockopt.{put_socket}
use udpgrm.Reuseport.{Bespoke}
use udpgrm.Machine.{
  Step, option, send, packet, bind, update, store, take_message, close, evict, Reach, here, next,
  empty_maps,
}
use udpgrm.Machine.Evolves.{
  SameIdentity, SameIdentity-trans, InOrder, Evolves, Evolves-same, Evolves-option, Evolves-send,
  Evolves-packet, Evolves-bind, Evolves-update,
}

Step-Evolves : (b : Bespoke) (w w' : World) → Step b w w' → Evolves w w'
Step-Evolves b _ _ (option k w ctx) = Evolves-option k w ctx
Step-Evolves b _ _ (send k w ctx family) = Evolves-send k w ctx family
Step-Evolves b _ _ (packet k w md) = Evolves-packet b k w md
Step-Evolves b _ _ (bind h w ctx) = Evolves-bind h w ctx
Step-Evolves b _ _ (update w size msg) = Evolves-update w size msg
Step-Evolves b _ _ (store w sk s now idx e) = Evolves-same w _ (unfold put_socket in refl)
Step-Evolves b _ _ (take_message w msg rest e) = Evolves-same w _ refl
Step-Evolves b _ _ (close w id) = Evolves-same w _ refl
Step-Evolves b _ _ (evict w hash) = Evolves-same w _ refl

pub Reach-Evolves : (b : Bespoke) (w w' : World) → Reach b w w' → Evolves w w'
Reach-Evolves b w _ here = Evolves-same w w refl
Reach-Evolves b w w' (next {v} r st) =
    let before = Reach-Evolves b w v r in
    let after = Step-Evolves b v w' st in
    record {
      keeps = record {
        at = λ j a h.
            let (a', h', same) = before.keeps.at j a h in
            let (a'', h'', same') = after.keeps.at j a' h' in
            (a'', h'', SameIdentity-trans a a' a'' same same');
      };
      orders = λ all. after.orders (before.orders all);
    }

-- From empty maps, by any interleaving of option calls, binds, sendmsgs, packets, updates of the
-- groups and of the storage of sockets by the daemon, messages that it takes, closed sockets and
-- evicted flows, but not of the command `delete`, whatever the kernel answers: every group has a
-- dissector that passed the checks, and its counters account for every packet and every sendmsg; and
-- through any further steps it stays, with its dissector, its random id and its network namespace.
pub reachable-InOrder :
    (b : Bespoke) (w w' : World)
    → Reach b empty_maps w
    → Reach b w w'
    → AllGroups InOrder w × Keeps SameIdentity w w'
unfolding lookup
reachable-InOrder b w w' r r' = (
  (Reach-Evolves b empty_maps w r).orders (record { at = λ j a h. absurd (cc h) }),
  (Reach-Evolves b w w' r').keeps,
)
