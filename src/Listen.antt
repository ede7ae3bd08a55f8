-- ===== src/Listen.antt =====
-- ospfd/interface/listen.rs: what a router does for each interface every eight seconds. Whether the
-- host's device is up, and is a loopback device, is given. `none` is a panic.
use rust_ospfd.Prelude.{Bool, Option, if◌then◌else◌, ◌>>=◌}
use rust_ospfd.Neighbor.Event.{Env}
use rust_ospfd.Interface.State.{Interface}
use rust_ospfd.Interface.Event.{
  NetworkInterface, is_loopback, interface_up, interface_down, loop_ind, unloop_ind,
}
use rust_ospfd.Sender.{World}
use rust_ospfd.Flooding.{Interfaces}
use rust_ospfd.Origin.{gen_router_lsa, gen_network_lsa, gen_summary_lsa}

pub record Device : Type 0 where
  pub up : Bool
  pub loops : Bool
  pub net : NetworkInterface

-- The event that the device calls for.
unfoldable pub follow_device : Device → Interface → Interface
follow_device d i =
    if d.up
    then (if d.loops
        then loop_ind i
        else if is_loopback i.state
        then unloop_ind i
        else interface_up d.net i)
    else interface_down i

-- A round of `listen_interface`.
unfoldable pub listen_round : Env → Device → Interfaces → World → Option (Interfaces × World)
unfolding follow_device gen_router_lsa gen_network_lsa gen_summary_lsa
listen_round env d s w = do
  (s1, w1) ← gen_router_lsa env (record s { me = follow_device d s.me }) w
  (s2, w2) ← gen_network_lsa env s1 w1
  gen_summary_lsa env s2 w2
