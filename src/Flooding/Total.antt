-- ===== src/Flooding/Total.antt =====
-- The flooding on one interface to its end.
use rust_ospfd.Prelude.{
  Bool, true, false, List, [], ◌∷◌, some, ◌≡◌, refl, inl, inr, ◌<◌, ◌+◌, ◌^◌, ◌==◌, get, nat_eq,
  Bool-cases, min, lt→ltb, not, ◌&&◌, ◌||◌,
}
use rust_ospfd.Packet.Lsa.{Ipv4Addr, Lsa, lsa_max_age}
use rust_ospfd.Neighbor.State.{Neighbor}
use rust_ospfd.Neighbor.State
use rust_ospfd.Neighbor.Event.{Env}
use rust_ospfd.Interface.State.{Interface, is_bdr}
use rust_ospfd.Area.Lsdb.{Area}
use rust_ospfd.Sender.{World}
use rust_ospfd.Sender.Total.{SendsWhole, send_packet_total}
use rust_ospfd.Flooding.{
  flood_neighbor, flood_neighbors, served_already, aged_copy, send_copy, flooding_on, update_of,
  flood_dest,
}

get-flood_neighbors :
    (src : Ipv4Addr) (l : Lsa) (k : Ipv4Addr) (m : List (Ipv4Addr × Neighbor)) {n : Neighbor}
    → get k m ≡ some n
    → (n' : Neighbor) × (get k (flood_neighbors src l m).0 ≡ some n')
unfolding flood_neighbors
get-flood_neighbors src l k [] e = absurd (cc)
get-flood_neighbors src l k ((j, x) ∷ m) {n} e = elim (Bool-cases (j == k)) [
  | inl q ↦ ((flood_neighbor src l x).0, rw q refl)
  | inr q ↦ let r = get-flood_neighbors src l k m {n = n} (rw q at e) in (r.0, rw q r.1)
]

served_already_total :
    (me src : Ipv4Addr) (i : Interface) {n : Neighbor}
    → get src i.neighbors ≡ some n
    → (b : Bool) × (served_already me src i ≡ some b)
unfolding served_already
served_already_total me src i {n} e =
    elim (Bool-cases (i.ip_addr == me && not (i.ip_addr == src))) [
      | inl q ↦ (State.is_dr n || (State.is_bdr n || is_bdr i), rw (q, e) refl)
      | inr q ↦ (false, rw q refl)
    ]

send_copy_total :
    (env : Env) (i : Interface) (l : Lsa) (w : World) {a : Area}
    → get i.area_id w.db.areas ≡ some a
    → l.header.ls_age + i.inf_trans_delay < 2 ^ 16
    → SendsWhole w
    → (w' : World) × (send_copy env i l w ≡ some (i, w', true))
unfolding send_copy aged_copy
send_copy_total env i l w {a} e lt up =
    let copy : Lsa = record l {
      header = record l.header { ls_age = min (l.header.ls_age + i.inf_trans_delay) lsa_max_age };
    } in
    let small = lt→ltb (l.header.ls_age + i.inf_trans_delay) (2 ^ 16) lt in
    let r = send_packet_total env i (update_of copy) (flood_dest i) w {a = a} e up in
    (r.0, rw (small, r.1) refl)

-- The flooding of an LSA on an interface ends without a panic if the interface's area is in the
-- database, the sender is a neighbor of the interface, the sum of the LSA's age and the
-- transmission delay is below 2 ^ 16, and the device sends the next packet whole.
pub flooding_on_total :
    (env : Env) (me src : Ipv4Addr) (l : Lsa) (i : Interface) (w : World) {a : Area} {n : Neighbor}
    → get i.area_id w.db.areas ≡ some a
    → get src i.neighbors ≡ some n
    → l.header.ls_age + i.inf_trans_delay < 2 ^ 16
    → SendsWhole w
    → (r : Interface × World × Bool) × (flooding_on env me src l i w ≡ some r)
unfolding flooding_on
flooding_on_total env me src l i w {a} {n} e g lt up =
    let j : Interface = record i { neighbors = (flood_neighbors src l i.neighbors).0 } in
    let f = get-flood_neighbors src l src i.neighbors {n = n} g in
    elim (Bool-cases (flood_neighbors src l i.neighbors).1) [
      | inr q ↦ ((j, w, false), rw q refl)
      | inl q ↦
          let (b, r) = served_already_total me src j {n = f.0} f.1 in
          elim (Bool-cases b) [
            | inl t ↦ ((j, w, false), rw (q, r, t) refl)
            | inr t ↦
                let s = send_copy_total env j l w {a = a} e lt up in
                ((j, s.0, true), rw (q, r, t, s.1) refl)
          ]
    ]
