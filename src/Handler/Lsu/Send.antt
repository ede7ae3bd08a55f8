-- ===== src/Handler/Lsu/Send.antt =====
-- What the sending of packets in ospfd/handler/lsu.rs leaves alone.
use mathlib.Core.Option.{some-injective}
use rust_ospfd.Prelude.{some, ◌≡◌, refl, inl, inr, nat_eq, Option-cases}
use rust_ospfd.Packet.Lsa.{Ipv4Addr, Lsa, index_eq, lsa_max_age}
use rust_ospfd.Packet.Types.{SubPacket}
use rust_ospfd.Neighbor.Event.{Env}
use rust_ospfd.Database
use rust_ospfd.Sender.{send_packet}
use rust_ospfd.Flooding.{update_of}
use rust_ospfd.Handler.Lsu.{Progress, send, age_out}

pub send-keeps :
    (env : Env) (x : SubPacket) (dest : Ipv4Addr) (p : Progress) {q : Progress}
    → send env x dest p ≡ some q
    → (q.delay ≡ p.delay) × (q.interfaces ≡ p.interfaces)
unfolding send
send-keeps env x dest p {q} e =
    elim (Option-cases (send_packet env p.interfaces.me x dest p.world)) [
      | inl n ↦ absurd (cc (rw (send, n) at e))
      | inr (w, n) ↦ rw (← some-injective _ _ (rw (send, n) at e)) (refl, refl)
    ]

pub age_out-keeps :
    (env : Env) (src : Ipv4Addr) (l : Lsa) (p : Progress) {q : Progress}
    → age_out env src l p ≡ some q
    → (q.delay ≡ p.delay) × (q.interfaces ≡ p.interfaces)
unfolding age_out
age_out-keeps env src l p {q} e =
    let old = record l { header = record l.header { ls_age = lsa_max_age } } in
    elim (Option-cases (Database.insert_lsa env.now p.world.db p.interfaces.me.area_id old)) [
      | inl n ↦ absurd (cc (rw (age_out, n) at e))
      | inr (db, n) ↦
          send-keeps env (update_of old) src (record p { world = record p.world { db = db } })
            {q = q} (rw (age_out, n) at e)
    ]
