-- ===== src/Handler/Lsu/Invariant.antt =====
-- An update (ospfd/handler/lsu.rs) keeps the interfaces valid.
use mathlib.Core.Option.{some-injective}
use rust_ospfd.Prelude.{
  none, ℕ, List, [], ◌∷◌, Option, some, ◌≡◌, ap, ◌∙◌, inl, inr, All, map, get, contains, remove_set,
  nat_eq, Bool-cases, Option-cases, not, ◌&&◌, ◌||◌, ◌==◌, ltb,
}
use rust_ospfd.Packet.Lsa.{Ipv4Addr, LsaHeader, Lsa, LsaIndex, index, index_eq, lsa_max_age}
use rust_ospfd.Packet.Types.{SubPacket}
use rust_ospfd.Neighbor.State
use rust_ospfd.Neighbor.State.{Neighbor}
use rust_ospfd.Neighbor.Invariant as Nbr
use rust_ospfd.Neighbor.Event.{Env, lsr_recv_update}
use rust_ospfd.Interface.State.{Interface}
use rust_ospfd.Interface.Invariant.{IsValid, AllValid, on_neighbor-IsValid}
use rust_ospfd.Area.Lsdb.{elapsed_secs}
use rust_ospfd.Database
use rust_ospfd.Flooding.{Interfaces, update_of}
use rust_ospfd.Flooding.Invariant.{AreValid, flooding-AreValid, with_neighbors-IsValid}
use rust_ospfd.Origin.{is_max_sequence_number}
use rust_ospfd.Origin.Invariant.{gen_summary_lsa-AreValid}
use rust_ospfd.Handler.Lsu.{
  Progress, min_ls_arrival, change_neighbor, is_backup, send, ack_of, is_answer, take_answer,
  forget_on, forget_in, forget_copy, accept, is_too_soon, newer, duplicate, older,
}
use rust_ospfd.Handler.Lsu.Send.{send-keeps, age_out-keeps}
use rust_ospfd.Handler.Lsu.Accepted.{accept-Accepted, ack_later-interfaces}

pub change_neighbor-AreValid :
    (src : Ipv4Addr) (f : Neighbor → Neighbor) (s : Interfaces)
    → ((n : Neighbor) → Nbr.IsValid n → Nbr.IsValid (f n))
    → AreValid s
    → AreValid (change_neighbor src f s)
change_neighbor-AreValid src f s keep h = (on_neighbor-IsValid src f s.me keep h.0, h.1)

forget_on-IsValid : (key : LsaIndex) (n : Neighbor) → Nbr.IsValid n → Nbr.IsValid (forget_on key n)
unfolding remove_set
forget_on-IsValid key n v = record {
  quiet = v.quiet;
  no_retransmission = λ le. ap (remove_set key) (v.no_retransmission le);
  no_summary = v.no_summary;
  no_request = v.no_request;
  synced = v.synced;
}

forget_on-AllValid :
    (key : LsaIndex) (m : List (Ipv4Addr × Neighbor))
    → AllValid m
    → AllValid (map (λ (p : Ipv4Addr × Neighbor). (p.0, forget_on key p.1)) m)
forget_on-AllValid key [] h = tt
forget_on-AllValid key ((k, n) ∷ m) h = (forget_on-IsValid key n h.0, forget_on-AllValid key m h.1)

forget_in-IsValid : (key : LsaIndex) (i : Interface) → IsValid i → IsValid (forget_in key i)
forget_in-IsValid key i v =
    with_neighbors-IsValid i _ v (forget_on-AllValid key i.neighbors v.neighbors_valid)

forget_in-AllValid :
    (key : LsaIndex) (is : List Interface) → All IsValid is → All IsValid (map (forget_in key) is)
forget_in-AllValid key [] h = tt
forget_in-AllValid key (i ∷ is) h = (forget_in-IsValid key i h.0, forget_in-AllValid key is h.1)

forget_copy-AreValid :
    (found : Option (Lsa × ℕ × ℕ)) (s : Interfaces) → AreValid s → AreValid (forget_copy found s)
forget_copy-AreValid none s h = h
forget_copy-AreValid (some copy) s h =
    let key = index copy.0.header in
    (forget_in-IsValid key s.me h.0, forget_in-AllValid key s.other h.1)

accept-AreValid :
    (env : Env) (src : Ipv4Addr) (l : Lsa) (found : Option (Lsa × ℕ × ℕ)) (p : Progress)
    {q : Progress}
    → AreValid p.interfaces
    → accept env src l found p ≡ some q
    → AreValid q.interfaces
accept-AreValid env src l found p {q} h e =
    let a = accept-Accepted env src l found p {q = q} e in
    let passed =
      flooding-AreValid env src l p.interfaces p.world {r = (a.passed, a.sent, a.flooded)} h
        a.flood in
    let mid : AreValid a.mid = rw a.forgot (forget_copy-AreValid found a.passed passed) in
    let after =
      gen_summary_lsa-AreValid env a.mid a.calculated {r = (a.after, a.summed)} mid a.announced in
    let kept = ack_later-interfaces src l.header a.flooded _ {q = a.last} a.acked in
    let same : q.interfaces ≡ a.after = elim a.aged [
      | inl r ↦ ap (λ (x : Progress). x.interfaces) r ∙ kept
      | inr r ↦ (age_out-keeps env src l a.last {q = q} r).1 ∙ kept
    ] in
    rw same after

pub take_answer-AreValid :
    (src : Ipv4Addr) (l : Lsa) (p : Progress) {q : Progress}
    → AreValid p.interfaces
    → take_answer src l p ≡ some q
    → AreValid q.interfaces
unfolding take_answer
take_answer-AreValid src l p {q} h e = elim (Option-cases (get src p.interfaces.me.neighbors)) [
  | inl n ↦ absurd (cc (rw (take_answer, n) at e))
  | inr (n, g) ↦ elim (Bool-cases (is_answer l n)) [
    | inl b ↦ rw (← some-injective _ _ (rw (take_answer, g, b) at e)) (
        change_neighbor-AreValid src lsr_recv_update p.interfaces
          (λ m. Nbr.lsr_recv_update-IsValid {n = m}) h)
    | inr b ↦ rw (← some-injective _ _ (rw (take_answer, g, b) at e)) h
  ]
]

pub send-AreValid :
    (env : Env) (x : SubPacket) (dest : Ipv4Addr) (p : Progress) {q : Progress}
    → AreValid p.interfaces
    → send env x dest p ≡ some q
    → AreValid q.interfaces
send-AreValid env x dest p {q} h e = rw ((send-keeps env x dest p {q = q} e).1) h

pub newer-AreValid :
    (env : Env) (src : Ipv4Addr) (l : Lsa) (p : Progress) {q : Progress}
    → AreValid p.interfaces
    → newer env src l p ≡ some q
    → AreValid q.interfaces
unfolding newer
newer-AreValid env src l p {q} h e =
    elim (Option-cases
      (Database.get_lsa env.now p.world.db p.interfaces.me.area_id (index l.header))) [
        | inl n ↦ absurd (cc (rw (newer, n) at e))
        | inr (found, n) ↦ elim (Bool-cases (is_too_soon env found)) [
          | inl b ↦ rw (← some-injective _ _ (rw (newer, n, b) at e)) h
          | inr b ↦ accept-AreValid env src l found p {q = q} h (rw (newer, n, b) at e)
        ]
      ]

pub duplicate-AreValid :
    (env : Env) (src : Ipv4Addr) (k : LsaHeader) (n : Neighbor) (p : Progress) {q : Progress}
    → AreValid p.interfaces
    → duplicate env src k n p ≡ some q
    → AreValid q.interfaces
unfolding duplicate
duplicate-AreValid env src k n p {q} h e =
    elim (Bool-cases (contains n.ls_retransmission_list (index k))) [
      | inr b ↦ send-AreValid env (ack_of k) src p {q = q} h (rw (duplicate, b) at e)
      | inl b ↦
          let kept =
            change_neighbor-AreValid src (forget_on (index k)) p.interfaces
              (forget_on-IsValid (index k)) h in
          elim (Bool-cases (is_backup p.interfaces.me.state && State.is_dr n)) [
            | inl c ↦ rw (← some-injective _ _ (rw (duplicate, b, c) at e)) kept
            | inr c ↦ rw (← some-injective _ _ (rw (duplicate, b, c) at e)) kept
          ]
    ]

pub older-AreValid :
    (env : Env) (src : Ipv4Addr) (copy : Lsa) (updated : ℕ) (p : Progress) {q : Progress}
    → AreValid p.interfaces
    → older env src copy updated p ≡ some q
    → AreValid q.interfaces
unfolding older
older-AreValid env src copy updated p {q} h e =
    elim (Bool-cases (
      copy.header.ls_age == lsa_max_age && is_max_sequence_number copy.header.ls_sequence_number
      || not (ltb min_ls_arrival (elapsed_secs env.now updated)))) [
        | inl b ↦ rw (← some-injective _ _ (rw (older, b) at e)) h
        | inr b ↦ send-AreValid env (update_of copy) src p {q = q} h (rw (older, b) at e)
      ]
