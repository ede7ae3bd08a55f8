-- ===== src/Handler/Lsu/Valid.antt =====
-- A whole update (ospfd/handler/lsu.rs) keeps the interfaces valid.
use mathlib.Core.Option.{some-injective}
use rust_ospfd.Prelude.{
  List, [], ◌∷◌, some, ◌≡◌, inl, inr, any, get, nat_eq, Bool-cases, Option-cases, is_empty, ◌>>=◌,
}
use rust_ospfd.Packet.Lsa.{Ipv4Addr, LsaHeader, Lsa, index, index_eq}
use rust_ospfd.Packet.Order.{header_eq}
use rust_ospfd.Packet.Types.{SubPacket, LsUpdate}
use rust_ospfd.Neighbor.Invariant as Nbr
use rust_ospfd.Neighbor.Event.{Env, restart_exchange}
use rust_ospfd.Database
use rust_ospfd.Sender.{World}
use rust_ospfd.Flooding.{Interfaces}
use rust_ospfd.Flooding.Invariant.{AreValid}
use rust_ospfd.Handler.Lsu.{
  Progress, Flow, go_on, break, send, ack_of, is_admissible, take_answer, is_discarded, newer,
  duplicate, older, not_newer, examine, handle_one, handle_all, handle,
}
use rust_ospfd.Handler.Lsu.Invariant.{
  change_neighbor-AreValid, take_answer-AreValid, send-AreValid, newer-AreValid, duplicate-AreValid,
  older-AreValid,
}
use rust_ospfd.Handler.Lsu.Delayed.{progress_of}

not_newer-AreValid :
    (env : Env) (src : Ipv4Addr) (l : Lsa) (p : Progress) {f : Flow}
    → AreValid p.interfaces
    → not_newer env src l p ≡ some f
    → AreValid (progress_of f).interfaces
unfolding not_newer
not_newer-AreValid env src l p {f} h e = elim (Option-cases (get src p.interfaces.me.neighbors)) [
  | inl n ↦ absurd (cc (rw (not_newer, n) at e))
  | inr (n, g) ↦
      elim (Bool-cases (any (λ (k : LsaHeader). header_eq k l.header) n.ls_request_list)) [
        | inl b ↦ rw (← some-injective _ _ (rw (not_newer, g, b) at e)) (
            change_neighbor-AreValid src (restart_exchange env) p.interfaces
              (λ m. Nbr.restart_exchange-IsValid env {n = m}) h)
        | inr b ↦
            elim (Option-cases
              (Database.get_lsa env.now p.world.db p.interfaces.me.area_id (index l.header))) [
                | inl d ↦ absurd (cc (rw (not_newer, g, b, d) at e))
                | inr (found, d) ↦ elim (Option-cases found) [
                  | inl x ↦ absurd (cc (rw (not_newer, g, b, d, x) at e))
                  | inr ((copy, created, updated), x) ↦
                      elim (Bool-cases (header_eq copy.header l.header)) [
                        | inl c ↦ elim (Option-cases (duplicate env src l.header n p)) [
                          | inl y ↦ absurd (cc (rw (not_newer, g, b, d, x, c, y) at e))
                          | inr (q, y) ↦
                              rw (← some-injective _ _ (rw (not_newer, g, b, d, x, c, y) at e))
                                (duplicate-AreValid env src l.header n p {q = q} h y)
                        ]
                        | inr c ↦ elim (Option-cases (older env src copy updated p)) [
                          | inl y ↦ absurd (cc (rw (not_newer, g, b, d, x, c, y) at e))
                          | inr (q, y) ↦
                              rw (← some-injective _ _ (rw (not_newer, g, b, d, x, c, y) at e))
                                (older-AreValid env src copy updated p {q = q} h y)
                        ]
                      ]
                ]
              ]
      ]
]

examine-AreValid :
    (env : Env) (src : Ipv4Addr) (l : Lsa) (p : Progress) {f : Flow}
    → AreValid p.interfaces
    → examine env src l p ≡ some f
    → AreValid (progress_of f).interfaces
unfolding examine
examine-AreValid env src l p {f} h e = elim (Option-cases (is_discarded l p)) [
  | inl n ↦ absurd (cc (rw (examine, n) at e))
  | inr (discarded, n) ↦
      elim (Option-cases
        (Database.need_update env.now p.world.db p.interfaces.me.area_id l.header)) [
          | inl u ↦ absurd (cc (rw (examine, n, u) at e))
          | inr (update, u) ↦ elim (Bool-cases discarded) [
            | inl b ↦ elim (Option-cases (send env (ack_of l.header) src p)) [
              | inl y ↦ absurd (cc (rw (examine, n, u, b, y) at e))
              | inr (q, y) ↦
                  rw (← some-injective _ _ (rw (examine, n, u, b, y) at e))
                    (send-AreValid env (ack_of l.header) src p {q = q} h y)
            ]
            | inr b ↦ elim (Bool-cases update) [
              | inl c ↦ elim (Option-cases (newer env src l p)) [
                | inl y ↦ absurd (cc (rw (examine, n, u, b, c, y) at e))
                | inr (q, y) ↦
                    rw (← some-injective _ _ (rw (examine, n, u, b, c, y) at e))
                      (newer-AreValid env src l p {q = q} h y)
              ]
              | inr c ↦ not_newer-AreValid env src l p {f = f} h (rw (examine, n, u, b, c) at e)
            ]
          ]
        ]
]

handle_one-AreValid :
    (env : Env) (src : Ipv4Addr) (l : Lsa) (p : Progress) {f : Flow}
    → AreValid p.interfaces
    → handle_one env src l p ≡ some f
    → AreValid (progress_of f).interfaces
unfolding handle_one
handle_one-AreValid env src l p {f} h e = elim (Option-cases (is_admissible l p.interfaces.me)) [
  | inl n ↦ absurd (cc (rw (handle_one, n) at e))
  | inr (admissible, n) ↦ elim (Bool-cases admissible) [
    | inr b ↦ rw (← some-injective _ _ (rw (handle_one, n, b) at e)) h
    | inl b ↦ elim (Option-cases (take_answer src l p)) [
      | inl t ↦ absurd (cc (rw (handle_one, n, b, t) at e))
      | inr (p', t) ↦
          examine-AreValid env src l p' {f = f} (take_answer-AreValid src l p {q = p'} h t)
            (rw (handle_one, n, b, t) at e)
    ]
  ]
]

handle_all-AreValid :
    (env : Env) (src : Ipv4Addr) (ls : List Lsa) (p : Progress) {q : Progress}
    → AreValid p.interfaces
    → handle_all env src ls p ≡ some q
    → AreValid q.interfaces
unfolding handle_all
handle_all-AreValid env src [] p {q} h e = rw (← some-injective _ _ e) h
handle_all-AreValid env src (l ∷ ls) p {q} h e = elim (Option-cases (handle_one env src l p)) [
  | inl n ↦ absurd (cc (rw (handle_all, n) at e))
  | inr (go_on x, n) ↦
      handle_all-AreValid env src ls x {q = q} (handle_one-AreValid env src l p {f = go_on x} h n)
        (rw (handle_all, n) at e)
  | inr (break x, n) ↦
      rw (← some-injective _ _ (rw (handle_all, n) at e))
        (handle_one-AreValid env src l p {f = break x} h n)
]

sent-AreValid :
    (env : Env) (p : Progress) (x : SubPacket) (dest : Ipv4Addr) {r : Interfaces × World}
    → AreValid p.interfaces
    → (send env x dest p >>= λ q. some (q.interfaces, q.world)) ≡ some r
    → AreValid r.0
sent-AreValid env p x dest {r} h e = elim (Option-cases (send env x dest p)) [
  | inl n ↦ absurd (cc (rw n at e))
  | inr (q, n) ↦ rw (← some-injective _ _ (rw n at e)) (send-AreValid env x dest p {q = q} h n)
]

pub handle-AreValid :
    (env : Env) (src : Ipv4Addr) (packet : LsUpdate) (s : Interfaces) (w : World)
    {r : Interfaces × World}
    → AreValid s
    → handle env src packet s w ≡ some r
    → AreValid r.0
unfolding handle
handle-AreValid env src packet s w {r} h e =
    let p0 : Progress = record { interfaces = s; world = w; delay = [] } in
    elim (Option-cases (handle_all env src packet.lsa p0)) [
      | inl n ↦ absurd (cc (rw (handle, n) at e))
      | inr (p, n) ↦
          let kept = handle_all-AreValid env src packet.lsa p0 {q = p} h n in
          elim (Bool-cases (is_empty p.delay)) [
            | inl b ↦ rw (← some-injective _ _ (rw (handle, n, b) at e)) kept
            | inr b ↦ sent-AreValid env p _ _ kept (rw (handle, n, b) at e)
          ]
    ]
