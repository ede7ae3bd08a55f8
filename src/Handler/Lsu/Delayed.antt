-- ===== src/Handler/Lsu/Delayed.antt =====
-- What ospfd/handler/lsu.rs acknowledges at the end of a packet.
use mathlib.Core.Option.{some-injective}
use rust_ospfd.Prelude.{
  ℕ, Bool, true, false, List, [], ◌∷◌, ◌++◌, Option, some, none, ◌≡◌, refl, sym, ap, ◌⊎◌, inl, inr,
  get, any, not, ◌&&◌, ◌||◌, contains, nat_eq, Bool-cases, Option-cases, ltb, ◌==◌, if◌then◌else◌,
  ◌>>=◌,
}
use rust_ospfd.Packet.Lsa.{Ipv4Addr, LsaHeader, Lsa, index, index_eq, lsa_max_age}
use rust_ospfd.Packet.Order.{header_eq}
use rust_ospfd.Neighbor.State
use rust_ospfd.Neighbor.State.{Neighbor}
use rust_ospfd.Neighbor.Event.{Env, restart_exchange}
use rust_ospfd.Area.Lsdb.{elapsed_secs}
use rust_ospfd.Database
use rust_ospfd.Flooding.{update_of}
use rust_ospfd.Origin.{is_max_sequence_number}
use rust_ospfd.Handler.Lsu.Send.{send-keeps, age_out-keeps}
use rust_ospfd.Handler.Lsu.Accepted.{accept-Accepted}
use rust_ospfd.Handler.Lsu.{
  Progress, Flow, go_on, break, change_neighbor, delayed, is_backup, send, ack_of, is_answer,
  take_answer, is_discarded, ack_later, accept, is_too_soon, newer, duplicate, older, not_newer,
  examine, min_ls_arrival,
}

-- At most the header of the LSA is added to the list.
abbrev pub AddsAtMost : LsaHeader → List LsaHeader → List LsaHeader → Type 0
AddsAtMost h before after = (after ≡ before) ⊎ (after ≡ before ++ (h ∷ []))

abbrev pub progress_of : Flow → Progress
progress_of (go_on p) = p
progress_of (break p) = p

pub take_answer-delay :
    (src : Ipv4Addr) (l : Lsa) (p : Progress) {q : Progress}
    → take_answer src l p ≡ some q
    → (q.delay ≡ p.delay) × (q.world ≡ p.world)
unfolding take_answer
take_answer-delay src l p {q} e = elim (Option-cases (get src p.interfaces.me.neighbors)) [
  | inl n ↦ absurd (cc (rw (take_answer, n) at e))
  | inr (n, g) ↦ elim (Bool-cases (is_answer l n)) [
    | inl b ↦ rw (← some-injective _ _ (rw (take_answer, g, b) at e)) (refl, refl)
    | inr b ↦ rw (← some-injective _ _ (rw (take_answer, g, b) at e)) (refl, refl)
  ]
]

if_wanted :
    (h : LsaHeader) (p : Progress) (o : Option Bool) {q : Progress}
    → (o >>= λ b. some (if b then delayed h p else p)) ≡ some q
    → AddsAtMost h p.delay q.delay
if_wanted h p none e = absurd (cc)
if_wanted h p (some true) e = rw (← some-injective _ _ e) (inr refl)
if_wanted h p (some false) e = rw (← some-injective _ _ e) (inl refl)

ack_later-AddsAtMost :
    (src : Ipv4Addr) (h : LsaHeader) (flooded : Bool) (p : Progress) {q : Progress}
    → ack_later src h flooded p ≡ some q
    → AddsAtMost h p.delay q.delay
unfolding ack_later
ack_later-AddsAtMost src h true p {q} e =
    inl (ap (λ (x : Progress). x.delay) (sym (some-injective _ _ e)))
ack_later-AddsAtMost src h false p {q} e = if_wanted h p _ {q = q} e

accept-AddsAtMost :
    (env : Env) (src : Ipv4Addr) (l : Lsa) (found : Option (Lsa × ℕ × ℕ)) (p : Progress)
    {q : Progress}
    → accept env src l found p ≡ some q
    → AddsAtMost l.header p.delay q.delay
accept-AddsAtMost env src l found p {q} e =
    let a = accept-Accepted env src l found p {q = q} e in
    let added = ack_later-AddsAtMost src l.header a.flooded _ {q = a.last} a.acked in
    elim a.aged [
      | inl r ↦ rw r added
      | inr r ↦ rw ((age_out-keeps env src l a.last {q = q} r).0) added
    ]

newer-AddsAtMost :
    (env : Env) (src : Ipv4Addr) (l : Lsa) (p : Progress) {q : Progress}
    → newer env src l p ≡ some q
    → AddsAtMost l.header p.delay q.delay
unfolding newer
newer-AddsAtMost env src l p {q} e =
    elim (Option-cases
      (Database.get_lsa env.now p.world.db p.interfaces.me.area_id (index l.header))) [
        | inl n ↦ absurd (cc (rw (newer, n) at e))
        | inr (found, n) ↦ elim (Bool-cases (is_too_soon env found)) [
          | inl b ↦
              inl
                (ap (λ (x : Progress). x.delay) (sym (some-injective _ _ (rw (newer, n, b) at e))))
          | inr b ↦ accept-AddsAtMost env src l found p {q = q} (rw (newer, n, b) at e)
        ]
      ]

duplicate-AddsAtMost :
    (env : Env) (src : Ipv4Addr) (h : LsaHeader) (n : Neighbor) (p : Progress) {q : Progress}
    → duplicate env src h n p ≡ some q
    → AddsAtMost h p.delay q.delay
unfolding duplicate
duplicate-AddsAtMost env src h n p {q} e =
    elim (Bool-cases (contains n.ls_retransmission_list (index h))) [
      | inr b ↦ inl (send-keeps env (ack_of h) src p {q = q} (rw (duplicate, b) at e)).0
      | inl b ↦ elim (Bool-cases (is_backup p.interfaces.me.state && State.is_dr n)) [
        | inl c ↦ rw (← some-injective _ _ (rw (duplicate, b, c) at e)) (inr refl)
        | inr c ↦ rw (← some-injective _ _ (rw (duplicate, b, c) at e)) (inl refl)
      ]
    ]

older-delay :
    (env : Env) (src : Ipv4Addr) (copy : Lsa) (updated : ℕ) (p : Progress) {q : Progress}
    → older env src copy updated p ≡ some q
    → q.delay ≡ p.delay
unfolding older
older-delay env src copy updated p {q} e =
    elim (Bool-cases (
      copy.header.ls_age == lsa_max_age && is_max_sequence_number copy.header.ls_sequence_number
      || not (ltb min_ls_arrival (elapsed_secs env.now updated)))) [
        | inl b ↦ ap (λ (x : Progress). x.delay) (sym (some-injective _ _ (rw (older, b) at e)))
        | inr b ↦ (send-keeps env (update_of copy) src p {q = q} (rw (older, b) at e)).0
      ]

-- The LSA is on the request list of the neighbor.
abbrev pub IsRequested : Ipv4Addr → Lsa → Progress → Type 0
IsRequested src l p =
    (n : Neighbor) × (get src p.interfaces.me.neighbors ≡ some n)
    × (any (λ (h : LsaHeader). header_eq h l.header) n.ls_request_list ≡ true)

abbrev pub restarted : Env → Ipv4Addr → Progress → Progress
restarted env src p = record p {
  interfaces = change_neighbor src (restart_exchange env) p.interfaces;
}

-- Steps 6 to 8 end at the restart of the exchange, or go on.
not_newer-cases :
    (env : Env) (src : Ipv4Addr) (l : Lsa) (p : Progress) {f : Flow}
    → not_newer env src l p ≡ some f
    → IsRequested src l p × (f ≡ break (restarted env src p))
      ⊎ ((q : Progress) × (f ≡ go_on q) × AddsAtMost l.header p.delay q.delay)
unfolding not_newer
not_newer-cases env src l p {f} e = elim (Option-cases (get src p.interfaces.me.neighbors)) [
  | inl n ↦ absurd (cc (rw (not_newer, n) at e))
  | inr (n, g) ↦
      elim (Bool-cases (any (λ (h : LsaHeader). header_eq h l.header) n.ls_request_list)) [
        | inl b ↦ inl ((n, g, b), sym (some-injective _ _ (rw (not_newer, g, b) at e)))
        | inr b ↦
            elim (Option-cases
              (Database.get_lsa env.now p.world.db p.interfaces.me.area_id (index l.header))) [
                | inl d ↦ absurd (cc (rw (not_newer, g, b, d) at e))
                | inr (found, d) ↦ elim (Option-cases found) [
                  | inl x ↦ absurd (cc (rw (not_newer, g, b, d, x) at e))
                  | inr ((copy, created, updated), x) ↦
                      elim (Bool-cases (header_eq copy.header l.header)) [
                        | inl c ↦ elim (Option-cases (duplicate env src l.header n p)) [
                          | inl y ↦ absurd (cc (rw (not_newer, g, b, d, x, c, y) at e))
                          | inr (q, y) ↦ inr (
                            q,
                            sym (some-injective _ _ (rw (not_newer, g, b, d, x, c, y) at e)),
                            duplicate-AddsAtMost env src l.header n p {q = q} y,
                          )
                        ]
                        | inr c ↦ elim (Option-cases (older env src copy updated p)) [
                          | inl y ↦ absurd (cc (rw (not_newer, g, b, d, x, c, y) at e))
                          | inr (q, y) ↦ inr (
                            q,
                            sym (some-injective _ _ (rw (not_newer, g, b, d, x, c, y) at e)),
                            inl (older-delay env src copy updated p {q = q} y),
                          )
                        ]
                      ]
                ]
              ]
      ]
]

abbrev pub IsRestarted : Env → Ipv4Addr → Lsa → Progress → Progress → Type 0
IsRestarted env src l p q =
    (Database.need_update env.now p.world.db p.interfaces.me.area_id l.header ≡ some false)
    × IsRequested src l p
    × (q ≡ restarted env src p)

pub examine-cases :
    (env : Env) (src : Ipv4Addr) (l : Lsa) (p : Progress) {f : Flow}
    → examine env src l p ≡ some f
    → ((q : Progress) × (f ≡ break q) × IsRestarted env src l p q)
      ⊎ ((q : Progress) × (f ≡ go_on q) × AddsAtMost l.header p.delay q.delay)
unfolding examine
examine-cases env src l p {f} e = elim (Option-cases (is_discarded l p)) [
  | inl n ↦ absurd (cc (rw (examine, n) at e))
  | inr (discarded, n) ↦
      elim (Option-cases
        (Database.need_update env.now p.world.db p.interfaces.me.area_id l.header)) [
          | inl u ↦ absurd (cc (rw (examine, n, u) at e))
          | inr (update, u) ↦ elim (Bool-cases discarded) [
            | inl b ↦ elim (Option-cases (send env (ack_of l.header) src p)) [
              | inl y ↦ absurd (cc (rw (examine, n, u, b, y) at e))
              | inr (q, y) ↦ inr (
                q,
                sym (some-injective _ _ (rw (examine, n, u, b, y) at e)),
                inl (send-keeps env (ack_of l.header) src p {q = q} y).0,
              )
            ]
            | inr b ↦ elim (Bool-cases update) [
              | inl c ↦ elim (Option-cases (newer env src l p)) [
                | inl y ↦ absurd (cc (rw (examine, n, u, b, c, y) at e))
                | inr (q, y) ↦ inr (
                  q,
                  sym (some-injective _ _ (rw (examine, n, u, b, c, y) at e)),
                  newer-AddsAtMost env src l p {q = q} y,
                )
              ]
              | inr c ↦ elim (not_newer-cases env src l p {f = f} (rw (examine, n, u, b, c) at e)) [
                | inl (r, same) ↦
                    let stale : Database.need_update env.now p.world.db p.interfaces.me.area_id
                          l.header
                        ≡ some false =
                      rw (← c) u in
                    inl (restarted env src p, same, (stale, r, refl))
                | inr r ↦ inr r
              ]
            ]
          ]
        ]
]
