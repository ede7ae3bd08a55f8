-- ===== src/Handler/Lsu/Packet.antt =====
-- The loop of ospfd/handler/lsu.rs over the LSAs of a packet.
use mathlib.Core.Option.{some-injective}
use rust_ospfd.Prelude.{
  List, [], ◌∷◌, ◌++◌, some, ◌≡◌, sym, ap, ◌∙◌, ◌⊎◌, inl, inr, map, In, Bool-cases, Option-cases,
}
use rust_ospfd.Packet.Lsa.{Ipv4Addr, LsaHeader, Lsa}
use rust_ospfd.Neighbor.Event.{Env}
use rust_ospfd.Handler.Lsu.{
  Progress, Flow, go_on, break, is_admissible, take_answer, handle_one, handle_all,
}
use rust_ospfd.Handler.Lsu.Delayed.{AddsAtMost, take_answer-delay, IsRestarted, examine-cases}

go_not_break : (p q : Progress) → go_on p ≡ break q → ⊥
go_not_break p q e = absurd (cc)

abbrev value : Flow → Progress
value (go_on p) = p
value (break p) = p

-- If an LSA of an update makes the handler stop, the world and the list of delayed acknowledgements
-- are as before; the database wants no such LSA, it is on the request list of the neighbor, less
-- the request that it may have answered first, and the exchange with the neighbor starts again.
pub handle_one-IsRestarted :
    (env : Env) (src : Ipv4Addr) (l : Lsa) (p q : Progress)
    → handle_one env src l p ≡ some (break q)
    → (q.world ≡ p.world)
      × (q.delay ≡ p.delay)
      × ((p' : Progress) × (take_answer src l p ≡ some p') × IsRestarted env src l p' q)
unfolding handle_one
handle_one-IsRestarted env src l p q e = elim (Option-cases (is_admissible l p.interfaces.me)) [
  | inl n ↦ absurd (cc (rw (handle_one, n) at e))
  | inr (admissible, n) ↦ elim (Bool-cases admissible) [
    | inr b ↦ absurd (go_not_break p q (some-injective _ _ (rw (handle_one, n, b) at e)))
    | inl b ↦ elim (Option-cases (take_answer src l p)) [
      | inl t ↦ absurd (cc (rw (handle_one, n, b, t) at e))
      | inr (p', t) ↦
          let (kept, world) = take_answer-delay src l p {q = p'} t in
          elim (examine-cases env src l p' {f = break q} (rw (handle_one, n, b, t) at e)) [
            | inr (x, same, _) ↦ absurd (go_not_break x q (sym same))
            | inl (x, same, r) ↦
                let here : q ≡ x = ap value same in
                let left = here ∙ r.2 in
                (
                  ap (λ (y : Progress). y.world) left ∙ world,
                  ap (λ (y : Progress). y.delay) left ∙ kept,
                  (p', t, rw here r),
                )
          ]
    ]
  ]
]

handle_one-AddsAtMost :
    (env : Env) (src : Ipv4Addr) (l : Lsa) (p : Progress) (f : Flow)
    → handle_one env src l p ≡ some f
    → AddsAtMost l.header p.delay (value f).delay
unfolding handle_one
handle_one-AddsAtMost env src l p f e = elim (Option-cases (is_admissible l p.interfaces.me)) [
  | inl n ↦ absurd (cc (rw (handle_one, n) at e))
  | inr (admissible, n) ↦ elim (Bool-cases admissible) [
    | inr b ↦
        inl (
          ap (λ (x : Flow). (value x).delay)
            (sym (some-injective _ _ (rw (handle_one, n, b) at e))))
    | inl b ↦ elim (Option-cases (take_answer src l p)) [
      | inl t ↦ absurd (cc (rw (handle_one, n, b, t) at e))
      | inr (p', t) ↦
          let (kept, world) = take_answer-delay src l p {q = p'} t in
          elim (examine-cases env src l p' {f = f} (rw (handle_one, n, b, t) at e)) [
            | inr (x, same, adds) ↦ rw same (rw kept at adds)
            | inl (x, same, r) ↦ inl (
                ap (λ (y : Flow). (value y).delay) same ∙ ap (λ (y : Progress). y.delay) r.2 ∙ kept)
          ]
    ]
  ]
]

In-snoc : (h k : LsaHeader) (hs : List LsaHeader) → In h (hs ++ (k ∷ [])) → In h hs ⊎ (h ≡ k)
In-snoc h k [] (inl q) = inr q
In-snoc h k [] (inr m) = elim m [ ]
In-snoc h k (x ∷ hs) (inl q) = inl (inl q)
In-snoc h k (x ∷ hs) (inr m) = elim (In-snoc h k hs m) [ inl j ↦ inl (inr j) | inr q ↦ inr q ]

-- What an LSA adds to the list is its own header.
added_only :
    (h k : LsaHeader) (before after : List LsaHeader)
    → AddsAtMost k before after
    → In h after
    → In h before ⊎ (h ≡ k)
added_only h k before after (inl q) m = inl (rw q at m)
added_only h k before after (inr q) m = In-snoc h k before (rw q at m)

-- After the LSAs of an update are handled without a panic, every header in the list of delayed
-- acknowledgements was in it before or is that of an LSA of the update.
pub handle_all-delay :
    (env : Env) (src : Ipv4Addr) (ls : List Lsa) (p q : Progress) (h : LsaHeader)
    → handle_all env src ls p ≡ some q
    → In h q.delay
    → In h p.delay ⊎ In h (map (λ (l : Lsa). l.header) ls)
unfolding handle_all
handle_all-delay env src [] p q h e m = inl (rw (sym (some-injective _ _ e)) at m)
handle_all-delay env src (l ∷ ls) p q h e m = elim (Option-cases (handle_one env src l p)) [
  | inl n ↦ absurd (cc (rw (handle_all, n) at e))
  | inr (go_on x, n) ↦
      let adds = handle_one-AddsAtMost env src l p (go_on x) n in
      elim (handle_all-delay env src ls x q h (rw (handle_all, n) at e) m) [
        | inr j ↦ inr (inr j)
        | inl j ↦ elim (added_only h l.header p.delay x.delay adds j) [
          | inl k ↦ inl k
          | inr k ↦ inr (inl k)
        ]
      ]
  | inr (break x, n) ↦
      let adds = handle_one-AddsAtMost env src l p (break x) n in
      let last : q ≡ x = sym (some-injective _ _ (rw (handle_all, n) at e)) in
      elim (added_only h l.header p.delay x.delay adds (rw last at m)) [
        | inl k ↦ inl k
        | inr k ↦ inr (inl k)
      ]
]
