-- ===== src/Origin/Invariant.antt =====
-- The LSAs of ospfd/gen_lsa.rs keep the interfaces valid.
use mathlib.Core.Option.{some-injective}
use rust_ospfd.Prelude.{
  ℕ, List, [], ◌∷◌, some, ◌≡◌, inl, inr, Bool-cases, Option-cases, ltb, length, values,
}
use rust_ospfd.Packet.Lsa.{Ipv4Addr, LsaHeader, Lsa, SummaryLsa, index}
use rust_ospfd.Packet.Convert.{Converted, summary_to_lsa}
use rust_ospfd.Neighbor.Event.{Env}
use rust_ospfd.Database
use rust_ospfd.Sender.{World}
use rust_ospfd.Flooding.{Interfaces, flooding}
use rust_ospfd.Flooding.Invariant.{AreValid, flooding-AreValid}
use rust_ospfd.Origin.Bodies.{summaries}
use rust_ospfd.Origin.{
  all_interfaces, recalc, new_header, number_after, finish, is_identical, install, gen_lsa_impl,
  gen_all, retain_areas, gen_summary_lsa,
}

install-AreValid :
    (env : Env) (l : Lsa) (s : Interfaces) (w : World) {r : Interfaces × World}
    → AreValid s
    → install env l s w ≡ some r
    → AreValid r.0
unfolding install
install-AreValid env l s w {r} h e =
    elim (Option-cases (Database.insert_lsa env.now w.db s.me.area_id l)) [
      | inl n ↦ absurd (cc (rw (install, n) at e))
      | inr (db, n) ↦ elim (Option-cases (flooding env s.me.ip_addr l s (record w { db = db }))) [
        | inl f ↦ absurd (cc (rw (install, n, f) at e))
        | inr ((s1, w1, b), f) ↦ elim (Option-cases (recalc env w1)) [
          | inl c ↦ absurd (cc (rw (install, n, f, c) at e))
          | inr (w2, c) ↦
              rw (← some-injective _ _ (rw (install, n, f, c) at e)) (
                flooding-AreValid env s.me.ip_addr l s (record w { db = db }) {r = (s1, w1, b)} h f)
        ]
      ]
    ]

pub gen_lsa_impl-AreValid :
    (env : Env) (ty : ℕ) (id adv : Ipv4Addr) (to : LsaHeader → Converted Lsa) (s : Interfaces)
    (w : World) {r : Interfaces × World}
    → AreValid s
    → gen_lsa_impl env ty id adv to s w ≡ some r
    → AreValid r.0
unfolding gen_lsa_impl
gen_lsa_impl-AreValid env ty id adv to s w {r} h e =
    let h0 = new_header s.me ty id adv in
    elim (Option-cases (Database.get_lsa env.now w.db s.me.area_id (index h0))) [
      | inl q ↦ absurd (cc (rw (gen_lsa_impl, q) at e))
      | inr (old, q) ↦ elim (Option-cases (number_after old h0)) [
        | inl p ↦ absurd (cc (rw (gen_lsa_impl, q, p) at e))
        | inr (k, p) ↦ elim (Option-cases (finish (to k))) [
          | inl f ↦ absurd (cc (rw (gen_lsa_impl, q, p, f) at e))
          | inr (l, f) ↦ elim (Bool-cases (is_identical old l)) [
            | inl b ↦ rw (← some-injective _ _ (rw (gen_lsa_impl, q, p, f, b) at e)) h
            | inr b ↦ install-AreValid env l s w {r = r} h (rw (gen_lsa_impl, q, p, f, b) at e)
          ]
        ]
      ]
    ]

gen_all-AreValid :
    (env : Env) (ps : List (ℕ × Ipv4Addr × SummaryLsa)) (s : Interfaces) (w : World)
    {r : Interfaces × World}
    → AreValid s
    → gen_all env ps s w ≡ some r
    → AreValid r.0
unfolding gen_all
gen_all-AreValid env [] s w {r} h e = rw (← some-injective _ _ e) h
gen_all-AreValid env ((ty, id, l) ∷ ps) s w {r} h e =
    elim (Option-cases (gen_lsa_impl env ty id env.router_id (λ k. summary_to_lsa k l) s w)) [
      | inl n ↦ absurd (cc (rw (gen_all, n) at e))
      | inr ((s1, w1), n) ↦
          gen_all-AreValid env ps s1 w1 {r = r}
            (gen_lsa_impl-AreValid env ty id env.router_id (λ k. summary_to_lsa k l) s w
              {r = (s1, w1)} h n)
            (rw (gen_all, n) at e)
    ]

pub gen_summary_lsa-AreValid :
    (env : Env) (s : Interfaces) (w : World) {r : Interfaces × World}
    → AreValid s
    → gen_summary_lsa env s w ≡ some r
    → AreValid r.0
unfolding gen_summary_lsa
gen_summary_lsa-AreValid env s w {r} h e =
    let db = retain_areas (all_interfaces s) w.db in
    elim (Bool-cases (ltb 1 (length db.areas))) [
      | inl b ↦
          gen_all-AreValid env (summaries s.me (values db.routing_table)) s (record w { db = db })
            {r = r} h (rw (gen_summary_lsa, b) at e)
      | inr b ↦ rw (← some-injective _ _ (rw (gen_summary_lsa, b) at e)) h
    ]
