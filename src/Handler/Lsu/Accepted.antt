-- ===== src/Handler/Lsu/Accepted.antt =====
-- Step 5 of ospfd/handler/lsu.rs: what it goes through, and what it leaves on the retransmission lists.
use mathlib.Core.Option.{some-injective}
use rust_ospfd.Prelude.{
  contains-remove_set, ℕ, Bool, true, false, List, [], ◌∷◌, Option, some, none, ◌≡◌, refl, sym, ap,
  ◌∙◌, ◌⊎◌, inl, inr, map, not, ◌&&◌, contains, nat_eq, Bool-cases, Option-cases, if◌then◌else◌,
  ◌>>=◌,
}
use rust_ospfd.Packet.Lsa.{Ipv4Addr, LsaHeader, Lsa, LsaIndex, index, index_eq, index_beq}
use rust_ospfd.Neighbor.State.{Neighbor}
use rust_ospfd.Neighbor.Event.{Env}
use rust_ospfd.Area.Lsdb.{is_some}
use rust_ospfd.Database
use rust_ospfd.Database.{ProtocolDb}
use rust_ospfd.Flooding.Reliable.{Pairwise}
use rust_ospfd.Sender.{World}
use rust_ospfd.Flooding.{Interfaces, flooding}
use rust_ospfd.Interface.State.{Interface}
use rust_ospfd.Origin.{all_interfaces, recalc, gen_summary_lsa}
use rust_ospfd.Handler.Lsu.Send.{age_out-keeps}
use rust_ospfd.Handler.Lsu.{
  Progress, delayed, forget_copy, forget_in, forget_on, ack_later, is_own, age_out, accept,
}

-- What `accept` has done before the acknowledgement.
pub record Accepted (env : Env) (src : Ipv4Addr) (l : Lsa) (found : Option (Lsa × ℕ × ℕ))
    (p q : Progress) : Type 0 where
  pub flooded : Bool
  pub passed : Interfaces
  pub sent : World
  pub mid : Interfaces
  pub calculated : World
  pub after : Interfaces
  pub summed : World
  pub last : Progress
  pub flood : flooding env src l p.interfaces p.world ≡ some (passed, sent, flooded)
  pub db : ProtocolDb
  pub forgot : mid ≡ forget_copy found passed
  pub inserted : Database.insert_lsa env.now sent.db mid.me.area_id l ≡ some db
  pub recalculated : recalc env (record sent { db = db }) ≡ some calculated
  pub announced : gen_summary_lsa env mid calculated ≡ some (after, summed)
  pub acked :
      ack_later src l.header flooded
        (record { interfaces = after; world = summed; delay = p.delay })
      ≡ some last
  pub aged : (q ≡ last) ⊎ (age_out env src l last ≡ some q)

if_own :
    (env : Env) (src : Ipv4Addr) (l : Lsa) (found : Option (Lsa × ℕ × ℕ)) (x : Progress)
    {q : Progress}
    → (if is_own env l.header x.interfaces && not (is_some found)
        then age_out env src l x
        else some x)
      ≡ some q
    → (q ≡ x) ⊎ (age_out env src l x ≡ some q)
if_own env src l found x {q} e =
    elim (Bool-cases (is_own env l.header x.interfaces && not (is_some found))) [
      | inl b ↦ inr (rw b at e)
      | inr b ↦ inl (sym (some-injective _ _ (rw b at e)))
    ]

pub accept-Accepted :
    (env : Env) (src : Ipv4Addr) (l : Lsa) (found : Option (Lsa × ℕ × ℕ)) (p : Progress)
    {q : Progress}
    → accept env src l found p ≡ some q
    → Accepted env src l found p q
unfolding accept
accept-Accepted env src l found p {q} e =
    elim (Option-cases (flooding env src l p.interfaces p.world)) [
      | inl n ↦ absurd (cc (rw (accept, n) at e))
      | inr ((s1, w1, flooded), n) ↦
          let s2 = forget_copy found s1 in
          elim (Option-cases (Database.insert_lsa env.now w1.db s2.me.area_id l)) [
            | inl d ↦ absurd (cc (rw (accept, n, d) at e))
            | inr (db, d) ↦ elim (Option-cases (recalc env (record w1 { db = db }))) [
              | inl c ↦ absurd (cc (rw (accept, n, d, c) at e))
              | inr (w2, c) ↦ elim (Option-cases (gen_summary_lsa env s2 w2)) [
                | inl g ↦ absurd (cc (rw (accept, n, d, c, g) at e))
                | inr ((s3, w3), g) ↦
                    let p3 : Progress = record { interfaces = s3; world = w3; delay = p.delay } in
                    elim (Option-cases (ack_later src l.header flooded p3)) [
                      | inl a ↦ absurd (cc (rw (accept, n, d, c, g, a) at e))
                      | inr (x, a) ↦ record {
                        flooded = flooded;
                        passed = s1;
                        sent = w1;
                        mid = s2;
                        calculated = w2;
                        after = s3;
                        summed = w3;
                        last = x;
                        flood = n;
                        db = db;
                        forgot = refl;
                        inserted = d;
                        recalculated = c;
                        announced = g;
                        acked = a;
                        aged = if_own env src l found x (rw (accept, n, d, c, g, a) at e);
                      }
                    ]
              ]
            ]
          ]
    ]

wanted_interfaces :
    (h : LsaHeader) (p : Progress) (o : Option Bool) {q : Progress}
    → (o >>= λ b. some (if b then delayed h p else p)) ≡ some q
    → q.interfaces ≡ p.interfaces
wanted_interfaces h p none e = absurd (cc)
wanted_interfaces h p (some true) e = rw (← some-injective _ _ e) refl
wanted_interfaces h p (some false) e = rw (← some-injective _ _ e) refl

pub ack_later-interfaces :
    (src : Ipv4Addr) (h : LsaHeader) (flooded : Bool) (p : Progress) {q : Progress}
    → ack_later src h flooded p ≡ some q
    → q.interfaces ≡ p.interfaces
unfolding ack_later
ack_later-interfaces src h true p {q} e =
    ap (λ (x : Progress). x.interfaces) (sym (some-injective _ _ e))
ack_later-interfaces src h false p {q} e = wanted_interfaces h p _ {q = q} e

-- A neighbor without the key on its retransmission list, and nothing else changed.
abbrev pub Forgets : LsaIndex → Neighbor → Neighbor → Type 0
Forgets key n n' =
    (n ≡ record n' { ls_retransmission_list = n.ls_retransmission_list })
    × ((k : LsaIndex)
        → contains n'.ls_retransmission_list k
          ≡ (if index_beq key k then false else contains n.ls_retransmission_list k))

-- All neighbors of an interface, and nothing else of it; and of interfaces in their order.
abbrev pub IsCleared : LsaIndex → Interface → Interface → Type 0
IsCleared key i i' =
    (i ≡ record i' { neighbors = i.neighbors }) × Pairwise (Forgets key) i.neighbors i'.neighbors

abbrev pub AreCleared : LsaIndex → List Interface → List Interface → Type 0
AreCleared key [] [] = Unit
AreCleared key (i ∷ is) (i' ∷ is') = IsCleared key i i' × AreCleared key is is'
AreCleared key _ _ = ⊥

forget_in-IsCleared :
    (key : LsaIndex) (m : List (Ipv4Addr × Neighbor))
    → Pairwise (Forgets key) m (map (λ (p : Ipv4Addr × Neighbor). (p.0, forget_on key p.1)) m)
forget_in-IsCleared key [] = tt
forget_in-IsCleared key ((k, n) ∷ m) = (
  refl,
  (refl, λ k. contains-remove_set key k n.ls_retransmission_list),
  forget_in-IsCleared key m,
)

forget-AreCleared :
    (key : LsaIndex) (is : List Interface) → AreCleared key is (map (forget_in key) is)
forget-AreCleared key [] = tt
forget-AreCleared key (i ∷ is) =
    ((refl, forget_in-IsCleared key i.neighbors), forget-AreCleared key is)

-- What has become of the interfaces and the world after steps 5b to 5d: `passed` is what the
-- flooding leaves, and `cleared` what the summaries are made from.
pub record IsReplaced (env : Env) (src : Ipv4Addr) (l : Lsa) (p q : Progress) : Type 0 where
  pub passed : Interfaces
  pub sent : World
  pub flooded : Bool
  pub cleared : Interfaces
  pub db : ProtocolDb
  pub calculated : World
  pub summed : World
  pub flooding_lem : flooding env src l p.interfaces p.world ≡ some (passed, sent, flooded)
  pub forgotten : AreCleared (index l.header) (all_interfaces passed) (all_interfaces cleared)
  pub inserted : Database.insert_lsa env.now sent.db cleared.me.area_id l ≡ some db
  pub recalculated : recalc env (record sent { db = db }) ≡ some calculated
  pub announced : gen_summary_lsa env cleared calculated ≡ some (q.interfaces, summed)

-- When an LSA that replaces a database copy of its own key is accepted without a panic, the
-- interfaces that the flooding leaves lose its key from the retransmission lists of all neighbors,
-- and nothing else: what the flooding has put there is gone, and all other keys stay. From these
-- interfaces, and from the world that the flooding, the insertion of the LSA and the calculation of
-- the routes leave, the new summaries are made, which leaves the interfaces as they are in the end.
pub accept-IsReplaced :
    (env : Env) (src : Ipv4Addr) (l : Lsa) (old : Lsa × ℕ × ℕ) (p q : Progress)
    → index old.0.header ≡ index l.header
    → accept env src l (some old) p ≡ some q
    → IsReplaced env src l p q
accept-IsReplaced env src l old p q own e =
    let a = accept-Accepted env src l (some old) p {q = q} e in
    let kept = ack_later-interfaces src l.header a.flooded _ {q = a.last} a.acked in
    let same : q.interfaces ≡ a.after = elim a.aged [
      | inl r ↦ ap (λ (x : Progress). x.interfaces) r ∙ kept
      | inr r ↦ (age_out-keeps env src l a.last {q = q} r).1 ∙ kept
    ] in
    record {
      passed = a.passed;
      sent = a.sent;
      flooded = a.flooded;
      cleared = a.mid;
      db = a.db;
      calculated = a.calculated;
      summed = a.summed;
      flooding_lem = a.flood;
      forgotten = rw (a.forgot, own) (forget-AreCleared (index l.header) (all_interfaces a.passed));
      inserted = a.inserted;
      recalculated = a.recalculated;
      announced = a.announced ∙ ap (λ (x : Interfaces). some (x, a.summed)) (sym same);
    }
