-- ===== src/Origin/Newer.antt =====
-- The LSAs of ospfd/gen_lsa.rs against the database.
use mathlib.Core.Option.{some-injective}
use rust_ospfd.Prelude.{
  ℕ, zero, suc, true, false, Option, some, none, ◌≡◌, refl, sym, ap, ◌∙◌, ◌⊎◌, inl, inr, arith,
  length, ◌%◌, ◌^◌, Bool-cases, Option-cases, Ordering, get, nat_eq,
}
use rust_ospfd.Prelude.Int.{ℤ, pos, negsuc, compare_ℤ}
use rust_ospfd.Packet.Lsa.{Ipv4Addr, LsaHeader, Lsa, LsaIndex, index}
use rust_ospfd.Packet.Order.{cmp, header_ge}
use rust_ospfd.Packet.Convert.{Converted, ok, err}
use rust_ospfd.Packet.Checksum.{update_length, update_checksum, checksum}
use rust_ospfd.Packet.Codec.Whole.{lsa_to_bytes}
use rust_ospfd.Neighbor.Event.{Env}
use rust_ospfd.Interface.State.{Interface}
use rust_ospfd.Area.Lsdb
use rust_ospfd.Area.Lsdb.{Area}
use rust_ospfd.Database
use rust_ospfd.Database.{ProtocolDb}
use rust_ospfd.Sender.{World}
use rust_ospfd.Flooding.{Interfaces}
use rust_ospfd.Origin.{
  next_number, is_max_sequence_number, new_header, number_after, finish, is_identical, install,
  gen_lsa_impl, initial_sequence_number,
}

next_number_greater : (z : ℤ) → compare_ℤ z (next_number z) ≡ Ordering.lt
next_number_greater (pos n) = ground arith
next_number_greater (negsuc zero) = refl
next_number_greater (negsuc (suc n)) = ground arith

newer_header :
    (h k : LsaHeader)
    → k.ls_sequence_number ≡ next_number h.ls_sequence_number
    → header_ge h k ≡ false
unfolding header_ge cmp
newer_header h k e = rw e (ground (arith, next_number_greater h.ls_sequence_number))

-- What the header and the body of an LSA say, but for length and checksum.
abbrev pub IsSame : Lsa → Lsa → Type 0
IsSame l m =
    (l.body ≡ m.body)
    × (index l.header ≡ index m.header)
    × (l.header.ls_sequence_number ≡ m.header.ls_sequence_number)
    × (l.header.ls_age ≡ m.header.ls_age)

finish-IsSame :
    (c : Converted Lsa) {l : Lsa} → finish c ≡ some l → (m : Lsa) × (c ≡ ok m) × IsSame l m
unfolding finish update_length update_checksum
finish-IsSame (err x) e = absurd (cc)
finish-IsSame (ok m) {l} e = elim (Option-cases (lsa_to_bytes m)) [
  | inl q ↦ absurd (cc (rw (q, finish) at e))
  | inr (bs, q) ↦
      let sized = record m { header = record m.header { length = length bs % 2 ^ 16 } } in
      elim (Option-cases (checksum sized)) [
        | inl p ↦ absurd (cc (rw (q, finish, p) at e))
        | inr (n, p) ↦
            let same = some-injective _ _ (rw (q, finish, p) at e) in
            (m, refl, rw (← same) (refl, refl, refl, refl))
      ]
]

-- The conversions keep the header.
abbrev pub KeepsHeader : (LsaHeader → Converted Lsa) → Type 0
KeepsHeader to = (h : LsaHeader) (l : Lsa) → to h ≡ ok l → l.header ≡ h

-- The number of an LSA that follows what the database has.
abbrev pub Follows : Option (Lsa × ℕ × ℕ) → Lsa → Type 0
Follows none l = l.header.ls_sequence_number ≡ initial_sequence_number
Follows (some old) l = l.header.ls_sequence_number ≡ next_number old.0.header.ls_sequence_number

number_after-Follows :
    (old : Option (Lsa × ℕ × ℕ)) (me : Interface) (ty : ℕ) (id adv : Ipv4Addr) {h : LsaHeader}
    → number_after old (new_header me ty id adv) ≡ some h
    → (index h ≡ record { ls_type = ty; ls_id = id; ad_router = adv })
      × (h.ls_age ≡ 0)
      × ((l : Lsa) → l.header.ls_sequence_number ≡ h.ls_sequence_number → Follows old l)
unfolding number_after new_header
number_after-Follows none me ty id adv {h} e = rw (← some-injective _ _ e) (refl, refl, λ l q. q)
number_after-Follows (some old) me ty id adv {h} e =
    elim (Bool-cases (is_max_sequence_number old.0.header.ls_sequence_number)) [
      | inl q ↦ absurd (cc (rw (number_after, q) at e))
      | inr q ↦ rw (← some-injective _ _ (rw (number_after, q) at e)) (refl, refl, λ l p. p)
    ]

-- An LSA that follows what the database has is wanted by it.
wanted_in :
    (now : ℕ) (a : Area) (ext : Lsdb.LsaDb) (l : Lsa) (old : Option (Lsa × ℕ × ℕ))
    → Lsdb.m_get_lsa now a ext (index l.header) ≡ old
    → Follows old l
    → Lsdb.need_update now a ext l.header ≡ true
unfolding Lsdb.need_update
wanted_in now a ext l none e f = rw (Lsdb.need_update, e) refl
wanted_in now a ext l (some old) e f =
    rw (Lsdb.need_update, e, newer_header old.0.header l.header f) refl

wanted :
    (now : ℕ) (db : ProtocolDb) (area : Ipv4Addr) (l : Lsa) {old : Option (Lsa × ℕ × ℕ)}
    → Database.get_lsa now db area (index l.header) ≡ some old
    → Follows old l
    → Database.need_update now db area l.header ≡ some true
unfolding Database.get_lsa Database.need_update
wanted now db area l {old} e f = elim (Option-cases (get area db.areas)) [
  | inl q ↦ absurd (cc (rw (q, Database.get_lsa) at e))
  | inr (a, q) ↦
      let same : Lsdb.m_get_lsa now a db.external (index l.header) ≡ old =
        some-injective _ _ (rw (q, Database.get_lsa) at e) in
      rw (Database.need_update, q, wanted_in now a db.external l old same f) refl
]

abbrev pub IsFresh : Env → LsaIndex → Interfaces → World → Interfaces × World → Type 0
IsFresh env key s w r =
    (l : Lsa) × (old : Option (Lsa × ℕ × ℕ)) × (Database.get_lsa env.now w.db s.me.area_id key
      ≡ some old)
    × Follows old l
    × (l.header.ls_age ≡ 0)
    × (index l.header ≡ key)
    × (Database.need_update env.now w.db s.me.area_id l.header ≡ some true)
    × (install env l s w ≡ some r)

-- With a conversion that keeps the header, when `gen_lsa_impl` does not panic, either it changes
-- nothing, or it installs an LSA of age 0 with the type and identifiers that it was given, whose
-- sequence number is the initial one if the database has no such LSA and the next after that of the
-- database copy otherwise, and which the database wants.
pub gen_lsa_impl-IsFresh :
    (env : Env) (ty : ℕ) (id adv : Ipv4Addr) (to : LsaHeader → Converted Lsa) (s : Interfaces)
    (w : World) (r : Interfaces × World)
    → KeepsHeader to
    → gen_lsa_impl env ty id adv to s w ≡ some r
    → (r ≡ (s, w)) ⊎ IsFresh env (record { ls_type = ty; ls_id = id; ad_router = adv }) s w r
unfolding gen_lsa_impl new_header
gen_lsa_impl-IsFresh env ty id adv to s w r keeps e =
    let h0 = new_header s.me ty id adv in
    elim (Option-cases (Database.get_lsa env.now w.db s.me.area_id (index h0))) [
      | inl q ↦ absurd (cc (rw (gen_lsa_impl, q) at e))
      | inr (old, q) ↦ elim (Option-cases (number_after old h0)) [
        | inl p ↦ absurd (cc (rw (gen_lsa_impl, q, p) at e))
        | inr (h, p) ↦ elim (Option-cases (finish (to h))) [
          | inl f ↦ absurd (cc (rw (gen_lsa_impl, q, p, f) at e))
          | inr (l, f) ↦ elim (Bool-cases (is_identical old l)) [
            | inl b ↦ inl (sym (some-injective _ _ (rw (gen_lsa_impl, q, p, f, b) at e)))
            | inr b ↦
                let (key, age, follows) = number_after-Follows old s.me ty id adv {h = h} p in
                let (m, made, (_, key_m, seq_m, age_m)) = finish-IsSame (to h) {l = l} f in
                let head = keeps h m made in
                let key_l : index l.header ≡ record { ls_type = ty; ls_id = id; ad_router = adv } =
                  key_m ∙ ap index head ∙ key in
                let f_l = follows l (seq_m ∙ ap (λ (x : LsaHeader). x.ls_sequence_number) head) in
                let fresh : IsFresh env (record { ls_type = ty; ls_id = id; ad_router = adv }) s w
                    r =
                  (
                    l,
                    old,
                    q,
                    f_l,
                    age_m ∙ ap (λ (x : LsaHeader). x.ls_age) head ∙ age,
                    key_l,
                    wanted env.now w.db s.me.area_id l {old = old} (rw key_l q) f_l,
                    rw (gen_lsa_impl, q, p, f, b) at e,
                  ) in
                inr fresh
          ]
        ]
      ]
    ]
