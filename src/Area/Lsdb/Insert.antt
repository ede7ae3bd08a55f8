-- ===== src/Area/Lsdb/Insert.antt =====
-- What `insert_lsa` leaves in the link state database.
use rust_ospfd.Prelude.{
  ℕ, true, false, some, none, ◌≡◌, ◌≢◌, ◌⊎◌, inl, inr, arith, ◌<◌, ◌≤◌, get, insert,
  get-insert_self, get-insert_ne, Bool-cases, Option-cases, leb, min, ◌+◌, ◌∙◌,
}
use rust_ospfd.Packet.Lsa.{
  Lsa, LsaIndex, index, index_eq, index_beq, index_beq_iff, lsa_max_age, as_external_lsa,
}
use rust_ospfd.Area.Lsdb.{
  Area, LsaDb, Entry, m_get_lsa, m_insert_lsa, need_update, insert_lsa, update_lsa_age,
  elapsed_secs,
}

-- The area's own database holds no AS-external LSA: these are in the shared one.
abbrev pub IsSeparate : Area → Type 0
IsSeparate a = (k : LsaIndex) → k.ls_type ≡ as_external_lsa → get k a.lsa_database ≡ none

abbrev pub fresh : ℕ → Lsa → Entry
fresh now l = record { lsa = l; created = now; updated = now }

-- The three ways in which an insertion ends.
abbrev pub Inserted : ℕ → Area → LsaDb → Lsa → Area → LsaDb → Type 0
Inserted now a db l a' db' =
    (l.header.ls_age ≤ lsa_max_age)
    × (((a.external_routing_capability ≡ true)
          × (l.header.ls_type ≡ as_external_lsa)
          × (a' ≡ a)
          × (db' ≡ insert (index l.header) (fresh now l) db))
        ⊎ ((l.header.ls_type ≢ as_external_lsa)
            × (a'
                ≡ record a { lsa_database = insert (index l.header) (fresh now l) a.lsa_database })
            × (db' ≡ db)))

m_insert_lsa-Inserted :
    (now : ℕ) (a : Area) (db : LsaDb) (l : Lsa) {a' : Area} {db' : LsaDb}
    → m_insert_lsa now a db (index l.header) l ≡ some (a', db')
    → Inserted now a db l a' db'
unfolding m_insert_lsa
m_insert_lsa-Inserted now a db l e = ground arith

insert_lsa-Inserted :
    (now : ℕ) (a : Area) (db : LsaDb) (l : Lsa) {a' : Area} {db' : LsaDb}
    → insert_lsa now a db l ≡ some (a', db')
    → ((need_update now a db l.header ≡ false) × (a' ≡ a) × (db' ≡ db))
      ⊎ ((need_update now a db l.header ≡ true) × Inserted now a db l a' db')
unfolding insert_lsa
insert_lsa-Inserted now a db l {a'} {db'} e = elim (Bool-cases (need_update now a db l.header)) [
  | inl q ↦ inr (q, m_insert_lsa-Inserted now a db l {a' = a'} {db' = db'} (rw q at e))
  | inr q ↦ inl (q, ground arith, ground arith)
]

insert_lsa_total :
    (now : ℕ) (a : Area) (db : LsaDb) (l : Lsa)
    → a.external_routing_capability ≡ true
    → l.header.ls_age ≤ lsa_max_age
    → insert_lsa now a db l ≢ none
unfolding insert_lsa m_insert_lsa
insert_lsa_total now a db l able age e = ground arith

fresh_age : (now : ℕ) (l : Lsa) → l.header.ls_age ≤ lsa_max_age → update_lsa_age now now l ≡ l
unfolding update_lsa_age
fresh_age now l h =
    let e : min (l.header.ls_age + elapsed_secs now now) lsa_max_age ≡ l.header.ls_age =
      omega arith in
    rw e

-- Reading back, in either database.
Inserted-m_get_lsa :
    (now : ℕ) (a : Area) (db : LsaDb) (l : Lsa) {a' : Area} {db' : LsaDb}
    → IsSeparate a
    → a.external_routing_capability ≡ true
    → Inserted now a db l a' db'
    → m_get_lsa now a' db' (index l.header) ≡ some (l, now, now)
unfolding m_get_lsa
Inserted-m_get_lsa now a db l sep able (age, inl (c, ty, ea, ed)) =
    rw (ea, ed)
      (rw (
        able,
        sep (index l.header) ty,
        get-insert_self (index l.header) (fresh now l) db,
        fresh_age now l age,
      ))
Inserted-m_get_lsa now a db l sep able (age, inr (ty, ea, ed)) =
    rw (ea, ed)
      (rw
        (able, get-insert_self (index l.header) (fresh now l) a.lsa_database, fresh_age now l age))

-- In an area that takes external routes and whose own database has no AS-external LSA, an LSA that
-- is wanted and no older than LsaMaxAge is inserted without a panic and read back as it is, created
-- and updated at the time of the insertion.
pub get_lsa-insert_lsa :
    (now : ℕ) (a : Area) (db : LsaDb) (l : Lsa)
    → IsSeparate a
    → a.external_routing_capability ≡ true
    → l.header.ls_age ≤ lsa_max_age
    → need_update now a db l.header ≡ true
    → (r : Area × LsaDb) × (insert_lsa now a db l ≡ some r)
      × (m_get_lsa now r.0 r.1 (index l.header) ≡ some (l, now, now))
get_lsa-insert_lsa now a db l sep able age need = elim (Option-cases (insert_lsa now a db l)) [
  | inl e ↦ absurd (insert_lsa_total now a db l able age e)
  | inr (r, e) ↦ elim (insert_lsa-Inserted now a db l {a' = r.0} {db' = r.1} e) [
    | inl (q, _, _) ↦ absurd (cc)
    | inr (_, q) ↦ (r, e, Inserted-m_get_lsa now a db l sep able q)
  ]
]

-- Where `insert_lsa` does not panic, an area whose own database has no AS-external LSA has none
-- afterwards.
pub insert_lsa-IsSeparate :
    (now : ℕ) (a : Area) (db : LsaDb) (l : Lsa) {a' : Area} {db' : LsaDb}
    → IsSeparate a
    → insert_lsa now a db l ≡ some (a', db')
    → IsSeparate a'
insert_lsa-IsSeparate now a db l {a'} {db'} sep e =
    by_case (insert_lsa-Inserted now a db l {a' = a'} {db' = db'} e)
  where
    by_case :
        ((need_update now a db l.header ≡ false) × (a' ≡ a) × (db' ≡ db))
          ⊎ ((need_update now a db l.header ≡ true) × Inserted now a db l a' db')
        → IsSeparate a'
    by_case (inl (_, ea, _)) k ty = rw ea (sep k ty)
    by_case (inr (_, (age, inl (_, _, ea, _)))) k ty = rw ea (sep k ty)
    by_case (inr (_, (age, inr (other, ea, _)))) k ty =
        let ne : index_beq (index l.header) k ≡ false =
          ground (arith, index_beq_iff (index l.header) k) in
        rw ea (get-insert_ne (index l.header) k (fresh now l) a.lsa_database ne ∙ sep k ty)

-- The insertion of a wanted LSA whose age is above LsaMaxAge is a panic.
pub insert_lsa_overflow :
    (now : ℕ) (a : Area) (db : LsaDb) (l : Lsa)
    → lsa_max_age < l.header.ls_age
    → need_update now a db l.header ≡ true
    → insert_lsa now a db l ≡ none
unfolding insert_lsa m_insert_lsa
insert_lsa_overflow now a db l h need =
    let e : leb l.header.ls_age lsa_max_age ≡ false = ground arith in rw (need, e)
