-- ===== src/Capture/Passed.antt =====
-- Which frames pass the capture of ospfd/capture.rs.
use rust_ospfd.Prelude.{
  ◌≡◌, refl, true, false, List, [], ◌∷◌, ◌++◌, Option, some, none, ◌==◌, ==_iff, Bool-cases,
  Option-cases, inl, inr, ◌⊎◌, ◌↔◌, In,
}
use rust_ospfd.Packet.Lsa.{Ipv4Addr}
use rust_ospfd.Packet.Bits.{Bytes}
use rust_ospfd.Packet.Ospf.{Ospf}
use rust_ospfd.Routing.Table.Requests.{In-append_left, In-append_right, In-append_cases}
use rust_ospfd.Capture.{
  Ethernet, Ipv4, Parsers, ethertype_ipv4, ospfigp, check_ip, Call, call, handle_ipv4,
  handle_packet, Received, frame, failed, run, run_forever,
}

-- The calls of a round; one that panics has none.
abbrev calls_of : Option (List Call) → List Call
calls_of none = []
calls_of (some cs) = cs

module _ (parse : Parsers) (ips : List Ipv4Addr) where
  -- What a packet of IPv4 must be for a call of the handler.
  abbrev pub IsOspf : Ipv4 → Call → Type 0
  IsOspf h c =
      (c.source ≡ h.source)
      × (c.destination ≡ h.destination)
      × (c.bytes ≡ h.payload)
      × (parse.ospf h.payload ≡ some c.packet)

  -- It was sent by another router, to this one.
  abbrev pub IsForeign : Ipv4 → Type 0
  IsForeign h =
      (check_ip ips h.source ≡ false)
      × (check_ip ips h.destination ≡ true)
      × (h.next_level_protocol ≡ ospfigp)

  abbrev pub IsFrame : Bytes → Ipv4 → Type 0
  IsFrame bytes h =
      (e : Ethernet) × (parse.ethernet bytes ≡ some e)
      × (e.ethertype ≡ ethertype_ipv4)
      × (parse.ipv4 e.payload ≡ some h)

  abbrev pub IsPassed : Received → Call → Type 0
  IsPassed failed c = ⊥
  IsPassed (frame bytes) c = (h : Ipv4) × IsFrame bytes h × IsForeign h × IsOspf h c

  abbrev pub SomePassed : List Received → Call → Type 0
  SomePassed [] c = ⊥
  SomePassed (r ∷ rs) c = IsPassed r c ⊎ SomePassed rs c

  call-IsOspf : (h : Ipv4) (c : Call) → In c (calls_of (call parse h)) ↔ IsOspf h c
  call-IsOspf h c = (fore (Option-cases (parse.ospf h.payload)), back)
    where
      made : Ospf → Call
      made p = record {
        source = h.source;
        destination = h.destination;
        bytes = h.payload;
        packet = p;
      }

      fore :
          (parse.ospf h.payload ≡ none) ⊎ ((p : Ospf) × (parse.ospf h.payload ≡ some p))
          → In c (calls_of (call parse h))
          → IsOspf h c
      fore (inl q) i = elim (rw q at i) [ ]
      fore (inr (p, q)) i = elim (rw q at i) [
        | inl x ↦ rw x (refl, refl, refl, q)
        | inr y ↦ elim y [ ]
      ]

      back : IsOspf h c → In c (calls_of (call parse h))
      back (a, b, d, q) = rw q (inl (rw (← a, ← b, ← d) refl))

  ipv4-IsForeign :
      (h : Ipv4) (c : Call) → In c (calls_of (handle_ipv4 parse ips h)) ↔ (IsForeign h × IsOspf h c)
  unfolding handle_ipv4
  ipv4-IsForeign h c = (fore, back)
    where
      fore : In c (calls_of (handle_ipv4 parse ips h)) → IsForeign h × IsOspf h c
      fore i = elim (Bool-cases (check_ip ips h.source)) [
        | inl s ↦ elim (rw s at i) [ ]
        | inr s ↦ elim (Bool-cases (check_ip ips h.destination)) [
          | inr d ↦ elim (rw (s, d) at i) [ ]
          | inl d ↦ elim (Bool-cases (h.next_level_protocol == ospfigp)) [
            | inr n ↦ elim (rw (s, d, n) at i) [ ]
            | inl n ↦
                let same = (==_iff h.next_level_protocol ospfigp).0 n in
                ((s, d, same), (call-IsOspf h c).0 (rw (s, d, n) at i))
          ]
        ]
      ]

      back : IsForeign h × IsOspf h c → In c (calls_of (handle_ipv4 parse ips h))
      back ((s, d, same), o) =
          let n = (==_iff h.next_level_protocol ospfigp).1 same in
          rw (s, d, n) ((call-IsOspf h c).1 o)

  run-IsPassed : (r : Received) (c : Call) → In c (calls_of (run parse ips r)) ↔ IsPassed r c
  unfolding run
  run-IsPassed failed c = (λ i. i, λ i. i)
  run-IsPassed (frame bytes) c = (fore, back)
    where
      fore : In c (calls_of (run parse ips (frame bytes))) → IsPassed (frame bytes) c
      fore i = elim (Option-cases (parse.ethernet bytes)) [
        | inl q ↦ elim (rw q at i) [ ]
        | inr (e, q) ↦ elim (Bool-cases (e.ethertype == ethertype_ipv4)) [
          | inr t ↦ elim (rw (q, handle_packet, t) at i) [ ]
          | inl t ↦ elim (Option-cases (parse.ipv4 e.payload)) [
            | inl x ↦ elim (rw (q, handle_packet, t, x) at i) [ ]
            | inr (h, x) ↦
                let (f, o) = (ipv4-IsForeign h c).0 (rw (q, handle_packet, t, x) at i) in
                (h, (e, q, (==_iff e.ethertype ethertype_ipv4).0 t, x), f, o)
          ]
        ]
      ]

      back : IsPassed (frame bytes) c → In c (calls_of (run parse ips (frame bytes)))
      back (h, (e, q, same, x), f, o) =
          let t = (==_iff e.ethertype ethertype_ipv4).1 same in
          rw (q, handle_packet, t, x) ((ipv4-IsForeign h c).1 (f, o))

  run_forever-calls_of :
      (r : Received) (rs : List Received)
      → run_forever parse ips (r ∷ rs) ≡ calls_of (run parse ips r) ++ run_forever parse ips rs
  unfolding run_forever
  run_forever-calls_of r rs = elim (Option-cases (run parse ips r)) [
    | inl q ↦ rw (q, run_forever) refl
    | inr (cs, q) ↦ rw (q, run_forever) refl
  ]

  -- The handler of packets is called by the capture loop exactly for the frames that hold a packet
  -- of IPv4 with the protocol number of OSPF, whose source is neither an address of the device nor
  -- one of the two multicast addresses and whose destination is one of these, and that can be read
  -- as an OSPF packet, with the source, destination and bytes found there: a round that panics
  -- stops no later one.
  pub run_forever-SomePassed :
      (rs : List Received) (c : Call) → In c (run_forever parse ips rs) ↔ SomePassed rs c
  unfolding run_forever
  run_forever-SomePassed [] c = (λ i. i, λ i. i)
  run_forever-SomePassed (r ∷ rs) c =
      let one = run-IsPassed r c in
      let rest = run_forever-SomePassed rs c in
      rw (run_forever-calls_of r rs) (
        λ i. elim (In-append_cases c (calls_of (run parse ips r)) (run_forever parse ips rs) i) [
          | inl x ↦ inl (one.0 x)
          | inr y ↦ inr (rest.0 y)
        ],
        λ h. elim h [
          | inl x ↦ In-append_left c (calls_of (run parse ips r)) _ (one.1 x)
          | inr y ↦ In-append_right c (calls_of (run parse ips r)) _ (rest.1 y)
        ],
      )
