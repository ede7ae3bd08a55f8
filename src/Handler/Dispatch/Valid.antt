-- ===== src/Handler/Dispatch/Valid.antt =====
-- The dispatch of packets (ospfd/handler/mod.rs) keeps the interfaces valid.
use mathlib.Core.Option.{some-injective}
use rust_ospfd.Prelude.{
  Option, some, none, ◌≡◌, refl, inl, inr, nat_eq, Bool-cases, Option-cases, ◌==◌, ◌&&◌, ◌>>=◌,
}
use rust_ospfd.Packet.Lsa.{Ipv4Addr}
use rust_ospfd.Packet.Bits.{Bytes}
use rust_ospfd.Packet.Ospf.{Ospf, auto_test_checksum}
use rust_ospfd.Packet.Types.{hello_packet, db_description, ls_request, ls_update, ls_acknowledge}
use rust_ospfd.Packet.Codec.Packets.{
  hello_from_buf, dd_from_buf, lsr_from_buf, lsu_from_buf, ack_from_buf,
}
use rust_ospfd.Neighbor.Event.{Env}
use rust_ospfd.Interface.State.{Interface}
use rust_ospfd.Interface.Invariant.{IsValid}
use rust_ospfd.Sender.{World}
use rust_ospfd.Flooding.{Interfaces}
use rust_ospfd.Flooding.Invariant.{AreValid}
use rust_ospfd.Handler.Hello as Hello
use rust_ospfd.Handler.Hello.Invariant as HelloValid
use rust_ospfd.Handler.Dd as Dd
use rust_ospfd.Handler.Lsr as Lsr
use rust_ospfd.Handler.Lsu as Lsu
use rust_ospfd.Handler.Lsu.Valid as LsuValid
use rust_ospfd.Handler.Ack as Ack
use rust_ospfd.Handler.Dispatch.{
  is_for, sender_of, insert_neighbor, on_me, dispatch, ospf_handle, receive,
}
use rust_ospfd.Handler.Dispatch.Invariant.{
  insert_neighbor-IsValid, dd-IsValid, lsr-IsValid, ack-IsValid,
}

-- A handler of one interface.
on_me-AreValid :
    (s : Interfaces) (o : Option (Interface × World)) {r : Interfaces × World}
    → AreValid s
    → ((x : Interface × World) → o ≡ some x → IsValid x.0)
    → on_me s o ≡ some r
    → AreValid r.0
on_me-AreValid s none h keep e = absurd (cc)
on_me-AreValid s (some x) h keep e = rw (← some-injective _ _ e) (keep x refl, h.1)

module _ (env : Env) (ip : Ipv4Addr) (bytes : Bytes) (s : Interfaces) (w : World)
    (h : AreValid s) where
  hello-AreValid :
      {r : Interfaces × World}
      → (hello_from_buf bytes >>= λ b. some (record s { me = Hello.handle env ip b.0 s.me }, w))
        ≡ some r
      → AreValid r.0
  hello-AreValid {r} e = elim (Option-cases (hello_from_buf bytes)) [
    | inl n ↦ absurd (cc (rw n at e))
    | inr ((b, rest), n) ↦
        rw (← some-injective _ _ (rw n at e)) (HelloValid.handle-IsValid env ip b s.me h.0, h.1)
  ]

  dd-AreValid :
      {r : Interfaces × World}
      → (dd_from_buf bytes >>= λ b. on_me s (Dd.handle env ip b.0 s.me w)) ≡ some r
      → AreValid r.0
  dd-AreValid {r} e = elim (Option-cases (dd_from_buf bytes)) [
    | inl n ↦ absurd (cc (rw n at e))
    | inr ((b, rest), n) ↦
        on_me-AreValid s (Dd.handle env ip b s.me w) {r = r} h
          (λ x q. dd-IsValid env ip b s.me w {r = x} h.0 q) (rw n at e)
  ]

  lsr-AreValid :
      {r : Interfaces × World}
      → (lsr_from_buf bytes >>= λ b. on_me s (Lsr.handle env ip b.0 s.me w)) ≡ some r
      → AreValid r.0
  lsr-AreValid {r} e = elim (Option-cases (lsr_from_buf bytes)) [
    | inl n ↦ absurd (cc (rw n at e))
    | inr ((b, rest), n) ↦
        on_me-AreValid s (Lsr.handle env ip b s.me w) {r = r} h
          (λ x q. lsr-IsValid env ip b s.me w {r = x} h.0 q) (rw n at e)
  ]

  lsu-AreValid :
      {r : Interfaces × World}
      → (lsu_from_buf bytes >>= λ b. Lsu.handle env ip b.0 s w) ≡ some r
      → AreValid r.0
  lsu-AreValid {r} e = elim (Option-cases (lsu_from_buf bytes)) [
    | inl n ↦ absurd (cc (rw n at e))
    | inr ((b, rest), n) ↦ LsuValid.handle-AreValid env ip b s w {r = r} h (rw n at e)
  ]

  ack-AreValid :
      {r : Interfaces × World}
      → (ack_from_buf bytes >>= λ b. some (record s { me = Ack.handle ip b.0 s.me }, w)) ≡ some r
      → AreValid r.0
  ack-AreValid {r} e = elim (Option-cases (ack_from_buf bytes)) [
    | inl n ↦ absurd (cc (rw n at e))
    | inr ((b, rest), n) ↦ rw (← some-injective _ _ (rw n at e)) (ack-IsValid ip b s.me h.0, h.1)
  ]

dispatch-AreValid :
    (env : Env) (ip : Ipv4Addr) (p : Ospf) (s : Interfaces) (w : World) {r : Interfaces × World}
    → AreValid s
    → dispatch env ip p s w ≡ some r
    → AreValid r.0
unfolding dispatch
dispatch-AreValid env ip p s w {r} h e = elim (Bool-cases (p.message_type == hello_packet)) [
  | inl a ↦ hello-AreValid env ip p.payload s w h {r = r} (rw (dispatch, a) at e)
  | inr a ↦ elim (Bool-cases (p.message_type == db_description)) [
    | inl b ↦ dd-AreValid env ip p.payload s w h {r = r} (rw (dispatch, a, b) at e)
    | inr b ↦ elim (Bool-cases (p.message_type == ls_request)) [
      | inl c ↦ lsr-AreValid env ip p.payload s w h {r = r} (rw (dispatch, a, b, c) at e)
      | inr c ↦ elim (Bool-cases (p.message_type == ls_update)) [
        | inl d ↦ lsu-AreValid env ip p.payload s w h {r = r} (rw (dispatch, a, b, c, d) at e)
        | inr d ↦ elim (Bool-cases (p.message_type == ls_acknowledge)) [
          | inl f ↦ ack-AreValid env ip p.payload s w h {r = r} (rw (dispatch, a, b, c, d, f) at e)
          | inr f ↦ rw (← some-injective _ _ (rw (dispatch, a, b, c, d, f) at e)) h
        ]
      ]
    ]
  ]
]

ospf_handle-AreValid :
    (env : Env) (src dest : Ipv4Addr) (p : Ospf) (s : Interfaces) (w : World)
    {r : Interfaces × World}
    → AreValid s
    → ospf_handle env src dest p s w ≡ some r
    → AreValid r.0
unfolding ospf_handle
ospf_handle-AreValid env src dest p s w {r} h e = elim (Bool-cases (is_for s.me dest p)) [
  | inr b ↦ rw (← some-injective _ _ (rw (ospf_handle, b) at e)) h
  | inl b ↦ elim (Bool-cases (p.au_type == 0)) [
    | inr c ↦ absurd (cc (rw (ospf_handle, b, c) at e))
    | inl c ↦
        let sender = sender_of s.me src p in
        let known = record s { me = insert_neighbor sender.0 sender.1 s.me } in
        dispatch-AreValid env sender.0 p known w {r = r}
          (insert_neighbor-IsValid sender.0 sender.1 s.me h.0, h.1) (rw (ospf_handle, b, c) at e)
  ]
]

-- Whatever packet an interface receives, if it is handled without a panic and all interfaces were
-- valid before, they are all valid afterwards: the address is not 0; before an election no DR or
-- BDR is recorded, and after one the state says what the recorded DR and BDR do; and every neighbor
-- is valid.
pub receive-AreValid :
    (env : Env) (src dest : Ipv4Addr) (bytes : Bytes) (p : Ospf) (s : Interfaces) (w : World)
    (r : Interfaces × World)
    → AreValid s
    → receive env src dest bytes p s w ≡ some r
    → AreValid r.0
unfolding receive
receive-AreValid env src dest bytes p s w r h e = elim (Option-cases (auto_test_checksum bytes)) [
  | inl n ↦ absurd (cc (rw (receive, n) at e))
  | inr (sum, n) ↦ elim (Bool-cases (sum && p.version == 2)) [
    | inl b ↦ ospf_handle-AreValid env src dest p s w {r = r} h (rw (receive, n, b) at e)
    | inr b ↦ rw (← some-injective _ _ (rw (receive, n, b) at e)) h
  ]
]
