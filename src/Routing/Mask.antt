-- ===== src/Routing/Mask.antt =====
-- `Ipv4AddrMask` of ospfd/database/routing.rs, with `&` on addresses and `u32::leading_ones`.
use Prim.Native.Nat.{bit_and}
use rust_ospfd.Prelude.{
  ℕ, zero, suc, Bool, true, Option, some, ◌==◌, ◌&&◌, if◌then◌else◌, ◌-◌, ◌*◌, ◌/◌, ◌%◌, ◌^◌, ◌≡◌,
  ◌↔◌, arith, Eq, ◌>>=◌, ◌>>◌, assert, not,
}
use rust_ospfd.Packet.Lsa.{Ipv4Addr}

pub record AddrMask : Type 0 where
  pub addr : Ipv4Addr
  pub len : ℕ

abbrev pub mask_beq : AddrMask → AddrMask → Bool
mask_beq a b = a.addr == b.addr && a.len == b.len

pub mask_beq_iff : (a b : AddrMask) → (mask_beq a b ≡ true) ↔ (a ≡ b)
mask_beq_iff a b = ground arith

instance abbrev pub mask_eq : Eq AddrMask
mask_eq = record { beq = mask_beq; beq_iff = mask_beq_iff }

-- `u32::leading_ones`, from the bit `k - 1` down.
unfoldable pub leading_ones : ℕ → ℕ → ℕ
leading_ones zero n = 0
leading_ones (suc k) n = if n / 2 ^ k % 2 == 1 then suc (leading_ones k n) else 0

-- `Ipv4AddrMask::from`
unfoldable pub mask_from : Ipv4Addr → Ipv4Addr → AddrMask
unfolding leading_ones
mask_from addr mask = record { addr = bit_and addr mask; len = leading_ones 32 mask }

-- `Ipv4AddrMask::mask`. `none` is the overflow of a shift by 32, where the length is 0.
unfoldable pub mask_of : AddrMask → Option Ipv4Addr
mask_of m = assert (not (m.len == 0)) >> some ((2 ^ 32 - 1) * 2 ^ (32 - m.len) % 2 ^ 32)

-- `Ipv4AddrMask::network`
unfoldable pub network_of : AddrMask → Option Ipv4Addr
unfolding mask_of
network_of m = do mask ← mask_of m; some (bit_and m.addr mask)
