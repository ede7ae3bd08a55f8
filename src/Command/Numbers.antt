-- ===== src/Command/Numbers.antt =====
-- The texts that ospfd/command.rs parses with `str::parse`: an `Ipv4Addr` and a `u16`. `none` is
-- the error.
use rust_ospfd.Prelude.{
  ℕ, ◌+◌, ◌-◌, ◌*◌, ◌^◌, Bool, true, ◌&&◌, [], ◌∷◌, Option, some, none, ◌==◌, ltb, leb, length,
  if◌then◌else◌, ◌>>=◌, ◌>>◌, assert,
}
use rust_ospfd.Command.Text.{Text}

abbrev pub is_digit : ℕ → Bool
is_digit c = leb 48 c && leb c 57

-- `u16::from_str`: digits, after a plus sign or not, of a number below 2 ^ 16.
unfoldable pub u16_digits : ℕ → Text → Option ℕ
u16_digits n [] = some n
u16_digits n (c ∷ s) =
    let m = n * 10 + (c - 48) in
    let rest = u16_digits m s in if is_digit c && ltb m (2 ^ 16) then rest else none

unfoldable pub parse_u16 : Text → Option ℕ
unfolding u16_digits
parse_u16 [] = none
parse_u16 (c ∷ []) = u16_digits 0 (c ∷ [])
parse_u16 (c ∷ d ∷ s) = if c == 43 then u16_digits 0 (d ∷ s) else u16_digits 0 (c ∷ d ∷ s)

-- The digits at the front, and what is behind them.
unfoldable pub take_digits : Text → Text × Text
take_digits [] = ([], [])
take_digits (c ∷ s) =
    let (digits, rest) = take_digits s in if is_digit c then (c ∷ digits, rest) else ([], c ∷ s)

unfoldable pub decimal : ℕ → Text → ℕ
decimal n [] = n
decimal n (c ∷ s) = decimal (n * 10 + (c - 48)) s

-- One to three digits, with no zero in front of others, of a number below 2 ^ 8.
unfoldable pub octet : Text → Option ℕ
unfolding decimal
octet [] = none
octet (c ∷ s) = do
  assert (leb (length s) 2)
  assert (if c == 48 then length s == 0 else true)
  assert (ltb (decimal 0 (c ∷ s)) 256)
  some (decimal 0 (c ∷ s))

-- A full stop, and what is behind it.
abbrev full_stop : Text → Option Text
full_stop [] = none
full_stop (c ∷ s) = if c == 46 then some s else none

abbrev at_end : Text → Option (Unit {0})
at_end [] = some tt
at_end (c ∷ s) = none

-- `Ipv4Addr::from_str`: four octets with full stops between them.
unfoldable pub parse_ipv4 : Text → Option ℕ
unfolding take_digits octet
parse_ipv4 s = do
  a ← octet (take_digits s).0
  s1 ← full_stop (take_digits s).1
  b ← octet (take_digits s1).0
  s2 ← full_stop (take_digits s1).1
  c ← octet (take_digits s2).0
  s3 ← full_stop (take_digits s2).1
  d ← octet (take_digits s3).0
  at_end (take_digits s3).1
  some (((a * 256 + b) * 256 + c) * 256 + d)
