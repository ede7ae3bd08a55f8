-- ===== src/Examples/Commands.antt =====
-- Command lines, and a host that searches and lowers as documented.
use rust_ospfd.Prelude.{
  ℕ, ◌+◌, ◌<◌, ◌≡◌, refl, true, false, ◌&&◌, List, [], ◌∷◌, map, some, none, leb, filter, All,
  arith, if◌then◌else◌,
}
use rust_ospfd.Prelude.{nat_eq}
use rust_ospfd.Neighbor.State.{full}
use rust_ospfd.Interface.Event.{NetworkInterface}
use rust_ospfd.Examples.{interface, world}
use rust_ospfd.Command.Numbers.{parse_ipv4}
use rust_ospfd.Command.Effects.{Named, Router, get_interface_by_name, change_area}
use rust_ospfd.Command.Effects.Moved.{IsMoved, change_area-IsMoved}
use rust_ospfd.Command.Text.{Text, IsAscii, codes, starts_with}
use rust_ospfd.Command.Editor.{Key, char, backspace, left, right, up, enter, new, read_line}
use rust_ospfd.Command.Editor.Zipper.{IsAsciiKey, typed, read_line-typed, read_line_wide}
use rust_ospfd.Command.Menu.{root, show_peers}
use rust_ospfd.Command.Parse.{Host, IsLawful, run, walk, parse_cmd}
use rust_ospfd.Command.Parse.Completed.{spell, walk-spell}
use rust_ospfd.Command.History.{Shell, main_loop}
use rust_ospfd.Command.History.Kept.{KeptIn, main_loop-KeptIn}
use rust_ospfd.Command.History.Total.{IsServing, main_loop_total}

abbrev pub lower : ℕ → ℕ
lower c = if leb 65 c && leb c 90 then c + 32 else c

abbrev pub host : Host
host = record {
  predictive_search = λ keys q. filter (λ s. starts_with s q) keys;
  to_lowercase = map lower;
}

lower_ascii : (c : ℕ) → c < 128 → lower c < 128
lower_ascii c h = ground arith

map-lower-IsAscii : (s : Text) → IsAscii s → IsAscii (map lower s)
map-lower-IsAscii [] h = tt
map-lower-IsAscii (c ∷ s) h = (lower_ascii c h.0, map-lower-IsAscii s h.1)

host-IsLawful : IsLawful host
host-IsLawful = record {
  In-predictive_search = λ keys q k i. i;
  length-predictive_search = λ keys q. refl;
  to_lowercase-IsAscii = map-lower-IsAscii;
}

abbrev plain : ℕ → Key
plain c = char c false

-- "dsi", one to the left, the `i` put before the `s`, then " p" at the end, and Enter.
abbrev keys : List Key
keys =
    plain 100
    ∷ plain 115
    ∷ left
    ∷ plain 105
    ∷ right
    ∷ plain 32
    ∷ plain 112
    ∷ plain 113
    ∷ backspace
    ∷ up
    ∷ enter
    ∷ plain 101
    ∷ enter
    ∷ []

keys-IsAscii : All IsAsciiKey keys
keys-IsAscii = ground arith

abbrev device : NetworkInterface
device = record { is_point_to_point = false; is_multicast = true; is_broadcast = true }

abbrev eth : Named
eth = record { interface_name = codes "eth0"; device = device; iface = interface full }

abbrev router : Router
router = record { interfaces = eth ∷ []; db = world.db }

abbrev shell : Shell
shell = record { history = []; editor = new; outcomes = []; router = router }

read_line-typed_example :
    read_line keys new ≡ some (typed keys (record { passed = []; ahead = [] }))
read_line-typed_example = read_line-typed keys new keys-IsAscii

read_line_wide_example : read_line (char 233 false ∷ char 97 false ∷ enter ∷ []) new ≡ none
read_line_wide_example = read_line_wide 233 97 false (enter ∷ []) new (omega arith) refl

walk-spell_example :
    walk host root (spell host root (codes "di" ∷ codes "r" ∷ codes "s" ∷ []))
    ≡ walk host root (codes "di" ∷ codes "r" ∷ codes "s" ∷ [])
walk-spell_example = walk-spell host host-IsLawful (codes "di" ∷ codes "r" ∷ codes "s" ∷ []) root

main_loop-KeptIn_example : KeptIn shell (main_loop true host 14 keys shell)
main_loop-KeptIn_example = main_loop-KeptIn true host 14 keys shell (omega arith)

main_loop_total_example : IsServing true (main_loop true host 14 keys shell)
main_loop_total_example =
    main_loop_total true host host-IsLawful 14 keys shell keys-IsAscii (omega arith)

spelled :
    spell host root (codes "di" ∷ codes "r" ∷ codes "s" ∷ [])
    ≡ codes "display" ∷ codes "routing" ∷ codes "system" ∷ []
unfolding spell
spelled = refl

parsed_peers : parse_cmd host (codes " DIS  pe ") ≡ some (run show_peers)
unfolding parse_cmd
parsed_peers = refl

change_area-IsMoved_example :
    (change_area true (codes "eth0") (codes "0.0.0.1") router ≡ none)
    × ((r : Router) × (change_area false (codes "eth0") (codes "0.0.0.1") router ≡ some r)
        × IsMoved (codes "eth0") 1 eth router r)
unfolding get_interface_by_name parse_ipv4
change_area-IsMoved_example =
    change_area-IsMoved (codes "eth0") (codes "0.0.0.1") router eth 1 refl refl
