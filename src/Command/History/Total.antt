-- ===== src/Command/History/Total.antt =====
-- `main_loop` of ospfd/command.rs on ASCII keys.
use rust_ospfd.Prelude.{
  ℕ, zero, suc, ◌<◌, ◌≡◌, ◌&&◌, List, [], ◌∷◌, some, none, Bool, true, false, refl, Option-cases,
  ◌==◌, length, All, arith, if◌then◌else◌, Bool-cases, inl, inr,
}
use rust_ospfd.Command.Text.{Text, IsAscii, trim_start, trim_end, trim, is_whitespace}
use rust_ospfd.Command.Editor.{
  Key, char, backspace, left, right, up, down, enter, ignored, Read, line, exit, wait, read_line,
}
use rust_ospfd.Command.Editor.Zipper.{IsAsciiKey, typed, rev_onto-IsAscii, read_line-typed}
use rust_ospfd.Command.Numbers.{parse_u16, parse_ipv4}
use rust_ospfd.Command.Menu.{
  Action, run_nothing, show_routing, show_system_routing, show_peers, show_lsdb, exit_ospfd,
  set_area, set_cost,
}
use rust_ospfd.Command.Effects.{
  Router, get_interface_by_name, change_area, change_cost, block, perform,
}
use rust_ospfd.Command.Parse.{Host, IsLawful, Outcome, help, bad_command, ambiguous_command, run}
use rust_ospfd.Command.Parse.Total.{parse_cmd_total}
use rust_ospfd.Command.History.{
  is_blank, Shell, Loop, waiting, quit, stopped, panicked, out_of_fuel, exits, act, kept, main_loop,
}

trim_start-IsAscii : (s : Text) → IsAscii s → IsAscii (trim_start s)
unfolding trim_start
trim_start-IsAscii [] h = tt
trim_start-IsAscii (c ∷ s) h = elim (Bool-cases (is_whitespace c)) [
  | inl q ↦ rw q (trim_start-IsAscii s h.1)
  | inr q ↦ rw q h
]

trim_end-IsAscii : (s : Text) → IsAscii s → IsAscii (trim_end s)
unfolding trim_end
trim_end-IsAscii [] h = tt
trim_end-IsAscii (c ∷ s) h = ahead (trim_end s) (trim_end-IsAscii s h.1)
  where
    ahead :
        (t : Text)
        → IsAscii t
        → IsAscii (elim t [ [] ↦ if is_whitespace c then [] else c ∷ [] | d ∷ u ↦ c ∷ d ∷ u ])
    ahead [] g = elim (Bool-cases (is_whitespace c)) [ inl q ↦ rw q tt | inr q ↦ rw q (h.0, tt) ]
    ahead (d ∷ u) g = (h.0, g)

trim-IsAscii : (s : Text) → IsAscii s → IsAscii (trim s)
unfolding trim
trim-IsAscii s h = trim_end-IsAscii (trim_start s) (trim_start-IsAscii s h)

-- What a round leaves: a line of ASCII, and fewer keys.
abbrev IsRound : ℕ → Read → Type 0
IsRound n (line e rest) = IsAscii e.buffer × (All IsAsciiKey rest × (length rest < n))
IsRound n (wait e) = Unit
IsRound n exit = Unit

one_more : (n : ℕ) (r : Read) → IsRound n r → IsRound (suc n) r
one_more n (line e rest) (a, (k, l)) = (a, (k, omega arith))
one_more n (wait e) h = tt
one_more n exit h = tt

typed-IsRound :
    (ks : List Key) (p s : Text)
    → All IsAsciiKey ks
    → IsAscii p
    → IsAscii s
    → IsRound (length ks) (typed ks (record { passed = p; ahead = s }))
unfolding typed
typed-IsRound [] p s hk hp hs = tt
typed-IsRound (char c control ∷ ks) p s hk hp hs = elim (Bool-cases (c == 99 && control)) [
  | inl q ↦ rw q tt
  | inr q ↦ rw q (one_more _ _ (typed-IsRound ks (c ∷ p) s hk.1 (hk.0, hp) hs))
]
typed-IsRound (backspace ∷ ks) [] s hk hp hs = one_more _ _ (typed-IsRound ks [] s hk.1 hp hs)
typed-IsRound (backspace ∷ ks) (c ∷ p) s hk hp hs = one_more _ _ (typed-IsRound ks p s hk.1 hp.1 hs)
typed-IsRound (left ∷ ks) [] s hk hp hs = one_more _ _ (typed-IsRound ks [] s hk.1 hp hs)
typed-IsRound (left ∷ ks) (c ∷ p) s hk hp hs =
    one_more _ _ (typed-IsRound ks p (c ∷ s) hk.1 hp.1 (hp.0, hs))
typed-IsRound (right ∷ ks) p [] hk hp hs = one_more _ _ (typed-IsRound ks p [] hk.1 hp hs)
typed-IsRound (right ∷ ks) p (c ∷ s) hk hp hs =
    one_more _ _ (typed-IsRound ks (c ∷ p) s hk.1 (hs.0, hp) hs.1)
typed-IsRound (up ∷ ks) p s hk hp hs = one_more _ _ (typed-IsRound ks p s hk.1 hp hs)
typed-IsRound (down ∷ ks) p s hk hp hs = one_more _ _ (typed-IsRound ks p s hk.1 hp hs)
typed-IsRound (enter ∷ ks) p s hk hp hs = (rev_onto-IsAscii p s hp hs, (hk.1, omega arith))
typed-IsRound (ignored ∷ ks) p s hk hp hs = one_more _ _ (typed-IsRound ks p s hk.1 hp hs)

-- The loop waits for keys, or the process was asked to exit, or the action of a command panics, as it
-- can in a thread that runs asynchronous code.
abbrev pub IsServing : Bool → Loop → Type 0
IsServing b (waiting s) = Unit
IsServing b (quit s) = Unit
IsServing b (stopped s o) = (b ≡ true) × (act b o s.router ≡ none)
IsServing b panicked = ⊥
IsServing b out_of_fuel = ⊥

perform_total : (a : Action) (r : Router) → (r' : Router) × (perform false a r ≡ some r')
unfolding perform change_area change_cost block
perform_total run_nothing r = (r, refl)
perform_total show_system_routing r = (r, refl)
perform_total exit_ospfd r = (r, refl)
perform_total show_routing r = (r, refl)
perform_total show_peers r = (r, refl)
perform_total show_lsdb r = (r, refl)
perform_total (set_area name arg) r =
    elim (Option-cases (get_interface_by_name name r.interfaces)) [
      | inl p ↦ (r, rw (p, change_area) refl)
      | inr (i, p) ↦ elim (Option-cases (parse_ipv4 arg)) [
        | inl q ↦ (r, rw (p, q, change_area) refl)
        | inr (id, q) ↦ rw (p, q, change_area) (_, refl)
      ]
    ]
perform_total (set_cost name arg) r =
    elim (Option-cases (get_interface_by_name name r.interfaces)) [
      | inl p ↦ (r, rw (p, change_cost) refl)
      | inr (i, p) ↦ elim (Option-cases (parse_u16 arg)) [
        | inl q ↦ (r, rw (p, q, change_cost) refl)
        | inr (id, q) ↦ rw (p, q, change_cost) (_, refl)
      ]
    ]

act_total : (o : Outcome) (r : Router) → (r' : Router) × (act false o r ≡ some r')
unfolding act
act_total (help ls) r = (r, refl)
act_total (bad_command l) r = (r, refl)
act_total (ambiguous_command l) r = (r, refl)
act_total (run a) r = perform_total a r

-- An action that panics does so in a thread that runs asynchronous code.
act_blocks : (b : Bool) (o : Outcome) (r : Router) → act b o r ≡ none → b ≡ true
act_blocks true o r e = refl
act_blocks false o r e = let (r', q) = act_total o r in absurd (cc (q, e))

module _ (b : Bool) (h : Host) (lawful : IsLawful h) where
  -- A round of the loop, and what follows it.
  main_loop-round :
      (fuel : ℕ) (ks : List Key) (s : Shell) (r : Read)
      → read_line ks s.editor ≡ some r
      → IsRound (length ks) r
      → length ks < suc fuel
      → ((rest : List Key) (t : Shell)
          → All IsAsciiKey rest
          → length rest < fuel
          → IsServing b (main_loop b h fuel rest t))
      → IsServing b (main_loop b h (suc fuel) ks s)
  unfolding main_loop
  main_loop-round fuel ks s exit n g lt ih = rw (n, main_loop) tt
  main_loop-round fuel ks s (wait e) n g lt ih = rw (n, main_loop) tt
  main_loop-round fuel ks s (line e rest) n (a, (k, l)) lt ih =
      elim (Bool-cases (is_blank e.buffer)) [
        | inl q ↦ rw (n, q, main_loop) (ih rest (record s { editor = e }) k (omega arith))
        | inr q ↦
            let (o, p) =
              parse_cmd_total h lawful e.buffer
                (lawful.to_lowercase-IsAscii (trim e.buffer) (trim-IsAscii e.buffer a)) in
            elim (Bool-cases (exits o)) [
              | inl x ↦ rw (n, q, p, x, main_loop) tt
              | inr x ↦ elim (Option-cases (act b o s.router)) [
                | inl y ↦ rw (n, q, p, x, y, main_loop) (act_blocks b o s.router y, y)
                | inr (r, y) ↦
                    rw (n, q, p, x, y, main_loop)
                      (ih rest (record (kept e s o) { router = r }) k (omega arith))
              ]
            ]
      ]

  -- With a search and a lower case that behave as documented, and with fuel for one round more than
  -- there are keys, `main_loop` on ASCII keys ends waiting for further keys, or because the process
  -- exits, or with a panic of the action of a command. The editor and the parsing do not panic, the
  -- fuel is enough, and the third end is only of a thread that runs asynchronous code.
  pub main_loop_total :
      (fuel : ℕ) (ks : List Key) (s : Shell)
      → All IsAsciiKey ks
      → length ks < fuel
      → IsServing b (main_loop b h fuel ks s)
  main_loop_total zero ks s a lt = absurd (omega arith)
  main_loop_total (suc fuel) ks s a lt =
      main_loop-round fuel ks s _ (read_line-typed ks s.editor a) (typed-IsRound ks [] [] a tt tt)
        lt (λ rest t k l. main_loop_total fuel rest t k l)
