-- ===== src/Command/History.antt =====
-- `main_loop` of ospfd/command.rs with `COMMAND_HISTORY`.
pub mod Kept
pub mod Total
use rust_ospfd.Prelude.{
  ℕ, zero, suc, Bool, true, false, List, [], ◌∷◌, ◌++◌, Option, some, none, ltb, length, drop,
  is_empty, if◌then◌else◌,
}
use rust_ospfd.Command.Text.{Text, trim}
use rust_ospfd.Command.Editor.{LineEditor, Key, Read, line, exit, wait, read_line}
use rust_ospfd.Command.Menu.{Action, exit_ospfd}
use rust_ospfd.Command.Effects.{Router, perform}
use rust_ospfd.Command.Parse.{Host, Outcome, run, parse_cmd}

abbrev pub max_history : ℕ
max_history = 50

-- `push_back`, and `pop_front` where the history has grown too long.
unfoldable pub remember : Text → List Text → List Text
remember l h =
    let grown = h ++ l ∷ [] in if ltb max_history (length grown) then drop 1 grown else grown

-- A blank line is not kept and not run.
unfoldable pub is_blank : Text → Bool
unfolding trim
is_blank l = is_empty (trim l)

pub record Shell : Type 0 where
  pub history : List Text
  pub editor : LineEditor
  pub outcomes : List Outcome
  pub router : Router

-- `stopped` is a panic of the command's action, `panicked` one of the editor or the parsing.
pub data Loop : Type 0 where
  waiting quit : Shell → Loop
  stopped : Shell → Outcome → Loop
  panicked out_of_fuel : Loop

abbrev pub exits : Outcome → Bool
exits (run exit_ospfd) = true
exits _ = false

-- `hd()` in `parse_cmd`: the action that the line leads to.
unfoldable pub act : Bool → Outcome → Router → Option Router
unfolding perform
act asynchronous (run a) r = perform asynchronous a r
act asynchronous _ r = some r

-- The state after a line: kept, with what the command came to.
abbrev pub kept : LineEditor → Shell → Outcome → Shell
kept e s o = record {
  history = remember e.buffer s.history;
  editor = e;
  outcomes = s.outcomes ++ o ∷ [];
  router = s.router;
}

-- `main_loop` in a thread that runs asynchronous code or not, on fuel for its rounds and on the events
-- to come.
unfoldable pub main_loop : Bool → Host → ℕ → List Key → Shell → Loop
unfolding read_line remember is_blank parse_cmd act
main_loop b h zero ks s = out_of_fuel
main_loop b h (suc fuel) ks s = elim (read_line ks s.editor) [
  | none ↦ panicked
  | some r ↦ elim r [
    | exit ↦ quit s
    | wait e ↦ waiting (record s { editor = e })
    | line e rest ↦ elim (is_blank e.buffer) [
      | true ↦ main_loop b h fuel rest (record s { editor = e })
      | false ↦ elim (parse_cmd h e.buffer) [
        | none ↦ panicked
        | some o ↦ elim (exits o) [
          | true ↦ quit (kept e s o)
          | false ↦ elim (act b o s.router) [
            | none ↦ stopped (kept e s o) o
            | some r ↦ main_loop b h fuel rest (record (kept e s o) { router = r })
          ]
        ]
      ]
    ]
  ]
]
