-- ===== src/Command/Editor.antt =====
-- `LineEditor` of ospfd/command.rs. What is drawn on the terminal is left out; the events are a
-- list, in the order in which `event::read` gives them. `none` is a panic.
pub mod Zipper
use rust_ospfd.Prelude.{
  ℕ, ◌+◌, ◌-◌, Bool, true, List, [], ◌∷◌, Option, some, none, ltb, ◌==◌, ◌&&◌, if◌then◌else◌, ◌>>=◌,
}
use rust_ospfd.Command.Text.{Text, byte_len, insert_at, remove_at}

-- `KeyCode` as far as the editor tells the codes apart; a character comes with whether CONTROL is
-- among the modifiers. `ignored` stands for the other keys and for events that are no keys.
pub data Key : Type 0 where
  char : ℕ → Bool → Key
  backspace left right up down enter ignored : Key

pub record LineEditor : Type 0 where
  pub buffer : Text
  pub history_index : Option ℕ
  pub cursor_position : ℕ

-- `LineEditor::new`
unfoldable pub new : LineEditor
new = record { buffer = []; history_index = none; cursor_position = 0 }

-- What `read_line` does before its loop.
abbrev pub clear : LineEditor → LineEditor
clear e = record { buffer = []; history_index = none; cursor_position = 0 }

-- What an event leads to: the loop goes on, it is left by a break, or the process exits.
pub data Pressed : Type 0 where
  editing finished : LineEditor → Pressed
  exited : Pressed

-- The arm of `KeyCode::Char`
unfoldable pub type_char : ℕ → LineEditor → Option LineEditor
unfolding insert_at
type_char c e = do
  s ← insert_at e.cursor_position c e.buffer
  some (record e { buffer = s; cursor_position = e.cursor_position + 1 })

-- The arm of `KeyCode::Backspace`
unfoldable pub erase_char : LineEditor → Option LineEditor
unfolding remove_at
erase_char e =
    let erased : Option LineEditor =
      (remove_at (e.cursor_position - 1) e.buffer >>= λ s.
      some (record e { buffer = s; cursor_position = e.cursor_position - 1 })) in
    if ltb 0 e.cursor_position then erased else some e

-- The arms of `KeyCode::Left` and `KeyCode::Right`
unfoldable pub move_left : LineEditor → LineEditor
move_left e =
    if ltb 0 e.cursor_position then record e { cursor_position = e.cursor_position - 1 } else e

unfoldable pub move_right : LineEditor → LineEditor
unfolding byte_len
move_right e =
    if ltb e.cursor_position (byte_len e.buffer)
    then record e { cursor_position = e.cursor_position + 1 }
    else e

-- The body of the loop.
unfoldable pub press : Key → LineEditor → Option Pressed
unfolding type_char erase_char move_left move_right
press (char c control) e =
    if c == 99 && control then some exited else (type_char c e >>= λ e'. some (editing e'))
press backspace e = erase_char e >>= λ e'. some (editing e')
press left e = some (editing (move_left e))
press right e = some (editing (move_right e))
press up e = some (editing e)
press down e = some (editing e)
press enter e = some (finished e)
press ignored e = some (editing e)

-- How far the events lead: the line with the events behind it, the exit, or the wait for more.
pub data Read : Type 0 where
  line : LineEditor → List Key → Read
  exit : Read
  wait : LineEditor → Read

-- The loop of `read_line`.
unfoldable pub read_loop : List Key → LineEditor → Option Read
unfolding press
read_loop [] e = some (wait e)
read_loop (k ∷ ks) e = press k e >>= λ p. elim p [
  | editing e' ↦ read_loop ks e'
  | finished e' ↦ some (line e' ks)
  | exited ↦ some exit
]

-- `read_line`
unfoldable pub read_line : List Key → LineEditor → Option Read
unfolding read_loop
read_line ks e = read_loop ks (clear e)
