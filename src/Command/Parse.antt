-- ===== src/Command/Parse.antt =====
-- `parse_cmd` of ospfd/command.rs. The search of the crate `trie_rs` and `str::to_lowercase` are
-- parameters. What is printed is an outcome; the column of an error is left out. `none` is a panic.
pub mod Total
pub mod Completed
use rust_ospfd.Prelude.{
  ℕ, ◌+◌, ◌<◌, Bool, true, false, ◌&&◌, List, [], ◌∷◌, Option, some, none, ◌==◌, ltb, length,
  filter, In, ◌≡◌, if◌then◌else◌, ◌>>=◌,
}
use rust_ospfd.Command.Text.{
  Text, IsAscii, codes, text_beq, starts_with, split_last, trim, split_ascii_whitespace,
}
use rust_ospfd.Command.Menu.{Action, Menu, root, CommandSet, command, desc, trie_keys}

pub data Outcome : Type 0 where
  help : List Text → Outcome
  bad_command ambiguous_command : Text → Outcome
  run : Action → Outcome

-- `Trie::predictive_search` on a trie of the given keys, and `str::to_lowercase`.
pub record Host : Type 0 where
  pub predictive_search : List Text → Text → List Text
  pub to_lowercase : Text → Text

-- The documented behaviour: the search finds the keys with the prefix, each once; the lower case
-- of an ASCII text is an ASCII text.
pub record IsLawful (h : Host) : Type 0 where
  pub In-predictive_search :
      (keys : List Text) (q k : Text)
      → In k (h.predictive_search keys q)
      → In k (filter (λ s. starts_with s q) keys)
  pub length-predictive_search :
      (keys : List Text) (q : Text)
      → length (h.predictive_search keys q) ≡ length (filter (λ s. starts_with s q) keys)
  pub to_lowercase-IsAscii : (s : Text) → IsAscii s → IsAscii (h.to_lowercase s)

-- `self.handlers.get(key)`
unfoldable pub handler : Text → List (Text × Menu) → Option Menu
handler k [] = none
handler k ((j, m) ∷ hs) = let rest = handler k hs in if text_beq j k then some m else rest

-- A word without the question mark at its end, and whether there was one.
unfoldable pub unquestioned : Text → Text × Bool
unfolding split_last
unquestioned [] = ([], false)
unquestioned (c ∷ s) =
    let (front, last) = split_last c s in if last == 63 then (front, true) else (c ∷ s, false)

-- Where a word leads: to the next set, or to the end of `parse_cmd`.
pub data Step : Type 0 where
  goto : Menu → Step
  done : Outcome → Step

-- The body of the loop, after the test for a lone question mark and the search.
unfoldable pub choose : Menu → Text → Bool → List Text → Option Step
unfolding handler command
choose m cmd q [] = elim (command m).arbitrary [
  | some (key, f) ↦ some (goto (f cmd))
  | none ↦ some (done (bad_command cmd))
]
choose m cmd q (k ∷ ks) =
    let next : Option Step = (handler k (command m).handlers >>= λ (m' : Menu). some (goto m')) in
    if q
    then some (done (help (k ∷ ks)))
    else if ltb 1 (length (k ∷ ks))
    then some (done (ambiguous_command cmd))
    else next

unfoldable pub advance : Host → Menu → Text → Bool → Option Step
unfolding choose trie_keys
advance h m cmd q = choose m cmd q (h.predictive_search (trie_keys (command m)) cmd)

unfoldable pub walk_word : Host → Menu → Text → Option Step
unfolding advance unquestioned desc
walk_word h m w =
    let (cmd, q) = unquestioned w in
    let next = advance h m cmd q in
    if text_beq w (codes "?") then some (done (help (desc (command m)))) else next

-- The loop over the words.
pub data Walked : Type 0 where
  reached : Menu → Walked
  stopped : Outcome → Walked

unfoldable pub walk : Host → Menu → List Text → Option Walked
unfolding walk_word
walk h m [] = some (reached m)
walk h m (w ∷ ws) =
    walk_word h m w >>= λ s. elim s [ goto m' ↦ walk h m' ws | done o ↦ some (stopped o) ]

-- What follows the loop. The error cuts the last byte off the line, which is a panic at a
-- character of more than one.
unfoldable pub enter_on : Menu → Text → Option Outcome
unfolding command split_last
enter_on m [] = elim (command m).handle_enter [ some a ↦ some (run a) | none ↦ none ]
enter_on m (c ∷ s) = elim (command m).handle_enter [
  | some a ↦ some (run a)
  | none ↦
      let (front, last) = split_last c s in
      if ltb last 128 then some (bad_command (last ∷ [])) else none
]

-- `parse_cmd`, behind the change of the line to lower case.
abbrev pub finish : Text → Walked → Option Outcome
finish line (reached m) = enter_on m line
finish line (stopped o) = some o

unfoldable pub parse_line : Host → Text → Option Outcome
unfolding walk enter_on split_ascii_whitespace
parse_line h line = walk h root (split_ascii_whitespace line) >>= finish line

unfoldable pub parse_cmd : Host → Text → Option Outcome
unfolding parse_line trim
parse_cmd h raw = parse_line h (h.to_lowercase (trim raw))
