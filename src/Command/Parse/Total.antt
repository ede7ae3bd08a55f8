-- ===== src/Command/Parse/Total.antt =====
-- `parse_cmd` of ospfd/command.rs on ASCII lines.
use rust_ospfd.Prelude.{
  ℕ, ◌≡◌, refl, Bool, true, false, List, [], ◌∷◌, some, ==_iff, ltb, length, In, In-filter, arith,
  Bool-cases, Option-cases, inl, inr, keys,
}
use rust_ospfd.Command.Text.{
  Text, IsAscii, text_beq, split_last, trim, codes, starts_with, split_ascii_whitespace,
}
use rust_ospfd.Command.Menu.{Menu, root, run_nothing, command, desc, trie_keys}
use rust_ospfd.Command.Parse.{
  Host, IsLawful, Outcome, run, bad_command, ambiguous_command, help, handler, Step, goto, done,
  choose, advance, unquestioned, walk_word, Walked, reached, stopped, walk, enter_on, finish,
  parse_line, parse_cmd,
}

pub text_beq_refl : (s : Text) → text_beq s s ≡ true
text_beq_refl [] = refl
text_beq_refl (c ∷ s) = rw ((==_iff c c).1 refl, text_beq_refl s)

-- The keys of the trie are the keys of the handlers.
pub trie_keys-command : (m : Menu) → trie_keys (command m) ≡ keys (command m).handlers
unfolding trie_keys command
trie_keys-command Menu.root = refl
trie_keys-command Menu.display = refl
trie_keys-command Menu.display_routing = refl
trie_keys-command Menu.display_routing_system = refl
trie_keys-command Menu.display_peer = refl
trie_keys-command Menu.display_lsdb = refl
trie_keys-command Menu.interface = refl
trie_keys-command (Menu.interface_name n) = refl
trie_keys-command (Menu.interface_area n) = refl
trie_keys-command (Menu.interface_cost n) = refl
trie_keys-command (Menu.interface_area_id n a) = refl
trie_keys-command (Menu.interface_cost_set n c) = refl
trie_keys-command Menu.exit = refl

handler_found :
    (k : Text) (hs : List (Text × Menu)) → In k (keys hs) → (m : Menu) × (handler k hs ≡ some m)
unfolding handler
handler_found k [] h = elim h [ ]
handler_found k ((j, m) ∷ hs) h = elim (Bool-cases (text_beq j k)) [
  | inl q ↦ (m, rw q refl)
  | inr q ↦ elim h [
    | inl e ↦ absurd (cc (rw (e, text_beq_refl) at q))
    | inr i ↦ let (m', p) = handler_found k hs i in (m', rw q p)
  ]
]

split_last_ascii : (c : ℕ) (s : Text) → IsAscii (c ∷ s) → ltb (split_last c s).1 128 ≡ true
unfolding split_last
split_last_ascii c [] a = ground (arith, a.0)
split_last_ascii c (d ∷ s) a = split_last_ascii d s a.1

enter_on_total :
    (m : Menu) (c : ℕ) (s : Text) → IsAscii (c ∷ s) → (o : Outcome) × (enter_on m (c ∷ s) ≡ some o)
unfolding enter_on
enter_on_total m c s a = elim (Option-cases (command m).handle_enter) [
  | inl e ↦ (bad_command ((split_last c s).1 ∷ []), rw (e, enter_on, split_last_ascii c s a) refl)
  | inr (act, e) ↦ (run act, rw (e, enter_on) refl)
]

module _ (h : Host) (lawful : IsLawful h) where
  -- What the search finds is a key, with the prefix, that has a handler.
  pub found :
      (m : Menu) (q k : Text)
      → In k (h.predictive_search (trie_keys (command m)) q)
      → (starts_with k q ≡ true) × ((m' : Menu) × (handler k (command m).handlers ≡ some m'))
  found m q k i =
      let f =
        In-filter (λ s. starts_with s q) {a = k} (trie_keys (command m))
          (lawful.In-predictive_search (trie_keys (command m)) q k i) in
      (f.1, handler_found k (command m).handlers (rw (← trie_keys-command m) f.0))

  choose_total :
      (m : Menu) (cmd : Text) (q : Bool) (ks : List Text)
      → ((k : Text) → In k ks → (m' : Menu) × (handler k (command m).handlers ≡ some m'))
      → (s : Step) × (choose m cmd q ks ≡ some s)
  unfolding choose
  choose_total m cmd q [] g = elim (Option-cases (command m).arbitrary) [
    | inl e ↦ (done (bad_command cmd), rw (choose, e) refl)
    | inr ((key, f), e) ↦ (goto (f cmd), rw (choose, e) refl)
  ]
  choose_total m cmd true (k ∷ ks) g = (done (help (k ∷ ks)), refl)
  choose_total m cmd false (k ∷ ks) g = elim (Bool-cases (ltb 1 (length (k ∷ ks)))) [
    | inl e ↦ (done (ambiguous_command cmd), rw e refl)
    | inr e ↦ let (m', p) = g k (inl refl) in (goto m', rw (e, p) refl)
  ]

  walk_word_total : (m : Menu) (w : Text) → (s : Step) × (walk_word h m w ≡ some s)
  unfolding walk_word
  walk_word_total m w = elim (Bool-cases (text_beq w (codes "?"))) [
    | inl e ↦ (done (help (desc (command m))), rw e refl)
    | inr e ↦
        let (s, p) =
          choose_total m (unquestioned w).0 (unquestioned w).1
            (h.predictive_search (trie_keys (command m)) (unquestioned w).0)
            (λ k i. (found m (unquestioned w).0 k i).1) in
        (s, rw (e, advance, p) refl)
  ]

  follow_total :
      (ws : List Text) (s : Step)
      → ((m : Menu) → (r : Walked) × (walk h m ws ≡ some r))
      → (r : Walked) × ((elim s [ goto m' ↦ walk h m' ws | done o ↦ some (stopped o) ]) ≡ some r)
  follow_total ws (goto m') each = each m'
  follow_total ws (done o) each = (stopped o, refl)

  pub walk_total : (ws : List Text) (m : Menu) → (r : Walked) × (walk h m ws ≡ some r)
  unfolding walk
  walk_total [] m = (reached m, refl)
  walk_total (w ∷ ws) m =
      let (s, p) = walk_word_total m w in rw p (follow_total ws s (walk_total ws))

  finish_total :
      (c : ℕ) (s : Text) (r : Walked)
      → IsAscii (c ∷ s)
      → (o : Outcome) × (finish (c ∷ s) r ≡ some o)
  finish_total c s (reached m) a = enter_on_total m c s a
  finish_total c s (stopped o) a = (o, refl)

  -- An ASCII line is parsed without a panic.
  parse_line_total : (l : Text) → IsAscii l → (o : Outcome) × (parse_line h l ≡ some o)
  unfolding parse_line enter_on
  parse_line_total [] a = (run run_nothing, refl)
  parse_line_total (c ∷ s) a =
      let (r, p) = walk_total (split_ascii_whitespace (c ∷ s)) root in
      rw (p, parse_line) (finish_total c s r a)

  pub parse_cmd_total :
      (raw : Text)
      → IsAscii (h.to_lowercase (trim raw))
      → (o : Outcome) × (parse_cmd h raw ≡ some o)
  unfolding parse_cmd
  parse_cmd_total raw a = parse_line_total (h.to_lowercase (trim raw)) a
