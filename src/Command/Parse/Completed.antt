-- ===== src/Command/Parse/Completed.antt =====
-- Abbreviated words of a command line of ospfd/command.rs, and the keys that they stand for.
use rust_ospfd.Prelude.{
  ◌≡◌, refl, ap, ◌∙◌, Bool, true, false, List, [], ◌∷◌, some, none, ltb, length, filter, In,
  In-filter, All, arith, Bool-cases, Option-cases, inl, inr, ◌⊎◌,
}
use rust_ospfd.Command.Text.{Text, text_beq, codes, starts_with, split_last}
use rust_ospfd.Command.Menu.{Menu, command, trie_keys}
use rust_ospfd.Command.Parse.{
  Host, IsLawful, goto, done, choose, advance, unquestioned, walk_word, walk,
}

-- The key that a word stands for; a word that is the beginning of no key stands for itself.
unfoldable pub spell_word : Host → Menu → Text → Text
unfolding unquestioned trie_keys
spell_word h m w = elim (h.predictive_search (trie_keys (command m)) (unquestioned w).0) [
  | [] ↦ w
  | k ∷ ks ↦ k
]

-- The words with their keys in their places, up to the word at which the walk ends.
unfoldable pub spell : Host → Menu → List Text → List Text
unfolding spell_word walk_word
spell h m [] = []
spell h m (w ∷ ws) = elim (walk_word h m w) [
  | none ↦ w ∷ ws
  | some s ↦ elim s [ goto m' ↦ spell_word h m w ∷ spell h m' ws | done o ↦ w ∷ ws ]
]

-- No key is the beginning of another one of its set, or ends with a question mark.
abbrev IsKey : Menu → Text → Type 0
IsKey m k =
    (filter (λ s. starts_with s k) (trie_keys (command m)) ≡ k ∷ [])
    × ((unquestioned k ≡ (k, false)) × (text_beq k (codes "?") ≡ false))

abbrev AreKeys : Menu → Type 0
AreKeys m = All (IsKey m) (trie_keys (command m))

keys-IsKey : (m : Menu) → AreKeys m
unfolding trie_keys command starts_with unquestioned split_last
keys-IsKey Menu.root = ((refl, (refl, refl)), ((refl, (refl, refl)), ((refl, (refl, refl)), tt)))
keys-IsKey Menu.display = ((refl, (refl, refl)), ((refl, (refl, refl)), ((refl, (refl, refl)), tt)))
keys-IsKey Menu.display_routing = ((refl, (refl, refl)), tt)
keys-IsKey Menu.display_routing_system = tt
keys-IsKey Menu.display_peer = tt
keys-IsKey Menu.display_lsdb = tt
keys-IsKey Menu.interface = tt
keys-IsKey (Menu.interface_name n) = ((refl, (refl, refl)), ((refl, (refl, refl)), tt))
keys-IsKey (Menu.interface_area n) = tt
keys-IsKey (Menu.interface_cost n) = tt
keys-IsKey (Menu.interface_area_id n a) = tt
keys-IsKey (Menu.interface_cost_set n c) = tt
keys-IsKey Menu.exit = tt

All-In : (P : Text → Type 0) (xs : List Text) (k : Text) → All P xs → In k xs → P k
All-In P [] k h i = elim i [ ]
All-In P (x ∷ xs) k h (inl e) = rw e h.0
All-In P (x ∷ xs) k h (inr i) = All-In P xs k h.1 i

List-cases : (xs : List Text) → (xs ≡ []) ⊎ ((x : Text) × (ys : List Text) × (xs ≡ x ∷ ys))
List-cases [] = inl refl
List-cases (x ∷ xs) = inr (x, xs, refl)

single : (xs : List Text) → length xs ≡ 1 → (x : Text) × (xs ≡ x ∷ [])
single [] e = absurd (omega arith)
single (x ∷ []) e = (x, refl)
single (x ∷ y ∷ xs) e = absurd (omega arith)

-- Where a word that finds a key leads.
choose-goto :
    (m : Menu) (cmd : Text) (q : Bool) (k : Text) (ks : List Text) (m' : Menu)
    → choose m cmd q (k ∷ ks) ≡ some (goto m')
    → choose m k false (k ∷ []) ≡ some (goto m')
unfolding choose
choose-goto m cmd true k ks m' p = absurd (cc p)
choose-goto m cmd false k ks m' p = elim (Bool-cases (ltb 1 (length (k ∷ ks)))) [
  | inl t ↦ absurd (cc (rw t at p))
  | inr t ↦ rw t at p
]

module _ (h : Host) (lawful : IsLawful h) where
  -- The search for a whole key finds that key alone.
  search_key :
      (m : Menu) (k : Text) → IsKey m k → h.predictive_search (trie_keys (command m)) k ≡ k ∷ []
  search_key m k (f, _) = only (single _ n)
    where
      n : length (h.predictive_search (trie_keys (command m)) k) ≡ 1
      n = lawful.length-predictive_search (trie_keys (command m)) k ∙ ap length f

      only :
          (x : Text) × (h.predictive_search (trie_keys (command m)) k ≡ x ∷ [])
          → h.predictive_search (trie_keys (command m)) k ≡ k ∷ []
      only (x, e) =
          let i : In x (h.predictive_search (trie_keys (command m)) k) = rw e (inl refl) in
          let j : In x (k ∷ []) = rw f at (lawful.In-predictive_search _ k x i) in
          elim j [ inl p ↦ rw e (rw p refl) | inr p ↦ elim p [ ] ]

  -- A key that a word finds leads where the word led.
  goto_key :
      (m : Menu) (w k : Text) (ks : List Text) (m' : Menu)
      → h.predictive_search (trie_keys (command m)) (unquestioned w).0 ≡ k ∷ ks
      → walk_word h m w ≡ some (goto m')
      → walk_word h m k ≡ some (goto m')
  unfolding walk_word
  goto_key m w k ks m' e p =
      let i : In k (h.predictive_search (trie_keys (command m)) (unquestioned w).0) =
        rw e (inl refl) in
      let g = In-filter _ (trie_keys (command m)) (lawful.In-predictive_search _ _ k i) in
      let (f, (u, t)) = All-In (IsKey m) (trie_keys (command m)) k (keys-IsKey m) g.0 in
      elim (Bool-cases (text_beq w (codes "?"))) [
        | inl q ↦ absurd (cc (rw q at p))
        | inr q ↦
            let c = choose-goto m _ (unquestioned w).1 k ks m' (rw (q, advance, e) at p) in
            rw (t, u, advance, search_key m k (f, (u, t))) c
      ]

  spell_word-walk_word :
      (m : Menu) (w : Text) (m' : Menu)
      → walk_word h m w ≡ some (goto m')
      → walk_word h m (spell_word h m w) ≡ some (goto m')
  unfolding spell_word
  spell_word-walk_word m w m' p =
      elim (List-cases (h.predictive_search (trie_keys (command m)) (unquestioned w).0)) [
        | inl e ↦ rw (spell_word, e) p
        | inr (k, ks, e) ↦ rw (spell_word, e) (goto_key m w k ks m' e p)
      ]

  -- With a search that behaves as documented, a command line and the one in which every word that
  -- is the beginning of a key is replaced by the key lead from any set of commands to the same set
  -- or the same end.
  pub walk-spell : (ws : List Text) (m : Menu) → walk h m (spell h m ws) ≡ walk h m ws
  unfolding walk spell
  walk-spell [] m = refl
  walk-spell (w ∷ ws) m = elim (Option-cases (walk_word h m w)) [
    | inl e ↦ rw (e, spell, e) refl
    | inr (goto m', e) ↦ rw (e, spell, spell_word-walk_word m w m' e, walk) (walk-spell ws m')
    | inr (done o, e) ↦ rw (e, spell, e) refl
  ]
