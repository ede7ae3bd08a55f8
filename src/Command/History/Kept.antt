-- ===== src/Command/History/Kept.antt =====
-- What `main_loop` of ospfd/command.rs keeps of the lines.
use rust_ospfd.Prelude.{
  ℕ, Bool, zero, suc, ◌+◌, ◌-◌, ◌≤◌, ◌≡◌, refl, ◌∙◌, sym, ap, false, List, [], ◌∷◌, ◌++◌, ltb,
  length, length-append, length-drop, drop, All, arith, Bool-cases, Option-cases, inl, inr,
}
use mathlib.Core.List.{append_assoc, append-nil}
use rust_ospfd.Command.Text.{Text}
use rust_ospfd.Command.Editor.{LineEditor, Key, line, exit, wait, read_line}
use rust_ospfd.Command.Parse.{Host, Outcome, parse_cmd}
use rust_ospfd.Command.History.{
  max_history, remember, is_blank, Shell, Loop, waiting, quit, stopped, panicked, out_of_fuel,
  exits, act, kept, main_loop,
}

-- The last items of a list, at most so many.
abbrev pub latest : ℕ → List Text → List Text
latest n xs = drop (length xs - n) xs

drop_nil : (n : ℕ) → drop {A = Text} n [] ≡ []
drop_nil zero = refl
drop_nil (suc n) = refl

drop-drop : (k j : ℕ) (xs : List Text) → drop j (drop k xs) ≡ drop (k + j) xs
drop-drop zero j xs = let e : j ≡ 0 + j = omega arith in ap (λ n. drop n xs) e
drop-drop (suc k) j [] = drop_nil j ∙ sym (drop_nil (suc k + j))
drop-drop (suc k) j (x ∷ xs) =
    let e : suc (k + j) ≡ suc k + j = omega arith in drop-drop k j xs ∙ ap (λ n. drop n (x ∷ xs)) e

drop-append_le : (k : ℕ) (xs ys : List Text) → k ≤ length xs → drop k xs ++ ys ≡ drop k (xs ++ ys)
drop-append_le zero xs ys h = refl
drop-append_le (suc k) [] ys h = absurd (omega arith)
drop-append_le (suc k) (x ∷ xs) ys h = drop-append_le k xs ys (omega arith)

latest-latest_append :
    (n : ℕ) (xs ys : List Text) → latest n (latest n xs ++ ys) ≡ latest n (xs ++ ys)
latest-latest_append n xs ys =
    let k = length xs - n in
    let a : drop k xs ++ ys ≡ drop k (xs ++ ys) = drop-append_le k xs ys (omega arith) in
    rw (a, drop-drop k (length (drop k (xs ++ ys)) - n) (xs ++ ys))
      (ap (λ m. drop m (xs ++ ys)) (omega (arith, length-drop k (xs ++ ys), length-append xs ys)))

length-latest : (n : ℕ) (xs : List Text) → length (latest n xs) ≤ n
length-latest n xs = omega (arith, length-drop (length xs - n) xs)

latest_short : (n : ℕ) (xs : List Text) → length xs ≤ n → latest n xs ≡ xs
latest_short n xs h = let e : length xs - n ≡ 0 = omega arith in rw e refl

remember-latest :
    (l : Text) (h : List Text) → length h ≤ 50 → remember l h ≡ latest 50 (h ++ l ∷ [])
unfolding remember
remember-latest l h b = elim (Bool-cases (ltb max_history (length (h ++ l ∷ [])))) [
  | inl q ↦
      let e : length (h ++ l ∷ []) - 50 ≡ 1 = ground (arith, length-append h (l ∷ [])) in
      rw (q, e) refl
  | inr q ↦
      let e : length (h ++ l ∷ []) - 50 ≡ 0 = ground (arith, length-append h (l ∷ [])) in
      rw (q, e) refl
]

All-append : (P : Text → Type 0) (xs ys : List Text) → All P xs → All P ys → All P (xs ++ ys)
All-append P [] ys h g = g
All-append P (x ∷ xs) ys h g = (h.0, All-append P xs ys h.1 g)

-- The lines that were run between two states of the shell, and what the history has of them.
abbrev pub Kept : Shell → Shell → Type 0
Kept s t =
    (ls : List Text) × All (λ l. is_blank l ≡ false) ls
    × (length t.outcomes ≡ length s.outcomes + length ls)
    × (t.history ≡ latest 50 (s.history ++ ls))

abbrev pub KeptIn : Shell → Loop → Type 0
KeptIn s (waiting t) = Kept s t
KeptIn s (quit t) = Kept s t
KeptIn s (stopped t o) = Kept s t
KeptIn s panicked = Unit
KeptIn s out_of_fuel = Unit

wait-Kept : (s : Shell) (e : LineEditor) → length s.history ≤ 50 → Kept s (record s { editor = e })
wait-Kept s e b = ([], tt, omega arith, sym (rw append-nil (latest_short 50 s.history b)))

Kept-refl : (s : Shell) → length s.history ≤ 50 → Kept s s
Kept-refl s b = ([], tt, omega arith, sym (rw append-nil (latest_short 50 s.history b)))

kept-Kept :
    (s : Shell) (e : LineEditor) (o : Outcome)
    → length s.history ≤ 50
    → is_blank e.buffer ≡ false
    → Kept s (kept e s o)
kept-Kept s e o b q = (
  e.buffer ∷ [],
  (q, tt),
  length-append s.outcomes (o ∷ []),
  remember-latest e.buffer s.history b,
)

Kept-trans : (s t u : Shell) → Kept s t → Kept t u → Kept s u
Kept-trans s t u (ls, hl, nl, el) (ms, hm, nm, em) = (
  ls ++ ms,
  All-append _ ls ms hl hm,
  omega (arith, length-append ls ms),
  em
      ∙ rw el (latest-latest_append 50 (s.history ++ ls) ms)
      ∙ ap (latest 50) (append_assoc s.history ls ms),
)

length-Kept : (s t : Shell) → Kept s t → length t.history ≤ 50
length-Kept s t (ls, hl, nl, el) = rw el (length-latest 50 (s.history ++ ls))

KeptIn-trans : (s t : Shell) (r : Loop) → Kept s t → KeptIn t r → KeptIn s r
KeptIn-trans s t (waiting u) h g = Kept-trans s t u h g
KeptIn-trans s t (quit u) h g = Kept-trans s t u h g
KeptIn-trans s t (stopped u o) h g = Kept-trans s t u h g
KeptIn-trans s t panicked h g = tt
KeptIn-trans s t out_of_fuel h g = tt

-- From a history of at most 50 lines, wherever `main_loop` does not run out of fuel or panic,
-- unless in the action of a command, there is a list of lines that are not blank, one for each
-- command that was run, such that the history is what was there before and these lines, cut to the
-- latest 50.
pub main_loop-KeptIn :
    (asynchronous : Bool) (h : Host) (fuel : ℕ) (ks : List Key) (s : Shell)
    → length s.history ≤ 50
    → KeptIn s (main_loop asynchronous h fuel ks s)
unfolding main_loop
main_loop-KeptIn asynchronous h zero ks s b = tt
main_loop-KeptIn asynchronous h (suc fuel) ks s b = elim (Option-cases (read_line ks s.editor)) [
  | inl n ↦ rw (n, main_loop) tt
  | inr (exit, n) ↦ rw (n, main_loop) (Kept-refl s b)
  | inr (wait e, n) ↦ rw (n, main_loop) (wait-Kept s e b)
  | inr (line e rest, n) ↦ elim (Bool-cases (is_blank e.buffer)) [
    | inl q ↦
        rw (n, q, main_loop)
          (KeptIn-trans s (record s { editor = e }) _ (wait-Kept s e b)
            (main_loop-KeptIn asynchronous h fuel rest (record s { editor = e }) b))
    | inr q ↦ elim (Option-cases (parse_cmd h e.buffer)) [
      | inl p ↦ rw (n, q, p, main_loop) tt
      | inr (o, p) ↦
          let one = kept-Kept s e o b q in
          elim (Bool-cases (exits o)) [
            | inl x ↦ rw (n, q, p, x, main_loop) one
            | inr x ↦ elim (Option-cases (act asynchronous o s.router)) [
              | inl y ↦ rw (n, q, p, x, y, main_loop) one
              | inr (r, y) ↦
                  let t : Shell = record (kept e s o) { router = r } in
                  rw (n, q, p, x, y, main_loop)
                    (KeptIn-trans s t _ one
                      (main_loop-KeptIn asynchronous h fuel rest t (length-Kept s t one)))
            ]
          ]
    ]
  ]
]
