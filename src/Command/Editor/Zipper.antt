-- ===== src/Command/Editor/Zipper.antt =====
-- `read_line` of ospfd/command.rs against a text with a place in it: what stands left of the
-- cursor, from the cursor on, and what stands right of it.
use rust_ospfd.Prelude.{
  ℕ, suc, ◌+◌, ◌-◌, ◌<◌, ◌≤◌, ◌≡◌, refl, Bool, true, false, ◌&&◌, List, [], ◌∷◌, ◌++◌, length, All,
  some, none, ◌==◌, ltb, leb, arith, if◌then◌else◌, Bool-cases, inl, inr,
}
use rust_ospfd.Command.Text.{Text, IsAscii, utf8_len, byte_len, insert_at, remove_at}
use rust_ospfd.Command.Editor.{
  Key, char, backspace, left, right, up, down, enter, ignored, LineEditor, type_char, erase_char,
  move_left, move_right, press, Read, line, exit, wait, read_loop, read_line,
}

abbrev pub IsAsciiKey : Key → Type 0
IsAsciiKey (char c control) = c < 128
IsAsciiKey _ = Unit

pub record Zipper : Type 0 where
  pub passed : Text
  pub ahead : Text

-- The text in front of the rest, read from its end.
abbrev pub rev_onto : Text → Text → Text
rev_onto [] s = s
rev_onto (c ∷ p) s = rev_onto p (c ∷ s)

-- The editor that shows a text with a place in it.
abbrev pub view : Zipper → LineEditor
view z = record {
  buffer = rev_onto z.passed z.ahead;
  history_index = none;
  cursor_position = length z.passed;
}

abbrev back : Zipper → Zipper
back z = elim z.passed [ [] ↦ z | c ∷ p ↦ record { passed = p; ahead = z.ahead } ]

abbrev left_of : Zipper → Zipper
left_of z = elim z.passed [ [] ↦ z | c ∷ p ↦ record { passed = p; ahead = c ∷ z.ahead } ]

abbrev right_of : Zipper → Zipper
right_of z = elim z.ahead [ [] ↦ z | c ∷ s ↦ record { passed = c ∷ z.passed; ahead = s } ]

-- The line that the keys type, with nothing that can fail.
unfoldable pub typed : List Key → Zipper → Read
typed [] z = wait (view z)
typed (char c control ∷ ks) z =
    let more = typed ks (record { passed = c ∷ z.passed; ahead = z.ahead }) in
    if c == 99 && control then exit else more
typed (backspace ∷ ks) z = typed ks (back z)
typed (left ∷ ks) z = typed ks (left_of z)
typed (right ∷ ks) z = typed ks (right_of z)
typed (up ∷ ks) z = typed ks z
typed (down ∷ ks) z = typed ks z
typed (enter ∷ ks) z = line (view z) ks
typed (ignored ∷ ks) z = typed ks z

rev_onto-append : (p s t : Text) → rev_onto p (s ++ t) ≡ rev_onto p s ++ t
rev_onto-append [] s t = refl
rev_onto-append (c ∷ p) s t = rev_onto-append p (c ∷ s) t

length-rev_onto : (p s : Text) → length (rev_onto p s) ≡ length p + length s
length-rev_onto [] s = omega arith
length-rev_onto (c ∷ p) s = omega (arith, length-rev_onto p (c ∷ s))

pub rev_onto-IsAscii : (p s : Text) → IsAscii p → IsAscii s → IsAscii (rev_onto p s)
rev_onto-IsAscii [] s hp hs = hs
rev_onto-IsAscii (c ∷ p) s hp hs = rev_onto-IsAscii p (c ∷ s) hp.1 (hp.0, hs)

utf8_len_ascii : (c : ℕ) → c < 128 → utf8_len c ≡ 1
utf8_len_ascii c h = ground arith

byte_len_ascii : (s : Text) → IsAscii s → byte_len s ≡ length s
unfolding byte_len
byte_len_ascii [] h = omega arith
byte_len_ascii (c ∷ s) h = rw (utf8_len_ascii c h.0, byte_len_ascii s h.1) (omega arith)

-- An index behind one character more.
suc_index : (n : ℕ) → ((suc n == 0) ≡ false) × (leb 1 (suc n) ≡ true) × (suc n - 1 ≡ n)
suc_index n = ground arith

insert_at-append :
    (a b : Text) (c : ℕ) → IsAscii a → insert_at (length a) c (a ++ b) ≡ some (a ++ c ∷ b)
unfolding insert_at
insert_at-append [] [] c h = refl
insert_at-append [] (d ∷ b) c h = refl
insert_at-append (d ∷ a) b c h =
    let (e, l, m) = suc_index (length a) in
    rw (e, utf8_len_ascii d h.0, l, m, insert_at-append a b c h.1) refl

remove_at-append :
    (a b : Text) (c : ℕ) → IsAscii a → remove_at (length a) (a ++ c ∷ b) ≡ some (a ++ b)
unfolding remove_at
remove_at-append [] b c h = refl
remove_at-append (d ∷ a) b c h =
    let (e, l, m) = suc_index (length a) in
    rw (e, utf8_len_ascii d h.0, l, m, remove_at-append a b c h.1) refl

-- The index of the cursor and the text around it.
module _ (p s : Text) (hp : IsAscii p) where
  insert_at-rev : (c : ℕ) → insert_at (length p) c (rev_onto p s) ≡ some (rev_onto (c ∷ p) s)
  insert_at-rev c =
      let e : length p ≡ length (rev_onto p []) = omega (arith, length-rev_onto p []) in
      rw (e, rev_onto-append p [] s, rev_onto-append p [] (c ∷ s))
        (insert_at-append (rev_onto p []) s c (rev_onto-IsAscii p [] hp tt))

  remove_at-rev : (c : ℕ) → remove_at (length p) (rev_onto p (c ∷ s)) ≡ some (rev_onto p s)
  remove_at-rev c =
      let e : length p ≡ length (rev_onto p []) = omega (arith, length-rev_onto p []) in
      rw (e, rev_onto-append p [] s, rev_onto-append p [] (c ∷ s))
        (remove_at-append (rev_onto p []) s c (rev_onto-IsAscii p [] hp tt))

abbrev at : Text → Text → Zipper
at p s = record { passed = p; ahead = s }

type_char-view :
    (c : ℕ) (p s : Text) → IsAscii p → type_char c (view (at p s)) ≡ some (view (at (c ∷ p) s))
unfolding type_char
type_char-view c p s h =
    let n : length p + 1 ≡ suc (length p) = omega arith in rw (insert_at-rev p s h c, n) refl

erase_char-view :
    (p s : Text) → IsAscii p → erase_char (view (at p s)) ≡ some (view (back (at p s)))
unfolding erase_char
erase_char-view [] s h = refl
erase_char-view (c ∷ p) s h =
    let (_, l, m) = suc_index (length p) in
    let t : ltb 0 (suc (length p)) ≡ true = ground arith in rw (t, m, remove_at-rev p s h.1 c) refl

move_left-view : (p s : Text) → move_left (view (at p s)) ≡ view (left_of (at p s))
unfolding move_left
move_left-view [] s = refl
move_left-view (c ∷ p) s =
    let (_, l, m) = suc_index (length p) in
    let t : ltb 0 (suc (length p)) ≡ true = ground arith in rw (t, m) refl

move_right-view :
    (p s : Text) → IsAscii p → IsAscii s → move_right (view (at p s)) ≡ view (right_of (at p s))
unfolding move_right
move_right-view p [] hp hs =
    let e = byte_len_ascii (rev_onto p []) (rev_onto-IsAscii p [] hp tt) in
    let t : ltb (length p) (byte_len (rev_onto p [])) ≡ false =
      rw e (ground (arith, length-rev_onto p [])) in
    rw t refl
move_right-view p (c ∷ s) hp hs =
    let e = byte_len_ascii (rev_onto p (c ∷ s)) (rev_onto-IsAscii p (c ∷ s) hp hs) in
    let t : ltb (length p) (byte_len (rev_onto p (c ∷ s))) ≡ true =
      rw e (ground (arith, length-rev_onto p (c ∷ s))) in
    let n : length p + 1 ≡ suc (length p) = omega arith in rw (t, n) refl

-- The loop, with a place in an ASCII text.
read_loop-typed :
    (ks : List Key) (p s : Text)
    → All IsAsciiKey ks
    → IsAscii p
    → IsAscii s
    → read_loop ks (view (at p s)) ≡ some (typed ks (at p s))
unfolding read_loop typed
read_loop-typed [] p s hk hp hs = refl
read_loop-typed (char c control ∷ ks) p s hk hp hs = elim (Bool-cases (c == 99 && control)) [
  | inl q ↦ rw q refl
  | inr q ↦ rw (q, type_char-view c p s hp) (read_loop-typed ks (c ∷ p) s hk.1 (hk.0, hp) hs)
]
read_loop-typed (backspace ∷ ks) [] s hk hp hs = read_loop-typed ks [] s hk.1 hp hs
read_loop-typed (backspace ∷ ks) (c ∷ p) s hk hp hs =
    rw (erase_char-view (c ∷ p) s hp) (read_loop-typed ks p s hk.1 hp.1 hs)
read_loop-typed (left ∷ ks) [] s hk hp hs = read_loop-typed ks [] s hk.1 hp hs
read_loop-typed (left ∷ ks) (c ∷ p) s hk hp hs =
    rw (move_left-view (c ∷ p) s) (read_loop-typed ks p (c ∷ s) hk.1 hp.1 (hp.0, hs))
read_loop-typed (right ∷ ks) p [] hk hp hs =
    rw (move_right-view p [] hp hs) (read_loop-typed ks p [] hk.1 hp hs)
read_loop-typed (right ∷ ks) p (c ∷ s) hk hp hs =
    rw (move_right-view p (c ∷ s) hp hs) (read_loop-typed ks (c ∷ p) s hk.1 (hs.0, hp) hs.1)
read_loop-typed (up ∷ ks) p s hk hp hs = read_loop-typed ks p s hk.1 hp hs
read_loop-typed (down ∷ ks) p s hk hp hs = read_loop-typed ks p s hk.1 hp hs
read_loop-typed (enter ∷ ks) p s hk hp hs = refl
read_loop-typed (ignored ∷ ks) p s hk hp hs = read_loop-typed ks p s hk.1 hp hs

-- On keys whose characters are ASCII the line editor never panics, and what it shows is a text with
-- a place in it: typing puts a character left of the place, Backspace takes the one left of it, the
-- arrows move the place by one character and stop at the ends, and Enter gives the line with the
-- keys behind it.
pub read_line-typed :
    (ks : List Key) (e : LineEditor)
    → All IsAsciiKey ks
    → read_line ks e ≡ some (typed ks (record { passed = []; ahead = [] }))
unfolding read_line
read_line-typed ks e h = read_loop-typed ks [] [] h tt tt

-- A character of two bytes or more at the start of a line, followed by a character that does not
-- exit, is a panic of the line editor.
pub read_line_wide :
    (c d : ℕ) (control : Bool) (ks : List Key) (e : LineEditor)
    → 128 ≤ c
    → (d == 99 && control) ≡ false
    → read_line (char c false ∷ char d control ∷ ks) e ≡ none
unfolding read_line type_char insert_at
read_line_wide c d control ks e h q =
    let f : (c == 99 && false) ≡ false = ground arith in
    let g : insert_at 1 d (c ∷ []) ≡ none = ground arith in rw (f, press, q, g) refl
