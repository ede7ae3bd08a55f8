-- ===== src/Command/Text.antt =====
-- What ospfd/command.rs uses of `String`: a text is the list of its code points, an index counts
-- the bytes of its UTF-8 form. `none` is the panic at an index that is no boundary of a character.
use Prim.Native.Char.{code}
use Prim.Native.String.{String}
use rust_ospfd.Prelude.{
  All, ◌<◌, ℕ, ◌+◌, ◌-◌, Bool, true, false, ◌&&◌, ◌||◌, List, [], ◌∷◌, Option, some, none, ◌==◌,
  ltb, leb, if◌then◌else◌, ◌>>=◌,
}

abbrev pub Text : Type 0
Text = List ℕ

abbrev pub IsAscii : Text → Type 0
IsAscii s = All (λ c. c < 128) s

-- The code points of a literal.
abbrev pub codes : String → Text
codes String.[] = []
codes (String.◌∷◌ c s) = code c ∷ codes s

abbrev pub utf8_len : ℕ → ℕ
utf8_len c = if ltb c 128 then 1 else if ltb c 2048 then 2 else if ltb c 65536 then 3 else 4

-- `String::len`
unfoldable pub byte_len : Text → ℕ
byte_len [] = 0
byte_len (c ∷ s) = utf8_len c + byte_len s

-- `String::insert`
unfoldable pub insert_at : ℕ → ℕ → Text → Option Text
insert_at idx c [] = if idx == 0 then some (c ∷ []) else none
insert_at idx c (d ∷ s) =
    let rest : Option Text = (insert_at (idx - utf8_len d) c s >>= λ s'. some (d ∷ s')) in
    if idx == 0 then some (c ∷ d ∷ s) else if leb (utf8_len d) idx then rest else none

-- `String::remove`, without the character that it gives back.
unfoldable pub remove_at : ℕ → Text → Option Text
remove_at idx [] = none
remove_at idx (d ∷ s) =
    let rest : Option Text = (remove_at (idx - utf8_len d) s >>= λ s'. some (d ∷ s')) in
    if idx == 0 then some s else if leb (utf8_len d) idx then rest else none

-- `char::is_ascii_whitespace`
abbrev pub is_ascii_whitespace : ℕ → Bool
is_ascii_whitespace c = c == 32 || (c == 9 || (c == 10 || (c == 12 || c == 13)))

-- `char::is_whitespace`, the `White_Space` of Unicode.
unfoldable pub is_whitespace : ℕ → Bool
is_whitespace c =
    (leb 9 c && leb c 13)
    || (c == 32
        || (c == 133
            || (c == 160
                || (c == 5760
                    || ((leb 8192 c && leb c 8202)
                        || (c == 8232
                            || (c == 8233 || (c == 8239 || (c == 8287 || c == 12288)))))))))

-- `str::trim`, by its two halves.
unfoldable pub trim_start : Text → Text
trim_start [] = []
trim_start (c ∷ s) = let rest = trim_start s in if is_whitespace c then rest else c ∷ s

unfoldable pub trim_end : Text → Text
trim_end [] = []
trim_end (c ∷ s) = elim (trim_end s) [
  | [] ↦ if is_whitespace c then [] else c ∷ []
  | d ∷ t ↦ c ∷ d ∷ t
]

unfoldable pub trim : Text → Text
unfolding trim_start trim_end is_whitespace
trim s = trim_end (trim_start s)

-- A character in front of the first word of the rest.
abbrev pub begin_word : ℕ → List Text → List Text
begin_word c [] = (c ∷ []) ∷ []
begin_word c (w ∷ ws) = (c ∷ w) ∷ ws

abbrev pub begins_inside : Text → Bool
begins_inside [] = false
begins_inside (c ∷ s) = if is_ascii_whitespace c then false else true

-- `str::split_ascii_whitespace`
unfoldable pub split_ascii_whitespace : Text → List Text
split_ascii_whitespace [] = []
split_ascii_whitespace (c ∷ s) =
    let rest = split_ascii_whitespace s in
    if is_ascii_whitespace c
    then rest
    else if begins_inside s
    then begin_word c rest
    else (c ∷ []) ∷ rest

-- `str::starts_with`: the first text begins with the second.
unfoldable pub starts_with : Text → Text → Bool
starts_with s [] = true
starts_with [] (d ∷ q) = false
starts_with (c ∷ s) (d ∷ q) = c == d && starts_with s q

abbrev pub text_beq : Text → Text → Bool
text_beq [] [] = true
text_beq [] (d ∷ t) = false
text_beq (c ∷ s) [] = false
text_beq (c ∷ s) (d ∷ t) = c == d && text_beq s t

-- The last character and the text before it.
unfoldable pub split_last : ℕ → Text → Text × ℕ
split_last c [] = ([], c)
split_last c (d ∷ s) = let (front, last) = split_last d s in (c ∷ front, last)
