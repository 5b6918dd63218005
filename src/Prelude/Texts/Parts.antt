-- ===== src/Prelude/Texts/Parts.antt =====
-- Parts of texts by the number of their characters, lines, and replacement, as Python has them.
use Prim.Native.Char.{Char, code}
use Prim.Native.String.{String, [] as empty, ◌∷◌ as char_cons, ◌++◌ as str_append, count}
use text.Mathlib.Text.{starts_with}
use mathlib.Core.Bool.{Bool, true, false, ◌&&◌, ◌||◌}
use mathlib.Core.Option.{Option, none, some}
use mathlib.Core.List.{List, [], ◌∷◌}
use Prim.Native.Nat.{ℕ, zero, suc, ◌+◌, ◌-◌}
use sts_agent.Prelude.Tests.{leb, ◌==◌, if◌then◌else◌}
use sts_agent.Prelude.Ints.{ℤ, pos, negsuc}

-- `s[n:]`
unfoldable pub drop_chars : ℕ → String → String
drop_chars zero s = s
drop_chars (suc n) empty = empty
drop_chars (suc n) (char_cons c s) = drop_chars n s

-- `s[:n]`
unfoldable pub take_chars : ℕ → String → String
take_chars zero s = empty
take_chars (suc n) empty = empty
take_chars (suc n) (char_cons c s) = char_cons c (take_chars n s)

-- A position from the end is one from the beginning, and 0 if there are too few characters.
abbrev pub position : ℤ → String → ℕ
position (pos n) s = n
position (negsuc n) s = count s - (n + 1)

-- `s[a:]`
abbrev pub text_from : ℤ → String → String
text_from a s = drop_chars (position a s) s

-- `s[a:b]`
abbrev pub text_between : ℤ → ℤ → String → String
text_between a b s = take_chars (position b s - position a s) (drop_chars (position a s) s)

-- The text after the first `n` characters, with `q` for each `p` from the left.
unfoldable pub replaced : String → String → ℕ → String → String
replaced p q n empty = empty
replaced p q (suc n) (char_cons c s) = replaced p q n s
replaced p q zero (char_cons c s) = elim (starts_with (char_cons c s) p) [
  | true ↦ str_append q (replaced p q (count p - 1) s)
  | false ↦ char_cons c (replaced p q zero s)
]

-- `s.replace(p, q)`, where `p` is not empty.
abbrev pub replace : String → String → String → String
replace p q s = replaced p q 0 s

abbrev after_last : String → Char → String → Option (String × String) → Option (String × String)
after_last p c s (some (first, rest)) = some (char_cons c first, rest)
after_last p c s none =
    if starts_with (char_cons c s) p
    then some (empty, drop_chars (count p) (char_cons c s))
    else none

-- `s.rsplit(p, 1)`, `none` where it has one element; `p` is not empty.
unfoldable pub split_at_last : String → String → Option (String × String)
split_at_last p empty = none
split_at_last p (char_cons c s) = after_last p c s (split_at_last p s)

-- `s.splitlines()` and `s.strip()` of a text of bytes, or of characters.
abbrev pub is_line_end : Bool → Char → Bool
is_line_end false c = code c == 10 || code c == 13
is_line_end true c =
    (leb 10 (code c) && leb (code c) 13)
    || (leb 28 (code c) && leb (code c) 30)
    || code c == 133
    || (leb 8232 (code c) && leb (code c) 8233)

abbrev pub is_space : Bool → Char → Bool
is_space false c = (leb 9 (code c) && leb (code c) 13) || code c == 32
is_space true c =
    (leb 9 (code c) && leb (code c) 13)
    || (leb 28 (code c) && leb (code c) 32)
    || code c == 133
    || code c == 160
    || code c == 5760
    || code c == 6158
    || (leb 8192 (code c) && leb (code c) 8202)
    || (leb 8232 (code c) && leb (code c) 8233)
    || code c == 8239
    || code c == 8287
    || code c == 12288

abbrev attach_char : Char → List String → List String
attach_char c [] = char_cons c empty ∷ []
attach_char c (line ∷ lines) = char_cons c line ∷ lines

-- "\r\n" is one end.
abbrev is_half_end : Char → String → Bool
is_half_end c s = code c == 13 && starts_with s "\n"

unfoldable pub split_lines : Bool → String → List String
split_lines wide empty = []
split_lines wide (char_cons c s) =
    let rest = split_lines wide s in
    if is_half_end c s then rest else if is_line_end wide c then "" ∷ rest else attach_char c rest

-- `not s.strip()`
unfoldable pub is_blank : Bool → String → Bool
is_blank wide empty = true
is_blank wide (char_cons c s) = is_space wide c && is_blank wide s
