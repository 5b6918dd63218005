-- ===== src/Prelude/Texts.antt =====
-- Python's `split` on texts.
pub mod Parts
pub mod Cuts
use Prim.Native.Char.{Char, code}
use Prim.Native.String.append
use Prim.Native.String.{String, [] as empty, ◌∷◌ as char_cons, ◌++◌ as str_append}
use mathlib.Core.Path.{◌≡◌, refl, ap, ◌∙◌, sym}
use mathlib.Core.Bool.{Bool, true, false, ◌||◌}
use mathlib.Core.Option.{Option, none, some}
use mathlib.Core.List.{List, [], ◌∷◌}
use native.Mathlib.Omega.{arith}
use text.Mathlib.TextEquality.{Char-path}
use text.Mathlib.TextLemmas.{append_assoc}
use sts_agent.Prelude.Tests.{◌==◌, ==_iff, if◌then◌else◌}

-- A list that is not empty: the first element, and the others.
abbrev pub Texts : Type 0
Texts = String × List String

-- `c in s`
unfoldable pub has_char : Char → String → Bool
has_char c empty = false
has_char c (char_cons d s) = code d == code c || has_char c s

abbrev split_step : Bool → Char → Texts → Texts
split_step true d (first, rest) = (empty, first ∷ rest)
split_step false d (first, rest) = (char_cons d first, rest)

-- `s.split(c)`
unfoldable pub split : Char → String → Texts
split c empty = (empty, [])
split c (char_cons d s) = split_step (code d == code c) d (split c s)

abbrev before : Char → Option (String × String) → Option (String × String)
before d none = none
before d (some (first, rest)) = some (char_cons d first, rest)

-- `s.split(c, 1)`, `none` where it has one element.
unfoldable pub split_once : Char → String → Option (String × String)
split_once c empty = none
split_once c (char_cons d s) =
    let later = split_once c s in if code d == code c then some (empty, s) else before d later

-- `c.join(texts)`
abbrev pub join : Char → Texts → String
join c (first, []) = first
join c (first, t ∷ ts) = str_append first (char_cons c (join c (t, ts)))

join-cons :
    (c d : Char) (first : String) (rest : List String)
    → join c (char_cons d first, rest) ≡ char_cons d (join c (first, rest))
join-cons c d first [] = refl
join-cons c d first (t ∷ ts) = append.cons d first (char_cons c (join c (t, ts)))

join-split_step :
    (c d : Char) (texts : Texts) (b : Bool)
    → (code d == code c) ≡ b
    → join c (split_step b d texts) ≡ char_cons d (join c texts)
join-split_step c d (first, rest) true h =
    append.nil (char_cons c (join c (first, rest)))
    ∙ ap (λ x. char_cons x (join c (first, rest)))
        (sym (Char-path d c ((==_iff (code d) (code c)).0 h)))
join-split_step c d (first, rest) false h = join-cons c d first rest

pub join-split : (c : Char) (s : String) → join c (split c s) ≡ s
unfolding split
join-split c empty = refl
join-split c (char_cons d s) =
    join-split_step c d (split c s) (code d == code c) refl ∙ ap (char_cons d) (join-split c s)

-- A text in front of the first one.
pub join-append :
    (c : Char) (s first : String) (rest : List String)
    → join c (str_append s (char_cons c first), rest)
      ≡ str_append s (char_cons c (join c (first, rest)))
join-append c s first [] = refl
join-append c s first (t ∷ ts) =
    append_assoc s (char_cons c first) (char_cons c (join c (t, ts)))
    ∙ ap (str_append s) (append.cons c first (char_cons c (join c (t, ts))))

pub has_char-append :
    (c : Char) (s t : String) → has_char c s ≡ true → has_char c (str_append s t) ≡ true
unfolding has_char
has_char-append c empty t h = absurd (ground arith)
has_char-append c (char_cons d s) t h =
    rw (append.cons d s t) (ground (arith, has_char-append c s t))
