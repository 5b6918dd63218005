-- ===== src/Checks/Names.antt =====
-- checks/__init__.py, normalize of class Check and of class AgentCheck: well-formed metric names.
pub mod Normal
pub mod Tests
pub mod Twice
use Prim.Native.Char.{Char, code}
use Prim.Native.String.{[] as empty, ◌∷◌ as char_cons, ◌++◌ as str_append}
use sts_agent.Prelude.{
  Bool, true, false, ◌&&◌, ◌||◌, Option, none, some, String, leb, ◌==◌, if◌then◌else◌,
}
use sts_agent.Prelude.Texts.Parts.{is_space}

abbrev pub is_underscore : Char → Bool
is_underscore c = code c == 95

abbrev pub is_dot : Char → Bool
is_dot c = code c == 46

-- `[,\+\*\-/()\[\]{}\s]`
abbrev pub is_replaced : Char → Bool
is_replaced c =
    (leb 40 (code c) && leb (code c) 45)
    || code c == 47
    || code c == 91
    || code c == 93
    || code c == 123
    || code c == 125
    || is_space false c

abbrev pub starts : (Char → Bool) → String → Bool
starts p empty = false
starts p (char_cons c s) = p c

abbrev pub replace_char : Char → Char
replace_char c = if is_replaced c then "_" else c

unfoldable pub replace_chars : String → String
replace_chars empty = empty
replace_chars (char_cons c s) = char_cons (replace_char c) (replace_chars s)

-- One `_` for each run of them.
unfoldable pub squeeze : String → String
squeeze empty = empty
squeeze (char_cons c s) =
    let rest = squeeze s in
    if is_underscore c && starts is_underscore s then rest else char_cons c rest

-- `^_` and `_$`
abbrev pub drop_first : String → String
drop_first empty = empty
drop_first (char_cons c s) = if is_underscore c then s else char_cons c s

abbrev unless_underscore : Char → String
unless_underscore c = if is_underscore c then empty else char_cons c empty

abbrev before_rest : Char → String → String → String
before_rest c empty rest = unless_underscore c
before_rest c (char_cons d s) rest = char_cons c rest

unfoldable pub drop_last : String → String
drop_last empty = empty
drop_last (char_cons c s) = before_rest c s (drop_last s)

-- `\._` from the left, where a dot may be just before the text.
unfoldable pub drop_after_dot : Bool → String → String
drop_after_dot dotted empty = empty
drop_after_dot dotted (char_cons c s) =
    let rest = drop_after_dot (is_dot c) s in
    if dotted && is_underscore c then drop_after_dot false s else char_cons c rest

-- `_\.`
unfoldable pub drop_before_dot : String → String
drop_before_dot empty = empty
drop_before_dot (char_cons c s) =
    let rest = drop_before_dot s in
    if is_underscore c && starts is_dot s then rest else char_cons c rest

unfoldable pub well_formed : String → String
well_formed metric =
    drop_before_dot (drop_after_dot false (drop_last (drop_first (squeeze (replace_chars metric)))))

-- `normalize`
unfoldable pub normalize : String → Option String → String
normalize metric none = well_formed metric
normalize metric (some prefix) = str_append prefix (str_append "." (well_formed metric))
