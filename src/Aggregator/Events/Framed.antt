-- ===== src/Aggregator/Events/Framed.antt =====
-- aggregator.py, parse_event_packet: the lengths of a packet say where its title and its text end.
use Prim.Native.String.{◌∷◌ as char_cons, ◌++◌ as str_append, count}
use Prim.Native.String.append
use text.Mathlib.Text.{◌==◌ as str_eq}
use text.Mathlib.TextLemmas.{length-append}
use sts_agent.Prelude.{
  ℕ, ◌+◌, ◌-◌, Bool, false, Option, some, [], ◌∷◌, String, ℤ, pos, negsuc, ◌||◌, ◌≡◌, ap, sym, ◌∙◌,
  arith,
}
use sts_agent.Prelude.Dicts.{insert}
use sts_agent.Prelude.Texts.{has_char, split}
use sts_agent.Prelude.Texts.Parts.{drop_chars, take_chars, text_from, text_between}
use sts_agent.Prelude.Texts.Cuts.{
  take_chars-append, drop_chars-append, drop_chars-add, has_char-append_or, split_once-append,
  split-append,
}
use sts_agent.Aggregator.Packets.{colon, pipe}
use sts_agent.Aggregator.Keywords.{Keywords, str}
use sts_agent.Aggregator.Events.{
  unescape_event_text, title_and_text, event_fields, event_sized, event_named, event_split,
  parse_event_packet,
}

-- `_e{n,m}`
abbrev pub header : String → String → String
header n m =
    char_cons "_" (char_cons "e" (char_cons "{" (str_append n (char_cons "," (str_append m "}")))))

-- The title, the text and the metadata, which is empty or begins with a pipe.
abbrev pub body : String → String → String → String
body title text meta = str_append title (char_cons pipe (str_append text meta))

abbrev pub event_packet : String → String → String → String → String → String
event_packet n m title text meta = str_append (header n m) (char_cons colon (body title text meta))

drop-title :
    (title text meta : String)
    → drop_chars (count title + 1) (body title text meta) ≡ str_append text meta
unfolding drop_chars
drop-title title text meta =
    drop_chars-add (count title) 1 (body title text meta)
    ∙ ap (drop_chars 1) (drop_chars-append title (char_cons pipe (str_append text meta)))

cancel : (n : ℕ) → n + 1 - 1 - 0 ≡ n
cancel n = omega arith

take-inner : (m : String) → text_between (pos 0) (negsuc 0) (str_append m "}") ≡ m
unfolding drop_chars
take-inner m =
    ap (λ n. take_chars (n - (0 + 1) - 0) (str_append m "}")) (length-append m "}")
    ∙ ap (λ n. take_chars n (str_append m "}")) (cancel (count m))
    ∙ take_chars-append m "}"

between : (t x : ℕ) → t + x + 1 - (t + 1) ≡ x
between t x = omega arith

text_of-body :
    (title text meta : String)
    → text_between
        (pos (count title + 1))
        (pos (count title + count text + 1))
        (body title text meta)
      ≡ text
text_of-body title text meta =
    ap (λ n. take_chars n (drop_chars (count title + 1) (body title text meta)))
      (between (count title) (count text))
    ∙ ap (take_chars (count text)) (drop-title title text meta)
    ∙ take_chars-append text meta

regroup : (t x : ℕ) → t + x + 1 ≡ (t + 1) + x
regroup t x = omega arith

meta_of-body :
    (title text meta : String)
    → text_from (pos (count title + count text + 1)) (body title text meta) ≡ meta
meta_of-body title text meta =
    ap (λ n. drop_chars n (body title text meta)) (regroup (count title) (count text))
    ∙ drop_chars-add (count title + 1) (count text) (body title text meta)
    ∙ ap (drop_chars (count text)) (drop-title title text meta)
    ∙ drop_chars-append text meta

header-lacks_colon :
    (n m : String)
    → has_char colon n ≡ false
    → has_char colon m ≡ false
    → has_char colon (header n m) ≡ false
unfolding has_char
header-lacks_colon n m hn hm =
    has_char-append_or colon n (char_cons "," (str_append m "}"))
    ∙ ap (λ b. b || has_char colon (str_append m "}")) hn
    ∙ has_char-append_or colon m "}"
    ∙ ap (λ b. b || false) hm

split-header :
    (n m : String)
    → has_char "," n ≡ false
    → has_char "," m ≡ false
    → split "," (header n m)
      ≡ (char_cons "_" (char_cons "e" (char_cons "{" n)), str_append m "}" ∷ [])
unfolding has_char
split-header n m hn hm =
    let front = char_cons "_" (char_cons "e" (char_cons "{" n)) in
    let back = str_append m "}" in
    sym (
      ap (split ",") (
        append.cons "_" (char_cons "e" (char_cons "{" n)) (char_cons "," back)
        ∙ ap (char_cons "_") (append.cons "e" (char_cons "{" n) (char_cons "," back))
        ∙ ap (λ s. char_cons "_" (char_cons "e" s)) (append.cons "{" n (char_cons "," back))))
    ∙ split-append "," front back hn (has_char-append_or "," m "}" ∙ ap (λ b. b || false) hm)

from_start : (n : ℕ) → n - 0 ≡ n
from_start n = omega arith

title_of-body :
    (title text meta : String)
    → text_between (pos 0) (pos (count title)) (body title text meta) ≡ title
unfolding drop_chars
title_of-body title text meta =
    ap (λ n. take_chars n (body title text meta)) (from_start (count title))
    ∙ take_chars-append title (char_cons pipe (str_append text meta))

title_and_text-body :
    {V : Type 0} (title text meta : String)
    → Path
        (Keywords V)
        (title_and_text (pos (count title)) (pos (count text)) (body title text meta))
        (insert str_eq "text"
          (str (unescape_event_text text))
          (insert str_eq "title" (str title) []))
title_and_text-body title text meta =
    ap
      (λ s.
        insert str_eq "text"
          (str (
            unescape_event_text (
              text_between (pos (count title + 1)) (pos (count title + count text + 1))
                (body title text meta))))
          (insert str_eq "title" (str s) []))
      (title_of-body title text meta)
    ∙ ap
        (λ s.
          insert str_eq "text" (str (unescape_event_text s)) (insert str_eq "title" (str title) []))
        (text_of-body title text meta)

module _ {V : Type 0} (wide : Bool) (parse_int : String → Option ℤ) where
  -- If the two numbers of the header are the lengths of the title and of the text, then
  -- parse_event_packet finds exactly them, whatever colons, pipes and commas they have, and makes
  -- of them what the reading of the metadata that follow makes: it is unparseable where a part of these
  -- is, as tags of bytes that are not ASCII are without utf8_decoding.
  pub parse_event_packet-framed :
      (n m title text meta : String)
      → parse_int n ≡ some (pos (count title))
      → parse_int m ≡ some (pos (count text))
      → has_char colon n ≡ false
      → has_char colon m ≡ false
      → has_char "," n ≡ false
      → has_char "," m ≡ false
      → parse_event_packet {V = V} wide parse_int (event_packet n m title text meta)
        ≡ event_fields wide parse_int (split pipe meta).1 (
            insert str_eq "text"
              (str (unescape_event_text text))
              (insert str_eq "title" (str title) []))
  unfolding parse_event_packet drop_chars
  parse_event_packet-framed n m title text meta size_n size_m colon_n colon_m comma_n comma_m =
      ap (event_split wide parse_int) (
        split_once-append colon (header n m) (body title text meta)
          (header-lacks_colon n m colon_n colon_m))
      ∙ ap (λ parts. event_named wide parse_int parts (body title text meta))
          (split-header n m comma_n comma_m)
      ∙ ap (λ o. event_sized wide parse_int (body title text meta) (parse_int n) (parse_int o))
          (take-inner m)
      ∙ ap (λ o. event_sized wide parse_int (body title text meta) o (parse_int m)) size_n
      ∙ ap (λ o. event_sized wide parse_int (body title text meta) (some (pos (count title))) o)
          size_m
      ∙ ap
          (λ s.
            event_fields wide parse_int (split pipe s).1
              (title_and_text (pos (count title)) (pos (count text)) (body title text meta)))
          (meta_of-body title text meta)
      ∙ ap (event_fields wide parse_int (split pipe meta).1) (title_and_text-body title text meta)
