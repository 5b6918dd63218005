-- ===== src/Ucmdb/Groups/Decimal.antt =====
-- Python's text of a number, as `%s` gives it.
use Prim.Native.String.{◌++◌ as str_append}
use sts_agent.Prelude.{
  ℕ, zero, suc, ◌/◌, ◌%◌, Option, none, some, String, List, [], ◌∷◌, ltb, if◌then◌else◌, get_elem?,
}

abbrev digits : List String
digits = "0" ∷ "1" ∷ "2" ∷ "3" ∷ "4" ∷ "5" ∷ "6" ∷ "7" ∷ "8" ∷ "9" ∷ []

abbrev or_text : Option String → String
or_text none = ""
or_text (some s) = s

abbrev digit : ℕ → String
digit n = or_text (get_elem? digits n)

-- A number has no more digits than its value.
decimal_on : ℕ → ℕ → String
decimal_on zero n = digit (n % 10)
decimal_on (suc fuel) n =
    let front = decimal_on fuel (n / 10) in
    if ltb n 10 then digit n else str_append front (digit (n % 10))

unfoldable pub decimal : ℕ → String
unfolding decimal_on
decimal n = decimal_on n n
