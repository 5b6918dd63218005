-- ===== src/Prelude/Texts/Cuts.antt =====
-- A text that is cut where two texts meet.
use Prim.Native.Char.{Char, code}
use Prim.Native.String.{String, [] as empty, ◌∷◌ as char_cons, ◌++◌ as str_append, count}
use Prim.Native.String.append
use Prim.Native.String.count as counts
use Prim.Native.Nat.{ℕ, zero, suc, ◌+◌}
use mathlib.Core.Path.{◌≡◌, refl, ap, ◌∙◌}
use mathlib.Core.Bool.{Bool, true, false, ◌||◌}
use mathlib.Core.Option.{some}
use mathlib.Core.List.{[], ◌∷◌}
use native.Mathlib.Numerals.{unary_clauses}
use native.Mathlib.Omega.{arith}
use sts_agent.Prelude.Tests.{◌==◌, ==_iff}
use sts_agent.Prelude.Texts.{has_char, split, split_once}
use sts_agent.Prelude.Texts.Parts.{drop_chars, take_chars}

eq_self : (n : ℕ) → (n == n) ≡ true
eq_self n = (==_iff n n).1 refl

pub take_chars-append : (s t : String) → take_chars (count s) (str_append s t) ≡ s
unfolding take_chars
take_chars-append empty t = refl
take_chars-append (char_cons c s) t =
    rw (counts.cons c s, append.cons c s t) (ap (char_cons c) (take_chars-append s t))

pub drop_chars-append : (s t : String) → drop_chars (count s) (str_append s t) ≡ t
unfolding drop_chars
drop_chars-append empty t = append.nil t
drop_chars-append (char_cons c s) t =
    rw (counts.cons c s, append.cons c s t) (drop_chars-append s t)

zero_add : (n : ℕ) → 0 + n ≡ n
zero_add n = omega arith

suc_add : (m n : ℕ) → suc m + n ≡ suc (m + n)
suc_add m n = omega arith

pub drop_chars-add : (m n : ℕ) (s : String) → drop_chars (m + n) s ≡ drop_chars n (drop_chars m s)
unfolding drop_chars
drop_chars-add zero n s = ap (λ k. drop_chars k s) (zero_add n)
drop_chars-add (suc m) zero empty = simp unary_clauses refl
drop_chars-add (suc m) (suc n) empty = simp unary_clauses refl
drop_chars-add (suc m) n (char_cons c s) =
    ap (λ k. drop_chars k (char_cons c s)) (suc_add m n) ∙ drop_chars-add m n s

or_false : (a b : Bool) → a || b ≡ false → (a ≡ false) × (b ≡ false)
or_false a b h = ground arith

or_assoc : (a b c : Bool) → a || (b || c) ≡ (a || b) || c
or_assoc a b c = ground arith

pub has_char-append_or :
    (c : Char) (s t : String) → has_char c (str_append s t) ≡ (has_char c s || has_char c t)
unfolding has_char
has_char-append_or c empty t = ap (has_char c) (append.nil t)
has_char-append_or c (char_cons d s) t = rw (append.cons d s t) (
    ap (λ b. code d == code c || b) (has_char-append_or c s t)
    ∙ or_assoc (code d == code c) (has_char c s) (has_char c t))

-- The text before a character that it has not got.
pub split_once-append :
    (c : Char) (s t : String)
    → has_char c s ≡ false
    → split_once c (str_append s (char_cons c t)) ≡ some (s, t)
unfolding has_char split_once
split_once-append c empty t h = rw (append.nil (char_cons c t)) (rw (eq_self (code c)) refl)
split_once-append c (char_cons d s) t h =
    let (other, rest) = or_false (code d == code c) (has_char c s) h in
    rw (append.cons d s (char_cons c t)) (rw other (rw (split_once-append c s t rest) refl))

pub split-whole : (c : Char) (s : String) → has_char c s ≡ false → split c s ≡ (s, [])
unfolding has_char split
split-whole c empty h = refl
split-whole c (char_cons d s) h =
    let (other, rest) = or_false (code d == code c) (has_char c s) h in
    rw other (rw (split-whole c s rest) refl)

pub split-append :
    (c : Char) (s t : String)
    → has_char c s ≡ false
    → has_char c t ≡ false
    → split c (str_append s (char_cons c t)) ≡ (s, t ∷ [])
unfolding has_char split
split-append c empty t h k =
    rw (append.nil (char_cons c t)) (rw (eq_self (code c)) (rw (split-whole c t k) refl))
split-append c (char_cons d s) t h k =
    let (other, rest) = or_false (code d == code c) (has_char c s) h in
    rw (append.cons d s (char_cons c t)) (rw other (rw (split-append c s t rest k) refl))
