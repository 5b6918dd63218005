-- ===== src/Checks/Names/Normal.antt =====
-- checks/__init__.py, normalize: what it makes, and that it leaves that alone.
use Prim.Native.Char.{Char}
use Prim.Native.String.{[] as empty, ◌∷◌ as char_cons}
use sts_agent.Prelude.{
  Bool, true, false, not, ◌&&◌, String, ◌≡◌, refl, ◌∙◌, inl, inr, Bool-cases, if_cases, arith,
}
use sts_agent.Checks.Names.{
  is_underscore, is_dot, is_replaced, starts, replace_char, replace_chars, squeeze, drop_first,
  drop_last, drop_after_dot, drop_before_dot, well_formed,
}

-- No character of the first kind is followed by one of the second.
unfoldable pub no_pair : (Char → Bool) → (Char → Bool) → String → Bool
no_pair p q empty = true
no_pair p q (char_cons c s) = not (p c && starts q s) && no_pair p q s

unfoldable pub none_replaced : String → Bool
none_replaced empty = true
none_replaced (char_cons c s) = not (is_replaced c) && none_replaced s

-- The last character is `_`, or there is none and the one before is.
unfoldable pub ends : Bool → String → Bool
ends before empty = before
ends before (char_cons c s) = ends (is_underscore c) s

abbrev pub no_runs : String → Bool
no_runs s = no_pair is_underscore is_underscore s

replace_char-kept : (c : Char) → is_replaced (replace_char c) ≡ false
replace_char-kept c = elim (Bool-cases (is_replaced c)) [ inl e ↦ rw e refl | inr e ↦ rw e e ]

replace_chars-none : (s : String) → none_replaced (replace_chars s) ≡ true
unfolding none_replaced replace_chars
replace_chars-none empty = refl
replace_chars-none (char_cons c s) = rw (replace_char-kept c) (replace_chars-none s)

squeeze-starts : (s : String) → starts is_underscore (squeeze s) ≡ starts is_underscore s
unfolding squeeze
squeeze-starts empty = refl
squeeze-starts (char_cons c s) = ground (arith, squeeze-starts s)

squeeze-none : (s : String) → none_replaced s ≡ true → none_replaced (squeeze s) ≡ true
unfolding squeeze none_replaced
squeeze-none empty h = refl
squeeze-none (char_cons c s) h = ground (arith, squeeze-none s)

squeeze-no_runs : (s : String) → no_runs (squeeze s) ≡ true
unfolding squeeze no_pair
squeeze-no_runs empty = refl
squeeze-no_runs (char_cons c s) = ground (arith, squeeze-starts s, squeeze-no_runs s)

drop_first-none : (s : String) → none_replaced s ≡ true → none_replaced (drop_first s) ≡ true
unfolding none_replaced
drop_first-none empty h = refl
drop_first-none (char_cons c s) h = ground arith

drop_first-no_runs : (s : String) → no_runs s ≡ true → no_runs (drop_first s) ≡ true
unfolding no_pair
drop_first-no_runs empty h = refl
drop_first-no_runs (char_cons c s) h = ground arith

drop_first-starts : (s : String) → no_runs s ≡ true → starts is_underscore (drop_first s) ≡ false
unfolding no_pair
drop_first-starts empty h = refl
drop_first-starts (char_cons c s) h = ground arith

drop_last-starts :
    (p : Char → Bool) (s : String) → starts p s ≡ false → starts p (drop_last s) ≡ false
unfolding drop_last
drop_last-starts p empty h = refl
drop_last-starts p (char_cons c empty) h =
    if_cases (λ t. starts p t ≡ false) (is_underscore c) _ _ (λ e. refl) (λ e. h)
drop_last-starts p (char_cons c (char_cons d s)) h = h

drop_last-none : (s : String) → none_replaced s ≡ true → none_replaced (drop_last s) ≡ true
unfolding drop_last none_replaced
drop_last-none empty h = refl
drop_last-none (char_cons c empty) h =
    if_cases (λ t. none_replaced t ≡ true) (is_underscore c) _ _ (λ e. refl) (λ e. h)
drop_last-none (char_cons c (char_cons d s)) h = ground (arith, drop_last-none (char_cons d s))

drop_last-no_runs : (s : String) → no_runs s ≡ true → no_runs (drop_last s) ≡ true
unfolding drop_last no_pair
drop_last-no_runs empty h = refl
drop_last-no_runs (char_cons c empty) h =
    if_cases (λ t. no_runs t ≡ true) (is_underscore c) _ _ (λ e. refl) (λ e. h)
drop_last-no_runs (char_cons c (char_cons d s)) h =
    ground
      (arith, drop_last-no_runs (char_cons d s), drop_last-starts is_underscore (char_cons d s))

drop_last-ends :
    (before : Bool) (c : Char) (s : String)
    → no_runs (char_cons c s) ≡ true
    → before && is_underscore c ≡ false
    → ends before (drop_last (char_cons c s)) ≡ false
unfolding drop_last no_pair ends
drop_last-ends before c empty h k =
    if_cases (λ t. ends before t ≡ false) (is_underscore c) _ _ (λ e. ground arith) (λ e. e)
drop_last-ends before c (char_cons d s) h k = ground (arith, drop_last-ends (is_underscore c) d s)

drop_last-ends_well : (s : String) → no_runs s ≡ true → ends false (drop_last s) ≡ false
unfolding drop_last ends
drop_last-ends_well empty h = refl
drop_last-ends_well (char_cons c s) h = drop_last-ends false c s h refl

ends-any : (before : Bool) (s : String) → ends true s ≡ false → ends before s ≡ false
unfolding ends
ends-any before empty h = ground arith
ends-any before (char_cons c s) h = h

drop_after_dot-none :
    (dotted : Bool) (s : String)
    → none_replaced s ≡ true
    → none_replaced (drop_after_dot dotted s) ≡ true
unfolding drop_after_dot none_replaced
drop_after_dot-none dotted empty h = refl
drop_after_dot-none dotted (char_cons c s) h =
    ground (arith, drop_after_dot-none false s, drop_after_dot-none (is_dot c) s)

drop_after_dot-starts :
    (dotted : Bool) (s : String)
    → starts is_underscore s ≡ false
    → starts is_underscore (drop_after_dot dotted s) ≡ false
unfolding drop_after_dot
drop_after_dot-starts dotted empty h = refl
drop_after_dot-starts dotted (char_cons c s) h = ground arith

drop_after_dot-dotted :
    (s : String) → no_runs s ≡ true → starts is_underscore (drop_after_dot true s) ≡ false
unfolding drop_after_dot no_pair
drop_after_dot-dotted empty h = refl
drop_after_dot-dotted (char_cons c s) h = ground (arith, drop_after_dot-starts false s)

drop_after_dot-no_runs :
    (dotted : Bool) (s : String) → no_runs s ≡ true → no_runs (drop_after_dot dotted s) ≡ true
unfolding drop_after_dot no_pair
drop_after_dot-no_runs dotted empty h = refl
drop_after_dot-no_runs dotted (char_cons c s) h = ground (
  arith,
  drop_after_dot-no_runs false s,
  drop_after_dot-no_runs (is_dot c) s,
  drop_after_dot-starts (is_dot c) s,
)

drop_after_dot-no_dots :
    (dotted : Bool) (s : String)
    → no_runs s ≡ true
    → no_pair is_dot is_underscore (drop_after_dot dotted s) ≡ true
unfolding drop_after_dot no_pair
drop_after_dot-no_dots dotted empty h = refl
drop_after_dot-no_dots dotted (char_cons c s) h = ground (
  arith,
  drop_after_dot-no_dots false s,
  drop_after_dot-no_dots (is_dot c) s,
  drop_after_dot-dotted s,
)

drop_after_dot-ends :
    (before dotted : Bool) (s : String)
    → ends before s ≡ false
    → ends before (drop_after_dot dotted s) ≡ false
unfolding drop_after_dot ends
drop_after_dot-ends before dotted empty h = h
drop_after_dot-ends before dotted (char_cons c s) h = ground (
  arith,
  drop_after_dot-ends before false s,
  drop_after_dot-ends (is_underscore c) (is_dot c) s,
  ends-any before s,
)

drop_before_dot-none :
    (s : String) → none_replaced s ≡ true → none_replaced (drop_before_dot s) ≡ true
unfolding drop_before_dot none_replaced
drop_before_dot-none empty h = refl
drop_before_dot-none (char_cons c s) h = ground (arith, drop_before_dot-none s)

drop_before_dot-ends :
    (before : Bool) (s : String) → ends before s ≡ false → ends before (drop_before_dot s) ≡ false
unfolding drop_before_dot ends
drop_before_dot-ends before empty h = h
drop_before_dot-ends before (char_cons c s) h = ground (
  arith,
  drop_before_dot-ends before s,
  drop_before_dot-ends (is_underscore c) s,
  ends-any before s,
)

-- A first character that is not `_` is kept.
drop_before_dot-starts :
    (p : Char → Bool) (s : String)
    → starts is_underscore s ≡ false
    → starts p (drop_before_dot s) ≡ starts p s
unfolding drop_before_dot
drop_before_dot-starts p empty h = refl
drop_before_dot-starts p (char_cons c s) h = ground arith

drop_before_dot-no_runs : (s : String) → no_runs s ≡ true → no_runs (drop_before_dot s) ≡ true
unfolding drop_before_dot no_pair
drop_before_dot-no_runs empty h = refl
drop_before_dot-no_runs (char_cons c s) h =
    ground (arith, drop_before_dot-no_runs s, drop_before_dot-starts is_underscore s)

drop_before_dot-no_dots :
    (s : String)
    → no_pair is_dot is_underscore s ≡ true
    → no_pair is_dot is_underscore (drop_before_dot s) ≡ true
unfolding drop_before_dot no_pair
drop_before_dot-no_dots empty h = refl
drop_before_dot-no_dots (char_cons c s) h =
    ground (arith, drop_before_dot-no_dots s, drop_before_dot-starts is_underscore s)

drop_before_dot-none_before :
    (s : String) → no_runs s ≡ true → no_pair is_underscore is_dot (drop_before_dot s) ≡ true
unfolding drop_before_dot no_pair
drop_before_dot-none_before empty h = refl
drop_before_dot-none_before (char_cons c s) h =
    ground (arith, drop_before_dot-none_before s, drop_before_dot-starts is_dot s)

-- No character that is replaced, no `__`, `._` or `_.`, and no `_` at either end.
abbrev pub IsWellFormed : String → Type 0
IsWellFormed s =
    (none_replaced s ≡ true)
    × (no_runs s ≡ true)
    × (no_pair is_dot is_underscore s ≡ true)
    × (no_pair is_underscore is_dot s ≡ true)
    × (starts is_underscore s ≡ false)
    × (ends false s ≡ false)

pub well_formed-IsWellFormed : (metric : String) → IsWellFormed (well_formed metric)
unfolding well_formed
well_formed-IsWellFormed metric =
    let squeezed = squeeze (replace_chars metric) in
    let runs = squeeze-no_runs (replace_chars metric) in
    let cut = drop_last (drop_first squeezed) in
    let first_runs = drop_first-no_runs squeezed runs in
    let cut_runs = drop_last-no_runs (drop_first squeezed) first_runs in
    let cut_none = drop_last-none (drop_first squeezed) (
      drop_first-none squeezed (squeeze-none (replace_chars metric) (replace_chars-none metric))) in
    let cut_starts =
      drop_last-starts is_underscore (drop_first squeezed) (drop_first-starts squeezed runs) in
    let cut_ends = drop_last-ends_well (drop_first squeezed) first_runs in
    let undotted = drop_after_dot false cut in
    let runs' = drop_after_dot-no_runs false cut cut_runs in
    let starts' = drop_after_dot-starts false cut cut_starts in
    (
      drop_before_dot-none undotted (drop_after_dot-none false cut cut_none),
      drop_before_dot-no_runs undotted runs',
      drop_before_dot-no_dots undotted (drop_after_dot-no_dots false cut cut_runs),
      drop_before_dot-none_before undotted runs',
      drop_before_dot-starts is_underscore undotted starts' ∙ starts',
      drop_before_dot-ends false undotted (drop_after_dot-ends false false cut cut_ends),
    )
