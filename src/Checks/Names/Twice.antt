-- ===== src/Checks/Names/Twice.antt =====
-- checks/__init__.py, normalize: a well-formed name is left alone.
use Prim.Native.String.{[] as empty, ◌∷◌ as char_cons}
use sts_agent.Prelude.{
  Bool, true, false, ◌&&◌, none, String, ◌≡◌, refl, ap, inl, inr, Bool-cases, arith,
}
use sts_agent.Checks.Names.{
  is_underscore, is_dot, is_replaced, starts, replace_chars, squeeze, drop_first, drop_last,
  drop_after_dot, drop_before_dot, well_formed, normalize,
}
use sts_agent.Checks.Names.Normal.{
  no_pair, none_replaced, ends, no_runs, IsWellFormed, well_formed-IsWellFormed,
}

-- A well-formed name is left alone.
replace_chars-same : (s : String) → none_replaced s ≡ true → replace_chars s ≡ s
unfolding replace_chars none_replaced
replace_chars-same empty h = refl
replace_chars-same (char_cons c s) h = elim (Bool-cases (is_replaced c)) [
  | inl e ↦ absurd (ground arith)
  | inr e ↦ rw e (ap (char_cons c) (replace_chars-same s (ground arith)))
]

squeeze-same : (s : String) → no_runs s ≡ true → squeeze s ≡ s
unfolding squeeze no_pair
squeeze-same empty h = refl
squeeze-same (char_cons c s) h = ground (arith, squeeze-same s)

drop_first-same : (s : String) → starts is_underscore s ≡ false → drop_first s ≡ s
drop_first-same empty h = refl
drop_first-same (char_cons c s) h = rw h refl

drop_last-same : (before : Bool) (s : String) → ends before s ≡ false → drop_last s ≡ s
unfolding drop_last ends
drop_last-same before empty h = refl
drop_last-same before (char_cons c empty) h = rw h refl
drop_last-same before (char_cons c (char_cons d s)) h =
    ap (char_cons c) (drop_last-same (is_underscore c) (char_cons d s) h)

drop_after_dot-same :
    (dotted : Bool) (s : String)
    → no_pair is_dot is_underscore s ≡ true
    → dotted && starts is_underscore s ≡ false
    → drop_after_dot dotted s ≡ s
unfolding drop_after_dot no_pair
drop_after_dot-same dotted empty h k = refl
drop_after_dot-same dotted (char_cons c s) h k =
    rw k (ap (char_cons c) (drop_after_dot-same (is_dot c) s (ground arith) (ground arith)))

drop_before_dot-same : (s : String) → no_pair is_underscore is_dot s ≡ true → drop_before_dot s ≡ s
unfolding drop_before_dot no_pair
drop_before_dot-same empty h = refl
drop_before_dot-same (char_cons c s) h = ground (arith, drop_before_dot-same s)

well_formed-same : (s : String) → IsWellFormed s → well_formed s ≡ s
unfolding well_formed
well_formed-same s (clean, runs, dots, before, first, last) =
    rw
      (
        replace_chars-same s clean,
        squeeze-same s runs,
        drop_first-same s first,
        drop_last-same false s last,
        drop_after_dot-same false s dots refl,
      )
      (drop_before_dot-same s before)

-- The name that normalize makes of any metric, without a prefix, has no character that is replaced,
-- no `__`, `._` or `_.`, and no `_` at either end, and normalize leaves it alone.
pub normalize-IsWellFormed :
    (metric : String)
    → IsWellFormed (normalize metric none)
      × (normalize (normalize metric none) none ≡ normalize metric none)
unfolding normalize
normalize-IsWellFormed metric =
    let normal = well_formed-IsWellFormed metric in
    (normal, well_formed-same (well_formed metric) normal)
