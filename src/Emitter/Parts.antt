-- ===== src/Emitter/Parts.antt =====
-- emitter.py, serialize_and_compress_metrics_payload: the parts that it cuts the series into.
use mathlib.Core.List.{append-nil, append_assoc}
use native.Mathlib.Nat.{div-add-mod, mod-lt}
use sts_agent.Prelude.{
  ℕ, zero, suc, ◌+◌, ◌-◌, ◌*◌, ◌/◌, ◌≤◌, ◌<◌, Bool, true, false, Option, none, some, List, [], ◌∷◌,
  ◌++◌, map, length, select, flatten, ltb, ◌==◌, if◌then◌else◌, if_cases, if_fails, ◌≡◌, refl, sym,
  ap, ◌∙◌, subst, arith, Bool-cases, inl, inr,
}
use sts_agent.Emitter.{
  Codec, max_split_depth, drop, take, slice, serialize_payload, count_chunks, both, all_chunks,
  split_series, compressed_metrics, serialized_metrics, serialize_and_compress_metrics,
}

drop-nil : {A : Type 0} (n : ℕ) → ◌≡◌ {A = List A} (drop n []) []
drop-nil zero = refl
drop-nil (suc n) = refl

take-nil : {A : Type 0} (n : ℕ) → ◌≡◌ {A = List A} (take n []) []
take-nil zero = refl
take-nil (suc n) = refl

drop-drop : {A : Type 0} (a b : ℕ) (xs : List A) → drop a (drop b xs) ≡ drop (b + a) xs
drop-drop a zero xs = let e : a ≡ 0 + a = omega arith in ap (λ n. drop n xs) e
drop-drop a (suc b) [] = drop-nil a ∙ sym (drop-nil (suc b + a))
drop-drop a (suc b) (x ∷ xs) =
    let e : suc (b + a) ≡ suc b + a = omega arith in drop-drop a b xs ∙ ap (λ n. drop n (x ∷ xs)) e

take-plus : {A : Type 0} (a b : ℕ) (xs : List A) → take (a + b) xs ≡ take a xs ++ take b (drop a xs)
take-plus zero b xs = let e : 0 + b ≡ b = omega arith in ap (λ n. take n xs) e
take-plus (suc a) b [] = take-nil (suc a + b) ∙ sym (take-nil b)
take-plus (suc a) b (x ∷ xs) =
    let e : suc a + b ≡ suc (a + b) = omega arith in
    ap (λ n. take n (x ∷ xs)) e ∙ ap (λ l. x ∷ l) (take-plus a b xs)

take-all : {A : Type 0} (n : ℕ) (xs : List A) → length xs ≤ n → take n xs ≡ xs
take-all zero [] h = refl
take-all zero (x ∷ xs) h = absurd (omega arith)
take-all (suc n) [] h = refl
take-all (suc n) (x ∷ xs) h = ap (λ l. x ∷ l) (take-all n xs (omega arith))

chunk_size : (i k : ℕ) → (i + 1) * k - i * k ≡ k
chunk_size i k = grind arith

-- The chunks together are as long as the series.
chunks_cover : (length n : ℕ) → 0 < n → length ≤ n * (length / n + 1)
chunks_cover length n h = grind (arith, div-add-mod length n, mod-lt length h)

module _ {A M S Z : Type 0} (codec : Codec M S Z) (message : List A → M) (max : ℕ)
    (text : List A → S)
    (encodes : (series : List A)
      → serialize_payload codec (message series) ≡ some (text series)) where
  abbrev pub payload : List A → Z
  payload series = codec.compress (text series)

  abbrev pub is_small : List A → Bool
  is_small series = ltb (codec.compressed_size (payload series)) max

  -- The payloads are those of the parts that are small enough.
  abbrev pub AreParts : List A → Option (List Z) → Type 0
  AreParts series o =
      (parts : List (List A)) × (flatten parts ≡ series)
      × (o ≡ some (map payload (select is_small parts)))

  map-select-append :
      (xs ys : List (List A))
      → map payload (select is_small (xs ++ ys))
        ≡ map payload (select is_small xs) ++ map payload (select is_small ys)
  map-select-append [] ys = refl
  map-select-append (x ∷ xs) ys = elim (Bool-cases (is_small x)) [
    | inl e ↦ rw e (ap (λ l. payload x ∷ l) (map-select-append xs ys))
    | inr e ↦ rw e (map-select-append xs ys)
  ]

  flatten-append : (xs ys : List (List A)) → flatten (xs ++ ys) ≡ flatten xs ++ flatten ys
  flatten-append [] ys = refl
  flatten-append (x ∷ xs) ys =
      ap (λ l. x ++ l) (flatten-append xs ys) ∙ sym (append_assoc x (flatten xs) (flatten ys))

  both-AreParts :
      (xs ys : List A) (o o' : Option (List Z))
      → AreParts xs o
      → AreParts ys o'
      → AreParts (xs ++ ys) (both o o')
  both-AreParts xs ys o o' (ps, whole, is) (qs, whole', is') = (
    ps ++ qs,
    flatten-append ps qs ∙ ap (λ l. l ++ flatten qs) whole ∙ ap (λ l. xs ++ l) whole',
    ap (λ x. both x o') is
        ∙ ap (both (some (map payload (select is_small ps)))) is'
        ∙ ap some (sym (map-select-append ps qs)),
  )

  all_chunks-AreParts :
      (serialize : List A → Option (List Z)) (k : ℕ) (series : List A) (i n : ℕ)
      → ((xs : List A) → AreParts xs (serialize xs))
      → AreParts (take (n * k) (drop (i * k) series)) (all_chunks serialize k series i n)
  unfolding all_chunks
  all_chunks-AreParts serialize k series i zero h =
      let e : 0 ≡ 0 * k = omega arith in ([], ap (λ m. take m (drop (i * k) series)) e, refl)
  all_chunks-AreParts serialize k series i (suc n) h =
      let first = slice (i * k) ((i + 1) * k) series in
      let rest = take (n * k) (drop ((i + 1) * k) series) in
      let more : k + n * k ≡ suc n * k = grind arith in
      let next : i * k + k ≡ (i + 1) * k = grind arith in
      let joined : first ++ rest ≡ take (suc n * k) (drop (i * k) series) =
        ap (λ m. take m (drop (i * k) series) ++ rest) (chunk_size i k)
        ∙ ap (λ l. take k (drop (i * k) series) ++ take (n * k) l)
            (sym (drop-drop k (i * k) series ∙ ap (λ m. drop m series) next))
        ∙ sym (take-plus k (n * k) (drop (i * k) series))
        ∙ ap (λ m. take m (drop (i * k) series)) more in
      subst (λ xs. AreParts xs (all_chunks serialize k series i (suc n))) joined
        (both-AreParts first rest (serialize first) (all_chunks serialize k series (i + 1) n)
          (h first) (all_chunks-AreParts serialize k series (i + 1) n h))

  one-AreParts :
      (series : List A) → is_small series ≡ true → AreParts series (some (payload series ∷ []))
  one-AreParts series e = (series ∷ [], append-nil series, rw e refl)

  none-AreParts : (series : List A) → is_small series ≡ false → AreParts series (some [])
  none-AreParts series e = (series ∷ [], append-nil series, rw e refl)

  split_series-AreParts :
      (serialize : List A → Option (List Z)) (series : List A) (n : ℕ)
      → 0 < n
      → ((xs : List A) → AreParts xs (serialize xs))
      → AreParts series (split_series serialize series n)
  split_series-AreParts serialize series n lt h =
      let k = length series / n + 1 in
      let none_dropped : ◌≡◌ {A = List A} (drop (0 * k) series) series =
        (let e : 0 * k ≡ 0 = omega arith in ap (λ m. drop m series) e) in
      subst (λ xs. AreParts xs (all_chunks serialize k series 0 n))
        (ap (take (n * k)) none_dropped
          ∙ take-all (n * k) series (chunks_cover (length series) n lt))
        (all_chunks-AreParts serialize k series 0 n h)

  count_chunks-lt : (s : S) (z : Z) → 0 < count_chunks codec max s z
  unfolding count_chunks
  count_chunks-lt s z = omega arith

  module _ (some_max : 0 < max) (not_empty : (z : Z) → 0 < codec.compressed_size z) where
    compressed_metrics-AreParts :
        (serialize : List A → Option (List Z)) (depth : ℕ) (series : List A)
        → ((xs : List A) → depth ≤ max_split_depth → AreParts xs (serialize xs))
        → AreParts series (
            compressed_metrics codec message serialize max depth series
              (text series)
              (payload series))
    compressed_metrics-AreParts serialize depth series h =
        let z = payload series in
        let size = codec.compressed_size z in
        let n = count_chunks codec max (text series) z in
        let split = split_series serialize series n in
        let cut : Option (List Z) = if max == 0 then none else split in
        let big : Option (List Z) = if ltb max_split_depth depth then some [] else cut in
        if_fails (AreParts series) (size == 0) none (if ltb size max then some (z ∷ []) else big)
          (ground (arith, not_empty z))
          (if_cases (AreParts series) (ltb size max) (some (z ∷ [])) big (one-AreParts series) (λ e.
            if_cases (AreParts series) (ltb max_split_depth depth) (some []) cut
              (λ _. none-AreParts series e)
              (λ shallow. if_fails (AreParts series) (max == 0) none split (ground arith) (
                split_series-AreParts serialize series n (count_chunks-lt (text series) z)
                  (λ xs. h xs (ground arith))))))

    -- If every list of series can be serialized, no compressed text is empty and the bound on the
    -- size is not 0, then with four nested calls serialize_and_compress_metrics_payload returns, and
    -- for some parts of the series, which together are the series in their order, it returns the
    -- payloads of exactly those parts whose compressed size is below the bound: each metric is sent
    -- once, or dropped with a part that is too big.
    pub serialize_and_compress_metrics-AreParts :
        (fuel depth : ℕ) (series : List A)
        → 0 < fuel
        → max_split_depth + 2 ≤ depth + fuel
        → AreParts series (serialize_and_compress_metrics codec message fuel max depth series)
    unfolding serialize_and_compress_metrics
    serialize_and_compress_metrics-AreParts zero depth series lt enough = absurd (omega arith)
    serialize_and_compress_metrics-AreParts (suc fuel) depth series lt enough =
        let inner = serialize_and_compress_metrics codec message fuel max (depth + 1) in
        subst (λ o. AreParts series (serialized_metrics codec message inner max depth series o))
          (sym (encodes series))
          (compressed_metrics-AreParts inner depth series (λ xs shallow.
            serialize_and_compress_metrics-AreParts fuel (depth + 1) xs
              (omega (arith, enough, shallow)) (omega (arith, enough))))
