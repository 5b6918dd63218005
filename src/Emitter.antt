-- ===== src/Emitter.antt =====
-- emitter.py: the payloads of a collector run, cut into parts that are small enough, and their posts.
pub mod Sanitize
pub mod Parts
pub mod Posts
pub mod Tests
use sts_agent.Prelude.{
  ℕ, zero, suc, ◌+◌, ◌-◌, ◌*◌, ◌/◌, Bool, true, false, not, Option, none, some, String, List, [],
  ◌∷◌, ◌++◌, length, ltb, ◌==◌, if◌then◌else◌,
}

-- `MAX_COMPRESSED_SIZE`, which is `2 << 20`, and `MAX_SPLIT_DEPTH`
abbrev pub max_compressed_size : ℕ
max_compressed_size = 2 * 1_048_576

abbrev pub max_split_depth : ℕ
max_split_depth = 2

-- The texts of json and their compression by zlib; `dumps` is `none` on a UnicodeDecodeError.
pub record Codec (M S Z : Type 0) : Type 0 where
  pub dumps : M → Option S
  pub without_control_chars : M → M
  pub without_undecodable_chars : M → M
  pub size : S → ℕ
  pub compress : S → Z
  pub compressed_size : Z → ℕ

-- `xs[a:b]`
abbrev pub drop : {A : Type 0} → ℕ → List A → List A
drop zero xs = xs
drop (suc n) [] = []
drop (suc n) (x ∷ xs) = drop n xs

abbrev pub take : {A : Type 0} → ℕ → List A → List A
take zero xs = []
take (suc n) [] = []
take (suc n) (x ∷ xs) = x ∷ take n xs

abbrev pub slice : {A : Type 0} → ℕ → ℕ → List A → List A
slice a b xs = take (b - a) (drop a xs)

module _ {M S Z : Type 0} (codec : Codec M S Z) where
  abbrev first_of : Option S → Option S → Option S
  first_of none other = other
  first_of (some s) other = some s

  -- `serialize_payload`; `none` where the last attempt raises.
  unfoldable pub serialize_payload : M → Option S
  serialize_payload message =
      let clean = codec.without_control_chars message in
      first_of (codec.dumps message)
        (first_of (codec.dumps clean) (codec.dumps (codec.without_undecodable_chars clean)))

  abbrev pub zipped : Option S → Option (List Z)
  zipped none = none
  zipped (some s) = some (codec.compress s ∷ [])

  -- `serialize_and_compress_legacy_payload`, and `serialize_and_compress_checkruns_payload`, which
  -- only log that a payload is too big.
  unfoldable pub serialize_and_compress_whole : M → Option (List Z)
  serialize_and_compress_whole message = zipped (serialize_payload message)

  -- `len(zipped)/max_compressed_size + 1 + int(compression_ratio/2)`
  unfoldable pub count_chunks : ℕ → S → Z → ℕ
  count_chunks max s z =
      codec.compressed_size z / max + 1 + codec.size s / (2 * codec.compressed_size z)

abbrev pub both : {Z : Type 0} → Option (List Z) → Option (List Z) → Option (List Z)
both none ys = none
both (some xs) none = none
both (some xs) (some ys) = some (xs ++ ys)

-- The payloads of the chunks `i`, `i + 1` and so on, `n` of them.
unfoldable pub all_chunks :
    {A Z : Type 0} → (List A → Option (List Z)) → ℕ → List A → ℕ → ℕ → Option (List Z)
all_chunks serialize per_chunk series i zero = some []
all_chunks serialize per_chunk series i (suc n) =
    both (serialize (slice (i * per_chunk) ((i + 1) * per_chunk) series))
      (all_chunks serialize per_chunk series (i + 1) n)

-- `series_per_chunk`
abbrev pub split_series : {A Z : Type 0} → (List A → Option (List Z)) → List A → ℕ → Option (List Z)
split_series serialize series n = all_chunks serialize (length series / n + 1) series 0 n

module _ {A M S Z : Type 0} (codec : Codec M S Z) (message : List A → M) where
  -- With the serialized and the compressed payload; a division by zero raises.
  abbrev pub compressed_metrics :
      (List A → Option (List Z)) → ℕ → ℕ → List A → S → Z → Option (List Z)
  compressed_metrics serialize max depth series s z =
      if codec.compressed_size z == 0
      then none
      else if ltb (codec.compressed_size z) max
      then some (z ∷ [])
      else if ltb max_split_depth depth
      then some []
      else if max == 0
      then none
      else split_series serialize series (count_chunks codec max s z)

  abbrev pub serialized_metrics :
      (List A → Option (List Z)) → ℕ → ℕ → List A → Option S → Option (List Z)
  serialized_metrics serialize max depth series none = none
  serialized_metrics serialize max depth series (some s) =
      compressed_metrics serialize max depth series s (codec.compress s)

  -- `serialize_and_compress_metrics_payload` of a payload with these series; `fuel` bounds the
  -- nested calls.
  unfoldable pub serialize_and_compress_metrics : ℕ → ℕ → ℕ → List A → Option (List Z)
  serialize_and_compress_metrics zero max depth series = none
  serialize_and_compress_metrics (suc fuel) max depth series =
      serialized_metrics (serialize_and_compress_metrics fuel max (depth + 1)) max depth series
        (serialize_payload codec (message series))
