-- ===== src/Prelude/Chunks.antt =====
-- A list cut into chunks of a size, as `values[index : index + size]` for the multiples of it.
use mathlib.Core.List.{List, [], ◌∷◌, ◌++◌}
use mathlib.Core.Path.{◌≡◌, refl, ap, ◌∙◌}
use Prim.Native.Nat.{ℕ, zero, suc, ◌≤◌}
use native.Mathlib.Omega.{arith}
use bisakerja_scraper.Prelude.Lists.{length, take, drop, length-take, length-drop, All}

module _ {A : Type 0} (size : ℕ) where
  unfoldable pub chunks_from : (fuel : ℕ) → List A → List (List A)
  chunks_from fuel [] = []
  chunks_from zero (x ∷ xs) = []
  chunks_from (suc fuel) (x ∷ xs) = take size (x ∷ xs) ∷ chunks_from fuel (drop size (x ∷ xs))

  -- Each chunk takes at least one value of a positive size, so the length is enough.
  abbrev pub chunked : List A → List (List A)
  chunked xs = chunks_from (length xs) xs

abbrev pub joined {ℓ} : {A : Type ℓ} → List (List A) → List A
joined [] = []
joined (chunk ∷ chunks) = chunk ++ joined chunks

pub take-drop {ℓ} : {A : Type ℓ} (n : ℕ) (xs : List A) → take n xs ++ drop n xs ≡ xs
take-drop zero xs = refl
take-drop (suc n) [] = refl
take-drop (suc n) (x ∷ xs) = ap (λ rest. x ∷ rest) (take-drop n xs)

-- A chunk that is neither empty nor too long.
abbrev pub IsChunk {ℓ} : {A : Type ℓ} → ℕ → List A → Type 0
IsChunk size chunk = (1 ≤ length chunk) × (length chunk ≤ size)

module _ {A : Type 0} (size : ℕ) (positive : 1 ≤ size) where
  chunks_from-joined :
      (fuel : ℕ) (xs : List A) → length xs ≤ fuel → joined (chunks_from size fuel xs) ≡ xs
  unfolding chunks_from
  chunks_from-joined fuel [] h = refl
  chunks_from-joined zero (x ∷ xs) h = absurd (omega arith)
  chunks_from-joined (suc fuel) (x ∷ xs) h =
      let rest = drop size (x ∷ xs) in
      let short : length rest ≤ fuel = omega (arith, length-drop size (x ∷ xs)) in
      ap (λ ys. take size (x ∷ xs) ++ ys) (chunks_from-joined fuel rest short)
      ∙ take-drop size (x ∷ xs)

  pub chunked-joined : (xs : List A) → joined (chunked size xs) ≡ xs
  chunked-joined xs = chunks_from-joined (length xs) xs (omega arith)

  chunks_from-IsChunk : (fuel : ℕ) (xs : List A) → All (IsChunk size) (chunks_from size fuel xs)
  unfolding chunks_from
  chunks_from-IsChunk fuel [] = tt
  chunks_from-IsChunk zero (x ∷ xs) = tt
  chunks_from-IsChunk (suc fuel) (x ∷ xs) =
      let taken = length-take size (x ∷ xs) in
      ((omega (arith, taken), omega (arith, taken)), chunks_from-IsChunk fuel (drop size (x ∷ xs)))

  pub chunked-IsChunk : (xs : List A) → All (IsChunk size) (chunked size xs)
  chunked-IsChunk xs = chunks_from-IsChunk (length xs) xs
