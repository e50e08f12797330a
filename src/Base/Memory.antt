-- ===== src/Base/Memory.antt =====
-- Copies into and out of a C buffer, which is the list of its bytes.
use Prim.Native.Nat.{ℕ, zero, suc, ◌+◌, ◌≤◌}
use mathlib.Core.Path.{◌≡◌, refl, ap, sym, ◌∙◌}
use mathlib.Core.List.{List, [], ◌∷◌}
use native.Mathlib.Omega.{arith}
use cam.Base.Lists.{length, take, drop}

module _ {ℓ} {A : Type ℓ} where
  abbrev pub overwrite : List A → List A → List A
  overwrite dst [] = dst
  overwrite [] (s ∷ src) = []
  overwrite (d ∷ dst) (s ∷ src) = s ∷ overwrite dst src

  -- memcpy(dst + off, src, length src); what would go past the end is lost.
  abbrev pub copy_at : List A → ℕ → List A → List A
  copy_at dst zero src = overwrite dst src
  copy_at [] (suc off) src = []
  copy_at (d ∷ dst) (suc off) src = d ∷ copy_at dst off src

  -- The `n` bytes at `xs + off`.
  abbrev pub slice : ℕ → ℕ → List A → List A
  slice off n xs = take n (drop off xs)

  length-overwrite : (dst src : List A) → length (overwrite dst src) ≡ length dst
  length-overwrite dst [] = refl
  length-overwrite [] (s ∷ src) = refl
  length-overwrite (d ∷ dst) (s ∷ src) = ap suc (length-overwrite dst src)

  pub length-copy_at :
      (dst : List A) (off : ℕ) (src : List A) → length (copy_at dst off src) ≡ length dst
  length-copy_at dst zero src = length-overwrite dst src
  length-copy_at [] (suc off) src = refl
  length-copy_at (d ∷ dst) (suc off) src = ap suc (length-copy_at dst off src)

  take-overwrite :
      (dst src : List A) → length src ≤ length dst → take (length src) (overwrite dst src) ≡ src
  take-overwrite dst [] h = refl
  take-overwrite [] (s ∷ src) h = absurd (omega arith)
  take-overwrite (d ∷ dst) (s ∷ src) h = ap (◌∷◌ s) (take-overwrite dst src (omega arith))

  -- What was copied is read back.
  pub slice-copy_at :
      (dst : List A) (off : ℕ) (src : List A)
      → off + length src ≤ length dst
      → slice off (length src) (copy_at dst off src) ≡ src
  slice-copy_at dst zero src h = take-overwrite dst src (omega arith)
  slice-copy_at [] (suc off) [] h = refl
  slice-copy_at [] (suc off) (s ∷ src) h = absurd (omega arith)
  slice-copy_at (d ∷ dst) (suc off) src h = slice-copy_at dst off src (omega arith)

  -- A range that ends before the copy, or begins after it, keeps its bytes.
  pub slice-copy_at_below :
      (dst : List A) (o n off : ℕ) (src : List A)
      → o + n ≤ off
      → slice o n (copy_at dst off src) ≡ slice o n dst
  slice-copy_at_below dst o zero off src h = refl
  slice-copy_at_below dst o (suc n) zero src h = absurd (omega arith)
  slice-copy_at_below [] o (suc n) (suc off) src h = refl
  slice-copy_at_below (d ∷ dst) zero (suc n) (suc off) src h =
      ap (◌∷◌ d) (slice-copy_at_below dst zero n off src (omega arith))
  slice-copy_at_below (d ∷ dst) (suc o) (suc n) (suc off) src h =
      slice-copy_at_below dst o (suc n) off src (omega arith)

  drop-overwrite :
      (dst src : List A) (o : ℕ) → length src ≤ o → drop o (overwrite dst src) ≡ drop o dst
  drop-overwrite dst [] o h = refl
  drop-overwrite [] (s ∷ src) o h = refl
  drop-overwrite (d ∷ dst) (s ∷ src) zero h = absurd (omega arith)
  drop-overwrite (d ∷ dst) (s ∷ src) (suc o) h = drop-overwrite dst src o (omega arith)

  pub drop-copy_at_above :
      (dst : List A) (off : ℕ) (src : List A) (o : ℕ)
      → off + length src ≤ o
      → drop o (copy_at dst off src) ≡ drop o dst
  drop-copy_at_above dst zero src o h = drop-overwrite dst src o (omega arith)
  drop-copy_at_above [] (suc off) src o h = refl
  drop-copy_at_above (d ∷ dst) (suc off) src zero h = absurd (omega arith)
  drop-copy_at_above (d ∷ dst) (suc off) src (suc o) h =
      drop-copy_at_above dst off src o (omega arith)

  pub slice-copy_at_above :
      (dst : List A) (off : ℕ) (src : List A) (o n : ℕ)
      → off + length src ≤ o
      → slice o n (copy_at dst off src) ≡ slice o n dst
  slice-copy_at_above dst off src o n h = ap (take n) (drop-copy_at_above dst off src o h)

  drop-drop : (o j m : ℕ) (xs : List A) → m ≡ o + j → drop m xs ≡ drop j (drop o xs)
  drop-drop zero j m xs e = ap (λ k. drop k xs) (omega arith)
  drop-drop (suc o) j zero xs e = absurd (omega arith)
  drop-drop (suc o) zero (suc m) [] e = refl
  drop-drop (suc o) (suc j) (suc m) [] e = refl
  drop-drop (suc o) j (suc m) (x ∷ xs) e = drop-drop o j m xs (omega arith)

  take-take : (n m : ℕ) (xs : List A) → n ≤ m → take n (take m xs) ≡ take n xs
  take-take zero m xs h = refl
  take-take (suc n) zero xs h = absurd (omega arith)
  take-take (suc n) (suc m) [] h = refl
  take-take (suc n) (suc m) (x ∷ xs) h = ap (◌∷◌ x) (take-take n m xs (omega arith))

  take-drop-take :
      (j n m : ℕ) (xs : List A) → j + n ≤ m → take n (drop j (take m xs)) ≡ take n (drop j xs)
  take-drop-take zero n m xs h = take-take n m xs (omega arith)
  take-drop-take (suc j) n zero xs h = absurd (omega arith)
  take-drop-take (suc j) n (suc m) [] h = refl
  take-drop-take (suc j) n (suc m) (x ∷ xs) h = take-drop-take j n m xs (omega arith)

  -- A part of a range.
  pub slice-slice :
      (o len j n m : ℕ) (xs : List A)
      → m ≡ o + j
      → j + n ≤ len
      → slice m n xs ≡ slice j n (slice o len xs)
  slice-slice o len j n m xs e h =
      ap (take n) (drop-drop o j m xs e) ∙ sym (take-drop-take j n len (drop o xs) h)
