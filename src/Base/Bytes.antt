-- ===== src/Base/Bytes.antt =====
-- Bytes, big-endian words, and reads from a buffer.
use Prim.Native.Nat.{ℕ, zero, suc, ◌+◌, ◌*◌, ◌/◌, ◌%◌, ◌^◌, ◌≤◌, ◌<◌}
use mathlib.Core.Path.{◌≡◌, refl, ap, ◌∙◌}
use mathlib.Core.Bool.{Bool, true, false}
use mathlib.Core.List.{List, [], ◌∷◌, ◌++◌}
use mathlib.Core.Option.{Option, none, some}
use native.Mathlib.Omega.{arith}
use native.Mathlib.Decide.{ℕ_discrete}
use cam.Base.Memory.{slice}
use cam.Base.Tests.{ltb, ◌>>=◌, ◌==◌, if◌then◌else◌}
use cam.Base.Lists.{get_elem?, length, get_elem?-append, get_elem?-in_range}

abbrev pub IsByte : ℕ → Type 0
IsByte b = b < 256

-- write_be16(p, value) of rtp_h264.c, rtcp.c and ice_lite.c: the bytes that it stores at `p`.
abbrev pub be16 : ℕ → List ℕ
be16 v = v / 2 ^ 8 % 2 ^ 8 ∷ v % 2 ^ 8 ∷ []

-- write_be32(p, value)
abbrev pub be32 : ℕ → List ℕ
be32 v = v / 2 ^ 24 % 2 ^ 8 ∷ v / 2 ^ 16 % 2 ^ 8 ∷ v / 2 ^ 8 % 2 ^ 8 ∷ v % 2 ^ 8 ∷ []

-- A counter of 32 or 64 bits that goes up.
abbrev pub count32 : ℕ → ℕ → ℕ
count32 n k = (n + k) % 2 ^ 32

abbrev pub count64 : ℕ → ℕ → ℕ
count64 n k = (n + k) % 2 ^ 64

-- read_be16(p) at `buf + i`. A read out of the buffer has no result.
abbrev pub read_be16 : List ℕ → ℕ → Option ℕ
read_be16 buf i = do a ← get_elem? buf i; b ← get_elem? buf (i + 1); some (a * 2 ^ 8 + b)

-- read_be32(p) at `buf + i`
abbrev pub read_be32 : List ℕ → ℕ → Option ℕ
read_be32 buf i = do
  a ← get_elem? buf i
  b ← get_elem? buf (i + 1)
  c ← get_elem? buf (i + 2)
  d ← get_elem? buf (i + 3)
  some (a * 2 ^ 24 + b * 2 ^ 16 + c * 2 ^ 8 + d)

-- The `n` bytes at `xs + off`, if they are all there.
abbrev pub bytes_at : ℕ → ℕ → List ℕ → Option (List ℕ)
bytes_at off n xs = if ltb (length xs) (off + n) then none else some (slice off n xs)

pub bytes_at-in_range :
    (off n : ℕ) (xs : List ℕ) → off + n ≤ length xs → bytes_at off n xs ≡ some (slice off n xs)
bytes_at-in_range off n xs h =
    let inside : ltb (length xs) (off + n) ≡ false = ground (arith, h) in rw inside refl

-- Whether two functions agree on every number below `n`: laws of the bit operations on bytes are
-- proved by running it.
unfoldable pub agree : (ℕ → ℕ) → (ℕ → ℕ) → ℕ → Bool
agree f g zero = true
agree f g (suc n) = if f n == g n then agree f g n else false

pub eq_of_agree : (f g : ℕ → ℕ) {x : ℕ} (n : ℕ) → agree f g n ≡ true → x < n → f x ≡ g x
unfolding agree
eq_of_agree f g zero e h = absurd (omega arith)
eq_of_agree f g {x} (suc n) e h = elim (ℕ_discrete x n) [
  | yes same ↦ rw same (ground arith)
  | no other ↦ eq_of_agree f g n (ground arith) (omega arith)
]

-- A read inside the buffer has a result.
pub read_be16-in_range :
    (buf : List ℕ) (i : ℕ) → i + 2 ≤ length buf → (v : ℕ) × (read_be16 buf i ≡ some v)
read_be16-in_range buf i h =
    let (a, ea) = get_elem?-in_range buf i (omega arith) in
    let (b, eb) = get_elem?-in_range buf (i + 1) (omega arith) in (a * 2 ^ 8 + b, rw (ea, eb))

pub read_be32-in_range :
    (buf : List ℕ) (i : ℕ) → i + 4 ≤ length buf → (v : ℕ) × (read_be32 buf i ≡ some v)
read_be32-in_range buf i h =
    let (a, ea) = get_elem?-in_range buf i (omega arith) in
    let (b, eb) = get_elem?-in_range buf (i + 1) (omega arith) in
    let (c, ec) = get_elem?-in_range buf (i + 2) (omega arith) in
    let (d, ed) = get_elem?-in_range buf (i + 3) (omega arith) in
    (a * 2 ^ 24 + b * 2 ^ 16 + c * 2 ^ 8 + d, rw (ea, eb, ec, ed))

-- A read past a prefix is a read of what follows it.
pub read_be16-append :
    (pre xs : List ℕ) (k : ℕ) → read_be16 (pre ++ xs) (length pre + k) ≡ read_be16 xs k
read_be16-append pre xs k = rw (get_elem?-append pre xs k, next) refl
  where
    next : get_elem? (pre ++ xs) (length pre + k + 1) ≡ get_elem? xs (k + 1)
    next = ap (get_elem? (pre ++ xs)) (omega arith) ∙ get_elem?-append pre xs (k + 1)

pub read_be32-append :
    (pre xs : List ℕ) (k : ℕ) → read_be32 (pre ++ xs) (length pre + k) ≡ read_be32 xs k
read_be32-append pre xs k = rw (get_elem?-append pre xs k, after 1, after 2, after 3) refl
  where
    after : (j : ℕ) → get_elem? (pre ++ xs) (length pre + k + j) ≡ get_elem? xs (k + j)
    after j = ap (get_elem? (pre ++ xs)) (omega arith) ∙ get_elem?-append pre xs (k + j)

-- The value of the two or four bytes that a word is written as.
pub be16_value : (v : ℕ) → v < 2 ^ 16 → v / 2 ^ 8 % 2 ^ 8 * 2 ^ 8 + v % 2 ^ 8 ≡ v
be16_value v h = omega arith

pub be32_value :
    (v : ℕ)
    → v < 2 ^ 32
    → v / 2 ^ 24 % 2 ^ 8 * 2 ^ 24
        + v / 2 ^ 16 % 2 ^ 8 * 2 ^ 16
        + v / 2 ^ 8 % 2 ^ 8 * 2 ^ 8
        + v % 2 ^ 8
      ≡ v
be32_value v h = omega arith

-- The same for a buffer and a position that are known by equations.
pub read_be16_here :
    (buf pre xs : List ℕ) (i k v : ℕ)
    → buf ≡ pre ++ xs
    → i ≡ length pre + k
    → read_be16 xs k ≡ some v
    → read_be16 buf i ≡ some v
read_be16_here buf pre xs i k v eb ei h = rw (eb, ei) (read_be16-append pre xs k ∙ h)

pub read_be32_here :
    (buf pre xs : List ℕ) (i k v : ℕ)
    → buf ≡ pre ++ xs
    → i ≡ length pre + k
    → read_be32 xs k ≡ some v
    → read_be32 buf i ≡ some v
read_be32_here buf pre xs i k v eb ei h = rw (eb, ei) (read_be32-append pre xs k ∙ h)

pub get_elem?_here :
    (buf pre xs : List ℕ) (i k v : ℕ)
    → buf ≡ pre ++ xs
    → i ≡ length pre + k
    → get_elem? xs k ≡ some v
    → get_elem? buf i ≡ some v
get_elem?_here buf pre xs i k v eb ei h = rw (eb, ei) (get_elem?-append pre xs k ∙ h)
