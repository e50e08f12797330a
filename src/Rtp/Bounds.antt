-- ===== src/Rtp/Bounds.antt =====
-- next_nal() of rtp_h264.c on every input: it goes forward and stays inside the buffer.
use cam.Base.{
  ℕ, zero, suc, ◌+◌, ◌-◌, ◌≤◌, ◌<◌, ◌≡◌, ◌⊎◌, refl, inl, inr, true, ◌&&◌, ◌||◌, not, Option, none,
  some, List, [], ◌∷◌, arith, ltb, ◌==◌, if◌then◌else◌, Bool-cases, length, length-drop, drop,
}
use cam.Rtp.{begins_with_one, scan_loop, scan_start_code, trim_zeros, next_nal}

-- Where scanning finds a code, if it finds one between `i` and `end`.
abbrev FindsCode : ℕ → ℕ → Option (ℕ × ℕ) → Type 0
FindsCode i end r =
    (r ≡ none) ⊎ ((at n : ℕ) × (r ≡ some (at, n)) × (i ≤ at) × (3 ≤ n) × (at + n ≤ end))

begins_with_one_more : (rest : List ℕ) → begins_with_one rest ≡ true → 0 < length rest
begins_with_one_more [] h = absurd (ground arith)
begins_with_one_more (d ∷ rest) h = omega arith

scan_loop-FindsCode :
    (xs : List ℕ) (i end : ℕ) → i + length xs ≤ end → FindsCode i end (scan_loop xs i)
unfolding scan_loop
scan_loop-FindsCode [] i end h = inl refl
scan_loop-FindsCode (a ∷ []) i end h = inl refl
scan_loop-FindsCode (a ∷ b ∷ []) i end h = inl refl
scan_loop-FindsCode (a ∷ b ∷ c ∷ rest) i end h = elim (Bool-cases (not (a == 0) || not (b == 0))) [
  | inl other ↦ rw other (later (scan_loop-FindsCode (b ∷ c ∷ rest) (i + 1) end (omega arith)))
  | inr zeros ↦ elim (Bool-cases (c == 1)) [
    | inl one ↦ rw (zeros, one) (inr (i, 3, refl, omega arith, omega arith, omega arith))
    | inr other ↦ elim (Bool-cases (c == 0 && begins_with_one rest)) [
      | inl four ↦
          let more : 0 < length rest = begins_with_one_more rest (ground arith) in
          rw (zeros, other, four) (inr (i, 4, refl, omega arith, omega arith, omega arith))
      | inr none_here ↦
          rw (zeros, other, none_here)
            (later (scan_loop-FindsCode (b ∷ c ∷ rest) (i + 1) end (omega arith)))
    ]
  ]
]
  where
    later : {r : Option (ℕ × ℕ)} → FindsCode (i + 1) end r → FindsCode i end r
    later (inl e) = inl e
    later (inr (at, n, e, lo, k, hi)) = inr (at, n, e, omega arith, k, hi)

scan-FindsCode :
    (au : List ℕ) (i : ℕ) → i ≤ length au → FindsCode i (length au) (scan_start_code au i)
unfolding scan_start_code
scan-FindsCode au i h =
    scan_loop-FindsCode (drop i au) i (length au) (omega (arith, length-drop i au))

trim_zeros_bound : (au : List ℕ) (body end : ℕ) → trim_zeros au body end ≤ end
unfolding trim_zeros
trim_zeros_bound au body zero = omega arith
trim_zeros_bound au body (suc end) = ground (arith, trim_zeros_bound au body end)

-- A unit that is found lies behind the cursor and inside the buffer.
abbrev pub FindsUnit : ℕ → ℕ → Option (ℕ × ℕ) → Type 0
FindsUnit cursor end r =
    (r ≡ none) ⊎ ((at n : ℕ) × (r ≡ some (at, n)) × (cursor < at) × (at + n ≤ end))

pub next_nal-FindsUnit :
    (au : List ℕ) (cursor : ℕ)
    → cursor ≤ length au
    → FindsUnit cursor (length au) (next_nal au cursor)
unfolding next_nal
next_nal-FindsUnit au cursor h = elim (scan-FindsCode au cursor h) [
  | inl e ↦ rw e (inl refl)
  | inr (at, n, e, lo, k, hi) ↦ elim (scan-FindsCode au (at + n) hi) [
    | inl e' ↦
        rw (e, e')
          (inr (
            at + n,
            _,
            refl,
            omega arith,
            sized (at + n) (length au) (trim_zeros_bound au (at + n) (length au)) hi (omega arith),
          ))
    | inr (at', n', e', lo', k', hi') ↦
        rw (e, e')
          (inr (
            at + n,
            _,
            refl,
            omega arith,
            sized (at + n) at' (trim_zeros_bound au (at + n) at') hi (omega arith),
          ))
  ]
]
  where
    sized :
        {t : ℕ} (body end : ℕ)
        → t ≤ end
        → body ≤ length au
        → end ≤ length au
        → body + (if ltb body t then t - body else 0) ≤ length au
    sized body end ht hb he = ground arith
