-- ===== src/Stun/ErrorResponse.antt =====
-- The bytes of the binding error response.
use cam.Base.{
  ℕ, false, ◌+◌, ◌*◌, ◌/◌, ◌%◌, ◌≤◌, ◌≡◌, refl, ap, sym, ◌∙◌, Option, some, none, List, [], ◌∷◌,
  ◌++◌, inl, inr, arith, tests, ◌^◌, Bool-cases, ltb, length, length-take, replicate, take, drop,
}
use mathlib.Core.Option.{some-injective}
use cam.Base.Memory.{
  copy_at, slice, length-copy_at, slice-copy_at, slice-copy_at_above, slice-slice,
  drop-copy_at_above,
}
use cam.Base.Bytes.{be16}
use cam.Stun.{build_error_response}

-- The number that RFC 5389, section 15.6, reads from the first word of an ERROR-CODE value: the
-- hundreds are the low three bits of the third byte, and the rest is the fourth.
abbrev pub error_number : List ℕ → ℕ
error_number (reserved ∷ reserved' ∷ class ∷ number ∷ rest) = class % 8 * 100 + number
error_number bytes = 0

module _ (tid : Option (List ℕ)) (error_code : ℕ) (out : List ℕ) (out_capacity : ℕ) where
  -- The buffer before the last store, of the length of the attributes.
  abbrev named : List ℕ → List ℕ
  named buf = elim tid [ none ↦ buf | some t ↦ copy_at buf 8 (take 12 t) ]

  named_above : (o : ℕ) (buf : List ℕ) → 20 ≤ o → drop o (named buf) ≡ drop o buf
  named_above o buf h = above tid
    where
      above :
          (t : Option (List ℕ))
          → drop o (elim t [ none ↦ buf | some t' ↦ copy_at buf 8 (take 12 t') ]) ≡ drop o buf
      above none = refl
      above (some t) = drop-copy_at_above buf 8 (take 12 t) o (omega (arith, length-take 12 t))

  length-named : (buf : List ℕ) → length (named buf) ≡ length buf
  length-named buf = same tid
    where
      same :
          (t : Option (List ℕ))
          → length (elim t [ none ↦ buf | some t' ↦ copy_at buf 8 (take 12 t') ]) ≡ length buf
      same none = refl
      same (some t) = length-copy_at buf 8 (take 12 t)

  abbrev software : List ℕ
  software =
      be16 0x8022 ++ (be16 9 ++ b'c' ∷ b'a' ∷ b'm' ∷ b's' ∷ b't' ∷ b'r' ∷ b'e' ∷ b'a' ∷ b'm' ∷ [])

  abbrev coded : List ℕ
  coded = be16 0x0009 ++ (be16 8 ++ 0 ∷ error_code / 100 % 2 ^ 8 ∷ be16 (error_code % 100))

  abbrev begun : List ℕ
  begun =
      copy_at (copy_at (copy_at out 0 (replicate 44 0)) 0 (0x01 ∷ 0x11 ∷ [])) 4
        (0x21 ∷ 0x12 ∷ 0xA4 ∷ 0x42 ∷ [])

  -- The buffer that an accepted call leaves.
  written : List ℕ
  written = copy_at (copy_at (copy_at (named begun) 20 software) 36 coded) 2 (be16 28)

  accepted :
      (out' : List ℕ) (n : ℕ)
      → build_error_response tid error_code out out_capacity ≡ some (out', n)
      → (44 ≤ out_capacity) × (n ≡ 48) × (out' ≡ written)
  unfolding build_error_response written
  accepted out' n e = elim (Bool-cases (ltb out_capacity 44)) [
    | inl small ↦ absurd (no_result (rw small at e))
    | inr fits ↦
        let same = some-injective _ _ (rw fits at e) in
        (omega tests, ap (λ p. p.1) (sym same), ap (λ p. p.0) (sym same))
  ]
    where
      no_result : {r : List ℕ × ℕ} → none ≡ some r → ⊥
      no_result h = ground arith

  -- A capacity of 44 bytes or more is accepted. The length that is reported is 48 all the same, and the
  -- last four of these bytes are as they were: they are sent with whatever the buffer held.
  pub build_error_response_tail :
      44 ≤ out_capacity
      → (out' : List ℕ) × (build_error_response tid error_code out out_capacity ≡ some (out', 48))
        × (slice 44 4 out' ≡ slice 44 4 out)
  unfolding build_error_response written
  build_error_response_tail room =
      let fits : ltb out_capacity 44 ≡ false = ground (arith, room) in
      (written, rw fits refl, ap (take 4) untouched)
    where
      untouched : drop 44 written ≡ drop 44 out
      untouched =
          drop-copy_at_above (copy_at (copy_at (named begun) 20 software) 36 coded) 2 (be16 28) 44
            (omega arith)
          ∙ drop-copy_at_above (copy_at (named begun) 20 software) 36 coded 44 (omega arith)
          ∙ drop-copy_at_above (named begun) 20 software 44 (omega arith)
          ∙ named_above 44 begun (omega arith)
          ∙ drop-copy_at_above (copy_at (copy_at out 0 (replicate 44 0)) 0 (0x01 ∷ 0x11 ∷ [])) 4
              (0x21 ∷ 0x12 ∷ 0xA4 ∷ 0x42 ∷ []) 44 (omega arith)
          ∙ drop-copy_at_above (copy_at out 0 (replicate 44 0)) 0 (0x01 ∷ 0x11 ∷ []) 44
              (omega arith)
          ∙ drop-copy_at_above out 0 (replicate 44 0) 44 (omega arith)

  -- A receiver that follows the RFC reads another error than the one meant: the hundreds were
  -- stored one byte too early, so that it reads only what is left of the code below a hundred.
  pub build_error_response_code :
      (out' : List ℕ) (n : ℕ)
      → 44 ≤ length out
      → build_error_response tid error_code out out_capacity ≡ some (out', n)
      → error_number (slice 40 4 out') ≡ error_code % 100
  unfolding written
  build_error_response_code out' n long e =
      let (room, length_lem, buffer) = accepted out' n e in rw buffer (ap error_number value ∙ read)
    where
      before : List ℕ
      before = copy_at (named begun) 20 software

      length-before : length before ≡ length out
      length-before =
          length-copy_at (named begun) 20 software
          ∙ length-named begun
          ∙ length-copy_at (copy_at (copy_at out 0 (replicate 44 0)) 0 (0x01 ∷ 0x11 ∷ [])) 4
              (0x21 ∷ 0x12 ∷ 0xA4 ∷ 0x42 ∷ [])
          ∙ length-copy_at (copy_at out 0 (replicate 44 0)) 0 (0x01 ∷ 0x11 ∷ [])
          ∙ length-copy_at out 0 (replicate 44 0)

      value : slice 40 4 written ≡ 0 ∷ error_code / 100 % 2 ^ 8 ∷ be16 (error_code % 100)
      value =
          slice-copy_at_above (copy_at before 36 coded) 2 (be16 28) 40 4 (omega arith)
          ∙ slice-slice 36 8 4 4 40 (copy_at before 36 coded) refl (omega arith)
          ∙ ap (slice 4 4) (slice-copy_at before 36 coded (omega (arith, length-before)))

      read :
          error_number (0 ∷ error_code / 100 % 2 ^ 8 ∷ be16 (error_code % 100)) ≡ error_code % 100
      read = omega arith
