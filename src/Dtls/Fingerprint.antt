-- ===== src/Dtls/Fingerprint.antt =====
-- The fingerprint of the offer: which digests fingerprint_hex_equal() takes for it.
use cam.Base.{
  ℕ, zero, suc, ◌+◌, ◌-◌, ◌*◌, ◌/◌, ◌%◌, ◌≤◌, ◌<◌, ◌≡◌, ◌≢◌, ◌↔◌, refl, ap, ap₂, sym, ◌∙◌, Bool,
  true, false, some, List, [], ◌∷◌, ◌++◌, arith, ltb, if◌then◌else◌, Bool-cases, inl, inr, length,
  All,
}
use cam.Stun.{same_bytes}
use cam.Stun.Username.{same_bytes_refl, eq_of_same_bytes}
use mathlib.Core.Option.{some-injective}
use cam.Dtls.{Libraries, normalize, hex_digit, hex_text, without_algorithm, fingerprint_hex_equal}

-- A digit as an offer writes it, in lower or upper case.
abbrev pub written : Bool → ℕ → ℕ
written lower n = if ltb n 10 then b'0' + n else (if lower then b'a' else b'A') + (n - 10)

-- The bytes of a digest behind the first, each after a colon.
abbrev pub further : Bool → List ℕ → List ℕ
further lower [] = []
further lower (b ∷ bs) = b':' ∷ written lower (b / 16) ∷ written lower (b % 16) ∷ further lower bs

-- The digest as RFC 8122 writes it.
abbrev pub colon_text : Bool → List ℕ → List ℕ
colon_text lower [] = []
colon_text lower (b ∷ bs) = written lower (b / 16) ∷ written lower (b % 16) ∷ further lower bs

abbrev pub AreBytes : List ℕ → Type 0
AreBytes = All (λ b. b < 256)

abbrev pub NoSpace : List ℕ → Type 0
NoSpace = All (λ c. c ≢ b' ')

-- A digit takes one place, in upper case.
normalize-digit :
    (n : ℕ) (lower : Bool) (k : ℕ) (rest : List ℕ)
    → k < 16
    → normalize (suc n) (written lower k ∷ rest) ≡ hex_digit k ∷ normalize n rest
unfolding normalize hex_digit
normalize-digit n true k rest h = elim (Bool-cases (ltb k 10)) [
  | inl decimal ↦ ground (arith, decimal, h)
  | inr letter ↦ ground (arith, letter, h)
]
normalize-digit n false k rest h = elim (Bool-cases (ltb k 10)) [
  | inl decimal ↦ ground (arith, decimal, h)
  | inr letter ↦ ground (arith, letter, h)
]

normalize-further :
    (n : ℕ) (lower : Bool) (md : List ℕ)
    → AreBytes md
    → 2 * length md ≤ n
    → normalize n (further lower md) ≡ hex_text md
unfolding normalize hex_text
normalize-further zero lower [] bytes h = refl
normalize-further (suc n) lower [] bytes h = refl
normalize-further zero lower (b ∷ md) bytes h = absurd (omega arith)
normalize-further (suc zero) lower (b ∷ md) bytes h = absurd (omega arith)
normalize-further (suc (suc n)) lower (b ∷ md) bytes h =
    normalize-digit (suc n) lower (b / 16) (written lower (b % 16) ∷ further lower md)
      (omega (arith, bytes.0))
    ∙ ap (◌∷◌ (hex_digit (b / 16))) (
        normalize-digit n lower (b % 16) (further lower md) (omega arith)
        ∙ ap (◌∷◌ (hex_digit (b % 16))) (normalize-further n lower md bytes.1 (omega (arith, h))))

normalize-colon_text :
    (n : ℕ) (lower : Bool) (md : List ℕ)
    → AreBytes md
    → 2 * length md ≤ n
    → normalize n (colon_text lower md) ≡ hex_text md
unfolding normalize hex_text
normalize-colon_text zero lower [] bytes h = refl
normalize-colon_text (suc n) lower [] bytes h = refl
normalize-colon_text zero lower (b ∷ md) bytes h = absurd (omega arith)
normalize-colon_text (suc n) lower (b ∷ md) bytes h =
    normalize-further (suc n) lower (b ∷ md) bytes h

without_algorithm_lem :
    (whole algorithm text : List ℕ)
    → NoSpace algorithm
    → without_algorithm whole (algorithm ++ b' ' ∷ text) ≡ text
unfolding without_algorithm
without_algorithm_lem whole [] text h = refl
without_algorithm_lem whole (c ∷ cs) text h =
    ground (arith, h.0, without_algorithm_lem whole cs text h.1)

hex_digit_injective : (m n : ℕ) → m < 16 → n < 16 → hex_digit m ≡ hex_digit n → m ≡ n
unfolding hex_digit
hex_digit_injective m n hm hn e = elim (Bool-cases (ltb m 10)) [
  | inl small ↦ ground (arith, small, hm, hn, e)
  | inr large ↦ ground (arith, large, hm, hn, e)
]

hex_text_injective :
    (xs ys : List ℕ) → AreBytes xs → AreBytes ys → hex_text xs ≡ hex_text ys → xs ≡ ys
unfolding hex_text
hex_text_injective [] [] hx hy e = refl
hex_text_injective [] (y ∷ ys) hx hy e = absurd (ground arith)
hex_text_injective (x ∷ xs) [] hx hy e = absurd (ground arith)
hex_text_injective (x ∷ xs) (y ∷ ys) hx hy e =
    let high : x / 16 ≡ y / 16 =
      hex_digit_injective _ _ (omega (arith, hx.0)) (omega (arith, hy.0)) (cc e) in
    let low : x % 16 ≡ y % 16 = hex_digit_injective _ _ (omega arith) (omega arith) (cc e) in
    let same : x ≡ y = omega (arith, high, low) in
    ap₂ ◌∷◌ same (hex_text_injective xs ys hx.1 hy.1 (cc e))

length-hex_text : (md : List ℕ) → length (hex_text md) ≡ 2 * length md
unfolding hex_text
length-hex_text [] = refl
length-hex_text (b ∷ md) = omega (arith, length-hex_text md)

-- The digest of a certificate is compared without an overrun.
digest_compared :
    (L : Libraries) (s : L.Ssl) (text md : List ℕ)
    → L.peer_digest s ≡ some (some md)
    → fingerprint_hex_equal text md
      ≡ some (same_bytes (normalize 127 (without_algorithm text text)) (hex_text md))
unfolding fingerprint_hex_equal
digest_compared L s text md e =
    let fits : ltb 103 (length (hex_text md)) ≡ false =
      ground (arith, length-hex_text md, L.length-peer_digest s md e) in
    rw fits refl

-- A fingerprint as RFC 8122 writes it, in either case, of at most 63 bytes behind an algorithm
-- without a space, is taken for exactly the digest that it shows, among those of at most 51 bytes.
pub fingerprint_iff :
    (algorithm : List ℕ) (lower : Bool) (shown md : List ℕ)
    → NoSpace algorithm
    → AreBytes shown
    → AreBytes md
    → length shown ≤ 63
    → length md ≤ 51
    → (fingerprint_hex_equal (algorithm ++ b' ' ∷ colon_text lower shown) md ≡ some true)
      ↔ (md ≡ shown)
unfolding fingerprint_hex_equal
fingerprint_iff algorithm lower shown md plain hs hm fits small =
    let text = algorithm ++ b' ' ∷ colon_text lower shown in
    let e : normalize 127 (without_algorithm text text) ≡ hex_text shown =
      ap (normalize 127) (without_algorithm_lem text algorithm _ plain)
      ∙ normalize-colon_text 127 lower shown hs (omega (arith, fits)) in
    let room : ltb 103 (length (hex_text md)) ≡ false = ground (arith, length-hex_text md, small) in
    (
      (λ h.
          hex_text_injective md shown hm hs
            (sym (sym e ∙ eq_of_same_bytes _ _ (some-injective _ _ (rw room at h))))),
      (λ same. rw (room, e, same) (ap some (same_bytes_refl (hex_text shown)))),
    )
