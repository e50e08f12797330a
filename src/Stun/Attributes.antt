-- ===== src/Stun/Attributes.antt =====
-- stun_find_attribute() finds the first attribute of the wanted type in a message that is laid out
-- as RFC 5389 says.
use cam.Base.{
  ℕ, zero, suc, ◌+◌, ◌^◌, ◌<◌, ◌≡◌, refl, ap, sym, ◌∙◌, inl, inr, true, false, Option, some, none,
  List, [], ◌∷◌, ◌++◌, append_assoc, arith, ltb, leb, ◌==◌, Bool-cases, if◌then◌else◌, length,
  length-append, All,
}
use cam.Base.Bytes.{be16, be16_value, read_be16_here}
use cam.Stun.{header_size, padded, find_loop, find_attribute}

-- An attribute: its type, its value and the padding to whole words.
pub record Attribute : Type 0 where
  pub kind : ℕ
  pub value : List ℕ
  pub padding : List ℕ

abbrev pub attribute_bytes : Attribute → List ℕ
attribute_bytes a = be16 a.kind ++ (be16 (length a.value) ++ (a.value ++ a.padding))

abbrev pub attributes_bytes : List Attribute → List ℕ
attributes_bytes [] = []
attributes_bytes (a ∷ as_) = attribute_bytes a ++ attributes_bytes as_

abbrev pub FitsAttribute : Attribute → Type 0
FitsAttribute a =
    (a.kind < 2 ^ 16)
    × (length a.value < 2 ^ 16)
    × (length a.value + length a.padding ≡ padded (length a.value))

-- Where the first attribute of the wanted type has its value, if the list begins at `offset`.
abbrev pub first_of_kind : ℕ → ℕ → List Attribute → Option (ℕ × ℕ)
first_of_kind wanted offset [] = none
first_of_kind wanted offset (a ∷ as_) =
    if a.kind == wanted
    then some (offset + 4, length a.value)
    else first_of_kind wanted (offset + (4 + padded (length a.value))) as_

length-attribute_bytes :
    (a : Attribute) → FitsAttribute a → length (attribute_bytes a) ≡ 4 + padded (length a.value)
length-attribute_bytes a f = omega (arith, length-append a.value a.padding, f.2)

find_loop_lem :
    (as_ : List Attribute) (n : ℕ) (buf pre rest : List ℕ) (wanted end offset : ℕ)
    → buf ≡ pre ++ (attributes_bytes as_ ++ rest)
    → offset ≡ length pre
    → end ≡ offset + length (attributes_bytes as_)
    → length (attributes_bytes as_) < n
    → All FitsAttribute as_
    → find_loop n buf wanted end offset ≡ some (first_of_kind wanted offset as_)
unfolding find_loop
find_loop_lem as_ zero buf pre rest wanted end offset eb eo ee h f = absurd (omega arith)
find_loop_lem [] (suc n) buf pre rest wanted end offset eb eo ee h f = ground arith
find_loop_lem (a ∷ as_) (suc n) buf pre rest wanted end offset eb eo ee h f =
    let size = length-attribute_bytes a f.0 in
    let total = length-append (attribute_bytes a) (attributes_bytes as_) in
    let more : leb (offset + 4) end ≡ true = ground (arith, size, total) in
    let seen = attributes_bytes (a ∷ as_) ++ rest in
    let kind =
      read_be16_here buf pre seen offset 0 a.kind eb (omega arith)
        (ap some (be16_value a.kind f.0.0)) in
    let len =
      read_be16_here buf pre seen (offset + 2) 2 (length a.value) eb (omega arith)
        (ap some (be16_value (length a.value) f.0.1)) in
    let whole : ltb end (offset + 4 + length a.value) ≡ false = ground (arith, size, total) in
    elim (Bool-cases (a.kind == wanted)) [
      | inl hit ↦ rw (more, kind, len, whole, hit)
      | inr miss ↦
          rw (more, kind, len, whole, miss)
            (find_loop_lem as_ n buf (pre ++ attribute_bytes a) rest wanted end
              (offset + (4 + padded (length a.value)))
              (eb
                ∙ ap (◌++◌ pre) (append_assoc (attribute_bytes a) (attributes_bytes as_) rest)
                ∙ sym (append_assoc pre (attribute_bytes a) (attributes_bytes as_ ++ rest)))
              (omega (arith, size, length-append pre (attribute_bytes a)))
              (omega (arith, size, total)) (omega (arith, size, total)) f.1)
    ]

-- The first 20 bytes of a message: two of its type, two of the length of what follows, and 16 more.
abbrev pub message_header : ℕ → ℕ → List Attribute → List ℕ → List ℕ
message_header h h' as_ tail = h ∷ h' ∷ (be16 (length (attributes_bytes as_)) ++ tail)

-- In a message of a header of 20 bytes with the length of its attributes in the second word, the
-- attributes, and whatever follows them, the walk finds the first attribute of the wanted type,
-- and nothing if there is none.
pub find_attribute_lem :
    (h h' : ℕ) (tail rest : List ℕ) (as_ : List Attribute) (wanted : ℕ)
    → length tail ≡ 16
    → length (attributes_bytes as_) < 2 ^ 16
    → All FitsAttribute as_
    → find_attribute (message_header h h' as_ tail ++ (attributes_bytes as_ ++ rest)) wanted
      ≡ some (first_of_kind wanted header_size as_)
unfolding find_attribute
find_attribute_lem h h' tail rest as_ wanted eh small f =
    let size = length-append tail (attributes_bytes as_ ++ rest) in
    let size' = length-append (attributes_bytes as_) rest in
    let header = message_header h h' as_ tail in
    let buf = header ++ (attributes_bytes as_ ++ rest) in
    let long : ltb (length buf) header_size ≡ false = ground (arith, size) in
    let len = be16_value (length (attributes_bytes as_)) small in
    let fits : ltb (length buf) (length (attributes_bytes as_) + header_size) ≡ false =
      ground (arith, size, size') in
    rw (long, len, fits)
      (find_loop_lem as_ (length buf) buf header rest wanted
        (header_size + length (attributes_bytes as_)) header_size refl (omega arith) refl
        (omega (arith, size, size')) f)
