-- ===== src/Stun/Walk.antt =====
-- stun_find_attribute() ends, and neither it nor what its callers do with the value that it finds
-- reads outside of the message, on every input.
use cam.Base.{
  ℕ, zero, suc, ◌+◌, ◌*◌, ◌≤◌, ◌≡◌, ◌⊎◌, refl, inl, inr, Option, some, none, List, arith, tests,
  ltb, leb, ◌==◌, Bool-cases, length,
}
use cam.Base.Bytes.{read_be16-in_range}
use cam.Stun.{header_size, padded, find_loop, find_attribute}

-- The walk has a result, and a value that it finds lies behind the header and before `end`.
abbrev pub FoundBelow : ℕ → Option (Option (ℕ × ℕ)) → Type 0
FoundBelow end r =
    (r ≡ some none)
    ⊎ ((at n : ℕ) × (r ≡ some (some (at, n))) × (header_size + 4 ≤ at) × (at + n ≤ end))

find_loop-FoundBelow :
    (n : ℕ) (buf : List ℕ) (wanted end offset : ℕ)
    → end ≤ length buf
    → header_size ≤ offset
    → offset ≤ end + 3
    → end + 4 ≤ offset + 4 * n
    → FoundBelow end (find_loop n buf wanted end offset)
unfolding find_loop
find_loop-FoundBelow zero buf wanted end offset he ho hi hn = absurd (omega arith)
find_loop-FoundBelow (suc n) buf wanted end offset he ho hi hn =
    elim (Bool-cases (leb (offset + 4) end)) [
      | inr over ↦ rw over (inl refl)
      | inl more ↦
          let (type, et) = read_be16-in_range buf offset (omega tests) in
          let (attr_len, el) = read_be16-in_range buf (offset + 2) (omega tests) in
          elim (Bool-cases (ltb end (offset + 4 + attr_len))) [
            | inl cut_off ↦ rw (more, et, el, cut_off) (inl refl)
            | inr whole ↦ elim (Bool-cases (type == wanted)) [
              | inl hit ↦
                  rw (more, et, el, whole, hit)
                    (inr (offset + 4, attr_len, refl, omega arith, omega tests))
              | inr miss ↦
                  rw (more, et, el, whole, miss)
                    (find_loop-FoundBelow n buf wanted end (offset + (4 + padded attr_len)) he
                      (omega arith) (omega tests) (omega arith))
            ]
          ]
    ]

widen :
    (end end' : ℕ)
    → end ≤ end'
    → (r : Option (Option (ℕ × ℕ))) → FoundBelow end r
    → FoundBelow end' r
widen end end' h r (inl e) = inl e
widen end end' h r (inr (at, n, e, lo, hi)) = inr (at, n, e, lo, omega arith)

-- On every message the walk ends without a read outside of the buffer. It finds nothing, or a value
-- that lies behind the header and wholly inside the buffer.
pub find_attribute-FoundBelow :
    (buf : List ℕ) (wanted : ℕ) → FoundBelow (length buf) (find_attribute buf wanted)
unfolding find_attribute
find_attribute-FoundBelow buf wanted = elim (Bool-cases (ltb (length buf) header_size)) [
  | inl short ↦ rw short (inl refl)
  | inr long ↦
      let (message_len, em) = read_be16-in_range buf 2 (omega tests) in
      elim (Bool-cases (ltb (length buf) (message_len + header_size))) [
        | inl lie ↦ rw (long, em, lie) (inl refl)
        | inr fits ↦
            rw (long, em, fits)
              (widen (header_size + message_len) (length buf) (omega tests) _ (
                find_loop-FoundBelow (length buf) buf wanted (header_size + message_len) header_size
                  (omega tests) (omega arith) (omega arith) (omega tests)))
      ]
]
