-- ===== src/Mdns/Bounds.antt =====
-- dns_read_name() ends on every packet, in bounds, whatever its pointers are.
use cam.Base.{
  ℕ, zero, suc, ◌+◌, ◌*◌, ◌/◌, ◌%◌, ◌≤◌, ◌<◌, ◌≡◌, refl, ◌||◌, not, Option, none, some, List, [],
  ◌∷◌, ◌++◌, arith, ltb, leb, ◌==◌, if_elim, if◌then◌else◌, Bool-cases, inl, inr, length,
  length-append, length-take, length-drop, drop, get_elem?-in_range,
}
use cam.Base.Memory.{slice}
use cam.Base.Bytes.{bytes_at-in_range}
use cam.Mdns.{Round, stops, goes, follow_pointer, take_label, read_round, read_loop, read_name}

-- A position behind a name that was read.
abbrev IsInside : List ℕ → Option ℕ → Type 0
IsInside packet none = Unit
IsInside packet (some k) = k ≤ length packet

-- A name that fits the buffer with its zero byte, and a position inside of the packet or at its end.
abbrev pub IsRead : List ℕ → ℕ → Option (List ℕ × ℕ) → Type 0
IsRead packet out_size none = Unit
IsRead packet out_size (some (name, next)) = (length name + 1 ≤ out_size) × (next ≤ length packet)

-- A round from `size`, the jumps and characters so far: it stays in bounds and goes on to more.
IsRound : List ℕ → ℕ → ℕ → Round → Type 0
IsRound packet out_size size (stops result) = IsRead packet out_size result
IsRound packet out_size size (goes position jumps next out) =
    (length out + 1 ≤ out_size) × (jumps ≤ 8) × IsInside packet next × (size < jumps + length out)

-- A round with a result.
abbrev Rounds : List ℕ → ℕ → ℕ → Option Round → Type 0
Rounds packet out_size size o = (r : Round) × (o ≡ some r) × IsRound packet out_size size r

follow_pointer-Rounds :
    (packet : List ℕ) (out_size label_length position jumps : ℕ) (next : Option ℕ) (out : List ℕ)
    → length out + 1 ≤ out_size
    → IsInside packet next
    → Rounds packet out_size
        (jumps + length out)
        (follow_pointer packet label_length position jumps next out)
unfolding follow_pointer IsRound
follow_pointer-Rounds packet out_size label_length position jumps next out fits inside =
    elim (Bool-cases (leb (length packet) (position + 1) || ltb 8 (jumps + 1))) [
      | inl over ↦ rw over (stops none, refl, tt)
      | inr more ↦
          let (low, e) = get_elem?-in_range packet (position + 1) (ground (arith, more)) in
          rw (more, e)
            (elim (Bool-cases (leb (length packet) (label_length % 64 * 256 + low))) [
              | inl far ↦ rw far (stops none, refl, tt)
              | inr near ↦ rw near (
                _,
                refl,
                (
                  fits,
                  ground (arith, more),
                  behind next inside (ground (arith, more)),
                  omega arith,
                ),
              )
            ])
    ]
  where
    behind :
        (k : Option ℕ)
        → IsInside packet k
        → position + 1 < length packet
        → (elim k [ none ↦ position + 2 | some behind ↦ behind ]) ≤ length packet
    behind none i h = omega arith
    behind (some k) i h = i

length-slice : (off n : ℕ) (xs : List ℕ) → off + n ≤ length xs → length (slice off n xs) ≡ n
length-slice off n xs h = omega (arith, length-take n (drop off xs), length-drop off xs)

take_label-Rounds :
    (packet : List ℕ) (out_size label_length position jumps : ℕ) (next : Option ℕ) (out : List ℕ)
    → 0 < label_length
    → jumps ≤ 8
    → IsInside packet next
    → Rounds packet out_size
        (jumps + length out)
        (take_label packet out_size label_length position jumps next out)
unfolding take_label IsRound
take_label-Rounds packet out_size label_length position jumps next out some_bytes few inside =
    if_elim (Rounds packet out_size (jumps + length out))
      (not (label_length / 64 % 4 == 0)
        || (ltb 63 label_length || ltb (length packet) (position + 1 + label_length)))
      (λ bad. (stops none, refl, tt))
      (λ good.
        if_elim (Rounds packet out_size (jumps + length out))
          (ltb out_size (length out + length dot + label_length + 1))
          (λ full. (stops none, refl, tt))
          (λ room.
            let part = slice (position + 1) label_length packet in
            let size : length (out ++ (dot ++ part)) ≡ length out + (length dot + label_length) =
              omega (
                arith,
                length-append out (dot ++ part),
                length-append dot part,
                length-slice (position + 1) label_length packet (ground (arith, good)),
              ) in
            let there : position + 1 + label_length ≤ length packet = ground (arith, good) in
            (
              goes (position + 1 + label_length) jumps next (out ++ (dot ++ part)),
              rw (bytes_at-in_range (position + 1) label_length packet there) refl,
              (ground (arith, size, room), few, inside, omega (arith, size)),
            )))
  where
    dot : List ℕ
    dot = if ltb 0 (length out) then b'.' ∷ [] else []

read_round-Rounds :
    (packet : List ℕ) (out_size position jumps : ℕ) (next : Option ℕ) (out : List ℕ)
    → length out + 1 ≤ out_size
    → jumps ≤ 8
    → IsInside packet next
    → Rounds packet out_size
        (jumps + length out)
        (read_round packet out_size position jumps next out)
unfolding read_round IsRound
read_round-Rounds packet out_size position jumps next out fits few inside =
    elim (Bool-cases (leb (length packet) position)) [
      | inl over ↦ rw over (stops none, refl, tt)
      | inr on ↦
          let (label_length, e) = get_elem?-in_range packet position (ground (arith, on)) in
          elim (Bool-cases (label_length == 0)) [
            | inl last ↦ rw (on, e, last) (_, refl, (fits, behind next inside (ground (arith, on))))
            | inr more ↦ elim (Bool-cases (label_length / 64 % 4 == 3)) [
              | inl pointer ↦
                  rw (on, e, more, pointer)
                    (follow_pointer-Rounds packet out_size label_length position jumps next out fits
                      inside)
              | inr label ↦
                  rw (on, e, more, label)
                    (take_label-Rounds packet out_size label_length position jumps next out
                      (ground (arith, more)) few inside)
            ]
          ]
    ]
  where
    behind :
        (k : Option ℕ)
        → IsInside packet k
        → position < length packet
        → (elim k [ none ↦ position + 1 | some behind ↦ behind ]) ≤ length packet
    behind none i h = omega arith
    behind (some k) i h = i

read_loop-IsRead :
    (n : ℕ) (packet : List ℕ) (out_size position jumps : ℕ) (next : Option ℕ) (out : List ℕ)
    → length out + 1 ≤ out_size
    → jumps ≤ 8
    → IsInside packet next
    → out_size + 8 ≤ jumps + length out + n
    → (r : Option (List ℕ × ℕ)) × (read_loop n packet out_size position jumps next out ≡ some r)
      × IsRead packet out_size r
unfolding read_loop IsRound
read_loop-IsRead zero packet out_size position jumps next out fits few inside fuel =
    absurd (omega arith)
read_loop-IsRead (suc n) packet out_size position jumps next out fits few inside fuel =
    let (round, e, ok) =
      read_round-Rounds packet out_size position jumps next out fits few inside in
    rw e (
      after round ok (λ p j nx o f w i more.
        read_loop-IsRead n packet out_size p j nx o f w i (omega (arith, fuel, more))))
  where
    after :
        (round : Round)
        → IsRound packet out_size (jumps + length out) round
        → ((p j : ℕ) (nx : Option ℕ) (o : List ℕ)
            → length o + 1 ≤ out_size
            → j ≤ 8
            → IsInside packet nx
            → jumps + length out < j + length o
            → (r : Option (List ℕ × ℕ)) × (read_loop n packet out_size p j nx o ≡ some r)
              × IsRead packet out_size r)
        → (r : Option (List ℕ × ℕ)) × ((elim round [
          | stops result ↦ some result
          | goes position' jumps' next' out' ↦
              read_loop n packet out_size position' jumps' next' out'
        ])
            ≡ some r)
          × IsRead packet out_size r
    after (stops result) ok again = (result, refl, ok)
    after (goes p j nx o) (f, w, i, more) again = again p j nx o f w i more

-- On every packet, from every offset, dns_read_name() ends after `out_size` + 9 rounds at most,
-- whatever loops its pointers make, and no byte that it reads or copies is outside of the packet. A name that it gives fits
-- the buffer of `out_size` bytes with its zero byte, and the position behind it is not past the end of
-- the packet.
pub read_name_total :
    (packet : List ℕ) (offset out_size : ℕ)
    → 0 < out_size
    → (r : Option (List ℕ × ℕ)) × (read_name packet offset out_size ≡ some r)
      × IsRead packet out_size r
unfolding read_name
read_name_total packet offset out_size h =
    read_loop-IsRead (out_size + 9) packet out_size offset 0 none [] (omega arith) (omega arith) tt
      (omega arith)
