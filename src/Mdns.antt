-- ===== src/Mdns.antt =====
-- src/net/mdns.c: the names of DNS packets, with compression.
-- A packet is the list of its bytes, a name the list of its characters without the zero byte. A read
-- outside of the packet has no result.
pub mod Bounds
pub mod Labels
pub mod Records
pub mod Fits
mod Tests
use cam.Base.{
  ℕ, zero, suc, ◌+◌, ◌*◌, ◌/◌, ◌%◌, Bool, true, false, ◌||◌, not, Option, none, some, List, [], ◌∷◌,
  ◌++◌, ltb, leb, ◌==◌, if◌then◌else◌, ◌>>=◌, length, get_elem?,
}
use cam.Base.Bytes.{bytes_at}

-- The label before the first dot, and the text behind that dot, if there is one.
pub before_dot : List ℕ → List ℕ
before_dot [] = []
before_dot (c ∷ cs) = let rest = before_dot cs in if c == b'.' then [] else c ∷ rest

pub after_dot : List ℕ → Option (List ℕ)
after_dot [] = none
after_dot (c ∷ cs) = let rest = after_dot cs in if c == b'.' then some cs else rest

-- The zero byte at the end of a name, if it fits.
pub end_name : ℕ → ℕ → Option (List ℕ)
end_name capacity offset = if ltb capacity (offset + 1) then none else some (0 ∷ [])

-- The loop of dns_write_name() over the labels, each of which ends before a dot of the text: `n` bounds them.
pub write_loop : ℕ → ℕ → ℕ → List ℕ → Option (List ℕ)
write_loop zero capacity offset text = none
write_loop (suc n) capacity offset [] = end_name capacity offset
write_loop (suc n) capacity offset (c ∷ cs) =
    let label = before_dot (c ∷ cs) in
    let offset' = offset + 1 + length label in
    let rest : Option (List ℕ) = elim (after_dot (c ∷ cs)) [
      | none ↦ end_name capacity offset'
      | some text ↦ write_loop n capacity offset' text
    ] in
    if length label == 0 || ltb 63 (length label)
    then none
    else if ltb capacity (offset + 1 + length label + 1)
    then none
    else rest >>= λ bytes. some (length label ∷ (label ++ bytes))

-- dns_write_name(): the bytes that it stores at `buffer + offset`, or `none` for the result -1, after
-- which some of them may be there.
pub write_name : ℕ → ℕ → List ℕ → Option (List ℕ)
write_name capacity offset name = write_loop (suc (length name)) capacity offset name

-- What a round of the loop of dns_read_name() comes to: the result, with the name and the position
-- behind it, or the next round. The position is `none` until a pointer was followed.
pub data Round : Type 0 where
  stops : Option (List ℕ × ℕ) → Round
  goes : ℕ → ℕ → Option ℕ → List ℕ → Round

-- The case of a compression pointer.
pub follow_pointer : List ℕ → ℕ → ℕ → ℕ → Option ℕ → List ℕ → Option Round
follow_pointer packet label_length position jumps next out =
    let jump = get_elem? packet (position + 1) >>= λ low.
    let pointer = label_length % 64 * 256 + low in
    let next' : ℕ = elim next [ none ↦ position + 2 | some behind ↦ behind ] in
    some (
      if leb (length packet) pointer
      then stops none
      else goes pointer (jumps + 1) (some next') out) in
    if leb (length packet) (position + 1) || ltb 8 (jumps + 1) then some (stops none) else jump

-- The case of a label.
pub take_label : List ℕ → ℕ → ℕ → ℕ → ℕ → Option ℕ → List ℕ → Option Round
take_label packet out_size label_length position jumps next out =
    let dot : List ℕ = if ltb 0 (length out) then b'.' ∷ [] else [] in
    if not (label_length / 64 % 4 == 0)
      || (ltb 63 label_length || ltb (length packet) (position + 1 + label_length))
    then some (stops none)
    else if ltb out_size (length out + length dot + label_length + 1)
    then some (stops none)
    else (bytes_at (position + 1) label_length packet >>= λ label.
        some (goes (position + 1 + label_length) jumps next (out ++ (dot ++ label))))

-- One round.
pub read_round : List ℕ → ℕ → ℕ → ℕ → Option ℕ → List ℕ → Option Round
read_round packet out_size position jumps next out =
    let behind : ℕ = elim next [ none ↦ position + 1 | some behind ↦ behind ] in
    let label = get_elem? packet position >>= λ label_length.
    let pointed = follow_pointer packet label_length position jumps next out in
    if label_length == 0
    then some (stops (some (out, behind)))
    else if label_length / 64 % 4 == 3
    then pointed
    else take_label packet out_size label_length position jumps next out in
    if leb (length packet) position then some (stops none) else label

-- The loop; `none` is fuel that ran out too.
pub read_loop : ℕ → List ℕ → ℕ → ℕ → ℕ → Option ℕ → List ℕ → Option (Option (List ℕ × ℕ))
read_loop zero packet out_size position jumps next out = none
read_loop (suc n) packet out_size position jumps next out =
    read_round packet out_size position jumps next out >>= λ round. elim round [
      | stops result ↦ some result
      | goes position' jumps' next' out' ↦ read_loop n packet out_size position' jumps' next' out'
    ]

-- dns_read_name(), for a buffer of one byte at least: the name and the position behind it, or the
-- inner `none` for the result -1. A round follows one of eight pointers or adds to the name.
pub read_name : List ℕ → ℕ → ℕ → Option (Option (List ℕ × ℕ))
read_name packet offset out_size = read_loop (out_size + 9) packet out_size offset 0 none []
