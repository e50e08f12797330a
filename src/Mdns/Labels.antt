-- ===== src/Mdns/Labels.antt =====
-- A name that dns_write_name() writes is the one that dns_read_name() reads back.
use cam.Base.{
  ℕ, zero, suc, ◌+◌, ◌/◌, ◌%◌, ◌≤◌, ◌<◌, ◌≡◌, ◌≢◌, refl, ap, ap₂, sym, ◌∙◌, true, false, ◌||◌, not,
  Option, none, some, List, [], ◌∷◌, ◌++◌, append_assoc, arith, ltb, leb, ◌==◌, if◌then◌else◌,
  ◌>>=◌, All, length, length-append, get_elem?, get_elem?-append, take, drop, take-of-length-append,
  drop-of-length-append,
}
use cam.Base.Memory.{slice}
use cam.Base.Bytes.{bytes_at, bytes_at-in_range}
use cam.Mdns.{
  before_dot, after_dot, end_name, write_loop, write_name, goes, take_label, read_round, read_loop,
  read_name,
}

-- A label as RFC 1035 has it, as far as the lengths go.
abbrev pub IsLabel : List ℕ → Type 0
IsLabel label = (0 < length label) × (length label ≤ 63) × All (λ c. c ≢ b'.') label

-- The dotted name.
abbrev pub dotted : List (List ℕ) → List ℕ
dotted [] = []
dotted (l ∷ []) = l
dotted (l ∷ m ∷ ls) = l ++ b'.' ∷ dotted (m ∷ ls)

-- Its labels behind their lengths.
abbrev encoded : List (List ℕ) → List ℕ
encoded [] = 0 ∷ []
encoded (l ∷ ls) = length l ∷ (l ++ encoded ls)

before_dot-All : (l : List ℕ) → All (λ c. c ≢ b'.') l → before_dot l ≡ l
unfolding before_dot
before_dot-All [] h = refl
before_dot-All (c ∷ cs) h = ground (arith, h.0, before_dot-All cs h.1)

after_dot-none : (l : List ℕ) → All (λ c. c ≢ b'.') l → after_dot l ≡ none
unfolding after_dot
after_dot-none [] h = refl
after_dot-none (c ∷ cs) h = ground (arith, h.0, after_dot-none cs h.1)

before_dot_lem : (l t : List ℕ) → All (λ c. c ≢ b'.') l → before_dot (l ++ b'.' ∷ t) ≡ l
unfolding before_dot
before_dot_lem [] t h = refl
before_dot_lem (c ∷ cs) t h = ground (arith, h.0, before_dot_lem cs t h.1)

after_dot_lem : (l t : List ℕ) → All (λ c. c ≢ b'.') l → after_dot (l ++ b'.' ∷ t) ≡ some t
unfolding after_dot
after_dot_lem [] t h = refl
after_dot_lem (c ∷ cs) t h = ground (arith, h.0, after_dot_lem cs t h.1)

-- A label and what follows it, in a round that has room for both.
write_round :
    (n capacity offset : ℕ) (l text bytes : List ℕ) (rest : Option (List ℕ))
    → IsLabel l
    → before_dot text ≡ l
    → after_dot text ≡ rest
    → (c : ℕ) (cs : List ℕ) → text ≡ c ∷ cs
    → offset + 1 + length l + 1 ≤ capacity
    → (elim rest [
      | none ↦ end_name capacity (offset + 1 + length l)
      | some next ↦ write_loop n capacity (offset + 1 + length l) next
    ])
      ≡ some bytes
    → write_loop (suc n) capacity offset text ≡ some (length l ∷ (l ++ bytes))
unfolding write_loop
write_round n capacity offset l text bytes rest (some_chars, few, plain) eb ea c cs et room e =
    let fit : (length l == 0 || ltb 63 (length l)) ≡ false = ground (arith, some_chars, few) in
    let space : ltb capacity (offset + 1 + length l + 1) ≡ false = ground (arith, room) in
    ap (write_loop (suc n) capacity offset) et
    ∙ (ap₂ round (ap before_dot (sym et) ∙ eb) (ap after_dot (sym et) ∙ ea)
        ∙ rw (fit, space, e) refl)
  where
    round : List ℕ → Option (List ℕ) → Option (List ℕ)
    round label next =
        if length label == 0 || ltb 63 (length label)
        then none
        else if ltb capacity (offset + 1 + length label + 1)
        then none
        else (elim next [
          | none ↦ end_name capacity (offset + 1 + length label)
          | some text' ↦ write_loop n capacity (offset + 1 + length label) text'
        ])
          >>= λ bytes'. some (length label ∷ (label ++ bytes'))

write_loop_lem :
    (n capacity offset : ℕ) (ls : List (List ℕ))
    → All IsLabel ls
    → length (dotted ls) < n
    → offset + length (encoded ls) ≤ capacity
    → write_loop n capacity offset (dotted ls) ≡ some (encoded ls)
unfolding write_loop end_name
write_loop_lem zero capacity offset ls labels fuel room = absurd (omega arith)
write_loop_lem (suc n) capacity offset [] labels fuel room = ground (arith, room)
write_loop_lem (suc n) capacity offset ([] ∷ ls) labels fuel room =
    absurd (omega (arith, labels.0.0))
write_loop_lem (suc n) capacity offset ((c ∷ cs) ∷ []) labels fuel room =
    let size = length-append (c ∷ cs) (0 ∷ []) in
    let last : end_name capacity (offset + 1 + length (c ∷ cs)) ≡ some (0 ∷ []) =
      ground (arith, room, size) in
    write_round n capacity offset (c ∷ cs) (c ∷ cs) (0 ∷ []) none labels.0
      (before_dot-All (c ∷ cs) labels.0.2) (after_dot-none (c ∷ cs) labels.0.2) c cs refl
      (omega (arith, room, size)) last
write_loop_lem (suc n) capacity offset ((c ∷ cs) ∷ m ∷ ls) labels fuel room =
    let size = length-append (c ∷ cs) (encoded (m ∷ ls)) in
    let text = dotted (m ∷ ls) in
    write_round n capacity offset (c ∷ cs) ((c ∷ cs) ++ b'.' ∷ text) (encoded (m ∷ ls)) (some text)
      labels.0 (before_dot_lem (c ∷ cs) text labels.0.2) (after_dot_lem (c ∷ cs) text labels.0.2) c
      (cs ++ b'.' ∷ text) refl (omega (arith, room, size))
      (write_loop_lem n capacity (offset + 1 + length (c ∷ cs)) (m ∷ ls) labels.1
        (omega (arith, fuel, length-append (c ∷ cs) (b'.' ∷ text))) (omega (arith, room, size)))

length-encoded : (ls : List (List ℕ)) → length (encoded ls) ≤ length (dotted ls) + 2
length-encoded [] = omega arith
length-encoded (l ∷ []) = omega (arith, length-append l (0 ∷ []))
length-encoded (l ∷ m ∷ ls) = omega (
  arith,
  length-append l (encoded (m ∷ ls)),
  length-append l (b'.' ∷ dotted (m ∷ ls)),
  length-encoded (m ∷ ls),
)

-- The name so far with more labels.
abbrev extended : List ℕ → List (List ℕ) → List ℕ
extended out [] = out
extended out (l ∷ ls) = extended (out ++ ((if ltb 0 (length out) then b'.' ∷ [] else []) ++ l)) ls

length-extended :
    (out : List ℕ) (ls : List (List ℕ))
    → All IsLabel ls
    → length out + length ls ≤ length (extended out ls)
length-extended out [] h = omega arith
length-extended out (l ∷ ls) h =
    let dot : List ℕ = if ltb 0 (length out) then b'.' ∷ [] else [] in
    omega (
      arith,
      length-extended (out ++ (dot ++ l)) ls h.1,
      length-append out (dot ++ l),
      length-append dot l,
      h.0.0,
    )

extended_lem :
    (out l : List ℕ) (ls : List (List ℕ))
    → 0 < length out
    → All IsLabel (l ∷ ls)
    → extended out (l ∷ ls) ≡ out ++ b'.' ∷ dotted (l ∷ ls)
extended_lem out l [] h labels = let e : ltb 0 (length out) ≡ true = ground (arith, h) in rw e refl
extended_lem out l (m ∷ ls) h labels =
    let e : ltb 0 (length out) ≡ true = ground (arith, h) in
    rw e (
      extended_lem (out ++ (b'.' ∷ l)) m ls (omega (arith, length-append out (b'.' ∷ l))) labels.1
      ∙ append_assoc out (b'.' ∷ l) (b'.' ∷ dotted (m ∷ ls)))

-- A round of dns_read_name() at a label.
label_round :
    (packet l rest : List ℕ) (pre : List ℕ) (out_size : ℕ) (out : List ℕ)
    → packet ≡ pre ++ length l ∷ (l ++ rest)
    → IsLabel l
    → length (out ++ ((if ltb 0 (length out) then b'.' ∷ [] else []) ++ l)) + 1 ≤ out_size
    → read_round packet out_size (length pre) 0 none out
      ≡ some (
          goes
            (length pre + 1 + length l)
            0
            none
            (out ++ ((if ltb 0 (length out) then b'.' ∷ [] else []) ++ l)))
unfolding read_round take_label
label_round packet l rest pre out_size out ep (some_chars, few, plain) fits =
    rw (on, here, more, not_pointer, good, space, whole) refl
  where
    dot : List ℕ
    dot = if ltb 0 (length out) then b'.' ∷ [] else []

    total : length packet ≡ length pre + suc (length l + length rest)
    total =
        ap length ep
        ∙ omega (arith, length-append pre (length l ∷ (l ++ rest)), length-append l rest)

    on : leb (length packet) (length pre) ≡ false
    on = ground (arith, total)

    here : get_elem? packet (length pre) ≡ some (length l)
    here =
        ap (λ p. get_elem? p (length pre)) ep
        ∙ (ap (get_elem? (pre ++ length l ∷ (l ++ rest))) {y = length pre + 0} (omega arith)
            ∙ get_elem?-append pre (length l ∷ (l ++ rest)) 0)

    more : (length l == 0) ≡ false
    more = ground (arith, some_chars)

    not_pointer : (length l / 64 % 4 == 3) ≡ false
    not_pointer = ground (arith, few)

    good :
        (not (length l / 64 % 4 == 0)
          || (ltb 63 (length l) || ltb (length packet) (length pre + 1 + length l)))
        ≡ false
    good = ground (arith, few, total)

    space : ltb out_size (length out + length dot + length l + 1) ≡ false
    space = ground (arith, fits, length-append out (dot ++ l), length-append dot l)

    part : slice (length pre + 1) (length l) packet ≡ l
    part =
        ap (slice (length pre + 1) (length l))
          (ep ∙ sym (append_assoc pre (length l ∷ []) (l ++ rest)))
        ∙ (ap (λ k. take (length l) (drop k ((pre ++ length l ∷ []) ++ (l ++ rest))))
              {y = length (pre ++ length l ∷ [])} (omega (arith, length-append pre (length l ∷ [])))
            ∙ (ap (take (length l)) (drop-of-length-append (pre ++ length l ∷ []) (l ++ rest))
                ∙ take-of-length-append l rest))

    whole : bytes_at (length pre + 1) (length l) packet ≡ some l
    whole =
        bytes_at-in_range (length pre + 1) (length l) packet (omega (arith, total)) ∙ ap some part

read_loop_lem :
    (n : ℕ) (packet : List ℕ) (out_size : ℕ) (pre : List ℕ) (ls : List (List ℕ)) (post out : List ℕ)
    → packet ≡ pre ++ (encoded ls ++ post)
    → All IsLabel ls
    → length ls < n
    → length (extended out ls) + 1 ≤ out_size
    → read_loop n packet out_size (length pre) 0 none out
      ≡ some (some (extended out ls, length pre + length (encoded ls)))
unfolding read_loop read_round
read_loop_lem zero packet out_size pre ls post out ep labels fuel fits = absurd (omega arith)
read_loop_lem (suc n) packet out_size pre [] post out ep labels fuel fits = rw (on, here) refl
  where
    on : leb (length packet) (length pre) ≡ false
    on = let total = ap length ep ∙ length-append pre (0 ∷ post) in ground (arith, total)

    here : get_elem? packet (length pre) ≡ some 0
    here =
        ap (λ p. get_elem? p (length pre)) ep
        ∙ (ap (get_elem? (pre ++ 0 ∷ post)) {y = length pre + 0} (omega arith)
            ∙ get_elem?-append pre (0 ∷ post) 0)
read_loop_lem (suc n) packet out_size pre (l ∷ ls) post out ep labels fuel fits =
    let out' = out ++ ((if ltb 0 (length out) then b'.' ∷ [] else []) ++ l) in
    let ep' = ep ∙ ap (λ t. pre ++ length l ∷ t) (append_assoc l (encoded ls) post) in
    let round =
      label_round packet l (encoded ls ++ post) pre out_size out ep' labels.0
        (omega (arith, fits, length-extended out' ls labels.1)) in
    let size : length (pre ++ length l ∷ l) ≡ length pre + 1 + length l =
      omega (arith, length-append pre (length l ∷ l)) in
    let again =
      read_loop_lem n packet out_size (pre ++ length l ∷ l) ls post out'
        (ep' ∙ sym (append_assoc pre (length l ∷ l) (encoded ls ++ post))) labels.1
        (omega (arith, fuel)) fits in
    let step : read_loop (suc n) packet out_size (length pre) 0 none out
        ≡ read_loop n packet out_size (length pre + 1 + length l) 0 none out' =
      rw (read_loop, round) refl in
    step
    ∙ (ap (λ p. read_loop n packet out_size p 0 none out') (sym size)
        ∙ (again
            ∙ ap (λ k. some (some (extended out' ls, k)))
                {y = length pre + length (encoded (l ∷ ls))}
                (omega (arith, size, length-append l (encoded ls)))))

extended-dotted : (ls : List (List ℕ)) → All IsLabel ls → extended [] ls ≡ dotted ls
extended-dotted [] h = refl
extended-dotted (l ∷ []) h = refl
extended-dotted (l ∷ m ∷ ls) h = extended_lem l m ls h.0.0 h.1

-- Of labels of 1 to 63 characters without a dot, dns_write_name() writes the dotted name at an offset
-- that leaves room for it, and from a packet with those bytes at that offset, whatever is before and
-- behind them, dns_read_name() reads the same name and gives the position behind them, if the name
-- fits its buffer.
pub read_name-write_name :
    (ls : List (List ℕ)) (pre post : List ℕ) (capacity out_size : ℕ)
    → All IsLabel ls
    → length pre + (length (dotted ls) + 2) ≤ capacity
    → length (dotted ls) + 1 ≤ out_size
    → (bytes : List ℕ) × (write_name capacity (length pre) (dotted ls) ≡ some bytes)
      × (read_name (pre ++ (bytes ++ post)) (length pre) out_size
          ≡ some (some (dotted ls, length pre + length bytes)))
unfolding write_name read_name
read_name-write_name ls pre post capacity out_size labels room fits =
    let same = extended-dotted ls labels in
    let count = length-extended [] ls labels in
    (
      encoded ls,
      write_loop_lem (suc (length (dotted ls))) capacity (length pre) ls labels (omega arith)
          (omega (arith, room, length-encoded ls)),
      read_loop_lem (out_size + 9) (pre ++ (encoded ls ++ post)) out_size pre ls post [] refl labels
            (omega (arith, fits, count, ap length same)) (omega (arith, fits, ap length same))
          ∙ ap (λ name. some (some (name, length pre + length (encoded ls)))) same,
    )
