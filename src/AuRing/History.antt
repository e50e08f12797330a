-- ===== src/AuRing/History.antt =====
-- Histories of calls on a ring: nothing is lost uncounted, and nothing overtakes.
use cam.Base.{
  ℕ, suc, ◌+◌, ◌%◌, ◌^◌, ◌≤◌, ◌<◌, ◌≡◌, refl, ap, sym, subst, Bool, Bool-cases, inl, inr, true,
  false, Option, some, none, List, [], ◌∷◌, ◌++◌, arith, length, length-append, ltb, drop,
}
use native.Mathlib.Nat.{mod-eq_of_lt}
use cam.AuRing.{AuRing, AuMeta, EventFd, push, pop}
use cam.AuRing.Valid.{IsValid, push-IsValid, pop-IsValid}
use cam.AuRing.Refine.{view, length-view, push_refines, pop_refines, nothing}
use cam.AuRing.Valid.{sizes-push, sizes-pop}
use cam.AuRing.Spec
use cam.AuRing.Spec.{AccessUnit, Queue, Call, offer, take_next, delivered}

-- The nonempty access units among the calls.
abbrev pub offered : List Call → ℕ
offered [] = 0
offered (offer none pts_us is_idr ∷ cs) = offered cs
offered (offer (some []) pts_us is_idr ∷ cs) = offered cs
offered (offer (some (b ∷ bytes)) pts_us is_idr ∷ cs) = offered cs + 1
offered (take_next limit ∷ cs) = offered cs

-- The entries' sequence numbers rise from `lo` on and stay below `hi`.
abbrev pub Ascending : ℕ → List AccessUnit → ℕ → Type 0
Ascending lo [] hi = lo ≤ hi
Ascending lo ((m, bytes) ∷ rest) hi = (lo ≤ m.sequence) × Ascending (suc m.sequence) rest hi

-- What a queue holds or has dropped.
abbrev total : Queue → ℕ
total q = length q.items + q.dropped

make_room-total :
    (slots : ℕ) (q : Queue)
    → 0 < slots
    → total q + 1 < 2 ^ 64
    → total (Spec.make_room slots q) ≡ total q
unfolding Spec.make_room
make_room-total slots q p h = make_room_items q.items refl
  where
    make_room_items : (l : List AccessUnit) → q.items ≡ l → total (Spec.make_room slots q) ≡ total q
    make_room_items [] e = ground arith
    make_room_items (a ∷ l) e = ground arith

append-total :
    (q : Queue) (bytes : List ℕ) (pts_us is_idr : ℕ)
    → total (Spec.append q bytes pts_us is_idr) ≡ total q + 1
unfolding Spec.append
append-total q bytes pts_us is_idr = rw (length-append q.items) (omega arith)

push-total :
    (width slots : ℕ) (q : Queue) (b : ℕ) (bytes : List ℕ) (pts_us is_idr : ℕ)
    → 0 < slots
    → total q + 1 < 2 ^ 64
    → total (Spec.push width slots q (some (b ∷ bytes)) pts_us is_idr).1 ≡ total q + 1
unfolding Spec.push
push-total width slots q b bytes pts_us is_idr p h = ground (
  arith,
  make_room-total slots q p h,
  append-total (Spec.make_room slots q) (b ∷ bytes) pts_us is_idr,
)

pop_items-total :
    (items : List AccessUnit) (limit : ℕ) (gap : Bool) (q : Queue)
    → length items + q.dropped < 2 ^ 64
    → let (out, q') = Spec.pop_items items limit gap q in
      total q' + length (delivered out) ≡ length items + q.dropped
unfolding Spec.pop_items
pop_items-total [] limit gap q h = omega arith
pop_items-total ((m, bytes) ∷ rest) limit gap q h = ground (
  arith,
  pop_items-total rest limit true (record q { items = rest; dropped = (q.dropped + 1) % 2 ^ 64 }),
)

pop-total :
    (q : Queue) (limit : ℕ)
    → total q < 2 ^ 64
    → total (Spec.pop q limit).1 + length (delivered (Spec.pop q limit).0) ≡ total q
unfolding Spec.pop
pop-total q limit h = pop_items-total q.items limit false q h

-- Each nonempty access unit offered to a queue is delivered, counted as dropped, or still there.
run-total :
    (width slots : ℕ) (q : Queue) (cs : List Call)
    → 0 < slots
    → total q + offered cs < 2 ^ 64
    → let (outs, q') = Spec.run width slots q cs in length outs + total q' ≡ total q + offered cs
unfolding Spec.run Spec.push
run-total width slots q [] p h = omega arith
run-total width slots q (offer none pts_us is_idr ∷ cs) p h = run-total width slots q cs p h
run-total width slots q (offer (some []) pts_us is_idr ∷ cs) p h = run-total width slots q cs p h
run-total width slots q (offer (some (b ∷ bytes)) pts_us is_idr ∷ cs) p h =
    let step = push-total width slots q b bytes pts_us is_idr p (omega arith) in
    omega (
      arith,
      step,
      run-total width slots (Spec.push width slots q (some (b ∷ bytes)) pts_us is_idr).1 cs p
          (omega (arith, step)),
    )
run-total width slots q (take_next limit ∷ cs) p h =
    let step = pop-total q limit (omega arith) in
    omega (
      arith,
      step,
      run-total width slots (Spec.pop q limit).1 cs p (omega (arith, step)),
      length-append (delivered (Spec.pop q limit).0)
          (Spec.run width slots (Spec.pop q limit).1 cs).0,
    )

-- The queue's entries rise and stay below its sequence counter.
abbrev Risen : ℕ → Queue → Type 0
Risen lo q = Ascending lo q.items q.sequence

Ascending-le : (lo : ℕ) (l : List AccessUnit) (hi : ℕ) → Ascending lo l hi → lo ≤ hi
Ascending-le lo [] hi h = h
Ascending-le lo ((m, bytes) ∷ rest) hi h =
    omega (arith, Ascending-le (suc m.sequence) rest hi h.1, h.0)

Ascending-weaken :
    (lo' lo : ℕ) (l : List AccessUnit) (hi : ℕ) → lo' ≤ lo → Ascending lo l hi → Ascending lo' l hi
Ascending-weaken lo' lo [] hi le h = omega arith
Ascending-weaken lo' lo ((m, bytes) ∷ rest) hi le h = (omega (arith, h.0), h.1)

Ascending-drop_one :
    (lo : ℕ) (l : List AccessUnit) (hi : ℕ) → Ascending lo l hi → Ascending lo (drop 1 l) hi
Ascending-drop_one lo [] hi h = h
Ascending-drop_one lo ((m, bytes) ∷ rest) hi h =
    Ascending-weaken lo (suc m.sequence) rest hi (omega (arith, h.0)) h.1

Ascending-append :
    (lo : ℕ) (l : List AccessUnit) (hi : ℕ) (m : AuMeta) (bytes : List ℕ)
    → m.sequence ≡ hi
    → Ascending lo l hi
    → Ascending lo (l ++ (m, bytes) ∷ []) (hi + 1)
Ascending-append lo [] hi m bytes e h = (omega arith, omega arith)
Ascending-append lo ((n, c) ∷ rest) hi m bytes e h =
    (h.0, Ascending-append (suc n.sequence) rest hi m bytes e h.1)

make_room-Risen :
    (slots lo : ℕ) (q : Queue)
    → Risen lo q
    → Risen lo (Spec.make_room slots q) × ((Spec.make_room slots q).sequence ≡ q.sequence)
unfolding Spec.make_room
make_room-Risen slots lo q r = ground (arith, Ascending-drop_one lo q.items q.sequence r)

append-Risen :
    (lo : ℕ) (q : Queue) (bytes : List ℕ) (pts_us is_idr : ℕ)
    → q.sequence + 1 < 2 ^ 64
    → Risen lo q
    → Risen lo (Spec.append q bytes pts_us is_idr)
      × ((Spec.append q bytes pts_us is_idr).sequence ≡ q.sequence + 1)
unfolding Spec.append
append-Risen lo q bytes pts_us is_idr h r =
    rw (mod-eq_of_lt h) (Ascending-append lo q.items q.sequence _ bytes refl r, refl)

push-Risen :
    (width slots lo : ℕ) (q : Queue) (bytes : Option (List ℕ)) (pts_us is_idr : ℕ)
    → q.sequence + 1 < 2 ^ 64
    → Risen lo q
    → Risen lo (Spec.push width slots q bytes pts_us is_idr).1
      × ((Spec.push width slots q bytes pts_us is_idr).1.sequence ≤ q.sequence + 1)
unfolding Spec.push
push-Risen width slots lo q none pts_us is_idr h r = (r, omega arith)
push-Risen width slots lo q (some bytes) pts_us is_idr h r = ground (
  arith,
  make_room-Risen slots lo q r,
  append-Risen lo (Spec.make_room slots q) bytes pts_us is_idr,
)

pop_items-Risen :
    (items : List AccessUnit) (lo limit : ℕ) (gap : Bool) (q : Queue)
    → Ascending lo items q.sequence
    → let (out, q') = Spec.pop_items items limit gap q in
      (next : ℕ) × Ascending lo (delivered out) next × Risen next q' × (q'.sequence ≡ q.sequence)
unfolding Spec.pop_items
pop_items-Risen [] lo limit gap q r = (lo, omega arith, r, refl)
pop_items-Risen ((m, bytes) ∷ rest) lo limit gap q r = elim (Bool-cases (ltb limit m.size)) [
  | inl skip ↦ rw skip (
      pop_items-Risen rest lo limit true
        (record q { items = rest; dropped = (q.dropped + 1) % 2 ^ 64 })
        (Ascending-weaken lo (suc m.sequence) rest q.sequence (omega (arith, r.0)) r.1))
  | inr fits ↦ rw fits (suc m.sequence, (r.0, omega arith), r.1, refl)
]

pop-Risen :
    (lo limit : ℕ) (q : Queue)
    → Risen lo q
    → (next : ℕ) × Ascending lo (delivered (Spec.pop q limit).0) next
      × Risen next (Spec.pop q limit).1
      × ((Spec.pop q limit).1.sequence ≡ q.sequence)
unfolding Spec.pop
pop-Risen lo limit q r = pop_items-Risen q.items lo limit false q r

Ascending-++ :
    (lo : ℕ) (l : List AccessUnit) (mid : ℕ) (k : List AccessUnit) (hi : ℕ)
    → Ascending lo l mid
    → Ascending mid k hi
    → Ascending lo (l ++ k) hi
Ascending-++ lo [] mid k hi h g = Ascending-weaken lo mid k hi h g
Ascending-++ lo ((m, bytes) ∷ rest) mid k hi h g =
    (h.0, Ascending-++ (suc m.sequence) rest mid k hi h.1 g)

run-Ascending :
    (width slots lo : ℕ) (q : Queue) (cs : List Call)
    → q.sequence + length cs < 2 ^ 64
    → Risen lo q
    → let (outs, q') = Spec.run width slots q cs in
      (next : ℕ) × Ascending lo outs next × Risen next q'
unfolding Spec.run
run-Ascending width slots lo q [] h r = (lo, omega arith, r)
run-Ascending width slots lo q (offer bytes pts_us is_idr ∷ cs) h r =
    let step = push-Risen width slots lo q bytes pts_us is_idr (omega arith) r in
    run-Ascending width slots lo (Spec.push width slots q bytes pts_us is_idr).1 cs
      (omega (arith, step.1)) step.0
run-Ascending width slots lo q (take_next limit ∷ cs) h r =
    let (next, given, left, same) = pop-Risen lo limit q r in
    let (end, outs, last) =
      run-Ascending width slots next (Spec.pop q limit).1 cs (omega (arith, same)) left in
    (end, Ascending-++ lo (delivered (Spec.pop q limit).0) next _ end given outs, last)

module _ (F : EventFd) where
  open F use {State}

  -- The calls of the two threads in order, with what the reader got.
  unfoldable pub run : AuRing State → List Call → List AccessUnit × AuRing State
  run r [] = ([], r)
  run r (offer bytes pts_us is_idr ∷ cs) = run (push F r bytes pts_us is_idr).1 cs
  run r (take_next limit ∷ cs) =
      let (out, r') = pop F r limit in let (outs, r'') = run r' cs in (delivered out ++ outs, r'')

  -- Whatever the two threads do with a valid ring, it stays valid: every slot that is read or
  -- written lies in its buffers, and `tail` stays `count` slots past `head` on the circle.
  pub run-IsValid : (cs : List Call) {r : AuRing State} → IsValid r → IsValid (run r cs).1
  unfolding run
  run-IsValid [] v = v
  run-IsValid (offer bytes pts_us is_idr ∷ cs) v =
      run-IsValid cs (push-IsValid F bytes pts_us is_idr v)
  run-IsValid (take_next limit ∷ cs) v = run-IsValid cs (pop-IsValid F limit v)

  -- No history of pushes and pops tells a valid ring from the bounded queue that it holds.
  pub run_refines :
      {r : AuRing State} (cs : List Call)
      → IsValid r
      → let (outs, r') = run r cs in
        (outs, view r') ≡ Spec.run r.slot_capacity r.slot_count (view r) cs
  unfolding run Spec.run
  run_refines [] v = refl
  run_refines {r} (offer bytes pts_us is_idr ∷ cs) v = ground (
    arith,
    sizes-push F r bytes pts_us is_idr,
    push_refines F {r = r} bytes pts_us is_idr v,
    run_refines {r = (push F r bytes pts_us is_idr).1} cs (push-IsValid F bytes pts_us is_idr v),
  )
  run_refines {r} (take_next limit ∷ cs) v = ground (
    arith,
    sizes-pop F r limit,
    pop_refines F {r = r} limit v,
    run_refines {r = (pop F r limit).1} cs (pop-IsValid F limit v),
  )

  -- Over any history on a valid ring, every nonempty access unit offered has been delivered, is
  -- counted in `dropped`, or is still in the ring, as long as the counter does not wrap.
  pub run_conserves :
      {r : AuRing State} (cs : List Call)
      → IsValid r
      → r.count + r.dropped + offered cs < 2 ^ 64
      → let (outs, r') = run r cs in
        length outs + (r'.count + r'.dropped) ≡ r.count + r.dropped + offered cs
  run_conserves {r} cs v h = ground (
    arith,
    run_refines {r = r} cs v,
    run-total r.slot_capacity r.slot_count (view r) cs v.slots_pos,
    length-view r,
    length-view (run r cs).1,
  )

  -- Over any history on a valid empty ring, the access units are delivered in the order in which
  -- they were pushed: their sequence numbers rise strictly, from the ring's counter on.
  pub run_in_order :
      {r : AuRing State} (cs : List Call)
      → IsValid r
      → r.count ≡ 0
      → r.sequence + length cs < 2 ^ 64
      → (next : ℕ) × Ascending r.sequence (run r cs).0 next
  run_in_order {r} cs v e h =
      let (next, outs, _) =
        run-Ascending r.slot_capacity r.slot_count r.sequence (view r) cs h start in
      (
        next,
        subst (λ l. Ascending r.sequence l next) (ap (λ p. p.0) (sym (run_refines {r = r} cs v)))
            outs,
      )
    where
      start : Risen r.sequence (view r)
      start =
          subst (λ l. Ascending r.sequence l r.sequence) (sym (nothing F r (sym e))) (omega arith)
