-- ===== src/AuRing/Refine.antt =====
-- The ring of au_ring.c behaves as the queue of the access units in its slots.
use native.Mathlib.Nat.{mod-mod, mod-add-mod, mod-eq_of_lt, mod-eq-sub-mod, mod-lt}
use native.Mathlib.Decide.{dec_lt}
use native.Mathlib.Numerals.{add-one}
use cam.Base.{
  ℕ, zero, suc, ◌+◌, ◌-◌, ◌*◌, ◌%◌, ◌^◌, ◌≤◌, ◌<◌, ◌≡◌, ◌≢◌, refl, ap, ap₂, sym, if◌then◌else◌, ◌∙◌,
  ◌⊎◌, inl, inr, ltb, ◌==◌, Bool, true, false, Option, some, none, List, [], ◌∷◌, ◌++◌, arith,
  length, get_or, set, get_or-set_self, get_or-set_ne,
}
use cam.Base.Memory.{copy_at, slice, slice-copy_at, slice-copy_at_below, slice-copy_at_above}
use cam.AuRing.{
  AuRing, AuMeta, EventFd, no_meta, drop_oldest, store, push_locked, count_drop, advance, signal,
  push, drain, pop_loop, pop,
}
use cam.AuRing.Valid.{
  IsValid, Fits, Fits-get_or, slot_in_range, drop_oldest-IsValid, slot_capacity-drop_oldest,
  advance-IsValid, count_drop-IsValid, count-step, push-IsValid,
}
use cam.AuRing.Spec
use cam.AuRing.Spec.{AccessUnit, Queue}

-- The access unit in slot `i`.
abbrev slot : List ℕ → List AuMeta → ℕ → ℕ → AccessUnit
slot backing meta width i =
    (get_or meta i no_meta, slice (i * width) (get_or meta i no_meta).size backing)

-- The `n` access units from slot `k` on, going round at `slots`.
abbrev window : List ℕ → List AuMeta → ℕ → ℕ → ℕ → ℕ → List AccessUnit
window backing meta width slots k zero = []
window backing meta width slots k (suc n) =
    slot backing meta width (k % slots) ∷ window backing meta width slots (k + 1) n

length-window :
    (b : List ℕ) (m : List AuMeta) (width slots k n : ℕ) → length (window b m width slots k n) ≡ n
length-window b m width slots k zero = refl
length-window b m width slots k (suc n) = ap suc (length-window b m width slots (k + 1) n)

-- Only the place on the circle matters.
window-mod :
    (b : List ℕ) (m : List AuMeta) (width slots k j n : ℕ)
    → k % slots ≡ j % slots
    → window b m width slots k n ≡ window b m width slots j n
window-mod b m width slots k j zero e = refl
window-mod b m width slots k j (suc n) e = rw (e, window-mod b m width slots (k + 1) (j + 1) n step)
  where
    step : (k + 1) % slots ≡ (j + 1) % slots
    step = sym (mod-add-mod k slots 1) ∙ ap (λ t. (t + 1) % slots) e ∙ mod-add-mod j slots 1

-- Fewer than `slots` steps round the circle do not come back to the start.
mod-ne : (k n slots : ℕ) → suc n < slots → k % slots ≢ (k + suc n) % slots
mod-ne k n slots h e = elim (dec_lt (k % slots + suc n) slots) [
  | yes p ↦ omega (arith, around, mod-eq_of_lt p, mod-lt k {m = slots} (omega arith))
  | no p ↦ omega (
    arith,
    around,
    mod-lt k {m = slots} (omega arith),
    mod-eq-sub-mod {n = k % slots + suc n} {m = slots} (omega arith),
    mod-eq_of_lt {n = k % slots + suc n - slots} {m = slots}
        (omega (arith, mod-lt k {m = slots} (omega arith))),
  )
]
  where
    around : (k % slots + suc n) % slots ≡ (k + suc n) % slots
    around = mod-add-mod k slots (suc n)

-- Two slots do not overlap.
slot-disjoint :
    (width i j n : ℕ)
    → i ≢ j
    → n ≤ width
    → (i * width + n ≤ j * width) ⊎ (j * width + width ≤ i * width)
slot-disjoint width i j n ne h = elim (dec_lt i j) [
  | yes p ↦ inl (grind arith)
  | no p ↦ inr (let q : j < i = omega arith in grind arith)
]

slot_elsewhere :
    (b : List ℕ) (m : List AuMeta) (width i t : ℕ) (x : AuMeta) (bytes : List ℕ)
    → Fits width m
    → length bytes ≤ width
    → i ≢ t
    → slot (copy_at b (t * width) bytes) (set m t x) width i ≡ slot b m width i
slot_elsewhere b m width i t x bytes f fit ne =
    rw (get_or-set_ne m t i x no_meta (λ e. ne (sym e))) (ap (λ s. (get_or m i no_meta, s)) same)
  where
    size : ℕ
    size = (get_or m i no_meta).size

    same : slice (i * width) size (copy_at b (t * width) bytes) ≡ slice (i * width) size b
    same = elim (slot-disjoint width i t size ne (Fits-get_or width m i f)) [
      | inl below ↦ slice-copy_at_below b (i * width) size (t * width) bytes below
      | inr above ↦ slice-copy_at_above b (t * width) bytes (i * width) size (omega arith)
    ]

-- Filling the slot just past a window extends it.
window-store :
    (b : List ℕ) (m : List AuMeta) (width slots : ℕ) (x : AuMeta) (bytes : List ℕ) (t k n : ℕ)
    → length b ≡ width * slots
    → length m ≡ slots
    → Fits width m
    → length bytes ≤ width
    → x.size ≡ length bytes
    → n < slots
    → t ≡ (k + n) % slots
    → window (copy_at b (t * width) bytes) (set m t x) width slots k (suc n)
      ≡ window b m width slots k n ++ (x, bytes) ∷ []
window-store b m width slots x bytes t k zero lb lm f fit sz h e =
    rw (
      here,
      get_or-set_self m t x no_meta in_meta,
      sz,
      slice-copy_at b (t * width) bytes in_backing,
    )
  where
    here : k % slots ≡ t
    here = ap (λ s. s % slots) (omega arith) ∙ sym e

    in_slots : t < slots
    in_slots = rw (← here) (mod-lt k h)

    in_meta : t < length m
    in_meta = omega (arith, in_slots)

    in_backing : t * width + length bytes ≤ length b
    in_backing = omega (arith, slot_in_range width slots t in_slots)
window-store b m width slots x bytes t k (suc n) lb lm f fit sz h e =
    ap₂ ◌∷◌ (slot_elsewhere b m width (k % slots) t x bytes f fit (rw e (mod-ne k n slots h))) (
      window-store b m width slots x bytes t (k + 1) n lb lm f fit sz (omega arith)
        (e ∙ ap (λ s. s % slots) (omega arith)))

-- The queue that a ring holds.
abbrev pub view : {E : Type 0} → AuRing E → Queue
view r = record {
  items = window r.backing r.meta r.slot_capacity r.slot_count r.head r.count;
  lost = r.lost;
  sequence = r.sequence;
  dropped = r.dropped;
}

pub length-view : {E : Type 0} (r : AuRing E) → length (view r).items ≡ r.count
length-view r = length-window r.backing r.meta r.slot_capacity r.slot_count r.head r.count

-- A ring that is not empty shows the slot at `head` first.
window_of_pos :
    (b : List ℕ) (m : List AuMeta) (width slots k n : ℕ)
    → 0 < n
    → k < slots
    → window b m width slots k n
      ≡ slot b m width k ∷ window b m width slots ((k + 1) % slots) (n - 1)
window_of_pos b m width slots k zero h p = absurd (omega arith)
window_of_pos b m width slots k (suc n) h p =
    rw
      (
        mod-eq_of_lt p,
        window-mod b m width slots (k + 1) ((k + 1) % slots) n (sym (mod-mod (k + 1) slots)),
      )
      (ap (λ s. slot b m width k ∷ window b m width slots ((k + 1) % slots) s) (omega arith))

module _ {E : Type 0} where
  first :
      (r : AuRing E)
      → IsValid r
      → 0 < r.count
      → (view r).items ≡ slot r.backing r.meta r.slot_capacity r.head ∷ (view (advance r)).items
  unfolding advance
  first r v h =
      window_of_pos r.backing r.meta r.slot_capacity r.slot_count r.head r.count h v.head_in

  drop_oldest_refines :
      (r : AuRing E) → IsValid r → view (drop_oldest r) ≡ Spec.make_room r.slot_count (view r)
  unfolding drop_oldest count_drop Spec.make_room advance
  drop_oldest_refines r v = ground (arith, length-view r, first r v)

  store_refines :
      (r : AuRing E) (bytes : List ℕ) (pts_us is_idr : ℕ)
      → IsValid r
      → r.count < r.slot_count
      → length bytes ≤ r.slot_capacity
      → view (store r bytes pts_us is_idr) ≡ Spec.append (view r) bytes pts_us is_idr
  unfolding store Spec.append
  store_refines r bytes pts_us is_idr v h fit =
      ap
        (λ items. record {
          items = items;
          lost = false;
          sequence = (r.sequence + 1) % 2 ^ 64;
          dropped = r.dropped;
        })
        longer
    where
      open r use {backing, meta, slot_capacity, slot_count, head, tail, count}

      recorded : AuMeta
      recorded = record {
        pts_us = pts_us;
        sequence = r.sequence;
        is_idr = is_idr;
        discontinuity = r.lost;
        size = length bytes;
      }

      longer :
          window
            (copy_at backing (tail * slot_capacity) bytes)
            (set meta tail recorded)
            slot_capacity
            slot_count
            head
            (count + 1)
          ≡ (view r).items ++ (recorded, bytes) ∷ []
      longer = rw add-one (
          window-store backing meta slot_capacity slot_count recorded bytes tail head count
            v.backing_length v.meta_length v.fits fit refl h v.tail_lem)

  same_view-count_drop :
      (r : AuRing E)
      → view (count_drop (record r { lost = true }))
        ≡ record (view r) { lost = true; dropped = (r.dropped + 1) % 2 ^ 64 }
  unfolding count_drop
  same_view-count_drop r = refl

  push_locked_refines :
      (r : AuRing E) (bytes : Option (List ℕ)) (pts_us is_idr : ℕ)
      → IsValid r
      → let (s, r') = push_locked r bytes pts_us is_idr in
        (s, view r') ≡ Spec.push r.slot_capacity r.slot_count (view r) bytes pts_us is_idr
  unfolding push_locked Spec.push
  push_locked_refines r none pts_us is_idr v = refl
  push_locked_refines r (some bytes) pts_us is_idr v = ground (
    arith,
    same_view-count_drop r,
    drop_oldest-IsValid v,
    drop_oldest_refines r v,
    slot_capacity-drop_oldest r,
    store_refines (drop_oldest r) bytes pts_us is_idr,
  )

module _ (F : EventFd) where
  open F use {State}

  view-signal : (r : AuRing State) → view (signal F r) ≡ view r
  unfolding signal
  view-signal r = refl

  -- On a valid ring `au_ring_push` returns what the bounded queue returns, and leaves the ring
  -- holding what the queue holds: the same access units with the same meta data and bytes, in the
  -- same order, the same loss flag, sequence counter and count of drops.
  pub push_refines :
      {r : AuRing State} (bytes : Option (List ℕ)) (pts_us is_idr : ℕ)
      → IsValid r
      → let (s, r') = push F r bytes pts_us is_idr in
        (s, view r') ≡ Spec.push r.slot_capacity r.slot_count (view r) bytes pts_us is_idr
  unfolding push
  push_refines {r} bytes pts_us is_idr v = ground (
    arith,
    push_locked_refines r bytes pts_us is_idr v,
    view-signal (push_locked r bytes pts_us is_idr).1,
  )

  pub nothing : (r : AuRing State) → 0 ≡ r.count → (view r).items ≡ []
  nothing r e = ap (window r.backing r.meta r.slot_capacity r.slot_count r.head) (sym e)

  view-drain :
      (r : AuRing State) (gap : Bool)
      → view (drain F r gap) ≡ record (view r) { lost = if gap then true else r.lost }
  unfolding drain
  view-drain r gap = refl

  view-advance :
      (r : AuRing State) → view (advance r) ≡ record (view r) { items = (view (advance r)).items }
  unfolding advance
  view-advance r = refl

  view-skip :
      (r : AuRing State)
      → view (count_drop (advance r))
        ≡ record (view r) { items = (view (advance r)).items; dropped = (r.dropped + 1) % 2 ^ 64 }
  unfolding count_drop advance
  view-skip r = refl

  pop_loop_refines :
      (n : ℕ) (r : AuRing State) (limit : ℕ) (gap : Bool)
      → n ≡ r.count
      → IsValid r
      → let (out, r') = pop_loop F n r limit gap in
        (out, view r') ≡ Spec.pop_items (view r).items limit gap (view r)
  unfolding pop_loop Spec.pop_items
  pop_loop_refines zero r limit gap e v =
      rw (nothing r e) (ground (arith, view-drain r gap, nothing r e))
  pop_loop_refines (suc n) r limit gap e v = rw (first r v (omega arith)) (
      ground (
        arith,
        pop_loop_refines n (count_drop (advance r)) limit true (rw count-step (omega arith)),
        advance-IsValid v,
        count_drop-IsValid (advance r),
        view-skip r,
        view-advance r,
      ))

  -- On a valid ring `au_ring_pop` delivers what the queue delivers, and leaves the ring holding
  -- the rest of the queue.
  pub pop_refines :
      {r : AuRing State} (limit : ℕ)
      → IsValid r
      → let (out, r') = pop F r limit in (out, view r') ≡ Spec.pop (view r) limit
  unfolding pop Spec.pop
  pop_refines {r} limit v = pop_loop_refines r.count r limit false refl v

  quiet_successor :
      (width slots limit : ℕ) (q : Queue) (a b : AccessUnit) (rest : List AccessUnit) (byte : ℕ)
      (bytes : List ℕ) (pts_us is_idr : ℕ)
      → q.items ≡ a ∷ b ∷ rest
      → length q.items ≡ slots
      → b.0.discontinuity ≡ false
      → b.0.size ≤ limit
      → length (byte ∷ bytes) ≤ width
      → (Spec.pop (Spec.push width slots q (some (byte ∷ bytes)) pts_us is_idr).1 limit).0 ≡ some b
  unfolding Spec.push Spec.make_room Spec.append Spec.pop Spec.pop_items
  quiet_successor width slots limit q a b rest byte bytes pts_us is_idr items full quiet small fit =
      ground arith

  -- An access unit as the queue stores it behind one that was dropped.
  abbrev pub flagged : Queue → List ℕ → ℕ → ℕ → AccessUnit
  flagged q bytes pts_us is_idr = (
    record {
      pts_us = pts_us;
      sequence = q.sequence;
      is_idr = is_idr;
      discontinuity = true;
      size = length bytes;
    },
    bytes,
  )

  stored_flagged :
      (width slots : ℕ) (q : Queue) (a b : AccessUnit) (rest : List AccessUnit) (byte : ℕ)
      (bytes : List ℕ) (pts_us is_idr : ℕ)
      → q.items ≡ a ∷ b ∷ rest
      → length q.items ≡ slots
      → length (byte ∷ bytes) ≤ width
      → (Spec.push width slots q (some (byte ∷ bytes)) pts_us is_idr).1.items
        ≡ b ∷ (rest ++ flagged q (byte ∷ bytes) pts_us is_idr ∷ [])
  unfolding Spec.push Spec.make_room Spec.append
  stored_flagged width slots q a b rest byte bytes pts_us is_idr items full fit =
      let room : ltb width (length (byte ∷ bytes)) ≡ false = ground (arith, fit) in
      let at_limit : (length q.items == slots) ≡ true = ground (arith, full) in
      let some_bytes : (length (byte ∷ bytes) == 0) ≡ false = ground arith in
      rw (some_bytes, room, at_limit, items) refl

  -- A push into a full ring of two slots or more drops the oldest access unit, and flags the one that
  -- it stores, and not the one that the reader gets next: if that one was not flagged before and fits
  -- into the reader's buffer, it is delivered without the flag, although the one before it was
  -- overwritten.
  pub pop-push_full :
      {r : AuRing State} (a b : AccessUnit) (rest : List AccessUnit) (byte : ℕ) (bytes : List ℕ)
      (pts_us is_idr limit : ℕ)
      → IsValid r
      → r.count ≡ r.slot_count
      → (view r).items ≡ a ∷ b ∷ rest
      → b.0.discontinuity ≡ false
      → b.0.size ≤ limit
      → length (byte ∷ bytes) ≤ r.slot_capacity
      → let r' = (push F r (some (byte ∷ bytes)) pts_us is_idr).1 in
        ((view r').items ≡ b ∷ (rest ++ flagged (view r) (byte ∷ bytes) pts_us is_idr ∷ []))
        × ((pop F r' limit).0 ≡ some b)
  pop-push_full {r} a b rest byte bytes pts_us is_idr limit v full items quiet small fit = (
    ground (
      arith,
      push_refines {r = r} (some (byte ∷ bytes)) pts_us is_idr v,
      length-view r,
      stored_flagged r.slot_capacity r.slot_count (view r) a b rest byte bytes pts_us is_idr,
    ),
    ground (
      arith,
      push_refines {r = r} (some (byte ∷ bytes)) pts_us is_idr v,
      pop_refines {r = (push F r (some (byte ∷ bytes)) pts_us is_idr).1} limit
          (push-IsValid F (some (byte ∷ bytes)) pts_us is_idr v),
      length-view r,
      quiet_successor r.slot_capacity r.slot_count limit (view r) a b rest byte bytes pts_us is_idr,
    ),
  )
