-- ===== src/AuRing/Valid.antt =====
-- The representation invariant of the ring of au_ring.c: no slot is read or written out of range.
use cam.Base.{
  ℕ, zero, suc, ◌+◌, ◌-◌, ◌*◌, ◌%◌, ◌^◌, ◌≤◌, ◌<◌, ◌≡◌, Bool, true, false, Option, some, none,
  Option-cases, inl, inr, List, [], ◌∷◌, arith, ap, ◌∙◌, refl, replicate, length-replicate, length,
  get_or, set, length-set, All,
}
use native.Mathlib.Nat.{mod-add-mod, mod-eq_of_lt}
use cam.Base.Memory.{length-copy_at}
use cam.AuRing.{
  AuRing, AuMeta, EventFd, no_meta, create, drop_oldest, store, push_locked, count_drop, advance,
  signal, push, drain, pop_loop, pop,
}

abbrev pub Fits : ℕ → List AuMeta → Type 0
Fits width ms = All (λ (m : AuMeta). m.size ≤ width) ms

pub record IsValid {E : Type 0} (r : AuRing E) : Type 0 where
  pub slots_pos : 0 < r.slot_count
  pub capacity_pos : 0 < r.slot_capacity
  pub backing_length : length r.backing ≡ r.slot_capacity * r.slot_count
  pub meta_length : length r.meta ≡ r.slot_count
  pub head_in : r.head < r.slot_count
  pub count_in : r.count ≤ r.slot_count
  pub tail_lem : r.tail ≡ (r.head + r.count) % r.slot_count
  pub fits : Fits r.slot_capacity r.meta

Fits-set :
    (width : ℕ) (ms : List AuMeta) (i : ℕ) (m : AuMeta)
    → m.size ≤ width
    → Fits width ms
    → Fits width (set ms i m)
Fits-set width [] i m h f = f
Fits-set width (x ∷ ms) zero m h f = (h, f.1)
Fits-set width (x ∷ ms) (suc i) m h f = (f.0, Fits-set width ms i m h f.1)

pub Fits-get_or :
    (width : ℕ) (ms : List AuMeta) (i : ℕ) → Fits width ms → (get_or ms i no_meta).size ≤ width
Fits-get_or width [] i f = omega arith
Fits-get_or width (x ∷ ms) zero f = f.0
Fits-get_or width (x ∷ ms) (suc i) f = Fits-get_or width ms i f.1

-- The slot index `i` gives a range of the backing buffer.
pub slot_in_range : (width slots i : ℕ) → i < slots → i * width + width ≤ width * slots
slot_in_range width slots i h = grind arith

pub succ-mod : (h n k : ℕ) → ((h + 1) % n + k) % n ≡ (h + suc k) % n
succ-mod h n k = mod-add-mod (h + 1) n k ∙ ap (λ t. t % n) (omega arith)

module _ {E : Type 0} where
  pub drop_oldest-IsValid :
      {r : AuRing E}
      → IsValid r
      → IsValid (drop_oldest r) × ((drop_oldest r).count < (drop_oldest r).slot_count)
  unfolding drop_oldest count_drop
  drop_oldest-IsValid {r} v = ground (arith, succ-mod r.head r.slot_count (r.count - 1))

  pub store-IsValid :
      {r : AuRing E} (bytes : List ℕ) (pts_us is_idr : ℕ)
      → IsValid r
      → r.count < r.slot_count
      → length bytes ≤ r.slot_capacity
      → IsValid (store r bytes pts_us is_idr)
  unfolding store
  store-IsValid {r} bytes pts_us is_idr v h fit = record {
    slots_pos = v.slots_pos;
    capacity_pos = v.capacity_pos;
    backing_length = length-copy_at r.backing (r.tail * r.slot_capacity) bytes ∙ v.backing_length;
    meta_length = length-set r.meta r.tail _ ∙ v.meta_length;
    head_in = v.head_in;
    count_in = omega arith;
    tail_lem = ap (λ t. (t + 1) % r.slot_count) v.tail_lem ∙ next;
    fits = Fits-set r.slot_capacity r.meta r.tail _ fit v.fits;
  }
    where
      next :
          ((r.head + r.count) % r.slot_count + 1) % r.slot_count
          ≡ (r.head + (r.count + 1)) % r.slot_count
      next =
          mod-add-mod (r.head + r.count) r.slot_count 1 ∙ ap (λ t. t % r.slot_count) (omega arith)

  pub advance-IsValid : {r : AuRing E} → IsValid r → 0 < r.count → IsValid (advance r)
  unfolding advance
  advance-IsValid {r} v h = ground (arith, succ-mod r.head r.slot_count (r.count - 1))

  pub slot_capacity-drop_oldest : (r : AuRing E) → (drop_oldest r).slot_capacity ≡ r.slot_capacity
  unfolding drop_oldest count_drop
  slot_capacity-drop_oldest r = ground arith

  lost-IsValid : (r : AuRing E) → IsValid r → IsValid (count_drop (record r { lost = true }))
  unfolding count_drop
  lost-IsValid r v = ground arith

  pub count_drop-IsValid : (r : AuRing E) → IsValid r → IsValid (count_drop r)
  unfolding count_drop
  count_drop-IsValid r v = ground arith

  -- The locked part of `au_ring_push` keeps the invariant, on every branch.
  pub push_locked-IsValid :
      {r : AuRing E} (bytes : Option (List ℕ)) (pts_us is_idr : ℕ)
      → IsValid r
      → IsValid (push_locked r bytes pts_us is_idr).1
  unfolding push_locked
  push_locked-IsValid none pts_us is_idr v = v
  push_locked-IsValid {r} (some bytes) pts_us is_idr v = ground (
    arith,
    lost-IsValid r v,
    drop_oldest-IsValid v,
    slot_capacity-drop_oldest r,
    store-IsValid {r = drop_oldest r} bytes pts_us is_idr,
  )

module _ (F : EventFd) where
  open F use {State}

  signal-IsValid : (r : AuRing State) → IsValid r → IsValid (signal F r)
  unfolding signal
  signal-IsValid r v = ground arith

  drain-IsValid : (r : AuRing State) (d : Bool) → IsValid r → IsValid (drain F r d)
  unfolding drain
  drain-IsValid r d v = ground arith

  -- `au_ring_push` keeps the invariant, whatever it is given.
  pub push-IsValid :
      {r : AuRing State} (bytes : Option (List ℕ)) (pts_us is_idr : ℕ)
      → IsValid r
      → IsValid (push F r bytes pts_us is_idr).1
  unfolding push
  push-IsValid {r} bytes pts_us is_idr v = ground (
    arith,
    push_locked-IsValid bytes pts_us is_idr v,
    signal-IsValid (push_locked r bytes pts_us is_idr).1,
  )

  pub count-step : (r : AuRing State) → (count_drop (advance r)).count ≡ r.count - 1
  unfolding count_drop advance
  count-step r = refl

  pop_loop-IsValid :
      (n : ℕ) (r : AuRing State) (buffer_capacity : ℕ) (d : Bool)
      → n ≡ r.count
      → IsValid r
      → IsValid (pop_loop F n r buffer_capacity d).1
  unfolding pop_loop
  pop_loop-IsValid zero r c d e v = drain-IsValid r d v
  pop_loop-IsValid (suc n) r c d e v = ground (
    arith,
    advance-IsValid v,
    count_drop-IsValid (advance r),
    pop_loop-IsValid n (count_drop (advance r)) c true (rw count-step (omega arith)),
  )

  -- `au_ring_pop` keeps the invariant, whatever it skips.
  pub pop-IsValid :
      {r : AuRing State} (buffer_capacity : ℕ) → IsValid r → IsValid (pop F r buffer_capacity).1
  unfolding pop
  pop-IsValid {r} c v = pop_loop-IsValid r.count r c false refl v

Fits-replicate : (width n : ℕ) → Fits width (replicate n no_meta)
Fits-replicate width zero = tt
Fits-replicate width (suc n) = (omega arith, Fits-replicate width n)

abbrev pub SameSizes : {E : Type 0} → AuRing E → AuRing E → Type 0
SameSizes r r' = (r'.slot_capacity ≡ r.slot_capacity) × (r'.slot_count ≡ r.slot_count)

module _ (F : EventFd) where
  open F use {State}

  pub sizes-push :
      (r : AuRing State) (bytes : Option (List ℕ)) (pts_us is_idr : ℕ)
      → SameSizes r (push F r bytes pts_us is_idr).1
  unfolding push push_locked store drop_oldest count_drop signal
  sizes-push r none pts_us is_idr = (refl, refl)
  sizes-push r (some bytes) pts_us is_idr = ground arith

  sizes-pop_loop :
      (n : ℕ) (r : AuRing State) (limit : ℕ) (gap : Bool) → SameSizes r (pop_loop F n r limit gap).1
  unfolding pop_loop drain advance count_drop
  sizes-pop_loop zero r limit gap = (refl, refl)
  sizes-pop_loop (suc n) r limit gap =
      ground (arith, sizes-pop_loop n (count_drop (advance r)) limit true)

  pub sizes-pop : (r : AuRing State) (limit : ℕ) → SameSizes r (pop F r limit).1
  unfolding pop
  sizes-pop r limit = sizes-pop_loop r.count r limit false

-- A ring that `au_ring_create` returns satisfies the invariant and is empty, where the allocators
-- return what they are asked for and the product of the sizes does not wrap.
pub create-IsValid :
    {E : Type 0} (malloc : ℕ → Option (List ℕ)) (calloc : ℕ → Option (List AuMeta)) (fd : Option E)
    (width slots : ℕ) {r : AuRing E}
    → ((n : ℕ) (b : List ℕ) → malloc n ≡ some b → length b ≡ n)
    → ((n : ℕ) (m : List AuMeta) → calloc n ≡ some m → m ≡ replicate n no_meta)
    → width * slots < 2 ^ 64
    → create malloc calloc fd width slots ≡ some r
    → IsValid r × (r.count ≡ 0)
unfolding create
create-IsValid malloc calloc fd width slots {r} hm hc fit e =
    elim (Option-cases (malloc (width * slots % 2 ^ 64))) [
      | inl no_backing ↦ absurd (ground arith)
      | inr (b, got) ↦ elim (Option-cases (calloc slots)) [
        | inl no_meta_data ↦ absurd (ground arith)
        | inr (m, got_meta) ↦ ground (
          arith,
          hm (width * slots % 2 ^ 64) b got,
          hc slots m got_meta,
          length-replicate slots no_meta,
          Fits-replicate width slots,
          mod-eq_of_lt fit,
        )
      ]
    ]
