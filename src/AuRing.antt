-- ===== src/AuRing.antt =====
-- src/media/au_ring.c: the ring of encoded access units between the encoder thread and a sender.
-- The backing buffer is one flat list of bytes, slot `i` of it beginning at `i * slot_capacity`.
-- Each function is one critical section of `ring->lock`; the write to the event descriptor, which
-- `au_ring_push` makes after it unlocks, is a function of its own (`signal`).
-- The guards `ring == NULL` have no counterpart: a call is on a ring.
pub mod Valid
pub mod Spec
pub mod Refine
pub mod Wakeup
pub mod History
mod Tests
use cam.Base.{
  ℕ, zero, suc, ◌+◌, ◌-◌, ◌*◌, ◌%◌, ◌^◌, Bool, true, false, ◌||◌, Option, none, some, List, ltb,
  ◌==◌, if◌then◌else◌, ◌>>=◌, length, get_or, set,
}
use cam.Base.Memory.{copy_at, slice}

pub record AuMeta : Type 0 where
  pub pts_us : ℕ
  pub sequence : ℕ
  pub is_idr : ℕ
  pub discontinuity : Bool
  pub size : ℕ

-- `event` is the state of the event descriptor, `none` if there is no descriptor.
pub record AuRing (E : Type 0) : Type 0 where
  pub backing : List ℕ
  pub meta : List AuMeta
  pub slot_capacity : ℕ
  pub slot_count : ℕ
  pub head : ℕ
  pub tail : ℕ
  pub count : ℕ
  pub lost : Bool
  pub sequence : ℕ
  pub dropped : ℕ
  pub event : Option E

-- The eventfd of the kernel, in nonblocking mode: a write makes it readable, a read takes that
-- back, and it begins not readable.
pub record EventFd : Type 1 where
  pub State : Type 0
  pub fresh : State
  pub write_one : State → State
  pub read_all : State → State
  pub readable : State → Bool

pub data Status : Type 0 where
  ok failed : Status

-- What calloc() leaves in the meta data.
abbrev pub no_meta : AuMeta
no_meta = record { pts_us = 0; sequence = 0; is_idr = 0; discontinuity = false; size = 0 }

-- The allocators answer `none` for NULL; the size that malloc() is asked for is a `size_t`.
pub create :
    {E : Type 0} (malloc : ℕ → Option (List ℕ)) (calloc : ℕ → Option (List AuMeta)) (fd : Option E)
    → ℕ
    → ℕ
    → Option (AuRing E)
create malloc calloc fd slot_capacity slot_count =
    if slot_capacity == 0 || slot_count == 0 then none else do
      backing ← malloc (slot_capacity * slot_count % 2 ^ 64)
      meta ← calloc slot_count
      some (record {
        backing = backing;
        meta = meta;
        slot_capacity = slot_capacity;
        slot_count = slot_count;
        head = 0;
        tail = 0;
        count = 0;
        lost = false;
        sequence = 0;
        dropped = 0;
        event = fd;
      })

module _ {E : Type 0} where
  pub count_drop : AuRing E → AuRing E
  count_drop r = record r { dropped = (r.dropped + 1) % 2 ^ 64 }

  -- The branch that overwrites the oldest access unit.
  pub drop_oldest : AuRing E → AuRing E
  drop_oldest r =
      if r.count == r.slot_count
      then count_drop
          (record r { head = (r.head + 1) % r.slot_count; count = r.count - 1; lost = true })
      else r

  -- The stores into the slot at `tail`.
  pub store : AuRing E → List ℕ → ℕ → ℕ → AuRing E
  store r bytes pts_us is_idr = record r {
    backing = copy_at r.backing (r.tail * r.slot_capacity) bytes;
    meta = set r.meta r.tail (record {
      pts_us = pts_us;
      sequence = r.sequence;
      is_idr = is_idr;
      discontinuity = r.lost;
      size = length bytes;
    });
    sequence = (r.sequence + 1) % 2 ^ 64;
    lost = false;
    tail = (r.tail + 1) % r.slot_count;
    count = r.count + 1;
  }

  -- au_ring_push() up to the unlock; `none` for a null `bytes`. The size is the length of `bytes`.
  pub push_locked : AuRing E → Option (List ℕ) → ℕ → ℕ → Status × AuRing E
  push_locked r none pts_us is_idr = (failed, r)
  push_locked r (some bytes) pts_us is_idr =
      if length bytes == 0
      then (failed, r)
      else if ltb r.slot_capacity (length bytes)
      then (failed, count_drop (record r { lost = true }))
      else (ok, store (drop_oldest r) bytes pts_us is_idr)

  -- The slot at `head` is taken off the ring.
  pub advance : AuRing E → AuRing E
  advance r = record r { head = (r.head + 1) % r.slot_count; count = r.count - 1 }

module _ (F : EventFd) where
  open F use {State, write_one, read_all}

  pub signal : AuRing State → AuRing State
  signal r = record r { event = r.event >>= λ e. some (write_one e) }

  -- au_ring_push(): the critical section, and then the wakeup unless it failed.
  pub push : AuRing State → Option (List ℕ) → ℕ → ℕ → Status × AuRing State
  push r bytes pts_us is_idr =
      let (s, r') = push_locked r bytes pts_us is_idr in
      elim s [ ok ↦ (ok, signal r') | failed ↦ (failed, r') ]

  -- The ring has run empty: the wakeup is cleared, and a gap is kept for the next push.
  pub drain : AuRing State → Bool → AuRing State
  drain r discontinuity = record r {
    event = r.event >>= λ e. some (read_all e);
    lost = if discontinuity then true else r.lost;
  }

  -- The loop of au_ring_pop(), which takes one slot off in each round: `count` rounds are enough.
  pub pop_loop : ℕ → AuRing State → ℕ → Bool → Option (AuMeta × List ℕ) × AuRing State
  pop_loop zero r buffer_capacity discontinuity = (none, drain r discontinuity)
  pop_loop (suc n) r buffer_capacity discontinuity =
      let m = get_or r.meta r.head no_meta in
      let rest = pop_loop n (count_drop (advance r)) buffer_capacity true in
      if ltb buffer_capacity m.size then rest else (
        some (
          record m { discontinuity = m.discontinuity || discontinuity },
          slice (r.head * r.slot_capacity) m.size r.backing,
        ),
        advance r,
      )

  -- au_ring_pop(): what it copied with its meta data, or `none` for the result 0.
  pub pop : AuRing State → ℕ → Option (AuMeta × List ℕ) × AuRing State
  pop r buffer_capacity = pop_loop r.count r buffer_capacity false
