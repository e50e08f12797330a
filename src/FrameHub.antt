-- ===== src/FrameHub.antt =====
-- src/media/frame_hub.c: mailboxes of one frame, which keep the newest.
-- A consumer is its number, and the linked list of the consumers is the list from its head on. Each
-- function is one step. frame_hub_take_wait() takes as frame_hub_take() does, once it stops waiting.
pub mod Newest
mod Tests
use cam.Base.{
  ℕ, zero, suc, ◌+◌, Bool, true, false, not, Option, none, some, List, [], ◌∷◌, ◌==◌, if◌then◌else◌,
  ◌>>=◌, length, set, replicate, ◌*◌,
}
use cam.Base.Memory.{copy_at}
use cam.FramePool.{Frame, FramePool, frame_at, create, acquire, frame_ref, frame_unref}

pub record FrameHubConsumer : Type 0 where
  pub id : ℕ
  pub slot : Option ℕ
  pub active : Bool

-- The hub, and the bytes of the buffer of its pool.
pub record FrameHub : Type 0 where
  pub pool : FramePool
  pub backing : List ℕ
  pub consumers : List FrameHubConsumer

-- frame_hub_create(); the flags tell whether the allocations of the hub and the pool succeed.
pub hub_create : Bool → Bool → ℕ → ℕ → Option FrameHub
hub_create hub_allocated pool_allocated buffer_capacity pool_count =
    if hub_allocated
    then (create pool_allocated buffer_capacity pool_count >>= λ pool. some (record {
      pool = pool;
      backing = replicate (pool_count * buffer_capacity) 0;
      consumers = [];
    }))
    else none

-- frame_hub_subscribe() for a consumer of a new number.
pub subscribe : FrameHub → Bool → ℕ → Option FrameHub
subscribe hub allocated id =
    if allocated
    then some
        (record hub { consumers = record { id = id; slot = none; active = true } ∷ hub.consumers })
    else none

pub without : List FrameHubConsumer → ℕ → List FrameHubConsumer
without [] id = []
without (c ∷ cs) id = if c.id == id then cs else c ∷ without cs id

-- The mailbox of a consumer, `none` if it is empty.
pub slot_of : List FrameHubConsumer → ℕ → Option ℕ
slot_of [] id = none
slot_of (c ∷ cs) id = if c.id == id then c.slot else slot_of cs id

-- frame_hub_unsubscribe() of a consumer on the list.
pub unsubscribe : FrameHub → ℕ → FrameHub
unsubscribe hub id =
    let left = record hub { consumers = without hub.consumers id } in
    elim (slot_of hub.consumers id) [
      | none ↦ left
      | some frame ↦ record left { pool = frame_unref hub.pool frame }
    ]

-- The loop of frame_hub_publish() over the consumers.
pub deliver : FramePool → ℕ → List FrameHubConsumer → FramePool × List FrameHubConsumer
deliver pool frame [] = (pool, [])
deliver pool frame (c ∷ cs) =
    let referenced = frame_ref pool frame in
    let pool' : FramePool = elim c.slot [
      | none ↦ referenced
      | some old ↦ frame_unref referenced old
    ] in
    let (pool'', cs') = deliver (if c.active then pool' else pool) frame cs in
    (pool'', (if c.active then record c { slot = some frame } else c) ∷ cs')

-- What the publisher tells about a frame.
pub record Picture : Type 0 where
  pub bytes : List ℕ
  pub width : ℕ
  pub height : ℕ
  pub format : ℕ
  pub stride : ℕ
  pub sequence : ℕ
  pub timestamp_us : ℕ

-- The stores into the frame that was acquired.
pub fill : Frame → Picture → Frame
fill f picture = record f {
  width = picture.width;
  height = picture.height;
  format = picture.format;
  stride = picture.stride;
  size = length picture.bytes;
  sequence = picture.sequence;
  timestamp_us = picture.timestamp_us;
}

-- frame_hub_publish(): the hub after the result 0, or `none` for the result -1. (memcpy() is not
-- kept from running over the end of the frame's part of the buffer.)
pub publish : FrameHub → Picture → Option FrameHub
publish hub picture =
    let delivered =
      (acquire hub.pool >>= λ (frame, pool).
      let f = frame_at pool frame in
      let filled = record pool { frames = set pool.frames frame (fill f picture) } in
      let (pool', consumers) = deliver filled frame hub.consumers in
      some (record {
        pool = frame_unref pool' frame;
        backing = copy_at hub.backing f.place picture.bytes;
        consumers = consumers;
      })) in
    if length picture.bytes == 0 then none else delivered

pub emptied : List FrameHubConsumer → ℕ → List FrameHubConsumer
emptied [] id = []
emptied (c ∷ cs) id = if c.id == id then record c { slot = none } ∷ cs else c ∷ emptied cs id

-- frame_hub_take(): the frame, which the caller then holds, or `none` for a null pointer.
pub take_frame : FrameHub → ℕ → Option ℕ × FrameHub
take_frame hub id = (slot_of hub.consumers id, record hub { consumers = emptied hub.consumers id })
