-- ===== src/FramePool.antt =====
-- src/media/frame_pool.c: the frames of the pool, counted references, and the list of free frames.
-- A pointer to a frame is its index in the pool, and `data` the offset in the buffer of the pool.
pub mod Valid
pub mod History
mod Tests
use cam.Base.{
  ℕ, zero, suc, ◌+◌, ◌-◌, ◌*◌, Bool, true, false, Option, none, some, List, [], ◌∷◌, ◌++◌, leb,
  ◌==◌, if◌then◌else◌, length, get_or, set,
}

-- The index is `none` for -1.
pub record Frame : Type 0 where
  pub width : ℕ
  pub height : ℕ
  pub format : ℕ
  pub stride : ℕ
  pub size : ℕ
  pub sequence : ℕ
  pub timestamp_us : ℕ
  pub place : ℕ
  pub pool_index : Option ℕ
  pub refcount : ℕ

-- `free_list` has the first `free_count` entries of the array, the last of them first.
pub record FramePool : Type 0 where
  pub frames : List Frame
  pub capacity : ℕ
  pub count : ℕ
  pub free_list : List ℕ

-- A frame as calloc() and memset() leave it.
abbrev pub zeroed : Frame
zeroed = record {
  width = 0;
  height = 0;
  format = 0;
  stride = 0;
  size = 0;
  sequence = 0;
  timestamp_us = 0;
  place = 0;
  pool_index = none;
  refcount = 0;
}

abbrev pub frame_at : FramePool → ℕ → Frame
frame_at p i = get_or p.frames i zeroed

-- The loop of frame_pool_create() over the frames, `n` of them done.
unfoldable pub initial_frames : ℕ → ℕ → List Frame
initial_frames capacity zero = []
initial_frames capacity (suc n) =
    initial_frames capacity n ++ record zeroed { place = n * capacity; pool_index = some n } ∷ []

unfoldable pub initial_free : ℕ → List ℕ
initial_free zero = []
initial_free (suc n) = n ∷ initial_free n

-- frame_pool_create(); `allocated` tells whether the four allocations succeed.
unfoldable pub create : Bool → ℕ → ℕ → Option FramePool
create allocated capacity count =
    if capacity == 0
    then none
    else if count == 0
    then none
    else if allocated
    then some (record {
      frames = initial_frames capacity count;
      capacity = capacity;
      count = count;
      free_list = initial_free count;
    })
    else none

-- frame_pool_acquire()
unfoldable pub acquire : FramePool → Option (ℕ × FramePool)
acquire p = elim p.free_list [
  | [] ↦ none
  | index ∷ rest ↦ some (
    index,
    record p {
      free_list = rest;
      frames =
          set p.frames index
            (record zeroed { place = index * p.capacity; pool_index = some index; refcount = 1 });
    },
  )
]

-- frame_ref()
unfoldable pub frame_ref : FramePool → ℕ → FramePool
frame_ref p i =
    let f = frame_at p i in
    record p { frames = set p.frames i (record f { refcount = f.refcount + 1 }) }

-- What frame_unref() does with the index of a frame without references.
unfoldable pub give_back : FramePool → ℕ → FramePool
give_back p index =
    if leb p.count (length p.free_list) then p else record p { free_list = index ∷ p.free_list }

-- frame_unref()
unfoldable pub frame_unref : FramePool → ℕ → FramePool
frame_unref p i =
    let f = frame_at p i in
    let f' = record f { refcount = f.refcount - 1 } in
    let kept = record p { frames = set p.frames i f' } in
    if f.refcount == 0
    then p
    else if f.refcount - 1 == 0
    then (elim f.pool_index [
      | none ↦ kept
      | some index ↦
          give_back (record p { frames = set p.frames i (record f' { pool_index = none }) }) index
    ])
    else kept
