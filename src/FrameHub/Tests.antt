-- ===== src/FrameHub/Tests.antt =====
-- A run of the hub on one picture, and its theorem at it.
use cam.Base.{ℕ, ◌≡◌, refl, true, none, some, List, [], ◌∷◌}
use cam.FramePool.{FramePool, zeroed, acquire, frame_ref, frame_unref, give_back}
use cam.FrameHub.{FrameHub, Picture, slot_of, deliver, fill, publish, take_frame}

abbrev picture : List ℕ → ℕ → Picture
picture bytes sequence = record {
  bytes = bytes;
  width = 2;
  height = 1;
  format = 0;
  stride = 2;
  sequence = sequence;
  timestamp_us = 0;
}

abbrev two_frames : FramePool
two_frames = record {
  frames =
      record zeroed { pool_index = some 0 } ∷ record zeroed { place = 2; pool_index = some 1 } ∷ [];
  capacity = 2;
  count = 2;
  free_list = 1 ∷ 0 ∷ [];
}

abbrev hub : FrameHub
hub = record {
  pool = two_frames;
  backing = 0 ∷ 0 ∷ 0 ∷ 0 ∷ [];
  consumers = record { id = 5; slot = none; active = true } ∷ [];
}

abbrev hub' : FrameHub
hub' = record {
  pool = record two_frames {
    frames =
        record zeroed { pool_index = some 0 }
        ∷ record zeroed {
          place = 2;
          pool_index = some 1;
          refcount = 1;
          width = 2;
          height = 1;
          stride = 2;
          size = 2;
          sequence = 9;
        }
        ∷ [];
    free_list = 0 ∷ [];
  };
  backing = 0 ∷ 0 ∷ 7 ∷ 8 ∷ [];
  consumers = record { id = 5; slot = some 1; active = true } ∷ [];
}

published : publish hub (picture (7 ∷ 8 ∷ []) 9) ≡ some hub'
unfolding publish deliver fill acquire frame_ref frame_unref give_back
published = refl

taken : (take_frame hub' 5).0 ≡ some 1
unfolding take_frame slot_of
taken = refl
