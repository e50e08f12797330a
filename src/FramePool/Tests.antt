-- ===== src/FramePool/Tests.antt =====
-- Runs of the frame pool, and its theorems at them.
use cam.Base.{ℕ, ◌*◌, ◌<◌, ◌≡◌, ◌≢◌, refl, true, none, some, [], ◌∷◌, arith}
use cam.FramePool.{
  FramePool, zeroed, frame_at, initial_frames, initial_free, create, acquire, frame_ref, give_back,
  frame_unref,
}
use cam.FramePool.History.{Reach, here, next, acquires, acquire_unheld, acquire-none}

abbrev fresh : FramePool
fresh = record {
  frames =
      record zeroed { pool_index = some 0 }
      ∷ record zeroed { place = 16; pool_index = some 1 }
      ∷ [];
  capacity = 16;
  count = 2;
  free_list = 1 ∷ 0 ∷ [];
}

created : create true 16 2 ≡ some fresh
unfolding create initial_frames initial_free
created = refl

-- The last frame is out.
abbrev one_out : FramePool
one_out = record fresh {
  frames =
      record zeroed { pool_index = some 0 }
      ∷ record zeroed { place = 16; pool_index = some 1; refcount = 1 }
      ∷ [];
  free_list = 0 ∷ [];
}

abbrev both_out : FramePool
both_out = record fresh {
  frames =
      record zeroed { pool_index = some 0; refcount = 1 }
      ∷ record zeroed { place = 16; pool_index = some 1; refcount = 1 }
      ∷ [];
  free_list = [];
}

first_acquired : acquire fresh ≡ some (1, one_out)
unfolding acquire
first_acquired = refl

second_acquired : acquire one_out ≡ some (0, both_out)
unfolding acquire
second_acquired = refl

none_left : acquire both_out ≡ none
unfolding acquire
none_left = refl

-- A second release of the frame changes nothing.
released_twice :
    frame_unref (frame_unref (frame_ref one_out 1) 1) 1 ≡ record fresh {
      frames = record zeroed { pool_index = some 0 } ∷ record zeroed { place = 16 } ∷ [];
    }
    × (frame_unref (frame_unref one_out 1) 1 ≡ frame_unref one_out 1)
unfolding frame_unref frame_ref give_back
released_twice = (refl, refl)

both_reached : Reach fresh both_out
both_reached = next (next here (acquires 1 first_acquired)) (acquires 0 second_acquired)

acquire_unheld_example :
    (0 < 2)
    × ((frame_at one_out 0).refcount ≡ 0)
    × ((frame_at both_out 0).refcount ≡ 1)
    × ((frame_at both_out 0).place ≡ 0 * 16)
    × ((i : ℕ) → 0 ≢ i → frame_at both_out i ≡ frame_at one_out i)
acquire_unheld_example =
    acquire_unheld true 16 2 fresh created one_out both_out 0
      (next here (acquires 1 first_acquired)) second_acquired

acquire-none_example : 0 < (frame_at both_out 1).refcount
acquire-none_example =
    acquire-none true 16 2 fresh created both_out 1 both_reached none_left (omega arith)
