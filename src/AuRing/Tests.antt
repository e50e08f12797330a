-- ===== src/AuRing/Tests.antt =====
-- Runs of the ring on small inputs, and its theorems at them.
use cam.Base.{
  ℕ, ◌+◌, ◌≡◌, refl, Bool, true, false, some, List, [], ◌∷◌, arith, length, length-replicate,
  replicate,
}
use cam.AuRing.{
  AuRing, AuMeta, EventFd, no_meta, create, count_drop, drop_oldest, store, push_locked, advance,
  signal, push, drain, pop_loop, pop,
}
use cam.AuRing.Valid.{IsValid, create-IsValid}
use cam.AuRing.Refine.{view, flagged, pop-push_full}
use cam.AuRing.Spec
use cam.AuRing.Spec.{AccessUnit, Call, offer, take_next}
use cam.AuRing.History.{run, Ascending, run-IsValid, run_refines, run_conserves, run_in_order}
use cam.AuRing.Wakeup.{Shared, Reach, here, next, stores, IsAwake, no_lost_wakeup}

abbrev flag_fd : EventFd
flag_fd = record {
  State = Bool;
  fresh = false;
  write_one = λ _. true;
  read_all = λ _. false;
  readable = λ s. s;
}

-- Two slots of four bytes.
abbrev empty_ring : AuRing Bool
empty_ring = record {
  backing = replicate 8 0;
  meta = no_meta ∷ no_meta ∷ [];
  slot_capacity = 4;
  slot_count = 2;
  head = 0;
  tail = 0;
  count = 0;
  lost = false;
  sequence = 0;
  dropped = 0;
  event = some false;
}

abbrev first_meta : AuMeta
first_meta = record { pts_us = 10; sequence = 0; is_idr = 1; discontinuity = false; size = 2 }

abbrev second_meta : AuMeta
second_meta = record { pts_us = 20; sequence = 1; is_idr = 0; discontinuity = false; size = 3 }

abbrev full_ring : AuRing Bool
full_ring = record empty_ring {
  backing = 7 ∷ 8 ∷ 0 ∷ 0 ∷ 1 ∷ 2 ∷ 3 ∷ 0 ∷ [];
  meta = first_meta ∷ second_meta ∷ [];
  count = 2;
  sequence = 2;
  event = some true;
}

abbrev calls : List Call
calls =
    offer (some (7 ∷ 8 ∷ [])) 10 1
    ∷ offer (some (1 ∷ 2 ∷ 3 ∷ [])) 20 0
    ∷ offer (some (5 ∷ [])) 30 0
    ∷ take_next 2
    ∷ []

empty-IsValid : IsValid empty_ring
empty-IsValid = omega arith

full-IsValid : IsValid full_ring
full-IsValid = omega arith

two_pushes :
    (run flag_fd empty_ring
      (offer (some (7 ∷ 8 ∷ [])) 10 1 ∷ offer (some (1 ∷ 2 ∷ 3 ∷ [])) 20 0 ∷ [])).1
    ≡ full_ring
unfolding run push push_locked store drop_oldest count_drop signal
two_pushes = refl

-- The second access unit is too large for the reader's two bytes, so the third is delivered.
skipping :
    (run flag_fd empty_ring calls).0
    ≡ (record { pts_us = 30; sequence = 2; is_idr = 0; discontinuity = true; size = 1 }, 5 ∷ [])
      ∷ []
unfolding run push push_locked store drop_oldest count_drop signal pop pop_loop advance drain
skipping = refl

create-IsValid_example : IsValid empty_ring × (empty_ring.count ≡ 0)
unfolding create
create-IsValid_example =
    create-IsValid (λ n. some (replicate n 0)) (λ n. some (replicate n no_meta)) (some false) 4 2
      (λ n b e. ground (arith, length-replicate {A = ℕ} n 0)) (λ n m e. ground arith) (omega arith)
      refl

run-IsValid_example : IsValid (run flag_fd empty_ring calls).1
run-IsValid_example = run-IsValid flag_fd calls empty-IsValid

run_refines_example :
    let (outs, r') = run flag_fd empty_ring calls in
    (outs, view r') ≡ Spec.run 4 2 (view empty_ring) calls
run_refines_example = run_refines flag_fd calls empty-IsValid

run_conserves_example :
    let (outs, r') = run flag_fd empty_ring calls in length outs + (r'.count + r'.dropped) ≡ 3
run_conserves_example = run_conserves flag_fd calls empty-IsValid (omega arith)

run_in_order_example : (last : ℕ) × Ascending 0 (run flag_fd empty_ring calls).0 last
run_in_order_example = run_in_order flag_fd calls empty-IsValid refl (omega arith)

pop-push_full_example :
    ((view (push flag_fd full_ring (some (5 ∷ [])) 30 0).1).items
      ≡ (second_meta, 1 ∷ 2 ∷ 3 ∷ []) ∷ flagged flag_fd (view full_ring) (5 ∷ []) 30 0 ∷ [])
    × ((pop flag_fd (push flag_fd full_ring (some (5 ∷ [])) 30 0).1 4).0
        ≡ some (second_meta, 1 ∷ 2 ∷ 3 ∷ []))
pop-push_full_example =
    pop-push_full flag_fd {r = full_ring} (first_meta, 7 ∷ 8 ∷ []) (second_meta, 1 ∷ 2 ∷ 3 ∷ []) []
      5 [] 30 0 4 full-IsValid refl refl refl (omega arith) (omega arith)

abbrev start : Shared Bool
start = record { ring = empty_ring; signals_due = 0 }

one_stored :
    Reach flag_fd start
      (record { ring = (push_locked empty_ring (some (9 ∷ [])) 5 1).1; signals_due = 1 })
unfolding push_locked
one_stored = next here (stores start (some (9 ∷ [])) 5 1 refl)

no_lost_wakeup_example :
    IsAwake flag_fd
      (record { ring = (push_locked empty_ring (some (9 ∷ [])) 5 1).1; signals_due = 1 })
no_lost_wakeup_example = no_lost_wakeup flag_fd (λ e. refl) refl one_stored
