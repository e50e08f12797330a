-- ===== src/AuRing/Wakeup.antt =====
-- The event descriptor of a ring: the reader sleeps in poll() until it is readable, and no
-- interleaving of the two threads leaves access units waiting with nobody about to wake it.
use cam.Base.{
  ℕ, zero, suc, ◌+◌, ◌-◌, ◌<◌, ◌≡◌, ◌⊎◌, inl, inr, refl, sym, ◌∙◌, >>=-eq-some, Bool, true, false,
  Option, some, none, List, arith,
}
use cam.AuRing.{
  AuRing, EventFd, ok, failed, push_locked, count_drop, advance, signal, drain, pop_loop, pop,
}

-- A ring, and the number of producers that have left the critical section of `au_ring_push` and
-- have not yet written to the descriptor.
pub record Shared (E : Type 0) : Type 0 where
  pub ring : AuRing E
  pub signals_due : ℕ

-- One critical section, or one write to the descriptor.
pub data Step (F : EventFd) : Shared F.State → Shared F.State → Type 0 where
  stores :
      (s : Shared F.State) (bytes : Option (List ℕ)) (pts_us is_idr : ℕ)
      → (push_locked s.ring bytes pts_us is_idr).0 ≡ ok
      → Step F s (record {
        ring = (push_locked s.ring bytes pts_us is_idr).1;
        signals_due = s.signals_due + 1;
      })
  refuses :
      (s : Shared F.State) (bytes : Option (List ℕ)) (pts_us is_idr : ℕ)
      → (push_locked s.ring bytes pts_us is_idr).0 ≡ failed
      → Step F s (record s { ring = (push_locked s.ring bytes pts_us is_idr).1 })
  signals :
      (s : Shared F.State)
      → 0 < s.signals_due
      → Step F s (record { ring = signal F s.ring; signals_due = s.signals_due - 1 })
  pops : (s : Shared F.State) (limit : ℕ) → Step F s (record s { ring = (pop F s.ring limit).1 })

pub data Reach (F : EventFd) (s : Shared F.State) : Shared F.State → Type 0 where
  here : Reach F s s
  next : {t u : Shared F.State} → Reach F s t → Step F t u → Reach F s u

-- If access units wait, the descriptor is readable or a write to it is due.
abbrev pub IsAwake : (F : EventFd) → Shared F.State → Type 0
IsAwake F s =
    (e : F.State)
    → s.ring.event ≡ some e
    → 0 < s.ring.count
    → (0 < s.signals_due) ⊎ (F.readable e ≡ true)

module _ {E : Type 0} where
  failed_push :
      (r : AuRing E) (bytes : Option (List ℕ)) (pts_us is_idr : ℕ)
      → (push_locked r bytes pts_us is_idr).0 ≡ failed
      → ((push_locked r bytes pts_us is_idr).1.event ≡ r.event)
        × ((push_locked r bytes pts_us is_idr).1.count ≡ r.count)
  unfolding push_locked count_drop
  failed_push r none pts_us is_idr h = (refl, refl)
  failed_push r (some bytes) pts_us is_idr h = ground arith

module _ (F : EventFd) where
  open F use {State}

  -- What `au_ring_pop` returns with: either it has run the ring empty, or it has left the
  -- descriptor alone and taken at least one access unit off the ring.
  pop_loop_event :
      (n : ℕ) (r : AuRing State) (limit : ℕ) (gap : Bool)
      → n ≡ r.count
      → let r' = (pop_loop F n r limit gap).1 in
        (r'.count ≡ 0) ⊎ ((r'.event ≡ r.event) × (r'.count < r.count))
  unfolding pop_loop drain advance count_drop
  pop_loop_event zero r limit gap e = inl (omega arith)
  pop_loop_event (suc n) r limit gap e =
      ground (arith, pop_loop_event n (count_drop (advance r)) limit true (omega arith))

  pop_event :
      (r : AuRing State) (limit : ℕ)
      → let r' = (pop F r limit).1 in (r'.count ≡ 0) ⊎ ((r'.event ≡ r.event) × (r'.count < r.count))
  unfolding pop
  pop_event r limit = pop_loop_event r.count r limit false refl

  Step-IsAwake :
      ((e : State) → F.readable (F.write_one e) ≡ true)
      → {s t : Shared State} → Step F s t
      → IsAwake F s
      → IsAwake F t
  unfolding signal
  Step-IsAwake law (stores s bytes pts_us is_idr h) a e here_ some_left = inl (omega arith)
  Step-IsAwake law (refuses s bytes pts_us is_idr h) a e has waiting =
      let (same_event, same_count) = failed_push s.ring bytes pts_us is_idr h in
      a e (sym same_event ∙ has) (omega (arith, same_count))
  Step-IsAwake law (signals s h) a e has waiting =
      let (old, _, written) = >>=-eq-some s.ring.event _ has in
      inr (ground (arith, law old, written))
  Step-IsAwake law (pops s limit) a e has waiting = elim (pop_event s.ring limit) [
    | inl drained ↦ absurd (omega arith)
    | inr (same_event, fewer) ↦ a e (sym same_event ∙ has) (omega arith)
  ]

  -- No wakeup is lost: whatever the interleaving of pushes, their writes to the descriptor and
  -- pops from an empty ring on, if access units wait then the descriptor is readable or a
  -- producer is about to make it so.
  pub no_lost_wakeup :
      ((e : State) → F.readable (F.write_one e) ≡ true)
      → {s t : Shared State} → s.ring.count ≡ 0
      → Reach F s t
      → IsAwake F t
  no_lost_wakeup law empty here = λ e has waiting. absurd (omega arith)
  no_lost_wakeup law empty (next r st) = Step-IsAwake law st (no_lost_wakeup law empty r)
