-- ===== src/LpSession/Invariant.antt =====
-- What the frames that wait and those that libpeer was given have to do with each other.
use cam.Base.{
  ℕ, suc, ◌+◌, ◌≡◌, ◌⊎◌, refl, sym, ◌∙◌, inl, inr, true, false, ◌||◌, List, [], ◌∷◌, ◌++◌, arith,
  ◌==◌, Bool-cases, length, length-append,
}
use cam.LpSession.{
  mailbox, LpFrame, PcState, connected, failed, another, PcCall, changed, keyframe_requested,
  Libpeer, LpSession, take_frames, drop_frames, push_frame,
}

-- A connection that has been up at some time.
pub data WasUp : PcState → Type 0 where
  is_up : WasUp connected
  has_failed : WasUp failed
  is_over : WasUp another

-- peer_connection_loop() does not lead back to the states before the connection.
pub data GoesOn : PcCall → Type 0 where
  to_state : {st : PcState} → WasUp st → GoesOn (changed st)
  to_ask : GoesOn keyframe_requested

module _ (order : LpFrame → ℕ) where
  -- Newest first: each frame is an IDR frame or comes right behind the one before, and the first is one.
  unfoldable pub Chained : List LpFrame → Type 0
  Chained [] = Unit
  Chained (f ∷ []) = f.is_idr ≡ true
  Chained (f ∷ g ∷ h) = ((f.is_idr ≡ true) ⊎ (order f ≡ suc (order g))) × Chained (g ∷ h)

  -- The frames have the places from `m` on.
  unfoldable pub Contiguous : ℕ → List LpFrame → Type 0
  Contiguous m [] = Unit
  Contiguous m (f ∷ fs) = (order f ≡ m) × Contiguous (suc m) fs

  -- The place behind the newest.
  unfoldable pub Linked : List LpFrame → ℕ → Type 0
  Linked [] m = ⊥
  Linked (f ∷ h) m = suc (order f) ≡ m

  pub Contiguous-append :
      (m : ℕ) (fs : List LpFrame) (f : LpFrame)
      → Contiguous m fs
      → order f ≡ m + length fs
      → Contiguous m (fs ++ f ∷ [])
  unfolding Contiguous
  Contiguous-append m [] f c e = (omega (arith, e), tt)
  Contiguous-append m (g ∷ fs) f c e = (c.0, Contiguous-append (suc m) fs f c.1 (omega (arith, e)))

  pub Chained-idr : (f : LpFrame) (h : List LpFrame) → f.is_idr ≡ true → Chained h → Chained (f ∷ h)
  unfolding Chained
  Chained-idr f [] e c = e
  Chained-idr f (g ∷ h) e c = (inl e, c)

  pub Chained-next :
      (f : LpFrame) (h : List LpFrame) (m : ℕ)
      → order f ≡ m
      → Linked h m
      → Chained h
      → Chained (f ∷ h)
  unfolding Chained Linked
  Chained-next f [] m e l c = absurd l
  Chained-next f (g ∷ h) m e l c = (inr (e ∙ sym l), c)

  module _ {L : Libpeer} where
    -- What holds after `n` queued frames, with those that libpeer was given, newest first: where the
    -- batch and the queue begin, and what the session knows of a loss.
    pub record Inv (n : ℕ) (s : LpSession L) (h : List LpFrame) : Type 0 where
      pub first : ℕ
      pub later : ℕ
      pub batch_run : Contiguous first s.batch
      pub queue_run : Contiguous later s.queue
      pub ends : later + length s.queue ≡ n
      pub joins : (s.resync ≡ true) ⊎ (first + length s.batch ≡ later)
      pub link :
          (s.waiting_idr ≡ true)
          ⊎ (Linked h first)
          ⊎ ((s.batch ≡ []) × ((s.is_connected ≡ false) ⊎ (s.state ≡ failed) ⊎ (s.state ≡ another)))
      pub past : s.is_connected ≡ true → WasUp s.state
      pub chained : Chained h

    pub push-Inv :
        (n : ℕ) (s : LpSession L) (h : List LpFrame) (f : LpFrame)
        → order f ≡ n
        → (push_frame L s f).0 ≡ true
        → Inv n s h
        → Inv (suc n) (push_frame L s f).1 h
    unfolding push_frame Contiguous
    push-Inv n s h f e accepted i = elim (Bool-cases (s.stop || s.finished)) [
      | inl over ↦ absurd (ground (arith, rw (push_frame, over) at accepted))
      | inr on ↦ elim (Bool-cases (length s.queue == mailbox)) [
        | inl full ↦
            rw (push_frame, on, full)
              (record {
                first = i.first;
                later = n;
                batch_run = i.batch_run;
                queue_run = (e, tt);
                ends = omega arith;
                joins = inl refl;
                link = i.link;
                past = i.past;
                chained = i.chained;
              })
        | inr room ↦
            rw (push_frame, on, room)
              (record {
                first = i.first;
                later = i.later;
                batch_run = i.batch_run;
                queue_run = Contiguous-append i.later s.queue f i.queue_run (e ∙ sym i.ends);
                ends = omega (arith, length-append s.queue (f ∷ []), i.ends);
                joins = i.joins;
                link = i.link;
                past = i.past;
                chained = i.chained;
              })
      ]
    ]

    pub drop-Inv :
        (n : ℕ) (s : LpSession L) (h : List LpFrame)
        → s.batch ≡ []
        → (s.is_connected ≡ false) ⊎ (s.state ≡ failed) ⊎ (s.state ≡ another)
        → Inv n s h
        → Inv n (drop_frames L s) h
    unfolding drop_frames take_frames Contiguous
    drop-Inv n s h empty lost i = record {
      first = n;
      later = n;
      batch_run = rw empty tt;
      queue_run = tt;
      ends = omega arith;
      joins = inr (rw empty (omega arith));
      link = inr (inr (empty, lost));
      past = i.past;
      chained = i.chained;
    }

    -- The invariant looks at these fields only.
    abbrev pub Alike : LpSession L → LpSession L → Type 0
    Alike s t =
        (t.queue ≡ s.queue)
        × (t.batch ≡ s.batch)
        × (t.resync ≡ s.resync)
        × (t.waiting_idr ≡ s.waiting_idr)
        × (t.is_connected ≡ s.is_connected)
        × (t.state ≡ s.state)

    pub Alike-Inv :
        (n : ℕ) (s t : LpSession L) (h : List LpFrame) → Alike s t → Inv n s h → Inv n t h
    Alike-Inv n s t h (q, b, r, w, c, st) i = record {
      first = i.first;
      later = i.later;
      batch_run = rw b i.batch_run;
      queue_run = rw q i.queue_run;
      ends = rw q i.ends;
      joins = rw (r, b) i.joins;
      link = rw (w, b, c, st) i.link;
      past = rw (c, st) i.past;
      chained = i.chained;
    }
