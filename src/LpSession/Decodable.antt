-- ===== src/LpSession/Decodable.antt =====
-- A viewer starts, and restarts after a loss, on an IDR frame, whatever the threads do in between.
use cam.Base.{
  ℕ, suc, ◌≡◌, ◌⊎◌, refl, ◌∙◌, inl, inr, Bool, true, false, ◌||◌, none, some, List, [], arith,
  if_elim, All,
}
use cam.LpSession.{
  LpFrame, Libpeer, EndReason, LpSession, send_next, thread_round, end_thread, set_answer,
  push_frame, resync_session, close_session,
}
use cam.LpSession.Invariant.{GoesOn, Chained, Contiguous, Inv, push-Inv, Alike, Alike-Inv}
use cam.LpSession.Sending.{given, send_next-Inv}
use cam.LpSession.Rounds.{round-Inv}

module _ (order : LpFrame → ℕ) (L : Libpeer) where
  -- From a new session on, with the number of frames that it has queued, and those that libpeer was
  -- given, newest first. The frames are pushed in the order of their places. A round of the session
  -- thread begins when it has dealt with its batch; whatever the others do may come in between. The
  -- round that gives a reason is the last one, and the end of the thread follows it.
  pub data Run (start : LpSession L) : ℕ → LpSession L → List LpFrame → Type 0 where
    begun : Run start 0 start []
    pushes :
        {n : ℕ} {s : LpSession L} {h : List LpFrame} (f : LpFrame)
        → Run start n s h
        → order f ≡ n
        → (push_frame L s f).0 ≡ true
        → Run start (suc n) (push_frame L s f).1 h
    resyncs :
        {n : ℕ} {s : LpSession L} {h : List LpFrame}
        → Run start n s h
        → Run start n (resync_session L s) h
    closes :
        {n : ℕ} {s : LpSession L} {h : List LpFrame}
        → Run start n s h
        → Run start n (close_session L s) h
    answers :
        {n : ℕ} {s : LpSession L} {h : List LpFrame} (sdp : List ℕ) (candidates : ℕ)
        → Run start n s h
        → Run start n (set_answer L s sdp candidates).1 h
    rounds :
        {n : ℕ} {s : LpSession L} {h : List LpFrame} (now answered looped : ℕ)
        → Run start n s h
        → s.finished ≡ false
        → s.batch ≡ []
        → (thread_round L s now answered looped).0 ≡ none
        → Run start n (thread_round L s now answered looped).1 h
    finishes :
        {n : ℕ} {s : LpSession L} {h : List LpFrame} (reason : EndReason) (now answered looped : ℕ)
        → Run start n s h
        → s.finished ≡ false
        → s.batch ≡ []
        → (thread_round L s now answered looped).0 ≡ some reason
        → Run start n (end_thread L (thread_round L s now answered looped).1) h
    sends_on :
        {n : ℕ} {s : LpSession L} {h : List LpFrame}
        → Run start n s h
        → s.finished ≡ false
        → Run start n (send_next L s).1 (given (send_next L s).0 h)

  -- Until the thread has finished, the invariant; afterwards, what it says of the frames given.
  abbrev Holds : ℕ → LpSession L → List LpFrame → Type 0
  Holds n s h = Inv order n s h ⊎ ((s.finished ≡ true) × Chained order h)

  not_finished :
      (n : ℕ) (s : LpSession L) (h : List LpFrame)
      → Holds n s h
      → s.finished ≡ false
      → Inv order n s h
  not_finished n s h (inl i) on = i
  not_finished n s h (inr over) on = absurd (ground (arith, over, on))

  -- A step that leaves the frames.
  like :
      (n : ℕ) (s t : LpSession L) (h : List LpFrame)
      → Alike order s t
      → t.finished ≡ s.finished
      → Holds n s h
      → Holds n t h
  like n s t h same e (inl i) = inl (Alike-Inv order n s t h same i)
  like n s t h same e (inr (over, chained)) = inr (e ∙ over, chained)

  resync-Inv :
      (n : ℕ) (s : LpSession L) (h : List LpFrame)
      → Inv order n s h
      → Inv order n (resync_session L s) h
  unfolding resync_session
  resync-Inv n s h j = record {
    first = j.first;
    later = j.later;
    batch_run = j.batch_run;
    queue_run = j.queue_run;
    ends = j.ends;
    joins = inl refl;
    link = j.link;
    past = j.past;
    chained = j.chained;
  }

  push-Holds :
      (n : ℕ) (s : LpSession L) (h : List LpFrame) (f : LpFrame)
      → order f ≡ n
      → (push_frame L s f).0 ≡ true
      → Holds n s h
      → Holds (suc n) (push_frame L s f).1 h
  unfolding push_frame
  push-Holds n s h f e ok (inl i) = inl (push-Inv order n s h f e ok i)
  push-Holds n s h f e ok (inr (over, chained)) =
      let shut : (s.stop || s.finished) ≡ true = ground (arith, over) in
      absurd (ground (arith, rw (push_frame, shut) at ok))

  Run-Holds :
      (start : LpSession L) (n : ℕ) (s : LpSession L) (h : List LpFrame)
      → ((pc : L.Pc) → All GoesOn (L.loop pc).1)
      → Inv order 0 start []
      → Run start n s h
      → Holds n s h
  unfolding resync_session close_session set_answer end_thread
  Run-Holds start n s h forward i begun = inl i
  Run-Holds start (suc n) s h forward i (pushes {s = t} f run e ok) =
      push-Holds n t h f e ok (Run-Holds start n t h forward i run)
  Run-Holds start n s h forward i (resyncs {s = t} run) =
      elim (Run-Holds start n t h forward i run) [
        | inl j ↦ inl (resync-Inv n t h j)
        | inr over ↦ inr over
      ]
  Run-Holds start n s h forward i (closes {s = t} run) =
      like n t (close_session L t) h (refl, refl, refl, refl, refl, refl) refl
        (Run-Holds start n t h forward i run)
  Run-Holds start n s h forward i (answers {s = t} sdp candidates run) =
      let (same, e) : Alike order t s × (s.finished ≡ t.finished) =
        if_elim (λ (r : Bool × LpSession L). Alike order t r.1 × (r.1.finished ≡ t.finished))
          (t.answer_taken || (t.stop || t.finished))
          (λ late. ((refl, refl, refl, refl, refl, refl), refl))
          (λ first. ((refl, refl, refl, refl, refl, refl), refl)) in
      like n t s h same e (Run-Holds start n t h forward i run)
  Run-Holds start n s h forward i (rounds {s = t} now answered looped run on empty goes_on_) =
      let j = not_finished n t h (Run-Holds start n t h forward i run) on in
      inl (round-Inv order n t h now answered looped (forward t.pc) empty j)
  Run-Holds start n s h forward i (finishes {s = t} reason now answered looped run on empty over) =
      let j = not_finished n t h (Run-Holds start n t h forward i run) on in
      inr (refl, (round-Inv order n t h now answered looped (forward t.pc) empty j).chained)
  Run-Holds start n s h forward i (sends_on {s = t} {h = g} run on) =
      inl (send_next-Inv order n t g (not_finished n t g (Run-Holds start n t g forward i run) on))

  Holds-Chained : (n : ℕ) (s : LpSession L) (h : List LpFrame) → Holds n s h → Chained order h
  Holds-Chained n s h (inl i) = i.chained
  Holds-Chained n s h (inr (over, chained)) = chained

  -- Let peer_connection_loop() not lead back to the states before the connection, and the frames be
  -- pushed in the order of their places, from 0 on. From a session without frames that was not yet
  -- connected, whatever the threads do in between: of the frames that libpeer is given, the first is
  -- an IDR frame, and each later one is an IDR frame or the one queued right behind the one before.
  pub given_Chained :
      (start : LpSession L) (n : ℕ) (s : LpSession L) (h : List LpFrame)
      → ((pc : L.Pc) → All GoesOn (L.loop pc).1)
      → start.queue ≡ []
      → start.batch ≡ []
      → start.is_connected ≡ false
      → Run start n s h
      → Chained order h
  unfolding Contiguous Chained
  given_Chained start n s h forward q b down run =
      let fresh : Inv order 0 start [] = record {
        first = 0;
        later = 0;
        batch_run = rw b tt;
        queue_run = rw q tt;
        ends = rw q (omega arith);
        joins = inr (rw b (omega arith));
        link = inr (inr (b, inl down));
        past = λ up. absurd (ground (arith, up, down));
        chained = tt;
      } in
      Holds-Chained n s h (Run-Holds start n s h forward fresh run)
