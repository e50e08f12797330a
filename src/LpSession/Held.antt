-- ===== src/LpSession/Held.antt =====
-- The references to frames that a session has taken.
use cam.Base.{
  ℕ, suc, ◌+◌, ◌-◌, ◌%◌, ◌^◌, ◌≡◌, refl, ap, ◌∙◌, inl, inr, Bool, true, false, ◌&&◌, ◌||◌, not,
  Option, none, some, List, [], ◌∷◌, arith, ltb, ◌==◌, if_elim, Bool-cases, Option-cases, length,
  length-append, some,
}
use cam.Base.Bytes.{count64}
use cam.H264.{au_scan}
use cam.LpSession.{
  mailbox, answer_timeout_ms, connect_timeout_ms, LpFrame, PcState, created, checking, connected,
  failed, another, PcCall, changed, keyframe_requested, Libpeer, EndReason, LpSession, called,
  all_called, take_frames, drop_frames, begin_send, count_slices, send_frame, send_next, connect,
  negotiate, run_loop, thread_round, set_answer, push_frame, connection_lost, end_thread,
  resync_session, close_session,
}
use cam.LpSession.Decodable.{
  Run, begun, pushes, resyncs, closes, answers, rounds, finishes, sends_on,
}

module _ {L : Libpeer} where
  -- The references given back, and the frames that wait.
  abbrev pub held : LpSession L → ℕ
  held s = s.released + length s.batch + length s.queue

  abbrev Keeps : LpSession L → LpSession L → Type 0
  Keeps s t = held t ≡ held s

  -- The fields that count.
  abbrev Same : LpSession L → LpSession L → Type 0
  Same s t = (t.queue ≡ s.queue) × (t.batch ≡ s.batch) × (t.released ≡ s.released)

  Keeps-of_Same : (s t : LpSession L) → Same s t → Keeps s t
  Keeps-of_Same s t (q, b, r) = rw (q, b, r) refl

  all_called-Same : (s : LpSession L) (cs : List PcCall) → Same s (all_called L s cs)
  unfolding all_called called
  all_called-Same s [] = (refl, refl, refl)
  all_called-Same s (changed state ∷ cs) = all_called-Same (record s { state = state }) cs
  all_called-Same s (keyframe_requested ∷ cs) =
      all_called-Same
        (record s { keyframe_requests = count64 s.keyframe_requests 1; force_idr = true }) cs

  drop-Keeps : (s : LpSession L) → Keeps s (drop_frames L s)
  unfolding drop_frames take_frames
  drop-Keeps s = omega arith

  send-Same : (s : LpSession L) (f : LpFrame) → Same s (send_frame L (count_slices L s f) f)
  unfolding send_frame count_slices
  send-Same s f =
      let slices : Same s (count_slices L s f) = elim (Option-cases (au_scan f.data_)) [
        | inl endless ↦ rw (count_slices, endless) (refl, refl, refl)
        | inr (info, scanned) ↦
            rw (count_slices, scanned)
              (if_elim (Same s) (ltb 1 info.slice_count) (λ several. (refl, refl, refl))
                (λ one. (refl, refl, refl)))
      ] in
      if_elim (Same s) (L.send_video (count_slices L s f).pc f.data_).0 (λ sent. slices)
        (λ lost. slices)

  send_next-Keeps : (s : LpSession L) → Keeps s (send_next L s).1
  unfolding send_next
  send_next-Keeps s = go s.batch refl
    where
      go : (batch : List LpFrame) → s.batch ≡ batch → Keeps s (send_next L s).1
      go [] e = rw (send_next, e) (ap (λ batch. s.released + length batch + length s.queue) e)
      go (f ∷ rest) e = elim (Bool-cases (s.waiting_idr && not f.is_idr)) [
        | inl unfit ↦ rw (send_next, e, unfit) (omega arith)
        | inr fit ↦
            let (q, b, r) =
              send-Same (record s { batch = rest; released = s.released + 1; waiting_idr = false })
                f in
            rw (send_next, e, fit) (rw (q, b, r) (omega arith))
      ]

  connect-Same : (s : LpSession L) (now : ℕ) → Same s (connect L s now)
  unfolding connect
  connect-Same s now =
      if_elim (Same s) s.is_connected (λ old. (refl, refl, refl)) (λ new. (refl, refl, refl))

  begin-Keeps : (s : LpSession L) → s.batch ≡ [] → Keeps s (begin_send L s)
  unfolding begin_send take_frames
  begin-Keeps s e =
      let moved : s.released + length s.queue + 0 ≡ held s = rw e (omega arith) in
      if_elim (λ (t : LpSession L). Keeps s t) (s.resync && not s.waiting_idr) (λ loss. moved)
        (λ none_lost. moved)

  abbrev KeepsRound : LpSession L → Option EndReason × LpSession L → Type 0
  KeepsRound s r = Keeps s r.1

  negotiate-Keeps : (s : LpSession L) (now answered : ℕ) → KeepsRound s (negotiate L s now answered)
  unfolding negotiate
  negotiate-Keeps s now answered = elim (Option-cases s.answer) [
    | inl silent ↦
        rw (negotiate, silent)
          (if_elim (KeepsRound s) (ltb answer_timeout_ms ((now + 2 ^ 64 - s.created_ms) % 2 ^ 64))
            (λ late. dropped) (λ early. dropped))
    | inr (sdp, found) ↦
        let (pc, calls) = L.set_remote_description waited.pc sdp in
        rw (negotiate, found)
          (Keeps-of_Same (record waited { pc = pc })
              (all_called L (record waited { pc = pc }) calls)
              (all_called-Same (record waited { pc = pc }) calls)
            ∙ dropped)
  ]
    where
      waited : LpSession L
      waited = drop_frames L (record s { answer = none })

      dropped : Keeps s waited
      dropped = drop-Keeps (record s { answer = none })

  run_loop-Keeps : (s : LpSession L) (now : ℕ) → s.batch ≡ [] → KeepsRound s (run_loop L s now)
  unfolding run_loop
  run_loop-Keeps s now empty = go after.state refl
    where
      after : LpSession L
      after = all_called L (record s { pc = (L.loop s.pc).0 }) (L.loop s.pc).1

      same : Same s after
      same = all_called-Same (record s { pc = (L.loop s.pc).0 }) (L.loop s.pc).1

      dropped : Keeps s (drop_frames L after)
      dropped = drop-Keeps after ∙ Keeps-of_Same s after same

      begun_ : Keeps s (begin_send L (connect L after now))
      begun_ =
          let up = connect-Same after now in
          begin-Keeps (connect L after now) (up.1 ∙ (same.1 ∙ empty))
          ∙ (Keeps-of_Same after (connect L after now) up ∙ Keeps-of_Same s after same)

      go : (st : PcState) → after.state ≡ st → KeepsRound s (run_loop L s now)
      go connected e = rw (run_loop, e) begun_
      go checking e =
          rw (run_loop, e)
            (if_elim (KeepsRound s)
              (ltb connect_timeout_ms ((now + 2 ^ 64 - after.answered_ms) % 2 ^ 64))
              (λ late. dropped) (λ early. dropped))
      go created e = rw (run_loop, e) dropped
      go failed e = rw (run_loop, e) dropped
      go another e = rw (run_loop, e) dropped

  round-Keeps :
      (s : LpSession L) (now answered looped : ℕ)
      → s.batch ≡ []
      → KeepsRound s (thread_round L s now answered looped)
  unfolding thread_round
  round-Keeps s now answered looped empty =
      if_elim (KeepsRound s) s.stop (λ stopped. refl) (λ on. go s.state)
    where
      go :
          (st : PcState)
          → KeepsRound s (elim st [
            | created ↦ negotiate L s now answered
            | checking ↦ run_loop L s looped
            | connected ↦ run_loop L s looped
            | failed ↦ (some connection_lost, s)
            | another ↦ (some connection_lost, s)
          ])
      go created = negotiate-Keeps s now answered
      go checking = run_loop-Keeps s looped empty
      go connected = run_loop-Keeps s looped empty
      go failed = refl
      go another = refl

  push-held :
      (s : LpSession L) (f : LpFrame)
      → (push_frame L s f).0 ≡ true
      → held (push_frame L s f).1 ≡ suc (held s)
  unfolding push_frame
  push-held s f accepted = elim (Bool-cases (s.stop || s.finished)) [
    | inl over ↦ absurd (ground (arith, rw (push_frame, over) at accepted))
    | inr on ↦ elim (Bool-cases (length s.queue == mailbox)) [
      | inl full ↦ rw (push_frame, on, full) (omega arith)
      | inr room ↦ rw (push_frame, on, room) (omega (arith, length-append s.queue (f ∷ [])))
    ]
  ]

  -- From a session that holds no frame and has given none back, whatever the threads do in between:
  -- of the references that it took with the frames that it queued, each was given back once or its
  -- frame still waits.
  pub references_balance :
      (order : LpFrame → ℕ) (start : LpSession L) (n : ℕ) (s : LpSession L) (h : List LpFrame)
      → held start ≡ 0
      → Run order L start n s h
      → s.released + length s.batch + length s.queue ≡ n
  unfolding resync_session close_session set_answer end_thread
  references_balance order start n s h e begun = e
  references_balance order start (suc n) s h e (pushes {s = t} f run place ok) =
      push-held t f ok ∙ ap suc (references_balance order start n t h e run)
  references_balance order start n s h e (resyncs {s = t} run) =
      references_balance order start n t h e run
  references_balance order start n s h e (closes {s = t} run) =
      references_balance order start n t h e run
  references_balance order start n s h e (answers {s = t} sdp candidates run) =
      if_elim (λ (r : Bool × LpSession L). Keeps t r.1) (t.answer_taken || (t.stop || t.finished))
        (λ late. refl) (λ first. refl)
      ∙ references_balance order start n t h e run
  references_balance order start n s h e
        (rounds {s = t} now answered looped run on empty goes_on_) =
      round-Keeps t now answered looped empty ∙ references_balance order start n t h e run
  references_balance order start n s h e
        (finishes {s = t} reason now answered looped run on empty over) =
      drop-Keeps (thread_round L t now answered looped).1
      ∙ (round-Keeps t now answered looped empty ∙ references_balance order start n t h e run)
  references_balance order start n s h e (sends_on {s = t} {h = g} run on) =
      send_next-Keeps t ∙ references_balance order start n t g e run
