-- ===== src/LpSession/Rounds.antt =====
-- A round of the session thread, up to the sending.
use cam.Base.{
  ℕ, ◌+◌, ◌-◌, ◌%◌, ◌^◌, ◌≡◌, ◌≢◌, refl, sym, subst, ◌∙◌, inl, inr, true, false, Option, none, some,
  List, [], ◌∷◌, arith, ltb, if_elim, Bool-cases, All,
}
use cam.Base.Bytes.{count64}
use cam.LpSession.{
  answer_timeout_ms, connect_timeout_ms, LpFrame, PcState, created, checking, connected, failed,
  another, PcCall, changed, keyframe_requested, Libpeer, EndReason, LpSession, called, all_called,
  take_frames, drop_frames, begin_send, connect, negotiate, run_loop, thread_round, connection_lost,
}
use cam.LpSession.Invariant.{WasUp, GoesOn, to_state, to_ask, Inv, drop-Inv, Alike-Inv}
use cam.LpSession.Sending.{connect-Aware, connect-batch, begin-Inv}

module _ (order : LpFrame → ℕ) {L : Libpeer} where
  -- The callbacks of libpeer leave all that the frames depend on.
  all_called-keeps :
      (s : LpSession L) (cs : List PcCall)
      → ((all_called L s cs).queue ≡ s.queue)
        × ((all_called L s cs).batch ≡ s.batch)
        × ((all_called L s cs).resync ≡ s.resync)
        × ((all_called L s cs).waiting_idr ≡ s.waiting_idr)
        × ((all_called L s cs).is_connected ≡ s.is_connected)
  unfolding all_called called
  all_called-keeps s [] = (refl, refl, refl, refl, refl)
  all_called-keeps s (changed state ∷ cs) = all_called-keeps (record s { state = state }) cs
  all_called-keeps s (keyframe_requested ∷ cs) =
      all_called-keeps
        (record s { keyframe_requests = count64 s.keyframe_requests 1; force_idr = true }) cs

  all_called-WasUp :
      (s : LpSession L) (cs : List PcCall)
      → All GoesOn cs
      → WasUp s.state
      → WasUp (all_called L s cs).state
  unfolding all_called called
  all_called-WasUp s [] hs up = up
  all_called-WasUp s (changed state ∷ cs) (to_state new, hs) up =
      all_called-WasUp (record s { state = state }) cs hs new
  all_called-WasUp s (keyframe_requested ∷ cs) (to_ask, hs) up =
      all_called-WasUp
        (record s { keyframe_requests = count64 s.keyframe_requests 1; force_idr = true }) cs hs up

  -- Callbacks while no batch is out, when the connection was never up or has not been lost yet.
  calls-Inv :
      (n : ℕ) (s : LpSession L) (h : List LpFrame) (cs : List PcCall)
      → s.batch ≡ []
      → (s.state ≢ failed) × (s.state ≢ another)
      → ((all_called L s cs).is_connected ≡ true → WasUp (all_called L s cs).state)
      → Inv order n s h
      → Inv order n (all_called L s cs) h
  calls-Inv n s h cs empty alive past i =
      let (q, b, r, w, c) = all_called-keeps s cs in
      record {
        first = i.first;
        later = i.later;
        batch_run = rw b i.batch_run;
        queue_run = rw q i.queue_run;
        ends = rw q i.ends;
        joins = rw (r, b) i.joins;
        link = elim i.link [
          | inl waiting ↦ inl (w ∙ waiting)
          | inr (inl linked) ↦ inr (inl linked)
          | inr (inr (none_out, inl down)) ↦ inr (inr (b ∙ empty, inl (c ∙ down)))
          | inr (inr (none_out, inr (inl lost))) ↦ absurd (alive.0 lost)
          | inr (inr (none_out, inr (inr lost))) ↦ absurd (alive.1 lost)
        ];
        past = past;
        chained = i.chained;
      }

  never_up :
      (s : LpSession L)
      → (s.is_connected ≡ true → WasUp s.state)
      → (WasUp s.state → ⊥)
      → s.is_connected ≡ false
  never_up s past not_up = elim (Bool-cases s.is_connected) [
    | inl up ↦ absurd (not_up (past up))
    | inr down ↦ down
  ]

  negotiate-Inv :
      (n : ℕ) (s : LpSession L) (h : List LpFrame) (now answered : ℕ)
      → s.batch ≡ []
      → s.state ≡ created
      → Inv order n s h
      → Inv order n (negotiate L s now answered).1 h
  unfolding negotiate drop_frames take_frames
  negotiate-Inv n s h now answered empty fresh i = go s.answer refl
    where
      down : s.is_connected ≡ false
      down = never_up s i.past (λ up. not_created (subst WasUp fresh up))
        where
          not_created : WasUp created → ⊥
          not_created u = elim u [ ]

      waited : LpSession L
      waited = drop_frames L (record s { answer = none })

      waited-Inv : Inv order n waited h
      waited-Inv =
          drop-Inv order n (record s { answer = none }) h empty (inl down)
            (Alike-Inv order n s (record s { answer = none }) h (refl, refl, refl, refl, refl, refl)
              i)

      go :
          (answer : Option (List ℕ))
          → s.answer ≡ answer
          → Inv order n (negotiate L s now answered).1 h
      go none e =
          rw (negotiate, e)
            (if_elim (λ (r : Option EndReason × LpSession L). Inv order n r.1 h)
              (ltb answer_timeout_ms ((now + 2 ^ 64 - s.created_ms) % 2 ^ 64)) (λ late. waited-Inv)
              (λ early. waited-Inv))
      go (some sdp) e =
          let (pc, calls) = L.set_remote_description s.pc sdp in
          let start = record waited { pc = pc } in
          let (q, b, r, w, c) = all_called-keeps start calls in
          rw (negotiate, e)
            (Alike-Inv order n (all_called L start calls) _ h (refl, refl, refl, refl, refl, refl)
              (calls-Inv n start h calls empty
                ((λ x. absurd (ground (arith, fresh, x))), (λ x. absurd (ground (arith, fresh, x))))
                (λ up. absurd (ground (arith, up, c, down)))
                (Alike-Inv order n waited start h (refl, refl, refl, refl, refl, refl) waited-Inv)))

  run_loop-Inv :
      (n : ℕ) (s : LpSession L) (h : List LpFrame) (now : ℕ)
      → All GoesOn (L.loop s.pc).1
      → s.batch ≡ []
      → (s.state ≢ failed) × (s.state ≢ another)
      → Inv order n s h
      → Inv order n (run_loop L s now).1 h
  unfolding run_loop
  run_loop-Inv n s h now forward empty alive i = go after.state refl
    where
      start : LpSession L
      start = record s { pc = (L.loop s.pc).0 }

      after : LpSession L
      after = all_called L start (L.loop s.pc).1

      after-Inv : Inv order n after h
      after-Inv =
          let (q, b, r, w, c) = all_called-keeps start (L.loop s.pc).1 in
          calls-Inv n start h (L.loop s.pc).1 empty alive
            (λ up. all_called-WasUp start (L.loop s.pc).1 forward (i.past (sym c ∙ up)))
            (Alike-Inv order n s start h (refl, refl, refl, refl, refl, refl) i)

      none_out : after.batch ≡ []
      none_out = (all_called-keeps start (L.loop s.pc).1).1 ∙ empty

      up_now : (after.state ≡ connected) → Inv order n (begin_send L (connect L after now)) h
      up_now e =
          begin-Inv order n (connect L after now) h (connect-batch order after now ∙ none_out)
            (connect-Aware order n after h now e after-Inv)

      down_now :
          (st : PcState) → after.state ≡ st → (WasUp st → ⊥) → Inv order n (drop_frames L after) h
      down_now st e not_up =
          drop-Inv order n after h none_out
            (inl (never_up after after-Inv.past (λ up. not_up (subst WasUp e up)))) after-Inv

      go : (st : PcState) → after.state ≡ st → Inv order n (run_loop L s now).1 h
      go connected e = rw (run_loop, e) (up_now e)
      go checking e =
          rw (run_loop, e)
            (if_elim (λ (r : Option EndReason × LpSession L). Inv order n r.1 h)
              (ltb connect_timeout_ms ((now + 2 ^ 64 - after.answered_ms) % 2 ^ 64))
              (λ late. down_now checking e (λ u. elim u [ ]))
              (λ early. down_now checking e (λ u. elim u [ ])))
      go created e = rw (run_loop, e) (down_now created e (λ u. elim u [ ]))
      go failed e = rw (run_loop, e) (drop-Inv order n after h none_out (inr (inl e)) after-Inv)
      go another e = rw (run_loop, e) (drop-Inv order n after h none_out (inr (inr e)) after-Inv)

  pub round-Inv :
      (n : ℕ) (s : LpSession L) (h : List LpFrame) (now answered looped : ℕ)
      → All GoesOn (L.loop s.pc).1
      → s.batch ≡ []
      → Inv order n s h
      → Inv order n (thread_round L s now answered looped).1 h
  unfolding thread_round
  round-Inv n s h now answered looped forward empty i =
      if_elim (λ (r : Option EndReason × LpSession L). Inv order n r.1 h) s.stop (λ stopped. i)
        (λ on. go s.state refl)
    where
      case : PcState → Option EndReason × LpSession L
      case st = elim st [
        | created ↦ negotiate L s now answered
        | checking ↦ run_loop L s looped
        | connected ↦ run_loop L s looped
        | failed ↦ (some connection_lost, s)
        | another ↦ (some connection_lost, s)
      ]

      go : (st : PcState) → s.state ≡ st → Inv order n (case st).1 h
      go created e = negotiate-Inv n s h now answered empty e i
      go checking e =
          run_loop-Inv n s h looped forward empty
            ((λ x. absurd (ground (arith, e, x))), (λ x. absurd (ground (arith, e, x)))) i
      go connected e =
          run_loop-Inv n s h looped forward empty
            ((λ x. absurd (ground (arith, e, x))), (λ x. absurd (ground (arith, e, x)))) i
      go failed e = i
      go another e = i
