-- ===== src/Session/Closing/Outward.antt =====
-- What goes to the peer does not close the session, and the timers close it at most once.
use cam.Base.{
  ℕ, ◌≡◌, refl, ◌∙◌, Bool, true, false, ◌&&◌, ◌||◌, not, Option, none, some, List, [], ◌∷◌, arith,
  ltb, leb, if_elim, if◌then◌else◌, Option-cases, Bool-cases, All, Yields, >>=-Yields, Yields-some,
  inl, inr, length,
}
use cam.Rtp.{Sent, packetize, timestamp_at}
use cam.Rtcp.{build_sender_report}
use cam.Dtls.Transport.{Callback, Transport, IsSend}
use cam.Session.{
  ice, streaming, ended, same_state, Host, Clock, RtcSession, Step, count64, idle_timeout_ms,
  dtls_watchdog_ms, close, after_call,
}
use cam.Session.Outbound.{
  rtp_packet_sink, remember, sink_all, count_frame, send_frame, send_access_unit, send_report, age,
  tick,
}
use cam.Session.Closing.{
  tells-append, live_of_open, Accounts, Accounts-append, sends_quiet, silent, IsQuiet,
  quiet-Accounts, request_idr-state, close-Accounts, after_call-Accounts,
}

module _ {H : Host} {T : Transport} where
  -- The callback of a packet that is sent.
  sends_only :
      (clock : Clock) (s : RtcSession H T) (r : T.State × List Callback)
      → All IsSend r.1
      → IsQuiet s.state (after_call H T clock s r)
  sends_only clock s r sending =
      sends_quiet clock (close H T clock) (record s { transport = r.0 }) r.1 sending

  rtp_packet_sink-IsQuiet :
      (clock : Clock) (s : RtcSession H T) (packet : Sent)
      → Yields (IsQuiet s.state) (rtp_packet_sink H T clock s packet)
  unfolding rtp_packet_sink remember
  rtp_packet_sink-IsQuiet clock s packet =
      let after =
        sends_only clock s
          ((T.send_rtp s.transport packet.packet).1, (T.send_rtp s.transport packet.packet).2)
          (T.send_rtp-IsSend s.transport packet.packet) in
      if_elim (Yields (IsQuiet s.state))
        (ltb 1264 (length packet.packet) || ltb (length packet.packet) 12) (λ unfit. (refl, refl))
        (λ fits. elim (Option-cases (T.send_rtp s.transport packet.packet).0) [
          | inl failing ↦ rw failing after
          | inr (bytes, protected) ↦ rw protected (
              if_elim (Yields (IsQuiet s.state)) (ltb 1264 (length bytes)) (λ over. tt)
                (λ room. after))
        ])

  sink_all-IsQuiet :
      (clock : Clock) (s : RtcSession H T) (packets : List Sent)
      → Yields (IsQuiet s.state) (sink_all H T clock s packets)
  unfolding sink_all
  sink_all-IsQuiet clock s [] = (refl, refl)
  sink_all-IsQuiet clock s (packet ∷ packets) =
      >>=-Yields (IsQuiet s.state) (rtp_packet_sink H T clock s packet) _ (λ r e.
        >>=-Yields (IsQuiet s.state) (sink_all H T clock r.0 packets) _ (λ r' e'.
          let (quiet, same) =
            Yields-some (IsQuiet s.state) (rtp_packet_sink H T clock s packet)
              (rtp_packet_sink-IsQuiet clock s packet) e in
          let (quiet', same') =
            Yields-some (IsQuiet r.0.state) (sink_all H T clock r.0 packets)
              (sink_all-IsQuiet clock r.0 packets) e' in
          (tells-append r.1 r'.1 ∙ omega (arith, quiet, quiet'), same' ∙ same)))

  send_frame-IsQuiet :
      (clock : Clock) (s : RtcSession H T) (au : List ℕ) (pts_us : ℕ) (is_idr : Bool)
      → Yields (IsQuiet s.state) (send_frame H T clock s au pts_us is_idr)
  unfolding send_frame count_frame
  send_frame-IsQuiet clock s au pts_us is_idr = elim (Option-cases (packetize s.rtp au pts_us)) [
    | inl endless ↦ rw (send_frame, endless) tt
    | inr ((packets, rtp'), cut) ↦ elim (Option-cases packets) [
      | inl empty ↦ rw (send_frame, cut, empty) (refl, refl)
      | inr (parts, some_parts) ↦
          rw (send_frame, cut, some_parts)
            (>>=-Yields (IsQuiet s.state) (sink_all H T clock (record s { rtp = rtp' }) parts) _
              (λ r e.
                let (quiet, same) =
                  Yields-some (IsQuiet s.state) (sink_all H T clock (record s { rtp = rtp' }) parts)
                    (sink_all-IsQuiet clock (record s { rtp = rtp' }) parts) e in
                (
                  quiet,
                  if_elim (λ (s' : RtcSession H T). s'.state ≡ s.state) (ltb 0 (length parts))
                      (λ out. same) (λ nothing_out. same),
                )))
    ]
  ]

  pub send_access_unit-Accounts :
      (clock : Clock) (s : RtcSession H T) (au : List ℕ) (pts_us : ℕ) (is_idr : Bool)
      → Yields (Accounts s.state) (send_access_unit H T clock s au pts_us is_idr)
  unfolding send_access_unit
  send_access_unit-Accounts clock s au pts_us is_idr =
      if_elim (Yields (Accounts s.state)) (not (same_state s.state streaming))
        (λ early. silent s.state (s, []) refl refl)
        (λ up.
          if_elim (Yields (Accounts s.state)) is_idr
            (λ key.
              weaken
                (send_frame H T clock
                  (record s {
                    idr_requested = false;
                    stats = record s.stats { waiting_keyframe = false };
                  })
                  au pts_us true)
                (send_frame-IsQuiet clock
                  (record s {
                    idr_requested = false;
                    stats = record s.stats { waiting_keyframe = false };
                  })
                  au pts_us true))
            (λ delta.
              if_elim (Yields (Accounts s.state)) s.stats.waiting_keyframe
                (λ waiting. quiet-Accounts s.state _ (
                  request_idr-state clock (record s {
                    stats = record s.stats { frames_held = count64 s.stats.frames_held 1 };
                  })))
                (λ flowing.
                  weaken (send_frame H T clock s au pts_us false)
                    (send_frame-IsQuiet clock s au pts_us false))))
    where
      weaken : (o : Option (Step H T)) → Yields (IsQuiet s.state) o → Yields (Accounts s.state) o
      weaken none h = tt
      weaken (some r) h = quiet-Accounts s.state r h

  send_report-IsQuiet :
      (clock : Clock) (s : RtcSession H T) (now : ℕ) → IsQuiet s.state (send_report H T clock s now)
  unfolding send_report
  send_report-IsQuiet clock s now =
      let sr =
        build_sender_report s.rtp.ssrc clock.wall_us (timestamp_at s.rtp clock.mono_us)
          s.rtp.packets s.rtp.octets in
      let after =
        sends_only clock s ((T.send_rtcp s.transport sr).1, (T.send_rtcp s.transport sr).2)
          (T.send_rtcp-IsSend s.transport sr) in
      elim (Bool-cases (ltb 0 s.stats.frames_sent)) [
        | inr early ↦ rw (send_report, early) (refl, refl)
        | inl due ↦ elim (Option-cases (T.send_rtcp s.transport sr).0) [
          | inl failing ↦ rw (send_report, due, failing) after
          | inr (bytes, protected) ↦ rw (send_report, due, protected) after
        ]
      ]

  pub tick-Accounts :
      (clock : Clock) (s : RtcSession H T) (now : ℕ) (due : Bool)
      → Accounts s.state (tick H T clock s now due)
  unfolding tick
  tick-Accounts clock s now due =
      if_elim (Accounts s.state) (same_state s.state ended)
        (λ over. silent s.state (s, []) refl refl)
        (λ up.
          if_elim (Accounts s.state) (ltb idle_timeout_ms (age now s.last_rx_ms))
            (λ idle. close-Accounts clock s)
            (λ busy.
              if_elim (Accounts s.state)
                (same_state s.state ice && ltb dtls_watchdog_ms (age now s.created_ms))
                (λ late. close-Accounts clock s)
                (λ on.
                  Accounts-append s.state (after_call H T clock s (T.tick s.transport due)) _
                    (after_call-Accounts clock s (T.tick s.transport due)
                      (T.tick-IsOrderly s.transport due) (live_of_open s.state up))
                    (report (after_call H T clock s (T.tick s.transport due)).0))))
    where
      report :
          (s1 : RtcSession H T)
          → Accounts s1.state (
              if same_state s1.state streaming && leb s1.next_sr_ms now
              then send_report H T clock s1 now
              else (s1, []))
      report s1 =
          if_elim (Accounts s1.state) (same_state s1.state streaming && leb s1.next_sr_ms now)
            (λ due_now. quiet-Accounts s1.state _ (send_report-IsQuiet clock s1 now))
            (λ later. silent s1.state (s1, []) refl refl)
