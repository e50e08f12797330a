-- ===== src/Session/Outbound.antt =====
-- src/webrtc/webrtc_session.c: what goes to the peer, and the timers.
use cam.Base.{
  ℕ, ◌-◌, ◌%◌, Bool, true, false, ◌&&◌, ◌||◌, not, Option, none, some, List, [], ◌∷◌, ◌++◌, ltb,
  leb, if◌then◌else◌, ◌>>=◌, length, set,
}
use cam.Rtp.{Sent, packetize, timestamp_at}
use cam.Rtcp.{build_sender_report}
use cam.Dtls.Transport.{Transport}
use cam.Session.{
  ice, streaming, ended, same_state, Host, Clock, RtcSession, Step, count32, count64,
  retx_cache_size, idle_timeout_ms, dtls_watchdog_ms, sr_interval_ms, request_idr, close,
  after_call,
}

-- How long ago a time was; one ahead of `now` is no time ago.
unfoldable pub age : ℕ → ℕ → ℕ
age now then_ms = if leb then_ms now then now - then_ms else 0

module _ (H : Host) (T : Transport) where
  -- A protected packet in the cache, and in the counters. It has 1264 bytes at most.
  unfoldable pub remember : RtcSession H T → Sent → List ℕ → RtcSession H T
  remember s packet protected = record s {
    retx =
        set s.retx (packet.sequence % retx_cache_size)
          (record { packet = protected; sequence = packet.sequence });
    stats = record s.stats {
      packets_sent = count64 s.stats.packets_sent 1;
      bytes_sent = count64 s.stats.bytes_sent (length packet.packet);
    };
  }

  -- rtp_packet_sink(); it has no result if the protected packet runs over the local buffer and the slot
  -- of 1264 bytes.
  unfoldable pub rtp_packet_sink : Clock → RtcSession H T → Sent → Option (Step H T)
  rtp_packet_sink clock s packet =
      let (protected, transport, calls) = T.send_rtp s.transport packet.packet in
      let (s', effects) = after_call H T clock s (transport, calls) in
      if ltb 1264 (length packet.packet) || ltb (length packet.packet) 12
      then some (s, [])
      else (elim protected [
        | none ↦ some (s', effects)
        | some bytes ↦
            if ltb 1264 (length bytes) then none else some (remember s' packet bytes, effects)
      ])

  -- The calls of the sink for the packets of an access unit.
  unfoldable pub sink_all : Clock → RtcSession H T → List Sent → Option (Step H T)
  sink_all clock s [] = some (s, [])
  sink_all clock s (packet ∷ packets) = rtp_packet_sink clock s packet >>= λ (s', effects).
      sink_all clock s' packets >>= λ (s'', effects'). some (s'', effects ++ effects')

  -- The part of rtc_session_send_access_unit() after the packets are out.
  unfoldable pub count_frame : Clock → RtcSession H T → Bool → ℕ → RtcSession H T
  count_frame clock s is_idr packets =
      if ltb 0 packets
      then record s {
        stats = record s.stats {
          frames_sent = count64 s.stats.frames_sent 1;
          last_media_ms = clock.media_ms;
          keyframes_sent =
              if is_idr then count64 s.stats.keyframes_sent 1 else s.stats.keyframes_sent;
        };
      }
      else s

  -- The part that cuts the access unit into packets and sends them. The packetizer does not look at
  -- the session, so that all packets are there before the first is sent.
  unfoldable pub send_frame : Clock → RtcSession H T → List ℕ → ℕ → Bool → Option (Step H T)
  send_frame clock s access_unit pts_us is_idr =
      packetize s.rtp access_unit pts_us >>= λ (packets, rtp). elim packets [
        | none ↦ some (record s { rtp = rtp }, [])
        | some sent ↦ sink_all clock (record s { rtp = rtp }) sent >>= λ (s', effects).
            some (count_frame clock s' is_idr (length sent), effects)
      ]

  -- rtc_session_send_access_unit(), but for its result, the number of packets.
  unfoldable pub send_access_unit : Clock → RtcSession H T → List ℕ → ℕ → Bool → Option (Step H T)
  send_access_unit clock s access_unit pts_us is_idr =
      let key = record s {
        idr_requested = false;
        stats = record s.stats { waiting_keyframe = false };
      } in
      let held = record s {
        stats = record s.stats { frames_held = count64 s.stats.frames_held 1 };
      } in
      if not (same_state s.state streaming)
      then some (s, [])
      else if is_idr
      then send_frame clock key access_unit pts_us true
      else if s.stats.waiting_keyframe
      then some (request_idr H T clock held)
      else send_frame clock s access_unit pts_us false

  -- The part of rtc_session_tick() that sends a report.
  unfoldable pub send_report : Clock → RtcSession H T → ℕ → Step H T
  send_report clock s now =
      let sr =
        build_sender_report s.rtp.ssrc clock.wall_us (timestamp_at s.rtp clock.mono_us)
          s.rtp.packets s.rtp.octets in
      let (protected, transport, calls) = T.send_rtcp s.transport sr in
      let (s1, effects) = after_call H T clock s (transport, calls) in
      let s2 : RtcSession H T = elim protected [
        | none ↦ s1
        | some bytes ↦ record s1 {
          stats = record s1.stats { rtcp_sent = count32 s1.stats.rtcp_sent 1 };
        }
      ] in
      let (s3, effects') : Step H T =
        if ltb 0 s.stats.frames_sent then (s2, effects) else (s, []) in
      (record s3 { next_sr_ms = count64 now sr_interval_ms }, effects')

  -- rtc_session_tick(); the flag tells whether the timer of DTLS is due.
  unfoldable pub tick : Clock → RtcSession H T → ℕ → Bool → Step H T
  tick clock s now due =
      let (s1, effects) = after_call H T clock s (T.tick s.transport due) in
      let (s2, effects') : Step H T =
        if same_state s1.state streaming && leb s1.next_sr_ms now
        then send_report clock s1 now
        else (s1, []) in
      if same_state s.state ended
      then (s, [])
      else if ltb idle_timeout_ms (age now s.last_rx_ms)
      then close H T clock s
      else if same_state s.state ice && ltb dtls_watchdog_ms (age now s.created_ms)
      then close H T clock s
      else (s2, effects ++ effects')
