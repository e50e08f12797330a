-- ===== src/Session/Inbound.antt =====
-- src/webrtc/webrtc_session.c: what comes from the peer.
-- A step has no result where it reads outside of the datagram.
use cam.Base.{
  ℕ, ◌+◌, ◌*◌, ◌/◌, ◌%◌, ◌^◌, Bool, true, false, ◌&&◌, ◌||◌, not, Option, none, some, List, [], ◌∷◌,
  ◌++◌, ltb, leb, ◌==◌, if◌then◌else◌, ◌>>=◌, length, get_elem?, get_or, take,
}
use cam.Stun.{
  stun, dtls, rtp, other, classify_packet, is_binding_request, is_binding_indication, verify_mi,
  username_matches, build_binding_response, build_error_response,
}
use cam.Rtcp.{RtcpFeedback, ReportBlock, parse, rtt_ms}
use cam.Dtls.Transport.{Transport}
use cam.Session.{
  Peer, fresh, ice, streaming, ended, same_state, Host, Clock, Slot, RtcSession, Step, count32,
  count64, retx_cache_size, session_sendto, request_idr, close, after_call,
}

-- The middle 32 bits of the NTP time: ntp_msw().
unfoldable pub ntp_msw : ℕ → ℕ
ntp_msw wall_us =
    let ntp_seconds = (wall_us / 1000000 + 2208988800) % 2 ^ 64 in
    let ntp_fraction = wall_us % 1000000 * 2 ^ 32 % 2 ^ 64 / 1000000 % 2 ^ 32 in
    (ntp_seconds % 2 ^ 16 * 2 ^ 16 + ntp_fraction / 2 ^ 16) % 2 ^ 32

abbrev pub empty_slot : Slot
empty_slot = record { packet = []; sequence = 0 }

-- Whether two peers print the same address and port.
unfoldable pub same_peer : Peer → Peer → Bool
same_peer none none = true
same_peer none (some q) = false
same_peer (some p) none = false
same_peer (some (port, address)) (some (port', address')) = address == address' && port == port'

module _ (H : Host) (T : Transport) where
  -- The destination of an answer from the cache: zeroed while there is no peer.
  unfoldable pub remote_or_zero : RtcSession H T → Peer
  remote_or_zero s = elim s.remote [ none ↦ none | some peer ↦ peer ]

  -- handle_nacks()
  unfoldable pub handle_nacks : RtcSession H T → List ℕ → Step H T
  handle_nacks s [] = (s, [])
  handle_nacks s (seq ∷ seqs) =
      let slot = get_or s.retx (seq % retx_cache_size) empty_slot in
      let (whole, s1, effects) = session_sendto H T s slot.packet (remote_or_zero s) in
      let counted = record s1 {
        stats = record s1.stats { retransmissions = count64 s1.stats.retransmissions 1 };
      } in
      let (s2, effects') = handle_nacks (if whole then counted else s1) seqs in
      let skipped = handle_nacks s seqs in
      if length slot.packet == 0 || not (slot.sequence == seq)
      then skipped
      else (s2, effects ++ effects')

  -- The part of dtls_on_rtcp() about key frames.
  unfoldable pub on_key_request : Clock → RtcSession H T → RtcpFeedback → Step H T
  on_key_request clock s feedback =
      let s' = record s {
        stats = record s.stats {
          pli_received = count32 s.stats.pli_received (feedback.pli + feedback.fir);
        };
      } in
      if ltb 0 feedback.pli || ltb 0 feedback.fir then request_idr H T clock s' else (s, [])

  -- The part about the report block.
  unfoldable pub on_report : Clock → RtcSession H T → Option ReportBlock → RtcSession H T
  on_report clock s none = s
  on_report clock s (some rr) =
      let rtt : Option ℕ = elim (rtt_ms (ntp_msw clock.wall_us) rr.last_sr rr.delay_since_sr) [
        | none ↦ s.stats.rtt_ms
        | some ms ↦ some ms
      ] in
      if rr.ssrc == s.rtp.ssrc
      then record s {
        stats = record s.stats {
          rr_received = count32 s.stats.rr_received 1;
          last_rr_ms = clock.rr_ms;
          fraction_lost = rr.fraction_lost;
          jitter = rr.jitter;
          rtt_ms = rtt;
        };
      }
      else s

  -- What dtls_on_rtcp() does with the feedback that it has read.
  unfoldable pub on_feedback : Clock → RtcSession H T → RtcpFeedback → Step H T
  on_feedback clock s feedback =
      let (s1, effects) = on_key_request clock s feedback in
      let s2 = on_report clock s1 feedback.rr in
      let s3 = record s2 {
        stats = record s2.stats {
          nacks_received = count32 s2.stats.nacks_received (length feedback.nack_seq);
        };
      } in
      let (s4, effects') = handle_nacks s3 feedback.nack_seq in
      if feedback.bye
      then close H T clock s
      else if ltb 0 (length feedback.nack_seq)
      then (s4, effects ++ effects')
      else (s2, effects)

  -- dtls_on_rtcp(): it does not look at the result of rtcp_parse().
  unfoldable pub on_rtcp : Clock → RtcSession H T → List ℕ → Option (Step H T)
  on_rtcp clock s packet = parse packet s.rtp.ssrc >>= λ parsed.
      parsed >>= λ feedback. some (on_feedback clock s feedback)

  -- stun_send_error() with its response buffer of 128 bytes.
  unfoldable pub stun_send_error : RtcSession H T → List ℕ → ℕ → Peer → Step H T
  stun_send_error s tid code source =
      elim (build_error_response (some tid) code H.stale_response 128) [
        | none ↦ (s, [])
        | some (out, len) ↦
            let (whole, s', effects) = session_sendto H T s (take len out) source in (s', effects)
      ]

  -- The part of handle_stun() about the address of the peer.
  unfoldable pub track_peer : RtcSession H T → Peer → RtcSession H T
  track_peer s source = elim s.remote [
    | none ↦ record s { remote = some source }
    | some old ↦ if same_peer old source then s else record s {
      remote = some source;
      stats = record s.stats { peer_moved = count32 s.stats.peer_moved 1 };
    }
  ]

  -- A check that is not ours: counted, and answered with 401.
  unfoldable pub refuse : RtcSession H T → List ℕ → Peer → Step H T
  refuse s tid source =
      stun_send_error
        (record s { stats = record s.stats { stun_bad = count32 s.stats.stun_bad 1 } }) tid 401
        source

  -- An authenticated check.
  unfoldable pub admit : RtcSession H T → List ℕ → Peer → Step H T
  admit s buf source =
      let counted = record s { stats = record s.stats { stun_ok = count32 s.stats.stun_ok 1 } } in
      let tracked = track_peer counted source in
      let checked =
        if same_state tracked.state fresh then record tracked { state = ice } else tracked in
      elim (build_binding_response H.crypto H.stale_mac (some checked.local_pwd) buf source 128) [
        | none ↦ (checked, [])
        | some response ↦
            let (whole, s', effects) = session_sendto H T checked response source in (s', effects)
      ]

  -- handle_stun()
  unfoldable pub handle_stun : Clock → RtcSession H T → List ℕ → Peer → Option (Step H T)
  handle_stun clock s buf source =
      let s' = record s {
        stats = record s.stats { stun_rx = count32 s.stats.stun_rx 1 };
        last_rx_ms = clock.rx_ms;
      } in
      is_binding_indication buf >>= λ keepalive. is_binding_request buf >>= λ request.
      verify_mi H.crypto H.heap buf s.local_pwd >>= λ authentic.
      username_matches buf s.local_ufrag >>= λ ours. some (
        if keepalive then (s', []) else (elim request [
          | none ↦ (s', [])
          | some tid ↦ if authentic && ours then admit s' buf source else refuse s' tid source
        ]))

  -- The case of rtc_session_on_udp() for RTP and RTCP.
  unfoldable pub on_rtp_class : Clock → RtcSession H T → List ℕ → Option (Step H T)
  on_rtp_class clock s buf = get_elem? buf 1 >>= λ second.
      let pt = second % 2 ^ 7 in
      let s' = record s { last_rx_ms = clock.rx_ms } in
      let (plain, transport) = T.unprotect_rtcp s.transport buf in
      let s'' = record s' { transport = transport } in
      let feedback : Option (Step H T) = elim plain [
        | none ↦ some (s'', [])
        | some packet ↦ on_rtcp clock s'' packet
      ] in
      if leb 64 pt && leb pt 95 && same_state s.state streaming
      then (if ltb 1500 (length buf) then some (s', []) else feedback)
      else some (s, [])

  -- rtc_session_on_udp(); the flag tells whether malloc() succeeds for the queue of DTLS.
  unfoldable pub on_udp : Clock → RtcSession H T → Bool → List ℕ → Peer → Option (Step H T)
  on_udp clock s allocated buf source =
      let s' = record s {
        stats = record s.stats { datagrams_rx = count64 s.stats.datagrams_rx 1 };
      } in
      let secure : Step H T = elim s.remote [
        | none ↦ (s', [])
        | some peer ↦
            after_call H T clock (record s' { last_rx_ms = clock.rx_ms })
              (T.on_udp s.transport allocated buf)
      ] in
      let case : Option (Step H T) = elim (classify_packet buf) [
        | stun ↦ handle_stun clock s' buf source
        | dtls ↦ some secure
        | rtp ↦ on_rtp_class clock s' buf
        | other ↦ some (s', [])
      ] in
      if same_state s.state ended then some (s, []) else case
