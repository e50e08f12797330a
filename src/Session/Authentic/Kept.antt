-- ===== src/Session/Authentic/Kept.antt =====
-- What leaves the peer of a session as it is.
use cam.Base.{
  ℕ, zero, suc, ◌+◌, ◌-◌, ◌%◌, ◌^◌, ◌≡◌, ◌⊎◌, refl, ◌∙◌, true, ◌&&◌, ◌||◌, not, Option, none, some,
  List, [], ◌∷◌, ltb, leb, ◌==◌, if_elim, if◌then◌else◌, Option-cases, Bool-cases, Yields, inl, inr,
  length, get_or, get_elem?, take,
}
use cam.Stun.{build_binding_response, build_error_response}
use cam.Rtcp.{RtcpFeedback, ReportBlock, parse}
use cam.Dtls.Transport.{
  init, handshaking, connected, failed, closed, Callback, sends, connects, changes, Transport,
}
use cam.Session.{
  Peer, fresh, ice, streaming, ended, same_state, Host, Clock, RtcSession, Step, count32, count64,
  retx_cache_size, idr_min_interval_ms, session_sendto, dtls_send_udp, request_idr,
  dtls_on_connected, dtls_on_state, called, all_called, close_within, close, after_call,
}
use cam.Session.Inbound.{
  empty_slot, same_peer, remote_or_zero, handle_nacks, on_key_request, on_report, on_feedback,
  on_rtcp, stun_send_error, track_peer, admit, on_rtp_class,
}

module _ {H : Host} {T : Transport} where
  -- The step leaves the peer.
  abbrev pub Stays : Option Peer → Step H T → Type 0
  Stays peer r = r.0.remote ≡ peer

  sendto-remote :
      (s : RtcSession H T) (bytes : List ℕ) (peer : Peer)
      → (session_sendto H T s bytes peer).1.remote ≡ s.remote
  unfolding session_sendto
  sendto-remote s bytes peer = elim (Bool-cases (H.sendto s.socket bytes peer).0) [
    | inl whole ↦ rw whole refl
    | inr part ↦ rw part refl
  ]

  send_udp-Stays :
      (s : RtcSession H T) (packet : List ℕ) → Stays s.remote (dtls_send_udp H T s packet)
  unfolding dtls_send_udp
  send_udp-Stays s packet = elim (Option-cases s.remote) [
    | inl alone ↦ rw (dtls_send_udp, alone) alone
    | inr (peer, known) ↦ rw (dtls_send_udp, known) (sendto-remote s packet peer ∙ known)
  ]

  request_idr-Stays :
      (clock : Clock) (s : RtcSession H T) → Stays s.remote (request_idr H T clock s)
  unfolding request_idr
  request_idr-Stays clock s =
      if_elim (Stays s.remote)
        (not (s.last_idr_ms == 0)
          && ltb ((clock.idr_ms + 2 ^ 64 - s.last_idr_ms) % 2 ^ 64) idr_min_interval_ms)
        (λ early. refl) (λ due. refl)

  called-Stays :
      (clock : Clock) (shut : RtcSession H T → Step H T) (s : RtcSession H T) (c : Callback)
      → ((s' : RtcSession H T) → Stays s'.remote (shut s'))
      → Stays s.remote (called H T clock shut s c)
  unfolding called dtls_on_connected dtls_on_state
  called-Stays clock shut s (sends packet) hs = send_udp-Stays s packet
  called-Stays clock shut s connects hs =
      request_idr-Stays clock
        (record s { state = streaming; stats = record s.stats { waiting_keyframe = true } })
  called-Stays clock shut s (changes init) hs = refl
  called-Stays clock shut s (changes handshaking) hs = refl
  called-Stays clock shut s (changes connected) hs = refl
  called-Stays clock shut s (changes failed) hs = hs s
  called-Stays clock shut s (changes closed) hs = hs s

  all_called-Stays :
      (clock : Clock) (shut : RtcSession H T → Step H T) (s : RtcSession H T) (cs : List Callback)
      → ((s' : RtcSession H T) → Stays s'.remote (shut s'))
      → Stays s.remote (all_called H T clock shut s cs)
  unfolding all_called
  all_called-Stays clock shut s [] hs = refl
  all_called-Stays clock shut s (c ∷ cs) hs =
      all_called-Stays clock shut (called H T clock shut s c).0 cs hs
      ∙ called-Stays clock shut s c hs

  close_within-Stays :
      (n : ℕ) (clock : Clock) (s : RtcSession H T) → Stays s.remote (close_within H T n clock s)
  unfolding close_within
  close_within-Stays zero clock s = refl
  close_within-Stays (suc n) clock s =
      if_elim (Stays s.remote) (same_state s.state ended) (λ over. refl)
        (λ up.
          all_called-Stays clock (close_within H T n clock)
            (record s { state = ended; transport = (T.close s.transport).0 })
            (T.close s.transport).1 (close_within-Stays n clock))

  close-Stays : (clock : Clock) (s : RtcSession H T) → Stays s.remote (close H T clock s)
  unfolding close
  close-Stays clock s = close_within-Stays 2 clock s

  pub after_call-Stays :
      (clock : Clock) (s : RtcSession H T) (r : T.State × List Callback)
      → Stays s.remote (after_call H T clock s r)
  after_call-Stays clock s r =
      all_called-Stays clock (close H T clock) (record s { transport = r.0 }) r.1
        (close-Stays clock)

  handle_nacks-Stays :
      (s : RtcSession H T) (seqs : List ℕ) → Stays s.remote (handle_nacks H T s seqs)
  unfolding handle_nacks
  handle_nacks-Stays s [] = refl
  handle_nacks-Stays s (seq ∷ seqs) =
      let slot = get_or s.retx (seq % retx_cache_size) empty_slot in
      let went = session_sendto H T s slot.packet (remote_or_zero H T s) in
      let after : RtcSession H T =
        if went.0
        then record went.1 {
          stats = record went.1.stats { retransmissions = count64 went.1.stats.retransmissions 1 };
        }
        else went.1 in
      let same : after.remote ≡ s.remote =
        if_elim (λ (s' : RtcSession H T). s'.remote ≡ s.remote) went.0
          (λ e. sendto-remote s slot.packet (remote_or_zero H T s))
          (λ e. sendto-remote s slot.packet (remote_or_zero H T s)) in
      if_elim (Stays s.remote) (length slot.packet == 0 || not (slot.sequence == seq))
        (λ missing. handle_nacks-Stays s seqs) (λ there. handle_nacks-Stays after seqs ∙ same)

  on_key_request-Stays :
      (clock : Clock) (s : RtcSession H T) (fb : RtcpFeedback)
      → Stays s.remote (on_key_request H T clock s fb)
  unfolding on_key_request
  on_key_request-Stays clock s fb =
      if_elim (Stays s.remote) (ltb 0 fb.pli || ltb 0 fb.fir)
        (λ asked. request_idr-Stays clock (record s {
          stats = record s.stats { pli_received = count32 s.stats.pli_received (fb.pli + fb.fir) };
        }))
        (λ unasked. refl)

  on_report-remote :
      (clock : Clock) (s : RtcSession H T) (rr : Option ReportBlock)
      → (on_report H T clock s rr).remote ≡ s.remote
  unfolding on_report
  on_report-remote clock s none = refl
  on_report-remote clock s (some rr) =
      if_elim (λ (s' : RtcSession H T). s'.remote ≡ s.remote) (rr.ssrc == s.rtp.ssrc) (λ ours. refl)
        (λ others. refl)

  on_feedback-Stays :
      (clock : Clock) (s : RtcSession H T) (fb : RtcpFeedback)
      → Stays s.remote (on_feedback H T clock s fb)
  unfolding on_feedback
  on_feedback-Stays clock s fb =
      let s2 = on_report H T clock (on_key_request H T clock s fb).0 fb.rr in
      let same =
        on_report-remote clock (on_key_request H T clock s fb).0 fb.rr
        ∙ on_key_request-Stays clock s fb in
      if_elim (Stays s.remote) fb.bye (λ over. close-Stays clock s)
        (λ on.
          if_elim (Stays s.remote) (ltb 0 (length fb.nack_seq))
            (λ some_seqs. handle_nacks-Stays _ fb.nack_seq ∙ same) (λ no_seqs. same))

  on_rtcp-Stays :
      (clock : Clock) (s : RtcSession H T) (packet : List ℕ)
      → Yields (Stays s.remote) (on_rtcp H T clock s packet)
  unfolding on_rtcp
  on_rtcp-Stays clock s packet = elim (Option-cases (parse packet s.rtp.ssrc)) [
    | inl outside ↦ rw (on_rtcp, outside) tt
    | inr (parsed, e1) ↦ elim (Option-cases parsed) [
      | inl endless ↦ rw (on_rtcp, e1, endless) tt
      | inr (fb, e2) ↦ rw (on_rtcp, e1, e2) (on_feedback-Stays clock s fb)
    ]
  ]

  pub on_rtp_class-Stays :
      (clock : Clock) (s : RtcSession H T) (buf : List ℕ)
      → Yields (Stays s.remote) (on_rtp_class H T clock s buf)
  unfolding on_rtp_class
  on_rtp_class-Stays clock s buf = elim (Option-cases (get_elem? buf 1)) [
    | inl outside ↦ rw (on_rtp_class, outside) tt
    | inr (second, e1) ↦
        rw (on_rtp_class, e1)
          (if_elim (Yields (Stays s.remote))
            (leb 64 (second % 2 ^ 7) && leb (second % 2 ^ 7) 95 && same_state s.state streaming)
            (λ feedback.
              if_elim (Yields (Stays s.remote)) (ltb 1500 (length buf)) (λ long. refl)
                (λ fits. elim (Option-cases (T.unprotect_rtcp s.transport buf).0) [
                  | inl forged ↦ rw forged refl
                  | inr (packet, plain) ↦ rw plain (
                      on_rtcp-Stays clock
                        (record s {
                          last_rx_ms = clock.rx_ms;
                          transport = (T.unprotect_rtcp s.transport buf).1;
                        })
                        packet)
                ]))
            (λ media. refl))
  ]

  pub stun_send_error-Stays :
      (s : RtcSession H T) (tid : List ℕ) (code : ℕ) (source : Peer)
      → Stays s.remote (stun_send_error H T s tid code source)
  unfolding stun_send_error
  stun_send_error-Stays s tid code source =
      elim (Option-cases (build_error_response (some tid) code H.stale_response 128)) [
        | inl failing ↦ rw (stun_send_error, failing) refl
        | inr ((out, len), built) ↦
            rw (stun_send_error, built) (sendto-remote s (take len out) source)
      ]

  -- The peer is the old one, or the source.
  abbrev pub StaysOr : Option Peer → Peer → Step H T → Type 0
  StaysOr peer source r = (r.0.remote ≡ peer) ⊎ (r.0.remote ≡ some source)

  track_peer-StaysOr :
      (s : RtcSession H T) (source : Peer) → StaysOr s.remote source (track_peer H T s source, [])
  unfolding track_peer
  track_peer-StaysOr s source = elim (Option-cases s.remote) [
    | inl alone ↦ rw (track_peer, alone) (inr refl)
    | inr (old, known) ↦
        rw (track_peer, known)
          (if_elim (λ (s' : RtcSession H T). (s'.remote ≡ some old) ⊎ (s'.remote ≡ some source))
            (same_peer old source) (λ same. inl known) (λ moved. inr refl))
  ]

  pub admit-StaysOr :
      (s : RtcSession H T) (buf : List ℕ) (source : Peer)
      → StaysOr s.remote source (admit H T s buf source)
  unfolding admit
  admit-StaysOr s buf source =
      elim (Option-cases
        (build_binding_response H.crypto H.stale_mac (some checked.local_pwd) buf source 128)) [
          | inl failing ↦ rw (admit, failing) tracks
          | inr (response, built) ↦ rw (admit, built, sendto-remote checked response source) tracks
        ]
    where
      tracked : RtcSession H T
      tracked =
          track_peer H T
            (record s { stats = record s.stats { stun_ok = count32 s.stats.stun_ok 1 } }) source

      checked : RtcSession H T
      checked = if same_state tracked.state fresh then record tracked { state = ice } else tracked

      tracks : (checked.remote ≡ s.remote) ⊎ (checked.remote ≡ some source)
      tracks =
          let t =
            track_peer-StaysOr
              (record s { stats = record s.stats { stun_ok = count32 s.stats.stun_ok 1 } })
              source in
          if_elim (λ (s' : RtcSession H T). (s'.remote ≡ s.remote) ⊎ (s'.remote ≡ some source))
            (same_state tracked.state fresh) (λ first. t) (λ later. t)
