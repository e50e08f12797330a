-- ===== src/Session/Closing/Inward.antt =====
-- What comes from the peer closes the session at most once.
use cam.Base.{
  ℕ, ◌+◌, ◌%◌, ◌^◌, ◌≡◌, refl, ap, sym, ◌∙◌, Bool, ◌&&◌, ◌||◌, not, Option, none, some, List, [],
  ◌∷◌, ◌++◌, arith, ltb, leb, ◌==◌, if_elim, if◌then◌else◌, Option-cases, Yields, inl, inr, length,
  get_or, get_elem?, take,
}
use cam.Stun.{
  stun, dtls, rtp, other, PacketClass, classify_packet, build_binding_response,
  build_error_response, is_binding_indication, is_binding_request, verify_mi, username_matches,
}
use cam.Rtcp.{RtcpFeedback, ReportBlock, parse}
use cam.Dtls.Transport.{Transport}
use cam.Session.{
  Peer, fresh, ice, streaming, ended, same_state, Host, Clock, RtcSession, Step, count32, count64,
  retx_cache_size, session_sendto, after_call,
}
use cam.Session.Inbound.{
  empty_slot, same_peer, remote_or_zero, handle_nacks, on_key_request, on_report, on_feedback,
  on_rtcp, stun_send_error, track_peer, refuse, admit, handle_stun, on_rtp_class, on_udp,
}
use cam.Session.Closing.{
  tells-append, live, live_of_open, fresh_of_same, Accounts, silent, IsQuiet, quiet-Accounts,
  sendto-state, request_idr-state, close-Accounts, after_call-Accounts,
}

module _ {H : Host} {T : Transport} where
  handle_nacks-IsQuiet :
      (s : RtcSession H T) (seqs : List ℕ) → IsQuiet s.state (handle_nacks H T s seqs)
  unfolding handle_nacks session_sendto
  handle_nacks-IsQuiet s [] = (refl, refl)
  handle_nacks-IsQuiet s (seq ∷ seqs) =
      let slot = get_or s.retx (seq % retx_cache_size) empty_slot in
      let went = session_sendto H T s slot.packet (remote_or_zero H T s) in
      let after : RtcSession H T =
        if went.0
        then record went.1 {
          stats = record went.1.stats { retransmissions = count64 went.1.stats.retransmissions 1 };
        }
        else went.1 in
      let same : after.state ≡ s.state =
        if_elim (λ (s' : RtcSession H T). s'.state ≡ s.state) went.0
          (λ e. sendto-state s slot.packet (remote_or_zero H T s))
          (λ e. sendto-state s slot.packet (remote_or_zero H T s)) in
      if_elim (IsQuiet s.state) (length slot.packet == 0 || not (slot.sequence == seq))
        (λ missing. handle_nacks-IsQuiet s seqs)
        (λ there. let (quiet, kept) = handle_nacks-IsQuiet after seqs in (quiet, kept ∙ same))

  on_key_request-IsQuiet :
      (clock : Clock) (s : RtcSession H T) (fb : RtcpFeedback)
      → IsQuiet s.state (on_key_request H T clock s fb)
  unfolding on_key_request
  on_key_request-IsQuiet clock s fb =
      if_elim (IsQuiet s.state) (ltb 0 fb.pli || ltb 0 fb.fir)
        (λ asked. request_idr-state clock (record s {
          stats = record s.stats { pli_received = count32 s.stats.pli_received (fb.pli + fb.fir) };
        }))
        (λ unasked. (refl, refl))

  on_report-state :
      (clock : Clock) (s : RtcSession H T) (rr : Option ReportBlock)
      → (on_report H T clock s rr).state ≡ s.state
  unfolding on_report
  on_report-state clock s none = refl
  on_report-state clock s (some rr) =
      if_elim (λ (s' : RtcSession H T). s'.state ≡ s.state) (rr.ssrc == s.rtp.ssrc) (λ ours. refl)
        (λ others. refl)

  on_feedback-Accounts :
      (clock : Clock) (s : RtcSession H T) (fb : RtcpFeedback)
      → Accounts s.state (on_feedback H T clock s fb)
  unfolding on_feedback
  on_feedback-Accounts clock s fb =
      let (quiet, same) = on_key_request-IsQuiet clock s fb in
      let reported = on_report-state clock (on_key_request H T clock s fb).0 fb.rr in
      let s2 = on_report H T clock (on_key_request H T clock s fb).0 fb.rr in
      let s3 = record s2 {
        stats = record s2.stats {
          nacks_received = count32 s2.stats.nacks_received (length fb.nack_seq);
        };
      } in
      let (quiet', same') = handle_nacks-IsQuiet s3 fb.nack_seq in
      if_elim (Accounts s.state) fb.bye (λ over. close-Accounts clock s)
        (λ on.
          if_elim (Accounts s.state) (ltb 0 (length fb.nack_seq))
            (λ some_seqs.
              quiet-Accounts s.state
                (
                  (handle_nacks H T s3 fb.nack_seq).0,
                  (on_key_request H T clock s fb).1 ++ (handle_nacks H T s3 fb.nack_seq).1,
                )
                (
                  tells-append (on_key_request H T clock s fb).1 _ ∙ omega (arith, quiet, quiet'),
                  same' ∙ (reported ∙ same),
                ))
            (λ no_seqs.
              quiet-Accounts s.state (s2, (on_key_request H T clock s fb).1)
                (quiet, reported ∙ same)))

  on_rtcp-Accounts :
      (clock : Clock) (s : RtcSession H T) (packet : List ℕ)
      → Yields (Accounts s.state) (on_rtcp H T clock s packet)
  unfolding on_rtcp
  on_rtcp-Accounts clock s packet = elim (Option-cases (parse packet s.rtp.ssrc)) [
    | inl outside ↦ rw (on_rtcp, outside) tt
    | inr (parsed, e1) ↦ elim (Option-cases parsed) [
      | inl endless ↦ rw (on_rtcp, e1, endless) tt
      | inr (fb, e2) ↦ rw (on_rtcp, e1, e2) (on_feedback-Accounts clock s fb)
    ]
  ]

  stun_send_error-IsQuiet :
      (s : RtcSession H T) (tid : List ℕ) (code : ℕ) (source : Peer)
      → IsQuiet s.state (stun_send_error H T s tid code source)
  unfolding stun_send_error session_sendto
  stun_send_error-IsQuiet s tid code source =
      elim (Option-cases (build_error_response (some tid) code H.stale_response 128)) [
        | inl failing ↦ rw (stun_send_error, failing) (refl, refl)
        | inr ((out, len), built) ↦
            rw (stun_send_error, built) (refl, sendto-state s (take len out) source)
      ]

  track_peer-state :
      (s : RtcSession H T) (source : Peer) → (track_peer H T s source).state ≡ s.state
  unfolding track_peer
  track_peer-state s source = elim (Option-cases s.remote) [
    | inl alone ↦ rw (track_peer, alone) refl
    | inr (old, known) ↦
        rw (track_peer, known)
          (if_elim (λ (s' : RtcSession H T). s'.state ≡ s.state) (same_peer old source)
            (λ same. refl) (λ moved. refl))
  ]

  admit-Accounts :
      (s : RtcSession H T) (buf : List ℕ) (source : Peer)
      → Accounts s.state (admit H T s buf source)
  unfolding admit session_sendto
  admit-Accounts s buf source =
      elim (Option-cases
        (build_binding_response H.crypto H.stale_mac (some checked.local_pwd) buf source 128)) [
          | inl failing ↦ rw (admit, failing) (silent s.state (checked, []) refl up)
          | inr (response, built) ↦
              rw (admit, built)
                (silent s.state
                  (
                    (session_sendto H T checked response source).1,
                    (session_sendto H T checked response source).2,
                  )
                  refl (ap live (sendto-state checked response source) ∙ up))
        ]
    where
      tracked : RtcSession H T
      tracked =
          track_peer H T
            (record s { stats = record s.stats { stun_ok = count32 s.stats.stun_ok 1 } }) source

      checked : RtcSession H T
      checked = if same_state tracked.state fresh then record tracked { state = ice } else tracked

      same : tracked.state ≡ s.state
      same =
          track_peer-state
            (record s { stats = record s.stats { stun_ok = count32 s.stats.stun_ok 1 } }) source

      up : live checked.state ≡ live s.state
      up =
          if_elim (λ (s' : RtcSession H T). live s'.state ≡ live s.state)
            (same_state tracked.state fresh)
            (λ first. sym (fresh_of_same tracked.state first) ∙ ap live same)
            (λ later. ap live same)

  refuse-Accounts :
      (s : RtcSession H T) (tid : List ℕ) (source : Peer)
      → Accounts s.state (refuse H T s tid source)
  unfolding refuse
  refuse-Accounts s tid source = quiet-Accounts s.state _ (
      stun_send_error-IsQuiet
        (record s { stats = record s.stats { stun_bad = count32 s.stats.stun_bad 1 } }) tid 401
        source)

  handle_stun-Accounts :
      (clock : Clock) (s : RtcSession H T) (buf : List ℕ) (source : Peer)
      → Yields (Accounts s.state) (handle_stun H T clock s buf source)
  unfolding handle_stun
  handle_stun-Accounts clock s buf source = elim (Option-cases (is_binding_indication buf)) [
    | inl outside ↦ rw (handle_stun, outside) tt
    | inr (keepalive, e1) ↦ elim (Option-cases (is_binding_request buf)) [
      | inl outside ↦ rw (handle_stun, e1, outside) tt
      | inr (request, e2) ↦ elim (Option-cases (verify_mi H.crypto H.heap buf s.local_pwd)) [
        | inl outside ↦ rw (handle_stun, e1, e2, outside) tt
        | inr (authentic, e3) ↦ elim (Option-cases (username_matches buf s.local_ufrag)) [
          | inl outside ↦ rw (handle_stun, e1, e2, e3, outside) tt
          | inr (ours, e4) ↦
              rw (handle_stun, e1, e2, e3, e4)
                (if_elim (Accounts s.state) keepalive
                  (λ alive. silent s.state (counted, []) refl refl)
                  (λ other. answer request (authentic && ours)))
        ]
      ]
    ]
  ]
    where
      counted : RtcSession H T
      counted = record s {
        stats = record s.stats { stun_rx = count32 s.stats.stun_rx 1 };
        last_rx_ms = clock.rx_ms;
      }

      answer :
          (request : Option (List ℕ)) (ok : Bool)
          → Accounts s.state (elim request [
            | none ↦ (counted, [])
            | some tid ↦ if ok then admit H T counted buf source else refuse H T counted tid source
          ])
      answer none ok = silent s.state (counted, []) refl refl
      answer (some tid) ok =
          if_elim (Accounts s.state) ok (λ yes. admit-Accounts counted buf source)
            (λ no. refuse-Accounts counted tid source)

  on_rtp_class-Accounts :
      (clock : Clock) (s : RtcSession H T) (buf : List ℕ)
      → Yields (Accounts s.state) (on_rtp_class H T clock s buf)
  unfolding on_rtp_class
  on_rtp_class-Accounts clock s buf = elim (Option-cases (get_elem? buf 1)) [
    | inl outside ↦ rw (on_rtp_class, outside) tt
    | inr (second, e1) ↦
        rw (on_rtp_class, e1)
          (if_elim (Yields (Accounts s.state))
            (leb 64 (second % 2 ^ 7) && leb (second % 2 ^ 7) 95 && same_state s.state streaming)
            (λ feedback.
              if_elim (Yields (Accounts s.state)) (ltb 1500 (length buf))
                (λ long. silent s.state (record s { last_rx_ms = clock.rx_ms }, []) refl refl)
                (λ fits. elim (Option-cases (T.unprotect_rtcp s.transport buf).0) [
                  | inl forged ↦ rw forged (silent s.state (after, []) refl refl)
                  | inr (packet, plain) ↦ rw plain (on_rtcp-Accounts clock after packet)
                ]))
            (λ other. silent s.state (s, []) refl refl))
  ]
    where
      after : RtcSession H T
      after = record s {
        last_rx_ms = clock.rx_ms;
        transport = (T.unprotect_rtcp s.transport buf).1;
      }

  pub on_udp-Accounts :
      (clock : Clock) (s : RtcSession H T) (allocated : Bool) (buf : List ℕ) (source : Peer)
      → Yields (Accounts s.state) (on_udp H T clock s allocated buf source)
  unfolding on_udp
  on_udp-Accounts clock s allocated buf source =
      if_elim (Yields (Accounts s.state)) (same_state s.state ended)
        (λ over. silent s.state (s, []) refl refl)
        (λ up. by_class (live_of_open s.state up) (classify_packet buf))
    where
      counted : RtcSession H T
      counted = record s {
        stats = record s.stats { datagrams_rx = count64 s.stats.datagrams_rx 1 };
      }

      secure : RtcSession H T → Step H T
      secure s' = elim s.remote [
        | none ↦ (s', [])
        | some peer ↦
            after_call H T clock (record s' { last_rx_ms = clock.rx_ms })
              (T.on_udp s.transport allocated buf)
      ]

      case : PacketClass → Option (Step H T)
      case kind = elim kind [
        | stun ↦ handle_stun H T clock counted buf source
        | dtls ↦ some (secure counted)
        | rtp ↦ on_rtp_class H T clock counted buf
        | other ↦ some (counted, [])
      ]

      by_class : live s.state ≡ 1 → (kind : PacketClass) → Yields (Accounts s.state) (case kind)
      by_class up stun = handle_stun-Accounts clock counted buf source
      by_class up dtls = secured s.remote
        where
          secured :
              (known : Option Peer)
              → Accounts s.state (elim known [
                | none ↦ (counted, [])
                | some peer ↦
                    after_call H T clock
                      (record counted { last_rx_ms = clock.rx_ms })
                      (T.on_udp s.transport allocated buf)
              ])
          secured none = silent s.state (counted, []) refl refl
          secured (some peer) =
              after_call-Accounts clock (record counted { last_rx_ms = clock.rx_ms })
                (T.on_udp s.transport allocated buf) (T.on_udp-IsOrderly s.transport allocated buf)
                up
      by_class up rtp = on_rtp_class-Accounts clock counted buf
      by_class up other = silent s.state (counted, []) refl refl
