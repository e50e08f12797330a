-- ===== src/Session/Authentic.antt =====
-- The peer of a session is whoever sent the latest authenticated check, and nobody else.
pub mod Kept
use cam.Base.{
  ℕ, zero, suc, ◌+◌, ◌-◌, ◌%◌, ◌^◌, ◌≡◌, ◌⊎◌, refl, ap, sym, subst, ◌∙◌, Bool, true, false, ◌&&◌,
  ◌||◌, not, Option, none, some, List, [], ◌∷◌, ◌++◌, arith, ltb, leb, ◌==◌, if_elim, if◌then◌else◌,
  Option-cases, Bool-cases, Yields, Yields-some, inl, inr, length, get_or, get_elem?, take,
}
use cam.Stun.{
  PacketClass, stun, dtls, rtp, other, classify_packet, build_binding_response,
  build_error_response, is_binding_indication, is_binding_request, verify_mi, username_matches,
}
use cam.Rtcp.{RtcpFeedback, ReportBlock, parse}
use cam.Dtls.Transport.{
  DtlsState, init, handshaking, connected, failed, closed, Callback, sends, connects, changes,
  Transport,
}
use cam.Session.{
  Peer, SessionState, fresh, ice, streaming, ended, same_state, Host, Clock, Effect, RtcSession,
  Step, count32, count64, retx_cache_size, idr_min_interval_ms, session_sendto, dtls_send_udp,
  request_idr, dtls_on_connected, dtls_on_state, called, all_called, close_within, close,
  after_call,
}
use cam.Session.Inbound.{
  empty_slot, same_peer, remote_or_zero, handle_nacks, on_key_request, on_report, on_feedback,
  on_rtcp, stun_send_error, track_peer, refuse, admit, handle_stun, on_rtp_class, on_udp,
}
use Kept.{
  Stays, StaysOr, after_call-Stays, on_rtp_class-Stays, stun_send_error-Stays, admit-StaysOr,
}

module _ {H : Host} {T : Transport} where
  -- The peer is the old one, or the source of a check whose integrity and user name are ours.
  abbrev pub IsAuthentic : RtcSession H T → List ℕ → Peer → Step H T → Type 0
  IsAuthentic s buf source r =
      (r.0.remote ≡ s.remote)
      ⊎ ((r.0.remote ≡ some source)
          × (verify_mi H.crypto H.heap buf s.local_pwd ≡ some true)
          × (username_matches buf s.local_ufrag ≡ some true))

  refuse-Stays :
      (s : RtcSession H T) (tid : List ℕ) (source : Peer) → Stays s.remote (refuse H T s tid source)
  unfolding refuse
  refuse-Stays s tid source =
      stun_send_error-Stays
        (record s { stats = record s.stats { stun_bad = count32 s.stats.stun_bad 1 } }) tid 401
        source

  answer-IsAuthentic :
      (clock : Clock) (s counted : RtcSession H T) (buf : List ℕ) (source : Peer)
      (request : Option (List ℕ)) (authentic ours : Bool)
      → counted.remote ≡ s.remote
      → verify_mi H.crypto H.heap buf s.local_pwd ≡ some authentic
      → username_matches buf s.local_ufrag ≡ some ours
      → IsAuthentic s buf source (elim request [
        | none ↦ (counted, [])
        | some tid ↦
            if authentic && ours
            then admit H T counted buf source
            else refuse H T counted tid source
      ])
  answer-IsAuthentic clock s counted buf source none authentic ours same ea eo = inl same
  answer-IsAuthentic clock s counted buf source (some tid) true true same ea eo =
      elim (admit-StaysOr counted buf source) [
        | inl old ↦ inl (old ∙ same)
        | inr moved ↦ inr (moved, ea, eo)
      ]
  answer-IsAuthentic clock s counted buf source (some tid) true false same ea eo =
      inl (refuse-Stays counted tid source ∙ same)
  answer-IsAuthentic clock s counted buf source (some tid) false ours same ea eo =
      inl (refuse-Stays counted tid source ∙ same)

  handle_stun-IsAuthentic :
      (clock : Clock) (s : RtcSession H T) (buf : List ℕ) (source : Peer)
      → Yields (IsAuthentic s buf source) (handle_stun H T clock s buf source)
  unfolding handle_stun
  handle_stun-IsAuthentic clock s buf source = elim (Option-cases (is_binding_indication buf)) [
    | inl outside ↦ rw (handle_stun, outside) tt
    | inr (keepalive, e1) ↦ elim (Option-cases (is_binding_request buf)) [
      | inl outside ↦ rw (handle_stun, e1, outside) tt
      | inr (request, e2) ↦ elim (Option-cases (verify_mi H.crypto H.heap buf s.local_pwd)) [
        | inl outside ↦ rw (handle_stun, e1, e2, outside) tt
        | inr (authentic, e3) ↦ elim (Option-cases (username_matches buf s.local_ufrag)) [
          | inl outside ↦ rw (handle_stun, e1, e2, e3, outside) tt
          | inr (ours, e4) ↦
              rw (handle_stun, e1, e2, e3, e4)
                (if_elim (IsAuthentic s buf source) keepalive (λ alive. inl refl)
                  (λ check.
                    answer-IsAuthentic clock s counted buf source request authentic ours refl e3
                      e4))
        ]
      ]
    ]
  ]
    where
      counted : RtcSession H T
      counted = record s {
        stats = record s.stats { stun_rx = count32 s.stats.stun_rx 1 };
        last_rx_ms = clock.rx_ms;
      }

  class-IsAuthentic :
      (clock : Clock) (s counted : RtcSession H T) (allocated : Bool) (buf : List ℕ) (source : Peer)
      (kind : PacketClass) (known : Option Peer)
      → Yields (IsAuthentic counted buf source) (elim kind [
        | stun ↦ handle_stun H T clock counted buf source
        | dtls ↦ some (elim known [
          | none ↦ (counted, [])
          | some peer ↦
              after_call H T clock
                (record counted { last_rx_ms = clock.rx_ms })
                (T.on_udp s.transport allocated buf)
        ])
        | rtp ↦ on_rtp_class H T clock counted buf
        | other ↦ some (counted, [])
      ])
  class-IsAuthentic clock s counted allocated buf source stun known =
      handle_stun-IsAuthentic clock counted buf source
  class-IsAuthentic clock s counted allocated buf source dtls none = inl refl
  class-IsAuthentic clock s counted allocated buf source dtls (some peer) = inl (
      after_call-Stays clock (record counted { last_rx_ms = clock.rx_ms })
        (T.on_udp s.transport allocated buf))
  class-IsAuthentic clock s counted allocated buf source rtp known =
      stays (on_rtp_class H T clock counted buf) (on_rtp_class-Stays clock counted buf)
    where
      stays :
          (o : Option (Step H T))
          → Yields (Stays counted.remote) o
          → Yields (IsAuthentic counted buf source) o
      stays none h = tt
      stays (some r) h = inl h
  class-IsAuthentic clock s counted allocated buf source other known = inl refl

  -- A datagram leaves the peer that media goes to as it was, or makes its source the peer; the latter
  -- only if its message integrity holds under our password and its user name is ours.
  pub peer_authentic :
      (clock : Clock) (s : RtcSession H T) (allocated : Bool) (buf : List ℕ) (source : Peer)
      (r : Step H T)
      → on_udp H T clock s allocated buf source ≡ some r
      → (r.0.remote ≡ s.remote)
        ⊎ ((r.0.remote ≡ some source)
            × (verify_mi H.crypto H.heap buf s.local_pwd ≡ some true)
            × (username_matches buf s.local_ufrag ≡ some true))
  unfolding on_udp
  peer_authentic clock s allocated buf source r e =
      Yields-some (IsAuthentic s buf source) (on_udp H T clock s allocated buf source)
        (if_elim (Yields (IsAuthentic s buf source)) (same_state s.state ended) (λ over. inl refl)
          (λ up.
            class-IsAuthentic clock s counted allocated buf source (classify_packet buf) s.remote))
        e
    where
      counted : RtcSession H T
      counted = record s {
        stats = record s.stats { datagrams_rx = count64 s.stats.datagrams_rx 1 };
      }
