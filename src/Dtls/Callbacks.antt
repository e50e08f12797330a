-- ===== src/Dtls/Callbacks.antt =====
-- The callbacks of a DTLS session, and the session as the interface that its owner uses.
use cam.Base.{
  ◌+◌, ◌≤◌, ℕ, ◌≡◌, ◌∙◌, Bool, true, ◌&&◌, not, Option, none, some, List, [], ◌∷◌, ◌++◌, ◌==◌,
  if_elim, All, All-append, length, Option-cases, Bool-cases, ap, arith, inl, inr,
}
use mathlib.Core.Option.{some-injective}
use cam.Dtls.{
  Libraries, Use, returns, reads, writes, Outcome, done, waits, breaks, ends, DtlsSrtp,
  dtls_set_state, bio_rx_read, bio_tx_write, use_ssl, derive_srtp_keys, finish_handshake,
  after_accept, after_read, is_over, pump_ssl, on_udp, dtls_tick, send_rtp, send_rtcp,
  unprotect_rtcp, dtls_close,
}
use cam.Dtls.Transport.{
  DtlsState, handshaking, connected, failed, closed, Callback, sends, connects, changes, same_state,
  IsFarewell, last_flight, last_state, IsSend, one_packet, IsOpen, packet_open, handshaking_open,
  connected_open, IsOrderly, nothing, goes_on, ends_with, Transport,
}

IsOpen-of_sends : (cs : List Callback) → All IsSend cs → All IsOpen cs
IsOpen-of_sends [] h = tt
IsOpen-of_sends (sends packet ∷ cs) (one_packet, h) = (packet_open, IsOpen-of_sends cs h)
IsOpen-of_sends (connects ∷ cs) h = elim h.0 [ ]
IsOpen-of_sends (changes s ∷ cs) h = elim h.0 [ ]

IsFarewell-of_sends : (cs : List Callback) → All IsSend cs → All IsFarewell cs
IsFarewell-of_sends [] h = tt
IsFarewell-of_sends (sends packet ∷ cs) (one_packet, h) = (last_flight, IsFarewell-of_sends cs h)
IsFarewell-of_sends (connects ∷ cs) h = elim h.0 [ ]
IsFarewell-of_sends (changes s ∷ cs) h = elim h.0 [ ]

IsOrderly-append : (xs ys : List Callback) → All IsOpen xs → IsOrderly ys → IsOrderly (xs ++ ys)
IsOrderly-append [] ys h o = o
IsOrderly-append (x ∷ xs) ys h o = goes_on h.0 (IsOrderly-append xs ys h.1 o)

IsOrderly-of_open : (xs : List Callback) → All IsOpen xs → IsOrderly xs
IsOrderly-of_open [] h = nothing
IsOrderly-of_open (x ∷ xs) h = goes_on h.0 (IsOrderly-of_open xs h.1)

module _ (L : Libraries) where
  abbrev Answer : Type 0
  Answer = DtlsSrtp L × List Callback

  abbrev OrderlyAnswer : Answer → Type 0
  OrderlyAnswer r = IsOrderly r.1

  set_state-IsOrderly : (d : DtlsSrtp L) (s : DtlsState) → OrderlyAnswer (dtls_set_state L d s)
  unfolding dtls_set_state
  set_state-IsOrderly d s =
      if_elim OrderlyAnswer (same_state d.state s) (λ same. nothing) (λ other. ends_with)

  set_state-IsOpen :
      (d : DtlsSrtp L) (s : DtlsState) → IsOpen (changes s) → All IsOpen (dtls_set_state L d s).1
  unfolding dtls_set_state
  set_state-IsOpen d s h =
      if_elim (λ (r : Answer). All IsOpen r.1) (same_state d.state s) (λ same. tt)
        (λ other. (h, tt))

  set_closed-IsFarewell : (d : DtlsSrtp L) → All IsFarewell (dtls_set_state L d closed).1
  unfolding dtls_set_state
  set_closed-IsFarewell d =
      if_elim (λ (r : Answer). All IsFarewell r.1) (same_state d.state closed) (λ same. tt)
        (λ other. (last_state, tt))

  tx_write-IsSend : (buf : List ℕ) → All IsSend (bio_tx_write L buf)
  unfolding bio_tx_write
  tx_write-IsSend buf =
      if_elim (All IsSend) (length buf == 0) (λ nothing_given. tt) (λ given. (one_packet, tt))

  use_ssl-IsSend : (u : Use L.Ssl) (d : DtlsSrtp L) → All IsSend (use_ssl L u d).2
  unfolding use_ssl
  use_ssl-IsSend (returns o s) d = tt
  use_ssl-IsSend (reads n next) d =
      use_ssl-IsSend (next (bio_rx_read L d n).0) (bio_rx_read L d n).1
  use_ssl-IsSend (writes buf next) d =
      All-append IsSend (bio_tx_write L buf) (use_ssl L next d).2 (tx_write-IsSend buf)
        (use_ssl-IsSend next d)

  use_ssl-IsOpen : (u : Use L.Ssl) (d : DtlsSrtp L) → All IsOpen (use_ssl L u d).2
  use_ssl-IsOpen u d = IsOpen-of_sends (use_ssl L u d).2 (use_ssl-IsSend u d)

  finish-IsOrderly : (d : DtlsSrtp L) → OrderlyAnswer (finish_handshake L d)
  unfolding finish_handshake
  finish-IsOrderly d =
      if_elim OrderlyAnswer (not d.srtp_ready && L.is_init_finished d.ssl)
        (λ over.
          if_elim OrderlyAnswer (derive_srtp_keys L d).0
            (λ derived.
              IsOrderly-append (dtls_set_state L (derive_srtp_keys L d).1 connected).1
                (connects ∷ []) (set_state-IsOpen (derive_srtp_keys L d).1 connected connected_open)
                ends_with)
            (λ failing. set_state-IsOrderly (derive_srtp_keys L d).1 failed))
        (λ on. nothing)

  after_accept-IsOrderly : (o : Outcome) (d : DtlsSrtp L) → OrderlyAnswer (after_accept L o d)
  unfolding after_accept
  after_accept-IsOrderly done d = finish-IsOrderly d
  after_accept-IsOrderly waits d = finish-IsOrderly d
  after_accept-IsOrderly breaks d = set_state-IsOrderly d failed
  after_accept-IsOrderly ends d = set_state-IsOrderly d failed

  after_read-IsOrderly : (o : Outcome) (d : DtlsSrtp L) → OrderlyAnswer (after_read L o d)
  unfolding after_read
  after_read-IsOrderly done d = finish-IsOrderly d
  after_read-IsOrderly waits d = finish-IsOrderly d
  after_read-IsOrderly breaks d = set_state-IsOrderly d failed
  after_read-IsOrderly ends d = set_state-IsOrderly d closed

  pump-IsOrderly : (d : DtlsSrtp L) → OrderlyAnswer (pump_ssl L d)
  unfolding pump_ssl
  pump-IsOrderly d =
      let (d1, calls1) = dtls_set_state L (record d { handshake_started = true }) handshaking in
      let (accepted, d2, calls2) = use_ssl L (L.accept d1.ssl) d1 in
      let (got, e1, sent) = use_ssl L (L.read d.ssl) d in
      if_elim OrderlyAnswer (is_over L d) (λ over. nothing)
        (λ on.
          if_elim OrderlyAnswer (not d.handshake_started)
            (λ first.
              IsOrderly-append calls1 (calls2 ++ (after_accept L accepted d2).1)
                (set_state-IsOpen (record d { handshake_started = true }) handshaking
                  handshaking_open)
                (IsOrderly-append calls2 _ (use_ssl-IsOpen (L.accept d1.ssl) d1)
                  (after_accept-IsOrderly accepted d2)))
            (λ later.
              IsOrderly-append sent _ (use_ssl-IsOpen (L.read d.ssl) d)
                (after_read-IsOrderly got e1)))

  pub on_udp-IsOrderly :
      (d : DtlsSrtp L) (allocated : Bool) (packet : List ℕ)
      → OrderlyAnswer (on_udp L d allocated packet)
  unfolding on_udp
  on_udp-IsOrderly d allocated packet =
      if_elim OrderlyAnswer (is_over L d) (λ over. nothing)
        (λ on. if_elim OrderlyAnswer allocated (λ ok. pump-IsOrderly _) (λ exhausted. nothing))

  pub tick-IsOrderly : (d : DtlsSrtp L) (due : Bool) → OrderlyAnswer (dtls_tick L d due)
  unfolding dtls_tick
  tick-IsOrderly d due =
      let (outcome, d1, sent) = use_ssl L (L.handle_timeout d.ssl) d in
      if_elim OrderlyAnswer (not (same_state d.state handshaking)) (λ other. nothing)
        (λ on.
          if_elim OrderlyAnswer due
            (λ late.
              IsOrderly-append sent _ (use_ssl-IsOpen (L.handle_timeout d.ssl) d)
                (pump-IsOrderly d1))
            (λ early. pump-IsOrderly d))

  pub close-IsFarewell : (d : DtlsSrtp L) → All IsFarewell (dtls_close L d).1
  unfolding dtls_close
  close-IsFarewell d =
      let (outcome, d1, sent) = use_ssl L (L.shutdown d.ssl) d in
      if_elim (λ (r : Answer). All IsFarewell r.1) (same_state d.state connected)
        (λ up.
          All-append IsFarewell sent (dtls_set_state L d1 closed).1
            (IsFarewell-of_sends sent (use_ssl-IsSend (L.shutdown d.ssl) d))
            (set_closed-IsFarewell d1))
        (λ down. set_closed-IsFarewell d)

  abbrev SendAnswer : Option (List ℕ) × DtlsSrtp L × List Callback → Type 0
  SendAnswer r = All IsSend r.2

  pub send_rtp-IsSend : (d : DtlsSrtp L) (packet : List ℕ) → SendAnswer (send_rtp L d packet)
  unfolding send_rtp
  send_rtp-IsSend d packet =
      if_elim SendAnswer (not d.srtp_ready) (λ early. tt)
        (λ ready. elim (Option-cases d.srtp_out) [
          | inl missing ↦ rw missing tt
          | inr (out, present) ↦ elim (Option-cases (L.srtp_protect out packet).0) [
            | inl failing ↦ rw (present, failing) tt
            | inr (p, protected) ↦ rw (present, protected) (one_packet, tt)
          ]
        ])

  pub send_rtcp-IsSend : (d : DtlsSrtp L) (packet : List ℕ) → SendAnswer (send_rtcp L d packet)
  unfolding send_rtcp
  send_rtcp-IsSend d packet =
      if_elim SendAnswer (not d.srtp_ready) (λ early. tt)
        (λ ready. elim (Option-cases d.srtp_out) [
          | inl missing ↦ rw missing tt
          | inr (out, present) ↦ elim (Option-cases (L.srtp_protect_rtcp out packet).0) [
            | inl failing ↦ rw (present, failing) tt
            | inr (p, protected) ↦ rw (present, protected) (one_packet, tt)
          ]
        ])

  -- A packet that is protected goes out as it is, with the tag of libsrtp.
  pub send_rtp_parts :
      (d : DtlsSrtp L) (packet bytes : List ℕ)
      → (send_rtp L d packet).0 ≡ some bytes
      → ((send_rtp L d packet).2 ≡ sends bytes ∷ []) × (length bytes ≤ length packet + 10)
  unfolding send_rtp
  send_rtp_parts d packet bytes e = elim (Bool-cases d.srtp_ready) [
    | inr early ↦ absurd (none_sent (rw (send_rtp, early) at e))
    | inl ready ↦ elim (Option-cases d.srtp_out) [
      | inl missing ↦ absurd (none_sent (rw (send_rtp, ready, missing) at e))
      | inr (out, present) ↦ elim (Option-cases (L.srtp_protect out packet).0) [
        | inl failing ↦ absurd (none_sent (rw (send_rtp, ready, present, failing) at e))
        | inr (p, protected) ↦
            let same : p ≡ bytes =
              some-injective _ _ (rw (send_rtp, ready, present, protected) at e) in
            (
              rw (send_rtp, ready, present, protected) (ap (λ b. sends b ∷ []) same),
              L.length-srtp_protect out packet bytes (protected ∙ ap some same),
            )
      ]
    ]
  ]
    where
      none_sent : none ≡ some bytes → ⊥
      none_sent h = ground arith

  -- The DTLS session as a session of webrtc_session.c sees it.
  abbrev pub dtls_transport : Transport
  dtls_transport = record {
    State = DtlsSrtp L;
    on_udp = on_udp L;
    tick = dtls_tick L;
    close = dtls_close L;
    send_rtp = send_rtp L;
    send_rtcp = send_rtcp L;
    unprotect_rtcp = unprotect_rtcp L;
    on_udp-IsOrderly = on_udp-IsOrderly;
    tick-IsOrderly = tick-IsOrderly;
    close-IsFarewell = close-IsFarewell;
    send_rtp-IsSend = send_rtp-IsSend;
    send_rtp-sends = λ d packet bytes e. (send_rtp_parts d packet bytes e).0;
    length-send_rtp = λ d packet bytes e. (send_rtp_parts d packet bytes e).1;
    send_rtcp-IsSend = send_rtcp-IsSend;
  }
