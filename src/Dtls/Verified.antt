-- ===== src/Dtls/Verified.antt =====
-- Media only flows to a peer whose certificate was checked, whatever calls were made.
use cam.Base.{
  ℕ, ◌≤◌, ◌<◌, ◌≡◌, ◌⊎◌, refl, subst, inl, inr, Bool, true, false, Option, none, some, ap, List, [],
  ◌∷◌, ◌++◌, arith, ltb, leb, ◌==◌, ◌&&◌, not, Bool-cases, Option-cases, if_elim, if◌then◌else◌,
  length, length-append, take, drop, length-drop,
}
use mathlib.Core.Option.{some-injective}
use cam.Base.Memory.{slice}
use cam.Dtls.{
  Libraries, Use, returns, reads, writes, Outcome, done, waits, breaks, ends, rx_queue_size,
  fingerprint_hex_equal, DtlsSrtp, dtls_set_state, bio_rx_read, use_ssl, check_peer,
  derive_srtp_keys, finish_handshake, after_accept, after_read, is_over, pump_ssl, on_udp,
  dtls_tick, send_rtp, send_rtcp, unprotect_rtcp, dtls_close, session_create,
}
use cam.Dtls.Transport.{DtlsState, handshaking, connected, failed, closed, Callback, same_state}

-- A call of OpenSSL comes to this state with some datagrams read.
pub data Comes {S : Type 0} : Use S → S → Type 0 where
  at_return : {o : Outcome} {s : S} → Comes (returns o s) s
  at_read :
      {n : ℕ} {next : Option (List ℕ) → Use S} {s : S} (packet : Option (List ℕ))
      → Comes (next packet) s
      → Comes (reads n next) s
  at_write : {buf : List ℕ} {next : Use S} {s : S} → Comes next s → Comes (writes buf next) s

module _ (L : Libraries) where
  use_ssl-Comes : (u : Use L.Ssl) (d : DtlsSrtp L) → Comes u (use_ssl L u d).1.ssl
  unfolding use_ssl
  use_ssl-Comes (returns o s) d = at_return
  use_ssl-Comes (reads n next) d =
      at_read _ (use_ssl-Comes (next (bio_rx_read L d n).0) (bio_rx_read L d n).1)
  use_ssl-Comes (writes buf next) d = at_write (use_ssl-Comes next d)

module _ (L : Libraries) (start : L.Ssl) (fingerprint : List ℕ) where
  -- The states of OpenSSL that the session can see.
  pub data Seen : L.Ssl → Type 0 where
    begun : Seen start
    accepts : {s t : L.Ssl} → Seen s → Comes (L.accept s) t → Seen t
    reads_on : {s t : L.Ssl} → Seen s → Comes (L.read s) t → Seen t
    repeats : {s t : L.Ssl} → Seen s → Comes (L.handle_timeout s) t → Seen t
    shuts : {s t : L.Ssl} → Seen s → Comes (L.shutdown s) t → Seen t

  -- The handshake ended with a use_srtp profile, and with the certificate that the fingerprint names,
  -- if there is one.
  abbrev pub IsChecked : Type 0
  IsChecked =
      (ssl : L.Ssl) × Seen ssl
      × (L.is_init_finished ssl ≡ true)
      × (L.has_srtp_profile ssl ≡ true)
      × ((take 127 fingerprint ≡ [])
          ⊎ ((md : List ℕ) × (L.peer_digest ssl ≡ some (some md))
              × (fingerprint_hex_equal (take 127 fingerprint) md ≡ some true)))

  abbrev pub IsSafe : DtlsSrtp L → Type 0
  IsSafe d =
      Seen d.ssl
      × (d.expected_fingerprint ≡ take 127 fingerprint)
      × (length d.rxq ≤ rx_queue_size)
      × (d.srtp_ready ≡ true → IsChecked)
      × (d.state ≡ connected → d.srtp_ready ≡ true)

  abbrev SafeAnswer : DtlsSrtp L × List Callback → Type 0
  SafeAnswer r = IsSafe r.0

  set_state-IsSafe :
      (d : DtlsSrtp L) (s : DtlsState)
      → (s ≡ connected → d.srtp_ready ≡ true)
      → IsSafe d
      → IsSafe (dtls_set_state L d s).0
  unfolding dtls_set_state
  set_state-IsSafe d s up v =
      if_elim SafeAnswer (same_state d.state s) (λ same. v) (λ other. (v.0, v.1, v.2, v.3, up))

  rx_read-IsSafe : (d : DtlsSrtp L) (n : ℕ) → IsSafe d → IsSafe (bio_rx_read L d n).1
  unfolding bio_rx_read
  rx_read-IsSafe d n v = go d.rxq refl
    where
      go : (q : List (List ℕ)) → d.rxq ≡ q → IsSafe (bio_rx_read L d n).1
      go [] e = rw (bio_rx_read, e) v
      go (packet ∷ rest) e =
          let fewer : length rest ≤ rx_queue_size = ground (arith, rw e at v.2) in
          rw (bio_rx_read, e)
            (if_elim (λ (r : Option (List ℕ) × DtlsSrtp L). IsSafe r.1) (ltb n (length packet))
              (λ big. (v.0, v.1, fewer, v.3, v.4)) (λ fits. (v.0, v.1, fewer, v.3, v.4)))

  use_ssl-IsSafe :
      (u : Use L.Ssl) (d : DtlsSrtp L)
      → ((t : L.Ssl) → Comes u t → Seen t)
      → IsSafe d
      → IsSafe (use_ssl L u d).1
  unfolding use_ssl
  use_ssl-IsSafe (returns o s) d seen v = (seen s at_return, v.1, v.2, v.3, v.4)
  use_ssl-IsSafe (reads n next) d seen v =
      use_ssl-IsSafe (next (bio_rx_read L d n).0) (bio_rx_read L d n).1
        (λ t c. seen t (at_read _ c)) (rx_read-IsSafe d n v)
  use_ssl-IsSafe (writes buf next) d seen v = use_ssl-IsSafe next d (λ t c. seen t (at_write c)) v

  check_peer_parts :
      (d : DtlsSrtp L)
      → check_peer L d ≡ true
      → (d.expected_fingerprint ≡ [])
        ⊎ ((md : List ℕ) × (L.peer_digest d.ssl ≡ some (some md))
            × (fingerprint_hex_equal d.expected_fingerprint md ≡ some true))
  unfolding check_peer
  check_peer_parts d h = elim (Bool-cases (length d.expected_fingerprint == 0)) [
    | inl anyone ↦ inl (empty d.expected_fingerprint anyone)
    | inr named ↦ elim (Option-cases (L.peer_digest d.ssl)) [
      | inl anonymous ↦ absurd (no (rw (check_peer, named, anonymous) at h))
      | inr (digest, presented) ↦ elim (Option-cases digest) [
        | inl undigested ↦ absurd (no (rw (check_peer, named, presented, undigested) at h))
        | inr (md, digested) ↦ inr (
          md,
          (rw digested at presented),
          named_true (fingerprint_hex_equal d.expected_fingerprint md)
              (rw (check_peer, named, presented, digested) at h),
        )
      ]
    ]
  ]
    where
      no : false ≡ true → ⊥
      no e = ground arith

      named_true :
          (o : Option Bool)
          → elim o as (λ x. Bool) [ none ↦ false | some same ↦ same ] ≡ true
          → o ≡ some true
      named_true none e = absurd (no e)
      named_true (some same) e = ap some e

      empty : (text : List ℕ) → (length text == 0) ≡ true → text ≡ []
      empty [] e = refl
      empty (c ∷ text) e = absurd (ground arith)

  -- What derive_srtp_keys() leaves: a safe session, ready if it succeeds.
  abbrev IsDerived : Bool × DtlsSrtp L → Type 0
  IsDerived r = IsSafe r.1 × (r.0 ≡ true → r.1.srtp_ready ≡ true)

  derive-IsDerived :
      (d : DtlsSrtp L)
      → L.is_init_finished d.ssl ≡ true
      → IsSafe d
      → IsDerived (derive_srtp_keys L d)
  unfolding derive_srtp_keys
  derive-IsDerived d finished v = elim (Bool-cases (L.has_srtp_profile d.ssl)) [
    | inr unprotected ↦ rw (derive_srtp_keys, unprotected) (v, no)
    | inl profile ↦ elim (Option-cases (L.export_keying_material d.ssl)) [
      | inl failing ↦ rw (derive_srtp_keys, profile, failing) (v, no)
      | inr (material, exported) ↦
          elim (Option-cases (L.srtp_create (slice 16 16 material ++ slice 46 14 material))) [
            | inl failing ↦ rw (derive_srtp_keys, profile, exported, failing) (v, no)
            | inr (out, outbound) ↦
                elim (Option-cases (L.srtp_create (slice 0 16 material ++ slice 32 14 material))) [
                  | inl failing ↦
                      rw (derive_srtp_keys, profile, exported, outbound, failing)
                        ((v.0, v.1, v.2, v.3, v.4), no)
                  | inr (input, inbound) ↦
                      rw (derive_srtp_keys, profile, exported, outbound, inbound)
                        (if_elim IsDerived (check_peer L _)
                          (λ accepted. (
                            (
                              v.0,
                              v.1,
                              v.2,
                              (λ e. checked profile (rw v.1 at (check_peer_parts _ accepted))),
                              λ e. refl,
                            ),
                            λ e. refl,
                          ))
                          (λ rejected. ((v.0, v.1, v.2, v.3, v.4), no)))
                ]
          ]
    ]
  ]
    where
      no : {A : Type 0} → false ≡ true → A
      no e = absurd (ground arith)

      checked :
          L.has_srtp_profile d.ssl ≡ true
          → (take 127 fingerprint ≡ [])
            ⊎ ((md : List ℕ) × (L.peer_digest d.ssl ≡ some (some md))
                × (fingerprint_hex_equal (take 127 fingerprint) md ≡ some true))
          → IsChecked
      checked profile accepted = (d.ssl, v.0, finished, profile, accepted)

  finish-IsSafe : (d : DtlsSrtp L) → IsSafe d → IsSafe (finish_handshake L d).0
  unfolding finish_handshake
  finish-IsSafe d v =
      if_elim SafeAnswer (not d.srtp_ready && L.is_init_finished d.ssl)
        (λ over.
          let v' = derive-IsDerived d (finished d.srtp_ready (L.is_init_finished d.ssl) over) v in
          if_elim SafeAnswer (derive_srtp_keys L d).0
            (λ derived.
              set_state-IsSafe (derive_srtp_keys L d).1 connected (λ e. v'.1 derived) v'.0)
            (λ failing.
              set_state-IsSafe (derive_srtp_keys L d).1 failed (λ e. absurd (ground arith)) v'.0))
        (λ on. v)
    where
      finished : (a b : Bool) → (not a && b) ≡ true → b ≡ true
      finished a b e = ground arith

  after_accept-IsSafe : (o : Outcome) (d : DtlsSrtp L) → IsSafe d → SafeAnswer (after_accept L o d)
  unfolding after_accept
  after_accept-IsSafe done d v = finish-IsSafe d v
  after_accept-IsSafe waits d v = finish-IsSafe d v
  after_accept-IsSafe breaks d v = set_state-IsSafe d failed (λ e. absurd (ground arith)) v
  after_accept-IsSafe ends d v = set_state-IsSafe d failed (λ e. absurd (ground arith)) v

  after_read-IsSafe : (o : Outcome) (d : DtlsSrtp L) → IsSafe d → SafeAnswer (after_read L o d)
  unfolding after_read
  after_read-IsSafe done d v = finish-IsSafe d v
  after_read-IsSafe waits d v = finish-IsSafe d v
  after_read-IsSafe breaks d v = set_state-IsSafe d failed (λ e. absurd (ground arith)) v
  after_read-IsSafe ends d v = set_state-IsSafe d closed (λ e. absurd (ground arith)) v

  pump-IsSafe : (d : DtlsSrtp L) → IsSafe d → SafeAnswer (pump_ssl L d)
  unfolding pump_ssl
  pump-IsSafe d v =
      if_elim SafeAnswer (is_over L d) (λ over. v)
        (λ on.
          if_elim SafeAnswer (not d.handshake_started)
            (λ first.
              let v1 =
                set_state-IsSafe (record d { handshake_started = true }) handshaking
                  (λ e. absurd (ground arith)) (v.0, v.1, v.2, v.3, v.4) in
              after_accept-IsSafe _ _ (use_ssl-IsSafe _ _ (λ t c. accepts v1.0 c) v1))
            (λ later. after_read-IsSafe _ _ (use_ssl-IsSafe _ _ (λ t c. reads_on v.0 c) v)))

  on_udp-IsSafe :
      (d : DtlsSrtp L) (allocated : Bool) (packet : List ℕ)
      → IsSafe d
      → SafeAnswer (on_udp L d allocated packet)
  unfolding on_udp
  on_udp-IsSafe d allocated packet v =
      if_elim SafeAnswer (is_over L d) (λ over. v)
        (λ on.
          if_elim SafeAnswer allocated
            (λ ok.
              pump-IsSafe _
                (v.0, v.1, omega (arith, length-append room (packet ∷ []), fewer), v.3, v.4))
            (λ exhausted. (v.0, v.1, omega (arith, fewer), v.3, v.4)))
    where
      room : List (List ℕ)
      room = if leb rx_queue_size (length d.rxq) then drop 1 d.rxq else d.rxq

      fewer : length room < rx_queue_size
      fewer = elim (Bool-cases (leb rx_queue_size (length d.rxq))) [
        | inl full ↦ rw full (omega (arith, length-drop 1 d.rxq, v.2))
        | inr free ↦ rw free (ground arith)
      ]

  tick-IsSafe : (d : DtlsSrtp L) (due : Bool) → IsSafe d → SafeAnswer (dtls_tick L d due)
  unfolding dtls_tick
  tick-IsSafe d due v =
      if_elim SafeAnswer (not (same_state d.state handshaking)) (λ other. v)
        (λ on.
          if_elim SafeAnswer due
            (λ late. pump-IsSafe _ (use_ssl-IsSafe _ _ (λ t c. repeats v.0 c) v))
            (λ early. pump-IsSafe d v))

  close-IsSafe : (d : DtlsSrtp L) → IsSafe d → SafeAnswer (dtls_close L d)
  unfolding dtls_close
  close-IsSafe d v =
      if_elim SafeAnswer (same_state d.state connected)
        (λ up.
          set_state-IsSafe _ closed (λ e. absurd (ground arith))
            (use_ssl-IsSafe _ _ (λ t c. shuts v.0 c) v))
        (λ down. set_state-IsSafe d closed (λ e. absurd (ground arith)) v)

  -- Sending changes nothing that the invariant is about.
  send_rtp-IsSafe : (d : DtlsSrtp L) (packet : List ℕ) → IsSafe d → IsSafe (send_rtp L d packet).1
  unfolding send_rtp
  send_rtp-IsSafe d packet v =
      if_elim (λ (r : Option (List ℕ) × DtlsSrtp L × List Callback). IsSafe r.1) (not d.srtp_ready)
        (λ early. v)
        (λ ready. elim (Option-cases d.srtp_out) [
          | inl missing ↦ rw missing v
          | inr (out, present) ↦ elim (Option-cases (L.srtp_protect out packet).0) [
            | inl failing ↦ rw (present, failing) (v.0, v.1, v.2, v.3, v.4)
            | inr (p, protected) ↦ rw (present, protected) (v.0, v.1, v.2, v.3, v.4)
          ]
        ])

  send_rtcp-IsSafe : (d : DtlsSrtp L) (packet : List ℕ) → IsSafe d → IsSafe (send_rtcp L d packet).1
  unfolding send_rtcp
  send_rtcp-IsSafe d packet v =
      if_elim (λ (r : Option (List ℕ) × DtlsSrtp L × List Callback). IsSafe r.1) (not d.srtp_ready)
        (λ early. v)
        (λ ready. elim (Option-cases d.srtp_out) [
          | inl missing ↦ rw missing v
          | inr (out, present) ↦ elim (Option-cases (L.srtp_protect_rtcp out packet).0) [
            | inl failing ↦ rw (present, failing) (v.0, v.1, v.2, v.3, v.4)
            | inr (p, protected) ↦ rw (present, protected) (v.0, v.1, v.2, v.3, v.4)
          ]
        ])

  unprotect-IsSafe :
      (d : DtlsSrtp L) (packet : List ℕ) → IsSafe d → IsSafe (unprotect_rtcp L d packet).1
  unfolding unprotect_rtcp
  unprotect-IsSafe d packet v =
      if_elim (λ (r : Option (List ℕ) × DtlsSrtp L). IsSafe r.1) (not d.srtp_ready) (λ early. v)
        (λ ready. elim (Option-cases d.srtp_in) [
          | inl missing ↦ rw missing v
          | inr (input, present) ↦ rw present (v.0, v.1, v.2, v.3, v.4)
        ])

  -- Any calls from dtls_srtp_session_create() on.
  pub data Reach : DtlsSrtp L → Type 0 where
    created : {d : DtlsSrtp L} → session_create L (some start) fingerprint ≡ some d → Reach d
    receives :
        {d : DtlsSrtp L} (allocated : Bool) (packet : List ℕ)
        → Reach d
        → Reach (on_udp L d allocated packet).0
    ticks : {d : DtlsSrtp L} (due : Bool) → Reach d → Reach (dtls_tick L d due).0
    sends_rtp : {d : DtlsSrtp L} (packet : List ℕ) → Reach d → Reach (send_rtp L d packet).1
    sends_rtcp : {d : DtlsSrtp L} (packet : List ℕ) → Reach d → Reach (send_rtcp L d packet).1
    unprotects : {d : DtlsSrtp L} (packet : List ℕ) → Reach d → Reach (unprotect_rtcp L d packet).1
    closes : {d : DtlsSrtp L} → Reach d → Reach (dtls_close L d).0

  create-IsSafe : (d : DtlsSrtp L) → session_create L (some start) fingerprint ≡ some d → IsSafe d
  unfolding session_create
  create-IsSafe d e =
      subst IsSafe (some-injective _ _ e)
        (begun, refl, omega arith, (λ h. absurd (ground arith)), (λ h. absurd (ground arith)))

  Reach-IsSafe : (d : DtlsSrtp L) → Reach d → IsSafe d
  Reach-IsSafe d (created e) = create-IsSafe d e
  Reach-IsSafe d (receives {d = b} allocated packet r) =
      on_udp-IsSafe b allocated packet (Reach-IsSafe b r)
  Reach-IsSafe d (ticks {d = b} due r) = tick-IsSafe b due (Reach-IsSafe b r)
  Reach-IsSafe d (sends_rtp {d = b} packet r) = send_rtp-IsSafe b packet (Reach-IsSafe b r)
  Reach-IsSafe d (sends_rtcp {d = b} packet r) = send_rtcp-IsSafe b packet (Reach-IsSafe b r)
  Reach-IsSafe d (unprotects {d = b} packet r) = unprotect-IsSafe b packet (Reach-IsSafe b r)
  Reach-IsSafe d (closes {d = b} r) = close-IsSafe b (Reach-IsSafe b r)

  send_rtp-ready :
      (d : DtlsSrtp L) (packet p : List ℕ) → (send_rtp L d packet).0 ≡ some p → d.srtp_ready ≡ true
  unfolding send_rtp
  send_rtp-ready d packet p e = elim (Bool-cases d.srtp_ready) [
    | inl ready ↦ ready
    | inr early ↦ absurd (ground (arith, rw (send_rtp, early) at e))
  ]

  send_rtcp-ready :
      (d : DtlsSrtp L) (packet p : List ℕ) → (send_rtcp L d packet).0 ≡ some p → d.srtp_ready ≡ true
  unfolding send_rtcp
  send_rtcp-ready d packet p e = elim (Bool-cases d.srtp_ready) [
    | inl ready ↦ ready
    | inr early ↦ absurd (ground (arith, rw (send_rtcp, early) at e))
  ]

  unprotect_rtcp-ready :
      (d : DtlsSrtp L) (packet p : List ℕ)
      → (unprotect_rtcp L d packet).0 ≡ some p
      → d.srtp_ready ≡ true
  unfolding unprotect_rtcp
  unprotect_rtcp-ready d packet p e = elim (Bool-cases d.srtp_ready) [
    | inl ready ↦ ready
    | inr early ↦ absurd (ground (arith, rw (unprotect_rtcp, early) at e))
  ]

  -- Whatever calls were made since the session was created, if a packet is protected and sent, or
  -- feedback is accepted, or the session counts as connected, then the handshake has ended, with a
  -- use_srtp profile, in a state of OpenSSL whose peer presented the certificate with the expected
  -- fingerprint, if there is one.
  pub media_checked :
      (d : DtlsSrtp L) (packet p : List ℕ)
      → Reach d
      → ((send_rtp L d packet).0 ≡ some p)
        ⊎ ((send_rtcp L d packet).0 ≡ some p)
        ⊎ ((unprotect_rtcp L d packet).0 ≡ some p)
        ⊎ (d.state ≡ connected)
      → IsChecked
  media_checked d packet p r used =
      let v = Reach-IsSafe d r in
      v.3 (elim used [
        | inl e ↦ send_rtp-ready d packet p e
        | inr (inl e) ↦ send_rtcp-ready d packet p e
        | inr (inr (inl e)) ↦ unprotect_rtcp-ready d packet p e
        | inr (inr (inr e)) ↦ v.4 e
      ])
