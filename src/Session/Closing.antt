-- ===== src/Session/Closing.antt =====
-- A session closes once: its server is told so exactly once, and it never comes back.
pub mod Inward
pub mod Outward
use cam.Base.{
  ℕ, zero, suc, ◌+◌, ◌-◌, ◌%◌, ◌^◌, ◌≡◌, refl, ap, sym, ◌∙◌, Bool, true, false, ◌&&◌, not, Option,
  none, some, List, [], ◌∷◌, ◌++◌, arith, ltb, ◌==◌, if_elim, if◌then◌else◌, Option-cases,
  Bool-cases, All, inl, inr,
}
use cam.Dtls.Transport.{
  DtlsState, init, handshaking, connected, failed, closed, Callback, sends, connects, changes,
  Transport, IsFarewell, last_flight, last_state, IsSend, one_packet, IsOpen, packet_open,
  connects_open, handshaking_open, connected_open, IsOrderly, nothing, goes_on, ends_with,
}
use cam.Session.{
  Peer, SessionState, fresh, ice, dtls, streaming, ended, same_state, Host, Clock, Effect, sent,
  wants_idr, tells_closed, RtcSession, Step, count64, idr_min_interval_ms, session_sendto,
  dtls_send_udp, request_idr, dtls_on_connected, dtls_on_state, called, all_called, close_within,
  close, after_call,
}

-- How often the server is told that the session has closed.
abbrev pub tells : List Effect → ℕ
tells [] = 0
tells (sent bytes peer ∷ effects) = tells effects
tells (wants_idr ∷ effects) = tells effects
tells (tells_closed ∷ effects) = suc (tells effects)

pub tells-append : (xs ys : List Effect) → tells (xs ++ ys) ≡ tells xs + tells ys
tells-append [] ys = omega arith
tells-append (sent bytes peer ∷ xs) ys = tells-append xs ys
tells-append (wants_idr ∷ xs) ys = tells-append xs ys
tells-append (tells_closed ∷ xs) ys = omega (arith, tells-append xs ys)

-- One while the session is not closed.
abbrev pub live : SessionState → ℕ
live fresh = 1
live ice = 1
live dtls = 1
live streaming = 1
live ended = 0

pub live_of_open : (st : SessionState) → same_state st ended ≡ false → live st ≡ 1
unfolding same_state
live_of_open fresh h = refl
live_of_open ice h = refl
live_of_open dtls h = refl
live_of_open streaming h = refl
live_of_open ended h = absurd (ground arith)

pub fresh_of_same : (st : SessionState) → same_state st fresh ≡ true → live st ≡ 1
unfolding same_state
fresh_of_same fresh h = refl
fresh_of_same ice h = refl
fresh_of_same dtls h = refl
fresh_of_same streaming h = refl
fresh_of_same ended h = absurd (ground arith)

pub ended_of_same : (st : SessionState) → same_state st ended ≡ true → st ≡ ended
unfolding same_state
ended_of_same fresh h = absurd (ground arith)
ended_of_same ice h = absurd (ground arith)
ended_of_same dtls h = absurd (ground arith)
ended_of_same streaming h = absurd (ground arith)
ended_of_same ended h = refl

module _ {H : Host} {T : Transport} where
  -- A step from a session in some state tells the server once if it closes the session, else never.
  pub Accounts : SessionState → Step H T → Type 0
  Accounts st r = tells r.1 + live r.0.state ≡ live st

  pub accounted :
      (st : SessionState) (r : Step H T) → Accounts st r → tells r.1 + live r.0.state ≡ live st
  unfolding Accounts
  accounted st r h = h

  -- Steps one after the other.
  pub Accounts-append :
      (st : SessionState) (r r' : Step H T)
      → Accounts st r
      → Accounts r.0.state r'
      → Accounts st (r'.0, r.1 ++ r'.1)
  unfolding Accounts
  Accounts-append st r r' h h' = omega (arith, tells-append r.1 r'.1, h, h')

  pub silent :
      (st : SessionState) (r : Step H T) → tells r.1 ≡ 0 → live r.0.state ≡ live st → Accounts st r
  unfolding Accounts
  silent st r h e = omega (arith, h, e)

  pub sendto-state :
      (s : RtcSession H T) (bytes : List ℕ) (peer : Peer)
      → (session_sendto H T s bytes peer).1.state ≡ s.state
  unfolding session_sendto
  sendto-state s bytes peer = elim (Bool-cases (H.sendto s.socket bytes peer).0) [
    | inl whole ↦ rw whole refl
    | inr part ↦ rw part refl
  ]

  pub sendto-Accounts :
      (s : RtcSession H T) (bytes : List ℕ) (peer : Peer)
      → Accounts s.state ((session_sendto H T s bytes peer).1, (session_sendto H T s bytes peer).2)
  unfolding session_sendto
  sendto-Accounts s bytes peer = silent s.state _ refl (ap live (sendto-state s bytes peer))

  -- A DTLS record goes out, and the state stays.
  dtls_send_udp-state :
      (s : RtcSession H T) (packet : List ℕ)
      → (tells (dtls_send_udp H T s packet).1 ≡ 0)
        × ((dtls_send_udp H T s packet).0.state ≡ s.state)
  unfolding dtls_send_udp session_sendto
  dtls_send_udp-state s packet = elim (Option-cases s.remote) [
    | inl alone ↦ rw (dtls_send_udp, alone) (refl, refl)
    | inr (peer, known) ↦ rw (dtls_send_udp, known) (refl, sendto-state s packet peer)
  ]

  pub request_idr-state :
      (clock : Clock) (s : RtcSession H T)
      → (tells (request_idr H T clock s).1 ≡ 0) × ((request_idr H T clock s).0.state ≡ s.state)
  unfolding request_idr
  request_idr-state clock s =
      if_elim (λ (r : Step H T). (tells r.1 ≡ 0) × (r.0.state ≡ s.state))
        (not (s.last_idr_ms == 0)
          && ltb ((clock.idr_ms + 2 ^ 64 - s.last_idr_ms) % 2 ^ 64) idr_min_interval_ms)
        (λ early. (refl, refl)) (λ due. (refl, refl))

  pub request_idr-Accounts :
      (clock : Clock) (s : RtcSession H T) → Accounts s.state (request_idr H T clock s)
  request_idr-Accounts clock s =
      let (quiet, same) = request_idr-state clock s in silent s.state _ quiet (ap live same)

  -- A call back that leaves the session open, if it was.
  abbrev StaysOpen : Step H T → Type 0
  StaysOpen r = (tells r.1 ≡ 0) × (live r.0.state ≡ 1)

  open_call :
      (clock : Clock) (shut : RtcSession H T → Step H T) (s : RtcSession H T) (c : Callback)
      → IsOpen c
      → live s.state ≡ 1
      → StaysOpen (called H T clock shut s c)
  unfolding called dtls_on_connected dtls_on_state
  open_call clock shut s (sends packet) packet_open h =
      let (quiet, same) = dtls_send_udp-state s packet in (quiet, ap live same ∙ h)
  open_call clock shut s connects connects_open h =
      let (quiet, same) =
        request_idr-state clock
          (record s { state = streaming; stats = record s.stats { waiting_keyframe = true } }) in
      (quiet, ap live same)
  open_call clock shut s (changes handshaking) handshaking_open h = (refl, refl)
  open_call clock shut s (changes connected) connected_open h = (refl, h)
  open_call clock shut s (changes init) o h = elim o [ ]
  open_call clock shut s (changes failed) o h = elim o [ ]
  open_call clock shut s (changes closed) o h = elim o [ ]

  any_call :
      (clock : Clock) (shut : RtcSession H T → Step H T) (s : RtcSession H T) (c : Callback)
      → ((s' : RtcSession H T) → Accounts s'.state (shut s'))
      → live s.state ≡ 1
      → Accounts s.state (called H T clock shut s c)
  unfolding called dtls_on_state
  any_call clock shut s (sends packet) hs h =
      let (quiet, up) = open_call clock shut s (sends packet) packet_open h in
      silent s.state _ quiet (up ∙ sym h)
  any_call clock shut s connects hs h =
      let (quiet, up) = open_call clock shut s connects connects_open h in
      silent s.state _ quiet (up ∙ sym h)
  any_call clock shut s (changes init) hs h = silent s.state _ refl refl
  any_call clock shut s (changes handshaking) hs h = silent s.state _ refl (sym h)
  any_call clock shut s (changes connected) hs h = silent s.state _ refl refl
  any_call clock shut s (changes failed) hs h = hs s
  any_call clock shut s (changes closed) hs h = hs s

  all_called-Accounts :
      (clock : Clock) (shut : RtcSession H T → Step H T) (s : RtcSession H T) (cs : List Callback)
      → ((s' : RtcSession H T) → Accounts s'.state (shut s'))
      → IsOrderly cs
      → live s.state ≡ 1
      → Accounts s.state (all_called H T clock shut s cs)
  unfolding all_called
  all_called-Accounts clock shut s [] hs nothing h = silent s.state _ refl refl
  all_called-Accounts clock shut s (c ∷ cs) hs (goes_on o os) h =
      let (quiet, up) = open_call clock shut s c o h in
      let rest = all_called-Accounts clock shut (called H T clock shut s c).0 cs hs os up in
      Accounts-append s.state (called H T clock shut s c) _ (silent s.state _ quiet (up ∙ sym h))
        rest
  all_called-Accounts clock shut s (c ∷ []) hs ends_with h =
      Accounts-append s.state (called H T clock shut s c) _ (any_call clock shut s c hs h)
        (silent _ _ refl refl)

  -- A DTLS session that only sends.
  pub sends_quiet :
      (clock : Clock) (shut : RtcSession H T → Step H T) (s : RtcSession H T) (cs : List Callback)
      → All IsSend cs
      → (tells (all_called H T clock shut s cs).1 ≡ 0)
        × ((all_called H T clock shut s cs).0.state ≡ s.state)
  unfolding all_called called
  sends_quiet clock shut s [] hs = (refl, refl)
  sends_quiet clock shut s (sends packet ∷ cs) (one_packet, hs) =
      let (quiet, same) = dtls_send_udp-state s packet in
      let (quiet', same') = sends_quiet clock shut (dtls_send_udp H T s packet).0 cs hs in
      (tells-append (dtls_send_udp H T s packet).1 _ ∙ omega (arith, quiet, quiet'), same' ∙ same)
  sends_quiet clock shut s (connects ∷ cs) hs = elim hs.0 [ ]
  sends_quiet clock shut s (changes state ∷ cs) hs = elim hs.0 [ ]

  -- A call of rtc_session_close() for a closed session does nothing.
  close_within-ended :
      (n : ℕ) (clock : Clock) (s : RtcSession H T)
      → s.state ≡ ended
      → close_within H T n clock s ≡ (s, [])
  unfolding close_within same_state
  close_within-ended zero clock s e = refl
  close_within-ended (suc n) clock s e = rw e refl

  -- The callbacks of the DTLS session while it closes.
  farewell :
      (n : ℕ) (clock : Clock) (s : RtcSession H T) (cs : List Callback)
      → All IsFarewell cs
      → s.state ≡ ended
      → (tells (all_called H T clock (close_within H T n clock) s cs).1 ≡ 0)
        × ((all_called H T clock (close_within H T n clock) s cs).0.state ≡ ended)
        × (all_called H T clock (close_within H T n clock) s cs
            ≡ all_called H T clock (close_within H T 0 clock) s cs)
  unfolding all_called called dtls_on_state
  farewell n clock s [] hs e = (refl, e, refl)
  farewell n clock s (sends packet ∷ cs) (last_flight, hs) e =
      let (quiet, same) = dtls_send_udp-state s packet in
      let (still, over, alike) = farewell n clock (dtls_send_udp H T s packet).0 cs hs (same ∙ e) in
      (
        tells-append (dtls_send_udp H T s packet).1 _ ∙ omega (arith, quiet, still),
        over,
        ap (λ (r : Step H T). (r.0, (dtls_send_udp H T s packet).1 ++ r.1)) alike,
      )
  farewell n clock s (changes closed ∷ cs) (last_state, hs) e =
      rw (close_within-ended n clock s e, close_within-ended 0 clock s e)
        (farewell n clock s cs hs e)
  farewell n clock s (connects ∷ cs) hs e = elim hs.0 [ ]
  farewell n clock s (changes init ∷ cs) hs e = elim hs.0 [ ]
  farewell n clock s (changes handshaking ∷ cs) hs e = elim hs.0 [ ]
  farewell n clock s (changes connected ∷ cs) hs e = elim hs.0 [ ]
  farewell n clock s (changes failed ∷ cs) hs e = elim hs.0 [ ]

  pub close_within-Accounts :
      (n : ℕ) (clock : Clock) (s : RtcSession H T)
      → Accounts s.state (close_within H T (suc n) clock s)
  unfolding close_within Accounts
  close_within-Accounts n clock s =
      if_elim (Accounts s.state) (same_state s.state ended)
        (λ over. silent s.state (s, []) refl refl)
        (λ up.
          let (still, over, alike) =
            farewell n clock (record s { state = ended; transport = (T.close s.transport).0 })
              (T.close s.transport).1 (T.close-IsFarewell s.transport) refl in
          omega (
            arith,
            tells-append
                (all_called H T clock (close_within H T n clock)
                  (record s { state = ended; transport = (T.close s.transport).0 })
                  (T.close s.transport).1).1
                (tells_closed ∷ []),
            still,
            ap live over,
            live_of_open s.state up,
          ))

  -- However deep rtc_session_close() is called back from the callbacks of its own call, and from
  -- theirs, the outcome is that of one call whose callbacks find nothing left to do.
  pub close_within-enough :
      (n : ℕ) (clock : Clock) (s : RtcSession H T)
      → close_within H T (suc n) clock s ≡ close_within H T 1 clock s
  unfolding close_within
  close_within-enough n clock s = elim (Bool-cases (same_state s.state ended)) [
    | inl over ↦ rw over refl
    | inr up ↦
        let (still, over, alike) =
          farewell n clock (record s { state = ended; transport = (T.close s.transport).0 })
            (T.close s.transport).1 (T.close-IsFarewell s.transport) refl in
        rw (up, alike) refl
  ]

  pub close-Accounts : (clock : Clock) (s : RtcSession H T) → Accounts s.state (close H T clock s)
  unfolding close
  close-Accounts clock s = close_within-Accounts 1 clock s

  -- A call into the DTLS session of an open session, with its callbacks.
  pub after_call-Accounts :
      (clock : Clock) (s : RtcSession H T) (r : T.State × List Callback)
      → IsOrderly r.1
      → live s.state ≡ 1
      → Accounts s.state (after_call H T clock s r)
  after_call-Accounts clock s r o h =
      all_called-Accounts clock (close H T clock) (record s { transport = r.0 }) r.1
        (close-Accounts clock) o h

  -- A step that tells the server nothing and keeps the state.
  abbrev pub IsQuiet : SessionState → Step H T → Type 0
  IsQuiet st r = (tells r.1 ≡ 0) × (r.0.state ≡ st)

  pub quiet-Accounts : (st : SessionState) (r : Step H T) → IsQuiet st r → Accounts st r
  quiet-Accounts st r (quiet, same) = silent st r quiet (ap live same)
