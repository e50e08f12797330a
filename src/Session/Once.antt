-- ===== src/Session/Once.antt =====
-- The server is told once that a session has closed, whatever the peer, the network and the timers do.
use cam.Base.{ℕ, ◌+◌, ◌≡◌, refl, Bool, some, List, [], ◌++◌, Yields-some}
use cam.Dtls.Transport.{Transport}
use cam.Session.{Peer, Host, Clock, RtcSession, Step, request_idr, close}
use cam.Session.Inbound.{on_udp}
use cam.Session.Outbound.{send_access_unit, tick}
use cam.Session.Creation.{session_create}
use cam.Session.Closing.{
  tells, live, Accounts, accounted, Accounts-append, silent, request_idr-Accounts, close-Accounts,
}
use cam.Session.Closing.Inward.{on_udp-Accounts}
use cam.Session.Closing.Outward.{send_access_unit-Accounts, tick-Accounts}

module _ (H : Host) (T : Transport) where
  -- One call of the server.
  pub data Operation (s : RtcSession H T) : Step H T → Type 0 where
    receives :
        {r : Step H T} (clock : Clock) (allocated : Bool) (buf : List ℕ) (source : Peer)
        → on_udp H T clock s allocated buf source ≡ some r
        → Operation s r
    ticks : (clock : Clock) (now : ℕ) (due : Bool) → Operation s (tick H T clock s now due)
    sends_unit :
        {r : Step H T} (clock : Clock) (access_unit : List ℕ) (pts_us : ℕ) (is_idr : Bool)
        → send_access_unit H T clock s access_unit pts_us is_idr ≡ some r
        → Operation s r
    requests : (clock : Clock) → Operation s (request_idr H T clock s)
    closes : (clock : Clock) → Operation s (close H T clock s)

  -- Calls one after the other: where they lead, and all that they do.
  pub data Run (s : RtcSession H T) : Step H T → Type 0 where
    here : Run s (s, [])
    next : {r r' : Step H T} → Run s r → Operation r.0 r' → Run s (r'.0, r.1 ++ r'.1)

  Operation-Accounts : (s : RtcSession H T) (r : Step H T) → Operation s r → Accounts s.state r
  Operation-Accounts s r (receives clock allocated buf source e) =
      Yields-some (Accounts s.state) (on_udp H T clock s allocated buf source)
        (on_udp-Accounts clock s allocated buf source) e
  Operation-Accounts s r (ticks clock now due) = tick-Accounts clock s now due
  Operation-Accounts s r (sends_unit clock au pts_us is_idr e) =
      Yields-some (Accounts s.state) (send_access_unit H T clock s au pts_us is_idr)
        (send_access_unit-Accounts clock s au pts_us is_idr) e
  Operation-Accounts s r (requests clock) = request_idr-Accounts clock s
  Operation-Accounts s r (closes clock) = close-Accounts clock s

  Run-Accounts : (s : RtcSession H T) (r : Step H T) → Run s r → Accounts s.state r
  Run-Accounts s r here = silent s.state (s, []) refl refl
  Run-Accounts s r (next {r = before} {r' = after} run op) =
      Accounts-append s.state before after (Run-Accounts s before run)
        (Operation-Accounts before.0 after op)

  -- Whatever calls the server makes since the session was created, with whatever datagrams, clocks and
  -- access units, the number of its on_closed() calls so far is one if the session is closed, and zero
  -- if it is not.
  pub closed_once :
      (socket : H.Socket) (transport : T.State) (raw : List ℕ) (ssrc payload_type created_ms : ℕ)
      (r : Step H T)
      → Run (session_create H T socket transport raw ssrc payload_type created_ms) r
      → tells r.1 + live r.0.state ≡ 1
  unfolding session_create
  closed_once socket transport raw ssrc payload_type created_ms r run =
      accounted _ r (Run-Accounts _ r run)
