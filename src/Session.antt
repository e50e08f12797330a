-- ===== src/Session.antt =====
-- src/webrtc/webrtc_session.c: one viewer, from the offer to the end.
-- The DTLS session is the parameter Transport, and the system with OpenSSL's HMAC() is Host. The
-- hooks of the server are always set; a call of one, or a datagram handed to the socket, is an
-- Effect, in their order. An operation takes the readings of the clocks that it may make. Log lines
-- and what only they use are left out.
pub mod Inbound
pub mod Outbound
pub mod Closing
pub mod Once
pub mod Rate
pub mod Bounds
pub mod Retransmit
pub mod Authentic
pub mod Creation
mod Tests
use cam.Base.{
  ℕ, zero, suc, ◌+◌, ◌-◌, ◌%◌, ◌^◌, Bool, true, false, ◌&&◌, ◌||◌, not, Option, none, some, List,
  [], ◌∷◌, ◌++◌, ltb, leb, ◌==◌, if◌then◌else◌,
}
pub use cam.Base.Bytes.{count32, count64}
use cam.Stun.{Crypto}
use cam.Rtp.{RtpH264}
use cam.Dtls.Transport.{
  DtlsState, init, handshaking, connected, failed, closed, Callback, sends, connects, changes,
  Transport,
}

abbrev pub idle_timeout_ms : ℕ
idle_timeout_ms = 15000

abbrev pub dtls_watchdog_ms : ℕ
dtls_watchdog_ms = 30000

abbrev pub idr_min_interval_ms : ℕ
idr_min_interval_ms = 400

abbrev pub sr_interval_ms : ℕ
sr_interval_ms = 1000

abbrev pub retx_cache_size : ℕ
retx_cache_size = 512

-- A peer's port and IPv4 address; `none` for another family.
abbrev pub Peer : Type 0
Peer = Option (ℕ × ℕ)

pub data SessionState : Type 0 where
  fresh ice dtls streaming ended : SessionState

unfoldable pub same_state : SessionState → SessionState → Bool
same_state fresh fresh = true
same_state ice ice = true
same_state dtls dtls = true
same_state streaming streaming = true
same_state ended ended = true
same_state s t = false

-- The system: sendto() on the socket of the session, and whether it takes the whole datagram; the
-- HMAC; what local arrays hold before they are written to; whether malloc() can give so many bytes.
pub record Host : Type 1 where
  pub Socket : Type 0
  pub sendto : Socket → List ℕ → Peer → Bool × Socket
  pub crypto : Crypto
  pub stale_mac : List ℕ
  pub stale_response : List ℕ
  pub heap : ℕ → Bool

-- The readings of the clocks in one operation, one for each place that reads.
pub record Clock : Type 0 where
  pub rx_ms : ℕ
  pub idr_ms : ℕ
  pub sr_ms : ℕ
  pub rr_ms : ℕ
  pub media_ms : ℕ
  pub wall_us : ℕ
  pub mono_us : ℕ

pub data Effect : Type 0 where
  sent : List ℕ → Peer → Effect
  wants_idr : Effect
  tells_closed : Effect

pub record Stats : Type 0 where
  pub datagrams_rx : ℕ
  pub packets_sent : ℕ
  pub bytes_sent : ℕ
  pub retransmissions : ℕ
  pub send_errors : ℕ
  pub pli_received : ℕ
  pub nacks_received : ℕ
  pub rtcp_sent : ℕ
  pub stun_rx : ℕ
  pub stun_ok : ℕ
  pub stun_bad : ℕ
  pub peer_moved : ℕ
  pub frames_sent : ℕ
  pub keyframes_sent : ℕ
  pub frames_held : ℕ
  pub last_media_ms : ℕ
  pub rr_received : ℕ
  pub last_rr_ms : ℕ
  pub waiting_keyframe : Bool
  pub rtt_ms : Option ℕ
  pub fraction_lost : ℕ
  pub jitter : ℕ

-- A slot of the cache: the protected packet, empty while retx_len is 0, and its number.
pub record Slot : Type 0 where
  pub packet : List ℕ
  pub sequence : ℕ

module _ (H : Host) (T : Transport) where
  -- `remote` is `none` while have_remote is 0.
  pub record RtcSession : Type 0 where
    pub state : SessionState
    pub socket : H.Socket
    pub local_ufrag : List ℕ
    pub local_pwd : List ℕ
    pub remote : Option Peer
    pub transport : T.State
    pub rtp : RtpH264
    pub created_ms : ℕ
    pub last_rx_ms : ℕ
    pub last_idr_ms : ℕ
    pub next_sr_ms : ℕ
    pub idr_requested : Bool
    pub stats : Stats
    pub retx : List Slot

  abbrev pub Step : Type 0
  Step = RtcSession × List Effect

  -- session_sendto(): whether it returns 0.
  pub session_sendto : RtcSession → List ℕ → Peer → Bool × RtcSession × List Effect
  session_sendto s bytes destination =
      let (whole, socket) = H.sendto s.socket bytes destination in
      let s' = record s { socket = socket } in
      let counted = record s' {
        stats = record s.stats { send_errors = count64 s.stats.send_errors 1 };
      } in
      (whole, if whole then s' else counted, sent bytes destination ∷ [])

  -- dtls_send_udp()
  pub dtls_send_udp : RtcSession → List ℕ → Step
  dtls_send_udp s packet = elim s.remote [
    | none ↦ (s, [])
    | some peer ↦ let (whole, s', effects) = session_sendto s packet peer in (s', effects)
  ]

  -- rtc_session_request_idr()
  pub request_idr : Clock → RtcSession → Step
  request_idr clock s =
      if not (s.last_idr_ms == 0)
        && ltb ((clock.idr_ms + 2 ^ 64 - s.last_idr_ms) % 2 ^ 64) idr_min_interval_ms
      then (s, [])
      else (record s { last_idr_ms = clock.idr_ms; idr_requested = true }, wants_idr ∷ [])

  -- dtls_on_connected()
  pub dtls_on_connected : Clock → RtcSession → Step
  dtls_on_connected clock s =
      let (s', effects) =
        request_idr clock
          (record s { state = streaming; stats = record s.stats { waiting_keyframe = true } }) in
      (record s' { next_sr_ms = count64 clock.sr_ms sr_interval_ms }, effects)

  -- dtls_on_state(), with rtc_session_close() for the calls of it.
  pub dtls_on_state : (RtcSession → Step) → RtcSession → DtlsState → Step
  dtls_on_state close s init = (s, [])
  dtls_on_state close s handshaking = (record s { state = dtls }, [])
  dtls_on_state close s connected = (s, [])
  dtls_on_state close s failed = close s
  dtls_on_state close s closed = close s

  -- The callbacks of the DTLS session, one and several.
  pub called : Clock → (RtcSession → Step) → RtcSession → Callback → Step
  called clock close s (sends packet) = dtls_send_udp s packet
  called clock close s connects = dtls_on_connected clock s
  called clock close s (changes state) = dtls_on_state close s state

  pub all_called : Clock → (RtcSession → Step) → RtcSession → List Callback → Step
  all_called clock close s [] = (s, [])
  all_called clock close s (c ∷ cs) =
      let (s', effects) = called clock close s c in
      let (s'', effects') = all_called clock close s' cs in (s'', effects ++ effects')

  -- rtc_session_close(), with `n` calls of it inside each other; Closing shows that one is enough,
  -- since the calls from its own callbacks find the session closed.
  pub close_within : ℕ → Clock → RtcSession → Step
  close_within zero clock s = (s, [])
  close_within (suc n) clock s =
      let (transport, calls) = T.close s.transport in
      let (s', effects) =
        all_called clock (close_within n clock) (record s { state = ended; transport = transport })
          calls in
      if same_state s.state ended then (s, []) else (s', effects ++ tells_closed ∷ [])

  pub close : Clock → RtcSession → Step
  close clock s = close_within 2 clock s

  -- The callbacks after a call into the DTLS session.
  abbrev pub after_call : Clock → RtcSession → T.State × List Callback → Step
  after_call clock s r = all_called clock (close clock) (record s { transport = r.0 }) r.1
