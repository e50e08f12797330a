-- ===== src/Dtls/Transport.antt =====
-- What a session of src/webrtc/webrtc_session.c sees of its DTLS session.
use cam.Base.{ℕ, ◌+◌, ◌≤◌, length, Bool, true, false, Option, some, List, ◌≡◌, [], ◌∷◌, All}

pub data DtlsState : Type 0 where
  init handshaking connected failed closed : DtlsState

-- Whether two states are the same.
unfoldable pub same_state : DtlsState → DtlsState → Bool
same_state init init = true
same_state handshaking handshaking = true
same_state connected connected = true
same_state failed failed = true
same_state closed closed = true
same_state s t = false

-- The calls of DtlsSrtpCallbacks.
pub data Callback : Type 0 where
  sends : List ℕ → Callback
  connects : Callback
  changes : DtlsState → Callback

-- What closing may call back with: the last flight, and the closed state.
pub data IsFarewell : Callback → Type 0 where
  last_flight : {packet : List ℕ} → IsFarewell (sends packet)
  last_state : IsFarewell (changes closed)

pub data IsSend : Callback → Type 0 where
  one_packet : {packet : List ℕ} → IsSend (sends packet)

-- A failed or closed session calls back no more.
pub data IsOpen : Callback → Type 0 where
  packet_open : {packet : List ℕ} → IsOpen (sends packet)
  connects_open : IsOpen connects
  handshaking_open : IsOpen (changes handshaking)
  connected_open : IsOpen (changes connected)

pub data IsOrderly : List Callback → Type 0 where
  nothing : IsOrderly []
  goes_on : {c : Callback} {cs : List Callback} → IsOpen c → IsOrderly cs → IsOrderly (c ∷ cs)
  ends_with : {c : Callback} → IsOrderly (c ∷ [])

-- The operations on a DTLS session, each with the callbacks that it makes. The flags of on_udp and
-- tick say whether malloc() succeeds and whether the timer is due.
pub record Transport : Type 1 where
  pub State : Type 0
  pub on_udp : State → Bool → List ℕ → State × List Callback
  pub tick : State → Bool → State × List Callback
  pub close : State → State × List Callback
  pub send_rtp : State → List ℕ → Option (List ℕ) × State × List Callback
  pub send_rtcp : State → List ℕ → Option (List ℕ) × State × List Callback
  pub unprotect_rtcp : State → List ℕ → Option (List ℕ) × State
  pub on_udp-IsOrderly :
      (s : State) (allocated : Bool) (packet : List ℕ) → IsOrderly (on_udp s allocated packet).1
  pub tick-IsOrderly : (s : State) (due : Bool) → IsOrderly (tick s due).1
  pub close-IsFarewell : (s : State) → All IsFarewell (close s).1
  pub send_rtp-IsSend : (s : State) (packet : List ℕ) → All IsSend (send_rtp s packet).2
  pub send_rtp-sends :
      (s : State) (packet bytes : List ℕ)
      → (send_rtp s packet).0 ≡ some bytes
      → (send_rtp s packet).2 ≡ sends bytes ∷ []
  pub length-send_rtp :
      (s : State) (packet bytes : List ℕ)
      → (send_rtp s packet).0 ≡ some bytes
      → length bytes ≤ length packet + 10
  pub send_rtcp-IsSend : (s : State) (packet : List ℕ) → All IsSend (send_rtcp s packet).2
