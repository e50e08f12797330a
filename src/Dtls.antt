-- ===== src/Dtls.antt =====
-- src/webrtc/dtls_srtp.c: one DTLS session as the server of the handshake, and the SRTP keys.
-- OpenSSL and libsrtp are the parameter Libraries. The callbacks of the session's owner are the list
-- of the calls that an operation makes, in their order: none is made after the one for a failed or
-- closed session, so that what the owner does in it cannot change what follows. The ring of waiting
-- datagrams is the list of them, oldest first. Failure texts and counters are left out.
pub mod Transport
pub mod Fingerprint
pub mod Verified
pub mod Callbacks
mod Tests
use cam.Base.{
  ℕ, zero, suc, ◌+◌, ◌-◌, ◌*◌, ◌/◌, ◌%◌, ◌≡◌, ◌≤◌, Bool, true, false, ◌&&◌, ◌||◌, not, Option, none,
  some, List, [], ◌∷◌, ◌++◌, ltb, leb, ◌==◌, if◌then◌else◌, ◌>>=◌, length, take, drop,
}
use cam.Base.Memory.{slice}
use cam.Stun.{same_bytes}
use Transport.{
  DtlsState, init, handshaking, connected, failed, closed, Callback, sends, connects, changes,
  same_state,
}

abbrev pub rx_queue_size : ℕ
rx_queue_size = 64

-- How a call of OpenSSL returns.
pub data Outcome : Type 0 where
  done waits breaks ends : Outcome

-- What a call of OpenSSL does with the two BIOs of the session until it returns.
pub data Use (S : Type 0) : Type 0 where
  returns : Outcome → S → Use S
  reads : ℕ → (Option (List ℕ) → Use S) → Use S
  writes : List ℕ → Use S → Use S

-- A peer's digest is `none` without a certificate, and `some none` if X509_digest() fails; one of
-- SHA-256 has 32 bytes. SRTP_AES128_CM_SHA1_80 adds a tag of ten bytes to a packet.
pub record Libraries : Type 1 where
  pub Ssl : Type 0
  pub Srtp : Type 0
  pub accept : Ssl → Use Ssl
  pub read : Ssl → Use Ssl
  pub shutdown : Ssl → Use Ssl
  pub handle_timeout : Ssl → Use Ssl
  pub is_init_finished : Ssl → Bool
  pub has_srtp_profile : Ssl → Bool
  pub export_keying_material : Ssl → Option (List ℕ)
  pub peer_digest : Ssl → Option (Option (List ℕ))
  pub srtp_create : List ℕ → Option Srtp
  pub srtp_protect : Srtp → List ℕ → Option (List ℕ) × Srtp
  pub srtp_protect_rtcp : Srtp → List ℕ → Option (List ℕ) × Srtp
  pub srtp_unprotect_rtcp : Srtp → List ℕ → Option (List ℕ) × Srtp
  pub length-peer_digest : (s : Ssl) (md : List ℕ) → peer_digest s ≡ some (some md) → length md ≡ 32
  pub length-srtp_protect :
      (s : Srtp) (packet bytes : List ℕ)
      → (srtp_protect s packet).0 ≡ some bytes
      → length bytes ≤ length packet + 10

-- The loop over the characters behind the algorithm, with room for `n` more.
pub normalize : ℕ → List ℕ → List ℕ
normalize zero text = []
normalize (suc n) [] = []
normalize (suc n) (c ∷ cs) =
    let skipped = normalize (suc n) cs in
    let kept = (if leb b'a' c && leb c b'f' then c - 32 else c) ∷ normalize n cs in
    if c == b':' then skipped else kept

pub hex_digit : ℕ → ℕ
hex_digit n = if ltb n 10 then b'0' + n else b'A' + (n - 10)

-- `%02X` for each byte.
pub hex_text : List ℕ → List ℕ
hex_text [] = []
hex_text (b ∷ bs) = hex_digit (b / 16) ∷ hex_digit (b % 16) ∷ hex_text bs

-- What follows the first space, or all of it.
pub without_algorithm : List ℕ → List ℕ → List ℕ
without_algorithm whole [] = whole
without_algorithm whole (c ∷ cs) = if c == b' ' then cs else without_algorithm whole cs

-- fingerprint_hex_equal(); it has no result on a digest of more than 51 bytes, whose text with its zero
-- byte runs over the array `actual` of 104 bytes.
pub fingerprint_hex_equal : List ℕ → List ℕ → Option Bool
fingerprint_hex_equal sdp_value md =
    if ltb 103 (length (hex_text md))
    then none
    else some (same_bytes (normalize 127 (without_algorithm sdp_value sdp_value)) (hex_text md))

module _ (L : Libraries) where
  open L use {Ssl, Srtp}

  pub record DtlsSrtp : Type 0 where
    pub ssl : Ssl
    pub state : DtlsState
    pub rxq : List (List ℕ)
    pub srtp_out : Option Srtp
    pub srtp_in : Option Srtp
    pub srtp_ready : Bool
    pub expected_fingerprint : List ℕ
    pub handshake_started : Bool
    pub fingerprint_ok : Bool

  -- dtls_set_state()
  pub dtls_set_state : DtlsSrtp → DtlsState → DtlsSrtp × List Callback
  dtls_set_state d s =
      if same_state d.state s then (d, []) else (record d { state = s }, changes s ∷ [])

  -- bio_rx_read() into a buffer of `size` bytes; `none` for the result -1.
  pub bio_rx_read : DtlsSrtp → ℕ → Option (List ℕ) × DtlsSrtp
  bio_rx_read d size = elim d.rxq [
    | [] ↦ (none, d)
    | packet ∷ rest ↦
        let left = record d { rxq = rest } in
        if ltb size (length packet) then (none, left) else (some packet, left)
  ]

  -- bio_tx_write(): what it sends. (The send_udp callback of this program is always set.)
  pub bio_tx_write : List ℕ → List Callback
  bio_tx_write buf = if length buf == 0 then [] else sends buf ∷ []

  -- A call of OpenSSL on the session's two BIOs.
  pub use_ssl : Use Ssl → DtlsSrtp → Outcome × DtlsSrtp × List Callback
  use_ssl (returns outcome ssl) d = (outcome, record d { ssl = ssl }, [])
  use_ssl (reads size next) d = let (packet, d') = bio_rx_read d size in use_ssl (next packet) d'
  use_ssl (writes buf next) d =
      let (outcome, d', calls) = use_ssl next d in (outcome, d', bio_tx_write buf ++ calls)

  -- derive_srtp_keys() from the creation of the outbound SRTP session on: `some` for the result 0.
  pub check_peer : DtlsSrtp → Bool
  check_peer d = if length d.expected_fingerprint == 0 then true else (elim (L.peer_digest d.ssl) [
    | none ↦ false
    | some digest ↦ (elim digest [
      | none ↦ false
      | some md ↦ (elim (fingerprint_hex_equal d.expected_fingerprint md) [
        | none ↦ false
        | some same ↦ same
      ])
    ])
  ])

  -- derive_srtp_keys(): whether it succeeds, and the session.
  pub derive_srtp_keys : DtlsSrtp → Bool × DtlsSrtp
  derive_srtp_keys d =
      if not (L.has_srtp_profile d.ssl)
      then (false, d)
      else (elim (L.export_keying_material d.ssl) [
        | none ↦ (false, d)
        | some material ↦
            let client_key = slice 0 16 material ++ slice 32 14 material in
            let server_key = slice 16 16 material ++ slice 46 14 material in
            (elim (L.srtp_create server_key) [
              | none ↦ (false, d)
              | some out ↦
                  let d' = record d { srtp_out = some out } in
                  (elim (L.srtp_create client_key) [
                    | none ↦ (false, d')
                    | some input ↦
                        let d'' = record d' { srtp_in = some input } in
                        if check_peer d''
                        then (true, record d'' { fingerprint_ok = true; srtp_ready = true })
                        else (false, d'')
                  ])
            ])
      ])

  -- The end of pump_ssl(): the keys, once the handshake is over.
  pub finish_handshake : DtlsSrtp → DtlsSrtp × List Callback
  finish_handshake d =
      let (derived, d') = derive_srtp_keys d in
      let (up, calls) = dtls_set_state d' connected in
      let result : DtlsSrtp × List Callback =
        if derived then (up, calls ++ connects ∷ []) else dtls_set_state d' failed in
      if not d.srtp_ready && L.is_init_finished d.ssl then result else (d, [])

  -- What pump_ssl() makes of the outcome of SSL_accept() and of SSL_read().
  pub after_accept : Outcome → DtlsSrtp → DtlsSrtp × List Callback
  after_accept done d = finish_handshake d
  after_accept waits d = finish_handshake d
  after_accept breaks d = dtls_set_state d failed
  after_accept ends d = dtls_set_state d failed

  pub after_read : Outcome → DtlsSrtp → DtlsSrtp × List Callback
  after_read done d = finish_handshake d
  after_read waits d = finish_handshake d
  after_read breaks d = dtls_set_state d failed
  after_read ends d = dtls_set_state d closed

  -- Whether the session is over.
  pub is_over : DtlsSrtp → Bool
  is_over d = same_state d.state closed || same_state d.state failed

  -- pump_ssl()
  pub pump_ssl : DtlsSrtp → DtlsSrtp × List Callback
  pump_ssl d =
      let (d1, calls1) = dtls_set_state (record d { handshake_started = true }) handshaking in
      let (accepted, d2, calls2) = use_ssl (L.accept d1.ssl) d1 in
      let (d3, calls3) = after_accept accepted d2 in
      let (got, e1, sent) = use_ssl (L.read d.ssl) d in
      let (e2, calls) = after_read got e1 in
      if is_over d
      then (d, [])
      else if not d.handshake_started
      then (d3, calls1 ++ (calls2 ++ calls3))
      else (e2, sent ++ calls)

  -- dtls_srtp_on_udp(); the flag tells whether malloc() succeeds.
  pub on_udp : DtlsSrtp → Bool → List ℕ → DtlsSrtp × List Callback
  on_udp d allocated packet =
      let room = record d {
        rxq = if leb rx_queue_size (length d.rxq) then drop 1 d.rxq else d.rxq;
      } in
      if is_over d
      then (d, [])
      else if allocated
      then pump_ssl (record room { rxq = room.rxq ++ packet ∷ [] })
      else (room, [])

  -- dtls_srtp_tick(); the flag tells whether DTLSv1_get_timeout() says that the timer is due.
  pub dtls_tick : DtlsSrtp → Bool → DtlsSrtp × List Callback
  dtls_tick d due =
      let (outcome, d1, sent) = use_ssl (L.handle_timeout d.ssl) d in
      let (d2, calls) = pump_ssl d1 in
      if not (same_state d.state handshaking)
      then (d, [])
      else if due
      then (d2, sent ++ calls)
      else pump_ssl d

  -- dtls_srtp_send_rtp(): the protected packet, `none` for the result -1.
  pub send_rtp : DtlsSrtp → List ℕ → Option (List ℕ) × DtlsSrtp × List Callback
  send_rtp d packet = if not d.srtp_ready then (none, d, []) else (elim d.srtp_out [
    | none ↦ (none, d, [])
    | some out ↦
        let (result, out') = L.srtp_protect out packet in
        let d' = record d { srtp_out = some out' } in
        (elim result [ none ↦ (none, d', []) | some p ↦ (some p, d', sends p ∷ []) ])
  ])

  -- dtls_srtp_send_rtcp()
  pub send_rtcp : DtlsSrtp → List ℕ → Option (List ℕ) × DtlsSrtp × List Callback
  send_rtcp d packet = if not d.srtp_ready then (none, d, []) else (elim d.srtp_out [
    | none ↦ (none, d, [])
    | some out ↦
        let (result, out') = L.srtp_protect_rtcp out packet in
        let d' = record d { srtp_out = some out' } in
        (elim result [ none ↦ (none, d', []) | some p ↦ (some p, d', sends p ∷ []) ])
  ])

  -- dtls_srtp_unprotect_rtcp()
  pub unprotect_rtcp : DtlsSrtp → List ℕ → Option (List ℕ) × DtlsSrtp
  unprotect_rtcp d packet = if not d.srtp_ready then (none, d) else (elim d.srtp_in [
    | none ↦ (none, d)
    | some input ↦
        let (result, input') = L.srtp_unprotect_rtcp input packet in
        (result, record d { srtp_in = some input' })
  ])

  -- dtls_srtp_close()
  pub dtls_close : DtlsSrtp → DtlsSrtp × List Callback
  dtls_close d =
      let (outcome, d1, sent) = use_ssl (L.shutdown d.ssl) d in
      let (d2, calls) = dtls_set_state d1 closed in
      if same_state d.state connected then (d2, sent ++ calls) else dtls_set_state d closed

  -- dtls_srtp_session_create() and dtls_srtp_set_expected_fingerprint(); `none` for NULL.
  pub session_create : Option Ssl → List ℕ → Option DtlsSrtp
  session_create ssl fingerprint = ssl >>= λ s. some (record {
    ssl = s;
    state = init;
    rxq = [];
    srtp_out = none;
    srtp_in = none;
    srtp_ready = false;
    expected_fingerprint = take 127 fingerprint;
    handshake_started = false;
    fingerprint_ok = false;
  })
