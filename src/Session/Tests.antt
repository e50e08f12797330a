-- ===== src/Session/Tests.antt =====
-- A session over a small transport, and the theorems at it.
use cam.Base.{
  ℕ, ◌+◌, ◌*◌, ◌≤◌, ◌≡◌, ◌⊎◌, refl, ap, true, none, some, List, [], ◌∷◌, ◌++◌, arith, replicate,
  length,
}
use mathlib.Core.Option.{some-injective}
use cam.Stun.{
  classify_packet, find_loop, find_attribute, is_binding_request, is_binding_indication, same_bytes,
  after_colon, is_first, is_second, username_test, username_matches, verify_at, verify_mi,
}
use cam.Rtp.{Sent}
use cam.Dtls.Transport.{
  Transport, sends, connects, changes, closed, ends_with, nothing, last_state, one_packet,
}
use cam.Session.{
  Peer, streaming, same_state, Host, Clock, sent, RtcSession, Step, close, close_within,
}
use cam.Session.Inbound.{on_udp, handle_stun, handle_nacks}
use cam.Session.Outbound.{rtp_packet_sink, sink_all}
use cam.Session.Creation.{generate_credentials, session_create}
use cam.Session.Closing.{tells, live, close_within-enough}
use cam.Session.Once.{here, next, closes, closed_once}
use cam.Session.Retransmit.{retransmits}
use cam.Session.Authentic.{peer_authentic}
use cam.Session.Rate.{asks, InOrder, latest, request_idr-asks_at_most}

-- Every datagram ends the handshake; sealing a packet puts a byte in front.
abbrev transport : Transport
transport = record {
  State = ℕ;
  on_udp = λ s allocated packet. (s + 1, connects ∷ []);
  tick = λ s due. (s, []);
  close = λ s. (0, changes closed ∷ []);
  send_rtp = λ s packet. (some (1 ∷ packet), s, sends (1 ∷ packet) ∷ []);
  send_rtcp = λ s packet. (some (1 ∷ packet), s, sends (1 ∷ packet) ∷ []);
  unprotect_rtcp = λ s packet. (some packet, s);
  on_udp-IsOrderly = λ s allocated packet. ends_with;
  tick-IsOrderly = λ s due. nothing;
  close-IsFarewell = λ s. (last_state, tt);
  send_rtp-IsSend = λ s packet. (one_packet, tt);
  send_rtp-sends = λ s packet bytes e. ap (λ b. sends b ∷ []) (some-injective _ _ e);
  length-send_rtp = λ s packet bytes e.
      let one : length (1 ∷ packet) ≡ length bytes = ap length (some-injective _ _ e) in
      omega arith;
  send_rtcp-IsSend = λ s packet. (one_packet, tt);
}

-- A socket that takes every datagram and counts them, and an HMAC that is always the same.
abbrev host : Host
host = record {
  Socket = ℕ;
  sendto = λ s bytes peer. (true, s + 1);
  crypto = record { hmac_sha1 = λ key message. some (replicate 20 0); equal_bytes = same_bytes };
  stale_mac = [];
  stale_response = replicate 128 0;
  heap = λ size. true;
}

abbrev clock : Clock
clock = record {
  rx_ms = 1;
  idr_ms = 2;
  sr_ms = 3;
  rr_ms = 4;
  media_ms = 5;
  wall_us = 6;
  mono_us = 7;
}

abbrev new_session : RtcSession host transport
new_session = session_create host transport 0 0 (replicate 32 0) 99 96 1000

abbrev peer : Peer
peer = some (5000, 7)

abbrev viewed : RtcSession host transport
viewed = record new_session { state = streaming; remote = some peer }

closed_once_example :
    tells ([] ++ (close host transport clock new_session).1)
      + live (close host transport clock new_session).0.state
    ≡ 1
closed_once_example =
    closed_once host transport 0 0 (replicate 32 0) 99 96 1000 _ (next here (closes clock))

close_within-enough_example :
    close_within host transport 4 clock viewed ≡ close_within host transport 1 clock viewed
close_within-enough_example = close_within-enough 3 clock viewed

abbrev packet : ℕ → Sent
packet n = record { packet = replicate 12 9; marker = true; sequence = n }

retransmits_example :
    (first then_ : Step host transport) × (rtp_packet_sink host transport clock viewed (packet 600)
      ≡ some first)
    × (sink_all host transport clock first.0 (packet 601 ∷ packet 602 ∷ []) ≡ some then_)
    × (first.1 ≡ sent (1 ∷ replicate 12 9) peer ∷ [])
    × ((handle_nacks host transport then_.0 (600 ∷ [])).1 ≡ sent (1 ∷ replicate 12 9) peer ∷ [])
unfolding session_create
retransmits_example =
    retransmits clock viewed (packet 600) (packet 601 ∷ packet 602 ∷ []) (1 ∷ replicate 12 9) peer
      refl refl (omega arith) (omega arith) refl (omega arith)
      ((omega arith, omega arith), ((omega arith, omega arith), tt))

-- A check with the user name of the session, and an integrity of zeros.
abbrev check : List ℕ
check =
    0
    ∷ 1
    ∷ 0
    ∷ 40
    ∷ 0x21
    ∷ 0x12
    ∷ 0xA4
    ∷ 0x42
    ∷ 1
    ∷ 2
    ∷ 3
    ∷ 4
    ∷ 5
    ∷ 6
    ∷ 7
    ∷ 8
    ∷ 9
    ∷ 10
    ∷ 11
    ∷ 12
    ∷ 0
    ∷ 6
    ∷ 0
    ∷ 10
    ∷ b'a'
    ∷ b'a'
    ∷ b'a'
    ∷ b'a'
    ∷ b'a'
    ∷ b'a'
    ∷ b'a'
    ∷ b'a'
    ∷ b':'
    ∷ b'x'
    ∷ 0
    ∷ 0
    ∷ 0
    ∷ 8
    ∷ 0
    ∷ 20
    ∷ replicate 20 0

abbrev outcome : Step host transport
outcome = elim (on_udp host transport clock new_session true check peer) [
  | none ↦ (new_session, [])
  | some r ↦ r
]

accepted : on_udp host transport clock new_session true check peer ≡ some outcome
unfolding on_udp handle_stun session_create same_state classify_packet find_loop find_attribute
    is_binding_request is_binding_indication same_bytes after_colon is_first is_second username_test
    username_matches verify_at verify_mi generate_credentials
accepted = refl

peer_authentic_example :
    (outcome.0.remote ≡ none)
    ⊎ ((outcome.0.remote ≡ some peer)
        × (verify_mi host.crypto host.heap check new_session.local_pwd ≡ some true)
        × (username_matches check new_session.local_ufrag ≡ some true))
unfolding session_create
peer_authentic_example = peer_authentic clock new_session true check peer outcome accepted

-- Three calls of which the second is too early.
abbrev calls : List Clock
calls = clock ∷ record clock { idr_ms = 300 } ∷ record clock { idr_ms = 450 } ∷ []

request_idr-asks_at_most_example :
    asks host transport new_session calls * 400 + 2 ≤ latest 2 calls + 400
unfolding session_create InOrder
request_idr-asks_at_most_example =
    request_idr-asks_at_most new_session calls 2 (omega arith) (omega arith)
      (omega arith, omega arith, (omega arith, omega arith, (omega arith, omega arith, tt)))
