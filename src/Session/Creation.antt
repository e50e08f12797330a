-- ===== src/Session/Creation.antt =====
-- src/webrtc/webrtc_session.c: the session that rtc_session_create() announces, and its ICE credentials.
use cam.Base.{ℕ, ◌+◌, ◌-◌, ◌%◌, false, none, List, ltb, if◌then◌else◌, map, take, replicate}
use cam.Base.Memory.{slice}
use cam.Rtp.{RtpH264, reset}
use cam.Dtls.Transport.{Transport}
use cam.Session.{fresh, Host, Stats, RtcSession, retx_cache_size}
use cam.Session.Inbound.{empty_slot}

-- The character of a random byte. The index is below 52, so the digits of the alphabet are not used.
abbrev pub alphabet : ℕ → ℕ
alphabet raw = let i = raw % 52 in if ltb i 26 then b'a' + i else b'A' + (i - 26)

-- generate_credentials(), from the 32 bytes of RAND_bytes(): the user name fragment and the password.
unfoldable pub generate_credentials : List ℕ → List ℕ × List ℕ
generate_credentials raw = (map alphabet (take 8 raw), map alphabet (slice 8 24 raw))

abbrev pub no_stats : Stats
no_stats = record {
  datagrams_rx = 0;
  packets_sent = 0;
  bytes_sent = 0;
  retransmissions = 0;
  send_errors = 0;
  pli_received = 0;
  nacks_received = 0;
  rtcp_sent = 0;
  stun_rx = 0;
  stun_ok = 0;
  stun_bad = 0;
  peer_moved = 0;
  frames_sent = 0;
  keyframes_sent = 0;
  frames_held = 0;
  last_media_ms = 0;
  rr_received = 0;
  last_rr_ms = 0;
  waiting_keyframe = false;
  rtt_ms = none;
  fraction_lost = 0;
  jitter = 0;
}

abbrev pub no_rtp : RtpH264
no_rtp = record {
  ssrc = 0;
  payload_type = 0;
  sequence = 0;
  base_pts_us = 0;
  have_base = false;
  packets = 0;
  octets = 0;
}

module _ (H : Host) (T : Transport) where
  -- The session at the end of rtc_session_create(), when nothing has failed.
  unfoldable pub session_create : H.Socket → T.State → List ℕ → ℕ → ℕ → ℕ → RtcSession H T
  session_create socket transport raw ssrc payload_type created_ms =
      let (ufrag, pwd) = generate_credentials raw in
      record {
        state = fresh;
        socket = socket;
        local_ufrag = ufrag;
        local_pwd = pwd;
        remote = none;
        transport = transport;
        rtp = reset no_rtp ssrc payload_type;
        created_ms = created_ms;
        last_rx_ms = created_ms;
        last_idr_ms = 0;
        next_sr_ms = 0;
        idr_requested = false;
        stats = no_stats;
        retx = replicate retx_cache_size empty_slot;
      }
