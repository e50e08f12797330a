-- ===== src/Dtls/Tests.antt =====
-- A session with a small OpenSSL, and the theorems at it.
use cam.Base.{
  ℕ, ◌≡◌, ◌↔◌, refl, ap, sym, inl, Bool, true, false, Option, none, some, List, [], ◌∷◌, ◌++◌,
  arith, replicate, length,
}
use mathlib.Core.Option.{some-injective}
use cam.Stun.{same_bytes}
use cam.Dtls.{
  Libraries, Use, returns, reads, writes, done, waits, normalize, hex_digit, hex_text,
  without_algorithm, fingerprint_hex_equal, DtlsSrtp, dtls_set_state, bio_rx_read, use_ssl,
  check_peer, derive_srtp_keys, finish_handshake, after_accept, is_over, pump_ssl, on_udp, send_rtp,
  session_create,
}
use cam.Dtls.Transport.{init, same_state}
use cam.Dtls.Fingerprint.{colon_text, fingerprint_iff}
use cam.Dtls.Verified.{IsChecked, created, receives, media_checked}

abbrev sha : List ℕ
sha = b's' ∷ b'h' ∷ b'a' ∷ []

abbrev offered : List ℕ
offered = sha ++ b' ' ∷ colon_text true (replicate 32 0xAB)

-- The digest of the peer's certificate.
abbrev digest : List ℕ
digest = replicate 32 0xAB

-- A handshake that ends with the first datagram, of a peer with that digest; sealing a packet
-- puts a byte in front.
abbrev handshake : Option (List ℕ) → Use Bool
handshake none = returns waits false
handshake (some packet) = writes (22 ∷ []) (returns done true)

abbrev small : Libraries
small = record {
  Ssl = Bool;
  Srtp = ℕ;
  accept = λ s. reads 4096 handshake;
  read = λ s. returns waits s;
  shutdown = λ s. returns done s;
  handle_timeout = λ s. returns waits s;
  is_init_finished = λ s. s;
  has_srtp_profile = λ s. true;
  export_keying_material = λ s. some (replicate 60 7);
  peer_digest = λ s. some (some digest);
  srtp_create = λ key. some (length key);
  srtp_protect = λ s packet. (some (1 ∷ packet), s);
  srtp_protect_rtcp = λ s packet. (some (1 ∷ packet), s);
  srtp_unprotect_rtcp = λ s packet. (some packet, s);
  length-srtp_protect = λ s packet bytes e.
      let one : length (1 ∷ packet) ≡ length bytes = ap length (some-injective _ _ e) in
      omega arith;
  length-peer_digest = λ s md e. ap length (sym (some-injective _ _ (some-injective _ _ e)));
}

abbrev fresh : DtlsSrtp small
fresh = record {
  ssl = false;
  state = init;
  rxq = [];
  srtp_out = none;
  srtp_in = none;
  srtp_ready = false;
  expected_fingerprint = offered;
  handshake_started = false;
  fingerprint_ok = false;
}

abbrev up : DtlsSrtp small
up = (on_udp small fresh true (22 ∷ [])).0

created_fresh : session_create small (some false) offered ≡ some fresh
unfolding session_create
created_fresh = refl

sealed : (send_rtp small up (128 ∷ [])).0 ≡ some (1 ∷ 128 ∷ [])
unfolding send_rtp on_udp pump_ssl dtls_set_state use_ssl bio_rx_read after_accept finish_handshake
    derive_srtp_keys check_peer fingerprint_hex_equal normalize hex_text hex_digit without_algorithm
    same_bytes is_over same_state
sealed = refl

media_checked_example : IsChecked small false offered
media_checked_example =
    media_checked small false offered up (128 ∷ []) (1 ∷ 128 ∷ [])
      (receives true (22 ∷ []) (created created_fresh)) (inl sealed)

fingerprint_iff_example :
    (fingerprint_hex_equal (sha ++ b' ' ∷ b'a' ∷ b'b' ∷ b':' ∷ b'0' ∷ b'9' ∷ []) (0xAB ∷ 9 ∷ [])
      ≡ some true)
    ↔ (◌≡◌ {A = List ℕ} (0xAB ∷ 9 ∷ []) (0xAB ∷ 9 ∷ []))
fingerprint_iff_example =
    fingerprint_iff sha true (0xAB ∷ 9 ∷ []) (0xAB ∷ 9 ∷ [])
      (omega arith, (omega arith, (omega arith, tt))) (omega arith, (omega arith, tt))
      (omega arith, (omega arith, tt)) (omega arith) (omega arith)
