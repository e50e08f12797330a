-- ===== src/Rtp/Tests.antt =====
-- Runs of the packetizer on small access units, and its theorems at them.
use cam.Base.{ℕ, ◌≡◌, refl, Bool, true, false, some, List, [], ◌∷◌, ◌++◌, arith}
use cam.Base.Bytes.{be16, be32}
use cam.Rtp.{
  RtpH264, Sent, scan_loop, scan_start_code, trim_zeros, next_nal, emit, send_nal, has_more,
  nal_loop, timestamp, with_base, packetize, timestamp_at,
}
use cam.Rtp.Scan.{annex_b}
use cam.Rtp.Sequence.{AreNumbered, IsCounted, packetize_in_sequence}

abbrev idle : RtpH264
idle = record {
  ssrc = 42;
  payload_type = 102;
  sequence = 65535;
  base_pts_us = 0;
  have_base = false;
  packets = 0;
  octets = 0;
}

abbrev sps : List ℕ
sps = 0x67 ∷ 0x42 ∷ 0 ∷ 0 ∷ 3 ∷ 1 ∷ []

abbrev slice_nal : List ℕ
slice_nal = 0x65 ∷ 0 ∷ 0x88 ∷ []

abbrev nals : List (Bool × List ℕ)
nals = (true, sps) ∷ (false, slice_nal) ∷ []

abbrev rtp_header : ℕ → ℕ → List ℕ
rtp_header second seq = 0x80 ∷ second ∷ (be16 seq ++ (be32 0 ++ be32 42))

-- Two packets, the numbers wrap between them, and the marker is on the second.
two_packets :
    packetize idle (annex_b nals) 1000
    ≡ some (
      some (
          record { packet = rtp_header 102 0 ++ sps; marker = false; sequence = 0 }
          ∷ record { packet = rtp_header 230 1 ++ slice_nal; marker = true; sequence = 1 }
          ∷ []),
      record idle { sequence = 1; base_pts_us = 1000; have_base = true; packets = 2; octets = 9 },
    )
unfolding packetize with_base timestamp nal_loop has_more send_nal emit next_nal trim_zeros
    scan_start_code scan_loop
two_packets = refl

-- An empty unit before the last one makes the look ahead stop: the marker comes twice.
marker_before_empty_unit :
    packetize idle (0 ∷ 0 ∷ 1 ∷ 0x41 ∷ 0 ∷ 0 ∷ 1 ∷ 0 ∷ 0 ∷ 1 ∷ 0x65 ∷ []) 1000
    ≡ some (
      some (
          record { packet = rtp_header 230 0 ++ 0x41 ∷ []; marker = true; sequence = 0 }
          ∷ record { packet = rtp_header 230 1 ++ 0x65 ∷ []; marker = true; sequence = 1 }
          ∷ []),
      record idle { sequence = 1; base_pts_us = 1000; have_base = true; packets = 2; octets = 2 },
    )
unfolding packetize with_base timestamp nal_loop has_more send_nal emit next_nal trim_zeros
    scan_start_code scan_loop
marker_before_empty_unit = refl

packetize_in_sequence_example :
    (sent : List Sent) × (p' : RtpH264) × (packetize idle (0 ∷ 0 ∷ 1 ∷ 0 ∷ 0 ∷ 1 ∷ 0x65 ∷ []) 1000
      ≡ some (some sent, p'))
    × AreNumbered 42 (timestamp_at p' 1000) 65535 sent
    × IsCounted idle sent p'
packetize_in_sequence_example =
    packetize_in_sequence idle 0 (0 ∷ 1 ∷ 0 ∷ 0 ∷ 1 ∷ 0x65 ∷ []) 1000 (omega arith)
