-- ===== src/Rtcp/Tests.antt =====
-- Runs of the RTCP functions on small inputs, and their theorems at them.
use cam.Base.{ℕ, ◌+◌, ◌*◌, ◌%◌, ◌^◌, ◌≤◌, ◌<◌, ◌≡◌, refl, some, List, [], ◌∷◌, arith, length, All}
use mathlib.Core.Bool.{Bool}
use cam.Base.Bytes.{IsByte, read_be16, read_be32}
use cam.Rtcp.{
  RtcpFeedback, ReportBlock, no_feedback, max_nack_seqs, read_block, has_ours, report_loop, add_seq,
  bit_loop, nack_loop, payload_feedback, packet_case, parse_loop, parse, ntp_fraction, ntp_seconds,
  build_sender_report, rtt_ms,
}
use cam.Rtcp.Safe.{parse_total}
use cam.Rtcp.Packets.{Packet, receiver_report, nack, pli, encode, apply_all}
use cam.Rtcp.RoundTrip.{parse-encode}
use cam.Rtcp.Timing.{build_sender_report_fields, ntp_fraction_exact, rtt_ms_lem}

abbrev block : ℕ → ReportBlock
block ssrc = record {
  ssrc = ssrc;
  fraction_lost = 12;
  highest_seq = 70000;
  jitter = 5;
  last_sr = 305419896;
  delay_since_sr = 65536;
}

abbrev compound : List Packet
compound =
    receiver_report 1 ((block 7, 3) ∷ (block 42, 0) ∷ (block 9, 0) ∷ [])
    ∷ nack 1 42 ((65534, 5) ∷ [])
    ∷ pli 1 42
    ∷ []

-- The block about stream 42 is kept, and the mask asks for the next packet and the third.
understood :
    parse (encode compound) 42
    ≡ some (
        some (record {
          pli = 1;
          fir = 0;
          bye = Bool.false;
          nack_seq = 65534 ∷ 65535 ∷ 1 ∷ [];
          rr = some (block 42);
        }))
unfolding parse parse_loop packet_case report_loop read_block has_ours nack_loop bit_loop add_seq
    payload_feedback
understood = refl

-- Where no block is about the stream, the last one is kept.
last_block_kept :
    parse (encode (receiver_report 1 ((block 7, 3) ∷ (block 9, 0) ∷ []) ∷ [])) 42
    ≡ some (some (record no_feedback { rr = some (block 9) }))
unfolding parse parse_loop packet_case report_loop read_block has_ours
last_block_kept = refl

parse-encode_example : parse (encode compound) 42 ≡ some (some (apply_all 42 no_feedback compound))
parse-encode_example = parse-encode compound 42 (omega arith)

parse_total_example :
    (fb : RtcpFeedback) × (parse (0x81 ∷ 205 ∷ 0 ∷ 3 ∷ 0 ∷ []) 1 ≡ some (some fb))
    × (length fb.nack_seq ≤ max_nack_seqs)
parse_total_example = parse_total (0x81 ∷ 205 ∷ 0 ∷ 3 ∷ 0 ∷ []) 1

build_sender_report_fields_example :
    let sr = build_sender_report 42 1700000000500000 9000 17 20000 in
    (length sr ≡ 28)
    × All IsByte sr
    × (read_be16 sr 2 ≡ some 6)
    × (read_be32 sr 4 ≡ some 42)
    × (read_be32 sr 8 ≡ some (ntp_seconds 1700000000500000 % 2 ^ 32))
    × (read_be32 sr 12 ≡ some (ntp_fraction 1700000000500000))
    × (read_be32 sr 16 ≡ some 9000)
    × (read_be32 sr 20 ≡ some 17)
    × (read_be32 sr 24 ≡ some 20000)
build_sender_report_fields_example =
    build_sender_report_fields 42 1700000000500000 9000 17 20000 (omega arith) (omega arith)
      (omega arith) (omega arith)

half_a_second : ntp_fraction 1700000000500000 ≡ 2 ^ 31
unfolding ntp_fraction
half_a_second = refl

ntp_fraction_exact_example :
    (ntp_fraction 1500000 * 1000000 ≤ 500000 * 2 ^ 32)
    × (500000 * 2 ^ 32 < (ntp_fraction 1500000 + 1) * 1000000)
ntp_fraction_exact_example = ntp_fraction_exact 1500000

-- The clock wraps between the report and the answer: 655 units are ten milliseconds.
rtt_ms_lem_example : rtt_ms 754 4294967295 100 ≡ some 10
rtt_ms_lem_example =
    rtt_ms_lem 4294967295 100 655 (omega arith) (omega arith) (omega arith) (omega arith)
