-- ===== src/Rtcp/Timing.antt =====
-- Sender reports and round trip times.
use cam.Base.{ℕ, ◌+◌, ◌*◌, ◌/◌, ◌%◌, ◌^◌, ◌≤◌, ◌<◌, ◌≡◌, refl, ap, some, arith, length, All}
use cam.Base.Bytes.{IsByte, read_be16, read_be32, be32_value}
use cam.Rtcp.{build_sender_report, ntp_seconds, ntp_fraction, rtt_ms}

-- A report of 28 bytes goes out, each of them a byte, and reading its words where RFC 3550 puts
-- them gives back its parts: the length of six words after the first, the SSRC, the low 32 bits
-- of the seconds since 1900 and their fraction, the RTP time stamp and the two counters.
pub build_sender_report_fields :
    (ssrc wall_us rtp_ts packet_count octet_count : ℕ)
    → ssrc < 2 ^ 32
    → rtp_ts < 2 ^ 32
    → packet_count < 2 ^ 32
    → octet_count < 2 ^ 32
    → let sr = build_sender_report ssrc wall_us rtp_ts packet_count octet_count in
      (length sr ≡ 28)
      × All IsByte sr
      × (read_be16 sr 2 ≡ some 6)
      × (read_be32 sr 4 ≡ some ssrc)
      × (read_be32 sr 8 ≡ some (ntp_seconds wall_us % 2 ^ 32))
      × (read_be32 sr 12 ≡ some (ntp_fraction wall_us))
      × (read_be32 sr 16 ≡ some rtp_ts)
      × (read_be32 sr 20 ≡ some packet_count)
      × (read_be32 sr 24 ≡ some octet_count)
unfolding build_sender_report
build_sender_report_fields ssrc wall_us rtp_ts packet_count octet_count hs hr hp ho = (
  refl,
  omega (arith, small),
  refl,
  ap some (be32_value ssrc hs),
  ap some (be32_value (ntp_seconds wall_us % 2 ^ 32) (omega arith)),
  ap some (be32_value (ntp_fraction wall_us) small),
  ap some (be32_value rtp_ts hr),
  ap some (be32_value packet_count hp),
  ap some (be32_value octet_count ho),
)
  where
    small : ntp_fraction wall_us < 2 ^ 32
    small = unfold ntp_fraction in omega arith

-- The fraction is the part of the second that has passed, in units of 2^-32 s, rounded down:
-- neither the 64-bit product nor the 32-bit result wraps.
pub ntp_fraction_exact :
    (wall_us : ℕ)
    → (ntp_fraction wall_us * 1000000 ≤ wall_us % 1000000 * 2 ^ 32)
      × (wall_us % 1000000 * 2 ^ 32 < (ntp_fraction wall_us + 1) * 1000000)
unfolding ntp_fraction
ntp_fraction_exact wall_us = omega arith

-- The compact NTP clock wraps every 2^16 seconds, and the round trip time does not notice: if the
-- peer held a report for `held` units and the report and its answer were under way for `rtt`
-- units more, at most 2^31 - 1, then the milliseconds of `rtt` come out, rounded to the nearest.
pub rtt_ms_lem :
    (last_sr held rtt : ℕ)
    → 0 < last_sr
    → last_sr < 2 ^ 32
    → held < 2 ^ 32
    → rtt < 2 ^ 31
    → rtt_ms ((last_sr + held + rtt) % 2 ^ 32) last_sr held ≡ some ((rtt * 1000 + 32768) / 65536)
unfolding rtt_ms
rtt_ms_lem last_sr held rtt hs bs bh br = ground arith
