-- ===== src/Rtcp.antt =====
-- src/webrtc/rtcp.c: sender reports out, receiver reports and feedback in.
-- A buffer is the list of its bytes. A read outside of it has no result, so a parse with a result
-- has read nothing outside.
pub mod Safe
pub mod Packets
pub mod RoundTrip
pub mod Timing
mod Tests
use cam.Base.{
  ℕ, zero, suc, ◌+◌, ◌-◌, ◌*◌, ◌/◌, ◌%◌, ◌^◌, Bool, true, false, ◌&&◌, ◌||◌, not, Option, none,
  some, List, [], ◌∷◌, ◌++◌, ltb, leb, ◌==◌, if◌then◌else◌, ◌>>=◌, length, get_elem?, bit_and,
}
use cam.Base.Bytes.{be16, be32, read_be16, read_be32}

abbrev pub max_nack_seqs : ℕ
max_nack_seqs = 128

abbrev pub report_block_size : ℕ
report_block_size = 24

-- The report block that the feedback keeps.
pub record ReportBlock : Type 0 where
  pub ssrc : ℕ
  pub fraction_lost : ℕ
  pub highest_seq : ℕ
  pub jitter : ℕ
  pub last_sr : ℕ
  pub delay_since_sr : ℕ

-- `nack_seq` holds the first `nack_seqs` entries of the array; `rr` is `none` while `has_rr` is 0.
pub record RtcpFeedback : Type 0 where
  pub pli : ℕ
  pub fir : ℕ
  pub bye : Bool
  pub nack_seq : List ℕ
  pub rr : Option ReportBlock

abbrev pub no_feedback : RtcpFeedback
no_feedback = record { pli = 0; fir = 0; bye = false; nack_seq = []; rr = none }

-- The 64-bit product of the microseconds with 2^32, over a million, as 32 bits.
pub ntp_fraction : ℕ → ℕ
ntp_fraction wall_us = wall_us % 1000000 * 2 ^ 32 % 2 ^ 64 / 1000000 % 2 ^ 32

pub ntp_seconds : ℕ → ℕ
ntp_seconds wall_us = (wall_us / 1000000 + 2208988800) % 2 ^ 64

-- The 28 bytes that the function stores at `out`.
pub build_sender_report : ℕ → ℕ → ℕ → ℕ → ℕ → List ℕ
build_sender_report ssrc wall_us rtp_ts packet_count octet_count =
    0x80
    ∷ 200
    ∷ (be16 6
        ++ (be32 ssrc
            ++ (be32 (ntp_seconds wall_us % 2 ^ 32)
                ++ (be32 (ntp_fraction wall_us)
                    ++ (be32 rtp_ts ++ (be32 packet_count ++ be32 octet_count))))))

-- One block of the report loop, at `at` from the start of the buffer.
pub read_block : List ℕ → ℕ → Option ReportBlock
read_block buf at = do
  ssrc ← read_be32 buf at
  fraction_lost ← get_elem? buf (at + 4)
  highest_seq ← read_be32 buf (at + 8)
  jitter ← read_be32 buf (at + 12)
  last_sr ← read_be32 buf (at + 16)
  delay_since_sr ← read_be32 buf (at + 20)
  some (record {
    ssrc = ssrc;
    fraction_lost = fraction_lost;
    highest_seq = highest_seq;
    jitter = jitter;
    last_sr = last_sr;
    delay_since_sr = delay_since_sr;
  })

-- Whether the feedback already has the block about our stream.
pub has_ours : ℕ → RtcpFeedback → Bool
has_ours media_ssrc fb = elim fb.rr [ none ↦ false | some block ↦ block.ssrc == media_ssrc ]

-- The loop over the report blocks: `n` are left, and `at` counts from the start of the packet,
-- which stands at `offset`. (The source reads the block's SSRC before the test on `has_rr`, and
-- the other fields after it.)
pub report_loop : ℕ → List ℕ → ℕ → ℕ → ℕ → ℕ → RtcpFeedback → Option RtcpFeedback
report_loop zero buf offset body_len media_ssrc at fb = some fb
report_loop (suc n) buf offset body_len media_ssrc at fb =
    let more =
      (read_block buf (offset + at) >>= λ block.
      report_loop n buf offset body_len media_ssrc (at + report_block_size)
        (record fb { rr = some block })) in
    if ltb body_len (at + report_block_size)
    then some fb
    else do ssrc ← read_be32 buf (offset + at); if has_ours media_ssrc fb then some fb else more

pub add_seq : RtcpFeedback → ℕ → RtcpFeedback
add_seq fb seq = record fb { nack_seq = fb.nack_seq ++ seq ∷ [] }

-- The loop over the bits of a mask, `n` of them left.
pub bit_loop : ℕ → ℕ → ℕ → ℕ → RtcpFeedback → RtcpFeedback
bit_loop zero bit pid mask fb = fb
bit_loop (suc n) bit pid mask fb =
    let rest =
      bit_loop n (bit + 1) pid mask
        (if mask / 2 ^ bit % 2 == 1 then add_seq fb ((pid + bit + 1) % 2 ^ 16) else fb) in
    if ltb (length fb.nack_seq) max_nack_seqs then rest else fb

-- The loop over the FCI entries from `i` up to `end`; fewer than `n` entries are there, and more rounds
-- than that have no result, like a read outside of the buffer.
pub nack_loop : ℕ → List ℕ → ℕ → ℕ → RtcpFeedback → Option RtcpFeedback
nack_loop zero buf i end fb = none
nack_loop (suc n) buf i end fb =
    let round = (do
      pid ← read_be16 buf i
      mask ← read_be16 buf (i + 2)
      nack_loop n buf (i + 4) end (bit_loop 16 0 pid mask (add_seq fb pid))) in
    if leb (i + 4) end && ltb (length fb.nack_seq) max_nack_seqs then round else some fb

-- The case of payload-specific feedback.
pub payload_feedback : ℕ → RtcpFeedback → RtcpFeedback
payload_feedback fmt fb =
    if fmt == 1
    then record fb { pli = fb.pli + 1 }
    else if fmt == 4
    then record fb { fir = fb.fir + 1 }
    else fb

-- The switch on the packet type, for the packet of `packet_len` bytes at `offset`.
pub packet_case : List ℕ → ℕ → ℕ → ℕ → ℕ → ℕ → RtcpFeedback → Option RtcpFeedback
packet_case buf media_ssrc offset packet_len count_or_fmt packet_type fb =
    if packet_type == 200
    then report_loop count_or_fmt buf offset packet_len media_ssrc 28 fb
    else if packet_type == 201
    then report_loop count_or_fmt buf offset packet_len media_ssrc 8 fb
    else if packet_type == 203
    then some (record fb { bye = true })
    else if packet_type == 205
    then if count_or_fmt == 1
      then nack_loop (packet_len / 4) buf (offset + 12) (offset + packet_len) fb
      else some fb
    else if packet_type == 206
    then some (payload_feedback count_or_fmt fb)
    else some fb

-- The loop over the packets of the compound, the next one at `offset`. The inner `none` would be
-- fuel that ran out, which is told from a read outside the buffer.
pub parse_loop : ℕ → List ℕ → ℕ → ℕ → RtcpFeedback → Option (Option RtcpFeedback)
parse_loop zero buf media_ssrc offset fb = some none
parse_loop (suc n) buf media_ssrc offset fb =
    let round = (do
      first ← get_elem? buf offset
      packet_type ← get_elem? buf (offset + 1)
      words ← read_be16 buf (offset + 2)
      let packet_len = (words + 1) * 4
      let rest =
          (packet_case buf media_ssrc offset packet_len (bit_and first 0x1f) packet_type fb
            >>= λ fb'. parse_loop n buf media_ssrc (offset + packet_len) fb')
      if first / 2 ^ 6 == 2
          then (if ltb (length buf) (offset + packet_len) || ltb packet_len 4
              then some (some fb)
              else rest)
          else some (some fb)) in
    if leb (offset + 4) (length buf) then round else some (some fb)

-- rtcp_parse(). A packet has four bytes at least, so fewer rounds than bytes are made.
pub parse : List ℕ → ℕ → Option (Option RtcpFeedback)
parse buf media_ssrc = parse_loop (suc (length buf)) buf media_ssrc 0 no_feedback

-- rtcp_rtt_ms(): `none` is the result -1, and `elapsed` the bits of the int32_t.
pub rtt_ms : ℕ → ℕ → ℕ → Option ℕ
rtt_ms now last_sr delay_since_sr =
    let elapsed = (now + 2 ^ 32 + 2 ^ 32 - last_sr - delay_since_sr) % 2 ^ 32 in
    if last_sr == 0
    then none
    else if leb (2 ^ 31) elapsed
    then if ltb (2 ^ 32 - elapsed) 655 then some 0 else none
    else some ((elapsed * 1000 + 32768) / 65536)
