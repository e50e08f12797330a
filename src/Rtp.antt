-- ===== src/Rtp.antt =====
-- src/webrtc/rtp_h264.c: an access unit in Annex-B form becomes RTP packets after RFC 6184.
-- Buffers are lists of bytes. The masks and shifts of bytes are written as quotients and remainders.
-- The calls of the sink are the list of what it is given, in their order.
pub mod Scan
pub mod Bounds
pub mod Sequence
pub mod Fragments
pub mod Delivery
mod Tests
use cam.Base.{
  ℕ, zero, suc, ◌+◌, ◌-◌, ◌*◌, ◌/◌, ◌%◌, ◌^◌, Bool, true, false, ◌&&◌, ◌||◌, not, Option, none,
  some, List, [], ◌∷◌, ◌++◌, ltb, leb, ◌==◌, if◌then◌else◌, ◌>>=◌, length, get_elem?, get_or, drop,
}
use cam.Base.Memory.{slice}
use cam.Base.Bytes.{be16, be32}

-- RTP_MAX_PACKET - RTP_HEADER_SIZE
abbrev pub payload_budget : ℕ
payload_budget = 1188

-- What an FU-A packet carries of the unit.
abbrev pub chunk : ℕ
chunk = payload_budget - 2

pub record RtpH264 : Type 0 where
  pub ssrc : ℕ
  pub payload_type : ℕ
  pub sequence : ℕ
  pub base_pts_us : ℕ
  pub have_base : Bool
  pub packets : ℕ
  pub octets : ℕ

-- One call of the sink.
pub record Sent : Type 0 where
  pub packet : List ℕ
  pub marker : Bool
  pub sequence : ℕ

-- rtp_h264_reset(), which leaves the base time.
pub reset : RtpH264 → ℕ → ℕ → RtpH264
reset p ssrc payload_type = record p {
  ssrc = ssrc;
  payload_type = payload_type;
  sequence = 0;
  have_base = false;
  packets = 0;
  octets = 0;
}

abbrev pub begins_with_one : List ℕ → Bool
begins_with_one [] = false
begins_with_one (d ∷ rest) = d == 1

-- The loop of scan_start_code() over the bytes from index `i` on.
pub scan_loop : List ℕ → ℕ → Option (ℕ × ℕ)
scan_loop [] i = none
scan_loop (a ∷ []) i = none
scan_loop (a ∷ b ∷ []) i = none
scan_loop (a ∷ b ∷ c ∷ rest) i =
    let next = scan_loop (b ∷ c ∷ rest) (i + 1) in
    if not (a == 0) || not (b == 0)
    then next
    else if c == 1
    then some (i, 3)
    else if c == 0 && begins_with_one rest
    then some (i, 4)
    else next

-- scan_start_code(): the offset of the code and its length.
pub scan_start_code : List ℕ → ℕ → Option (ℕ × ℕ)
scan_start_code au from = scan_loop (drop from au) from

-- The loop that takes the zeros off the end. (Its `end` is at most the length of the data, so that
-- the default is never read.)
pub trim_zeros : List ℕ → ℕ → ℕ → ℕ
trim_zeros au body zero = zero
trim_zeros au body (suc end) =
    let rest = trim_zeros au body end in
    if ltb body (suc end) && get_or au end 1 == 0 then rest else suc end

-- next_nal(): the offset of the unit and its length.
pub next_nal : List ℕ → ℕ → Option (ℕ × ℕ)
next_nal au cursor = scan_start_code au cursor >>= λ (code_offset, code_length).
    let body = code_offset + code_length in
    let end : ℕ = elim (scan_start_code au body) [
      | none ↦ length au
      | some (next_code, n) ↦ next_code
    ] in
    let end' = trim_zeros au body end in some (body, if ltb body end' then end' - body else 0)

-- The bytes before the payload, and the call of the sink with the counters after it.
pub emit : RtpH264 → ℕ → Bool → List ℕ → Sent × RtpH264
emit p rtp_ts last payload =
    let seq = (p.sequence + 1) % 2 ^ 16 in
    (
      record {
        packet =
            0x80
            ∷ ((if last then 0x80 else 0) + p.payload_type % 2 ^ 7)
            ∷ (be16 seq ++ (be32 rtp_ts ++ (be32 p.ssrc ++ payload)));
        marker = last;
        sequence = seq;
      },
      record p {
        sequence = seq;
        packets = (p.packets + 1) % 2 ^ 32;
        octets = (p.octets + length payload) % 2 ^ 32;
      },
    )

-- The FU indicator, the FU header and `size` bytes of the unit from `offset` on.
pub fragment : List ℕ → ℕ → ℕ → Bool → List ℕ
fragment nal offset size last_fragment =
    let nal_header = get_or nal 0 0 in
    (nal_header / 2 ^ 5 % 4 * 2 ^ 5 + 28)
    ∷ ((if offset == 1 then 0x80 else 0) + (if last_fragment then 0x40 else 0) + nal_header % 2 ^ 5)
    ∷ slice offset size nal

-- The loop over the fragments from `offset` on; `none` is fuel that ran out. Each fragment takes a
-- byte of the unit at least, so fewer rounds than bytes are made.
pub fragment_loop : ℕ → RtpH264 → ℕ → List ℕ → Bool → ℕ → Option (List Sent × RtpH264)
fragment_loop zero p rtp_ts nal has_more offset = none
fragment_loop (suc n) p rtp_ts nal has_more offset =
    let left = length nal - offset in
    let last_fragment = leb left chunk in
    let size = if last_fragment then left else chunk in
    let (sent, p') =
      emit p rtp_ts (last_fragment && not has_more) (fragment nal offset size last_fragment) in
    let rest = fragment_loop n p' rtp_ts nal has_more (offset + size) in
    if ltb offset (length nal) then (rest >>= λ (ss, p''). some (sent ∷ ss, p'')) else some ([], p)

-- One round of the loop over the units, for a unit of some length.
pub send_nal : RtpH264 → ℕ → List ℕ → Bool → Option (List Sent × RtpH264)
send_nal p rtp_ts nal has_more =
    let (sent, p') = emit p rtp_ts (not has_more) nal in
    if leb (length nal) payload_budget
    then some (sent ∷ [], p')
    else fragment_loop (length nal) p rtp_ts nal has_more 1

-- The look ahead for the marker.
pub has_more : List ℕ → ℕ → Bool
has_more au cursor = elim (next_nal au cursor) [
  | none ↦ false
  | some (probe_offset, probe_length) ↦ ltb 0 probe_length
]

-- The loop over the units from `cursor` on; `none` is fuel that ran out.
pub nal_loop : ℕ → RtpH264 → ℕ → List ℕ → ℕ → Option (List Sent × RtpH264)
nal_loop zero p rtp_ts au cursor = none
nal_loop (suc n) p rtp_ts au cursor = elim (next_nal au cursor) [
  | none ↦ some ([], p)
  | some (nal_offset, nal_length) ↦
      let cursor' = nal_offset + nal_length in
      let round : Option (List Sent × RtpH264) =
        if nal_length == 0
        then some ([], p)
        else send_nal p rtp_ts (slice nal_offset nal_length au) (has_more au cursor') in
      round >>= λ (sent, p').
      nal_loop n p' rtp_ts au cursor' >>= λ (rest, p''). some (sent ++ rest, p'')
]

-- The 90 kHz time stamp of a point in time.
pub timestamp : ℕ → ℕ → ℕ
timestamp base_pts_us pts_us =
    let delta_us = if leb base_pts_us pts_us then pts_us - base_pts_us else 0 in
    delta_us * 90000 % 2 ^ 64 / 1000000 % 2 ^ 32

-- The base time is that of the first access unit.
pub with_base : RtpH264 → ℕ → RtpH264
with_base p pts_us = if p.have_base then p else record p { base_pts_us = pts_us; have_base = true }

-- rtp_h264_packetize(): the packets, or the inner `none` for the result -1; their number is the
-- result. Each round goes on by a start code of three bytes, so fewer rounds than bytes are made.
pub packetize : RtpH264 → List ℕ → ℕ → Option (Option (List Sent) × RtpH264)
packetize p [] pts_us = some (none, p)
packetize p (b ∷ bs) pts_us =
    let p' = with_base p pts_us in
    nal_loop (suc (length (b ∷ bs))) p' (timestamp p'.base_pts_us pts_us) (b ∷ bs) 0
    >>= λ (sent, p''). some (some sent, p'')

-- rtp_h264_timestamp_at()
pub timestamp_at : RtpH264 → ℕ → ℕ
timestamp_at p clock_us = if p.have_base then timestamp p.base_pts_us clock_us else 0
