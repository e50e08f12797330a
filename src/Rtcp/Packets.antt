-- ===== src/Rtcp/Packets.antt =====
-- RTCP packets as a receiver means them, and their bytes as RFC 3550 and RFC 4585 lay them out:
-- a description that does not depend on how rtcp.c reads them.
use cam.Base.{
  ℕ, zero, suc, ◌+◌, ◌*◌, ◌/◌, ◌%◌, ◌^◌, ◌<◌, true, Option, some, none, List, [], ◌∷◌, ◌++◌, ◌==◌,
  if◌then◌else◌, length, take, All,
}
use cam.Base.Bytes.{be16, be32}
use cam.Rtcp.{RtcpFeedback, ReportBlock, max_nack_seqs}

-- A report block goes with the cumulative number of packets lost, which the program ignores. A
-- request for packets is a first sequence number and a mask for the sixteen that follow it.
pub data Packet : Type 0 where
  receiver_report : ℕ → List (ReportBlock × ℕ) → Packet
  bye : ℕ → Packet
  nack : ℕ → ℕ → List (ℕ × ℕ) → Packet
  pli : ℕ → ℕ → Packet
  fir : ℕ → ℕ → ℕ → Packet

abbrev pub block_bytes : ReportBlock × ℕ → List ℕ
block_bytes (b, lost) =
    be32 b.ssrc
    ++ b.fraction_lost
      ∷ lost / 2 ^ 16 % 2 ^ 8
      ∷ lost / 2 ^ 8 % 2 ^ 8
      ∷ lost % 2 ^ 8
      ∷ (be32 b.highest_seq ++ (be32 b.jitter ++ (be32 b.last_sr ++ be32 b.delay_since_sr)))

abbrev pub blocks_bytes : List (ReportBlock × ℕ) → List ℕ
blocks_bytes [] = []
blocks_bytes (b ∷ bs) = block_bytes b ++ blocks_bytes bs

abbrev pub requests_bytes : List (ℕ × ℕ) → List ℕ
requests_bytes [] = []
requests_bytes ((pid, mask) ∷ rs) = (be16 pid ++ be16 mask) ++ requests_bytes rs

abbrev pub count_field : Packet → ℕ
count_field (receiver_report sender bs) = length bs
count_field (bye sender) = 1
count_field (nack sender media rs) = 1
count_field (pli sender media) = 1
count_field (fir sender media seq) = 4

abbrev pub type_field : Packet → ℕ
type_field (receiver_report sender bs) = 201
type_field (bye sender) = 203
type_field (nack sender media rs) = 205
type_field (pli sender media) = 206
type_field (fir sender media seq) = 206

-- The length of the body in 32-bit words.
abbrev pub words_field : Packet → ℕ
words_field (receiver_report sender bs) = 1 + 6 * length bs
words_field (bye sender) = 1
words_field (nack sender media rs) = 2 + length rs
words_field (pli sender media) = 2
words_field (fir sender media seq) = 4

abbrev pub body : Packet → List ℕ
body (receiver_report sender bs) = be32 sender ++ blocks_bytes bs
body (bye sender) = be32 sender
body (nack sender media rs) = (be32 sender ++ be32 media) ++ requests_bytes rs
body (pli sender media) = be32 sender ++ be32 media
body (fir sender media seq) = be32 sender ++ (be32 0 ++ (be32 media ++ seq ∷ 0 ∷ 0 ∷ 0 ∷ []))

abbrev pub packet_header : Packet → List ℕ
packet_header p = (0x80 + count_field p) ∷ type_field p ∷ be16 (words_field p)

abbrev pub encode : List Packet → List ℕ
encode [] = []
encode (p ∷ ps) = packet_header p ++ (body p ++ encode ps)

abbrev pub FitsBlock : ReportBlock × ℕ → Type 0
FitsBlock (b, lost) =
    (b.ssrc < 2 ^ 32)
    × (b.highest_seq < 2 ^ 32)
    × (b.jitter < 2 ^ 32)
    × (b.last_sr < 2 ^ 32)
    × (b.delay_since_sr < 2 ^ 32)

abbrev pub FitsRequest : ℕ × ℕ → Type 0
FitsRequest (pid, mask) = (pid < 2 ^ 16) × (mask < 2 ^ 16)

-- The fields that the program reads fit into their places.
abbrev pub FitsPacket : Packet → Type 0
FitsPacket (receiver_report sender bs) = (length bs < 32) × All FitsBlock bs
FitsPacket (bye sender) = Unit {0}
FitsPacket (nack sender media rs) = (2 + length rs < 2 ^ 16) × All FitsRequest rs
FitsPacket (pli sender media) = Unit {0}
FitsPacket (fir sender media seq) = Unit {0}

-- The sequence numbers that `n` bits of a mask from `bit` on ask for.
unfoldable pub following : ℕ → ℕ → ℕ → ℕ → List ℕ
following zero bit pid mask = []
following (suc n) bit pid mask =
    if mask / 2 ^ bit % 2 == 1
    then (pid + bit + 1) % 2 ^ 16 ∷ following n (bit + 1) pid mask
    else following n (bit + 1) pid mask

abbrev pub requested : List (ℕ × ℕ) → List ℕ
requested [] = []
requested ((pid, mask) ∷ rs) = pid ∷ (following 16 0 pid mask ++ requested rs)

-- The block to keep: the one about `media` once it was met, and before that the last one.
abbrev pub keep_block : ℕ → Option ReportBlock → ReportBlock → Option ReportBlock
keep_block media none b = some b
keep_block media (some old) b = if old.ssrc == media then some old else some b

abbrev pub keep_blocks : ℕ → Option ReportBlock → List (ReportBlock × ℕ) → Option ReportBlock
keep_blocks media kept [] = kept
keep_blocks media kept ((b, lost) ∷ bs) = keep_blocks media (keep_block media kept b) bs

-- What a packet adds to the feedback.
abbrev pub apply : ℕ → RtcpFeedback → Packet → RtcpFeedback
apply media fb (receiver_report sender bs) = record fb { rr = keep_blocks media fb.rr bs }
apply media fb (bye sender) = record fb { bye = true }
apply media fb (nack sender m rs) = record fb {
  nack_seq = take max_nack_seqs (fb.nack_seq ++ requested rs);
}
apply media fb (pli sender m) = record fb { pli = fb.pli + 1 }
apply media fb (fir sender m seq) = record fb { fir = fb.fir + 1 }

abbrev pub apply_all : ℕ → RtcpFeedback → List Packet → RtcpFeedback
apply_all media fb [] = fb
apply_all media fb (p ∷ ps) = apply_all media (apply media fb p) ps
