-- ===== src/Rtcp/Safe.antt =====
-- rtcp_parse() ends, and reads nothing outside of its buffer, on every input.
use cam.Base.{
  ℕ, zero, suc, ◌+◌, ◌*◌, ◌/◌, ◌%◌, ◌^◌, if◌then◌else◌, ◌≤◌, ◌<◌, ◌≡◌, refl, inl, inr, Bool, true,
  false, ◌&&◌, ◌||◌, Option, some, List, arith, tests, ltb, leb, ◌==◌, Bool-cases, length,
  length-append, get_elem?-in_range, bit_and,
}
use cam.Base.Bytes.{read_be16-in_range, read_be32-in_range}
use cam.Rtcp.{
  RtcpFeedback, ReportBlock, no_feedback, max_nack_seqs, report_block_size, read_block, has_ours,
  report_loop, add_seq, bit_loop, nack_loop, payload_feedback, packet_case, parse_loop, parse,
}

-- The array of sequence numbers is not overrun.
abbrev pub IsBounded : RtcpFeedback → Type 0
IsBounded fb = length fb.nack_seq ≤ max_nack_seqs

-- A result, within bounds.
abbrev Gives : Option RtcpFeedback → Type 0
Gives o = (fb : RtcpFeedback) × (o ≡ some fb) × IsBounded fb

read_block-in_range :
    (buf : List ℕ) (at : ℕ)
    → at + 24 ≤ length buf
    → (b : ReportBlock) × (read_block buf at ≡ some b)
unfolding read_block
read_block-in_range buf at h =
    let (a, ea) = read_be32-in_range buf at (omega arith) in
    let (f, ef) = get_elem?-in_range buf (at + 4) (omega arith) in
    let (s, es) = read_be32-in_range buf (at + 8) (omega arith) in
    let (j, ej) = read_be32-in_range buf (at + 12) (omega arith) in
    let (l, el) = read_be32-in_range buf (at + 16) (omega arith) in
    let (d, ed) = read_be32-in_range buf (at + 20) (omega arith) in
    (
      record {
        ssrc = a;
        fraction_lost = f;
        highest_seq = s;
        jitter = j;
        last_sr = l;
        delay_since_sr = d;
      },
      rw (ea, ef, es, ej, el, ed),
    )

report_loop-Gives :
    (n : ℕ) (buf : List ℕ) (offset body_len media_ssrc at : ℕ) (fb : RtcpFeedback)
    → offset + body_len ≤ length buf
    → IsBounded fb
    → Gives (report_loop n buf offset body_len media_ssrc at fb)
unfolding report_loop
report_loop-Gives zero buf offset body_len media_ssrc at fb h b = (fb, refl, b)
report_loop-Gives (suc n) buf offset body_len media_ssrc at fb h b =
    elim (Bool-cases (ltb body_len (at + report_block_size))) [
      | inl short ↦ rw short (fb, refl, b)
      | inr long ↦
          let (ssrc, es) = read_be32-in_range buf (offset + at) (omega tests) in
          let (block, eb) = read_block-in_range buf (offset + at) (omega tests) in
          elim (Bool-cases (has_ours media_ssrc fb)) [
            | inl ours ↦ rw (long, es, ours) (fb, refl, b)
            | inr other ↦
                rw (long, es, other, eb)
                  (report_loop-Gives n buf offset body_len media_ssrc (at + report_block_size)
                    (record fb { rr = some block }) h b)
          ]
    ]

pub add_seq-IsBounded :
    (fb : RtcpFeedback) (seq : ℕ) → length fb.nack_seq < max_nack_seqs → IsBounded (add_seq fb seq)
unfolding add_seq
add_seq-IsBounded fb seq h = rw (length-append fb.nack_seq) (omega arith)

bit_loop-IsBounded :
    (n bit pid mask : ℕ) (fb : RtcpFeedback) → IsBounded fb → IsBounded (bit_loop n bit pid mask fb)
unfolding bit_loop
bit_loop-IsBounded zero bit pid mask fb b = b
bit_loop-IsBounded (suc n) bit pid mask fb b = ground (
  arith,
  add_seq-IsBounded fb ((pid + bit + 1) % 2 ^ 16),
  bit_loop-IsBounded n (bit + 1) pid mask
      (if mask / 2 ^ bit % 2 == 1 then add_seq fb ((pid + bit + 1) % 2 ^ 16) else fb),
)

nack_loop-Gives :
    (n : ℕ) (buf : List ℕ) (i end : ℕ) (fb : RtcpFeedback)
    → end ≤ length buf
    → 0 < n
    → end < i + 4 * n
    → IsBounded fb
    → Gives (nack_loop n buf i end fb)
unfolding nack_loop
nack_loop-Gives zero buf i end fb h hn fuel b = absurd (omega arith)
nack_loop-Gives (suc n) buf i end fb h hn fuel b =
    elim (Bool-cases (leb (i + 4) end && ltb (length fb.nack_seq) max_nack_seqs)) [
      | inr stop ↦ rw stop (fb, refl, b)
      | inl go ↦
          let (pid, ep) = read_be16-in_range buf i (ground arith) in
          let (mask, em) = read_be16-in_range buf (i + 2) (ground arith) in
          rw (go, ep, em)
            (nack_loop-Gives n buf (i + 4) end (bit_loop 16 0 pid mask (add_seq fb pid)) h
              (ground (arith, go, fuel)) (omega (arith, fuel))
              (bit_loop-IsBounded 16 0 pid mask (add_seq fb pid)
                (add_seq-IsBounded fb pid (ground arith))))
    ]

if-Gives : (t : Bool) (x y : Option RtcpFeedback) → Gives x → Gives y → Gives (if t then x else y)
if-Gives true x y gx gy = gx
if-Gives false x y gx gy = gy

some-Gives : (fb : RtcpFeedback) → IsBounded fb → Gives (some fb)
some-Gives fb b = (fb, refl, b)

payload_feedback-IsBounded :
    (fmt : ℕ) (fb : RtcpFeedback) → IsBounded fb → IsBounded (payload_feedback fmt fb)
unfolding payload_feedback
payload_feedback-IsBounded fmt fb b = ground arith

packet_case-Gives :
    (buf : List ℕ) (media_ssrc offset packet_len count_or_fmt packet_type : ℕ) (fb : RtcpFeedback)
    → offset + packet_len ≤ length buf
    → 4 ≤ packet_len
    → IsBounded fb
    → Gives (packet_case buf media_ssrc offset packet_len count_or_fmt packet_type fb)
unfolding packet_case
packet_case-Gives buf media_ssrc offset packet_len count_or_fmt packet_type fb h some_word b =
    if-Gives (packet_type == 200) _ _
      (report_loop-Gives count_or_fmt buf offset packet_len media_ssrc 28 fb h b)
      (if-Gives (packet_type == 201) _ _
        (report_loop-Gives count_or_fmt buf offset packet_len media_ssrc 8 fb h b)
        (if-Gives (packet_type == 203) _ _ (some-Gives (record fb { bye = true }) b) (
          if-Gives (packet_type == 205) _ _
            (if-Gives (count_or_fmt == 1) _ _
              (nack_loop-Gives (packet_len / 4) buf (offset + 12) (offset + packet_len) fb h
                (omega arith) (omega arith) b)
              (some-Gives fb b))
            (if-Gives (packet_type == 206) _ _
              (some-Gives (payload_feedback count_or_fmt fb)
                (payload_feedback-IsBounded count_or_fmt fb b))
              (some-Gives fb b)))))

-- Fuel above the number of bytes left suffices.
parse_loop-total :
    (n : ℕ) (buf : List ℕ) (media_ssrc offset : ℕ) (fb : RtcpFeedback)
    → offset ≤ length buf
    → length buf < n + offset
    → IsBounded fb
    → (fb' : RtcpFeedback) × (parse_loop n buf media_ssrc offset fb ≡ some (some fb'))
      × IsBounded fb'
unfolding parse_loop
parse_loop-total zero buf media_ssrc offset fb o h b = absurd (omega arith)
parse_loop-total (suc n) buf media_ssrc offset fb o h b =
    elim (Bool-cases (leb (offset + 4) (length buf))) [
      | inr over ↦ rw over (fb, refl, b)
      | inl more ↦
          let (first, ef) = get_elem?-in_range buf offset (omega tests) in
          let (packet_type, et) = get_elem?-in_range buf (offset + 1) (omega tests) in
          let (words, ew) = read_be16-in_range buf (offset + 2) (omega tests) in
          rw (more, ef, et, ew)
            (elim (Bool-cases (first / 2 ^ 6 == 2)) [
              | inr other ↦ rw other (fb, refl, b)
              | inl version_2 ↦
                  elim (Bool-cases
                    (ltb (length buf) (offset + (words + 1) * 4) || ltb ((words + 1) * 4) 4)) [
                      | inl cut_off ↦ rw (version_2, cut_off) (fb, refl, b)
                      | inr whole ↦
                          let (fb', e, b') =
                            packet_case-Gives buf media_ssrc offset ((words + 1) * 4)
                              (bit_and first 0x1f) packet_type fb (ground arith) (omega arith) b in
                          rw (version_2, whole, e)
                            (parse_loop-total n buf media_ssrc (offset + (words + 1) * 4) fb'
                              (ground arith) (omega arith) b')
                    ]
            ])
    ]

-- On every buffer the parse ends, reads no byte outside of the buffer, and stores at most
-- 128 sequence numbers into the array of that size.
pub parse_total :
    (buf : List ℕ) (media_ssrc : ℕ)
    → (fb : RtcpFeedback) × (parse buf media_ssrc ≡ some (some fb))
      × (length fb.nack_seq ≤ max_nack_seqs)
unfolding parse
parse_total buf media_ssrc =
    parse_loop-total (suc (length buf)) buf media_ssrc 0 no_feedback (omega arith) (omega arith)
      (omega arith)
