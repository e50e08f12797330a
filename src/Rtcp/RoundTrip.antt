-- ===== src/Rtcp/RoundTrip.antt =====
-- rtcp_parse() understands the packets of a compound as they were meant.
use cam.Base.{
  ℕ, zero, suc, ◌+◌, ◌*◌, ◌/◌, ◌%◌, ◌^◌, ◌≤◌, ◌<◌, ◌≡◌, refl, ap, sym, ◌∙◌, inl, inr, true, false,
  ◌&&◌, ◌||◌, ◌&&◌, some, List, [], ◌∷◌, ◌++◌, append_assoc, append-nil, arith, tests, ltb, leb,
  ◌==◌, Bool-cases, if◌then◌else◌, length, length-append, take, length-take, bit_and, All,
}
use cam.Base.Bytes.{
  be16, be32, read_be32, be16_value, be32_value, read_be16_here, read_be32_here, get_elem?_here,
  agree, eq_of_agree,
}
use cam.Rtcp.{
  RtcpFeedback, ReportBlock, no_feedback, max_nack_seqs, read_block, has_ours, report_loop, add_seq,
  bit_loop, nack_loop, payload_feedback, packet_case, parse_loop, parse,
}
use cam.Rtcp.Safe.{IsBounded, add_seq-IsBounded}
use cam.Rtcp.Packets.{
  Packet, receiver_report, bye, nack, pli, fir, block_bytes, blocks_bytes, requests_bytes,
  count_field, type_field, words_field, body, packet_header, encode, FitsBlock, FitsRequest,
  FitsPacket, following, requested, keep_block, keep_blocks, apply, apply_all,
}

-- The first `max_nack_seqs` of a list that is filled step by step.
take-full : (n : ℕ) (l k : List ℕ) → n ≤ length l → take n (l ++ k) ≡ take n l
take-full zero l k h = refl
take-full (suc n) [] k h = absurd (omega arith)
take-full (suc n) (x ∷ l) k h = ap (◌∷◌ x) (take-full n l k (omega arith))

take-all : (n : ℕ) (l : List ℕ) → length l ≤ n → take n l ≡ l
take-all zero [] h = refl
take-all zero (x ∷ l) h = absurd (omega arith)
take-all (suc n) [] h = refl
take-all (suc n) (x ∷ l) h = ap (◌∷◌ x) (take-all n l (omega arith))

take-take-append : (n : ℕ) (l k : List ℕ) → take n (take n l ++ k) ≡ take n (l ++ k)
take-take-append zero l k = refl
take-take-append (suc n) [] k = refl
take-take-append (suc n) (x ∷ l) k = ap (◌∷◌ x) (take-take-append n l k)

abbrev with_seqs : RtcpFeedback → List ℕ → RtcpFeedback
with_seqs fb seqs = record fb { nack_seq = take max_nack_seqs (fb.nack_seq ++ seqs) }

with_seqs-nil : (fb : RtcpFeedback) → IsBounded fb → with_seqs fb [] ≡ fb
with_seqs-nil fb b =
    ap (λ l. record fb { nack_seq = l })
      (ap (take max_nack_seqs) (append-nil fb.nack_seq) ∙ take-all max_nack_seqs fb.nack_seq b)

with_seqs-full :
    (fb : RtcpFeedback) (seqs : List ℕ)
    → IsBounded fb
    → ltb (length fb.nack_seq) max_nack_seqs ≡ false
    → with_seqs fb seqs ≡ fb
with_seqs-full fb seqs b h =
    ap (λ l. record fb { nack_seq = l })
      (take-full max_nack_seqs fb.nack_seq seqs (omega tests)
        ∙ take-all max_nack_seqs fb.nack_seq b)

with_seqs-add_seq :
    (fb : RtcpFeedback) (seq : ℕ) (seqs : List ℕ)
    → with_seqs (add_seq fb seq) seqs ≡ with_seqs fb (seq ∷ seqs)
unfolding add_seq
with_seqs-add_seq fb seq seqs =
    ap (λ l. record fb { nack_seq = take max_nack_seqs l })
      (append_assoc fb.nack_seq (seq ∷ []) seqs)

with_seqs-with_seqs :
    (fb : RtcpFeedback) (l k : List ℕ) → with_seqs (with_seqs fb l) k ≡ with_seqs fb (l ++ k)
with_seqs-with_seqs fb l k =
    ap (λ m. record fb { nack_seq = m })
      (take-take-append max_nack_seqs (fb.nack_seq ++ l) k
        ∙ ap (take max_nack_seqs) (append_assoc fb.nack_seq l k))

with_seqs-IsBounded : (fb : RtcpFeedback) (l : List ℕ) → IsBounded (with_seqs fb l)
with_seqs-IsBounded fb l = omega (arith, length-take max_nack_seqs (fb.nack_seq ++ l))

bit_loop_lem :
    (n bit pid mask : ℕ) (fb : RtcpFeedback)
    → IsBounded fb
    → bit_loop n bit pid mask fb ≡ with_seqs fb (following n bit pid mask)
unfolding bit_loop following
bit_loop_lem zero bit pid mask fb b = sym (with_seqs-nil fb b)
bit_loop_lem (suc n) bit pid mask fb b =
    elim (Bool-cases (ltb (length fb.nack_seq) max_nack_seqs)) [
      | inr full ↦ rw full (sym (with_seqs-full fb (following (suc n) bit pid mask) b full))
      | inl room ↦ elim (Bool-cases (mask / 2 ^ bit % 2 == 1)) [
        | inl asked ↦
            let seq = (pid + bit + 1) % 2 ^ 16 in
            rw (room, asked)
              (bit_loop_lem n (bit + 1) pid mask (add_seq fb seq)
                  (add_seq-IsBounded fb seq (omega tests))
                ∙ with_seqs-add_seq fb seq (following n (bit + 1) pid mask))
        | inr had ↦ rw (room, had) (bit_loop_lem n (bit + 1) pid mask fb b)
      ]
    ]

-- The loop over the requests that stand in the buffer behind `pre`.
nack_loop_lem :
    (rs : List (ℕ × ℕ)) (n : ℕ) (buf pre rest : List ℕ) (i end : ℕ) (fb : RtcpFeedback)
    → buf ≡ pre ++ (requests_bytes rs ++ rest)
    → i ≡ length pre
    → end ≡ i + 4 * length rs
    → length rs < n
    → All FitsRequest rs
    → IsBounded fb
    → nack_loop n buf i end fb ≡ some (with_seqs fb (requested rs))
unfolding nack_loop
nack_loop_lem [] zero buf pre rest i end fb eb ei ee h f b = absurd (omega arith)
nack_loop_lem [] (suc n) buf pre rest i end fb eb ei ee h f b = ground (arith, with_seqs-nil fb b)
nack_loop_lem (r ∷ rs) zero buf pre rest i end fb eb ei ee h f b = absurd (omega arith)
nack_loop_lem ((pid, mask) ∷ rs) (suc n) buf pre rest i end fb eb ei ee h f b =
    elim (Bool-cases (ltb (length fb.nack_seq) max_nack_seqs)) [
      | inr full ↦ ground (arith, with_seqs-full fb (requested ((pid, mask) ∷ rs)) b full)
      | inl room ↦
          let more : (leb (i + 4) end && ltb (length fb.nack_seq) max_nack_seqs) ≡ true =
            ground arith in
          let seen = requests_bytes ((pid, mask) ∷ rs) ++ rest in
          let first =
            read_be16_here buf pre seen i 0 pid eb (omega arith) (ap some (be16_value pid f.0.0)) in
          let second =
            read_be16_here buf pre seen (i + 2) 2 mask eb (omega arith)
              (ap some (be16_value mask f.0.1)) in
          let fb' = add_seq fb pid in
          let b' = add_seq-IsBounded fb pid (omega tests) in
          rw (more, first, second, bit_loop_lem 16 0 pid mask fb' b', with_seqs-add_seq)
            (nack_loop_lem rs n buf (pre ++ (be16 pid ++ be16 mask)) rest (i + 4) end
                (with_seqs fb (pid ∷ following 16 0 pid mask))
                (eb ∙ sym (append_assoc pre (be16 pid ++ be16 mask) (requests_bytes rs ++ rest)))
                (omega (arith, length-append pre (be16 pid ++ be16 mask))) (omega arith)
                (omega arith) f.1 (with_seqs-IsBounded fb (pid ∷ following 16 0 pid mask))
              ∙ ap some (with_seqs-with_seqs fb (pid ∷ following 16 0 pid mask) (requested rs)))
    ]

has_ours_lem :
    (media : ℕ) (fb : RtcpFeedback) (b : ReportBlock)
    → keep_block media fb.rr b ≡ (if has_ours media fb then fb.rr else some b)
unfolding has_ours
has_ours_lem media fb b = ground arith

kept :
    (media : ℕ) (fb : RtcpFeedback) (bs : List (ReportBlock × ℕ))
    → has_ours media fb ≡ true
    → keep_blocks media fb.rr bs ≡ fb.rr
kept media fb [] h = refl
kept media fb ((b, lost) ∷ bs) h =
    ap (λ r. keep_blocks media r bs) (has_ours_lem media fb b ∙ rw h) ∙ kept media fb bs h

-- A block that stands in the buffer behind `pre`.
read_block_lem :
    (buf pre rest : List ℕ) (i : ℕ) (b : ReportBlock) (lost : ℕ)
    → buf ≡ pre ++ (block_bytes (b, lost) ++ rest)
    → i ≡ length pre
    → FitsBlock (b, lost)
    → (read_block buf i ≡ some b) × (read_be32 buf i ≡ some b.ssrc)
unfolding read_block
read_block_lem buf pre rest i b lost eb ei f =
    let ssrc =
      read_be32_here buf pre xs i 0 b.ssrc eb (omega arith) (ap some (be32_value b.ssrc f.0)) in
    let lost_part = get_elem?_here buf pre xs (i + 4) 4 b.fraction_lost eb (omega arith) refl in
    let seq =
      read_be32_here buf pre xs (i + 8) 8 b.highest_seq eb (omega arith)
        (ap some (be32_value b.highest_seq f.1)) in
    let jitter =
      read_be32_here buf pre xs (i + 12) 12 b.jitter eb (omega arith)
        (ap some (be32_value b.jitter f.2)) in
    let last_sr =
      read_be32_here buf pre xs (i + 16) 16 b.last_sr eb (omega arith)
        (ap some (be32_value b.last_sr f.3)) in
    let delay =
      read_be32_here buf pre xs (i + 20) 20 b.delay_since_sr eb (omega arith)
        (ap some (be32_value b.delay_since_sr f.4)) in
    (rw (ssrc, lost_part, seq, jitter, last_sr, delay) refl, ssrc)
  where
    xs : List ℕ
    xs = block_bytes (b, lost) ++ rest

-- The loop over the blocks that stand in the buffer behind `pre`.
report_loop_lem :
    (bs : List (ReportBlock × ℕ)) (buf pre rest : List ℕ) (offset body_len media at : ℕ)
    (fb : RtcpFeedback)
    → buf ≡ pre ++ (blocks_bytes bs ++ rest)
    → offset + at ≡ length pre
    → body_len ≡ at + 24 * length bs
    → All FitsBlock bs
    → report_loop (length bs) buf offset body_len media at fb
      ≡ some (record fb { rr = keep_blocks media fb.rr bs })
unfolding report_loop
report_loop_lem [] buf pre rest offset body_len media at fb eb eo el f = refl
report_loop_lem ((b, lost) ∷ bs) buf pre rest offset body_len media at fb eb eo el f =
    let fits : ltb body_len (at + 24) ≡ false = ground arith in
    let there : buf ≡ pre ++ (block_bytes (b, lost) ++ (blocks_bytes bs ++ rest)) =
      eb ∙ ap (◌++◌ pre) (append_assoc (block_bytes (b, lost)) (blocks_bytes bs) rest) in
    let (block, ssrc) =
      read_block_lem buf pre (blocks_bytes bs ++ rest) (offset + at) b lost there eo f.0 in
    elim (Bool-cases (has_ours media fb)) [
      | inl ours ↦
          rw (fits, ssrc, ours)
            (ap (λ r. some (record fb { rr = r })) (sym (kept media fb ((b, lost) ∷ bs) ours)))
      | inr other ↦
          rw (fits, ssrc, other, block)
            (report_loop_lem bs buf (pre ++ block_bytes (b, lost)) rest offset body_len media
                (at + 24) (record fb { rr = some b })
                (there ∙ sym (append_assoc pre (block_bytes (b, lost)) (blocks_bytes bs ++ rest)))
                (omega (arith, length-append pre (block_bytes (b, lost)))) (omega arith) f.1
              ∙ ap (λ r. some (record fb { rr = keep_blocks media r bs }))
                  (sym (has_ours_lem media fb b ∙ rw other)))
    ]

-- The body of the packet that stands in the buffer behind `pre` and the four bytes of the header.
packet_case_lem :
    (p : Packet) (buf pre rest : List ℕ) (media offset : ℕ) (fb : RtcpFeedback)
    → buf ≡ pre ++ (packet_header p ++ (body p ++ rest))
    → offset ≡ length pre
    → FitsPacket p
    → IsBounded fb
    → packet_case buf media offset ((words_field p + 1) * 4) (count_field p) (type_field p) fb
      ≡ some (apply media fb p)
unfolding packet_case payload_feedback
packet_case_lem (receiver_report sender bs) buf pre rest media offset fb eb eo f b =
    report_loop_lem bs buf (pre ++ (packet_header (receiver_report sender bs) ++ be32 sender)) rest
      offset ((1 + 6 * length bs + 1) * 4) media 8 fb
      (eb
        ∙ sym (
            append_assoc pre (packet_header (receiver_report sender bs) ++ be32 sender)
              (blocks_bytes bs ++ rest)))
      (omega (arith, length-append pre (packet_header (receiver_report sender bs) ++ be32 sender)))
      (omega arith) f.1
packet_case_lem (bye sender) buf pre rest media offset fb eb eo f b = refl
packet_case_lem (nack sender m rs) buf pre rest media offset fb eb eo f b =
    nack_loop_lem rs ((2 + length rs + 1) * 4 / 4) buf
      (pre ++ (packet_header (nack sender m rs) ++ (be32 sender ++ be32 m))) rest (offset + 12)
      (offset + (2 + length rs + 1) * 4) fb
      (eb
        ∙ sym (
            append_assoc pre (packet_header (nack sender m rs) ++ (be32 sender ++ be32 m))
              (requests_bytes rs ++ rest)))
      (omega
        (arith, length-append pre (packet_header (nack sender m rs) ++ (be32 sender ++ be32 m))))
      (omega arith) (omega arith) f.1 b
packet_case_lem (pli sender m) buf pre rest media offset fb eb eo f b = refl
packet_case_lem (fir sender m seq) buf pre rest media offset fb eb eo f b = refl

length-blocks_bytes : (bs : List (ReportBlock × ℕ)) → length (blocks_bytes bs) ≡ 24 * length bs
length-blocks_bytes [] = refl
length-blocks_bytes ((b, lost) ∷ bs) =
    omega (arith, length-append (block_bytes (b, lost)) (blocks_bytes bs), length-blocks_bytes bs)

length-requests_bytes : (rs : List (ℕ × ℕ)) → length (requests_bytes rs) ≡ 4 * length rs
length-requests_bytes [] = refl
length-requests_bytes ((pid, mask) ∷ rs) = omega (arith, length-requests_bytes rs)

length-body : (p : Packet) → length (body p) ≡ words_field p * 4
length-body (receiver_report sender bs) = omega (arith, length-blocks_bytes bs)
length-body (bye sender) = refl
length-body (nack sender m rs) = omega (arith, length-requests_bytes rs)
length-body (pli sender m) = refl
length-body (fir sender m seq) = refl

header_fits : (p : Packet) → FitsPacket p → (count_field p < 32) × (words_field p < 2 ^ 16)
header_fits (receiver_report sender bs) f = (f.0, omega (arith, f.0))
header_fits (bye sender) f = omega arith
header_fits (nack sender m rs) f = (omega arith, f.0)
header_fits (pli sender m) f = omega arith
header_fits (fir sender m seq) f = omega arith

apply-IsBounded :
    (media : ℕ) (fb : RtcpFeedback) (p : Packet) → IsBounded fb → IsBounded (apply media fb p)
apply-IsBounded media fb (receiver_report sender bs) b = b
apply-IsBounded media fb (bye sender) b = b
apply-IsBounded media fb (nack sender m rs) b = with_seqs-IsBounded fb (requested rs)
apply-IsBounded media fb (pli sender m) b = b
apply-IsBounded media fb (fir sender m seq) b = b

count_bits : (n : ℕ) → n < 32 → bit_and (0x80 + n) 0x1f ≡ n
unfolding agree
count_bits n h = eq_of_agree (λ k. bit_and (0x80 + k) 0x1f) (λ k. k) 32 refl h

parse_loop_lem :
    (ps : List Packet) (n : ℕ) (buf pre : List ℕ) (media offset : ℕ) (fb : RtcpFeedback)
    → buf ≡ pre ++ encode ps
    → offset ≡ length pre
    → length (encode ps) < n
    → All FitsPacket ps
    → IsBounded fb
    → parse_loop n buf media offset fb ≡ some (some (apply_all media fb ps))
unfolding parse_loop
parse_loop_lem ps zero buf pre media offset fb eb eo h f b = absurd (omega arith)
parse_loop_lem [] (suc n) buf pre media offset fb eb eo h f b =
    let over : leb (offset + 4) (length buf) ≡ false =
      ground (arith, ap length eb, length-append pre []) in
    rw over
parse_loop_lem (p ∷ ps) (suc n) buf pre media offset fb eb eo h f b =
    let size = ap length eb ∙ length-append pre (encode (p ∷ ps)) in
    let rest_size = length-append (body p) (encode ps) in
    let (small, words_fit) = header_fits p f.0 in
    let more : leb (offset + 4) (length buf) ≡ true = ground (arith, size) in
    let first =
      get_elem?_here buf pre (encode (p ∷ ps)) offset 0 (0x80 + count_field p) eb (omega arith)
        refl in
    let kind =
      get_elem?_here buf pre (encode (p ∷ ps)) (offset + 1) 1 (type_field p) eb (omega arith)
        refl in
    let words =
      read_be16_here buf pre (encode (p ∷ ps)) (offset + 2) 2 (words_field p) eb (omega arith)
        (ap some (be16_value (words_field p) words_fit)) in
    let version : ((0x80 + count_field p) / 2 ^ 6 == 2) ≡ true = ground arith in
    let whole : (ltb (length buf) (offset + (words_field p + 1) * 4)
          || ltb ((words_field p + 1) * 4) 4)
        ≡ false =
      ground (arith, size, rest_size, length-body p) in
    rw
      (
        more,
        first,
        kind,
        words,
        version,
        whole,
        count_bits (count_field p) small,
        packet_case_lem p buf pre (encode ps) media offset fb eb eo f.0 b,
      )
      (parse_loop_lem ps n buf (pre ++ (packet_header p ++ body p)) media
        (offset + (words_field p + 1) * 4) (apply media fb p)
        (eb ∙ sym (append_assoc pre (packet_header p ++ body p) (encode ps)))
        (omega (arith, length-append pre (packet_header p ++ body p), length-body p))
        (omega (arith, rest_size)) f.1 (apply-IsBounded media fb p b))

-- A compound of receiver reports, BYE, generic NACK, PLI and FIR packets, laid out as the RFCs say,
-- parses to what its packets add up to, in their order: every request for a packet is listed, up
-- to 128 of them, the counts are exact, and the report block kept is the first one about our
-- stream, or the last of all when none is.
pub parse-encode :
    (ps : List Packet) (media : ℕ)
    → All FitsPacket ps
    → parse (encode ps) media ≡ some (some (apply_all media no_feedback ps))
unfolding parse
parse-encode ps media f =
    parse_loop_lem ps (suc (length (encode ps))) (encode ps) [] media 0 no_feedback refl refl
      (omega arith) f (omega arith)
