-- ===== src/Rtp/Sequence.antt =====
-- rtp_h264_packetize() on every input: it ends, and its packets are numbered in sequence.
use cam.Base.{
  ℕ, zero, suc, ◌+◌, ◌-◌, ◌%◌, ◌^◌, ◌≤◌, ◌<◌, ◌≡◌, refl, ap, subst, ◌∙◌, inl, inr, Bool, true, ◌&&◌,
  not, some, List, [], ◌∷◌, ◌++◌, arith, tests, ltb, leb, ◌==◌, if◌then◌else◌, Bool-cases, if_elim,
  ltb→lt, Option, length, length-append, length-take, drop,
}
use cam.Base.Memory.{slice}
use cam.Base.Bytes.{read_be16, read_be32, be16_value, be32_value}
use cam.Rtp.{
  RtpH264, Sent, payload_budget, chunk, emit, fragment, fragment_loop, send_nal, has_more, nal_loop,
  timestamp, with_base, packetize, timestamp_at,
}
use cam.Rtp.Bounds.{next_nal-FindsUnit}

-- The counters are numbers of their C types.
abbrev pub IsValid : RtpH264 → Type 0
IsValid p = (p.ssrc < 2 ^ 32) × (p.sequence < 2 ^ 16) × (p.packets < 2 ^ 32) × (p.octets < 2 ^ 32)

-- A packet that fits the path, with its number, time stamp and stream where RFC 3550 puts them.
abbrev pub IsPacket : ℕ → ℕ → ℕ → Sent → Type 0
IsPacket ssrc rtp_ts seq s =
    (length s.packet ≤ 1200)
    × (12 ≤ length s.packet)
    × (s.sequence ≡ seq)
    × (read_be16 s.packet 2 ≡ some seq)
    × (read_be32 s.packet 4 ≡ some rtp_ts)
    × (read_be32 s.packet 8 ≡ some ssrc)

-- Such packets, numbered on from `seq`.
abbrev pub AreNumbered : ℕ → ℕ → ℕ → List Sent → Type 0
AreNumbered ssrc rtp_ts seq [] = Unit
AreNumbered ssrc rtp_ts seq (s ∷ ss) =
    IsPacket ssrc rtp_ts ((seq + 1) % 2 ^ 16) s × AreNumbered ssrc rtp_ts ((seq + 1) % 2 ^ 16) ss

abbrev pub payload_total : List Sent → ℕ
payload_total [] = 0
payload_total (s ∷ ss) = length s.packet - 12 + payload_total ss

-- The packetizer behind the packets: the stream is the same, and the counters have gone on by them.
abbrev pub IsCounted : RtpH264 → List Sent → RtpH264 → Type 0
IsCounted p ss p' =
    (p'.ssrc ≡ p.ssrc)
    × (p'.sequence ≡ (p.sequence + length ss) % 2 ^ 16)
    × (p'.packets ≡ (p.packets + length ss) % 2 ^ 32)
    × (p'.octets ≡ (p.octets + payload_total ss) % 2 ^ 32)

abbrev IsRun : ℕ → RtpH264 → List Sent × RtpH264 → Type 0
IsRun rtp_ts p (ss, p') =
    IsValid p'
    × (p'.base_pts_us ≡ p.base_pts_us)
    × (p'.have_base ≡ p.have_base)
    × AreNumbered p.ssrc rtp_ts p.sequence ss
    × IsCounted p ss p'

module _ (rtp_ts : ℕ) (small : rtp_ts < 2 ^ 32) where
  no_packets : (p : RtpH264) → IsValid p → IsRun rtp_ts p ([], p)
  no_packets p v = (v, refl, refl, tt, (refl, omega arith, omega arith, omega arith))

  AreNumbered-append :
      (ssrc seq seq' : ℕ) (ss ss' : List Sent)
      → seq < 2 ^ 16
      → seq' ≡ (seq + length ss) % 2 ^ 16
      → AreNumbered ssrc rtp_ts seq ss
      → AreNumbered ssrc rtp_ts seq' ss'
      → AreNumbered ssrc rtp_ts seq (ss ++ ss')
  AreNumbered-append ssrc seq seq' [] ss' v e h h' =
      subst (λ n. AreNumbered ssrc rtp_ts n ss') (omega arith) h'
  AreNumbered-append ssrc seq seq' (s ∷ ss) ss' v e h h' = (
    h.0,
    AreNumbered-append ssrc ((seq + 1) % 2 ^ 16) seq' ss ss' (omega arith) (omega arith) h.1 h',
  )

  payload_total-append :
      (ss ss' : List Sent) → payload_total (ss ++ ss') ≡ payload_total ss + payload_total ss'
  payload_total-append [] ss' = omega arith
  payload_total-append (s ∷ ss) ss' = omega (arith, payload_total-append ss ss')

  joined :
      (p : RtpH264) (r r' : List Sent × RtpH264)
      → IsValid p
      → IsRun rtp_ts p r
      → IsRun rtp_ts r.1 r'
      → IsRun rtp_ts p (r.0 ++ r'.0, r'.1)
  joined p (ss, q) (ss', r) v (vq, b, hb, n, (cs, cq, cp, co))
        (vr, b', hb', n', (cs', cq', cp', co')) =
      (
        vr,
        b' ∙ b,
        hb' ∙ hb,
        AreNumbered-append p.ssrc p.sequence q.sequence ss ss' v.1 cq n
            (subst (λ k. AreNumbered k rtp_ts q.sequence ss') cs n'),
        (
          cs' ∙ cs,
          omega (arith, length-append ss ss'),
          omega (arith, length-append ss ss'),
          omega (arith, payload_total-append ss ss'),
        ),
      )

  emit-IsRun :
      (p : RtpH264) (last : Bool) (payload : List ℕ)
      → IsValid p
      → length payload ≤ payload_budget
      → let (s, q) = emit p rtp_ts last payload in IsRun rtp_ts p (s ∷ [], q)
  unfolding emit
  emit-IsRun p last payload v h = (
    omega arith,
    refl,
    refl,
    (
      (
        omega arith,
        omega arith,
        refl,
        ap some (be16_value ((p.sequence + 1) % 2 ^ 16) (omega arith)),
        ap some (be32_value rtp_ts small),
        ap some (be32_value p.ssrc v.0),
      ),
      tt,
    ),
    (refl, omega arith, omega arith, omega arith),
  )

  length-fragment :
      (nal : List ℕ) (offset size : ℕ) (last : Bool)
      → size ≤ chunk
      → length (fragment nal offset size last) ≤ payload_budget
  unfolding fragment
  length-fragment nal offset size last h = omega (arith, length-take size (drop offset nal))

  -- There is a result, and it is a run.
  abbrev Runs : RtpH264 → Option (List Sent × RtpH264) → Type 0
  Runs p o = (r : List Sent × RtpH264) × (o ≡ some r) × IsRun rtp_ts p r

  fragment_loop-Runs :
      (n : ℕ) (p : RtpH264) (nal : List ℕ) (more : Bool) (offset : ℕ)
      → IsValid p
      → offset ≤ length nal
      → length nal < offset + n
      → Runs p (fragment_loop n p rtp_ts nal more offset)
  unfolding fragment_loop
  fragment_loop-Runs zero p nal more offset v ho hn = absurd (omega arith)
  fragment_loop-Runs (suc n) p nal more offset v ho hn =
      let left = length nal - offset in
      let last_fragment = leb left chunk in
      let size = if last_fragment then left else chunk in
      let bound : size ≤ chunk = ground arith in
      let sent =
        emit p rtp_ts (last_fragment && not more) (fragment nal offset size last_fragment) in
      let first =
        emit-IsRun p (last_fragment && not more) (fragment nal offset size last_fragment) v
          (length-fragment nal offset size last_fragment bound) in
      if_elim (Runs p) (ltb offset (length nal))
        (λ e.
          let within : offset < length nal = ltb→lt offset (length nal) e in
          let on : offset + size ≤ length nal = ground arith in
          let moved : length nal < offset + size + n = ground arith in
          let (rest, er, run) =
            fragment_loop-Runs n sent.1 nal more (offset + size) first.0 on moved in
          ((sent.0 ∷ rest.0, rest.1), rw er refl, joined p (sent.0 ∷ [], sent.1) rest v first run))
        (λ e. (([], p), refl, no_packets p v))

  send_nal-Runs :
      (p : RtpH264) (nal : List ℕ) (more : Bool) → IsValid p → Runs p (send_nal p rtp_ts nal more)
  unfolding send_nal
  send_nal-Runs p nal more v =
      let sent = emit p rtp_ts (not more) nal in
      if_elim (Runs p) (leb (length nal) payload_budget)
        (λ e. ((sent.0 ∷ [], sent.1), refl, emit-IsRun p (not more) nal v (omega tests)))
        (λ e. fragment_loop-Runs (length nal) p nal more 1 v (omega tests) (omega arith))

  -- The packets of one round of the loop over the units.
  abbrev round : RtpH264 → List ℕ → ℕ → ℕ → Option (List Sent × RtpH264)
  round p au offset size =
      if size == 0
      then some ([], p)
      else send_nal p rtp_ts (slice offset size au) (has_more au (offset + size))

  round-Runs :
      (p : RtpH264) (au : List ℕ) (offset size : ℕ) → IsValid p → Runs p (round p au offset size)
  round-Runs p au offset size v =
      if_elim (Runs p) (size == 0) (λ e. (([], p), refl, no_packets p v))
        (λ e. send_nal-Runs p (slice offset size au) (has_more au (offset + size)) v)

  nal_loop-IsRun :
      (n : ℕ) (p : RtpH264) (au : List ℕ) (cursor : ℕ)
      → IsValid p
      → cursor ≤ length au
      → length au < cursor + n
      → Runs p (nal_loop n p rtp_ts au cursor)
  unfolding nal_loop
  nal_loop-IsRun zero p au cursor v hc hn = absurd (omega arith)
  nal_loop-IsRun (suc n) p au cursor v hc hn = elim (next_nal-FindsUnit au cursor hc) [
    | inl e ↦ (([], p), rw (nal_loop, e) refl, no_packets p v)
    | inr (at, size, e, lo, hi) ↦
        let (first, ef, run) = round-Runs p au at size v in
        let (rest, er, runs) = nal_loop-IsRun n first.1 au (at + size) run.0 hi (omega arith) in
        ((first.0 ++ rest.0, rest.1), rw (nal_loop, e, ef, er) refl, joined p first rest v run runs)
  ]

with_base_lem :
    (p : RtpH264) (pts_us : ℕ)
    → let q = with_base p pts_us in
      (q.ssrc ≡ p.ssrc)
      × (q.sequence ≡ p.sequence)
      × (q.packets ≡ p.packets)
      × (q.octets ≡ p.octets)
      × (q.have_base ≡ true)
unfolding with_base
with_base_lem p pts_us = elim (Bool-cases p.have_base) [
  | inl old ↦ rw old (refl, refl, refl, refl, refl)
  | inr new ↦ rw new (refl, refl, refl, refl, refl)
]

timestamp-small : (base_pts_us pts_us : ℕ) → timestamp base_pts_us pts_us < 2 ^ 32
unfolding timestamp
timestamp-small base_pts_us pts_us = omega arith

timestamp_at_based :
    (p : RtpH264) (base_pts_us pts_us : ℕ)
    → p.have_base ≡ true
    → p.base_pts_us ≡ base_pts_us
    → timestamp base_pts_us pts_us ≡ timestamp_at p pts_us
unfolding timestamp_at
timestamp_at_based p base_pts_us pts_us h e = rw (h, e) refl

renumbered :
    {ssrc ssrc' rtp_ts rtp_ts' seq seq' : ℕ} (ss : List Sent)
    → ssrc ≡ ssrc'
    → rtp_ts ≡ rtp_ts'
    → seq ≡ seq'
    → AreNumbered ssrc rtp_ts seq ss
    → AreNumbered ssrc' rtp_ts' seq' ss
renumbered ss es et eq h = rw (← es, ← et, ← eq) h

-- On every nonempty access unit the packetizer ends. Its packets have 1200 bytes at most and carry
-- their numbers, on from the last one modulo 2^16, the stream, and the time stamp that
-- rtp_h264_timestamp_at() gives for the time of the access unit afterwards. The counters of the
-- sender report count them and the bytes of their payloads.
pub packetize_in_sequence :
    (p : RtpH264) (b : ℕ) (bs : List ℕ) (pts_us : ℕ)
    → IsValid p
    → (sent : List Sent) × (p' : RtpH264) × (packetize p (b ∷ bs) pts_us ≡ some (some sent, p'))
      × AreNumbered p.ssrc (timestamp_at p' pts_us) p.sequence sent
      × IsCounted p sent p'
unfolding packetize
packetize_in_sequence p b bs pts_us v =
    let q = with_base p pts_us in
    let (es, eq, ep, eo, based) = with_base_lem p pts_us in
    let ts = timestamp q.base_pts_us pts_us in
    let ((sent, p'), e, (v', eb, hb, numbered, (cs, cq, cp, co))) =
      nal_loop-IsRun ts (timestamp-small q.base_pts_us pts_us) (suc (length (b ∷ bs))) q (b ∷ bs) 0
        (omega (arith, es, eq, ep, eo)) (omega arith) (omega arith) in
    let et = timestamp_at_based p' q.base_pts_us pts_us (hb ∙ based) eb in
    (
      sent,
      p',
      rw e refl,
      renumbered sent es et eq numbered,
      (cs ∙ es, omega (arith, eq), omega (arith, ep), omega (arith, eo)),
    )
