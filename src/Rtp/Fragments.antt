-- ===== src/Rtp/Fragments.antt =====
-- A receiver of single units and FU-A fragments after RFC 6184, and the packets of one unit: what it makes of them, and their markers.
use cam.Base.{
  ℕ, zero, suc, ◌+◌, ◌-◌, ◌*◌, ◌/◌, ◌%◌, ◌^◌, ◌≤◌, ◌<◌, ◌≡◌, ◌≢◌, ◌&&◌, ◌⊎◌, refl, ap, sym, ◌∙◌,
  inl, inr, Bool, true, false, not, Option, some, List, [], ◌∷◌, ◌++◌, arith, tests, ltb, leb, ◌==◌,
  if◌then◌else◌, Bool-cases, length, take, take-length, drop,
}
use cam.Base.Memory.{slice}
use cam.Rtp.{RtpH264, Sent, payload_budget, chunk, emit, fragment, fragment_loop, send_nal}

-- A payload of the types 1 to 23 is a unit itself.
abbrev pub is_single : ℕ → Bool
is_single x = ltb 0 (x % 2 ^ 5) && ltb (x % 2 ^ 5) 24

-- The receiver on payloads, with what it has put together of a fragmented unit. It takes single units
-- and FU-A; of another type, aggregates and FU-B among them, it drops a payload.
abbrev pub receive : List ℕ → List (List ℕ) → List (List ℕ)
receive part [] = []
receive part ([] ∷ ps) = receive part ps
receive part ((x ∷ []) ∷ ps) =
    let others = receive part ps in if is_single x then (x ∷ []) ∷ others else others
receive part ((indicator ∷ header ∷ body) ∷ ps) =
    let whole =
      if leb 128 header
      then (indicator / 2 ^ 5 * 2 ^ 5 + header % 2 ^ 5) ∷ body
      else part ++ body in
    let others = receive part ps in
    let fresh = receive [] ps in
    let going = receive whole ps in
    if indicator % 2 ^ 5 == 28
    then if header / 2 ^ 6 % 2 == 1 then whole ∷ fresh else going
    else if is_single indicator
    then (indicator ∷ header ∷ body) ∷ others
    else others

-- What follows the twelve bytes of the RTP header.
abbrev pub payloads : List Sent → List (List ℕ)
payloads [] = []
payloads (s ∷ ss) = drop 12 s.packet ∷ payloads ss

-- The marker is on the last packet, or not even there if the flag is not set.
abbrev pub MarksLast : Bool → List Sent → Type 0
MarksLast b [] = Unit
MarksLast b (s ∷ []) = s.marker ≡ b
MarksLast b (s ∷ s' ∷ ss) = (s.marker ≡ false) × MarksLast b (s' ∷ ss)

-- The header byte of a unit of H.264: the first bit is 0, and the type is 1 to 23.
abbrev pub IsHeader : ℕ → Type 0
IsHeader x = (x < 128) × (0 < x % 2 ^ 5) × (x % 2 ^ 5 < 24)

take-append-take :
    (o n m : ℕ) (xs : List ℕ) → m ≡ o + n → take o xs ++ take n (drop o xs) ≡ take m xs
take-append-take zero n m xs e = ap (λ k. take k xs) (omega arith)
take-append-take (suc o) n zero xs e = absurd (omega arith)
take-append-take (suc o) zero (suc m) [] e = refl
take-append-take (suc o) (suc n) (suc m) [] e = refl
take-append-take (suc o) n (suc m) (x ∷ xs) e = ap (◌∷◌ x) (take-append-take o n m xs (omega arith))

receive_fragmented :
    (part : List ℕ) (indicator header : ℕ) (body whole : List ℕ) (last : Bool) (ps : List (List ℕ))
    → indicator % 2 ^ 5 ≡ 28
    → (header / 2 ^ 6 % 2 == 1) ≡ last
    → (if leb 128 header then (indicator / 2 ^ 5 * 2 ^ 5 + header % 2 ^ 5) ∷ body else part ++ body)
      ≡ whole
    → receive part ((indicator ∷ header ∷ body) ∷ ps)
      ≡ (if last then whole ∷ receive [] ps else receive whole ps)
receive_fragmented part indicator header body whole last ps hi hl hw = rw (hw, hi, hl) refl

last_bit :
    (x o : ℕ) (last : Bool)
    → ((((if o == 1 then 0x80 else 0) + (if last then 0x40 else 0) + x % 2 ^ 5) / 2 ^ 6 % 2) == 1)
      ≡ last
last_bit x o true = ground arith
last_bit x o false = ground arith

-- A fragment adds what it carries to what came before it.
receive-fragment :
    (part : List ℕ) (x : ℕ) (xs : List ℕ) (o size m : ℕ) (last : Bool) (ps : List (List ℕ))
    → x < 128
    → (o ≡ 1) ⊎ ((1 < o) × (part ≡ take o (x ∷ xs)))
    → m ≡ o + size
    → receive part (fragment (x ∷ xs) o size last ∷ ps)
      ≡ (if last then take m (x ∷ xs) ∷ receive [] ps else receive (take m (x ∷ xs)) ps)
unfolding fragment
receive-fragment part x xs o size m last ps hx h e =
    receive_fragmented part _ _ _ (take m (x ∷ xs)) last ps (omega arith) (last_bit x o last)
      (whole h)
  where
    header : ℕ
    header = (if o == 1 then 0x80 else 0) + (if last then 0x40 else 0) + x % 2 ^ 5

    indicator : ℕ
    indicator = x / 2 ^ 5 % 4 * 2 ^ 5 + 28

    whole :
        (o ≡ 1) ⊎ ((1 < o) × (part ≡ take o (x ∷ xs)))
        → (if leb 128 header
            then (indicator / 2 ^ 5 * 2 ^ 5 + header % 2 ^ 5) ∷ slice o size (x ∷ xs)
            else part ++ slice o size (x ∷ xs))
          ≡ take m (x ∷ xs)
    whole (inl first) =
        let start : leb 128 header ≡ true = ground arith in
        let same : indicator / 2 ^ 5 * 2 ^ 5 + header % 2 ^ 5 ≡ x = ground arith in
        rw (start, same, first) (take-append-take 1 size m (x ∷ xs) (omega arith))
    whole (inr (later, known)) =
        let going : leb 128 header ≡ false = ground arith in
        rw (going, known) (take-append-take o size m (x ∷ xs) e)

cons_nonempty : (s : Sent) (ss : List Sent) → s ∷ ss ≢ []
cons_nonempty s ss h = ground arith

receive-whole :
    (x : ℕ) (xs : List ℕ) (ps : List (List ℕ))
    → IsHeader x
    → receive [] ((x ∷ xs) ∷ ps) ≡ (x ∷ xs) ∷ receive [] ps
receive-whole x [] ps h = let single : is_single x ≡ true = ground arith in rw single refl
receive-whole x (y ∷ ys) ps h =
    let other : (x % 2 ^ 5 == 28) ≡ false = ground arith in
    let single : is_single x ≡ true = ground arith in rw (other, single) refl

abbrev pub IsPart : List ℕ → List ℕ → ℕ → Type 0
IsPart nal part o = (o ≡ 1) ⊎ ((1 < o) × (part ≡ take o nal))

payload-emit :
    (p : RtpH264) (ts : ℕ) (last : Bool) (payload : List ℕ)
    → drop 12 (emit p ts last payload).0.packet ≡ payload
unfolding emit
payload-emit p ts last payload = refl

marker-emit :
    (p : RtpH264) (ts : ℕ) (last : Bool) (payload : List ℕ)
    → (emit p ts last payload).0.marker ≡ last
unfolding emit
marker-emit p ts last payload = refl

fragment_loop-end :
    (n : ℕ) (p : RtpH264) (ts : ℕ) (nal : List ℕ) (more : Bool) (o : ℕ)
    → length nal ≤ o
    → 0 < n
    → fragment_loop n p ts nal more o ≡ some ([], p)
unfolding fragment_loop
fragment_loop-end zero p ts nal more o h hn = absurd (omega arith)
fragment_loop-end (suc n) p ts nal more o h hn =
    let done : ltb o (length nal) ≡ false = ground arith in rw done refl

MarksLast-cons :
    (b : Bool) (s : Sent) (ss : List Sent)
    → s.marker ≡ false
    → ss ≢ []
    → MarksLast b ss
    → MarksLast b (s ∷ ss)
MarksLast-cons b s [] e h hs = absurd (h refl)
MarksLast-cons b s (s' ∷ ss) e h hs = (e, hs)

-- What the fragments from `o` on are for the receiver, and their markers.
abbrev pub Completes : List ℕ → List ℕ → List (List ℕ) → Bool → List Sent → Type 0
Completes part nal rest more ss =
    (receive part (payloads ss ++ rest) ≡ nal ∷ receive [] rest)
    × MarksLast (not more) ss
    × (ss ≢ [])

module _ (x : ℕ) (xs : List ℕ) (ts : ℕ) (more : Bool) (rest : List (List ℕ)) where
  last_fragment :
      (p : RtpH264) (part : List ℕ) (o size : ℕ) (ss : List Sent)
      → x < 128
      → o + size ≡ length (x ∷ xs)
      → ss ≡ []
      → IsPart (x ∷ xs) part o
      → Completes part
          (x ∷ xs)
          rest
          more
          ((emit p ts (not more) (fragment (x ∷ xs) o size true)).0 ∷ ss)
  last_fragment p part o size ss hx hs e h = rw e (
    ap (λ q. receive part (q ∷ rest)) (payload-emit p ts (not more) (fragment (x ∷ xs) o size true))
        ∙ receive-fragment part x xs o size (length (x ∷ xs)) true rest hx h (sym hs)
        ∙ ap (λ q. q ∷ receive [] rest) (take-length (x ∷ xs)),
    marker-emit p ts (not more) (fragment (x ∷ xs) o size true),
    λ z. ground arith,
  )

  next_fragment :
      (p : RtpH264) (part : List ℕ) (o size : ℕ) (ss : List Sent)
      → x < 128
      → IsPart (x ∷ xs) part o
      → Completes (take (o + size) (x ∷ xs)) (x ∷ xs) rest more ss
      → Completes part
          (x ∷ xs)
          rest
          more
          ((emit p ts false (fragment (x ∷ xs) o size false)).0 ∷ ss)
  next_fragment p part o size ss hx h (received, marks, some_packet) = (
    ap (λ q. receive part (q ∷ (payloads ss ++ rest)))
          (payload-emit p ts false (fragment (x ∷ xs) o size false))
        ∙ receive-fragment part x xs o size (o + size) false (payloads ss ++ rest) hx h refl
        ∙ received,
    MarksLast-cons (not more) (emit p ts false (fragment (x ∷ xs) o size false)).0 ss
        (marker-emit p ts false (fragment (x ∷ xs) o size false)) some_packet marks,
    λ z. ground arith,
  )

  -- There are packets, and they complete the unit.
  abbrev pub Sends : List ℕ → Option (List Sent × RtpH264) → Type 0
  Sends part o = (r : List Sent × RtpH264) × (o ≡ some r) × Completes part (x ∷ xs) rest more r.0

  fragment_loop-Sends :
      (n : ℕ) (p : RtpH264) (part : List ℕ) (o : ℕ)
      → x < 128
      → 0 < o
      → o < length (x ∷ xs)
      → length (x ∷ xs) < o + n
      → IsPart (x ∷ xs) part o
      → Sends part (fragment_loop n p ts (x ∷ xs) more o)
  unfolding fragment_loop
  fragment_loop-Sends zero p part o hx h0 ho hn h = absurd (omega arith)
  fragment_loop-Sends (suc n) p part o hx h0 ho hn h =
      let inside : ltb o (length (x ∷ xs)) ≡ true = ground arith in
      elim (Bool-cases (leb (length (x ∷ xs) - o) chunk)) [
        | inl last ↦
            let left = length (x ∷ xs) - o in
            let q = (emit p ts (not more) (fragment (x ∷ xs) o left true)).1 in
            let end =
              fragment_loop-end n q ts (x ∷ xs) more (o + left) (omega arith) (omega tests) in
            (
              ((emit p ts (not more) (fragment (x ∷ xs) o left true)).0 ∷ [], q),
              rw (inside, last, end) refl,
              last_fragment p part o left [] hx (omega arith) refl h,
            )
        | inr going ↦
            let q = (emit p ts false (fragment (x ∷ xs) o chunk false)).1 in
            let (r, er, completes) =
              fragment_loop-Sends n q (take (o + chunk) (x ∷ xs)) (o + chunk) hx (omega arith)
                (omega tests) (omega arith) (inr (omega arith, refl)) in
            (
              ((emit p ts false (fragment (x ∷ xs) o chunk false)).0 ∷ r.0, r.1),
              rw (inside, going, er) refl,
              next_fragment p part o chunk r.0 hx h completes,
            )
      ]

  -- The packets of one unit, fragmented or whole.
  pub send_nal-Sends : (p : RtpH264) → IsHeader x → Sends [] (send_nal p ts (x ∷ xs) more)
  unfolding send_nal
  send_nal-Sends p hx = elim (Bool-cases (leb (length (x ∷ xs)) payload_budget)) [
    | inl whole ↦ (
      ((emit p ts (not more) (x ∷ xs)).0 ∷ [], (emit p ts (not more) (x ∷ xs)).1),
      rw whole refl,
      (
        ap (λ q. receive [] (q ∷ rest)) (payload-emit p ts (not more) (x ∷ xs))
            ∙ receive-whole x xs rest hx,
        marker-emit p ts (not more) (x ∷ xs),
        cons_nonempty (emit p ts (not more) (x ∷ xs)).0 [],
      ),
    )
    | inr split ↦ rw split (
        fragment_loop-Sends (length (x ∷ xs)) p [] 1 hx.0 (omega arith) (omega tests) (omega arith)
          (inl refl))
  ]
