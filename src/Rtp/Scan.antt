-- ===== src/Rtp/Scan.antt =====
-- next_nal() of rtp_h264.c: which units the loop finds.
use cam.Base.{
  ℕ, zero, suc, ◌+◌, ◌-◌, ◌<◌, ◌≡◌, ◌≢◌, refl, ap, sym, ◌∙◌, Bool, true, false, none, some, List,
  [], ◌∷◌, ◌++◌, arith, length, length-append, get_or, drop, drop-of-length-append, append_assoc,
}
use cam.Rtp.{begins_with_one, scan_loop, scan_start_code, trim_zeros, next_nal, has_more}

-- No 0 0 1 within, and no zero at the end: what the emulation prevention of H.264 and the stop bit of
-- a unit give. The empty list passes too.
abbrev pub IsClean : List ℕ → Type 0
IsClean [] = Unit
IsClean (a ∷ []) = a ≢ 0
IsClean (a ∷ b ∷ []) = b ≢ 0
IsClean (a ∷ b ∷ c ∷ rest) = (a ≡ 0 → b ≡ 0 → c ≢ 1) × IsClean (b ∷ c ∷ rest)

-- A start code of three bytes, or of four if the flag is set.
abbrev pub start_code : Bool → List ℕ
start_code false = 0 ∷ 0 ∷ 1 ∷ []
start_code true = 0 ∷ 0 ∷ 0 ∷ 1 ∷ []

-- An access unit in Annex-B form: each unit behind a start code.
abbrev pub annex_b : List (Bool × List ℕ) → List ℕ
annex_b [] = []
annex_b ((long, nal) ∷ nals) = start_code long ++ (nal ++ annex_b nals)

abbrev pub IsUnit : List ℕ → Type 0
IsUnit nal = IsClean nal × (0 < length nal)

skip_first :
    (a : ℕ) (next : List ℕ) (i : ℕ) → a ≢ 0 → scan_loop (a ∷ next) i ≡ scan_loop next (i + 1)
unfolding scan_loop
skip_first a [] i h = refl
skip_first a (b ∷ []) i h = refl
skip_first a (b ∷ c ∷ rest) i h = ground arith

skip_second :
    (a b : ℕ) (next : List ℕ) (i : ℕ)
    → b ≢ 0
    → scan_loop (a ∷ b ∷ next) i ≡ scan_loop (b ∷ next) (i + 1)
unfolding scan_loop
skip_second a b [] i h = refl
skip_second a b (c ∷ rest) i h = ground arith

skip_third :
    (a b c : ℕ) (next : List ℕ) (i : ℕ)
    → (a ≡ 0 → b ≡ 0 → c ≢ 1)
    → (b ≡ 0 → c ≡ 0 → begins_with_one next ≡ false)
    → scan_loop (a ∷ b ∷ c ∷ next) i ≡ scan_loop (b ∷ c ∷ next) (i + 1)
unfolding scan_loop
skip_third a b c next i h k = ground arith

-- Behind two zeros of a clean text there is no 1.
no_one :
    (b c : ℕ) (rest next : List ℕ)
    → IsClean (b ∷ c ∷ rest)
    → b ≡ 0
    → c ≡ 0
    → begins_with_one (rest ++ next) ≡ false
no_one b c [] next h eb ec = absurd (h ec)
no_one b c (d ∷ rest) next h eb ec = let other = h.0 eb ec in ground arith

-- The scan runs over a clean text to what follows it.
scan_loop-append :
    (nal next : List ℕ) (i j : ℕ)
    → j ≡ i + length nal
    → IsClean nal
    → scan_loop (nal ++ next) i ≡ scan_loop next j
scan_loop-append [] next i j e h = ap (scan_loop next) (omega arith)
scan_loop-append (a ∷ []) next i j e h = skip_first a next i h ∙ ap (scan_loop next) (omega arith)
scan_loop-append (a ∷ b ∷ []) next i j e h =
    skip_second a b next i h ∙ skip_first b next (i + 1) h ∙ ap (scan_loop next) (omega arith)
scan_loop-append (a ∷ b ∷ c ∷ rest) next i j e h =
    skip_third a b c (rest ++ next) i h.0 (no_one b c rest next h.1)
    ∙ scan_loop-append (b ∷ c ∷ rest) next (i + 1) j (omega arith) h.1

scan_loop-start_code :
    (long : Bool) (rest : List ℕ) (i : ℕ)
    → scan_loop (start_code long ++ rest) i ≡ some (i, length (start_code long))
unfolding scan_loop
scan_loop-start_code false rest i = refl
scan_loop-start_code true rest i = refl

drop_through : (n : ℕ) (xs ys : List ℕ) → length xs ≡ n → drop n (xs ++ ys) ≡ ys
drop_through n xs ys e = rw (← e) (drop-of-length-append xs ys)

-- Where the next unit begins, and that the last byte of a unit is not trimmed.
last_of_clean :
    (nal next : List ℕ) (m : ℕ) → suc m ≡ length nal → IsClean nal → get_or (nal ++ next) m 1 ≢ 0
last_of_clean [] next m e h = absurd (omega arith)
last_of_clean (a ∷ []) next zero e h = h
last_of_clean (a ∷ []) next (suc m) e h = absurd (omega arith)
last_of_clean (a ∷ b ∷ []) next zero e h = absurd (omega arith)
last_of_clean (a ∷ b ∷ []) next (suc zero) e h = h
last_of_clean (a ∷ b ∷ []) next (suc (suc m)) e h = absurd (omega arith)
last_of_clean (a ∷ b ∷ c ∷ rest) next zero e h = absurd (omega arith)
last_of_clean (a ∷ b ∷ c ∷ rest) next (suc m) e h =
    last_of_clean (b ∷ c ∷ rest) next m (omega arith) h.1

get_or_behind :
    (pre xs : List ℕ) (k m d : ℕ) → m ≡ length pre + k → get_or (pre ++ xs) m d ≡ get_or xs k d
get_or_behind [] xs k m d e = ap (λ i. get_or xs i d) (omega arith)
get_or_behind (x ∷ pre) xs k zero d e = absurd (omega arith)
get_or_behind (x ∷ pre) xs k (suc m) d e = get_or_behind pre xs k m d (omega arith)

trim_zeros_stops :
    (au : List ℕ) (body end m : ℕ) → end ≡ suc m → get_or au m 1 ≢ 0 → trim_zeros au body end ≡ end
unfolding trim_zeros
trim_zeros_stops au body zero m e h = absurd (omega arith)
trim_zeros_stops au body (suc end) m e h =
    let same : end ≡ m = omega arith in
    let last : get_or au end 1 ≢ 0 = λ z. h (ap (λ i. get_or au i 1) (sym same) ∙ z) in
    ground (arith, last)

scan_here :
    (pre text : List ℕ) (n : ℕ)
    → n ≡ length pre
    → scan_start_code (pre ++ text) n ≡ scan_loop text n
unfolding scan_start_code
scan_here pre text n e = ap (λ t. scan_loop t n) (drop_through n pre text (sym e))

no_code : (n i : ℕ) → elim (scan_loop [] i) [ none ↦ n | some (next_code, k) ↦ next_code ] ≡ n
unfolding scan_loop
no_code n i = refl

-- Where a unit that begins at `body` ends.
end_of_unit :
    (nal : List ℕ) (nals : List (Bool × List ℕ)) (au : List ℕ) (body : ℕ)
    → IsClean nal
    → length au ≡ body + length (nal ++ annex_b nals)
    → scan_start_code au body ≡ scan_loop (nal ++ annex_b nals) body
    → elim (scan_start_code au body) [ none ↦ length au | some (next_code, n) ↦ next_code ]
      ≡ body + length nal
end_of_unit nal [] au body h el e =
    rw (e, scan_loop-append nal [] body (body + length nal) refl h)
      (no_code (length au) (body + length nal) ∙ omega (arith, length-append nal []))
end_of_unit nal ((long, nal') ∷ nals) au body h el e =
    rw
      (
        e,
        scan_loop-append nal (annex_b ((long, nal') ∷ nals)) body (body + length nal) refl h,
        scan_loop-start_code long (nal' ++ annex_b nals) (body + length nal),
      )
      refl

-- The unit at the cursor is found with its exact length.
pub next_nal_lem :
    (pre nal : List ℕ) (long : Bool) (nals : List (Bool × List ℕ))
    → IsUnit nal
    → next_nal (pre ++ annex_b ((long, nal) ∷ nals)) (length pre)
      ≡ some (length pre + length (start_code long), length nal)
unfolding next_nal
next_nal_lem pre nal long nals (clean, some_byte) =
    rw
      (
        scan_here pre (annex_b ((long, nal) ∷ nals)) (length pre) refl,
        scan_loop-start_code long (nal ++ annex_b nals) (length pre),
        ends,
        trim_zeros_stops au body (body + length nal) (body + length nal - 1) (omega arith) kept,
      )
      (ground arith)
  where
    au : List ℕ
    au = pre ++ annex_b ((long, nal) ∷ nals)

    body : ℕ
    body = length pre + length (start_code long)

    front : List ℕ
    front = pre ++ start_code long

    split : au ≡ front ++ (nal ++ annex_b nals)
    split = sym (append_assoc pre (start_code long) (nal ++ annex_b nals))

    front_length : body ≡ length front
    front_length = sym (length-append pre (start_code long))

    ends :
        elim (scan_start_code au body) [ none ↦ length au | some (next_code, n) ↦ next_code ]
        ≡ body + length nal
    ends =
        end_of_unit nal nals au body clean
          (ap length split ∙ omega (arith, front_length, length-append front (nal ++ annex_b nals)))
          (ap (λ t. scan_start_code t body) split
            ∙ scan_here front (nal ++ annex_b nals) body front_length)

    kept : get_or au (body + length nal - 1) 1 ≢ 0
    kept z = last_of_clean nal (annex_b nals) (length nal - 1) (omega arith) clean (
        sym (
          ap (λ t. get_or t (body + length nal - 1) 1) split
          ∙ get_or_behind front (nal ++ annex_b nals) (length nal - 1) (body + length nal - 1) 1
              (omega (arith, front_length)))
        ∙ z)

pub next_nal-end : (pre : List ℕ) → next_nal (pre ++ []) (length pre) ≡ none
unfolding next_nal scan_loop
next_nal-end pre = rw (scan_here pre [] (length pre) refl) refl

abbrev pub is_nonempty : List (Bool × List ℕ) → Bool
is_nonempty [] = false
is_nonempty (x ∷ xs) = true

abbrev pub AreUnits : List (Bool × List ℕ) → Type 0
AreUnits [] = Unit
AreUnits ((long, nal) ∷ nals) = IsUnit nal × AreUnits nals

-- The look ahead tells whether a unit follows.
pub has_more_lem :
    (pre : List ℕ) (nals : List (Bool × List ℕ))
    → AreUnits nals
    → has_more (pre ++ annex_b nals) (length pre) ≡ is_nonempty nals
unfolding has_more
has_more_lem pre [] h = rw (has_more, next_nal-end pre) refl
has_more_lem pre ((long, nal) ∷ nals) h =
    rw (has_more, next_nal_lem pre nal long nals h.0) (ground (arith, h.0.1))
