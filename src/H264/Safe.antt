-- ===== src/H264/Safe.antt =====
-- The functions of h264_bitstream.c on every buffer: they end, and keep to the bounds of the cache.
use cam.Base.{
  ℕ, zero, suc, ◌+◌, ◌-◌, ◌≤◌, ◌<◌, ◌≡◌, ◌⊎◌, refl, ap, sym, ◌∙◌, inl, inr, Bool, true, false, ◌&&◌,
  ◌||◌, Option, none, some, List, [], ◌∷◌, arith, ltb, leb, ◌==◌, Bool-cases, if◌then◌else◌, length,
  length-drop, get_or, drop,
}
use cam.Base.Memory.{slice}
use cam.H264.{
  H264AuInfo, H264ParamCache, no_info, param_max, code_loop, trim_end, next_unit, each_unit,
  unit_type, count_unit, au_scan, store_set, keep_unit, param_cache_update,
}

abbrev FindsCode : ℕ → ℕ → Option ℕ → Type 0
FindsCode i end r = (r ≡ none) ⊎ ((at : ℕ) × (r ≡ some at) × (i ≤ at) × (at + 3 ≤ end))

code_loop-FindsCode :
    (xs : List ℕ) (i end : ℕ) → i + length xs ≤ end → FindsCode i end (code_loop xs i)
unfolding code_loop
code_loop-FindsCode [] i end h = inl refl
code_loop-FindsCode (a ∷ []) i end h = inl refl
code_loop-FindsCode (a ∷ b ∷ []) i end h = inl refl
code_loop-FindsCode (a ∷ b ∷ c ∷ rest) i end h = elim (Bool-cases (a == 0 && (b == 0 && c == 1))) [
  | inl code ↦ rw code (inr (i, refl, omega arith, omega arith))
  | inr other ↦ rw other (later (code_loop-FindsCode (b ∷ c ∷ rest) (i + 1) end (omega arith)))
]
  where
    later : {r : Option ℕ} → FindsCode (i + 1) end r → FindsCode i end r
    later (inl e) = inl e
    later (inr (at, e, lo, hi)) = inr (at, e, omega arith, hi)

trim_end-bounds :
    (au : List ℕ) (body end : ℕ)
    → body ≤ end
    → (body ≤ trim_end au body end) × (trim_end au body end ≤ end)
unfolding trim_end
trim_end-bounds au body zero h = (omega arith, omega arith)
trim_end-bounds au body (suc end) h =
    elim (Bool-cases (ltb body (suc end) && get_or au end 1 == 0)) [
      | inl zero_byte ↦
          let (lo, hi) = trim_end-bounds au body end (ground arith) in
          rw zero_byte (lo, omega arith)
      | inr kept ↦ rw kept (h, omega arith)
    ]

-- A unit that is found ends behind the cursor and inside the buffer.
abbrev FindsUnit : ℕ → ℕ → Option (ℕ × ℕ) → Type 0
FindsUnit cursor size r =
    (r ≡ none) ⊎ ((body end : ℕ) × (r ≡ some (body, end)) × (cursor < end) × (end ≤ size))

next_unit-FindsUnit :
    (au : List ℕ) (cursor : ℕ)
    → cursor ≤ length au
    → FindsUnit cursor (length au) (next_unit au cursor)
unfolding next_unit
next_unit-FindsUnit au cursor h =
    elim (code_loop-FindsCode (drop cursor au) cursor (length au)
      (omega (arith, length-drop cursor au))) [
        | inl e ↦ rw e (inl refl)
        | inr (at, e, lo, hi) ↦
            let body = at + 3 in
            elim (code_loop-FindsCode (drop body au) body (length au)
              (omega (arith, length-drop body au))) [
                | inl e' ↦
                    let (lower, upper) = trim_end-bounds au body (length au) hi in
                    rw (e, e') (inr (body, _, refl, omega arith, upper))
                | inr (at', e', lo', hi') ↦
                    let (lower, upper) = trim_end-bounds au body at' lo' in
                    rw (e, e') (inr (body, _, refl, omega arith, omega arith))
              ]
      ]

-- The loop ends, and what its steps keep holds at the end.
each_unit-total {ℓ κ} :
    {S : Type ℓ} (P : S → Type κ) (f : S → List ℕ → S)
    → ((s : S) (nal : List ℕ) → P s → P (f s nal))
    → (n : ℕ) (au : List ℕ) (cursor : ℕ) (s : S) → cursor ≤ length au
    → length au < cursor + n
    → P s
    → (s' : S) × (each_unit f n au cursor s ≡ some s') × P s'
unfolding each_unit
each_unit-total P f keeps zero au cursor s hc hn h = absurd (omega arith)
each_unit-total P f keeps (suc n) au cursor s hc hn h = elim (next_unit-FindsUnit au cursor hc) [
  | inl e ↦ (s, rw (each_unit, e) refl, h)
  | inr (body, end, e, lo, hi) ↦
      let nal = slice body (end - body) au in
      let (s', er, h') =
        each_unit-total P f keeps n au end (if end - body == 0 then s else f s nal) hi (omega arith)
          (step (end - body == 0) nal) in
      (s', rw (each_unit, e, er) refl, h')
]
  where
    step : (b : Bool) (nal : List ℕ) → P (if b then s else f s nal)
    step true nal = h
    step false nal = keeps s nal h

-- The sets fit the arrays of the cache.
abbrev pub IsBounded : H264ParamCache → Type 0
IsBounded cache = (length cache.sps ≤ param_max) × (length cache.pps ≤ param_max)

store_set_bound :
    (slot nal : List ℕ) → length slot ≤ param_max → length (store_set slot nal) ≤ param_max
unfolding store_set
store_set_bound slot nal h = ground arith

keep_unit-IsBounded :
    (cache : H264ParamCache) (nal : List ℕ) → IsBounded cache → IsBounded (keep_unit cache nal)
unfolding keep_unit
keep_unit-IsBounded cache nal (hs, hp) = elim (Bool-cases (unit_type nal == 7)) [
  | inl sps ↦ rw sps (store_set_bound cache.sps nal hs, hp)
  | inr other ↦ elim (Bool-cases (unit_type nal == 8)) [
    | inl pps ↦ rw (other, pps) (hs, store_set_bound cache.pps nal hp)
    | inr neither ↦ rw (other, neither) (hs, hp)
  ]
]

-- On every buffer the update of the cache ends, and leaves sets that fit their arrays if they did.
pub param_cache_update-IsBounded :
    (cache : H264ParamCache) (au : List ℕ)
    → IsBounded cache
    → (cache' : H264ParamCache) × (param_cache_update cache au ≡ some cache') × IsBounded cache'
unfolding param_cache_update
param_cache_update-IsBounded cache au h =
    each_unit-total IsBounded keep_unit keep_unit-IsBounded (suc (length au)) au 0 cache
      (omega arith) (omega arith) h

-- Two runs of the loop over the same units keep what relates their steps.
each_unit-related {ℓ κ μ} :
    {S : Type ℓ} {T : Type κ} (R : S → T → Type μ) (f : S → List ℕ → S) (g : T → List ℕ → T)
    → ((s : S) (t : T) (nal : List ℕ) → R s t → R (f s nal) (g t nal))
    → (n : ℕ) (au : List ℕ) (cursor : ℕ) (s : S) (t : T) → cursor ≤ length au
    → length au < cursor + n
    → R s t
    → (s' : S) × (t' : T) × (each_unit f n au cursor s ≡ some s')
      × (each_unit g n au cursor t ≡ some t')
      × R s' t'
unfolding each_unit
each_unit-related R f g keeps zero au cursor s t hc hn h = absurd (omega arith)
each_unit-related R f g keeps (suc n) au cursor s t hc hn h =
    elim (next_unit-FindsUnit au cursor hc) [
      | inl e ↦ (s, t, rw (each_unit, e) refl, rw (each_unit, e) refl, h)
      | inr (body, end, e, lo, hi) ↦
          let nal = slice body (end - body) au in
          let (s', t', es, et, h') =
            each_unit-related R f g keeps n au end (if end - body == 0 then s else f s nal)
              (if end - body == 0 then t else g t nal) hi (omega arith)
              (step (end - body == 0) nal) in
          (s', t', rw (each_unit, e, es) refl, rw (each_unit, e, et) refl, h')
    ]
  where
    step : (b : Bool) (nal : List ℕ) → R (if b then s else f s nal) (if b then t else g t nal)
    step true nal = h
    step false nal = keeps s t nal h

-- The units that the loop comes to, the last one first.
abbrev pub units_of : List ℕ → Option (List (List ℕ))
units_of au = each_unit (λ units nal. nal ∷ units) (suc (length au)) au 0 []

-- The slices among the types of RFC 6184 and H.264, table 7-1: those of a picture that is no IDR
-- picture, the partitions A, B and C, and those of an IDR picture.
unfoldable pub is_slice_type : ℕ → Bool
is_slice_type type = type == 1 || (type == 2 || (type == 3 || (type == 4 || type == 5)))

abbrev pub slices : List (List ℕ) → ℕ
slices [] = 0
slices (nal ∷ nals) = if is_slice_type (unit_type nal) then suc (slices nals) else slices nals

abbrev pub has_type : ℕ → List (List ℕ) → Bool
has_type type [] = false
has_type type (nal ∷ nals) = unit_type nal == type || has_type type nals

-- A summary says how many units and slices there are, and which types.
abbrev pub Describes : H264AuInfo → List (List ℕ) → Type 0
Describes info nals =
    (info.nal_count ≡ length nals)
    × (info.slice_count ≡ slices nals)
    × (info.has_slice ≡ ltb 0 (slices nals))
    × (info.has_idr ≡ has_type 5 nals)
    × (info.has_sps ≡ has_type 7 nals)
    × (info.has_pps ≡ has_type 8 nals)

slice_range : (type : ℕ) → (leb 1 type && leb type 5) ≡ is_slice_type type
unfolding is_slice_type
slice_range type = ground arith

count_unit-Describes :
    (info : H264AuInfo) (nals : List (List ℕ)) (nal : List ℕ)
    → Describes info nals
    → Describes (count_unit info nal) (nal ∷ nals)
unfolding count_unit
count_unit-Describes info nals nal (count, number, any_slice, idr, sps, pps) =
    let type = unit_type nal in
    elim (Bool-cases (type == 7)) [
      | inl is_sps ↦
          let e5 : (type == 5) ≡ false = ground (arith, is_sps) in
          let e8 : (type == 8) ≡ false = ground (arith, is_sps) in
          let outside : (leb 1 type && leb type 5) ≡ false = ground (arith, is_sps) in
          let es : is_slice_type type ≡ false = sym (slice_range type) ∙ outside in
          rw (is_sps, e5, e8, es) (omega (arith, count), number, any_slice, idr, refl, pps)
      | inr no_sps ↦ elim (Bool-cases (type == 8)) [
        | inl is_pps ↦
            let e5 : (type == 5) ≡ false = ground (arith, is_pps) in
            let outside : (leb 1 type && leb type 5) ≡ false = ground (arith, is_pps) in
            let es : is_slice_type type ≡ false = sym (slice_range type) ∙ outside in
            rw (no_sps, is_pps, e5, es) (omega (arith, count), number, any_slice, idr, sps, refl)
        | inr no_pps ↦ elim (Bool-cases (leb 1 type && leb type 5)) [
          | inl in_range ↦
              let es : is_slice_type type ≡ true = sym (slice_range type) ∙ in_range in
              rw (no_sps, no_pps, in_range, es)
                (
                  omega (arith, count),
                  omega (arith, number),
                  ground arith,
                  ap (◌||◌ (type == 5)) idr,
                  sps,
                  pps,
                )
          | inr other ↦
              let e5 : (type == 5) ≡ false = ground (arith, other) in
              let es : is_slice_type type ≡ false = sym (slice_range type) ∙ other in
              rw (no_sps, no_pps, other, e5, es)
                (omega (arith, count), number, any_slice, idr, sps, pps)
        ]
      ]
    ]

-- On every buffer the scan ends, and its summary has the number of the units that the loop comes to,
-- and of those of them that are slices, and tells whether there is a slice, a slice of an IDR picture,
-- an SPS and a PPS among them.
pub au_scan-Describes :
    (au : List ℕ)
    → (info : H264AuInfo) × (nals : List (List ℕ)) × (au_scan au ≡ some info)
      × (units_of au ≡ some nals)
      × Describes info nals
unfolding au_scan
au_scan-Describes au =
    each_unit-related Describes count_unit (λ units nal. nal ∷ units) count_unit-Describes
      (suc (length au)) au 0 no_info [] (omega arith) (omega arith)
      (refl, refl, refl, refl, refl, refl)
