-- ===== src/H264.antt =====
-- src/media/h264_bitstream.c: the units of an Annex-B buffer, and the cache of parameter sets.
-- The bit-fields of a byte are written as remainders.
pub mod Safe
mod Tests
use cam.Base.{
  ℕ, zero, suc, ◌+◌, ◌-◌, ◌%◌, ◌^◌, Bool, true, false, ◌&&◌, ◌||◌, Option, none, some, List, [],
  ◌∷◌, ◌++◌, ltb, leb, ◌==◌, if◌then◌else◌, ◌>>=◌, length, get_or, drop,
}
use cam.Base.Memory.{slice}

pub record H264AuInfo : Type 0 where
  pub nal_count : ℕ
  pub has_sps : Bool
  pub has_pps : Bool
  pub has_idr : Bool
  pub has_slice : Bool
  pub slice_count : ℕ

abbrev pub no_info : H264AuInfo
no_info = record {
  nal_count = 0;
  has_sps = false;
  has_pps = false;
  has_idr = false;
  has_slice = false;
  slice_count = 0;
}

-- Each set behind its start code; the empty list while its length is 0.
pub record H264ParamCache : Type 0 where
  pub sps : List ℕ
  pub pps : List ℕ

abbrev pub param_max : ℕ
param_max = 256

-- The two loops of next_nal() that look for a start code, over the bytes from index `i` on.
pub code_loop : List ℕ → ℕ → Option ℕ
code_loop [] i = none
code_loop (a ∷ []) i = none
code_loop (a ∷ b ∷ []) i = none
code_loop (a ∷ b ∷ c ∷ rest) i =
    let next = code_loop (b ∷ c ∷ rest) (i + 1) in
    if a == 0 && (b == 0 && c == 1) then some i else next

-- The loop that takes the zeros off the end. (Its `end` is at most the length of the buffer, so that
-- the default is never read.)
pub trim_end : List ℕ → ℕ → ℕ → ℕ
trim_end au body zero = zero
trim_end au body (suc end) =
    let rest = trim_end au body end in
    if ltb body (suc end) && get_or au end 1 == 0 then rest else suc end

-- next_nal(): where the unit begins, and the cursor afterwards, where it ends.
pub next_unit : List ℕ → ℕ → Option (ℕ × ℕ)
next_unit au cursor = code_loop (drop cursor au) cursor >>= λ code.
    let body = code + 3 in
    let end : ℕ = elim (code_loop (drop body au) body) [ none ↦ length au | some j ↦ j ] in
    some (body, trim_end au body end)

-- The loop that h264_au_scan() and h264_param_cache_update() share, with the step of each for a unit
-- of some length. Each round goes on by a start code of three bytes; `none` is fuel that ran out.
pub each_unit {ℓ} : {S : Type ℓ} → (S → List ℕ → S) → ℕ → List ℕ → ℕ → S → Option S
each_unit f zero au cursor s = none
each_unit f (suc n) au cursor s = elim (next_unit au cursor) [
  | none ↦ some s
  | some (body, end) ↦
      each_unit f n au end (if end - body == 0 then s else f s (slice body (end - body) au))
]

abbrev pub unit_type : List ℕ → ℕ
unit_type nal = get_or nal 0 0 % 2 ^ 5

-- The body of the loop of h264_au_scan().
pub count_unit : H264AuInfo → List ℕ → H264AuInfo
count_unit info nal =
    let type = unit_type nal in
    let counted = record info { nal_count = info.nal_count + 1 } in
    if type == 7
    then record counted { has_sps = true }
    else if type == 8
    then record counted { has_pps = true }
    else if leb 1 type && leb type 5
    then record counted {
      has_slice = true;
      slice_count = info.slice_count + 1;
      has_idr = type == 5 || info.has_idr;
    }
    else counted

-- h264_au_scan()
pub au_scan : List ℕ → Option H264AuInfo
au_scan au = each_unit count_unit (suc (length au)) au 0 no_info

-- store(): the slot afterwards.
pub store_set : List ℕ → List ℕ → List ℕ
store_set slot nal = if ltb param_max (length nal + 4) then slot else 0 ∷ 0 ∷ 0 ∷ 1 ∷ nal

-- The body of the loop of h264_param_cache_update().
pub keep_unit : H264ParamCache → List ℕ → H264ParamCache
keep_unit cache nal =
    let type = unit_type nal in
    if type == 7
    then record cache { sps = store_set cache.sps nal }
    else if type == 8
    then record cache { pps = store_set cache.pps nal }
    else cache

-- h264_param_cache_update()
pub param_cache_update : H264ParamCache → List ℕ → Option H264ParamCache
param_cache_update cache au = each_unit keep_unit (suc (length au)) au 0 cache

-- h264_prepend_params(): the bytes at `out`, or `none` for the result 0.
pub prepend_params : H264ParamCache → List ℕ → ℕ → Option (List ℕ)
prepend_params cache au out_capacity =
    if length cache.sps == 0 || length cache.pps == 0
    then none
    else if ltb out_capacity (length cache.sps + length cache.pps + length au)
    then none
    else some (cache.sps ++ (cache.pps ++ au))
