-- ===== src/H264/Tests.antt =====
-- Runs of the bitstream functions on a small access unit.
use cam.Base.{◌≡◌, refl, true, some, List, ℕ, [], ◌∷◌, arith}
use cam.H264.{
  H264AuInfo, H264ParamCache, code_loop, trim_end, next_unit, each_unit, count_unit, au_scan,
  store_set, keep_unit, param_cache_update, prepend_params,
}
use cam.H264.Safe.{IsBounded, units_of, Describes, param_cache_update-IsBounded, au_scan-Describes}

-- A sequence and a picture parameter set, and an IDR slice.
abbrev key_unit : List ℕ
key_unit = 0 ∷ 0 ∷ 0 ∷ 1 ∷ 0x67 ∷ 0x42 ∷ 0 ∷ 0 ∷ 0 ∷ 1 ∷ 0x68 ∷ 0xCE ∷ 0 ∷ 0 ∷ 1 ∷ 0x65 ∷ 0x88 ∷ []

scanned :
    au_scan key_unit
    ≡ some (record {
      nal_count = 3;
      has_sps = true;
      has_pps = true;
      has_idr = true;
      has_slice = true;
      slice_count = 1;
    })
unfolding au_scan each_unit next_unit code_loop trim_end count_unit
scanned = refl

abbrev kept : H264ParamCache
kept = record { sps = 0 ∷ 0 ∷ 0 ∷ 1 ∷ 0x67 ∷ 0x42 ∷ []; pps = 0 ∷ 0 ∷ 0 ∷ 1 ∷ 0x68 ∷ 0xCE ∷ [] }

cached : param_cache_update (record { sps = []; pps = [] }) key_unit ≡ some kept
unfolding param_cache_update each_unit next_unit code_loop trim_end keep_unit store_set
cached = refl

prepended :
    prepend_params kept (0 ∷ 0 ∷ 1 ∷ 0x65 ∷ []) 16
    ≡ some (0 ∷ 0 ∷ 0 ∷ 1 ∷ 0x67 ∷ 0x42 ∷ 0 ∷ 0 ∷ 0 ∷ 1 ∷ 0x68 ∷ 0xCE ∷ 0 ∷ 0 ∷ 1 ∷ 0x65 ∷ [])
unfolding prepend_params
prepended = refl

param_cache_update-IsBounded_example :
    (cache : H264ParamCache) × (param_cache_update kept key_unit ≡ some cache) × IsBounded cache
param_cache_update-IsBounded_example = param_cache_update-IsBounded kept key_unit (omega arith)

au_scan-Describes_example :
    (info : H264AuInfo) × (nals : List (List ℕ)) × (au_scan key_unit ≡ some info)
    × (units_of key_unit ≡ some nals)
    × Describes info nals
au_scan-Describes_example = au_scan-Describes key_unit
