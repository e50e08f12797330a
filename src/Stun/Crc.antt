-- ===== src/Stun/Crc.antt =====
-- The table and the loop of crc32_stun() in src/webrtc/ice_lite.c.
use cam.Base.{ℕ, zero, suc, ◌/◌, ◌≡◌, refl, List, [], ◌∷◌, ◌==◌, if◌then◌else◌, bit_and, bit_xor}

-- The `n` rounds for one entry of the table.
table_rounds : ℕ → ℕ → ℕ
table_rounds zero crc = crc
table_rounds (suc n) crc =
    table_rounds n (if bit_and crc 1 == 1 then bit_xor (crc / 2) 0xEDB88320 else crc / 2)

-- g_crc32_table[i]
pub crc32_table : ℕ → ℕ
crc32_table i = table_rounds 8 i

pub crc32_loop : List ℕ → ℕ → ℕ
crc32_loop [] crc = crc
crc32_loop (b ∷ bs) crc =
    crc32_loop bs (bit_xor (crc32_table (bit_and (bit_xor crc b) 0xff)) (crc / 256))

pub crc32_stun : List ℕ → ℕ
crc32_stun message = bit_xor (crc32_loop message 0xFFFFFFFF) 0xFFFFFFFF

-- The check value that is published for this CRC.
check_value :
    crc32_stun (b'1' ∷ b'2' ∷ b'3' ∷ b'4' ∷ b'5' ∷ b'6' ∷ b'7' ∷ b'8' ∷ b'9' ∷ []) ≡ 0xCBF43926
unfolding crc32_stun crc32_loop crc32_table table_rounds
check_value = refl
