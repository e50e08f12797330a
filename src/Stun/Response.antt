-- ===== src/Stun/Response.antt =====
-- The binding response carries a MESSAGE-INTEGRITY that its receiver can verify.
use cam.Base.{ℕ, List, [], ◌∷◌, ◌++◌, bit_xor}
use cam.Base.Bytes.{be16, be32}
use cam.Stun.{mapped_address}
use cam.Stun.Attributes.{Attribute}

-- A header of 20 bytes with the length `n`.
abbrev header : ℕ → List ℕ → List ℕ
header n tail = 0x01 ∷ 0x01 ∷ (be16 n ++ tail)

abbrev mapped : ℕ → ℕ → List ℕ
mapped port address = 0 ∷ 0x01 ∷ (be16 (bit_xor port 0x2112) ++ be32 (bit_xor address 0x2112A442))

abbrev attributes : ℕ → ℕ → List ℕ → ℕ → List Attribute
attributes port address mac crc =
    record { kind = 0x0020; value = mapped port address; padding = [] }
    ∷ record { kind = 0x0008; value = mac; padding = [] }
    ∷ record { kind = 0x8028; value = be32 crc; padding = [] }
    ∷ []

-- The bytes of such a message, with the MAC after the first 36.
message : ℕ → ℕ → List ℕ → List ℕ → ℕ → List ℕ
message port address tail mac crc =
    header 44 tail
    ++ (mapped_address port address
        ++ ((be16 0x0008 ++ (be16 20 ++ mac)) ++ (be16 0x8028 ++ (be16 4 ++ be32 crc))))
