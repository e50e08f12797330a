-- ===== src/Rtp/Delivery.antt =====
-- A receiver gets the units of an access unit from the packets of rtp_h264_packetize().
use cam.Base.{ℕ, ◌≡◌, ◌≢◌, Bool, true, List, [], ◌∷◌}
use cam.Rtp.{Sent}
use cam.Rtp.Scan.{IsUnit}
use cam.Rtp.Fragments.{receive, payloads, MarksLast, IsHeader}

-- A unit with the header of a unit, in the form that an encoder gives it.
abbrev pub AreNals : List (Bool × List ℕ) → Type 0
AreNals [] = Unit
AreNals ((long, []) ∷ nals) = ⊥
AreNals ((long, x ∷ xs) ∷ nals) = (IsUnit (x ∷ xs) × IsHeader x) × AreNals nals

abbrev pub units : List (Bool × List ℕ) → List (List ℕ)
units [] = []
units ((long, nal) ∷ nals) = nal ∷ units nals

-- Packets are there if units are.
abbrev HasPackets : List (Bool × List ℕ) → List Sent → Type 0
HasPackets [] ss = ss ≡ []
HasPackets (n ∷ nals) ss = ss ≢ []

-- What the loop makes of the units from the cursor on.
abbrev Delivers : List (Bool × List ℕ) → List Sent → Type 0
Delivers nals ss = (receive [] (payloads ss) ≡ units nals) × MarksLast true ss × HasPackets nals ss
