-- ===== src/Session/Bounds.antt =====
-- Which datagrams the session reads within their bounds.
use cam.Base.{ℕ, ◌≤◌, ◌≡◌, Option, none, some, List, [], ◌∷◌, inl, inr}
use cam.Stun.{find_attribute}
use cam.Stun.Walk.{find_attribute-FoundBelow}
use cam.Dtls.Transport.{Transport}

-- There is a result.
abbrev pub IsGiven {ℓ} : {A : Type ℓ} → Option A → Type ℓ
IsGiven {A = A} o = (a : A) × (o ≡ some a)

find_attribute-IsGiven : (buf : List ℕ) (wanted : ℕ) → IsGiven (find_attribute buf wanted)
find_attribute-IsGiven buf wanted = elim (find_attribute-FoundBelow buf wanted) [
  | inl absent ↦ (none, absent)
  | inr (at, n, found, low, high) ↦ (some (at, n), found)
]

-- A datagram of one byte that is classified as RTP.
abbrev pub IsLoneRtp : List ℕ → Type 0
IsLoneRtp buf = (b : ℕ) × (buf ≡ b ∷ []) × (128 ≤ b)
