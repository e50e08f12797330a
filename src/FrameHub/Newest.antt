-- ===== src/FrameHub/Newest.antt =====
-- frame_hub_publish() puts the new frame in front of every consumer, and the references of the pool
-- stay in step with the mailboxes.
use cam.Base.{
  ℕ, ◌+◌, ◌<◌, ◌≡◌, Option, none, some, List, [], ◌∷◌, ◌==◌, length, All, if◌then◌else◌, set,
  get_or,
}
use cam.FramePool.{FramePool, Frame, zeroed, frame_at, frame_ref, frame_unref}
use cam.FramePool.Valid.{taken}
use cam.FrameHub.{FrameHub, FrameHubConsumer, Picture, fill}

-- 1 for the frame itself.
abbrev pub one_of : ℕ → ℕ → ℕ
one_of k j = if k == j then 1 else 0

-- The references to a frame, and the mailboxes that hold it.
abbrev pub references : FramePool → ℕ → ℕ
references p j = (frame_at p j).refcount

abbrev pub in_slot : ℕ → Option ℕ → ℕ
in_slot j none = 0
in_slot j (some k) = one_of k j

abbrev pub mailboxes : ℕ → List FrameHubConsumer → ℕ
mailboxes j [] = 0
mailboxes j (c ∷ cs) = in_slot j c.slot + mailboxes j cs

abbrev pub InRange : FramePool → List FrameHubConsumer → Type 0
InRange p = All (λ c. (k : ℕ) → c.slot ≡ some k → k < length p.frames)

-- A pool in which the frame has `n` references, and the others as many as before.
abbrev Recounted : List Frame → ℕ → ℕ → List Frame → Type 0
Recounted fs k n gs =
    (length gs ≡ length fs)
    × ((j : ℕ)
        → (get_or gs j zeroed).refcount ≡ (if k == j then n else (get_or fs j zeroed).refcount))

-- The references that are not those of the mailboxes stay as they were.
abbrev pub InStep : FramePool → List FrameHubConsumer → FramePool → List FrameHubConsumer → Type 0
InStep p cs q ds = (j : ℕ) → references q j + mailboxes j cs ≡ references p j + mailboxes j ds

-- The frame goes into the mailboxes of the active consumers, and into no other.
abbrev pub Delivered : ℕ → List FrameHubConsumer → List FrameHubConsumer → Type 0
Delivered k [] [] = Unit
Delivered k [] (d ∷ ds) = ⊥
Delivered k (c ∷ cs) [] = ⊥
Delivered k (c ∷ cs) (d ∷ ds) =
    ((d.id ≡ c.id) × (d.active ≡ c.active) × (d.slot ≡ (if c.active then some k else c.slot)))
    × Delivered k cs ds

-- What one active consumer does to the pool.
abbrev served : FramePool → ℕ → Option ℕ → FramePool
served p k slot = elim slot [ none ↦ frame_ref p k | some old ↦ frame_unref (frame_ref p k) old ]

-- The pool when the frame is filled.
filled : FramePool → ℕ → List ℕ → Picture → FramePool
filled p k ks picture =
    let q = taken p k ks in record q { frames = set q.frames k (fill (frame_at q k) picture) }
