-- ===== src/FramePool/Valid.antt =====
-- Every frame of the pool is either free or held, whatever calls are made.
use cam.Base.{
  ℕ, zero, suc, ◌+◌, ◌-◌, ◌*◌, ◌≤◌, ◌<◌, ◌≡◌, ◌≢◌, ◌⊎◌, refl, ap, sym, ◌∙◌, inl, inr, false, some,
  List, [], ◌∷◌, arith, tests, leb, ◌==◌, Bool-cases, if◌then◌else◌, length, length-set, get_or,
  set, get_or-set_self, get_or-set_ne,
}
use cam.FramePool.{Frame, FramePool, zeroed, frame_at, frame_ref, give_back, frame_unref}

abbrev held : Frame → ℕ
held f = if f.refcount == 0 then 0 else 1

-- How many frames have references.
abbrev pub held_frames : List Frame → ℕ
held_frames [] = 0
held_frames (f ∷ fs) = held f + held_frames fs

abbrev pub occurrences : ℕ → List ℕ → ℕ
occurrences i [] = 0
occurrences i (k ∷ ks) = (if k == i then 1 else 0) + occurrences i ks

-- A frame is on the free list once, and has no references, or it is not there, and knows its index.
abbrev pub IsPlaced : FramePool → ℕ → Type 0
IsPlaced p i =
    let f = frame_at p i in
    (f.place ≡ i * p.capacity)
    × (((f.refcount ≡ 0) × (occurrences i p.free_list ≡ 1))
        ⊎ ((0 < f.refcount) × (occurrences i p.free_list ≡ 0) × (f.pool_index ≡ some i)))

abbrev pub IsValid : FramePool → Type 0
IsValid p =
    (length p.frames ≡ p.count)
    × (length p.free_list + held_frames p.frames ≡ p.count)
    × ((i : ℕ) → p.count ≤ i → occurrences i p.free_list ≡ 0)
    × ((i : ℕ) → i < p.count → IsPlaced p i)

held_frames-set :
    (fs : List Frame) (i : ℕ) (f : Frame)
    → i < length fs
    → held_frames (set fs i f) + held (get_or fs i zeroed) ≡ held_frames fs + held f
held_frames-set [] i f h = absurd (omega arith)
held_frames-set (g ∷ fs) zero f h = omega arith
held_frames-set (g ∷ fs) (suc i) f h = omega (arith, held_frames-set fs i f (omega arith))

-- The frame that is given out, and the pool after it was taken off the head of the free list.
abbrev pub issued : FramePool → ℕ → Frame
issued p k = record zeroed { place = k * p.capacity; pool_index = some k; refcount = 1 }

abbrev pub taken : FramePool → ℕ → List ℕ → FramePool
taken p k ks = record p { free_list = ks; frames = set p.frames k (issued p k) }

module _ (p : FramePool) (v : IsValid p) where
  -- One frame changes, and the free list at most by that one.
  changed-IsValid :
      (k : ℕ) (f : Frame) (free : List ℕ)
      → k < p.count
      → f.place ≡ k * p.capacity
      → ((f.refcount ≡ 0) × (occurrences k free ≡ 1))
        ⊎ ((0 < f.refcount) × (occurrences k free ≡ 0) × (f.pool_index ≡ some k))
      → ((i : ℕ) → i ≢ k → occurrences i free ≡ occurrences i p.free_list)
      → length free + held f ≡ length p.free_list + held (frame_at p k)
      → IsValid (record p { frames = set p.frames k f; free_list = free })
  changed-IsValid k f free hk hp placed same sizes = (
    length-set p.frames k f ∙ v.0,
    omega (arith, v.1, held_frames-set p.frames k f (omega (arith, v.0))),
    λ i hi. same i (omega arith) ∙ v.2 i hi,
    at,
  )
    where
      in_range : k < length p.frames
      in_range = omega (arith, v.0)

      at :
          (i : ℕ)
          → i < p.count
          → IsPlaced (record p { frames = set p.frames k f; free_list = free }) i
      at i hi = elim (Bool-cases (i == k)) [
        | inl here ↦
            let e : i ≡ k = ground arith in
            rw (e, get_or-set_self p.frames k f zeroed in_range) (hp, placed)
        | inr other ↦
            let ne : k ≢ i = ground arith in
            rw (get_or-set_ne p.frames k i f zeroed ne, same i (λ z. ne (sym z))) (v.3 i hi)
      ]

  -- The head of the free list is a frame of the pool without references.
  pub head_free :
      (k : ℕ) (ks : List ℕ)
      → p.free_list ≡ k ∷ ks
      → (k < p.count) × ((frame_at p k).refcount ≡ 0) × (occurrences k ks ≡ 0)
  head_free k ks e =
      let there : occurrences k p.free_list ≡ 1 + occurrences k ks = rw e (ground arith) in
      elim (Bool-cases (leb p.count k)) [
        | inl outside ↦ absurd (omega (arith, there, v.2 k (omega tests)))
        | inr inside ↦ elim (v.3 k (omega tests)).1 [
          | inl (unused, once) ↦ (omega tests, unused, omega (arith, there, once))
          | inr (used, never, index) ↦ absurd (omega (arith, there, never))
        ]
      ]

  others : (k : ℕ) (ks : List ℕ) (i : ℕ) → i ≢ k → occurrences i (k ∷ ks) ≡ occurrences i ks
  others k ks i ne = ground arith

  pub taken-IsValid : (k : ℕ) (ks : List ℕ) → p.free_list ≡ k ∷ ks → IsValid (taken p k ks)
  taken-IsValid k ks e =
      let (inside, unused, gone) = head_free k ks e in
      changed-IsValid k _ ks inside refl (inr (omega arith, gone, refl))
        (λ i ne. sym (ap (occurrences i) e ∙ others k ks i ne)) (rw (e, unused) (omega arith))

  pub frame_ref-IsValid :
      (k : ℕ) → k < p.count → 0 < (frame_at p k).refcount → IsValid (frame_ref p k)
  unfolding frame_ref
  frame_ref-IsValid k hk used =
      let (place, status) = v.3 k hk in
      elim status [
        | inl (unused, once) ↦ absurd (omega arith)
        | inr (used', never, index) ↦
            changed-IsValid k _ p.free_list hk place (inr (omega arith, never, index))
              (λ i ne. refl) (ground arith)
      ]

  pub frame_unref-IsValid : (k : ℕ) → k < p.count → IsValid (frame_unref p k)
  unfolding frame_unref give_back
  frame_unref-IsValid k hk = elim (v.3 k hk).1 [
    | inl (unused, once) ↦ rw unused v
    | inr (used, never, index) ↦
        let some_refs : ((frame_at p k).refcount == 0) ≡ false = ground arith in
        elim (Bool-cases ((frame_at p k).refcount - 1 == 0)) [
          | inr more ↦
              rw (some_refs, more)
                (changed-IsValid k _ p.free_list hk (v.3 k hk).0 (inr (ground arith, never, index))
                  (λ i ne. refl) (ground arith))
          | inl last ↦
              let room : leb p.count (length p.free_list) ≡ false =
                ground (arith, held_frames-set p.frames k zeroed (omega (arith, v.0)), v.1) in
              rw (some_refs, last, index, room)
                (changed-IsValid k _ (k ∷ p.free_list) hk (v.3 k hk).0
                  (inl (ground arith, ground (arith, never))) (others k p.free_list) (ground arith))
        ]
  ]
