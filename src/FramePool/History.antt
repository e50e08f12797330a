-- ===== src/FramePool/History.antt =====
-- The frame pool from frame_pool_create() on, under any calls of its users.
use cam.Base.{
  ℕ, zero, suc, ◌*◌, ◌<◌, ◌≡◌, ◌≢◌, refl, ap, sym, subst, ◌∙◌, inl, inr, Bool, none, some, List, [],
  ◌∷◌, ◌++◌, arith, ltb, ◌==◌, Bool-cases, if◌then◌else◌, length, length-append, get_or,
  get_or-set_self, get_or-set_ne,
}
use mathlib.Core.Option.{some-injective}
use cam.FramePool.{
  Frame, FramePool, zeroed, frame_at, initial_frames, initial_free, create, acquire, frame_ref,
  frame_unref,
}
use cam.FramePool.Valid.{
  IsValid, IsPlaced, occurrences, held_frames, issued, taken, taken-IsValid, head_free,
  frame_ref-IsValid, frame_unref-IsValid,
}

-- One call: of acquire, of frame_ref() for a frame that has a reference, or of frame_unref() for any
-- frame of the pool, one too many included.
pub data Call (p : FramePool) : FramePool → Type 0 where
  acquires : {q : FramePool} (k : ℕ) → acquire p ≡ some (k, q) → Call p q
  refers : (k : ℕ) → k < p.count → 0 < (frame_at p k).refcount → Call p (frame_ref p k)
  releases : (k : ℕ) → k < p.count → Call p (frame_unref p k)

pub data Reach (p : FramePool) : FramePool → Type 0 where
  here : Reach p p
  next : {q r : FramePool} → Reach p q → Call q r → Reach p r

-- A result of the function comes off the free list.
pub acquire-taken :
    (p q : FramePool) (k : ℕ)
    → acquire p ≡ some (k, q)
    → (ks : List ℕ) × (p.free_list ≡ k ∷ ks) × (q ≡ taken p k ks)
unfolding acquire
acquire-taken p q k e = go p.free_list refl
  where
    go :
        (free : List ℕ)
        → p.free_list ≡ free
        → (ks : List ℕ) × (p.free_list ≡ k ∷ ks) × (q ≡ taken p k ks)
    go [] ef = absurd (nothing (rw (acquire, ef) at e))
      where
        nothing : {r : ℕ × FramePool} → none ≡ some r → ⊥
        nothing h = ground arith
    go (j ∷ ks) ef =
        let same : (j, taken p j ks) ≡ (k, q) = some-injective _ _ (rw (acquire, ef) at e) in
        let ej : j ≡ k = ap (λ r. r.0) same in
        (ks, ef ∙ ap (λ i. i ∷ ks) ej, sym (ap (λ r. r.1) same) ∙ ap (λ i. taken p i ks) ej)

Call-IsValid : (p q : FramePool) → Call p q → IsValid p → IsValid q
Call-IsValid p q (acquires k e) v =
    let (ks, ef, eq) = acquire-taken p q k e in rw eq (taken-IsValid p v k ks ef)
Call-IsValid p q (refers k hk used) v = frame_ref-IsValid p v k hk used
Call-IsValid p q (releases k hk) v = frame_unref-IsValid p v k hk

pub Reach-IsValid : (p q : FramePool) → Reach p q → IsValid p → IsValid q
Reach-IsValid p q here v = v
Reach-IsValid p q (next {q = r} before call) v = Call-IsValid r q call (Reach-IsValid p r before v)

length-initial_frames : (capacity n : ℕ) → length (initial_frames capacity n) ≡ n
unfolding initial_frames
length-initial_frames capacity zero = refl
length-initial_frames capacity (suc n) = omega (
  arith,
  length-append (initial_frames capacity n)
      (record zeroed { place = n * capacity; pool_index = some n } ∷ []),
  length-initial_frames capacity n,
)

length-initial_free : (n : ℕ) → length (initial_free n) ≡ n
unfolding initial_free
length-initial_free zero = refl
length-initial_free (suc n) = omega (arith, length-initial_free n)

get_or-append_below :
    (xs ys : List Frame) (i : ℕ) → i < length xs → get_or (xs ++ ys) i zeroed ≡ get_or xs i zeroed
get_or-append_below [] ys i h = absurd (omega arith)
get_or-append_below (x ∷ xs) ys zero h = refl
get_or-append_below (x ∷ xs) ys (suc i) h = get_or-append_below xs ys i (omega arith)

get_or-append_at :
    (xs : List Frame) (y : Frame) (i : ℕ) → i ≡ length xs → get_or (xs ++ y ∷ []) i zeroed ≡ y
get_or-append_at [] y zero h = refl
get_or-append_at [] y (suc i) h = absurd (omega arith)
get_or-append_at (x ∷ xs) y zero h = absurd (omega arith)
get_or-append_at (x ∷ xs) y (suc i) h = get_or-append_at xs y i (omega arith)

get_or-initial_frames :
    (capacity n i : ℕ)
    → i < n
    → get_or (initial_frames capacity n) i zeroed
      ≡ record zeroed { place = i * capacity; pool_index = some i }
unfolding initial_frames
get_or-initial_frames capacity zero i h = absurd (omega arith)
get_or-initial_frames capacity (suc n) i h = elim (Bool-cases (i == n)) [
  | inl last ↦
      let e : i ≡ n = ground arith in
      rw e
        (get_or-append_at (initial_frames capacity n) _ n (sym (length-initial_frames capacity n)))
  | inr before ↦
      let lt : i < n = ground arith in
      get_or-append_below (initial_frames capacity n) _ i
        (omega (arith, length-initial_frames capacity n))
      ∙ get_or-initial_frames capacity n i lt
]

occurrences-initial_free : (n i : ℕ) → occurrences i (initial_free n) ≡ (if ltb i n then 1 else 0)
unfolding initial_free
occurrences-initial_free zero i = ground arith
occurrences-initial_free (suc n) i = ground (arith, occurrences-initial_free n i)

held_frames-append_free :
    (fs : List Frame) (f : Frame) → f.refcount ≡ 0 → held_frames (fs ++ f ∷ []) ≡ held_frames fs
held_frames-append_free [] f h = ground arith
held_frames-append_free (g ∷ fs) f h = omega (arith, held_frames-append_free fs f h)

held_frames-initial : (capacity n : ℕ) → held_frames (initial_frames capacity n) ≡ 0
unfolding initial_frames
held_frames-initial capacity zero = refl
held_frames-initial capacity (suc n) =
    held_frames-append_free (initial_frames capacity n) _ refl ∙ held_frames-initial capacity n

pub create-IsValid :
    (allocated : Bool) (capacity n : ℕ) (p : FramePool)
    → create allocated capacity n ≡ some p
    → IsValid p
unfolding create
create-IsValid allocated capacity n p e = elim (Bool-cases (capacity == 0)) [
  | inl none_asked ↦ absurd (nothing (rw (create, none_asked) at e))
  | inr some_bytes ↦ elim (Bool-cases (n == 0)) [
    | inl none_asked ↦ absurd (nothing (rw (create, some_bytes, none_asked) at e))
    | inr some_frames ↦ elim (Bool-cases allocated) [
      | inr failed ↦ absurd (nothing (rw (create, some_bytes, some_frames, failed) at e))
      | inl done ↦
          subst IsValid (some-injective _ _ (rw (create, some_bytes, some_frames, done) at e))
            initial
    ]
  ]
]
  where
    nothing : {r : FramePool} → none ≡ some r → ⊥
    nothing h = ground arith

    pool : FramePool
    pool = record {
      frames = initial_frames capacity n;
      capacity = capacity;
      count = n;
      free_list = initial_free n;
    }

    placed : (i : ℕ) → i < n → IsPlaced pool i
    placed i h =
        rw (get_or-initial_frames capacity n i h)
          (refl, inl (refl, occurrences-initial_free n i ∙ ground arith))

    initial : IsValid pool
    initial = (
      length-initial_frames capacity n,
      omega (arith, length-initial_free n, held_frames-initial capacity n),
      λ i h. occurrences-initial_free n i ∙ ground arith,
      placed,
    )

module _ (allocated : Bool) (capacity n : ℕ) (p : FramePool)
    (created : create allocated capacity n ≡ some p) where
  -- Whatever calls came before, with frame_ref() for frames that have a reference only, a frame that
  -- frame_pool_acquire() gives out had no reference left, has one now, and has its own place in the
  -- buffer. No other frame is touched.
  pub acquire_unheld :
      (q r : FramePool) (k : ℕ)
      → Reach p q
      → acquire q ≡ some (k, r)
      → (k < q.count)
        × ((frame_at q k).refcount ≡ 0)
        × ((frame_at r k).refcount ≡ 1)
        × ((frame_at r k).place ≡ k * q.capacity)
        × ((i : ℕ) → k ≢ i → frame_at r i ≡ frame_at q i)
  acquire_unheld q r k reach e =
      let v = Reach-IsValid p q reach (create-IsValid allocated capacity n p created) in
      let (ks, ef, er) = acquire-taken q r k e in
      let (inside, unused, gone) = head_free q v k ks ef in
      let at_k = get_or-set_self q.frames k (issued q k) zeroed (omega (arith, v.0)) in
      (
        inside,
        unused,
        rw (er, at_k) refl,
        rw (er, at_k) refl,
        λ i ne. rw er (get_or-set_ne q.frames k i (issued q k) zeroed ne),
      )

  -- Whatever calls came before, with frame_ref() for frames that have a reference only,
  -- frame_pool_acquire() fails only when every frame is held.
  pub acquire-none :
      (q : FramePool) (i : ℕ)
      → Reach p q
      → acquire q ≡ none
      → i < q.count
      → 0 < (frame_at q i).refcount
  unfolding acquire
  acquire-none q i reach e hi =
      let v = Reach-IsValid p q reach (create-IsValid allocated capacity n p created) in
      elim (v.3 i hi).1 [
        | inl (unused, once) ↦ absurd (listed q.free_list refl once)
        | inr (used, never, index) ↦ used
      ]
    where
      listed : (free : List ℕ) → q.free_list ≡ free → occurrences i q.free_list ≡ 1 → ⊥
      listed [] ef once = absurd (no_one (rw ef at once))
        where
          no_one : ◌≡◌ {A = ℕ} 0 1 → ⊥
          no_one h = omega arith
      listed (j ∷ ks) ef once = something (rw (acquire, ef) at e)
        where
          something : {r : ℕ × FramePool} → some r ≡ none → ⊥
          something h = ground arith
