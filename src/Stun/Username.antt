-- ===== src/Stun/Username.antt =====
-- The USERNAME of a connectivity check: which texts stun_username_matches() accepts.
use cam.Base.{
  ℕ, zero, suc, ◌+◌, ◌≡◌, ◌≢◌, ◌↔◌, ◌⊎◌, refl, ap, ap₂, sym, ◌∙◌, inl, inr, Bool, true, false, some,
  List, [], ◌∷◌, ◌++◌, arith, ltb, ◌==◌, Bool-cases, Option-cases, length, length-append, get_elem?,
  get_elem?-append, get_elem?-in_range, ◌&&◌, tests, take-length, take, drop, take-append-drop,
  take-of-length-append, All,
}
use cam.Base.Bytes.{bytes_at, bytes_at-in_range}
use cam.Stun.{same_bytes, after_colon, is_first, is_second, username_test}

pub eq_of_same_bytes : (a b : List ℕ) → same_bytes a b ≡ true → a ≡ b
unfolding same_bytes
eq_of_same_bytes [] [] h = refl
eq_of_same_bytes [] (y ∷ b) h = absurd (ground arith)
eq_of_same_bytes (x ∷ a) [] h = absurd (ground arith)
eq_of_same_bytes (x ∷ a) (y ∷ b) h = ground (arith, eq_of_same_bytes a b)

pub same_bytes_refl : (a : List ℕ) → same_bytes a a ≡ true
unfolding same_bytes
same_bytes_refl [] = refl
same_bytes_refl (x ∷ a) = ground (arith, same_bytes_refl a)

abbrev pub NoColon : List ℕ → Type 0
NoColon = All (λ c. c ≢ b':')

-- A text that begins with the fragment and a colon, or ends with the fragment behind its first colon.
abbrev pub NamesFragment : List ℕ → List ℕ → Type 0
NamesFragment ufrag username =
    ((rest : List ℕ) × (username ≡ ufrag ++ b':' ∷ rest))
    ⊎ ((first : List ℕ) × NoColon first × (username ≡ first ++ b':' ∷ ufrag))

drop_of_get_elem? :
    (xs : List ℕ) (n c : ℕ) → get_elem? xs n ≡ some c → drop n xs ≡ c ∷ drop (suc n) xs
drop_of_get_elem? [] n c h = absurd (ground arith)
drop_of_get_elem? (x ∷ xs) zero c h = ground arith
drop_of_get_elem? (x ∷ xs) (suc n) c h = drop_of_get_elem? xs n c h

after_colon_splits :
    (xs s : List ℕ)
    → after_colon xs ≡ some s
    → (first : List ℕ) × NoColon first × (xs ≡ first ++ b':' ∷ s)
unfolding after_colon
after_colon_splits [] s h = absurd (ground arith)
after_colon_splits (x ∷ xs) s h = elim (Bool-cases (x == b':')) [
  | inl colon ↦ ([], tt, ground arith)
  | inr other ↦
      let (first, none_in, e) = after_colon_splits xs s (ground arith) in
      (x ∷ first, (ground arith, none_in), ap (◌∷◌ x) e)
]

after_colon_finds : (first s : List ℕ) → NoColon first → after_colon (first ++ b':' ∷ s) ≡ some s
unfolding after_colon
after_colon_finds [] s h = refl
after_colon_finds (x ∷ first) s h = ground (arith, after_colon_finds first s h.1, h.0)

begins_test :
    (username ufrag rest : List ℕ)
    → username ≡ ufrag ++ b':' ∷ rest
    → username_test username ufrag ≡ some true
unfolding username_test is_first
begins_test username ufrag rest e =
    rw (e, longer, colon, front) (ground (arith, same_bytes_refl ufrag))
  where
    longer : ltb (length ufrag) (length (ufrag ++ b':' ∷ rest)) ≡ true
    longer = ground (arith, length-append ufrag (b':' ∷ rest))

    colon : get_elem? (ufrag ++ b':' ∷ rest) (length ufrag) ≡ some b':'
    colon =
        ap (get_elem? (ufrag ++ b':' ∷ rest)) {y = length ufrag + 0} (omega arith)
        ∙ get_elem?-append ufrag (b':' ∷ rest) 0

    front : bytes_at 0 (length ufrag) (ufrag ++ b':' ∷ rest) ≡ some ufrag
    front =
        bytes_at-in_range 0 (length ufrag) (ufrag ++ b':' ∷ rest)
          (omega (arith, length-append ufrag (b':' ∷ rest)))
        ∙ ap some (take-of-length-append ufrag (b':' ∷ rest))

take_whole : (xs ys : List ℕ) → length ys ≡ length xs → take (length xs) ys ≡ ys
take_whole xs ys e = rw (← e) (take-length ys)

-- The first test has an answer, and what it says.
is_first-cases :
    (username ufrag : List ℕ)
    → (is_first username ufrag ≡ some false)
      ⊎ ((is_first username ufrag ≡ some true)
          × (get_elem? username (length ufrag) ≡ some b':')
          × (take (length ufrag) username ≡ ufrag))
unfolding is_first
is_first-cases username ufrag = elim (Bool-cases (ltb (length ufrag) (length username))) [
  | inr short ↦ inl (rw short refl)
  | inl long ↦
      let (c, ec) = get_elem?-in_range username (length ufrag) (omega tests) in
      let front = bytes_at-in_range 0 (length ufrag) username (omega tests) in
      elim (Bool-cases (c == b':' && same_bytes (take (length ufrag) username) ufrag)) [
        | inr other ↦ inl (rw (long, ec, front, other) refl)
        | inl same ↦ inr (
          rw (long, ec, front, same) refl,
          ec ∙ ap some (ground (arith, same)),
          eq_of_same_bytes (take (length ufrag) username) ufrag (ground (arith, same)),
        )
      ]
]

-- So has the second.
is_second-cases :
    (username ufrag : List ℕ)
    → (is_second username ufrag ≡ some false)
      ⊎ ((is_second username ufrag ≡ some true) × (after_colon username ≡ some ufrag))
unfolding is_second
is_second-cases username ufrag = elim (Option-cases (after_colon username)) [
  | inl absent ↦ inl (rw (is_second, absent) refl)
  | inr (second, e) ↦ elim (Bool-cases (length second == length ufrag)) [
    | inr other ↦ inl (rw (is_second, e, other) refl)
    | inl size ↦
        let all : bytes_at 0 (length ufrag) second ≡ some second =
          bytes_at-in_range 0 (length ufrag) second (ground (arith, size))
          ∙ ap some (take_whole ufrag second (ground (arith, size))) in
        elim (Bool-cases (same_bytes second ufrag)) [
          | inr other ↦ inl (rw (is_second, e, size, all, other) refl)
          | inl same ↦ inr (
            rw (is_second, e, size, all, same) refl,
            e ∙ ap some (eq_of_same_bytes second ufrag same),
          )
        ]
  ]
]

-- The tests on a value have an answer.
pub username_test-answers :
    (username ufrag : List ℕ) → (b : Bool) × (username_test username ufrag ≡ some b)
unfolding username_test
username_test-answers username ufrag = elim (is_first-cases username ufrag) [
  | inr (first, colon, same) ↦ (true, rw first refl)
  | inl refused ↦ elim (is_second-cases username ufrag) [
    | inl never ↦ (false, rw (refused, never) refl)
    | inr (second, parts) ↦ (true, rw (refused, second) refl)
  ]
]

is_second_test :
    (username ufrag : List ℕ)
    → after_colon username ≡ some ufrag
    → is_second username ufrag ≡ some true
unfolding is_second
is_second_test username ufrag e =
    let all : bytes_at 0 (length ufrag) ufrag ≡ some ufrag =
      bytes_at-in_range 0 (length ufrag) ufrag (omega arith) ∙ ap some (take-length ufrag) in
    let size : (length ufrag == length ufrag) ≡ true = ground arith in
    rw (is_second, e, size, all, same_bytes_refl ufrag) refl

-- The test accepts exactly the texts that begin with our fragment and a colon, and those that have
-- nothing but our fragment behind their first colon.
pub username_test_iff :
    (username ufrag : List ℕ)
    → (username_test username ufrag ≡ some true) ↔ NamesFragment ufrag username
unfolding username_test
username_test_iff username ufrag = (sound, complete)
  where
    split :
        get_elem? username (length ufrag) ≡ some b':'
        → take (length ufrag) username ≡ ufrag
        → username ≡ ufrag ++ b':' ∷ drop (suc (length ufrag)) username
    split g t =
        sym (take-append-drop (length ufrag) username)
        ∙ ap₂ ◌++◌ t (drop_of_get_elem? username (length ufrag) b':' g)

    sound : username_test username ufrag ≡ some true → NamesFragment ufrag username
    sound h = elim (is_first-cases username ufrag) [
      | inr (first, g, t) ↦ inl (drop (suc (length ufrag)) username, split g t)
      | inl refused ↦ elim (is_second-cases username ufrag) [
        | inl never ↦ absurd (ground (arith, rw (refused, never) at h))
        | inr (second, e) ↦ inr (after_colon_splits username ufrag e)
      ]
    ]

    complete : NamesFragment ufrag username → username_test username ufrag ≡ some true
    complete (inl (rest, e)) = begins_test username ufrag rest e
    complete (inr (first, none_in, e)) =
        let second =
          is_second_test username ufrag
            (ap after_colon e ∙ after_colon_finds first ufrag none_in) in
        elim (is_first-cases username ufrag) [
          | inr (yes_, colon, same) ↦ rw yes_ refl
          | inl refused ↦ rw (refused, second) refl
        ]
