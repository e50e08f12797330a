-- ===== src/AuRing/Spec.antt =====
-- What the ring promises: a queue of at most `slots` access units, oldest first, that drops its
-- oldest entry to make room, and that counts and flags what it drops.
use cam.Base.{
  ℕ, ◌+◌, ◌%◌, ◌^◌, Bool, true, false, ◌||◌, Option, none, some, List, [], ◌∷◌, ◌++◌, ltb, ◌==◌,
  if◌then◌else◌, length, drop,
}
use cam.AuRing.{AuMeta, Status, ok, failed}

-- An access unit: what was recorded of it, and its bytes.
abbrev pub AccessUnit : Type 0
AccessUnit = AuMeta × List ℕ

pub record Queue : Type 0 where
  pub items : List AccessUnit
  pub lost : Bool
  pub sequence : ℕ
  pub dropped : ℕ

-- To make room in a full queue, its oldest entry is dropped.
unfoldable pub make_room : ℕ → Queue → Queue
make_room slots q =
    if length q.items == slots
    then record q { items = drop 1 q.items; lost = true; dropped = (q.dropped + 1) % 2 ^ 64 }
    else q

unfoldable pub append : Queue → List ℕ → ℕ → ℕ → Queue
append q bytes pts_us is_idr = record q {
  items =
      q.items
      ++ (
        record {
          pts_us = pts_us;
          sequence = q.sequence;
          is_idr = is_idr;
          discontinuity = q.lost;
          size = length bytes;
        },
        bytes,
      )
        ∷ [];
  lost = false;
  sequence = (q.sequence + 1) % 2 ^ 64;
}

unfoldable pub push : ℕ → ℕ → Queue → Option (List ℕ) → ℕ → ℕ → Status × Queue
push width slots q none pts_us is_idr = (failed, q)
push width slots q (some bytes) pts_us is_idr =
    if length bytes == 0
    then (failed, q)
    else if ltb width (length bytes)
    then (failed, record q { lost = true; dropped = (q.dropped + 1) % 2 ^ 64 })
    else (ok, append (make_room slots q) bytes pts_us is_idr)

-- The first entry that fits into the reader's buffer; those before it are dropped, and `gap` says
-- that there was one.
unfoldable pub pop_items : List AccessUnit → ℕ → Bool → Queue → Option AccessUnit × Queue
pop_items [] limit gap q = (none, record q { items = []; lost = if gap then true else q.lost })
pop_items ((m, bytes) ∷ rest) limit gap q =
    let q' = record q { items = rest; dropped = (q.dropped + 1) % 2 ^ 64 } in
    let later = pop_items rest limit true q' in
    if ltb limit m.size then later else (
      some (record m { discontinuity = m.discontinuity || gap }, bytes),
      record q { items = rest },
    )

unfoldable pub pop : Queue → ℕ → Option AccessUnit × Queue
pop q limit = pop_items q.items limit false q

-- What the two threads ask of a ring.
pub data Call : Type 0 where
  offer : Option (List ℕ) → ℕ → ℕ → Call
  take_next : ℕ → Call

abbrev pub delivered : Option AccessUnit → List AccessUnit
delivered none = []
delivered (some a) = a ∷ []

-- The calls in order, with what the reader got.
unfoldable pub run : ℕ → ℕ → Queue → List Call → List AccessUnit × Queue
run width slots q [] = ([], q)
run width slots q (offer bytes pts_us is_idr ∷ cs) =
    run width slots (push width slots q bytes pts_us is_idr).1 cs
run width slots q (take_next limit ∷ cs) =
    let (out, q') = pop q limit in
    let (outs, q'') = run width slots q' cs in (delivered out ++ outs, q'')
