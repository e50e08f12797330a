-- ===== src/Mdns/Fits.antt =====
-- What a responder builds fits its buffer, and the header counts its records.
use cam.Base.{
  ℕ, zero, suc, ◌+◌, ◌%◌, ◌^◌, ◌≤◌, ◌≡◌, refl, ap, subst, Bool, true, false, ◌||◌, Option, none,
  some, List, [], ◌∷◌, ◌++◌, arith, ltb, ◌==◌, if◌then◌else◌, ◌>>=◌, Bool-cases, Option-cases,
  Yields, inl, inr, length, length-append,
}
use mathlib.Core.Option.{some-injective}
use cam.Base.Bytes.{be16, be32, read_be16}
use cam.Mdns.{before_dot, after_dot, end_name, write_loop, write_name}
use cam.Mdns.Records.{
  Responder, Records, http_type, services_type, type_a, type_ptr, type_srv, type_txt, class_in,
  class_flush, host_name, instance_name, append_record, and_then, one, has_group, address_records,
  a_group, ptr_group, srv_group, types_group, build_record_set, build_response,
}

-- The bytes end within the buffer.
EndsIn : ℕ → ℕ → Option (List ℕ) → Type 0
EndsIn capacity offset = Yields (λ bytes. offset + length bytes ≤ capacity)

end_name-EndsIn : (capacity offset : ℕ) → EndsIn capacity offset (end_name capacity offset)
unfolding end_name EndsIn
end_name-EndsIn capacity offset = elim (Bool-cases (ltb capacity (offset + 1))) [
  | inl full ↦ rw full tt
  | inr room ↦ rw room (ground (arith, room))
]

write_loop-EndsIn :
    (n capacity offset : ℕ) (text : List ℕ)
    → EndsIn capacity offset (write_loop n capacity offset text)
unfolding write_loop EndsIn
write_loop-EndsIn zero capacity offset text = tt
write_loop-EndsIn (suc n) capacity offset [] = end_name-EndsIn capacity offset
write_loop-EndsIn (suc n) capacity offset (c ∷ cs) =
    label (before_dot (c ∷ cs)) (after_dot (c ∷ cs)) (λ k t. write_loop-EndsIn n capacity k t)
  where
    label :
        (l : List ℕ) (next : Option (List ℕ))
        → ((k : ℕ) (t : List ℕ) → EndsIn capacity k (write_loop n capacity k t))
        → EndsIn capacity offset (
            if length l == 0 || ltb 63 (length l)
            then none
            else if ltb capacity (offset + 1 + length l + 1)
            then none
            else (elim next [
              | none ↦ end_name capacity (offset + 1 + length l)
              | some text ↦ write_loop n capacity (offset + 1 + length l) text
            ])
              >>= λ bytes. some (length l ∷ (l ++ bytes)))
    label l next again = elim (Bool-cases (length l == 0 || ltb 63 (length l))) [
      | inl bad ↦ rw bad tt
      | inr good ↦ elim (Bool-cases (ltb capacity (offset + 1 + length l + 1))) [
        | inl full ↦ rw (good, full) tt
        | inr room ↦ rw (good, room) (behind next)
      ]
    ]
      where
        grown :
            (o : Option (List ℕ))
            → EndsIn capacity (offset + 1 + length l) o
            → EndsIn capacity offset (o >>= λ bytes. some (length l ∷ (l ++ bytes)))
        grown none h = tt
        grown (some bytes) h = omega (arith, h, length-append l bytes)

        behind :
            (o : Option (List ℕ))
            → EndsIn capacity offset (
                (elim o [
                  | none ↦ end_name capacity (offset + 1 + length l)
                  | some text ↦ write_loop n capacity (offset + 1 + length l) text
                ])
                >>= λ bytes. some (length l ∷ (l ++ bytes)))
        behind none =
            grown (end_name capacity (offset + 1 + length l))
              (end_name-EndsIn capacity (offset + 1 + length l))
        behind (some text) =
            grown (write_loop n capacity (offset + 1 + length l) text)
              (again (offset + 1 + length l) text)

-- Records that end within the buffer, and how many there are.
CountIn : ℕ → ℕ → ℕ → Option Records → Type 0
CountIn capacity offset k = Yields (λ r. (offset + length r.0 ≤ capacity) × (r.1 ≡ k))

one-CountIn :
    (capacity offset : ℕ) (name : List ℕ) (type class ttl : ℕ) (rdata : List ℕ)
    → CountIn capacity offset 1 (one (append_record capacity offset name type class ttl rdata))
unfolding CountIn one append_record
one-CountIn capacity offset name type class ttl rdata =
    elim (Option-cases (write_name capacity offset name)) [
      | inl failing ↦ rw (one, append_record, failing) tt
      | inr (written, e) ↦
          elim (Bool-cases (ltb capacity (offset + length written + 10 + length rdata))) [
            | inl full ↦ rw (one, append_record, e, full) tt
            | inr room ↦
                rw (one, append_record, e, room)
                  (
                    ground (
                      arith,
                      room,
                      length-append written (
                          be16 type
                          ++ (be16 class ++ (be32 ttl ++ (be16 (length rdata % 2 ^ 16) ++ rdata)))),
                    ),
                    refl,
                  )
          ]
    ]

and_then-CountIn :
    (capacity offset j k : ℕ) (first : Option Records) (later : ℕ → Option Records)
    → CountIn capacity offset j first
    → ((o : ℕ) → o ≤ capacity → CountIn capacity o k (later o))
    → CountIn capacity offset (j + k) (and_then offset first later)
unfolding CountIn and_then
and_then-CountIn capacity offset j k none later h h' = tt
and_then-CountIn capacity offset j k (some (bytes, count)) later h h' =
    behind (later (offset + length bytes)) (h' (offset + length bytes) h.0)
  where
    behind :
        (o : Option Records)
        → CountIn capacity (offset + length bytes) k o
        → CountIn capacity offset
            (j + k)
            (o >>= λ (bytes', count'). some (bytes ++ bytes', count + count'))
    behind none g = tt
    behind (some (bytes', count')) g =
        (omega (arith, g.0, length-append bytes bytes'), omega (arith, g.1, h.1))

-- How many of the addresses are IPv4 addresses.
abbrev pub resolved : (List ℕ → Option (List ℕ)) → List (List ℕ) → ℕ
resolved inet_pton [] = 0
resolved inet_pton (ip ∷ ips) =
    (elim (inet_pton ip) [ none ↦ 0 | some rdata ↦ 1 ]) + resolved inet_pton ips

-- The records that a mask asks for.
abbrev pub asked : (List ℕ → Option (List ℕ)) → Responder → ℕ → ℕ
asked inet_pton r mask =
    (if has_group mask 1 then resolved inet_pton r.addresses else 0)
    + ((if has_group mask 2 then 1 else 0)
        + ((if has_group mask 4 then 1 + 1 else 0) + (if has_group mask 8 then 1 else 0)))

no_records : (capacity offset : ℕ) → offset ≤ capacity → CountIn capacity offset 0 (some ([], 0))
unfolding CountIn
no_records capacity offset h = (omega (arith, h), refl)

address_records-CountIn :
    (inet_pton : List ℕ → Option (List ℕ)) (capacity : ℕ) (host : List ℕ) (ttl : ℕ)
    (ips : List (List ℕ)) (offset : ℕ)
    → offset ≤ capacity
    → CountIn capacity offset
        (resolved inet_pton ips)
        (address_records inet_pton capacity host ttl ips offset)
unfolding address_records CountIn
address_records-CountIn inet_pton capacity host ttl [] offset h = no_records capacity offset h
address_records-CountIn inet_pton capacity host ttl (ip ∷ ips) offset h =
    address (inet_pton ip) (λ o g. address_records-CountIn inet_pton capacity host ttl ips o g)
  where
    rest : ℕ → Option Records
    rest = address_records inet_pton capacity host ttl ips

    address :
        (found : Option (List ℕ))
        → ((o : ℕ) → o ≤ capacity → CountIn capacity o (resolved inet_pton ips) (rest o))
        → CountIn capacity offset
            ((elim found [ none ↦ 0 | some rdata ↦ 1 ]) + resolved inet_pton ips)
            (elim found [
              | none ↦ rest offset
              | some rdata ↦
                  and_then offset
                    (one (append_record capacity offset host type_a class_flush ttl rdata))
                    rest
            ])
    address none again =
        subst (λ k. CountIn capacity offset k (rest offset)) {x = resolved inet_pton ips}
          (omega arith) (again offset h)
    address (some rdata) again =
        and_then-CountIn capacity offset 1 (resolved inet_pton ips)
          (one (append_record capacity offset host type_a class_flush ttl rdata)) rest
          (one-CountIn capacity offset host type_a class_flush ttl rdata) again

-- A group that the mask does not ask for is empty.
if_asked :
    (capacity offset k : ℕ) (b : Bool) (records : Option Records)
    → offset ≤ capacity
    → CountIn capacity offset k records
    → CountIn capacity offset (if b then k else 0) (if b then records else some ([], 0))
if_asked capacity offset k true records h c = c
if_asked capacity offset k false records h c = no_records capacity offset h

-- Records that need some data first.
with_data :
    (capacity offset k : ℕ) (data_ : Option (List ℕ)) (records : List ℕ → Option Records)
    → ((rdata : List ℕ) → CountIn capacity offset k (records rdata))
    → CountIn capacity offset k (data_ >>= records)
unfolding CountIn
with_data capacity offset k none records h = tt
with_data capacity offset k (some rdata) records h = h rdata

build_record_set-CountIn :
    (inet_pton : List ℕ → Option (List ℕ)) (r : Responder)
    (capacity offset mask ttl_unique ttl_shared : ℕ)
    → offset ≤ capacity
    → CountIn capacity offset
        (asked inet_pton r mask)
        (build_record_set inet_pton r capacity offset mask ttl_unique ttl_shared)
unfolding build_record_set a_group ptr_group srv_group types_group
build_record_set-CountIn inet_pton r capacity offset mask ttl_unique ttl_shared h =
    and_then-CountIn capacity offset _ _ _ _
      (if_asked capacity offset _ (has_group mask 1) _ h
        (address_records-CountIn inet_pton capacity (host_name r) ttl_unique r.addresses offset h))
      (λ o1 h1.
        and_then-CountIn capacity o1 _ _ _ _
          (if_asked capacity o1 1 (has_group mask 2) _ h1 (
            with_data capacity o1 1 _ _
              (λ rdata. one-CountIn capacity o1 http_type type_ptr class_in ttl_shared rdata)))
          (λ o2 h2.
            and_then-CountIn capacity o2 _ _ _ _
              (if_asked capacity o2 (1 + 1) (has_group mask 4) _ h2 (
                and_then-CountIn capacity o2 1 1 _ _
                  (with_data capacity o2 1 _ _ (λ rdata.
                    one-CountIn capacity o2 (instance_name r) type_srv class_flush ttl_unique
                      rdata))
                  (λ o h'. with_data capacity o 1 _ _ (λ rdata.
                    one-CountIn capacity o (instance_name r) type_txt class_flush ttl_unique
                      rdata))))
              (λ o3 h3. if_asked capacity o3 1 (has_group mask 8) _ h3 (
                with_data capacity o3 1 _ _ (λ rdata.
                  one-CountIn capacity o3 services_type type_ptr class_in ttl_shared rdata)))))

-- A response that build_response() builds fits the buffer, and its ANCOUNT is the number of records
-- that the mask asks for, modulo 2^16: one for each address that is an IPv4 address, one for the
-- service, two for its host and its text, and one for the service type.
pub build_response_lem :
    (inet_pton : List ℕ → Option (List ℕ)) (r : Responder)
    (capacity id mask ttl_unique ttl_shared : ℕ) (bytes : List ℕ)
    → build_response inet_pton r capacity id mask ttl_unique ttl_shared ≡ some bytes
    → (length bytes ≤ capacity) × (read_be16 bytes 6 ≡ some (asked inet_pton r mask % 2 ^ 16))
unfolding build_response CountIn
build_response_lem inet_pton r capacity id mask ttl_unique ttl_shared bytes e =
    elim (Bool-cases (ltb capacity 12)) [
      | inl small ↦ absurd (nothing (rw (build_response, small) at e))
      | inr room ↦
          let h : 12 ≤ capacity = ground (arith, room) in
          let c = build_record_set-CountIn inet_pton r capacity 12 mask ttl_unique ttl_shared h in
          elim (Option-cases
            (build_record_set inet_pton r capacity 12 mask ttl_unique ttl_shared)) [
              | inl failing ↦ absurd (nothing (rw (build_response, room, failing) at e))
              | inr ((records, count), built) ↦
                  let same = some-injective _ _ (rw (build_response, room, built) at e) in
                  let fits = rw built at c in
                  subst
                    (λ b.
                      (length b ≤ capacity)
                      × (read_be16 b 6 ≡ some (asked inet_pton r mask % 2 ^ 16)))
                    same (omega (arith, fits.0), rw fits.1 (ap some (omega arith)))
            ]
    ]
  where
    nothing : none ≡ some bytes → ⊥
    nothing x = ground arith
