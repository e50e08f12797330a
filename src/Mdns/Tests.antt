-- ===== src/Mdns/Tests.antt =====
-- Runs of the name functions on small packets, and their theorems at them.
use cam.Base.{
  ◌≤◌, ◌%◌, ◌^◌, ℕ, ◌≡◌, refl, Option, none, some, List, [], ◌∷◌, ◌++◌, ◌+◌, arith, length,
}
use cam.Mdns.{
  before_dot, after_dot, end_name, write_loop, write_name, follow_pointer, take_label, read_round,
  read_loop, read_name,
}
use cam.Base.Bytes.{read_be16}
use cam.Mdns.Records.{
  Responder, build_response, build_record_set, a_group, ptr_group, srv_group, types_group,
  address_records, and_then, one, append_record, build_srv_rdata, build_txt_rdata, host_name,
  instance_name,
}
use cam.Mdns.Fits.{asked, build_response_lem}
use cam.Mdns.Bounds.{IsRead, read_name_total}
use cam.Mdns.Labels.{dotted, read_name-write_name}

abbrev labels : List (List ℕ)
labels = (b'c' ∷ b'a' ∷ b'm' ∷ []) ∷ (b'l' ∷ b'o' ∷ []) ∷ []

-- Two names that point at each other.
abbrev circle : List ℕ
circle = 0xC0 ∷ 2 ∷ 0xC0 ∷ 0 ∷ []

circle_refused : read_name circle 0 255 ≡ some none
unfolding read_name read_loop read_round follow_pointer
circle_refused = refl

-- A name that ends in a pointer to another.
compressed :
    read_name (2 ∷ b'l' ∷ b'o' ∷ 0 ∷ 1 ∷ b'a' ∷ 0xC0 ∷ 0 ∷ []) 4 255
    ≡ some (some (b'a' ∷ b'.' ∷ b'l' ∷ b'o' ∷ [], 8))
unfolding read_name read_loop read_round follow_pointer take_label
compressed = refl

empty_label_refused : write_name 100 0 (b'a' ∷ b'.' ∷ b'.' ∷ b'b' ∷ []) ≡ none
unfolding write_name write_loop before_dot after_dot end_name
empty_label_refused = refl

read_name_total_example :
    (r : Option (List ℕ × ℕ)) × (read_name circle 2 255 ≡ some r) × IsRead circle 255 r
read_name_total_example = read_name_total circle 2 255 (omega arith)

read_name-write_name_example :
    (bytes : List ℕ) × (write_name 100 2 (dotted labels) ≡ some bytes)
    × (read_name ((7 ∷ 7 ∷ []) ++ (bytes ++ 9 ∷ [])) 2 255
        ≡ some (some (dotted labels, 2 + length bytes)))
read_name-write_name_example =
    read_name-write_name labels (7 ∷ 7 ∷ []) (9 ∷ []) 100 255
      (
        (omega arith, omega arith, (omega arith, (omega arith, (omega arith, tt)))),
        ((omega arith, omega arith, (omega arith, (omega arith, tt))), tt),
      )
      (omega arith) (omega arith)

abbrev responder : Responder
responder = record {
  label = b'c' ∷ b'a' ∷ b'm' ∷ [];
  addresses = (b'1' ∷ []) ∷ [];
  http_port = 8080;
  model = b'P' ∷ b'i' ∷ [];
}

abbrev some_address : List ℕ → Option (List ℕ)
some_address ip = some (192 ∷ 168 ∷ 1 ∷ 2 ∷ [])

abbrev answer : List ℕ
answer = elim (build_response some_address responder 1400 7 15 120 4500) [
  | none ↦ []
  | some bytes ↦ bytes
]

built : build_response some_address responder 1400 7 15 120 4500 ≡ some answer
unfolding build_response build_record_set a_group ptr_group srv_group types_group address_records
    and_then one append_record build_srv_rdata build_txt_rdata host_name instance_name write_name
    write_loop before_dot after_dot end_name
built = refl

build_response_lem_example :
    (length answer ≤ 1400) × (read_be16 answer 6 ≡ some (asked some_address responder 15 % 2 ^ 16))
build_response_lem_example =
    build_response_lem some_address responder 1400 7 15 120 4500 answer built
