-- ===== src/Mdns/Records.antt =====
-- src/net/mdns.c: the records and packets that a responder builds.
-- A function gives the bytes that it stores at `buffer + offset`, or `none` for the result -1, after
-- which some of them may be there. A label of the responder has less than 80 characters, so that no
-- name is cut off by its buffer. inet_pton() is a parameter.
use cam.Base.{
  ℕ, ◌+◌, ◌/◌, ◌%◌, ◌^◌, Bool, Option, none, some, List, [], ◌∷◌, ◌++◌, ltb, leb, ◌==◌,
  if◌then◌else◌, ◌>>=◌, length,
}
use cam.Base.Bytes.{be16, be32}
use cam.Mdns.{write_name}

abbrev pub rdata_max : ℕ
rdata_max = 256

-- What the records are about: the fields of MdnsResponder that they show.
pub record Responder : Type 0 where
  pub label : List ℕ
  pub addresses : List (List ℕ)
  pub http_port : ℕ
  pub model : List ℕ

abbrev pub local_domain : List ℕ
local_domain = b'.' ∷ b'l' ∷ b'o' ∷ b'c' ∷ b'a' ∷ b'l' ∷ []

abbrev pub http_type : List ℕ
http_type = b'_' ∷ b'h' ∷ b't' ∷ b't' ∷ b'p' ∷ b'.' ∷ b'_' ∷ b't' ∷ b'c' ∷ b'p' ∷ local_domain

abbrev pub services_type : List ℕ
services_type =
    b'_' ∷ b's' ∷ b'e' ∷ b'r' ∷ b'v' ∷ b'i' ∷ b'c' ∷ b'e' ∷ b's' ∷ b'.' ∷ b'_' ∷ b'd' ∷ b'n' ∷ b's'
    ∷ b'-' ∷ b's' ∷ b'd' ∷ b'.' ∷ b'_' ∷ b'u' ∷ b'd' ∷ b'p' ∷ local_domain

-- build_names()
unfoldable pub host_name : Responder → List ℕ
host_name r = r.label ++ local_domain

unfoldable pub instance_name : Responder → List ℕ
instance_name r = r.label ++ b'.' ∷ http_type

-- build_srv_rdata(): `none` for the length 0.
unfoldable pub build_srv_rdata : ℕ → List ℕ → Option (List ℕ)
build_srv_rdata port target =
    write_name rdata_max 6 target >>= λ name. some (be16 0 ++ (be16 0 ++ (be16 port ++ name)))

-- build_txt_rdata(), whose text has room for 199 characters.
unfoldable pub build_txt_rdata : List ℕ → Option (List ℕ)
build_txt_rdata model =
    let entry = b'm' ∷ b'o' ∷ b'd' ∷ b'e' ∷ b'l' ∷ b'=' ∷ model in
    let path = b'p' ∷ b'a' ∷ b't' ∷ b'h' ∷ b'=' ∷ b'/' ∷ [] in
    if leb 200 (length entry) then none else some (length entry ∷ (entry ++ length path ∷ path))

-- append_record()
unfoldable pub append_record : ℕ → ℕ → List ℕ → ℕ → ℕ → ℕ → List ℕ → Option (List ℕ)
append_record capacity offset name type class ttl rdata =
    write_name capacity offset name >>= λ written.
    if ltb capacity (offset + length written + 10 + length rdata)
    then none
    else some (
        written
        ++ (be16 type ++ (be16 class ++ (be32 ttl ++ (be16 (length rdata % 2 ^ 16) ++ rdata)))))

-- The types, and the class with and without the flush bit.
abbrev pub type_a : ℕ
type_a = 1

abbrev pub type_ptr : ℕ
type_ptr = 12

abbrev pub type_txt : ℕ
type_txt = 16

abbrev pub type_srv : ℕ
type_srv = 33

abbrev pub class_in : ℕ
class_in = 1

abbrev pub class_flush : ℕ
class_flush = 0x8001

-- The bytes of some records, and their number.
abbrev pub Records : Type 0
Records = List ℕ × ℕ

-- Records behind others.
unfoldable pub and_then : ℕ → Option Records → (ℕ → Option Records) → Option Records
and_then offset first later = first >>= λ (bytes, count).
    later (offset + length bytes) >>= λ (bytes', count'). some (bytes ++ bytes', count + count')

-- One record.
unfoldable pub one : Option (List ℕ) → Option Records
one record_ = record_ >>= λ bytes. some (bytes, 1)

-- Whether a bit of the mask is set.
abbrev pub has_group : ℕ → ℕ → Bool
has_group mask bit = mask / bit % 2 == 1

-- The loop over the addresses; one that is no IPv4 address is left out.
unfoldable pub address_records :
    (List ℕ → Option (List ℕ)) → ℕ → List ℕ → ℕ → List (List ℕ) → ℕ → Option Records
address_records inet_pton capacity host ttl [] offset = some ([], 0)
address_records inet_pton capacity host ttl (ip ∷ ips) offset =
    let rest = address_records inet_pton capacity host ttl ips in
    elim (inet_pton ip) [
      | none ↦ rest offset
      | some rdata ↦
          and_then offset (one (append_record capacity offset host type_a class_flush ttl rdata))
            rest
    ]

-- The four groups of build_record_set().
unfoldable pub a_group : (List ℕ → Option (List ℕ)) → Responder → ℕ → ℕ → ℕ → ℕ → Option Records
a_group inet_pton r capacity mask ttl_unique offset =
    if has_group mask 1
    then address_records inet_pton capacity (host_name r) ttl_unique r.addresses offset
    else some ([], 0)

unfoldable pub ptr_group : Responder → ℕ → ℕ → ℕ → ℕ → Option Records
ptr_group r capacity mask ttl_shared offset =
    if has_group mask 2
    then (write_name rdata_max 0 (instance_name r) >>= λ rdata.
        one (append_record capacity offset http_type type_ptr class_in ttl_shared rdata))
    else some ([], 0)

unfoldable pub srv_group : Responder → ℕ → ℕ → ℕ → ℕ → Option Records
srv_group r capacity mask ttl_unique offset =
    let srv = build_srv_rdata r.http_port (host_name r) >>= λ rdata.
    one (append_record capacity offset (instance_name r) type_srv class_flush ttl_unique rdata) in
    if has_group mask 4
    then and_then offset srv (λ offset'. build_txt_rdata r.model >>= λ rdata.
        one
          (append_record capacity offset' (instance_name r) type_txt class_flush ttl_unique rdata))
    else some ([], 0)

unfoldable pub types_group : ℕ → ℕ → ℕ → ℕ → Option Records
types_group capacity mask ttl_shared offset =
    if has_group mask 8
    then (write_name rdata_max 0 http_type >>= λ rdata.
        one (append_record capacity offset services_type type_ptr class_in ttl_shared rdata))
    else some ([], 0)

-- build_record_set()
unfoldable pub build_record_set :
    (List ℕ → Option (List ℕ)) → Responder → ℕ → ℕ → ℕ → ℕ → ℕ → Option Records
build_record_set inet_pton r capacity offset mask ttl_unique ttl_shared =
    and_then offset (a_group inet_pton r capacity mask ttl_unique offset) (λ o1.
      and_then o1 (ptr_group r capacity mask ttl_shared o1) (λ o2.
        and_then o2 (srv_group r capacity mask ttl_unique o2)
          (λ o3. types_group capacity mask ttl_shared o3)))

-- build_response()
unfoldable pub build_response :
    (List ℕ → Option (List ℕ)) → Responder → ℕ → ℕ → ℕ → ℕ → ℕ → Option (List ℕ)
build_response inet_pton r capacity id mask ttl_unique ttl_shared =
    let built =
      build_record_set inet_pton r capacity 12 mask ttl_unique ttl_shared >>= λ (bytes, count).
      some (
        be16 id
        ++ (be16 0x8400 ++ (be16 0 ++ (be16 (count % 2 ^ 16) ++ (be16 0 ++ (be16 0 ++ bytes)))))) in
    if ltb capacity 12 then none else built

-- build_probe()
unfoldable pub build_probe : (List ℕ → Option (List ℕ)) → Responder → ℕ → Option (List ℕ)
build_probe inet_pton r capacity =
    let built = build_record_set inet_pton r capacity 12 5 120 4500 >>= λ (bytes, count).
    some (
      be16 0 ++ (be16 0 ++ (be16 0 ++ (be16 0 ++ (be16 (count % 2 ^ 16) ++ (be16 0 ++ bytes)))))) in
    if ltb capacity 12 then none else built
