-- ===== src/Stun.antt =====
-- src/webrtc/ice_lite.c: classifying datagrams, and reading and answering STUN checks.
-- A buffer is the list of its bytes, and `len` its length. A read outside of it has no result.
-- A C string is the list of its characters, without the zero byte.
pub mod Crc
pub mod Walk
pub mod Attributes
pub mod Username
pub mod Response
pub mod ErrorResponse
mod Tests
use cam.Base.{
  ℕ, zero, suc, ◌+◌, ◌-◌, ◌*◌, ◌/◌, ◌%◌, ◌^◌, Bool, true, false, ◌&&◌, ◌||◌, not, Option, none,
  some, List, [], ◌∷◌, ◌++◌, ltb, leb, ◌==◌, if◌then◌else◌, ◌>>=◌, length, get_elem?, take, drop,
  replicate, bit_xor,
}
use cam.Base.Memory.{copy_at, slice}
use cam.Base.Bytes.{be16, be32, read_be16, read_be32, bytes_at}
use Crc.{crc32_stun}

abbrev pub header_size : ℕ
header_size = 20

abbrev pub magic_cookie : ℕ
magic_cookie = 0x2112A442

pub data PacketClass : Type 0 where
  stun dtls rtp other : PacketClass

-- rtc_classify_packet()
unfoldable pub classify_packet : List ℕ → PacketClass
classify_packet [] = other
classify_packet (first ∷ rest) =
    if leb first 3
    then stun
    else if leb 20 first && leb first 63
    then dtls
    else if leb 128 first
    then rtp
    else other

-- A length rounded up to whole words.
abbrev pub padded : ℕ → ℕ
padded n = (n + 3) / 4 * 4

-- The loop of stun_find_attribute() from `offset` on: where the value of the wanted attribute
-- begins, and its length. `n` bounds the rounds, each of which moves on by four bytes at least; more of
-- them than that have no result, like a read outside of the buffer.
unfoldable pub find_loop : ℕ → List ℕ → ℕ → ℕ → ℕ → Option (Option (ℕ × ℕ))
find_loop zero buf wanted end offset = none
find_loop (suc n) buf wanted end offset =
    let round = (do
      type ← read_be16 buf offset
      attr_len ← read_be16 buf (offset + 2)
      let rest = find_loop n buf wanted end (offset + (4 + padded attr_len))
      if ltb end (offset + 4 + attr_len)
          then some none
          else (if type == wanted then some (some (offset + 4, attr_len)) else rest)) in
    if leb (offset + 4) end then round else some none

-- stun_find_attribute()
unfoldable pub find_attribute : List ℕ → ℕ → Option (Option (ℕ × ℕ))
find_attribute buf wanted =
    let walk = (do
      message_len ← read_be16 buf 2
      if ltb (length buf) (message_len + header_size)
          then some none
          else find_loop (length buf) buf wanted (header_size + message_len) header_size) in
    if ltb (length buf) header_size then some none else walk

-- stun_is_binding_request(): the transaction id, or `none` for the result 0.
unfoldable pub is_binding_request : List ℕ → Option (Option (List ℕ))
is_binding_request buf =
    let check = (do
      type ← read_be16 buf 0
      message_len ← read_be16 buf 2
      cookie ← read_be32 buf 4
      tid ← bytes_at 8 12 buf
      some (
          if not (type == 0x0001)
          then none
          else if not (cookie == magic_cookie)
          then none
          else if ltb (length buf) (message_len + header_size)
          then none
          else some tid)) in
    if ltb (length buf) header_size then some none else check

-- stun_is_binding_indication()
unfoldable pub is_binding_indication : List ℕ → Option Bool
is_binding_indication buf =
    let check = (do
      type ← read_be16 buf 0
      message_len ← read_be16 buf 2
      cookie ← read_be32 buf 4
      some (
          type == 0x0011
          && cookie == magic_cookie
          && leb (message_len + header_size) (length buf))) in
    if ltb (length buf) header_size then some false else check

-- stun_copy_username() with a buffer of `out_size` bytes: the string that it leaves there, or `none`
-- for the result -1.
pub copy_username : List ℕ → ℕ → Option (Option (List ℕ))
copy_username buf out_size =
    let copy = (do
      found ← find_attribute buf 0x0006
      some (elim found [
        | none ↦ none
        | some (at, username_len) ↦
            some (slice at (if leb out_size username_len then out_size - 1 else username_len) buf)
      ])) in
    if out_size == 0 then some none else copy

-- memcmp(a, b, n) == 0 for two ranges of `n` bytes.
unfoldable pub same_bytes : List ℕ → List ℕ → Bool
same_bytes [] [] = true
same_bytes [] (b ∷ bs) = false
same_bytes (a ∷ as_) [] = false
same_bytes (a ∷ as_) (b ∷ bs) = a == b && same_bytes as_ bs

-- What follows the first `:` of a text: memchr() and the byte after it.
unfoldable pub after_colon : List ℕ → Option (List ℕ)
after_colon [] = none
after_colon (c ∷ cs) = if c == b':' then some cs else after_colon cs

-- The test for our fragment as the first component. A read outside of the value has no result.
unfoldable pub is_first : List ℕ → List ℕ → Option Bool
is_first username ufrag =
    let compared = (do
      c ← get_elem? username (length ufrag)
      front ← bytes_at 0 (length ufrag) username
      some (c == b':' && same_bytes front ufrag)) in
    if ltb (length ufrag) (length username) then compared else some false

-- The test for our fragment as all that follows the first colon.
unfoldable pub is_second : List ℕ → List ℕ → Option Bool
is_second username ufrag = elim (after_colon username) [
  | none ↦ some false
  | some second ↦
      let compared = (do bytes ← bytes_at 0 (length ufrag) second; some (same_bytes bytes ufrag)) in
      if length second == length ufrag then compared else some false
]

-- The tests on the value of the USERNAME attribute.
unfoldable pub username_test : List ℕ → List ℕ → Option Bool
username_test username ufrag = do
  first ← is_first username ufrag
  if first then some true else is_second username ufrag

-- stun_username_matches()
unfoldable pub username_matches : List ℕ → List ℕ → Option Bool
username_matches buf [] = some false
username_matches buf (u ∷ ufrag) = do
  found ← find_attribute buf 0x0006
  elim found [
    | none ↦ some false
    | some (at, username_len) ↦
        bytes_at at username_len buf >>= λ username. username_test username (u ∷ ufrag)
  ]

-- OpenSSL: HMAC() with SHA-1, `none` for NULL, and whether CRYPTO_memcmp() answers 0.
pub record Crypto : Type 0 where
  pub hmac_sha1 : List ℕ → List ℕ → Option (List ℕ)
  pub equal_bytes : List ℕ → List ℕ → Bool

-- The header of the response: its type, a length, and the cookie and transaction id of the request.
unfoldable pub response_header : List ℕ → ℕ → List ℕ
response_header request len = 0x01 ∷ 0x01 ∷ (be16 len ++ slice 4 16 request)

-- The XOR-MAPPED-ADDRESS attribute.
unfoldable pub mapped_address : ℕ → ℕ → List ℕ
mapped_address port address =
    be16 0x0020
    ++ (be16 8 ++ 0 ∷ 0x01 ∷ (be16 (bit_xor port 0x2112) ++ be32 (bit_xor address magic_cookie)))

-- The FINGERPRINT attribute over a message.
unfoldable pub fingerprint : List ℕ → List ℕ
fingerprint message = be16 0x8028 ++ (be16 4 ++ be32 (bit_xor (crc32_stun message) 0x5354554E))

-- stun_build_binding_response(): the 64 bytes that it stores at `out`, or `none` for the result -1.
-- The peer is its port and IPv4 address, `none` for no peer or another family; `stale` is what the
-- local array `mac` holds before HMAC() writes to it.
module _ (c : Crypto) (stale : List ℕ) where
  -- The MESSAGE-INTEGRITY attribute over a message.
  unfoldable pub integrity : List ℕ → List ℕ → List ℕ
  integrity pwd message =
      be16 0x0008
      ++ (be16 20 ++ take 20 (elim (c.hmac_sha1 pwd message) [ none ↦ stale | some mac ↦ mac ]))

  unfoldable pub build_binding_response :
      Option (List ℕ) → List ℕ → Option (ℕ × ℕ) → ℕ → Option (List ℕ)
  build_binding_response none request peer out_capacity = none
  build_binding_response (some pwd) request none out_capacity = none
  build_binding_response (some pwd) request (some (port, address)) out_capacity =
      let xma = mapped_address port address in
      let mi = integrity pwd (response_header request 36 ++ xma) in
      let fp = fingerprint (response_header request 44 ++ (xma ++ mi)) in
      if ltb (length request) header_size || ltb out_capacity 64
      then none
      else some (response_header request 44 ++ (xma ++ (mi ++ fp)))

-- stun_verify_mi(); `heap` says whether malloc() can give so many bytes.
module _ (c : Crypto) (heap : ℕ → Bool) where
  -- The message up to the attribute, its length field as if it ended behind the attribute.
  unfoldable pub patched : List ℕ → ℕ → List ℕ
  patched copied mi_header = copy_at copied 2 (be16 ((mi_header + 24 - header_size) % 2 ^ 16))

  unfoldable pub verify_at : List ℕ → List ℕ → ℕ → Option Bool
  verify_at buf password mi =
      let mi_header = mi - 4 in
      let compared = (do
        copied ← bytes_at 0 mi_header buf
        received ← bytes_at mi 20 buf
        some (elim (c.hmac_sha1 password (patched copied mi_header)) [
          | none ↦ false
          | some mac ↦ length mac == 20 && c.equal_bytes mac received
        ])) in
      if ltb mi_header header_size || ltb (length buf) (mi_header + 24)
      then some false
      else if ltb 512 mi_header && not (heap mi_header)
      then some false
      else compared

  unfoldable pub verify_mi : List ℕ → List ℕ → Option Bool
  verify_mi buf [] = some false
  verify_mi buf (k ∷ password) =
      let check = (do
        found ← find_attribute buf 0x0008
        elim found [
          | none ↦ some false
          | some (mi, mi_len) ↦ if mi_len == 20 then verify_at buf (k ∷ password) mi else some false
        ]) in
      if ltb (length buf) (header_size + 24) then some false else check

-- stun_build_error_response(): the bytes at `out` afterwards and the length that it reports, or
-- `none` for the result -1. `tid` is `none` for a null pointer, `out` the caller's buffer.
unfoldable pub build_error_response : Option (List ℕ) → ℕ → List ℕ → ℕ → Option (List ℕ × ℕ)
build_error_response tid error_code out out_capacity =
    let zeroed = copy_at out 0 (replicate 44 0) in
    let start = copy_at zeroed 0 (0x01 ∷ 0x11 ∷ []) in
    let cookie = copy_at start 4 (0x21 ∷ 0x12 ∷ 0xA4 ∷ 0x42 ∷ []) in
    let named : List ℕ = elim tid [ none ↦ cookie | some t ↦ copy_at cookie 8 (take 12 t) ] in
    let software = copy_at named header_size (
      be16 0x8022
      ++ (be16 9 ++ b'c' ∷ b'a' ∷ b'm' ∷ b's' ∷ b't' ∷ b'r' ∷ b'e' ∷ b'a' ∷ b'm' ∷ [])) in
    let payload = 4 + padded 9 in
    let coded =
      copy_at software (header_size + payload)
        (be16 0x0009 ++ (be16 8 ++ 0 ∷ error_code / 100 % 2 ^ 8 ∷ be16 (error_code % 100))) in
    let payload' = payload + 12 in
    if ltb out_capacity 44
    then none
    else some (copy_at coded 2 (be16 payload'), header_size + payload')
