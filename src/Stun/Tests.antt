-- ===== src/Stun/Tests.antt =====
-- Runs of the STUN functions on small messages, and their theorems at them.
use cam.Base.{ℕ, ◌≡◌, ◌↔◌, refl, true, false, some, none, List, [], ◌∷◌, ◌++◌, arith, replicate}
use cam.Base.Memory.{slice}
use cam.Stun.{
  stun, dtls, rtp, other, classify_packet, find_loop, find_attribute, is_binding_request,
  is_binding_indication, copy_username, same_bytes, after_colon, is_first, is_second, username_test,
  username_matches, Crypto, response_header, mapped_address, integrity, fingerprint,
  build_error_response,
}
use cam.Stun.Walk.{FoundBelow, find_attribute-FoundBelow}
use cam.Stun.Attributes.{Attribute, attributes_bytes, message_header, find_attribute_lem}
use cam.Stun.ErrorResponse.{error_number, build_error_response_tail, build_error_response_code}
use cam.Stun.Username.{NamesFragment, username_test_iff}

abbrev username_value : List ℕ
username_value = b'a' ∷ b'b' ∷ b':' ∷ b'q' ∷ b'r' ∷ []

abbrev attributes : List Attribute
attributes =
    record { kind = 0x0024; value = 0 ∷ 0 ∷ 1 ∷ 0 ∷ []; padding = [] }
    ∷ record { kind = 0x0006; value = username_value; padding = 0 ∷ 0 ∷ 0 ∷ [] }
    ∷ []

abbrev tail : List ℕ
tail = 0x21 ∷ 0x12 ∷ 0xA4 ∷ 0x42 ∷ 1 ∷ 2 ∷ 3 ∷ 4 ∷ 5 ∷ 6 ∷ 7 ∷ 8 ∷ 9 ∷ 10 ∷ 11 ∷ 12 ∷ []

abbrev request : List ℕ
request = message_header 0x00 0x01 attributes tail ++ (attributes_bytes attributes ++ [])

classified :
    (classify_packet request ≡ stun)
    × (classify_packet (22 ∷ 254 ∷ []) ≡ dtls)
    × (classify_packet (0x80 ∷ 200 ∷ []) ≡ rtp)
    × (classify_packet (64 ∷ []) ≡ other)
unfolding classify_packet
classified = (refl, refl, refl, refl)

request_read :
    (is_binding_request request
      ≡ some (some (1 ∷ 2 ∷ 3 ∷ 4 ∷ 5 ∷ 6 ∷ 7 ∷ 8 ∷ 9 ∷ 10 ∷ 11 ∷ 12 ∷ [])))
    × (is_binding_indication request ≡ some false)
    × (copy_username request 4 ≡ some (some (b'a' ∷ b'b' ∷ b':' ∷ [])))
    × (username_matches request (b'a' ∷ b'b' ∷ []) ≡ some true)
    × (username_matches request (b'a' ∷ []) ≡ some false)
unfolding is_binding_request is_binding_indication copy_username username_matches username_test
    is_first is_second after_colon same_bytes find_attribute find_loop
request_read = (refl, refl, refl, refl, refl)

find_attribute-FoundBelow_example :
    FoundBelow 10 (find_attribute (1 ∷ 1 ∷ 255 ∷ 255 ∷ 0 ∷ 0 ∷ 0 ∷ 0 ∷ 0 ∷ 0 ∷ []) 8)
find_attribute-FoundBelow_example =
    find_attribute-FoundBelow (1 ∷ 1 ∷ 255 ∷ 255 ∷ 0 ∷ 0 ∷ 0 ∷ 0 ∷ 0 ∷ 0 ∷ []) 8

find_attribute_lem_example : find_attribute request 0x0006 ≡ some (some (32, 5))
find_attribute_lem_example =
    find_attribute_lem 0x00 0x01 tail [] attributes 0x0006 refl (omega arith) (omega arith)

-- A digest of 20 bytes that stands for the one that OpenSSL computes.
abbrev digest : List ℕ
digest = replicate 20 7

abbrev crypto : Crypto
crypto = record { hmac_sha1 = λ k m. some digest; equal_bytes = same_bytes }

abbrev response : List ℕ
response =
    response_header request 44
    ++ (mapped_address 5000 0xC0A80001
        ++ (integrity crypto [] (b'k' ∷ [])
              (response_header request 36 ++ mapped_address 5000 0xC0A80001)
            ++ fingerprint (
                response_header request 44
                ++ (mapped_address 5000 0xC0A80001
                    ++ integrity crypto [] (b'k' ∷ [])
                        (response_header request 36 ++ mapped_address 5000 0xC0A80001)))))

abbrev buffer : List ℕ
buffer = replicate 64 0xEE

abbrev error_bytes : List ℕ
error_bytes =
    0x01
    ∷ 0x11
    ∷ 0
    ∷ 28
    ∷ 0x21
    ∷ 0x12
    ∷ 0xA4
    ∷ 0x42
    ∷ (replicate 12 0
        ++ (0x80
            ∷ 0x22
            ∷ 0
            ∷ 9
            ∷ b'c'
            ∷ b'a'
            ∷ b'm'
            ∷ b's'
            ∷ b't'
            ∷ b'r'
            ∷ b'e'
            ∷ b'a'
            ∷ b'm'
            ∷ 0
            ∷ 0
            ∷ 0
            ∷ 0
            ∷ 9
            ∷ 0
            ∷ 8
            ∷ 0
            ∷ 4
            ∷ 0
            ∷ 1
            ∷ replicate 20 0xEE))

error_built : build_error_response none 401 buffer 64 ≡ some (error_bytes, 48)
unfolding build_error_response
error_built = refl

build_error_response_tail_example :
    (out' : List ℕ) × (build_error_response none 401 buffer 44 ≡ some (out', 48))
    × (slice 44 4 out' ≡ slice 44 4 buffer)
build_error_response_tail_example = build_error_response_tail none 401 buffer 44 (omega arith)

build_error_response_code_example : error_number (slice 40 4 error_bytes) ≡ 1
build_error_response_code_example =
    build_error_response_code none 401 buffer 64 error_bytes 48 (omega arith) error_built

username_test_iff_example :
    (username_test username_value (b'q' ∷ b'r' ∷ []) ≡ some true)
    ↔ NamesFragment (b'q' ∷ b'r' ∷ []) username_value
username_test_iff_example = username_test_iff username_value (b'q' ∷ b'r' ∷ [])
