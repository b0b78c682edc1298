-- ===== src/Ice/StunMessage.antt =====
-- src/ice/stun-message.ts: the messages of connectivity checks. A message is built by adding
-- attributes, and `build` appends MESSAGE-INTEGRITY and FINGERPRINT. HMAC-SHA1 is the parameter
-- `hmac_sha1`, of a key and bytes. A password is its UTF-8 bytes, empty where the source has none.
pub mod Layout
pub mod Parse
pub mod Address
pub mod Verify
pub mod RoundTrip
use node_rtc_connection.Prelude.{
  ℕ, zero, suc, ◌+◌, ◌-◌, ◌*◌, ◌/◌, ◌%◌, ◌≤◌, ◌<◌, ◌≡◌, refl, Bool, true, false, ◌||◌, not, Option,
  none, some, List, [], ◌∷◌, ◌++◌, arith, ltb, leb, ◌==◌, if◌then◌else◌, length, get_or, Exception,
  range_error, out_of_fuel, Result, ok, err, ◌>>=◌,
}
use node_rtc_connection.Buffer.{
  Buffer, to_uint32, be16, be32, read_uint16_be, read_uint32_be, slice, alloc, write_uint8,
  write_uint16_be, write_uint32_be, copy,
}
use node_rtc_connection.Map.{nat_eq, get, put}
use node_rtc_connection.Buffer.Equality.{timing_safe_equal}
use node_rtc_connection.Sctp.Chunks.{pad4}
use node_rtc_connection.Ice.Crc32.{crc32}
use Prim.Native.Nat.{bit_or, bit_xor}

abbrev pub magic_cookie : ℕ
magic_cookie = 0x2112_a442

-- MSG_TYPE and ATTR, as far as the agent uses them.
abbrev pub binding_request : ℕ
binding_request = 0x0001

abbrev pub binding_success : ℕ
binding_success = 0x0101

abbrev pub username : ℕ
username = 0x0006

abbrev pub message_integrity : ℕ
message_integrity = 0x0008

abbrev pub xor_mapped_address : ℕ
xor_mapped_address = 0x0020

abbrev pub priority : ℕ
priority = 0x0024

abbrev pub use_candidate : ℕ
use_candidate = 0x0025

abbrev pub fingerprint : ℕ
fingerprint = 0x8028

abbrev pub ice_controlled : ℕ
ice_controlled = 0x8029

abbrev pub ice_controlling : ℕ
ice_controlling = 0x802a

pub record StunAttribute : Type 0 where
  pub type : ℕ
  pub value : Buffer

pub record ParsedStunMessage : Type 0 where
  pub type : ℕ
  pub transaction_id : Buffer
  pub attrs : List (ℕ × Buffer)
  pub raw : Buffer

pub record StunMessageBuilder : Type 0 where
  pub type : ℕ
  pub transaction_id : Buffer
  pub attrs : List StunAttribute

-- The transaction id, which the source draws at random where none is given, is an argument.
abbrev pub new_builder : ℕ → Buffer → StunMessageBuilder
new_builder type transaction_id = record {
  type = type;
  transaction_id = transaction_id;
  attrs = [];
}

abbrev pub add_attr : ℕ → Buffer → StunMessageBuilder → StunMessageBuilder
add_attr type value b = record b { attrs = b.attrs ++ (record { type = type; value = value } ∷ []) }

-- The name as its UTF-8 bytes.
abbrev pub add_username : Buffer → StunMessageBuilder → StunMessageBuilder
add_username name = add_attr username name

-- `writeUInt32BE(priority >>> 0, 0)` never throws.
abbrev pub add_priority : ℕ → StunMessageBuilder → StunMessageBuilder
add_priority value = add_attr priority (be32 (to_uint32 value))

abbrev pub add_ice_controlling : Buffer → StunMessageBuilder → StunMessageBuilder
add_ice_controlling tie_breaker = add_attr ice_controlling tie_breaker

abbrev pub add_ice_controlled : Buffer → StunMessageBuilder → StunMessageBuilder
add_ice_controlled tie_breaker = add_attr ice_controlled tie_breaker

abbrev pub add_use_candidate : StunMessageBuilder → StunMessageBuilder
add_use_candidate = add_attr use_candidate (alloc 0)

-- `address.split('.').map(Number)` of the characters of a dotted address of decimal numbers, with
-- the number that is being read.
unfoldable pub dotted_from : ℕ → Buffer → List ℕ
dotted_from n [] = n ∷ []
dotted_from n (c ∷ cs) =
    let next = if c == 46 then 0 else n * 10 + (c - 48) in
    let rest = dotted_from next cs in if c == 46 then n ∷ rest else rest

abbrev pub dotted : Buffer → List ℕ
dotted address = dotted_from 0 address

-- The four numbers of an address in one, as `encodeXorAddress` and
-- `#createXorPeerAddressAttribute` of the STUN client put them together.
abbrev pub addr_int : List ℕ → ℕ
addr_int parts =
    bit_or
      (bit_or
        (bit_or (to_uint32 (get_or parts 0 0 * 16777216)) (to_uint32 (get_or parts 1 0 * 65536)))
        (to_uint32 (get_or parts 2 0 * 256)))
      (to_uint32 (get_or parts 3 0))

-- The address is the list of the numbers between its dots; a missing one counts as 0.
unfoldable pub encode_xor_address : List ℕ → ℕ → Result Buffer
encode_xor_address parts port = do
  reserved ← write_uint8 0 0 (alloc 8)
  family ← write_uint8 1 1 reserved
  ported ← write_uint16_be (bit_xor port (magic_cookie / 65536)) 2 family
  write_uint32_be (to_uint32 (bit_xor (addr_int parts) magic_cookie)) 4 ported

abbrev pub add_xor_mapped_address : Buffer → ℕ → StunMessageBuilder → Result StunMessageBuilder
add_xor_mapped_address address port b = do
  value ← encode_xor_address (dotted address) port
  ok (add_attr xor_mapped_address value b)

-- One round of the loop of `#encodeBody`: the two parts of an attribute.
unfoldable pub encode_attr : StunAttribute → Result Buffer
encode_attr a = do
  typed ← write_uint16_be a.type 0 (alloc 4)
  head ← write_uint16_be (length a.value) 2 typed
  let padded = copy a.value 0 (alloc (pad4 (length a.value)))
  ok (head ++ padded)

unfoldable pub encode_body : List StunAttribute → Result Buffer
encode_body [] = ok []
encode_body (a ∷ more) = do first ← encode_attr a; rest ← encode_body more; ok (first ++ rest)

unfoldable pub header : StunMessageBuilder → ℕ → Result Buffer
header b body_len = do
  typed ← write_uint16_be b.type 0 (alloc 20)
  sized ← write_uint16_be body_len 2 typed
  marked ← write_uint32_be magic_cookie 4 sized
  ok (copy b.transaction_id 8 marked)

-- The FINGERPRINT of a body and its header, and the finished message.
unfoldable pub build_rest : StunMessageBuilder → Buffer → Result Buffer
build_rest b body = do
  header_fp ← header b (length body + 8)
  let fp_val = to_uint32 (bit_xor (crc32 (header_fp ++ body)) 0x5354_554e)
  typed ← write_uint16_be fingerprint 0 (alloc 8)
  sized ← write_uint16_be 4 2 typed
  fp_head ← write_uint32_be fp_val 4 sized
  final ← header b (length (body ++ fp_head))
  ok (final ++ (body ++ fp_head))

module _ (hmac_sha1 : Buffer → Buffer → Buffer) where
  -- `if (password)`: MESSAGE-INTEGRITY over the header with the raised length, and the body.
  unfoldable pub build_integrity : StunMessageBuilder → Buffer → Buffer → Result Buffer
  build_integrity b [] body = ok body
  build_integrity b (c ∷ cs) body = do
    head ← header b (length body + 24)
    let digest = hmac_sha1 (c ∷ cs) (head ++ body)
    typed ← write_uint16_be message_integrity 0 (alloc 4)
    mi_head ← write_uint16_be 20 2 typed
    ok (body ++ (mi_head ++ digest))

  unfoldable pub build : StunMessageBuilder → Buffer → Result Buffer
  build b password = do
    encoded ← encode_body b.attrs
    body ← build_integrity b password encoded
    build_rest b body

-- The loop of `parse`, which moves the offset on by 4 at least: one round more than the message has
-- bytes is enough.
unfoldable pub parse_loop : ℕ → Buffer → ℕ → ℕ → List (ℕ × Buffer) → Result (List (ℕ × Buffer))
parse_loop zero msg end off attrs = err out_of_fuel
parse_loop (suc fuel) msg end off attrs =
    let round : Result (List (ℕ × Buffer)) = do
      atype ← read_uint16_be msg off
      alen ← read_uint16_be msg (off + 2)
      let more =
          parse_loop fuel msg end (off + 4 + pad4 alen)
            (put atype (slice msg (off + 4) (off + 4 + alen)) attrs)
      if ltb end (off + 4 + alen) then ok attrs else more
    in if leb (off + 4) end then round else ok attrs

-- `none` is null.
unfoldable pub parse : Buffer → Result (Option ParsedStunMessage)
parse msg =
    let checked : Result (Option ParsedStunMessage) = do
      cookie ← read_uint32_be msg 4
      type ← read_uint16_be msg 0
      size ← read_uint16_be msg 2
      let accepted : Result (Option ParsedStunMessage) = do
        attrs ← parse_loop (suc (length msg)) msg (20 + size) 20 []
        ok (
            some
              (record { type = type; transaction_id = slice msg 8 20; attrs = attrs; raw = msg }))
      if not (cookie == magic_cookie) || ltb (length msg) (20 + size) then ok none else accepted
    in if ltb (length msg) 20 then ok none else checked

-- The loop of `verifyIntegrity`, with rounds as in `parse_loop`: the offset of MESSAGE-INTEGRITY,
-- `none` for -1.
unfoldable pub find_integrity : ℕ → Buffer → ℕ → ℕ → Result (Option ℕ)
find_integrity zero msg end off = err out_of_fuel
find_integrity (suc fuel) msg end off =
    let round : Result (Option ℕ) = do
      atype ← read_uint16_be msg off
      alen ← read_uint16_be msg (off + 2)
      let more = find_integrity fuel msg end (off + (4 + pad4 alen))
      if atype == message_integrity then ok (some off) else more
    in if leb (off + 4) end then round else ok none

module _ (hmac_sha1 : Buffer → Buffer → Buffer) where
  unfoldable pub check_integrity : Buffer → Buffer → Option ℕ → Result Bool
  check_integrity msg password none = ok false
  check_integrity msg password (some mi_offset) = do
    let provided = slice msg (mi_offset + 4) (mi_offset + 4 + 20)
    head ← write_uint16_be (mi_offset + 24 - 20) 2 (slice msg 0 20)
    let digest = hmac_sha1 password (head ++ slice msg 20 mi_offset)
    if length provided == length digest then timing_safe_equal provided digest else ok false

  unfoldable pub verify_integrity : Buffer → Buffer → Result Bool
  verify_integrity msg password = do
    size ← read_uint16_be msg 2
    mi_offset ← find_integrity (suc (length msg)) msg (20 + size) 20
    check_integrity msg password mi_offset
