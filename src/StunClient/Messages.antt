-- ===== src/StunClient/Messages.antt =====
-- src/stun/stun-client.ts: the requests of the STUN and TURN client, and the addresses of responses. The
-- hashes of Node's crypto module are the parameters `hmac_sha256`, of a key and bytes, and `sha256`.
use node_rtc_connection.Prelude.{
  ℕ, ◌+◌, ◌-◌, ◌*◌, ◌/◌, ◌%◌, ◌<◌, ◌≡◌, refl, Bool, true, false, ◌&&◌, Option, none, some, List, [],
  ◌∷◌, ◌++◌, arith, ltb, lt→ltb, ◌==◌, if◌then◌else◌, length, drop, Result, ok, err, type_error,
  ◌>>=◌,
}
use node_rtc_connection.Buffer.{
  Buffer, to_uint32, be16, be32, be16_lem, be32_lem, read_uint8, read_uint16_be, read_uint32_be,
  alloc, concat, write_uint8, write_uint16_be, write_uint32_be, copy,
}
use node_rtc_connection.Bits.{bit_xor-IsU16, bit_xor-IsU32, bit_xor_twice, bit_or_bytes}
use node_rtc_connection.Ice.Agent.{truthy}
use node_rtc_connection.Ice.StunMessage.{magic_cookie, dotted, addr_int}
use Prim.Native.Nat.{bit_xor}

-- The fields of the client that go into its messages, as UTF-8 bytes; null is none.
pub record Credentials : Type 0 where
  pub username : Option Buffer
  pub credential : Option Buffer
  pub realm : Option Buffer
  pub nonce : Option Buffer

abbrev pub text_of : Option Buffer → Buffer
text_of none = []
text_of (some text) = text

-- `Buffer.from(null, 'utf8')` throws.
abbrev pub required : Option Buffer → Result Buffer
required none = err type_error
required (some text) = ok text

-- The start of a message.
unfoldable pub message_header : ℕ → Buffer → ℕ → Result Buffer
message_header type transaction_id size = do
  typed ← write_uint16_be type 0 (alloc 20)
  sized ← write_uint16_be size 2 typed
  marked ← write_uint32_be magic_cookie 4 sized
  ok (copy transaction_id 8 marked)

unfoldable pub create_binding_request : Buffer → Result Buffer
create_binding_request transaction_id = message_header 0x0001 transaction_id 0

-- Type, length, value and padding, as `#createStringAttribute` and the DATA of `#createSendIndication`
-- write them.
unfoldable pub create_string_attribute : ℕ → Buffer → Result Buffer
create_string_attribute type value = do
  let padding : ℕ = (4 - length value % 4) % 4
  typed ← write_uint16_be type 0 (alloc (4 + length value + padding))
  sized ← write_uint16_be (length value) 2 typed
  ok (copy value 4 sized)

unfoldable pub lifetime_attribute : ℕ → Result Buffer
lifetime_attribute lifetime = do
  typed ← write_uint16_be 0x000d 0 (alloc 8)
  sized ← write_uint16_be 4 2 typed
  write_uint32_be lifetime 4 sized

unfoldable pub create_xor_peer_address_attribute : List ℕ → ℕ → Result Buffer
create_xor_peer_address_attribute parts port = do
  typed ← write_uint16_be 0x0012 0 (alloc 12)
  sized ← write_uint16_be 8 2 typed
  reserved ← write_uint8 0 4 sized
  family ← write_uint8 1 5 reserved
  ported ← write_uint16_be (bit_xor port (magic_cookie / 65536)) 6 family
  write_uint32_be (to_uint32 (bit_xor (addr_int parts) magic_cookie)) 8 ported

pub record AddressInfo : Type 0 where
  pub port : ℕ
  pub address : List ℕ

-- The numbers of a dotted address; `none` is null, for a family that is not IPv4.
unfoldable pub parse_xor_address : Buffer → Result (Option AddressInfo)
parse_xor_address bytes = do
  family ← read_uint8 bytes 1
  xor_port ← read_uint16_be bytes 2
  let v4 : Result (Option AddressInfo) = do
    xor_address ← read_uint32_be bytes 4
    let address : ℕ = bit_xor xor_address magic_cookie
    ok (
        some (record {
          port = bit_xor xor_port (magic_cookie / 65536);
          address =
              address / 16777216 % 256
              ∷ address / 65536 % 256
              ∷ address / 256 % 256
              ∷ address % 256
              ∷ [];
        }))
  if family == 1 then v4 else ok none

module _ (hmac_sha256 : Buffer → Buffer → Buffer) (sha256 : Buffer → Buffer) where
  -- `key`: of the user name, the realm and the credential where all are known.
  abbrev pub integrity_key : Credentials → Buffer → Buffer
  integrity_key c credential =
      if truthy c.username && truthy c.realm
      then sha256 (text_of c.username ++ (58 ∷ (text_of c.realm ++ (58 ∷ credential))))
      else credential

  unfoldable pub with_integrity : Bool → Credentials → ℕ → Buffer → Buffer → Result Buffer
  with_integrity false c type transaction_id attributes = ok attributes
  with_integrity true c type transaction_id attributes = do
    temp_header ← message_header type transaction_id (length attributes + 24)
    let integrity : Buffer =
        hmac_sha256 (integrity_key c (text_of c.credential)) (temp_header ++ attributes)
    typed ← write_uint16_be 0x0008 0 (alloc (4 + length integrity))
    sized ← write_uint16_be (length integrity) 2 typed
    ok (attributes ++ copy integrity 4 sized)

  unfoldable pub create_message : Credentials → ℕ → Buffer → List Buffer → Bool → Result Buffer
  create_message c type transaction_id attributes signed = do
    all ← with_integrity (signed && truthy c.credential) c type transaction_id (concat attributes)
    header ← message_header type transaction_id (length all)
    ok (header ++ all)

  -- `if (this.#realm && this.#nonce) …`: USERNAME, REALM and NONCE.
  unfoldable pub auth_attributes : Credentials → Result (List Buffer)
  auth_attributes c =
      let known : Result (List Buffer) = do
        name ← required c.username
        username ← create_string_attribute 0x0006 name
        realm ← create_string_attribute 0x0014 (text_of c.realm)
        nonce ← create_string_attribute 0x0015 (text_of c.nonce)
        ok (username ∷ realm ∷ nonce ∷ [])
      in if truthy c.realm && truthy c.nonce then known else ok []

  -- `if (this.#realm) …`, and the same of the nonce.
  unfoldable pub attribute_if : ℕ → Option Buffer → Result (List Buffer)
  attribute_if type value =
      let there : Result (List Buffer) = do
        attribute ← create_string_attribute type (text_of value)
        ok (attribute ∷ [])
      in if truthy value then there else ok []

  unfoldable pub create_refresh_request : Credentials → Buffer → ℕ → Result Buffer
  create_refresh_request c transaction_id lifetime = do
    lifetime_attr ← lifetime_attribute lifetime
    name ← required c.username
    username ← create_string_attribute 0x0006 name
    realm ← attribute_if 0x0014 c.realm
    nonce ← attribute_if 0x0015 c.nonce
    create_message c 0x0004 transaction_id ((lifetime_attr ∷ username ∷ realm) ++ nonce) true

  unfoldable pub create_allocate_request : Credentials → Buffer → ℕ → Bool → Result Buffer
  create_allocate_request c transaction_id lifetime with_auth = do
    typed ← write_uint16_be 0x0019 0 (alloc 8)
    sized ← write_uint16_be 4 2 typed
    transport ← write_uint8 17 4 sized
    lifetime_attr ← lifetime_attribute lifetime
    auth ← if with_auth then auth_attributes c else ok []
    create_message c 0x0003 transaction_id (transport ∷ lifetime_attr ∷ auth) with_auth

  unfoldable pub create_create_permission_request : Credentials → Buffer → Buffer → Result Buffer
  create_create_permission_request c transaction_id peer_address = do
    peer ← create_xor_peer_address_attribute (dotted peer_address) 0
    auth ← auth_attributes c
    create_message c 0x0008 transaction_id (peer ∷ auth) true

  unfoldable pub create_send_indication : Credentials → Buffer → Buffer → ℕ → Buffer → Result Buffer
  create_send_indication c transaction_id peer_address peer_port bytes = do
    peer ← create_xor_peer_address_attribute (dotted peer_address) peer_port
    content ← create_string_attribute 0x0013 bytes
    create_message c 0x0016 transaction_id (peer ∷ content ∷ []) false

-- The number of an address is its four bytes, the first at the top.
addr_int_lem :
    (a b c d : ℕ)
    → a < 256
    → b < 256
    → c < 256
    → d < 256
    → addr_int (a ∷ b ∷ c ∷ d ∷ []) ≡ a * 16777216 + b * 65536 + c * 256 + d
addr_int_lem a b c d p q r t =
    let top : to_uint32 (a * 16777216) ≡ a * 16777216 = omega arith in
    let second : to_uint32 (b * 65536) ≡ b * 65536 = omega arith in
    let third : to_uint32 (c * 256) ≡ c * 256 = omega arith in
    let last : to_uint32 d ≡ d = omega arith in
    rw (top, second, third, last) (bit_or_bytes a b c d q r t)

-- `#parseXorAddress` reads back, from the value of the attribute that `#createXorPeerAddressAttribute`
-- wrote for an IPv4 address and a port, that address, its four bytes in their order, and that port.
pub parse_xor_address-create :
    (a b c d port : ℕ)
    → a < 256
    → b < 256
    → c < 256
    → d < 256
    → port < 65536
    → (attribute : Buffer) × (create_xor_peer_address_attribute (a ∷ b ∷ c ∷ d ∷ []) port
        ≡ ok attribute)
      × (parse_xor_address (drop 4 attribute)
          ≡ ok (some (record { port = port; address = a ∷ b ∷ c ∷ d ∷ [] })))
unfolding create_xor_peer_address_attribute parse_xor_address
parse_xor_address-create a b c d port p q r t h =
    let n : ℕ = a * 16777216 + b * 65536 + c * 256 + d in
    let number : addr_int (a ∷ b ∷ c ∷ d ∷ []) ≡ n = addr_int_lem a b c d p q r t in
    let x : ℕ = bit_xor port (magic_cookie / 65536) in
    let y : ℕ = bit_xor n magic_cookie in
    let small_x : ltb x 65536 ≡ true =
      lt→ltb x 65536 (bit_xor-IsU16 port (magic_cookie / 65536) h (omega arith)) in
    let bound : y < 4294967296 = bit_xor-IsU32 n magic_cookie (omega arith) (omega arith) in
    let same_y : to_uint32 y ≡ y = omega (arith, bound) in
    let small_y : ltb y 4294967296 ≡ true = lt→ltb y 4294967296 bound in
    let at_a : n / 16777216 % 256 ≡ a = omega arith in
    let at_b : n / 65536 % 256 ≡ b = omega arith in
    let at_c : n / 256 % 256 ≡ c = omega arith in
    let at_d : n % 256 ≡ d = omega arith in
    (
      0 ∷ 0x12 ∷ 0 ∷ 8 ∷ 0 ∷ 1 ∷ (be16 x ++ be32 y),
      rw (number, small_x, same_y, small_y) refl,
      rw
          (
            be16_lem x,
            be32_lem y,
            bit_xor_twice port (magic_cookie / 65536),
            bit_xor_twice n magic_cookie,
            at_a,
            at_b,
            at_c,
            at_d,
          )
          refl,
    )
