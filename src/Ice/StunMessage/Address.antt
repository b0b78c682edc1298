-- ===== src/Ice/StunMessage/Address.antt =====
-- XOR-MAPPED-ADDRESS.
use Prim.Native.Nat.{bit_xor}
use node_rtc_connection.Prelude.{
  ℕ, ◌/◌, ◌<◌, ◌≡◌, refl, List, true, ltb, lt→ltb, arith, ok, ◌∷◌, ◌++◌,
}
use node_rtc_connection.Buffer.{Buffer, to_uint32, be16, be32}
use node_rtc_connection.Bits.{bit_xor-IsU16}
use node_rtc_connection.Ice.StunMessage.{encode_xor_address, addr_int, magic_cookie}

abbrev pub xor_address_bytes : List ℕ → ℕ → Buffer
xor_address_bytes parts port =
    0
    ∷ 1
    ∷ (be16 (bit_xor port (magic_cookie / 65536))
        ++ be32 (to_uint32 (bit_xor (addr_int parts) magic_cookie)))

pub encode_xor_address_lem :
    (parts : List ℕ) (port : ℕ)
    → port < 65536
    → encode_xor_address parts port ≡ ok (xor_address_bytes parts port)
unfolding encode_xor_address
encode_xor_address_lem parts port h =
    let fits : ltb (bit_xor port (magic_cookie / 65536)) 65536 ≡ true =
      lt→ltb _ 65536 (bit_xor-IsU16 port (magic_cookie / 65536) h (omega arith)) in
    let low : ltb (to_uint32 (bit_xor (addr_int parts) magic_cookie)) 4294967296 ≡ true =
      ground arith in
    rw (fits, low) refl
