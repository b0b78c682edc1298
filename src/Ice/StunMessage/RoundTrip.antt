-- ===== src/Ice/StunMessage/RoundTrip.antt =====
-- A message of a connectivity check from one agent to the other.
use node_rtc_connection.Prelude.{
  ℕ, ◌⊎◌, zero, suc, ◌+◌, ◌-◌, ◌*◌, ◌≤◌, ◌<◌, ◌≡◌, refl, ap, ◌∙◌, Bool, true, false, inl, inr, none,
  some, List, [], ◌∷◌, ◌++◌, arith, leb, ◌==◌, if◌then◌else◌, Bool-cases, length, drop, length-drop,
  All, All-append, ok, lt→ltb, length-take, take,
}
use node_rtc_connection.Buffer.{Buffer, be16, slice, write_uint16_be}
use node_rtc_connection.Buffer.Fields.{four_bytes}
use node_rtc_connection.Buffer.Equality.{bytes_equal, timing_safe_equal, bytes_equal_refl}
use native.Mathlib.Decide.{dec_le}
use node_rtc_connection.Sctp.Chunks.{pad4}
use node_rtc_connection.Ice.StunMessage.{
  StunAttribute, StunMessageBuilder, ParsedStunMessage, parse, build, find_integrity,
  check_integrity, message_integrity, verify_integrity,
}
use node_rtc_connection.Ice.StunMessage.Layout.{
  body_bytes, Fits, IsBuildable, build_lem, sent_attrs, signed_attrs, integrity_of,
}
use node_rtc_connection.Ice.StunMessage.Parse.{
  message_bytes, parse-message, collected, parse_accepted,
}
use node_rtc_connection.Ice.StunMessage.Verify.{IsOther, verify_integrity_lem, find_round}

-- `writeUInt16BE` in place of the length returns where the length fits.
written :
    (n : ℕ) (buf : Buffer)
    → 4 ≤ length buf
    → n < 65536
    → (out : Buffer) × (write_uint16_be n 2 buf ≡ ok out)
written n buf h l =
    let fits : leb (2 + 2) (length buf) ≡ true = ground arith in
    (take 2 buf ++ (be16 n ++ drop 4 buf), rw (lt→ltb n 65536 l, fits))

compared :
    (a b : Buffer)
    → (answer : Bool) × ((if length a == length b then timing_safe_equal a b else ok false)
        ≡ ok answer)
unfolding timing_safe_equal
compared a b = elim (Bool-cases (length a == length b)) [
  | inl same ↦ (bytes_equal a b, rw same)
  | inr other ↦ (false, rw other)
]

find_integrity_returns :
    (fuel : ℕ) (msg : Buffer) (end off : ℕ)
    → end ≤ length msg
    → length msg - off < fuel
    → (find_integrity fuel msg end off ≡ ok none)
      ⊎ ((at : ℕ) × (find_integrity fuel msg end off ≡ ok (some at)) × (at + 4 ≤ end))
unfolding find_integrity
find_integrity_returns zero msg end off e h = absurd (omega arith)
find_integrity_returns (suc fuel) msg end off e h = elim (dec_le (off + 4) end) [
  | no p ↦ inl (let e : leb (off + 4) end ≡ false = ground arith in rw e)
  | yes p ↦
      let (a, b, c, d, rest, here) =
        four_bytes (drop off msg) (omega (arith, length-drop {0} off msg)) in
      elim (Bool-cases (a * 256 + b == message_integrity)) [
        | inl found ↦ inr (off, rw (find_round msg end off a b c d rest here fuel p, found), p)
        | inr other ↦
            rw (find_round msg end off a b c d rest here fuel p, other)
              (find_integrity_returns fuel msg end (off + (4 + pad4 (c * 256 + d))) e (omega arith))
      ]
]

module _ (hmac_sha1 : Buffer → Buffer → Buffer)
    (length-hmac : (key bytes : Buffer) → length (hmac_sha1 key bytes) ≡ 20) where
  signed_attrs-Fits :
      (b : StunMessageBuilder) (password : Buffer)
      → All Fits b.attrs
      → All Fits (signed_attrs hmac_sha1 b password)
  signed_attrs-Fits b [] f = f
  signed_attrs-Fits b (c ∷ cs) f =
      let long : length (integrity_of hmac_sha1 b (c ∷ cs) (body_bytes b.attrs)).value ≡ 20 =
        length-hmac _ _ in
      All-append Fits b.attrs _ f ((omega arith, omega (arith, long)), tt)

  pub sent_attrs-Fits :
      (b : StunMessageBuilder) (password : Buffer)
      → All Fits b.attrs
      → All Fits (sent_attrs hmac_sha1 b password)
  sent_attrs-Fits b password f =
      All-append Fits (signed_attrs hmac_sha1 b password) _ (signed_attrs-Fits b password f)
        ((omega arith, omega arith), tt)

  pub parse-sent :
      (b : StunMessageBuilder) (password : Buffer)
      → IsBuildable b
      → parse (message_bytes b.type b.transaction_id (sent_attrs hmac_sha1 b password))
        ≡ ok (
            some (record {
              type = b.type;
              transaction_id = b.transaction_id;
              attrs = collected (sent_attrs hmac_sha1 b password) [];
              raw = message_bytes b.type b.transaction_id (sent_attrs hmac_sha1 b password);
            }))
  parse-sent b password w =
      parse-message b.type b.transaction_id (sent_attrs hmac_sha1 b password) w.id_is_whole
        (sent_attrs-Fits b password w.attrs_fit)

  -- `parse` reads back what `build` makes, with or without a password, of a builder whose type fits 16
  -- bits, whose transaction id has 12 bytes, whose attributes' types and lengths fit 16 bits, and whose
  -- attributes leave room in the 16-bit length for the 32 bytes of MESSAGE-INTEGRITY and FINGERPRINT:
  -- the type, the transaction id, and the attributes with those two behind them, collected into a map
  -- by their type, where the last value of a type stands. The digests of HMAC-SHA1 have 20 bytes.
  pub parse-build :
      (b : StunMessageBuilder) (password : Buffer)
      → IsBuildable b
      → (message : Buffer) × (build hmac_sha1 b password ≡ ok message)
        × (parse message
            ≡ ok (
                some (record {
                  type = b.type;
                  transaction_id = b.transaction_id;
                  attrs = collected (sent_attrs hmac_sha1 b password) [];
                  raw = message;
                })))
  parse-build b password w = (
    message_bytes b.type b.transaction_id (sent_attrs hmac_sha1 b password),
    build_lem hmac_sha1 length-hmac b password w,
    parse-sent b password w,
  )

  -- Attributes that are put behind the MESSAGE-INTEGRITY of a message, with its length raised, are
  -- parsed with the others, and the message passes `verifyIntegrity` as before.
  pub appended_lem :
      (b : StunMessageBuilder) (first : ℕ) (more : Buffer) (later : List StunAttribute)
      → IsBuildable b
      → All IsOther b.attrs
      → All Fits later
      → let m = integrity_of hmac_sha1 b (first ∷ more) (body_bytes b.attrs) in
        let message = message_bytes b.type b.transaction_id (b.attrs ++ (m ∷ later)) in
        (verify_integrity hmac_sha1 message (first ∷ more) ≡ ok true)
        × (parse message
            ≡ ok (
                some (record {
                  type = b.type;
                  transaction_id = b.transaction_id;
                  attrs = collected (b.attrs ++ (m ∷ later)) [];
                  raw = message;
                })))
  appended_lem b first more later w o f =
      let m = integrity_of hmac_sha1 b (first ∷ more) (body_bytes b.attrs) in
      let long : length m.value ≡ 20 = length-hmac _ _ in
      (
        verify_integrity_lem hmac_sha1 length-hmac b.type b.transaction_id (first ∷ more) b.attrs
              later m w.id_is_whole o refl long (omega (arith, w.room))
            ∙ ap ok (bytes_equal_refl m.value),
        parse-message b.type b.transaction_id (b.attrs ++ (m ∷ later)) w.id_is_whole
            (All-append Fits b.attrs _ w.attrs_fit ((omega arith, omega (arith, long)), f)),
      )

  check_integrity_returns :
      (msg password : Buffer) (at : ℕ)
      → 20 ≤ length msg
      → length msg < 65536
      → at + 4 ≤ length msg
      → (answer : Bool) × (check_integrity hmac_sha1 msg password (some at) ≡ ok answer)
  unfolding check_integrity
  check_integrity_returns msg password at h l r =
      let (head, wrote) =
        written (at + 24 - 20) (slice msg 0 20) (omega (arith, length-take {0} 20 msg))
          (omega arith) in
      rw wrote
        (compared (slice msg (at + 4) (at + 4 + 20)) (hmac_sha1 password (head ++ slice msg 20 at)))

  -- On a datagram that `parse` accepts, `verifyIntegrity` returns: it throws under no password.
  pub verify_integrity_returns :
      (msg password : Buffer) (p : ParsedStunMessage)
      → length msg < 65536
      → parse msg ≡ ok (some p)
      → (answer : Bool) × (verify_integrity hmac_sha1 msg password ≡ ok answer)
  unfolding verify_integrity check_integrity
  verify_integrity_returns msg password p l h =
      let (size, reads, room, raw) = parse_accepted msg p h in
      rw reads
        (elim (find_integrity_returns (suc (length msg)) msg (20 + size) 20 room (omega arith)) [
          | inl nowhere ↦ (false, rw nowhere)
          | inr (at, found, inside) ↦
              rw found (check_integrity_returns msg password at (omega arith) l (omega arith))
        ])
