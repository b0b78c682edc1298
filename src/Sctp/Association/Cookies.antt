-- ===== src/Sctp/Association/Cookies.antt =====
-- What `#handleCookieEcho` lets pass.
use node_rtc_connection.Prelude.{
  ◌≤◌, ◌<◌, ◌≡◌, refl, sym, ap, ◌≢◌, inl, inr, true, false, Option, none, some, [], ◌∷◌, arith, leb,
  ◌==◌, Bool-cases, length, drop, length-take, length-drop, ok,
}
use node_rtc_connection.Buffer.Equality.{timing_safe_equal, bytes_equal-false}
use node_rtc_connection.Buffer.{Buffer, slice, alloc}
use node_rtc_connection.Sctp.Association.{
  Assoc, State, closed, cookie_wait, cookie_echoed, established, state_eq,
}
use node_rtc_connection.Sctp.Association.Monad.{returned}
use node_rtc_connection.Sctp.Chunks.{ParsedChunk, encode_chunk, cookie_ack}
use node_rtc_connection.Sctp.Chunks.Layout.{chunk_bytes, encode_chunk_lem}
use node_rtc_connection.Sctp.Association.Packets.{HasPorts, emit_packet_lem}
use node_rtc_connection.Sctp.Association.Setup.{
  handle_cookie_echo, accept_cookie, check_cookie, establish,
}

state_eq-established : (s : State) → state_eq s established ≡ true → s ≡ established
state_eq-established established h = refl
state_eq-established closed h = cc
state_eq-established cookie_wait h = cc
state_eq-established cookie_echoed h = cc

establish_lem :
    (a : Assoc)
    → ((establish a).result ≡ ok tt) × ((establish a).assoc ≡ record a { state = established })
unfolding establish
establish_lem a = elim (Bool-cases (state_eq a.state established)) [
  | inl h ↦ rw h (
    refl,
    sym (ap (λ (s : State). record a { state = s }) (sym (state_eq-established a.state h))),
  )
  | inr h ↦ rw h (refl, refl)
]

module _ (hmac : Buffer → Buffer → Buffer) (fresh_secret : Buffer) where
  accept_cookie_lem :
      (a : Assoc)
      → HasPorts a
      → ((accept_cookie hmac fresh_secret a).result ≡ ok tt)
        × ((accept_cookie hmac fresh_secret a).assoc ≡ record a { state = established })
  unfolding accept_cookie
  accept_cookie_lem a v =
      let encoded : encode_chunk cookie_ack 0 (alloc 0) ≡ ok (chunk_bytes cookie_ack 0 []) =
        encode_chunk_lem cookie_ack 0 [] in
      let (p, emitted, _) = emit_packet_lem a.remote_tag (chunk_bytes cookie_ack 0 [] ∷ []) a v in
      rw (encoded, emitted) (establish_lem a)

  unchecked :
      (chunk : ParsedChunk) (a : Assoc)
      → HasPorts a
      → length chunk.body < 48
      → (secret : Option Buffer)
      → ((check_cookie hmac fresh_secret chunk.body secret a).result ≡ ok tt)
        × ((check_cookie hmac fresh_secret chunk.body secret a).assoc
            ≡ record a { state = established })
  unfolding check_cookie
  unchecked chunk a v short none = accept_cookie_lem a v
  unchecked chunk a v short (some secret) =
      let is_short : leb 48 (length chunk.body) ≡ false = ground arith in
      rw is_short (accept_cookie_lem a v)

  -- A COOKIE_ECHO whose cookie is shorter than 48 bytes establishes an association with 16-bit ports,
  -- whatever its state is and whatever the cookie holds, and changes nothing else in it.
  pub short_cookie :
      (chunk : ParsedChunk) (a : Assoc)
      → HasPorts a
      → length chunk.body < 48
      → ((handle_cookie_echo hmac fresh_secret chunk a).result ≡ ok tt)
        × ((handle_cookie_echo hmac fresh_secret chunk a).assoc ≡ record a { state = established })
  unfolding handle_cookie_echo
  short_cookie chunk a v short = unchecked chunk a v short a.cookie_secret

  -- Where the association has a secret and the cookie has 48 bytes or more, and the MACs have 32 bytes,
  -- a cookie whose bytes from 16 to 48 are not the MAC of its first 16 changes nothing and emits
  -- nothing, and nothing throws.
  pub forged_cookie :
      (chunk : ParsedChunk) (secret : Buffer) (a : Assoc)
      → ((key bytes : Buffer) → length (hmac key bytes) ≡ 32)
      → a.cookie_secret ≡ some secret
      → 48 ≤ length chunk.body
      → slice chunk.body 16 48 ≢ hmac secret (slice chunk.body 0 16)
      → handle_cookie_echo hmac fresh_secret chunk a ≡ returned tt a []
  unfolding handle_cookie_echo check_cookie timing_safe_equal
  forged_cookie chunk secret a sized known long other =
      let is_long : leb 48 (length chunk.body) ≡ true = ground arith in
      let same_size : (length (slice chunk.body 16 48)
            == length (hmac secret (slice chunk.body 0 16)))
          ≡ true =
        ground (
          arith,
          sized secret (slice chunk.body 0 16),
          length-take 32 (drop 16 chunk.body),
          length-drop 16 chunk.body,
        ) in
      let differ = bytes_equal-false _ _ other in rw (known, is_long, same_size, differ)
