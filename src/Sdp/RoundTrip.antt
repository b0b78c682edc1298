-- ===== src/Sdp/RoundTrip.antt =====
-- What the parsers make of a description that was written here.
use node_rtc_connection.Prelude.{ℕ, ◌≡◌, refl, ap, ◌∙◌, true, Option, some, none, [], ◌∷◌, ◌++◌}
use node_rtc_connection.Dtls.Cipher.{ascii}
use node_rtc_connection.PeerConnection.{
  Fingerprint, Setup, IceParameters, active, passive, actpass, SdpOptions,
}
use node_rtc_connection.Sdp.{
  decimal, fingerprint_lines, sdp_lines, build_sdp, split_lines, parse_ice_parameters,
  parse_candidates, candidate_lines, ice_lines, last_lines, trim,
}
use node_rtc_connection.Sdp.Lines.{
  one_word, all_lines, split_lines-joined, trim_lem, one_line-append, one_word-one_line,
  one_line-decimal,
}

-- The options that can be read back: ICE credentials without white space, and a fingerprint without
-- line breaks.
pub record IsPlain (o : SdpOptions) : Type 0 where
  pub ufrag : one_word o.ice_ufrag ≡ true
  pub pwd : one_word o.ice_pwd ≡ true
  pub print : all_lines (fingerprint_lines o.fingerprint) ≡ true

last_lines_plain :
    (f : Option Fingerprint) (s : Setup)
    → all_lines (fingerprint_lines f) ≡ true
    → all_lines (fingerprint_lines f ++ last_lines s) ≡ true
last_lines_plain none active h = refl
last_lines_plain none passive h = refl
last_lines_plain none actpass h = refl
last_lines_plain (some f) active h = h
last_lines_plain (some f) passive h = h
last_lines_plain (some f) actpass h = h

sdp_lines_plain :
    (session_id : ℕ) (o : SdpOptions) → IsPlain o → all_lines (sdp_lines session_id o) ≡ true
sdp_lines_plain session_id o w =
    rw
      (
        one_line-append (decimal 10 session_id) (ascii " 2 IN IP4 127.0.0.1")
            (one_line-decimal 10 session_id) refl,
        one_word-one_line o.ice_ufrag w.ufrag,
        one_word-one_line o.ice_pwd w.pwd,
      )
      (last_lines_plain o.fingerprint o.setup w.print)

split_lem :
    (session_id : ℕ) (o : SdpOptions)
    → IsPlain o
    → split_lines (build_sdp session_id o) ≡ sdp_lines session_id o ++ ([] ∷ [])
unfolding build_sdp
split_lem session_id o w =
    split_lines-joined (sdp_lines session_id o) (sdp_lines_plain session_id o w)

-- No line behind the credentials changes them, or is a candidate.
ice_lines-last :
    (f : Option Fingerprint) (s : Setup) (p : IceParameters)
    → ice_lines p ((fingerprint_lines f ++ last_lines s) ++ ([] ∷ [])) ≡ p
ice_lines-last none s p = refl
ice_lines-last (some f) s p = refl

candidate_lines-last :
    (f : Option Fingerprint) (s : Setup)
    → candidate_lines ((fingerprint_lines f ++ last_lines s) ++ ([] ∷ [])) ≡ []
candidate_lines-last none s = refl
candidate_lines-last (some f) s = refl

pub parse_ice_parameters-build_sdp :
    (session_id : ℕ) (o : SdpOptions)
    → IsPlain o
    → parse_ice_parameters (build_sdp session_id o)
      ≡ record { username_fragment = some o.ice_ufrag; password = some o.ice_pwd }
unfolding parse_ice_parameters
parse_ice_parameters-build_sdp session_id o w =
    let blank : IceParameters = record { username_fragment = none; password = none } in
    ap (ice_lines blank) (split_lem session_id o w)
    ∙ ice_lines-last o.fingerprint o.setup
        (record { username_fragment = some (trim o.ice_ufrag); password = some (trim o.ice_pwd) })
    ∙ rw (trim_lem o.ice_ufrag w.ufrag, trim_lem o.ice_pwd w.pwd) refl

-- No candidates are found in it.
pub parse_candidates-build_sdp :
    (session_id : ℕ) (o : SdpOptions) → IsPlain o → parse_candidates (build_sdp session_id o) ≡ []
unfolding parse_candidates
parse_candidates-build_sdp session_id o w =
    ap candidate_lines (split_lem session_id o w) ∙ candidate_lines-last o.fingerprint o.setup
