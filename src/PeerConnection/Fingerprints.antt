-- ===== src/PeerConnection/Fingerprints.antt =====
-- Which certificates a connection takes for its peer's.
use node_rtc_connection.Prelude.{
  ℕ, suc, ◌≡◌, ◌↔◌, refl, true, false, Option, none, some, List, [], ◌∷◌, length, ◌==◌, arith,
  get_elem?, Bool-cases, inl, inr, zero,
}
use node_rtc_connection.Buffer.Equality.{bytes_equal-true, bytes_equal_refl}
use node_rtc_connection.Effects.{and_then-Keeps}
use node_rtc_connection.PeerConnection.{
  SdpUtils, Certificate, Description, Fingerprint, Peer, Stack, IceRole, DtlsRole,
}
use node_rtc_connection.PeerConnection.Signaling.{
  remote_description_ready, remote_applied, setup_roles_and_stack, roles_and_stack, stack_with,
  maybe_start_checks,
}
use node_rtc_connection.PeerConnection.Transport.{
  verify_remote_fingerprint, any_same, same_fingerprint, to_upper_case,
}

same_fingerprint_iff :
    (fp rf : Fingerprint)
    → (same_fingerprint fp rf ≡ true)
      ↔ ((rf.algorithm ≡ fp.algorithm) × (to_upper_case rf.value ≡ to_upper_case fp.value))
same_fingerprint_iff fp rf = (
  λ h. (bytes_equal-true _ _ (ground (arith, h)), bytes_equal-true _ _ (ground (arith, h))),
  λ e. rw (e.0, e.1, bytes_equal_refl fp.algorithm, bytes_equal_refl (to_upper_case fp.value)) refl,
)

-- Some fingerprint of a list is the same as another: the algorithm, and the value but for its case.
abbrev pub Matches : Fingerprint → List Fingerprint → Type 0
Matches fp fs =
    (i : ℕ) × (rf : Fingerprint) × (get_elem? fs i ≡ some rf)
    × (rf.algorithm ≡ fp.algorithm)
    × (to_upper_case rf.value ≡ to_upper_case fp.value)

same_fingerprint-Matches :
    (fp rf : Fingerprint) (more : List Fingerprint)
    → same_fingerprint fp rf ≡ true
    → Matches fp (rf ∷ more)
same_fingerprint-Matches fp rf more h =
    let e = (same_fingerprint_iff fp rf).0 h in (0, rf, refl, e.0, e.1)

any_same-Matches :
    (fp : Fingerprint) (fs : List Fingerprint) → any_same fp fs ≡ true → Matches fp fs
unfolding any_same
any_same-Matches fp [] h = absurd (cc h)
any_same-Matches fp (rf ∷ more) h = elim (Bool-cases (same_fingerprint fp rf)) [
  | inl same ↦ same_fingerprint-Matches fp rf more same
  | inr other ↦
      let (i, g, there, e, e') = any_same-Matches fp more (rw other at h) in
      (suc i, g, there, e, e')
]

any_same_found :
    (fp rf : Fingerprint) (fs : List Fingerprint) (i : ℕ)
    → get_elem? fs i ≡ some rf
    → same_fingerprint fp rf ≡ true
    → any_same fp fs ≡ true
unfolding any_same
any_same_found fp rf [] i there same = absurd (cc there)
any_same_found fp rf (g ∷ more) zero there same =
    let e : same_fingerprint fp g ≡ true = cc (there, same) in rw e
any_same_found fp rf (g ∷ more) (suc i) there same = elim (Bool-cases (same_fingerprint fp g)) [
  | inl e ↦ rw e
  | inr e ↦ rw e (any_same_found fp rf more i there same)
]

stack_with_keeps :
    (c : Option Certificate) (i : IceRole) (r : DtlsRole) (q : Peer)
    → (stack_with c i r q).state.remote_fingerprints ≡ q.remote_fingerprints
unfolding stack_with
stack_with_keeps none i r q = refl
stack_with_keeps (some c) i r q = elim (Bool-cases c.has_der) [ inl e ↦ rw e | inr e ↦ rw e ]

setup_keeps :
    (s : Option Stack) (q : Peer)
    → (roles_and_stack s q).state.remote_fingerprints ≡ q.remote_fingerprints
unfolding roles_and_stack
setup_keeps (some s) q = refl
setup_keeps none q = stack_with_keeps q.certificate _ _ q

module _ (sdp : SdpUtils) where
  known_fingerprints :
      (p : Peer) (d : Description) (generated : Certificate)
      → (remote_description_ready sdp d generated p).state.remote_fingerprints
        ≡ (sdp.parse_dtls_parameters d.sdp).fingerprints
  unfolding remote_description_ready setup_roles_and_stack remote_applied maybe_start_checks
  known_fingerprints p d generated =
      and_then-Keeps
        (λ (q : Peer). q.remote_fingerprints ≡ (sdp.parse_dtls_parameters d.sdp).fingerprints) _ _ _
        (λ x. remote_applied sdp d (sdp.parse_ice_parameters d.sdp)) (setup_keeps p.stack _)
        (λ x q e. e)

  -- Once a remote description with fingerprints is in place, a certificate's fingerprint passes
  -- exactly when the description has one of the same algorithm and of the same value, whatever the
  -- case of its letters.
  pub verify_remote_fingerprint_lem :
      (p : Peer) (d : Description) (generated : Certificate) (fp f : Fingerprint)
      (fs : List Fingerprint)
      → (sdp.parse_dtls_parameters d.sdp).fingerprints ≡ f ∷ fs
      → (verify_remote_fingerprint (remote_description_ready sdp d generated p).state fp ≡ true)
        ↔ Matches fp (f ∷ fs)
  unfolding verify_remote_fingerprint
  verify_remote_fingerprint_lem p d generated fp f fs h =
      let some_there : (length (f ∷ fs) == 0) ≡ false = ground arith in
      rw (known_fingerprints p d generated, h, some_there)
        (
          any_same-Matches fp (f ∷ fs),
          λ m. any_same_found fp m.1 (f ∷ fs) m.0 m.2 ((same_fingerprint_iff fp m.1).1 (m.3, m.4)),
        )

  -- A remote description without fingerprints has every certificate pass.
  pub unfingerprinted_lem :
      (p : Peer) (d : Description) (generated : Certificate) (fp : Fingerprint)
      → (sdp.parse_dtls_parameters d.sdp).fingerprints ≡ []
      → verify_remote_fingerprint (remote_description_ready sdp d generated p).state fp ≡ true
  unfolding verify_remote_fingerprint
  unfingerprinted_lem p d generated fp h = rw (known_fingerprints p d generated, h)
