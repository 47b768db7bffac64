-- ===== src/Transport/Tls/Keys/Same.antt =====
-- state.rs: what two TLS flows that share a session have in common.
use pd_edge.Common.{
  ◌≡◌, refl, ap, ◌∙◌, sym, ℕ, Option, none, some, Bool, true, false, List, [], ◌||◌, not, is_empty,
  if◌then◌else◌, arith,
}
use pd_edge.Common.Bytes.{Text}
use pd_edge.Transport.Tls.{TlsFlowState, is_some}
use pd_edge.Transport.Tls.Clients.{
  requires_custom_client, accepts_negotiated_alpn, some_version, any_eq,
}
use pd_edge.Transport.Tls.Keys.{
  TlsSessionCacheKey, fingerprint_optional_pem, key_of, tls_session_cache_key, tls_session_origin,
}

some_number : Option ℕ → Bool
some_number none = false
some_number (some _) = true

some_number-fingerprint :
    (fingerprint : Text → ℕ) (v : Option Text)
    → is_some v ≡ some_number (fingerprint_optional_pem fingerprint v)
unfolding some_number fingerprint_optional_pem
some_number-fingerprint fingerprint none = refl
some_number-fingerprint fingerprint (some t) = refl

-- `requires_custom_client` and `accepts_negotiated_alpn`, read from a key.
requires : Option TlsSessionCacheKey → Bool
unfolding some_number
requires none = false
requires (some k) =
    not (is_empty k.desired_alpn)
    || not k.verify_peer
    || not k.verify_hostname
    || not k.sni_enabled
    || some_number k.trusted_certificate_fingerprint
    || some_number k.client_certificate_fingerprint
    || some_number k.client_private_key_fingerprint
    || some_version k.min_version
    || some_version k.max_version

protocols : Option TlsSessionCacheKey → List Text
protocols none = []
protocols (some k) = k.desired_alpn

accepts-protocols :
    (n : Option Text) (f g : TlsFlowState)
    → f.desired_alpn ≡ g.desired_alpn
    → accepts_negotiated_alpn n f ≡ accepts_negotiated_alpn n g
unfolding accepts_negotiated_alpn
accepts-protocols none f g e = ap (λ d. is_empty d || false) e
accepts-protocols (some t) f g e = ap (λ d. is_empty d || any_eq t d) e

key-reads_at :
    {A : Type 0} (b : Bool) {c : Bool}
    → c ≡ b
    → (keyed : Option TlsSessionCacheKey) {k : TlsSessionCacheKey}
    → (if not b then none else keyed) ≡ some k
    → (keyed ≡ some k → A)
    → (c ≡ true) × A
key-reads_at true p keyed e h = (p, h e)
key-reads_at false p keyed e h = absurd (ground arith)

module _ (authority_host : Text → Option Text) (fingerprint : Text → ℕ) where
  key_of-reads :
      (f : TlsFlowState) (o : Option Text) (k : TlsSessionCacheKey)
      → key_of authority_host fingerprint f o ≡ some k
      → (requires_custom_client f ≡ requires (some k)) × (f.desired_alpn ≡ k.desired_alpn)
  unfolding key_of requires requires_custom_client protocols
  key_of-reads f none k e = absurd (ground arith)
  key_of-reads f (some origin) k e =
      let h : requires_custom_client f
          ≡ requires (key_of authority_host fingerprint f (some origin)) =
        rw
          (
            some_number-fingerprint fingerprint f.trusted_certificate_pem,
            some_number-fingerprint fingerprint f.client_certificate_pem,
            some_number-fingerprint fingerprint f.client_private_key_pem,
          )
          refl in
      (h ∙ ap requires e, ap protocols e)

  key-reads :
      (scheme host : Text) (port : ℕ) (f : TlsFlowState) (k : TlsSessionCacheKey)
      → tls_session_cache_key authority_host fingerprint scheme host port f ≡ some k
      → (f.present ≡ true)
        × (requires_custom_client f ≡ requires (some k))
        × (f.desired_alpn ≡ k.desired_alpn)
  unfolding tls_session_cache_key
  key-reads scheme host port f k e =
      let keyed =
        key_of authority_host fingerprint f (tls_session_origin authority_host scheme host port) in
      let (p, (q, r)) = key-reads_at f.present refl keyed e (key_of-reads f _ k) in (p, q, r)

  -- When two flows, with whatever targets, have the same session cache key, so that one can take up
  -- a session the other left, TLS is present in both, both need a custom client or neither does, and
  -- they accept the same negotiated protocols. This holds for every hash of the certificates.
  pub same_key :
      (scheme₁ host₁ scheme₂ host₂ : Text) (port₁ port₂ : ℕ) (f g : TlsFlowState)
      (k : TlsSessionCacheKey) (n : Option Text)
      → tls_session_cache_key authority_host fingerprint scheme₁ host₁ port₁ f ≡ some k
      → tls_session_cache_key authority_host fingerprint scheme₂ host₂ port₂ g ≡ some k
      → (f.present ≡ true)
        × (g.present ≡ true)
        × (requires_custom_client f ≡ requires_custom_client g)
        × (accepts_negotiated_alpn n f ≡ accepts_negotiated_alpn n g)
  same_key scheme₁ host₁ scheme₂ host₂ port₁ port₂ f g k n d e =
      let (p, q, r) = key-reads scheme₁ host₁ port₁ f k d in
      let (s, t, u) = key-reads scheme₂ host₂ port₂ g k e in
      (p, s, q ∙ sym t, accepts-protocols n f g (r ∙ sym u))
