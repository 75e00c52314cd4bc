-- ===== src/Build/Certs/Chosen.antt =====
-- Where the certificate and the key come from.
use single_binary_static_web.Prelude.{
  ◌≡◌, refl, ◌∙◌, ap, ◌⊎◌, inl, inr, Bool, true, false, Option, some, some_inj, >>=-eq-some,
  Bool-cases, Text, codes,
}
use single_binary_static_web.Build.Certs.{CertTools, first_cert, hostname, setup_tls}

-- Both are of the two files of `certs/`, which are there.
pub record AreOfFiles (tools : CertTools) (exists : Text → Bool) (read : Text → Option Text)
    (cert key : Text) : Type 0 where
  pub cert_there : exists (codes "../certs/cert.pem") ≡ true
  pub key_there : exists (codes "../certs/key.pem") ≡ true
  pub cert_pem : Text
  pub key_pem : Text
  pub cert_read : read (codes "../certs/cert.pem") ≡ some cert_pem
  pub key_read : read (codes "../certs/key.pem") ≡ some key_pem
  pub cert_is : first_cert (tools.certs cert_pem) ≡ some cert
  pub key_is : tools.private_key key_pem ≡ some (some key)

-- One of the two files is missing, and both are made for the host.
pub record AreSelfSigned (tools : CertTools) (exists : Text → Bool) (env : Text → Option Text)
    (cert key : Text) : Type 0 where
  pub missing :
      (exists (codes "../certs/cert.pem") ≡ false) ⊎ (exists (codes "../certs/key.pem") ≡ false)
  pub made : tools.self_signed (hostname env) ≡ some (cert, key)

-- A build embeds the certificate and the key of the two files of `certs/`, if both are there, and
-- otherwise a pair that is made for HOSTNAME or localhost: never one of a file with one that was made.
pub setup_tls_cases :
    (tools : CertTools) (exists : Text → Bool) (read env : Text → Option Text) {cert key : Text}
    → setup_tls tools exists read env ≡ some (cert, key)
    → AreOfFiles tools exists read cert key ⊎ AreSelfSigned tools exists env cert key
unfolding setup_tls
setup_tls_cases tools exists read env {cert} {key} made =
    elim (Bool-cases (exists (codes "../certs/cert.pem"))) [
      | inr no_cert ↦ inr (record { missing = inl no_cert; made = rw no_cert at made })
      | inl cert_there ↦ elim (Bool-cases (exists (codes "../certs/key.pem"))) [
        | inr no_key ↦ inr (record { missing = inr no_key; made = rw (cert_there, no_key) at made })
        | inl key_there ↦
            let (cert_pem, cert_read, r1) =
              >>=-eq-some (read (codes "../certs/cert.pem")) _
                (rw (cert_there, key_there) at made) in
            let (key_pem, key_read, r2) = >>=-eq-some (read (codes "../certs/key.pem")) _ r1 in
            let (c, is_cert, r3) = >>=-eq-some (first_cert (tools.certs cert_pem)) _ r2 in
            let (found, parsed, r4) = >>=-eq-some (tools.private_key key_pem) _ r3 in
            let (k, is_key, r5) = >>=-eq-some found _ r4 in
            let same = some_inj r5 in
            inl (record {
              cert_there = cert_there;
              key_there = key_there;
              cert_pem = cert_pem;
              key_pem = key_pem;
              cert_read = cert_read;
              key_read = key_read;
              cert_is = is_cert ∙ ap (λ (x : Text × Text). some x.0) same;
              key_is = parsed ∙ ap some (is_key ∙ ap (λ (x : Text × Text). some x.1) same);
            })
      ]
    ]

-- And each such pair is what the build embeds.
pub setup_tls-chosen :
    (tools : CertTools) (exists : Text → Bool) (read env : Text → Option Text) {cert key : Text}
    → AreOfFiles tools exists read cert key ⊎ AreSelfSigned tools exists env cert key
    → setup_tls tools exists read env ≡ some (cert, key)
unfolding setup_tls
setup_tls-chosen tools exists read env (inl f) =
    rw (f.cert_there, f.key_there, f.cert_read, f.key_read, f.cert_is, f.key_is) refl
setup_tls-chosen tools exists read env (inr s) = elim s.missing [
  | inl no_cert ↦ rw no_cert s.made
  | inr no_key ↦ elim (Bool-cases (exists (codes "../certs/cert.pem"))) [
    | inl there ↦ rw (there, no_key) s.made
    | inr no_cert ↦ rw no_cert s.made
  ]
]
