-- ===== src/Build/Certs/Tests.antt =====
-- A build with a key and no certificate makes a pair of its own.
use single_binary_static_web.Prelude.{
  ◌≡◌, refl, ◌⊎◌, [], ◌∷◌, ◌++◌, Bool, Option, none, some, Text, codes, text_eq,
}
use single_binary_static_web.Build.Certs.{CertTools, setup_tls}
use single_binary_static_web.Build.Certs.Chosen.{AreOfFiles, AreSelfSigned, setup_tls_cases}

abbrev tools : CertTools
tools = record {
  certs = λ pem. some pem ∷ [];
  private_key = λ pem. some (some pem);
  self_signed = λ host. some (host ++ codes ".crt", host ++ codes ".key");
}

unfoldable key_only : Text → Bool
unfolding text_eq
key_only file = text_eq file (codes "../certs/key.pem")

abbrev read : Text → Option Text
read file = some (codes "K")

self_made :
    setup_tls tools key_only read (λ name. none)
    ≡ some (codes "localhost.crt", codes "localhost.key")
unfolding setup_tls key_only
self_made = refl

key_only_is_unused :
    AreOfFiles tools key_only read (codes "localhost.crt") (codes "localhost.key")
    ⊎ AreSelfSigned tools key_only (λ name. none) (codes "localhost.crt") (codes "localhost.key")
key_only_is_unused = setup_tls_cases tools key_only read (λ name. none) self_made
