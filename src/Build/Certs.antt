-- ===== src/Build/Certs.antt =====
-- `setup_tls` of rust-server/build_helpers/tls.rs: the certificate and the key that the generated module
-- embeds. What rustls_pemfile and rcgen return is an argument; the files of `certs/` and the environment
-- are functions, writing succeeds, and a failed `expect` is `none`.
pub mod Chosen
mod Tests
use single_binary_static_web.Prelude.{
  Bool, ◌&&◌, List, [], ◌∷◌, Option, none, some, ◌>>=◌, unwrap_or, if◌then◌else◌, Text, codes,
}

pub record CertTools : Type 0 where
  -- the items of `certs`, each a certificate or an error
  pub certs : Text → List (Option Text)
  -- an error, no key, or a key
  pub private_key : Text → Option (Option Text)
  -- the certificate and the key of `self_signed`, with the fixed names and dates, for a host
  pub self_signed : Text → Option (Text × Text)

-- `.next().expect(...).expect(...)`
abbrev pub first_cert : List (Option Text) → Option Text
first_cert [] = none
first_cert (item ∷ items) = item

abbrev pub hostname : (Text → Option Text) → Text
hostname env = unwrap_or (env (codes "HOSTNAME")) (codes "localhost")

abbrev pub from_files : CertTools → (cert_pem key_pem : Option Text) → Option (Text × Text)
from_files tools cert_pem key_pem = do
  cert ← cert_pem
  key ← key_pem
  cert_der ← first_cert (tools.certs cert)
  found ← tools.private_key key
  key_der ← found
  some (cert_der, key_der)

-- `cert.der` and `key.der`
unfoldable pub setup_tls :
    CertTools
    → (exists : Text → Bool) → (read : Text → Option Text) → (env : Text → Option Text)
    → Option (Text × Text)
setup_tls tools exists read env =
    let cert_pem_path = codes "../certs/cert.pem" in
    let key_pem_path = codes "../certs/key.pem" in
    if exists cert_pem_path && exists key_pem_path
    then from_files tools (read cert_pem_path) (read key_pem_path)
    else tools.self_signed (hostname env)
