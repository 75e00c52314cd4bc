-- ===== src/Build/Csp.antt =====
-- rust-server/build_helpers/csp.rs: the Content-Security-Policy of each file. The environment is a
-- parameter, and the map of the file hashes the list of its entries in the order of its iterator.
pub mod Policy
pub mod Sources
use single_binary_static_web.Prelude.{
  Bool, true, false, List, [], ◌∷◌, ◌++◌, map, Option, none, some, unwrap_or, if◌then◌else◌, any,
  filter, Text, codes, text_eq, ends_with, contains, join, to_lowercase,
}
use single_binary_static_web.Build.Files.{extension}

pub record CspValues : Type 0 where
  pub script_src : Text
  pub style_src : Text
  pub img_src : Text
  pub font_src : Text
  pub media_src : Text
  pub frame_src : Text
  pub form_action : Text
  pub connect_src : Text

abbrev pub self_source : Text
self_source = codes "'self'"

abbrev self_inline : Text
self_inline = codes "'self' 'unsafe-inline'"

unfoldable pub resolve_origin : Option Text → Text
unfolding contains
resolve_origin none = self_source
resolve_origin (some val) = if contains val self_source then val else self_source ++ (b' ' ∷ val)

-- `format!("'sha256-{h}'")`
abbrev pub hash_source : Text → Text
hash_source h = codes "'sha256-" ++ (h ++ codes "'")

unfoldable pub collect_hashes : List (Text × Text) → List Text → List Text
unfolding ends_with
collect_hashes file_hashes exts =
    map (λ (e : Text × Text). hash_source e.1)
      (filter (λ (e : Text × Text). any (ends_with e.0) exts) file_hashes)

unfoldable pub join_value : Text → List Text → Text
unfolding join
join_value base hashes = join (b' ' ∷ []) (base ∷ hashes)

abbrev img_exts : List Text
img_exts =
    codes ".png"
    ∷ codes ".jpg"
    ∷ codes ".jpeg"
    ∷ codes ".gif"
    ∷ codes ".svg"
    ∷ codes ".webp"
    ∷ codes ".ico"
    ∷ []

abbrev font_exts : List Text
font_exts = codes ".woff" ∷ codes ".woff2" ∷ codes ".ttf" ∷ codes ".otf" ∷ []

abbrev media_exts : List Text
media_exts = codes ".mp3" ∷ codes ".mp4" ∷ codes ".webm" ∷ codes ".ogg" ∷ codes ".wav" ∷ []

unfoldable pub build_csp_values :
    (Text → Option Text)
    → List (Text × Text)
    → Text
    → (disable_sri allow_inline_styles : Bool) → CspValues
unfolding resolve_origin collect_hashes join_value join
build_csp_values env file_hashes csp_script_hash disable_sri allow_inline_styles =
    if disable_sri
    then record {
      script_src = self_inline;
      style_src = self_inline;
      img_src = self_source;
      font_src = self_source;
      media_src = self_source;
      frame_src = self_source;
      form_action = resolve_origin (env (codes "FORM_ACTION"));
      connect_src = resolve_origin (env (codes "CONNECT_SRC"));
    }
    else record {
      script_src =
          join (b' ' ∷ [])
            (hash_source csp_script_hash ∷ collect_hashes file_hashes (codes ".js" ∷ []));
      style_src =
          if allow_inline_styles
          then self_inline
          else join_value self_source (collect_hashes file_hashes (codes ".css" ∷ []));
      img_src = join_value self_source (collect_hashes file_hashes img_exts);
      font_src = join_value self_source (collect_hashes file_hashes font_exts);
      media_src = join_value self_source (collect_hashes file_hashes media_exts);
      frame_src = self_source;
      form_action = resolve_origin (env (codes "FORM_ACTION"));
      connect_src = resolve_origin (env (codes "CONNECT_SRC"));
    }

-- `has` on the lower-case source
abbrev has : Text → List Text → Bool
unfolding contains
has lower needles = any (contains lower) needles

abbrev directive : Text → Text → Text
directive name value = name ++ (b' ' ∷ value)

abbrev if_present : Text → Bool → Text → Text
if_present name present value = directive name (if present then value else codes "'none'")

-- The directives, before they are joined.
pub directives : Text → CspValues → List Text
unfolding contains
directives source values =
    let lower = to_lowercase source in
    codes "default-src 'none'"
    ∷ if_present (codes "script-src") true values.script_src
    ∷ if_present (codes "style-src") (has lower (codes "stylesheet" ∷ codes "<style" ∷ []))
        values.style_src
    ∷ if_present (codes "img-src")
        (has lower (codes "<img" ∷ codes "rel=\"icon\"" ∷ codes "rel='icon'" ∷ [])) values.img_src
    ∷ if_present (codes "font-src") (has lower (codes "font-" ∷ codes "@font-face" ∷ []))
        values.font_src
    ∷ if_present (codes "media-src") (has lower (codes "<audio" ∷ codes "<video" ∷ []))
        values.media_src
    ∷ if_present (codes "frame-src") (has lower (codes "<iframe" ∷ [])) values.frame_src
    ∷ directive (codes "connect-src") values.connect_src
    ∷ codes "manifest-src 'self'"
    ∷ codes "object-src 'none'"
    ∷ codes "base-uri 'self'"
    ∷ directive (codes "form-action") values.form_action
    ∷ codes "frame-ancestors 'none'"
    ∷ []

pub build_csp_for_source : Text → CspValues → Text
unfolding directives join
build_csp_for_source source values = join (b';' ∷ b' ' ∷ []) (directives source values)

-- `read` is `fs::read_to_string` of the file in `public/`; what cannot be read counts as empty.
unfoldable pub build_csp : (Text → Option Text) → Text → CspValues → Text
unfolding extension build_csp_for_source text_eq
build_csp read file values =
    if text_eq (unwrap_or (extension file) []) (codes "html")
    then build_csp_for_source (unwrap_or (read file) []) values
    else codes "default-src 'none'"
