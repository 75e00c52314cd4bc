-- ===== src/Build/Csp/Policy.antt =====
-- The policy of a page as a browser reads it: split at the semicolons, and each part at its first space.
use single_binary_static_web.Prelude.{
  Bool, true, false, ◌≡◌, refl, ap, List, [], ◌∷◌, ◌++◌, map, Option, some, if◌then◌else◌, any,
  Text, codes, trim_start, split_on, split_once, join, contains, to_lowercase, All, All-append,
  Without, Without-any, split_on-join, ◌==◌,
}
use single_binary_static_web.Build.Csp.{CspValues, directives, build_csp_for_source}

pub read_policy : Text → List (Option (Text × Text))
unfolding split_on trim_start split_once
read_policy csp = map (λ d. split_once b' ' (trim_start d)) (split_on b';' csp)

-- No value has a semicolon.
pub record AreValues (v : CspValues) : Type 0 where
  pub script : Without b';' v.script_src
  pub style : Without b';' v.style_src
  pub img : Without b';' v.img_src
  pub font : Without b';' v.font_src
  pub media : Without b';' v.media_src
  pub frame : Without b';' v.frame_src
  pub form : Without b';' v.form_action
  pub connect : Without b';' v.connect_src

abbrev none_source : Text
none_source = codes "'none'"

-- The value of a directive that the page needs, and `'none'` for one that it does not.
abbrev pub used : Text → List Text → Text → Text
unfolding contains
used source needles value =
    if any (contains (to_lowercase source)) needles then value else none_source

value-Without :
    (present : Bool) (value : Text)
    → Without b';' value
    → Without b';' (if present then value else none_source)
value-Without true value h = h
value-Without false value h = Without-any b';' none_source refl

named :
    (name value : Text)
    → any (λ c. c == b';') name ≡ false
    → Without b';' value
    → Without b';' (name ++ (b' ' ∷ value))
named name value h k = All-append _ name (b' ' ∷ value) (Without-any b';' name h) (refl, k)

directives-Without :
    (source : Text) (v : CspValues) → AreValues v → All (Without b';') (directives source v)
unfolding directives
directives-Without source v h = (
  Without-any b';' (codes "default-src 'none'") refl,
  (
    named (codes "script-src") v.script_src refl h.script,
    (
      named (codes "style-src") _ refl (value-Without _ v.style_src h.style),
      (
        named (codes "img-src") _ refl (value-Without _ v.img_src h.img),
        (
          named (codes "font-src") _ refl (value-Without _ v.font_src h.font),
          (
            named (codes "media-src") _ refl (value-Without _ v.media_src h.media),
            (
              named (codes "frame-src") _ refl (value-Without _ v.frame_src h.frame),
              (
                named (codes "connect-src") v.connect_src refl h.connect,
                (
                  Without-any b';' (codes "manifest-src 'self'") refl,
                  (
                    Without-any b';' (codes "object-src 'none'") refl,
                    (
                      Without-any b';' (codes "base-uri 'self'") refl,
                      (
                        named (codes "form-action") v.form_action refl h.form,
                        (Without-any b';' (codes "frame-ancestors 'none'") refl, tt),
                      ),
                    ),
                  ),
                ),
              ),
            ),
          ),
        ),
      ),
    ),
  ),
)

-- The parts of joined directives.
abbrev parts : List Text → List Text
parts [] = [] ∷ []
parts (d ∷ ds) = d ∷ map (λ q. b' ' ∷ q) ds

split-joined :
    (ds : List Text) → All (Without b';') ds → split_on b';' (join (b';' ∷ b' ' ∷ []) ds) ≡ parts ds
unfolding join split_on
split-joined [] h = refl
split-joined (d ∷ ds) (hd, h) = split_on-join b';' (b' ' ∷ []) [] d ds (refl, tt) tt hd h

-- With values without a semicolon, a browser reads exactly these thirteen directives off the policy of
-- a page: everything is refused by default, each kind of resource is allowed from its value if the
-- page's source in lower case contains one of its needles and refused if not, and no value adds or
-- changes a directive.
pub build_csp_for_source-read_policy :
    (source : Text) (v : CspValues)
    → AreValues v
    → read_policy (build_csp_for_source source v)
      ≡ some (codes "default-src", none_source)
        ∷ some (codes "script-src", v.script_src)
        ∷ some
            (codes "style-src", used source (codes "stylesheet" ∷ codes "<style" ∷ []) v.style_src)
        ∷ some (
          codes "img-src",
          used source (codes "<img" ∷ codes "rel=\"icon\"" ∷ codes "rel='icon'" ∷ []) v.img_src,
        )
        ∷ some (codes "font-src", used source (codes "font-" ∷ codes "@font-face" ∷ []) v.font_src)
        ∷ some (codes "media-src", used source (codes "<audio" ∷ codes "<video" ∷ []) v.media_src)
        ∷ some (codes "frame-src", used source (codes "<iframe" ∷ []) v.frame_src)
        ∷ some (codes "connect-src", v.connect_src)
        ∷ some (codes "manifest-src", codes "'self'")
        ∷ some (codes "object-src", none_source)
        ∷ some (codes "base-uri", codes "'self'")
        ∷ some (codes "form-action", v.form_action)
        ∷ some (codes "frame-ancestors", none_source)
        ∷ []
unfolding read_policy build_csp_for_source directives used
build_csp_for_source-read_policy source v h =
    ap (map (λ d. split_once b' ' (trim_start d)))
      (split-joined (directives source v) (directives-Without source v h))
