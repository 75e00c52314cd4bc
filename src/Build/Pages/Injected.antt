-- ===== src/Build/Pages/Injected.antt =====
-- Where the version-check script is put.
use single_binary_static_web.Prelude.{[], ◌∷◌, Text}

abbrev tail : Text → Text
tail [] = []
tail (x ∷ s) = s
