-- ===== src/Formats/Tests.antt =====
-- Numbers printed with an f64 that keeps whole numbers only.
use single_binary_static_web.Prelude.{◌≡◌, refl, codes}
use single_binary_static_web.Formats.{in_unit, format_bytes, right_aligned}
use single_binary_static_web.Formats.Example.{whole}

ones : format_bytes whole 1023 ≡ codes "1023 B"
unfolding format_bytes in_unit whole
ones = refl

megabytes : format_bytes whole 3145728 ≡ codes "3 MB"
unfolding format_bytes in_unit whole
megabytes = refl

aligned : right_aligned 5 (codes "1 B") ≡ codes "  1 B"
unfolding right_aligned
aligned = refl
