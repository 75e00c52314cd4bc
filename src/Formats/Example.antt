-- ===== src/Formats/Example.antt =====
-- An f64 that keeps whole numbers only.
use single_binary_static_web.Prelude.{◌*◌, ◌/◌, leb, decimal}
use single_binary_static_web.Formats.{F64}

unfoldable pub whole : F64
unfolding decimal
whole = record {
  of_usize = λ n. n;
  is_large = λ x. leb 1024 x;
  div_1024 = λ x. x / 1024;
  percent = λ a b. a * 100 / b;
  hundred = 100;
  display = decimal;
}
