-- ===== src/Negotiate/Order.antt =====
-- What the comparison of qualities is assumed to satisfy; it is so for `>` and `==` on `f32`, where
-- both are false if a side is not a number. Then `beats` is a strict order.
use single_binary_static_web.Prelude.{true, false, ◌||◌, ◌≡◌, arith}
use single_binary_static_web.Negotiate.{Float, Choice, beats}

pub record IsOrdered (f : Float) : Type 0 where
  pub gt_irrefl : (a : f.F) → f.gt a a ≡ false
  pub gt_trans : (a b c : f.F) → f.gt a b ≡ true → f.gt b c ≡ true → f.gt a c ≡ true
  pub gt_eq : (a b c : f.F) → f.gt a b ≡ true → f.eqb b c ≡ true → f.gt a c ≡ true
  pub eq_gt : (a b c : f.F) → f.eqb a b ≡ true → f.gt b c ≡ true → f.gt a c ≡ true
  pub eq_trans : (a b c : f.F) → f.eqb a b ≡ true → f.eqb b c ≡ true → f.eqb a c ≡ true

module _ (f : Float) (o : IsOrdered f) where
  pub beats_irrefl : (c : Choice f.F) → beats f c c ≡ false
  beats_irrefl c = ground (arith, o.gt_irrefl c.q)

  pub beats_trans :
      (a b c : Choice f.F) → beats f a b ≡ true → beats f b c ≡ true → beats f a c ≡ true
  beats_trans a b c h k = ground (
    arith,
    o.gt_trans a.q b.q c.q,
    o.gt_eq a.q b.q c.q,
    o.eq_gt a.q b.q c.q,
    o.eq_trans a.q b.q c.q,
  )

-- Numbers that are not below a common one are comparable; of `f32` it leaves out those that are not
-- a number.
pub record IsConnected (f : Float) : Type 0 where
  pub base : f.eqb f.baseline f.baseline ≡ true
  pub eq_symm : (a b : f.F) → f.eqb a b ≡ true → f.eqb b a ≡ true
  pub connected :
      (a b x : f.F)
      → (f.gt a x || f.eqb a x) ≡ true
      → (f.gt b x || f.eqb b x) ≡ true
      → (f.gt a b || (f.gt b a || f.eqb a b)) ≡ true
