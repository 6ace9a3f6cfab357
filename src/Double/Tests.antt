-- ===== src/Double/Tests.antt =====
use solounlucky.Prelude.{◌≡◌, refl}
use solounlucky.Double.{of_ℕ, literal, mul, floor, arithmetic}

finder : floor (mul (of_ℕ 312500000) (literal 21 1000)) ≡ 6562500
unfolding arithmetic
finder = refl
