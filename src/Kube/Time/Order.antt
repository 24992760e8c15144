-- ===== src/Kube/Time/Order.antt =====
-- Differences of times, with their saturation, against the order of the times.
use ocular.Prelude.{◌≡◌, true, false, arith}
use ocular.Prelude.Int.{pos, ◌-ℤ◌, ◌<ℤ◌, ◌≤ℤ◌, ltbℤ, -ℤ_parts, +ℤ_parts, ◌+ℤ◌}
use ocular.Kube.Time.{Time, sub}

module _ (a b : Time) where
  pub sub-pos : b <ℤ a → ltbℤ (pos 0) (sub a b) ≡ true
  unfolding sub
  sub-pos h = ground (arith, -ℤ_parts a b)

  pub sub-nonpos : a ≤ℤ b → ltbℤ (pos 0) (sub a b) ≡ false
  unfolding sub
  sub-nonpos h = ground (arith, -ℤ_parts a b)

  pub sub_exact : b <ℤ a → a -ℤ b ≤ℤ pos 9223372036854775807 → sub a b ≡ a -ℤ b
  unfolding sub
  sub_exact h k = ground (arith, -ℤ_parts a b)

  -- a wait of a - b from b on ends at a or later
  pub wait_reaches : (later : Time) → b +ℤ (a -ℤ b) ≤ℤ later → a ≤ℤ later
  wait_reaches later h = omega (arith, -ℤ_parts a b, +ℤ_parts b (a -ℤ b))
