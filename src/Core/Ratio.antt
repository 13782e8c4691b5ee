-- ===== src/Core/Ratio.antt =====
-- The doubles that hold milliseconds, as exact fractions: their rounding is not modelled.
use workflow_spec.Prelude.{ℕ, ◌+◌, ◌*◌, Bool, ltb}

-- `num / den`; no operation below makes a zero `den` from others.
pub record Ratio : Type 0 where
  pub num : ℕ
  pub den : ℕ

abbrev pub of_ℕ : ℕ → Ratio
of_ℕ n = record { num = n; den = 1 }

-- `a > b`
abbrev pub exceeds : Ratio → Ratio → Bool
exceeds a b = ltb (b.num * a.den) (a.num * b.den)

-- `(average * n + x) / (n + 1)`
abbrev pub rolling : Ratio → ℕ → Ratio → Ratio
rolling average n x = record {
  num = average.num * n * x.den + x.num * average.den;
  den = average.den * x.den * (n + 1);
}
