-- ===== src/Notifications/Creation/Numbers.antt =====
-- The text of a natural number, as a template literal of JavaScript writes it.
use Prim.Native.Nat.{◌/◌, ◌%◌}
use robia_back.Prelude.{
  ℕ, zero, suc, ◌+◌, ◌*◌, ◌-◌, ◌≤◌, ◌<◌, ◌≡◌, inl, inr, [], ◌∷◌, ◌++◌, ltb, arith, if◌then◌else◌,
  Bool-cases,
}
use robia_back.Storage.Texts.{Text}

-- At most as many digits as the fuel, the last first.
unfoldable pub digits : ℕ → ℕ → Text
digits zero n = []
digits (suc fuel) n =
    let rest = digits fuel (n / 10) in if ltb n 10 then (48 + n) ∷ [] else (48 + n % 10) ∷ rest

unfoldable pub reversed : Text → Text
reversed [] = []
reversed (c ∷ s) = reversed s ++ c ∷ []

-- The fuel is enough, since a number has fewer digits than its successor counts.
unfoldable pub decimal : ℕ → Text
unfolding digits reversed
decimal n = reversed (digits (suc n) n)

-- The number that digits stand for, the last first.
value : Text → ℕ
value [] = 0
value (c ∷ s) = (c - 48) + 10 * value s

-- With enough fuel, the digits are those of the number.
value-digits : (fuel n : ℕ) → n < fuel → value (digits fuel n) ≡ n
unfolding value digits
value-digits zero n h = ground arith
value-digits (suc fuel) n h = elim (Bool-cases (ltb n 10)) [
  | inl e ↦ rw e (omega arith)
  | inr e ↦
      let large : 10 ≤ n = ground (arith, e) in
      let smaller : n / 10 < fuel = omega (arith, large, h) in
      rw e (omega (arith, value-digits fuel (n / 10) smaller))
]
