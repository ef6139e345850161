-- ===== src/Prelude/Float/Laws.antt =====
-- Where the float64 ceiling of a quotient is the exact one.
use mathlib.Core.Path.{subst}
use native.Mathlib.Nat.{
  div-add-mod', mod-lt, add-mul, mul-one, le-div_iff_mul-le, div-lt_iff_lt-mul,
}
use wordotron_api.Prelude.{
  ℕ, zero, suc, ◌+◌, ◌-◌, ◌*◌, ◌/◌, ◌%◌, ◌^◌, ◌≤◌, ◌<◌, ◌≡◌, true, Bool-cases, inl, inr, arith, sym,
  ◌∙◌, ltb, leb, ◌==◌,
}
use wordotron_api.Prelude.Float.{round_div, float64, ceil_div, ceil_small, ceil_quotient}

mul_mono : (x y z : ℕ) → x ≤ y → x * z ≤ y * z
mul_mono x y z h = grind arith

-- `m` is off from a / b by at most a half.
abbrev IsNear : ℕ → ℕ → ℕ → Type 0
IsNear a b m = (2 * (m * b) ≤ 2 * a + b) × (2 * a ≤ 2 * (m * b) + b)

IsNear-below : (a b q r : ℕ) → q * b + r ≡ a → 2 * r ≤ b → IsNear a b q
IsNear-below a b q r split low = (omega arith, omega arith)

IsNear-above : (a b q r : ℕ) → q * b + r ≡ a → r < b → b ≤ 2 * r → IsNear a b (q + 1)
IsNear-above a b q r split rest high =
    let next = add-mul q 1 b in (omega (arith, next), omega (arith, next))

round_div-IsNear : (a b : ℕ) → 1 ≤ b → IsNear a b (round_div a b)
round_div-IsNear a b h =
    let split = div-add-mod' a b in
    let rest : a % b < b = mod-lt a (omega arith) in
    elim (Bool-cases (ltb (2 * (a % b)) b)) [
      | inl p ↦ rw p (IsNear-below a b (a / b) (a % b) split (ground arith))
      | inr p ↦ elim (Bool-cases (ltb b (2 * (a % b)))) [
        | inl q ↦ rw (p, q) (IsNear-above a b (a / b) (a % b) split rest (ground arith))
        | inr q ↦ elim (Bool-cases (a / b % 2 == 0)) [
          | inl e ↦
              let even : a / b + a / b % 2 ≡ a / b = ground arith in
              rw (p, q) (rw even (IsNear-below a b (a / b) (a % b) split (ground arith)))
          | inr e ↦
              let odd : a / b + a / b % 2 ≡ a / b + 1 = ground arith in
              rw (p, q) (rw odd (IsNear-above a b (a / b) (a % b) split rest (ground arith)))
        ]
      ]
    ]

-- The ceiling of a quotient, by its two bounds.
ceil_div_unique : (m u c : ℕ) → 1 ≤ u → m ≤ c * u → c * u < m + u → ceil_div m u ≡ c
ceil_div_unique m u c h lo hi =
    let below = (le-div_iff_mul-le {k = u} {x = c} {y = m + u - 1} (omega arith)).1 (omega arith) in
    let next = add-mul c 1 u in
    let above =
      (div-lt_iff_lt-mul {k = u} {x = m + u - 1} {y = c + 1} (omega arith)).1
        (omega (arith, next)) in
    omega (arith, below, above)

ceil_div_bounds : (a b : ℕ) → 1 ≤ b → (a ≤ ceil_div a b * b) × (ceil_div a b * b < a + b)
ceil_div_bounds a b h =
    let split = div-add-mod' (a + b - 1) b in
    let rest : (a + b - 1) % b < b = mod-lt (a + b - 1) (omega arith) in
    (omega (arith, split, rest), omega (arith, split, rest))

not_over : (x y : ℕ) → ((y + 1 ≤ x) → ⊥) → x ≤ y
not_over x y h = elim (Bool-cases (leb x y)) [
  | inl p ↦ ground arith
  | inr p ↦ absurd (h (ground arith))
]

lt_of_le : (x y : ℕ) → x + 1 ≤ y → x < y
lt_of_le x y h = omega arith

ceil_upper : (a b u m c : ℕ) → 1 ≤ b → a ≤ c * b → 2 * (m * b) ≤ 2 * (a * u) + b → m ≤ c * u
ceil_upper a b u m c h cover near = not_over m (c * u) (λ more.
    let over = mul_mono (c * u + 1) m b more in
    let open_over = add-mul (c * u) 1 b in
    let covered = mul_mono a (c * b) u cover in
    let turned : c * b * u ≡ c * u * b = grind arith in
    omega (arith, over, open_over, covered, turned))

ceil_lower :
    (a b u m c : ℕ)
    → 1 ≤ b
    → b < 2 * u
    → c * b < a + b
    → 2 * (a * u) ≤ 2 * (m * b) + b
    → c * u < m + u
ceil_lower a b u m c positive h tight near = lt_of_le (c * u) (m + u) (
    not_over (c * u + 1) (m + u) (λ more.
      let under = mul_mono (m + u) (c * u) b (omega arith) in
      let open_under = add-mul m u b in
      let tightened = mul_mono (c * b + 1) (a + b) u (omega arith) in
      let open_left = add-mul (c * b) 1 u in
      let open_right = add-mul a b u in
      let turned : c * b * u ≡ c * u * b = grind arith in
      let turned_unit : b * u ≡ u * b = grind arith in
      omega (arith, under, open_under, tightened, open_left, open_right, turned, turned_unit)))

fine_enough : (a b u : ℕ) → 1 ≤ b → a < 2 ^ 53 → 2 ^ 52 * b ≤ a * u → b < 2 * u
fine_enough a b u h small fine = let k = mul_mono a (2 ^ 53 - 1) u (omega arith) in omega (arith, k)

-- A quotient that was rounded to 53 bits has the ceiling of the exact one.
ceil_exact :
    (a b u : ℕ)
    → 1 ≤ b
    → a < 2 ^ 53
    → 2 ^ 52 * b ≤ a * u
    → ceil_div (round_div (a * u) b) u ≡ ceil_div a b
ceil_exact a b u h small fine =
    let half = fine_enough a b u h small fine in
    let (high, low) = round_div-IsNear (a * u) b h in
    let (cover, tight) = ceil_div_bounds a b h in
    ceil_div_unique (round_div (a * u) b) u (ceil_div a b) (omega arith)
      (ceil_upper a b u (round_div (a * u) b) (ceil_div a b) h cover high)
      (ceil_lower a b u (round_div (a * u) b) (ceil_div a b) h half tight low)

double : (a u : ℕ) → 2 * (a * u) ≡ a * (2 * u)
double a u = grind arith

double_fuel : (a u p : ℕ) → a * u * (2 * p) ≡ a * (2 * u) * p
double_fuel a u p = grind arith

pow-suc : (k : ℕ) → 2 ^ suc k ≡ 2 * 2 ^ k
pow-suc k = grind arith

ceil_small-eq :
    (k a b u : ℕ)
    → 1 ≤ b
    → a < 2 ^ 53
    → 2 ^ 52 * b ≤ a * u * 2 ^ k
    → ceil_small k (a * u) b u ≡ ceil_div a b
ceil_small-eq zero a b u h small enough = ceil_exact a b u h small (ground arith)
ceil_small-eq (suc k) a b u h small enough = elim (Bool-cases (ltb (a * u) (2 ^ 52 * b))) [
  | inl p ↦
      rw (p, double a u)
        (ceil_small-eq k a b (2 * u) h small (rw (← double_fuel a u (2 ^ k), ← pow-suc k) enough))
  | inr p ↦ rw p (ceil_exact a b u h small (ground arith))
]

pub float64-eq : (n : ℕ) → n < 2 ^ 53 → float64 n ≡ n
unfolding float64
float64-eq n h = ground arith

ceil_zero : (b u : ℕ) → 1 ≤ b → 1 ≤ u → ceil_div (round_div 0 b) u ≡ 0
ceil_zero b u h k =
    ceil_div_unique (round_div 0 b) u 0 k
      (ceil_upper 0 b u (round_div 0 b) 0 h (omega arith)
        (let near = (round_div-IsNear 0 b h).0 in omega (arith, near)))
      (omega arith)

ceil_small-zero : (k b u : ℕ) → 1 ≤ b → 1 ≤ u → ceil_small k 0 b u ≡ 0
ceil_small-zero zero b u h l = ceil_zero b u h l
ceil_small-zero (suc k) b u h l = elim (Bool-cases (ltb 0 (2 ^ 52 * b))) [
  | inl p ↦ rw p (ceil_small-zero k b (2 * u) h (omega arith))
  | inr p ↦ rw p (ceil_zero b u h l)
]

-- Below 2 ^ 53, the ceiling of the float64 quotient is that of the exact one.
pub ceil_quotient-eq :
    (a b : ℕ) → a < 2 ^ 53 → 1 ≤ b → b < 2 ^ 53 → ceil_quotient a b ≡ ceil_div a b
unfolding ceil_quotient
ceil_quotient-eq zero b small h fits =
    let small_quotient : ltb 0 (2 ^ 53 * b) ≡ true = ground arith in
    rw small_quotient (
      ceil_small-zero 116 b 1 h (omega arith)
      ∙ sym (ceil_div_unique 0 b 0 h (omega arith) (omega arith)))
ceil_quotient-eq (suc n) b small h fits =
    let small_quotient : ltb (suc n) (2 ^ 53 * b) ≡ true = ground arith in
    rw small_quotient (
      subst (λ x. ceil_small 116 x b 1 ≡ ceil_div (suc n) b) (mul-one (suc n))
        (ceil_small-eq 116 (suc n) b 1 h small (omega arith)))
