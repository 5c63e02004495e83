-- ===== src/Base/Bits.antt =====
-- Laws of the binary operations at variables: a low mask is a remainder, and the doubling steps
-- that fill a number with ones below its leading digit.
use Prim.Native.Nat.{
  ℕ, zero, suc, ◌+◌, ◌-◌, ◌*◌, ◌/◌, ◌%◌, ◌^◌, ◌≤◌, ◌<◌, min, max, digits, bit_and, bit_or,
  bit_and-bitwise, bit_or-bitwise,
}
use mathlib.Core.Path.{◌≡◌, refl, ap, ◌∙◌}
use native.Mathlib.Nat.{
  one-le-pow, two-pow-succ, pow-succ', div-add-mod, mod-lt, mod-eq_of_lt, mul_comm,
  add-mul-mod_self_left, div-div-eq-div-mul, div-one, zero-add, suc-add,
}
use mathlib.Core.Logic.{◌≢◌}
use native.Mathlib.Decide.{dec_lt}
use native.Mathlib.Omega.{arith}

module _ (last : ℕ → ℕ) (op : ℕ → ℕ → ℕ) where
  -- Any two counts that cover the left number give the same digits.
  any_count : (x y s t : ℕ) → x ≤ s → x ≤ t → digits last op s x y ≡ digits last op t x y
  any_count zero y zero zero _ _ = refl
  any_count zero y zero (suc t) _ _ = refl
  any_count zero y (suc s) zero _ _ = refl
  any_count zero y (suc s) (suc t) _ _ = refl
  any_count (suc x) y zero t bad _ = absurd (omega arith)
  any_count (suc x) y (suc s) zero _ bad = absurd (omega arith)
  any_count (suc x) y (suc s) (suc t) left right =
      let halves = any_count (suc x / 2) (y / 2) s t (omega arith) (omega arith) in omega arith

pub zero-bit_or : (b : ℕ) → bit_or 0 b ≡ b
zero-bit_or b = bit_or-bitwise 0 b

-- The lowest digit of `x | y` and its half.
bit_or_step : (x y : ℕ) → bit_or x y ≡ bit_or (x / 2) (y / 2) * 2 + max (x % 2) (y % 2)
bit_or_step zero y = rw (zero-bit_or y, zero-bit_or (y / 2)) (omega arith)
bit_or_step (suc x) y =
    let count =
      any_count (λ r. r) max (suc x / 2) (y / 2) x (suc x / 2) (omega arith) (omega arith) in
    omega (arith, bit_or-bitwise (suc x / 2) (y / 2), bit_or-bitwise (suc x) y)

-- The lowest digit of `x & y` and its half.
bit_and_step : (x y : ℕ) → bit_and x y ≡ bit_and (x / 2) (y / 2) * 2 + min (x % 2) (y % 2)
bit_and_step zero y = omega (arith, bit_and-bitwise 0 y, bit_and-bitwise 0 (y / 2))
bit_and_step (suc x) y =
    let count =
      any_count (λ _. 0) min (suc x / 2) (y / 2) x (suc x / 2) (omega arith) (omega arith) in
    omega (arith, bit_and-bitwise (suc x / 2) (y / 2), bit_and-bitwise (suc x) y)

-- `x & 0` is 0, for any `bound` on `x`.
no_mask : (bound x : ℕ) → x ≤ bound → bit_and x 0 ≡ 0
no_mask bound zero _ = bit_and-bitwise 0 0
no_mask zero (suc x) big = absurd (omega arith)
no_mask (suc bound) (suc x) big =
    let rest = no_mask bound (suc x / 2) (omega arith) in omega (arith, bit_and_step (suc x) 0)

-- A remainder by a product, in two steps.
pub mod-mul : (m n a : ℕ) → 0 < m → 0 < n → a % (m * n) ≡ a % m + a / m % n * m
mod-mul m n a hm hn =
    let small : a % m + a / m % n * m < m * n = grind (arith, mod-lt (a / m) hn, mod-lt a hm) in
    let split : a ≡ a % m + a / m % n * m + m * n * (a / m / n) =
      grind (arith, div-add-mod a m, div-add-mod (a / m) n) in
    ap (λ (t : ℕ). t % (m * n)) split
    ∙ add-mul-mod_self_left (a % m + a / m % n * m) (m * n) (a / m / n)
    ∙ mod-eq_of_lt small

-- The low digits of a number are its lowest one and those of its half.
div-mod-two : (k a : ℕ) → a % 2 ^ suc k ≡ a / 2 % 2 ^ k * 2 + a % 2
div-mod-two k a =
    rw (pow-succ' 2 k)
      (omega (arith, mod-mul 2 (2 ^ k) a (omega arith) (one-le-pow k 2 (omega arith))))

-- `a & (2^k - 1)` keeps the low `k` digits.
pub bit_and_mask : (k a : ℕ) → bit_and a (2 ^ k - 1) ≡ a % 2 ^ k
bit_and_mask zero a = omega (arith, no_mask a a (omega arith))
bit_and_mask (suc k) a = ground (
  arith,
  bit_and_step a (2 ^ suc k - 1),
  two-pow-succ k,
  one-le-pow k 2,
  bit_and_mask k (a / 2),
  div-mod-two k a,
)

bit_or-half : (a b : ℕ) → bit_or a b / 2 ≡ bit_or (a / 2) (b / 2)
bit_or-half a b = omega (arith, bit_or_step a b)

bit_or-zero : (n a : ℕ) → a ≤ n → bit_or a 0 ≡ a
bit_or-zero n zero h = zero-bit_or 0
bit_or-zero zero (suc a) h = absurd (omega arith)
bit_or-zero (suc n) (suc a) h =
    omega (arith, bit_or_step (suc a) 0, bit_or-zero n (suc a / 2) (omega arith))

-- `(q << k) | r` adds up where `r` has `k` digits.
pub bit_or-add : (k q r : ℕ) → r < 2 ^ k → bit_or (q * 2 ^ k) r ≡ q * 2 ^ k + r
bit_or-add zero q r h =
    let none_left : r ≡ 0 = omega arith in
    rw none_left (omega (arith, bit_or-zero (q * 1) (q * 1) (omega arith)))
bit_or-add (suc k) q r h =
    let twice : q * 2 ^ suc k ≡ q * 2 ^ k * 2 = rw (pow-succ' 2 k) (omega arith) in
    rw (twice, bit_or_step (q * 2 ^ k * 2) r)
      (rw (let half : q * 2 ^ k * 2 / 2 ≡ q * 2 ^ k = omega arith in half)
        (omega (arith, bit_or-add k q (r / 2) (omega (arith, pow-succ' 2 k)))))

-- `n` doubling steps of `v |= v >> s`, for `s` = 1, 2, 4, ….
unfoldable pub fill : ℕ → ℕ → ℕ
fill zero v = v
fill (suc n) v = bit_or (fill n v) (fill n v / 2 ^ (2 ^ n))

div-pow-half : (v m : ℕ) → v / 2 ^ m / 2 ≡ v / 2 / 2 ^ m
div-pow-half v m = rw (div-div-eq-div-mul, mul_comm, ← div-div-eq-div-mul)

fill-half : (n v : ℕ) → fill n v / 2 ≡ fill n (v / 2)
unfolding fill
fill-half zero v = refl
fill-half (suc n) v =
    rw (bit_or-half, fill-half n v, div-pow-half (fill n v) (2 ^ n), fill-half n v)

fill-div : (n v j : ℕ) → fill n v / 2 ^ j ≡ fill n (v / 2 ^ j)
fill-div n v zero = rw (div-one (fill n v), div-one v)
fill-div n v (suc j) =
    rw
      (
        pow-succ' 2 j,
        ← div-div-eq-div-mul (fill n v) 2 (2 ^ j),
        fill-half n v,
        fill-div n (v / 2) j,
      )
      (rw (div-div-eq-div-mul v 2 (2 ^ j)))

pub fill-zero : (n : ℕ) → fill n 0 ≡ 0
unfolding fill
fill-zero zero = refl
fill-zero (suc n) = rw (fill-zero n, zero-bit_or) (omega arith)

bit_or-odd : (a b : ℕ) → bit_or a b % 2 ≡ max (a % 2) (b % 2)
bit_or-odd a b = omega (arith, bit_or_step a b)

pub pow-add : (a b : ℕ) → 2 ^ (a + b) ≡ 2 ^ a * 2 ^ b
pow-add zero b = rw zero-add (omega arith)
pow-add (suc a) b = rw (suc-add, pow-succ' 2 (a + b), pow-succ' 2 a, pow-add a b) (omega arith)

-- A number whose filling is even has no digit among the lowest `2 ^ n`.
fill-even : (n v : ℕ) → fill n v % 2 ≡ 0 → v % 2 ^ (2 ^ n) ≡ 0
unfolding fill
fill-even zero v h = h
fill-even (suc n) v h =
    let w : ℕ = 2 ^ (2 ^ n) in
    let low : v % w ≡ 0 = fill-even n v (omega (arith, bit_or-odd (fill n v) (fill n v / w))) in
    let high : v / w % w ≡ 0 =
      fill-even n (v / w)
        (omega (arith, bit_or-odd (fill n v) (fill n v / w), fill-div n v (2 ^ n))) in
    let pos : 0 < w = one-le-pow (2 ^ n) 2 (omega arith) in
    rw (two-pow-succ n, pow-add (2 ^ n) (2 ^ n), mod-mul w w v pos pos, low, high) (omega arith)

fill-odd : (n v : ℕ) → 0 < v → v < 2 ^ (2 ^ n) → fill n v % 2 ≡ 1
fill-odd n v pos fits =
    let odd : fill n v % 2 ≢ 0 = λ e. absurd (omega (arith, fill-even n v e, mod-eq_of_lt fits)) in
    omega arith

-- `n` doubling steps fill every number below `2 ^ 2 ^ n` with ones.
pub fill-ones : (n k v : ℕ) → 2 ^ k ≤ v → v < 2 ^ suc k → v < 2 ^ (2 ^ n) → fill n v ≡ 2 ^ suc k - 1
fill-ones n zero v lo hi fits =
    let half : v / 2 ≡ 0 = omega arith in
    let rest : fill n (v / 2) ≡ 0 = rw half (fill-zero n) in
    omega (arith, fill-odd n v (omega arith) fits, fill-half n v)
fill-ones n (suc k) v lo hi fits = omega (
  arith,
  pow-succ' 2 (suc k),
  pow-succ' 2 k,
  one-le-pow k 2 (omega arith),
  fill-odd n v (omega (arith, pow-succ' 2 k, one-le-pow k 2 (omega arith))) fits,
  fill-half n v,
  fill-ones n k (v / 2) (omega (arith, pow-succ' 2 k)) (omega (arith, pow-succ' 2 (suc k)))
      (omega arith),
)

-- Every positive number lies between two powers of two.
pub log_bounds : (n : ℕ) → 0 < n → (k : ℕ) × (2 ^ k ≤ n) × (n < 2 ^ suc k)
log_bounds n h = go n n h (omega arith)
  where
    go : (f n : ℕ) → 0 < n → n ≤ f → (k : ℕ) × (2 ^ k ≤ n) × (n < 2 ^ suc k)
    go zero n h l = absurd (omega arith)
    go (suc f) n h l = elim (dec_lt n 2) [
      | yes p ↦ (0, omega arith, omega arith)
      | no p ↦
          let (k, lo, hi) = go f (n / 2) (omega arith) (omega arith) in
          (suc k, omega (arith, pow-succ' 2 k), omega (arith, pow-succ' 2 (suc k)))
    ]
