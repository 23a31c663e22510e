-- ===== src/Base/Bits.antt =====
-- Exclusive or at variables, and properties of small ranges checked by evaluation.
use Prim.Native.Nat.{
  ℕ, zero, suc, ◌+◌, ◌*◌, ◌/◌, ◌%◌, ◌^◌, ◌≤◌, ◌<◌, differ, digits, bit_xor, bit_xor-bitwise,
}
use mathlib.Core.Path.{◌≡◌, refl, sym, ap, ◌∙◌}
use mathlib.Core.Bool.{Bool, true, ◌&&◌}
use native.Mathlib.Decide.{dec_le}
use native.Mathlib.Nat.{pow-suc}
use native.Mathlib.Omega.{arith}

-- A test of all numbers below a bound, which runs.
unfoldable pub each_below : (ℕ → Bool) → ℕ → Bool
each_below test zero = true
each_below test (suc bound) = each_below test bound && test bound

pub each_below→true :
    (test : ℕ → Bool) {bound n : ℕ} → each_below test bound ≡ true → n < bound → test n ≡ true
unfolding each_below
each_below→true test {bound = zero} passed small = absurd (omega arith)
each_below→true test {bound = suc bound} {n} passed small =
    ground (arith, each_below→true test {bound = bound} {n = n})

-- The native operation takes as many steps as its first argument is large. A step more than that
-- changes nothing.
xor_steps : ℕ → ℕ → ℕ → ℕ
xor_steps = digits (λ rest. rest) differ

xor_steps-suc : (n a b : ℕ) → a ≤ n → xor_steps (suc n) a b ≡ xor_steps n a b
unfolding xor_steps
xor_steps-suc zero zero b small = refl
xor_steps-suc (suc n) zero b small = refl
xor_steps-suc zero (suc a) b small = absurd (omega arith)
xor_steps-suc (suc n) (suc a) b small = rw (xor_steps-suc n (suc a / 2) (b / 2) (omega arith))

xor_steps_enough : (n a b : ℕ) → a ≤ n → xor_steps n a b ≡ xor_steps a a b
xor_steps_enough zero a b small = let none : 0 ≡ a = omega arith in ap (λ k. xor_steps k a b) none
xor_steps_enough (suc n) a b small = elim (dec_le a n) [
  | yes below ↦ xor_steps-suc n a b below ∙ xor_steps_enough n a b below
  | no above ↦ let last : suc n ≡ a = omega arith in ap (λ k. xor_steps k a b) last
]

differ_lem : (x y : ℕ) → x < 2 → y < 2 → differ x y ≡ (x + y) % 2
differ_lem zero y h k = omega arith
differ_lem (suc zero) zero h k = refl
differ_lem (suc zero) (suc zero) h k = refl
differ_lem (suc zero) (suc (suc y)) h k = absurd (omega arith)
differ_lem (suc (suc x)) y h k = absurd (omega arith)

-- The law of the lowest digit.
pub bit_xor_step : (a b : ℕ) → bit_xor a b ≡ bit_xor (a / 2) (b / 2) * 2 + (a % 2 + b % 2) % 2
unfolding xor_steps
bit_xor_step zero b = simp bit_xor-bitwise (omega arith)
bit_xor_step (suc a) b = omega (
  arith,
  bit_xor-bitwise (suc a) b,
  bit_xor-bitwise (suc a / 2) (b / 2),
  xor_steps_enough a (suc a / 2) (b / 2) (omega arith),
  differ_lem (suc a % 2) (b % 2),
)

zero-bit_xor : (b : ℕ) → bit_xor 0 b ≡ b
zero-bit_xor b = bit_xor-bitwise 0 b

bit_xor_twice_fuel : (n a b : ℕ) → a ≤ n → b ≤ n → bit_xor (bit_xor a b) b ≡ a
bit_xor_twice_fuel zero zero zero p q = refl
bit_xor_twice_fuel zero zero (suc b) p q = absurd (omega arith)
bit_xor_twice_fuel zero (suc a) b p q = absurd (omega arith)
bit_xor_twice_fuel (suc n) a b p q =
    let c = bit_xor (a / 2) (b / 2) in
    let halves : bit_xor a b / 2 ≡ c = omega (arith, bit_xor_step a b) in
    let rest : bit_xor c (b / 2) ≡ a / 2 =
      bit_xor_twice_fuel n (a / 2) (b / 2) (omega arith) (omega arith) in
    omega (
      arith,
      bit_xor_step a b,
      bit_xor_step (bit_xor a b) b,
      rest,
      ap (λ (x : ℕ). bit_xor x (b / 2)) halves,
    )

-- A word that is xor-ed twice with the same word is back.
pub bit_xor_twice : (a b : ℕ) → bit_xor (bit_xor a b) b ≡ a
bit_xor_twice a b = bit_xor_twice_fuel (a + b) a b (omega arith) (omega arith)

bit_xor_comm_fuel : (n a b : ℕ) → a ≤ n → b ≤ n → bit_xor a b ≡ bit_xor b a
bit_xor_comm_fuel zero zero zero p q = refl
bit_xor_comm_fuel zero zero (suc b) p q = absurd (omega arith)
bit_xor_comm_fuel zero (suc a) b p q = absurd (omega arith)
bit_xor_comm_fuel (suc n) a b p q = omega (
  arith,
  bit_xor_step a b,
  bit_xor_step b a,
  bit_xor_comm_fuel n (a / 2) (b / 2) (omega arith) (omega arith),
)

pub bit_xor_comm : (a b : ℕ) → bit_xor a b ≡ bit_xor b a
bit_xor_comm a b = bit_xor_comm_fuel (a + b) a b (omega arith) (omega arith)

pub bit_xor_lt : (k a b : ℕ) → a < 2 ^ k → b < 2 ^ k → bit_xor a b < 2 ^ k
bit_xor_lt zero zero zero p q = omega arith
bit_xor_lt zero zero (suc b) p q = absurd (omega arith)
bit_xor_lt zero (suc a) b p q = absurd (omega arith)
bit_xor_lt (suc k) a b p q = omega (
  arith,
  pow-suc 2 k,
  bit_xor_step a b,
  bit_xor_lt k (a / 2) (b / 2) (omega (arith, pow-suc 2 k)) (omega (arith, pow-suc 2 k)),
)

-- Xor with a fixed word loses nothing.
pub bit_xor-injective_left : (a b c : ℕ) → bit_xor a c ≡ bit_xor b c → a ≡ b
bit_xor-injective_left a b c e =
    sym (bit_xor_twice a c) ∙ ap (λ x. bit_xor x c) e ∙ bit_xor_twice b c

pub bit_xor-injective_right : (c a b : ℕ) → bit_xor c a ≡ bit_xor c b → a ≡ b
bit_xor-injective_right c a b e =
    bit_xor-injective_left a b c (bit_xor_comm a c ∙ e ∙ bit_xor_comm c b)
