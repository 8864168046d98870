-- ===== src/Prelude/Bits.antt =====
-- Laws of `bit_xor` at variables, from its recursion on binary digits.
use Prim.Native.Nat.{digits, differ, bit_xor, bit_xor-bitwise}
use native.Mathlib.Nat.{pow-suc}
use picowal.Prelude.{
  ℕ, zero, suc, ◌+◌, ◌*◌, ◌/◌, ◌%◌, ◌^◌, ◌<◌, ◌≤◌, ◌≡◌, refl, ap, Bool, true, false, if◌then◌else◌,
  arith,
}

abbrev xor_digits : ℕ → ℕ → ℕ → ℕ
xor_digits n a b = digits (λ b. b) differ n a b

xor_digits-zero : (fuel y : ℕ) → xor_digits fuel zero y ≡ y
xor_digits-zero zero y = refl
xor_digits-zero (suc fuel) y = refl

-- Fuel beyond the first number changes nothing.
xor_digits-enough :
    (x y least fuel : ℕ) → x ≤ least → least ≤ fuel → xor_digits fuel x y ≡ xor_digits least x y
xor_digits-enough zero y least fuel h g = cc (xor_digits-zero fuel y, xor_digits-zero least y)
xor_digits-enough (suc x) y (suc least) (suc fuel) h g =
    omega (arith, xor_digits-enough (suc x / 2) (y / 2) least fuel (omega arith) (omega arith))
xor_digits-enough (suc x) y zero fuel h g = absurd (omega arith)
xor_digits-enough (suc x) y (suc least) zero h g = absurd (omega arith)

differ_bits : (x y : ℕ) → x < 2 → y < 2 → differ x y ≡ (x + y) % 2
differ_bits zero y p q = omega arith
differ_bits (suc zero) zero p q = refl
differ_bits (suc zero) (suc zero) p q = refl
differ_bits (suc zero) (suc (suc y)) p q = absurd (omega arith)
differ_bits (suc (suc x)) y p q = absurd (omega arith)

pub zero-bit_xor : (b : ℕ) → bit_xor 0 b ≡ b
zero-bit_xor b = bit_xor-bitwise 0 b

pub bit_xor_step : (a b : ℕ) → bit_xor a b ≡ bit_xor (a / 2) (b / 2) * 2 + (a + b) % 2
bit_xor_step zero b = omega (arith, zero-bit_xor b, zero-bit_xor (b / 2))
bit_xor_step (suc a) b = omega (
  arith,
  bit_xor-bitwise (suc a) b,
  bit_xor-bitwise (suc a / 2) (b / 2),
  xor_digits-enough (suc a / 2) (b / 2) (suc a / 2) a (omega arith) (omega arith),
  differ_bits (suc a % 2) (b % 2) (omega arith) (omega arith),
)

-- Shifting distributes.
pub bit_xor-half : (a b : ℕ) → bit_xor a b / 2 ≡ bit_xor (a / 2) (b / 2)
bit_xor-half a b = omega (arith, bit_xor_step a b)

pub bit_xor-parity : (a b : ℕ) → bit_xor a b % 2 ≡ (a + b) % 2
bit_xor-parity a b = omega (arith, bit_xor_step a b)

pub bit_xor-zero : (n a : ℕ) → a ≤ n → bit_xor a 0 ≡ a
bit_xor-zero zero a h = let p : a ≡ 0 = omega arith in rw (p, zero-bit_xor)
bit_xor-zero (suc n) a h = ground (arith, bit_xor_step a 0, bit_xor-zero n (a / 2), zero-bit_xor 0)

comm_below : (n a b : ℕ) → a + b ≤ n → bit_xor a b ≡ bit_xor b a
comm_below zero a b h = let p : a ≡ b = omega arith in rw p
comm_below (suc n) a b h =
    ground (arith, bit_xor_step a b, bit_xor_step b a, comm_below n (a / 2) (b / 2))

assoc_below : (n a b c : ℕ) → a + b + c ≤ n → bit_xor (bit_xor a b) c ≡ bit_xor a (bit_xor b c)
assoc_below zero a b c h =
    let p : a ≡ 0 = omega arith in
    let q : c ≡ 0 = omega arith in let r : b ≡ 0 = omega arith in rw (p, q, r)
assoc_below (suc n) a b c h = omega (
  arith,
  bit_xor_step (bit_xor a b) c,
  bit_xor_step a (bit_xor b c),
  ap (λ t. bit_xor t (c / 2)) (bit_xor-half a b),
  ap (λ t. bit_xor (a / 2) t) (bit_xor-half b c),
  bit_xor-parity a b,
  bit_xor-parity b c,
  assoc_below n (a / 2) (b / 2) (c / 2) (omega arith),
)

self_below : (n a : ℕ) → a ≤ n → bit_xor a a ≡ 0
self_below zero a h = let p : a ≡ 0 = omega arith in rw (p, zero-bit_xor)
self_below (suc n) a h = ground (arith, bit_xor_step a a, self_below n (a / 2))

pub bit_xor_assoc : (a b c : ℕ) → bit_xor (bit_xor a b) c ≡ bit_xor a (bit_xor b c)
bit_xor_assoc a b c = assoc_below (a + b + c) a b c (omega arith)

pub bit_xor_comm : (a b : ℕ) → bit_xor a b ≡ bit_xor b a
bit_xor_comm a b = comm_below (a + b) a b (omega arith)

pub bit_xor_self : (a : ℕ) → bit_xor a a ≡ 0
bit_xor_self a = self_below a a (omega arith)

-- Words below 2 ^ k stay below it.
pub bit_xor-lt : (k a b : ℕ) → a < 2 ^ k → b < 2 ^ k → bit_xor a b < 2 ^ k
bit_xor-lt zero a b p q =
    let e : a ≡ 0 = omega arith in
    let f : b ≡ 0 = omega arith in omega (arith, ap (λ t. bit_xor t b) e, zero-bit_xor b)
bit_xor-lt (suc k) a b p q = omega (
  arith,
  pow-suc 2 k,
  bit_xor_step a b,
  bit_xor-lt k (a / 2) (b / 2) (omega (arith, pow-suc 2 k)) (omega (arith, pow-suc 2 k)),
)

-- A low word and a high one do not meet.
pub bit_xor-disjoint : (k a m : ℕ) → a < 2 ^ k → bit_xor a (m * 2 ^ k) ≡ a + m * 2 ^ k
bit_xor-disjoint zero a m p = let e : a ≡ 0 = omega arith in rw (e, zero-bit_xor) (omega arith)
bit_xor-disjoint (suc k) a m p = omega (
  arith,
  pow-suc 2 k,
  ap (λ t. m * t) (pow-suc 2 k),
  bit_xor_step a (m * 2 ^ suc k),
  ap (λ t. bit_xor (a / 2) t) halved,
  bit_xor-disjoint k (a / 2) m (omega (arith, pow-suc 2 k)),
)
  where
    halved : m * 2 ^ suc k / 2 ≡ m * 2 ^ k
    halved = omega (arith, ap (λ t. m * t) (pow-suc 2 k))

pub bit_xor-cancel : (a b c : ℕ) → bit_xor a c ≡ bit_xor b c → a ≡ b
bit_xor-cancel a b c h = cc (
  ap (λ t. bit_xor t c) h,
  bit_xor_assoc a c c,
  bit_xor_assoc b c c,
  bit_xor_self c,
  bit_xor-zero a a (omega arith),
  bit_xor-zero b b (omega arith),
)

halves : ℕ → ℕ → ℕ
halves zero x = x
halves (suc n) x = halves n (x / 2)

bit_xor-halves : (n a b : ℕ) → halves n (bit_xor a b) ≡ bit_xor (halves n a) (halves n b)
unfolding halves
bit_xor-halves zero a b = refl
bit_xor-halves (suc n) a b = rw bit_xor-half (bit_xor-halves n (a / 2) (b / 2))

halves_eight : (x : ℕ) → halves 8 x ≡ x / 256
unfolding halves
halves_eight x = omega arith

pub bit_xor-div_byte : (a b : ℕ) → bit_xor a b / 256 ≡ bit_xor (a / 256) (b / 256)
bit_xor-div_byte a b =
    cc (bit_xor-halves 8 a b, halves_eight (bit_xor a b), halves_eight a, halves_eight b)

-- A test that holds for each number below a bound, decided by evaluation.
unfoldable pub all_below : ℕ → (ℕ → Bool) → Bool
all_below zero test = true
all_below (suc top) test = if test top then all_below top test else false

pub all_below_sound :
    (bound : ℕ) (test : ℕ → Bool)
    → all_below bound test ≡ true
    → (i : ℕ) → i < bound
    → test i ≡ true
unfolding all_below
all_below_sound zero test ok i h = absurd (omega arith)
all_below_sound (suc top) test ok i h =
    ground (arith, λ (q : all_below top test ≡ true) (g : i < top). all_below_sound top test q i g)
