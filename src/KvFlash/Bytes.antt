-- ===== src/KvFlash/Bytes.antt =====
-- Little-endian words in the flash and in byte buffers, and stretches of the flash that hold given
-- bytes.
use picowal.Prelude.{
  ℕ, zero, suc, ◌+◌, ◌*◌, ◌/◌, ◌%◌, ◌^◌, ◌<◌, ◌≤◌, ◌≡◌, refl, List, [], ◌∷◌, ◌++◌, arith, length,
  get_or, ◌-◌,
}
use picowal.KvFlash.Hw.{Mem}

unfoldable pub le16 : ℕ → List ℕ
le16 x = x % 256 ∷ x / 256 % 256 ∷ []

unfoldable pub le32 : ℕ → List ℕ
le32 x = x % 256 ∷ x / 256 % 256 ∷ x / 65536 % 256 ∷ x / 16777216 % 256 ∷ []

unfoldable pub read16 : Mem → ℕ → ℕ
read16 m a = m a + 256 * m (a + 1)

unfoldable pub read32 : Mem → ℕ → ℕ
unfolding read16
read32 m a = read16 m a + 65536 * read16 m (a + 1 + 1)

-- The `n` bytes at `a`.
unfoldable pub read_bytes : Mem → ℕ → ℕ → List ℕ
read_bytes m a zero = []
read_bytes m a (suc n) = m a ∷ read_bytes m (a + 1) n

-- The flash holds these bytes at `a`.
abbrev pub Holds : Mem → ℕ → List ℕ → Type 0
Holds m a [] = Unit
Holds m a (b ∷ bs) = (m a ≡ b) × Holds m (a + 1) bs

pub Holds-agree :
    (m m' : Mem) (a : ℕ) (bs : List ℕ)
    → ((i : ℕ) → a ≤ i → i < a + length bs → m' i ≡ m i)
    → Holds m a bs
    → Holds m' a bs
Holds-agree m m' a [] same h = tt
Holds-agree m m' a (b ∷ bs) same h = (
  omega (arith, same a (omega arith) (omega arith), h.0),
  Holds-agree m m' (a + 1) bs (λ i p q. same i (omega arith) (omega arith)) h.1,
)

pub Holds-get_or :
    (m : Mem) (a : ℕ) (bs : List ℕ)
    → ((i : ℕ) → a ≤ i → i < a + length bs → m i ≡ get_or bs (i - a) 0xFF)
    → Holds m a bs
Holds-get_or m a [] h = tt
Holds-get_or m a (b ∷ bs) h = (
  let z : a - a ≡ 0 = omega arith in cc (h a (omega arith) (omega arith), z),
  Holds-get_or m (a + 1) bs λ i p q.
      let z : i - a ≡ suc (i - (a + 1)) = omega arith in cc (h i (omega arith) (omega arith), z),
)

pub read_bytes-Holds :
    (m : Mem) (a : ℕ) (bs : List ℕ) → Holds m a bs → read_bytes m a (length bs) ≡ bs
unfolding read_bytes
read_bytes-Holds m a [] h = refl
read_bytes-Holds m a (b ∷ bs) h = rw (h.0, read_bytes-Holds m (a + 1) bs h.1)

pub Holds-prefix : (m : Mem) (a : ℕ) (xs ys : List ℕ) → Holds m a (xs ++ ys) → Holds m a xs
Holds-prefix m a [] ys h = tt
Holds-prefix m a (x ∷ xs) ys h = (h.0, Holds-prefix m (a + 1) xs ys h.1)

module _ (m : Mem) (a b x : ℕ) (rest : List ℕ) where
  pub read16-Holds :
      Holds m a (le16 x ++ rest) → x < 2 ^ 16 → b ≡ a + 2 → (read16 m a ≡ x) × Holds m b rest
  unfolding le16 read16
  read16-Holds h fits e = (omega arith, let p : b ≡ a + 1 + 1 = omega arith in rw p h.1.1)

  pub read32-Holds :
      Holds m a (le32 x ++ rest) → x < 2 ^ 32 → b ≡ a + 4 → (read32 m a ≡ x) × Holds m b rest
  unfolding le32 read32
  read32-Holds h fits e =
      (omega arith, let p : b ≡ a + 1 + 1 + 1 + 1 = omega arith in rw p h.1.1.1.1)

pub read32-blank :
    (m : Mem) (a : ℕ) → ((i : ℕ) → a ≤ i → i < a + 4 → m i ≡ 0xFF) → read32 m a ≡ 0xFFFF_FFFF
unfolding read32
read32-blank m a h = omega (
  arith,
  h a (omega arith) (omega arith),
  h (a + 1) (omega arith) (omega arith),
  h (a + 1 + 1) (omega arith) (omega arith),
  h (a + 1 + 1 + 1) (omega arith) (omega arith),
)
