-- ===== src/Network/Bytes.antt =====
-- Buffers of characters: `bcopy`, and the three words of a packet header or a mail header in the memory
-- of a little-endian host. A buffer is a function; what `new char[]` contains is whatever it is.
use cmps.Prelude.{
  ℕ, ◌+◌, ◌-◌, ◌*◌, ◌/◌, ◌%◌, ◌^◌, ◌<◌, ◌≤◌, ◌≡◌, arith, ◌&&◌, ltb, leb, ◌==◌, if◌then◌else◌,
  lt→ltb, le→leb, ap,
}

-- `bcopy(from + i, to + j, length)`
abbrev pub bcopy : (ℕ → ℕ) → ℕ → (ℕ → ℕ) → ℕ → ℕ → ℕ → ℕ
bcopy from i to j length k = if leb j k && ltb k (j + length) then from (i + (k - j)) else to k

abbrev pub word : (ℕ → ℕ) → ℕ → ℕ
word buffer a = buffer a + buffer (a + 1) * 256 + buffer (a + 2) * 65536 + buffer (a + 3) * 16777216

-- The characters of an object of three words.
abbrev pub words : ℕ → ℕ → ℕ → ℕ → ℕ
words x y z k =
    let w = if ltb k 4 then x else if ltb k 8 then y else z in
    let byte = k % 4 in
    if byte == 0
    then w % 256
    else if byte == 1
    then w / 256 % 256
    else if byte == 2
    then w / 65536 % 256
    else w / 16777216 % 256

pub word_of_bytes :
    (w : ℕ)
    → w < 2 ^ 32
    → w % 256 + w / 256 % 256 * 256 + w / 65536 % 256 * 65536 + w / 16777216 % 256 * 16777216 ≡ w
word_of_bytes w lt = omega (arith, lt)

-- What was copied, at the place where it is now.
pub bcopy_at :
    (from : ℕ → ℕ) (i : ℕ) (to : ℕ → ℕ) (j length k r : ℕ)
    → j ≤ k
    → k < j + length
    → r + j ≡ i + k
    → bcopy from i to j length k ≡ from r
bcopy_at from i to j length k r le lt e =
    rw (le→leb j k le, lt→ltb k (j + length) lt) (ap (λ m. from m) (omega arith))

pub word_of_same :
    (f g : ℕ → ℕ) (n a : ℕ) → ((k : ℕ) → k < n → f k ≡ g k) → a + 3 < n → word f a ≡ word g a
word_of_same f g n a same lt = omega (
  arith,
  same a (omega arith),
  same (a + 1) (omega arith),
  same (a + 2) (omega arith),
  same (a + 3) (omega arith),
)
