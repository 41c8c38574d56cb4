-- ===== src/Filesys/OpenFile/Bytes.antt =====
-- filesys/openfile.cc: the buffers of `ReadAt` and `WriteAt`, byte by byte.
use cmps.Prelude.{ℕ, zero, suc, ◌+◌, ◌*◌, ◌/◌, ◌%◌, ◌≤◌, ◌<◌, ◌≡◌, refl, arith, ap, ◌∙◌}
use cmps.Prelude.{
  List, [], ◌∷◌, some, length, set, take, drop, get_or, ltb, le→leb, ==_of_eq, ==_of_ne, inl, inr,
  ◌⊎◌, length-set, get_or-set, length-take, length-drop,
}
use cmps.Prelude.{Bool-cases, ltb→lt, le_of_not_ltb, ap₂}
use cmps.Filesys.OpenFile.{bytes_of, words_of, copy_bytes, copy_into, slice}

-- The byte at an index, 0 past the end.
abbrev pub byte_at : List ℕ → ℕ → ℕ
byte_at bs k = get_or bs k 0

abbrev pub AreBytes : List ℕ → Type 0
AreBytes bs = (k : ℕ) → byte_at bs k < 256

pub length-bytes_of : (ws : List ℕ) → length (bytes_of ws) ≡ 4 * length ws
unfolding bytes_of
length-bytes_of [] = omega arith
length-bytes_of (w ∷ ws) = omega (arith, length-bytes_of ws)

pub bytes_of-AreBytes : (ws : List ℕ) → AreBytes (bytes_of ws)
unfolding bytes_of
bytes_of-AreBytes [] k = omega arith
bytes_of-AreBytes (w ∷ ws) zero = omega arith
bytes_of-AreBytes (w ∷ ws) (suc zero) = omega arith
bytes_of-AreBytes (w ∷ ws) (suc (suc zero)) = omega arith
bytes_of-AreBytes (w ∷ ws) (suc (suc (suc zero))) = omega arith
bytes_of-AreBytes (w ∷ ws) (suc (suc (suc (suc k)))) = bytes_of-AreBytes ws k

pub length-words_of : (m : ℕ) (bs : List ℕ) → length bs ≡ 4 * m → length (words_of bs) ≡ m
unfolding words_of
length-words_of zero [] h = refl
length-words_of (suc m) (a ∷ b ∷ c ∷ e ∷ bs) h = ap suc (length-words_of m bs (omega arith))
length-words_of zero (a ∷ bs) h = omega arith
length-words_of (suc m) [] h = omega arith
length-words_of (suc m) (a ∷ []) h = omega arith
length-words_of (suc m) (a ∷ b ∷ []) h = omega arith
length-words_of (suc m) (a ∷ b ∷ c ∷ []) h = omega arith

module _ (a b c e : ℕ) (ha : a < 256) (hb : b < 256) (hc : c < 256) (he : e < 256) where
  abbrev word : ℕ
  word = a + 256 * b + 65536 * c + 16777216 * e

  low : word % 256 ≡ a
  low = omega arith

  second : word / 256 % 256 ≡ b
  second = omega arith

  third : word / 65536 % 256 ≡ c
  third = omega arith

  fourth : word / 16777216 % 256 ≡ e
  fourth = omega arith

pub bytes_of-words_of :
    (m : ℕ) (bs : List ℕ)
    → length bs ≡ 4 * m
    → AreBytes bs
    → (k : ℕ) → byte_at (bytes_of (words_of bs)) k ≡ byte_at bs k
unfolding bytes_of words_of
bytes_of-words_of zero [] h small k = refl
bytes_of-words_of (suc m) (a ∷ b ∷ c ∷ e ∷ bs) h small zero =
    low a b c e (small 0) (small 1) (small 2) (small 3)
bytes_of-words_of (suc m) (a ∷ b ∷ c ∷ e ∷ bs) h small (suc zero) =
    second a b c e (small 0) (small 1) (small 2) (small 3)
bytes_of-words_of (suc m) (a ∷ b ∷ c ∷ e ∷ bs) h small (suc (suc zero)) =
    third a b c e (small 0) (small 1) (small 2) (small 3)
bytes_of-words_of (suc m) (a ∷ b ∷ c ∷ e ∷ bs) h small (suc (suc (suc zero))) =
    fourth a b c e (small 0) (small 1) (small 2) (small 3)
bytes_of-words_of (suc m) (a ∷ b ∷ c ∷ e ∷ bs) h small (suc (suc (suc (suc k)))) =
    bytes_of-words_of m bs (omega arith) (λ j. small (suc (suc (suc (suc j))))) k
bytes_of-words_of zero (a ∷ bs) h small k = absurd (omega arith)
bytes_of-words_of (suc m) [] h small k = absurd (omega arith)
bytes_of-words_of (suc m) (a ∷ []) h small k = absurd (omega arith)
bytes_of-words_of (suc m) (a ∷ b ∷ []) h small k = absurd (omega arith)
bytes_of-words_of (suc m) (a ∷ b ∷ c ∷ []) h small k = absurd (omega arith)

pub length-copy_bytes :
    (bs : List ℕ) (off : ℕ) (buf : List ℕ) → length (copy_bytes bs off buf) ≡ length buf
unfolding copy_bytes
length-copy_bytes [] off buf = refl
length-copy_bytes (b ∷ bs) off buf =
    length-copy_bytes bs (off + 1) (set buf off b) ∙ length-set buf off b

-- A byte outside the bytes that were copied, and one among them.
pub byte_at-copy_bytes_outside :
    (bs : List ℕ) (off : ℕ) (buf : List ℕ) (k : ℕ)
    → off + length bs ≤ length buf
    → (k < off) ⊎ (off + length bs ≤ k)
    → byte_at (copy_bytes bs off buf) k ≡ byte_at buf k
unfolding copy_bytes
byte_at-copy_bytes_outside [] off buf k fits away = refl
byte_at-copy_bytes_outside (b ∷ bs) off buf k fits away =
    byte_at-copy_bytes_outside bs (off + 1) (set buf off b) k (omega (arith, length-set buf off b))
      (omega arith)
    ∙ get_or-set buf off b k 0 (omega arith)
    ∙ rw (==_of_ne off k (omega arith)) refl

pub byte_at-copy_bytes :
    (bs : List ℕ) (off : ℕ) (buf : List ℕ) (j : ℕ)
    → off + length bs ≤ length buf
    → j < length bs
    → byte_at (copy_bytes bs off buf) (off + j) ≡ byte_at bs j
unfolding copy_bytes
byte_at-copy_bytes [] off buf j fits lt = omega arith
byte_at-copy_bytes (b ∷ bs) off buf zero fits lt =
    byte_at-copy_bytes_outside bs (off + 1) (set buf off b) (off + 0)
      (omega (arith, length-set buf off b)) (omega arith)
    ∙ get_or-set buf off b (off + 0) 0 (omega arith)
    ∙ rw (==_of_eq off (off + 0) (omega arith)) refl
byte_at-copy_bytes (b ∷ bs) off buf (suc j) fits lt =
    ap (λ k. byte_at (copy_bytes bs (off + 1) (set buf off b)) k) {x = off + suc j}
      {y = off + 1 + j} (omega arith)
    ∙ byte_at-copy_bytes bs (off + 1) (set buf off b) j (omega (arith, length-set buf off b))
        (omega arith)

pub copy_bytes-AreBytes :
    (bs : List ℕ) (off : ℕ) (buf : List ℕ)
    → AreBytes bs
    → AreBytes buf
    → off + length bs ≤ length buf
    → AreBytes (copy_bytes bs off buf)
unfolding copy_bytes
copy_bytes-AreBytes [] off buf small old fits = old
copy_bytes-AreBytes (b ∷ bs) off buf small old fits =
    copy_bytes-AreBytes bs (off + 1) (set buf off b) (λ k. small (suc k))
      (λ k. ground (arith, get_or-set buf off b k 0 (omega arith), small zero, old k))
      (omega (arith, length-set buf off b))

pub copy_into-eq :
    (bs : List ℕ) (off : ℕ) (buf : List ℕ)
    → off + length bs ≤ length buf
    → copy_into bs off buf ≡ some (copy_bytes bs off buf)
unfolding copy_into
copy_into-eq bs off buf fits = rw (le→leb _ _ fits) refl

pub slice-eq :
    (buf : List ℕ) (off n : ℕ)
    → off + n ≤ length buf
    → slice buf off n ≡ some (take n (drop off buf))
unfolding slice
slice-eq buf off n fits = rw (le→leb _ _ fits) refl

pub length-slice :
    (buf : List ℕ) (off n : ℕ) → off + n ≤ length buf → length (take n (drop off buf)) ≡ n
length-slice buf off n fits = omega (arith, length-take n (drop off buf), length-drop off buf)

pub byte_at-take : (n : ℕ) (bs : List ℕ) (j : ℕ) → j < n → byte_at (take n bs) j ≡ byte_at bs j
byte_at-take zero bs j h = elim h [ ]
byte_at-take (suc n) [] j h = refl
byte_at-take (suc n) (b ∷ bs) zero h = refl
byte_at-take (suc n) (b ∷ bs) (suc j) h = byte_at-take n bs j (omega arith)

pub byte_at-drop : (off : ℕ) (bs : List ℕ) (j : ℕ) → byte_at (drop off bs) j ≡ byte_at bs (off + j)
byte_at-drop zero bs j = ap (λ k. byte_at bs k) {x = j} {y = 0 + j} (omega arith)
byte_at-drop (suc off) [] j = refl
byte_at-drop (suc off) (b ∷ bs) j =
    byte_at-drop off bs j
    ∙ ap (λ k. byte_at (b ∷ bs) k) {x = suc (off + j)} {y = suc off + j} (omega arith)

pub byte_at-slice :
    (buf : List ℕ) (off n j : ℕ) → j < n → byte_at (take n (drop off buf)) j ≡ byte_at buf (off + j)
byte_at-slice buf off n j lt = byte_at-take n (drop off buf) j lt ∙ byte_at-drop off buf j

pub byte_at_past : (bs : List ℕ) (k : ℕ) → length bs ≤ k → byte_at bs k ≡ 0
byte_at_past [] k h = refl
byte_at_past (b ∷ bs) zero h = absurd (omega arith)
byte_at_past (b ∷ bs) (suc k) h = byte_at_past bs k (omega arith)

pub slice-AreBytes :
    (buf : List ℕ) (off n : ℕ)
    → AreBytes buf
    → off + n ≤ length buf
    → AreBytes (take n (drop off buf))
slice-AreBytes buf off n small fits k = elim (Bool-cases (ltb k n)) [
  | inl low ↦ omega (arith, byte_at-slice buf off n k (ltb→lt _ _ low), small (off + k))
  | inr high ↦ omega (
    arith,
    byte_at_past (take n (drop off buf)) k
        (omega (arith, length-slice buf off n fits, le_of_not_ltb _ _ high)),
  )
]

-- Lists of the same length with the same bytes are the same.
pub bytes_ext :
    (bs cs : List ℕ)
    → length bs ≡ length cs
    → ((k : ℕ) → k < length bs → byte_at bs k ≡ byte_at cs k)
    → bs ≡ cs
bytes_ext [] [] e h = refl
bytes_ext [] (c ∷ cs) e h = absurd (omega arith)
bytes_ext (b ∷ bs) [] e h = absurd (omega arith)
bytes_ext (b ∷ bs) (c ∷ cs) e h =
    ap₂ (λ x xs. x ∷ xs) (h zero (omega arith))
      (bytes_ext bs cs (omega arith) (λ k lt. h (suc k) (omega arith)))
