-- ===== src/Machine/Mult/Product.antt =====
-- machine/mipssim.cc: `Mult` computes the product.
use cmps.Prelude.{
  ℕ, zero, suc, ◌+◌, ◌-◌, ◌*◌, ◌/◌, ◌%◌, ◌^◌, ◌<◌, ◌≤◌, ◌≡◌, arith, ap, ◌∙◌, sym, Bool, true, false,
  ◌&&◌, ◌==◌, if◌then◌else◌, ◌||◌, Bool-cases, inl, inr,
}
use native.Mathlib.Nat.{
  pow-suc, one-le-pow, mul_comm, mul-le-mul, le-mul_of_pos_right, zero-mod, mod-one,
  add-mul-mod_self_right,
}
use cmps.Prelude.Bits.{u32, mod_double}
use cmps.Machine.Mult.{
  HiLo, is_negative, negate, halve, add_shifted, shift_hi, mult_loop, negate_hi_lo, mult,
}

-- A pair of words is one number of 64 bits.
abbrev pub value_of : HiLo → ℕ
value_of r = r.hi * 2 ^ 32 + r.lo

pub record IsWords (r : HiLo) : Type 0 where
  pub hi_word : r.hi < 2 ^ 32
  pub lo_word : r.lo < 2 ^ 32

-- The addition loses nothing while the sum fits in 64 bits.
add_shifted_lem :
    (b_hi b_lo : ℕ) (acc : HiLo)
    → IsWords acc
    → b_hi < 2 ^ 32
    → b_lo < 2 ^ 32
    → value_of acc + (b_hi * 2 ^ 32 + b_lo) < 2 ^ 64
    → IsWords (add_shifted b_hi b_lo acc)
      × (value_of (add_shifted b_hi b_lo acc) ≡ value_of acc + (b_hi * 2 ^ 32 + b_lo))
unfolding add_shifted
add_shifted_lem b_hi b_lo acc w h l fits = ground arith

-- Nor does the shift while the number is below 2 ^ 63.
shift_lem :
    (b_hi b_lo : ℕ)
    → b_lo < 2 ^ 32
    → b_hi < 2 ^ 31
    → (shift_hi b_hi b_lo < 2 ^ 32)
      × (shift_hi b_hi b_lo * 2 ^ 32 + b_lo * 2 % 2 ^ 32 ≡ 2 * (b_hi * 2 ^ 32 + b_lo))
unfolding shift_hi
shift_lem b_hi b_lo l h = ground arith

pow-add : (m n : ℕ) → 2 ^ (m + n) ≡ 2 ^ m * 2 ^ n
pow-add zero n = omega (arith, ap (λ k. 2 ^ k) {x = 0 + n} {y = n} (omega arith))
pow-add (suc m) n = omega (
  arith,
  ap (λ k. 2 ^ k) {x = suc m + n} {y = suc (m + n)} (omega arith),
  pow-suc 2 (m + n),
  ap (λ (t : ℕ). t * 2 ^ n) (pow-suc 2 m),
  pow-add m n,
)

-- The sign that `>>=` keeps does not reach the bits that are still to be read.
halve-mod : (n a : ℕ) → n ≤ 31 → halve a % 2 ^ n ≡ a / 2 % 2 ^ n
halve-mod n a h = elim (Bool-cases (is_negative a)) [
  | inl neg ↦
      rw neg (
        ap (λ t. (a / 2 + t) % 2 ^ n) whole ∙ add-mul-mod_self_right (a / 2) (2 ^ (31 - n)) (2 ^ n))
  | inr pos ↦ rw pos (ap (λ t. t % 2 ^ n) none)
]
  where
    exponent : 31 ≡ 31 - n + n
    exponent = omega arith

    whole : 2 ^ 31 ≡ 2 ^ (31 - n) * 2 ^ n
    whole = ap (λ k. 2 ^ k) exponent ∙ pow-add (31 - n) n

    none : a / 2 + 0 ≡ a / 2
    none = omega arith

abbrev shifted : ℕ → ℕ → ℕ
shifted b_hi b_lo = b_hi * 2 ^ 32 + b_lo

-- What the loop needs of its variables: `x` stands for the bits of `a` still to be read.
record Ready (n a b_hi b_lo : ℕ) (acc : HiLo) (x : ℕ) : Type 0 where
  few : n ≤ 32
  acc_words : IsWords acc
  b_hi_word : b_hi < 2 ^ 32
  b_lo_word : b_lo < 2 ^ 32
  bits : a % 2 ^ n ≡ x
  room : shifted b_hi b_lo * 2 ^ n < 2 ^ 64
  fits : value_of acc + x * shifted b_hi b_lo < 2 ^ 64

-- What it gives.
abbrev Gives : HiLo → ℕ → Type 0
Gives r v = IsWords r × (value_of r ≡ v)

module _ (n a b_hi b_lo : ℕ) (acc : HiLo) (x : ℕ) (r : Ready (suc n) a b_hi b_lo acc x) where
  left : ℕ
  left = a / 2 % 2 ^ n

  split : x ≡ left * 2 + a % 2
  unfolding left
  split = omega (
    arith,
    r.bits,
    ap (λ t. a % t) (pow-suc 2 n ∙ mul_comm (2 ^ n) 2),
    mod_double a (2 ^ n) (one-le-pow n 2 (omega arith)),
  )

  small : shifted b_hi b_lo < 2 ^ 63
  small = omega (
    arith,
    r.room,
    pow-suc 2 n,
    ap (λ (t : ℕ). shifted b_hi b_lo * t) (pow-suc 2 n),
    le-mul_of_pos_right {m = 2 ^ n} (shifted b_hi b_lo) (one-le-pow n 2 (omega arith)),
  )

  product : x * shifted b_hi b_lo ≡ left * (2 * shifted b_hi b_lo) + a % 2 * shifted b_hi b_lo
  product = omega (arith, ap (λ (t : ℕ). t * shifted b_hi b_lo) split)

  doubled : shifted (shift_hi b_hi b_lo) (u32 (b_lo * 2)) ≡ 2 * shifted b_hi b_lo
  doubled = (shift_lem b_hi b_lo r.b_lo_word (omega (arith, small))).1

  Ready-next :
      (acc' : HiLo)
      → Gives acc' (value_of acc + a % 2 * shifted b_hi b_lo)
      → Ready n (halve a) (shift_hi b_hi b_lo) (u32 (b_lo * 2)) acc' left
  unfolding left
  Ready-next acc' (w, e) = record {
    few = omega (arith, r.few);
    acc_words = w;
    b_hi_word = (shift_lem b_hi b_lo r.b_lo_word (omega (arith, small))).0;
    b_lo_word = omega arith;
    bits = halve-mod n a (omega (arith, r.few));
    room = omega (
      arith,
      r.room,
      ap (λ (t : ℕ). shifted b_hi b_lo * t) (pow-suc 2 n),
      ap (λ (t : ℕ). t * 2 ^ n) doubled,
    );
    fits = omega (arith, e, product, r.fits, ap (λ (t : ℕ). left * t) doubled);
  }

  -- A round whose bit is 1, and one whose bit is 0.
  Gives-odd :
      a % 2 ≡ 1 → Gives (add_shifted b_hi b_lo acc) (value_of acc + a % 2 * shifted b_hi b_lo)
  Gives-odd odd =
      let (w, e) = add_shifted_lem b_hi b_lo acc r.acc_words r.b_hi_word r.b_lo_word fits in
      (w, omega (arith, e, one))
    where
      one : a % 2 * shifted b_hi b_lo ≡ shifted b_hi b_lo
      one = omega (arith, ap (λ (t : ℕ). t * shifted b_hi b_lo) odd)

      fits : value_of acc + shifted b_hi b_lo < 2 ^ 64
      fits = omega (arith, r.fits, product, one)

  Gives-even : a % 2 ≡ 0 → Gives acc (value_of acc + a % 2 * shifted b_hi b_lo)
  Gives-even even = (r.acc_words, omega (arith, ap (λ (t : ℕ). t * shifted b_hi b_lo) even))

  -- The bit's addend and the rest of the rounds make the whole.
  Gives-rest :
      {acc' r' : HiLo}
      → Gives acc' (value_of acc + a % 2 * shifted b_hi b_lo)
      → Gives r' (value_of acc' + left * shifted (shift_hi b_hi b_lo) (u32 (b_lo * 2)))
      → Gives r' (value_of acc + x * shifted b_hi b_lo)
  Gives-rest (_, e) (w, e') = (w, omega (arith, e, e', product, ap (λ (t : ℕ). left * t) doubled))

  -- After the last bit that is 1 nothing is left.
  Gives-last :
      {acc' : HiLo}
      → a / 2 ≡ 0
      → Gives acc' (value_of acc + a % 2 * shifted b_hi b_lo)
      → Gives acc' (value_of acc + x * shifted b_hi b_lo)
  unfolding left
  Gives-last zero_left (w, e) = (
    w,
    omega (
      arith,
      e,
      product,
      ap (λ (t : ℕ). t * (2 * shifted b_hi b_lo)) {y = 0}
          (ap (λ t. t % 2 ^ n) zero_left ∙ zero-mod (2 ^ n)),
    ),
  )

mult_loop_lem :
    (n a b_hi b_lo : ℕ) (acc : HiLo) (x : ℕ)
    → Ready n a b_hi b_lo acc x
    → Gives (mult_loop n a b_hi b_lo acc) (value_of acc + x * shifted b_hi b_lo)
unfolding mult_loop
mult_loop_lem zero a b_hi b_lo acc x r =
    (r.acc_words, omega (arith, ap (λ (t : ℕ). t * shifted b_hi b_lo) nothing))
  where
    nothing : x ≡ 0
    nothing = omega (arith, r.bits, mod-one a)
mult_loop_lem (suc n) a b_hi b_lo acc x r = elim (Bool-cases (a % 2 == 1)) [
  | inl odd ↦
      let bit = Gives-odd n a b_hi b_lo acc x r (ground arith) in
      elim (Bool-cases (a / 2 == 0)) [
        | inl last ↦ rw odd (rw last (Gives-last n a b_hi b_lo acc x r (ground arith) bit))
        | inr more ↦ rw odd (
            rw more (
              Gives-rest n a b_hi b_lo acc x r bit (
                mult_loop_lem n (halve a) (shift_hi b_hi b_lo) (u32 (b_lo * 2))
                  (add_shifted b_hi b_lo acc) (left n a b_hi b_lo acc x r)
                  (Ready-next n a b_hi b_lo acc x r (add_shifted b_hi b_lo acc) bit))))
      ]
  | inr even ↦
      let bit = Gives-even n a b_hi b_lo acc x r (ground arith) in
      rw even (
        Gives-rest n a b_hi b_lo acc x r bit (
          mult_loop_lem n (halve a) (shift_hi b_hi b_lo) (u32 (b_lo * 2)) acc
            (left n a b_hi b_lo acc x r) (Ready-next n a b_hi b_lo acc x r acc bit)))
]

product_word : (a b : ℕ) → a ≤ 2 ^ 32 - 1 → b ≤ 2 ^ 32 - 1 → a * b < 2 ^ 64
product_word a b h k =
    omega (arith, mul-le-mul {n₁ = a} {m₁ = b} {n₂ = 2 ^ 32 - 1} {m₂ = 2 ^ 32 - 1} h k)

-- The 32 rounds from nothing.
mult_rounds_lem :
    (a b : ℕ)
    → a < 2 ^ 32
    → b < 2 ^ 32
    → Gives (mult_loop 32 a 0 b (record { hi = 0; lo = 0 })) (a * b)
mult_rounds_lem a b a_word b_word = (rounds.0, omega (arith, rounds.1, ap (λ (t : ℕ). a * t) same))
  where
    same : 0 * 2 ^ 32 + b ≡ b
    same = omega arith

    rounds : Gives (mult_loop 32 a 0 b (record { hi = 0; lo = 0 })) (0 + a * shifted 0 b)
    rounds =
        mult_loop_lem 32 a 0 b (record { hi = 0; lo = 0 }) a
          (record {
            few = omega arith;
            acc_words = record { hi_word = omega arith; lo_word = omega arith };
            b_hi_word = omega arith;
            b_lo_word = b_word;
            bits = omega (arith, a_word);
            room = omega (arith, b_word);
            fits =
                omega
                  (arith, product_word a b (omega arith) (omega arith), ap (λ (t : ℕ). a * t) same);
          })

negate_hi_lo_lem :
    (r : HiLo) → IsWords r → value_of (negate_hi_lo r) ≡ (2 ^ 64 - value_of r) % 2 ^ 64
unfolding negate_hi_lo
negate_hi_lo_lem r w = ground arith

-- An operand of 64 bits, sign-extended for `OP_MULT`.
abbrev pub extend : Bool → ℕ → ℕ
extend signed_arith x = if signed_arith && is_negative x then 2 ^ 64 - 2 ^ 32 + x else x

-- `2 ^ 64 - x` in place of `-x`, in one factor and in both.
module _ (a x : ℕ) (complement : a + x ≡ 2 ^ 64) where
  complement-left : (b : ℕ) → 1 ≤ b → x * b ≤ 2 ^ 64 → a * b % 2 ^ 64 ≡ (2 ^ 64 - x * b) % 2 ^ 64
  complement-left b some small =
      ap (λ t. t % 2 ^ 64) {y = 2 ^ 64 - x * b + (b - 1) * 2 ^ 64}
        (omega (arith, ap (λ (t : ℕ). t * b) complement))
      ∙ add-mul-mod_self_right (2 ^ 64 - x * b) (b - 1) (2 ^ 64)

  complement-both : (b y : ℕ) → b + y ≡ 2 ^ 64 → x ≤ b → a * b % 2 ^ 64 ≡ x * y % 2 ^ 64
  complement-both b y complement' small =
      ap (λ t. t % 2 ^ 64) {y = x * y + (b - x) * 2 ^ 64}
        (omega (arith, ap (λ (t : ℕ). t * b) complement, ap (λ (t : ℕ). x * t) complement'))
      ∙ add-mul-mod_self_right (x * y) (b - x) (2 ^ 64)

-- What `Mult` reads from a negative operand.
negative_lem :
    (x : ℕ) (signed_arith : Bool)
    → x < 2 ^ 32
    → signed_arith && is_negative x ≡ true
    → (2 ^ 31 ≤ x) × (negate x ≡ 2 ^ 32 - x)
negative_lem x true _ neg = ground arith
negative_lem x false _ neg = ground arith

nil_lem :
    (a b : ℕ) (signed_arith : Bool)
    → a == 0 || b == 0 ≡ true
    → extend signed_arith a * extend signed_arith b % 2 ^ 64 ≡ 0
nil_lem zero b true _ = omega arith
nil_lem zero b false _ = omega arith
nil_lem (suc a) zero true _ = omega arith
nil_lem (suc a) zero false _ = omega arith
nil_lem (suc a) (suc b) true h = ground arith
nil_lem (suc a) (suc b) false h = ground arith

-- One negative operand `a` with magnitude `x`: `r` is the product of the magnitudes.
one_negative :
    (r : HiLo) (a b x : ℕ)
    → Gives r (x * b)
    → 2 ^ 31 ≤ a
    → x + a ≡ 2 ^ 32
    → 1 ≤ b
    → b < 2 ^ 32
    → value_of (negate_hi_lo r) ≡ (2 ^ 64 - 2 ^ 32 + a) * b % 2 ^ 64
one_negative r a b x (w, e) a_high a_mag some b_word =
    negate_hi_lo_lem r w
    ∙ ap (λ t. (2 ^ 64 - t) % 2 ^ 64) e
    ∙ sym (
        complement-left (2 ^ 64 - 2 ^ 32 + a) x (omega arith) b some
          (omega (arith, product_word x b (omega arith) (omega arith))))

-- The two words hold the low 64 bits of the product of the operands, sign-extended if the product is signed.
pub mult_lem :
    (a b : ℕ) (signed_arith : Bool)
    → a < 2 ^ 32
    → b < 2 ^ 32
    → value_of (mult a b signed_arith) ≡ extend signed_arith a * extend signed_arith b % 2 ^ 64
unfolding mult
mult_lem a b signed_arith a_word b_word = elim (Bool-cases (a == 0 || b == 0)) [
  | inl nil ↦ rw nil (sym (nil_lem a b signed_arith nil))
  | inr some_product ↦ rw some_product (elim (Bool-cases (signed_arith && is_negative a)) [
    | inl a_neg ↦
        let (a_high, a_mag) = negative_lem a signed_arith a_word a_neg in
        elim (Bool-cases (signed_arith && is_negative b)) [
          | inl b_neg ↦
              let (b_high, b_mag) = negative_lem b signed_arith b_word b_neg in
              rw (a_neg, b_neg) (both (negate a) (negate b) a_high b_high a_mag b_mag)
          | inr b_pos ↦
              rw (a_neg, b_pos)
                (one_negative _ a b (negate a) (mult_rounds_lem (negate a) b (omega arith) b_word)
                  a_high (omega arith) (ground arith) b_word)
        ]
    | inr a_pos ↦ elim (Bool-cases (signed_arith && is_negative b)) [
      | inl b_neg ↦
          let (b_high, b_mag) = negative_lem b signed_arith b_word b_neg in
          rw (a_pos, b_neg) (right (negate b) b_high b_mag (ground arith))
      | inr b_pos ↦
          rw (a_pos, b_pos)
            (omega (
              arith,
              (mult_rounds_lem a b a_word b_word).1,
              product_word a b (omega arith) (omega arith),
            ))
    ]
  ])
]
  where
    right :
        (b' : ℕ)
        → 2 ^ 31 ≤ b
        → b' ≡ 2 ^ 32 - b
        → 1 ≤ a
        → value_of (negate_hi_lo (mult_loop 32 a 0 b' (record { hi = 0; lo = 0 })))
          ≡ a * (2 ^ 64 - 2 ^ 32 + b) % 2 ^ 64
    right b' b_high b_mag some =
        let (w, e) = mult_rounds_lem a b' a_word (omega arith) in
        one_negative _ b a b' (w, e ∙ mul_comm a b') b_high (omega arith) some a_word
        ∙ ap (λ t. t % 2 ^ 64) (mul_comm (2 ^ 64 - 2 ^ 32 + b) a)

    both :
        (a' b' : ℕ)
        → 2 ^ 31 ≤ a
        → 2 ^ 31 ≤ b
        → a' ≡ 2 ^ 32 - a
        → b' ≡ 2 ^ 32 - b
        → value_of (mult_loop 32 a' 0 b' (record { hi = 0; lo = 0 }))
          ≡ (2 ^ 64 - 2 ^ 32 + a) * (2 ^ 64 - 2 ^ 32 + b) % 2 ^ 64
    both a' b' a_high b_high a_mag b_mag = omega (
      arith,
      (mult_rounds_lem a' b' (omega arith) (omega arith)).1,
      product_word a' b' (omega arith) (omega arith),
      complement-both (2 ^ 64 - 2 ^ 32 + a) a' (omega arith) (2 ^ 64 - 2 ^ 32 + b) b' (omega arith)
          (omega arith),
    )
