-- ===== src/Machine/Mult.antt =====
-- machine/mipssim.cc, `Mult`: the 64-bit product of two 32-bit numbers by shifting and adding.
pub mod Product
use cmps.Prelude.{ℕ, zero, suc, ◌+◌, ◌-◌, ◌*◌, ◌/◌, ◌%◌, ◌^◌, Bool, true, false, not, ◌&&◌, ◌||◌}
use cmps.Prelude.{leb, ltb, ◌==◌, if◌then◌else◌}
use cmps.Prelude.Bits.{u32, not_u32}

-- The words through `hiPtr` and `loPtr`.
pub record HiLo : Type 0 where
  pub hi : ℕ
  pub lo : ℕ

-- `x < 0` of an `int`.
abbrev pub is_negative : ℕ → Bool
is_negative x = leb (2 ^ 31) x

-- `-x` of an `int`.
abbrev pub negate : ℕ → ℕ
negate x = u32 (2 ^ 32 - x)

-- `a >>= 1` of an `int`: the sign stays.
abbrev pub halve : ℕ → ℕ
halve a = a / 2 + (if is_negative a then 2 ^ 31 else 0)

-- `lo += bLo; if (lo < bLo) hi += 1; hi += bHi;`
pub add_shifted : ℕ → ℕ → HiLo → HiLo
add_shifted b_hi b_lo acc =
    let lo = u32 (acc.lo + b_lo) in
    let hi = if ltb lo b_lo then u32 (acc.hi + 1) else acc.hi in
    record { hi = u32 (hi + b_hi); lo = lo }

-- `bHi <<= 1; if (bLo & 0x80000000) bHi |= 1;`: the low bit is clear after the shift.
pub shift_hi : ℕ → ℕ → ℕ
shift_hi b_hi b_lo = u32 (b_hi * 2) + (if b_lo / 2 ^ 31 % 2 == 1 then 1 else 0)

-- The loop, `n` rounds; `(a & 0xfffffffe) == 0` is `a / 2 == 0`.
pub mult_loop : ℕ → ℕ → ℕ → ℕ → HiLo → HiLo
mult_loop zero a b_hi b_lo acc = acc
mult_loop (suc n) a b_hi b_lo acc =
    let acc' = if a % 2 == 1 then add_shifted b_hi b_lo acc else acc in
    let rest = mult_loop n (halve a) (shift_hi b_hi b_lo) (u32 (b_lo * 2)) acc' in
    if a % 2 == 1 && a / 2 == 0 then acc' else rest

-- `hi = ~hi; lo = ~lo; lo++; if (lo == 0) hi++;`
pub negate_hi_lo : HiLo → HiLo
negate_hi_lo r =
    let lo = u32 (not_u32 r.lo + 1) in
    record { hi = if lo == 0 then u32 (not_u32 r.hi + 1) else not_u32 r.hi; lo = lo }

pub mult : ℕ → ℕ → Bool → HiLo
mult a b signed_arith =
    if a == 0 || b == 0
    then record { hi = 0; lo = 0 }
    else (let a_neg = signed_arith && is_negative a in
        let b_neg = signed_arith && is_negative b in
        let a' = if a_neg then negate a else a in
        let b' = if b_neg then negate b else b in
        let negative = if b_neg then not a_neg else a_neg in
        let r = mult_loop 32 a' 0 b' (record { hi = 0; lo = 0 }) in
        if negative then negate_hi_lo r else r)
