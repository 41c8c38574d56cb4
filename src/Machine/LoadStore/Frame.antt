-- ===== src/Machine/LoadStore/Frame.antt =====
-- machine/mipssim.cc, `Machine::OneInstruction`: the loads and stores.
use Prim.Native.Nat.{bit_and}
use cmps.Prelude.{
  ℕ, ◌-◌, ◌<◌, ◌≡◌, refl, ap, ◌∙◌, Bool, true, false, not, Option, none, some, arith, ◌==◌,
  if◌then◌else◌, Bool-cases, inl, inr, ◌>>=◌,
}
use cmps.Machine.State.{Machine, ExceptionType, address_error_exception}
use cmps.Machine.Instruction.{Instruction}
use cmps.Machine.Memory.{read_mem, write_mem}
use cmps.Machine.Memory.Frame.{
  excepted, accessed, ReadResult, WriteResult, IsBuilt, read_mem-ReadResult, write_mem-WriteResult,
}
use cmps.Machine.Translate.Laws.{IsAccessSize}
use cmps.Machine.Outcome.{Outcome, returned, completed}
use cmps.Machine.Outcome.Frame.{Agrees, stopped, framed, FramedResult}
use cmps.Machine.LoadStore.{
  reading, writing, load_byte, load_half, load_word, load_part, store_part, address,
}

after : {m0 m m1 : Machine} → Agrees m0 m → m1.registers ≡ m.registers → Agrees m0 m1
after a same = record { agrees = λ r h. ap (λ (f : ℕ → ℕ). f r) same ∙ a.agrees r h }

module _ (handler : ExceptionType → Machine → Machine) where
  -- An exception, or what follows a good access, from a machine that `m` agrees with.
  reading-found :
      (m0 m : Machine) (Refused : Type 0) (r : Option (Option ℕ × Machine))
      (continue : Machine → ℕ → Option Outcome)
      → Agrees m0 m
      → ReadResult handler m r
      → ((m1 : Machine) (v : ℕ)
          → Agrees m0 m1
          → IsBuilt m1
          → FramedResult handler m0 Refused (continue m1 v))
      → FramedResult handler m0 Refused
          (r >>= λ (value, m1). elim value [ none ↦ some (returned m1) | some v ↦ continue m1 v ])
  reading-found m0 m Refused none continue a h k = absurd h
  reading-found m0 m Refused (some (none, _)) continue a (excepted which m1 bad same) k =
      stopped which m1 bad (after a same)
  reading-found m0 m Refused (some (some v, m1)) continue a (accessed same b) k =
      k m1 v (after a same) b

  writing-found :
      (m0 m : Machine) (Refused : Type 0) (r : Option (Bool × Machine)) (pc : ℕ)
      → Agrees m0 m
      → WriteResult handler m r
      → FramedResult handler m0 Refused
          (r >>= λ (ok, m1). some (if ok then completed m1 pc 0 0 else returned m1))
  writing-found m0 m Refused none pc a h = absurd h
  writing-found m0 m Refused (some (false, _)) pc a (excepted which m1 bad same) =
      stopped which m1 bad (after a same)
  writing-found m0 m Refused (some (true, m1)) pc a (accessed same _) =
      framed (after a same) (omega arith)

-- The word at `a` is not aligned.
abbrev pub Unaligned : ℕ → Type 0
Unaligned a = (bit_and a 3 == 0) ≡ false

module _ (handler : ExceptionType → Machine → Machine) (m : Machine) (b : IsBuilt m) where
  pub here : Agrees m m
  here = record { agrees = λ r h. refl }

  reading-FramedResult :
      (Refused : Type 0) (a n : ℕ) (continue : Machine → ℕ → Option Outcome)
      → IsAccessSize n
      → ((m1 : Machine) (v : ℕ)
          → Agrees m m1
          → IsBuilt m1
          → FramedResult handler m Refused (continue m1 v))
      → FramedResult handler m Refused (reading handler m a n continue)
  unfolding reading
  reading-FramedResult Refused a n continue size k =
      reading-found handler m m Refused (read_mem handler m a n) continue here
        (read_mem-ReadResult handler m a n b size) k

  pub writing-FramedResult :
      (a n v pc : ℕ) → IsAccessSize n → FramedResult handler m ⊥ (writing handler m a n v pc)
  unfolding writing
  writing-FramedResult a n v pc size =
      writing-found handler m m ⊥ (write_mem handler m a n v) pc here
        (write_mem-WriteResult handler m a n v b size)

  pub load_byte-FramedResult :
      (i : Instruction) (signed_load : Bool) (pc : ℕ)
      → i.rt < 32
      → FramedResult handler m ⊥ (load_byte handler m i signed_load pc)
  unfolding load_byte
  load_byte-FramedResult i signed_load pc low =
      reading-FramedResult ⊥ (address m i) 1 _ (inl refl) (λ m1 v a _. framed a low)

  pub load_half-FramedResult :
      (i : Instruction) (signed_load : Bool) (pc : ℕ)
      → i.rt < 32
      → FramedResult handler m ⊥ (load_half handler m i signed_load pc)
  unfolding load_half
  load_half-FramedResult i signed_load pc low =
      elim (Bool-cases (not (bit_and (address m i) 1 == 0))) [
        | inl odd ↦ rw odd (stopped address_error_exception m (address m i) here)
        | inr even ↦
            rw even
              (reading-FramedResult ⊥ (address m i) 2 _ (inr (inl refl)) (λ m1 v a _. framed a low))
      ]

  pub load_word-FramedResult :
      (i : Instruction) (pc : ℕ) → i.rt < 32 → FramedResult handler m ⊥ (load_word handler m i pc)
  unfolding load_word
  load_word-FramedResult i pc low = elim (Bool-cases (not (bit_and (address m i) 3 == 0))) [
    | inl odd ↦ rw odd (stopped address_error_exception m (address m i) here)
    | inr even ↦
        rw even
          (reading-FramedResult ⊥ (address m i) 4 _ (inr (inr refl)) (λ m1 v a _. framed a low))
  ]

  pub load_part-FramedResult :
      (merge : ℕ → ℕ → ℕ → ℕ) (i : Instruction) (pc : ℕ)
      → i.rt < 32
      → FramedResult handler m (Unaligned (address m i)) (load_part handler merge m i pc)
  unfolding load_part
  load_part-FramedResult merge i pc low = elim (Bool-cases (bit_and (address m i) 3 == 0)) [
    | inl even ↦
        rw even
          (reading-FramedResult _ (address m i) 4 _ (inr (inr refl)) (λ m1 v a _. framed a low))
    | inr odd ↦ rw odd refl
  ]

  pub store_part-FramedResult :
      (merge : ℕ → ℕ → ℕ → ℕ) (i : Instruction) (pc : ℕ)
      → FramedResult handler m (Unaligned (address m i)) (store_part handler merge m i pc)
  unfolding store_part writing
  store_part-FramedResult merge i pc =
      let k = bit_and (address m i) 3 in
      elim (Bool-cases (k == 0)) [
        | inl even ↦ rw even (
            reading-FramedResult _ (address m i - k) 4 _ (inr (inr refl)) (λ m1 v a b1.
              writing-found handler m m1 _
                (write_mem handler m1 (address m i - k) 4 (merge k v (m1.registers i.rt))) pc a
                (write_mem-WriteResult handler m1 _ 4 _ b1 (inr (inr refl)))))
        | inr odd ↦ rw odd refl
      ]
