-- ===== src/Machine/Memory/Frame.antt =====
-- machine/translate.cc: an access to memory ends, in an exception or with a value, and leaves the
-- registers alone, but for the exception.
use mathlib.Core.Option
use Prim.Native.Nat.{bit_and}
use cmps.Prelude.{
  ℕ, ◌+◌, ◌*◌, ◌%◌, ◌≤◌, ◌≡◌, refl, arith, ◌∙◌, Bool, true, false, Option, none, some, List, length,
  length-set, set, get_elem?-some, inl, inr,
}
use cmps.Machine.State.{TranslationEntry, Machine, ExceptionType, raise_exception}
use cmps.Machine.Translate.{touched, store_entry, translate}
use cmps.Machine.Translate.Laws.{
  TableOk, paged, buffered, HasTable, IsAccessSize, Translated, unaligned, unmapped, denied,
  no_frame, found, translate-Translated,
}
use cmps.Machine.Memory.{
  load2, load4, store2, store4, load_value, store_value, sign_extend_byte, read_mem, write_mem,
}
use cmps.Machine.Memory.RoundTrip.{length-store2}

-- A machine with one table of the right size and its 8192 bytes of memory.
pub record IsBuilt (m : Machine) : Type 0 where
  pub table : HasTable m
  pub memory : length m.main_memory ≡ 8192

TableOk-set :
    (i : ℕ) (e : TranslationEntry) {t p : Option (List TranslationEntry)} {n : ℕ}
    → TableOk t p n
    → TableOk (Option.map (λ l. set l i e) t) (Option.map (λ l. set l i e) p) n
TableOk-set i e (paged {p} le) = paged (omega (arith, length-set p i e))
TableOk-set i e (buffered {t} le) = buffered (omega (arith, length-set t i e))

store_entry-IsBuilt :
    (m : Machine) (i : ℕ) (e : TranslationEntry) (mem : List ℕ)
    → IsBuilt m
    → length mem ≡ length m.main_memory
    → IsBuilt (record (store_entry m i e) { main_memory = mem })
store_entry-IsBuilt m i e mem b same = record {
  table = TableOk-set i e b.table;
  memory = same ∙ b.memory;
}

load2_total : (mem : List ℕ) (p : ℕ) → p + 2 ≤ length mem → (v : ℕ) × (load2 mem p ≡ some v)
unfolding load2
load2_total mem p h =
    let (x, ex) = get_elem?-some mem p (omega arith) in
    let (y, ey) = get_elem?-some mem (p + 1) (omega arith) in (x + 256 * y, rw (ex, ey) refl)

load_total :
    (mem : List ℕ) (p n : ℕ)
    → IsAccessSize n
    → p + n ≤ length mem
    → (v : ℕ) × (load_value mem p n ≡ some v)
unfolding load_value load4
load_total mem p n (inl e) h =
    let (x, ex) = get_elem?-some mem p (omega arith) in (sign_extend_byte x, rw (e, ex) refl)
load_total mem p n (inr (inl e)) h =
    let (x, ex) = load2_total mem p (omega arith) in (x, rw (e, ex) refl)
load_total mem p n (inr (inr e)) h =
    let (x, ex) = load2_total mem p (omega arith) in
    let (y, ey) = load2_total mem (p + 2) (omega arith) in (x + 65536 * y, rw (e, ex, ey) refl)

store_total :
    (mem : List ℕ) (p n v : ℕ)
    → IsAccessSize n
    → (mem' : List ℕ) × (store_value mem p n v ≡ some mem') × (length mem' ≡ length mem)
unfolding store_value store4
store_total mem p n v (inl e) = (set mem p (bit_and v 255), rw e refl, length-set mem p _)
store_total mem p n v (inr (inl e)) =
    (store2 mem p (bit_and v 65535), rw e refl, length-store2 mem p _)
store_total mem p n v (inr (inr e)) =
    (store4 mem p v, rw e refl, length-store2 (store2 mem p _) (p + 2) _ ∙ length-store2 mem p _)

module _ (handler : ExceptionType → Machine → Machine) (m : Machine) where
  -- A machine that an exception left, or one with the registers of `m`.
  pub data Accessed : Bool → Machine → Type 0 where
    excepted :
        (which : ExceptionType) (m1 : Machine) (bad_vaddr : ℕ)
        → m1.registers ≡ m.registers
        → Accessed false (raise_exception handler m1 which bad_vaddr)
    accessed : {m1 : Machine} → m1.registers ≡ m.registers → IsBuilt m1 → Accessed true m1

  abbrev pub is_some : Option ℕ → Bool
  is_some none = false
  is_some (some _) = true

  -- No assertion fails.
  abbrev pub ReadResult : Option (Option ℕ × Machine) → Type 0
  ReadResult none = ⊥
  ReadResult (some (v, m1)) = Accessed (is_some v) m1

  abbrev pub WriteResult : Option (Bool × Machine) → Type 0
  WriteResult none = ⊥
  WriteResult (some (ok, m1)) = Accessed ok m1

  pub read_mem-ReadResult :
      (a n : ℕ) → IsBuilt m → IsAccessSize n → ReadResult (read_mem handler m a n)
  unfolding read_mem
  read_mem-ReadResult a n b size = from (translate-Translated m a n false b.table size)
    where
      from : Translated m a n false (translate m a n false) → ReadResult (read_mem handler m a n)
      from (unaligned _ t) = rw t (excepted _ m a refl)
      from (unmapped which _ t) = rw t (excepted which m a refl)
      from (denied _ _ _ _ t) = rw t (excepted _ m a refl)
      from (no_frame _ _ _ _ t) = rw t (excepted _ m a refl)
      from (found i e _ _ _ low fits t) =
          let (v, loaded) =
            load_total m.main_memory (e.physical_page * 256 + a % 256) n size
              (omega (arith, b.memory)) in
          rw (t, loaded)
            (accessed refl (store_entry-IsBuilt m i (touched e false) m.main_memory b refl))

  pub write_mem-WriteResult :
      (a n v : ℕ) → IsBuilt m → IsAccessSize n → WriteResult (write_mem handler m a n v)
  unfolding write_mem
  write_mem-WriteResult a n v b size = from (translate-Translated m a n true b.table size)
    where
      from : Translated m a n true (translate m a n true) → WriteResult (write_mem handler m a n v)
      from (unaligned _ t) = rw t (excepted _ m a refl)
      from (unmapped which _ t) = rw t (excepted which m a refl)
      from (denied _ _ _ _ t) = rw t (excepted _ m a refl)
      from (no_frame _ _ _ _ t) = rw t (excepted _ m a refl)
      from (found i e _ _ _ low fits t) =
          let (mem, stored, same) =
            store_total m.main_memory (e.physical_page * 256 + a % 256) n v size in
          rw (t, stored) (accessed refl (store_entry-IsBuilt m i (touched e true) mem b same))
