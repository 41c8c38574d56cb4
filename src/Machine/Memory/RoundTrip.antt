-- ===== src/Machine/Memory/RoundTrip.antt =====
-- machine/translate.cc: what was written by `WriteMem` is read by `ReadMem`.
use mathlib.Core.Option.{some-injective}
use Prim.Native.Nat.{bit_and}
use cmps.Prelude.Bits.{bit_and_mask}
use cmps.Prelude.{
  ℕ, ◌+◌, ◌*◌, ◌/◌, ◌%◌, ◌^◌, ◌≤◌, ◌<◌, ◌≡◌, ◌≢◌, refl, arith, ap, subst, sym, ◌∙◌, Bool, true,
  false, ◌&&◌, inl, inr,
}
use cmps.Prelude.{
  some, List, length, length-set, get_elem?, get_elem?-set_self, get_elem?-set_ne, set, ◌==◌,
  if◌then◌else◌, le→leb, not_leb_of_lt,
}
use cmps.Machine.Translate.{
  fault, physical, misaligned, lookup, entry_at, touched, store_entry, translate, use_entry,
}
use cmps.Machine.State.{Machine, TranslationEntry, ExceptionType}
use cmps.Machine.Memory.{
  load2, load4, store2, store4, load_value, store_value, sign_extend_byte, read_mem, write_mem,
}
use cmps.Machine.Translate.Laws.{
  IsAccessSize, HasTable, Translated, unaligned, unmapped, denied, no_frame, found,
  translate-Translated,
}
use cmps.Machine.Translate.Touch.{lookup-touched}

load2-store2 :
    (mem : List ℕ) (p v : ℕ) → p + 2 ≤ length mem → load2 (store2 mem p v) p ≡ some (v % 65536)
unfolding load2 store2
load2-store2 mem p v h = ground (
  arith,
  get_elem?-set_ne (set mem p (v % 256)) {i = p + 1} {j = p} (v / 256 % 256),
  get_elem?-set_self mem p (v % 256),
  get_elem?-set_self (set mem p (v % 256)) (p + 1) (v / 256 % 256),
  length-set mem p (v % 256),
)

pub length-store2 : (mem : List ℕ) (p v : ℕ) → length (store2 mem p v) ≡ length mem
unfolding store2
length-store2 mem p v =
    omega
      (arith, length-set mem p (v % 256), length-set (set mem p (v % 256)) (p + 1) (v / 256 % 256))

get-store2_ne :
    (mem : List ℕ) (p v i : ℕ) → p ≢ i → p + 1 ≢ i → get_elem? (store2 mem p v) i ≡ get_elem? mem i
unfolding store2
get-store2_ne mem p v i h k =
    get_elem?-set_ne (set mem p (v % 256)) (v / 256 % 256) k ∙ get_elem?-set_ne mem (v % 256) h

load2-store2_below : (mem : List ℕ) (p q v : ℕ) → p + 2 ≤ q → load2 (store2 mem q v) p ≡ load2 mem p
unfolding load2
load2-store2_below mem p q v h = rw (
  get-store2_ne mem q v p (omega arith) (omega arith),
  get-store2_ne mem q v (p + 1) (omega arith) (omega arith),
)

load4-store4 :
    (mem : List ℕ) (p v : ℕ) → v < 2 ^ 32 → p + 4 ≤ length mem → load4 (store4 mem p v) p ≡ some v
unfolding load4 store4
load4-store4 mem p v b h =
    rw
      (
        load2-store2_below (store2 mem p (v % 65536)) p (p + 2) (v / 65536) (omega arith),
        load2-store2 mem p (v % 65536) (omega arith),
        load2-store2 (store2 mem p (v % 65536)) (p + 2) (v / 65536)
            (omega (arith, length-store2 mem p (v % 65536))),
      )
      (ap some whole)
  where
    whole : v % 65536 % 65536 + 65536 * (v / 65536 % 65536) ≡ v
    whole = omega arith

-- What is read back: a byte with its sign, a short word, or the word.
abbrev pub read_back : ℕ → ℕ → ℕ
read_back size v =
    if size == 1 then sign_extend_byte (v % 256) else if size == 2 then v % 65536 else v

StoreLoad : List ℕ → ℕ → ℕ → ℕ → Type 0
StoreLoad mem p size v =
    (mem' : List ℕ) × (store_value mem p size v ≡ some mem')
    × (length mem' ≡ length mem)
    × (load_value mem' p size ≡ some (read_back size v))

store_one : (mem : List ℕ) (p v : ℕ) → p < length mem → StoreLoad mem p 1 v
unfolding StoreLoad load_value store_value
store_one mem p v h = (
  set mem p (bit_and v 255),
  refl,
  length-set mem p (bit_and v 255),
  rw (get_elem?-set_self mem p (bit_and v 255) h, bit_and_mask 8 v),
)

store_two : (mem : List ℕ) (p v : ℕ) → p + 2 ≤ length mem → StoreLoad mem p 2 v
unfolding StoreLoad load_value store_value
store_two mem p v h = (
  store2 mem p (bit_and v 65535),
  refl,
  length-store2 mem p (bit_and v 65535),
  rw (load2-store2 mem p (bit_and v 65535) h, bit_and_mask 16 v) (ap some (omega arith)),
)

store_four : (mem : List ℕ) (p v : ℕ) → v < 2 ^ 32 → p + 4 ≤ length mem → StoreLoad mem p 4 v
unfolding StoreLoad load_value store_value store4 store2
store_four mem p v b h = (store4 mem p v, refl, length-store4, rw (load4-store4 mem p v b h))
  where
    length-store4 : length (store4 mem p v) ≡ length mem
    length-store4 =
        length-store2 (store2 mem p (v % 65536)) (p + 2) (v / 65536)
        ∙ length-store2 mem p (v % 65536)

load-store_value :
    (mem : List ℕ) (p size v : ℕ)
    → IsAccessSize size
    → v < 2 ^ 32
    → p + size ≤ length mem
    → StoreLoad mem p size v
load-store_value mem p size v (inl e) b h = rw e (store_one mem p v (omega arith))
load-store_value mem p size v (inr (inl e)) b h = rw e (store_two mem p v (omega arith))
load-store_value mem p size v (inr (inr e)) b h = rw e (store_four mem p v b (omega arith))

and_false : (b : Bool) → (b && false) ≡ false
and_false true = refl
and_false false = refl

-- The second access, of the page that the first one found.
translate-again :
    (m : Machine) (a n i : ℕ) (e : TranslationEntry)
    → misaligned a n ≡ false
    → lookup m (a / 256) ≡ some (entry_at i e)
    → e.physical_page < 32
    → a % 256 + n ≤ 256
    → translate m a n false
      ≡ some (physical (e.physical_page * 256 + a % 256), store_entry m i (touched e false))
unfolding translate use_entry
translate-again m a n i e good l low fits =
    rw (good, l, translate, use_entry, and_false e.read_only, not_leb_of_lt 32 e.physical_page low)
      (rw (le→leb (e.physical_page * 256 + a % 256 + n) 8192 (omega arith)))

module _ (handler : ExceptionType → Machine → Machine) (m : Machine) (a size v : ℕ) where
  abbrev address_in : TranslationEntry → ℕ
  address_in e = e.physical_page * 256 + a % 256

  abbrev written : ℕ → TranslationEntry → List ℕ → Machine
  written i e mem = record (store_entry m i (touched e true)) { main_memory = mem }

  write-eq :
      (i : ℕ) (e : TranslationEntry) (mem : List ℕ)
      → translate m a size true ≡ some (physical (address_in e), store_entry m i (touched e true))
      → store_value m.main_memory (address_in e) size v ≡ some mem
      → write_mem handler m a size v ≡ some (true, written i e mem)
  unfolding write_mem
  write-eq i e mem t st = rw (t, st)

  read-eq :
      (i : ℕ) (e : TranslationEntry) (mem : List ℕ) (x : ℕ)
      → misaligned a size ≡ false
      → lookup m (a / 256) ≡ some (entry_at i e)
      → e.physical_page < 32
      → a % 256 + size ≤ 256
      → load_value mem (address_in e) size ≡ some x
      → (m2 : Machine) × (read_mem handler (written i e mem) a size ≡ some (some x, m2))
  unfolding read_mem lookup
  read-eq i e mem x good l low fits ld = (
    store_entry (written i e mem) i (touched (touched e true) false),
    rw (
      translate-again (written i e mem) a size i (touched e true) good
          (lookup-touched m (a / 256) i e true l) low fits,
      ld,
    ),
  )

  faulted :
      (which : ExceptionType) {m1 : Machine}
      → translate m a size true ≡ some (fault which, m)
      → write_mem handler m a size v ≡ some (true, m1)
      → ⊥
  unfolding write_mem
  faulted which t w = ground (arith, t)

  -- On a machine with one table of the right size and its 8192 bytes of memory: after a `WriteMem`
  -- of 1, 2 or 4 bytes that succeeded, a `ReadMem` of the same size at the same virtual address
  -- succeeds and gives the value written, cut to that size, and with its sign if it is one byte.
  pub read_mem-write_mem :
      (m1 : Machine)
      → HasTable m
      → length m.main_memory ≡ 8192
      → IsAccessSize size
      → v < 2 ^ 32
      → write_mem handler m a size v ≡ some (true, m1)
      → (m2 : Machine) × (read_mem handler m1 a size ≡ some (some (read_back size v), m2))
  unfolding StoreLoad
  read_mem-write_mem m1 ok len s b w = go (translate-Translated m a size true ok s)
    where
      go :
          Translated m a size true (translate m a size true)
          → (m2 : Machine) × (read_mem handler m1 a size ≡ some (some (read_back size v), m2))
      go (unaligned h t) = absurd (faulted _ t w)
      go (unmapped which l t) = absurd (faulted _ t w)
      go (denied i e l h t) = absurd (faulted _ t w)
      go (no_frame i e l h t) = absurd (faulted _ t w)
      go (found i e good l free low fits t) =
          let (mem, st, _, ld) =
            load-store_value m.main_memory (address_in e) size v s b (omega arith) in
          let same : some (true, written i e mem) ≡ some (true, m1) =
            sym (write-eq i e mem t st) ∙ w in
          subst
            (λ k. (m2 : Machine) × (read_mem handler k a size ≡ some (some (read_back size v), m2)))
            (ap (λ r. r.1) (some-injective _ _ same))
            (read-eq i e mem (read_back size v) good l low fits ld)
