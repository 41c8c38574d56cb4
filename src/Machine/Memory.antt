-- ===== src/Machine/Memory.antt =====
-- machine/translate.cc, `Machine::ReadMem` and `Machine::WriteMem`, on a little-endian host
-- (Makefile.dep sets HOST_i386), where `WordToHost` and its kin return their argument.
pub mod RoundTrip
pub mod Frame
use Prim.Native.Nat.{bit_and}
use cmps.Prelude.{ℕ, ◌+◌, ◌-◌, ◌*◌, ◌/◌, ◌%◌, ◌^◌, Bool, true, false, Option, none, some, List}
use cmps.Prelude.{get_elem?, set, ltb, ◌==◌, if◌then◌else◌, ◌>>=◌}
use cmps.Machine.State.{Machine, ExceptionType, raise_exception}
use cmps.Machine.Translate.{Translation, fault, physical, translate}

-- `WordToHost`, `ShortToHost`, `WordToMachine` and `ShortToMachine`.
abbrev pub word_to_host : ℕ → ℕ
word_to_host word = word

-- A `char` read into an `int`: the sign goes along.
abbrev pub sign_extend_byte : ℕ → ℕ
sign_extend_byte b = if ltb b 128 then b else b + (2 ^ 32 - 256)

-- The bytes at `p`, as `*(unsigned short *)` and `*(unsigned int *)` read and write them.
pub load2 : List ℕ → ℕ → Option ℕ
load2 mem p = do b0 ← get_elem? mem p; b1 ← get_elem? mem (p + 1); some (b0 + 256 * b1)

pub load4 : List ℕ → ℕ → Option ℕ
load4 mem p = do w0 ← load2 mem p; w1 ← load2 mem (p + 2); some (w0 + 65536 * w1)

unfoldable pub store2 : List ℕ → ℕ → ℕ → List ℕ
store2 mem p v = set (set mem p (v % 256)) (p + 1) (v / 256 % 256)

unfoldable pub store4 : List ℕ → ℕ → ℕ → List ℕ
store4 mem p v = store2 (store2 mem p (v % 65536)) (p + 2) (v / 65536)

-- The `switch` of `ReadMem`; its default is `ASSERT(FALSE)`.
pub load_value : List ℕ → ℕ → ℕ → Option ℕ
load_value mem p size =
    if size == 1
    then (do b ← get_elem? mem p; some (sign_extend_byte b))
    else if size == 2
    then (do w ← load2 mem p; some (word_to_host w))
    else if size == 4
    then (do w ← load4 mem p; some (word_to_host w))
    else none

unfoldable pub store_value : List ℕ → ℕ → ℕ → ℕ → Option (List ℕ)
store_value mem p size value =
    if size == 1
    then some (set mem p (bit_and value 255))
    else if size == 2
    then some (store2 mem p (word_to_host (bit_and value 65535)))
    else if size == 4
    then some (store4 mem p (word_to_host value))
    else none

-- What `ExceptionHandler` does is a parameter.
module _ (handler : ExceptionType → Machine → Machine) where
  -- The value that goes through `value`, or `none` for FALSE.
  pub read_mem : Machine → ℕ → ℕ → Option (Option ℕ × Machine)
  read_mem m addr size = do
    (where_to, m1) ← translate m addr size false
    elim where_to [
      | fault which ↦ some (none, raise_exception handler m1 which addr)
      | physical p ↦ do v ← load_value m1.main_memory p size; some (some v, m1)
    ]

  unfoldable pub write_mem : Machine → ℕ → ℕ → ℕ → Option (Bool × Machine)
  write_mem m addr size value = do
    (where_to, m1) ← translate m addr size true
    elim where_to [
      | fault which ↦ some (false, raise_exception handler m1 which addr)
      | physical p ↦ do
        mem ← store_value m1.main_memory p size value
        some (true, record m1 { main_memory = mem })
    ]
