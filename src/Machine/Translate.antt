-- ===== src/Machine/Translate.antt =====
-- machine/translate.cc, `Machine::Translate`: from a virtual to a physical address, through the
-- page table or the TLB.
pub mod Laws
pub mod Touch
use Prim.Native.Nat.{bit_and}
use mathlib.Core.Option
use cmps.Prelude.{ℕ, zero, suc, ◌+◌, ◌*◌, ◌/◌, ◌%◌, Bool, true, false, not, ◌&&◌, ◌||◌}
use cmps.Prelude.{
  Option, none, some, List, [], ◌∷◌, get_elem?, set, ltb, leb, ◌==◌, if◌then◌else◌, ◌>>=◌, ◌>>◌,
  assert,
}
use cmps.Machine.State.{
  Machine, TranslationEntry, ExceptionType, page_fault_exception, read_only_exception,
}
use cmps.Machine.State.{
  bus_error_exception, address_error_exception, page_size, num_phys_pages, memory_size, tlb_size,
}

-- The result of `Translate`: an exception, or the physical address.
pub data Translation : Type 0 where
  fault : ExceptionType → Translation
  physical : ℕ → Translation

-- `((size == 4) && (virtAddr & 0x3)) || ((size == 2) && (virtAddr & 0x1))`
unfoldable pub misaligned : ℕ → ℕ → Bool
misaligned virt_addr size =
    (size == 4 && not (bit_and virt_addr 3 == 0)) || (size == 2 && not (bit_and virt_addr 1 == 0))

-- Where `entry` points: an index into the table in use.
pub data Lookup : Type 0 where
  absent : ExceptionType → Lookup
  entry_at : ℕ → TranslationEntry → Lookup

-- `tlb[i].valid && tlb[i].virtualPage == vpn`
abbrev pub tlb_hit : TranslationEntry → ℕ → Bool
tlb_hit e vpn = e.valid && e.virtual_page == vpn

-- The loop over the TLB, `n` entries from index `i` on.
unfoldable pub tlb_loop : ℕ → ℕ → List TranslationEntry → ℕ → Option Lookup
tlb_loop zero i tlb vpn = some (absent page_fault_exception)
tlb_loop (suc n) i tlb vpn = elim (get_elem? tlb i) [
  | none ↦ none
  | some e ↦ elim (tlb_hit e vpn) [
    | true ↦ some (entry_at i e)
    | false ↦ tlb_loop n (i + 1) tlb vpn
  ]
]

-- `ASSERT(tlb == NULL || pageTable == NULL)` and `ASSERT(tlb != NULL || pageTable != NULL)` leave
-- exactly one table.
unfoldable pub lookup_in :
    Option (List TranslationEntry) → Option (List TranslationEntry) → ℕ → ℕ → Option Lookup
lookup_in none none size vpn = none
lookup_in (some t) (some p) size vpn = none
lookup_in (some t) none size vpn = tlb_loop tlb_size 0 t vpn
lookup_in none (some p) size vpn =
    if leb size vpn then some (absent address_error_exception) else (do
      e ← get_elem? p vpn
      some (if not e.valid then absent page_fault_exception else entry_at vpn e))

unfoldable pub lookup : Machine → ℕ → Option Lookup
unfolding lookup_in
lookup m vpn = lookup_in m.tlb m.page_table m.page_table_size vpn

-- `entry->use = TRUE; if (writing) entry->dirty = TRUE;`
abbrev pub touched : TranslationEntry → Bool → TranslationEntry
touched e writing = record e { used = true; dirty = if writing then true else e.dirty }

-- The entry, written back to the table that holds it.
abbrev pub store_entry : Machine → ℕ → TranslationEntry → Machine
store_entry m i e = record m {
  tlb = Option.map (λ t. set t i e) m.tlb;
  page_table = Option.map (λ p. set p i e) m.page_table;
}

-- What follows once the entry is known.
unfoldable pub use_entry :
    Machine → ℕ → ℕ → Bool → ℕ → TranslationEntry → Option (Translation × Machine)
use_entry m virt_addr size writing i e =
    if e.read_only && writing
    then some (fault read_only_exception, m)
    else if leb num_phys_pages e.physical_page
    then some (fault bus_error_exception, m)
    else (let phys_addr = e.physical_page * page_size + virt_addr % page_size in
        do
          assert (leb (phys_addr + size) memory_size)
          some (physical phys_addr, store_entry m i (touched e writing)))

unfoldable pub translate : Machine → ℕ → ℕ → Bool → Option (Translation × Machine)
unfolding use_entry
translate m virt_addr size writing =
    if misaligned virt_addr size then some (fault address_error_exception, m) else (do
      found ← lookup m (virt_addr / page_size)
      elim found [
        | absent which ↦ some (fault which, m)
        | entry_at i e ↦ use_entry m virt_addr size writing i e
      ])
