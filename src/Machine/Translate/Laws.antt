-- ===== src/Machine/Translate/Laws.antt =====
-- machine/translate.cc: `Translate` never fails an assertion on a well-formed machine, and keeps
-- to the page and the frame of the entry that it finds.
use cmps.Prelude.{
  ℕ, zero, suc, ◌+◌, ◌*◌, ◌/◌, ◌%◌, ◌≤◌, ◌<◌, ◌≡◌, refl, arith, Bool, true, false, not, ◌&&◌, ◌⊎◌,
  inl, inr,
}
use cmps.Prelude.{
  Option, none, some, List, length, get_elem?-some, leb, if◌then◌else◌, Bool-cases, leb→le, le→leb,
  lt_of_not_leb,
}
use cmps.Prelude.Bits.{bit_and_mask}
use cmps.Machine.State.{
  Machine, TranslationEntry, ExceptionType, page_fault_exception, address_error_exception,
  read_only_exception, bus_error_exception,
}
use cmps.Machine.Translate.{
  Translation, fault, physical, misaligned, Lookup, absent, entry_at, tlb_hit, tlb_loop, lookup_in,
  lookup, touched, store_entry, use_entry, translate,
}

-- Exactly one table, of the size that the machine takes it to have.
pub data TableOk
    : Option (List TranslationEntry) → Option (List TranslationEntry) → ℕ → Type 0 where
  paged : {p : List TranslationEntry} {n : ℕ} → n ≤ length p → TableOk none (some p) n
  buffered : {t : List TranslationEntry} {n : ℕ} → 4 ≤ length t → TableOk (some t) none n

abbrev pub HasTable : Machine → Type 0
HasTable m = TableOk m.tlb m.page_table m.page_table_size

abbrev pub IsAccessSize : ℕ → Type 0
IsAccessSize n = (n ≡ 1) ⊎ ((n ≡ 2) ⊎ (n ≡ 4))

-- An aligned access stays inside its page.
aligned_fits : (a n : ℕ) → IsAccessSize n → misaligned a n ≡ false → a % 256 + n ≤ 256
unfolding misaligned
aligned_fits a n s h = ground (arith, bit_and_mask 1 a, bit_and_mask 2 a)

tlb_loop-total :
    (n i : ℕ) (t : List TranslationEntry) (vpn : ℕ)
    → i + n ≤ length t
    → (l : Lookup) × (tlb_loop n i t vpn ≡ some l)
unfolding tlb_loop
tlb_loop-total zero i t vpn h = (_, refl)
tlb_loop-total (suc n) i t vpn h =
    let (e, here) = get_elem?-some t i (omega arith) in
    elim (Bool-cases (tlb_hit e vpn)) [
      | inl hit ↦ (entry_at i e, rw (here, tlb_loop, hit))
      | inr miss ↦
          let (l, rest) = tlb_loop-total n (i + 1) t vpn (omega arith) in
          (l, rw (here, tlb_loop, miss) rest)
    ]

lookup_in-total :
    {t p : Option (List TranslationEntry)} {n : ℕ} (vpn : ℕ)
    → TableOk t p n
    → (l : Lookup) × (lookup_in t p n vpn ≡ some l)
unfolding lookup_in
lookup_in-total vpn (paged {p} {n} le) = elim (Bool-cases (leb n vpn)) [
  | inl beyond ↦ (absent address_error_exception, rw beyond)
  | inr inside ↦
      let (e, here) = get_elem?-some p vpn (omega (arith, lt_of_not_leb n vpn inside)) in
      (if not e.valid then absent page_fault_exception else entry_at vpn e, rw (inside, here))
]
lookup_in-total vpn (buffered {t} le) = tlb_loop-total 4 0 t vpn le

-- What a call of `Translate` comes to.
pub data Translated (m : Machine) (a n : ℕ) (writing : Bool) (r : Option (Translation × Machine))
    : Type 0 where
  unaligned :
      misaligned a n ≡ true
      → r ≡ some (fault address_error_exception, m)
      → Translated m a n writing r
  unmapped :
      (which : ExceptionType)
      → lookup m (a / 256) ≡ some (absent which)
      → r ≡ some (fault which, m)
      → Translated m a n writing r
  denied :
      (i : ℕ) (e : TranslationEntry)
      → lookup m (a / 256) ≡ some (entry_at i e)
      → (e.read_only && writing) ≡ true
      → r ≡ some (fault read_only_exception, m)
      → Translated m a n writing r
  no_frame :
      (i : ℕ) (e : TranslationEntry)
      → lookup m (a / 256) ≡ some (entry_at i e)
      → 32 ≤ e.physical_page
      → r ≡ some (fault bus_error_exception, m)
      → Translated m a n writing r
  found :
      (i : ℕ) (e : TranslationEntry)
      → misaligned a n ≡ false
      → lookup m (a / 256) ≡ some (entry_at i e)
      → (e.read_only && writing) ≡ false
      → e.physical_page < 32
      → a % 256 + n ≤ 256
      → r ≡ some (physical (e.physical_page * 256 + a % 256), store_entry m i (touched e writing))
      → Translated m a n writing r

use_entry-Translated :
    (m : Machine) (a n : ℕ) (writing : Bool) (i : ℕ) (e : TranslationEntry)
    → misaligned a n ≡ false
    → lookup m (a / 256) ≡ some (entry_at i e)
    → a % 256 + n ≤ 256
    → Translated m a n writing (use_entry m a n writing i e)
unfolding use_entry
use_entry-Translated m a n writing i e good l fits = elim (Bool-cases (e.read_only && writing)) [
  | inl forbidden ↦ denied i e l forbidden (rw forbidden)
  | inr free ↦ elim (Bool-cases (leb 32 e.physical_page)) [
    | inl high ↦ no_frame i e l (leb→le 32 e.physical_page high) (rw (free, high))
    | inr low ↦
        let lt : e.physical_page < 32 = lt_of_not_leb 32 e.physical_page low in
        found i e good l free lt fits
          (rw (free, low, le→leb (e.physical_page * 256 + a % 256 + n) 8192 (omega arith)))
  ]
]

-- On a machine with one table of the right size, an access of 1, 2 or 4 bytes never fails an
-- assertion of `Translate`. A misaligned address, a page that the lookup does not find, a write to
-- a read-only page and a frame that the memory does not have each give their exception, and change
-- nothing. Otherwise the entry found names a frame of the memory that holds the whole access at
-- the same offset, which is the result, and is marked as used (and as dirty by a write).
pub translate-Translated :
    (m : Machine) (a n : ℕ) (writing : Bool)
    → HasTable m
    → IsAccessSize n
    → Translated m a n writing (translate m a n writing)
unfolding translate lookup
translate-Translated m a n writing ok size = elim (Bool-cases (misaligned a n)) [
  | inl bad ↦ unaligned bad (rw bad)
  | inr good ↦ let (l, eq) = lookup_in-total (a / 256) ok in by_lookup good l eq
]
  where
    by_lookup :
        misaligned a n ≡ false
        → (l : Lookup) → lookup_in m.tlb m.page_table m.page_table_size (a / 256) ≡ some l
        → Translated m a n writing (translate m a n writing)
    by_lookup good (absent which) eq = unmapped which eq (rw (good, eq))
    by_lookup good (entry_at i e) eq =
        rw (good, eq, translate)
          (use_entry-Translated m a n writing i e good eq (aligned_fits a n size good))
