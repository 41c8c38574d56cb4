-- ===== src/Userprog/Paging/Frames.antt =====
-- userprog/addrspace.cc: no two pages in memory share a frame.
use cmps.Prelude.{
  ℕ, zero, suc, ◌+◌, ◌≤◌, ◌<◌, ◌≡◌, ◌≢◌, ◌⊎◌, inl, inr, refl, sym, ap, ◌∙◌, arith, true, false,
  some,
}
use cmps.Prelude.{leb, ◌==◌, if◌then◌else◌, Bool-cases, ==_iff}
use cmps.Userprog.BitMap.{BitMap}
use cmps.Userprog.BitMap.Bits.{IsValid, is_set, test-eq}
use cmps.Userprog.BitMap.Find.{clear_below}
use cmps.Filesys.FileHeader.Allocation.{find-taken}
use cmps.Machine.State.{num_phys_pages}
use cmps.Userprog.Paging.{CoreMapEntry, PhysicalMemory, oldest, oldest_loop, free_loop}

-- The free map, the core map and the page tables agree: every page in memory is in a frame that is
-- marked and whose entry of the core map names that page, and the entry of a marked frame names the
-- frame and a page of its address space.
pub record IsConsistent (num_pages : ℕ → ℕ) (m : PhysicalMemory) : Type 0 where
  pub map_valid : IsValid m.mem_map
  pub frames : m.mem_map.num_bits ≡ num_phys_pages
  pub in_frame :
      (s v : ℕ)
      → (m.page_table s v).valid ≡ true
      → (m.page_table s v).physical_page < num_phys_pages
  pub marked_frame :
      (s v : ℕ)
      → (m.page_table s v).valid ≡ true
      → is_set m.mem_map (m.page_table s v).physical_page ≡ true
  pub owner :
      (s v : ℕ)
      → (m.page_table s v).valid ≡ true
      → (m.core_map (m.page_table s v).physical_page).space ≡ s
  pub owner_page :
      (s v : ℕ)
      → (m.page_table s v).valid ≡ true
      → (m.core_map (m.page_table s v).physical_page).virt_page_num ≡ v
  pub itself :
      (p : ℕ) → p < num_phys_pages → is_set m.mem_map p ≡ true → (m.core_map p).phys_page_num ≡ p
  pub in_table :
      (p : ℕ)
      → p < num_phys_pages
      → is_set m.mem_map p ≡ true
      → (m.core_map p).virt_page_num < num_pages (m.core_map p).space

-- Two pages in memory are in different frames.
pub frame_of_one :
    (num_pages : ℕ → ℕ) (m : PhysicalMemory) (s v t w : ℕ)
    → IsConsistent num_pages m
    → (m.page_table s v).valid ≡ true
    → (m.page_table t w).valid ≡ true
    → (m.page_table s v).physical_page ≡ (m.page_table t w).physical_page
    → (s ≡ t) × (v ≡ w)
frame_of_one num_pages m s v t w c hv hw e = (
  sym (c.owner s v hv) ∙ ap (λ p. (m.core_map p).space) e ∙ c.owner t w hw,
  sym (c.owner_page s v hv) ∙ ap (λ p. (m.core_map p).virt_page_num) e ∙ c.owner_page t w hw,
)

oldest_loop-lt :
    (core_map : ℕ → CoreMapEntry) (n j entry min_time : ℕ)
    → entry < num_phys_pages
    → j + n ≤ num_phys_pages
    → oldest_loop core_map n j entry min_time < num_phys_pages
unfolding oldest_loop
oldest_loop-lt core_map zero j entry min_time lt le = lt
oldest_loop-lt core_map (suc n) j entry min_time lt le =
    elim (Bool-cases (leb (core_map j).counter min_time)) [
      | inl older ↦
          rw older
            (oldest_loop-lt core_map n (j + 1) j (core_map j).counter (omega arith) (omega arith))
      | inr younger ↦ rw younger (oldest_loop-lt core_map n (j + 1) entry min_time lt (omega arith))
    ]

-- A frame that is free.
abbrev pub IsFree : BitMap → ℕ → Type 0
IsFree m i = (i < m.num_bits) × (is_set m i ≡ false)

free_loop_lem :
    (m : BitMap) (n i counter start : ℕ)
    → IsValid m
    → i + n ≤ m.num_bits
    → (counter ≢ 0 → IsFree m start)
    → IsFree m start ⊎ ((k : ℕ) × (i ≤ k) × (k < i + n) × IsFree m k)
    → (frame : ℕ) × (free_loop m n i counter start ≡ some frame) × IsFree m frame
unfolding free_loop
free_loop_lem m zero i counter start v le run (inl free) = (start, refl, free)
free_loop_lem m zero i counter start v le run (inr (k, low, high, free)) = absurd (omega arith)
free_loop_lem m (suc n) i counter start v le run found = elim (Bool-cases (is_set m i)) [
  | inl busy ↦
      rw (test-eq m v i (omega arith), busy)
        (free_loop_lem m n (i + 1) 0 start v (omega arith) (λ ne. absurd (ne refl))
          (elim found [
            | inl free ↦ inl free
            | inr (k, low, high, free) ↦ inr (k, not_here k low busy free, omega arith, free)
          ]))
  | inr free ↦
      rw (test-eq m v i (omega arith), free)
        (free_loop_lem m n (i + 1) (counter + 1) (if counter == 0 then i else start) v (omega arith)
          (λ ne. new_start free) (inl (new_start free)))
]
  where
    not_here : (k : ℕ) → i ≤ k → is_set m i ≡ true → IsFree m k → i + 1 ≤ k
    not_here k low busy free = elim (Bool-cases (i == k)) [
      | inl same ↦
          let e : is_set m i ≡ is_set m k = ap (λ j. is_set m j) ((==_iff i k).0 same) in
          let clear : is_set m k ≡ false = free.1 in absurd cc
      | inr different ↦ ground arith
    ]

    new_start : is_set m i ≡ false → IsFree m (if counter == 0 then i else start)
    new_start free = elim (Bool-cases (counter == 0)) [
      | inl none_yet ↦ rw none_yet (omega arith, free)
      | inr running ↦ rw running (run (ground arith))
    ]

pub oldest-lt : (core_map : ℕ → CoreMapEntry) → oldest core_map < num_phys_pages
unfolding oldest
oldest-lt core_map =
    oldest_loop-lt core_map num_phys_pages 0 0 (core_map num_phys_pages).counter (omega arith)
      (omega arith)

-- While a frame is free, the loop ends on one.
pub free_loop-IsFree :
    (m : BitMap) (start : ℕ)
    → IsValid m
    → m.num_bits ≡ num_phys_pages
    → 0 < clear_below m m.num_bits
    → (frame : ℕ) × (free_loop m num_phys_pages 0 0 start ≡ some frame) × IsFree m frame
free_loop-IsFree m start v frames left =
    let (i, lt, free, _) = find-taken m v left in
    free_loop_lem m num_phys_pages 0 0 start v (omega (arith, frames)) (λ ne. absurd (ne refl))
      (inr (i, omega arith, omega (arith, frames), (lt, free)))

pub all_marked : (m : BitMap) (n p : ℕ) → clear_below m n ≡ 0 → p < n → is_set m p ≡ true
unfolding clear_below
all_marked m zero p none_left lt = absurd (omega arith)
all_marked m (suc n) p none_left lt = elim (Bool-cases (p == n)) [
  | inl last ↦ ap (λ k. is_set m k) ((==_iff p n).0 last) ∙ ground (arith, none_left)
  | inr earlier ↦ all_marked m n p (omega (arith, none_left)) (ground arith)
]
