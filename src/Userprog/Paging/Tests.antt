-- ===== src/Userprog/Paging/Tests.antt =====
-- userprog/addrspace.cc: a page fault when memory is full.
use cmps.Prelude.{ltb, ℕ, ◌+◌, ◌≡◌, inr, refl, arith, true, false, ◌&&◌, some, [], ◌∷◌, ◌==◌}
use cmps.Prelude.Bits.{bit}
use cmps.Userprog.BitMap.Bits.{is_set}
use cmps.Userprog.BitMap.Find.{clear_below}
use cmps.Threads.LinkedList.{new_list}
use cmps.Machine.State.{TranslationEntry}
use cmps.Userprog.Paging.{CoreMapEntry, PhysicalMemory, fifo, replaces, paging}
use cmps.Userprog.Paging.Frames.{IsConsistent, all_marked}
use cmps.Userprog.Paging.Safety.{paging-IsConsistent}

-- Every frame is in use: frame `p` holds page `p` of the address space 0, and nothing else is in memory.
abbrev page : ℕ → ℕ → TranslationEntry
page s v = record {
  virtual_page = v;
  physical_page = v;
  valid = s == 0 && ltb v 32;
  read_only = false;
  used = false;
  dirty = false;
}

abbrev held : ℕ → CoreMapEntry
held p = record {
  phys_page_num = p;
  virt_page_num = p;
  thread = 0;
  space = 0;
  allocated = true;
  counter = p + 1;
}

abbrev full : PhysicalMemory
full = record {
  mem_map = record { num_bits = 32; num_words = 1; words = 4294967295 ∷ [] };
  core_map = held;
  core_fifo_list = new_list;
  num_page_faults = 32;
  main_memory = λ a. 0;
  page_table = page;
  my_page_list = λ s. new_list;
  start_page = λ s. 0;
}

none_free : clear_below full.mem_map 32 ≡ 0
unfolding clear_below is_set bit
none_free = refl

abbrev forty : ℕ → ℕ
forty s = 40

full-IsConsistent : IsConsistent forty full
full-IsConsistent = record {
  map_valid = omega arith;
  frames = refl;
  in_frame = λ s v h. ground arith;
  marked_frame = λ s v h. all_marked full.mem_map 32 v none_free (ground arith);
  owner = λ s v h. ground arith;
  owner_page = λ s v h. refl;
  itself = λ p lt h. refl;
  in_table = λ p lt h. omega arith;
}

paging-IsConsistent_example :
    (m' : PhysicalMemory) × (paging forty (λ s. 7 ∷ 8 ∷ 9 ∷ []) 40 fifo 5 full 1 700 ≡ some m')
    × IsConsistent forty m'
    × ((m'.page_table 1 2).valid ≡ true)
    × ((t w : ℕ)
        → (1 == t && 2 == w) ≡ false
        → (m'.page_table t w).valid ≡ true
        → m'.page_table t w ≡ page t w)
    × ((s v t w : ℕ)
        → (m'.page_table s v).valid ≡ true
        → (m'.page_table t w).valid ≡ true
        → (m'.page_table s v).physical_page ≡ (m'.page_table t w).physical_page
        → (s ≡ t) × (v ≡ w))
unfolding replaces
paging-IsConsistent_example =
    paging-IsConsistent forty (λ s. 7 ∷ 8 ∷ 9 ∷ []) 40 fifo 5 full 1 700 full-IsConsistent
      (omega arith) (inr refl)
