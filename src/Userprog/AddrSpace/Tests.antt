-- ===== src/Userprog/AddrSpace/Tests.antt =====
-- userprog/addrspace.cc: a small program, and a page list that names a frame that has changed hands.
use cmps.Prelude.{ℕ, ◌≡◌, ◌↔◌, ◌&&◌, arith, refl, true, false, some, [], ◌∷◌, ◌==◌}
use cmps.Prelude.Bits.{bit}
use cmps.Prelude.Int.{pos}
use cmps.Userprog.BitMap.Bits.{is_set}
use cmps.Threads.LinkedList.{LinkedList, element}
use cmps.Machine.State.{TranslationEntry}
use cmps.Userprog.Paging.{CoreMapEntry, PhysicalMemory}
use cmps.Userprog.Paging.Frames.{IsConsistent}
use cmps.Userprog.AddrSpace.{NoffHeader, AddrSpace, new_addr_space, init_registers}
use cmps.Userprog.AddrSpace.Layout.{IsReady, init_registers-new_addr_space}
use cmps.Userprog.AddrSpace.Frames.{
  delete_addr_space_lem, Undisturbed, delete_addr_space-IsConsistent_iff,
}

abbrev program : NoffHeader
program = record {
  noff_magic_word = 0xbadfad;
  code_size = 300;
  init_data_size = 20;
  uninit_data_size = 4;
}

abbrev zeros : ℕ → ℕ
zeros r = 0

init_registers-new_addr_space_example :
    (a : AddrSpace) × (new_addr_space program 6 ≡ some a)
    × IsReady program (init_registers a.num_pages zeros) a
init_registers-new_addr_space_example =
    init_registers-new_addr_space program 6 zeros refl (omega arith)

-- Page 2 of the address space 1 is in frame 5, which the page list of the address space 0 names.
abbrev page : ℕ → ℕ → TranslationEntry
page s v = record {
  virtual_page = v;
  physical_page = 5;
  valid = s == 1 && v == 2;
  read_only = false;
  used = false;
  dirty = false;
}

abbrev entry : ℕ → CoreMapEntry
entry p = record {
  phys_page_num = p;
  virt_page_num = 2;
  thread = 1;
  space = 1;
  allocated = true;
  counter = 9;
}

abbrev stale : LinkedList ℕ
stale = record { elements = element 5 0 ∷ []; size = pos 1 }

abbrev taken_over : PhysicalMemory
taken_over = record {
  mem_map = record { num_bits = 32; num_words = 1; words = 32 ∷ [] };
  core_map = entry;
  core_fifo_list = stale;
  num_page_faults = 9;
  main_memory = zeros;
  page_table = page;
  my_page_list = λ s. stale;
  start_page = zeros;
}

abbrev four : ℕ → ℕ
four s = 4

frame_marked : is_set taken_over.mem_map 5 ≡ true
unfolding is_set bit
frame_marked = refl

taken_over-IsConsistent : IsConsistent four taken_over
taken_over-IsConsistent = record {
  map_valid = omega arith;
  frames = refl;
  in_frame = λ s v h. omega arith;
  marked_frame = λ s v h. frame_marked;
  owner = λ s v h. ground arith;
  owner_page = λ s v h. ground arith;
  itself = λ p lt h. refl;
  in_table = λ p lt h. omega arith;
}

abbrev left_behind : PhysicalMemory
left_behind = (delete_addr_space_lem taken_over 0 (omega arith) (omega arith, tt)).0

delete_addr_space-IsConsistent_iff_example :
    IsConsistent four left_behind ↔ Undisturbed taken_over 0
delete_addr_space-IsConsistent_iff_example =
    delete_addr_space-IsConsistent_iff four taken_over left_behind 0 taken_over-IsConsistent
      (omega arith, tt) (delete_addr_space_lem taken_over 0 (omega arith) (omega arith, tt)).1
