-- ===== src/Userprog/Paging.antt =====
-- userprog/addrspace.cc: demand paging. The free map of physical memory, the core map and the page
-- tables of all address spaces, which have numbers, as their threads have. Frame numbers index the
-- core map; FIFO also reads the entry past its end, which here is whatever stands there. The swap
-- file of an address space is the list of its bytes. `none` is the halt of the machine when memory is
-- full and no replacement is chosen, a failed ASSERT, or an access outside a page table.
pub mod Frames
pub mod Choose
pub mod Safety
mod Tests
use cmps.Prelude.{
  ℕ, zero, suc, ◌+◌, ◌-◌, ◌*◌, ◌/◌, ◌%◌, Bool, true, false, not, ◌&&◌, Option, none, some,
}
use cmps.Prelude.{List, get_or, ltb, leb, ◌==◌, if◌then◌else◌, ◌>>=◌, ◌>>◌, assert}
use cmps.Userprog.BitMap.{BitMap, test, mark, clear, num_clear}
use cmps.Threads.LinkedList.{LinkedList, append}
use cmps.Machine.State.{TranslationEntry, page_size, num_phys_pages}

pub record CoreMapEntry : Type 0 where
  pub phys_page_num : ℕ
  pub virt_page_num : ℕ
  pub thread : ℕ
  pub space : ℕ
  pub allocated : Bool
  pub counter : ℕ

pub record PhysicalMemory : Type 0 where
  pub mem_map : BitMap
  pub core_map : ℕ → CoreMapEntry
  pub core_fifo_list : LinkedList ℕ
  pub num_page_faults : ℕ
  pub main_memory : ℕ → ℕ
  pub page_table : ℕ → ℕ → TranslationEntry
  pub my_page_list : ℕ → LinkedList ℕ
  pub start_page : ℕ → ℕ

-- `pageRepChoice`: FIFO, a random frame, or no replacement.
pub data Replacement : Type 0 where
  fifo : Replacement
  random_page : ℕ → Replacement
  demand_only : Replacement

-- Whether a page can be replaced when memory is full.
unfoldable pub replaces : Replacement → Bool
replaces fifo = true
replaces (random_page r) = true
replaces demand_only = false

-- The loop of FIFO over the core map: the last of the entries with the smallest counter.
pub oldest_loop : (ℕ → CoreMapEntry) → ℕ → ℕ → ℕ → ℕ → ℕ
oldest_loop core_map zero j entry min_time = entry
oldest_loop core_map (suc n) j entry min_time =
    let older = leb (core_map j).counter min_time in
    oldest_loop core_map n (j + 1) (if older then j else entry)
      (if older then (core_map j).counter else min_time)

pub oldest : (ℕ → CoreMapEntry) → ℕ
oldest core_map = oldest_loop core_map num_phys_pages 0 0 (core_map num_phys_pages).counter

-- The loop over the free map, which leaves the start of the last run of free frames.
pub free_loop : BitMap → ℕ → ℕ → ℕ → ℕ → Option ℕ
free_loop mem_map zero i counter start = some start
free_loop mem_map (suc n) i counter start = do
  busy ← test mem_map i
  free_loop mem_map n (i + 1) (if not busy then counter + 1 else 0)
      (if not busy && counter == 0 then i else start)

abbrev pub update {ℓ} : {A : Type ℓ} → (ℕ → A) → ℕ → A → ℕ → A
update f i x j = if i == j then x else f j

-- `pageTable[vpn] = …` in the page table of one address space.
abbrev pub update_table :
    (ℕ → ℕ → TranslationEntry) → ℕ → ℕ → TranslationEntry → ℕ → ℕ → TranslationEntry
update_table tables s vpn e t w = if s == t && vpn == w then e else tables t w

-- The page that is in a frame is no longer in memory.
pub evict : (ℕ → ℕ) → PhysicalMemory → ℕ → Option (ℕ × PhysicalMemory)
evict num_pages m frame = do
  let core = m.core_map frame
  assert (ltb core.virt_page_num (num_pages core.space))
  let entry = m.page_table core.space core.virt_page_num
  let tables =
      update_table m.page_table core.space core.virt_page_num (record entry { valid = false })
  some (frame, record m { page_table = tables })

-- The frame for the page, and what it takes to make it free.
pub choose_frame : (ℕ → ℕ) → Replacement → PhysicalMemory → ℕ → Option (ℕ × PhysicalMemory)
choose_frame num_pages choice m start = do
  free ← num_clear m.mem_map
  (if free == 0
      then elim choice [
        | fifo ↦ evict num_pages m (m.core_map (oldest m.core_map)).phys_page_num
        | random_page r ↦ evict num_pages m (r % num_phys_pages)
        | demand_only ↦ none
      ]
      else (do
        frame ← free_loop m.mem_map num_phys_pages 0 0 start
        map1 ← mark m.mem_map frame
        let core = record (m.core_map frame) { allocated = true }
        some (frame, record m { mem_map = map1; core_map = update m.core_map frame core })))

-- The page of the swap file, behind the header of the object file; 0 past its end.
pub page_in : ℕ → List ℕ → ℕ → ℕ → (ℕ → ℕ) → ℕ → ℕ
page_in header_size swap_file vpn p_addr memory a =
    if leb p_addr a && ltb a (p_addr + page_size)
    then get_or swap_file (header_size + vpn * page_size + (a - p_addr)) 0
    else memory a

-- `coreMap[startPage]` and the page table entry as `Paging` leaves them.
abbrev pub core_entry : CoreMapEntry → ℕ → ℕ → ℕ → ℕ → ℕ → CoreMapEntry
core_entry core thread space vpn frame counter = record core {
  thread = thread;
  space = space;
  virt_page_num = vpn;
  phys_page_num = frame;
  counter = counter;
}

-- What `Paging` does with the frame: the core map, the lists, the memory and the page table.
abbrev pub load_page : List ℕ → ℕ → Replacement → ℕ → ℕ → ℕ → ℕ → PhysicalMemory → PhysicalMemory
load_page swap_file header_size choice thread space vpn frame m =
    let core = core_entry (m.core_map frame) thread space vpn frame m.num_page_faults in
    let entry = record (m.page_table space vpn) {
      valid = true;
      physical_page = frame;
      virtual_page = vpn;
    } in
    record m {
      core_map = update m.core_map frame core;
      core_fifo_list = elim choice [ fifo ↦ append m.core_fifo_list frame | _ ↦ m.core_fifo_list ];
      main_memory = page_in header_size swap_file vpn (frame * page_size) m.main_memory;
      page_table = update_table m.page_table space vpn entry;
      my_page_list = update m.my_page_list space (append (m.my_page_list space) frame);
      start_page = update m.start_page space frame;
    }

-- `AddrSpace::Paging` of the address space `space` when `thread` is the current thread, at an address.
pub paging :
    (ℕ → ℕ) → (ℕ → List ℕ) → ℕ → Replacement → ℕ → PhysicalMemory → ℕ → ℕ → Option PhysicalMemory
paging num_pages swap_files header_size choice thread m space address = do
  let vpn = address / page_size
  let counted = record m { num_page_faults = m.num_page_faults + 1 }
  (frame, m1) ← choose_frame num_pages choice counted (m.start_page space)
  assert (ltb vpn (num_pages space))
  some (load_page (swap_files space) header_size choice thread space vpn frame m1)
