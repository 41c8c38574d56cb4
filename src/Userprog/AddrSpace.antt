-- ===== src/Userprog/AddrSpace.antt =====
-- userprog/addrspace.cc: how an address space begins and ends. The object file gives its header; the
-- byte order is that of a little-endian host, on which `WordToHost` changes nothing. Sizes are
-- `unsigned int`. `none` is a failed ASSERT, or a frame that the free map does not have.
pub mod Layout
pub mod Frames
mod Tests
use cmps.Prelude.{ℕ, zero, suc, ◌+◌, ◌-◌, ◌*◌, ◌^◌, Bool, true, false, Option, none, some}
use cmps.Prelude.{List, [], ◌∷◌, ◌==◌, if◌then◌else◌, ◌>>=◌, ◌>>◌, assert}
use cmps.Prelude.Bits.{u32}
use cmps.Userprog.BitMap.{BitMap, div_round_up, clear}
use cmps.Userprog.Paging.{PhysicalMemory, update}
use cmps.Threads.LinkedList.{LinkedList, is_empty, remove}
use cmps.Machine.State.{TranslationEntry, page_size, pc_reg, next_pc_reg}

abbrev pub noff_magic : ℕ
noff_magic = 0xbadfad

abbrev pub user_stack_size : ℕ
user_stack_size = 1024

-- `sizeof(noffH)`
abbrev pub header_size : ℕ
header_size = 40

abbrev pub stack_reg : ℕ
stack_reg = 29

abbrev pub num_total_regs : ℕ
num_total_regs = 40

-- The fields of `NoffHeader` that the kernel reads.
pub record NoffHeader : Type 0 where
  pub noff_magic_word : ℕ
  pub code_size : ℕ
  pub init_data_size : ℕ
  pub uninit_data_size : ℕ

pub record AddrSpace : Type 0 where
  pub num_pages : ℕ
  pub new_size : ℕ
  pub page_table : List TranslationEntry

-- The loop of the constructor. `start_page` is what the new object contains.
pub fresh_table : ℕ → ℕ → ℕ → List TranslationEntry
fresh_table zero i start_page = []
fresh_table (suc n) i start_page =
    record {
      virtual_page = i;
      physical_page = u32 (i + start_page);
      valid = false;
      read_only = false;
      used = false;
      dirty = false;
    }
    ∷ fresh_table n (i + 1) start_page

-- `AddrSpace::AddrSpace`
pub new_addr_space : NoffHeader → ℕ → Option AddrSpace
new_addr_space h start_page = do
  assert (h.noff_magic_word == noff_magic)
  let size = u32 (h.code_size + h.init_data_size + h.uninit_data_size + user_stack_size)
  let num_pages = div_round_up size page_size
  let size' = u32 (num_pages * page_size)
  some (record {
    num_pages = num_pages;
    new_size = u32 (header_size + size');
    page_table = fresh_table num_pages 0 start_page;
  })

-- The loop of `InitRegisters`, over the registers of the machine.
pub clear_registers : ℕ → ℕ → (ℕ → ℕ) → ℕ → ℕ
clear_registers zero i registers = registers
clear_registers (suc n) i registers = clear_registers n (i + 1) (update registers i 0)

-- `AddrSpace::InitRegisters`
pub init_registers : ℕ → (ℕ → ℕ) → ℕ → ℕ
init_registers num_pages registers =
    let r1 = clear_registers num_total_regs 0 registers in
    let r2 = update (update r1 pc_reg 0) next_pc_reg 4 in
    update r2 stack_reg (u32 (num_pages * page_size + 2 ^ 32 - 16))

-- The loop of the destructor: `while (!myPageList->IsEmpty())`.
pub free_frames : ℕ → LinkedList ℕ → BitMap → Option (LinkedList ℕ × BitMap)
free_frames zero pages mem_map = if is_empty pages then some (pages, mem_map) else none
free_frames (suc fuel) pages mem_map = elim (is_empty pages) [
  | true ↦ some (pages, mem_map)
  | false ↦
      let (page, rest) = remove pages in
      elim page [ none ↦ none | some p ↦ (do map1 ← clear mem_map p; free_frames fuel rest map1) ]
]

-- `AddrSpace::~AddrSpace`, without the swap file, which is removed. No entry of a page table that is
-- deleted is valid.
unfoldable pub delete_addr_space : ℕ → PhysicalMemory → ℕ → Option PhysicalMemory
delete_addr_space fuel m space = do
  (pages, map1) ← free_frames fuel (m.my_page_list space) m.mem_map
  let deleted : ℕ → TranslationEntry = λ v. record (m.page_table space v) { valid = false }
  some (record m {
    mem_map = map1;
    my_page_list = update m.my_page_list space pages;
    page_table = update m.page_table space deleted;
  })
