-- ===== src/Userprog/AddrSpace/Layout.antt =====
-- userprog/addrspace.cc: the size of a new address space, its page table and its first registers.
use cmps.Prelude.{
  ℕ, zero, suc, ◌+◌, ◌*◌, ◌^◌, ◌<◌, ◌≤◌, ◌≡◌, refl, arith, ap, ◌∙◌, sym, false, some, length,
  get_elem?, ◌==◌, ==_of_eq, ==_of_ne, Bool-cases, inl, inr,
}
use cmps.Prelude.Bits.{u32}
use cmps.Machine.State.{TranslationEntry, pc_reg, next_pc_reg}
use cmps.Prelude.{◌≢◌, if◌then◌else◌}
use cmps.Userprog.BitMap.{div_round_up}
use cmps.Userprog.Paging.{update}
use cmps.Userprog.AddrSpace.{
  NoffHeader, AddrSpace, noff_magic, fresh_table, new_addr_space, clear_registers, init_registers,
  stack_reg,
}

length-fresh_table : (n i start : ℕ) → length (fresh_table n i start) ≡ n
unfolding fresh_table
length-fresh_table zero i start = refl
length-fresh_table (suc n) i start = ap suc (length-fresh_table n (i + 1) start)

fresh_table_entry :
    (n i start k : ℕ) (e : TranslationEntry)
    → get_elem? (fresh_table n i start) k ≡ some e
    → (e.valid ≡ false) × (e.virtual_page ≡ i + k)
unfolding fresh_table
fresh_table_entry zero i start k e h = absurd cc
fresh_table_entry (suc n) i start zero e h = ground arith
fresh_table_entry (suc n) i start (suc k) e h =
    let (invalid, page) = fresh_table_entry n (i + 1) start k e h in (invalid, omega (arith, page))

registers_below :
    (n i : ℕ) (registers : ℕ → ℕ) (r : ℕ) → r < i → clear_registers n i registers r ≡ registers r
unfolding clear_registers
registers_below zero i registers r lt = refl
registers_below (suc n) i registers r lt =
    registers_below n (i + 1) (update registers i 0) r (omega arith)
    ∙ rw (==_of_ne i r (omega arith)) refl

registers_cleared :
    (n i : ℕ) (registers : ℕ → ℕ) (r : ℕ) → i ≤ r → r < i + n → clear_registers n i registers r ≡ 0
unfolding clear_registers
registers_cleared zero i registers r le lt = absurd (omega arith)
registers_cleared (suc n) i registers r le lt = elim (Bool-cases (i == r)) [
  | inl here ↦ registers_below n (i + 1) (update registers i 0) r (ground arith) ∙ rw here refl
  | inr later ↦ registers_cleared n (i + 1) (update registers i 0) r (ground arith) (omega arith)
]

-- What a program is given: pages for its segments and its stack, none of them in memory, and registers
-- with which it starts at address 0, the stack pointer 16 bytes below the end of the address space.
pub record IsReady (h : NoffHeader) (registers : ℕ → ℕ) (a : AddrSpace) : Type 0 where
  pub holds_all : h.code_size + h.init_data_size + h.uninit_data_size + 1024 ≤ a.num_pages * 256
  pub no_more : a.num_pages * 256 < h.code_size + h.init_data_size + h.uninit_data_size + 1024 + 256
  pub table_size : length a.page_table ≡ a.num_pages
  pub not_in_memory :
      (k : ℕ) (e : TranslationEntry) → get_elem? a.page_table k ≡ some e → e.valid ≡ false
  pub pages_in_order :
      (k : ℕ) (e : TranslationEntry) → get_elem? a.page_table k ≡ some e → e.virtual_page ≡ k
  pub at_start : (registers pc_reg ≡ 0) × (registers next_pc_reg ≡ 4)
  pub stack_pointer : registers stack_reg + 16 ≡ a.num_pages * 256
  pub others : (r : ℕ) → r < 40 → r ≢ next_pc_reg → r ≢ stack_reg → registers r ≡ 0

-- For an object file of the right kind whose segments and stack together are smaller than 2 ^ 31
-- bytes, the constructor makes an address space with the fewest pages that hold them, in order and none
-- in memory, and `InitRegisters` then starts the program at address 0 with its stack pointer 16 bytes
-- below the end of that space, and all its other registers 0.
pub init_registers-new_addr_space :
    (h : NoffHeader) (start_page : ℕ) (registers : ℕ → ℕ)
    → h.noff_magic_word ≡ noff_magic
    → h.code_size + h.init_data_size + h.uninit_data_size + 1024 < 2 ^ 31
    → (a : AddrSpace) × (new_addr_space h start_page ≡ some a)
      × IsReady h (init_registers a.num_pages registers) a
unfolding new_addr_space init_registers
init_registers-new_addr_space h start_page registers magic small = (
  record {
    num_pages = pages;
    new_size = u32 (40 + u32 (pages * 256));
    page_table = fresh_table pages 0 start_page;
  },
  rw (==_of_eq h.noff_magic_word noff_magic magic) refl,
  record {
    holds_all = ground arith;
    no_more = ground arith;
    table_size = length-fresh_table pages 0 start_page;
    not_in_memory = λ k e found. (fresh_table_entry pages 0 start_page k e found).0;
    pages_in_order = λ k e found. omega (arith, (fresh_table_entry pages 0 start_page k e found).1);
    at_start = (refl, refl);
    stack_pointer = ground arith;
    others = λ r lt not_next not_stack.
        rw (==_of_ne 29 r (λ e. not_stack (sym e)), ==_of_ne 35 r (λ e. not_next (sym e)))
          (zero_unless_pc r lt);
  },
)
  where
    pages : ℕ
    pages = div_round_up (u32 (h.code_size + h.init_data_size + h.uninit_data_size + 1024)) 256

    zero_unless_pc :
        (r : ℕ) → r < 40 → (if 34 == r then 0 else clear_registers 40 0 registers r) ≡ 0
    zero_unless_pc r lt = elim (Bool-cases (34 == r)) [
      | inl here ↦ rw here refl
      | inr other ↦ rw other (registers_cleared 40 0 registers r (omega arith) (omega arith))
    ]
