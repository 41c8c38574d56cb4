-- ===== src/Userprog/Syscall/Faults.antt =====
-- userprog/exception.cc: page faults, and what `Run` of machine/mipssim.cc does after one.
use cmps.Prelude.{Option, ℕ, ◌/◌, ◌<◌, ◌≡◌, ◌⊎◌, refl, true, false, ◌&&◌, some, ◌==◌}
use cmps.Machine.State.{syscall_exception, page_fault_exception, bad_vaddr_reg, num_phys_pages}
use cmps.Userprog.BitMap.Find.{clear_below}
use cmps.Userprog.AddrSpace.{header_size}
use cmps.Userprog.Paging.{replaces}
use cmps.Userprog.Paging.Frames.{IsConsistent}
use cmps.Userprog.Paging.Safety.{paging-IsConsistent}
use cmps.Userprog.Syscall.{run_round}
use cmps.Userprog.Syscall.{World, Host, read_register, page_fault, exception_handler}

-- The page of `address` is in memory, every other page that is in memory was there, and `w'` is `w` in
-- all but the memory and the mark of a page fault.
pub record PagedIn (w : World) (s address : ℕ) (w' : World) : Type 0 where
  pub consistent : IsConsistent w.pages w'.memory
  pub in_memory : (w'.memory.page_table s (address / 256)).valid ≡ true
  pub others_kept :
      (t v : ℕ)
      → (s == t && address / 256 == v) ≡ false
      → (w'.memory.page_table t v).valid ≡ true
      → w'.memory.page_table t v ≡ w.memory.page_table t v
  pub apart : w' ≡ record w { memory = w'.memory; pf_occurred = w'.pf_occurred }

-- A page fault at an address of the current address space, while the free map, the core map and the
-- page tables agree and a frame is free or pages are replaced: the handler succeeds and the page is in
-- memory; the registers, the program counters among them, are as they were. The next round of `Run`
-- executes nothing and takes back the mark of the fault, as a system call with the mark would; and the
-- round after it executes the instruction again, in the memory with the page.
pub page_fault-run_round :
    (h : Host) (instruct : World → Option World) (w : World) (s : ℕ)
    → w.space w.kernel.current ≡ some s
    → IsConsistent w.pages w.memory
    → read_register w bad_vaddr_reg / 256 < w.pages s
    → (0 < clear_below w.memory.mem_map num_phys_pages) ⊎ (replaces h.choice ≡ true)
    → (w1 : World) × (w2 : World) × (exception_handler h w page_fault_exception ≡ some w1)
      × (run_round instruct w1 ≡ some w2)
      × (exception_handler h w1 syscall_exception ≡ some w2)
      × (run_round instruct w2 ≡ instruct w2)
      × PagedIn w s (read_register w bad_vaddr_reg) w2
unfolding exception_handler page_fault run_round
page_fault-run_round h instruct w s own c inside able =
    let (m, paged, c', here, others, _) =
      paging-IsConsistent w.pages h.swap_file header_size h.choice w.kernel.current w.memory s
        (read_register w bad_vaddr_reg) c inside able in
    (
      record w { memory = m; pf_occurred = true },
      record w { memory = m; pf_occurred = false },
      rw (own, paged) refl,
      refl,
      refl,
      refl,
      record { consistent = c'; in_memory = here; others_kept = others; apart = refl },
    )
