-- ===== src/Userprog/Syscall/Joins.antt =====
-- userprog/exception.cc: `SC_Join`.
use cmps.Prelude.{
  ℕ, suc, ◌<◌, ◌≡◌, ◌≢◌, ◌^◌, refl, sym, ap, ◌∙◌, true, false, Option, none, some, List, ◌∷◌,
  occurs, ==_of_eq, ==_of_ne,
}
use cmps.Prelude.{not_leb_of_lt}
use cmps.Threads.LinkedList.{LinkedList, remove}
use cmps.Threads.LinkedList.Counted.{items, IsCounted, remove_cons}
use cmps.Threads.Scheduler.{
  Kernel, running, blocked, set_status, find_next_to_run, run_thread, sleep, sleep_loop,
}
use cmps.Userprog.Syscall.{World, Host, read_register, find_process, set_active, switched, join}
use cmps.Userprog.Syscall.ActiveThreads.{thread, nobody, get_id_lem}
use cmps.Userprog.Paging.{update}

-- `t` is the one active thread that has the identifier.
pub record IsTarget (w : World) (to_join t : ℕ) : Type 0 where
  pub counted : IsCounted w.kernel.active_threads
  pub active : 0 < occurs t (items w.kernel.active_threads)
  pub has_id : w.id t ≡ to_join
  pub only : (u : ℕ) → 0 < occurs u (items w.kernel.active_threads) → w.id u ≡ to_join → u ≡ t

Found : World → ℕ → ℕ → Type 0
Found w to_join t =
    (l : LinkedList ℕ) × (find_process w to_join ≡ some (some t, set_active w l))
    × (items l ≡ items w.kernel.active_threads)
    × IsTarget (set_active w l) to_join t

find_process_lem : (w : World) (to_join t : ℕ) → IsTarget w to_join t → Found w to_join t
unfolding Found find_process
find_process_lem w to_join t target =
    let (found, l, searched, search, same, counted) =
      get_id_lem w.id to_join w.kernel.active_threads target.counted in
    elim search [
      | thread u e here has ↦
          let it_is : found ≡ some t = e ∙ ap some (target.only u here has) in
          (
            l,
            rw (searched, it_is) refl,
            same,
            record {
              counted = counted;
              active = rw same target.active;
              has_id = target.has_id;
              only = λ v. rw same (target.only v);
            },
          )
      | nobody e no_one ↦ absurd (no_one t target.active target.has_id)
    ]

-- The current thread of `w` has joined `t`, and `n` runs instead.
pub record Waits (w : World) (t n : ℕ) (rest : List ℕ) (w' : World) : Type 0 where
  pub now_runs : w'.kernel.current ≡ n
  pub is_running : w'.kernel.status n ≡ running
  pub asleep : w.kernel.current ≢ n → w'.kernel.status w.kernel.current ≡ blocked
  pub parent_now : w'.kernel.parent t ≡ some w.kernel.current
  pub other_parents : (u : ℕ) → u ≢ t → w'.kernel.parent u ≡ w.kernel.parent u
  pub joined_now : w'.kernel.is_joined w.kernel.current ≡ true
  pub joined_others : (u : ℕ) → u ≢ w.kernel.current → w'.kernel.is_joined u ≡ w.kernel.is_joined u
  pub ready_left : items w'.kernel.ready_list ≡ rest
  pub active_kept : items w'.kernel.active_threads ≡ items w.kernel.active_threads
  pub mapped_again : (s : ℕ) → w.space n ≡ some s → w'.mapped ≡ s

sleep-next :
    (idle : Kernel → Option Kernel) (r : ℕ) (k : Kernel) (n : ℕ) (rest : List ℕ)
    → items k.ready_list ≡ n ∷ rest
    → (l : LinkedList ℕ) × (sleep idle (suc r) k
        ≡ some (
            set_status
              (record k {
                current = n;
                status = (set_status k k.current blocked).status;
                ready_list = l;
                to_be_destroyed = none;
              })
              n
              running))
      × (items l ≡ rest)
unfolding sleep sleep_loop find_next_to_run run_thread
sleep-next idle r k n rest e =
    let (taken, left, _) = remove_cons k.ready_list n rest e in
    ((remove k.ready_list).1, rw (sleep, sleep_loop, find_next_to_run, taken) refl, left)

-- A thread that has joined no one calls `Join` on the identifier of an active thread, whose parent may
-- be anyone, while another thread is ready: the caller becomes the parent of that thread, is marked as
-- joined and sleeps; the first ready thread runs in its own address space; the rest of the ready list,
-- the other parents and marks, and the active threads are as before.
pub join-Waits :
    (h : Host) (w : World) (t n r : ℕ) (rest : List ℕ)
    → h.idle_rounds ≡ suc r
    → read_register w 4 < 2 ^ 31
    → IsTarget w (read_register w 4) t
    → w.kernel.is_joined w.kernel.current ≡ false
    → items w.kernel.ready_list ≡ n ∷ rest
    → (w' : World) × (join h w ≡ some w') × Waits w t n rest w'
unfolding join Found
join-Waits h w t n r rest rounds positive target unjoined ready =
    let to_join : ℕ = read_register w 4 in
    let (l1, found1, same1, target1) = find_process_lem w to_join t target in
    let (l2, found2, same2, target2) = find_process_lem (set_active w l1) to_join t target1 in
    let (l3, found3, same3, _) = find_process_lem (set_active w l2) to_join t target2 in
    let k1 : Kernel = record w.kernel {
      active_threads = l3;
      parent = update w.kernel.parent t (some w.kernel.current);
      is_joined = update w.kernel.is_joined w.kernel.current true;
    } in
    let (l, slept, left) = sleep-next h.idle r k1 n rest ready in
    let k' : Kernel =
      set_status
        (record k1 {
          current = n;
          status = (set_status k1 k1.current blocked).status;
          ready_list = l;
          to_be_destroyed = none;
        })
        n running in
    let slept' : sleep h.idle h.idle_rounds k1 ≡ some k' =
      ap (λ m. sleep h.idle m k1) rounds ∙ slept in
    (
      switched (set_active w l3) k',
      rw (not_leb_of_lt (2 ^ 31) to_join positive, found1, unjoined, found2, found3, slept') refl,
      record {
        now_runs = refl;
        is_running = rw (==_of_eq n n refl) refl;
        asleep = λ other.
            rw
              (
                ==_of_ne n w.kernel.current (λ e. other (sym e)),
                ==_of_eq w.kernel.current w.kernel.current refl,
              )
              refl;
        parent_now = rw (==_of_eq t t refl) refl;
        other_parents = λ u other. rw (==_of_ne t u (λ e. other (sym e))) refl;
        joined_now = rw (==_of_eq w.kernel.current w.kernel.current refl) refl;
        joined_others = λ u other. rw (==_of_ne w.kernel.current u (λ e. other (sym e))) refl;
        ready_left = left;
        active_kept = same3 ∙ same2 ∙ same1;
        mapped_again = λ s own. rw (switched, own) refl;
      },
    )
