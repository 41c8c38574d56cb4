-- ===== src/Userprog/Syscall/Starts.antt =====
-- userprog/exception.cc: `SC_Exec`.
use cmps.Machine.State.{TranslationEntry}
use cmps.Prelude.{
  get_or, get_elem?-eq-get_or, ℕ, ◌+◌, ◌<◌, ◌≡◌, ◌≢◌, ◌^◌, refl, sym, ap, subst, ◌∙◌, arith, false,
  none, some, List, [], ◌∷◌, ◌++◌, occurs, occurs-append, ◌==◌, if◌then◌else◌, ==_of_eq, ==_of_ne,
  ==_iff, Bool-cases, inl, inr,
}
use mathlib.Core.Option.{some-injective}
use cmps.Threads.LinkedList.{LinkedList, append}
use cmps.Threads.LinkedList.Counted.{items, IsCounted, items-append, append-IsCounted}
use cmps.Threads.Scheduler.{ready, ready_to_run, fork}
use cmps.Userprog.AddrSpace.{NoffHeader, AddrSpace, noff_magic, new_addr_space, init_registers}
use cmps.Userprog.AddrSpace.Layout.{IsReady, init_registers-new_addr_space}
use cmps.Userprog.Syscall.{World, Host, read_register, read_name, start_process, exec}
use cmps.Userprog.Syscall.Joins.{IsTarget}

-- The active threads are made, and have different identifiers that are given.
pub record IsNumbered (w : World) : Type 0 where
  pub counted : IsCounted w.kernel.active_threads
  pub made : (u : ℕ) → 0 < occurs u (items w.kernel.active_threads) → u < w.next_object
  pub given : (u : ℕ) → 0 < occurs u (items w.kernel.active_threads) → w.id u < w.thread_id
  pub different :
      (u v : ℕ)
      → 0 < occurs u (items w.kernel.active_threads)
      → 0 < occurs v (items w.kernel.active_threads)
      → w.id u ≡ w.id v
      → u ≡ v

-- The new thread `t` of `w'`, and what `Exec` left as it was in `w`.
pub record Started (w : World) (header : NoffHeader) (t : ℕ) (w' : World) : Type 0 where
  pub result : read_register w' 2 ≡ w.thread_id
  pub target : IsTarget w' (read_register w' 2) t
  pub numbered : IsNumbered w'
  pub new_thread : occurs t (items w.kernel.active_threads) ≡ 0
  pub is_ready : w'.kernel.status t ≡ ready
  pub last_ready : items w'.kernel.ready_list ≡ items w.kernel.ready_list ++ (t ∷ [])
  pub active_now : items w'.kernel.active_threads ≡ items w.kernel.active_threads ++ (t ∷ [])
  pub no_parent : (w'.kernel.parent t ≡ none) × (w'.kernel.is_joined t ≡ false)
  pub own_space :
      (s : ℕ) × (w'.space t ≡ some s)
      × ((registers : ℕ → ℕ)
          → (a : AddrSpace) × (a.num_pages ≡ w'.pages s)
            × IsReady header (init_registers (w'.pages s) registers) a)
      × (items (w'.memory.my_page_list s) ≡ [])
      × ((v : ℕ) → v < w'.pages s → (w'.memory.page_table s v).valid ≡ false)
      × ((u : ℕ)
          → u ≢ s
          → (w'.memory.page_table u ≡ w.memory.page_table u)
            × (w'.memory.my_page_list u ≡ w.memory.my_page_list u))
  pub still_runs : (w'.kernel.current ≡ w.kernel.current) × (w'.mapped ≡ w.mapped)
  pub memory_kept :
      (w'.memory.mem_map ≡ w.memory.mem_map) × (w'.memory.main_memory ≡ w.memory.main_memory)

occurs-last :
    (u t : ℕ) (l : LinkedList ℕ)
    → occurs u (items (append l t)) ≡ occurs u (items l) + (if u == t then 1 else 0)
occurs-last u t l =
    omega (arith, ap (λ xs. occurs u xs) (items-append l t), occurs-append u (items l) (t ∷ []))

module _ (w : World) (numbered : IsNumbered w) (header : NoffHeader) (a : AddrSpace)
    (fits : (registers : ℕ → ℕ) → IsReady header (init_registers a.num_pages registers) a) where
  abbrev child : ℕ
  child = w.next_object + 1

  abbrev id_after : ℕ → ℕ
  id_after u = if child == u then w.thread_id else w.id u

  abbrev active_after : LinkedList ℕ
  active_after = append w.kernel.active_threads child

  -- An active thread was active, or is the child.
  before :
      (u : ℕ)
      → 0 < occurs u (items active_after)
      → (child == u) ≡ false
      → 0 < occurs u (items w.kernel.active_threads)
  before u here other = ground (arith, occurs-last u child w.kernel.active_threads)

  id_before :
      (u : ℕ) → 0 < occurs u (items active_after) → (child == u) ≡ false → id_after u < w.thread_id
  id_before u here other = rw other (numbered.given u (before u here other))

  only_child : (u : ℕ) → 0 < occurs u (items active_after) → id_after u ≡ w.thread_id → u ≡ child
  only_child u here has = elim (Bool-cases (child == u)) [
    | inl it ↦ sym ((==_iff child u).0 it)
    | inr other ↦ absurd (omega (arith, id_before u here other, has))
  ]

  id_child : id_after child ≡ w.thread_id
  id_child = rw (==_of_eq child child refl) refl

  different_after :
      (u v : ℕ)
      → 0 < occurs u (items active_after)
      → 0 < occurs v (items active_after)
      → id_after u ≡ id_after v
      → u ≡ v
  different_after u v hu hv same = elim (Bool-cases (child == u)) [
    | inl it ↦
        let u_is : u ≡ child = sym ((==_iff child u).0 it) in
        u_is ∙ sym (only_child v hv (sym same ∙ ap (λ x. id_after x) u_is ∙ id_child))
    | inr other_u ↦ elim (Bool-cases (child == v)) [
      | inl it ↦
          let v_is : v ≡ child = sym ((==_iff child v).0 it) in
          only_child u hu (same ∙ ap (λ x. id_after x) v_is ∙ id_child) ∙ sym v_is
      | inr other_v ↦
          numbered.different u v (before u hu other_u) (before v hv other_v) (ground (arith, same))
    ]
  ]

  made_after : (u : ℕ) → 0 < occurs u (items active_after) → u < w.next_object + 2
  made_after u here = elim (Bool-cases (child == u)) [
    | inl it ↦ omega (arith, (==_iff child u).0 it)
    | inr other ↦ omega (arith, numbered.made u (before u here other))
  ]

  given_after : (u : ℕ) → 0 < occurs u (items active_after) → id_after u < w.thread_id + 1
  given_after u here = elim (Bool-cases (child == u)) [
    | inl it ↦ rw it (omega arith)
    | inr other ↦ omega (arith, id_before u here other)
  ]

  is_new : occurs child (items w.kernel.active_threads) ≡ 0
  is_new = elim (Bool-cases (occurs child (items w.kernel.active_threads) == 0)) [
    | inl none_there ↦ ground arith
    | inr there ↦ absurd (omega (arith, numbered.made child (ground arith)))
  ]

  not_in_memory :
      (v : ℕ)
      → v < a.num_pages
      → (get_or a.page_table v (w.memory.page_table w.next_object v)).valid ≡ false
  not_in_memory v lt =
      let starts : IsReady header (init_registers a.num_pages (λ r. 0)) a = fits (λ r. 0) in
      let entry : TranslationEntry = get_or a.page_table v (w.memory.page_table w.next_object v) in
      starts.not_in_memory v entry (
        get_elem?-eq-get_or a.page_table v (w.memory.page_table w.next_object v)
          (omega (arith, lt, starts.table_size)))

  start_process-Started : Started w header child (start_process w a)
  unfolding start_process fork ready_to_run
  start_process-Started =
      let pages_now : a.num_pages ≡ (start_process w a).pages w.next_object =
        rw (==_of_eq w.next_object w.next_object refl) refl in
      let here : 0 < occurs child (items active_after) =
        ground (arith, occurs-last child child w.kernel.active_threads) in
      let result : read_register (start_process w a) 2 ≡ w.thread_id =
        rw (==_of_eq w.kernel.current w.kernel.current refl) refl in
      record {
        result = result;
        target = record {
          counted = append-IsCounted w.kernel.active_threads child numbered.counted;
          active = here;
          has_id = id_child ∙ sym result;
          only = λ u hu has. only_child u hu (has ∙ result);
        };
        numbered = record {
          counted = append-IsCounted w.kernel.active_threads child numbered.counted;
          made = made_after;
          given = given_after;
          different = different_after;
        };
        new_thread = is_new;
        is_ready = rw (==_of_eq child child refl) refl;
        last_ready = items-append w.kernel.ready_list child;
        active_now = items-append w.kernel.active_threads child;
        no_parent = (rw (==_of_eq child child refl) refl, rw (==_of_eq child child refl) refl);
        own_space = (
          w.next_object,
          rw (==_of_eq child child refl) refl,
          λ registers. (
            a,
            pages_now,
            subst (λ n. IsReady header (init_registers n registers) a) pages_now (fits registers),
          ),
          rw (==_of_eq w.next_object w.next_object refl) refl,
          λ v lt.
              rw (==_of_eq w.next_object w.next_object refl)
                (not_in_memory v (omega (arith, lt, pages_now))),
          λ u other. rw (==_of_ne w.next_object u (λ e. other (sym e))) (refl, refl),
        );
        still_runs = (refl, refl);
        memory_kept = (refl, refl);
      }

-- `Exec` of a name that can be read and of an object file of the right kind that is not too big, by a
-- thread whose next process is not to be killed, while the active threads have different identifiers: it
-- returns the identifier of a new thread that is active and last in the ready list, with no parent and
-- its own address space, no page of it in memory, where it starts at address 0; so that `Join` on what
-- `Exec` returned finds that thread and no other. All active threads still have different identifiers,
-- and the caller runs on in its own address space.
pub exec-Started :
    (h : Host) (w w1 : World) (name : List ℕ) (header : NoffHeader)
    → read_name h 100 w (read_register w 4) [] ≡ some (some name, w1)
    → h.object_file name ≡ some header
    → header.noff_magic_word ≡ noff_magic
    → header.code_size + header.init_data_size + header.uninit_data_size + 1024 < 2 ^ 31
    → w1.kill_new_child w1.kernel.current ≡ false
    → IsNumbered w1
    → (t : ℕ) × (w' : World) × (exec h w ≡ some w') × Started w1 header t w'
unfolding exec
exec-Started h w w1 name header named found magic small spared numbered =
    let registers : ℕ → ℕ = λ r. 0 in
    let (a, made, _) = init_registers-new_addr_space header h.start_page registers magic small in
    (
      w1.next_object + 1,
      start_process w1 a,
      rw (named, found, made, spared) refl,
      start_process-Started w1 numbered header a (fits made),
    )
  where
    fits :
        {a : AddrSpace}
        → new_addr_space header h.start_page ≡ some a
        → (r : ℕ → ℕ) → IsReady header (init_registers a.num_pages r) a
    fits {a} made r =
        let (b, made_b, starts) = init_registers-new_addr_space header h.start_page r magic small in
        subst (λ c. IsReady header (init_registers c.num_pages r) c)
          (some-injective _ _ (sym made_b ∙ made)) starts
