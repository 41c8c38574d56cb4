-- ===== src/Userprog/Paging/Choose.antt =====
-- userprog/addrspace.cc: the frame that `Paging` chooses is free, or has just been made free.
use cmps.Prelude.{
  ℕ, ◌%◌, ◌<◌, ◌≡◌, ◌≢◌, ◌⊎◌, inl, inr, refl, sym, ap, ◌∙◌, arith, true, false, ◌&&◌, Option, none,
  some,
}
use cmps.Prelude.{◌==◌, if◌then◌else◌, Bool-cases, lt→ltb, ==_of_ne, ==_of_eq}
use cmps.Userprog.BitMap.Bits.{IsValid, is_set, marked, mark-eq, with_word-IsValid, is_set-marked}
use cmps.Userprog.BitMap.Find.{clear_below, num_clear_lem}
use cmps.Machine.State.{TranslationEntry, num_phys_pages}
use cmps.Userprog.Paging.{
  CoreMapEntry, PhysicalMemory, Replacement, replaces, fifo, random_page, demand_only, oldest,
  free_loop, update, update_table, evict, choose_frame,
}
use cmps.Userprog.Paging.Frames.{IsConsistent, oldest-lt, all_marked, free_loop-IsFree}

-- All is consistent but for one marked frame, which no page is in.
pub record IsConsistentBut (num_pages : ℕ → ℕ) (frame : ℕ) (m : PhysicalMemory) : Type 0 where
  pub map_valid : IsValid m.mem_map
  pub frames : m.mem_map.num_bits ≡ num_phys_pages
  pub frame_lt : frame < num_phys_pages
  pub frame_marked : is_set m.mem_map frame ≡ true
  pub vacant :
      (s v : ℕ) → (m.page_table s v).valid ≡ true → frame ≢ (m.page_table s v).physical_page
  pub in_frame :
      (s v : ℕ)
      → (m.page_table s v).valid ≡ true
      → (m.page_table s v).physical_page < num_phys_pages
  pub marked_frame :
      (s v : ℕ)
      → (m.page_table s v).valid ≡ true
      → is_set m.mem_map (m.page_table s v).physical_page ≡ true
  pub owner :
      (s v : ℕ)
      → (m.page_table s v).valid ≡ true
      → (m.core_map (m.page_table s v).physical_page).space ≡ s
  pub owner_page :
      (s v : ℕ)
      → (m.page_table s v).valid ≡ true
      → (m.core_map (m.page_table s v).physical_page).virt_page_num ≡ v
  pub itself :
      (p : ℕ)
      → frame ≢ p
      → p < num_phys_pages
      → is_set m.mem_map p ≡ true
      → (m.core_map p).phys_page_num ≡ p
  pub in_table :
      (p : ℕ)
      → frame ≢ p
      → p < num_phys_pages
      → is_set m.mem_map p ≡ true
      → (m.core_map p).virt_page_num < num_pages (m.core_map p).space

-- The frame chosen for a page, and the memory after.
pub record Chosen (num_pages : ℕ → ℕ) (m : PhysicalMemory) (r : Option (ℕ × PhysicalMemory))
    : Type 0 where
  pub frame : ℕ
  pub after : PhysicalMemory
  pub result : r ≡ some (frame, after)
  pub but : IsConsistentBut num_pages frame after
  pub invalidated :
      (s v : ℕ) → (after.page_table s v).valid ≡ true → after.page_table s v ≡ m.page_table s v

module _ (num_pages : ℕ → ℕ) (m : PhysicalMemory) (c : IsConsistent num_pages m) where
  module _ (frame : ℕ) (lt : frame < num_phys_pages) (busy : is_set m.mem_map frame ≡ true) where
    abbrev core : CoreMapEntry
    core = m.core_map frame

    abbrev tables : ℕ → ℕ → TranslationEntry
    tables =
        update_table m.page_table core.space core.virt_page_num
          (record (m.page_table core.space core.virt_page_num) { valid = false })

    -- A page that is still valid is not the one evicted, and its entry is as before.
    same_entry :
        (s v : ℕ)
        → (tables s v).valid ≡ true
        → (tables s v ≡ m.page_table s v) × ((core.space == s && core.virt_page_num == v) ≡ false)
    same_entry s v h = elim (Bool-cases (core.space == s && core.virt_page_num == v)) [
      | inl evicted ↦ absurd (gone evicted h)
      | inr other ↦ (rw other refl, other)
    ]
      where
        gone : (core.space == s && core.virt_page_num == v) ≡ true → (tables s v).valid ≡ true → ⊥
        gone evicted = rw evicted (λ e. cc)

    still : (s v : ℕ) → (tables s v).valid ≡ true → (m.page_table s v).valid ≡ true
    still s v h = ap (λ (e : TranslationEntry). e.valid) (sym (same_entry s v h).0) ∙ h

    same_frame :
        (s v : ℕ)
        → (tables s v).valid ≡ true
        → (m.page_table s v).physical_page ≡ (tables s v).physical_page
    same_frame s v h = ap (λ (e : TranslationEntry). e.physical_page) (sym (same_entry s v h).0)

    vacated : (s v : ℕ) → (tables s v).valid ≡ true → frame ≢ (m.page_table s v).physical_page
    vacated s v h e =
        let space_same : core.space ≡ s =
          ap (λ p. (m.core_map p).space) e ∙ c.owner s v (still s v h) in
        let page_same : core.virt_page_num ≡ v =
          ap (λ p. (m.core_map p).virt_page_num) e ∙ c.owner_page s v (still s v h) in
        let other : (core.space == s && core.virt_page_num == v) ≡ false = (same_entry s v h).1 in
        ground (arith, space_same, page_same, other)

    evicted_but : IsConsistentBut num_pages frame (record m { page_table = tables })
    evicted_but = record {
      map_valid = c.map_valid;
      frames = c.frames;
      frame_lt = lt;
      frame_marked = busy;
      vacant = λ s v h e. vacated s v h (e ∙ sym (same_frame s v h));
      in_frame = λ s v h. omega (arith, c.in_frame s v (still s v h), same_frame s v h);
      marked_frame = λ s v h.
          ap (λ p. is_set m.mem_map p) (sym (same_frame s v h)) ∙ c.marked_frame s v (still s v h);
      owner = λ s v h.
          ap (λ p. (m.core_map p).space) (sym (same_frame s v h)) ∙ c.owner s v (still s v h);
      owner_page = λ s v h.
          ap (λ p. (m.core_map p).virt_page_num) (sym (same_frame s v h))
          ∙ c.owner_page s v (still s v h);
      itself = λ p ne. c.itself p;
      in_table = λ p ne. c.in_table p;
    }

    Chosen-evict : Chosen num_pages m (evict num_pages m frame)
    unfolding evict
    Chosen-evict = record {
      frame = frame;
      after = record m { page_table = tables };
      result = rw (lt→ltb _ _ (c.in_table frame lt busy)) refl;
      but = evicted_but;
      invalidated = λ s v h. (same_entry s v h).0;
    }

  module _ (frame : ℕ) (lt : frame < num_phys_pages) (free : is_set m.mem_map frame ≡ false) where
    abbrev taken : PhysicalMemory
    taken = record m {
      mem_map = marked m.mem_map frame;
      core_map = update m.core_map frame (record (m.core_map frame) { allocated = true });
    }

    set_after :
        (p : ℕ)
        → is_set (marked m.mem_map frame) p ≡ (if frame == p then true else is_set m.mem_map p)
    set_after p = is_set-marked m.mem_map c.map_valid frame (omega (arith, c.frames)) p

    not_free :
        (s v : ℕ) → (m.page_table s v).valid ≡ true → frame ≢ (m.page_table s v).physical_page
    not_free s v h e =
        let busy : is_set m.mem_map frame ≡ true =
          ap (λ p. is_set m.mem_map p) e ∙ c.marked_frame s v h in
        cc

    same_core : (p : ℕ) → frame ≢ p → taken.core_map p ≡ m.core_map p
    same_core p ne = rw (==_of_ne frame p ne) refl

    same_set : (p : ℕ) → frame ≢ p → is_set taken.mem_map p ≡ is_set m.mem_map p
    same_set p ne = set_after p ∙ rw (==_of_ne frame p ne) refl

    taken_but : IsConsistentBut num_pages frame taken
    taken_but = record {
      map_valid = with_word-IsValid m.mem_map c.map_valid frame (omega (arith, c.frames)) _;
      frames = c.frames;
      frame_lt = lt;
      frame_marked = set_after frame ∙ rw (==_of_eq frame frame refl) refl;
      vacant = not_free;
      in_frame = c.in_frame;
      marked_frame = λ s v h.
          same_set (m.page_table s v).physical_page (not_free s v h) ∙ c.marked_frame s v h;
      owner = λ s v h.
          ap (λ (e : CoreMapEntry). e.space)
            (same_core (m.page_table s v).physical_page (not_free s v h))
          ∙ c.owner s v h;
      owner_page = λ s v h.
          ap (λ (e : CoreMapEntry). e.virt_page_num)
            (same_core (m.page_table s v).physical_page (not_free s v h))
          ∙ c.owner_page s v h;
      itself = λ p ne plt h.
          ap (λ (e : CoreMapEntry). e.phys_page_num) (same_core p ne)
          ∙ c.itself p plt (sym (same_set p ne) ∙ h);
      in_table = λ p ne plt h. omega (
        arith,
        c.in_table p plt (sym (same_set p ne) ∙ h),
        ap (λ (e : CoreMapEntry). e.virt_page_num) (same_core p ne),
        ap (λ (e : CoreMapEntry). num_pages e.space) (same_core p ne),
      );
    }

    Chosen-free :
        (choice : Replacement) (start : ℕ)
        → 0 < clear_below m.mem_map m.mem_map.num_bits
        → free_loop m.mem_map num_phys_pages 0 0 start ≡ some frame
        → Chosen num_pages m (choose_frame num_pages choice m start)
    unfolding choose_frame
    Chosen-free choice start left looped = record {
      frame = frame;
      after = taken;
      result =
          rw
            (
              num_clear_lem m.mem_map c.map_valid,
              ==_of_ne (clear_below m.mem_map m.mem_map.num_bits) 0 (omega arith),
              looped,
              mark-eq m.mem_map c.map_valid frame (omega (arith, c.frames)),
            )
            refl;
      but = taken_but;
      invalidated = λ s v h. refl;
    }

  full_eq :
      (choice : Replacement) (start : ℕ)
      → clear_below m.mem_map m.mem_map.num_bits ≡ 0
      → choose_frame num_pages choice m start ≡ elim choice [
        | fifo ↦ evict num_pages m (m.core_map (oldest m.core_map)).phys_page_num
        | random_page r ↦ evict num_pages m (r % num_phys_pages)
        | demand_only ↦ none
      ]
  unfolding choose_frame
  full_eq choice start none_left =
      rw
        (
          num_clear_lem m.mem_map c.map_valid,
          ==_of_eq (clear_below m.mem_map m.mem_map.num_bits) 0 none_left,
        )
        refl

  busy_all :
      clear_below m.mem_map m.mem_map.num_bits ≡ 0
      → (p : ℕ) → p < num_phys_pages
      → is_set m.mem_map p ≡ true
  busy_all none_left p lt =
      all_marked m.mem_map m.mem_map.num_bits p none_left (omega (arith, c.frames))

  moved :
      (r r' : Option (ℕ × PhysicalMemory)) → r' ≡ r → Chosen num_pages m r → Chosen num_pages m r'
  moved r r' e h = record {
    frame = h.frame;
    after = h.after;
    result = e ∙ h.result;
    but = h.but;
    invalidated = h.invalidated;
  }

  choose_full :
      (choice : Replacement) (start : ℕ)
      → clear_below m.mem_map m.mem_map.num_bits ≡ 0
      → replaces choice ≡ true
      → Chosen num_pages m (choose_frame num_pages choice m start)
  unfolding replaces
  choose_full fifo start none_left yes' =
      let entry : ℕ = (m.core_map (oldest m.core_map)).phys_page_num in
      let same : entry ≡ oldest m.core_map =
        c.itself (oldest m.core_map) (oldest-lt m.core_map)
          (busy_all none_left (oldest m.core_map) (oldest-lt m.core_map)) in
      let lt : entry < num_phys_pages = omega (arith, same, oldest-lt m.core_map) in
      moved _ _ (full_eq fifo start none_left) (Chosen-evict entry lt (busy_all none_left entry lt))
  choose_full (random_page r) start none_left yes' =
      moved _ _ (full_eq (random_page r) start none_left) (
        Chosen-evict (r % num_phys_pages) (omega arith)
          (busy_all none_left (r % num_phys_pages) (omega arith)))
  choose_full demand_only start none_left yes' = cc

  pub choose :
      (choice : Replacement) (start : ℕ)
      → (0 < clear_below m.mem_map m.mem_map.num_bits) ⊎ (replaces choice ≡ true)
      → Chosen num_pages m (choose_frame num_pages choice m start)
  choose choice start able = elim (Bool-cases (clear_below m.mem_map m.mem_map.num_bits == 0)) [
    | inl none_left ↦ elim able [
      | inl left ↦ absurd (ground arith)
      | inr replacing ↦ choose_full choice start (ground arith) replacing
    ]
    | inr left ↦
        let positive : 0 < clear_below m.mem_map m.mem_map.num_bits = ground arith in
        let (frame, looped, free) =
          free_loop-IsFree m.mem_map start c.map_valid c.frames positive in
        Chosen-free frame (omega (arith, free.0, c.frames)) free.1 choice start positive looped
  ]
