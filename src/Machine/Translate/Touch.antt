-- ===== src/Machine/Translate/Touch.antt =====
-- machine/translate.cc: the `use` and `dirty` bits that an access sets do not change where the page
-- is found, or where it is.
use mathlib.Core.Option
use mathlib.Core.Option.{some-injective}
use cmps.Prelude.{ℕ, zero, suc, ◌+◌, ◌<◌, ◌≡◌, arith, ap, Bool, true, false}
use cmps.Prelude.{
  Option, none, some, List, length, get_elem?, get_elem?-set_self, get_elem?-set_ne,
  lt_of_get_elem?, set, leb, ℕ_discrete,
}
use cmps.Machine.State.{Machine, TranslationEntry}
use cmps.Machine.Translate.{entry_at, tlb_hit, tlb_loop, lookup_in, lookup, touched, store_entry}

-- What it means that the lookup finds entry `i`.
tlb_loop-inv :
    (n k : ℕ) (t : List TranslationEntry) (vpn i : ℕ) (e : TranslationEntry)
    → tlb_loop n k t vpn ≡ some (entry_at i e)
    → (get_elem? t i ≡ some e) × (tlb_hit e vpn ≡ true)
unfolding tlb_loop
tlb_loop-inv zero k t vpn i e h = cc
tlb_loop-inv (suc n) k t vpn i e h =
    ground (arith, tlb_loop-inv n (k + 1) t vpn i e, ap (λ j. get_elem? t j) {x = k} {y = i})

paged-inv :
    (p : List TranslationEntry) (n vpn i : ℕ) (e : TranslationEntry)
    → lookup_in none (some p) n vpn ≡ some (entry_at i e)
    → (leb n vpn ≡ false) × (i ≡ vpn) × (get_elem? p vpn ≡ some e) × (e.valid ≡ true)
unfolding lookup_in
paged-inv p n vpn i e h = ground arith

-- The loop comes to entry `i` again after it is replaced by one that is as valid and for the
-- same page.
tlb_loop-set :
    (n k : ℕ) (t : List TranslationEntry) (vpn i : ℕ) (e : TranslationEntry) (w : Bool)
    → i < length t
    → tlb_loop n k t vpn ≡ some (entry_at i e)
    → tlb_loop n k (set t i (touched e w)) vpn ≡ some (entry_at i (touched e w))
unfolding tlb_loop
tlb_loop-set zero k t vpn i e w lt h = cc
tlb_loop-set (suc n) k t vpn i e w lt h = elim (ℕ_discrete i k) [
  | yes same ↦ ground (
    arith,
    ap (λ j. get_elem? (set t i (touched e w)) j) same,
    get_elem?-set_self t i (touched e w) lt,
    (tlb_loop-inv (suc n) k t vpn i e h).1,
  )
  | no other ↦
      ground (arith, get_elem?-set_ne t (touched e w) other, tlb_loop-set n (k + 1) t vpn i e w lt)
]

paged-set :
    (p : List TranslationEntry) (n vpn i : ℕ) (e : TranslationEntry) (w : Bool)
    → lookup_in none (some p) n vpn ≡ some (entry_at i e)
    → lookup_in none (some (set p i (touched e w))) n vpn ≡ some (entry_at i (touched e w))
unfolding lookup_in
paged-set p n vpn i e w h =
    let (inside, same, here, valid) = paged-inv p n vpn i e h in
    rw (same, inside, get_elem?-set_self p vpn (touched e w) (lt_of_get_elem? p vpn here), valid)

lookup_in-touched :
    (t p : Option (List TranslationEntry)) (n vpn i : ℕ) (e : TranslationEntry) (w : Bool)
    → lookup_in t p n vpn ≡ some (entry_at i e)
    → lookup_in
        (Option.map (λ l. set l i (touched e w)) t)
        (Option.map (λ l. set l i (touched e w)) p)
        n
        vpn
      ≡ some (entry_at i (touched e w))
unfolding lookup_in
lookup_in-touched none none n vpn i e w h = cc
lookup_in-touched (some t) (some p) n vpn i e w h = cc
lookup_in-touched none (some p) n vpn i e w h = paged-set p n vpn i e w h
lookup_in-touched (some t) none n vpn i e w h =
    tlb_loop-set 4 0 t vpn i e w (lt_of_get_elem? t i (tlb_loop-inv 4 0 t vpn i e h).0) h

-- The page is found in the same entry after that entry is marked.
pub lookup-touched :
    (m : Machine) (vpn i : ℕ) (e : TranslationEntry) (w : Bool)
    → lookup m vpn ≡ some (entry_at i e)
    → lookup (store_entry m i (touched e w)) vpn ≡ some (entry_at i (touched e w))
unfolding lookup
lookup-touched m vpn i e w h = lookup_in-touched m.tlb m.page_table m.page_table_size vpn i e w h
