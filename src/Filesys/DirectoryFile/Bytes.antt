-- ===== src/Filesys/DirectoryFile/Bytes.antt =====
-- filesys/directory.cc: the bytes of a table give the table again.
use cmps.Prelude.{
  ℕ, zero, suc, ◌+◌, ◌*◌, ◌^◌, ◌<◌, ◌≡◌, ◌≢◌, refl, ap, ap₂, ◌∙◌, arith, Bool, true, false, not,
  List, [], ◌∷◌, length, drop, ◌==◌, if◌then◌else◌, ==_of_ne,
}
use cmps.Filesys.OpenFile.Bytes.{AreBytes}
use cmps.Filesys.Directory.{FileName, DirectoryEntry, Directory, copy_prefix}
use cmps.Filesys.DirectoryFile.{name_bytes, name_of, entry_bytes, table_bytes, table_of}

-- Characters of a name are bytes, and not NUL.
abbrev pub IsName : FileName → Type 0
IsName [] = Unit
IsName (c ∷ cs) = (c ≢ 0) × (c < 256) × IsName cs

abbrev pub IsTable : Directory → Type 0
IsTable [] = Unit
IsTable (e ∷ es) = (e.sector < 2 ^ 32) × IsName e.name × IsTable es

-- An entry with the part of its name that counts.
abbrev pub shortened : Directory → Directory
shortened [] = []
shortened (e ∷ es) = record e { name = copy_prefix 9 e.name } ∷ shortened es

drop_name :
    (n : ℕ) (name tail : List ℕ) (k m : ℕ)
    → m ≡ n + k
    → drop m (name_bytes n name tail) ≡ drop k tail
drop_name zero name tail k m e = let same : m ≡ k = omega (arith, e) in ap (λ l. drop l tail) same
drop_name (suc n) name tail k zero e = absurd (omega (arith, e))
drop_name (suc n) [] tail k (suc m) e = drop_name n [] tail k m (omega (arith, e))
drop_name (suc n) (c ∷ cs) tail k (suc m) e = drop_name n cs tail k m (omega (arith, e))

name_of-name_bytes :
    (n : ℕ) (name tail : List ℕ)
    → IsName name
    → name_of n (name_bytes n name tail) ≡ copy_prefix n name
unfolding copy_prefix
name_of-name_bytes zero name tail h = refl
name_of-name_bytes (suc n) [] tail h = refl
name_of-name_bytes (suc n) (c ∷ cs) tail h =
    rw (==_of_ne c 0 h.0) (ap (λ rest. c ∷ rest) (name_of-name_bytes n cs tail h.2))

length-name_bytes : (n : ℕ) (name tail : List ℕ) → length (name_bytes n name tail) ≡ n + length tail
length-name_bytes zero name tail = omega arith
length-name_bytes (suc n) [] tail = omega (arith, length-name_bytes n [] tail)
length-name_bytes (suc n) (c ∷ cs) tail = omega (arith, length-name_bytes n cs tail)

name_bytes-AreBytes :
    (n : ℕ) (name tail : List ℕ) → IsName name → AreBytes tail → AreBytes (name_bytes n name tail)
name_bytes-AreBytes zero name tail h small k = small k
name_bytes-AreBytes (suc n) [] tail h small zero = omega arith
name_bytes-AreBytes (suc n) [] tail h small (suc k) = name_bytes-AreBytes n [] tail h small k
name_bytes-AreBytes (suc n) (c ∷ cs) tail h small zero = h.1
name_bytes-AreBytes (suc n) (c ∷ cs) tail h small (suc k) =
    name_bytes-AreBytes n cs tail h.2 small k

flag : (u : Bool) → not ((if u then 1 else 0) == 0) ≡ u
flag true = refl
flag false = refl

flag-lt : (u : Bool) → (if u then 1 else 0) < 256
flag-lt true = omega arith
flag-lt false = omega arith

pub length-table_bytes :
    (pad : ℕ → ℕ → ℕ) (i : ℕ) (d : Directory) → length (table_bytes pad i d) ≡ length d * 20
length-table_bytes pad i [] = refl
length-table_bytes pad i (e ∷ es) = omega (
  arith,
  length-name_bytes 9 e.name (pad i 3 ∷ pad i 4 ∷ pad i 5 ∷ table_bytes pad (i + 1) es),
  length-table_bytes pad (i + 1) es,
)

pads-AreBytes :
    (pad : ℕ → ℕ) (tail : List ℕ)
    → ((k : ℕ) → pad k < 256)
    → AreBytes tail
    → AreBytes (pad 3 ∷ pad 4 ∷ pad 5 ∷ tail)
pads-AreBytes pad tail small rest zero = small 3
pads-AreBytes pad tail small rest (suc zero) = small 4
pads-AreBytes pad tail small rest (suc (suc zero)) = small 5
pads-AreBytes pad tail small rest (suc (suc (suc k))) = rest k

entry_bytes-AreBytes :
    (pad : ℕ → ℕ) (e : DirectoryEntry) (tail : List ℕ)
    → ((k : ℕ) → pad k < 256)
    → IsName e.name
    → AreBytes tail
    → AreBytes (entry_bytes pad e tail)
entry_bytes-AreBytes pad e tail small h rest zero = flag-lt e.in_use
entry_bytes-AreBytes pad e tail small h rest (suc zero) = small 0
entry_bytes-AreBytes pad e tail small h rest (suc (suc zero)) = small 1
entry_bytes-AreBytes pad e tail small h rest (suc (suc (suc zero))) = small 2
entry_bytes-AreBytes pad e tail small h rest (suc (suc (suc (suc zero)))) = omega arith
entry_bytes-AreBytes pad e tail small h rest (suc (suc (suc (suc (suc zero))))) = omega arith
entry_bytes-AreBytes pad e tail small h rest (suc (suc (suc (suc (suc (suc zero)))))) = omega arith
entry_bytes-AreBytes pad e tail small h rest (suc (suc (suc (suc (suc (suc (suc zero))))))) =
    omega arith
entry_bytes-AreBytes pad e tail small h rest (suc (suc (suc (suc (suc (suc (suc (suc k)))))))) =
    name_bytes-AreBytes 9 e.name (pad 3 ∷ pad 4 ∷ pad 5 ∷ tail) h
      (pads-AreBytes pad tail small rest) k

pub table_bytes-AreBytes :
    (pad : ℕ → ℕ → ℕ) (i : ℕ) (d : Directory)
    → ((j k : ℕ) → pad j k < 256)
    → IsTable d
    → AreBytes (table_bytes pad i d)
table_bytes-AreBytes pad i [] small h k = omega arith
table_bytes-AreBytes pad i (e ∷ es) small h k =
    entry_bytes-AreBytes (pad i) e (table_bytes pad (i + 1) es) (small i) h.1
      (table_bytes-AreBytes pad (i + 1) es small h.2) k

DirectoryEntry-ext :
    {u v : Bool} {a b : ℕ} {x y : FileName}
    → u ≡ v
    → a ≡ b
    → x ≡ y
    → ◌≡◌ {A = DirectoryEntry}
        (record { in_use = u; sector = a; name = x })
        (record { in_use = v; sector = b; name = y })
DirectoryEntry-ext e f g = rw (e, f, g) refl

pub table_of-table_bytes :
    (pad : ℕ → ℕ → ℕ) (i : ℕ) (d : Directory)
    → IsTable d
    → table_of (length d) (table_bytes pad i d) ≡ shortened d
table_of-table_bytes pad i [] h = refl
table_of-table_bytes pad i (e ∷ es) h =
    ap₂ (λ x xs. x ∷ xs)
      (DirectoryEntry-ext (flag e.in_use) (omega (arith, h.0)) (name_of-name_bytes 9 e.name _ h.1))
      (ap (λ bs. table_of (length es) bs)
          (drop_name 9 e.name (pad i 3 ∷ pad i 4 ∷ pad i 5 ∷ table_bytes pad (i + 1) es) 3 12 refl)
        ∙ table_of-table_bytes pad (i + 1) es h.2)
