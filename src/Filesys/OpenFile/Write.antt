-- ===== src/Filesys/OpenFile/Write.antt =====
-- filesys/openfile.cc: what `WriteAt` writes, sector by sector.
use cmps.Prelude.{
  ℕ, zero, suc, ◌+◌, ◌-◌, ◌*◌, ◌/◌, ◌≤◌, ◌<◌, ◌≡◌, ◌≢◌, ◌⊎◌, inl, inr, refl, arith, ap, ◌∙◌, sym,
}
use cmps.Prelude.{
  List, some, length, take, drop, ltb, ◌==◌, if◌then◌else◌, Bool-cases, ==_of_eq, ==_of_ne, lt→ltb,
}
use cmps.Filesys.FileHeader.{FileHeader, Disk, write_sector, num_disk_sectors}
use cmps.Filesys.OpenFile.{words_of, write_sectors}
use cmps.Filesys.OpenFile.Bytes.{
  byte_at, AreBytes, length-words_of, bytes_of-words_of, slice-AreBytes, slice-eq, length-slice,
  byte_at-slice,
}
use cmps.Filesys.OpenFile.Read.{AgreeOutside, IsFile, file_byte, file_byte-eq}

-- The disk with one sector replaced.
abbrev pub replaced : Disk → ℕ → List ℕ → Disk
replaced d sector words s = if sector == s then words else d s

pub write_sector-eq :
    (d : Disk) (s : ℕ) (words : List ℕ)
    → s < num_disk_sectors
    → write_sector d s words ≡ some (replaced d s words)
unfolding write_sector
write_sector-eq d s words lt = rw (lt→ltb _ _ lt) refl

AgreeOutside-replaced :
    (n : ℕ) (block : ℕ → ℕ) (d : Disk) (i : ℕ) (words : List ℕ)
    → i < n
    → AgreeOutside n block d (replaced d (block i) words)
AgreeOutside-replaced n block d i words lt s out = rw (==_of_ne (block i) s (out i lt)) refl

AgreeOutside-trans :
    (n : ℕ) (block : ℕ → ℕ) (d d1 d2 : Disk)
    → AgreeOutside n block d d1
    → AgreeOutside n block d1 d2
    → AgreeOutside n block d d2
AgreeOutside-trans n block d d1 d2 h h' s out = h' s out ∙ h s out

pub IsFile-agree :
    (hdr : FileHeader) (d d' : Disk) (block : ℕ → ℕ)
    → IsFile hdr d block
    → AgreeOutside hdr.num_sectors block d d'
    → ((s : ℕ) → length (d' s) ≡ 64)
    → IsFile hdr d' block
IsFile-agree hdr d d' block f same words = record {
  sized = f.sized;
  sector_words = words;
  on_disk = f.on_disk;
  distinct = f.distinct;
  found = λ d'' same' words' i lt.
      f.found d'' (AgreeOutside-trans hdr.num_sectors block d d' d'' same same') words' i lt;
}

-- The disk after `n` rounds of the loop of `WriteAt`.
pub record Stored (hdr : FileHeader) (block : ℕ → ℕ) (first : ℕ) (buf : List ℕ) (n i : ℕ) (d : Disk)
    : Type 0 where
  pub after : Disk
  pub result : write_sectors hdr first buf n i d ≡ some after
  pub agree : AgreeOutside hdr.num_sectors block d after
  pub words : (s : ℕ) → length (after s) ≡ 64
  pub stored :
      (p : ℕ)
      → i * 256 ≤ p
      → p < (i + n) * 256
      → file_byte block after p ≡ byte_at buf (p - first * 256)
  pub kept :
      (p : ℕ)
      → p < hdr.num_sectors * 256
      → (p < i * 256) ⊎ ((i + n) * 256 ≤ p)
      → file_byte block after p ≡ file_byte block d p

module _ (hdr : FileHeader) (block : ℕ → ℕ) (first : ℕ) (buf : List ℕ) (n i : ℕ) (d : Disk)
    (f : IsFile hdr d block) (small : AreBytes buf) (le : first ≤ i)
    (inside : i + suc n ≤ hdr.num_sectors) (fits : (i - first + suc n) * 256 ≤ length buf) where
  abbrev part : List ℕ
  part = take 256 (drop ((i - first) * 256) buf)

  abbrev d1 : Disk
  d1 = replaced d (block i) (words_of part)

  length-part : length part ≡ 4 * 64
  length-part = omega (arith, length-slice buf ((i - first) * 256) 256 (omega arith))

  write_sectors-suc :
      write_sectors hdr first buf (suc n) i d ≡ write_sectors hdr first buf n (i + 1) d1
  unfolding write_sectors
  write_sectors-suc =
      rw
        (
          f.found d (λ s h. refl) f.sector_words i (omega arith),
          slice-eq buf ((i - first) * 256) 256 (omega arith),
          write_sector-eq d (block i) (words_of part) (f.on_disk i (omega arith)),
        )
        refl

  one_words : (s : ℕ) → length (d1 s) ≡ 64
  one_words s = elim (Bool-cases (block i == s)) [
    | inl e ↦ rw e (length-words_of 64 part length-part)
    | inr e ↦ rw e (f.sector_words s)
  ]

  one_agree : AgreeOutside hdr.num_sectors block d d1
  one_agree = AgreeOutside-replaced hdr.num_sectors block d i (words_of part) (omega arith)

  pub one-IsFile : IsFile hdr d1 block
  one-IsFile = IsFile-agree hdr d d1 block f one_agree one_words

  one_stored :
      (p : ℕ)
      → i * 256 ≤ p
      → p < (i + 1) * 256
      → file_byte block d1 p ≡ byte_at buf (p - first * 256)
  one_stored p low high =
      sym (file_byte-eq block d1 i (p - i * 256) p (omega arith) (omega arith))
      ∙ rw (==_of_eq (block i) (block i) refl) (
          bytes_of-words_of 64 part length-part
            (slice-AreBytes buf ((i - first) * 256) 256 small (omega arith)) (p - i * 256))
      ∙ byte_at-slice buf ((i - first) * 256) 256 (p - i * 256) (omega arith)
      ∙ ap (λ k. byte_at buf k) {x = (i - first) * 256 + (p - i * 256)} {y = p - first * 256}
          (omega arith)

  one_kept :
      (p : ℕ)
      → p < hdr.num_sectors * 256
      → (p < i * 256) ⊎ ((i + 1) * 256 ≤ p)
      → file_byte block d1 p ≡ file_byte block d p
  one_kept p lt away = rw (==_of_ne (block i) (block (p / 256)) other) refl
    where
      other : block i ≢ block (p / 256)
      other e = elim away [
        | inl h ↦ omega (arith, f.distinct i (p / 256) (omega arith) (omega arith) e, h)
        | inr h ↦ omega (arith, f.distinct i (p / 256) (omega arith) (omega arith) e, h)
      ]

  Stored-suc : Stored hdr block first buf n (i + 1) d1 → Stored hdr block first buf (suc n) i d
  Stored-suc rest = record {
    after = rest.after;
    result = write_sectors-suc ∙ rest.result;
    agree = AgreeOutside-trans hdr.num_sectors block d d1 rest.after one_agree rest.agree;
    words = rest.words;
    stored = λ p low high. elim (Bool-cases (ltb p ((i + 1) * 256))) [
      | inl here ↦ rest.kept p (omega arith) (inl (ground arith)) ∙ one_stored p low (ground arith)
      | inr there ↦ rest.stored p (ground arith) (omega arith)
    ];
    kept = λ p lt away. elim away [
      | inl h ↦ rest.kept p lt (inl (omega arith)) ∙ one_kept p lt (inl h)
      | inr h ↦ rest.kept p lt (inr (omega arith)) ∙ one_kept p lt (inr (omega arith))
    ];
  }

pub store :
    (hdr : FileHeader) (block : ℕ → ℕ) (first : ℕ) (buf : List ℕ) (n i : ℕ) (d : Disk)
    → IsFile hdr d block
    → AreBytes buf
    → first ≤ i
    → i + n ≤ hdr.num_sectors
    → (i - first + n) * 256 ≤ length buf
    → Stored hdr block first buf n i d
unfolding write_sectors
store hdr block first buf zero i d f small le inside fits = record {
  after = d;
  result = refl;
  agree = λ s h. refl;
  words = f.sector_words;
  stored = λ p h h'. absurd (omega arith);
  kept = λ p lt away. refl;
}
store hdr block first buf (suc n) i d f small le inside fits =
    Stored-suc hdr block first buf n i d f small le inside fits (
      store hdr block first buf n (i + 1) (d1 hdr block first buf n i d f small le inside fits)
        (one-IsFile hdr block first buf n i d f small le inside fits) small (omega arith)
        (omega arith) (omega arith))
