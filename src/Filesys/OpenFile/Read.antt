-- ===== src/Filesys/OpenFile/Read.antt =====
-- filesys/openfile.cc: what `ReadAt` reads.
use cmps.Prelude.{
  ℕ, zero, suc, ◌+◌, ◌-◌, ◌*◌, ◌/◌, ◌%◌, ◌≤◌, ◌<◌, ◌≡◌, ◌≢◌, inl, inr, refl, arith, ap, ◌∙◌, min,
}
use cmps.Prelude.{
  List, [], some, length, take, drop, ltb, ◌==◌, if◌then◌else◌, ◌>>=◌, Bool-cases, ==_of_ne,
}
use cmps.Filesys.FileHeader.{FileHeader, Disk, byte_to_sector, num_disk_sectors}
use cmps.Filesys.FileHeader.Sectors.{read_sector-eq}
use cmps.Filesys.OpenFile.{bytes_of, copy_bytes, slice, file_length, clamp, read_sectors, read_at}
use cmps.Filesys.OpenFile.Bytes.{
  byte_at, length-bytes_of, length-copy_bytes, byte_at-copy_bytes, byte_at-copy_bytes_outside,
  copy_into-eq, slice-eq, length-slice, byte_at-slice,
}

-- Two disks that differ at most in the first `n` blocks of a file.
abbrev pub AgreeOutside : ℕ → (ℕ → ℕ) → Disk → Disk → Type 0
AgreeOutside n block d d' = (s : ℕ) → ((i : ℕ) → i < n → block i ≢ s) → d' s ≡ d s

-- The data blocks of a file are the different sectors `block i`, and stay so when they are written.
pub record IsFile (hdr : FileHeader) (d : Disk) (block : ℕ → ℕ) : Type 0 where
  pub sized : hdr.num_bytes ≤ hdr.num_sectors * 256
  pub sector_words : (s : ℕ) → length (d s) ≡ 64
  pub on_disk : (i : ℕ) → i < hdr.num_sectors → block i < num_disk_sectors
  pub distinct : (i j : ℕ) → i < hdr.num_sectors → j < hdr.num_sectors → block i ≡ block j → i ≡ j
  pub found :
      (d' : Disk)
      → AgreeOutside hdr.num_sectors block d d'
      → ((s : ℕ) → length (d' s) ≡ 64)
      → (i : ℕ) → i < hdr.num_sectors
      → byte_to_sector hdr d' (i * 256) ≡ some (block i)

-- The byte of the file at a position.
abbrev pub file_byte : (ℕ → ℕ) → Disk → ℕ → ℕ
file_byte block d p = byte_at (bytes_of (d (block (p / 256)))) (p % 256)

pub length-sector :
    (hdr : FileHeader) (d : Disk) (block : ℕ → ℕ) (s : ℕ)
    → IsFile hdr d block
    → length (bytes_of (d s)) ≡ 256
length-sector hdr d block s f = omega (arith, length-bytes_of (d s), f.sector_words s)

-- The buffer after `n` rounds of the loop of `ReadAt`.
record Loaded (hdr : FileHeader) (d : Disk) (block : ℕ → ℕ) (first n i : ℕ) (buf : List ℕ)
    : Type 0 where
  after : List ℕ
  result : read_sectors hdr d first n i buf ≡ some after
  same_length : length after ≡ length buf
  kept : (x : ℕ) → x < (i - first) * 256 → byte_at after x ≡ byte_at buf x
  loaded :
      (x : ℕ)
      → (i - first) * 256 ≤ x
      → x < (i - first + n) * 256
      → byte_at after x ≡ file_byte block d (first * 256 + x)

read_sectors-suc :
    (hdr : FileHeader) (d : Disk) (block : ℕ → ℕ) (first n i : ℕ) (buf : List ℕ)
    → IsFile hdr d block
    → i < hdr.num_sectors
    → (i - first) * 256 + 256 ≤ length buf
    → read_sectors hdr d first (suc n) i buf
      ≡ read_sectors hdr d first n
          (i + 1)
          (copy_bytes (bytes_of (d (block i))) ((i - first) * 256) buf)
unfolding read_sectors
read_sectors-suc hdr d block first n i buf f lt fits =
    rw
      (
        f.found d (λ s h. refl) f.sector_words i lt,
        read_sector-eq d (block i) (f.on_disk i lt),
        copy_into-eq (bytes_of (d (block i))) ((i - first) * 256) buf
            (omega (arith, length-sector hdr d block (block i) f, fits)),
      )
      refl

pub file_byte-eq :
    (block : ℕ → ℕ) (d : Disk) (i j p : ℕ)
    → p ≡ i * 256 + j
    → j < 256
    → byte_at (bytes_of (d (block i))) j ≡ file_byte block d p
file_byte-eq block d i j p e lt =
    ap (λ u. byte_at (bytes_of (d (block u))) j) {x = i} {y = p / 256} (omega arith)
    ∙ ap (λ u. byte_at (bytes_of (d (block (p / 256)))) u) {x = j} {y = p % 256} (omega arith)

module _ (hdr : FileHeader) (d : Disk) (block : ℕ → ℕ) (first n i : ℕ) (buf : List ℕ)
    (f : IsFile hdr d block) (le : first ≤ i) (inside : i + suc n ≤ hdr.num_sectors)
    (fits : (i - first + suc n) * 256 ≤ length buf) where
  abbrev bytes : List ℕ
  bytes = bytes_of (d (block i))

  abbrev off : ℕ
  off = (i - first) * 256

  size : length bytes ≡ 256
  size = length-sector hdr d block (block i) f

  room : off + length bytes ≤ length buf
  room = omega (arith, size)

  first_sector :
      (rest : Loaded hdr d block first n (i + 1) (copy_bytes bytes off buf)) (x : ℕ)
      → off ≤ x
      → x < off + 256
      → byte_at rest.after x ≡ file_byte block d (first * 256 + x)
  first_sector rest x low high =
      rest.kept x (omega arith)
      ∙ ap (λ u. byte_at (copy_bytes bytes off buf) u) {x = x} {y = off + (x - off)} (omega arith)
      ∙ byte_at-copy_bytes bytes off buf (x - off) room (omega (arith, size))
      ∙ file_byte-eq block d i (x - off) (first * 256 + x) (omega arith) (omega arith)

  Loaded-suc :
      Loaded hdr d block first n (i + 1) (copy_bytes bytes off buf)
      → Loaded hdr d block first (suc n) i buf
  Loaded-suc rest = record {
    after = rest.after;
    result = read_sectors-suc hdr d block first n i buf f (omega arith) (omega arith) ∙ rest.result;
    same_length = rest.same_length ∙ length-copy_bytes bytes off buf;
    kept =
        λ x h. rest.kept x (omega arith) ∙ byte_at-copy_bytes_outside bytes off buf x room (inl h);
    loaded = λ x h h'. elim (Bool-cases (ltb x (off + 256))) [
      | inl low ↦ first_sector rest x h (ground arith)
      | inr high ↦ rest.loaded x (ground arith) (omega arith)
    ];
  }

load :
    (hdr : FileHeader) (d : Disk) (block : ℕ → ℕ) (first n i : ℕ) (buf : List ℕ)
    → IsFile hdr d block
    → first ≤ i
    → i + n ≤ hdr.num_sectors
    → (i - first + n) * 256 ≤ length buf
    → Loaded hdr d block first n i buf
unfolding read_sectors
load hdr d block first zero i buf f le inside fits = record {
  after = buf;
  result = refl;
  same_length = refl;
  kept = λ x h. refl;
  loaded = λ x h h'. absurd (omega arith);
}
load hdr d block first (suc n) i buf f le inside fits =
    Loaded-suc hdr d block first n i buf f le inside fits (
      load hdr d block first n (i + 1) (copy_bytes (bytes_of (d (block i))) ((i - first) * 256) buf)
        f (omega arith) (omega arith)
        (omega (arith, length-copy_bytes (bytes_of (d (block i))) ((i - first) * 256) buf)))

-- A new buffer has the size asked for.
abbrev pub IsFresh : (ℕ → List ℕ) → Type 0
IsFresh fresh = (n : ℕ) → length (fresh n) ≡ n

pub clamp-min :
    (hdr : FileHeader) (num_bytes position : ℕ)
    → clamp hdr num_bytes position ≡ min num_bytes (hdr.num_bytes - position)
unfolding clamp file_length
clamp-min hdr num_bytes position = ground arith

-- What `ReadAt` gives for the `n` bytes that the file has of those asked for.
pub record IsRead (block : ℕ → ℕ) (d : Disk) (position n : ℕ) (bytes : List ℕ) : Type 0 where
  pub count : length bytes ≡ n
  pub content : (j : ℕ) → j < n → byte_at bytes j ≡ file_byte block d (position + j)

IsRead-part :
    (fresh : ℕ → List ℕ) (hdr : FileHeader) (d : Disk) (block : ℕ → ℕ) (n position : ℕ)
    → IsFresh fresh
    → IsFile hdr d block
    → 0 < n
    → position + n ≤ hdr.num_bytes
    → let first = position / 256 in
      let count = 1 + (position + n - 1) / 256 - first in
      (bytes : List ℕ) × ((do
        buf ← read_sectors hdr d first count first (fresh (count * 256))
        slice buf (position - first * 256) n)
        ≡ some bytes)
      × IsRead block d position n bytes
IsRead-part fresh hdr d block n position new f some_asked inside = (
  take n (drop (position - first * 256) buf.after),
  rw (buf.result, slice-eq buf.after (position - first * 256) n fits) refl,
  record {
    count = length-slice buf.after (position - first * 256) n fits;
    content = λ j lt.
        byte_at-slice buf.after (position - first * 256) n j lt
        ∙ buf.loaded (position - first * 256 + j) (omega arith) (omega arith)
        ∙ ap (λ p. file_byte block d p) {x = first * 256 + (position - first * 256 + j)}
            {y = position + j} (omega arith);
  },
)
  where
    first : ℕ
    first = position / 256

    count : ℕ
    count = 1 + (position + n - 1) / 256 - first

    buf : Loaded hdr d block first count first (fresh (count * 256))
    buf =
        load hdr d block first count first (fresh (count * 256)) f (omega arith)
          (omega (arith, f.sized)) (omega (arith, new (count * 256)))

    fits : position - first * 256 + n ≤ length buf.after
    fits = omega (arith, buf.same_length, new (count * 256))

-- For a file whose sectors are on the disk, reading any number of bytes at any position succeeds and
-- gives the bytes that stand in the file from there on: as many as asked for, or up to the end of the
-- file, or none at or past the end.
pub read_at_lem :
    (fresh : ℕ → List ℕ) (hdr : FileHeader) (d : Disk) (block : ℕ → ℕ) (num_bytes position : ℕ)
    → IsFresh fresh
    → IsFile hdr d block
    → (bytes : List ℕ) × (read_at fresh hdr d num_bytes position ≡ some bytes)
      × IsRead block d position (min num_bytes (hdr.num_bytes - position)) bytes
unfolding read_at
read_at_lem fresh hdr d block num_bytes position new f =
    rw (clamp-min hdr num_bytes position) (answer (min num_bytes (hdr.num_bytes - position)) refl)
  where
    answer :
        (n : ℕ)
        → min num_bytes (hdr.num_bytes - position) ≡ n
        → (bytes : List ℕ) × ((if n == 0 then some [] else (do
          buf ←
              read_sectors hdr d
                (position / 256)
                (1 + (position + n - 1) / 256 - position / 256)
                (position / 256)
                (fresh ((1 + (position + n - 1) / 256 - position / 256) * 256))
          slice buf (position - position / 256 * 256) n))
            ≡ some bytes)
          × IsRead block d position n bytes
    answer zero e = ([], refl, record { count = refl; content = λ j lt. absurd (omega arith) })
    answer (suc n) e =
        rw (==_of_ne (suc n) 0 (omega arith))
          (IsRead-part fresh hdr d block (suc n) position new f (omega arith) (omega arith))
