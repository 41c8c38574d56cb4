-- ===== src/Filesys/OpenFile/Fill.antt =====
-- filesys/openfile.cc: the buffer that `WriteAt` writes to the disk, in which the first and the last
-- sector have been read when they are written only in part.
use cmps.Prelude.{
  ℕ, ◌+◌, ◌-◌, ◌*◌, ◌/◌, ◌%◌, ◌≤◌, ◌<◌, ◌≡◌, ◌≢◌, ◌⊎◌, inl, inr, refl, arith, ap, ◌∙◌, min, Bool,
  not, ◌&&◌, ◌||◌,
}
use cmps.Prelude.{List, some, length, ltb, ◌==◌, if◌then◌else◌, Bool-cases, ltb→lt, le_of_not_ltb}
use cmps.Filesys.FileHeader.{FileHeader, Disk}
use cmps.Filesys.OpenFile.{copy_bytes, read_at, fill}
use cmps.Filesys.OpenFile.Bytes.{
  byte_at, AreBytes, bytes_of-AreBytes, byte_at_past, length-copy_bytes, byte_at-copy_bytes,
  byte_at-copy_bytes_outside, copy_bytes-AreBytes, copy_into-eq,
}
use cmps.Filesys.OpenFile.Read.{IsFresh, IsFile, IsRead, file_byte, read_at_lem}

-- A buffer for the sectors of a file from number `first` on, and one in which a sector was read.
pub record IsBuffer (size : ℕ) (buf : List ℕ) : Type 0 where
  pub full : length buf ≡ size
  pub small : AreBytes buf

pub record Filled (fresh : ℕ → List ℕ) (hdr : FileHeader) (d : Disk) (block : ℕ → ℕ)
    (first i size : ℕ) (buf : List ℕ) : Type 0 where
  pub after : List ℕ
  pub result : fill fresh hdr d first i buf ≡ some after
  pub buffer : IsBuffer size after
  pub filled :
      (x : ℕ)
      → (i - first) * 256 ≤ x
      → x < (i - first) * 256 + 256
      → first * 256 + x < hdr.num_bytes
      → byte_at after x ≡ file_byte block d (first * 256 + x)
  pub kept :
      (x : ℕ)
      → (x < (i - first) * 256) ⊎ ((i - first) * 256 + 256 ≤ x)
      → byte_at after x ≡ byte_at buf x

IsRead-AreBytes :
    (block : ℕ → ℕ) (d : Disk) (position n : ℕ) (bytes : List ℕ)
    → IsRead block d position n bytes
    → AreBytes bytes
IsRead-AreBytes block d position n bytes r k = elim (Bool-cases (ltb k n)) [
  | inl low ↦ omega (
    arith,
    r.content k (ltb→lt _ _ low),
    bytes_of-AreBytes (d (block ((position + k) / 256))) ((position + k) % 256),
  )
  | inr high ↦ omega (arith, byte_at_past bytes k (omega (arith, r.count, le_of_not_ltb _ _ high)))
]

module _ (fresh : ℕ → List ℕ) (hdr : FileHeader) (d : Disk) (block : ℕ → ℕ) (first : ℕ) where
  fill-eq :
      (i : ℕ) (buf bytes : List ℕ)
      → read_at fresh hdr d 256 (i * 256) ≡ some bytes
      → (i - first) * 256 + length bytes ≤ length buf
      → fill fresh hdr d first i buf ≡ some (copy_bytes bytes ((i - first) * 256) buf)
  unfolding fill
  fill-eq i buf bytes got fits = rw (got, copy_into-eq bytes ((i - first) * 256) buf fits) refl

  pub fill_lem :
      (i size : ℕ) (buf : List ℕ)
      → IsFresh fresh
      → IsFile hdr d block
      → first ≤ i
      → (i - first) * 256 + 256 ≤ size
      → IsBuffer size buf
      → Filled fresh hdr d block first i size buf
  fill_lem i size buf new f le inside b = from (read_at_lem fresh hdr d block 256 (i * 256) new f)
    where
      from :
          (bytes : List ℕ) × (read_at fresh hdr d 256 (i * 256) ≡ some bytes)
            × IsRead block d (i * 256) (min 256 (hdr.num_bytes - i * 256)) bytes
          → Filled fresh hdr d block first i size buf
      from (bytes, got, r) = record {
        after = copy_bytes bytes ((i - first) * 256) buf;
        result = fill-eq i buf bytes got (omega (arith, r.count, b.full));
        buffer = record {
          full = length-copy_bytes bytes ((i - first) * 256) buf ∙ b.full;
          small =
              copy_bytes-AreBytes bytes ((i - first) * 256) buf
                (IsRead-AreBytes block d (i * 256) (min 256 (hdr.num_bytes - i * 256)) bytes r)
                b.small (omega (arith, r.count, b.full));
        };
        filled = λ x low high short.
            ap (λ u. byte_at (copy_bytes bytes ((i - first) * 256) buf) u) {x = x}
              {y = (i - first) * 256 + (x - (i - first) * 256)} (omega arith)
            ∙ byte_at-copy_bytes bytes ((i - first) * 256) buf (x - (i - first) * 256)
                (omega (arith, r.count, b.full)) (omega (arith, r.count))
            ∙ r.content (x - (i - first) * 256) (omega arith)
            ∙ ap (λ p. file_byte block d p) {x = i * 256 + (x - (i - first) * 256)}
                {y = first * 256 + x} (omega arith);
        kept = λ x away.
            byte_at-copy_bytes_outside bytes ((i - first) * 256) buf x
              (omega (arith, r.count, b.full))
              (elim away [ inl h ↦ inl h | inr h ↦ inr (omega (arith, r.count)) ]);
      }

-- The buffer with the first sector, and then with the last one.
module _ (fresh : ℕ → List ℕ) (hdr : FileHeader) (d : Disk) (block : ℕ → ℕ) (n position : ℕ)
    (new : IsFresh fresh) (f : IsFile hdr d block) (some_asked : 0 < n)
    (inside : position + n ≤ hdr.num_bytes) where
  abbrev first : ℕ
  first = position / 256

  abbrev last : ℕ
  last = (position + n - 1) / 256

  abbrev size : ℕ
  size = (1 + last - first) * 256

  abbrev first_aligned : Bool
  first_aligned = position == first * 256

  abbrev last_aligned : Bool
  last_aligned = position + n == (last + 1) * 256

  pub record HasFirst (buf : List ℕ) : Type 0 where
    pub after : List ℕ
    pub result :
        (if not first_aligned then fill fresh hdr d first first buf else some buf) ≡ some after
    pub buffer : IsBuffer size after
    pub head :
        (x : ℕ)
        → position ≢ first * 256
        → x < 256
        → first * 256 + x < hdr.num_bytes
        → byte_at after x ≡ file_byte block d (first * 256 + x)

  pub with_first : (buf : List ℕ) → IsBuffer size buf → HasFirst buf
  with_first buf b = elim (Bool-cases first_aligned) [
    | inl aligned ↦ record {
      after = buf;
      result = rw aligned refl;
      buffer = b;
      head = λ x off h h'. absurd (ground arith);
    }
    | inr unaligned ↦ record {
      after = read.after;
      result = rw unaligned read.result;
      buffer = read.buffer;
      head = λ x off h h'. read.filled x (omega arith) (omega arith) h';
    }
  ]
    where
      read : Filled fresh hdr d block first first size buf
      read = fill_lem fresh hdr d block first first size buf new f (omega arith) (omega arith) b

  -- The bytes of the buffer around those to be written are those of the file.
  pub record HasBoth (buf : List ℕ) : Type 0 where
    pub after : List ℕ
    pub result :
        (if not last_aligned && (not (first == last) || first_aligned)
          then fill fresh hdr d first last buf
          else some buf)
        ≡ some after
    pub buffer : IsBuffer size after
    pub around :
        (x : ℕ)
        → x < size
        → first * 256 + x < hdr.num_bytes
        → (first * 256 + x < position) ⊎ (position + n ≤ first * 256 + x)
        → byte_at after x ≡ file_byte block d (first * 256 + x)

  abbrev reads_last : Bool
  reads_last = not last_aligned && (not (first == last) || first_aligned)

  pub with_last : (buf : List ℕ) (h : HasFirst buf) → HasBoth h.after
  with_last buf h = elim (Bool-cases reads_last) [
    | inl reads ↦ record {
      after = read.after;
      result = rw reads read.result;
      buffer = read.buffer;
      around = λ x lt short out. elim (Bool-cases (ltb x ((last - first) * 256))) [
        | inl low ↦
            read.kept x (inl (ltb→lt _ _ low)) ∙ h.head x (ground arith) (ground arith) short
        | inr high ↦ read.filled x (le_of_not_ltb _ _ high) (omega arith) short
      ];
    }
    | inr skips ↦ record {
      after = h.after;
      result = rw skips refl;
      buffer = h.buffer;
      around = λ x lt short out. h.head x (ground arith) (ground arith) short;
    }
  ]
    where
      read : Filled fresh hdr d block first last size h.after
      read =
          fill_lem fresh hdr d block first last size h.after new f (omega arith) (omega arith)
            h.buffer
