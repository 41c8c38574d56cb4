-- ===== src/Filesys/OpenFile/Update.antt =====
-- filesys/openfile.cc: `WriteAt` as an update of the bytes of the file.
use cmps.Prelude.{
  ℕ, zero, suc, ◌+◌, ◌-◌, ◌*◌, ◌/◌, ◌≤◌, ◌<◌, ◌≡◌, ◌⊎◌, inl, inr, refl, arith, ap, ◌∙◌, min, not,
  ◌&&◌, ◌||◌,
}
use cmps.Prelude.{
  List, Option, some, length, take, drop, ltb, ◌==◌, if◌then◌else◌, ◌>>=◌, Bool-cases, ==_of_ne,
  ltb→lt, le_of_not_ltb,
}
use cmps.Filesys.FileHeader.{FileHeader, Disk}
use cmps.Filesys.OpenFile.{copy_bytes, copy_into, slice, write_at, fill, write_sectors}
use cmps.Filesys.OpenFile.Bytes.{
  byte_at, AreBytes, length-copy_bytes, byte_at-copy_bytes, byte_at-copy_bytes_outside,
  copy_bytes-AreBytes, copy_into-eq, slice-eq, length-slice, byte_at-slice, slice-AreBytes,
}
use cmps.Filesys.OpenFile.Read.{AgreeOutside, IsFresh, IsFile, file_byte, clamp-min}
use cmps.Filesys.OpenFile.Write.{IsFile-agree, Stored, store}
use cmps.Filesys.OpenFile.Fill.{HasFirst, HasBoth, with_first, with_last}

-- What writing the first `n` bytes of `from` at a position makes of the disk.
pub record IsWritten (hdr : FileHeader) (block : ℕ → ℕ) (from : List ℕ) (position n : ℕ)
    (d d' : Disk) : Type 0 where
  pub still_file : IsFile hdr d' block
  pub agree : AgreeOutside hdr.num_sectors block d d'
  pub written : (j : ℕ) → j < n → file_byte block d' (position + j) ≡ byte_at from j
  pub kept :
      (p : ℕ)
      → p < hdr.num_bytes
      → (p < position) ⊎ (position + n ≤ p)
      → file_byte block d' p ≡ file_byte block d p

module _ (fresh : ℕ → List ℕ) (hdr : FileHeader) (d : Disk) (block : ℕ → ℕ) (from : List ℕ)
    (n position : ℕ) (new : IsFresh fresh) (new_small : (m : ℕ) → AreBytes (fresh m))
    (f : IsFile hdr d block) (small : AreBytes from) (enough : n ≤ length from) (some_asked : 0 < n)
    (inside : position + n ≤ hdr.num_bytes) where
  abbrev first : ℕ
  first = position / 256

  abbrev last : ℕ
  last = (position + n - 1) / 256

  abbrev count : ℕ
  count = 1 + last - first

  abbrev buf0 : List ℕ
  buf0 = fresh (count * 256)

  begun : HasFirst fresh hdr d block n position new f some_asked inside buf0
  begun =
      with_first fresh hdr d block n position new f some_asked inside buf0
        (record { full = new (count * 256); small = new_small (count * 256) })

  ready : HasBoth fresh hdr d block n position new f some_asked inside begun.after
  ready = with_last fresh hdr d block n position new f some_asked inside buf0 begun

  abbrev off : ℕ
  off = position - first * 256

  abbrev bytes : List ℕ
  bytes = take n (drop 0 from)

  length-bytes : length bytes ≡ n
  length-bytes = length-slice from 0 n (omega arith)

  abbrev buf3 : List ℕ
  buf3 = copy_bytes bytes off ready.after

  room : off + length bytes ≤ length ready.after
  room = omega (arith, length-bytes, ready.buffer.full)

  done : Stored hdr block first buf3 count first d
  done =
      store hdr block first buf3 count first d f
        (copy_bytes-AreBytes bytes off ready.after (slice-AreBytes from 0 n small (omega arith))
          ready.buffer.small room)
        (omega arith) (omega (arith, f.sized))
        (omega (arith, length-copy_bytes bytes off ready.after, ready.buffer.full))

  body :
      ◌≡◌ {A = Option (ℕ × Disk)}
        (do
          buf1 ←
              (if not (position == first * 256)
                then fill fresh hdr d first first buf0
                else some buf0)
          buf2 ←
              (if not (position + n == (last + 1) * 256)
                  && (not (first == last) || position == first * 256)
                then fill fresh hdr d first last buf1
                else some buf1)
          bytes' ← slice from 0 n
          buf' ← copy_into bytes' off buf2
          d' ← write_sectors hdr first buf' count first d
          some (n, d'))
        (some (n, done.after))
  body =
      rw
        (
          begun.result,
          ready.result,
          slice-eq from 0 n (omega arith),
          copy_into-eq bytes off ready.after room,
          done.result,
        )
        refl

  new_byte : (j : ℕ) → j < n → byte_at buf3 (off + j) ≡ byte_at from j
  new_byte j lt =
      byte_at-copy_bytes bytes off ready.after j room (omega (arith, length-bytes))
      ∙ byte_at-slice from 0 n j lt
      ∙ ap (λ k. byte_at from k) {x = 0 + j} {y = j} (omega arith)

  old_byte :
      (p : ℕ)
      → first * 256 ≤ p
      → p < (first + count) * 256
      → p < hdr.num_bytes
      → (p < position) ⊎ (position + n ≤ p)
      → byte_at buf3 (p - first * 256) ≡ file_byte block d p
  old_byte p low high short out =
      byte_at-copy_bytes_outside bytes off ready.after (p - first * 256) room
        (omega (arith, length-bytes))
      ∙ ready.around (p - first * 256) (omega arith) (omega arith) (omega arith)
      ∙ ap (λ q. file_byte block d q) {x = first * 256 + (p - first * 256)} {y = p} (omega arith)

  IsWritten-done : IsWritten hdr block from position n d done.after
  IsWritten-done = record {
    still_file = IsFile-agree hdr d done.after block f done.agree done.words;
    agree = done.agree;
    written = λ j lt.
        done.stored (position + j) (omega arith) (omega arith)
        ∙ ap (λ k. byte_at buf3 k) {x = position + j - first * 256} {y = off + j} (omega arith)
        ∙ new_byte j lt;
    kept = λ p short out. elim (Bool-cases (ltb p (first * 256))) [
      | inl below ↦ done.kept p (omega (arith, f.sized)) (inl (ltb→lt _ _ below))
      | inr above ↦ elim (Bool-cases (ltb p ((first + count) * 256))) [
        | inl within ↦
            done.stored p (le_of_not_ltb _ _ above) (ltb→lt _ _ within)
            ∙ old_byte p (le_of_not_ltb _ _ above) (ltb→lt _ _ within) short out
        | inr beyond ↦ done.kept p (omega (arith, f.sized)) (inr (le_of_not_ltb _ _ beyond))
      ]
    ];
  }

-- For a file whose data blocks are different sectors of the disk, writing bytes at any position
-- succeeds, and returns how many of them the file has room for. These bytes of the file are then
-- those written, every other byte of the file is as before, whether its sector was written or not,
-- and so is every sector that is no data block of the file.
pub write_at_lem :
    (fresh : ℕ → List ℕ) (hdr : FileHeader) (d : Disk) (block : ℕ → ℕ) (from : List ℕ)
    (num_bytes position : ℕ)
    → IsFresh fresh
    → ((m : ℕ) → AreBytes (fresh m))
    → IsFile hdr d block
    → AreBytes from
    → num_bytes ≤ length from
    → (d' : Disk) × (write_at fresh hdr d from num_bytes position
        ≡ some (min num_bytes (hdr.num_bytes - position), d'))
      × IsWritten hdr block from position (min num_bytes (hdr.num_bytes - position)) d d'
unfolding write_at
write_at_lem fresh hdr d block from num_bytes position new new_small f small enough =
    rw (clamp-min hdr num_bytes position) (answer (min num_bytes (hdr.num_bytes - position)) refl)
  where
    answer :
        (n : ℕ)
        → min num_bytes (hdr.num_bytes - position) ≡ n
        → let first = position / 256 in
          let last = (position + n - 1) / 256 in
          let buf0 = fresh ((1 + last - first) * 256) in
          (d' : Disk) × (◌≡◌ {A = Option (ℕ × Disk)}
            (if n == 0 then some (0, d) else (do
              buf1 ←
                  (if not (position == first * 256)
                    then fill fresh hdr d first first buf0
                    else some buf0)
              buf2 ←
                  (if not (position + n == (last + 1) * 256)
                      && (not (first == last) || position == first * 256)
                    then fill fresh hdr d first last buf1
                    else some buf1)
              bytes' ← slice from 0 n
              buf' ← copy_into bytes' (position - first * 256) buf2
              d' ← write_sectors hdr first buf' (1 + last - first) first d
              some (n, d')))
            (some (n, d')))
          × IsWritten hdr block from position n d d'
    answer zero e = (
      d,
      refl,
      record {
        still_file = f;
        agree = λ s h. refl;
        written = λ j lt. absurd (omega arith);
        kept = λ p short out. refl;
      },
    )
    answer (suc n) e =
        let some_asked : 0 < suc n = omega arith in
        let inside : position + suc n ≤ hdr.num_bytes = omega arith in
        rw (==_of_ne (suc n) 0 (omega arith)) (
          (done fresh hdr d block from (suc n) position new new_small f small (omega arith)
              some_asked inside).after,
          body fresh hdr d block from (suc n) position new new_small f small (omega arith)
              some_asked inside,
          IsWritten-done fresh hdr d block from (suc n) position new new_small f small (omega arith)
              some_asked inside,
        )
