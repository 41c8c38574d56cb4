-- ===== src/Filesys/OpenFile/ReadBack.antt =====
-- filesys/openfile.cc: `Read` after `Write` and `Seek`.
use cmps.Prelude.{ℕ, ◌+◌, ◌-◌, ◌≤◌, ◌≡◌, refl, arith, ap, ◌∙◌, sym, min}
use cmps.Prelude.{List, some, length, length-take, take}
use cmps.Filesys.FileHeader.{FileHeader, Disk}
use cmps.Filesys.OpenFile.{read_at, write_at, OpenFile, read, write, seek, file_size, file_length}
use cmps.Filesys.OpenFile.Bytes.{AreBytes, bytes_ext, byte_at-take}
use cmps.Filesys.OpenFile.Read.{IsFresh, IsFile, IsRead, read_at_lem}
use cmps.Filesys.OpenFile.Update.{IsWritten, write_at_lem}

-- For a file whose data blocks are different sectors of the disk, writing bytes at the current
-- position, seeking back to it and reading the same number of bytes gives the bytes that were
-- written, as many as the file has room for, and leaves the position behind them.
pub read-write :
    (fresh : ℕ → List ℕ) (f : OpenFile) (d : Disk) (block : ℕ → ℕ) (from : List ℕ) (num_bytes : ℕ)
    → IsFresh fresh
    → ((m : ℕ) → AreBytes (fresh m))
    → IsFile f.hdr d block
    → AreBytes from
    → num_bytes ≤ length from
    → let room = min num_bytes (file_size f - f.seek_position) in
      (f' : OpenFile) × (d' : Disk) × (write fresh f d from num_bytes ≡ some (room, f', d'))
      × (read fresh (seek f' f.seek_position) d' num_bytes ≡ some (take room from, f'))
      × (f'.seek_position ≡ f.seek_position + room)
unfolding write read seek file_size file_length
read-write fresh f d block from num_bytes new new_small file small enough = from_write (
    write_at_lem fresh f.hdr d block from num_bytes f.seek_position new new_small file small enough)
  where
    n : ℕ
    n = min num_bytes (f.hdr.num_bytes - f.seek_position)

    size : length (take n from) ≡ n
    size = omega (arith, length-take n from)

    behind : ℕ → OpenFile
    behind m = record f { seek_position = f.seek_position + m }

    same_bytes :
        (d' : Disk) (bytes : List ℕ)
        → IsWritten f.hdr block from f.seek_position n d d'
        → IsRead block d' f.seek_position n bytes
        → bytes ≡ take n from
    same_bytes d' bytes w r = bytes_ext bytes (take n from) (r.count ∙ sym size) (λ k lt.
        r.content k (omega (arith, r.count))
        ∙ w.written k (omega (arith, r.count))
        ∙ sym (byte_at-take n from k (omega (arith, r.count))))

    from_read :
        (d' : Disk)
        → IsWritten f.hdr block from f.seek_position n d d'
        → (bytes : List ℕ) × (read_at fresh f.hdr d' num_bytes f.seek_position ≡ some bytes)
          × IsRead block d' f.seek_position n bytes
        → read fresh (seek (behind n) f.seek_position) d' num_bytes ≡ some (take n from, behind n)
    from_read d' w (bytes, got, r) = rw got (
        ap (λ bs. some (bs, behind (length bs))) (same_bytes d' bytes w r)
        ∙ ap (λ m. some (take n from, behind m)) size)

    from_write :
        (d' : Disk) × (write_at fresh f.hdr d from num_bytes f.seek_position ≡ some (n, d'))
          × IsWritten f.hdr block from f.seek_position n d d'
        → (f' : OpenFile) × (d' : Disk) × (write fresh f d from num_bytes ≡ some (n, f', d'))
          × (read fresh (seek f' f.seek_position) d' num_bytes ≡ some (take n from, f'))
          × (f'.seek_position ≡ f.seek_position + n)
    from_write (d', e, w) = (
      behind n,
      d',
      rw e refl,
      from_read d' w (read_at_lem fresh f.hdr d' block num_bytes f.seek_position new w.still_file),
      refl,
    )

-- Bytes written to the start of a file that has room for them are read back from there.
pub read_at-write_at :
    (fresh : ℕ → List ℕ) (file : FileHeader) (d : Disk) (block : ℕ → ℕ) (from : List ℕ) (n : ℕ)
    → IsFresh fresh
    → ((m : ℕ) → AreBytes (fresh m))
    → IsFile file d block
    → AreBytes from
    → length from ≡ n
    → n ≤ file.num_bytes
    → (count : ℕ) × (d' : Disk) × (write_at fresh file d from n 0 ≡ some (count, d'))
      × (read_at fresh file d' n 0 ≡ some from)
      × IsFile file d' block
read_at-write_at fresh file d block from n new new_small is_file small size room =
    let (d', written, w) =
      write_at_lem fresh file d block from n 0 new new_small is_file small (omega (arith, size)) in
    let (bytes, got, r) = read_at_lem fresh file d' block n 0 new w.still_file in
    (min n (file.num_bytes - 0), d', written, got ∙ ap some (same_bytes d' w bytes r), w.still_file)
  where
    same_bytes :
        (d' : Disk)
        → IsWritten file block from 0 (min n (file.num_bytes - 0)) d d'
        → (bytes : List ℕ) → IsRead block d' 0 (min n (file.num_bytes - 0)) bytes
        → bytes ≡ from
    same_bytes d' w bytes r =
        bytes_ext bytes from (omega (arith, r.count, size, room))
          (λ k lt. r.content k (omega (arith, r.count)) ∙ w.written k (omega (arith, r.count)))
