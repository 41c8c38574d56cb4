-- ===== src/Filesys/OpenFile.antt =====
-- filesys/openfile.cc: an open file reads and writes bytes at any position, on a disk that knows only
-- whole sectors; and `FetchFrom` and `WriteBack` of filesys/filehdr.cc, which keep the header in a
-- sector. A word of a sector is four bytes, the low one first. Counts and positions are not negative
-- and small enough that their sum fits an `int`. What a new buffer contains is the parameter `fresh`.
-- `none` is a failed ASSERT of the disk or an access outside a buffer.
pub mod Bytes
pub mod Read
pub mod Write
pub mod Fill
pub mod Update
pub mod ReadBack
pub mod Layout
mod Tests
use cmps.Prelude.{ℕ, zero, suc, ◌+◌, ◌-◌, ◌*◌, ◌/◌, ◌%◌, Bool, not, ◌&&◌, ◌||◌, Option, none, some}
use cmps.Prelude.{
  List, [], ◌∷◌, length, set, take, drop, get_elem?, ltb, leb, ◌==◌, if◌then◌else◌, ◌>>=◌, ◌>>◌,
  assert,
}
use cmps.Filesys.FileHeader.{
  FileHeader, Disk, read_sector, write_sector, byte_to_sector, sector_size,
}

-- The bytes of the words of a sector, and the words that whole groups of four bytes make.
unfoldable pub bytes_of : List ℕ → List ℕ
bytes_of [] = []
bytes_of (w ∷ ws) = w % 256 ∷ w / 256 % 256 ∷ w / 65536 % 256 ∷ w / 16777216 % 256 ∷ bytes_of ws

unfoldable pub words_of : List ℕ → List ℕ
words_of (a ∷ b ∷ c ∷ e ∷ rest) = (a + 256 * b + 65536 * c + 16777216 * e) ∷ words_of rest
words_of [] = []
words_of (a ∷ []) = []
words_of (a ∷ b ∷ []) = []
words_of (a ∷ b ∷ c ∷ []) = []

-- `bcopy` to a place in a buffer, byte by byte.
pub copy_bytes : List ℕ → ℕ → List ℕ → List ℕ
copy_bytes [] off buf = buf
copy_bytes (b ∷ bs) off buf = copy_bytes bs (off + 1) (set buf off b)

pub copy_into : List ℕ → ℕ → List ℕ → Option (List ℕ)
copy_into from off buf = do
  assert (leb (off + length from) (length buf))
  some (copy_bytes from off buf)

-- The `n` bytes from a place in a buffer on.
pub slice : List ℕ → ℕ → ℕ → Option (List ℕ)
slice buf off n = do assert (leb (off + n) (length buf)); some (take n (drop off buf))

pub record OpenFile : Type 0 where
  pub hdr : FileHeader
  pub seek_position : ℕ

-- `FileHeader::FetchFrom`, `FileHeader::WriteBack`
pub fetch_from : Disk → ℕ → Option FileHeader
fetch_from d sector = do
  words ← read_sector d sector
  num_bytes ← get_elem? words 0
  num_sectors ← get_elem? words 1
  some (record { num_bytes = num_bytes; num_sectors = num_sectors; data_sectors = drop 2 words })

pub write_back : FileHeader → Disk → ℕ → Option Disk
write_back hdr d sector = write_sector d sector (hdr.num_bytes ∷ hdr.num_sectors ∷ hdr.data_sectors)

unfoldable pub file_length : FileHeader → ℕ
file_length hdr = hdr.num_bytes

-- `OpenFile::OpenFile`
unfoldable pub open_at : Disk → ℕ → Option OpenFile
open_at d sector = do hdr ← fetch_from d sector; some (record { hdr = hdr; seek_position = 0 })

-- The loop of `ReadAt` over `n` sectors from number `i` of the file on.
pub read_sectors : FileHeader → Disk → ℕ → ℕ → ℕ → List ℕ → Option (List ℕ)
read_sectors hdr d first zero i buf = some buf
read_sectors hdr d first (suc n) i buf = do
  sector ← byte_to_sector hdr d (i * sector_size)
  words ← read_sector d sector
  buf' ← copy_into (bytes_of words) ((i - first) * sector_size) buf
  read_sectors hdr d first n (i + 1) buf'

-- The loop of `WriteAt`.
pub write_sectors : FileHeader → ℕ → List ℕ → ℕ → ℕ → Disk → Option Disk
write_sectors hdr first buf zero i d = some d
write_sectors hdr first buf (suc n) i d = do
  sector ← byte_to_sector hdr d (i * sector_size)
  bytes ← slice buf ((i - first) * sector_size) sector_size
  d' ← write_sector d sector (words_of bytes)
  write_sectors hdr first buf n (i + 1) d'

-- The bytes asked for that the file has: none for a request that is refused.
pub clamp : FileHeader → ℕ → ℕ → ℕ
clamp hdr num_bytes position =
    if (num_bytes == 0 || leb (file_length hdr) position)
    then 0
    else if ltb (file_length hdr) (position + num_bytes)
    then file_length hdr - position
    else num_bytes

-- `OpenFile::ReadAt`: the bytes copied to `into`, whose number is the result.
pub read_at : (ℕ → List ℕ) → FileHeader → Disk → ℕ → ℕ → Option (List ℕ)
read_at fresh hdr d num_bytes position =
    let n = clamp hdr num_bytes position in
    let first = position / sector_size in
    let last = (position + n - 1) / sector_size in
    let count = 1 + last - first in
    if n == 0 then some [] else (do
      buf ← read_sectors hdr d first count first (fresh (count * sector_size))
      slice buf (position - first * sector_size) n)

-- A sector that is written in part, read into its place in the buffer.
pub fill : (ℕ → List ℕ) → FileHeader → Disk → ℕ → ℕ → List ℕ → Option (List ℕ)
fill fresh hdr d first i buf = do
  bytes ← read_at fresh hdr d sector_size (i * sector_size)
  copy_into bytes ((i - first) * sector_size) buf

-- `OpenFile::WriteAt`: the number of bytes written, and the disk.
pub write_at : (ℕ → List ℕ) → FileHeader → Disk → List ℕ → ℕ → ℕ → Option (ℕ × Disk)
write_at fresh hdr d from num_bytes position =
    let n = clamp hdr num_bytes position in
    let first = position / sector_size in
    let last = (position + n - 1) / sector_size in
    let count = 1 + last - first in
    let first_aligned = position == first * sector_size in
    let last_aligned = position + n == (last + 1) * sector_size in
    let buf0 = fresh (count * sector_size) in
    if n == 0 then some (0, d) else (do
      buf1 ← (if not first_aligned then fill fresh hdr d first first buf0 else some buf0)
      buf2 ←
          (if not last_aligned && (not (first == last) || first_aligned)
            then fill fresh hdr d first last buf1
            else some buf1)
      bytes ← slice from 0 n
      buf3 ← copy_into bytes (position - first * sector_size) buf2
      d' ← write_sectors hdr first buf3 count first d
      some (n, d'))

-- `OpenFile::Seek`, `Read` and `Write`
pub seek : OpenFile → ℕ → OpenFile
seek f position = record f { seek_position = position }

pub read : (ℕ → List ℕ) → OpenFile → Disk → ℕ → Option (List ℕ × OpenFile)
read fresh f d num_bytes = do
  bytes ← read_at fresh f.hdr d num_bytes f.seek_position
  some (bytes, record f { seek_position = f.seek_position + length bytes })

pub write : (ℕ → List ℕ) → OpenFile → Disk → List ℕ → ℕ → Option (ℕ × OpenFile × Disk)
write fresh f d from num_bytes = do
  (n, d') ← write_at fresh f.hdr d from num_bytes f.seek_position
  some (n, record f { seek_position = f.seek_position + n }, d')

-- `OpenFile::Length`
unfoldable pub file_size : OpenFile → ℕ
file_size f = file_length f.hdr
