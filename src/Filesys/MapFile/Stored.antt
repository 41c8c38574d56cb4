-- ===== src/Filesys/MapFile/Stored.antt =====
-- userprog/bitmap.cc: a map that was written back is the one that is fetched.
use cmps.Prelude.{
  ℕ, zero, suc, ◌*◌, ◌^◌, ◌≤◌, ◌<◌, ◌≡◌, refl, ap, ap₂, ◌∙◌, arith, some, List, [], ◌∷◌, length,
  drop,
}
use mathlib.Core.List.{append-nil}
use cmps.Userprog.BitMap.{BitMap}
use cmps.Filesys.FileHeader.{FileHeader, Disk}
use cmps.Filesys.OpenFile.{read_at, bytes_of, words_of}
use cmps.Filesys.OpenFile.Bytes.{AreBytes, length-bytes_of, bytes_of-AreBytes}
use cmps.Filesys.OpenFile.Read.{IsFresh, IsFile}
use cmps.Filesys.OpenFile.ReadBack.{read_at-write_at}
use cmps.Filesys.MapFile.{fetch_from, write_back}

abbrev pub AllWords : List ℕ → Type 0
AllWords [] = Unit
AllWords (w ∷ ws) = (w < 2 ^ 32) × AllWords ws

words_of-bytes_of : (ws : List ℕ) → AllWords ws → words_of (bytes_of ws) ≡ ws
unfolding words_of bytes_of
words_of-bytes_of [] h = refl
words_of-bytes_of (w ∷ ws) h = ap₂ (λ v vs. v ∷ vs) (omega (arith, h.0)) (words_of-bytes_of ws h.1)

pub drop_all : (n : ℕ) (xs : List ℕ) → length xs ≤ n → drop n xs ≡ []
drop_all zero [] h = refl
drop_all zero (x ∷ xs) h = absurd (omega (arith, h))
drop_all (suc n) [] h = refl
drop_all (suc n) (x ∷ xs) h = drop_all n xs (omega (arith, h))

-- The words of a map of 32-bit words, written back to a file that has room for them and fetched into a map
-- of the same size, whatever it held: both succeed, and it has the words of the map that was written; the
-- file is still a file, with the same data blocks.
pub fetch_from-write_back_map :
    (fresh : ℕ → List ℕ) (m old : BitMap) (file : FileHeader) (d : Disk) (block : ℕ → ℕ)
    → IsFresh fresh
    → ((k : ℕ) → AreBytes (fresh k))
    → IsFile file d block
    → AllWords m.words
    → length m.words ≡ m.num_words
    → length old.words ≡ old.num_words
    → old.num_words ≡ m.num_words
    → m.num_words * 4 ≤ file.num_bytes
    → (d' : Disk) × (write_back fresh m file d ≡ some d')
      × (fetch_from fresh old file d' ≡ some (record old { words = m.words }))
      × IsFile file d' block
unfolding fetch_from write_back
fetch_from-write_back_map fresh m old file d block new new_small is_file small sized old_sized same
      room =
    let (count, d', written, got, still_file) =
      read_at-write_at fresh file d block (bytes_of m.words) (m.num_words * 4) new new_small is_file
        (bytes_of-AreBytes m.words) (omega (arith, length-bytes_of m.words, sized)) room in
    let got' : read_at fresh file d' (old.num_words * 4) 0 ≡ some (bytes_of m.words) =
      ap (λ n. read_at fresh file d' (n * 4) 0) same ∙ got in
    (
      d',
      rw written refl,
      rw (got', none_left)
          (ap (λ ws. some (record old { words = ws }))
            (ap words_of (append-nil (bytes_of m.words)) ∙ words_of-bytes_of m.words small)),
      still_file,
    )
  where
    none_left : drop (length (bytes_of m.words)) (bytes_of old.words) ≡ []
    none_left =
        drop_all (length (bytes_of m.words)) (bytes_of old.words) (
          omega (arith, length-bytes_of m.words, length-bytes_of old.words, sized, old_sized, same))
