-- ===== src/FileTable.antt =====
-- fs/file.c: the slots of the table of open files and of a task's descriptors, and the allocation of
-- inodes and sectors. What `printk` prints is left out.
pub mod Slots
pub mod Alloc
mod Tests
use os_zhenxiang.Prelude.{
  ℕ, zero, suc, ◌+◌, ◌-◌, ◌*◌, ◌/◌, Bool, true, false, Option, none, some, List, [], ◌∷◌, Outcome,
  ok, ◌>>=◌, ltb, ◌==◌, if◌then◌else◌, update, u32,
}
use os_zhenxiang.Bitmap.{Bitmap, bitmap_scan, bitmap_set}
use os_zhenxiang.Inode.{ide_write}

-- `struct file`: the inode by its address, `none` for NULL
pub record File : Type 0 where
  pub fd_pos : ℕ
  pub fd_flag : ℕ
  pub fd_inode : Option ℕ

abbrev pub max_file_open : ℕ
max_file_open = 32

abbrev pub max_files_open_per_proc : ℕ
max_files_open_per_proc = 8

-- The loops that look for a free slot from `idx` on; `left` slots are to go.
unfoldable pub free_slot : (free : ℕ → Bool) → (left idx : ℕ) → Option ℕ
free_slot free zero idx = none
free_slot free (suc left) idx =
    let rest = free_slot free left (idx + 1) in if free idx then some idx else rest

abbrev pub is_none : Option ℕ → Bool
is_none none = true
is_none (some x) = false

-- -1 is `none`.
unfoldable pub get_free_slot_in_global : (ℕ → File) → Option ℕ
get_free_slot_in_global file_table =
    free_slot (λ i. is_none (file_table i).fd_inode) (max_file_open - 3) 3

-- The descriptors of the running task; a slot that holds -1 is `none`.
unfoldable pub pcb_fd_install : ℕ → (ℕ → Option ℕ) → Option ℕ × (ℕ → Option ℕ)
pcb_fd_install globa_fd_idx fd_table =
    install (free_slot (λ i. is_none (fd_table i)) (max_files_open_per_proc - 3) 3)
  where
    install : Option ℕ → Option ℕ × (ℕ → Option ℕ)
    install none = (none, fd_table)
    install (some local_fd_idx) =
        (some local_fd_idx, update fd_table local_fd_idx (some globa_fd_idx))

-- `bit_idx` is set, if there is one.
pub bit_take : Option ℕ → Bitmap → Outcome (Option ℕ × Bitmap)
bit_take none b = ok (none, b)
bit_take (some bit_idx) b = do b' ← bitmap_set b bit_idx 1; ok (some bit_idx, b')

pub inode_bitmap_alloc : Bitmap → Outcome (Option ℕ × Bitmap)
inode_bitmap_alloc inode_bitmap = do found ← bitmap_scan inode_bitmap 1; bit_take found inode_bitmap

pub block_bitmap_alloc : (data_start_lba : ℕ) → Bitmap → Outcome (Option ℕ × Bitmap)
block_bitmap_alloc data_start_lba block_bitmap = do
  found ← bitmap_scan block_bitmap 1
  (bit_idx, b) ← bit_take found block_bitmap
  ok (sector bit_idx, b)
  where
    sector : Option ℕ → Option ℕ
    sector none = none
    sector (some bit_idx) = some (u32 (data_start_lba + bit_idx))

-- `bitmap_lba` is the first sector of the bitmap of the type given.
pub bitmap_sync : (bitmap_lba bit_idx : ℕ) → Bitmap → (disk : ℕ → ℕ) → ℕ → ℕ
bitmap_sync bitmap_lba bit_idx b disk =
    let off_sec = bit_idx / 4096 in
    let off_size = off_sec * 512 in
    ide_write (u32 (bitmap_lba + off_sec)) 1 (λ a. b.bits (off_size + a)) disk
