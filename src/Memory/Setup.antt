-- ===== src/Memory/Setup.antt =====
-- The start of kernel/memory.c: the pools of `mem_pool_init` and the block sizes of `block_desc_init`.
use os_zhenxiang.Prelude.{
  ℕ, zero, suc, ◌+◌, ◌-◌, ◌*◌, ◌/◌, ◌%◌, ◌^◌, ◌<◌, refl, List, [], ◌∷◌, u32, arith,
}
use os_zhenxiang.Thread.{pg_size}
use os_zhenxiang.Bitmap.{bitmap_init}
use os_zhenxiang.Bitmap.Laws.{bitmap_init-IsValid}
use os_zhenxiang.Memory.{MemState}
use os_zhenxiang.Memory.Pools.{PoolsValid}

-- `struct mem_block_desc`, less its list
pub record MemBlockDesc : Type 0 where
  pub block_size : ℕ
  pub blocks_per_arena : ℕ

-- `sizeof(struct arena)`
abbrev pub arena_size : ℕ
arena_size = 12

-- The loop of `block_desc_init`, with `left` descriptors to go
unfoldable pub block_descs : (left block_size : ℕ) → List MemBlockDesc
block_descs zero block_size = []
block_descs (suc left) block_size =
    record { block_size = block_size; blocks_per_arena = (pg_size - arena_size) / block_size }
    ∷ block_descs left (block_size * 2 % 2 ^ 16)

unfoldable pub block_desc_init : List MemBlockDesc
block_desc_init = block_descs 7 16

-- the page tables of the kernel and the low megabyte
abbrev pub used_mem : ℕ
used_mem = pg_size * 256 + 0x100000

abbrev pub all_free_pages : ℕ → ℕ
all_free_pages all_mem = u32 (all_mem + 2 ^ 32 - used_mem) / pg_size % 2 ^ 16

abbrev pub kernel_free_pages : ℕ → ℕ
kernel_free_pages all_mem = all_free_pages all_mem / 2

abbrev pub user_free_pages : ℕ → ℕ
user_free_pages all_mem = all_free_pages all_mem - kernel_free_pages all_mem

-- The three bitmaps are views of the memory at MEM_BITMAP_BASE, one behind the other; `bits` holds
-- the views that `m` gives them before they are cleared. The locks are left out.
pub mem_pool_init : ℕ → (kernel_bits user_bits vaddr_bits : ℕ → ℕ) → MemState → MemState
mem_pool_init all_mem kernel_bits user_bits vaddr_bits m =
    let kbm_length = kernel_free_pages all_mem / 8 in
    let ubm_length = user_free_pages all_mem / 8 in
    let kp_start = used_mem in
    let up_start = u32 (kp_start + kernel_free_pages all_mem * pg_size) in
    record m {
      kernel_pool = record {
        pool_bitmap = bitmap_init (record { btmp_bytes_len = kbm_length; bits = kernel_bits });
        phy_addr_start = kp_start;
        pool_size = kernel_free_pages all_mem * pg_size;
      };
      user_pool = record {
        pool_bitmap = bitmap_init (record { btmp_bytes_len = ubm_length; bits = user_bits });
        phy_addr_start = up_start;
        pool_size = user_free_pages all_mem * pg_size;
      };
      kernel_vaddr = record {
        vaddr_bitmap = bitmap_init (record { btmp_bytes_len = kbm_length; bits = vaddr_bits });
        vaddr_start = 0xc0100000;
      };
    }

-- For any size of memory, `mem_pool_init` makes two pools that are in order, the user pool behind the
-- kernel pool, where the memory at their bitmaps holds bytes.
pub mem_pool_init-PoolsValid :
    (all_mem : ℕ) (kernel_bits user_bits vaddr_bits : ℕ → ℕ) (m : MemState)
    → ((i : ℕ) → kernel_bits i < 256)
    → ((i : ℕ) → user_bits i < 256)
    → PoolsValid (mem_pool_init all_mem kernel_bits user_bits vaddr_bits m)
unfolding mem_pool_init
mem_pool_init-PoolsValid all_mem kernel_bits user_bits vaddr_bits m kb ub =
    let (kv, kl) =
      bitmap_init-IsValid
        (record { btmp_bytes_len = kernel_free_pages all_mem / 8; bits = kernel_bits })
        (record { bytes = kb; small = omega arith }) in
    let (uv, ul) =
      bitmap_init-IsValid
        (record { btmp_bytes_len = user_free_pages all_mem / 8; bits = user_bits })
        (record { bytes = ub; small = omega arith }) in
    record {
      kernel_valid = record { valid = kv; aligned = refl; top = omega arith };
      user_valid = record { valid = uv; aligned = omega arith; top = omega arith };
      split = omega arith;
    }
