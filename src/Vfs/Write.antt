-- ===== src/Vfs/Write.antt =====
-- virtual-fs/src/vfs.rs, `write_file`: the old blocks are freed, and the bytes go to fresh frames.
pub mod Page
pub mod Room
pub mod Blocks
use package.rustix_os.Prelude.{
  ℕ, zero, suc, ◌+◌, ◌-◌, ◌*◌, ◌/◌, Bool, ltb, if◌then◌else◌, min, Option, none, some, List, [],
  ◌∷◌, ◌++◌, length, get_elem?, get_or, set,
}
use package.rustix_os.Outcome.{Outcome, ok, err, panic, Error, out_of_blocks, write_directory}
use package.rustix_os.Frame.{page_size, write_byte}
use package.rustix_os.Allocator.{MemoryAllocator, Run, on_frame, allocate_page, deallocate_page}
use package.rustix_os.Vfs.Inode.{Text, InodeType, directory, file, Inode, VirtualFileSystem}
use package.rustix_os.Vfs.Path.{resolve_path}

-- `let _ = allocator.deallocate_page(block)` for every block.
unfoldable pub free_blocks : List ℕ → MemoryAllocator → Run (Unit {0})
free_blocks [] a = (ok tt, a)
free_blocks (b ∷ bs) a =
    let (r, a') = deallocate_page a b in
    elim r [ ok u ↦ free_blocks bs a' | err e ↦ free_blocks bs a' | panic ↦ (panic, a') ]

-- The byte at `offset` of the page that starts at `start`: zero past the end of the data.
unfoldable pub page_byte : List ℕ → ℕ → ℕ → ℕ
page_byte bytes start offset =
    if ltb (start + offset) (min (start + page_size) (length bytes))
    then get_or bytes (start + offset) 0
    else 0

-- The loop over the offsets of one page, with `left` to go.
unfoldable pub fill_page : ℕ → ℕ → MemoryAllocator → ℕ → List ℕ → ℕ → Run (Unit {0})
unfolding page_byte
fill_page zero offset a frame bytes start = (ok tt, a)
fill_page (suc left) offset a frame bytes start =
    let (r, a') = on_frame a frame (λ f. write_byte f offset (page_byte bytes start offset)) in
    elim r [
      | ok u ↦ fill_page left (offset + 1) a' frame bytes start
      | err e ↦ (err e, a')
      | panic ↦ (panic, a')
    ]

abbrev pub fail_after : Error → Run (Unit {0}) → Run (List ℕ)
fail_after e (ok u, a) = (err e, a)
fail_after e (err e', a) = (err e, a)
fail_after e (panic, a) = (panic, a)

-- The loop over the pages from `num` on, with `left` to go; `blocks` are the frames so far.
unfoldable pub write_blocks : ℕ → ℕ → List ℕ → MemoryAllocator → List ℕ → ℕ → Run (List ℕ)
write_blocks zero num blocks a bytes pid = (ok blocks, a)
write_blocks (suc left) num blocks a bytes pid =
    let (r, a') = allocate_page a pid in
    elim r [
      | ok none ↦ fail_after out_of_blocks (free_blocks blocks a')
      | ok (some frame) ↦
          let (r', a'') = fill_page page_size 0 a' frame bytes (num * page_size) in
          elim r' [
            | ok u ↦ write_blocks left (num + 1) (blocks ++ frame ∷ []) a'' bytes pid
            | err e ↦ (err e, a'')
            | panic ↦ (panic, a'')
          ]
      | err e ↦ (err e, a')
      | panic ↦ (panic, a')
    ]

-- `if data.is_empty() { 1 } else { data.len().div_ceil(PAGE_SIZE) }`.
unfoldable pub num_blocks : List ℕ → ℕ
num_blocks [] = 1
num_blocks (b ∷ bs) = (length (b ∷ bs) + (page_size - 1)) / page_size

abbrev pub VfsRun : Type 0 → Type 0
VfsRun A = Outcome A Error × VirtualFileSystem × MemoryAllocator

abbrev pub commit_blocks : VirtualFileSystem → ℕ → Inode → ℕ → Run (List ℕ) → VfsRun (Unit {0})
commit_blocks v idx node size (ok blocks, a) =
    (ok tt, record { inodes = set v.inodes idx (record node { inode_type = file blocks size }) }, a)
commit_blocks v idx node size (err e, a) = (err e, v, a)
commit_blocks v idx node size (panic, a) = (panic, v, a)

-- What `write_file` does with the inode of a file.
unfoldable pub write_inode :
    VirtualFileSystem → ℕ → Inode → List ℕ → List ℕ → MemoryAllocator → ℕ → VfsRun (Unit {0})
unfolding free_blocks write_blocks num_blocks
write_inode v idx node blocks bytes a pid =
    let (r, a') = free_blocks blocks a in
    elim r [
      | ok u ↦
          commit_blocks v idx node (length bytes)
            (write_blocks (num_blocks bytes) 0 [] a' bytes pid)
      | err e ↦ (err e, v, a')
      | panic ↦ (panic, v, a')
    ]

unfoldable pub write_file :
    VirtualFileSystem → Text → List ℕ → MemoryAllocator → ℕ → VfsRun (Unit {0})
unfolding resolve_path write_inode
write_file v path bytes a pid = elim (resolve_path v path) [
  | err e ↦ (err e, v, a)
  | panic ↦ (panic, v, a)
  | ok idx ↦ elim (get_elem? v.inodes idx) [
    | none ↦ (panic, v, a)
    | some node ↦ elim node.inode_type [
      | directory entries ↦ (err write_directory, v, a)
      | file blocks size ↦ write_inode v idx node blocks bytes a pid
    ]
  ]
]
