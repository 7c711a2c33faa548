-- ===== src/Vfs/Read.antt =====
-- virtual-fs/src/vfs.rs, `read_file`: every byte is read through the code; a page with a destroyed
-- byte is relocated, its block number replaced, and the byte read again.
-- A block's loop runs on fuel, and `none` is a loop that ran out of it. A page needs one round for
-- each byte, one for the fault that moves it and one to see the end, as Fuel shows.
pub mod Page
pub mod Blocks
pub mod Fuel
use package.rustix_os.Prelude.{
  ℕ, zero, suc, ◌+◌, Bool, ltb, ◌&&◌, if◌then◌else◌, Option, none, some, List, [], ◌∷◌, ◌++◌,
  get_elem?, set,
}
use package.rustix_os.Outcome.{Outcome, ok, err, panic, Error, read_directory}
use package.rustix_os.Frame.{CorrectionEvent, page_size, read_byte}
use package.rustix_os.Allocator.{MemoryAllocator, Run, on_frame, relocate_and_quarantine}
use package.rustix_os.Vfs.Inode.{Text, InodeType, directory, file, Inode, VirtualFileSystem}
use package.rustix_os.Vfs.Path.{resolve_path}
use package.rustix_os.Vfs.Write.{VfsRun}

pub record ReadReport : Type 0 where
  pub ecc_corrections : ℕ
  pub pages_quarantined : ℕ
  pub pages_relocated : ℕ

-- `file_data`, `bytes_read` and the report.
pub record Reading : Type 0 where
  pub file_data : List ℕ
  pub bytes_read : ℕ
  pub report : ReadReport

abbrev pub count_correction : Option CorrectionEvent → ReadReport → ReadReport
count_correction none r = r
count_correction (some e) r = record r { ecc_corrections = r.ecc_corrections + 1 }

abbrev pub take_byte : ℕ → Option CorrectionEvent → Reading → Reading
take_byte v e s = record {
  file_data = s.file_data ++ v ∷ [];
  bytes_read = s.bytes_read + 1;
  report = count_correction e s.report;
}

abbrev pub note_fault : Reading → Reading
note_fault s = record s {
  report = record (s.report) { pages_quarantined = s.report.pages_quarantined + 1 };
}

abbrev pub note_move : Reading → Reading
note_move s = record s {
  report = record (s.report) { pages_relocated = s.report.pages_relocated + 1 };
}

-- The `while` loop of one block, at `offset` of frame `frame`: the frame where the block ends up.
unfoldable pub read_block : ℕ → ℕ → ℕ → ℕ → Reading → MemoryAllocator → Option (Run (ℕ × Reading))
read_block zero offset size frame s a = none
read_block (suc fuel) offset size frame s a = elim (ltb offset page_size && ltb s.bytes_read size) [
  | Bool.false ↦ some (ok (frame, s), a)
  | Bool.true ↦
      let (r, a') = on_frame a frame (λ f. read_byte f offset) in
      elim r [
        | panic ↦ some (panic, a')
        | ok (v, event) ↦ read_block fuel (offset + 1) size frame (take_byte v event s) a'
        | err damaged ↦
            let (r', a'') = relocate_and_quarantine a' damaged in
            elim r' [
              | panic ↦ some (panic, a'')
              | err e ↦ some (err e, a'')
              | ok fresh ↦ read_block fuel offset size fresh (note_move (note_fault s)) a''
            ]
      ]
]

abbrev pub block_fuel : ℕ
block_fuel = page_size + 2

-- The loop over the blocks; `done` are the block numbers so far.
unfoldable pub read_blocks :
    List ℕ → ℕ → List ℕ → Reading → MemoryAllocator → Option (Run (List ℕ × Reading))
read_blocks [] size done s a = some (ok (done, s), a)
read_blocks (b ∷ bs) size done s a = elim (read_block block_fuel 0 size b s a) [
  | none ↦ none
  | some (ok (frame, s'), a') ↦ read_blocks bs size (done ++ frame ∷ []) s' a'
  | some (err e, a') ↦ some (err e, a')
  | some (panic, a') ↦ some (panic, a')
]

abbrev pub no_reading : Reading
no_reading = record {
  file_data = [];
  bytes_read = 0;
  report = record { ecc_corrections = 0; pages_quarantined = 0; pages_relocated = 0 };
}

-- The blocks are committed after a successful read only.
abbrev pub commit_read :
    VirtualFileSystem
    → ℕ
    → Inode
    → ℕ
    → Option (Run (List ℕ × Reading))
    → Option (VfsRun (List ℕ × ReadReport))
commit_read v idx node size none = none
commit_read v idx node size (some (ok (blocks, s), a)) = some (
  ok (s.file_data, s.report),
  record { inodes = set v.inodes idx (record node { inode_type = file blocks size }) },
  a,
)
commit_read v idx node size (some (err e, a)) = some (err e, v, a)
commit_read v idx node size (some (panic, a)) = some (panic, v, a)

unfoldable pub read_file :
    VirtualFileSystem → Text → MemoryAllocator → Option (VfsRun (List ℕ × ReadReport))
unfolding resolve_path read_blocks
read_file v path a = elim (resolve_path v path) [
  | err e ↦ some (err e, v, a)
  | panic ↦ some (panic, v, a)
  | ok idx ↦ elim (get_elem? v.inodes idx) [
    | none ↦ some (panic, v, a)
    | some node ↦ elim node.inode_type [
      | directory entries ↦ some (err read_directory, v, a)
      | file blocks size ↦ commit_read v idx node size (read_blocks blocks size [] no_reading a)
    ]
  ]
]
