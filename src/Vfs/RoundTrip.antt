-- ===== src/Vfs/RoundTrip.antt =====
-- `write_file` followed by `read_file`, and the writes that fail.
use rustix_os.Prelude.{
  ℕ, ◌+◌, ◌*◌, ◌<◌, ◌≤◌, ◌≡◌, ◌∙◌, ◌⊎◌, inl, inr, refl, ap, true, min, arith, some, List, [], ◌∷◌,
  length, take, get_elem?, set, set_elem_same, get_elem?-set_self, lt-of_get_elem?,
}
use rustix_os.Prelude.Range.{take_all}
use mathlib.Core.Path.{ap₂, subst₂}
use rustix_os.Outcome.{ok, err, out_of_blocks}
use rustix_os.Frame.{page_size}
use rustix_os.Allocator.{MemoryAllocator, Run}
use rustix_os.Allocator.Free.{is_free}
use rustix_os.Allocator.Invariant.{IsValid}
use rustix_os.Vfs.Inode.{Text, file, Inode, VirtualFileSystem}
use rustix_os.Vfs.Path.{resolve_path}
use rustix_os.Vfs.Path.Keep.{with_blocks, resolve_path-with_blocks}
use rustix_os.Vfs.Write.{VfsRun, num_blocks, commit_blocks, write_inode, write_file}
use rustix_os.Vfs.Write.Room.{Listed, IsUsable}
use rustix_os.Vfs.Write.Page.{AllBytes, HoldsAll}
use rustix_os.Vfs.Write.Blocks.{
  Frees, free_blocks-Frees, Writes, wrote, no_frames, write_blocks-Writes,
}
use rustix_os.Vfs.Read.{ReadReport, read_file}
use rustix_os.Vfs.Read.Blocks.{read_blocks_held}

-- `path` leads to a file.
pub record IsFileAt (v : VirtualFileSystem) (path : Text) : Type 0 where
  pub idx : ℕ
  pub node : Inode
  pub blocks : List ℕ
  pub size : ℕ
  pub resolves : resolve_path v path ≡ ok idx
  pub stands : get_elem? v.inodes idx ≡ some node
  pub is_file : node.inode_type ≡ file blocks size

-- A read that met no error in memory.
abbrev pub clean_report : ReadReport
clean_report = record { ecc_corrections = 0; pages_quarantined = 0; pages_relocated = 0 }

num_blocks-enough : (bytes : List ℕ) → length bytes ≤ num_blocks bytes * page_size
unfolding num_blocks
num_blocks-enough [] = omega arith
num_blocks-enough (b ∷ bs) = omega arith

-- How many blocks of 64 bytes a file of `size` bytes has: one for each 64 begun, and at least one.
pub record BlockCount (size n : ℕ) : Type 0 where
  pub at_least_one : 1 ≤ n
  pub enough : size ≤ n * 64
  pub no_more : (n ≡ 1) ⊎ (n * 64 < size + 64)

num_blocks-BlockCount :
    (bytes : List ℕ) {n : ℕ} → n ≡ num_blocks bytes → BlockCount (length bytes) n
unfolding num_blocks
num_blocks-BlockCount [] e = record {
  at_least_one = omega arith;
  enough = omega arith;
  no_more = inl e;
}
num_blocks-BlockCount (b ∷ bs) e = record {
  at_least_one = omega arith;
  enough = omega arith;
  no_more = inr (omega arith);
}

-- The table with the new blocks of a file.
abbrev pub committed : VirtualFileSystem → ℕ → Inode → List ℕ → ℕ → VirtualFileSystem
committed v idx node blocks size = record {
  inodes = set v.inodes idx (with_blocks node blocks size);
}

module _ (v : VirtualFileSystem) (path : Text) (bytes : List ℕ) (pid : ℕ)
    (f : IsFileAt v path) where
  -- What `write_file` may answer at a file.
  pub data WritesFile (a : MemoryAllocator) : VfsRun (Unit {0}) → Type 0 where
    stored :
        (bs : List ℕ) (a' : MemoryAllocator)
        → IsValid a'
        → length bs ≡ num_blocks bytes
        → BlockCount (length bytes) (length bs)
        → HoldsAll a' pid bytes 0 bs
        → WritesFile a (ok tt, committed v f.idx f.node bs (length bytes), a')
    no_room :
        (bs : List ℕ) (needed : ℕ) (a' : MemoryAllocator)
        → BlockCount (length bytes) needed
        → length bs < needed
        → ((j : ℕ) → is_free a j ≡ true → Listed j bs)
        → ((j : ℕ) → Listed j f.blocks → IsUsable a j → Listed j bs)
        → IsValid a'
        → WritesFile a (err out_of_blocks, v, a')

  commit_blocks-WritesFile :
      {a : MemoryAllocator} {freed : Run (Unit {0})} {r : Run (List ℕ)}
      → (frees : Frees f.blocks a freed) → Writes frees.after bytes pid (num_blocks bytes) r
      → WritesFile a (commit_blocks v f.idx f.node (length bytes) r)
  commit_blocks-WritesFile frees (wrote bs a' valid e h) =
      stored bs a' valid e (num_blocks-BlockCount bytes e) h
  commit_blocks-WritesFile frees (no_frames bs a' few taken valid) =
      no_room bs (num_blocks bytes) a' (num_blocks-BlockCount bytes refl) few
        (λ j free. taken j (frees.keeps j free))
        (λ j listed usable. taken j (frees.frees j listed usable)) valid

  -- On a valid allocator, writing a file does not panic: either its new blocks, one for each 64 bytes
  -- begun and at least one, hold the data and are its own, or the error is returned with the table of
  -- inodes as before, and every frame that was free, and every usable old block of the file, is
  -- among fewer frames than the blocks needed.
  pub write_file-WritesFile :
      (a : MemoryAllocator) → IsValid a → WritesFile a (write_file v path bytes a pid)
  unfolding write_file
  write_file-WritesFile a valid =
      let freed = free_blocks-Frees f.blocks a valid in
      rw (f.resolves, write_file)
        (rw (f.stands) (
          rw (f.is_file) (
            rw (freed.returns, write_inode)
              (rw freed.returns (
                commit_blocks-WritesFile freed (
                  write_blocks-Writes (num_blocks bytes) 0 (num_blocks bytes) [] freed.after
                    freed.after bytes pid freed.valid (λ j free. inl free) refl (omega arith)
                    tt))))))

  whole_file :
      (bs : List ℕ)
      → length bs ≡ num_blocks bytes
      → take (min ((0 + length bs) * page_size) (length bytes)) bytes ≡ bytes
  whole_file bs e =
      ap (λ (t : ℕ). take t bytes) (omega (arith, num_blocks-enough bytes)) ∙ take_all bytes

  read_stored :
      (bs : List ℕ) (a : MemoryAllocator)
      → AllBytes bytes
      → length bs ≡ num_blocks bytes
      → HoldsAll a pid bytes 0 bs
      → let v' = committed v f.idx f.node bs (length bytes) in
        read_file v' path a ≡ some (ok (bytes, clean_report), v', a)
  unfolding read_file
  read_stored bs a all e h =
      let node' = with_blocks f.node bs (length bytes) in
      let v' = committed v f.idx f.node bs (length bytes) in
      let found : get_elem? v'.inodes f.idx ≡ some node' =
        get_elem?-set_self v.inodes f.idx node' (lt-of_get_elem? v.inodes f.idx f.stands) in
      let resolved : resolve_path v' path ≡ ok f.idx =
        resolve_path-with_blocks v.inodes f.idx f.node f.blocks f.size f.stands f.is_file bs
          (length bytes) path
        ∙ f.resolves in
      rw (resolved, read_file)
        (rw found (
          rw (read_blocks_held bs 0 0 [] a pid bytes all h (omega arith)) (
            ap₂
              (λ (t : List ℕ) (u : List Inode).
                some (ok (t, clean_report), record { inodes = u }, a))
              (whole_file bs e) (set_elem_same v'.inodes f.idx node' found))))

  read_after :
      {a : MemoryAllocator} {r : VfsRun (Unit {0})} {v' : VirtualFileSystem} {a' : MemoryAllocator}
      → AllBytes bytes
      → WritesFile a r
      → r ≡ (ok tt, v', a')
      → read_file v' path a' ≡ some (ok (bytes, clean_report), v', a')
  read_after {v' = v'} {a' = a'} all (stored bs a valid e count h) q =
      let p : committed v f.idx f.node bs (length bytes) ≡ v' = ground arith in
      let p' : a ≡ a' = ground arith in
      subst₂ (λ w c. read_file w path c ≡ some (ok (bytes, clean_report), w, c)) p p'
        (read_stored bs a all e h)
  read_after all (no_room bs needed a count few free old valid) q = ground arith

-- What was written to a file is what is read from it: after a successful write of bytes, a read of
-- the same path ends within its fuel, returns exactly those bytes, reports no correction and no
-- fault, and changes neither the file system nor the allocator.
pub read_file-write_file :
    (v v' : VirtualFileSystem) (path : Text) (bytes : List ℕ) (a a' : MemoryAllocator) (pid : ℕ)
    → IsValid a
    → IsFileAt v path
    → AllBytes bytes
    → write_file v path bytes a pid ≡ (ok tt, v', a')
    → read_file v' path a' ≡ some (ok (bytes, clean_report), v', a')
read_file-write_file v v' path bytes a a' pid valid f all e =
    read_after v path bytes pid f all (write_file-WritesFile v path bytes pid f a valid) e
