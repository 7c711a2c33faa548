-- ===== src/Syscall/Transfer.antt =====
-- kernel-x86/src/syscall.rs, `SYS_READ` and `SYS_WRITE`. The mapping of the buffer's pages is not
-- modelled. `from_utf8` is the check of the core library, with the text where it succeeds, and
-- `as_bytes` gives the bytes of a text.
pub mod Splice
use package.rustix_os.Prelude.{
  ℕ, zero, suc, ◌+◌, ◌-◌, ◌*◌, ◌/◌, ◌^◌, ◌%◌, min, Bool, true, false, ◌&&◌, ◌||◌, leb, ltb, ◌==◌,
  if◌then◌else◌, Option, none, some, List, [], ◌∷◌, ◌++◌, map, length, get_elem?, set, take, drop,
  replicate,
}
use package.rustix_os.Outcome.{Outcome, ok, err, panic, Error}
use package.rustix_os.Allocator.{MemoryAllocator}
use package.rustix_os.Vfs.Inode.{
  Text, InodeType, directory, file, Inode, VirtualFileSystem, is_directory,
}
use package.rustix_os.Vfs.Path.{slash, resolve_path}
use package.rustix_os.Vfs.Write.{VfsRun, write_file}
use package.rustix_os.Vfs.Read.{ReadReport, read_file}
use package.rustix_os.Syscall.{
  OpenFile, UserMap, Core, Kernel, Reply, returns, panics, no_fuel, Call, u64_max, user_bytes,
  copy_to_user,
}
use package.rustix_os.Syscall.Calls.{with_core, refused}

-- `poll_serial`: the byte that the port holds, if it means a key, as `SYS_READ` stores it.
unfoldable pub poll_serial : List ℕ → Option ℕ
poll_serial [] = none
poll_serial (byte ∷ rest) =
    if byte == 13 || byte == 10
    then some 10
    else if byte == 8 || byte == 127
    then some 8
    else if leb 32 byte && leb byte 126
    then some byte
    else none

unfoldable pub read_serial : Kernel → ℕ → Call
unfolding poll_serial copy_to_user
read_serial k ptr =
    let k' = record k { serial = drop 1 k.serial } in
    elim (poll_serial k.serial) [
      | none ↦ (returns 0, k')
      | some ch ↦ (returns 1, record k' { memory = copy_to_user (ch ∷ []) ptr k.memory })
    ]

-- The lines that reading a directory gives.
unfoldable pub listing : List Inode → List (Text × ℕ) → Option Text
listing inodes [] = some []
listing inodes ((name, child) ∷ entries) =
    let rest = listing inodes entries in
    elim (get_elem? inodes child) [
      | none ↦ none
      | some node ↦ elim rest [
        | none ↦ none
        | some lines ↦
            some
              (name ++ (if is_directory node.inode_type then slash ∷ 10 ∷ [] else 10 ∷ []) ++ lines)
      ]
    ]

-- The entry of the table, with another offset.
unfoldable pub move_offset : List (Option OpenFile) → ℕ → ℕ → List (Option OpenFile)
move_offset table fd offset = elim (get_elem? table fd) [
  | none ↦ table
  | some none ↦ table
  | some (some f) ↦ set table fd (some (record f { offset = offset }))
]

-- What is behind `offset` goes to the buffer, at most `len` bytes of it.
unfoldable pub deliver : Kernel → ℕ → ℕ → ℕ → ℕ → List ℕ → Call
unfolding copy_to_user move_offset
deliver k fd ptr len offset contents =
    if leb (length contents) offset
    then (returns 0, k)
    else let to_read = min (length contents - offset) len in
      (
        returns to_read,
        record k {
          memory = copy_to_user (take to_read (drop offset contents)) ptr k.memory;
          fd_table = move_offset k.fd_table fd (offset + to_read);
        },
      )

-- The number that `n` bytes of memory hold, the low one first, and the bytes of a number.
unfoldable pub load_bytes : ℕ → ℕ → (ℕ → ℕ) → ℕ
load_bytes zero at_ptr memory = 0
load_bytes (suc n) at_ptr memory = memory at_ptr + 256 * load_bytes n (at_ptr + 1) memory

unfoldable pub to_bytes : ℕ → ℕ → List ℕ
to_bytes zero v = []
to_bytes (suc n) v = v % 256 ∷ to_bytes n (v / 256)

-- `fetch_add` on an `AtomicU64`, where there is something to add.
unfoldable pub fetch_add : ℕ → ℕ → (ℕ → ℕ) → ℕ → ℕ
unfolding load_bytes to_bytes copy_to_user
fetch_add at_ptr delta memory =
    if ltb 0 delta
    then copy_to_user (to_bytes 8 ((load_bytes 8 at_ptr memory + delta) % 2 ^ 64)) at_ptr memory
    else memory

-- The counters of `SHARED_INFO_PAGE` that the report moves, which are its fifth to seventh word.
unfoldable pub add_report : UserMap → ReadReport → (ℕ → ℕ) → ℕ → ℕ
unfolding fetch_add
add_report m r memory = fetch_add (m.shared_start + 48) r.pages_relocated (
    fetch_add (m.shared_start + 40) r.pages_quarantined
      (fetch_add (m.shared_start + 32) r.ecc_corrections memory))

abbrev pub after_read : Kernel → ℕ → ℕ → ℕ → ℕ → Option (VfsRun (List ℕ × ReadReport)) → Call
after_read k fd ptr len offset none = (no_fuel, k)
after_read k fd ptr len offset (some (ok (contents, report), v, a)) =
    deliver (record (with_core k v a) { memory = add_report k.user_map report k.memory }) fd ptr len
      offset contents
after_read k fd ptr len offset (some (err e, v, a)) = (returns u64_max, with_core k v a)
after_read k fd ptr len offset (some (panic, v, a)) = (panics, with_core k v a)

-- What `SYS_WRITE` writes back: the file, filled up with zeros, with `slice` at `offset`.
unfoldable pub splice : List ℕ → ℕ → List ℕ → List ℕ
splice contents offset slice =
    let full = contents ++ replicate (offset + length slice - length contents) 0 in
    take offset full ++ (slice ++ drop (offset + length slice) full)

abbrev pub after_write : Kernel → ℕ → ℕ → ℕ → VfsRun (Unit {0}) → Call
after_write k fd len offset (ok u, v, a) =
    (returns len, record (with_core k v a) { fd_table = move_offset k.fd_table fd offset })
after_write k fd len offset (err e, v, a) = (returns u64_max, with_core k v a)
after_write k fd len offset (panic, v, a) = (panics, with_core k v a)

-- The bytes that the file held before; a file that cannot be read counts as empty.
unfoldable pub write_over :
    Kernel → Text → ℕ → ℕ → List ℕ → Option (VfsRun (List ℕ × ReadReport)) → Call
unfolding splice write_file
write_over k path fd offset slice none = (no_fuel, k)
write_over k path fd offset slice (some (panic, v, a)) = (panics, with_core k v a)
write_over k path fd offset slice (some (ok (contents, report), v, a)) =
    after_write k fd (length slice) (offset + length slice)
      (write_file v path (splice contents offset slice) a 1000)
write_over k path fd offset slice (some (err e, v, a)) =
    after_write k fd (length slice) (offset + length slice)
      (write_file v path (splice [] offset slice) a 1000)

-- `SYS_WRITE` to a descriptor that is a file.
unfoldable pub write_open : Kernel → ℕ → Option OpenFile → List ℕ → Call
unfolding read_file write_over
write_open k fd none slice = (returns u64_max, k)
write_open k fd (some f) slice = elim k.core [
  | none ↦ (returns u64_max, k)
  | some core ↦ write_over k f.path fd f.offset slice (read_file core.vfs f.path core.allocator)
]

module _ (as_bytes : Text → List ℕ) where
  -- `SYS_READ` of an open file or directory.
  unfoldable pub read_open : Kernel → ℕ → OpenFile → ℕ → ℕ → Core → Call
  unfolding resolve_path read_file listing deliver
  read_open k fd f ptr len core =
      let contents = after_read k fd ptr len f.offset (read_file core.vfs f.path core.allocator) in
      elim (resolve_path core.vfs f.path) [
        | panic ↦ (panics, k)
        | err e ↦ contents
        | ok idx ↦ elim (get_elem? core.vfs.inodes idx) [
          | none ↦ (panics, k)
          | some node ↦ elim node.inode_type [
            | file blocks size ↦ contents
            | directory entries ↦ elim (listing core.vfs.inodes entries) [
              | none ↦ (panics, k)
              | some lines ↦ deliver k fd ptr len f.offset (as_bytes lines)
            ]
          ]
        ]
      ]

  unfoldable pub sys_read : Kernel → ℕ → ℕ → ℕ → Call
  unfolding read_serial read_open
  sys_read k fd ptr len =
      if refused k ptr len
      then (returns 0, k)
      else if fd == 0
      then read_serial k ptr
      else if ltb fd 3 || leb 16 fd
      then (returns 0, k)
      else elim (get_elem? k.fd_table fd) [
        | none ↦ (panics, k)
        | some none ↦ (returns u64_max, k)
        | some (some f) ↦ elim k.core [
          | none ↦ (returns u64_max, k)
          | some core ↦ read_open k fd f ptr len core
        ]
      ]

module _ (from_utf8 : List ℕ → Option Text) where
  -- Characters go to the port as their low eight bits.
  unfoldable pub send_uart : Kernel → List ℕ → Kernel
  send_uart k slice = elim (from_utf8 slice) [
    | none ↦ k
    | some text ↦ record k { uart = k.uart ++ map (λ c. c % 256) text }
  ]

  unfoldable pub sys_write : Kernel → ℕ → ℕ → ℕ → Call
  unfolding user_bytes send_uart write_open
  sys_write k fd ptr len =
      let slice = user_bytes k.memory ptr len in
      if refused k ptr len
      then (returns 0, k)
      else if fd == 1 || fd == 2
      then (returns len, send_uart k slice)
      else if ltb fd 3 || leb 16 fd
      then (returns u64_max, k)
      else elim (get_elem? k.fd_table fd) [ none ↦ (panics, k) | some o ↦ write_open k fd o slice ]
