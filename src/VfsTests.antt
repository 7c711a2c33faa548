-- ===== src/VfsTests.antt =====
-- The file system: small runs, and the theorems at concrete inputs.
use rustix_os.Prelude.{ℕ, ◌≡◌, refl, arith, List, [], ◌∷◌, some, get_elem?, get_or}
use rustix_os.Outcome.{ok, err, not_allocated}
use rustix_os.Ecc.{encode, decode, odd_ones, syndrome, uncorrectable}
use rustix_os.Frame
use rustix_os.Frame.{PhysicalFrame, write_byte, flip_bit}
use rustix_os.Allocator
use rustix_os.Allocator.{
  MemoryAllocator, find_free, allocate_page, on_frame, inject_bit_flip, relocate_and_quarantine,
}
use rustix_os.Allocator.Free.{allocate_page-IsValid}
use rustix_os.Allocator.Invariant.{inject_bit_flip-IsValid}
use rustix_os.Vfs.Lost.{read_file-relocated}
use rustix_os.Allocator.Invariant
use rustix_os.Vfs.Inode.{Text, text_eq, Inode, VirtualFileSystem, directory, file}
use rustix_os.Vfs.Path.{resolve_path, split_slash, drop_empty, walk, enter, find_entry}
use rustix_os.Vfs.Write.{
  VfsRun, page_byte, fill_page, write_blocks, num_blocks, write_inode, write_file,
}
use rustix_os.Vfs.Read.{ReadReport, read_file}
use rustix_os.Vfs.Closed.{IsClosed}
use rustix_os.Vfs.Closed.Files.{Keeps}
use rustix_os.Vfs.Closed.Files.Read.{read_file-Keeps}
use rustix_os.Allocator.Safe.{Any}
use rustix_os.Vfs.RoundTrip.{
  IsFileAt, WritesFile, write_file-WritesFile, clean_report, read_file-write_file,
}

-- "a"
abbrev a_name : Text
a_name = 97 ∷ []

-- "/a"
abbrev a_path : Text
a_path = 47 ∷ 97 ∷ []

abbrev a_file : Inode
a_file = record { index = 1; name = a_name; inode_type = file [] 0 }

-- A root that holds one empty file.
abbrev one_file : VirtualFileSystem
one_file = record {
  inodes = record { index = 0; name = []; inode_type = directory ((a_name, 1) ∷ []) } ∷ a_file ∷ [];
}

a_path-IsFileAt : IsFileAt one_file a_path
unfolding resolve_path split_slash drop_empty walk enter find_entry text_eq
a_path-IsFileAt = record {
  idx = 1;
  node = a_file;
  blocks = [];
  size = 0;
  resolves = refl;
  stands = refl;
  is_file = refl;
}

abbrev greeting : List ℕ
greeting = 104 ∷ 105 ∷ []

write_file-WritesFile_example :
    WritesFile one_file a_path greeting 42 a_path-IsFileAt Allocator.new
      (write_file one_file a_path greeting Allocator.new 42)
write_file-WritesFile_example =
    write_file-WritesFile one_file a_path greeting 42 a_path-IsFileAt Allocator.new
      Invariant.new-IsValid

abbrev written_file : VirtualFileSystem
written_file = (write_file one_file a_path greeting Allocator.new 42).1

abbrev written_memory : MemoryAllocator
written_memory = (write_file one_file a_path greeting Allocator.new 42).2

greeting_stored :
    write_file one_file a_path greeting Allocator.new 42 ≡ (ok tt, written_file, written_memory)
unfolding write_file write_inode write_blocks fill_page page_byte num_blocks on_frame write_byte
    encode find_free allocate_page Allocator.new Frame.new resolve_path split_slash drop_empty walk
    enter find_entry text_eq
greeting_stored = refl

read_file-write_file_example :
    read_file written_file a_path written_memory
    ≡ some (ok (greeting, clean_report), written_file, written_memory)
read_file-write_file_example =
    read_file-write_file one_file written_file a_path greeting Allocator.new written_memory 42
      Invariant.new-IsValid a_path-IsFileAt (omega arith) greeting_stored

one_file-IsClosed : IsClosed one_file
one_file-IsClosed = record { rooted = omega arith; points = ((omega arith, tt), (tt, tt)) }

read_file-Keeps_example :
    (r : VfsRun (List ℕ × ReadReport)) × (read_file one_file a_path Allocator.new ≡ some r)
    × Keeps Any 2 r
read_file-Keeps_example =
    read_file-Keeps one_file a_path Allocator.new one_file-IsClosed Invariant.new-IsValid

-- Process 42 owns frame 0, and two bits of byte 3 of it have flipped.
abbrev struck : MemoryAllocator
struck = (inject_bit_flip (inject_bit_flip (allocate_page Allocator.new 42).1 0 3 2).1 0 3 5).1

struck-IsValid : Invariant.IsValid struck
struck-IsValid =
    inject_bit_flip-IsValid
      (inject_bit_flip-IsValid (allocate_page-IsValid Allocator.new 42 Invariant.new-IsValid) 0 3 2)
      0 3 5

abbrev struck_frame : PhysicalFrame
struck_frame = flip_bit (flip_bit (Frame.new 0 0) 3 2) 3 5

-- The root holds a file of eight bytes in frame 0.
abbrev held_file : VirtualFileSystem
held_file = record {
  inodes =
      record { index = 0; name = []; inode_type = directory ((a_name, 1) ∷ []) }
      ∷ record { index = 1; name = a_name; inode_type = file (0 ∷ []) 8 }
      ∷ [];
}

abbrev held_node : Inode
held_node = record { index = 1; name = a_name; inode_type = file (0 ∷ []) 8 }

held_found : resolve_path held_file a_path ≡ ok 1
unfolding resolve_path split_slash drop_empty walk enter find_entry text_eq
held_found = refl

struck_owner : get_elem? struck.allocation_map 0 ≡ some (some 42)
unfolding allocate_page find_free Allocator.new Frame.new inject_bit_flip
struck_owner = refl

struck_at : get_elem? struck.frames 0 ≡ some struck_frame
unfolding allocate_page find_free Allocator.new Frame.new inject_bit_flip flip_bit
struck_at = refl

struck_word : decode (get_or struck_frame.words 3 0) ≡ uncorrectable
unfolding Frame.new flip_bit decode odd_ones syndrome
struck_word = refl

read_file-relocated_example :
    (a' : MemoryAllocator) × (read_file held_file a_path (relocate_and_quarantine struck 0).1
      ≡ some (err not_allocated, held_file, a'))
read_file-relocated_example =
    read_file-relocated held_file a_path 1 held_node 0 8 [] struck 3 42 struck_frame struck-IsValid
      held_found refl refl struck_owner struck_at (omega arith) (omega arith) struck_word
