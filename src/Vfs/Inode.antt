-- ===== src/Vfs/Inode.antt =====
-- virtual-fs/src/inode.rs: files and directories.
use rustix_os.Prelude.{ℕ, ◌≡◌, refl, ◌⊎◌, inl, inr, Bool, true, false, ◌&&◌, ◌==◌, List, [], ◌∷◌}

abbrev pub Text : Type 0
Text = List ℕ

-- Equality of strings.
unfoldable pub text_eq : Text → Text → Bool
text_eq [] [] = true
text_eq [] (d ∷ t) = false
text_eq (c ∷ s) [] = false
text_eq (c ∷ s) (d ∷ t) = c == d && text_eq s t

pub data InodeType : Type 0 where
  directory : List (Text × ℕ) → InodeType
  file : List ℕ → ℕ → InodeType

pub record Inode : Type 0 where
  pub index : ℕ
  pub name : Text
  pub inode_type : InodeType

-- The field `inodes` of `VirtualFileSystem`.
pub record VirtualFileSystem : Type 0 where
  pub inodes : List Inode

unfoldable pub new_directory : ℕ → Text → Inode
new_directory index name = record { index = index; name = name; inode_type = directory [] }

unfoldable pub new_file : ℕ → Text → Inode
new_file index name = record { index = index; name = name; inode_type = file [] 0 }

abbrev pub is_directory : InodeType → Bool
is_directory (directory entries) = true
is_directory (file blocks size) = false

abbrev pub is_file : InodeType → Bool
is_file (directory entries) = false
is_file (file blocks size) = true

-- `VirtualFileSystem::new`: the root directory alone.
unfoldable pub new : VirtualFileSystem
unfolding new_directory
new = record { inodes = new_directory 0 [] ∷ [] }

pub InodeType-cases :
    (t : InodeType)
    → ((entries : List (Text × ℕ)) × (t ≡ directory entries))
      ⊎ ((blocks : List ℕ) × (size : ℕ) × (t ≡ file blocks size))
InodeType-cases (directory entries) = inl (entries, refl)
InodeType-cases (file blocks size) = inr (blocks, size, refl)
