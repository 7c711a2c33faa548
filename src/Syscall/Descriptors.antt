-- ===== src/Syscall/Descriptors.antt =====
-- Descriptors: opening takes the least that is free, and closing gives it back.
use rustix_os.Prelude.{
  ℕ, zero, suc, ◌+◌, ◌-◌, ◌<◌, ◌≤◌, ◌≡◌, ◌≢◌, ℕ_discrete, sym, ap, arith, inl, inr, Option, none,
  some, Option-cases, List, get_elem?, set, leb, ltb, ◌&&◌, true, get_elem?-set_self,
  lt-of_get_elem?, set_back,
}
use rustix_os.Vfs.Inode.{Text}
use mathlib.Core.Path.{subst}
use rustix_os.Outcome.{ok}
use rustix_os.Vfs.Path.{resolve_path}
use rustix_os.Syscall.{OpenFile, Core, Kernel, Call, returns, u64_max}
use rustix_os.Syscall.Calls.{
  with_core, free_descriptor, place_descriptor, ensure_file, open_path, sys_close,
}

-- What the search finds.
pub record Frees (left i : ℕ) (table : List (Option OpenFile)) (n : ℕ) : Type 0 where
  pub low : i ≤ n
  pub high : n < i + left
  pub unused : get_elem? table n ≡ some none

free_descriptor-Frees :
    (left i : ℕ) (table : List (Option OpenFile)) {n : ℕ}
    → free_descriptor left i table ≡ some n
    → Frees left i table n
unfolding free_descriptor
free_descriptor-Frees zero i table h = ground arith
free_descriptor-Frees (suc left) i table h = elim (Option-cases (get_elem? table i)) [
  | inl e ↦ later (free_descriptor-Frees left (i + 1) table (ground (arith, h, e)))
  | inr (o, e) ↦ elim (Option-cases o) [
    | inl q ↦ ground (arith, h, e, q)
    | inr (f, q) ↦ later (free_descriptor-Frees left (i + 1) table (ground (arith, h, e, q)))
  ]
]
  where
    later : {n : ℕ} → Frees left (i + 1) table n → Frees (suc left) i table n
    later r = record { low = omega (arith, r.low); high = omega (arith, r.high); unused = r.unused }

abbrev opened : Text → Option OpenFile
opened path = some (record { path = path; offset = 0 })

close_opened :
    (k : Kernel) (path : Text) (i : ℕ)
    → 3 ≤ i
    → i < 16
    → get_elem? k.fd_table i ≡ some none
    → sys_close (record k { fd_table = set k.fd_table i (opened path) }) i ≡ (returns 0, k)
unfolding sys_close
close_opened k path i lo hi free =
    let here = get_elem?-set_self k.fd_table i (opened path) (lt-of_get_elem? k.fd_table i free) in
    let inside : (leb 3 i && ltb i 16) ≡ true = ground arith in
    rw (inside, here)
      (ap (λ (t : List (Option OpenFile)). (returns 0, record k { fd_table = t }))
        (set_back k.fd_table i (opened path) none free))

-- No descriptor is free: none from 3 to 15 can be taken.
abbrev pub NoneFree : ℕ → ℕ → List (Option OpenFile) → Type 0
NoneFree left i table = (j : ℕ) → i ≤ j → j < i + left → get_elem? table j ≢ some none

free_descriptor-NoneFree :
    (left i : ℕ) (table : List (Option OpenFile))
    → free_descriptor left i table ≡ none
    → NoneFree left i table
unfolding free_descriptor
free_descriptor-NoneFree zero i table h j low high e = omega arith
free_descriptor-NoneFree (suc left) i table h j low high e = elim (ℕ_discrete i j) [
  | yes p ↦ let here : get_elem? table i ≡ some none = rw p e in ground (arith, h, here)
  | no ne ↦
      let rest : free_descriptor left (i + 1) table ≡ none =
        elim (Option-cases (get_elem? table i)) [
          | inl q ↦ ground (arith, h, q)
          | inr (o, q) ↦ elim (Option-cases o) [
            | inl q' ↦ ground (arith, h, q, q')
            | inr (f, q') ↦ ground (arith, h, q, q')
          ]
        ] in
      free_descriptor-NoneFree left (i + 1) table rest j (omega arith) (omega arith) e
]

-- What opening a path that is there may come to.
pub data Opens (k : Kernel) : Call → Type 0 where
  takes :
      (fd : ℕ) (k' : Kernel)
      → 3 ≤ fd
      → fd < 16
      → get_elem? k.fd_table fd ≡ some none
      → get_elem? k'.fd_table fd ≢ some none
      → sys_close k' fd ≡ (returns 0, k)
      → Opens k (returns fd, k')
  table_full : NoneFree 13 3 k.fd_table → Opens k (returns (u64_max - 2), k)

place_descriptor-Opens : (k : Kernel) (path : Text) → Opens k (place_descriptor k path)
unfolding place_descriptor
place_descriptor-Opens k path = elim (Option-cases (free_descriptor 13 3 k.fd_table)) [
  | inl e ↦ rw (e, place_descriptor) (table_full (free_descriptor-NoneFree 13 3 k.fd_table e))
  | inr (i, e) ↦
      let r = free_descriptor-Frees 13 3 k.fd_table e in
      let here =
        get_elem?-set_self k.fd_table i (opened path) (lt-of_get_elem? k.fd_table i r.unused) in
      rw (e, place_descriptor)
        (takes i _ r.low (omega (arith, r.high)) r.unused (λ q. absurd cc)
          (close_opened k path i r.low (omega (arith, r.high)) r.unused))
]

open_path_found :
    (k : Kernel) (core : Core) (path : Text) (idx : ℕ)
    → k.core ≡ some core
    → resolve_path core.vfs path ≡ ok idx
    → open_path k path ≡ place_descriptor (with_core k core.vfs core.allocator) path
unfolding open_path ensure_file
open_path_found k core path idx h found = simp (h, found, open_path, ensure_file)

-- Opening a path that exists takes a descriptor from 3 to 15 that was free, and closing it at once
-- succeeds and leaves the whole kernel, the file system included, as it was before the opening; or,
-- only where no descriptor is free, it answers the code for a full table and changes nothing.
pub sys_close-open_path :
    (k : Kernel) (core : Core) (path : Text) (idx : ℕ)
    → k.core ≡ some core
    → resolve_path core.vfs path ≡ ok idx
    → Opens k (open_path k path)
sys_close-open_path k core path idx h found =
    let same : with_core k core.vfs core.allocator ≡ k =
      ap (λ (c : Option Core). record k { core = c }) (sym h) in
    subst (Opens k) (sym (open_path_found k core path idx h found))
      (subst (λ c. Opens k (place_descriptor c path)) (sym same) (place_descriptor-Opens k path))
