-- ===== src/Syscall/Pointer.antt =====
-- What the check of user pointers accepts, and which memory a read may change.
use rustix_os.Prelude.{
  ℕ, zero, suc, ◌+◌, ◌-◌, ◌/◌, ◌%◌, ◌^◌, ◌<◌, ◌≤◌, ◌≡◌, ◌∙◌, refl, ap, ◌⊎◌, inl, inr, arith, true,
  Bool-cases, ◌||◌, ◌==◌, leb, ltb, Option, none, some, Option-cases, List, [], ◌∷◌, length, take,
  drop, length-take, get_elem?, min,
}
use rustix_os.Outcome.{Outcome-cases, ok, err, panic}
use rustix_os.Vfs.Inode.{Text, InodeType-cases}
use rustix_os.Vfs.Path.{resolve_path}
use rustix_os.Vfs.Write.{VfsRun}
use rustix_os.Vfs.Read.{ReadReport, read_file}
use rustix_os.Syscall.{
  UserMap, user_code_start, user_code_end, user_stack_base, user_stack_top, within, in_framebuffer,
  is_user_ptr, OpenFile, Core, Kernel, copy_to_user,
}
use rustix_os.Syscall.Calls.{refused}
use rustix_os.Syscall.Transfer.{
  load_bytes, to_bytes, fetch_add, add_report, poll_serial, read_serial, deliver, after_read,
  listing, read_open, sys_read,
}

-- The addresses of one region.
abbrev Between : ℕ → ℕ → ℕ → Type 0
Between start stop x = (start ≤ x) × (x < stop)

abbrev InFramebuffer : Option (ℕ × ℕ) → ℕ → Type 0
InFramebuffer none x = ⊥
InFramebuffer (some (start, stop)) x = Between start stop x

-- The user's code and data, the user's stack, the frame buffer, and the shared page.
pub data Allowed (m : UserMap) (x : ℕ) : Type 0 where
  in_code : Between user_code_start user_code_end x → Allowed m x
  in_stack : Between user_stack_base user_stack_top x → Allowed m x
  in_screen : InFramebuffer m.framebuffer x → Allowed m x
  in_shared : Between m.shared_start (m.shared_start + 4096) x → Allowed m x

Allowed-framebuffer :
    (o : Option (ℕ × ℕ)) (ptr len x : ℕ)
    → in_framebuffer o ptr (ptr + len) ≡ true
    → ptr ≤ x
    → x < ptr + len
    → InFramebuffer o x
Allowed-framebuffer none ptr len x h lo hi = ground arith
Allowed-framebuffer (some (start, stop)) ptr len x h lo hi = (ground arith, ground arith)

-- Every address of a buffer that the check accepts is in one of the four regions.
pub is_user_ptr-Allowed :
    (m : UserMap) (ptr len x : ℕ)
    → is_user_ptr m ptr len ≡ true
    → ptr ≤ x
    → x < ptr + len
    → Allowed m x
unfolding is_user_ptr
is_user_ptr-Allowed m ptr len x h lo hi =
    elim (Bool-cases (within user_code_start user_code_end ptr (ptr + len))) [
      | inl e ↦ in_code (ground arith, ground arith)
      | inr e ↦ elim (Bool-cases (within user_stack_base user_stack_top ptr (ptr + len))) [
        | inl e' ↦ in_stack (ground arith, ground arith)
        | inr e' ↦ elim (Bool-cases (in_framebuffer m.framebuffer ptr (ptr + len))) [
          | inl f ↦ in_screen (Allowed-framebuffer m.framebuffer ptr len x f lo hi)
          | inr f ↦ in_shared (ground arith, ground arith)
        ]
      ]
    ]

copy_to_user-outside :
    (bytes : List ℕ) (ptr len : ℕ) (memory : ℕ → ℕ) (x : ℕ)
    → length bytes ≤ len
    → (x < ptr) ⊎ (ptr + len ≤ x)
    → copy_to_user bytes ptr memory x ≡ memory x
unfolding copy_to_user
copy_to_user-outside bytes ptr len memory x h out = ground arith

length-to_bytes : (n v : ℕ) → length (to_bytes n v) ≡ n
unfolding to_bytes
length-to_bytes zero v = refl
length-to_bytes (suc n) v = ap suc (length-to_bytes n (v / 256))

fetch_add-outside :
    (at_ptr delta : ℕ) (memory : ℕ → ℕ) (x : ℕ)
    → (x < at_ptr) ⊎ (at_ptr + 8 ≤ x)
    → fetch_add at_ptr delta memory x ≡ memory x
unfolding fetch_add
fetch_add-outside at_ptr delta memory x out =
    let v = (load_bytes 8 at_ptr memory + delta) % 2 ^ 64 in
    elim (Bool-cases (ltb 0 delta)) [
      | inl e ↦ rw e (
          copy_to_user-outside (to_bytes 8 v) at_ptr 8 memory x (omega (arith, length-to_bytes 8 v))
            out)
      | inr e ↦ rw e refl
    ]

-- Outside of the shared page.
abbrev pub Apart : UserMap → ℕ → Type 0
Apart m x = (x < m.shared_start) ⊎ (m.shared_start + 4096 ≤ x)

add_report-outside :
    (m : UserMap) (r : ReadReport) (memory : ℕ → ℕ) (x : ℕ)
    → Apart m x
    → add_report m r memory x ≡ memory x
unfolding add_report
add_report-outside m r memory x apart =
    let mem = fetch_add (m.shared_start + 32) r.ecc_corrections memory in
    let mem' = fetch_add (m.shared_start + 40) r.pages_quarantined mem in
    fetch_add-outside (m.shared_start + 48) r.pages_relocated mem' x (ground arith)
    ∙ fetch_add-outside (m.shared_start + 40) r.pages_quarantined mem x (ground arith)
    ∙ fetch_add-outside (m.shared_start + 32) r.ecc_corrections memory x (ground arith)

deliver-outside :
    (k : Kernel) (fd ptr len offset : ℕ) (contents : List ℕ) (x : ℕ)
    → (x < ptr) ⊎ (ptr + len ≤ x)
    → (deliver k fd ptr len offset contents).1.memory x ≡ k.memory x
unfolding deliver
deliver-outside k fd ptr len offset contents x out =
    elim (Bool-cases (leb (length contents) offset)) [
      | inl e ↦ rw e refl
      | inr e ↦
          let to_read = min (length contents - offset) len in
          rw e (
            copy_to_user-outside (take to_read (drop offset contents)) ptr len k.memory x
              (ground (arith, length-take to_read (drop offset contents))) out)
    ]

after_read-outside :
    (k : Kernel) (fd ptr len offset : ℕ) (r : Option (VfsRun (List ℕ × ReadReport))) (x : ℕ)
    → Apart k.user_map x
    → (x < ptr) ⊎ (ptr + len ≤ x)
    → (after_read k fd ptr len offset r).1.memory x ≡ k.memory x
after_read-outside k fd ptr len offset none x apart out = refl
after_read-outside k fd ptr len offset (some (ok (contents, report), v, a)) x apart out =
    deliver-outside _ fd ptr len offset contents x out
    ∙ add_report-outside k.user_map report k.memory x apart
after_read-outside k fd ptr len offset (some (err e, v, a)) x apart out = refl
after_read-outside k fd ptr len offset (some (panic, v, a)) x apart out = refl

read_serial-outside :
    (k : Kernel) (ptr len x : ℕ)
    → 1 ≤ len
    → (x < ptr) ⊎ (ptr + len ≤ x)
    → (read_serial k ptr).1.memory x ≡ k.memory x
unfolding read_serial
read_serial-outside k ptr len x h out = elim (Option-cases (poll_serial k.serial)) [
  | inl e ↦ rw (e, read_serial) refl
  | inr (ch, e) ↦ rw (e, read_serial) (copy_to_user-outside (ch ∷ []) ptr len k.memory x h out)
]

module _ (as_bytes : Text → List ℕ) where
  read_open-outside :
      (k : Kernel) (fd ptr len : ℕ) (f : OpenFile) (core : Core) (x : ℕ)
      → Apart k.user_map x
      → (x < ptr) ⊎ (ptr + len ≤ x)
      → (read_open as_bytes k fd f ptr len core).1.memory x ≡ k.memory x
  unfolding read_open
  read_open-outside k fd ptr len f core x apart out =
      let contents =
        after_read-outside k fd ptr len f.offset (read_file core.vfs f.path core.allocator) x apart
          out in
      elim (Outcome-cases (resolve_path core.vfs f.path)) [
        | inl p ↦ rw (p, read_open) refl
        | inr (inl (e, p)) ↦ rw (p, read_open) contents
        | inr (inr (idx, p)) ↦ elim (Option-cases (get_elem? core.vfs.inodes idx)) [
          | inl none_here ↦ rw (p, none_here, read_open) refl
          | inr (node, q) ↦ elim (InodeType-cases node.inode_type) [
            | inl (entries, t) ↦ elim (Option-cases (listing core.vfs.inodes entries)) [
              | inl s ↦ rw (p, q, t, s, read_open) refl
              | inr (lines, s) ↦
                  rw (p, q, t, s, read_open)
                    (deliver-outside k fd ptr len f.offset (as_bytes lines) x out)
            ]
            | inr (blocks, size, t) ↦ rw (p, q, t, read_open) contents
          ]
        ]
      ]

  -- Reading changes no memory outside of the buffer that was passed and of the page with the
  -- system's shared counters.
  pub sys_read-outside :
      (k : Kernel) (fd ptr len x : ℕ)
      → Apart k.user_map x
      → (x < ptr) ⊎ (ptr + len ≤ x)
      → (sys_read as_bytes k fd ptr len).1.memory x ≡ k.memory x
  unfolding sys_read
  sys_read-outside k fd ptr len x apart out = elim (Bool-cases (refused k ptr len)) [
    | inl out_ ↦ rw (out_, sys_read) refl
    | inr yes_ ↦ elim (Bool-cases (fd == 0)) [
      | inl z ↦ rw (yes_, z, sys_read) (read_serial-outside k ptr len x (ground arith) out)
      | inr z ↦ elim (Bool-cases (ltb fd 3 || leb 16 fd)) [
        | inl b ↦ rw (yes_, z, b, sys_read) refl
        | inr b ↦ elim (Option-cases (get_elem? k.fd_table fd)) [
          | inl e ↦ rw (yes_, z, b, e, sys_read) refl
          | inr (o, e) ↦ elim (Option-cases o) [
            | inl q ↦ rw (yes_, z, b, e, q, sys_read) refl
            | inr (f, q) ↦ elim (Option-cases k.core) [
              | inl c ↦ rw (yes_, z, b, e, q, c, sys_read) refl
              | inr (core, c) ↦
                  rw (yes_, z, b, e, q, c, sys_read)
                    (read_open-outside k fd ptr len f core x apart out)
            ]
          ]
        ]
      ]
    ]
  ]
