-- ===== src/Vfs/Write/Blocks.antt =====
-- `write_file` and its loops: the blocks hold the data, or the write fails for want of frames.
use mathlib.Core.List.{◌++◌}
use mathlib.Core.Path.{subst}
use rustix_os.Prelude.{
  ℕ, zero, suc, ◌+◌, ◌*◌, ◌<◌, ◌≤◌, ◌≡◌, ◌≢◌, ◌∙◌, ◌⊎◌, refl, sym, ap, true, false, leb, arith,
  Bool-cases, inl, inr, none, some, List, [], ◌∷◌, length, get_elem?, set, lt-of_get_elem?,
  get_elem?-set_self, get_elem?-set_ne, length-append,
}
use rustix_os.Prelude.Range.{length-set_range, get_or-set_range}
use rustix_os.Outcome.{ok, err, out_of_blocks}
use rustix_os.Frame.{PhysicalFrame, is_quarantined, page_size}
use rustix_os.Allocator.{MemoryAllocator, Run, total_pages}
use rustix_os.Allocator.Invariant.{
  IsValid, Fits, set_frame-IsValid, set_owner-IsValid, deallocate_page-eq,
}
use rustix_os.Allocator.Free.{
  is_free, NoneFree, allocate_page_cases, is_free→frame, is_free→unowned,
}
use rustix_os.Vfs.Write.{free_blocks, write_blocks}
use rustix_os.Vfs.Write.Room.{
  Listed, IsUsable, disowned, is_free-disowned, is_free-disowned_self, Accounted, Accounted-stored,
}
use rustix_os.Vfs.Write.Page.{
  page_words, filled, fill_page_lem, Holds, HoldsAll, HoldsAll-snoc, KeepsOwned,
  HoldsAll-KeepsOwned,
}

-- Freeing blocks does not panic, and every block that is not quarantined is free after it.
pub record Frees (bs : List ℕ) (a : MemoryAllocator) (r : Run (Unit {0})) : Type 0 where
  pub after : MemoryAllocator
  pub returns : r ≡ (ok tt, after)
  pub valid : IsValid after
  pub keeps : (j : ℕ) → is_free a j ≡ true → is_free after j ≡ true
  pub frees : (j : ℕ) → Listed j bs → IsUsable a j → is_free after j ≡ true

page_of_test : (b : ℕ) → leb total_pages b ≡ true → total_pages ≤ b
page_of_test b h = ground arith

Frees-skip :
    {b : ℕ} {bs : List ℕ} {a : MemoryAllocator} {r : Run (Unit {0})}
    → IsValid a
    → leb total_pages b ≡ true
    → Frees bs a r
    → Frees (b ∷ bs) a r
Frees-skip {b} {bs} {a} valid e r = record {
  after = r.after;
  returns = r.returns;
  valid = r.valid;
  keeps = r.keeps;
  frees = λ j listed usable. frees j listed usable;
}
  where
    frees : (j : ℕ) → Listed j (b ∷ bs) → IsUsable a j → is_free r.after j ≡ true
    frees j (inl same) (f, hf, q) =
        absurd
          (omega (arith, page_of_test b e, same, lt-of_get_elem? a.frames j hf, valid.frames_full))
    frees j (inr listed) usable = r.frees j listed usable

Frees-cons :
    {b : ℕ} {bs : List ℕ} {a : MemoryAllocator} {r : Run (Unit {0})}
    → IsValid a
    → Frees bs (disowned a b) r
    → Frees (b ∷ bs) a r
Frees-cons {b} {bs} {a} valid r = record {
  after = r.after;
  returns = r.returns;
  valid = r.valid;
  keeps = λ j free. r.keeps j (is_free-disowned a b j free);
  frees = λ j listed usable. frees j listed usable;
}
  where
    frees : (j : ℕ) → Listed j (b ∷ bs) → IsUsable a j → is_free r.after j ≡ true
    frees j (inl same) usable = r.keeps j (
        subst (λ k. is_free (disowned a b) k ≡ true) same
          (is_free-disowned_self a b valid (subst (IsUsable a) (sym same) usable)))
    frees j (inr listed) usable = r.frees j listed usable

pub free_blocks-Frees :
    (bs : List ℕ) (a : MemoryAllocator) → IsValid a → Frees bs a (free_blocks bs a)
unfolding free_blocks
free_blocks-Frees [] a valid = record {
  after = a;
  returns = refl;
  valid = valid;
  keeps = λ j free. free;
  frees = λ j listed usable. absurd listed;
}
free_blocks-Frees (b ∷ bs) a valid = elim (Bool-cases (leb total_pages b)) [
  | inl e ↦
      rw (deallocate_page-eq valid b, e, free_blocks)
        (rw (deallocate_page-eq valid b, e) (Frees-skip valid e (free_blocks-Frees bs a valid)))
  | inr e ↦
      rw (deallocate_page-eq valid b, e, free_blocks)
        (rw (deallocate_page-eq valid b, e)
          (Frees-cons valid (free_blocks-Frees bs _ (set_owner-IsValid valid b none))))
]

-- The allocator after frame `n` went to `pid` and was filled.
abbrev pub stored : MemoryAllocator → ℕ → ℕ → PhysicalFrame → MemoryAllocator
stored a pid n g' = record {
  frames = set a.frames n g';
  allocation_map = set a.allocation_map n (some pid);
}

module _ {a : MemoryAllocator} (valid : IsValid a) (pid n : ℕ) (g : PhysicalFrame) (bytes : List ℕ)
    (num : ℕ) (free : is_free a n ≡ true) (hg : get_elem? a.frames n ≡ some g) where
  Fits-filled : Fits n (filled bytes (num * page_size) g)
  Fits-filled =
      let fit = valid.each n g hg in
      record {
        valid = record {
          full =
              length-set_range (page_words bytes (num * page_size)) page_size 0 g.words
              ∙ fit.valid.full;
          health = fit.valid.health;
        };
        at_index = fit.at_index;
      }

  stored-IsValid : IsValid (stored a pid n (filled bytes (num * page_size) g))
  stored-IsValid = set_owner-IsValid (set_frame-IsValid valid n _ Fits-filled) n (some pid)

  stored-Holds :
      is_quarantined g.status ≡ false
      → Holds (stored a pid n (filled bytes (num * page_size) g)) pid bytes num n
  stored-Holds q =
      let g' = filled bytes (num * page_size) g in
      record {
        frame = g';
        at_block = get_elem?-set_self a.frames n g' (lt-of_get_elem? a.frames n hg);
        usable = q;
        owned =
            get_elem?-set_self a.allocation_map n (some pid)
              (lt-of_get_elem? a.allocation_map n (is_free→unowned a n free));
        words = λ o h.
            get_or-set_range (page_words bytes (num * page_size)) page_size 0 o g.words 0
              (rw (valid.each n g hg).valid.full (omega arith))
            ∙ ground arith;
      }

  stored-KeepsOwned : KeepsOwned a (stored a pid n (filled bytes (num * page_size) g))
  stored-KeepsOwned b p owned =
      let ne : n ≢ b = λ e. ne_of_owned e in
      (
        get_elem?-set_ne a.frames (filled bytes (num * page_size) g) ne,
        get_elem?-set_ne a.allocation_map (some pid) ne,
      )
    where
      ne_of_owned : n ≡ b → ⊥
      ne_of_owned e = cc (is_free→unowned a n free, ap (get_elem? a.allocation_map) e)

-- What the loop over the pages may answer: the blocks hold the data, or every frame
-- that was free in `start` is among fewer frames than needed.
pub data Writes (start : MemoryAllocator) (bytes : List ℕ) (pid total : ℕ)
    : Run (List ℕ) → Type 0 where
  wrote :
      (bs : List ℕ) (a' : MemoryAllocator)
      → IsValid a'
      → length bs ≡ total
      → HoldsAll a' pid bytes 0 bs
      → Writes start bytes pid total (ok bs, a')
  no_frames :
      (bs : List ℕ) (a' : MemoryAllocator)
      → length bs < total
      → ((j : ℕ) → is_free start j ≡ true → Listed j bs)
      → IsValid a'
      → Writes start bytes pid total (err out_of_blocks, a')

module _ {a : MemoryAllocator} (valid : IsValid a) (none_free : NoneFree a 0 total_pages) where
  all_taken : (blocks : List ℕ) (j : ℕ) → (is_free a j ≡ true) ⊎ Listed j blocks → Listed j blocks
  all_taken blocks j (inl still) =
      let lt = lt-of_get_elem? a.allocation_map j (is_free→unowned a j still) in
      absurd (cc (still, none_free j (omega arith) (omega (arith, lt, valid.map_full))))
  all_taken blocks j (inr listed) = listed

pub write_blocks-Writes :
    (left num total : ℕ) (blocks : List ℕ) (start a : MemoryAllocator) (bytes : List ℕ) (pid : ℕ)
    → IsValid a
    → Accounted start a blocks
    → length blocks ≡ num
    → num + left ≡ total
    → HoldsAll a pid bytes 0 blocks
    → Writes start bytes pid total (write_blocks left num blocks a bytes pid)
unfolding write_blocks
write_blocks-Writes zero num total blocks start a bytes pid valid acc e e' h =
    wrote blocks a valid (omega arith) h
write_blocks-Writes (suc left) num total blocks start a bytes pid valid acc e e' h =
    elim (allocate_page_cases a pid valid) [
      | inr (none_free, no_more) ↦
          let freed = free_blocks-Frees blocks a valid in
          rw (no_more, write_blocks)
            (rw (no_more, freed.returns)
              (no_frames blocks freed.after (omega arith)
                (λ j free. all_taken valid none_free blocks j (acc j free)) freed.valid))
      | inl (n, lt, free, _, took) ↦
          let found = is_free→frame a n free in
          let given_n = record a { allocation_map = set a.allocation_map n (some pid) } in
          let full =
            fill_page_lem page_size 0 given_n n found.0 bytes (num * page_size) refl found.1
              found.2 in
          let others = stored-KeepsOwned valid pid n found.0 bytes num free found.1 in
          let a' = stored a pid n (filled bytes (num * page_size) found.0) in
          rw (took, write_blocks)
            (rw (took, full)
              (rw (took, full)
                (write_blocks-Writes left (num + 1) total (blocks ++ n ∷ []) start a' bytes pid
                  (stored-IsValid valid pid n found.0 bytes num free found.1)
                  (Accounted-stored start a blocks pid n _ acc)
                  (omega (arith, length-append blocks (n ∷ []))) (omega arith)
                  (HoldsAll-snoc a' pid bytes 0 num blocks n (omega arith)
                    (HoldsAll-KeepsOwned a a' pid bytes 0 blocks others h)
                    (stored-Holds valid pid n found.0 bytes num free found.1 found.2)))))
    ]
