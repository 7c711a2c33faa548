-- ===== src/Allocator/Relocate.antt =====
-- `relocate_and_quarantine`: where the page goes, and what of its bytes is saved.
use rustix_os.Prelude.{
  ℕ, zero, suc, ◌+◌, ◌<◌, ◌≡◌, ◌≢◌, ◌∙◌, refl, sym, ap, leb, arith, true, false, Option, none, some,
  List, length, get_elem?, get_or, set, lt-of_get_elem?, get_elem?-set, get_elem?-set_self,
  get_elem?-set_ne, set-set, set_elem_same,
}
use rustix_os.Prelude.Range.{set_range, length-set_range, get_or-set_range}
use rustix_os.Outcome.{ok, err, relocation_out_of_memory}
use rustix_os.Ecc.{DecodeResult, no_error, corrected, uncorrectable, decode, encode}
use rustix_os.Frame.{PhysicalFrame, quarantined, is_quarantined, page_size}
use rustix_os.Frame.RoundTrip.{written, write_byte_lem}
use rustix_os.Allocator.{
  MemoryAllocator, Run, total_pages, salvage, copy_page, move_page, isolate,
  relocate_and_quarantine,
}
use rustix_os.Allocator.Invariant.{IsValid, set_frame-IsValid, set_owner-IsValid}
use rustix_os.Allocator.Free.{
  is_free, Allocates, given, exhausted, allocate_page-Allocates, is_free→frame,
}

-- The word that relocation writes at an offset.
abbrev pub saved_word : List ℕ → ℕ → ℕ
saved_word words o = encode (salvage (decode (get_or words o 0)))

-- The fresh frame at the end of the copying loop.
abbrev pub filled : PhysicalFrame → PhysicalFrame → PhysicalFrame
filled f g = record g { words = set_range (saved_word f.words) page_size 0 g.words }

copy_page_lem :
    (left o : ℕ) (a : MemoryAllocator) (d n : ℕ) (f g : PhysicalFrame)
    → d ≢ n
    → o + left ≡ page_size
    → get_elem? a.frames d ≡ some f
    → get_elem? a.frames n ≡ some g
    → is_quarantined g.status ≡ false
    → copy_page left o a d n ≡ (
      ok tt,
      record a {
        frames =
            set a.frames n (record g { words = set_range (saved_word f.words) left o g.words });
      },
    )
unfolding copy_page set_range
copy_page_lem zero o a d n f g ne e hf hg q =
    ap (λ (t : List PhysicalFrame). (ok tt, record a { frames = t }))
      (sym (set_elem_same a.frames n g hg))
copy_page_lem (suc left) o a d n f g ne e hf hg q =
    let g' = written g o (salvage (decode (get_or f.words o 0))) in
    rw
      (
        hf,
        hg,
        write_byte_lem g o (salvage (decode (get_or f.words o 0))) q (omega arith),
        copy_page,
      )
      (copy_page_lem left (o + 1) (record a { frames = set a.frames n g' }) d n f g' ne
          (omega arith) (get_elem?-set_ne a.frames g' (λ h. ne (sym h)) ∙ hf)
          (get_elem?-set_self a.frames n g' (lt-of_get_elem? a.frames n hg)) q
        ∙ ap (λ (t : List PhysicalFrame). (ok tt, record a { frames = t }))
            (set-set a.frames n g' _))

-- What becomes of a word: its byte is encoded afresh, and is 0 if the word is destroyed.
pub data Saves : DecodeResult → ℕ → Type 0 where
  intact : (v : ℕ) → Saves (no_error v) (encode v)
  repaired : (v p : ℕ) → Saves (corrected v p) (encode v)
  lost : Saves uncorrectable (encode 0)

salvage-Saves : (r : DecodeResult) → Saves r (encode (salvage r))
unfolding salvage
salvage-Saves (no_error v) = intact v
salvage-Saves (corrected v p) = repaired v p
salvage-Saves uncorrectable = lost

-- What of a damaged frame `f` arrives in the fresh frame `g`, which becomes `g'`.
pub record Saved (f g g' : PhysicalFrame) : Type 0 where
  pub index : g'.index ≡ g.index
  pub status : g'.status ≡ g.status
  pub size : length g'.words ≡ page_size
  pub bytes : (o : ℕ) → o < page_size → get_or g'.words o 0 ≡ saved_word f.words o
  pub saves : (o : ℕ) → o < page_size → Saves (decode (get_or f.words o 0)) (get_or g'.words o 0)

saved_word-Saves :
    (f g : PhysicalFrame) (o : ℕ)
    → get_or g.words o 0 ≡ saved_word f.words o
    → Saves (decode (get_or f.words o 0)) (get_or g.words o 0)
saved_word-Saves f g o e = rw e (salvage-Saves (decode (get_or f.words o 0)))

filled_word :
    (f g : PhysicalFrame) (o : ℕ)
    → length g.words ≡ page_size
    → o < page_size
    → get_or (filled f g).words o 0 ≡ saved_word f.words o
filled_word f g o h lt =
    get_or-set_range (saved_word f.words) page_size 0 o g.words 0 (omega arith) ∙ ground arith

filled-Saved : (f g : PhysicalFrame) → length g.words ≡ page_size → Saved f g (filled f g)
filled-Saved f g h = record {
  index = refl;
  status = refl;
  size = length-set_range (saved_word f.words) page_size 0 g.words ∙ h;
  bytes = λ o lt. filled_word f g o h lt;
  saves = λ o lt. saved_word-Saves f (filled f g) o (filled_word f g o h lt);
}

-- The allocator with frame `d`, which held `f`, quarantined and unowned.
abbrev pub without : MemoryAllocator → ℕ → PhysicalFrame → MemoryAllocator
without a d f = record {
  frames = set a.frames d (record f { status = quarantined });
  allocation_map = set a.allocation_map d none;
}

-- What relocation from frame `d`, which holds `f` for `pid`, may answer.
pub data Relocates (a : MemoryAllocator) (d pid : ℕ) (f : PhysicalFrame) : Run ℕ → Type 0 where
  moved :
      (n : ℕ) (g g' : PhysicalFrame)
      → n < total_pages
      → n ≢ d
      → is_free a n ≡ true
      → get_elem? a.frames n ≡ some g
      → Saved f g g'
      → Relocates a d pid f (
        ok n,
        record {
          frames = set (without a d f).frames n g';
          allocation_map = set (without a d f).allocation_map n (some pid);
        },
      )
  no_room :
      ((j : ℕ) → j < total_pages → j ≢ d → is_free a j ≡ false)
      → Relocates a d pid f (err relocation_out_of_memory, without a d f)

module _ {a : MemoryAllocator} (valid : IsValid a) (d pid : ℕ) (f : PhysicalFrame)
    (hf : get_elem? a.frames d ≡ some f) where
  pub isolate-IsValid : IsValid (without a d f)
  isolate-IsValid =
      set_owner-IsValid
        (set_frame-IsValid valid d (record f { status = quarantined })
          (record {
            valid = record { full = (valid.each d f hf).valid.full; health = tt };
            at_index = (valid.each d f hf).at_index;
          }))
        d none

  -- The isolated frame is not free, and the others are as before.
  is_free-isolate_self : is_free (isolate a d f) d ≡ false
  unfolding isolate
  is_free-isolate_self = ground (
    arith,
    get_elem?-set a.allocation_map d d none,
    get_elem?-set a.frames d d (record f { status = quarantined }),
    lt-of_get_elem? a.frames d hf,
  )

  is_free-isolate_ne : (j : ℕ) → j ≢ d → is_free (isolate a d f) j ≡ is_free a j
  unfolding isolate
  is_free-isolate_ne j ne = ground (
    arith,
    get_elem?-set_ne a.allocation_map {i = d} {j = j} none (λ h. ne (sym h)),
    get_elem?-set_ne a.frames {i = d} {j = j} (record f { status = quarantined }) (λ h. ne (sym h)),
  )

  ne_of_free : {n : ℕ} → n ≡ d → is_free (isolate a d f) n ≡ true → ⊥
  ne_of_free {n} e h = cc (is_free-isolate_self, ap (is_free (isolate a d f)) e)

  frame-isolate_ne : (j : ℕ) → j ≢ d → get_elem? (isolate a d f).frames j ≡ get_elem? a.frames j
  unfolding isolate
  frame-isolate_ne j ne =
      get_elem?-set_ne a.frames {i = d} {j = j} (record f { status = quarantined })
        (λ h. ne (sym h))

  move_page-Relocates :
      {r : Run (Option ℕ)} → Allocates (isolate a d f) pid r → Relocates a d pid f (move_page d r)
  unfolding isolate
  move_page-Relocates (given n hn free _) =
      let a' = isolate a d f in
      let a'' = record a' { allocation_map = set a'.allocation_map n (some pid) } in
      let found = is_free→frame a' n free in
      let g = found.0 in
      let ne : n ≢ d = λ e. ne_of_free e free in
      rw
        (copy_page_lem page_size 0 a'' d n (record f { status = quarantined }) g (λ e. ne (sym e))
          refl (get_elem?-set_self a.frames d _ (lt-of_get_elem? a.frames d hf)) found.1 found.2)
        (moved n g (filled f g) hn ne (sym (is_free-isolate_ne n ne) ∙ free)
          (sym (frame-isolate_ne n ne) ∙ found.1)
          (filled-Saved f g (isolate-IsValid.each n g found.1).valid.full))
  move_page-Relocates (exhausted none_free) =
      no_room (λ j hj ne. sym (is_free-isolate_ne j ne) ∙ none_free j (omega arith) hj)

lt_leb : (d : ℕ) → d < total_pages → leb total_pages d ≡ false
lt_leb d h = ground arith

-- On a valid allocator, relocating a frame that a process owns does not panic. Either the page goes
-- to a free frame other than the damaged one, which then belongs to the process and holds what the
-- code can save of each byte, 0 where nothing can, and the damaged frame is quarantined and unowned;
-- or no other frame is free, and the error is returned with the frame quarantined and unowned.
pub relocate-Relocates :
    (a : MemoryAllocator) (d pid : ℕ) (f : PhysicalFrame)
    → IsValid a
    → get_elem? a.allocation_map d ≡ some (some pid)
    → get_elem? a.frames d ≡ some f
    → Relocates a d pid f (relocate_and_quarantine a d)
unfolding relocate_and_quarantine
relocate-Relocates a d pid f valid owned hf =
    let lt : d < total_pages = rw (← valid.frames_full) (lt-of_get_elem? a.frames d hf) in
    rw (lt_leb d lt, owned, hf, relocate_and_quarantine)
      (move_page-Relocates valid d pid f hf
        (allocate_page-Allocates (isolate a d f) pid (isolate-IsValid valid d pid f hf)))
