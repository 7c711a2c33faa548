-- ===== src/Vfs/Write/Page.antt =====
-- One page of a file: what the filling loop writes, and what it leaves alone.
use rustix_os.Prelude.{
  ℕ, zero, suc, ◌+◌, ◌*◌, ◌<◌, ◌≡◌, ◌∙◌, sym, ap, false, arith, some, List, [], ◌∷◌, length,
  get_elem?, get_or, set, set-set, set_elem_same, lt-of_get_elem?, get_elem?-set_self,
}
use rustix_os.Prelude.Range.{set_range}
use mathlib.Core.List.{◌++◌}
use mathlib.Core.Path.{subst}
use rustix_os.Outcome.{ok}
use rustix_os.Ecc.{encode}
use rustix_os.Frame.{PhysicalFrame, is_quarantined, page_size, write_byte}
use rustix_os.Frame.RoundTrip.{written, write_byte_lem}
use rustix_os.Allocator.{MemoryAllocator}
use rustix_os.Allocator.Invariant.{on_frame_lem}
use rustix_os.Vfs.Write.{page_byte, fill_page}

-- The bytes of a file: numbers below 256.
abbrev pub AllBytes : List ℕ → Type 0
AllBytes [] = Unit {0}
AllBytes (b ∷ bs) = (b < 256) × AllBytes bs

pub get_or-lt : (bs : List ℕ) (i : ℕ) → AllBytes bs → get_or bs i 0 < 256
get_or-lt [] i h = omega arith
get_or-lt (b ∷ bs) zero h = h.0
get_or-lt (b ∷ bs) (suc i) h = get_or-lt bs i h.1

abbrev pub page_words : List ℕ → ℕ → ℕ → ℕ
page_words bytes start o = encode (page_byte bytes start o)

abbrev pub filled : List ℕ → ℕ → PhysicalFrame → PhysicalFrame
filled bytes start g = record g { words = set_range (page_words bytes start) page_size 0 g.words }

pub fill_page_lem :
    (left o : ℕ) (a : MemoryAllocator) (n : ℕ) (g : PhysicalFrame) (bytes : List ℕ) (start : ℕ)
    → o + left ≡ page_size
    → get_elem? a.frames n ≡ some g
    → is_quarantined g.status ≡ false
    → fill_page left o a n bytes start ≡ (
      ok tt,
      record a {
        frames =
            set a.frames n (record g { words = set_range (page_words bytes start) left o g.words });
      },
    )
unfolding fill_page set_range
fill_page_lem zero o a n g bytes start e hg q =
    ap (λ (t : List PhysicalFrame). (ok tt, record a { frames = t }))
      (sym (set_elem_same a.frames n g hg))
fill_page_lem (suc left) o a n g bytes start e hg q =
    let g' = written g o (page_byte bytes start o) in
    let step = on_frame_lem a n (λ f. write_byte f o (page_byte bytes start o)) hg in
    let done = write_byte_lem g o (page_byte bytes start o) q (omega arith) in
    rw (step, done, fill_page)
      (rw (step, done)
        (fill_page_lem left (o + 1) (record a { frames = set a.frames n g' }) n g' bytes start
            (omega arith) (get_elem?-set_self a.frames n g' (lt-of_get_elem? a.frames n hg)) q
          ∙ ap (λ (t : List PhysicalFrame). (ok tt, record a { frames = t }))
              (set-set a.frames n g' _)))

-- Frame `b` belongs to `pid` and holds page `num` of the data.
pub record Holds (a : MemoryAllocator) (pid : ℕ) (bytes : List ℕ) (num b : ℕ) : Type 0 where
  pub frame : PhysicalFrame
  pub at_block : get_elem? a.frames b ≡ some frame
  pub usable : is_quarantined frame.status ≡ false
  pub owned : get_elem? a.allocation_map b ≡ some (some pid)
  pub words :
      (o : ℕ) → o < page_size → get_or frame.words o 0 ≡ page_words bytes (num * page_size) o

abbrev pub HoldsAll : MemoryAllocator → ℕ → List ℕ → ℕ → List ℕ → Type 0
HoldsAll a pid bytes num [] = Unit {0}
HoldsAll a pid bytes num (b ∷ bs) = Holds a pid bytes num b × HoldsAll a pid bytes (num + 1) bs

pub HoldsAll-snoc :
    (a : MemoryAllocator) (pid : ℕ) (bytes : List ℕ) (num k : ℕ) (bs : List ℕ) (b : ℕ)
    → num + length bs ≡ k
    → HoldsAll a pid bytes num bs
    → Holds a pid bytes k b
    → HoldsAll a pid bytes num (bs ++ b ∷ [])
HoldsAll-snoc a pid bytes num k [] b e h held =
    let e' : k ≡ num = omega arith in (subst (λ (t : ℕ). Holds a pid bytes t b) e' held, tt)
HoldsAll-snoc a pid bytes num k (x ∷ bs) b e h held =
    (h.0, HoldsAll-snoc a pid bytes (num + 1) k bs b (omega arith) h.1 held)

-- Steps that keep every owned frame keep the pages that were written.
abbrev pub KeepsOwned : MemoryAllocator → MemoryAllocator → Type 0
KeepsOwned a a' =
    (b pid : ℕ)
    → get_elem? a.allocation_map b ≡ some (some pid)
    → (get_elem? a'.frames b ≡ get_elem? a.frames b)
      × (get_elem? a'.allocation_map b ≡ get_elem? a.allocation_map b)

pub HoldsAll-KeepsOwned :
    (a a' : MemoryAllocator) (pid : ℕ) (bytes : List ℕ) (num : ℕ) (bs : List ℕ)
    → KeepsOwned a a'
    → HoldsAll a pid bytes num bs
    → HoldsAll a' pid bytes num bs
HoldsAll-KeepsOwned a a' pid bytes num [] k h = tt
HoldsAll-KeepsOwned a a' pid bytes num (b ∷ bs) k (h, hs) =
    let same = k b pid h.owned in
    (
      record {
        frame = h.frame;
        at_block = same.0 ∙ h.at_block;
        usable = h.usable;
        owned = same.1 ∙ h.owned;
        words = h.words;
      },
      HoldsAll-KeepsOwned a a' pid bytes (num + 1) bs k hs,
    )
