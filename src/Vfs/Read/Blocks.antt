-- ===== src/Vfs/Read/Blocks.antt =====
-- Reading all blocks of a file that hold its data.
use mathlib.Core.List.{◌++◌, append_assoc, append-nil}
use rustix_os.Prelude.{
  ℕ, suc, ◌+◌, ◌*◌, ◌≡◌, ◌∙◌, refl, sym, ap, min, arith, some, List, [], ◌∷◌, length,
}
use rustix_os.Outcome.{ok}
use rustix_os.Frame.{page_size}
use rustix_os.Allocator.{MemoryAllocator}
use rustix_os.Vfs.Write.Page.{AllBytes, HoldsAll}
use rustix_os.Vfs.Read.{block_fuel, read_blocks}
use rustix_os.Vfs.Read.Page.{reading_at, read_block_held}

pub read_blocks_held :
    (bs : List ℕ) (num k : ℕ) (done : List ℕ) (a : MemoryAllocator) (pid : ℕ) (bytes : List ℕ)
    → AllBytes bytes
    → HoldsAll a pid bytes num bs
    → k ≡ min (num * page_size) (length bytes)
    → read_blocks bs (length bytes) done (reading_at bytes k) a
      ≡ some (
        ok (done ++ bs, reading_at bytes (min ((num + length bs) * page_size) (length bytes))),
        a,
      )
unfolding read_blocks
read_blocks_held [] num k done a pid bytes all h e =
    ap (λ (t : ℕ). some (ok (done, reading_at bytes t), a)) (omega arith)
    ∙ ap
        (λ (t : List ℕ).
          some (ok (t, reading_at bytes (min ((num + 0) * page_size) (length bytes))), a))
        (sym (append-nil done))
read_blocks_held (b ∷ bs) num k done a pid bytes all (h, hs) e =
    rw (read_block_held h all block_fuel 0 k (omega arith) (omega arith) (omega arith), read_blocks)
      (read_blocks_held bs (num + 1) (min ((num + 1) * page_size) (length bytes)) (done ++ b ∷ []) a
          pid bytes all hs refl
        ∙ ap (λ (t : ℕ). some (ok ((done ++ b ∷ []) ++ bs, reading_at bytes t), a)) (omega arith)
        ∙ ap
            (λ (t : List ℕ). some (
              ok (t, reading_at bytes (min ((num + suc (length bs)) * page_size) (length bytes))),
              a,
            ))
            (append_assoc done (b ∷ []) bs))
