-- ===== src/Vfs/Read/Page.antt =====
-- Reading a page that holds its part of a file.
use rustix_os.Prelude.{
  ℕ, zero, suc, ◌+◌, ◌*◌, ◌≤◌, ◌<◌, ◌≡◌, ◌∙◌, sym, ap, ltb, ◌&&◌, min, arith, Bool-cases, inl, inr,
  none, some, List, length, get_or, take, set_elem_same,
}
use rustix_os.Prelude.Range.{take-suc}
use rustix_os.Outcome.{ok}
use rustix_os.Ecc.Correct.{decode-encode}
use rustix_os.Frame.{PhysicalFrame, page_size, read_byte}
use rustix_os.Frame.RoundTrip.{read_byte_lem}
use rustix_os.Allocator.{MemoryAllocator, on_frame}
use rustix_os.Allocator.Invariant.{on_frame_lem}
use rustix_os.Vfs.Write.{page_byte}
use rustix_os.Vfs.Write.Page.{AllBytes, get_or-lt, Holds}
use rustix_os.Vfs.Read.{Reading, take_byte, read_block}

-- The loop's variables after the first `k` bytes, with no correction so far.
abbrev pub reading_at : List ℕ → ℕ → Reading
reading_at bytes k = record {
  file_data = take k bytes;
  bytes_read = k;
  report = record { ecc_corrections = 0; pages_quarantined = 0; pages_relocated = 0 };
}

take_byte-reading_at :
    (bytes : List ℕ) (k : ℕ)
    → k < length bytes
    → take_byte (get_or bytes k 0) none (reading_at bytes k) ≡ reading_at bytes (k + 1)
take_byte-reading_at bytes k h =
    ap
      (λ (t : List ℕ). record {
        file_data = t;
        bytes_read = k + 1;
        report = record { ecc_corrections = 0; pages_quarantined = 0; pages_relocated = 0 };
      })
      (sym (take-suc k bytes 0 h))

page_byte_in :
    (bytes : List ℕ) (num o : ℕ)
    → o < page_size
    → num * page_size + o < length bytes
    → page_byte bytes (num * page_size) o ≡ get_or bytes (num * page_size + o) 0
unfolding page_byte
page_byte_in bytes num o ho hb = ground arith

module _ {a : MemoryAllocator} {pid : ℕ} {bytes : List ℕ} {num b : ℕ} (h : Holds a pid bytes num b)
    (all : AllBytes bytes) where
  -- A byte of the page, read: nothing is corrected and the allocator stays as it is.
  read_held :
      (o : ℕ)
      → o < page_size
      → num * page_size + o < length bytes
      → on_frame a b (λ f. read_byte f o) ≡ (ok (get_or bytes (num * page_size + o) 0, none), a)
  read_held o ho hb =
      on_frame_lem a b (λ f. read_byte f o) h.at_block
      ∙ rw
          (
            read_byte_lem h.frame o ho,
            h.words o ho,
            page_byte_in bytes num o ho hb,
            decode-encode (get_or bytes (num * page_size + o) 0)
                (get_or-lt bytes (num * page_size + o) all),
          )
          (ap
            (λ (t : List PhysicalFrame).
              (ok (get_or bytes (num * page_size + o) 0, none), record a { frames = t }))
            (set_elem_same a.frames b h.frame h.at_block))

  read_at :
      (o k : ℕ)
      → o < page_size
      → k < length bytes
      → k ≡ num * page_size + o
      → on_frame a b (λ f. read_byte f o) ≡ (ok (get_or bytes k 0, none), a)
  read_at o k ho hk e = rw e (read_held o ho (rw (← e) hk))

  -- The loop over the page reads what is left of the data, up to the end of the page.
  pub read_block_held :
      (fuel o k : ℕ)
      → o ≤ page_size
      → page_size < fuel + o
      → k ≡ min (num * page_size + o) (length bytes)
      → read_block fuel o (length bytes) b (reading_at bytes k) a
        ≡ some (ok (b, reading_at bytes (min ((num + 1) * page_size) (length bytes))), a)
  unfolding read_block
  read_block_held zero o k ho hf hk = absurd (omega arith)
  read_block_held (suc fuel) o k ho hf hk =
      elim (Bool-cases (ltb o page_size && ltb k (length bytes))) [
        | inl more ↦
            let got = read_at o k (ground arith) (ground arith) (ground arith) in
            let next = take_byte-reading_at bytes k (ground arith) in
            rw (more, read_block)
              (rw (got, read_block)
                (rw (got, next)
                  (read_block_held fuel (o + 1) (k + 1) (ground arith) (omega arith)
                    (ground arith))))
        | inr over ↦
            rw (over, read_block)
              (ap (λ (t : ℕ). some (ok (b, reading_at bytes t), a)) (ground arith))
      ]
