-- ===== src/Tests.antt =====
-- Small runs of the model, and the theorems at concrete inputs: memory and scheduler.
use Prim.Native.Nat.{bit_xor}
use rustix_os.Prelude.{
  ℕ, ◌<◌, ◌≡◌, ◌≢◌, ◌↔◌, refl, true, ◌==◌, ==_iff, some, replicate, [], ◌∷◌, length, if◌then◌else◌,
  ◌⊎◌, arith, get_or,
}
use rustix_os.Outcome.{ok, err}
use rustix_os.Ecc.{
  encode, decode, odd_ones, syndrome, extract_data, corrected, uncorrectable, no_error,
}
use rustix_os.Ecc.Correct.{decode-encode, decode-flip, decode-flip_twice}
use rustix_os.Frame
use rustix_os.Frame.{
  PhysicalFrame, read_byte, write_byte, flip_bit, note_correction, PageStatus, healthy, recovered,
  quarantined, is_quarantined,
}
use rustix_os.Frame.Health
use rustix_os.Frame.Health.{read_byte-IsValid, note_corrections, note_corrections_lem}
use rustix_os.Frame.RoundTrip.{Counts, read_byte-flip_bit, read_byte-flip_bit_twice}
use rustix_os.Allocator
use rustix_os.Allocator.{
  MemoryAllocator, on_frame, inject_bit_flip, find_free, allocate_page, deallocate_page,
  relocate_and_quarantine,
}
use rustix_os.Allocator.Invariant
use rustix_os.Allocator.Invariant.{inject_bit_flip-IsValid}
use rustix_os.Allocator.Free.{
  Allocates, allocate_page-IsValid, allocate_page-Allocates, deallocate_page-allocate_page,
}
use rustix_os.Allocator.Relocate.{Relocates, relocate-Relocates}
use rustix_os.Scrubber.{is_active, snapshot, read_page, scrub_page, scrub_pages, sweep}
use rustix_os.Scrubber.Scan.{is_clean}
use rustix_os.Scrubber.Sweep.{sweep-settles}
use rustix_os.Tmr.{vote, execute_redundant, perfect, failed, corrected as tmr_corrected}
use rustix_os.Tmr.Vote.{vote-majority, vote-status, execute_redundant_masks}
use rustix_os.Dispatcher
use rustix_os.Dispatcher.{TaskDispatcher, execute_step, spawn_process, log_event, tmr_active}
use rustix_os.Dispatcher.Log
use rustix_os.Dispatcher.Log.{length-log_event}
use rustix_os.Dispatcher.Step.{Keeps, execute_step-Keeps}
use rustix_os.Dispatcher.Spawn.{Spawns, spawn_process-Spawns}

encode_sample : encode 0xA5 ≡ 0xA27
unfolding encode
encode_sample = refl

-- All 64 frames are free at the start.
first_frame : (allocate_page Allocator.new 42).0 ≡ ok (some 0)
unfolding allocate_page find_free Allocator.new Frame.new
first_frame = refl

decode-encode_example : decode (encode 0x55) ≡ no_error 0x55
decode-encode_example = decode-encode 0x55 (omega arith)

decode-flip_example : decode (bit_xor (encode 0xA5) 16) ≡ corrected 0xA5 5
decode-flip_example = decode-flip 0xA5 4 (omega arith) (omega arith)

decode-flip_twice_example : decode (bit_xor (bit_xor (encode 0x3C) 128) 8) ≡ uncorrectable
decode-flip_twice_example = decode-flip_twice 0x3C 7 3 (omega arith) (omega arith) (omega arith)

-- A frame that holds 0xA5 everywhere.
abbrev held : PhysicalFrame
held = record (Frame.new 3 192) { words = replicate 64 (encode 0xA5) }

held-IsValid : Health.IsValid held
unfolding Frame.new
held-IsValid = record { full = refl; health = tt }

held_word : get_or held.words 5 0 ≡ encode 0xA5
unfolding Frame.new
held_word = refl

read_byte-flip_bit_example :
    (s : PageStatus) × Counts held.status s
    × (read_byte (flip_bit held 5 2) 5 ≡ (
      ok (0xA5, some (record { frame_index = held.index; offset = 5; bit_position = 3 })),
      record held { words = held.words; status = s },
    ))
read_byte-flip_bit_example =
    read_byte-flip_bit held 5 0xA5 2 held-IsValid (omega arith) (omega arith) (omega arith)
      held_word

read_byte-flip_bit_twice_example :
    read_byte (flip_bit (flip_bit held 5 9) 5 2) 5
    ≡ (err held.index, record (flip_bit (flip_bit held 5 9) 5 2) { status = quarantined })
read_byte-flip_bit_twice_example =
    read_byte-flip_bit_twice held 5 0xA5 9 2 held-IsValid (omega arith) (omega arith) (omega arith)
      (omega arith) (omega arith) held_word

-- Process 42 owns frame 0.
abbrev owned : MemoryAllocator
owned = (allocate_page Allocator.new 42).1

owned-IsValid : Invariant.IsValid owned
owned-IsValid = allocate_page-IsValid Allocator.new 42 Invariant.new-IsValid

allocate_page-Allocates_example : Allocates owned 7 (allocate_page owned 7)
allocate_page-Allocates_example = allocate_page-Allocates owned 7 owned-IsValid

deallocate_page-allocate_page_example : deallocate_page owned 0 ≡ (ok tt, Allocator.new)
unfolding allocate_page find_free Allocator.new Frame.new
deallocate_page-allocate_page_example =
    deallocate_page-allocate_page Allocator.new 42 0 Invariant.new-IsValid refl

-- One bit of byte 3 of that frame has flipped.
abbrev struck : MemoryAllocator
struck = (inject_bit_flip owned 0 3 2).1

struck-IsValid : Invariant.IsValid struck
struck-IsValid = inject_bit_flip-IsValid owned-IsValid 0 3 2

abbrev struck_frame : PhysicalFrame
struck_frame = flip_bit (Frame.new 0 0) 3 2

relocate-Relocates_example : Relocates struck 0 42 struck_frame (relocate_and_quarantine struck 0)
unfolding allocate_page find_free Allocator.new Frame.new inject_bit_flip flip_bit
relocate-Relocates_example = relocate-Relocates struck 0 42 struck_frame struck-IsValid refl refl

swept_frame : PhysicalFrame
swept_frame = record (Frame.new 0 0) { status = recovered 1 }

sweep-settles_example :
    (is_quarantined swept_frame.status ≡ true)
    ⊎ (is_clean (decode (get_or swept_frame.words 3 0)) ≡ true)
unfolding allocate_page find_free Allocator.new Frame.new inject_bit_flip flip_bit sweep scrub_pages
    scrub_page read_page snapshot is_active on_frame read_byte decode odd_ones syndrome extract_data
    encode note_correction swept_frame
sweep-settles_example =
    sweep-settles struck 0 swept_frame 3 struck-IsValid (omega arith) refl refl (omega arith)

-- Equality of numbers decides `PartialEq`.
same_lawful : (a b : ℕ) → ((a == b) ≡ true) ↔ (a ≡ b)
same_lawful = ==_iff

abbrev four : ℕ
four = 4

abbrev nine : ℕ
nine = 9

vote-majority_example :
    ((vote ◌==◌ (λ n. "n") 4 9 4).value ≡ some 4)
    ↔ ((four ≡ 4) × (nine ≡ 4) ⊎ (four ≡ 4) × (four ≡ 4) ⊎ (nine ≡ 4) × (four ≡ 4))
vote-majority_example = vote-majority ◌==◌ (λ n. "n") same_lawful 4 9 4 4

vote-status_example :
    (((vote ◌==◌ (λ n. "n") 4 4 4).status ≡ perfect) ↔ (four ≡ 4) × (four ≡ 4))
    × (((vote ◌==◌ (λ n. "n") 4 4 4).status ≡ failed) ↔ (four ≢ 4) × (four ≢ 4) × (four ≢ 4))
vote-status_example = vote-status ◌==◌ (λ n. "n") same_lawful 4 4 4

-- The second runner strays.
runs : ℕ → ℕ
runs j = if j == 1 then 8 else 4

runs_agree : (j : ℕ) → j < 3 → j ≢ 1 → runs j ≡ 4
unfolding runs
runs_agree j h ne = ground arith

runs_stray : runs 1 ≢ 4
unfolding runs
runs_stray = ground arith

execute_redundant_masks_example :
    execute_redundant ◌==◌ (λ n. "n") runs
    ≡ record { value = some 4; status = tmr_corrected 1 "n" "n" }
execute_redundant_masks_example =
    execute_redundant_masks ◌==◌ (λ n. "n") same_lawful runs 1 4 (omega arith) runs_agree runs_stray

spawn_process-Spawns_example :
    Spawns Dispatcher.new owned 43 "audit" true (spawn_process Dispatcher.new 43 "audit" true owned)
spawn_process-Spawns_example =
    spawn_process-Spawns Dispatcher.new 43 "audit" true owned Log.new-IsValid owned-IsValid

-- A process whose page is the frame that was struck.
abbrev running : TaskDispatcher
running = record {
  processes =
      record {
        pid = 42;
        name = "audit";
        allocated_pages = 0 ∷ [];
        is_critical = true;
        instruction_step = 0;
      }
      ∷ [];
  event_logs = [];
}

running-IsValid : Log.IsValid running
running-IsValid = omega arith

execute_step-Keeps_example :
    Keeps (λ u. Unit {0}) (length running.processes) (execute_step running 42 struck)
execute_step-Keeps_example = execute_step-Keeps running 42 struck running-IsValid struck-IsValid
