-- ===== src/Outcome.antt =====
-- What a Rust function of the kernel gives back: `Ok`, `Err`, or a panic (an index out of range).
-- The texts of the `&'static str` errors are the constructors of `Error`.
use rustix_os.Prelude.{◌≡◌, refl, ◌⊎◌, inl, inr}

pub data Outcome {ℓ κ} (A : Type ℓ) (E : Type κ) : Type (ℓ ⊔ κ) where
  ok : A → Outcome A E
  err : E → Outcome A E
  panic : Outcome A E

pub data Error : Type 0 where
  -- memory-subsystem
  write_quarantined write_out_of_bounds invalid_frame : Error
  frame_out_of_bounds offset_out_of_bounds bit_out_of_bounds : Error
  damaged_out_of_bounds not_allocated relocation_out_of_memory : Error
  -- scheduler
  spawn_out_of_memory process_not_found no_memory_allocated retry_read_failed : Error
  -- virtual-fs
  path_not_absolute path_not_found path_through_file : Error
  parent_not_directory name_exists out_of_blocks write_directory read_directory : Error
  remove_root directory_not_empty rename_root destination_not_directory : Error

pub Outcome-cases {ℓ κ} :
    {A : Type ℓ} {E : Type κ} (r : Outcome A E)
    → (r ≡ panic) ⊎ ((e : E) × (r ≡ err e)) ⊎ ((x : A) × (r ≡ ok x))
Outcome-cases (ok x) = inr (inr (x, refl))
Outcome-cases (err e) = inr (inl (e, refl))
Outcome-cases panic = inl refl

-- `let _ = …` of a call that changes a state: an error is dropped, a panic is not.
abbrev pub ignore : {A S : Type 0} → Outcome A Error × S → Outcome S Error
ignore (ok x, s) = ok s
ignore (err e, s) = ok s
ignore (panic, s) = panic

infixl 5 ◌>>=◌
abbrev pub ◌>>=◌ {ℓ κ μ} :
    {A : Type ℓ} {B : Type κ} {E : Type μ} → Outcome A E → (A → Outcome B E) → Outcome B E
ok x >>= f = f x
err e >>= f = err e
panic >>= f = panic

-- The call succeeded with such a value.
abbrev pub Yields {ℓ κ} : {A : Type ℓ} {E : Type κ} → (A → Type 0) → Outcome A E → Type 0
Yields P (ok x) = P x
Yields P (err e) = ⊥
Yields P panic = ⊥

pub >>=-Yields {ℓ κ} :
    {A B : Type ℓ} {E : Type κ} (P : A → Type 0) (Q : B → Type 0) (m : Outcome A E)
    (f : A → Outcome B E)
    → Yields P m
    → ((x : A) → P x → Yields Q (f x))
    → Yields Q (m >>= f)
>>=-Yields P Q (ok x) f h k = k x h
>>=-Yields P Q (err e) f h k = absurd h
>>=-Yields P Q panic f h k = absurd h

pub Yields-weaken {ℓ κ} :
    {A : Type ℓ} {E : Type κ} (P Q : A → Type 0) (m : Outcome A E)
    → Yields P m
    → ((x : A) → P x → Q x)
    → Yields Q m
Yields-weaken P Q (ok x) h k = k x h
Yields-weaken P Q (err e) h k = h
Yields-weaken P Q panic h k = h
