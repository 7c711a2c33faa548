-- ===== src/Tmr.antt =====
-- scheduler/src/tmr.rs: the majority vote over three runs. The `PartialEq` and `Debug` of the voted
-- type are arguments.
pub mod Vote
use Prim.Native.String.{String}
use package.rustix_os.Prelude.{ℕ, Bool, ◌&&◌, Option, none, some, if◌then◌else◌}

pub data TmrStatus : Type 0 where
  perfect : TmrStatus
  corrected : ℕ → String → String → TmrStatus
  failed : TmrStatus

pub record TmrResult {ℓ} (T : Type ℓ) : Type ℓ where
  pub value : Option T
  pub status : TmrStatus

module _ {ℓ} {T : Type ℓ} (same : T → T → Bool) (debug : T → String) where
  unfoldable pub vote : T → T → T → TmrResult T
  vote r0 r1 r2 =
      if same r0 r1 && same r1 r2
      then record { value = some r0; status = perfect }
      else if same r0 r1
      then record { value = some r0; status = corrected 2 (debug r2) (debug r0) }
      else if same r0 r2
      then record { value = some r0; status = corrected 1 (debug r1) (debug r0) }
      else if same r1 r2
      then record { value = some r1; status = corrected 0 (debug r0) (debug r1) }
      else record { value = none; status = failed }

  unfoldable pub execute_redundant : (ℕ → T) → TmrResult T
  unfolding vote
  execute_redundant task = vote (task 0) (task 1) (task 2)
