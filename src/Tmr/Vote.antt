-- ===== src/Tmr/Vote.antt =====
-- The vote picks the majority, and names the runner that strayed.
use Prim.Native.String.{String}
use rustix_os.Prelude.{ℕ, suc, zero, ◌<◌, ◌≡◌, ◌≢◌, ◌↔◌, ◌⊎◌, Bool, true, some, arith}
use rustix_os.Tmr.{perfect, corrected, failed, vote, execute_redundant}

module _ {ℓ} {T : Type ℓ} (same : T → T → Bool) (debug : T → String)
    (lawful : (a b : T) → (same a b ≡ true) ↔ (a ≡ b)) where
  -- Where `PartialEq` is equality, the vote yields a value exactly when at least two of the three
  -- runs returned it.
  pub vote-majority :
      (r0 r1 r2 x : T)
      → ((vote same debug r0 r1 r2).value ≡ some x)
        ↔ ((r0 ≡ x) × (r1 ≡ x) ⊎ (r0 ≡ x) × (r2 ≡ x) ⊎ (r1 ≡ x) × (r2 ≡ x))
  unfolding vote
  vote-majority r0 r1 r2 x = (
    ground (arith, lawful r0 r1, lawful r1 r2, lawful r0 r2),
    ground (arith, lawful r0 r1, lawful r1 r2, lawful r0 r2),
  )

  -- The status tells what happened: perfect exactly when all three agree, failed exactly when all
  -- three differ.
  pub vote-status :
      (r0 r1 r2 : T)
      → (((vote same debug r0 r1 r2).status ≡ perfect) ↔ (r0 ≡ r1) × (r1 ≡ r2))
        × (((vote same debug r0 r1 r2).status ≡ failed) ↔ (r0 ≢ r1) × (r1 ≢ r2) × (r0 ≢ r2))
  unfolding vote
  vote-status r0 r1 r2 = (
    (
      ground (arith, lawful r0 r1, lawful r1 r2, lawful r0 r2),
      ground (arith, lawful r0 r1, lawful r1 r2, lawful r0 r2),
    ),
    (
      (λ h. (
        (λ e. ground (arith, lawful r0 r1, lawful r1 r2, lawful r0 r2)),
        (λ e. ground (arith, lawful r0 r1, lawful r1 r2, lawful r0 r2)),
        (λ e. ground (arith, lawful r0 r1, lawful r1 r2, lawful r0 r2)),
      )),
      λ h. ground (arith, lawful r0 r1, lawful r1 r2, lawful r0 r2),
    ),
  )

  -- One runner that strays is masked and named: if the other two return `x` and it does not, the
  -- result is `x`, and the status holds its number, what it returned and what the others did.
  pub execute_redundant_masks :
      (task : ℕ → T) (k : ℕ) (x : T)
      → k < 3
      → ((j : ℕ) → j < 3 → j ≢ k → task j ≡ x)
      → task k ≢ x
      → execute_redundant same debug task
        ≡ record { value = some x; status = corrected k (debug (task k)) (debug x) }
  unfolding execute_redundant vote
  execute_redundant_masks task zero x hk others odd = ground (
    arith,
    lawful (task 0) (task 1),
    lawful (task 1) (task 2),
    lawful (task 0) (task 2),
    others 1 (omega arith) (omega arith),
    others 2 (omega arith) (omega arith),
  )
  execute_redundant_masks task (suc zero) x hk others odd = ground (
    arith,
    lawful (task 0) (task 1),
    lawful (task 1) (task 2),
    lawful (task 0) (task 2),
    others 0 (omega arith) (omega arith),
    others 2 (omega arith) (omega arith),
  )
  execute_redundant_masks task (suc (suc zero)) x hk others odd = ground (
    arith,
    lawful (task 0) (task 1),
    lawful (task 1) (task 2),
    lawful (task 0) (task 2),
    others 0 (omega arith) (omega arith),
    others 1 (omega arith) (omega arith),
  )
  execute_redundant_masks task (suc (suc (suc k))) x hk others odd = absurd (omega arith)
