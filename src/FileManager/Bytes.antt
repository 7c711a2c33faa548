-- ===== src/FileManager/Bytes.antt =====
-- The bytes that `store_bytes` leaves in a buffer.
use package.rustix_os.Prelude.{
  ℕ, zero, suc, ◌+◌, ◌≤◌, ◌<◌, ◌≡◌, refl, sym, ap, ◌∙◌, arith, List, [], ◌∷◌, ◌++◌, length,
  length-set, set, take,
}
use package.rustix_os.FileManager.{store_bytes}

pub take_short : (n : ℕ) (xs : List ℕ) → length xs ≤ n → take n xs ≡ xs
take_short zero [] h = refl
take_short zero (x ∷ xs) h = absurd (omega arith)
take_short (suc n) [] h = refl
take_short (suc n) (x ∷ xs) h = ap (λ t. x ∷ t) (take_short n xs (omega arith))

take-set :
    (xs : List ℕ) (i : ℕ) (v : ℕ) → i < length xs → take (suc i) (set xs i v) ≡ take i xs ++ v ∷ []
take-set [] i v h = absurd (omega arith)
take-set (x ∷ xs) zero v h = refl
take-set (x ∷ xs) (suc i) v h = ap (λ t. x ∷ t) (take-set xs i v (omega arith))

pub length-store_bytes :
    (i : ℕ) (bytes buf : List ℕ) → length (store_bytes i bytes buf) ≡ length buf
unfolding store_bytes
length-store_bytes i [] buf = refl
length-store_bytes i (b ∷ bytes) buf =
    length-store_bytes (i + 1) bytes (set buf i b) ∙ length-set buf i b

append_assoc : (xs ys zs : List ℕ) → (xs ++ ys) ++ zs ≡ xs ++ (ys ++ zs)
append_assoc [] ys zs = refl
append_assoc (x ∷ xs) ys zs = ap (λ t. x ∷ t) (append_assoc xs ys zs)

append_nothing : (xs : List ℕ) → xs ++ [] ≡ xs
append_nothing [] = refl
append_nothing (x ∷ xs) = ap (λ t. x ∷ t) (append_nothing xs)

pub take-store_bytes :
    (i : ℕ) (bytes buf : List ℕ)
    → i + length bytes ≤ length buf
    → take (i + length bytes) (store_bytes i bytes buf) ≡ take i buf ++ bytes
unfolding store_bytes
take-store_bytes i [] buf h = ap (λ n. take n buf) (omega arith) ∙ sym (append_nothing (take i buf))
take-store_bytes i (b ∷ bytes) buf h =
    let next : i + 1 ≡ suc i = omega arith in
    ap (λ n. take n (store_bytes (i + 1) bytes (set buf i b))) (omega arith)
    ∙ take-store_bytes (i + 1) bytes (set buf i b) (omega (arith, length-set buf i b))
    ∙ ap (λ n. take n (set buf i b) ++ bytes) next
    ∙ ap (λ t. t ++ bytes) (take-set buf i b (omega arith))
    ∙ append_assoc (take i buf) (b ∷ []) bytes
