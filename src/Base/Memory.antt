-- ===== src/Base/Memory.antt =====
-- Byte memory: `memcpy` into an object, and the bytes that stand at an offset.
use Prim.Native.Nat.{ℕ, zero, suc, ◌+◌, ◌≤◌}
use mathlib.Core.Path.{◌≡◌, refl, ap, sym, ◌∙◌}
use mathlib.Core.List.{List, [], ◌∷◌, ◌++◌, append-nil}
use mathlib.Core.Option.{Option, none, some}
use native.Mathlib.Omega.{arith}
use ruru.Base.Outcomes.{Run, done, fault, ◌>>=◌}
use ruru.Base.Lists.{length, take, drop, get_elem?, set}

abbrev pub Bytes : Type 0
Bytes = List ℕ

module _ {ℓ} {A : Type ℓ} where
  -- `memcpy(memory + off, src, length of src)`; what would fall beyond the end is not written, so
  -- a caller that matters has to be inside (`off + length src ≤ length memory`).
  unfoldable pub blit : List A → ℕ → List A → List A
  blit [] off src = []
  blit (m ∷ ms) zero [] = m ∷ ms
  blit (m ∷ ms) zero (b ∷ src) = b ∷ blit ms zero src
  blit (m ∷ ms) (suc off) src = m ∷ blit ms off src

  -- The `n` values at offset `off`.
  abbrev pub slice : List A → ℕ → ℕ → List A
  slice memory off n = take n (drop off memory)

  pub length-blit : (ms : List A) (off : ℕ) (src : List A) → length (blit ms off src) ≡ length ms
  unfolding blit
  length-blit [] off src = refl
  length-blit (m ∷ ms) zero [] = refl
  length-blit (m ∷ ms) zero (b ∷ src) = ap suc (length-blit ms zero src)
  length-blit (m ∷ ms) (suc off) src = ap suc (length-blit ms off src)

  -- What was copied is what is read back.
  pub slice-blit_self :
      (ms : List A) (off : ℕ) (src : List A)
      → off + length src ≤ length ms
      → slice (blit ms off src) off (length src) ≡ src
  unfolding blit
  slice-blit_self [] zero [] h = refl
  slice-blit_self [] zero (b ∷ src) h = absurd (omega arith)
  slice-blit_self [] (suc off) src h = absurd (omega arith)
  slice-blit_self (m ∷ ms) zero [] h = refl
  slice-blit_self (m ∷ ms) zero (b ∷ src) h =
      ap (λ t. b ∷ t) (slice-blit_self ms zero src (omega arith))
  slice-blit_self (m ∷ ms) (suc off) src h = slice-blit_self ms off src (omega arith)

  -- What lies before the copy is untouched.
  pub slice-blit_before :
      (ms : List A) (o n off : ℕ) (src : List A)
      → o + n ≤ off
      → slice (blit ms off src) o n ≡ slice ms o n
  unfolding blit
  slice-blit_before [] o n off src h = refl
  slice-blit_before (m ∷ ms) zero zero off src h = refl
  slice-blit_before (m ∷ ms) zero (suc n) zero src h = absurd (omega arith)
  slice-blit_before (m ∷ ms) zero (suc n) (suc off) src h =
      ap (λ t. m ∷ t) (slice-blit_before ms zero n off src (omega arith))
  slice-blit_before (m ∷ ms) (suc o) n zero src h = absurd (omega arith)
  slice-blit_before (m ∷ ms) (suc o) n (suc off) src h =
      slice-blit_before ms o n off src (omega arith)

  pub take-length-append : (xs ys : List A) → take (length xs) (xs ++ ys) ≡ xs
  take-length-append [] ys = refl
  take-length-append (x ∷ xs) ys = ap (λ t. x ∷ t) (take-length-append xs ys)

  pub take_all : (n : ℕ) (xs : List A) → length xs ≤ n → take n xs ≡ xs
  take_all zero [] h = refl
  take_all zero (x ∷ xs) h = absurd (omega arith)
  take_all (suc n) [] h = refl
  take_all (suc n) (x ∷ xs) h = ap (λ t. x ∷ t) (take_all n xs (omega arith))

  take_nil : (n : ℕ) → take {A = A} n [] ≡ []
  take_nil zero = refl
  take_nil (suc n) = refl

  pub take-add : (a b : ℕ) (xs : List A) → take (a + b) xs ≡ take a xs ++ take b (drop a xs)
  take-add zero b xs = let e : 0 + b ≡ b = omega arith in ap (λ n. take n xs) e
  take-add (suc a) b [] =
      let e : suc a + b ≡ suc (a + b) = omega arith in
      ap (λ n. take {A = A} n []) e ∙ sym (take_nil b)
  take-add (suc a) b (x ∷ xs) =
      let e : suc a + b ≡ suc (a + b) = omega arith in rw e (ap (λ t. x ∷ t) (take-add a b xs))

  pub append-take_zero : (n : ℕ) (xs ys : List A) → n ≡ 0 → xs ++ take n ys ≡ xs
  append-take_zero n xs ys e = rw e (append-nil xs)

-- The arrays that `new[]` has made; a pointer is an index, and `none` stands where one was deleted.
abbrev pub Arrays : Type 0
Arrays = List (Option ℕ)

-- `new T[n]`
unfoldable pub new_array : ℕ → Arrays → ℕ × Arrays
new_array n heap = (length heap, heap ++ some n ∷ [])

-- `delete []p`: of what is no array, or none any more, a fault.
abbrev pub delete_slot : ℕ → Arrays → Option (Option ℕ) → Run Arrays
delete_slot p heap (some (some n)) = done (set heap p none)
delete_slot p heap slot = fault

unfoldable pub delete_array : ℕ → Arrays → Run Arrays
delete_array p heap = delete_slot p heap (get_elem? heap p)

-- `if (p){ delete []p; p = nullptr; }`
unfoldable pub delete_member : Option ℕ → Arrays → Run (Option ℕ × Arrays)
delete_member none heap = done (none, heap)
delete_member (some p) heap = delete_array p heap >>= λ heap. done (none, heap)
