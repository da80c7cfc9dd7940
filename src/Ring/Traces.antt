-- ===== src/Ring/Traces.antt =====
-- RuruRingBuf.h: the ring's four operations in any order, beside the queue that it stands for.
use ruru.Base.{
  ℕ, ◌-◌, ◌%◌, ◌==◌, add32, ◌≡◌, refl, sym, ap, ◌∙◌, Bool, true, false, List, [], ◌∷◌, Option,
  arith, length, Bool-cases, inl, inr, not,
}
use mathlib.Core.Path.{ap₂}
use ruru.Ring.{Ring, ring_reset, ring_empty, ring_read, ring_write}
use ruru.Ring.Inv.{IsValid, ring_reset-IsValid, ring_read-IsValid, ring_write-IsValid}
use ruru.Ring.Refine.{
  queue_pop, queue_push, contents, length-contents, ring_read_refines, ring_write_refines,
  ring_empty_iff,
}

-- A call, and what the caller sees of it.
pub data RingOp (A : Type 0) : Type 0 where
  reset is_empty read : RingOp A
  write : A → RingOp A

pub data RingAnswer (A : Type 0) : Type 0 where
  nothing : RingAnswer A
  flag : Bool → RingAnswer A
  value : Option A → RingAnswer A

module _ {A : Type 0} where
  unfoldable pub ring_op : RingOp A → Ring A → RingAnswer A × Ring A
  ring_op reset r = (nothing, ring_reset r)
  ring_op is_empty r = (flag (ring_empty r), r)
  ring_op read r = let (o, r) = ring_read r in (value o, r)
  ring_op (write a) r = let (ok, r) = ring_write r a in (flag ok, r)

  unfoldable pub ring_ops : List (RingOp A) → Ring A → List (RingAnswer A) × Ring A
  ring_ops [] r = ([], r)
  ring_ops (op ∷ ops) r =
      let (a, r) = ring_op op r in let (rest, r) = ring_ops ops r in (a ∷ rest, r)

  abbrev pub is_nil : List A → Bool
  is_nil [] = true
  is_nil (x ∷ q) = false

  -- The same calls of a queue of at most `limit` values.
  unfoldable pub queue_op : ℕ → RingOp A → List A → RingAnswer A × List A
  queue_op limit reset q = (nothing, [])
  queue_op limit is_empty q = (flag (is_nil q), q)
  queue_op limit read q = let (o, q) = queue_pop q in (value o, q)
  queue_op limit (write a) q = let (ok, q) = queue_push limit q a in (flag ok, q)

  unfoldable pub queue_ops : ℕ → List (RingOp A) → List A → List (RingAnswer A) × List A
  queue_ops limit [] q = ([], q)
  queue_ops limit (op ∷ ops) q =
      let (a, q) = queue_op limit op q in let (rest, q) = queue_ops limit ops q in (a ∷ rest, q)

  nil_of_zero : (xs : List A) → length xs ≡ 0 → xs ≡ []
  nil_of_zero [] h = refl
  nil_of_zero (x ∷ xs) h = absurd (omega arith)

  is_nil-true : (xs : List A) → is_nil xs ≡ true → xs ≡ []
  is_nil-true [] h = refl
  is_nil-true (x ∷ xs) h = cc

  ring_empty-is_nil : {r : Ring A} → IsValid r → ring_empty r ≡ is_nil (contents r)
  ring_empty-is_nil {r} v = elim (Bool-cases (ring_empty r)) [
    | inl e ↦ e ∙ ap is_nil (sym ((ring_empty_iff v).0 e))
    | inr e ↦ elim (Bool-cases (is_nil (contents r))) [
      | inr n ↦ e ∙ sym n
      | inl n ↦ let yes_empty = (ring_empty_iff v).1 (is_nil-true (contents r) n) in cc
    ]
  ]

  ring_read-cap : (r : Ring A) → (ring_read r).1.cap ≡ r.cap
  unfolding ring_read
  ring_read-cap r = elim (Bool-cases (not (r.wt == r.rd))) [ inl e ↦ rw e refl | inr e ↦ rw e refl ]

  ring_write-cap : (r : Ring A) (a : A) → (ring_write r a).1.cap ≡ r.cap
  unfolding ring_write
  ring_write-cap r a = elim (Bool-cases (not (r.rd == (add32 r.wt 1 % r.cap)))) [
    | inl e ↦ rw e refl
    | inr e ↦ rw e refl
  ]

  -- One call.
  record Agrees (op : RingOp A) (r : Ring A) : Type 0 where
    valid : IsValid (ring_op op r).1
    cap : (ring_op op r).1.cap ≡ r.cap
    answer : ((ring_op op r).0, contents (ring_op op r).1) ≡ queue_op (r.cap - 1) op (contents r)

  ring_op-Agrees : (op : RingOp A) (r : Ring A) → IsValid r → Agrees op r
  unfolding ring_op queue_op ring_reset
  ring_op-Agrees reset r v =
      let (valid, none_used) = ring_reset-IsValid v in
      record {
        valid = valid;
        cap = refl;
        answer = ap (λ q. (nothing, q)) (nil_of_zero _ (length-contents valid ∙ none_used));
      }
  ring_op-Agrees is_empty r v = record {
    valid = v;
    cap = refl;
    answer = ap (λ b. (flag b, contents r)) (ring_empty-is_nil v);
  }
  ring_op-Agrees read r v = record {
    valid = ring_read-IsValid v;
    cap = ring_read-cap r;
    answer = ap (λ p. (value p.0, p.1)) (ring_read_refines v);
  }
  ring_op-Agrees (write a) r v = record {
    valid = ring_write-IsValid a v;
    cap = ring_write-cap r a;
    answer = ap (λ p. (flag p.0, p.1)) (ring_write_refines a v);
  }

  -- Over every sequence of calls a valid ring gives the answers of a queue of at most `cap - 1` values
  -- that holds what the ring holds, and holds what that queue holds after it; and it is valid again.
  pub ring_ops-queue_ops :
      (ops : List (RingOp A)) (r : Ring A)
      → IsValid r
      → IsValid (ring_ops ops r).1
        × (((ring_ops ops r).0, contents (ring_ops ops r).1)
            ≡ queue_ops (r.cap - 1) ops (contents r))
  unfolding ring_ops queue_ops
  ring_ops-queue_ops [] r v = (v, refl)
  ring_ops-queue_ops (op ∷ ops) r v =
      let one = ring_op-Agrees op r v in
      let (valid, rest) = ring_ops-queue_ops ops (ring_op op r).1 one.valid in
      let same : (rest_of (ring_op op r).1)
          ≡ queue_ops (r.cap - 1) ops (contents (ring_op op r).1) =
        rest ∙ ap (λ n. queue_ops (n - 1) ops (contents (ring_op op r).1)) one.cap in
      (
        valid,
        ap₂ (λ x (y : List (RingAnswer A) × List A). (x ∷ y.0, y.1)) (ap (λ p. p.0) one.answer)
            (same ∙ ap (λ p. queue_ops (r.cap - 1) ops p.1) one.answer),
      )
    where
      rest_of : Ring A → List (RingAnswer A) × List A
      rest_of s = ((ring_ops ops s).0, contents (ring_ops ops s).1)
