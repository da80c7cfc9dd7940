-- ===== src/Cert.antt =====
-- RuruCert.cpp: the text of the certificate's fingerprint.
pub mod Objects
use ruru.Base.{
  ℕ, suc, ◌+◌, ◌*◌, ◌/◌, ◌%◌, ◌<◌, ◌≡◌, refl, sym, ap, ◌∙◌, [], ◌∷◌, ◌++◌, arith, ltb,
  if◌then◌else◌, if-true, lt→ltb, Bytes, blit, length, append_assoc, length-append,
}

-- A digit of `%X`, and `%02X` of a byte.
abbrev pub hex_digit : ℕ → ℕ
hex_digit d = if ltb d 10 then 48 + d else 55 + d

abbrev pub hex_pair : ℕ → Bytes
hex_pair b = hex_digit (b / 16) ∷ hex_digit (b % 16) ∷ []

-- A round of the loop over the digest: `snprintf` writes the pair, a colon but for the last, and a
-- zero behind them, at `fingerPrint + i * 3`.
unfoldable pub put_pair : ℕ → ℕ → Bytes → Bytes
put_pair i b memory =
    if ltb i 31
    then blit memory (i * 3) (hex_pair b ++ 58 ∷ 0 ∷ [])
    else blit memory (i * 3) (hex_pair b ++ 0 ∷ [])

-- `for (uint32_t i = 0; i < length; ++i)`, from `i` on.
unfoldable pub put_pairs : ℕ → Bytes → Bytes → Bytes
put_pairs i [] memory = memory
put_pairs i (b ∷ bs) memory = put_pairs (suc i) bs (put_pair i b memory)

-- What the constructor makes of `fingerPrint`, an array of 96 bytes, from the digest.
unfoldable pub finger_print : Bytes → Bytes → Bytes
finger_print digest memory = blit (put_pairs 0 digest memory) 95 (0 ∷ [])

-- Pairs of hexadecimal digits with colons between them.
abbrev pub colon_text : Bytes → Bytes
colon_text [] = []
colon_text (b ∷ []) = hex_pair b
colon_text (b ∷ c ∷ bs) = hex_pair b ++ 58 ∷ colon_text (c ∷ bs)

blit-append : (pre rest src : Bytes) → blit (pre ++ rest) (length pre) src ≡ pre ++ blit rest 0 src
unfolding blit
blit-append [] rest src = refl
blit-append (p ∷ pre) rest src = ap (λ x. p ∷ x) (blit-append pre rest src)

blit-nothing : (rest : Bytes) → blit rest 0 [] ≡ rest
unfolding blit
blit-nothing [] = refl
blit-nothing (r ∷ rest) = refl

put_inner :
    (i b : ℕ) (pre rs : Bytes) (w x y z : ℕ)
    → length pre ≡ i * 3
    → i < 31
    → put_pair i b (pre ++ w ∷ x ∷ y ∷ z ∷ rs) ≡ (pre ++ (hex_pair b ++ 58 ∷ [])) ++ 0 ∷ rs
unfolding put_pair blit
put_inner i b pre rs w x y z e h =
    if-true _ _ (lt→ltb i 31 h)
    ∙ ap (λ k. blit (pre ++ w ∷ x ∷ y ∷ z ∷ rs) k (hex_pair b ++ 58 ∷ 0 ∷ [])) (sym e)
    ∙ blit-append pre _ _
    ∙ ap (λ k. pre ++ (hex_pair b ++ 58 ∷ 0 ∷ k)) (blit-nothing rs)
    ∙ sym (append_assoc pre (hex_pair b ++ 58 ∷ []) (0 ∷ rs))

put_last :
    (b : ℕ) (pre : Bytes) (x y z : ℕ)
    → length pre ≡ 93
    → put_pair 31 b (pre ++ x ∷ y ∷ z ∷ []) ≡ pre ++ (hex_pair b ++ 0 ∷ [])
unfolding put_pair blit
put_last b pre x y z e =
    ap (λ k. blit (pre ++ x ∷ y ∷ z ∷ []) k (hex_pair b ++ 0 ∷ [])) (sym e) ∙ blit-append pre _ _

put_pairs_lem :
    (i : ℕ) (b : ℕ) (bs pre rest : Bytes)
    → length pre ≡ i * 3
    → i + length (b ∷ bs) ≡ 32
    → length rest ≡ 3 * length (b ∷ bs)
    → put_pairs i (b ∷ bs) (pre ++ rest) ≡ pre ++ (colon_text (b ∷ bs) ++ 0 ∷ [])
unfolding put_pairs
put_pairs_lem i b [] pre (x ∷ y ∷ z ∷ []) e n m =
    let last : i ≡ 31 = omega arith in
    ap (λ k. put_pair k b (pre ++ x ∷ y ∷ z ∷ [])) last ∙ put_last b pre x y z (omega arith)
put_pairs_lem i b (c ∷ bs) pre (w ∷ x ∷ y ∷ z ∷ rs) e n m =
    ap (put_pairs (suc i) (c ∷ bs)) (put_inner i b pre rs w x y z e (omega arith))
    ∙ put_pairs_lem (suc i) c bs (pre ++ (hex_pair b ++ 58 ∷ [])) (0 ∷ rs)
        (omega (arith, length-append pre (hex_pair b ++ 58 ∷ []))) (omega arith) (omega arith)
    ∙ append_assoc pre (hex_pair b ++ 58 ∷ []) _
put_pairs_lem i b bs pre rest e n m = absurd (omega arith)

length-colon_text : (b : ℕ) (bs : Bytes) → length (colon_text (b ∷ bs)) + 1 ≡ 3 * length (b ∷ bs)
length-colon_text b [] = omega arith
length-colon_text b (c ∷ bs) = omega (arith, length-colon_text c bs)

-- For a SHA-256 digest, of 32 bytes, the constructor of RuruCert fills all 96 bytes of `fingerPrint`: the digest
-- as pairs of hexadecimal digits with colons between them, and one zero that ends the text.
pub finger_print_lem :
    (b : ℕ) (bs memory : Bytes)
    → length (b ∷ bs) ≡ 32
    → length memory ≡ 96
    → finger_print (b ∷ bs) memory ≡ colon_text (b ∷ bs) ++ 0 ∷ []
unfolding finger_print blit
finger_print_lem b bs memory n m =
    let text_end : 95 ≡ length (colon_text (b ∷ bs)) = omega (arith, length-colon_text b bs) in
    ap (λ x. blit x 95 (0 ∷ [])) (put_pairs_lem 0 b bs [] memory refl (omega arith) (omega arith))
    ∙ ap (λ k. blit (colon_text (b ∷ bs) ++ 0 ∷ []) k (0 ∷ [])) text_end
    ∙ blit-append (colon_text (b ∷ bs)) (0 ∷ []) (0 ∷ [])
