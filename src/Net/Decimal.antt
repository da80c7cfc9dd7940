-- ===== src/Net/Decimal.antt =====
-- The C library's `atoi`, which RuruNetwork.cpp and RuruLoop.cpp read numbers with.
use ruru.Base.{
  ℕ, ◌+◌, ◌-◌, ◌*◌, ◌^◌, Bool, ◌&&◌, ◌||◌, [], ◌∷◌, min, leb, ◌==◌, if◌then◌else◌, Bytes, ℤ,
  to_int32,
}

-- `isspace` and `isdigit`
abbrev pub is_space : ℕ → Bool
is_space c = (c == 32) || (leb 9 c && leb c 13)

abbrev pub is_digit : ℕ → Bool
is_digit c = leb 48 c && leb c 57

-- The digits at the front as a number, behind `n`.
unfoldable pub digits : ℕ → Bytes → ℕ
digits n [] = n
digits n (c ∷ cs) = let rest = digits (n * 10 + (c - 48)) cs in if is_digit c then rest else n

-- `atoi` behind white space, as glibc has it: `(int) strtol(text, NULL, 10)`, which stops at the
-- ends of `long`.
unfoldable pub signed_number : Bytes → ℤ
signed_number [] = ℤ.pos 0
signed_number (c ∷ cs) =
    if c == 45
    then to_int32 (2 ^ 64 - min (digits 0 cs) (2 ^ 63))
    else if c == 43
    then to_int32 (min (digits 0 cs) (2 ^ 63 - 1))
    else to_int32 (min (digits 0 (c ∷ cs)) (2 ^ 63 - 1))

-- `atoi`
unfoldable pub atoi : Bytes → ℤ
atoi [] = ℤ.pos 0
atoi (c ∷ cs) = let rest = atoi cs in if is_space c then rest else signed_number (c ∷ cs)
