-- ===== src/Tests/Certs.antt =====
-- The fingerprint of a digest.
use ruru.Base.{ℕ, ◌≡◌, refl, [], ◌∷◌, ◌++◌, Bytes, replicate, length-replicate}
use ruru.Cert.{finger_print, colon_text, finger_print_lem}

abbrev digest_rest : Bytes
digest_rest = 255 ∷ replicate 30 10

finger_print_lem_example :
    finger_print (171 ∷ digest_rest) (replicate 96 0) ≡ colon_text (171 ∷ digest_rest) ++ 0 ∷ []
finger_print_lem_example =
    finger_print_lem 171 digest_rest (replicate 96 0) refl (length-replicate {A = ℕ} 96 0)

-- "AB:FF"
colon_text_run : colon_text (171 ∷ 255 ∷ []) ≡ 65 ∷ 66 ∷ 58 ∷ 70 ∷ 70 ∷ []
colon_text_run = refl
