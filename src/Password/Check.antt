-- ===== src/Password/Check.antt =====
-- util.c: `check_pass` on what `generate_pass` makes.
use opennap.Base.{
  ℕ, zero, suc, ◌+◌, ◌*◌, ◌≡◌, refl, ap, ◌∙◌, subst, true, false, [], ◌∷◌, ◌++◌, append-nil, some,
  arith, ◌==◌, ltb, if◌then◌else◌, length, take, take-append, inl,
}
use opennap.Text.{Bytes}
use opennap.Receive.{strcmp_zero}
use opennap.Password.{get_random_bytes, accepted, rejected, check_pass, salt_of, generate_pass}
use opennap.Password.Codec.{b64_encode, b64_decode}
use opennap.Password.RoundTrip.{AllBytes, b64_body, padding, b64_encode-body, b64_decode-b64_body}

strcmp_zero_refl : (a : Bytes) → strcmp_zero a a ≡ true
unfolding strcmp_zero
strcmp_zero_refl [] = refl
strcmp_zero_refl (x ∷ a) = ground (arith, strcmp_zero_refl a)

strcmp_zero→eq : (a b : Bytes) → strcmp_zero a b ≡ true → a ≡ b
unfolding strcmp_zero
strcmp_zero→eq [] [] h = refl
strcmp_zero→eq [] (y ∷ b) h = cc
strcmp_zero→eq (x ∷ a) [] h = cc
strcmp_zero→eq (x ∷ a) (y ∷ b) h = ground (arith, strcmp_zero→eq a b)

-- What MD5 promises of its results.
abbrev pub IsDigest : (Bytes → Bytes) → Type 0
IsDigest md5 = (m : Bytes) → (length (md5 m) ≡ 16) × AllBytes (md5 m)

length-body_more :
    (x y z : ℕ) (bs : Bytes) → length (b64_body (x ∷ y ∷ z ∷ bs)) ≡ 4 + length (b64_body bs)
unfolding b64_body
length-body_more x y z bs = omega arith

-- Sixteen bytes make 22 characters and two of padding.
length-body_one : (bs : Bytes) → length bs ≡ 1 → length (b64_body bs) ≡ 2
unfolding b64_body
length-body_one [] h = absurd (omega arith)
length-body_one (x ∷ []) h = refl
length-body_one (x ∷ y ∷ bs) h = absurd (omega arith)

length-body_triples :
    (k : ℕ) (bs : Bytes) → length bs ≡ 1 + 3 * k → length (b64_body bs) ≡ 2 + 4 * k
length-body_triples zero bs h = length-body_one bs h
length-body_triples (suc k) [] h = absurd (omega arith)
length-body_triples (suc k) (x ∷ []) h = absurd (omega arith)
length-body_triples (suc k) (x ∷ y ∷ []) h = absurd (omega arith)
length-body_triples (suc k) (x ∷ y ∷ z ∷ bs) h =
    let more = length-body_more x y z bs in
    let rest = length-body_triples k bs (omega arith) in omega arith

module _ (md5 : Bytes → Bytes) (digest : IsDigest md5) where
  stored_hash : (m : Bytes) → take 22 (b64_encode (md5 m)) ≡ b64_body (md5 m)
  stored_hash m =
      let (len, bytes) = digest m in
      ap (take 22) (b64_encode-body (md5 m) bytes)
      ∙ subst (λ n. take n (b64_body (md5 m) ++ padding (md5 m)) ≡ b64_body (md5 m))
          (length-body_triples 5 (md5 m) len) (take-append (b64_body (md5 m)) (padding (md5 m)))

  -- If the results of MD5 are sixteen bytes, a password that `generate_pass` has made of `pass`
  -- accepts exactly the texts whose digest with the same salt is that of `pass`, and rejects every
  -- other; it causes no read outside an array.
  pub check_pass-generate_pass :
      (rands : ℕ → ℕ) (pass attempt : Bytes)
      → check_pass md5 (generate_pass md5 rands pass) attempt ≡ (
          if strcmp_zero (md5 (salt_of rands ++ pass)) (md5 (salt_of rands ++ attempt))
          then accepted
          else rejected)
  unfolding check_pass generate_pass get_random_bytes
  check_pass-generate_pass rands pass attempt =
      let m = salt_of rands ++ pass in
      let (len, bytes) = digest m in
      let decoded : b64_decode (take 22 (b64_encode (md5 m))) ≡ some (md5 m) =
        ap b64_decode (stored_hash m)
        ∙ subst (λ r. b64_decode r ≡ some (md5 m)) (append-nil (b64_body (md5 m)))
            (b64_decode-b64_body (md5 m) [] bytes (inl refl)) in
      let sixteen : (length (md5 m) == 16) ≡ true = ground arith in
      let fits : ltb (length (salt_of rands ++ b',' ∷ take 22 (b64_encode (md5 m)))) 8 ≡ false =
        ground arith in
      rw (fits, decoded, sixteen) refl
