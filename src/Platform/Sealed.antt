-- ===== src/Platform/Sealed.antt =====
-- A secret that was encrypted is recovered.
use wes.Base.{
  ℕ, zero, suc, ◌+◌, ◌≤◌, Bool, true, false, some, List, [], ◌∷◌, ◌++◌, ◌≡◌, refl, ◌∙◌, sym, ap,
  subst, arith, take, drop, length, length-append, inl, inr, Bool-cases, ltb, Text, codes,
  append_assoc, Option, none, startswith,
}
use wes.Platform.Cipher.{
  Fernet, fernet_key, decode_opened, Byte, Bytes, differ, xor_byte, xor_bytes, same_bit,
  compare_digest, Crypto, magic, derive_key, extend, keystream, encrypt_stdlib, open_raw,
  open_parts, decrypt_stdlib, encrypt, decrypt,
}

differ_twice : (k a : Bool) → differ k (differ k a) ≡ a
differ_twice true true = refl
differ_twice true false = refl
differ_twice false a = refl

xor_byte_twice : (a k : Byte) → xor_byte (xor_byte a k) k ≡ a
xor_byte_twice a k =
    rw
      (
        differ_twice k.b0 a.b0,
        differ_twice k.b1 a.b1,
        differ_twice k.b2 a.b2,
        differ_twice k.b3 a.b3,
        differ_twice k.b4 a.b4,
        differ_twice k.b5 a.b5,
        differ_twice k.b6 a.b6,
        differ_twice k.b7 a.b7,
      )
      refl

xor_bytes_twice : (bs ks : Bytes) → length bs ≤ length ks → xor_bytes (xor_bytes bs ks) ks ≡ bs
xor_bytes_twice [] ks h = refl
xor_bytes_twice (b ∷ bs) [] h = absurd (omega (arith, h))
xor_bytes_twice (b ∷ bs) (k ∷ ks) h =
    ap (λ x. x ∷ xor_bytes (xor_bytes bs ks) ks) (xor_byte_twice b k)
    ∙ ap (λ xs. b ∷ xs) (xor_bytes_twice bs ks (omega (arith, h)))

length-xor_bytes : (bs ks : Bytes) → length bs ≤ length ks → length (xor_bytes bs ks) ≡ length bs
length-xor_bytes [] ks h = refl
length-xor_bytes (b ∷ bs) [] h = absurd (omega (arith, h))
length-xor_bytes (b ∷ bs) (k ∷ ks) h = ap (λ n. suc n) (length-xor_bytes bs ks (omega (arith, h)))

same_bit_self : (a : Bool) → same_bit a a ≡ true
same_bit_self true = refl
same_bit_self false = refl

compare_digest_self : (bs : Bytes) → compare_digest bs bs ≡ true
compare_digest_self [] = refl
compare_digest_self (b ∷ bs) =
    rw
      (
        same_bit_self b.b0,
        same_bit_self b.b1,
        same_bit_self b.b2,
        same_bit_self b.b3,
        same_bit_self b.b4,
        same_bit_self b.b5,
        same_bit_self b.b6,
        same_bit_self b.b7,
        compare_digest_self bs,
      )
      refl

take-append : {A : Type 0} (n : ℕ) (xs ys : List A) → length xs ≡ n → take n (xs ++ ys) ≡ xs
take-append zero [] ys h = refl
take-append zero (x ∷ xs) ys h = absurd (omega (arith, h))
take-append (suc n) [] ys h = absurd (omega (arith, h))
take-append (suc n) (x ∷ xs) ys h = ap (λ l. x ∷ l) (take-append n xs ys (omega (arith, h)))

drop-append : {A : Type 0} (n : ℕ) (xs ys : List A) → length xs ≡ n → drop n (xs ++ ys) ≡ ys
drop-append zero [] ys h = refl
drop-append zero (x ∷ xs) ys h = absurd (omega (arith, h))
drop-append (suc n) [] ys h = absurd (omega (arith, h))
drop-append (suc n) (x ∷ xs) ys h = drop-append n xs ys (omega (arith, h))

length-take_all : {A : Type 0} (n : ℕ) (xs : List A) → n ≤ length xs → length (take n xs) ≡ n
length-take_all zero xs h = refl
length-take_all (suc n) [] h = absurd (omega (arith, h))
length-take_all (suc n) (x ∷ xs) h = ap (λ k. suc k) (length-take_all n xs (omega (arith, h)))

-- Fernet opens what it sealed with the key of this secret, and its tokens, which start with the byte
-- of the version, are not marked as those of the standard library.
abbrev pub OpensSealed : Crypto → Text → Option Fernet → Type 0
OpensSealed c secret none = Unit
OpensSealed c secret (some f) =
    (bs : Bytes)
    → (startswith magic (f.seal (fernet_key c secret) bs) ≡ false)
      × (f.unseal (fernet_key c secret) (f.seal (fernet_key c secret) bs) ≡ some bs)

module _ (c : Crypto) (full : (key message : Bytes) → length (c.hmac key message) ≡ 32) where
  -- Enough rounds give all the bytes that are wanted.
  length-extend :
      (key nonce : Bytes) (n rounds counter : ℕ) (out : Bytes)
      → n ≤ length out + rounds
      → n ≤ length (extend c key nonce n rounds counter out)
  unfolding extend
  length-extend key nonce n zero counter out h = omega (arith, h)
  length-extend key nonce n (suc rounds) counter out h = elim (Bool-cases (ltb (length out) n)) [
    | inl e ↦
        let block = c.hmac key (nonce ++ c.counter_bytes counter) in
        rw e (
          length-extend key nonce n rounds (suc counter) (out ++ block) (
            omega (arith, h, length-append out block, full key (nonce ++ c.counter_bytes counter))))
    | inr e ↦ rw e (ground arith)
  ]

  length-keystream : (key nonce : Bytes) (n : ℕ) → length (keystream c key nonce n) ≡ n
  unfolding keystream
  length-keystream key nonce n =
      length-take_all n (extend c key nonce n n 0 [])
        (length-extend key nonce n n 0 [] (omega arith))

  open_parts-encrypted :
      (secret plaintext : Text) (nonce : Bytes)
      → c.from_utf8 (c.utf8 plaintext) ≡ some plaintext
      → (let body = xor_bytes (c.utf8 plaintext) (
            keystream c (derive_key c (secret ++ codes "enc")) nonce (length (c.utf8 plaintext))) in
          open_parts c secret nonce
            (c.hmac (derive_key c (secret ++ codes "mac")) (nonce ++ body))
            body)
        ≡ some plaintext
  unfolding open_parts
  open_parts-encrypted secret plaintext nonce u =
      let plain = c.utf8 plaintext in
      let key = derive_key c (secret ++ codes "enc") in
      let ks = keystream c key nonce (length plain) in
      let enough : length plain ≡ length ks = sym (length-keystream key nonce (length plain)) in
      let same : length (xor_bytes plain ks) ≡ length plain =
        length-xor_bytes plain ks (omega (arith, enough)) in
      rw
        (compare_digest_self
          (c.hmac (derive_key c (secret ++ codes "mac")) (nonce ++ xor_bytes plain ks)))
        (subst
          (λ n.
            c.from_utf8 (xor_bytes (xor_bytes plain ks) (keystream c key nonce n)) ≡ some plaintext)
          (sym same) (ap c.from_utf8 (xor_bytes_twice plain ks (omega (arith, enough))) ∙ u))

  decrypt_stdlib-parts :
      (secret : Text) (nonce tag body : Bytes)
      → c.b64decode (c.b64encode (nonce ++ tag ++ body)) ≡ some (nonce ++ tag ++ body)
      → length nonce ≡ 16
      → length tag ≡ 32
      → decrypt_stdlib c secret (magic ++ c.b64encode (nonce ++ tag ++ body))
        ≡ open_parts c secret nonce tag body
  unfolding decrypt_stdlib
  decrypt_stdlib-parts secret nonce tag body h n t =
      let late : drop 48 (nonce ++ tag ++ body) ≡ body =
        drop-append 48 (nonce ++ tag) body (omega (arith, n, t, length-append nonce tag)) in
      let rest : drop 16 (nonce ++ tag ++ body) ≡ tag ++ body =
        ap (drop 16) (append_assoc nonce tag body) ∙ drop-append 16 nonce (tag ++ body) n in
      let start : take 16 (nonce ++ tag ++ body) ≡ nonce =
        ap (take 16) (append_assoc nonce tag body) ∙ take-append 16 nonce (tag ++ body) n in
      ap (open_raw c secret) h ∙ rw (late, rest, start, take-append 32 tag body t) refl

  stdlib_opened :
      (secret plaintext : Text) (nonce : Bytes)
      → ((bs : Bytes) → c.b64decode (c.b64encode bs) ≡ some bs)
      → c.from_utf8 (c.utf8 plaintext) ≡ some plaintext
      → length nonce ≡ 16
      → decrypt_stdlib c secret (encrypt_stdlib c secret nonce plaintext) ≡ some plaintext
  unfolding encrypt_stdlib
  stdlib_opened secret plaintext nonce decodes u n =
      let body =
        xor_bytes (c.utf8 plaintext)
          (keystream c (derive_key c (secret ++ codes "enc")) nonce (length (c.utf8 plaintext))) in
      let tag = c.hmac (derive_key c (secret ++ codes "mac")) (nonce ++ body) in
      decrypt_stdlib-parts secret nonce tag body (decodes (nonce ++ tag ++ body)) n
        (full (derive_key c (secret ++ codes "mac")) (nonce ++ body))
      ∙ open_parts-encrypted secret plaintext nonce u

  stdlib_marked :
      (secret plaintext : Text) (nonce : Bytes)
      → startswith magic (encrypt_stdlib c secret nonce plaintext) ≡ true
  unfolding encrypt_stdlib
  stdlib_marked secret plaintext nonce = refl

  -- What `encrypt` makes of a secret, `decrypt` gives back, with Fernet and without.
  pub decrypt-encrypt :
      (fernet : Option Fernet) (secret plaintext : Text) (nonce : Bytes)
      → OpensSealed c secret fernet
      → ((bs : Bytes) → c.b64decode (c.b64encode bs) ≡ some bs)
      → c.from_utf8 (c.utf8 plaintext) ≡ some plaintext
      → length nonce ≡ 16
      → decrypt c fernet secret (encrypt c fernet secret nonce plaintext) ≡ some plaintext
  unfolding encrypt decrypt
  decrypt-encrypt none secret plaintext nonce f decodes u n =
      rw (stdlib_marked secret plaintext nonce) (stdlib_opened secret plaintext nonce decodes u n)
  decrypt-encrypt (some f) secret plaintext nonce h decodes u n =
      let opened = h (c.utf8 plaintext) in rw opened.0 (ap (decode_opened c) opened.1 ∙ u)
