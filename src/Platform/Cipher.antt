-- ===== src/Platform/Cipher.antt =====
-- backend/app/core/secrets.py: `SecretBox`, with Fernet where the package `cryptography` is installed
-- and with the cipher of the standard library where it is not, and the masking of a secret. A byte is
-- its eight bits. SHA-256, HMAC, Base64, UTF-8 and Fernet are parameters.
use wes.Base.{
  ℕ, zero, suc, ◌-◌, Bool, true, false, ◌&&◌, not, Option, none, some, List, [], ◌∷◌, ◌++◌, take,
  drop, startswith, length, ltb, leb, if◌then◌else◌, Text, codes,
}

pub record Byte : Type 0 where
  pub b0 : Bool
  pub b1 : Bool
  pub b2 : Bool
  pub b3 : Bool
  pub b4 : Bool
  pub b5 : Bool
  pub b6 : Bool
  pub b7 : Bool

abbrev pub Bytes : Type 0
Bytes = List Byte

abbrev pub differ : Bool → Bool → Bool
differ true b = not b
differ false b = b

-- Python's `a ^ b`
abbrev pub xor_byte : Byte → Byte → Byte
xor_byte a k = record {
  b0 = differ k.b0 a.b0;
  b1 = differ k.b1 a.b1;
  b2 = differ k.b2 a.b2;
  b3 = differ k.b3 a.b3;
  b4 = differ k.b4 a.b4;
  b5 = differ k.b5 a.b5;
  b6 = differ k.b6 a.b6;
  b7 = differ k.b7 a.b7;
}

-- `bytes(a ^ b for a, b in zip(data, keystream))`
abbrev pub xor_bytes : Bytes → Bytes → Bytes
xor_bytes [] ks = []
xor_bytes (a ∷ bs) [] = []
xor_bytes (a ∷ bs) (k ∷ ks) = xor_byte a k ∷ xor_bytes bs ks

abbrev pub same_bit : Bool → Bool → Bool
same_bit a b = not (differ a b)

abbrev pub same_byte : Byte → Byte → Bool
same_byte a k =
    same_bit a.b0 k.b0
    && same_bit a.b1 k.b1
    && same_bit a.b2 k.b2
    && same_bit a.b3 k.b3
    && same_bit a.b4 k.b4
    && same_bit a.b5 k.b5
    && same_bit a.b6 k.b6
    && same_bit a.b7 k.b7

-- `hmac.compare_digest`
abbrev pub compare_digest : Bytes → Bytes → Bool
compare_digest [] [] = true
compare_digest [] (k ∷ ks) = false
compare_digest (a ∷ bs) [] = false
compare_digest (a ∷ bs) (k ∷ ks) = same_byte a k && compare_digest bs ks

-- `hashlib.sha256(...).digest()`, `hmac.new(key, message, sha256).digest()`, the URL-safe Base64 and
-- its decoding, UTF-8 and its decoding (`none` where they raise), and `counter.to_bytes(8, "big")`.
pub record Crypto : Type 0 where
  pub sha256 : Bytes → Bytes
  pub hmac : Bytes → Bytes → Bytes
  pub b64encode : Bytes → Text
  pub b64decode : Text → Option Bytes
  pub utf8 : Text → Bytes
  pub from_utf8 : Bytes → Option Text
  pub counter_bytes : ℕ → Bytes

-- `Fernet(key).encrypt`, at one moment and with the bytes that it draws then, and `.decrypt`, with
-- `none` where it raises. It is there if the package is installed.
pub record Fernet : Type 0 where
  pub seal : Text → Bytes → Text
  pub unseal : Text → Text → Option Bytes

-- `_MAGIC_STDLIB`
abbrev pub magic : Text
magic = codes "wes1:"

module _ (c : Crypto) where
  -- `_derive_key`
  abbrev pub derive_key : Text → Bytes
  derive_key secret = take 32 (c.sha256 (c.utf8 secret))

  -- The loop of `_keystream`, with the bytes so far. Each round adds at least one byte, so as many
  -- rounds as bytes are wanted are enough.
  unfoldable pub extend : Bytes → Bytes → ℕ → ℕ → ℕ → Bytes → Bytes
  extend key nonce length' zero counter out = out
  extend key nonce length' (suc rounds) counter out =
      let next = out ++ c.hmac key (nonce ++ c.counter_bytes counter) in
      let rest = extend key nonce length' rounds (suc counter) next in
      if ltb (length out) length' then rest else out

  unfoldable pub keystream : Bytes → Bytes → ℕ → Bytes
  keystream key nonce n = take n (extend key nonce n n 0 [])

  -- `_encrypt_stdlib`, for the nonce that `os.urandom(16)` gave.
  unfoldable pub encrypt_stdlib : Text → Bytes → Text → Text
  encrypt_stdlib secret nonce plaintext =
      let plain = c.utf8 plaintext in
      let body =
        xor_bytes plain (keystream (derive_key (secret ++ codes "enc")) nonce (length plain)) in
      let tag = c.hmac (derive_key (secret ++ codes "mac")) (nonce ++ body) in
      magic ++ c.b64encode (nonce ++ tag ++ body)

  -- The rest of `_decrypt_stdlib`, for the three parts of the token; `none` is a raise.
  unfoldable pub open_parts : Text → Bytes → Bytes → Bytes → Option Text
  open_parts secret nonce tag body =
      if compare_digest tag (c.hmac (derive_key (secret ++ codes "mac")) (nonce ++ body))
      then c.from_utf8
          (xor_bytes body (keystream (derive_key (secret ++ codes "enc")) nonce (length body)))
      else none

  abbrev pub open_raw : Text → Option Bytes → Option Text
  open_raw secret none = none
  open_raw secret (some raw) = open_parts secret (take 16 raw) (take 32 (drop 16 raw)) (drop 48 raw)

  unfoldable pub decrypt_stdlib : Text → Text → Option Text
  decrypt_stdlib secret token = open_raw secret (c.b64decode (drop 5 token))

  -- `_build_fernet`
  abbrev pub fernet_key : Text → Text
  fernet_key secret = c.b64encode (derive_key secret)

  -- `SecretBox.encrypt`
  unfoldable pub encrypt : Option Fernet → Text → Bytes → Text → Text
  encrypt none secret nonce plaintext = encrypt_stdlib secret nonce plaintext
  encrypt (some f) secret nonce plaintext = f.seal (fernet_key secret) (c.utf8 plaintext)

  abbrev pub decode_opened : Option Bytes → Option Text
  decode_opened none = none
  decode_opened (some bs) = c.from_utf8 bs

  abbrev pub decrypt_fernet : Option Fernet → Text → Text → Option Text
  decrypt_fernet none secret token = none
  decrypt_fernet (some f) secret token = decode_opened (f.unseal (fernet_key secret) token)

  -- `SecretBox.decrypt`
  unfoldable pub decrypt : Option Fernet → Text → Text → Option Text
  decrypt fernet secret token =
      if startswith magic token
      then decrypt_stdlib secret token
      else decrypt_fernet fernet secret token

-- `value[-4:]`
abbrev pub last_four : Text → Text
last_four value = drop (length value - 4) value

-- `mask_secret`; `dots` are the six bullets.
unfoldable pub mask_secret : Text → Text → Option Text
mask_secret dots [] = none
mask_secret dots (x ∷ value) =
    if leb (length (x ∷ value)) 4 then some (codes "***") else some (dots ++ last_four (x ∷ value))
