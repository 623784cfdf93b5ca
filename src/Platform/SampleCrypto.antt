-- ===== src/Platform/SampleCrypto.antt =====
-- Functions that have the properties that are asked of the cryptography, for the tests.
use wes.Base.{
  ℕ, zero, suc, Bool, true, false, Option, none, some, [], ◌∷◌, ◌≡◌, refl, length, ◌==◌,
  if◌then◌else◌, Text, map, ap,
}
use mathlib.Core.Option
use wes.Platform.Cipher.{Byte, Bytes, Crypto}

abbrev digit : Bool → ℕ
digit true = 49
digit false = 48

abbrev bit : ℕ → Bool
bit c = c == 49

abbrev pub zeros : ℕ → Bytes
zeros zero = []
zeros (suc n) =
    record {
      b0 = false;
      b1 = false;
      b2 = false;
      b3 = false;
      b4 = false;
      b5 = false;
      b6 = false;
      b7 = false;
    }
    ∷ zeros n

-- Eight digits for a byte.
abbrev pub digits_of : Bytes → Text
digits_of [] = []
digits_of (x ∷ xs) =
    digit x.b0
    ∷ digit x.b1
    ∷ digit x.b2
    ∷ digit x.b3
    ∷ digit x.b4
    ∷ digit x.b5
    ∷ digit x.b6
    ∷ digit x.b7
    ∷ digits_of xs

abbrev pub from_digits : Text → Option Bytes
from_digits [] = some []
from_digits (a ∷ b ∷ c ∷ d ∷ e ∷ f ∷ g ∷ h ∷ t) =
    Option.map
      (λ (xs : Bytes).
        record {
          b0 = bit a;
          b1 = bit b;
          b2 = bit c;
          b3 = bit d;
          b4 = bit e;
          b5 = bit f;
          b6 = bit g;
          b7 = bit h;
        }
        ∷ xs)
      (from_digits t)
from_digits _ = none

bit-digit : (b : Bool) → bit (digit b) ≡ b
bit-digit true = refl
bit-digit false = refl

pub from_digits_of : (xs : Bytes) → from_digits (digits_of xs) ≡ some xs
from_digits_of [] = refl
from_digits_of (x ∷ xs) =
    rw
      (
        bit-digit x.b0,
        bit-digit x.b1,
        bit-digit x.b2,
        bit-digit x.b3,
        bit-digit x.b4,
        bit-digit x.b5,
        bit-digit x.b6,
        bit-digit x.b7,
        from_digits_of xs,
      )
      refl

-- "b" has the first bit, every other letter reads as "a".
abbrev letter_byte : ℕ → Byte
letter_byte c = record {
  b0 = c == 98;
  b1 = false;
  b2 = false;
  b3 = false;
  b4 = false;
  b5 = false;
  b6 = false;
  b7 = false;
}

abbrev byte_letter : Byte → ℕ
byte_letter x = if x.b0 then 98 else 97

abbrev pub crypto : Crypto
crypto = record {
  sha256 = λ xs. xs;
  hmac = λ key message. zeros 32;
  b64encode = digits_of;
  b64decode = from_digits;
  utf8 = map letter_byte;
  from_utf8 = λ xs. some (map byte_letter xs);
  counter_bytes = λ n. [];
}

pub length-zeros : (n : ℕ) → length (zeros n) ≡ n
length-zeros zero = refl
length-zeros (suc n) = ap (λ k. suc k) (length-zeros n)
