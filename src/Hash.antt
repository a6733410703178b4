-- ===== src/Hash.antt =====
-- hash/hash.go, with the standard library's 32-bit FNV-1a and its printing in hexadecimal digits.
-- The bytes of a text are a parameter.
pub mod Digits
use Prim.Native.Char.{Char}
use Prim.Native.String
use Prim.Native.Nat.{ℕ, zero, suc, ◌*◌, ◌/◌, ◌%◌, ◌^◌, bit_xor}
use poollet.Base.{String, List, [], ◌∷◌}

abbrev pub offset32 : ℕ
offset32 = 2166136261

abbrev pub prime32 : ℕ
prime32 = 16777619

-- `Write`: the state is a uint32.
unfoldable pub write : List ℕ → ℕ → ℕ
write [] hash = hash
write (c ∷ cs) hash = write cs ((bit_xor hash c * prime32) % 2 ^ 32)

abbrev pub hex_digits : List Char
hex_digits =
    "0" ∷ "1" ∷ "2" ∷ "3" ∷ "4" ∷ "5" ∷ "6" ∷ "7" ∷ "8" ∷ "9" ∷ "a" ∷ "b" ∷ "c" ∷ "d" ∷ "e" ∷ "f"
    ∷ []

-- The digit at an index, which is in range.
abbrev pub digit_in : List Char → ℕ → Char
digit_in [] n = "0"
digit_in (c ∷ cs) zero = c
digit_in (c ∷ cs) (suc n) = digit_in cs n

-- A digit of `%x`, for a number below 16.
abbrev pub hex_digit : ℕ → Char
hex_digit = digit_in hex_digits

-- The two digits of a byte before a text.
abbrev pub hex_byte : ℕ → String → String
hex_byte b rest = String.◌∷◌ (hex_digit (b / 16)) (String.◌∷◌ (hex_digit (b % 16)) rest)

-- `Sum` appends the bytes of the state, the highest first.
unfoldable pub print_sum : ℕ → String
print_sum v =
    hex_byte (v / 2 ^ 24 % 256)
      (hex_byte (v / 2 ^ 16 % 256) (hex_byte (v / 2 ^ 8 % 256) (hex_byte (v % 256) "")))

module _ (bytes : String → List ℕ) where
  -- The loop over the texts.
  unfoldable pub write_all : List String → ℕ → ℕ
  unfolding write
  write_all [] hash = hash
  write_all (s ∷ texts) hash = write_all texts (write (bytes s) hash)

  unfoldable pub fnv32a : List String → String
  unfolding write_all print_sum
  fnv32a texts = print_sum (write_all texts offset32)
