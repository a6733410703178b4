-- ===== src/Hash/Digits.antt =====
-- The digits that a hash is printed in.
use Prim.Native.Char.{Char}
use Prim.Native.Nat.{ℕ, zero, suc, ◌+◌, ◌*◌, ◌/◌, ◌%◌, ◌^◌, ◌<◌, bit_xor}
use poollet.Base.{
  String, true, false, ◌≡◌, ◌≢◌, refl, List, [], ◌∷◌, ◌++◌, arith, ◌==◌, ◌∙◌, sym, subst,
  Bool-cases, inl, inr,
}
use poollet.Base.Lists.{eqb, All}
use poollet.Domain.{Domain, is_dot, split, subdomain}
use poollet.Domain.Split.{IsLabel, split-subdomain}
use poollet.Hash.{
  write, write_all, fnv32a, hex_digit, hex_digits, digit_in, hex_byte, print_sum, offset32, prime32,
}

-- What a digit stands for.
abbrev pub value_in : List Char → Char → ℕ
value_in [] c = 0
value_in (d ∷ ds) c = elim (String.◌∷◌ c "" == String.◌∷◌ d "") [
  | true ↦ 0
  | false ↦ suc (value_in ds c)
]

abbrev pub read_hex : ℕ → String → ℕ
read_hex acc String.[] = acc
read_hex acc (String.◌∷◌ c s) = read_hex (acc * 16 + value_in hex_digits c) s

abbrev Reads : ℕ → Type 0
Reads n = value_in hex_digits (hex_digit n) ≡ n

-- All numbers below a bound.
abbrev UpTo : ℕ → Type 0
UpTo zero = Unit
UpTo (suc m) = Reads m × UpTo m

eqb-eq : (a b : ℕ) → eqb a b ≡ true → a ≡ b
eqb-eq a b h = ground arith

pick-Reads : (m n : ℕ) → UpTo m → n < m → Reads n
pick-Reads zero n h lt = absurd (omega arith)
pick-Reads (suc m) n h lt = elim (Bool-cases (eqb n m)) [
  | inl same ↦ subst Reads (sym (eqb-eq n m same)) h.0
  | inr other ↦ pick-Reads m n h.1 (ground arith)
]

digit-value : (n : ℕ) → n < 16 → Reads n
digit-value n h =
    pick-Reads 16 n
      (
        refl,
        (
          refl,
          (
            refl,
            (
              refl,
              (
                refl,
                (
                  refl,
                  (
                    refl,
                    (refl, (refl, (refl, (refl, (refl, (refl, (refl, (refl, (refl, tt))))))))),
                  ),
                ),
              ),
            ),
          ),
        ),
      )
      h

no_dot :
    (cs : List Char) → All (λ c. is_dot c ≡ false) cs → (n : ℕ) → is_dot (digit_in cs n) ≡ false
no_dot [] h n = refl
no_dot (c ∷ cs) h zero = h.0
no_dot (c ∷ cs) h (suc n) = no_dot cs h.1 n

no_dots : All (λ c. is_dot c ≡ false) hex_digits
no_dots = (
  refl,
  (
    refl,
    (
      refl,
      (
        refl,
        (
          refl,
          (
            refl,
            (refl, (refl, (refl, (refl, (refl, (refl, (refl, (refl, (refl, (refl, tt)))))))))),
          ),
        ),
      ),
    ),
  ),
)

digit-no_dot : (n : ℕ) → is_dot (hex_digit n) ≡ false
digit-no_dot n = no_dot hex_digits no_dots n

-- The digits of a uint32 read back.
print_sum-read_hex : (v : ℕ) → v < 2 ^ 32 → read_hex 0 (print_sum v) ≡ v
unfolding print_sum
print_sum-read_hex v h = omega (
  arith,
  digit-value (v / 2 ^ 24 % 256 / 16) (omega arith),
  digit-value (v / 2 ^ 24 % 256 % 16) (omega arith),
  digit-value (v / 2 ^ 16 % 256 / 16) (omega arith),
  digit-value (v / 2 ^ 16 % 256 % 16) (omega arith),
  digit-value (v / 2 ^ 8 % 256 / 16) (omega arith),
  digit-value (v / 2 ^ 8 % 256 % 16) (omega arith),
  digit-value (v % 256 / 16) (omega arith),
  digit-value (v % 256 % 16) (omega arith),
)

write-bound : (cs : List ℕ) (hash : ℕ) → hash < 2 ^ 32 → write cs hash < 2 ^ 32
unfolding write
write-bound [] hash h = h
write-bound (c ∷ cs) hash h = write-bound cs _ (omega arith)

write-append : (cs ds : List ℕ) (hash : ℕ) → write (cs ++ ds) hash ≡ write ds (write cs hash)
unfolding write
write-append [] ds hash = refl
write-append (c ∷ cs) ds hash = write-append cs ds ((bit_xor hash c * prime32) % 2 ^ 32)

-- The bytes of the texts, one after the other.
abbrev pub all_bytes : (String → List ℕ) → List String → List ℕ
all_bytes bytes [] = []
all_bytes bytes (s ∷ texts) = bytes s ++ all_bytes bytes texts

write_all-append :
    (bytes : String → List ℕ) (texts : List String) (hash : ℕ)
    → write_all bytes texts hash ≡ write (all_bytes bytes texts) hash
unfolding write_all write
write_all-append bytes [] hash = refl
write_all-append bytes (s ∷ texts) hash =
    write_all-append bytes texts (write (bytes s) hash)
    ∙ sym (write-append (bytes s) (all_bytes bytes texts) hash)

hex_byte-IsLabel : (b : ℕ) (rest : String) → IsLabel rest → IsLabel (hex_byte b rest)
hex_byte-IsLabel b rest h = (digit-no_dot (b / 16), (digit-no_dot (b % 16), h))

print_sum-IsLabel : (v : ℕ) → IsLabel (print_sum v) × (print_sum v ≢ "")
unfolding print_sum
print_sum-IsLabel v =
    let last = hex_byte (v % 256) "" in
    let third = hex_byte (v / 2 ^ 8 % 256) last in
    let second = hex_byte (v / 2 ^ 16 % 256) third in
    let in_third = hex_byte-IsLabel (v / 2 ^ 8 % 256) last (hex_byte-IsLabel (v % 256) "" tt) in
    let in_second = hex_byte-IsLabel (v / 2 ^ 16 % 256) third in_third in
    (hex_byte-IsLabel (v / 2 ^ 24 % 256) second in_second, λ h. cc)

fnv32a-read_hex :
    (bytes : String → List ℕ) (texts : List String)
    → (read_hex 0 (fnv32a bytes texts) ≡ write (all_bytes bytes texts) offset32)
      × (write (all_bytes bytes texts) offset32 < 2 ^ 32)
unfolding fnv32a
fnv32a-read_hex bytes texts =
    let bound = write-bound (all_bytes bytes texts) offset32 (omega arith) in
    let same = write_all-append bytes texts offset32 in
    (rw same (print_sum-read_hex (write (all_bytes bytes texts) offset32) bound), bound)

split-fnv32a :
    (bytes : String → List ℕ) (texts : List String) (d : Domain)
    → split (subdomain d (fnv32a bytes texts)) ≡ (fnv32a bytes texts, d)
unfolding fnv32a
split-fnv32a bytes texts d =
    let (label, nonempty) = print_sum-IsLabel (write_all bytes texts offset32) in
    split-subdomain d (print_sum (write_all bytes texts offset32)) nonempty label

-- The text that a hash is printed as reads back as the hash of all bytes in a row, however they are
-- divided into texts; that hash fits into 32 bits; and the text is a label, so that the subdomain
-- which is made from it splits into the text and the domain.
pub fnv32a_lem :
    (bytes : String → List ℕ) (texts : List String) (d : Domain)
    → (read_hex 0 (fnv32a bytes texts) ≡ write (all_bytes bytes texts) offset32)
      × (write (all_bytes bytes texts) offset32 < 2 ^ 32)
      × (split (subdomain d (fnv32a bytes texts)) ≡ (fnv32a bytes texts, d))
fnv32a_lem bytes texts d =
    let (reads, bound) = fnv32a-read_hex bytes texts in (reads, bound, split-fnv32a bytes texts d)
