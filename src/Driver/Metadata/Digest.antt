-- ===== src/Driver/Metadata/Digest.antt =====
-- Printing, parsing and comparing digests.
use mission_os.Base.{
  ℕ, [], ◌∷◌, ◌++◌, some, true, false, ◌≡◌, refl, sym, subst, ap, ◌∙◌, ◌⊎◌, inl, inr, ◌↔◌, ◌==◌,
  ◌/◌, ◌%◌, All, All-append, length, arith, Bool-cases,
}
use Prim.Native.Nat.{bit_or, bit_xor}
use mission_os.Base.Results.{ok}
use mission_os.Base.Text.{Text, codes, split_once, trim}
use mission_os.Base.Text.Split.{Lacks, split_once-append}
use mission_os.Base.Bits.{bit_xor_zero, bit_or_zero}
use mission_os.Base.Hex.{
  hex_encode, hex_char-le, hex_byte-hex_char, IsByte, hex_encode-IsPlain, trim_plain, IsPlain,
}
use mission_os.Driver.Metadata.{
  PackageDigest, is_utf8, hex_chunk, hex_chunks, hex_decode, sha256, blake3, parse_algorithm, parse,
  parse_parts, to_hex, to_string_full, differences, matches,
}

hex_chunks-hex_encode :
    (bytes : Text) → All IsByte bytes → hex_chunks (hex_encode bytes) ≡ some bytes
unfolding hex_chunks hex_encode hex_chunk is_utf8
hex_chunks-hex_encode [] h = refl
hex_chunks-hex_encode (b ∷ bytes) h =
    let first = h.0 in
    ground (
      arith,
      hex_byte-hex_char b h.0,
      hex_char-le (b / 16) (omega (arith, first)),
      hex_char-le (b % 16) (omega arith),
      hex_chunks-hex_encode bytes h.1,
    )

length-hex_encode : (bytes : Text) → length (hex_encode bytes) % 2 ≡ 0
unfolding hex_encode
length-hex_encode [] = refl
length-hex_encode (b ∷ bytes) = omega (arith, length-hex_encode bytes)

-- Bytes are read back from their hexadecimal print.
pub hex_decode-hex_encode :
    (bytes : Text) → All IsByte bytes → hex_decode (hex_encode bytes) ≡ ok bytes
unfolding hex_decode
hex_decode-hex_encode bytes h =
    rw (trim_plain (hex_encode bytes) (hex_encode-IsPlain bytes h), hex_decode)
      (ground (arith, length-hex_encode bytes, hex_chunks-hex_encode bytes h))

differences-zero :
    (acc : ℕ) (xs ys : Text)
    → length ys ≡ length xs
    → (differences acc xs ys ≡ 0) ↔ ((acc ≡ 0) × (xs ≡ ys))
unfolding differences
differences-zero acc [] [] h = (λ k. (k, refl), λ k. k.0)
differences-zero acc [] (y ∷ ys) h = absurd (omega (arith, h))
differences-zero acc (x ∷ xs) [] h = absurd (omega (arith, h))
differences-zero acc (x ∷ xs) (y ∷ ys) h = ground (
  arith,
  differences-zero (bit_or acc (bit_xor x y)) xs ys (omega (arith, h)),
  bit_or_zero acc (bit_xor x y),
  bit_xor_zero x y,
)

-- The comparison in constant time answers true exactly for the digest's own bytes.
pub matches_iff : (d : PackageDigest) (other : Text) → (matches d other ≡ true) ↔ (d.value ≡ other)
unfolding matches
matches_iff d other = elim (Bool-cases (length other == length d.value)) [
  | inl h ↦ ground (arith, differences-zero 0 d.value other (ground arith))
  | inr h ↦ (
    (λ k. ground arith),
    (λ k.
        let same = subst (λ x. (length x == length d.value) ≡ false) (sym k) h in
        ground (arith, same)),
  )
]

-- A digest of 32 bytes, by one of the two algorithms.
pub record IsDigest (d : PackageDigest) : Type 0 where
  pub is_known : (d.algorithm ≡ codes "sha256") ⊎ (d.algorithm ≡ codes "blake3")
  pub is_full : length d.value ≡ 32
  pub are_bytes : All IsByte d.value

parse-parse_algorithm :
    (algo hex : Text)
    → Lacks b':' algo
    → All IsPlain algo
    → All IsPlain hex
    → parse (algo ++ (codes ":" ++ hex)) ≡ parse_algorithm algo hex
unfolding parse parse_parts
parse-parse_algorithm algo hex lacks plain plain_hex =
    let trimmed =
      trim_plain (algo ++ (codes ":" ++ hex)) (
        All-append IsPlain algo (codes ":" ++ hex) plain ((omega arith, omega arith), plain_hex)) in
    let parts = ap (split_once b':') trimmed ∙ split_once-append b':' algo hex lacks in
    ap (parse_parts (trim (algo ++ (codes ":" ++ hex)))) parts

known-IsPlain :
    (algo : Text)
    → (algo ≡ codes "sha256") ⊎ (algo ≡ codes "blake3")
    → Lacks b':' algo × All IsPlain algo
known-IsPlain algo (inl h) = rw h (ground arith)
known-IsPlain algo (inr h) = rw h (ground arith)

algorithm-known :
    (algo value : Text)
    → (algo ≡ codes "sha256") ⊎ (algo ≡ codes "blake3")
    → length value ≡ 32
    → hex_decode (hex_encode value) ≡ ok value
    → parse_algorithm algo (hex_encode value) ≡ ok (record { algorithm = algo; value = value })
unfolding parse_algorithm sha256 blake3
algorithm-known algo value (inl h) full decoded = rw h (ground arith)
algorithm-known algo value (inr h) full decoded = rw h (ground arith)

-- A digest is read back from its print.
pub parse-to_string_full : (d : PackageDigest) → IsDigest d → parse (to_string_full d) ≡ ok d
unfolding to_string_full to_hex
parse-to_string_full d h =
    let plain = known-IsPlain d.algorithm h.is_known in
    parse-parse_algorithm d.algorithm (hex_encode d.value) plain.0 plain.1
      (hex_encode-IsPlain d.value h.are_bytes)
    ∙ algorithm-known d.algorithm d.value h.is_known h.is_full
        (hex_decode-hex_encode d.value h.are_bytes)
