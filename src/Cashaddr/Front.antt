-- ===== src/Cashaddr/Front.antt =====
-- The front of the array that cashaddr_encode of import/cashaddr.c writes.
use app_kaspa.Prelude.{
  take-set, ℕ, ◌+◌, ◌*◌, ◌/◌, ◌≤◌, ◌≡◌, sym, ap, ◌∙◌, ◌⊎◌, true, Option, none, some, List, [], ◌∷◌,
  ◌++◌, arith, All, IsByte, length, length-append, length-set, length-splice, set, take,
  take-splice, splice,
}
use app_kaspa.Cashaddr.{convert_bits, create_checksum, cashaddr_encode}
use app_kaspa.Cashaddr.Digits.{convert_bits-value}
use app_kaspa.Cashaddr.Text.{
  characters, length-characters, length-create_checksum, cashaddr_encode-characters,
}

-- The characters in the array are those of digits and their checksum.
pub cashaddr_encode-front :
    (hash : List ℕ) (hash_length : ℕ) (addr : List ℕ) (max version : ℕ) (digits : List ℕ)
    → (version ≡ 0) ⊎ (version ≡ 1) ⊎ (version ≡ 8)
    → All IsByte (take hash_length hash)
    → hash_length ≤ 39
    → 8 * length (take hash_length hash) + 52 ≤ 5 * max
    → convert_bits 5 (version ∷ take hash_length hash) 8 true ≡ some digits
    → length digits + 8 ≤ length addr
    → let (n, written) = cashaddr_encode hash hash_length addr max version in
      take n written ≡ characters (digits ++ create_checksum digits)
cashaddr_encode-front hash hash_length addr max version digits known bytes short room converted'
      inside =
    let (payload, converted, encoded) =
      cashaddr_encode-characters hash hash_length addr max version known bytes short room in
    let same : payload ≡ digits =
      ap (λ (o : Option (List ℕ)). elim o [ none ↦ [] | some ds ↦ ds ])
        (sym converted ∙ converted') in
    let n = length payload + 8 in
    let text = characters (payload ++ create_checksum payload) in
    let count : n ≡ length text = omega (
      arith,
      length-characters (payload ++ create_checksum payload),
      length-append payload (create_checksum payload),
      length-create_checksum payload,
    ) in
    let fits : n ≤ length (set addr 0 0) = omega (arith, length-set addr 0 0, ap length same) in
    ap (λ (r : ℕ × List ℕ). take r.0 r.1) encoded
    ∙ take-set n (splice (set addr 0 0) 0 text) n 0 (omega arith)
    ∙ take-splice (set addr 0 0) text n count fits
    ∙ ap (λ ds. characters (ds ++ create_checksum ds)) same

-- How many characters are written: as many as the bits of the bytes need, and eight. The array keeps
-- its length.
pub cashaddr_encode-length :
    (hash : List ℕ) (hash_length : ℕ) (addr : List ℕ) (max version : ℕ)
    → (version ≡ 0) ⊎ (version ≡ 1) ⊎ (version ≡ 8)
    → All IsByte (take hash_length hash)
    → hash_length ≤ 39
    → 8 * length (take hash_length hash) + 52 ≤ 5 * max
    → let (n, written) = cashaddr_encode hash hash_length addr max version in
      (n ≡ (8 * length (take hash_length hash) + 12) / 5 + 8) × (length written ≡ length addr)
cashaddr_encode-length hash hash_length addr max version known bytes short room =
    let input = version ∷ take hash_length hash in
    let input_bytes : All IsByte input = (ground (arith, known), bytes) in
    let (payload, converted, encoded) =
      cashaddr_encode-characters hash hash_length addr max version known bytes short room in
    let (digits, pad, converted', few, small, size, value) = convert_bits-value input input_bytes in
    let same : payload ≡ digits =
      ap (λ (o : Option (List ℕ)). elim o [ none ↦ [] | some ds ↦ ds ])
        (sym converted ∙ converted') in
    let text = characters (payload ++ create_checksum payload) in
    (
      ap (λ (r : ℕ × List ℕ). r.0) encoded ∙ omega (arith, ap length same, size),
      ap (λ (r : ℕ × List ℕ). length r.1) encoded
          ∙ length-set (splice (set addr 0 0) 0 text) (length payload + 8) 0
          ∙ length-splice (set addr 0 0) 0 text
          ∙ length-set addr 0 0,
    )
