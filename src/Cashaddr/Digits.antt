-- ===== src/Cashaddr/Digits.antt =====
-- convert_bits of import/cashaddr.c, from bytes to 5-bit digits, as a change of base.
use Prim.Native.Nat.{bit_or}
use app_kaspa.Prelude.{
  ℕ, zero, suc, ◌+◌, ◌-◌, ◌*◌, ◌/◌, ◌%◌, ◌^◌, ◌<◌, ◌≡◌, refl, ap, ◌∙◌, bit_and, true, some, List,
  [], ◌∷◌, ◌++◌, arith, All, All-append, length, length-append, ◌==◌, if◌then◌else◌, IsByte,
}
use app_kaspa.Prelude.Binary.{and_31, or_byte}
use app_kaspa.Cashaddr.{emit, convert_loop, convert_bits}

-- The number that digits continue `acc` to, the highest digit first.
abbrev pub digits_value : ℕ → ℕ → List ℕ → ℕ
digits_value base acc [] = acc
digits_value base acc (d ∷ ds) = digits_value base (acc * base + d) ds

abbrev pub IsDigit : ℕ → Type 0
IsDigit d = d < 32

digits_value-append :
    (base acc : ℕ) (xs ys : List ℕ)
    → digits_value base acc (xs ++ ys) ≡ digits_value base (digits_value base acc xs) ys
digits_value-append base acc [] ys = refl
digits_value-append base acc (x ∷ xs) ys = digits_value-append base (acc * base + x) xs ys

-- What the digits and the bits that are left make.
abbrev Emits : ℕ → ℕ → ℕ → List ℕ × ℕ → Type 0
Emits acc bits val r =
    (r.1 < 5)
    × (digits_value 32 acc r.0 * 2 ^ r.1 + val % 2 ^ r.1 ≡ acc * 2 ^ bits + val % 2 ^ bits)
    × All IsDigit r.0
    × (5 * length r.0 + r.1 ≡ bits)

emit-Emits :
    (bits acc val : ℕ) → bits < 5 → Emits acc (bits + 8) val (emit (bits + 8) 5 val (bits + 8))
unfolding emit
emit-Emits zero acc val h = omega (arith, and_31 (val / 8))
emit-Emits (suc zero) acc val h = omega (arith, and_31 (val / 16))
emit-Emits (suc (suc zero)) acc val h = omega (arith, and_31 (val / 32), and_31 (val / 1))
emit-Emits (suc (suc (suc zero))) acc val h = omega (arith, and_31 (val / 64), and_31 (val / 2))
emit-Emits (suc (suc (suc (suc zero)))) acc val h =
    omega (arith, and_31 (val / 128), and_31 (val / 4))
emit-Emits (suc (suc (suc (suc (suc n))))) acc val h = absurd (omega arith)

shifted : (val b : ℕ) → bit_or (val * 2 ^ 8 % 2 ^ 32) b ≡ bit_or (val % 2 ^ 24 * 256) b
shifted val b = ap (λ (k : ℕ). bit_or k b) (omega arith)

-- The next byte behind the bits that are left.
next_val :
    (bits val b : ℕ)
    → bits < 5
    → b < 256
    → bit_or (val * 2 ^ 8 % 2 ^ 32) b % 2 ^ (bits + 8) ≡ val % 2 ^ bits * 256 + b
next_val zero val b h k = omega (arith, or_byte (val % 2 ^ 24) b k, shifted val b)
next_val (suc zero) val b h k = omega (arith, or_byte (val % 2 ^ 24) b k, shifted val b)
next_val (suc (suc zero)) val b h k = omega (arith, or_byte (val % 2 ^ 24) b k, shifted val b)
next_val (suc (suc (suc zero))) val b h k = omega (arith, or_byte (val % 2 ^ 24) b k, shifted val b)
next_val (suc (suc (suc (suc zero)))) val b h k =
    omega (arith, or_byte (val % 2 ^ 24) b k, shifted val b)
next_val (suc (suc (suc (suc (suc n))))) val b h k = absurd (omega arith)

grow : (bits acc : ℕ) → bits < 5 → acc * 2 ^ (bits + 8) ≡ acc * 2 ^ bits * 256
grow zero acc h = omega arith
grow (suc zero) acc h = omega arith
grow (suc (suc zero)) acc h = omega arith
grow (suc (suc (suc zero))) acc h = omega arith
grow (suc (suc (suc (suc zero)))) acc h = omega arith
grow (suc (suc (suc (suc (suc n))))) acc h = absurd (omega arith)

abbrev Converts : ℕ → ℕ → ℕ → List ℕ → List ℕ × ℕ × ℕ → Type 0
Converts acc val bits input r =
    (r.2 < 5)
    × (digits_value 32 acc r.0 * 2 ^ r.2 + r.1 % 2 ^ r.2
        ≡ digits_value 256 (acc * 2 ^ bits + val % 2 ^ bits) input)
    × All IsDigit r.0
    × (5 * length r.0 + r.2 ≡ bits + 8 * length input)

convert_loop-Converts :
    (input : List ℕ) (acc val bits : ℕ)
    → All IsByte input
    → bits < 5
    → Converts acc val bits input (convert_loop 5 8 input val bits)
unfolding convert_loop
convert_loop-Converts [] acc val bits h k = (k, refl, ground arith, omega arith)
convert_loop-Converts (b ∷ bs) acc val bits (h, hs) k =
    let val' = bit_or (val * 2 ^ 8 % 2 ^ 32) b in
    let r = emit (bits + 8) 5 val' (bits + 8) in
    let (few, value, digits, count) = emit-Emits bits acc val' k in
    let (few', value', digits', count') =
      convert_loop-Converts bs (digits_value 32 acc r.0) val' r.1 hs few in
    let rest = convert_loop 5 8 bs val' r.1 in
    let next : acc * 2 ^ (bits + 8) + val' % 2 ^ (bits + 8)
        ≡ (acc * 2 ^ bits + val % 2 ^ bits) * 256 + b =
      omega (arith, grow bits acc k, next_val bits val b k h) in
    (
      few',
      ap (λ x. x * 2 ^ rest.2 + rest.1 % 2 ^ rest.2) (digits_value-append 32 acc r.0 rest.0)
          ∙ value'
          ∙ ap (λ x. digits_value 256 x bs) (value ∙ next),
      All-append IsDigit r.0 rest.0 digits digits',
      omega (arith, length-append r.0 rest.0),
    )

abbrev Padded : ℕ → ℕ → List ℕ → Type 0
Padded total n digits =
    (out : List ℕ) × (pad : ℕ) × (digits ≡ out)
    × (pad < 5)
    × All IsDigit out
    × (5 * length out ≡ 8 * n + pad)
    × (digits_value 32 0 out ≡ total * 2 ^ pad)

with_last :
    (out : List ℕ) (last pad total n : ℕ)
    → pad < 5
    → All IsDigit out
    → last < 32
    → 5 * (length out + 1) ≡ 8 * n + pad
    → digits_value 32 0 out * 32 + last ≡ total * 2 ^ pad
    → Padded total n (out ++ last ∷ [])
with_last out last pad total n p d small c v = (
  out ++ last ∷ [],
  pad,
  refl,
  p,
  All-append IsDigit out (last ∷ []) d (ground (arith, small)),
  omega (arith, length-append out (last ∷ [])),
  digits_value-append 32 0 out (last ∷ []) ∙ v,
)

-- The last digit, of the bits that are left.
pad_last :
    (out : List ℕ) (val bits total n : ℕ)
    → bits < 5
    → digits_value 32 0 out * 2 ^ bits + val % 2 ^ bits ≡ total
    → All IsDigit out
    → 5 * length out + bits ≡ 8 * n
    → Padded total n
        (if bits == 0 then out else out ++ bit_and (val * 2 ^ (5 - bits) % 2 ^ 32) 31 ∷ [])
pad_last out val zero total n h v d c = (out, 0, refl, omega arith, d, omega arith, omega arith)
pad_last out val (suc zero) total n h v d c =
    let small = and_31 (val * 2 ^ 4 % 2 ^ 32) in
    with_last out _ 4 total n (omega arith) d (omega arith) (omega arith) (omega arith)
pad_last out val (suc (suc zero)) total n h v d c =
    let small = and_31 (val * 2 ^ 3 % 2 ^ 32) in
    with_last out _ 3 total n (omega arith) d (omega arith) (omega arith) (omega arith)
pad_last out val (suc (suc (suc zero))) total n h v d c =
    let small = and_31 (val * 2 ^ 2 % 2 ^ 32) in
    with_last out _ 2 total n (omega arith) d (omega arith) (omega arith) (omega arith)
pad_last out val (suc (suc (suc (suc zero)))) total n h v d c =
    let small = and_31 (val * 2 ^ 1 % 2 ^ 32) in
    with_last out _ 1 total n (omega arith) d (omega arith) (omega arith) (omega arith)
pad_last out val (suc (suc (suc (suc (suc k))))) total n h v d c = absurd (omega arith)

-- Padded to whole digits, bytes become digits below 32 that make the number of the bytes times a
-- power of two: as many digits as their bits need, with fewer than five bits of padding, all zero.
pub convert_bits-value :
    (input : List ℕ)
    → All IsByte input
    → (out : List ℕ) × (pad : ℕ) × (convert_bits 5 input 8 true ≡ some out)
      × (pad < 5)
      × All IsDigit out
      × (5 * length out ≡ 8 * length input + pad)
      × (digits_value 32 0 out ≡ digits_value 256 0 input * 2 ^ pad)
unfolding convert_bits
convert_bits-value input h =
    let r = convert_loop 5 8 input 0 0 in
    let (few, value, digits, count) = convert_loop-Converts input 0 0 0 h (omega arith) in
    let (out, pad, e, few_pad, small, size, total) =
      pad_last r.0 r.1 r.2 (digits_value 256 0 input) (length input) few value digits
        (omega arith) in
    (out, pad, ap some e, few_pad, small, size, total)
