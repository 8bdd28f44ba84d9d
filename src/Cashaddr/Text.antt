-- ===== src/Cashaddr/Text.antt =====
-- The characters that cashaddr_encode of import/cashaddr.c writes.
use app_kaspa.Prelude.{
  ℕ, zero, suc, ◌+◌, ◌*◌, ◌/◌, ◌^◌, ◌≤◌, ◌<◌, ◌≡◌, refl, ap, ◌∙◌, ◌⊎◌, Bool, true, false, not, ◌||◌,
  Option, none, some, List, [], ◌∷◌, ◌++◌, arith, All, IsByte, length, get_or, set, splice,
  splice-append, take, ltb, ◌==◌, if◌then◌else◌,
}
use app_kaspa.Prelude.Binary.{and_31}
use app_kaspa.Cashaddr.{
  charset, groups, create_checksum, poly_mod, prefix, write_digits, write_address, convert_bits,
  cashaddr_encode,
}
use app_kaspa.Cashaddr.Digits.{IsDigit, convert_bits-value}

abbrev pub characters : List ℕ → List ℕ
characters [] = []
characters (d ∷ ds) = get_or charset d 0 ∷ characters ds

pub length-characters : (ds : List ℕ) → length (characters ds) ≡ length ds
length-characters [] = refl
length-characters (d ∷ ds) = ap suc (length-characters ds)

characters-append : (ds es : List ℕ) → characters (ds ++ es) ≡ characters ds ++ characters es
characters-append [] es = refl
characters-append (d ∷ ds) es = ap (◌∷◌ (get_or charset d 0)) (characters-append ds es)

splice-set :
    (dst : List ℕ) (n c : ℕ) (xs : List ℕ) → splice (set dst n c) (n + 1) xs ≡ splice dst n (c ∷ xs)
unfolding splice
splice-set [] n c xs = refl
splice-set (d ∷ dst) zero c [] = refl
splice-set (d ∷ dst) zero c (x ∷ xs) = refl
splice-set (d ∷ dst) (suc n) c xs =
    let e : suc n + 1 ≡ suc (n + 1) = omega arith in rw e (ap (◌∷◌ d) (splice-set dst n c xs))

splice-nothing : (dst : List ℕ) (n : ℕ) → splice dst n [] ≡ dst
unfolding splice
splice-nothing [] n = refl
splice-nothing (d ∷ dst) zero = refl
splice-nothing (d ∷ dst) (suc n) = ap (◌∷◌ d) (splice-nothing dst n)

write_digits_lem :
    (first : ℕ) (ds : List ℕ) (max n : ℕ) (addr : List ℕ)
    → first < 32
    → n + length ds ≤ max
    → write_digits first ds max n addr ≡ (true, n + length ds, splice addr n (characters ds))
unfolding write_digits
write_digits_lem first [] max n addr f h =
    let e : n + 0 ≡ n = omega arith in rw (e, splice-nothing addr n)
write_digits_lem first (d ∷ ds) max n addr f h =
    let digit : not (first / 2 ^ 5 == 0) ≡ false = ground arith in
    let room : ltb max (n + 1) ≡ false = ground arith in
    let rest =
      write_digits_lem first ds max (n + 1) (set addr n (get_or charset d 0)) f (omega arith) in
    let count : n + suc (length ds) ≡ n + 1 + length ds = omega arith in
    rw (digit, room, rest, count, splice-set addr n (get_or charset d 0) (characters ds))

groups-IsDigit : (n rem : ℕ) → All IsDigit (groups n rem)
unfolding groups
groups-IsDigit zero rem = ground arith
groups-IsDigit (suc n) rem = (omega (arith, and_31 (rem / 2 ^ (5 * n))), groups-IsDigit n rem)

first_digit : (ds : List ℕ) → All IsDigit ds → get_or ds 0 0 < 32
first_digit [] h = omega arith
first_digit (d ∷ ds) (h, hs) = h

write_address_lem :
    (payload checksum : List ℕ) (max n : ℕ) (addr : List ℕ)
    → All IsDigit payload
    → All IsDigit checksum
    → n ≡ length payload + length checksum
    → n ≤ max
    → write_address payload checksum max addr
      ≡ (n, set (splice addr 0 (characters (payload ++ checksum))) n 0)
unfolding write_address
write_address_lem payload checksum max n addr p c e h =
    let first =
      write_digits_lem (get_or payload 0 0) payload max 0 addr (first_digit payload p)
        (omega arith) in
    let second =
      write_digits_lem (get_or checksum 0 0) checksum max (0 + length payload)
        (splice addr 0 (characters payload)) (first_digit checksum c) (omega arith) in
    let joined =
      splice-append addr 0 (0 + length payload) (characters payload) (characters checksum)
        (omega (arith, length-characters payload)) in
    let count : 0 + length payload + length checksum ≡ n = omega arith in
    rw (first, second, joined, count, characters-append payload checksum)

pub checksum-IsDigit : (payload : List ℕ) → All IsDigit (create_checksum payload)
unfolding create_checksum
checksum-IsDigit payload = groups-IsDigit 8 (poly_mod prefix payload)

pub length-create_checksum : (payload : List ℕ) → length (create_checksum payload) ≡ 8
unfolding create_checksum
length-create_checksum payload = refl

-- What `cashaddr_encode` makes of the result of `convert_bits`.
abbrev encoded : List ℕ → ℕ → Option (List ℕ) → ℕ × List ℕ
encoded addr max o = elim o [
  | none ↦ (0, set addr 0 0)
  | some payload ↦ write_address payload (create_checksum payload) max (set addr 0 0)
]

if_true {ℓ} : {A : Type ℓ} (b : Bool) (x y : A) → b ≡ true → (if b then x else y) ≡ x
if_true true x y h = refl
if_true false x y h = absurd (ground arith)

-- For a version of the application, at most 39 bytes of the hash, which the local arrays have room
-- for, and room for the digits and eight more, an address is the characters of the 5-bit digits of the version and the hash, and those of their
-- checksum, with a zero behind them; the result is their number.
pub cashaddr_encode-characters :
    (hash : List ℕ) (hash_length : ℕ) (addr : List ℕ) (max version : ℕ)
    → (version ≡ 0) ⊎ (version ≡ 1) ⊎ (version ≡ 8)
    → All IsByte (take hash_length hash)
    → hash_length ≤ 39
    → 8 * length (take hash_length hash) + 52 ≤ 5 * max
    → (payload : List ℕ) × (convert_bits 5 (version ∷ take hash_length hash) 8 true ≡ some payload)
      × (cashaddr_encode hash hash_length addr max version ≡ (
        length payload + 8,
        set
            (splice (set addr 0 0) 0 (characters (payload ++ create_checksum payload)))
            (length payload + 8)
            0,
      ))
unfolding cashaddr_encode
cashaddr_encode-characters hash hash_length addr max version known bytes short room =
    let (payload, pad, converted, few, digits, size, value) =
      convert_bits-value (version ∷ take hash_length hash) (ground (arith, known), bytes) in
    let supported : (version == 0 || version == 1 || version == 8) ≡ true = ground (arith, known) in
    let written =
      write_address_lem payload (create_checksum payload) max (length payload + 8) (set addr 0 0)
        digits (checksum-IsDigit payload) (omega (arith, length-create_checksum payload))
        (omega arith) in
    (
      payload,
      converted,
      if_true _ (encoded addr max (convert_bits 5 (version ∷ take hash_length hash) 8 true))
            (0, set addr 0 0) supported
          ∙ ap (encoded addr max) converted
          ∙ written,
    )
