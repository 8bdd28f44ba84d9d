-- ===== src/Cashaddr/Reader.antt =====
-- Reading an address that cashaddr_encode of import/cashaddr.c has written.
use app_kaspa.Prelude.{
  ℕ, zero, suc, ◌+◌, ◌-◌, ◌*◌, ◌/◌, ◌^◌, ◌≤◌, ◌<◌, ◌≡◌, refl, subst, sym, ap, ap₂, ◌∙◌, ◌⊎◌, Bool,
  true, ◌&&◌, inl, inr, Option, none, some, List, [], ◌∷◌, ◌++◌, arith, All, All-append, IsByte,
  length, length-append, get_or, take, take-append, be_bytes, be_value, be_bytes-be_value, ◌==◌,
  if◌then◌else◌,
}
use native.Mathlib.Nat.{pow-suc, mul-div_cancel, eq-or-lt_of_le, one-le-pow}
use app_kaspa.Cashaddr.{charset, create_checksum, cashaddr_encode}
use app_kaspa.Cashaddr.Digits.{IsDigit, digits_value, convert_bits-value}
use app_kaspa.Cashaddr.Checksum.{syndrome, create_checksum-syndrome}
use app_kaspa.Cashaddr.Front.{cashaddr_encode-front}
use app_kaspa.Cashaddr.Text.{
  characters, length-characters, checksum-IsDigit, length-create_checksum,
}

-- The place of a character in the alphabet.
place : ℕ → List ℕ → ℕ
place c [] = 0
place c (x ∷ xs) = let rest = place c xs in if c == x then 0 else suc rest

digits_of : List ℕ → List ℕ
unfolding place
digits_of [] = []
digits_of (c ∷ cs) = place c charset ∷ digits_of cs

-- The bytes of a number of 5-bit digits, without the padding.
bytes_of : List ℕ → List ℕ
bytes_of payload =
    let n = 5 * length payload / 8 in
    be_bytes n (digits_value 32 0 payload / 2 ^ (5 * length payload - 8 * n))

-- The bytes that a text stands for, if its checksum is right: the version, and the hash or the key.
unfoldable pub read_address : List ℕ → Option (List ℕ)
unfolding digits_of bytes_of syndrome
read_address text =
    let digits = digits_of text in
    if syndrome digits == 0 then some (bytes_of (take (length text - 8) digits)) else none

-- Whether a function keeps all numbers below one.
keeps_below : (ℕ → ℕ) → ℕ → Bool
keeps_below f zero = true
keeps_below f (suc d) = f d == d && keeps_below f d

keeps_below_lem : (f : ℕ → ℕ) (n d : ℕ) → keeps_below f n ≡ true → d < n → f d ≡ d
unfolding keeps_below
keeps_below_lem f zero d h k = absurd (omega arith)
keeps_below_lem f (suc n) d h k =
    let split : (f n ≡ n) × (keeps_below f n ≡ true) = ground arith in
    elim (eq-or-lt_of_le {n = d} {m = n} (omega arith)) [
      | inl e ↦ ap f e ∙ split.0 ∙ sym e
      | inr l ↦ keeps_below_lem f n d split.1 l
    ]

-- The alphabet has 32 different characters.
place-charset : (d : ℕ) → IsDigit d → place (get_or charset d 0) charset ≡ d
unfolding keeps_below place
place-charset d h = keeps_below_lem (λ i. place (get_or charset i 0) charset) 32 d refl h

digits_of-characters : (ds : List ℕ) → All IsDigit ds → digits_of (characters ds) ≡ ds
unfolding digits_of
digits_of-characters [] h = refl
digits_of-characters (d ∷ ds) (h, hs) = ap₂ ◌∷◌ (place-charset d h) (digits_of-characters ds hs)

digits_value-be_value :
    (bs : List ℕ) (acc : ℕ) → digits_value 256 acc bs ≡ acc * 256 ^ length bs + be_value bs
unfolding be_value
digits_value-be_value [] acc = omega arith
digits_value-be_value (b ∷ bs) acc =
    digits_value-be_value bs (acc * 256 + b)
    ∙ omega (arith, ap (λ (m : ℕ). acc * m) (pow-suc 256 (length bs)))

bytes_of-payload :
    (payload input : List ℕ) (pad : ℕ)
    → All IsByte input
    → pad < 5
    → 5 * length payload ≡ 8 * length input + pad
    → digits_value 32 0 payload ≡ digits_value 256 0 input * 2 ^ pad
    → bytes_of payload ≡ input
unfolding bytes_of
bytes_of-payload payload input pad bytes few size value =
    let count : 5 * length payload / 8 ≡ length input = omega arith in
    let rest : 5 * length payload - 8 * length input ≡ pad = omega arith in
    let number : digits_value 256 0 input ≡ be_value input =
      digits_value-be_value input 0 ∙ omega arith in
    rw
      (
        count,
        rest,
        value,
        mul-div_cancel (digits_value 256 0 input) (one-le-pow pad 2 (omega arith)),
        number,
      )
      (be_bytes-be_value input bytes)

read_address-characters :
    (payload input : List ℕ) (pad : ℕ)
    → All IsDigit payload
    → All IsByte input
    → pad < 5
    → 5 * length payload ≡ 8 * length input + pad
    → digits_value 32 0 payload ≡ digits_value 256 0 input * 2 ^ pad
    → read_address (characters (payload ++ create_checksum payload)) ≡ some input
unfolding read_address
read_address-characters payload input pad digits bytes few size value =
    let all = payload ++ create_checksum payload in
    let whole =
      digits_of-characters all
        (All-append IsDigit payload (create_checksum payload) digits (checksum-IsDigit payload)) in
    let valid = create_checksum-syndrome payload in
    let count : length (characters all) - 8 ≡ length payload = omega (
      arith,
      length-characters all,
      length-append payload (create_checksum payload),
      length-create_checksum payload,
    ) in
    rw (whole, valid, count, take-append payload (create_checksum payload) (length payload) refl)
      (ap some (bytes_of-payload payload input pad bytes few size value))

-- No character is a zero, which would end a text.
abbrev pub IsLetter : ℕ → Type 0
IsLetter c = 1 ≤ c

letter : (c d : ℕ) → place c charset ≡ d → IsDigit d → IsLetter c
unfolding place
letter zero d e h = absurd (let past : place 0 charset ≡ 32 = refl in omega arith)
letter (suc c) d e h = omega arith

characters-IsLetter : (ds : List ℕ) → All IsDigit ds → All IsLetter (characters ds)
characters-IsLetter [] h = tt
characters-IsLetter (d ∷ ds) (h, hs) =
    (letter (get_or charset d 0) d (place-charset d h) h, characters-IsLetter ds hs)

pub cashaddr_encode-IsLetter :
    (hash : List ℕ) (hash_length : ℕ) (addr : List ℕ) (max version : ℕ)
    → (version ≡ 0) ⊎ (version ≡ 1) ⊎ (version ≡ 8)
    → All IsByte (take hash_length hash)
    → hash_length ≤ 39
    → 8 * length (take hash_length hash) + 52 ≤ 5 * max
    → max ≤ length addr
    → let (n, written) = cashaddr_encode hash hash_length addr max version in
      All IsLetter (take n written)
cashaddr_encode-IsLetter hash hash_length addr max version known bytes short room fits =
    let input = version ∷ take hash_length hash in
    let (digits, pad, converted, few, small, size, value) =
      convert_bits-value input (ground (arith, known), bytes) in
    subst (All IsLetter)
      (sym (
        cashaddr_encode-front hash hash_length addr max version digits known bytes short room
          converted (omega (arith, size))))
      (characters-IsLetter (digits ++ create_checksum digits)
        (All-append IsDigit digits (create_checksum digits) small (checksum-IsDigit digits)))

-- An address can be read back: from the characters that are written for a version of the application
-- and the bytes of a hash or a key, at most the 39 that the local arrays have room for, where there
-- is room for the characters, a reader that tests the checksum gets the version and those bytes.
pub cashaddr_encode-read_address :
    (hash : List ℕ) (hash_length : ℕ) (addr : List ℕ) (max version : ℕ)
    → (version ≡ 0) ⊎ (version ≡ 1) ⊎ (version ≡ 8)
    → All IsByte (take hash_length hash)
    → hash_length ≤ 39
    → 8 * length (take hash_length hash) + 52 ≤ 5 * max
    → max ≤ length addr
    → let (n, written) = cashaddr_encode hash hash_length addr max version in
      read_address (take n written) ≡ some (version ∷ take hash_length hash)
cashaddr_encode-read_address hash hash_length addr max version known bytes short room fits =
    let input = version ∷ take hash_length hash in
    let input_bytes : All IsByte input = (ground (arith, known), bytes) in
    let (digits, pad, converted, few, small, size, value) = convert_bits-value input input_bytes in
    ap read_address (
      cashaddr_encode-front hash hash_length addr max version digits known bytes short room
        converted (omega (arith, size)))
    ∙ read_address-characters digits input pad small input_bytes few size value
