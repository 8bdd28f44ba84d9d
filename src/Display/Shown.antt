-- ===== src/Display/Shown.antt =====
-- The address on the screen of a review, as a reader reads it.
use app_kaspa.Prelude.{
  ℕ, zero, suc, ◌+◌, ◌-◌, ◌*◌, ◌/◌, ◌≤◌, ◌≡◌, refl, sym, subst, ap, ◌∙◌, false, some, List, [], ◌∷◌,
  ◌++◌, arith, All, All-append, IsByte, length, length-append, length-take, take, take_all, drop,
  replicate, length-replicate, append-nil, slice, splice, splice-front, splice-whole, length-drop,
  ◌==◌,
}
use app_kaspa.Cashaddr.{cashaddr_encode}
use app_kaspa.Cashaddr.Front.{cashaddr_encode-length}
use app_kaspa.Cashaddr.Reader.{IsLetter, read_address, cashaddr_encode-IsLetter}
use app_kaspa.Address.{AddressType, address_len, version, encode_address}
use app_kaspa.Address.Reads.{
  payload_len, before_digits, encode_address-parts, sizes, version_known, encode_address-reads,
  take-past,
}
use app_kaspa.Display.{c_string}

-- The text begins with "kaspa:", and a reader that tests the checksum gets `bytes` from the rest.
abbrev pub ReadsAs : List ℕ → List ℕ → Type 0
ReadsAs text bytes = (take 6 text ≡ before_digits) × (read_address (drop 6 text) ≡ some bytes)

c_string-letters :
    (text rest : List ℕ) → All IsLetter text → c_string (text ++ rest) ≡ text ++ c_string rest
c_string-letters [] rest h = refl
c_string-letters (zero ∷ text) rest (h, hs) = absurd (omega arith)
c_string-letters (suc c ∷ text) rest (h, hs) =
    let more : (suc c == 0) ≡ false = ground arith in
    rw more (ap (◌∷◌ (suc c)) (c_string-letters text rest hs))

c_string-zeros : (k n : ℕ) → c_string (drop k (replicate n 0)) ≡ []
c_string-zeros zero zero = refl
c_string-zeros zero (suc n) = refl
c_string-zeros (suc k) zero = refl
c_string-zeros (suc k) (suc n) = c_string-zeros k n

-- A text without zeros, over the front of a zeroed array.
c_string-front :
    (text : List ℕ) (n : ℕ)
    → All IsLetter text
    → length text ≤ n
    → c_string (splice (replicate n 0) 0 text) ≡ text
c_string-front text n letters room =
    let zeros = replicate n 0 in
    ap c_string (splice-front zeros text (omega (arith, length-replicate n (let z : ℕ = 0 in z))))
    ∙ c_string-letters text (drop (length text) zeros) letters
    ∙ ap (λ (rest : List ℕ). text ++ rest) (c_string-zeros (length text) n)
    ∙ append-nil text

encode_address-IsLetter :
    (payload : List ℕ) (type : AddressType)
    → length payload ≡ payload_len type
    → All IsByte payload
    → let text = take (address_len type) (encode_address payload (length payload) type) in
      All IsLetter text × (length text ≡ address_len type)
encode_address-IsLetter payload type l bytes =
    let n = length payload in
    let max = address_len type in
    let m = max - 6 in
    let (split, digits, need, most) = sizes type in
    let all = take_all n payload (omega arith) in
    let all_bytes = subst (All IsByte) (sym all) bytes in
    let count = ap length all in
    let space : 8 * length (take n payload) + 52 ≤ 5 * max = omega arith in
    let known = version_known type in
    let (written, size) =
      cashaddr_encode-length payload n (replicate 74 0) max (version type) known all_bytes
        (omega arith) space in
    let letters =
      cashaddr_encode-IsLetter payload n (replicate 74 0) max (version type) known all_bytes
        (omega arith) space (omega arith) in
    let tail = (cashaddr_encode payload n (replicate 74 0) max (version type)).1 in
    let characters : (cashaddr_encode payload n (replicate 74 0) max (version type)).0 ≡ m =
      written ∙ ap (λ k. (8 * k + 12) / 5 + 8) (count ∙ l) ∙ digits in
    let text : take max (encode_address payload n type) ≡ before_digits ++ take m tail =
      ap (λ (k : ℕ). take k (encode_address payload n type)) split
      ∙ ap (take (6 + m)) (encode_address-parts payload n type)
      ∙ take-past before_digits tail 6 m refl in
    let letters' : All IsLetter (take m tail) =
      subst (λ (k : ℕ). All IsLetter (take k tail)) characters letters in
    let prefix : All IsLetter before_digits = ground arith in
    (
      subst (All IsLetter) (sym text)
          (All-append IsLetter before_digits (take m tail) prefix letters'),
      ap length text ∙ omega (arith, length-append before_digits (take m tail), length-take m tail),
    )

-- What is shown of an address in its zeroed array.
pub encode_address-ReadsAs :
    (payload : List ℕ) (type : AddressType)
    → length payload ≡ payload_len type
    → All IsByte payload
    → let text = take (address_len type) (encode_address payload (length payload) type) in
      ReadsAs (c_string (splice (replicate 69 0) 0 text)) (version type ∷ payload)
encode_address-ReadsAs payload type l bytes =
    let text = take (address_len type) (encode_address payload (length payload) type) in
    let (letters, size) = encode_address-IsLetter payload type l bytes in
    let (split, digits, need, most) = sizes type in
    let shown = c_string-front text 69 letters (omega arith) in
    let (pre, reads) = encode_address-reads payload text type l bytes (omega arith) in
    let whole = splice-whole text text refl in
    let rest : take (address_len type - 6) (drop 6 text) ≡ drop 6 text =
      take_all (address_len type - 6) (drop 6 text) (omega (arith, length-drop 6 text)) in
    rw shown (
      ap (take 6) (sym whole) ∙ pre,
      ap read_address (sym rest ∙ ap (λ (t : List ℕ). slice t 6 (address_len type - 6)) (sym whole))
          ∙ reads,
    )
