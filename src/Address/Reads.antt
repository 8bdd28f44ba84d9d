-- ===== src/Address/Reads.antt =====
-- The address of a script, from transaction/utils.c, address.c and import/cashaddr.c, as it is read.
use app_kaspa.Prelude.{
  ℕ, zero, suc, ◌+◌, ◌-◌, ◌*◌, ◌/◌, ◌≤◌, ◌≡◌, ◌⊎◌, inl, inr, refl, sym, subst, ap, ◌∙◌, Bool, true,
  some, List, [], ◌∷◌, ◌++◌, arith, All, IsByte, length, length-take, take, take-append, take_all,
  append_assoc, drop, drop-append, replicate, slice, splice, splice-front,
}
use app_kaspa.Cashaddr.{cashaddr_encode, prefix}
use app_kaspa.Cashaddr.Reader.{read_address, cashaddr_encode-read_address}
use app_kaspa.Cashaddr.Front.{cashaddr_encode-length}
use app_kaspa.Address.{AddressType, schnorr, ecdsa, p2sh, address_len, version, encode_address}
use app_kaspa.Transaction.Utils.{script_public_key_to_address}
use app_kaspa.Transaction.Utils.AddressOf.{length-slice, Pays, script_public_key_to_address-Pays}

-- The number of bytes that an address of a type stands for.
abbrev pub payload_len : AddressType → ℕ
payload_len ecdsa = 33
payload_len _ = 32

abbrev pub before_digits : List ℕ
before_digits = prefix ++ b':' ∷ []

pub encode_address-parts :
    (payload : List ℕ) (n : ℕ) (type : AddressType)
    → encode_address payload n type
      ≡ before_digits
        ++ (cashaddr_encode payload n (replicate 74 0) (address_len type) (version type)).1
unfolding encode_address splice
encode_address-parts payload n type = refl

pub take-past :
    (pre tail : List ℕ) (k m : ℕ) → k ≡ length pre → take (k + m) (pre ++ tail) ≡ pre ++ take m tail
take-past [] tail k m e = ap (λ (n : ℕ). take n tail) (omega arith)
take-past (x ∷ pre) tail zero m e = absurd (omega arith)
take-past (x ∷ pre) tail (suc k) m e =
    let next : suc k + m ≡ suc (k + m) = omega arith in
    ap (λ (n : ℕ). take n (x ∷ (pre ++ tail))) next
    ∙ ap (◌∷◌ x) (take-past pre tail k m (omega arith))

-- A text over the front of an array, its first part and the one behind it.
front_part :
    (out pre tail : List ℕ) (k m : ℕ)
    → k ≡ length pre
    → k + m ≤ length out
    → m ≤ length tail
    → let array = splice out 0 (take (k + m) (pre ++ tail)) in
      (take k array ≡ pre) × (slice array k m ≡ take m tail)
front_part out pre tail k m e room long =
    let text = take (k + m) (pre ++ tail) in
    let shown = take m tail in
    let rest = drop (length text) out in
    let whole : splice out 0 text ≡ pre ++ (shown ++ rest) =
      splice-front out text (omega (arith, length-take (k + m) (pre ++ tail)))
      ∙ ap (λ (t : List ℕ). t ++ rest) (take-past pre tail k m e)
      ∙ append_assoc pre shown rest in
    (
      ap (take k) whole ∙ take-append pre (shown ++ rest) k e,
      ap (λ (xs : List ℕ). take m (drop k xs)) whole
          ∙ ap (take m) (drop-append pre (shown ++ rest) k e)
          ∙ take-append shown rest m (omega (arith, length-take m tail)),
    )

pub version_known :
    (type : AddressType) → (version type ≡ 0) ⊎ (version type ≡ 1) ⊎ (version type ≡ 8)
version_known schnorr = inl refl
version_known ecdsa = inr (inl refl)
version_known p2sh = inr (inr refl)

-- The lengths for each type: the characters behind the prefix, and the room that they need.
pub sizes :
    (type : AddressType)
    → (address_len type ≡ 6 + (address_len type - 6))
      × ((8 * payload_len type + 12) / 5 + 8 ≡ address_len type - 6)
      × (8 * payload_len type + 52 ≤ 5 * address_len type)
      × (address_len type ≤ 69)
sizes schnorr = (refl, refl, omega arith, omega arith)
sizes ecdsa = (refl, refl, omega arith, omega arith)
sizes p2sh = (refl, refl, omega arith, omega arith)

-- The text of an address in its array.
pub encode_address-reads :
    (payload out : List ℕ) (type : AddressType)
    → length payload ≡ payload_len type
    → All IsByte payload
    → address_len type ≤ length out
    → let address =
        splice out 0 (take (address_len type) (encode_address payload (length payload) type)) in
      (take 6 address ≡ before_digits)
      × (read_address (slice address 6 (address_len type - 6)) ≡ some (version type ∷ payload))
encode_address-reads payload out type l bytes room =
    let n = length payload in
    let max = address_len type in
    let m = max - 6 in
    let (split, digits, need, most) = sizes type in
    let all = take_all n payload (omega arith) in
    let all_bytes = subst (All IsByte) (sym all) bytes in
    let count = ap length all in
    let space : 8 * length (take n payload) + 52 ≤ 5 * max = omega arith in
    let known = version_known type in
    let (written, size) =
      cashaddr_encode-length payload n (replicate 74 0) max (version type) known all_bytes
        (omega arith) space in
    let tail = (cashaddr_encode payload n (replicate 74 0) max (version type)).1 in
    let (pre, rest) = front_part out before_digits tail 6 m refl (omega arith) (omega arith) in
    let text =
      ap (λ (k : ℕ). splice out 0 (take k (encode_address payload n type))) split
      ∙ ap (λ (e : List ℕ). splice out 0 (take (6 + m) e)) (encode_address-parts payload n type) in
    (
      ap (take 6) text ∙ pre,
      ap (λ (a : List ℕ). read_address (slice a 6 m)) text
          ∙ ap read_address (
              rest
              ∙ ap (λ (k : ℕ). take k tail)
                  (sym (written ∙ ap (λ k. (8 * k + 12) / 5 + 8) (count ∙ l) ∙ digits)))
          ∙ cashaddr_encode-read_address payload n (replicate 74 0) max (version type) known
              all_bytes (omega arith) space (omega arith)
          ∙ ap (λ bs. some (version type ∷ bs)) all,
    )

pub Pays-length :
    (script payload : List ℕ) (type : AddressType)
    → length script ≡ 40
    → Pays script type payload
    → length payload ≡ payload_len type
Pays-length script payload schnorr l (first, e) =
    ap length e ∙ length-slice script 1 32 (omega arith)
Pays-length script payload p2sh l (first, e) = ap length e ∙ length-slice script 2 32 (omega arith)
Pays-length script payload ecdsa l (first, parity, e) =
    ap length e ∙ ap suc (length-slice script 2 32 (omega arith))

-- The address of a script is the prefix "kaspa:" and a text that can be read: a reader that tests the
-- checksum gets the version of the script's type, and the hash or key that the script pays.
pub script_public_key_to_address-reads :
    (out script payload : List ℕ) (out_len : ℕ) (type : AddressType)
    → length script ≡ 40
    → 69 ≤ out_len
    → 69 ≤ length out
    → All IsByte payload
    → Pays script type payload
    → let (done, address) = script_public_key_to_address out out_len script 40 in
      (done ≡ true)
      × (take 6 address ≡ before_digits)
      × (read_address (slice address 6 (address_len type - 6)) ≡ some (version type ∷ payload))
script_public_key_to_address-reads out script payload out_len type l room long bytes pays =
    let written = script_public_key_to_address-Pays out script payload out_len type l room pays in
    let (pre, reads) =
      encode_address-reads payload out type (Pays-length script payload type l pays) bytes
        (let (split, digits, need, most) = sizes type in omega arith) in
    subst
      (λ (r : Bool × List ℕ).
        (r.0 ≡ true)
        × (take 6 r.1 ≡ before_digits)
        × (read_address (slice r.1 6 (address_len type - 6)) ≡ some (version type ∷ payload)))
      (sym written) (refl, pre, reads)
