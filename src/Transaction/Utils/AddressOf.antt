-- ===== src/Transaction/Utils/AddressOf.antt =====
-- The address of script_public_key_to_address in transaction/utils.c against what the script pays.
use app_kaspa.Prelude.{
  ℕ, suc, ◌+◌, ◌≤◌, ◌≡◌, refl, sym, ap, ◌∙◌, ◌⊎◌, inl, inr, Bool, true, false, List, ◌∷◌, ◌++◌,
  arith, length, length-append, length-take, length-drop, get_or, get_or-append, take, drop,
  take-append, take-splice, take_all, replicate, slice, splice, splice-append, splice-whole, ltb,
  ◌==◌, if◌then◌else◌,
}
use app_kaspa.Address.{
  AddressType, schnorr, ecdsa, p2sh, address_len, compress_public_key, encode_address,
  address_from_pubkey,
}
use app_kaspa.Cashaddr.{cashaddr_encode}
use app_kaspa.Transaction.Utils.{key_of_script, script_public_key_to_address}

-- What a script pays: a script hash, an ECDSA key with its parity byte, or a Schnorr key.
abbrev pub Pays : List ℕ → AddressType → List ℕ → Type 0
Pays script p2sh payload = (get_or script 0 0 ≡ 0xaa) × (payload ≡ slice script 2 32)
Pays script ecdsa payload =
    (get_or script 0 0 ≡ 0x21)
    × ((get_or script 1 0 ≡ 2) ⊎ (get_or script 1 0 ≡ 3))
    × (payload ≡ get_or script 1 0 ∷ slice script 2 32)
Pays script schnorr payload = (get_or script 0 0 ≡ 0x20) × (payload ≡ slice script 1 32)

-- Only the first `n` bytes are encoded.
encode_address-take :
    (h h' : List ℕ) (n : ℕ) (type : AddressType)
    → take n h ≡ take n h'
    → encode_address h n type ≡ encode_address h' n type
unfolding encode_address cashaddr_encode
encode_address-take h h' n type e = rw e refl

pub length-slice :
    (script : List ℕ) (i n : ℕ) → i + n ≤ length script → length (slice script i n) ≡ n
length-slice script i n h = omega (arith, length-take n (drop i script), length-drop i script)

-- A key of 32 bytes at the front of 64, compressed into 33 bytes.
front_key :
    (key : List ℕ)
    → length key ≡ 32
    → take 32 (splice (replicate 33 0) 0 (take 32 (splice (replicate 64 0) 0 key))) ≡ key
front_key key h =
    rw (take-splice (replicate 64 0) key 32 (omega arith) (omega arith))
      (take-splice (replicate 33 0) key 32 (omega arith) (omega arith))

-- A key with 32 copies of its parity byte behind it is the whole array.
with_parity :
    (key : List ℕ) (parity : ℕ)
    → length key ≡ 32
    → splice (splice (replicate 64 0) 0 key) 32 (replicate 32 parity) ≡ key ++ replicate 32 parity
with_parity key parity h =
    splice-append (replicate 64 0) 0 32 key (replicate 32 parity) (omega arith)
    ∙ splice-whole (replicate 64 0) (key ++ replicate 32 parity)
        (omega (arith, length-append key (replicate 32 parity)))

last_parity :
    (key : List ℕ) (parity : ℕ)
    → length key ≡ 32
    → get_or (key ++ replicate 32 parity) 63 0 ≡ parity
last_parity key parity h = get_or-append key (replicate 32 parity) 32 31 0 (omega arith)

address_fits :
    (out_len : ℕ) (type : AddressType) → 69 ≤ out_len → ltb out_len (address_len type) ≡ false
address_fits out_len schnorr h = ground arith
address_fits out_len ecdsa h = ground arith
address_fits out_len p2sh h = ground arith

-- The end of `address_from_pubkey`, with room for the address and a compressed key.
placed :
    (out : List ℕ) (out_len len n : ℕ) (address : List ℕ)
    → len ≤ out_len
    → 1 ≤ n
    → let result : Bool × List ℕ =
        if ltb out_len len
        then (false, out)
        else if n == 0
        then (false, out)
        else (true, splice out 0 (take len address)) in
      result ≡ (true, splice out 0 (take len address))
placed out out_len len n address room h = ground arith

compress_ecdsa :
    (key : List ℕ) (parity : ℕ)
    → length key ≡ 32
    → (parity ≡ 2) ⊎ (parity ≡ 3)
    → compress_public_key (key ++ replicate 32 parity) ecdsa (replicate 33 0) 33
      ≡ (33, parity ∷ key)
unfolding compress_public_key
compress_ecdsa key parity h known =
    let last = last_parity key parity h in
    let front = take-append key (replicate 32 parity) 32 (sym h) in
    let whole = λ (k : ℕ).
      ap {B = ℕ × List ℕ} (λ xs. (33, xs))
        (splice-whole (replicate 33 0) (k ∷ key) (omega arith)) in
    elim known [
      | inl two ↦ rw (last, front, two) (whole 2)
      | inr three ↦ rw (last, front, three) (whole 3)
    ]

-- The address of a key of the device's form whose compression begins with the payload.
pub address_from_pubkey-payload :
    (key payload compressed out : List ℕ) (out_len : ℕ) (type : AddressType) (n : ℕ)
    → address_len type ≤ out_len
    → compress_public_key key type (replicate 33 0) 33 ≡ (n, compressed)
    → 1 ≤ n
    → n ≡ length payload
    → take n compressed ≡ payload
    → address_from_pubkey key type out out_len ≡ (
      true,
      splice out 0 (take (address_len type) (encode_address payload (length payload) type)),
    )
unfolding address_from_pubkey
address_from_pubkey-payload key payload compressed out out_len type n room c some_bytes e t =
    let same =
      encode_address-take compressed payload n type (t ∙ sym (take_all n payload (omega arith))) in
    let raw = compress_public_key key type (replicate 33 0) 33 in
    let nonzero : 1 ≤ raw.0 = rw c some_bytes in
    placed out out_len (address_len type) raw.0 (encode_address raw.1 raw.0 type) room nonzero
    ∙ ap {B = Bool × List ℕ}
        (λ (r : ℕ × List ℕ).
          (true, splice out 0 (take (address_len type) (encode_address r.1 r.0 type))))
        c
    ∙ ap {B = Bool × List ℕ} (λ a. (true, splice out 0 (take (address_len type) a)))
        (same ∙ ap (λ k. encode_address payload k type) e)

abbrev Key : List ℕ → AddressType → List ℕ → Type 0
Key script type key = key_of_script script 40 ≡ (true, key, type)

script_address :
    (out script key payload : List ℕ) (out_len : ℕ) (type : AddressType)
    → 69 ≤ out_len
    → Key script type key
    → address_from_pubkey key type out (address_len type) ≡ (
      true,
      splice out 0 (take (address_len type) (encode_address payload (length payload) type)),
    )
    → script_public_key_to_address out out_len script 40 ≡ (
      true,
      splice out 0 (take (address_len type) (encode_address payload (length payload) type)),
    )
unfolding script_public_key_to_address
script_address out script key payload out_len type room k a =
    let fits : ltb out_len (address_len type) ≡ false = address_fits out_len type room in
    rw (k, fits, a)

-- Through the key of 64 bytes and its compression, what a script in an array of 40 bytes pays comes
-- out, and the address is the encoding of it with the script's type: the call succeeds and writes
-- it over the front of the array.
pub script_public_key_to_address-Pays :
    (out script payload : List ℕ) (out_len : ℕ) (type : AddressType)
    → length script ≡ 40
    → 69 ≤ out_len
    → Pays script type payload
    → script_public_key_to_address out out_len script 40 ≡ (
      true,
      splice out 0 (take (address_len type) (encode_address payload (length payload) type)),
    )
unfolding key_of_script compress_public_key
script_public_key_to_address-Pays out script payload out_len schnorr l room (first, e) =
    let key = slice script 1 32 in
    let n = length-slice script 1 32 (omega arith) in
    script_address out script _ payload out_len schnorr room (rw first refl) (
      address_from_pubkey-payload (splice (replicate 64 0) 0 key) payload _ out 67 schnorr 32
        (omega arith) refl (omega arith) (rw e (sym n)) (rw e (front_key key n)))
script_public_key_to_address-Pays out script payload out_len p2sh l room (first, e) =
    let key = slice script 2 32 in
    let n = length-slice script 2 32 (omega arith) in
    script_address out script _ payload out_len p2sh room (rw first refl) (
      address_from_pubkey-payload (splice (replicate 64 0) 0 key) payload _ out 67 p2sh 32
        (omega arith) refl (omega arith) (rw e (sym n)) (rw e (front_key key n)))
script_public_key_to_address-Pays out script payload out_len ecdsa l room (first, parity, e) =
    let key = slice script 2 32 in
    let n = length-slice script 2 32 (omega arith) in
    script_address out script (key ++ replicate 32 (get_or script 1 0)) payload out_len ecdsa room
      (rw first (rw (with_parity key (get_or script 1 0) n) refl))
      (address_from_pubkey-payload (key ++ replicate 32 (get_or script 1 0)) payload
        (get_or script 1 0 ∷ key) out 69 ecdsa 33 (omega arith)
        (compress_ecdsa key (get_or script 1 0) n parity) (omega arith) (rw e (ap suc (sym n)))
        (rw e (ap (◌∷◌ (get_or script 1 0)) (take_all 32 key (omega arith)))))
