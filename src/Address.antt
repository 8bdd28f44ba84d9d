-- ===== src/Address.antt =====
-- address.c, and the address types of types.h.
mod Vectors
pub mod Reads
use app_kaspa.Prelude.{
  ℕ, ◌+◌, ◌%◌, Bool, true, false, not, Option, none, some, List, [], ◌∷◌, ◌++◌, ltb, ◌==◌,
  if◌then◌else◌, get_or, take, drop, replicate, splice,
}
use app_kaspa.Cashaddr.{cashaddr_encode, prefix}

pub data AddressType : Type 0 where
  schnorr ecdsa p2sh : AddressType

abbrev pub schnorr_address_len : ℕ
schnorr_address_len = 67

abbrev pub ecdsa_address_len : ℕ
ecdsa_address_len = 69

-- The size, 0 for a failure, and the array.
unfoldable pub compress_public_key : List ℕ → AddressType → List ℕ → ℕ → ℕ × List ℕ
compress_public_key public_key ecdsa out out_len =
    let parity = if get_or public_key 63 0 % 2 == 0 then 0x02 else 0x03 in
    if ltb out_len 33 then (0, out) else (33, splice out 0 (parity ∷ take 32 public_key))
compress_public_key public_key _ out out_len =
    if ltb out_len 32 then (0, out) else (32, splice out 0 (take 32 public_key))

abbrev pub address_len : AddressType → ℕ
address_len ecdsa = ecdsa_address_len
address_len _ = schnorr_address_len

abbrev pub version : AddressType → ℕ
version schnorr = 0
version ecdsa = 1
version p2sh = 8

-- The address behind "kaspa:", in an array of 80 bytes; the result of `cashaddr_encode` is not read.
unfoldable pub encode_address : List ℕ → ℕ → AddressType → List ℕ
unfolding cashaddr_encode
encode_address compressed compressed_pub_size type =
    let address = splice (replicate 80 0) 0 (prefix ++ b':' ∷ []) in
    let (_, tail) =
      cashaddr_encode compressed compressed_pub_size (drop 6 address) (address_len type)
        (version type) in
    take 6 address ++ tail

-- Whether it succeeds, and the array.
unfoldable pub address_from_pubkey : List ℕ → AddressType → List ℕ → ℕ → Bool × List ℕ
unfolding compress_public_key encode_address
address_from_pubkey public_key type out out_len =
    let (compressed_pub_size, compressed) =
      compress_public_key public_key type (replicate 33 0) 33 in
    let address = encode_address compressed compressed_pub_size type in
    if ltb out_len (address_len type)
    then (false, out)
    else if compressed_pub_size == 0
    then (false, out)
    else (true, splice out 0 (take (address_len type) address))
