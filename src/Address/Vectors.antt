-- ===== src/Address/Vectors.antt =====
-- The addresses of unit-tests/test_address.c.
use app_kaspa.Prelude.{ℕ, ◌≡◌, refl, true, List, [], ◌∷◌, splice, replicate}
use app_kaspa.Address.{schnorr, ecdsa, p2sh, address_from_pubkey}

abbrev schnorr_key : List ℕ
schnorr_key =
    0x21 ∷ 0xeb ∷ 0x0c ∷ 0x42 ∷ 0x70 ∷ 0x12 ∷ 0x8b ∷ 0x16 ∷ 0xc9 ∷ 0x3c ∷ 0x5f ∷ 0x0d ∷ 0xac ∷ 0x48
    ∷ 0xd5 ∷ 0x60 ∷ 0x51 ∷ 0xa6 ∷ 0x23 ∷ 0x7d ∷ 0xae ∷ 0x99 ∷ 0x7b ∷ 0x58 ∷ 0x91 ∷ 0x26 ∷ 0x95
    ∷ 0x05 ∷ 0x28 ∷ 0x18 ∷ 0xe3 ∷ 0x48 ∷ 0xb0 ∷ 0xa8 ∷ 0x95 ∷ 0xcb ∷ 0xd0 ∷ 0xc9 ∷ 0x3a ∷ 0x11
    ∷ 0xee ∷ 0x7a ∷ 0xfa ∷ 0xc7 ∷ 0x45 ∷ 0x92 ∷ 0x9d ∷ 0x96 ∷ 0xa4 ∷ 0x64 ∷ 0x2a ∷ 0x71 ∷ 0x83
    ∷ 0x1f ∷ 0x54 ∷ 0xa7 ∷ 0x37 ∷ 0x78 ∷ 0x93 ∷ 0xaf ∷ 0x71 ∷ 0xa2 ∷ 0xe2 ∷ 0xae ∷ []

-- "kaspa:qqs7krzzwqfgk9kf830smtzg64s9rf3r0khfj76cjynf2pfgrr35saatu88xq"
abbrev schnorr_address : List ℕ
schnorr_address =
    b'k' ∷ b'a' ∷ b's' ∷ b'p' ∷ b'a' ∷ b':' ∷ b'q' ∷ b'q' ∷ b's' ∷ b'7' ∷ b'k' ∷ b'r' ∷ b'z' ∷ b'z'
    ∷ b'w' ∷ b'q' ∷ b'f' ∷ b'g' ∷ b'k' ∷ b'9' ∷ b'k' ∷ b'f' ∷ b'8' ∷ b'3' ∷ b'0' ∷ b's' ∷ b'm'
    ∷ b't' ∷ b'z' ∷ b'g' ∷ b'6' ∷ b'4' ∷ b's' ∷ b'9' ∷ b'r' ∷ b'f' ∷ b'3' ∷ b'r' ∷ b'0' ∷ b'k'
    ∷ b'h' ∷ b'f' ∷ b'j' ∷ b'7' ∷ b'6' ∷ b'c' ∷ b'j' ∷ b'y' ∷ b'n' ∷ b'f' ∷ b'2' ∷ b'p' ∷ b'f'
    ∷ b'g' ∷ b'r' ∷ b'r' ∷ b'3' ∷ b'5' ∷ b's' ∷ b'a' ∷ b'a' ∷ b't' ∷ b'u' ∷ b'8' ∷ b'8' ∷ b'x'
    ∷ b'q' ∷ []

schnorr_vector :
    address_from_pubkey schnorr_key schnorr (replicate 67 0) 67 ≡ (true, schnorr_address)
unfolding address_from_pubkey splice
schnorr_vector = refl

abbrev p2sh_key : List ℕ
p2sh_key =
    0xf3 ∷ 0x80 ∷ 0x31 ∷ 0xf6 ∷ 0x1c ∷ 0xa2 ∷ 0x3d ∷ 0x70 ∷ 0x84 ∷ 0x4f ∷ 0x63 ∷ 0xa4 ∷ 0x77 ∷ 0xd0
    ∷ 0x7f ∷ 0x0b ∷ 0x2c ∷ 0x2d ∷ 0xec ∷ 0xab ∷ 0x90 ∷ 0x7c ∷ 0x2e ∷ 0x09 ∷ 0x6e ∷ 0x54 ∷ 0x8b
    ∷ 0x0e ∷ 0x08 ∷ 0x72 ∷ 0x1c ∷ 0x79 ∷ 0x00 ∷ 0x00 ∷ 0x00 ∷ 0x00 ∷ 0x00 ∷ 0x00 ∷ 0x00 ∷ 0x00
    ∷ 0x00 ∷ 0x00 ∷ 0x00 ∷ 0x00 ∷ 0x00 ∷ 0x00 ∷ 0x00 ∷ 0x00 ∷ 0x00 ∷ 0x00 ∷ 0x00 ∷ 0x00 ∷ 0x00
    ∷ 0x00 ∷ 0x00 ∷ 0x00 ∷ 0x00 ∷ 0x00 ∷ 0x00 ∷ 0x00 ∷ 0x00 ∷ 0x00 ∷ 0x00 ∷ 0x00 ∷ []

-- "kaspa:precqv0krj3r6uyyfa36ga7s0u9jct0v4wg8ctsfde2gkrsgwgw8jgxfzfc98"
abbrev p2sh_address : List ℕ
p2sh_address =
    b'k' ∷ b'a' ∷ b's' ∷ b'p' ∷ b'a' ∷ b':' ∷ b'p' ∷ b'r' ∷ b'e' ∷ b'c' ∷ b'q' ∷ b'v' ∷ b'0' ∷ b'k'
    ∷ b'r' ∷ b'j' ∷ b'3' ∷ b'r' ∷ b'6' ∷ b'u' ∷ b'y' ∷ b'y' ∷ b'f' ∷ b'a' ∷ b'3' ∷ b'6' ∷ b'g'
    ∷ b'a' ∷ b'7' ∷ b's' ∷ b'0' ∷ b'u' ∷ b'9' ∷ b'j' ∷ b'c' ∷ b't' ∷ b'0' ∷ b'v' ∷ b'4' ∷ b'w'
    ∷ b'g' ∷ b'8' ∷ b'c' ∷ b't' ∷ b's' ∷ b'f' ∷ b'd' ∷ b'e' ∷ b'2' ∷ b'g' ∷ b'k' ∷ b'r' ∷ b's'
    ∷ b'g' ∷ b'w' ∷ b'g' ∷ b'w' ∷ b'8' ∷ b'j' ∷ b'g' ∷ b'x' ∷ b'f' ∷ b'z' ∷ b'f' ∷ b'c' ∷ b'9'
    ∷ b'8' ∷ []

p2sh_vector : address_from_pubkey p2sh_key p2sh (replicate 67 0) 67 ≡ (true, p2sh_address)
unfolding address_from_pubkey splice
p2sh_vector = refl

abbrev ecdsa_key : List ℕ
ecdsa_key =
    0xe3 ∷ 0x10 ∷ 0x0d ∷ 0x85 ∷ 0xef ∷ 0xae ∷ 0x93 ∷ 0xe0 ∷ 0xc2 ∷ 0xfc ∷ 0x65 ∷ 0x4b ∷ 0x2f ∷ 0x0c
    ∷ 0x33 ∷ 0x58 ∷ 0x4f ∷ 0x21 ∷ 0x3a ∷ 0x3f ∷ 0xdf ∷ 0xfd ∷ 0x02 ∷ 0x3c ∷ 0x82 ∷ 0x12 ∷ 0x77
    ∷ 0xb2 ∷ 0x17 ∷ 0x89 ∷ 0xe0 ∷ 0x64 ∷ 0xe0 ∷ 0x6b ∷ 0x45 ∷ 0x4f ∷ 0x5c ∷ 0xba ∷ 0x0e ∷ 0xff
    ∷ 0x1c ∷ 0xe8 ∷ 0x01 ∷ 0xd3 ∷ 0x83 ∷ 0x5c ∷ 0x39 ∷ 0xec ∷ 0x01 ∷ 0xca ∷ 0x94 ∷ 0x9c ∷ 0xa8
    ∷ 0x77 ∷ 0xc0 ∷ 0xb5 ∷ 0x5b ∷ 0xbd ∷ 0xec ∷ 0xa8 ∷ 0xff ∷ 0x84 ∷ 0x91 ∷ 0xd9 ∷ []

-- "kaspa:qyp7xyqdshh6aylqct7x2je0pse4snep8glallgz8jppyaajz7y7qeq4x79fq4z"
abbrev ecdsa_address : List ℕ
ecdsa_address =
    b'k' ∷ b'a' ∷ b's' ∷ b'p' ∷ b'a' ∷ b':' ∷ b'q' ∷ b'y' ∷ b'p' ∷ b'7' ∷ b'x' ∷ b'y' ∷ b'q' ∷ b'd'
    ∷ b's' ∷ b'h' ∷ b'h' ∷ b'6' ∷ b'a' ∷ b'y' ∷ b'l' ∷ b'q' ∷ b'c' ∷ b't' ∷ b'7' ∷ b'x' ∷ b'2'
    ∷ b'j' ∷ b'e' ∷ b'0' ∷ b'p' ∷ b's' ∷ b'e' ∷ b'4' ∷ b's' ∷ b'n' ∷ b'e' ∷ b'p' ∷ b'8' ∷ b'g'
    ∷ b'l' ∷ b'a' ∷ b'l' ∷ b'l' ∷ b'g' ∷ b'z' ∷ b'8' ∷ b'j' ∷ b'p' ∷ b'p' ∷ b'y' ∷ b'a' ∷ b'a'
    ∷ b'j' ∷ b'z' ∷ b'7' ∷ b'y' ∷ b'7' ∷ b'q' ∷ b'e' ∷ b'q' ∷ b'4' ∷ b'x' ∷ b'7' ∷ b'9' ∷ b'f'
    ∷ b'q' ∷ b'4' ∷ b'z' ∷ []

ecdsa_vector : address_from_pubkey ecdsa_key ecdsa (replicate 69 0) 69 ≡ (true, ecdsa_address)
unfolding address_from_pubkey splice
ecdsa_vector = refl
