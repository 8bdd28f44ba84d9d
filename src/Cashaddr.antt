-- ===== src/Cashaddr.antt =====
-- import/cashaddr.c, for the prefix "kaspa" that the application has fixed there.
pub mod Digits
pub mod Text
pub mod Rounds
pub mod Linear
pub mod Checksum
pub mod Unique
pub mod Reader
pub mod Front
use Prim.Native.Nat.{bit_or}
use app_kaspa.Prelude.{
  ℕ, zero, suc, ◌+◌, ◌-◌, ◌*◌, ◌/◌, ◌%◌, ◌^◌, bit_and, bit_xor, Bool, true, false, not, ◌||◌,
  Option, none, some, List, [], ◌∷◌, ◌++◌, leb, ltb, ◌==◌, if◌then◌else◌, get_or, take, set,
}

-- "qpzry9x8gf2tvdw0s3jn54khce6mua7l"
abbrev pub charset : List ℕ
charset =
    b'q' ∷ b'p' ∷ b'z' ∷ b'r' ∷ b'y' ∷ b'9' ∷ b'x' ∷ b'8' ∷ b'g' ∷ b'f' ∷ b'2' ∷ b't' ∷ b'v' ∷ b'd'
    ∷ b'w' ∷ b'0' ∷ b's' ∷ b'3' ∷ b'j' ∷ b'n' ∷ b'5' ∷ b'4' ∷ b'k' ∷ b'h' ∷ b'c' ∷ b'e' ∷ b'6'
    ∷ b'm' ∷ b'u' ∷ b'a' ∷ b'7' ∷ b'l' ∷ []

-- "kaspa"
abbrev pub prefix : List ℕ
prefix = b'k' ∷ b'a' ∷ b's' ∷ b'p' ∷ b'a' ∷ []

-- `-((b >> i) & 1) & g`: `g` if the bit is set.
unfoldable pub masked : ℕ → ℕ → ℕ → ℕ
masked b i g = if b / 2 ^ i % 2 == 1 then g else 0

unfoldable pub cashaddr_polymod_step : ℕ → ℕ
unfolding masked
cashaddr_polymod_step pre =
    let b = pre / 2 ^ 35 % 256 in
    let shifted = bit_and pre 0x07ffffffff * 2 ^ 5 % 2 ^ 64 in
    bit_xor
      (bit_xor
        (bit_xor (bit_xor (bit_xor shifted (masked b 0 0x98f2bc8e61)) (masked b 1 0x79b76d99e2))
          (masked b 2 0xf33e5fb3c4))
        (masked b 3 0xae2eabe2a8))
      (masked b 4 0x1e4f43e470)

-- The loop over the prefix, whose characters give their low five bits, and the one over the payload.
unfoldable pub absorb_prefix : List ℕ → ℕ → ℕ
absorb_prefix [] c = c
absorb_prefix (p ∷ ps) c = absorb_prefix ps (bit_xor (cashaddr_polymod_step c) (bit_and p 0x1f))

unfoldable pub absorb : List ℕ → ℕ → ℕ
unfolding cashaddr_polymod_step
absorb [] c = c
absorb (d ∷ ds) c = absorb ds (bit_xor (cashaddr_polymod_step c) d)

unfoldable pub absorb_zeros : ℕ → ℕ → ℕ
absorb_zeros zero c = c
absorb_zeros (suc n) c = absorb_zeros n (cashaddr_polymod_step c)

unfoldable pub poly_mod : List ℕ → List ℕ → ℕ
unfolding absorb_prefix absorb absorb_zeros
poly_mod prefix payload =
    bit_xor (absorb_zeros 8 (absorb payload (cashaddr_polymod_step (absorb_prefix prefix 1)))) 1

-- The inner loop of `convert_bits`, `while (bits >= outbits)`: the digits that `bits` bits of `val`
-- give, and the bits that are left. Each round takes `outbits` of them, so `bits` rounds are enough.
unfoldable pub emit : ℕ → ℕ → ℕ → ℕ → List ℕ × ℕ
emit zero outbits val bits = ([], bits)
emit (suc fuel) outbits val bits =
    let (out, left) = emit fuel outbits val (bits - outbits) in
    let digit = bit_and (val / 2 ^ (bits - outbits)) (2 ^ outbits - 1) in
    if leb outbits bits then (digit ∷ out, left) else ([], bits)

-- The outer loop: the digits, with the last `val` and `bits`.
convert_loop : ℕ → ℕ → List ℕ → ℕ → ℕ → List ℕ × ℕ × ℕ
unfolding emit
convert_loop outbits inbits [] val bits = ([], val, bits)
convert_loop outbits inbits (b ∷ bs) val bits =
    let val' = bit_or (val * 2 ^ inbits % 2 ^ 32) b in
    let (out, left) = emit (bits + inbits) outbits val' (bits + inbits) in
    let (rest, final, over) = convert_loop outbits inbits bs val' left in (out ++ rest, final, over)

-- `none` is the result 0: without padding, bits are left over that are not zero or fill a digit.
unfoldable pub convert_bits : ℕ → List ℕ → ℕ → Bool → Option (List ℕ)
unfolding convert_loop
convert_bits outbits input inbits pad =
    let (out, val, bits) = convert_loop outbits inbits input 0 0 in
    let last = bit_and (val * 2 ^ (outbits - bits) % 2 ^ 32) (2 ^ outbits - 1) in
    if pad
    then some (if bits == 0 then out else out ++ (last ∷ []))
    else if not (last == 0) || leb inbits bits
    then none
    else some out

-- The eight 5-bit groups of the remainder, the highest first.
unfoldable pub groups : ℕ → ℕ → List ℕ
groups zero rem = []
groups (suc n) rem = bit_and (rem / 2 ^ (5 * n)) 0x1f ∷ groups n rem

unfoldable pub create_checksum : List ℕ → List ℕ
unfolding groups poly_mod
create_checksum payload = groups 8 (poly_mod prefix payload)

-- The loop that writes digits as characters behind the `addr_length` that stand in `addr`: whether
-- it ends, the characters then, and the memory. The test of the digit reads the first one of the
-- array in each round, as the source does.
write_digits : ℕ → List ℕ → ℕ → ℕ → List ℕ → Bool × ℕ × List ℕ
write_digits first [] max addr_length addr = (true, addr_length, addr)
write_digits first (d ∷ ds) max addr_length addr =
    let rest =
      write_digits first ds max (addr_length + 1) (set addr addr_length (get_or charset d 0)) in
    if not (first / 2 ^ 5 == 0) || ltb max (addr_length + 1) then (false, 0, set addr 0 0) else rest

-- The digits and their checksum into `addr`, and a final zero.
write_address : List ℕ → List ℕ → ℕ → List ℕ → ℕ × List ℕ
unfolding write_digits
write_address payload checksum max addr =
    let (done, n, addr') = write_digits (get_or payload 0 0) payload max 0 addr in
    let (done', n', addr'') = write_digits (get_or checksum 0 0) checksum max n addr' in
    if not done then (0, addr') else if not done' then (0, addr'') else (n', set addr'' n' 0)

-- `addr` is the memory from the pointer on. The result is the length, 0 for a failure. For at most 39
-- bytes of a hash: more overflow the local arrays `tmp` and `payload` of the C code.
unfoldable pub cashaddr_encode : List ℕ → ℕ → List ℕ → ℕ → ℕ → ℕ × List ℕ
unfolding convert_bits create_checksum write_address
cashaddr_encode hash hash_length addr max_addr_len version =
    let cleared = set addr 0 0 in
    let supported = version == 0 || version == 1 || version == 8 in
    let encoded : ℕ × List ℕ = elim (convert_bits 5 (version ∷ take hash_length hash) 8 true) [
      | none ↦ (0, cleared)
      | some payload ↦ write_address payload (create_checksum payload) max_addr_len cleared
    ] in
    if supported then encoded else (0, cleared)
