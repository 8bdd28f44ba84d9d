-- ===== src/Format.antt =====
-- common/format_local.c. A `char` is unsigned, as on the devices' ARM.
pub mod Printable
use app_kaspa.Prelude.{
  ℕ, zero, suc, ◌+◌, ◌-◌, ◌/◌, ◌%◌, Bool, ◌&&◌, ◌||◌, List, [], ◌∷◌, ◌++◌, leb, ltb, ◌==◌,
  if◌then◌else◌, replicate, take, splice,
}

isspace : ℕ → Bool
isspace c = c == 0x20 || (leb 0x09 c && leb c 0x0d)

isprint : ℕ → Bool
isprint c = leb 0x20 c && leb c 0x7e

hex_digit : ℕ → ℕ
hex_digit d = if ltb d 10 then d + b'0' else d - 10 + b'a'

-- "\\x%02x" of a byte.
escape : ℕ → List ℕ
unfolding hex_digit
escape c = b'\\' ∷ b'x' ∷ hex_digit (c / 16) ∷ hex_digit (c % 16) ∷ []

-- One round: the character `c` into `dest` at `dest_idx`. `sprintf` and `snprintf` write a final
-- zero; the latter writes at most as many bytes as are said to remain. The zero that `sprintf` writes
-- behind a full buffer is outside of the list.
put_char : ℕ → ℕ → ℕ → List ℕ → ℕ × List ℕ
unfolding isprint escape
put_char c dest_len dest_idx dest =
    let remaining = dest_len - dest_idx - 1 in
    if isprint c
    then (dest_idx + 1, splice dest dest_idx (c ∷ 0 ∷ []))
    else if leb 4 remaining
    then (dest_idx + 4, splice dest dest_idx (take (remaining - 1) (escape c) ++ 0 ∷ []))
    else (dest_idx + remaining, splice dest dest_idx (replicate remaining 0x20))

-- The loop ends with the message or when `dest_idx` reaches the length of the destination.
format_loop : List ℕ → ℕ → ℕ → List ℕ → List ℕ
unfolding put_char isspace
format_loop [] dest_len dest_idx dest = dest
format_loop (c ∷ src) dest_len dest_idx dest =
    let (next_idx, next) = put_char (if isspace c then 0x20 else c) dest_len dest_idx dest in
    let rest = format_loop src dest_len next_idx next in
    if ltb dest_idx dest_len then rest else dest

unfoldable pub format_message_to_sign : List ℕ → ℕ → List ℕ → ℕ → List ℕ
unfolding format_loop
format_message_to_sign msg_dest msg_dest_len msg_src msg_src_len =
    format_loop (take msg_src_len msg_src) msg_dest_len 0 msg_dest
