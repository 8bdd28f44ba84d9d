-- ===== src/Format/Printable.antt =====
-- A printable message is shown as it is.
use app_kaspa.Prelude.{
  ℕ, zero, suc, ◌+◌, ◌≤◌, ◌<◌, ◌≡◌, refl, subst, ap, ◌∙◌, true, List, [], ◌∷◌, ◌++◌, append_assoc,
  arith, All, length, take, splice, length-splice, ltb, if◌then◌else◌,
}
use app_kaspa.Format.{isspace, isprint, put_char, format_loop, format_message_to_sign}

abbrev pub Printable : ℕ → Type 0
Printable c = (0x20 ≤ c) × (c ≤ 0x7e)

put_char-Printable :
    (c dest_len idx : ℕ) (dest : List ℕ)
    → Printable c
    → put_char (if isspace c then 0x20 else c) dest_len idx dest
      ≡ (idx + 1, splice dest idx (c ∷ 0 ∷ []))
unfolding put_char isspace isprint
put_char-Printable c dest_len idx dest h = ground arith

-- `sprintf` leaves the character and a zero behind it.
take-splice_zero :
    (dest : List ℕ) (idx c : ℕ)
    → idx + 1 < length dest
    → take (idx + 2) (splice dest idx (c ∷ 0 ∷ [])) ≡ take idx dest ++ c ∷ 0 ∷ []
unfolding splice
take-splice_zero [] idx c h = absurd (omega arith)
take-splice_zero (d ∷ []) zero c h = absurd (omega arith)
take-splice_zero (d ∷ e ∷ dest) zero c h = refl
take-splice_zero (d ∷ dest) (suc idx) c h =
    let e : suc idx + 2 ≡ suc (idx + 2) = omega arith in
    rw e (ap (◌∷◌ d) (take-splice_zero dest idx c (omega arith)))

take-splice_char :
    (dest : List ℕ) (idx c : ℕ)
    → idx < length dest
    → take (idx + 1) (splice dest idx (c ∷ 0 ∷ [])) ≡ take idx dest ++ c ∷ []
unfolding splice
take-splice_char [] idx c h = absurd (omega arith)
take-splice_char (d ∷ dest) zero c h = refl
take-splice_char (d ∷ dest) (suc idx) c h =
    let e : suc idx + 1 ≡ suc (idx + 1) = omega arith in
    rw e (ap (◌∷◌ d) (take-splice_char dest idx c (omega arith)))

format_loop-Printable :
    (c : ℕ) (src : List ℕ) (dest_len idx : ℕ) (dest : List ℕ)
    → All Printable (c ∷ src)
    → idx + length (c ∷ src) < dest_len
    → dest_len ≤ length dest
    → take (idx + suc (length (c ∷ src))) (format_loop (c ∷ src) dest_len idx dest)
      ≡ take idx dest ++ ((c ∷ src) ++ 0 ∷ [])
unfolding format_loop
format_loop-Printable c [] dest_len idx dest (h, hs) fits room =
    let here : ltb idx dest_len ≡ true = ground arith in
    rw (put_char-Printable c dest_len idx dest h, here) (take-splice_zero dest idx c (omega arith))
format_loop-Printable c (d ∷ src) dest_len idx dest (h, hs) fits room =
    let dest' = splice dest idx (c ∷ 0 ∷ []) in
    let e : idx + suc (length (c ∷ d ∷ src)) ≡ idx + 1 + suc (length (d ∷ src)) = omega arith in
    let rest =
      format_loop-Printable d src dest_len (idx + 1) dest' hs (omega arith)
        (omega (arith, length-splice dest idx (c ∷ 0 ∷ []))) in
    let here : ltb idx dest_len ≡ true = ground arith in
    let tail : List ℕ = (d ∷ src) ++ 0 ∷ [] in
    rw (put_char-Printable c dest_len idx dest h, here, e)
      (rest
        ∙ ap (λ (xs : List ℕ). xs ++ tail) (take-splice_char dest idx c (omega arith))
        ∙ append_assoc (take idx dest) (c ∷ []) tail)

text-Printable :
    (text : List ℕ) (dest_len : ℕ) (dest : List ℕ)
    → All Printable text
    → 1 ≤ length text
    → length text < dest_len
    → dest_len ≤ length dest
    → take (length text + 1) (format_loop text dest_len 0 dest) ≡ text ++ 0 ∷ []
text-Printable [] dest_len dest h some_text fits room = absurd (omega arith)
text-Printable (c ∷ text) dest_len dest h some_text fits room =
    let e : 0 + suc (length (c ∷ text)) ≡ length (c ∷ text) + 1 = omega arith in
    subst (λ k. take k (format_loop (c ∷ text) dest_len 0 dest) ≡ (c ∷ text) ++ 0 ∷ []) e
      (format_loop-Printable c text dest_len 0 dest h (omega arith) room)

-- A message of one or more printable characters, with room for a zero behind them in the buffer, is
-- shown as it is: the buffer begins with its characters and a zero, which ends the text.
pub format_message_to_sign-Printable :
    (dest src : List ℕ) (dest_len src_len : ℕ)
    → All Printable (take src_len src)
    → 1 ≤ length (take src_len src)
    → length (take src_len src) < dest_len
    → dest_len ≤ length dest
    → take (length (take src_len src) + 1) (format_message_to_sign dest dest_len src src_len)
      ≡ take src_len src ++ 0 ∷ []
unfolding format_message_to_sign
format_message_to_sign-Printable dest src dest_len src_len h some_text fits room =
    text-Printable (take src_len src) dest_len dest h some_text fits room
