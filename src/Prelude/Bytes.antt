-- ===== src/Prelude/Bytes.antt =====
-- Byte strings: copies into a fixed array, and numbers written in bytes.
use Prim.Native.Nat.{ℕ, zero, suc, ◌+◌, ◌*◌, ◌/◌, ◌%◌, ◌^◌, ◌≤◌, ◌<◌}
use mathlib.Core.Path.{◌≡◌, refl, sym, ap, ap₂, ◌∙◌}
use mathlib.Core.List.{List, [], ◌∷◌, ◌++◌}
use native.Mathlib.Omega.{arith}
use native.Mathlib.Nat.{
  pow-suc, div-add-mod, div-div-eq-div-mul, one-le-pow, mul-add-div_right, div-eq_of_lt,
}
use app_kaspa.Prelude.Lists.{length, take_all, set, take-append, take, drop, All}

abbrev pub IsByte : ℕ → Type 0
IsByte b = b < 256

-- `n` bytes from `offset` on.
abbrev pub slice : List ℕ → ℕ → ℕ → List ℕ
slice xs offset n = take n (drop offset xs)

-- `memcpy(dst + offset, src, length src)` into an array: its length stays, and what would be
-- written past its end is lost.
unfoldable pub splice : List ℕ → ℕ → List ℕ → List ℕ
splice [] offset src = []
splice (d ∷ ds) zero [] = d ∷ ds
splice (d ∷ ds) zero (s ∷ src) = s ∷ splice ds zero src
splice (d ∷ ds) (suc offset) src = d ∷ splice ds offset src

-- `n` bytes of a number, the most and the least significant one first.
unfoldable pub be_bytes : ℕ → ℕ → List ℕ
be_bytes zero v = []
be_bytes (suc n) v = (v / 256 ^ n % 256) ∷ be_bytes n v

unfoldable pub le_bytes : ℕ → ℕ → List ℕ
le_bytes zero v = []
le_bytes (suc n) v = (v % 256) ∷ le_bytes n (v / 256)

unfoldable pub be_value : List ℕ → ℕ
be_value [] = 0
be_value (b ∷ bs) = b * 256 ^ length bs + be_value bs

pub length-be_bytes : (n v : ℕ) → length (be_bytes n v) ≡ n
unfolding be_bytes
length-be_bytes zero v = refl
length-be_bytes (suc n) v = ap suc (length-be_bytes n v)

pub length-le_bytes : (n v : ℕ) → length (le_bytes n v) ≡ n
unfolding le_bytes
length-le_bytes zero v = refl
length-le_bytes (suc n) v = ap suc (length-le_bytes n (v / 256))

pub length-splice :
    (dst : List ℕ) (offset : ℕ) (src : List ℕ) → length (splice dst offset src) ≡ length dst
unfolding splice
length-splice [] offset src = refl
length-splice (d ∷ ds) zero [] = refl
length-splice (d ∷ ds) zero (s ∷ src) = ap suc (length-splice ds zero src)
length-splice (d ∷ ds) (suc offset) src = ap suc (length-splice ds offset src)

-- A copy to the front of an array that has room for it.
pub splice-front :
    (dst src : List ℕ) → length src ≤ length dst → splice dst 0 src ≡ src ++ drop (length src) dst
unfolding splice
splice-front [] [] h = refl
splice-front [] (s ∷ src) h = absurd (omega arith)
splice-front (d ∷ ds) [] h = refl
splice-front (d ∷ ds) (s ∷ src) h = ap (◌∷◌ s) (splice-front ds src (omega arith))

split_mod : (v m : ℕ) → v / m % 256 * m + v % m ≡ v % (m * 256)
split_mod v m = omega (
  arith,
  div-add-mod v m,
  div-add-mod v (m * 256),
  div-div-eq-div-mul v m 256,
  ap (λ (t : ℕ). m * t) (div-add-mod (v / m) 256),
  ap (λ (t : ℕ). m * 256 * t) (div-div-eq-div-mul v m 256),
)

pub be_value-be_bytes : (n v : ℕ) → be_value (be_bytes n v) ≡ v % 256 ^ n
unfolding be_bytes be_value
be_value-be_bytes zero v = omega arith
be_value-be_bytes (suc n) v =
    rw (length-be_bytes n v, be_value-be_bytes n v, pow-suc) (split_mod v (256 ^ n))

-- The digits of `v` above the `n`-th do not show.
be_bytes-skip : (n k v : ℕ) → be_bytes n (k * 256 ^ n + v) ≡ be_bytes n v
unfolding be_bytes
be_bytes-skip zero k v = refl
be_bytes-skip (suc n) k v =
    let m = 256 ^ n in
    let e : k * 256 ^ suc n + v ≡ k * 256 * m + v =
      omega (arith, ap (λ (t : ℕ). k * t) (pow-suc 256 n)) in
    let q : (k * 256 * m + v) / m ≡ k * 256 + v / m =
      mul-add-div_right (one-le-pow n 256 (omega arith)) (k * 256) v in
    rw (e, q) (ap₂ ◌∷◌ (omega arith) (be_bytes-skip n (k * 256) v))

be_value-lt : (bs : List ℕ) → All IsByte bs → be_value bs < 256 ^ length bs
unfolding be_value
be_value-lt [] h = omega arith
be_value-lt (b ∷ bs) h = rw (pow-suc 256 (length bs)) (grind (arith, be_value-lt bs h.1))

pub be_bytes-be_value : (bs : List ℕ) → All IsByte bs → be_bytes (length bs) (be_value bs) ≡ bs
unfolding be_bytes be_value
be_bytes-be_value [] h = refl
be_bytes-be_value (b ∷ bs) h =
    let lt = be_value-lt bs h.1 in
    let q : (b * 256 ^ length bs + be_value bs) / 256 ^ length bs ≡ b =
      mul-add-div_right (one-le-pow (length bs) 256 (omega arith)) b (be_value bs)
      ∙ omega (arith, div-eq_of_lt lt) in
    rw q
      (ap₂ ◌∷◌ (omega arith) (be_bytes-skip (length bs) b (be_value bs) ∙ be_bytes-be_value bs h.1))

-- Copies one behind the other are one copy.
pub splice-append :
    (dst : List ℕ) (offset m : ℕ) (a b : List ℕ)
    → m ≡ offset + length a
    → splice (splice dst offset a) m b ≡ splice dst offset (a ++ b)
unfolding splice
splice-append [] offset m a b h = refl
splice-append (d ∷ ds) zero zero [] b h = refl
splice-append (d ∷ ds) zero zero (x ∷ a) b h = absurd (omega arith)
splice-append (d ∷ ds) zero (suc m) [] b h = absurd (omega arith)
splice-append (d ∷ ds) zero (suc m) (x ∷ a) b h =
    ap (◌∷◌ x) (splice-append ds zero m a b (omega arith))
splice-append (d ∷ ds) (suc offset) zero a b h = absurd (omega arith)
splice-append (d ∷ ds) (suc offset) (suc m) a b h =
    ap (◌∷◌ d) (splice-append ds offset m a b (omega arith))

splice-nil : (dst : List ℕ) → splice dst 0 [] ≡ dst
unfolding splice
splice-nil [] = refl
splice-nil (d ∷ ds) = refl

-- The same where the next copy is a single byte.
pub set-splice :
    (dst : List ℕ) (offset m v : ℕ) (a : List ℕ)
    → m ≡ offset + length a
    → set (splice dst offset a) m v ≡ splice dst offset (a ++ v ∷ [])
unfolding splice
set-splice [] offset m v a h = refl
set-splice (d ∷ ds) zero zero v [] h = ap (◌∷◌ v) (sym (splice-nil ds))
set-splice (d ∷ ds) zero zero v (x ∷ a) h = absurd (omega arith)
set-splice (d ∷ ds) zero (suc m) v [] h = absurd (omega arith)
set-splice (d ∷ ds) zero (suc m) v (x ∷ a) h = ap (◌∷◌ x) (set-splice ds zero m v a (omega arith))
set-splice (d ∷ ds) (suc offset) zero v a h = absurd (omega arith)
set-splice (d ∷ ds) (suc offset) (suc m) v a h =
    ap (◌∷◌ d) (set-splice ds offset m v a (omega arith))

pub take-splice :
    (dst src : List ℕ) (n : ℕ) → n ≡ length src → n ≤ length dst → take n (splice dst 0 src) ≡ src
take-splice dst src n e h =
    rw (splice-front dst src (omega arith)) (take-append src (drop (length src) dst) n e)

pub splice-whole : (dst src : List ℕ) → length src ≡ length dst → splice dst 0 src ≡ src
splice-whole dst src e =
    sym (take_all (length dst) (splice dst 0 src) (omega (arith, length-splice dst 0 src)))
    ∙ take-splice dst src (length dst) (omega arith) (omega arith)

pub be_value-one : (b : ℕ) → be_value (b ∷ []) ≡ b
unfolding be_value
be_value-one b = omega arith
