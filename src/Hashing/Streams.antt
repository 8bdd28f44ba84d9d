-- ===== src/Hashing/Streams.antt =====
-- What the functions on hash states do, in terms of the bytes absorbed.
use app_kaspa.Prelude.{ℕ, ◌≤◌, ◌≡◌, refl, Option, some, List, [], ◌++◌, arith, length, take, splice}
use app_kaspa.Sdk.Blake2b.{Blake2b, Blake2bLaws}
use app_kaspa.Hashing.{◌>>=◌, hash_init, hash_update, hash_finalize}

module _ (b : Blake2b) (laws : Blake2bLaws b) (key : List ℕ) where
  -- The call yields a state that has absorbed the message under the key, for a digest of 32 bytes.
  abbrev pub Streams : Option b.State → List ℕ → Type 0
  Streams r m = (s : b.State) × (r ≡ some s) × laws.Absorbed s 32 key m

  pub hash_init-Streams :
      (size : ℕ) (bytes : List ℕ) (key_len : ℕ)
      → size ≡ 256
      → take key_len bytes ≡ key
      → 1 ≤ length key
      → length key ≤ 64
      → Streams (hash_init b size bytes key_len) []
  unfolding hash_init
  hash_init-Streams size bytes key_len h e lo hi =
      let (s, p, a) = laws.init 32 key (omega arith) (omega arith) lo hi in
      (s, rw (h, e, p) refl, a)

  pub hash_update-Streams :
      (s : b.State) (m bytes : List ℕ) (len : ℕ) (d : List ℕ)
      → laws.Absorbed s 32 key m
      → take len bytes ≡ d
      → Streams (hash_update b s bytes len) (m ++ d)
  unfolding hash_update
  hash_update-Streams s m bytes len d a e =
      let (s', p, a') = laws.update s 32 key m d a in (s', rw (e, p) refl, a')

  pub hash_finalize-Streams :
      (s : b.State) (m out : List ℕ) (out_len : ℕ)
      → laws.Absorbed s 32 key m
      → 32 ≤ out_len
      → hash_finalize b s out out_len ≡ some (splice out 0 (laws.digest 32 key m))
  unfolding hash_finalize
  hash_finalize-Streams s m out out_len a h =
      let p = laws.final s 32 32 key m a (omega arith) in ground (arith, p)

  -- A step behind a stream.
  pub then_stream {ℓ} :
      {A : Type ℓ} (r : Option b.State) (f : b.State → Option A) (m : List ℕ) (x : A)
      → Streams r m
      → ((s : b.State) → laws.Absorbed s 32 key m → f s ≡ some x)
      → (r >>= f) ≡ some x
  then_stream r f m x (s, e, a) k = rw e (k s a)
