-- ===== src/Sdk/Buffer.antt =====
-- buffer.h of the SDK: reads from a `buffer_t`, all of them big endian here.
use app_kaspa.Prelude.{
  ℕ, zero, suc, ◌+◌, ◌*◌, ◌≤◌, ◌<◌, ◌≡◌, ◌⊎◌, arith, Bool, true, false, ◌&&◌, List, [], ◌∷◌, leb,
  le→leb, lt→leb_false, if◌then◌else◌, get_or, length, slice, take, drop, be_value, splice,
}

-- `ptr` is the memory from the pointer on.
pub record Buffer : Type 0 where
  pub ptr : List ℕ
  pub size : ℕ
  pub offset : ℕ

-- `*(buf->ptr + buf->offset + i)`
abbrev pub byte_at : Buffer → ℕ → ℕ
byte_at buf i = get_or buf.ptr (buf.offset + i) 0

-- The `n` bytes at `buf->ptr + buf->offset`, as `memcpy` reads them.
abbrev pub bytes_at : Buffer → ℕ → List ℕ
bytes_at buf n = slice buf.ptr buf.offset n

abbrev pub advance : Buffer → ℕ → Buffer
advance buf n = record buf { offset = buf.offset + n }

-- The buffer that the dispatcher makes of a command's data.
abbrev pub buffer_of : List ℕ → Buffer
buffer_of bytes = record { ptr = bytes; size = length bytes; offset = 0 }

-- A read takes what the destination held, and returns whether it succeeded, what the destination
-- then holds, and the buffer.
pub record BufferApi : Type 0 where
  pub buffer_can_read : Buffer → ℕ → Bool
  pub buffer_seek_cur : Buffer → ℕ → Bool × Buffer
  pub buffer_read_u8 : Buffer → ℕ → Bool × ℕ × Buffer
  pub buffer_read_u16 : Buffer → ℕ → Bool × ℕ × Buffer
  pub buffer_read_u32 : Buffer → ℕ → Bool × ℕ × Buffer
  pub buffer_read_u64 : Buffer → ℕ → Bool × ℕ × Buffer
  pub buffer_read_bip32_path : Buffer → List ℕ → ℕ → Bool × List ℕ × Buffer

-- `n` more bytes are in the buffer.
abbrev pub CanRead : Buffer → ℕ → Type 0
CanRead buf n = buf.offset + n ≤ buf.size

abbrev pub Short : Buffer → ℕ → Type 0
Short buf n = buf.size < buf.offset + n

-- A read of `n` bytes succeeds exactly when they are there, and then it takes them.
pub record ReadsNumber (n : ℕ) (read : Buffer → ℕ → Bool × ℕ × Buffer) : Type 0 where
  pub done :
      (buf : Buffer) (old : ℕ)
      → CanRead buf n
      → read buf old ≡ (true, be_value (bytes_at buf n), advance buf n)
  pub refused : (buf : Buffer) (old : ℕ) → Short buf n → (read buf old).0 ≡ false

pub record BufferLaws (api : BufferApi) : Type 0 where
  pub can_read : (buf : Buffer) (n : ℕ) → CanRead buf n → api.buffer_can_read buf n ≡ true
  pub cannot_read : (buf : Buffer) (n : ℕ) → Short buf n → api.buffer_can_read buf n ≡ false
  pub seek :
      (buf : Buffer) (n : ℕ) → CanRead buf n → api.buffer_seek_cur buf n ≡ (true, advance buf n)
  pub u8 : ReadsNumber 1 api.buffer_read_u8
  pub u16 : ReadsNumber 2 api.buffer_read_u16
  pub u32 : ReadsNumber 4 api.buffer_read_u32
  pub u64 : ReadsNumber 8 api.buffer_read_u64

-- `n` words of 32 bits.
unfoldable pub be_words : ℕ → List ℕ → List ℕ
be_words zero bytes = []
be_words (suc n) bytes = be_value (take 4 bytes) ∷ be_words n (drop 4 bytes)

-- A path of one to ten levels is read if its words are there; what is written over a shorter array
-- than that is not said.
pub record PathLaws (api : BufferApi) : Type 0 where
  pub path_read :
      (buf : Buffer) (path : List ℕ) (n : ℕ)
      → 1 ≤ n
      → n ≤ length path
      → n ≤ 10
      → CanRead buf (4 * n)
      → api.buffer_read_bip32_path buf path n
        ≡ (true, splice path 0 (be_words n (bytes_at buf (4 * n))), advance buf (4 * n))
  pub path_accepted :
      (buf : Buffer) (path : List ℕ) (n : ℕ)
      → 1 ≤ n
      → n ≤ 10
      → CanRead buf (4 * n)
      → (api.buffer_read_bip32_path buf path n).0 ≡ true
  pub path_refused :
      (buf : Buffer) (path : List ℕ) (n : ℕ)
      → (n ≡ 0) ⊎ (10 < n) ⊎ Short buf (4 * n)
      → (api.buffer_read_bip32_path buf path n).0 ≡ false

-- A reference implementation, which the laws hold of.
read_number : ℕ → Buffer → ℕ → Bool × ℕ × Buffer
read_number n buf old =
    if leb (buf.offset + n) buf.size
    then (true, be_value (bytes_at buf n), advance buf n)
    else (false, 0, buf)

read_path : Buffer → List ℕ → ℕ → Bool × List ℕ × Buffer
unfolding be_words
read_path buf path n =
    if leb 1 n && leb n 10 && leb (buf.offset + 4 * n) buf.size
    then (true, splice path 0 (be_words n (bytes_at buf (4 * n))), advance buf (4 * n))
    else (false, path, buf)

unfoldable pub plain_buffer : BufferApi
unfolding read_number read_path be_value splice
plain_buffer = record {
  buffer_can_read = λ buf n. leb (buf.offset + n) buf.size;
  buffer_seek_cur =
      λ buf n. if leb (buf.offset + n) buf.size then (true, advance buf n) else (false, buf);
  buffer_read_u8 = read_number 1;
  buffer_read_u16 = read_number 2;
  buffer_read_u32 = read_number 4;
  buffer_read_u64 = read_number 8;
  buffer_read_bip32_path = read_path;
}

read_number-ReadsNumber : (n : ℕ) → ReadsNumber n (read_number n)
unfolding read_number
read_number-ReadsNumber n = record {
  done = λ buf old h. rw (le→leb _ _ h);
  refused = λ buf old h. rw (lt→leb_false _ _ h);
}

pub plain_buffer-BufferLaws : BufferLaws plain_buffer
unfolding plain_buffer
plain_buffer-BufferLaws = record {
  can_read = λ buf n h. le→leb _ _ h;
  cannot_read = λ buf n h. lt→leb_false _ _ h;
  seek = λ buf n h. rw (le→leb _ _ h);
  u8 = read_number-ReadsNumber 1;
  u16 = read_number-ReadsNumber 2;
  u32 = read_number-ReadsNumber 4;
  u64 = read_number-ReadsNumber 8;
}

pub plain_buffer-PathLaws : PathLaws plain_buffer
unfolding plain_buffer read_path
plain_buffer-PathLaws = record {
  path_read = λ buf path n h k m r. ground arith;
  path_accepted = λ buf path n h k r. ground arith;
  path_refused = λ buf path n h. ground arith;
}
