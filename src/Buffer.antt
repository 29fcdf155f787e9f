-- ===== src/Buffer.antt =====
-- src/buffer.h: the byte buffer that every message is assembled in.
-- `bytes` is the memory from `base` up to `used`, so `used` is its length. Memory behind it is
-- never read before it is written. `current` and `active` are set to 0 and never read.
pub mod Laws
use dnsperf.Common.{
  replicate, ℕ, ◌+◌, ◌-◌, ◌*◌, ◌/◌, ◌%◌, ◌^◌, List, [], ◌∷◌, ◌++◌, Bytes, length, get_or, set,
}
use dnsperf.Common.{leb, if◌then◌else◌, Outcome, ok, abort}

pub record Buffer : Type 0 where
  pub bytes : Bytes
  pub cap : ℕ

-- perf_buffer_init
unfoldable pub init : ℕ → Buffer
init n = record { bytes = []; cap = n }

-- perf_buffer_usedlength
abbrev pub used_length : Buffer → ℕ
used_length b = length b.bytes

-- perf_buffer_availablelength
abbrev pub available : Buffer → ℕ
available b = b.cap - used_length b

-- perf_buffer_clear
unfoldable pub clear : Buffer → Buffer
clear b = record b { bytes = [] }

-- perf_buffer_putmem
unfoldable pub put_mem : Buffer → Bytes → Outcome Buffer
put_mem b xs =
    if leb (length xs) (available b) then ok (record b { bytes = b.bytes ++ xs }) else abort

-- The bytes that the three integer macros store, most significant first.
abbrev pub uint8 : ℕ → Bytes
uint8 v = v % 256 ∷ []

abbrev pub uint16 : ℕ → Bytes
uint16 v = v / 256 % 256 ∷ v % 256 ∷ []

abbrev pub uint32 : ℕ → Bytes
uint32 v = v / 2 ^ 24 % 256 ∷ v / 2 ^ 16 % 256 ∷ v / 256 % 256 ∷ v % 256 ∷ []

-- perf_buffer_putuint8, perf_buffer_putuint16, perf_buffer_putuint32
unfoldable pub put_uint8 : Buffer → ℕ → Outcome Buffer
put_uint8 b v = put_mem b (uint8 v)

unfoldable pub put_uint16 : Buffer → ℕ → Outcome Buffer
put_uint16 b v = put_mem b (uint16 v)

unfoldable pub put_uint32 : Buffer → ℕ → Outcome Buffer
put_uint32 b v = put_mem b (uint32 v)

-- perf_buffer_add over memory that calloc() has cleared.
unfoldable pub add_zeros : Buffer → ℕ → Outcome Buffer
add_zeros b n =
    if leb (used_length b + n) b.cap
    then ok (record b { bytes = b.bytes ++ replicate n 0 })
    else abort

-- perf_buffer_putuint16 through a copy of the buffer that was taken when `i` bytes were used.
unfoldable pub overwrite_uint16 : Buffer → ℕ → ℕ → Buffer
overwrite_uint16 b i v = record b { bytes = set (set b.bytes i (v / 256 % 256)) (i + 1) (v % 256) }

-- `base[i]++` on an unsigned char.
unfoldable pub increment : Buffer → ℕ → Buffer
increment b i = record b { bytes = set b.bytes i ((get_or b.bytes i 0 + 1) % 256) }

-- Reads of one and of two bytes at an offset, as ntohs() does.
abbrev pub read_uint16 : Bytes → ℕ → ℕ
read_uint16 xs i = get_or xs i 0 * 256 + get_or xs (i + 1) 0
