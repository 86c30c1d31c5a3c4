-- ===== src/Format/Envelope.antt =====
-- src/format/envelope.rs: the header and footer of every file of the index, and `BodyWriter`.
pub mod RoundTrip
pub mod Exact
use ripindex.Common.{
  ℕ, zero, suc, ◌+◌, ◌-◌, ◌*◌, ◌%◌, ◌^◌, Bool, true, false, ◌&&◌, List, [], ◌∷◌, ◌++◌, length, take,
  drop, leb, ◌==◌, if◌then◌else◌,
}
use ripindex.Format.{
  Bytes, Result, ok, err, ◌>>=◌, ◌>>◌, require, FormatError, truncated, bad_magic, version, corrupt,
  checksum, nonzero_header_flags, bad_footer_magic, body_len_mismatch, to_le_bytes, read_u32_le,
  read_u64_le,
}
use ripindex.Format.Checksum.{Crc32}

abbrev pub header_len : ℕ
header_len = 16

abbrev pub footer_len : ℕ
footer_len = 16

abbrev pub format_version : ℕ
format_version = 2

abbrev pub footer_magic : Bytes
footer_magic = b'F' ∷ b'S' ∷ b'R' ∷ b'F' ∷ []

pub data Kind : Type 0 where
  manifest idx doc del overlay : Kind

abbrev fsrch : ℕ → ℕ → ℕ → Bytes
fsrch a b c = b'F' ∷ b'S' ∷ b'R' ∷ b'C' ∷ b'H' ∷ a ∷ b ∷ c ∷ []

abbrev pub magic : Kind → Bytes
magic manifest = fsrch b'M' b'A' b'N'
magic idx = fsrch b'I' b'D' b'X'
magic doc = fsrch b'D' b'O' b'C'
magic del = fsrch b'D' b'E' b'L'
magic overlay = fsrch b'O' b'V' b'L'

-- Equality of slices.
unfoldable pub bytes_eq : Bytes → Bytes → Bool
bytes_eq [] [] = true
bytes_eq [] (y ∷ ys) = false
bytes_eq (x ∷ xs) [] = false
bytes_eq (x ∷ xs) (y ∷ ys) = (x == y) && bytes_eq xs ys

unfoldable pub header : Kind → Bytes
header kind = magic kind ++ (to_le_bytes 4 format_version ++ to_le_bytes 4 0)

unfoldable pub footer : ℕ → ℕ → Bytes
footer body_len crc = to_le_bytes 8 body_len ++ (to_le_bytes 4 crc ++ footer_magic)

unfoldable pub crc : Crc32 → Bytes → ℕ
crc c body = c.hash body

unfoldable pub seal : Crc32 → Kind → Bytes → Bytes
unfolding crc
seal c kind body = header kind ++ (body ++ footer (length body) (crc c body))

-- `body` is the range from `body_start` to `body_end`.
pub record Envelope : Type 0 where
  pub body_start : ℕ
  pub body_end : ℕ
  pub stored : ℕ

-- `&bytes[env.body.clone()]`
abbrev pub body_of : Bytes → Envelope → Bytes
body_of bytes env = take (env.body_end - env.body_start) (drop env.body_start bytes)

unfoldable pub parse : Kind → Bytes → Result Envelope
parse kind bytes = do
  require (leb (header_len + footer_len) (length bytes)) (truncated 0 (header_len + footer_len))
  require (bytes_eq (take 8 bytes) (magic kind)) bad_magic
  v ← read_u32_le bytes 8
  require (v == format_version) (version v)
  flags ← read_u32_le bytes 12
  require (flags == 0) (corrupt nonzero_header_flags)
  let footer_at = length bytes - footer_len
  require (bytes_eq (drop (footer_at + 12) bytes) footer_magic) (corrupt bad_footer_magic)
  body_len ← read_u64_le bytes footer_at
  require (body_len == length bytes - header_len - footer_len)
      (corrupt (body_len_mismatch body_len (length bytes)))
  stored ← read_u32_le bytes (footer_at + 8)
  ok (record { body_start = header_len; body_end = footer_at; stored = stored })

unfoldable pub verify_crc : Crc32 → Bytes → Envelope → Result (Unit {0})
unfolding crc
verify_crc c bytes env =
    let computed = crc c (body_of bytes env) in
    require (computed == env.stored) (checksum env.stored computed)

unfoldable pub parse_verified : Crc32 → Kind → Bytes → Result Envelope
unfolding verify_crc
parse_verified c kind bytes = do env ← parse kind bytes; verify_crc c bytes env; ok env

-- `BodyWriter`, over a writer that keeps all it is given: what was written, the hasher, the length.
pub record BodyWriter (c : Crc32) : Type 0 where
  pub inner : Bytes
  pub hasher : Crc32.Hasher c
  pub len : ℕ

abbrev pub new_writer : (c : Crc32) → Bytes → BodyWriter c
new_writer c inner = record { inner = inner; hasher = Crc32.new c; len = 0 }

unfoldable pub write : (c : Crc32) → BodyWriter c → Bytes → BodyWriter c × ℕ
write c w buf = (
  record {
    inner = w.inner ++ buf;
    hasher = Crc32.update c w.hasher buf;
    len = (w.len + length buf) % 2 ^ 64;
  },
  length buf,
)

-- `(writer, body_len, crc)`
unfoldable pub finish : (c : Crc32) → BodyWriter c → Bytes × ℕ × ℕ
finish c w = (w.inner, w.len, Crc32.finalize c w.hasher)
