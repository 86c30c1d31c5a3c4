-- ===== src/Format/Envelope/Exact.antt =====
-- src/format/envelope.rs: the files that `parse` and `parse_verified` accept are the sealed ones.
use ripindex.Common.{
  ℕ, ◌+◌, ◌-◌, ◌≤◌, ◌≡◌, refl, ◌∙◌, true, [], ◌∷◌, ◌++◌, length, take, drop, arith, All,
  take-append-drop, drop-cut, append_assoc, drop-drop, length-take, length-drop,
}
use ripindex.Format.{Bytes, IsByte, ok, to_le_bytes, read_u32_le, read_u64_le}
use ripindex.Format.Slice.{read_u32_le_exact, read_u64_le_exact}
use ripindex.Format.Checksum.{Crc32}
use ripindex.Format.Envelope.{
  Kind, magic, footer_magic, bytes_eq, header, footer, seal, Envelope, parse, parse_verified,
  body_of,
}
use ripindex.Format.Envelope.RoundTrip.{file, envelope}

pub bytes_eq→eq : (xs ys : Bytes) → bytes_eq xs ys ≡ true → xs ≡ ys
unfolding bytes_eq
bytes_eq→eq [] [] h = refl
bytes_eq→eq [] (y ∷ ys) h = cc
bytes_eq→eq (x ∷ xs) [] h = cc
bytes_eq→eq (x ∷ xs) (y ∷ ys) h = ground (arith, bytes_eq→eq xs ys)

-- The checks that a successful `parse` passed, in order.
record Passed (kind : Kind) (bytes : Bytes) (env : Envelope) : Type 0 where
  long_enough : 32 ≤ length bytes
  magic_matches : bytes_eq (take 8 bytes) (magic kind) ≡ true
  version_two : read_u32_le bytes 8 ≡ ok 2
  no_flags : read_u32_le bytes 12 ≡ ok 0
  footer_matches : bytes_eq (drop (length bytes - 16 + 12) bytes) footer_magic ≡ true
  length_matches : read_u64_le bytes (length bytes - 16) ≡ ok (length bytes - 16 - 16)
  stored_read : read_u32_le bytes (length bytes - 16 + 8) ≡ ok env.stored
  from : env.body_start ≡ 16
  to : env.body_end ≡ length bytes - 16

parse-Passed :
    (kind : Kind) (bytes : Bytes) (env : Envelope)
    → parse kind bytes ≡ ok env
    → Passed kind bytes env
unfolding parse
parse-Passed kind bytes env e = ground arith

cut_front :
    (bytes a b c : Bytes)
    → take 8 bytes ≡ a
    → take 4 (drop 8 bytes) ≡ b
    → take 4 (drop 12 bytes) ≡ c
    → bytes ≡ (a ++ (b ++ c)) ++ drop 16 bytes
cut_front bytes a b c ha hb hc = cc (
  take-append-drop 8 bytes,
  drop-cut 4 8 bytes,
  drop-cut 4 12 bytes,
  append_assoc a (b ++ c) (drop 16 bytes),
  append_assoc b c (drop 16 bytes),
)

cut_back :
    (rest a b c : Bytes)
    → take 8 rest ≡ a
    → take 4 (drop 8 rest) ≡ b
    → drop 12 rest ≡ c
    → rest ≡ a ++ (b ++ c)
cut_back rest a b c ha hb hc = cc (take-append-drop 8 rest, drop-cut 4 8 rest)

module _ {kind : Kind} {bytes : Bytes} {env : Envelope} (h : All IsByte bytes)
    (p : Passed kind bytes env) where
  abbrev body_room : ℕ
  body_room = length bytes - 16 - 16

  abbrev body : Bytes
  body = take body_room (drop 16 bytes)

  abbrev tail : Bytes
  tail = drop (length bytes - 16) bytes

  length-body : length body ≡ body_room
  length-body =
      omega (arith, p.long_enough, length-take body_room (drop 16 bytes), length-drop 16 bytes)

  body_of-body : body_of bytes env ≡ body
  body_of-body =
      let room : env.body_end - env.body_start ≡ body_room = omega (arith, p.from, p.to) in
      rw (room, p.from)

  front : bytes ≡ header kind ++ drop 16 bytes
  unfolding header
  front =
      cut_front bytes (magic kind) (to_le_bytes 4 2) (to_le_bytes 4 0)
        (bytes_eq→eq _ _ p.magic_matches) (read_u32_le_exact bytes 8 2 h p.version_two)
        (read_u32_le_exact bytes 12 0 h p.no_flags)

  back : tail ≡ footer body_room env.stored
  unfolding footer
  back =
      cut_back tail (to_le_bytes 8 body_room) (to_le_bytes 4 env.stored) footer_magic
        (read_u64_le_exact bytes (length bytes - 16) body_room h p.length_matches)
        (rw (drop-drop (length bytes - 16) 8 bytes)
          (read_u32_le_exact bytes (length bytes - 16 + 8) env.stored h p.stored_read))
        (drop-drop (length bytes - 16) 12 bytes ∙ bytes_eq→eq _ _ p.footer_matches)

  middle : drop 16 bytes ≡ body ++ tail
  middle =
      let place : 16 + body_room ≡ length bytes - 16 = omega (arith, p.long_enough) in
      rw place at (drop-cut body_room 16 bytes)

  Passed-file : bytes ≡ file kind (body_of bytes env) env.stored
  Passed-file = rw (body_of-body, length-body, ← back, ← middle) front

  Passed-envelope : env ≡ envelope (length (body_of bytes env)) env.stored
  Passed-envelope = rw (body_of-body, length-body) (ground (arith, p.from, p.to, p.long_enough))

-- A file that `parse` accepts is a header, a body and a footer that names the body's length.
pub parse_exact :
    (kind : Kind) (bytes : Bytes) (env : Envelope)
    → All IsByte bytes
    → parse kind bytes ≡ ok env
    → (bytes ≡ file kind (body_of bytes env) env.stored)
      × (env ≡ envelope (length (body_of bytes env)) env.stored)
parse_exact kind bytes env h e =
    let p = parse-Passed kind bytes env e in (Passed-file h p, Passed-envelope h p)

-- `parse_verified` accepts a file of bytes only if it is the sealed file of its body.
pub parse_verified_exact :
    (c : Crc32) (kind : Kind) (bytes : Bytes) (env : Envelope)
    → All IsByte bytes
    → parse_verified c kind bytes ≡ ok env
    → bytes ≡ seal c kind (body_of bytes env)
unfolding parse_verified seal
parse_verified_exact c kind bytes env h e = ground (arith, parse_exact kind bytes env h)
