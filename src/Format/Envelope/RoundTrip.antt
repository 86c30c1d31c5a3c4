-- ===== src/Format/Envelope/RoundTrip.antt =====
-- src/format/envelope.rs: a sealed file parses, and streaming writes the bytes that `seal` does.
use ripindex.Common.{
  ℕ, ◌+◌, ◌-◌, ◌%◌, ◌^◌, ◌<◌, ◌≡◌, refl, sym, ◌∙◌, true, List, [], ◌∷◌, ◌++◌, length, take, drop,
  ◌==◌, arith, length-append, drop-append_add, take-append, append_assoc, le→leb, eq→==, append-nil,
}
use ripindex.Format.{Bytes, ok, to_le_bytes, read_u32_le, read_u64_le}
use ripindex.Format.Slice.{Fits, read_u32_le-eq, read_u32_le-after, read_u64_le-after}
use ripindex.Format.Checksum.{Crc32}
use ripindex.Format.Envelope.{
  Kind, manifest, magic, footer_magic, bytes_eq, header, footer, crc, seal, Envelope, parse,
  parse_verified, body_of, BodyWriter, new_writer, write, finish,
}

pub bytes_eq_refl : (xs : Bytes) → bytes_eq xs xs ≡ true
unfolding bytes_eq
bytes_eq_refl [] = refl
bytes_eq_refl (x ∷ xs) = ground (arith, bytes_eq_refl xs)

pub length-header : (kind : Kind) → length (header kind) ≡ 16
unfolding header to_le_bytes
length-header manifest = refl
length-header _ = refl

pub length-footer : (n c : ℕ) → length (footer n c) ≡ 16
unfolding footer to_le_bytes
length-footer n c = refl

take-magic : (kind : Kind) (rest : Bytes) → take 8 (header kind ++ rest) ≡ magic kind
unfolding header
take-magic manifest rest = refl
take-magic _ rest = refl

take-version :
    (kind : Kind) (rest : Bytes) → take 4 (drop 8 (header kind ++ rest)) ≡ to_le_bytes 4 2
unfolding header to_le_bytes
take-version manifest rest = refl
take-version _ rest = refl

take-flags : (kind : Kind) (rest : Bytes) → take 4 (drop 12 (header kind ++ rest)) ≡ to_le_bytes 4 0
unfolding header to_le_bytes
take-flags manifest rest = refl
take-flags _ rest = refl

-- A file of the shape that `seal` writes, with any checksum.
abbrev pub file : Kind → Bytes → ℕ → Bytes
file kind body stored = header kind ++ (body ++ footer (length body) stored)

pub length-file :
    (kind : Kind) (body : Bytes) (c : ℕ) → length (file kind body c) ≡ 32 + length body
length-file kind body c = omega (
  arith,
  length-header kind,
  length-footer (length body) c,
  length-append (header kind) (body ++ footer (length body) c),
  length-append body (footer (length body) c),
)

-- The envelope of a body of `n` bytes.
abbrev pub envelope : ℕ → ℕ → Envelope
envelope n c = record { body_start = 16; body_end = 16 + n; stored = c }

module _ (kind : Kind) (body : Bytes) (c : ℕ) (small : c < 2 ^ 32)
    (fits : length body + 32 < 2 ^ 64) where
  abbrev front : Bytes
  front = header kind ++ body

  file-front : file kind body c ≡ front ++ footer (length body) c
  file-front = sym (append_assoc (header kind) body (footer (length body) c))

  length-front : length front ≡ 16 + length body
  length-front = omega (arith, length-append (header kind) body, length-header kind)

  file-Fits : Fits (front ++ footer (length body) c)
  file-Fits = rw (← file-front) (omega (arith, length-file kind body c))

  footer_place : length (file kind body c) - 16 ≡ length front + 0
  footer_place = omega (arith, length-front, length-file kind body c)

  read_version : read_u32_le (file kind body c) 8 ≡ ok 2
  read_version =
      read_u32_le-eq (file kind body c) 8 2 (omega (arith, length-file kind body c))
        (omega (arith, length-file kind body c)) (take-version kind _) (omega arith)

  read_flags : read_u32_le (file kind body c) 12 ≡ ok 0
  read_flags =
      read_u32_le-eq (file kind body c) 12 0 (omega (arith, length-file kind body c))
        (omega (arith, length-file kind body c)) (take-flags kind _) (omega arith)

  read_body_len : read_u64_le (file kind body c) (length (file kind body c) - 16) ≡ ok (length body)
  unfolding footer to_le_bytes
  read_body_len =
      rw (footer_place, file-front)
        (read_u64_le-after front (footer (length body) c) 0 (length body) file-Fits (omega arith)
          refl (omega arith))

  read_stored : read_u32_le (file kind body c) (length (file kind body c) - 16 + 8) ≡ ok c
  unfolding footer to_le_bytes
  read_stored =
      let place : length (file kind body c) - 16 + 8 ≡ length front + 8 =
        omega (arith, footer_place) in
      rw (place, file-front)
        (read_u32_le-after front (footer (length body) c) 8 c file-Fits (omega arith) refl small)

  footer_end : drop (length (file kind body c) - 16 + 12) (file kind body c) ≡ footer_magic
  unfolding footer to_le_bytes
  footer_end =
      let place : length (file kind body c) - 16 + 12 ≡ length front + 12 =
        omega (arith, footer_place) in
      rw (place, file-front, drop-append_add) refl

  body_room : length (file kind body c) - 16 - 16 ≡ length body
  body_room = omega (arith, length-file kind body c)

  -- `parse` accepts a file of this shape, and finds the body and the stored checksum.
  pub parse-file : parse kind (file kind body c) ≡ ok (envelope (length body) c)
  unfolding parse
  parse-file =
      let same : (length body == length body) ≡ true = eq→== _ _ refl in
      let end : length (file kind body c) - 16 ≡ 16 + length body =
        omega (arith, length-file kind body c) in
      rw (
        le→leb 32 (length (file kind body c)) (omega (arith, length-file kind body c)),
        take-magic,
        bytes_eq_refl,
        read_version,
        read_flags,
        footer_end,
        bytes_eq_refl,
        read_body_len,
        body_room,
        same,
        read_stored,
        end,
      )

  pub body_of-file : body_of (file kind body c) (envelope (length body) c) ≡ body
  unfolding header to_le_bytes
  body_of-file =
      let room : 16 + length body - 16 ≡ length body = omega arith in rw room (behind kind)
    where
      behind :
          (k : Kind)
          → take (length body) (drop 16 (header k ++ (body ++ footer (length body) c))) ≡ body
      behind manifest = take-append body _
      behind _ = take-append body _

-- A file that `seal` made of a body whose file fits 64 bits parses and passes the checksum, and the range found holds the body.
pub parse_verified-seal :
    (c : Crc32) (kind : Kind) (body : Bytes)
    → length body + 32 < 2 ^ 64
    → (parse_verified c kind (seal c kind body) ≡ ok (envelope (length body) (crc c body)))
      × (body_of (seal c kind body) (envelope (length body) (crc c body)) ≡ body)
unfolding parse_verified seal
parse_verified-seal c kind body fits =
    let stored = crc c body in
    let small : stored < 2 ^ 32 = unfold crc in Crc32.hash-lt c body in
    let whole = body_of-file kind body stored small fits in
    (
      rw (parse-file kind body stored small fits, whole) (ground (arith, eq→== stored stored refl)),
      whole,
    )

-- A writer that was given the pieces `bufs` one by one.
abbrev pub write_all : (c : Crc32) → BodyWriter c → List Bytes → BodyWriter c
write_all c w [] = w
write_all c w (buf ∷ bufs) = write_all c (write c w buf).0 bufs

abbrev pub flatten : List Bytes → Bytes
flatten [] = []
flatten (b ∷ bs) = b ++ flatten bs

write_all-Fed :
    (c : Crc32) (w : BodyWriter c) (bufs : List Bytes) (sofar : Bytes)
    → Crc32.Fed c w.hasher sofar
    → Crc32.Fed c (write_all c w bufs).hasher (sofar ++ flatten bufs)
unfolding write
write_all-Fed c w [] sofar h = rw append-nil h
write_all-Fed c w (buf ∷ bufs) sofar h = rw (← append_assoc) (
    write_all-Fed c (write c w buf).0 bufs (sofar ++ buf) (Crc32.update-Fed c w.hasher sofar buf h))

write_all-inner :
    (c : Crc32) (w : BodyWriter c) (bufs : List Bytes)
    → (write_all c w bufs).inner ≡ w.inner ++ flatten bufs
unfolding write
write_all-inner c w [] = sym (append-nil w.inner)
write_all-inner c w (buf ∷ bufs) =
    write_all-inner c (write c w buf).0 bufs ∙ append_assoc w.inner buf (flatten bufs)

write_all-len :
    (c : Crc32) (w : BodyWriter c) (bufs : List Bytes)
    → w.len + length (flatten bufs) < 2 ^ 64
    → (write_all c w bufs).len ≡ w.len + length (flatten bufs)
unfolding write
write_all-len c w [] h = omega arith
write_all-len c w (buf ∷ bufs) h =
    let l = length-append buf (flatten bufs) in
    let room : w.len + length buf < 2 ^ 64 = omega (arith, l) in
    let low : (w.len + length buf) % 2 ^ 64 ≡ w.len + length buf = omega arith in
    omega (arith, l, low, write_all-len c (write c w buf).0 bufs (rw low (omega (arith, l))))

-- If the pieces fit 64 bits, `finish` after any sequence of writes behind the header gives what `seal` puts together: closing
-- the file with the footer makes it the sealed file of the pieces in order.
pub finish-seal :
    (c : Crc32) (kind : Kind) (bufs : List Bytes)
    → length (flatten bufs) < 2 ^ 64
    → (finish c (write_all c (new_writer c (header kind)) bufs)).0
        ++ footer
            (finish c (write_all c (new_writer c (header kind)) bufs)).1
            (finish c (write_all c (new_writer c (header kind)) bufs)).2
      ≡ seal c kind (flatten bufs)
unfolding finish seal crc
finish-seal c kind bufs h =
    let none_yet : 0 + length (flatten bufs) ≡ length (flatten bufs) = omega arith in
    rw (
      write_all-inner c (new_writer c (header kind)) bufs,
      write_all-len c (new_writer c (header kind)) bufs (omega arith),
      none_yet,
      Crc32.finalize-Fed c _ _
          (write_all-Fed c (new_writer c (header kind)) bufs [] (Crc32.new-Fed c)),
      append_assoc,
    )
