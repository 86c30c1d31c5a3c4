-- ===== src/Tests/Varint.antt =====
-- src/format/varint.rs, on concrete buffers.
use ripindex.Common.{◌+◌, ◌≡◌, refl, [], ◌∷◌, ◌++◌, length, arith}
use ripindex.Format.{ok}
use ripindex.Format.Varint.{put_u64, read_u64, put_loop, read_loop}
use ripindex.Format.Varint.RoundTrip.{read_u64-put_u64, read_u64_padded}

two_groups : put_u64 [] 300 ≡ 172 ∷ 2 ∷ []
unfolding put_u64 put_loop
two_groups = refl

read_two_groups : read_u64 (9 ∷ 172 ∷ 2 ∷ 7 ∷ []) 1 ≡ ok (300, 3)
unfolding read_u64 read_loop
read_two_groups = refl

read_u64-put_u64_example :
    read_u64 (put_u64 (5 ∷ []) 300 ++ (8 ∷ [])) 1 ≡ ok (300, length (put_u64 (5 ∷ []) 300))
read_u64-put_u64_example = read_u64-put_u64 (5 ∷ []) (8 ∷ []) 300 (omega arith)

read_u64_padded_example :
    (read_u64 ((5 + 128) ∷ 0 ∷ 9 ∷ []) 0 ≡ ok (5, 2)) × (put_u64 [] 5 ≡ 5 ∷ [])
read_u64_padded_example = read_u64_padded 5 (9 ∷ []) (omega arith)
