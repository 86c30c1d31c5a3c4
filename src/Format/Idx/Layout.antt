-- ===== src/Format/Idx/Layout.antt =====
-- src/format/idx.rs: the bytes of a posting list (docs/FORMAT.md §4.2), and the lists that have
-- such bytes.
use ripindex.Common.{ℕ, ◌^◌, ◌<◌, Option, none, some, List, [], ◌∷◌, ◌++◌, length}
use ripindex.Format.{Bytes}
use ripindex.Format.Varint.{put_u32}
use ripindex.Format.Idx.Postings.{Posting, delta}

unfoldable pub position_bytes : Option ℕ → List ℕ → Bytes
position_bytes prev [] = []
position_bytes prev (p ∷ ps) = put_u32 [] (delta prev p) ++ position_bytes (some p) ps

-- A posting is its difference, its frequency, the length of its positions, and these.
unfoldable pub header_bytes : Option ℕ → Posting → Bytes
header_bytes prev (d, ps) =
    put_u32 [] (delta prev d)
    ++ (put_u32 [] (length ps) ++ put_u32 [] (length (position_bytes none ps)))

unfoldable pub posting_bytes : Option ℕ → List Posting → Bytes
posting_bytes prev [] = []
posting_bytes prev ((d, ps) ∷ rest) =
    header_bytes prev (d, ps) ++ (position_bytes none ps ++ posting_bytes (some d) rest)

unfoldable pub list_bytes : List Posting → Bytes
list_bytes postings = put_u32 [] (length postings) ++ posting_bytes none postings

-- Above the number before, if there is one.
abbrev pub Above : Option ℕ → ℕ → Type 0
Above none n = Unit
Above (some p) n = p < n

-- Strictly increasing numbers of 32 bits.
abbrev pub Increasing : Option ℕ → List ℕ → Type 0
Increasing prev [] = Unit
Increasing prev (p ∷ ps) = Above prev p × (p < 2 ^ 32) × Increasing (some p) ps

-- Documents strictly increase, and each has positions, strictly increasing; all counts and lengths
-- fit 32 bits.
abbrev pub Sound : Option ℕ → List Posting → Type 0
Sound prev [] = Unit
Sound prev ((d, ps) ∷ rest) =
    Above prev d
    × (d < 2 ^ 32)
    × (0 < length ps)
    × (length ps < 2 ^ 32)
    × (length (position_bytes none ps) < 2 ^ 32)
    × Increasing none ps
    × Sound (some d) rest

pub record IsPostingList (postings : List Posting) : Type 0 where
  pub count-lt : length postings < 2 ^ 32
  pub sound : Sound none postings
  pub fits : length (list_bytes postings) < 2 ^ 64
