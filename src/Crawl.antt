-- ===== src/Crawl.antt =====
-- src/crawler.rs, `FileEntry`, `FileKind` and `CrawledFile`, and src/store/writer.rs, `relative_path`.
-- A path is the list of its components, as the standard library's `Path::components` gives them; a
-- name is the text that `to_string_lossy` gives.
use ripindex.Common.{ℕ, Bool, true, false, Option, none, some, List, [], ◌∷◌, ◌++◌, if◌then◌else◌}
use ripindex.Format.{ℤ}
use ripindex.Query.Syntax.{Text, text_eq}

pub data Component : Type 0 where
  prefix : Text → Component
  root_dir cur_dir parent_dir : Component
  normal : Text → Component

abbrev pub PathBuf : Type 0
PathBuf = List Component

unfoldable component_eq : Component → Component → Bool
component_eq (prefix s) (prefix t) = text_eq s t
component_eq root_dir root_dir = true
component_eq cur_dir cur_dir = true
component_eq parent_dir parent_dir = true
component_eq (normal s) (normal t) = text_eq s t
component_eq _ _ = false

-- `path.strip_prefix(root)`
unfoldable strip_prefix : PathBuf → PathBuf → Option PathBuf
unfolding component_eq
strip_prefix [] path = some path
strip_prefix (r ∷ root) [] = none
strip_prefix (r ∷ root) (c ∷ path) =
    let rest = strip_prefix root path in if component_eq r c then rest else none

unfoldable names : PathBuf → List Text
names [] = []
names (normal s ∷ path) = s ∷ names path
names (_ ∷ path) = names path

-- `.join("/")`
unfoldable join : List Text → Text
join [] = []
join (t ∷ []) = t
join (t ∷ u ∷ ts) = t ++ 0x2f ∷ join (u ∷ ts)

unfoldable unwrap_or : Option PathBuf → PathBuf → PathBuf
unwrap_or none path = path
unwrap_or (some rel) path = rel

unfoldable pub relative_path : PathBuf → PathBuf → Text
unfolding component_eq strip_prefix names join unwrap_or
relative_path root path = join (names (unwrap_or (strip_prefix root path) path))

-- `mtime` is the time's signed distance from the epoch in nanoseconds.
pub record FileEntry : Type 0 where
  pub path : PathBuf
  pub inode : ℕ
  pub mtime : ℤ
  pub size : ℕ

pub data FileKind : Type 0 where
  text binary too_large : FileKind

pub record CrawledFile : Type 0 where
  pub entry : FileEntry
  pub kind : FileKind
