-- ===== src/Slang/Headers.antt =====
-- `_include_base_dirs` and `collect_inc_dirs` of src/svhier/slang_frontend.py: the directories that
-- `include` paths are relative to. Searching directories, reading files and the regular
-- expression for includes lie outside.
use svhier.Base.{
  String, Bool, true, false, not, ◌||◌, ◌&&◌, Option, none, some, List, [], ◌∷◌, ◌++◌, map,
}
use svhier.Base.{◌==◌, contains, nat_eq, string_eq, list_eq, if◌then◌else◌}
use svhier.Base.Dict.{Dict, update, get_or}
use svhier.Base.Lists.{length, filter, flat_map}
use svhier.Base.Text.{leb}
use svhier.Libsearch.Paths.{
  FilePath, path_of, path_text, last_part, is_absolute, drop_end, take_end,
}

-- A source with the includes in it, or `none` where it cannot be read.
abbrev pub IncludingFile : Type 0
IncludingFile = FilePath × Option (List String)

-- `by_name`
unfoldable pub by_name_of :
    List FilePath → Dict String (List FilePath) → Dict String (List FilePath)
by_name_of [] by_name = by_name
by_name_of (hdr ∷ includable) by_name =
    by_name_of includable (update (last_part hdr) [] (λ hdrs. hdrs ++ hdr ∷ []) by_name)

-- `hdr.parts[-len(parts):] == parts and len(hdr.parts) > len(parts)`
abbrev pub ends_with : List String → FilePath → Bool
ends_with parts hdr = take_end (length parts) hdr == parts && not (leb (length hdr) (length parts))

module _ (exists : FilePath → Bool) (by_name : Dict String (List FilePath)) where
  -- What one include of a file adds.
  unfoldable pub bases_of_include : FilePath → String → List FilePath
  unfolding filter
  bases_of_include src include =
      let parts = path_of include in
      if parts == [] || (is_absolute parts || contains parts "..")
      then []
      else (if length parts == 1 && exists (drop_end 1 src ++ parts)
          then []
          else map (drop_end (length parts))
              (filter (ends_with parts) (get_or (last_part parts) [] by_name)))

  unfoldable pub bases_of_sources : List IncludingFile → List FilePath
  unfolding bases_of_include flat_map
  bases_of_sources [] = []
  bases_of_sources ((src, none) ∷ sources) = bases_of_sources sources
  bases_of_sources ((src, some includes) ∷ sources) =
      flat_map (bases_of_include src) includes ++ bases_of_sources sources

abbrev pub include_base_dirs :
    (FilePath → Bool) → List IncludingFile → List FilePath → List FilePath
include_base_dirs exists sources includable =
    bases_of_sources exists (by_name_of includable []) sources

-- What is found at one input path: a directory's headers, sources and other includes, or a file
-- that is not ignored with the headers beside it.
pub data FoundAt : Type 0 where
  directory : List FilePath → List FilePath → List FilePath → FoundAt
  source_file : FilePath → List FilePath → FoundAt
  nothing_at : FoundAt

-- The headers, the sources and the other includes.
pub record Collecting : Type 0 where
  pub headers : List FilePath
  pub sources : List FilePath
  pub other_includes : List FilePath

unfoldable pub collect_found : List FoundAt → Collecting → Collecting
collect_found [] c = c
collect_found (directory headers sources others ∷ found) c = collect_found found (record {
  headers = c.headers ++ headers;
  sources = c.sources ++ sources;
  other_includes = c.other_includes ++ others;
})
collect_found (source_file p headers ∷ found) c =
    collect_found found (record c { headers = c.headers ++ headers; sources = c.sources ++ p ∷ [] })
collect_found (nothing_at ∷ found) c = collect_found found c

-- The directories once each, by where they resolve to.
unfoldable pub unique_dirs : (FilePath → FilePath) → List FilePath → List FilePath → List String
unique_dirs resolve seen [] = []
unique_dirs resolve seen (d ∷ dirs) = elim (contains seen (resolve d)) [
  | true ↦ unique_dirs resolve seen dirs
  | false ↦ path_text d ∷ unique_dirs resolve (resolve d ∷ seen) dirs
]

-- `collect_inc_dirs`
unfoldable pub collect_inc_dirs :
    (FilePath → FilePath)
    → (FilePath → Bool)
    → (FilePath → Option (List String))
    → List FoundAt
    → List String
unfolding collect_found bases_of_sources by_name_of unique_dirs
collect_inc_dirs resolve exists includes_of found =
    let c = collect_found found (record { headers = []; sources = []; other_includes = [] }) in
    unique_dirs resolve [] (
      map (drop_end 1) c.headers
      ++ include_base_dirs exists (map (λ p. (p, includes_of p)) (c.sources ++ c.headers))
          (c.headers ++ c.sources ++ c.other_includes))
