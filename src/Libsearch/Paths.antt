-- ===== src/Libsearch/Paths.antt =====
-- The parts of pathlib that src/svhier/libsearch.py uses, for POSIX paths: a path is its `parts`, of
-- which the first is `/` where the path is absolute.
use Prim.Native.Char.{code}
use svhier.Base.{ℕ, String, ◌<>◌, Bool, false, not, ◌||◌, Option, none, some, List, [], ◌∷◌, ◌++◌}
use svhier.Base.{◌==◌, string_eq, nat_eq, list_eq, if◌then◌else◌}
use svhier.Base.{◌≡◌, refl, ap, inl, inr, Bool-cases}
use svhier.Base.Lists.{length, filter}
use svhier.Base.Text.{leb}

abbrev pub FilePath : Type 0
FilePath = List String

-- The text between the separators.
unfoldable pub cut : String → String × List String
cut String.[] = ("", [])
cut (String.◌∷◌ c s) =
    let (first, rest) = cut s in
    if code c == 47 then ("", first ∷ rest) else (String.◌∷◌ c first, rest)

unfoldable pub split_parts : String → List String
unfolding cut
split_parts s =
    let (first, rest) = cut s in filter (λ part. not (part == "" || part == ".")) (first ∷ rest)

-- `s.startswith("/")`
unfoldable pub is_rooted : String → Bool
is_rooted String.[] = false
is_rooted (String.◌∷◌ c s) = code c == 47

-- `Path(s).parts`
unfoldable pub path_of : String → FilePath
unfolding split_parts is_rooted
path_of s = if is_rooted s then "/" ∷ split_parts s else split_parts s

unfoldable pub join_parts : List String → String
join_parts [] = ""
join_parts (part ∷ []) = part
join_parts (part ∷ next ∷ parts) = part <> "/" <> join_parts (next ∷ parts)

-- `str(p)`
unfoldable pub path_text : FilePath → String
unfolding join_parts
path_text [] = "."
path_text (first ∷ parts) =
    if first == "/" then "/" <> join_parts parts else join_parts (first ∷ parts)

-- `p.is_absolute()`
unfoldable pub is_absolute : FilePath → Bool
is_absolute [] = false
is_absolute (first ∷ parts) = first == "/"

-- `parts[-1]`, where there are parts.
unfoldable pub last_part : FilePath → String
last_part [] = ""
last_part (part ∷ []) = part
last_part (_ ∷ next ∷ parts) = last_part (next ∷ parts)

-- What stands before and after the last dot.
unfoldable pub cut_last_dot : String → Option (String × String)
cut_last_dot String.[] = none
cut_last_dot (String.◌∷◌ c s) = elim (cut_last_dot s) [
  | some (before, after) ↦ some (String.◌∷◌ c before, after)
  | none ↦ if code c == 46 then some ("", s) else none
]

-- `p.stem`
unfoldable pub stem : FilePath → String
unfolding cut_last_dot last_part
stem p = elim (cut_last_dot (last_part p)) [
  | none ↦ last_part p
  | some (before, after) ↦ if before == "" || after == "" then last_part p else before
]

-- `ps[:-n]` for a positive `n`, which is `p.parents[n - 1]` where the path is longer.
unfoldable pub drop_end : ℕ → FilePath → FilePath
drop_end n [] = []
drop_end n (part ∷ parts) =
    let rest = drop_end n parts in if leb (length (part ∷ parts)) n then [] else part ∷ rest

-- `ps[-n:]` for a positive `n`
unfoldable pub take_end : ℕ → FilePath → FilePath
take_end n [] = []
take_end n (part ∷ parts) =
    let rest = take_end n parts in if leb (length (part ∷ parts)) n then part ∷ parts else rest

-- The two pieces of a path, put together again.
pub drop_end-take_end : (n : ℕ) (p : FilePath) → drop_end n p ++ take_end n p ≡ p
unfolding drop_end take_end
drop_end-take_end n [] = refl
drop_end-take_end n (part ∷ parts) = elim (Bool-cases (leb (length (part ∷ parts)) n)) [
  | inl all ↦ rw (all, drop_end, take_end) refl
  | inr more ↦ rw (more, drop_end, take_end) (ap (part ∷◌) (drop_end-take_end n parts))
]
