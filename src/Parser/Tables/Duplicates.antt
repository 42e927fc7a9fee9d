-- ===== src/Parser/Tables/Duplicates.antt =====
-- Which names `_find_duplicates` (src/svhier/parser.py) reports.
use svhier.Base.{String, Bool, not, List, map}
use svhier.Base.{◌==◌, contains, string_eq, pair_eq}
use svhier.Base.Dict.{Dict}
use svhier.Base.Lists.{length, filter, dedupe}
use svhier.Base.Text.{leb}
use svhier.Result.{Duplicate}
use svhier.Parser.Tables.{Tables, Item, Loaded, defined_names}

abbrev pub is_definer : Tables → Item → String → Bool
is_definer tables item c = contains (defined_names tables c) item

-- The canonical files that define an item, each once, as they come.
abbrev pub definers : Tables → List Loaded → Item → List String
definers tables files item =
    filter (is_definer tables item) (dedupe (map (λ (f : Loaded). f.1) files))

abbrev pub is_report : Item → Duplicate → Bool
is_report item d = item == (d.kind, d.name)

abbrev pub is_many : List String → Bool
is_many files = not (leb (length files) 1)
