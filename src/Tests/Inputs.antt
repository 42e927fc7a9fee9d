-- ===== src/Tests/Inputs.antt =====
-- Inputs of src/svhier/cli.py, and the libraries of
-- plugins/svhier-ghdl/src/svhier_ghdl/__init__.py.
use svhier.Base.{ℕ, String, true, false, some, List, [], ◌∷◌, ◌++◌, ◌≡◌, ◌<◌, refl, arith, map}
use svhier.Base.{string_eq, nat_eq, list_eq, option_eq}
use svhier.Base.Dict.{Dict, lookup, insert, update, set_default, keys, values, get_or}
use svhier.Base.Lists.{filter, flat_map, any, length}
use svhier.Base.Text.{lower, lower_char, sort, insert_sorted, string_le}
use svhier.Libsearch.Paths.{FilePath, path_of, split_parts, cut, is_rooted, last_part, cut_last_dot}
use svhier.Cli.{Reader, suffix_of, first_reader, reader_of, route_loop, route_files}
use svhier.Cli.Routed.{Hands, route_loop-Hands}
use svhier.Ghdl.Libraries.{
  Scan, pick_named, find_placed, pick_near, pick_local, place_ref, place_refs, place_files, share,
  spread_unit, spread_units, spread_files, spread_local, define_units, define_files,
  assign_libraries,
}
use svhier.Ghdl.Libraries.Spread.{assign_libraries_total}

abbrev slang : Reader
slang = record {
  key = 0;
  suffixes = ".sv" ∷ ".v" ∷ [];
  catch_all = true;
  has_extra_inputs = false;
  has_library = false;
}

abbrev ghdl : Reader
ghdl = record {
  key = 1;
  suffixes = ".vhd" ∷ [];
  catch_all = false;
  has_extra_inputs = false;
  has_library = true;
}

-- No frontend reads `.vhdl`, which is known, so it is skipped; an unknown suffix goes to the first.
routed_files :
    route_files (slang ∷ ghdl ∷ []) ("a.SV" ∷ "b.vhdl" ∷ "c.txt" ∷ [])
    ≡ (slang, "a.SV" ∷ "c.txt" ∷ []) ∷ (ghdl, []) ∷ []
unfolding route_files route_loop reader_of first_reader suffix_of cut_last_dot last_part path_of
    split_parts cut is_rooted lower lower_char filter any lookup update string_eq nat_eq list_eq
routed_files = refl

route_loop-Hands_example :
    (got : List String) × (get_or {K = ℕ} 0 []
        (route_loop (slang ∷ ghdl ∷ []) ("a.sv" ∷ "b.vhd" ∷ "notes.txt" ∷ []) [])
      ≡ get_or {K = ℕ} 0 [] [] ++ got)
    × Hands (slang ∷ ghdl ∷ []) 0 ("a.sv" ∷ "b.vhd" ∷ "notes.txt" ∷ []) got
route_loop-Hands_example =
    route_loop-Hands (slang ∷ ghdl ∷ []) ("a.sv" ∷ "b.vhd" ∷ "notes.txt" ∷ []) [] 0

abbrev resolve : FilePath → FilePath
resolve p = "/" ∷ p

abbrev given : List FilePath
given = ("a.sv" ∷ []) ∷ ("b.sv" ∷ []) ∷ ("a.sv" ∷ []) ∷ []

abbrev no_scan : Scan
no_scan = record { units = []; arch_of = []; refs = []; libs = [] }

abbrev scan : Dict String Scan
scan =
    (
      "top.vhd",
      record no_scan { units = "Top" ∷ []; refs = ("dsp", "FIR") ∷ []; libs = "dsp" ∷ [] },
    )
    ∷ ("fir.vhd", record no_scan { units = "fir" ∷ [] })
    ∷ ("rtl.vhd", record no_scan { arch_of = "fir" ∷ [] })
    ∷ []

-- The architecture follows its entity into the library that the reference names.
libraries :
    assign_libraries 4 scan "work"
    ≡ some (("top.vhd", "work") ∷ ("fir.vhd", "dsp") ∷ ("rtl.vhd", "dsp") ∷ [], [])
unfolding assign_libraries spread_local spread_files spread_units spread_unit share pick_local
    pick_near find_placed place_files place_refs place_ref pick_named define_files define_units
    lower lower_char sort insert_sorted filter flat_map lookup insert update set_default keys values
    string_eq list_eq option_eq
libraries = refl

few_files : length (keys scan) < 4
unfolding keys
few_files = omega arith

assign_libraries_total_example :
    let paths = sort string_le (keys scan) in
    let definers = define_files scan paths [] in
    let (placed, notes) = place_files scan definers paths ([], []) in
    (spread : Dict String String) × (assign_libraries 4 scan "work"
      ≡ some (map (λ path. (path, get_or path "work" spread)) (keys scan), notes))
    × ((f library : String) → lookup f placed ≡ some library → lookup f spread ≡ some library)
    × ((spread_files scan definers paths spread).0 ≡ false)
assign_libraries_total_example = assign_libraries_total 4 scan "work" few_files
