-- ===== src/Tests/Files.antt =====
-- `compute_filelist` on concrete results, src/svhier/filelist.py.
use mathlib.Core.List.{Memᴰ}
use mathlib.Core.List.Memᴰ
use text.Mathlib.TextEquality.{eq_iff}
use svhier.Base.{ℕ, String, true, false, none, List, [], ◌∷◌, ◌≡◌, refl, ap}
use svhier.Base.{arith, contains, string_eq, pair_eq, if◌then◌else◌, ◌==◌}
use svhier.Base.Dict.{lookup, insert, keys}
use svhier.Base.Lists.{dedupe, Nodup, filter, flat_map}
use svhier.Result.{Inst, Definition, FileEntry}
use svhier.Filelist.{
  file_deps, resolve, index_files, index_names, compute_filelist, order_files, all_deps, edges,
  file_names, keep_needed, mod_names, pkg_names,
}
use svhier.Filelist.Order.{
  OnlySupplier, deps_of, Before, instantiates, refers, declares, Depends, directly, through,
  Acyclic,
}
use svhier.Filelist.Tables.{Supplies}
use svhier.Filelist.Correct.{compute_filelist-Before, compute_filelist_cycle}
use svhier.Tests.Kahn.{kahn, kahn-IsTopologicalSort}

abbrev pub inst : String → String → Inst
inst m name = record { mod_name = m; inst_name = name; variant = none }

abbrev pub module_of : String → List String → List Inst → Definition
module_of name imports insts = record {
  mod_name = name;
  pkg_imports = imports;
  insts = insts;
  variants = [];
  top_variant = none;
}

abbrev pub entry : String → List String → List Definition → FileEntry
entry name pkgs defs = record {
  file_name = name;
  library = none;
  pkgs = pkgs;
  ifaces = [];
  shadowed = [];
  refs = [];
  depends_on = [];
  defs = defs;
}

abbrev top_file : FileEntry
top_file = entry "top.sv" [] (module_of "top" ("pkg" ∷ []) (inst "leaf" "u_leaf" ∷ []) ∷ [])

abbrev leaf_file : FileEntry
leaf_file = entry "leaf.sv" [] (module_of "leaf" ("pkg" ∷ []) [] ∷ [])

abbrev pkg_file : FileEntry
pkg_file = entry "pkg.sv" ("pkg" ∷ []) []

abbrev design : List FileEntry
design = top_file ∷ leaf_file ∷ pkg_file ∷ []

design_order : compute_filelist kahn design none ≡ "pkg.sv" ∷ "leaf.sv" ∷ "top.sv" ∷ []
unfolding compute_filelist order_files all_deps keep_needed edges keys lookup insert flat_map kahn
    string_eq pair_eq filter
design_order = refl

top_deps : deps_of design top_file ≡ "leaf.sv" ∷ "pkg.sv" ∷ []
unfolding file_deps resolve index_files index_names flat_map dedupe string_eq filter lookup insert
top_deps = refl

leaf_deps : deps_of design leaf_file ≡ "pkg.sv" ∷ []
unfolding file_deps resolve index_files index_names flat_map dedupe string_eq filter lookup insert
leaf_deps = refl

pkg_deps : deps_of design pkg_file ≡ []
unfolding file_deps resolve index_files index_names flat_map dedupe string_eq filter lookup insert
pkg_deps = refl

abbrev level : String → ℕ
level f = if f == "top.sv" then 2 else if f == "leaf.sv" then 1 else 0

levels : (level "top.sv" ≡ 2) × (level "leaf.sv" ≡ 1) × (level "pkg.sv" ≡ 0)
unfolding string_eq
levels = (refl, refl, refl)

design-Acyclic : Acyclic design level
design-Acyclic e d (Memᴰ.head q) h =
    let h' : contains ("leaf.sv" ∷ "pkg.sv" ∷ []) d ≡ true = rw (q, top_deps) at h in
    rw q (ground (arith, levels))
design-Acyclic e d (Memᴰ.tail (Memᴰ.head q)) h =
    let h' : contains ("pkg.sv" ∷ []) d ≡ true = rw (q, leaf_deps) at h in
    rw q (ground (arith, levels))
design-Acyclic e d (Memᴰ.tail (Memᴰ.tail (Memᴰ.head q))) h =
    absurd (cc (ap (λ x. contains x d) pkg_deps))
design-Acyclic e d (Memᴰ.tail (Memᴰ.tail (Memᴰ.tail i))) h = absurd (Memᴰ.not-nil i)

design-Nodup : Nodup (file_names design)
unfolding string_eq
design-Nodup = (refl, (refl, (refl, tt)))

leaf_supplied : OnlySupplier mod_names design leaf_file "leaf"
unfolding string_eq
leaf_supplied = ((refl, refl), only)
  where
    only : (e : FileEntry) → Memᴰ e design → Supplies mod_names e "leaf" → e.file_name ≡ "leaf.sv"
    only e (Memᴰ.head q) s = let wrong : false ≡ true = (rw q at s).0 in absurd (cc)
    only e (Memᴰ.tail (Memᴰ.head q)) s = rw q refl
    only e (Memᴰ.tail (Memᴰ.tail (Memᴰ.head q))) s =
        let wrong : false ≡ true = (rw q at s).0 in absurd (cc)
    only e (Memᴰ.tail (Memᴰ.tail (Memᴰ.tail i))) s = absurd (Memᴰ.not-nil i)

compute_filelist-Before_example : Before "leaf.sv" "top.sv" (compute_filelist kahn design none)
unfolding keep_needed string_eq flat_map
compute_filelist-Before_example =
    compute_filelist-Before kahn kahn-IsTopologicalSort design none level top_file leaf_file
      design-Nodup design-Acyclic (Memᴰ.head refl) (Memᴰ.tail (Memᴰ.head refl))
      (ground (arith, eq_iff "leaf.sv" "top.sv")) (instantiates "leaf" refl leaf_supplied)

-- Three files in a loop: the first refers to a package of the second, and the others declare what they need.
abbrev ping : FileEntry
ping = record (entry "ping.sv" ("ping" ∷ []) []) { refs = "pong" ∷ [] }

abbrev pong : FileEntry
pong = record (entry "pong.sv" ("pong" ∷ []) []) { depends_on = "pang.sv" ∷ [] }

abbrev pang : FileEntry
pang = record (entry "pang.sv" ("pang" ∷ []) []) { depends_on = "ping.sv" ∷ [] }

abbrev loop : List FileEntry
loop = pong ∷ ping ∷ pang ∷ []

pong_supplied : OnlySupplier pkg_names loop pong "pong"
unfolding string_eq
pong_supplied = ((refl, refl), only)
  where
    only : (e : FileEntry) → Memᴰ e loop → Supplies pkg_names e "pong" → e.file_name ≡ "pong.sv"
    only e (Memᴰ.head q) s = rw q refl
    only e (Memᴰ.tail (Memᴰ.head q)) s = let wrong : false ≡ true = (rw q at s).0 in absurd (cc)
    only e (Memᴰ.tail (Memᴰ.tail (Memᴰ.head q))) s =
        let wrong : false ≡ true = (rw q at s).0 in absurd (cc)
    only e (Memᴰ.tail (Memᴰ.tail (Memᴰ.tail i))) s = absurd (Memᴰ.not-nil i)

in_loop : Memᴰ ping loop × Memᴰ pong loop × Memᴰ pang loop
in_loop = (Memᴰ.tail (Memᴰ.head refl), Memᴰ.head refl, Memᴰ.tail (Memᴰ.tail (Memᴰ.head refl)))

ping-Depends : Depends loop ping ping
unfolding string_eq flat_map
ping-Depends =
    let (i, j, k) = in_loop in
    through (i, j, ground (arith, eq_iff "pong.sv" "ping.sv"), refers "pong" refl pong_supplied)
      (through (j, k, ground (arith, eq_iff "pang.sv" "pong.sv"), declares refl)
        (directly (k, i, ground (arith, eq_iff "ping.sv" "pang.sv"), declares refl)))

compute_filelist_cycle_example :
    compute_filelist kahn loop none ≡ "pong.sv" ∷ "ping.sv" ∷ "pang.sv" ∷ []
unfolding keep_needed string_eq flat_map
compute_filelist_cycle_example =
    compute_filelist_cycle kahn kahn-IsTopologicalSort loop none ping (refl, (refl, (refl, tt)))
      ping-Depends
