-- ===== src/Frontends.antt =====
-- `_Stitcher` and `stitch` of src/svhier/frontends.py. The frontends are plugins: `Plugins` is what
-- the module asks of them, over the state of the world that they share, in which the lists of files
-- are too. A frontend's `id` is its `key`.
pub mod Merge
pub mod Frozen
pub mod Routed
pub mod Current
pub mod Settled
pub mod Spelling
use svhier.Base.{
  ℕ, zero, suc, String, ◌<>◌, Bool, true, false, not, ◌||◌, ◌&&◌, Option, none, some, List, [], ◌∷◌,
  ◌++◌, map, foldl, ◌≡◌, ◌≢◌, ◌↔◌, ◌⊎◌, inl, inr, refl, arith,
}
use svhier.Base.{
  Eq, String-discrete, ◌==◌, contains, string_eq, nat_eq, list_eq, pair_eq, if◌then◌else◌,
}
use svhier.Base.Dict.{Dict, keys, lookup, insert, set_default, update, get_or, values}
use svhier.Base.Lists.{filter, any, flat_map, add_unique}
use svhier.Base.Text.{lower, sort, pair_le}
use svhier.Result.{
  ParamSig, Inst, Definition, FileEntry, Diagnostic, Fragment, empty_fragment, UnitUse, Missing,
  missing_kinds,
}

pub record Root : Type 0 where
  pub name : String
  pub generics : List (String × String)
  pub requested : Bool

-- `requested` is compared too.
unfoldable pub root_eq : Root → Root → Bool
unfolding string_eq list_eq pair_eq
root_eq a b =
    a.name == b.name
    && a.generics == b.generics
    && (if a.requested then b.requested else not b.requested)

-- `==` on lists of roots
unfoldable pub roots_eq : List Root → List Root → Bool
unfolding root_eq
roots_eq [] [] = true
roots_eq [] (_ ∷ _) = false
roots_eq (_ ∷ _) [] = false
roots_eq (a ∷ rest) (b ∷ more) = root_eq a b && roots_eq rest more

pub record Request : Type 0 where
  pub auto : Bool
  pub roots : List Root
  pub defined_elsewhere : List String

pub record Frontend : Type 0 where
  pub key : ℕ
  pub name : String
  pub catch_all : Bool

-- The methods that the module calls; each may change the world.
pub record Plugins (W : Type 0) : Type 0 where
  pub units : ℕ → W → Dict String String × W
  pub provide : ℕ → String → W → Bool × W
  pub elaborate : ℕ → Request → W → Fragment × W
  pub drop_resolved : ℕ → Fragment → List String → Fragment

-- `_Stitcher`. `requests`, `units` and, once a frontend has run, `fragments` have every key, so the
-- defaults with which they are read never serve.
pub record Stitcher (W : Type 0) : Type 0 where
  pub world : W
  pub units : Dict ℕ (Dict String String)
  pub requests : Dict ℕ Request
  pub fragments : Dict ℕ Fragment
  pub done : Dict ℕ (List Root)
  pub notes : List String

abbrev pub no_request : Request
no_request = record { auto = false; roots = []; defined_elsewhere = [] }

abbrev pub requested_root : String → Root
requested_root top = record { name = top; generics = []; requested = true }

-- `root` is among the roots but for `requested`, and up to the case of its name.
abbrev pub is_same_root : Root → Root → Bool
is_same_root root r = lower r.name == lower root.name && r.generics == root.generics

abbrev pub unpassed : String → String → Frontend → String
unpassed name param other =
    name <> ": can't pass parameter " <> param <> " to " <> other.name
    <> ", so its default was used"

abbrev pub root_of : String → UnitUse → Root
root_of name found = record {
  name = name;
  generics = sort pair_le found.generics;
  requested = false;
}

-- The first of `inputs` that takes what is unknown, or else `inputs[0]`.
unfoldable pub choose_catch_all : Frontend → List Frontend → Frontend
choose_catch_all first [] = first
choose_catch_all first (fe ∷ fes) =
    let rest = choose_catch_all first fes in if fe.catch_all then fe else rest

abbrev pub owner_key : Option Frontend → Frontend → ℕ
owner_key none catch_all = catch_all.key
owner_key (some owner) catch_all = owner.key

abbrev pub Units : Type 0
Units = Dict ℕ (Dict String String)

abbrev pub units_of : ℕ → Units → Dict String String
units_of key units = get_or key [] units

-- `name.lower() in self.units[id(other)]`
abbrev pub is_unit : String → ℕ → Units → Bool
is_unit name key units = contains (keys (units_of key units)) (lower name)

-- The first loop of `_definer`.
unfoldable pub find_unit : String → List Frontend → Units → Option Frontend
find_unit name [] units = none
find_unit name (other ∷ others) units =
    let rest = find_unit name others units in
    if is_unit name other.key units then some other else rest

module _ {W : Type 0} where
  abbrev pub request_of : ℕ → Stitcher W → Request
  request_of key st = get_or key no_request st.requests

  abbrev pub fragment_of : ℕ → Stitcher W → Fragment
  fragment_of key st = get_or key empty_fragment st.fragments

  abbrev pub add_root : ℕ → Root → Stitcher W → Stitcher W
  add_root key root st =
      let request = request_of key st in
      record st {
        requests = insert key (record request { roots = request.roots ++ root ∷ [] }) st.requests;
      }

  -- One use of an unresolved name, and whether it gave a new root.
  unfoldable pub route_use : String → Frontend → UnitUse → Stitcher W → Bool × Stitcher W
  route_use name other found st =
      let noted = record st {
        notes = add_unique st.notes (map (λ param. unpassed name param other) found.unresolved);
      } in
      let root = root_of name found in
      if any (is_same_root root) (request_of other.key st).roots
      then (false, noted)
      else (true, add_root other.key root noted)

  unfoldable pub route_uses : String → Frontend → List UnitUse → Stitcher W → Bool × Stitcher W
  unfolding route_use
  route_uses name other [] st = (false, st)
  route_uses name other (found ∷ uses) st =
      let (here, st1) = route_use name other found st in
      let (later, st2) = route_uses name other uses st1 in (here || later, st2)

-- `uses or [{"generics": {}, "unresolved": []}]`
abbrev pub uses_or_plain : List UnitUse → List UnitUse
uses_or_plain [] = record { generics = []; unresolved = [] } ∷ []
uses_or_plain (found ∷ uses) = found ∷ uses

-- `source` is `none` for the tops.
abbrev pub is_other : Option ℕ → Frontend → Bool
is_other none fe = true
is_other (some key) fe = not (fe.key == key)

module _ {W : Type 0} (plugins : Plugins W) (inputs : List Frontend) where
  -- `self.units[id(other)] = other.units(files)`
  abbrev pub reread : Frontend → W → Stitcher W → Stitcher W
  reread other world st =
      let (units, w) = plugins.units other.key world in
      record st { world = w; units = insert other.key units st.units }

  -- The second loop of `_definer`.
  unfoldable pub find_provider : String → List Frontend → Stitcher W → Option Frontend × Stitcher W
  find_provider name [] st = (none, st)
  find_provider name (other ∷ others) st =
      let (found, w1) = plugins.provide other.key name st.world in
      elim found [
        | false ↦ find_provider name others (record st { world = w1 })
        | true ↦
            let st2 = reread other w1 st in
            elim (is_unit name other.key st2.units) [
              | true ↦ (some other, st2)
              | false ↦ find_provider name others st2
            ]
      ]

  unfoldable pub definer : String → Option ℕ → Stitcher W → Option Frontend × Stitcher W
  unfolding find_unit find_provider
  definer name source st =
      let others = filter (is_other source) inputs in
      elim (find_unit name others st.units) [
        | some other ↦ (some other, st)
        | none ↦ find_provider name others st
      ]

  -- `_route`, over the unresolved names.
  unfoldable pub route : ℕ → Dict String (List UnitUse) → Stitcher W → Bool × Stitcher W
  unfolding definer route_uses
  route source [] st = (false, st)
  route source ((name, uses) ∷ unresolved) st =
      let (other, st1) = definer name (some source) st in
      elim other [
        | none ↦ route source unresolved st1
        | some fe ↦
            let (here, st2) = route_uses name fe (uses_or_plain uses) st1 in
            let (later, st3) = route source unresolved st2 in (here || later, st3)
      ]

  -- The first loop of a round: frontends whose roots have changed elaborate them.
  abbrev pub defined_elsewhere : ℕ → Stitcher W → List String
  defined_elsewhere key st = add_unique [] (
      flat_map (λ (fe : Frontend). keys (units_of fe.key st.units))
        (filter (is_other (some key)) inputs))

  unfoldable pub elaborate_one : Frontend → Stitcher W → Stitcher W
  unfolding roots_eq
  elaborate_one fe st =
      let request = request_of fe.key st in
      let asked = record request { defined_elsewhere = defined_elsewhere fe.key st } in
      let (fragment, w) = plugins.elaborate fe.key asked st.world in
      let again = record st {
        world = w;
        done = insert fe.key request.roots st.done;
        requests = insert fe.key asked st.requests;
        fragments = insert fe.key fragment st.fragments;
      } in
      elim (lookup fe.key st.done) [
        | none ↦ again
        | some roots ↦ if roots_eq roots request.roots then st else again
      ]

  unfoldable pub elaborate_all : List Frontend → Stitcher W → Stitcher W
  unfolding elaborate_one
  elaborate_all [] st = st
  elaborate_all (fe ∷ fes) st = elaborate_all fes (elaborate_one fe st)

  -- The second loop of a round.
  unfoldable pub route_all : List Frontend → Stitcher W → Bool × Stitcher W
  unfolding route
  route_all [] st = (false, st)
  route_all (fe ∷ fes) st =
      let (here, st1) = route fe.key (fragment_of fe.key st).unresolved st in
      let (later, st2) = route_all fes st1 in (here || later, st2)

  -- The rounds, and whether the last one changed nothing.
  unfoldable pub rounds : ℕ → Stitcher W → Bool × Stitcher W
  unfolding elaborate_all route_all
  rounds zero st = (false, st)
  rounds (suc left) st =
      let (changed, st1) = route_all inputs (elaborate_all inputs st) in
      elim changed [ true ↦ rounds left st1 | false ↦ (true, st1) ]

  abbrev pub start : List String → W → Stitcher W
  start tops world = record {
    world = world;
    units = [];
    requests = map (λ (fe : Frontend). (fe.key, record no_request { auto = tops == [] })) inputs;
    fragments = [];
    done = [];
    notes = [];
  }

  unfoldable pub read_units : List Frontend → Stitcher W → Stitcher W
  read_units [] st = st
  read_units (fe ∷ fes) st = read_units fes (reread fe st.world st)

  -- Each top becomes a root of the frontend that defines it, or else of `catch_all`.
  unfoldable pub assign_tops : Frontend → List String → Stitcher W → Stitcher W
  unfolding definer
  assign_tops catch_all [] st = st
  assign_tops catch_all (top ∷ tops) st =
      let (owner, st1) = definer top none st in
      assign_tops catch_all tops (add_root (owner_key owner catch_all) (requested_root top) st1)

  -- `_Stitcher.__init__`, where `first` is `inputs[0][0]`
  unfoldable pub init : Frontend → List String → W → Stitcher W
  unfolding read_units assign_tops choose_catch_all
  init first tops world =
      assign_tops (choose_catch_all first inputs) tops (read_units inputs (start tops world))
