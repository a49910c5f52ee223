-- ===== src/Snapshot.antt =====
-- open-webbridge-extension/src/tools/snapshot.js: the outline of a page's accessibility tree.
--
-- The nodes come from the debugger. `walk` is by recursion on fuel (`Snapshot.Fuel`).
pub mod Bounds
pub mod Sources
pub mod Fuel
mod Examples
use open_webbridge.Base.{
  ℕ, zero, suc, ◌+◌, Text, lit, text_eq, text_keys, is_empty, is_space, trim, take, decimal, Table,
  lookup, insert, contains, any, filter, leb, is_some, Bool, true, false, not, ◌&&◌, ◌||◌, Option,
  none, some, List, [], ◌∷◌, ◌++◌, if◌then◌else◌,
}

-- The fields as text, empty where they are missing.
pub record Node : Type 0 where
  pub node_id : Text
  pub parent_id : Text
  pub role : Text
  pub name : Text
  pub value : Text
  pub ignored : Bool
  pub backend_id : Option ℕ
  pub child_ids : List Text

pub record Outline : Type 0 where
  pub lines : List Text
  pub ref_map : Table Text ℕ
  pub ref_counter : ℕ
  pub emitted : ℕ
  pub truncated : Bool

abbrev pub max_nodes : ℕ
max_nodes = 4000

abbrev pub interactive : List Text
interactive =
    lit "button"
    ∷ lit "link"
    ∷ lit "textbox"
    ∷ lit "searchbox"
    ∷ lit "checkbox"
    ∷ lit "radio"
    ∷ lit "combobox"
    ∷ lit "listbox"
    ∷ lit "menuitem"
    ∷ lit "menuitemcheckbox"
    ∷ lit "menuitemradio"
    ∷ lit "tab"
    ∷ lit "switch"
    ∷ lit "slider"
    ∷ lit "spinbutton"
    ∷ lit "option"
    ∷ lit "textarea"
    ∷ lit "treeitem"
    ∷ []

abbrev pub skip_roles : List Text
skip_roles = lit "none" ∷ lit "generic" ∷ lit "presentation" ∷ lit "InlineTextBox" ∷ []

-- `.replace(/\s+/g, " ")`
unfoldable pub collapse : Bool → Text → Text
collapse in_space [] = []
collapse in_space (c ∷ cs) =
    let inside = collapse true cs in
    let outside = collapse false cs in
    if is_space c then (if in_space then inside else lit " " ++ inside) else c ∷ outside

unfoldable pub tidy : ℕ → Text → Text
unfolding collapse
tidy n t = take n (collapse false (trim t))

unfoldable pub is_interactive : Node → Bool
is_interactive n = contains n.role interactive

unfoldable pub is_emitted : Node → Bool
unfolding tidy is_interactive
is_emitted n =
    not (n.ignored || contains n.role skip_roles)
    && (not (is_empty (tidy 120 n.name)) || not (is_empty (tidy 80 n.value)) || is_interactive n)

-- The element that gets a reference, if the node has one.
unfoldable pub referable : Node → Option ℕ
unfolding tidy is_interactive
referable n = if is_interactive n || not (is_empty (tidy 120 n.name)) then n.backend_id else none

unfoldable pub indent : ℕ → Text
indent zero = []
indent (suc d) = lit "  " ++ indent d

unfoldable pub line_of : Node → ℕ → Text → Text
unfolding tidy indent
line_of n depth ref =
    let name = tidy 120 n.name in
    let value = tidy 80 n.value in
    indent depth
    ++ lit "- "
    ++ (if is_empty n.role then lit "node" else n.role)
    ++ (if is_empty name then [] else lit " \"" ++ name ++ lit "\"")
    ++ (if is_empty value then [] else lit " value=\"" ++ value ++ lit "\"")
    ++ ref

unfoldable pub emit_as : Option ℕ → Node → ℕ → Outline → Outline
unfolding line_of
emit_as none n depth o = record o {
  lines = o.lines ++ line_of n depth [] ∷ [];
  emitted = suc o.emitted;
}
emit_as (some backend) n depth o =
    let number = decimal (suc o.ref_counter) in
    record o {
      lines = o.lines ++ line_of n depth (lit " @e" ++ number) ∷ [];
      emitted = suc o.emitted;
      ref_counter = suc o.ref_counter;
      ref_map = insert number backend o.ref_map;
    }

unfoldable pub emit : Node → ℕ → Outline → Outline
unfolding referable emit_as
emit n depth o = emit_as (referable n) n depth o

-- The children that are among the nodes, one after the other.
unfoldable pub each : (Node → Outline → Outline) → Table Text Node → List Text → Outline → Outline
each visit by_id [] o = o
each visit by_id (c ∷ cs) o =
    each visit by_id cs (elim (lookup c by_id) [ none ↦ o | some n ↦ visit n o ])

unfoldable pub walk : ℕ → Table Text Node → ℕ → Node → Outline → Outline
unfolding emit each is_emitted
walk zero by_id depth n o = o
walk (suc fuel) by_id depth n o =
    if leb max_nodes o.emitted
    then record o { truncated = true }
    else if is_emitted n
    then each (walk fuel by_id (suc depth)) by_id n.child_ids (emit n depth o)
    else each (walk fuel by_id depth) by_id n.child_ids o

unfoldable pub index : Table Text Node → List Node → Table Text Node
index by_id [] = by_id
index by_id (n ∷ ns) = index (insert n.node_id n by_id) ns

unfoldable pub is_root : Table Text Node → Node → Bool
is_root by_id n = is_empty n.parent_id || not (is_some (lookup n.parent_id by_id))

unfoldable pub walk_roots : ℕ → Table Text Node → List Node → Outline → Outline
unfolding walk
walk_roots fuel by_id [] o = o
walk_roots fuel by_id (n ∷ ns) o = walk_roots fuel by_id ns (walk fuel by_id 0 n o)

abbrev pub blank : Outline
blank = record { lines = []; ref_map = []; ref_counter = 0; emitted = 0; truncated = false }

unfoldable pub snapshot : ℕ → List Node → Outline
unfolding index is_root walk_roots
snapshot fuel nodes =
    let by_id = index [] nodes in walk_roots fuel by_id (filter (is_root by_id) nodes) blank
