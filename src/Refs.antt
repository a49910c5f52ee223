-- ===== src/Refs.antt =====
-- open-webbridge-extension/src/refs.js: the elements that a snapshot of a tab named, by the
-- number of the reference, each with the id that the debugger knows it by.
use open_webbridge.Base.{
  ℕ, Text, text_keys, Table, lookup, insert, erase, Option, none, some, lit, starts_with, drop,
  ◌||◌, if◌then◌else◌,
}
use open_webbridge.Cdp.{Target, target_keys}

-- By the tab, or by the frame that the snapshot was taken of.
abbrev pub Refs : Type 0
Refs = Table Target (Table Text ℕ)

unfoldable pub set_refs : Target → Table Text ℕ → Refs → Refs
set_refs t map refs = insert t map refs

-- The number of a reference: a leading `e`, `E`, `@e` or `@E` is dropped.
unfoldable pub ref_number : Text → Text
ref_number ref =
    if starts_with ref (lit "e") || starts_with ref (lit "E")
    then drop 1 ref
    else if starts_with ref (lit "@e") || starts_with ref (lit "@E")
    then drop 2 ref
    else ref

unfoldable pub get_backend_id : Target → Text → Refs → Option ℕ
unfolding ref_number
get_backend_id t ref refs = elim (lookup t refs) [
  | none ↦ none
  | some m ↦ lookup (ref_number ref) m
]

unfoldable pub clear_refs : Target → Refs → Refs
clear_refs t refs = erase t refs
