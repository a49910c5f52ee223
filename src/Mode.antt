-- ===== src/Mode.antt =====
-- open-webbridge-extension/src/annotations/mode.js: which tabs are in annotation mode, and the
-- frames that have announced themselves.
--
-- The answers of the browser are arguments: whether storage can be read (`readable`) or written
-- (`written`), the address of a tab (`none` if it is gone), and whether the script can be injected.
-- `told` lists the tabs that were told to switch the mode on or off.
pub mod Saved
pub mod Woken
pub mod Replayed
mod Examples
use open_webbridge.Base.{
  ℕ, Text, lit, number_keys, to_lower, starts_with, any, Table, lookup, insert, erase, contains,
  add, delete, is_some, Bool, true, false, not, ◌&&◌, ◌||◌, Option, none, some, or_else, List, [],
  ◌∷◌, ◌++◌, Result, ok, err, if◌then◌else◌,
}

pub record Mode : Type 0 where
  pub active : List ℕ
  pub frames : Table ℕ (Table ℕ Text)
  pub restored : Bool
  pub saved : Option (List ℕ)
  pub told : List (ℕ × Bool)

-- A service worker that starts: its memory is empty, the storage is what it was.
abbrev pub wake : Mode → Mode
wake s = record s { active = []; frames = []; restored = false }

-- Each saved tab that is still there.
unfoldable pub restore_tabs : (ℕ → Option Text) → List ℕ → List ℕ → List ℕ
restore_tabs tabs [] active = active
restore_tabs tabs (t ∷ ts) active =
    restore_tabs tabs ts (if is_some (tabs t) then add t active else active)

unfoldable pub restore : Bool → (ℕ → Option Text) → Mode → Mode
unfolding restore_tabs
restore readable tabs s =
    let marked : Mode = record s { restored = true } in
    if s.restored
    then s
    else if readable
    then record marked { active = restore_tabs tabs (or_else s.saved []) s.active }
    else marked

unfoldable pub persist_modes : Bool → Mode → Mode
persist_modes written s = if written then record s { saved = some s.active } else s

unfoldable pub is_active : Bool → (ℕ → Option Text) → ℕ → Mode → Bool × Mode
unfolding restore
is_active readable tabs t s = let r = restore readable tabs s in (contains t r.active, r)

-- The tabs that are gone leave the set.
unfoldable pub present : (ℕ → Option Text) → List ℕ → List ℕ → List ℕ × List ℕ
present tabs [] active = ([], active)
present tabs (t ∷ ts) active =
    let rest = present tabs ts (if is_some (tabs t) then active else delete t active) in
    if is_some (tabs t) then (t ∷ rest.0, rest.1) else rest

unfoldable pub active_tabs : Bool → (ℕ → Option Text) → Mode → List ℕ × Mode
unfolding restore present
active_tabs readable tabs s =
    let r = restore readable tabs s in
    let found = present tabs r.active r.active in (found.0, record r { active = found.1 })

-- The pages of the browser itself.
abbrev pub internal : List Text
internal =
    lit "chrome:"
    ∷ lit "edge:"
    ∷ lit "about:"
    ∷ lit "devtools:"
    ∷ lit "chrome-extension:"
    ∷ lit "view-source:"
    ∷ lit "https://chromewebstore.google.com"
    ∷ []

unfoldable pub is_annotatable : Text → Bool
is_annotatable url = not (any (starts_with (to_lower url)) internal)

abbrev pub tell : ℕ → Bool → Mode → Mode
tell t on s = record s { told = s.told ++ (t, on) ∷ [] }

pub data StartError : Type 0 where
  no_tab cannot_annotate cannot_inject : StartError

-- The flag is set and saved before the script is injected, and stays if that fails.
unfoldable pub start :
    Bool → (ℕ → Option Text) → Bool → Bool → ℕ → Mode → Result StartError (Unit {0}) × Mode
unfolding restore persist_modes is_annotatable
start readable tabs written injected t s =
    let r = restore readable tabs s in
    let on = persist_modes written (record r { active = add t r.active }) in
    elim (tabs t) [
      | none ↦ (err no_tab, r)
      | some url ↦
          if not (is_annotatable url)
          then (err cannot_annotate, r)
          else if injected
          then (ok tt, tell t true on)
          else (err cannot_inject, on)
    ]

unfoldable pub stop : Bool → (ℕ → Option Text) → Bool → ℕ → Mode → Bool × Mode
unfolding restore persist_modes
stop readable tabs written t s =
    let r = restore readable tabs s in
    (
      contains t r.active,
      tell t false (
          persist_modes written
            (record r { active = delete t r.active; frames = erase t r.frames })),
    )

unfoldable pub stop_each : Bool → (ℕ → Option Text) → Bool → List ℕ → Mode → Mode
unfolding stop
stop_each readable tabs written [] s = s
stop_each readable tabs written (t ∷ ts) s =
    stop_each readable tabs written ts (stop readable tabs written t s).1

unfoldable pub stop_all : Bool → (ℕ → Option Text) → Bool → Mode → Mode
unfolding restore stop_each
stop_all readable tabs written s =
    let r = restore readable tabs s in stop_each readable tabs written r.active r

unfoldable pub handle_tab_removed : Bool → ℕ → Mode → Mode
unfolding persist_modes
handle_tab_removed written t s =
    persist_modes written (record s { active = delete t s.active; frames = erase t s.frames })

-- A page that is complete again gets the overlay back.
unfoldable pub handle_tab_updated : Bool → Bool → (ℕ → Option Text) → Bool → ℕ → Mode → Mode
unfolding restore
handle_tab_updated complete readable tabs injected t s =
    let r = restore readable tabs s in
    let reset : Mode = record r { frames = erase t r.frames } in
    if not complete
    then s
    else if not (contains t r.active)
    then r
    else if injected
    then tell t true reset
    else reset

unfoldable pub remember_frame : ℕ → ℕ → Text → Mode → Mode
remember_frame t frame url s = record s {
  frames = insert t (insert frame url (or_else (lookup t s.frames) [])) s.frames;
}
