-- ===== src/Annotate/Tool.antt =====
-- open-webbridge-extension/src/tools/annotate.js: the tool `annotate`, on a tab.
use open_webbridge.Base.{
  not, ℕ, Text, lit, text_eq, to_lower, is_empty, is_some, length, keys, lookup, number_keys, Bool,
  true, false, ◌&&◌, Option, none, some, or_else, List, [], ◌∷◌, Result, ok, err, if◌then◌else◌,
}
use open_webbridge.Annotations.Record.{Annotation}
use open_webbridge.Annotations.Model.{Stats, stats}
use open_webbridge.Annotations.Store.{get}
use open_webbridge.Mode.{Mode, StartError, active_tabs, is_active, stop, stop_all, restore}
use open_webbridge.Annotate.{Desk, World}
use open_webbridge.Annotate.Args.{Args, one_id}
use open_webbridge.Annotate.Pages.{annotations_for_url, start_mode}

pub data ModeError : Type 0 where
  nothing_to_annotate tab_gone missing_id not_injected : ModeError
  tab_not_open : ℕ → ModeError
  not_started : StartError → ModeError
  unknown_mode unknown_id : Text → ModeError

pub data ModeAnswer : Type 0 where
  -- Whether the mode is on, of which tab, its address, and the number of notes on the page.
  switched : Bool → ℕ → Text → ℕ → ModeAnswer
  all_stopped : ℕ → ModeAnswer
  reported : List ℕ → Stats → ModeAnswer

-- `resolveTab`: the tab that is named, else the session's, else the one in front of the user.
unfoldable pub resolve_tab : World → Args → Result ModeError ℕ
resolve_tab w a = elim a.tab_id [
  | some t ↦ if is_some (w.tabs t) then ok t else err (tab_not_open t)
  | none ↦ elim (if a.front then none else w.session_tab) [
    | some t ↦ ok t
    | none ↦ elim w.focused [ some t ↦ ok t | none ↦ err nothing_to_annotate ]
  ]
]

module _ {F : Type 0} (w : World) where
  -- The answer of `start` and `stop`, with `stateOf(tabId)`.
  unfoldable pub state_of : Bool → ℕ → Desk F → Result ModeError ModeAnswer
  unfolding annotations_for_url
  state_of on t d = elim (w.tabs t) [
    | none ↦ err tab_gone
    | some url ↦ ok (switched on t url (length (annotations_for_url w url d.store)))
  ]

  unfoldable pub switch_on : ℕ → Desk F → Result ModeError ModeAnswer × Desk F
  unfolding start_mode state_of
  switch_on t d =
      let r = start_mode w t d in
      elim r.0 [ err why ↦ (err (not_started why), r.1) | ok _ ↦ (state_of true t r.1, r.1) ]

  unfoldable pub switch_off : ℕ → Desk F → Result ModeError ModeAnswer × Desk F
  unfolding stop state_of
  switch_off t d =
      let after : Desk F = record d {
        mode = (stop w.readable w.tabs w.modes_written t d.mode).1;
      } in
      (state_of false t after, after)

  unfoldable pub on_tab : Text → ℕ → Desk F → Result ModeError ModeAnswer × Desk F
  unfolding is_active switch_on switch_off
  on_tab op t d =
      let r = is_active w.readable w.tabs t d.mode in
      let seen : Desk F = record d { mode = r.1 } in
      if text_eq op (lit "start")
      then switch_on t seen
      else if text_eq op (lit "stop")
      then switch_off t seen
      else if text_eq op (lit "toggle")
      then (if r.0 then switch_off t seen else switch_on t seen)
      else (err (unknown_mode op), seen)

  -- `annotate` but for `locate`.
  unfoldable pub annotate : Args → Desk F → Result ModeError ModeAnswer × Desk F
  unfolding resolve_tab on_tab stop_all active_tabs
  annotate a d =
      let op = to_lower (if is_empty a.op then lit "start" else a.op) in
      if text_eq op (lit "stop") && a.all
      then (
        ok (all_stopped (length (restore w.readable w.tabs d.mode).active)),
        record d { mode = stop_all w.readable w.tabs w.modes_written d.mode },
      )
      else if text_eq op (lit "status")
      then (let r = active_tabs w.readable w.tabs d.mode in
          (ok (reported r.0 (stats d.store.items)), record d { mode = r.1 }))
      else elim (resolve_tab w a) [ err why ↦ (err why, d) | ok t ↦ on_tab op t d ]

  -- The tab of `locate`: the one that is named, else the record's if it is open, else as above.
  unfoldable pub locate_tab : Args → Annotation F → Result ModeError ℕ
  unfolding resolve_tab
  locate_tab a it = elim a.tab_id [
    | some t ↦ ok t
    | none ↦
        let own = or_else it.tab_id 0 in
        if is_some it.tab_id && is_some (w.tabs own) then ok own else resolve_tab w a
  ]

-- What a frame answers to `OWB_ANN_LOCATE`.
pub record Found : Type 0 where
  pub found : Bool
  pub strategy : Text
  pub matches : ℕ

-- The loop of `locate` in mode.js over the frames: the first that found the element, else the last
-- that answered.
unfoldable pub ask_frames : (ℕ → Option Found) → List ℕ → Option (ℕ × Found) → Option (ℕ × Found)
ask_frames answer [] fallback = fallback
ask_frames answer (f ∷ fs) fallback = elim (answer f) [
  | none ↦ ask_frames answer fs fallback
  | some r ↦ let rest = ask_frames answer fs (some (f, r)) in if r.found then some (f, r) else rest
]

abbrev or_top : List ℕ → List ℕ
or_top [] = 0 ∷ []
or_top (f ∷ fs) = f ∷ fs

-- The frames that have announced themselves, or the top frame.
unfoldable pub locate_in : (ℕ → Option Found) → ℕ → Mode → Option (ℕ × Found)
unfolding ask_frames
locate_in answer t m = ask_frames answer (or_top (keys (or_else (lookup t m.frames) []))) none

unfoldable pub locate :
    {F : Type 0}
    → World
    → (ℕ → Option Found)
    → Args
    → Desk F
    → Result ModeError (ℕ × Option (ℕ × Found))
unfolding one_id locate_tab locate_in
locate w answer a d =
    if is_empty (one_id a) then err missing_id else elim (get (one_id a) d.store) [
      | none ↦ err (unknown_id (one_id a))
      | some it ↦ elim (locate_tab w a it) [
        | err why ↦ err why
        | ok t ↦
            if not (is_some (w.tabs t))
            then err tab_gone
            else if w.injected
            then ok (t, locate_in answer t d.mode)
            else err not_injected
      ]
    ]
