-- ===== src/Dialogs.antt =====
-- open-webbridge-extension/src/tools/dialogs.js: native JavaScript dialogs, answered by a policy
-- for each tab.
pub mod Policy
mod Examples
use open_webbridge.Base.{
  ℕ, ◌+◌, Text, number_keys, lit, text_eq, length, drop, lookup, insert, Table, ltb, Bool, true,
  false, Option, none, some, or_else, List, [], ◌∷◌, ◌++◌, if◌then◌else◌,
}

pub data DialogAction : Type 0 where
  accept dismiss : DialogAction

pub record Handling : Type 0 where
  pub action : DialogAction
  pub prompt_text : Option Text

pub record Dialog : Type 0 where
  pub kind : Text
  pub message : Text
  pub url : Text
  pub default_prompt : Option Text

-- `policy` and `recent`, by tab.
pub record Dialogs : Type 0 where
  pub policy : Table ℕ Handling
  pub recent : Table ℕ (List Dialog)

-- The command `Page.handleJavaScriptDialog` that is sent to a tab.
pub record Reply : Type 0 where
  pub tab : ℕ
  pub accepts : Bool
  pub prompt_text : Option Text

abbrev pub default_policy : Handling
default_policy = record { action = dismiss; prompt_text = none }

unfoldable pub is_accept : DialogAction → Bool
is_accept accept = true
is_accept dismiss = false

-- `r.push(entry); if (r.length > 20) r.shift()`
unfoldable pub remember : Dialog → List Dialog → List Dialog
remember d r = let longer = r ++ d ∷ [] in if ltb 20 (length longer) then drop 1 longer else longer

-- The listener for `Page.javascriptDialogOpening`; `none` is an event with no tab. Whether the
-- command succeeds changes nothing.
unfoldable pub on_dialog : Option ℕ → Dialog → Dialogs → Option Reply × Dialogs
unfolding remember is_accept
on_dialog none d s = (none, s)
on_dialog (some tab) d s =
    let pol = or_else (lookup tab s.policy) default_policy in
    (
      some (record { tab = tab; accepts = is_accept pol.action; prompt_text = pol.prompt_text }),
      record s { recent = insert tab (remember d (or_else (lookup tab s.recent) [])) s.recent },
    )

unfoldable pub list_dialogs : ℕ → Dialogs → List Dialog
list_dialogs tab s = or_else (lookup tab s.recent) []

-- Only the word `accept` accepts.
unfoldable pub action_of : Text → DialogAction
action_of word = if text_eq word (lit "accept") then accept else dismiss

unfoldable pub set_policy : ℕ → Text → Option Text → Dialogs → Dialogs
unfolding action_of
set_policy tab word prompt_text s = record s {
  policy = insert tab (record { action = action_of word; prompt_text = prompt_text }) s.policy;
}
