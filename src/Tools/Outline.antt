-- ===== src/Tools/Outline.antt =====
-- open-webbridge-extension/src/tools/snapshot.js: the snapshot of the session's tab, or of a frame.
use open_webbridge.Base.{
  ℕ, Text, lit, decimal, Option, none, some, List, [], ◌∷◌, ◌++◌, ok, err, if◌then◌else◌,
}
use open_webbridge.Cdp.{Target}
use open_webbridge.Refs.{set_refs}
use open_webbridge.Sessions.{Browser, TabInfo}
use open_webbridge.Snapshot.{Node, Outline, max_nodes, snapshot}
use open_webbridge.Tools.Page.{
  get_tree, Reply, object, exception, box, value, tree, Debugger, tab_gone, debugger_error, Tool,
  ◌>>=◌, ◌>>◌, give, throw, target_in, active_tab_of, ensure, ask,
}

-- `lines.join("\n")`
unfoldable pub join_lines : List Text → Text
join_lines [] = []
join_lines (l ∷ []) = l
join_lines (l ∷ k ∷ ls) = l ++ (10 ∷ join_lines (k ∷ ls))

unfoldable pub text_of : Outline → Text
unfolding join_lines
text_of o =
    let body = join_lines o.lines in
    if o.truncated
    then body ++ (10 ∷ lit "… (truncated at " ++ decimal max_nodes ++ lit " nodes)")
    else body

-- The answer; the title is left out.
pub record PageOutline : Type 0 where
  pub url : Option Text
  pub frame : Text
  pub ref_count : ℕ
  pub text : Text

abbrev pub expect_tree : {F W : Type 0} → Reply F → Tool F W (List Node)
expect_tree (tree ns) = give ns
expect_tree (object _) = throw (debugger_error (lit "no tree"))
expect_tree (exception _) = throw (debugger_error (lit "no tree"))
expect_tree (box _) = throw (debugger_error (lit "no tree"))
expect_tree (value _) = throw (debugger_error (lit "no tree"))

abbrev pub keep_refs : {F W : Type 0} → Target → Outline → Tool F W (Unit {0})
keep_refs t o e =
    (ok tt, record e { bridge = record e.bridge { refs = set_refs t o.ref_map e.bridge.refs } })

abbrev pub answer_of : Text → Outline → TabInfo → PageOutline
answer_of frame o info = record {
  url = info.url;
  frame = frame;
  ref_count = o.ref_counter;
  text = text_of o;
}

module _ {F W : Type 0} (debugger : Debugger F W) (chrome : Browser W) where
  -- `chrome.tabs.get`
  abbrev pub tab_info : ℕ → Tool F W TabInfo
  tab_info n e = elim (chrome.tab_get e.bridge.browser n) [
    | none ↦ (err tab_gone, e)
    | some info ↦ (ok info, e)
  ]

  unfoldable pub outline_of : ℕ → ℕ → Text → List Node → Tool F W PageOutline
  unfolding snapshot text_of
  outline_of fuel n frame nodes = do
    keep_refs (target_in frame n) (snapshot fuel nodes)
    info ← tab_info n
    give (answer_of frame (snapshot fuel nodes) info)

  unfoldable pub take_snapshot : ℕ → Text → Text → Tool F W PageOutline
  unfolding active_tab_of ensure ask outline_of
  take_snapshot fuel session frame = do
    n ← active_tab_of session
    ensure debugger (target_in frame n) (lit "DOM")
    ensure debugger (target_in frame n) (lit "Accessibility")
    r ← ask debugger (target_in frame n) get_tree
    nodes ← expect_tree r
    outline_of fuel n frame nodes
