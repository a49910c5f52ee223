-- ===== src/Tools/References.antt =====
-- The references of a snapshot, as the other tools use them (snapshot.js, refs.js, interact.js).
use open_webbridge.Base.{
  ℕ, ◌≤◌, ◌≡◌, refl, sym, ap, ◌∙◌, inl, inr, Text, lit, text_keys, Table, beq_refl, trim, is_space,
  starts_with, decimal, IsDigit, decimal-IsDigit, decimal-empty, IsPlain, digit-IsPlain,
  trim-IsPlain, lookup, lookup-insert, is_some, All, true, Option-cases, Option, none, some, List,
  [], ◌∷◌, ◌++◌, ok, err, arith,
}
use open_webbridge.Cdp
use open_webbridge.Cdp.{Target, tab, target_keys}
use open_webbridge.Refs.{Refs, set_refs, ref_number, get_backend_id}
use open_webbridge.Sessions.{Browser, session_of, handle_tab_removed}
use open_webbridge.Sessions.Removed.{handle_tab_removed-forgets}
use open_webbridge.Snapshot.{Node, snapshot}
use open_webbridge.Snapshot.Sources.{IsElement, snapshot-IsSourced}
use open_webbridge.Snapshot.Bounds.{snapshot-IsSane}
use open_webbridge.Tools.Page.{
  Command, Reply, tree, object, exception, box, value, method_of, deliver, with_cdp, resolve_node,
  get_tree, Debugger, unresolved_ref, unknown_ref, Env, go_on, ◌>>=◌, give, target_in, ensure, ask,
}
use open_webbridge.Tools.Elements.{
  all_digits, after_e, ref_of, expect_object, resolve_ref, resolve_object_id,
}
use open_webbridge.Tools.Outline.{
  PageOutline, expect_tree, text_of, answer_of, keep_refs, tab_info, outline_of, take_snapshot,
}
use open_webbridge.Tools.Runs.{opened, active_tab_of-ok, go_on-eq-ok}

-- A reference as an outline prints it.
abbrev pub reference : ℕ → Text
reference i = lit "@e" ++ decimal i

all_digits-IsDigit : (s : Text) → All IsDigit s → all_digits s ≡ true
unfolding all_digits
all_digits-IsDigit [] h = refl
all_digits-IsDigit (c ∷ s) (here, h) = ground (arith, all_digits-IsDigit s h)

IsPlain-digits : (s : Text) → All IsDigit s → All IsPlain s
IsPlain-digits [] h = tt
IsPlain-digits (c ∷ s) (here, h) = (digit-IsPlain c here, IsPlain-digits s h)

trim-reference : (i : ℕ) → trim (reference i) ≡ reference i
unfolding is_space
trim-reference i =
    trim-IsPlain (reference i) (refl, (refl, IsPlain-digits (decimal i) (decimal-IsDigit i)))

ref_of-reference : (i : ℕ) → ref_of (reference i) ≡ some (decimal i)
unfolding ref_of after_e starts_with
ref_of-reference i = rw (decimal-empty i, all_digits-IsDigit (decimal i) (decimal-IsDigit i)) refl

-- A text of digits is its own reference number.
ref_number-digits : (s : Text) → All IsDigit s → ref_number s ≡ s
unfolding ref_number starts_with
ref_number-digits [] h = refl
ref_number-digits (c ∷ s) (here, h) = ground arith

get-found :
    (t : Target) (i b : ℕ) (m : Table Text ℕ) (refs : Refs)
    → lookup t refs ≡ some m
    → lookup (decimal i) m ≡ some b
    → get_backend_id t (decimal i) refs ≡ some b
unfolding get_backend_id
get-found t i b m refs mapped there =
    rw (get_backend_id, mapped, ref_number-digits (decimal i) (decimal-IsDigit i)) there

present : {A : Type 0} (o : Option A) → is_some o ≡ true → (a : A) × (o ≡ some a)
present none h = cc
present (some a) h = (a, refl)

module _ {F W : Type 0} (debugger : Debugger F W) (chrome : Browser W) where
  tab_info-state : (n : ℕ) (e : Env F W) → (tab_info debugger chrome n e).1 ≡ e
  tab_info-state n e = elim (Option-cases (chrome.tab_get e.bridge.browser n)) [
    | inl gone ↦ rw (tab_info, gone) refl
    | inr (info, here) ↦ rw (tab_info, here) refl
  ]

  abbrev kept : ℕ → ℕ → Text → List Node → Env F W → Env F W
  kept fuel n frame nodes e = (keep_refs (target_in frame n) (snapshot fuel nodes) e).1

  outline_of-ok :
      (fuel n : ℕ) (frame : Text) (nodes : List Node) (e : Env F W) (a : PageOutline) (e' : Env F W)
      → outline_of debugger chrome fuel n frame nodes e ≡ (ok a, e')
      → (a.ref_count ≡ (snapshot fuel nodes).ref_counter)
        × (a.text ≡ text_of (snapshot fuel nodes))
        × (lookup (target_in frame n) e'.bridge.refs ≡ some (snapshot fuel nodes).ref_map)
  unfolding outline_of set_refs
  outline_of-ok fuel n frame nodes e a e' h =
      let o = snapshot fuel nodes in
      let t = target_in frame n in
      let (info, e1, s, k) =
        go_on-eq-ok (λ info. give (answer_of frame o info))
          (tab_info debugger chrome n (kept fuel n frame nodes e)) a e' h in
      let same =
        sym (tab_info-state n (kept fuel n frame nodes e)) ∙ ap (λ p. p.1) s ∙ ap (λ p. p.1) k in
      (
        cc (k),
        cc (k),
        ap (λ x. lookup t x.bridge.refs) (sym same)
            ∙ lookup-insert t t o.ref_map e.bridge.refs
            ∙ rw (beq_refl t) refl,
      )

  resolve-found :
      (t : Target) (i b : ℕ) (e : Env F W)
      → get_backend_id t (decimal i) e.bridge.refs ≡ some b
      → resolve_object_id debugger t (reference i) e
        ≡ (ask debugger t (resolve_node b) >>= expect_object (unresolved_ref (reference i))) e
  unfolding resolve_object_id resolve_ref
  resolve-found t i b e there = rw (trim-reference i, ref_of-reference i, resolve_ref, there) refl

  deliver-Answers :
      (t : Target) (c : Command F) (e : Env F W) (r : Reply F) (e' : Env F W)
      → deliver debugger t c e ≡ (ok r, e')
      → (debugger.reply e.bridge.browser t c).0 ≡ ok r
  unfolding deliver
  deliver-Answers t c e r e' h = grind arith

  -- A command that was answered got the debugger's answer.
  ask-Answers :
      (t : Target) (c : Command F) (e : Env F W) (r : Reply F) (e' : Env F W)
      → ask debugger t c e ≡ (ok r, e')
      → (w : W) × ((debugger.reply w t c).0 ≡ ok r)
  unfolding ask
  ask-Answers t c e r e' h =
      let sent =
        Cdp.send (debugger.attach_answer e.bridge.browser t) [] t (method_of c) e.bridge.cdp in
      let (u, e1, s, d) = go_on-eq-ok (λ _. deliver debugger t c) (with_cdp sent e) r e' h in
      (e1.bridge.browser, deliver-Answers t c e1 r e' d)

  expect_tree-ok :
      (r : Reply F) (e : Env F W) (ns : List Node) (e' : Env F W)
      → expect_tree r e ≡ (ok ns, e')
      → r ≡ tree ns
  expect_tree-ok (tree ms) e ns e' h = cc
  expect_tree-ok (object _) e ns e' h = cc
  expect_tree-ok (exception _) e ns e' h = cc
  expect_tree-ok (box _) e ns e' h = cc
  expect_tree-ok (value _) e ns e' h = cc

  -- After a snapshot that returned, of the session's tab or of a frame of it: its text is that of the
  -- outline of the nodes that the debugger answered with, and every reference from `@e1` up to its
  -- count stands for an element of one of these nodes, one to which the outline gives a reference; as
  -- a selector it is resolved on that target by asking the debugger for that element, and for nothing
  -- else first.
  pub references_resolve :
      (fuel n i : ℕ) (session frame : Text) (e : Env F W) (a : PageOutline) (e' : Env F W)
      → (session_of session e.bridge).active_tab ≡ some n
      → take_snapshot debugger chrome fuel session frame e ≡ (ok a, e')
      → 1 ≤ i
      → i ≤ a.ref_count
      → (w : W) × (nodes : List Node) × (b : ℕ) × ((debugger.reply w (target_in frame n) get_tree).0
          ≡ ok (tree nodes))
        × (a.text ≡ text_of (snapshot fuel nodes))
        × (lookup (decimal i) (snapshot fuel nodes).ref_map ≡ some b)
        × IsElement nodes b
        × (resolve_object_id debugger (target_in frame n) (reference i) e'
            ≡ (ask debugger (target_in frame n) (resolve_node b)
                  >>= expect_object (unresolved_ref (reference i)))
                e')
  unfolding take_snapshot
  references_resolve fuel n i session frame e a e' open_tab h low high =
      let t = target_in frame n in
      let rest = ap (go_on _) (sym (active_tab_of-ok session n e open_tab)) ∙ h in
      let (u, e1, s1, k1) =
        go_on-eq-ok _ (ensure debugger t (lit "DOM") (opened session e)) a e' rest in
      let (v, e2, s2, k2) = go_on-eq-ok _ (ensure debugger t (lit "Accessibility") e1) a e' k1 in
      let (r, e3, s3, k3) = go_on-eq-ok _ (ask debugger t get_tree e2) a e' k2 in
      let (nodes, e4, s4, k4) = go_on-eq-ok _ (expect_tree r e3) a e' k3 in
      let (count, text, mapped) = outline_of-ok fuel n frame nodes e4 a e' k4 in
      let (long, fits, refs, numbered) = snapshot-IsSane fuel nodes in
      let (b, there) =
        present (lookup (decimal i) (snapshot fuel nodes).ref_map)
          (numbered i low (omega (arith, count, high))) in
      let (w, answered) = ask-Answers t get_tree e2 r e3 s3 in
      (
        w,
        nodes,
        b,
        answered ∙ ap ok (expect_tree-ok r e3 nodes e4 s4),
        text,
        there,
        snapshot-IsSourced nodes fuel (decimal i) b there,
        resolve-found t i b e'
            (get-found t i b (snapshot fuel nodes).ref_map e'.bridge.refs mapped there),
      )

module _ {F W : Type 0} (debugger : Debugger F W) where
  -- Once a tab was removed, a reference to an element of it throws, and no command is sent: the state
  -- is left as the removal left it.
  pub removed_reference :
      (n i : ℕ) (e : Env F W)
      → let after = record e { bridge = handle_tab_removed n e.bridge } in
        resolve_object_id debugger (tab n) (reference i) after
        ≡ (err (unknown_ref (reference i)), after)
  unfolding resolve_object_id resolve_ref
  removed_reference n i e =
      let (session, others, forgotten, detached, disabled) =
        handle_tab_removed-forgets n e.bridge [] n (decimal i) in
      rw (trim-reference i, ref_of-reference i, resolve_ref, forgotten) refl
