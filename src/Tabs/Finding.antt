-- ===== src/Tabs/Finding.antt =====
-- Which tab find_tab takes over (tabs.js).
use open_webbridge.Base.{
  ℕ, ◌≤◌, ◌≡◌, refl, ap, subst, inl, inr, Text, text_keys, number_keys, beq_refl, is_empty, filter,
  find, contains, contains-add, add, lookup-insert, sort_by, Sorted, In-sort_by, sort_by-In,
  sort_by-Sorted, All-In, In, here, there, In-filter, filter-In, Bool, true, false, Bool-cases,
  Option-cases, Result-cases, Option, none, some, or_else, List, [], ◌∷◌, Result, ok, err, arith,
}
use open_webbridge.Sessions.{Browser, Session, Bridge, put, session_key, session_of, bind_tab}
use open_webbridge.Sessions.Opening.{url_of, ensure_domain_tab_limits}
use open_webbridge.TabLimit.{Limit}
use open_webbridge.Tabs.{OpenTab, Windows, TabError, matches, chosen_of, find_tab}

find-In : {A : Type 0} (p : A → Bool) (xs : List A) (a : A) → find p xs ≡ some a → In a xs
find-In p [] a h = cc
find-In p (x ∷ xs) a h = elim (Bool-cases (p x)) [
  | inl e ↦ here (ground (arith, e))
  | inr e ↦ there (find-In p xs a (ground (arith, e)))
]

-- The first of a sorted list is at most as large as any member.
first-least :
    (xs : List OpenTab) (t : OpenTab)
    → Sorted (λ (x : OpenTab). x.index) xs
    → find (λ x. true) xs ≡ some t
    → (other : OpenTab) → In other xs
    → t.index ≤ other.index
first-least [] t s h other m = elim m [ ]
first-least (x ∷ xs) t s h other m =
    let e : x ≡ t = cc (h) in subst (λ (y : OpenTab). y.index ≤ other.index) e (least m)
  where
    least : In other (x ∷ xs) → x.index ≤ other.index
    least (here q) = omega (arith, ap (λ (y : OpenTab). y.index) q)
    least (there n) = All-In (λ (y : OpenTab). x.index ≤ y.index) s.0 n

In-or_else :
    (o : Option OpenTab) (x : OpenTab) (ts : List OpenTab) (t : OpenTab)
    → find (λ (y : OpenTab). y.active) (x ∷ ts) ≡ o
    → some (or_else o x) ≡ some t
    → In t (x ∷ ts)
In-or_else none x ts t e h = here (cc (h))
In-or_else (some y) x ts t e h =
    let q : y ≡ t = cc (h) in
    subst (λ (z : OpenTab). In z (x ∷ ts)) q (find-In (λ (z : OpenTab). z.active) (x ∷ ts) y e)

bind_tab-Active :
    {W : Type 0} (session : Text) (t : ℕ) (b : Bridge W)
    → ((session_of session (bind_tab session t b)).active_tab ≡ some t)
      × (contains t (session_of session (bind_tab session t b)).tab_ids ≡ true)
unfolding bind_tab put
bind_tab-Active session t b =
    let held : Session = record (session_of session b) {
      tab_ids = add t (session_of session b).tab_ids;
      active_tab = some t;
    } in
    rw
      (
        lookup-insert (session_key session) (session_key session) held b.sessions,
        beq_refl (session_key session),
      )
      (refl, rw (contains-add t t (session_of session b).tab_ids, beq_refl t) refl)

module _ {W : Type 0} (chrome : Browser W) (windows : Windows W)
    (host_name : Text → Option Text) where
  -- The choice among the tabs that match.
  abbrev IsChoice : Bool → List OpenTab → OpenTab → Type 0
  IsChoice in_front ts t =
      In t ts × (in_front ≡ false → (other : OpenTab) → In other ts → t.index ≤ other.index)

  chosen_of-IsChoice :
      (in_front : Bool) (ts : List OpenTab) (t : OpenTab)
      → chosen_of chrome windows host_name in_front ts ≡ some t
      → IsChoice in_front ts t
  unfolding chosen_of
  chosen_of-IsChoice in_front [] t h = cc
  chosen_of-IsChoice true (x ∷ ts) t h =
      (In-or_else (find (λ (y : OpenTab). y.active) (x ∷ ts)) x ts t refl h, λ back. cc)
  chosen_of-IsChoice false (x ∷ ts) t h = (
    In-sort_by (λ (y : OpenTab). y.index) (x ∷ ts)
        (find-In (λ _. true) (sort_by (λ (y : OpenTab). y.index) (x ∷ ts)) t h),
    λ _ other m.
        first-least (sort_by (λ (y : OpenTab). y.index) (x ∷ ts)) t
          (sort_by-Sorted (λ (y : OpenTab). y.index) (x ∷ ts)) h other
          (sort_by-In (λ (y : OpenTab). y.index) (x ∷ ts) m),
  )

  abbrev matching : Text → Bridge W → List OpenTab
  matching url b = filter (matches chrome windows host_name url) (windows.query b.browser)

  -- A tab that was found: which one it is, and that the session has it in front.
  abbrev pub IsFound : Text → Text → Bool → Bridge W → Option Text → ℕ → Bridge W → Type 0
  IsFound session url in_front b address t b' =
      (tab : OpenTab) × In tab (windows.query b.browser)
      × (matches chrome windows host_name url tab ≡ true)
      × (tab.id ≡ t)
      × (tab.info.url ≡ address)
      × (in_front ≡ false
          → (other : OpenTab) → In other (windows.query b.browser)
          → matches chrome windows host_name url other ≡ true
          → tab.index ≤ other.index)
      × ((session_of session b').active_tab ≡ some t)
      × (contains t (session_of session b').tab_ids ≡ true)

  bound-IsFound :
      (session url : Text) (in_front : Bool) (b : Bridge W) (tab : OpenTab)
      → chosen_of chrome windows host_name in_front (matching url b) ≡ some tab
      → IsFound session url in_front b tab.info.url tab.id (bind_tab session tab.id b)
  bound-IsFound session url in_front b tab h =
      let (m, least) = chosen_of-IsChoice in_front (matching url b) tab h in
      let (listed, match) =
        In-filter (matches chrome windows host_name url) (windows.query b.browser) m in
      let (active, held) = bind_tab-Active session tab.id b in
      (
        tab,
        listed,
        match,
        refl,
        refl,
        λ back other n fits.
            least back other (filter-In (matches chrome windows host_name url) n fits),
        active,
        held,
      )

  abbrev Outcome :
      Text → Text → Bool → Bridge W → Result TabError (Option Text × ℕ) × Bridge W → Type 0
  Outcome session url in_front b (ok (address, t), b') = IsFound session url in_front b address t b'
  Outcome session url in_front b (err why, b') = Unit {0}

  find_tab-Outcome :
      (session url : Text) (in_front : Bool) (limits : List Limit) (b : Bridge W)
      → Outcome session url in_front b
          (find_tab chrome windows host_name session url in_front limits b)
  unfolding find_tab
  find_tab-Outcome session url in_front limits b = elim (Bool-cases (is_empty url)) [
    | inl e ↦ rw e tt
    | inr e ↦ elim (Option-cases (chosen_of chrome windows host_name in_front (matching url b))) [
      | inl none_there ↦ rw (e, none_there) tt
      | inr (tab, c) ↦
          elim (Result-cases (
            ensure_domain_tab_limits chrome host_name limits (some (url_of tab.info)) (some tab.id)
              b)) [
                | inl (why, q) ↦ rw (e, c, q) tt
                | inr (_, q) ↦ rw (e, c, q) (bound-IsFound session url in_front b tab c)
              ]
    ]
  ]

  -- A tab that find_tab answers is one of the open tabs that match the address, the one with the lowest
  -- index unless the one in front was asked for; the answer has its address, and afterwards the
  -- session holds it and has it as its current tab.
  pub find_tab-IsFound :
      (session url : Text) (in_front : Bool) (limits : List Limit) (b : Bridge W)
      (address : Option Text) (t : ℕ) (b' : Bridge W)
      → find_tab chrome windows host_name session url in_front limits b ≡ (ok (address, t), b')
      → IsFound session url in_front b address t b'
  find_tab-IsFound session url in_front limits b address t b' h =
      subst (Outcome session url in_front b) h (find_tab-Outcome session url in_front limits b)
