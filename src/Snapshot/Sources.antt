-- ===== src/Snapshot/Sources.antt =====
-- Which elements the references of an outline stand for (snapshot.js).
use open_webbridge.Base.{
  ℕ, zero, suc, ◌≡◌, refl, subst, inl, inr, Option-cases, Bool-cases, Text, text_eq, text_keys,
  decimal, Table, lookup, lookup-insert, insert, leb, filter, In, here, there, In-filter, Option,
  none, some, List, [], ◌∷◌,
}
use open_webbridge.Snapshot.{
  Node, Outline, max_nodes, is_emitted, referable, emit_as, emit, each, walk, walk_roots, index,
  is_root, blank, snapshot,
}

module _ (nodes : List Node) where
  -- An element of one of the nodes that get a reference.
  abbrev pub IsElement : ℕ → Type 0
  IsElement b = (n : Node) × In n nodes × (referable n ≡ some b)

  abbrev pub IsSourced : Outline → Type 0
  IsSourced o = (i : Text) (b : ℕ) → lookup i o.ref_map ≡ some b → IsElement b

  abbrev Indexed : Table Text Node → Type 0
  Indexed by_id = (c : Text) (n : Node) → lookup c by_id ≡ some n → In n nodes

  inserted :
      (number : Text) (b : ℕ) (m : Table Text ℕ)
      → IsElement b
      → ((i : Text) (c : ℕ) → lookup i m ≡ some c → IsElement c)
      → (i : Text) (c : ℕ) → lookup i (insert number b m) ≡ some c
      → IsElement c
  inserted number b m e h i c found = elim (Bool-cases (text_eq number i)) [
    | inl same ↦
        let q : b ≡ c = cc (rw (lookup-insert number i b m, same) at found) in subst IsElement q e
    | inr other ↦ h i c (rw (lookup-insert number i b m, other) at found)
  ]

  emit_as-IsSourced :
      (r : Option ℕ) (n : Node) (depth : ℕ) (o : Outline)
      → In n nodes
      → referable n ≡ r
      → IsSourced o
      → IsSourced (emit_as r n depth o)
  unfolding emit_as
  emit_as-IsSourced none n depth o m e h = h
  emit_as-IsSourced (some b) n depth o m e h =
      inserted (decimal (suc o.ref_counter)) b o.ref_map (n, m, e) h

  each-IsSourced :
      (visit : Node → Outline → Outline) (by_id : Table Text Node) (cs : List Text) (o : Outline)
      → Indexed by_id
      → ((n : Node) (p : Outline) → In n nodes → IsSourced p → IsSourced (visit n p))
      → IsSourced o
      → IsSourced (each visit by_id cs o)
  unfolding each
  each-IsSourced visit by_id [] o indexed keeps h = h
  each-IsSourced visit by_id (c ∷ cs) o indexed keeps h = elim (Option-cases (lookup c by_id)) [
    | inl e ↦ rw (each, e) (each-IsSourced visit by_id cs o indexed keeps h)
    | inr (n, e) ↦
        rw (each, e)
          (each-IsSourced visit by_id cs (visit n o) indexed keeps (keeps n o (indexed c n e) h))
  ]

  walk-IsSourced :
      (fuel : ℕ) (by_id : Table Text Node) (depth : ℕ) (n : Node) (o : Outline)
      → Indexed by_id
      → In n nodes
      → IsSourced o
      → IsSourced (walk fuel by_id depth n o)
  unfolding walk emit
  walk-IsSourced zero by_id depth n o indexed m h = h
  walk-IsSourced (suc fuel) by_id depth n o indexed m h =
      elim (Bool-cases (leb max_nodes o.emitted)) [
        | inl full ↦ rw (walk, full) h
        | inr room ↦ elim (Bool-cases (is_emitted n)) [
          | inl e ↦
              rw (walk, room, e)
                (each-IsSourced (walk fuel by_id (suc depth)) by_id n.child_ids (emit n depth o)
                  indexed (λ k p mk hk. walk-IsSourced fuel by_id (suc depth) k p indexed mk hk)
                  (emit_as-IsSourced (referable n) n depth o m refl h))
          | inr e ↦
              rw (walk, room, e)
                (each-IsSourced (walk fuel by_id depth) by_id n.child_ids o indexed
                  (λ k p mk hk. walk-IsSourced fuel by_id depth k p indexed mk hk) h)
        ]
      ]

  index-Indexed :
      (ns : List Node) (by_id : Table Text Node)
      → ((n : Node) → In n ns → In n nodes)
      → Indexed by_id
      → Indexed (index by_id ns)
  unfolding index
  index-Indexed [] by_id sub h = h
  index-Indexed (x ∷ ns) by_id sub h =
      index-Indexed ns (insert x.node_id x by_id) (λ n m. sub n (there m)) with_x
    where
      with_x : Indexed (insert x.node_id x by_id)
      with_x c n found = elim (Bool-cases (text_eq x.node_id c)) [
        | inl same ↦
            let q : x ≡ n = cc (rw (lookup-insert x.node_id c x by_id, same) at found) in
            subst (λ (k : Node). In k nodes) q (sub x (here refl))
        | inr other ↦ h c n (rw (lookup-insert x.node_id c x by_id, other) at found)
      ]

  roots-IsSourced :
      (fuel : ℕ) (by_id : Table Text Node) (roots : List Node) (o : Outline)
      → Indexed by_id
      → ((n : Node) → In n roots → In n nodes)
      → IsSourced o
      → IsSourced (walk_roots fuel by_id roots o)
  unfolding walk_roots
  roots-IsSourced fuel by_id [] o indexed sub h = h
  roots-IsSourced fuel by_id (n ∷ ns) o indexed sub h =
      roots-IsSourced fuel by_id ns (walk fuel by_id 0 n o) indexed (λ k m. sub k (there m))
        (walk-IsSourced fuel by_id 0 n o indexed (sub n (here refl)) h)

  -- A reference of an outline stands for the element of one of the nodes, and one that has a role to act
  -- on or a name.
  pub snapshot-IsSourced : (fuel : ℕ) → IsSourced (snapshot fuel nodes)
  unfolding snapshot lookup
  snapshot-IsSourced fuel =
      let by_id = index [] nodes in
      roots-IsSourced fuel by_id (filter (is_root by_id) nodes) blank
        (index-Indexed nodes [] (λ n m. m) (λ c n h. cc))
        (λ n m. (In-filter (is_root by_id) nodes m).0) (λ i b h. cc)
