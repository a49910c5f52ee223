-- ===== src/Snapshot/Bounds.antt =====
-- The length of an outline and the numbering of its references (snapshot.js).
use open_webbridge.Base.{
  ℕ, zero, suc, ◌≤◌, ◌≡◌, ◌≢◌, text_eq_refl, refl, inl, inr, Option-cases, Bool-cases, Text, lit,
  text_eq, text_keys, length, length-append, decimal, Table, lookup, lookup-insert, leb, is_some,
  filter, true, false, Option, none, some, List, [], ◌∷◌, ◌++◌, arith,
}
use open_webbridge.Snapshot.{
  Node, Outline, max_nodes, is_emitted, referable, line_of, emit_as, emit, each, walk, walk_roots,
  index, is_root, blank, snapshot,
}

-- At most 4000 lines, no more references than lines, and each number up to the counter resolves.
abbrev pub IsSane : Outline → Type 0
IsSane o =
    (length o.lines ≤ max_nodes)
    × (length o.lines ≡ o.emitted)
    × (o.ref_counter ≤ o.emitted)
    × ((i : ℕ) → 1 ≤ i → i ≤ o.ref_counter → is_some (lookup (decimal i) o.ref_map) ≡ true)

not_last : (c i : ℕ) → text_eq (decimal (suc c)) (decimal i) ≡ false → i ≢ suc c
not_last c i e g = let k = rw g at e in let r = text_eq_refl (decimal (suc c)) in cc

emit_as-IsSane :
    (r : Option ℕ) (n : Node) (depth : ℕ) (o : Outline)
    → leb max_nodes o.emitted ≡ false
    → IsSane o
    → IsSane (emit_as r n depth o)
unfolding emit_as
emit_as-IsSane none n depth o room (fits, counts, refs, numbered) = (
  ground (arith, length-append o.lines (line_of n depth [] ∷ [])),
  ground (arith, length-append o.lines (line_of n depth [] ∷ [])),
  omega (arith, refs),
  numbered,
)
emit_as-IsSane (some b) n depth o room (fits, counts, refs, numbered) =
    let line = line_of n depth (lit " @e" ++ decimal (suc o.ref_counter)) in
    (
      ground (arith, length-append o.lines (line ∷ [])),
      ground (arith, length-append o.lines (line ∷ [])),
      omega (arith, refs),
      λ i low high. elim (Bool-cases (text_eq (decimal (suc o.ref_counter)) (decimal i))) [
        | inl e ↦ rw (lookup-insert (decimal (suc o.ref_counter)) (decimal i) b o.ref_map, e) refl
        | inr e ↦
            rw (lookup-insert (decimal (suc o.ref_counter)) (decimal i) b o.ref_map, e)
              (numbered i low (ground (arith, not_last o.ref_counter i e, high)))
      ],
    )

emit-IsSane :
    (n : Node) (depth : ℕ) (o : Outline)
    → leb max_nodes o.emitted ≡ false
    → IsSane o
    → IsSane (emit n depth o)
unfolding emit
emit-IsSane n depth o room h = emit_as-IsSane (referable n) n depth o room h

each-IsSane :
    (visit : Node → Outline → Outline) (by_id : Table Text Node) (cs : List Text) (o : Outline)
    → ((n : Node) (p : Outline) → IsSane p → IsSane (visit n p))
    → IsSane o
    → IsSane (each visit by_id cs o)
unfolding each
each-IsSane visit by_id [] o keeps h = h
each-IsSane visit by_id (c ∷ cs) o keeps h = elim (Option-cases (lookup c by_id)) [
  | inl e ↦ rw (each, e) (each-IsSane visit by_id cs o keeps h)
  | inr (n, e) ↦ rw (each, e) (each-IsSane visit by_id cs (visit n o) keeps (keeps n o h))
]

walk-IsSane :
    (fuel : ℕ) (by_id : Table Text Node) (depth : ℕ) (n : Node) (o : Outline)
    → IsSane o
    → IsSane (walk fuel by_id depth n o)
unfolding walk
walk-IsSane zero by_id depth n o h = h
walk-IsSane (suc fuel) by_id depth n o h = elim (Bool-cases (leb max_nodes o.emitted)) [
  | inl full ↦ rw (walk, full) h
  | inr room ↦ elim (Bool-cases (is_emitted n)) [
    | inl e ↦
        rw (walk, room, e)
          (each-IsSane (walk fuel by_id (suc depth)) by_id n.child_ids (emit n depth o)
            (λ m p. walk-IsSane fuel by_id (suc depth) m p) (emit-IsSane n depth o room h))
    | inr e ↦
        rw (walk, room, e)
          (each-IsSane (walk fuel by_id depth) by_id n.child_ids o
            (λ m p. walk-IsSane fuel by_id depth m p) h)
  ]
]

walk_roots-IsSane :
    (fuel : ℕ) (by_id : Table Text Node) (ns : List Node) (o : Outline)
    → IsSane o
    → IsSane (walk_roots fuel by_id ns o)
unfolding walk_roots
walk_roots-IsSane fuel by_id [] o h = h
walk_roots-IsSane fuel by_id (n ∷ ns) o h =
    walk_roots-IsSane fuel by_id ns (walk fuel by_id 0 n o) (walk-IsSane fuel by_id 0 n o h)

-- Whatever the nodes and the fuel, an outline has at most 4000 lines, as many as it counts, and no
-- more references than lines, and every number from 1 up to the number of references resolves to
-- an element.
pub snapshot-IsSane : (fuel : ℕ) (nodes : List Node) → IsSane (snapshot fuel nodes)
unfolding snapshot
snapshot-IsSane fuel nodes =
    walk_roots-IsSane fuel (index [] nodes) (filter (is_root (index [] nodes)) nodes) blank
      (omega arith, refl, omega arith, λ i low high. ground (arith, low, high))
