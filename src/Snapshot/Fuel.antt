-- ===== src/Snapshot/Fuel.antt =====
-- The fuel of `walk`.
use open_webbridge.Base.{
  ℕ, zero, suc, ◌<◌, ◌≡◌, refl, ap, ◌∙◌, inl, inr, Option-cases, Bool-cases, Text, text_keys, Table,
  lookup, leb, some, List, [], ◌∷◌, In, here, there, arith,
}
use open_webbridge.Snapshot.{Node, Outline, max_nodes, is_emitted, emit, each, walk}

each-same :
    (f g : Node → Outline → Outline) (by_id : Table Text Node) (cs : List Text) (o : Outline)
    → ((c : Text) (n : Node) (p : Outline) → In c cs → lookup c by_id ≡ some n → f n p ≡ g n p)
    → each f by_id cs o ≡ each g by_id cs o
unfolding each
each-same f g by_id [] o same = refl
each-same f g by_id (c ∷ cs) o same = elim (Option-cases (lookup c by_id)) [
  | inl e ↦ rw (each, e) (each-same f g by_id cs o (λ d n p i. same d n p (there i)))
  | inr (n, e) ↦
      rw (each, e)
        (ap (each f by_id cs) (same c n o (here refl) e)
          ∙ each-same f g by_id cs (g n o) (λ d n p i. same d n p (there i)))
]

-- If a rank falls from each node to its children, so that there is no cycle, a walk with more fuel
-- than the rank of its node comes to one outcome, whatever the fuel.
pub walk_enough :
    (by_id : Table Text Node) (rank : Node → ℕ)
    (falls : (v : Node) (c : Text) (n : Node)
      → In c v.child_ids
      → lookup c by_id ≡ some n
      → rank n < rank v)
    (k m depth : ℕ) (n : Node) (o : Outline)
    → rank n < k
    → rank n < m
    → walk k by_id depth n o ≡ walk m by_id depth n o
unfolding walk
walk_enough by_id rank falls zero m depth n o a b = elim a [ ]
walk_enough by_id rank falls (suc k) zero depth n o a b = elim b [ ]
walk_enough by_id rank falls (suc k) (suc m) depth n o a b =
    let below : (d : ℕ) (p : Outline)
        → each (walk k by_id d) by_id n.child_ids p ≡ each (walk m by_id d) by_id n.child_ids p =
      λ d p. each-same (walk k by_id d) (walk m by_id d) by_id n.child_ids p (λ c v q i e.
        let down = falls n c v i e in
        walk_enough by_id rank falls k m d v q (omega (arith, down, a)) (omega (arith, down, b))) in
    elim (Bool-cases (leb max_nodes o.emitted)) [
      | inl full ↦ rw (walk, full) refl
      | inr room ↦ elim (Bool-cases (is_emitted n)) [
        | inl e ↦ rw (walk, room, e) (below (suc depth) (emit n depth o))
        | inr e ↦ rw (walk, room, e) (below depth o)
      ]
    ]
