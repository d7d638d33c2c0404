-- ===== src/AccountSet/Cache/Indexed.antt =====
-- What the index of some rows holds.
use mathlib.Core.List.{append_assoc, append-nil}
use cala.Prelude.{
  ℕ, ◌≡◌, refl, sym, ap, ◌∙◌, Bool, true, false, Option, none, some, List, [], ◌∷◌, ◌++◌, filter,
  if◌then◌else◌, nat_beq, nat_beq_iff, nat_eq, arith, Bool-cases, Option-cases, inl, inr,
  list_or_empty,
}
use cala.Prelude.Map.{Map, get, insert, get-insert, get-insert_same, get-insert_ne}
use cala.AccountSet.Graph.{
  SetGraphNode, SetMeta, IndexedNodes, push_value, index_node, index_from, index_nodes, or_else,
}
use cala.AccountSet.Walk.{nat_in}
use cala.AccountSet.Cache.{parents_in, node_meta, meta_in}

abbrev row_parents : SetGraphNode → List ℕ
row_parents node = elim node.parent_id [ none ↦ [] | some p ↦ p ∷ [] ]

pub list-push_value :
    (x k v : ℕ) (m : Map ℕ (List ℕ))
    → list_or_empty (get x (push_value k v m))
      ≡ list_or_empty (get x m) ++ (if nat_beq x k then v ∷ [] else [])
unfolding push_value
list-push_value x k v m = elim (Bool-cases (nat_beq x k)) [
  | inl same ↦
      rw (get-insert_same k x (list_or_empty (get k m) ++ v ∷ []) m same, same)
        (rw ((nat_beq_iff x k).0 same) refl)
  | inr other ↦
      rw (get-insert_ne k x (list_or_empty (get k m) ++ v ∷ []) m other, other)
        (sym (append-nil (list_or_empty (get x m))))
]

nil_if : (b : Bool) (xs : List ℕ) → xs ≡ xs ++ (if b then [] else [])
nil_if true xs = sym (append-nil xs)
nil_if false xs = sym (append-nil xs)

row_first :
    (b : Bool) (xs row rest : List ℕ)
    → (xs ++ (if b then row else [])) ++ rest ≡ xs ++ (if b then row ++ rest else rest)
row_first true xs row rest = append_assoc xs row rest
row_first false xs row rest = append_assoc xs [] rest

parents-index_node :
    (x : ℕ) (node : SetGraphNode) (i : IndexedNodes)
    → list_or_empty (get x (index_node node i).parents)
      ≡ list_or_empty (get x i.parents) ++ (if nat_beq x node.id then row_parents node else [])
unfolding index_node
parents-index_node x node i = elim (Option-cases node.parent_id) [
  | inl root ↦ rw root (nil_if (nat_beq x node.id) (list_or_empty (get x i.parents)))
  | inr (p, child) ↦ rw child (list-push_value x node.id p i.parents)
]

parents-index_from :
    (x : ℕ) (i : IndexedNodes) (nodes : List SetGraphNode)
    → list_or_empty (get x (index_from i nodes).parents)
      ≡ list_or_empty (get x i.parents) ++ parents_in x nodes
unfolding index_from
parents-index_from x i [] = sym (append-nil (list_or_empty (get x i.parents)))
parents-index_from x i (node ∷ nodes) =
    parents-index_from x (index_node node i) nodes
    ∙ ap (λ ps. ps ++ parents_in x nodes) (parents-index_node x node i)
    ∙ row_first (nat_beq x node.id) (list_or_empty (get x i.parents)) (row_parents node)
        (parents_in x nodes)

meta-index_node :
    (node : SetGraphNode) (i : IndexedNodes)
    → (index_node node i).meta ≡ insert node.id (node_meta node) i.meta
unfolding index_node
meta-index_node node i = ground arith

or_else-none : {A : Type 0} (o : Option A) → or_else o none ≡ o
or_else-none none = refl
or_else-none (some a) = refl

meta-index_from :
    (x : ℕ) (i : IndexedNodes) (nodes : List SetGraphNode)
    → get x (index_from i nodes).meta ≡ or_else (meta_in x nodes) (get x i.meta)
unfolding index_from
meta-index_from x i [] = refl
meta-index_from x i (node ∷ nodes) =
    meta-index_from x (index_node node i) nodes
    ∙ ground (
      arith,
      get-insert node.id x (node_meta node) i.meta,
      meta-index_node node i,
      nat_beq_iff x node.id,
      nat_beq_iff node.id x,
    )

pub parents-index_nodes :
    (x : ℕ) (nodes : List SetGraphNode)
    → list_or_empty (get x (index_nodes nodes).parents) ≡ parents_in x nodes
unfolding index_nodes
parents-index_nodes x nodes = parents-index_from x _ nodes

pub meta-index_nodes :
    (x : ℕ) (nodes : List SetGraphNode) → get x (index_nodes nodes).meta ≡ meta_in x nodes
unfolding index_nodes
meta-index_nodes x nodes = meta-index_from x _ nodes ∙ or_else-none (meta_in x nodes)

same_rest :
    (o p : Option SetMeta) (b : Bool)
    → o ≡ (if b then p else none)
    → or_else o none ≡ (if b then or_else p none else none)
same_rest o p b h = ground arith

same_rest' :
    (o p : Option SetMeta) (b : Bool)
    → o ≡ (if b then p else none)
    → o ≡ (if b then or_else p none else none)
same_rest' o p b h = ground arith

-- Rows of some sets say the same of them, and nothing of the others.
pub parents_in-filter :
    (x : ℕ) (ids : List ℕ) (nodes : List SetGraphNode)
    → parents_in x (filter (λ node. nat_in node.id ids) nodes)
      ≡ (if nat_in x ids then parents_in x nodes else [])
parents_in-filter x ids [] = ground arith
parents_in-filter x ids (node ∷ nodes) =
    let rest = filter (λ n. nat_in n.id ids) nodes in
    let same_set =
      λ (e : nat_beq x node.id ≡ true). ap (λ y. nat_in y ids) ((nat_beq_iff x node.id).0 e) in
    elim (Bool-cases (nat_beq x node.id)) [
      | inl same ↦ elim (Bool-cases (nat_in node.id ids)) [
        | inl kept ↦
            let mine = same_set same ∙ kept in
            let later : parents_in x rest ≡ parents_in x nodes =
              parents_in-filter x ids nodes ∙ rw mine refl in
            rw (kept, mine) (rw (same, later) refl)
        | inr dropped ↦
            let mine = same_set same ∙ dropped in
            rw (dropped, mine) (parents_in-filter x ids nodes ∙ rw mine refl)
      ]
      | inr other ↦ elim (Bool-cases (nat_in node.id ids)) [
        | inl kept ↦ rw (kept, other) (parents_in-filter x ids nodes)
        | inr dropped ↦ rw (dropped, other) (parents_in-filter x ids nodes)
      ]
    ]

pub meta_in-filter :
    (x : ℕ) (ids : List ℕ) (nodes : List SetGraphNode)
    → meta_in x (filter (λ node. nat_in node.id ids) nodes)
      ≡ (if nat_in x ids then meta_in x nodes else none)
meta_in-filter x ids [] = ground arith
meta_in-filter x ids (node ∷ nodes) =
    let rest = filter (λ n. nat_in n.id ids) nodes in
    let same_set =
      λ (e : nat_beq x node.id ≡ true). ap (λ y. nat_in y ids) ((nat_beq_iff x node.id).0 e) in
    elim (Bool-cases (nat_beq x node.id)) [
      | inl same ↦ elim (Bool-cases (nat_in node.id ids)) [
        | inl kept ↦
            let mine = same_set same ∙ kept in
            let later : meta_in x rest ≡ meta_in x nodes =
              meta_in-filter x ids nodes ∙ rw mine refl in
            rw (kept, mine) (rw (same, later) refl)
        | inr dropped ↦
            let mine = same_set same ∙ dropped in
            rw (dropped, mine) (meta_in-filter x ids nodes ∙ rw mine refl)
      ]
      | inr other ↦ elim (Bool-cases (nat_in node.id ids)) [
        | inl kept ↦
            rw (kept, other)
              (same_rest (meta_in x rest) (meta_in x nodes) (nat_in x ids)
                (meta_in-filter x ids nodes))
        | inr dropped ↦
            rw (dropped, other)
              (same_rest' (meta_in x rest) (meta_in x nodes) (nat_in x ids)
                (meta_in-filter x ids nodes))
      ]
    ]

pub parents_in-append :
    (x : ℕ) (nodes more : List SetGraphNode)
    → parents_in x (nodes ++ more) ≡ parents_in x nodes ++ parents_in x more
parents_in-append x [] more = refl
parents_in-append x (node ∷ nodes) more = elim (Bool-cases (nat_beq x node.id)) [
  | inl same ↦
      rw (same, parents_in-append x nodes more)
        (sym (append_assoc (row_parents node) (parents_in x nodes) (parents_in x more)))
  | inr other ↦ rw other (parents_in-append x nodes more)
]

pub meta_in-append :
    (x : ℕ) (nodes more : List SetGraphNode)
    → meta_in x (nodes ++ more) ≡ or_else (meta_in x more) (meta_in x nodes)
meta_in-append x [] more = sym (or_else-none (meta_in x more))
meta_in-append x (node ∷ nodes) more = ground (arith, meta_in-append x nodes more)
