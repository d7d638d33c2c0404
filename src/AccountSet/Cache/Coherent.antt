-- ===== src/AccountSet/Cache/Coherent.antt =====
-- A snapshot with the epoch of the database holds the edges of the database, whatever happened.
use mathlib.Core.Path.{subst}
use mathlib.Core.List.{append-nil}
use cala.Prelude.{
  ℕ, ◌+◌, ◌≡◌, refl, sym, ap, ◌∙◌, Option, none, some, List, [], ◌∷◌, ◌++◌, nat_beq, nat_beq_iff,
  nat_eq, arith, Bool-cases, inl, inr,
}
use cala.Prelude.Int.{ℤ, pos, negsuc, ltb_ℤ, ◌≤ℤ◌}
use cala.Types.{AccountSetId}
use cala.AccountSet.Graph.{SetGraphNode, SetMeta, cold, index_nodes, index_from}
use cala.AccountSet.Cache.{
  SetGraphData, snapshot_of, Database, fetch_set_graph, parents_in, meta_in, World, Step,
  create_set, change_edges, begin_refresh, fail_refresh, end_refresh, Run, launch, next,
}
use cala.AccountSet.Cache.Indexed.{parents_in-append, meta_in-append}

-- A read of the graph, as against the database: it is not ahead; at the same epoch it has the same
-- edges; and what it says of a set is still so.
pub record IsRead (read : SetGraphData) (db : Database) : Type 0 where
  pub behind : read.epoch ≤ℤ pos db.epoch
  pub edges :
      read.epoch ≡ pos db.epoch
      → (id : AccountSetId) → parents_in id read.nodes ≡ parents_in id db.nodes
  pub metas :
      (id : AccountSetId) (meta : SetMeta)
      → meta_in id read.nodes ≡ some meta
      → meta_in id db.nodes ≡ some meta

IsRead-fetch : (db : Database) → IsRead (fetch_set_graph db) db
IsRead-fetch db = record { behind = omega arith; edges = λ e id. refl; metas = λ id meta h. h }

parents_in-root :
    (id : AccountSetId) (node : SetGraphNode)
    → node.parent_id ≡ none
    → parents_in id (node ∷ []) ≡ []
parents_in-root id node h = ground arith

none≢some : {X : Type 0} {x : X} → ◌≡◌ {A = Option X} none (some x) → ⊥
none≢some h = cc

IsRead-create :
    (read : SetGraphData) (db : Database) (node : SetGraphNode)
    → meta_in node.id db.nodes ≡ none
    → node.parent_id ≡ none
    → IsRead read db
    → IsRead read (record { epoch = db.epoch; nodes = db.nodes ++ node ∷ [] })
IsRead-create read db node fresh root r = record {
  behind = r.behind;
  edges = λ e id.
      r.edges e id
      ∙ sym (append-nil (parents_in id db.nodes))
      ∙ ap (λ ps. parents_in id db.nodes ++ ps) (sym (parents_in-root id node root))
      ∙ sym (parents_in-append id db.nodes (node ∷ []));
  metas = λ id meta h. elim (Bool-cases (nat_beq id node.id)) [
    | inl same ↦ absurd (
        none≢some (
          sym fresh
          ∙ ap (λ i. meta_in i db.nodes) (sym ((nat_beq_iff id node.id).0 same))
          ∙ r.metas id meta h))
    | inr other ↦ meta_in-append id db.nodes (node ∷ []) ∙ rw other (r.metas id meta h)
  ];
}

ahead : (e : ℤ) (n : ℕ) → e ≤ℤ pos n → e ≡ pos (n + 1) → ⊥
ahead (pos m) n h k = ground arith
ahead (negsuc m) n h k = cc

IsRead-change :
    (read : SetGraphData) (db : Database) (nodes : List SetGraphNode)
    → ((id : AccountSetId) → meta_in id nodes ≡ meta_in id db.nodes)
    → IsRead read db
    → IsRead read (record { epoch = db.epoch + 1; nodes = nodes })
IsRead-change read db nodes same r = record {
  behind = omega (arith, r.behind);
  edges = λ e id. absurd (ahead read.epoch db.epoch r.behind e);
  metas = λ id meta h. same id ∙ r.metas id meta h;
}

-- The cache is a read of the graph, and so is what a refresh has read.
pub record IsCoherent (w : World) : Type 0 where
  pub source : SetGraphData
  pub cached : w.cache ≡ snapshot_of source
  pub current : IsRead source w.db
  pub pending : (read : SetGraphData) → w.reading ≡ some read → IsRead read w.db

some-injective : {X : Type 0} {x y : X} → some x ≡ some y → x ≡ y
some-injective h = cc

pub Step-IsCoherent : {w u : World} → Step w u → IsCoherent w → IsCoherent u
Step-IsCoherent (create_set w node fresh root) c = record {
  source = c.source;
  cached = c.cached;
  current = IsRead-create c.source w.db node fresh root c.current;
  pending = λ read h. IsRead-create read w.db node fresh root (c.pending read h);
}
Step-IsCoherent (change_edges w nodes same) c = record {
  source = c.source;
  cached = c.cached;
  current = IsRead-change c.source w.db nodes same c.current;
  pending = λ read h. IsRead-change read w.db nodes same (c.pending read h);
}
Step-IsCoherent (begin_refresh w idle) c = record {
  source = c.source;
  cached = c.cached;
  current = c.current;
  pending = λ read h. subst (λ r. IsRead r w.db) (some-injective h) (IsRead-fetch w.db);
}
Step-IsCoherent (fail_refresh w) c = record {
  source = c.source;
  cached = c.cached;
  current = c.current;
  pending = λ read h. absurd (none≢some h);
}
Step-IsCoherent (end_refresh w read busy) c = elim (Bool-cases (ltb_ℤ read.epoch w.cache.epoch)) [
  | inl older ↦ rw older (record {
    source = c.source;
    cached = c.cached;
    current = c.current;
    pending = λ r h. absurd (none≢some h);
  })
  | inr newer ↦ rw newer (record {
    source = read;
    cached = refl;
    current = c.pending read busy;
    pending = λ r h. absurd (none≢some h);
  })
]

launch-IsCoherent : (db : Database) → IsCoherent (record { db = db; cache = cold; reading = none })
unfolding index_nodes index_from
launch-IsCoherent db = record {
  source = record { epoch = negsuc 0; nodes = [] };
  cached = refl;
  current = record {
    behind = omega arith;
    edges = λ e id. absurd (cc);
    metas = λ id meta h. absurd (none≢some h);
  };
  pending = λ read h. absurd (none≢some h);
}

pub Run-IsCoherent : {w : World} → Run w → IsCoherent w
Run-IsCoherent (launch db) = launch-IsCoherent db
Run-IsCoherent (next run s) = Step-IsCoherent s (Run-IsCoherent run)

-- The snapshot of a process never goes back to an older epoch.
pub Step_epoch : {w u : World} → Step w u → w.cache.epoch ≤ℤ u.cache.epoch
Step_epoch (create_set w node fresh root) = omega arith
Step_epoch (change_edges w nodes same) = omega arith
Step_epoch (begin_refresh w idle) = omega arith
Step_epoch (fail_refresh w) = omega arith
Step_epoch (end_refresh w read busy) = ground arith
