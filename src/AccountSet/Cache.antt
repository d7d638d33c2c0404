-- ===== src/AccountSet/Cache.antt =====
-- `SetGraphCache` (cala-ledger/src/account_set/graph_cache.rs): resolution from the snapshot of the
-- graph, and the refresh of the snapshot while the graph in the database changes.
pub mod Indexed
pub mod Coherent
pub mod Current
use cala.Prelude.{
  ℕ, ◌+◌, Bool, true, false, not, ◌&&◌, Option, none, some, is_some, List, [], ◌∷◌, ◌++◌, map,
  filter, is_empty, if◌then◌else◌, ◌≡◌, nat_beq, nat_eq,
}
use cala.Prelude.Int.{ℤ, pos, ltb_ℤ}
use cala.Prelude.Map.{Map, contains_key}
use cala.Prelude.Order.{sort_dedup, nat_order}
use cala.Types.{AccountId, AccountSetId, JournalId, Currency}
use cala.Posting.{AccountMembership}
use cala.AccountSet.Graph.{
  GraphSnapshot, SetGraphNode, SetMeta, Overlay, index_nodes, cold, or_else,
}
use cala.AccountSet.Walk.{nat_in}
use cala.AccountSet.Expand.{Mappings, expanded, unknown_set, never_ended, expand}

-- account_set/repo.rs: one read of the whole graph.
pub record SetGraphData : Type 0 where
  pub epoch : ℤ
  pub nodes : List SetGraphNode

abbrev pub epoch_beq : ℤ → ℤ → Bool
epoch_beq a b = not (ltb_ℤ a b) && not (ltb_ℤ b a)

-- The snapshot that `refresh` builds.
abbrev pub snapshot_of : SetGraphData → GraphSnapshot
snapshot_of read =
    let i = index_nodes read.nodes in
    record { epoch = read.epoch; parents = i.parents; children = i.children; meta = i.meta }

-- `if new.epoch >= current.epoch`
abbrev pub install : GraphSnapshot → GraphSnapshot → GraphSnapshot
install new current = if not (ltb_ℤ new.epoch current.epoch) then new else current

-- The sets of the seeds that the snapshot does not know.
unfoldable pub missing_sets : GraphSnapshot → List AccountMembership → List AccountSetId
unfolding sort_dedup
missing_sets snapshot seeds =
    sort_dedup
      (filter (λ id. not (contains_key id snapshot.meta)) (map (λ seed. seed.account_set_id) seeds))

-- What the operation fetches for them. `fetch` is the query `fetch_set_graph_nodes_in_op`.
unfoldable pub overlay_for :
    (List AccountSetId → List SetGraphNode) → List AccountSetId → Option Overlay
unfolding index_nodes
overlay_for fetch missing =
    let i = index_nodes (fetch missing) in
    if is_empty missing then none else some (record { parents = i.parents; meta = i.meta })

-- How a resolution ends: no account is in a set; from the graph in memory, with the pairs to lock;
-- or from the walk in SQL, which locks by itself.
pub data Resolution : Type 0 where
  no_memberships : Resolution
  in_memory : Mappings → List (AccountSetId × Currency) → Resolution
  walked : Mappings → Resolution

-- `resolve_from_probe_in_op`. `walk_sql` is the query `walk_mappings_and_lock_in_op`.
unfoldable pub resolve_from_probe :
    (List AccountSetId → List SetGraphNode)
    → (JournalId → List (AccountId × Currency) → Mappings)
    → GraphSnapshot
    → JournalId
    → ℤ
    → List AccountMembership
    → List (AccountId × Currency)
    → Resolution
unfolding missing_sets overlay_for expand
resolve_from_probe fetch walk_sql snapshot journal_id epoch seeds pairs =
    if is_empty seeds
    then no_memberships
    else if not (epoch_beq snapshot.epoch epoch)
    then walked (walk_sql journal_id pairs)
    else (elim (expand snapshot (overlay_for fetch (missing_sets snapshot seeds)) journal_id seeds
        pairs) [
          | expanded mappings locks ↦ in_memory mappings locks
          | unknown_set id ↦ walked (walk_sql journal_id pairs)
          | never_ended ↦ walked (walk_sql journal_id pairs)
        ])

-- The graph that is committed, with its epoch.
pub record Database : Type 0 where
  pub epoch : ℕ
  pub nodes : List SetGraphNode

-- `fetch_set_graph`, and `fetch_set_graph_nodes_in_op`: the rows of some sets.
abbrev pub fetch_set_graph : Database → SetGraphData
fetch_set_graph db = record { epoch = pos db.epoch; nodes = db.nodes }

abbrev pub fetch_nodes : Database → List AccountSetId → List SetGraphNode
fetch_nodes db ids = filter (λ node. nat_in node.id ids) db.nodes

-- What a read of the graph says of a set: its parents, and the last of its rows.
abbrev pub parents_in : AccountSetId → List SetGraphNode → List AccountSetId
parents_in id [] = []
parents_in id (node ∷ nodes) =
    if nat_beq id node.id
    then (elim node.parent_id [ none ↦ [] | some p ↦ p ∷ [] ]) ++ parents_in id nodes
    else parents_in id nodes

abbrev pub node_meta : SetGraphNode → SetMeta
node_meta node = record {
  journal_id = node.journal_id;
  eventually_consistent = node.eventually_consistent;
}

abbrev pub meta_in : AccountSetId → List SetGraphNode → Option SetMeta
meta_in id [] = none
meta_in id (node ∷ nodes) =
    or_else (meta_in id nodes) (if nat_beq id node.id then some (node_meta node) else none)

-- A process with its snapshot, and a refresh that has read the graph and not yet installed it; there
-- is one at most, since `refresh` holds `refresh_lock`.
pub record World : Type 0 where
  pub db : Database
  pub cache : GraphSnapshot
  pub reading : Option SetGraphData

-- What may happen, in any order. A new set has no parents and leaves the epoch alone; a change of
-- the edges, by `insert_member_sets` or `remove_member_set`, raises the epoch and leaves the sets'
-- metadata alone.
pub data Step : World → World → Type 0 where
  create_set :
      (w : World) (node : SetGraphNode)
      → meta_in node.id w.db.nodes ≡ none
      → node.parent_id ≡ none
      → Step w (record w { db = record { epoch = w.db.epoch; nodes = w.db.nodes ++ node ∷ [] } })
  change_edges :
      (w : World) (nodes : List SetGraphNode)
      → ((id : AccountSetId) → meta_in id nodes ≡ meta_in id w.db.nodes)
      → Step w (record w { db = record { epoch = w.db.epoch + 1; nodes = nodes } })
  begin_refresh :
      (w : World) → w.reading ≡ none → Step w (record w { reading = some (fetch_set_graph w.db) })
  fail_refresh : (w : World) → Step w (record w { reading = none })
  end_refresh :
      (w : World) (read : SetGraphData)
      → w.reading ≡ some read
      → Step w (record w { cache = install (snapshot_of read) w.cache; reading = none })

-- A new process over an existing database.
pub data Run : World → Type 0 where
  launch : (db : Database) → Run (record { db = db; cache = cold; reading = none })
  next : {w u : World} → Run w → Step w u → Run u
