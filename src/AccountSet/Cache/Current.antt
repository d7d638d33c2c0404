-- ===== src/AccountSet/Cache/Current.antt =====
-- A resolution in memory is the one that the committed graph gives.
use mathlib.Core.Path.{subst, fun_ext}
use mathlib.Core.Logic.{∥∥₁_elim}
use mathlib.Core.Bool.{So-prop}
use cala.Prelude.{
  ℕ, ◌≡◌, refl, sym, ap, ◌∙◌, ◌↔◌, ◌⊎◌, Bool, true, false, not, ◌&&◌, Option, none, some, is_some,
  List, [], is_empty, if◌then◌else◌, nat_beq, nat_eq, arith, Bool-cases, Option-cases, inl, inr,
  list_or_empty,
}
use cala.Prelude.Int.{ℤ, pos, negsuc}
use cala.Prelude.Map.{get}
use cala.Prelude.Order.{nat_order, pair_order}
use cala.Types.{AccountId, AccountSetId, JournalId, Currency}
use cala.Posting.{AccountMembership}
use cala.AccountSet.Graph.{
  GraphSnapshot, SetMeta, Overlay, meta_of, parents_of, or_else, index_nodes,
}
use cala.AccountSet.Walk.{nat_in, Reach}
use cala.AccountSet.Expand.{Mappings, Expansion, expanded, unknown_set, never_ended, expand}
use cala.AccountSet.Expand.Ancestors.{direct}
use cala.AccountSet.Expand.Resolved.{IsResolved, IsExpansion, expand-IsExpansion}
use cala.AccountSet.Cache.{
  SetGraphData, snapshot_of, epoch_beq, missing_sets, overlay_for, no_memberships, in_memory,
  walked, resolve_from_probe, Database, fetch_set_graph, fetch_nodes, parents_in, meta_in, World,
  Run,
}
use cala.AccountSet.Cache.Indexed.{
  parents-index_nodes, meta-index_nodes, parents_in-filter, meta_in-filter,
}
use cala.AccountSet.Cache.Coherent.{IsRead, Run-IsCoherent}

pub epoch_beq-eq : (a b : ℤ) → epoch_beq a b ≡ true → a ≡ b
epoch_beq-eq (pos m) (pos n) h = ground arith
epoch_beq-eq (pos m) (negsuc n) h = ground arith
epoch_beq-eq (negsuc m) (pos n) h = ground arith
epoch_beq-eq (negsuc m) (negsuc n) h = ground arith

-- The committed graph, as a snapshot.
abbrev pub committed : Database → GraphSnapshot
committed db = snapshot_of (fetch_set_graph db)

parents-committed :
    (db : Database) (x : AccountSetId) → parents_of (committed db) none x ≡ parents_in x db.nodes
unfolding parents_of
parents-committed db x = parents-index_nodes x db.nodes

meta-committed :
    (db : Database) (x : AccountSetId) → meta_of (committed db) none x ≡ meta_in x db.nodes
unfolding meta_of
meta-committed db x = meta-index_nodes x db.nodes

list-or_else :
    (a b : Option (List ℕ)) (db : List ℕ)
    → list_or_empty a ≡ db
    → (db ≡ [] → list_or_empty b ≡ [])
    → list_or_empty (or_else a b) ≡ db
list-or_else none b db h k = k (sym h) ∙ h
list-or_else (some xs) b db h k = h

either_nil : (b : Bool) (xs : List ℕ) → xs ≡ [] → (if b then xs else []) ≡ []
either_nil true xs h = h
either_nil false xs h = refl

-- What the operation fetches is no more than the database has.
overlay_parents :
    (db : Database) (ids : List AccountSetId) (x : AccountSetId)
    → parents_in x db.nodes ≡ []
    → list_or_empty (get x (index_nodes (fetch_nodes db ids)).parents) ≡ []
overlay_parents db ids x h =
    parents-index_nodes x (fetch_nodes db ids)
    ∙ parents_in-filter x ids db.nodes
    ∙ either_nil (nat_in x ids) (parents_in x db.nodes) h

pub parents-current :
    (read : SetGraphData) (db : Database) (missing : List AccountSetId) (x : AccountSetId)
    → IsRead read db
    → read.epoch ≡ pos db.epoch
    → parents_of (snapshot_of read) (overlay_for (fetch_nodes db) missing) x
      ≡ parents_of (committed db) none x
unfolding parents_of overlay_for
parents-current read db missing x r e =
    let own : list_or_empty (get x (index_nodes read.nodes).parents) ≡ parents_in x db.nodes =
      parents-index_nodes x read.nodes ∙ r.edges e x in
    elim (Bool-cases (is_empty missing)) [
      | inl nothing ↦ rw nothing (own ∙ sym (parents-committed db x))
      | inr something ↦ rw something (
          list-or_else (get x (index_nodes read.nodes).parents)
            (get x (index_nodes (fetch_nodes db missing)).parents) (parents_in x db.nodes) own
            (overlay_parents db missing x)
          ∙ sym (parents-committed db x))
    ]

sym_committed :
    (db : Database) (x : AccountSetId) {o : Option SetMeta}
    → meta_in x db.nodes ≡ o
    → meta_of (committed db) none x ≡ o
sym_committed db x h = meta-committed db x ∙ h

or_else-cases :
    {X : Type 0} (a b : Option X) {x : X} → or_else a b ≡ some x → (a ≡ some x) ⊎ (b ≡ some x)
or_else-cases none b h = inr h
or_else-cases (some y) b h = inl h

of_if :
    {X : Type 0} (b : Bool) (o : Option X) {x : X} → (if b then o else none) ≡ some x → o ≡ some x
of_if true o h = h
of_if false o h = cc

meta-current :
    (read : SetGraphData) (db : Database) (missing : List AccountSetId) (x : AccountSetId)
    {meta : SetMeta}
    → IsRead read db
    → meta_of (snapshot_of read) (overlay_for (fetch_nodes db) missing) x ≡ some meta
    → meta_of (committed db) none x ≡ some meta
unfolding meta_of overlay_for
meta-current read db missing x {meta} r h =
    sym_committed db x (elim (Bool-cases (is_empty missing)) [
      | inl nothing ↦ r.metas x meta (sym (meta-index_nodes x read.nodes) ∙ (rw nothing at h))
      | inr something ↦
          elim (or_else-cases (get x (index_nodes read.nodes).meta)
            (get x (index_nodes (fetch_nodes db missing)).meta) (rw something at h)) [
              | inl before ↦ r.metas x meta (sym (meta-index_nodes x read.nodes) ∙ before)
              | inr fetched ↦ of_if (nat_in x missing) (meta_in x db.nodes) (
                  sym (meta_in-filter x missing db.nodes)
                  ∙ sym (meta-index_nodes x (fetch_nodes db missing))
                  ∙ fetched)
            ]
    ])

abbrev of_journal : JournalId → Option SetMeta → Bool
of_journal j none = false
of_journal j (some meta) = nat_beq meta.journal_id j

abbrev inline_of : JournalId → Option SetMeta → Bool
inline_of j none = false
inline_of j (some meta) = nat_beq meta.journal_id j && not meta.eventually_consistent

-- What is resolved on one graph is resolved on another with the same parents, and the same metadata
-- of what is known.
module _ (s t : GraphSnapshot) (o : Option Overlay)
    (parents : (x : AccountSetId) → parents_of s o x ≡ parents_of t none x)
    (metas : (x : AccountSetId) (meta : SetMeta)
      → meta_of s o x ≡ some meta
      → meta_of t none x ≡ some meta) where
  same_parents : parents_of s o ≡ parents_of t none
  same_parents = fun_ext parents

  same_meta : (x : AccountSetId) → is_some (meta_of s o x) ≡ true → meta_of s o x ≡ meta_of t none x
  same_meta x known = elim (Option-cases (meta_of s o x)) [
    | inl absent ↦ absurd (cc (rw absent at known))
    | inr (meta, found) ↦ found ∙ sym (metas x meta found)
  ]

  moved :
      (a : AccountId) (x : AccountSetId) (seeds : List AccountMembership)
      (test : Option SetMeta → Bool)
      → (Reach (parents_of s o) (direct a seeds) x → is_some (meta_of s o x) ≡ true)
      → (∥ Reach (parents_of s o) (direct a seeds) x ∥₁ × (test (meta_of s o x) ≡ true))
        ↔ (∥ Reach (parents_of t none) (direct a seeds) x ∥₁ × (test (meta_of t none x) ≡ true))
  moved a x seeds test known =
      let is_known = λ (r : ∥ Reach (parents_of s o) (direct a seeds) x ∥₁).
        same_meta x (∥∥₁_elim r (So-prop _) known) in
      (
        λ p. (
          subst (λ n. ∥ Reach n (direct a seeds) x ∥₁) same_parents p.0,
          sym (ap test (is_known p.0)) ∙ p.1,
        ),
        λ p.
            let r = subst (λ n. ∥ Reach n (direct a seeds) x ∥₁) (sym same_parents) p.0 in
            (r, ap test (is_known r) ∙ p.1),
      )

  IsResolved-moved :
      (j : JournalId) (seeds : List AccountMembership) (pairs : List (AccountId × Currency))
      (m : Mappings) (locks : List (AccountSetId × Currency))
      → IsResolved s o j seeds pairs m locks
      → IsResolved t none j seeds pairs m locks
  IsResolved-moved j seeds pairs m locks r =
      let own =
        λ (a : AccountId) (x : AccountSetId). moved a x seeds (of_journal j) (r.known a x) in
      let inline =
        λ (a : AccountId) (x : AccountSetId). moved a x seeds (inline_of j) (r.known a x) in
      record {
        sets = λ a x. (λ h. (own a x).0 ((r.sets a x).0 h), λ p. (r.sets a x).1 ((own a x).1 p));
        nodup = r.nodup;
        known = λ a x q.
            let q' = subst (λ n. Reach n (direct a seeds) x) (sym same_parents) q in
            let k = r.known a x q' in ap is_some (sym (same_meta x k)) ∙ k;
        ascending = r.ascending;
        locked = λ x c. (
          λ h.
              ∥∥₁_elim ((r.locked x c).0 h) (hlevel)
                (λ p. let q = (inline p.0 x).0 (p.2, p.3) in ∣ (p.0, p.1, q.0, q.1) ∣₁),
          λ h. (r.locked x c).1 (
              ∥∥₁_elim h (hlevel)
                (λ p. let q = (inline p.0 x).1 (p.2, p.3) in ∣ (p.0, p.1, q.0, q.1) ∣₁)),
        );
      }

in_memory-injective :
    {m n : Mappings} {l k : List (AccountSetId × Currency)}
    → in_memory m l ≡ in_memory n k
    → (m ≡ n) × (l ≡ k)
in_memory-injective h = (cc, cc)

walked-ne-in_memory :
    {m n : Mappings} {l : List (AccountSetId × Currency)} → walked m ≡ in_memory n l → ⊥
walked-ne-in_memory h = cc

none-ne-in_memory :
    {n : Mappings} {l : List (AccountSetId × Currency)} → no_memberships ≡ in_memory n l → ⊥
none-ne-in_memory h = cc

Expansion-IsResolved :
    (snapshot : GraphSnapshot) (overlay : Option Overlay) (j : JournalId)
    (seeds : List AccountMembership) (pairs : List (AccountId × Currency)) (e : Expansion)
    (sql : Mappings) {m : Mappings} {locks : List (AccountSetId × Currency)}
    → IsExpansion snapshot overlay j seeds pairs e
    → (elim e [
      | expanded n l ↦ in_memory n l
      | unknown_set id ↦ walked sql
      | never_ended ↦ walked sql
    ])
      ≡ in_memory m locks
    → IsResolved snapshot overlay j seeds pairs m locks
Expansion-IsResolved snapshot overlay j seeds pairs (expanded n l) sql {locks} h e =
    let (same, also) = in_memory-injective e in
    subst (λ k. IsResolved snapshot overlay j seeds pairs k locks) same
      (subst (λ k. IsResolved snapshot overlay j seeds pairs n k) also h)
Expansion-IsResolved snapshot overlay j seeds pairs (unknown_set id) sql h e =
    absurd (walked-ne-in_memory e)
Expansion-IsResolved snapshot overlay j seeds pairs never_ended sql h e = absurd h

-- In whatever order sets are created, edges are changed and the snapshot is refreshed: a resolution
-- from the graph in memory, at the epoch of the database, gives each account the sets and the locks
-- that the committed graph gives it.
pub resolve-IsResolved :
    {w : World} (run : Run w) (walk_sql : JournalId → List (AccountId × Currency) → Mappings)
    (j : JournalId) (seeds : List AccountMembership) (pairs : List (AccountId × Currency))
    (m : Mappings) (locks : List (AccountSetId × Currency))
    → resolve_from_probe (fetch_nodes w.db) walk_sql w.cache j (pos w.db.epoch) seeds pairs
      ≡ in_memory m locks
    → IsResolved (committed w.db) none j seeds pairs m locks
unfolding resolve_from_probe
resolve-IsResolved {w} run walk_sql j seeds pairs m locks h =
    let c = Run-IsCoherent run in
    let missing = missing_sets w.cache seeds in
    let overlay = overlay_for (fetch_nodes w.db) missing in
    elim (Bool-cases (is_empty seeds)) [
      | inl nobody ↦ absurd (none-ne-in_memory (rw nobody at h))
      | inr somebody ↦ elim (Bool-cases (epoch_beq w.cache.epoch (pos w.db.epoch))) [
        | inr stale ↦ absurd (walked-ne-in_memory (rw (somebody, stale) at h))
        | inl fresh ↦
            let epoch : c.source.epoch ≡ pos w.db.epoch =
              sym (ap (λ k. k.epoch) c.cached)
              ∙ epoch_beq-eq w.cache.epoch (pos w.db.epoch) fresh in
            let parents = λ (x : AccountSetId).
              subst (λ k. parents_of k overlay x ≡ parents_of (committed w.db) none x)
                (sym c.cached) (parents-current c.source w.db missing x c.current epoch) in
            let metas =
              λ (x : AccountSetId) (meta : SetMeta) (found : meta_of w.cache overlay x ≡ some meta).
                meta-current c.source w.db missing x c.current
                  (subst (λ k. meta_of k overlay x ≡ some meta) c.cached found) in
            IsResolved-moved w.cache (committed w.db) overlay parents metas j seeds pairs m locks (
              Expansion-IsResolved w.cache overlay j seeds pairs
                (expand w.cache overlay j seeds pairs) (walk_sql j pairs)
                (expand-IsExpansion w.cache overlay j seeds pairs) (rw (somebody, fresh) at h))
      ]
    ]
