-- ===== src/Posting/Keys/Canonical.antt =====
-- The locks of a batch are taken in one order, and cover exactly its entries.
use mathlib.Core.Path.{subst}
use mathlib.Core.List.{append-nil, append_assoc}
use cala.Prelude.{◌≡◌, refl, sym, ap, ◌∙◌, List, [], ◌∷◌, ◌++◌, map}
use cala.Prelude.Order.{nat_order, pair_order, sort_dedup, sort_dedup_lem, IsAscending, is_key}
use cala.Types.{AccountId, JournalId, Currency}
use cala.Template.{NewEntry, PreparedTransaction}
use cala.Posting.Keys.{
  BalanceKeys, Triple, default_keys, push, zip_triples, push_triples, sorted_deduped, push_entries,
  push_postings, entry_balance_keys,
}

-- The rows of the columns.
abbrev pub rows : BalanceKeys → List Triple
rows keys = zip_triples keys.account_ids keys.currencies keys.journal_ids

-- The columns of rows.
abbrev columns : List Triple → BalanceKeys
columns ts = record {
  journal_ids = map (λ t. t.1.1) ts;
  account_ids = map (λ t. t.0) ts;
  currencies = map (λ t. t.1.0) ts;
}

rows-columns : (ts : List Triple) → rows (columns ts) ≡ ts
unfolding zip_triples
rows-columns [] = refl
rows-columns (t ∷ ts) = ap (λ us. t ∷ us) (rows-columns ts)

map_snoc :
    {B : Type 0} (f : Triple → B) (ts : List Triple) (t : Triple)
    → map f ts ++ f t ∷ [] ≡ map f (ts ++ t ∷ [])
map_snoc f [] t = refl
map_snoc f (s ∷ ts) t = ap (λ bs. f s ∷ bs) (map_snoc f ts t)

push-columns :
    (j : JournalId) (a : AccountId) (c : Currency) (ts : List Triple)
    → push j a c (columns ts) ≡ columns (ts ++ (a, (c, j)) ∷ [])
push-columns j a c ts =
    rw
      (
        map_snoc (λ t. t.1.1) ts (a, (c, j)),
        map_snoc (λ t. t.0) ts (a, (c, j)),
        map_snoc (λ t. t.1.0) ts (a, (c, j)),
      )
      refl

push_triples-columns : (ss ts : List Triple) → push_triples (columns ss) ts ≡ columns (ss ++ ts)
unfolding push_triples
push_triples-columns ss [] = ap columns (sym (append-nil ss))
push_triples-columns ss ((a, (c, j)) ∷ ts) =
    ap (λ keys. push_triples keys ts) (push-columns j a c ss)
    ∙ push_triples-columns (ss ++ (a, (c, j)) ∷ []) ts
    ∙ ap columns (append_assoc ss ((a, (c, j)) ∷ []) ts)

module _ {A : Type 0} where
  -- The triple of each entry.
  abbrev pub posting_keys : JournalId → List (NewEntry A) → List Triple
  posting_keys j [] = []
  posting_keys j (e ∷ entries) = (e.account_id, (e.currency, j)) ∷ posting_keys j entries

  abbrev pub batch_keys : List (PreparedTransaction A) → List Triple
  batch_keys [] = []
  batch_keys (p ∷ prepared) = posting_keys p.journal_id p.entries ++ batch_keys prepared

  push_entries-columns :
      (j : JournalId) (ss : List Triple) (entries : List (NewEntry A))
      → push_entries j (columns ss) entries ≡ columns (ss ++ posting_keys j entries)
  unfolding push_entries
  push_entries-columns j ss [] = ap columns (sym (append-nil ss))
  push_entries-columns j ss (e ∷ entries) =
      let t : Triple = (e.account_id, (e.currency, j)) in
      ap (λ keys. push_entries j keys entries) (push-columns j e.account_id e.currency ss)
      ∙ push_entries-columns j (ss ++ t ∷ []) entries
      ∙ ap columns (append_assoc ss (t ∷ []) (posting_keys j entries))

  push_postings-columns :
      (ss : List Triple) (prepared : List (PreparedTransaction A))
      → push_postings (columns ss) prepared ≡ columns (ss ++ batch_keys prepared)
  unfolding push_postings
  push_postings-columns ss [] = ap columns (sym (append-nil ss))
  push_postings-columns ss (p ∷ prepared) =
      let ts = posting_keys p.journal_id p.entries in
      ap (λ keys. push_postings keys prepared) (push_entries-columns p.journal_id ss p.entries)
      ∙ push_postings-columns (ss ++ ts) prepared
      ∙ ap columns (append_assoc ss ts (batch_keys prepared))

  rows-entry_balance_keys :
      (prepared : List (PreparedTransaction A))
      → rows (entry_balance_keys prepared) ≡ sort_dedup (batch_keys prepared)
  unfolding entry_balance_keys sorted_deduped
  rows-entry_balance_keys prepared =
      let ts = batch_keys prepared in
      ap (λ keys. rows (push_triples default_keys (sort_dedup (rows keys))))
        (push_postings-columns [] prepared)
      ∙ ap (λ us. rows (push_triples default_keys (sort_dedup us))) (rows-columns ts)
      ∙ ap rows (push_triples-columns [] (sort_dedup ts))
      ∙ rows-columns (sort_dedup ts)

  -- The keys that a batch locks are strictly ascending by account, currency and journal, whatever
  -- the order of its entries, and they are exactly the keys of its entries.
  pub entry_balance_keys-IsAscending :
      (prepared : List (PreparedTransaction A))
      → IsAscending (rows (entry_balance_keys prepared))
        × ((k : Triple)
            → is_key k (rows (entry_balance_keys prepared)) ≡ is_key k (batch_keys prepared))
  entry_balance_keys-IsAscending prepared =
      let (canonical, same) = sort_dedup_lem (batch_keys prepared) in
      let eq = rows-entry_balance_keys prepared in
      (subst IsAscending (sym eq) canonical, λ k. ap (is_key k) eq ∙ same k)
