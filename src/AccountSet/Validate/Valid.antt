-- ===== src/AccountSet/Validate/Valid.antt =====
-- What `validate_set_memberships` guarantees.
use cala.Prelude.{ℕ, ◌≤◌, ◌≡◌, ok, List, ◌++◌}
use cala.Posting.{AccountMembership}
use cala.AccountSet.Graph.{SetMembership}
use cala.AccountSet.Validate.{max_membership_depth, validate_set_memberships}
use cala.AccountSet.Validate.Acyclic.{Chain, IsAcyclic, validate_set_memberships-IsShallow}
use cala.AccountSet.Validate.Unique.{
  HasOneWay, HasOneMembership, validate_set_memberships-HasOneWay,
}

pub record IsValid (edges : List SetMembership) (members : List AccountMembership) : Type 0 where
  pub acyclic : IsAcyclic edges
  pub shallow : (u w n : ℕ) → Chain edges u w n → n ≤ max_membership_depth
  pub one_way : HasOneWay edges
  pub one_membership : HasOneMembership edges members

-- Where the new set memberships are accepted, in the combined graph: no set contains itself,
-- directly or through others; no chain of containments has more edges than the bound; no set is,
-- or contains, the containers of two edges into one set, be they the same containers or not; and
-- no set is, or contains, the sets of two of the account members that are of one account.
pub validate_set_memberships-IsValid :
    (existing proposed : List SetMembership) (members : List AccountMembership)
    → validate_set_memberships existing proposed members ≡ ok tt
    → IsValid (existing ++ proposed) members
validate_set_memberships-IsValid existing proposed members h =
    let (acyclic, shallow) = validate_set_memberships-IsShallow existing proposed members h in
    let (one_way, one_membership) =
      validate_set_memberships-HasOneWay existing proposed members h in
    record {
      acyclic = acyclic;
      shallow = shallow;
      one_way = one_way;
      one_membership = one_membership;
    }
