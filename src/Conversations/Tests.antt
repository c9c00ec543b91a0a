-- ===== src/Conversations/Tests.antt =====
-- Runs of the claim on two conversations of organisation 1, and the theorems at them.
use drills.Prelude.{ℕ, zero, suc, ◌≢◌, ◌≤◌, ◌≡◌, ◌↔◌, refl, true, none, some, List, [], ◌∷◌, arith}
use drills.Prelude.Result.{err, is_ok}
use drills.Conversations.Table.{
  Row, open_status, closed_status, Directory, not_found, find, update, int4_max, returning,
}
use drills.Conversations.Assign.{
  lww, optimistic, pessimistic, AssignBody, assign, claim, refusal, update_assignee, guard,
  is_member, remove, bind_error,
}
use drills.Conversations.Assign.Laws.{
  MayClaim, assign-ok_iff, assign-refused, assign_pessimistic-optimistic,
}
use drills.Conversations.Assign.Race.{perform, assigns, sets_status, winners, winners-le-one}

abbrev free : Row
free = record {
  id = 10;
  org_id = 1;
  status = open_status;
  assignee_id = none;
  version = 3;
  created_at = 1000;
  updated_at = 2000;
  last_message_at = 1500;
}

abbrev inbox : List Row
inbox = free ∷ record free { id = 11; assignee_id = some 8 } ∷ []

abbrev names : Directory
names m = elim m [ zero ↦ none | suc k ↦ some "agent" ]

abbrev claim_of : ℕ → ℕ → AssignBody
claim_of agent version = record { assignee_id = some agent; version = some version }

-- Two clients read version 3 and claim: one wins. A claim on `lww` overwrites.
claim_test :
    (winners optimistic names 1 10 3
        (assigns 1 10 (claim_of 7 3) 5000 ∷ assigns 1 10 (claim_of 8 3) 5001 ∷ [])
        inbox
      ≡ 1)
    × (winners lww names 1 10 3
          (assigns 1 10 (claim_of 7 3) 5000 ∷ assigns 1 10 (claim_of 8 3) 5001 ∷ [])
          inbox
        ≡ 2)
    × ((assign optimistic names 2 10 (claim_of 7 3) 5000 (λ t. t) inbox).0 ≡ err not_found)
    × ((remove 1 11 inbox).1 ≡ free ∷ [])
unfolding winners perform assign refusal find remove update_assignee guard update returning claim
    bind_error
claim_test = (refl, refl, refl, refl)

winners-le-one_example :
    winners optimistic names 1 10 3
      (assigns 1 10 (claim_of 7 3) 5000
        ∷ sets_status 1 10 closed_status 5001
        ∷ assigns 1 10 (claim_of 8 3) 5002
        ∷ [])
      inbox
    ≤ 1
winners-le-one_example =
    winners-le-one names 1 10 3
      (assigns 1 10 (claim_of 7 3) 5000
        ∷ sets_status 1 10 closed_status 5001
        ∷ assigns 1 10 (claim_of 8 3) 5002
        ∷ [])
      inbox (omega arith)

assign-ok_iff_example :
    (is_ok (assign optimistic names 1 10 (claim_of 7 3) 5000 (λ t. t) inbox).0 ≡ true) ↔ (
      (row : Row) × (find 1 10 inbox ≡ some row)
      × MayClaim (claim_of 7 3) row
      × (row.version ≢ int4_max)
      × (is_member names (some 7) ≡ true)
      × (bind_error optimistic (claim_of 7 3) ≡ none))
assign-ok_iff_example = assign-ok_iff names 1 10 (claim_of 7 3) 5000 (λ t. t) inbox (omega arith)

assign-refused_example :
    assign optimistic names 1 10 (claim_of 7 2) 5000 (λ t. []) inbox
    ≡ (err (refusal names 1 10 []), [])
unfolding find bind_error
assign-refused_example =
    assign-refused names 1 10 (claim_of 7 2) 5000 (λ t. []) inbox (omega arith) (λ e. cc)
      (λ row e m. ground arith)

assign_pessimistic-optimistic_example :
    assign pessimistic names 1 11
      (record { assignee_id = some 7; version = none })
      5000
      (λ t. t)
      inbox
    ≡ assign optimistic names 1 11 (claim_of 7 3) 5000 (λ t. t) inbox
unfolding find bind_error
assign_pessimistic-optimistic_example =
    assign_pessimistic-optimistic names 1 11 (record { assignee_id = some 7; version = none }) 5000
      (λ t. t) inbox (record free { id = 11; assignee_id = some 8 }) (omega arith) refl refl
