-- ===== src/Frontend/Api/Actions/Expired.antt =====
-- Which entries of the cache a write expires.
use drills.Prelude.{
  ℕ, ◌≡◌, refl, ap, ◌∙◌, Bool, false, Option, none, some, List, [], ◌∷◌, map, ◌==◌, if◌then◌else◌,
  arith,
}
use drills.Prelude.Text.{Text}
use drills.Frontend.Api.{has_tag, drop_tagged, Stored, DataCache}
use drills.Frontend.Arms.{
  CacheArm, nostore, cached, tagged, blanket, cache_arm, Tag, org, conversations, agents, stats,
  conversation, tag_eq, Target, tags_after_write,
}
use drills.Frontend.Sources.{Resource, list_page, all_agents, org_stats, row, messages, Source}
use drills.Frontend.Api.Actions.{
  WriteReply, calls_for, update_tag, make_calls, expire_after_write, claim_conversation,
  set_conversation_status, expire_all, revalidate,
}

-- The tags under which the fetch of a source is cached.
abbrev pub tags_for : Source → List Tag
tags_for source = elim source.resource [
  | list_page query ↦ org source.org_id ∷ conversations source.org_id ∷ []
  | all_agents ↦ org source.org_id ∷ agents source.org_id ∷ []
  | org_stats ↦ org source.org_id ∷ stats source.org_id ∷ []
  | row id ↦ org source.org_id ∷ conversation id ∷ []
  | messages id ↦ org source.org_id ∷ conversation id ∷ []
]

-- What a write to the target can make wrong: the row, its messages, the lists of its organisation.
abbrev pub is_about : Target → Source → Bool
is_about target source = elim source.resource [
  | list_page query ↦ source.org_id == target.org_id
  | all_agents ↦ false
  | org_stats ↦ false
  | row id ↦ id == target.id
  | messages id ↦ id == target.id
]

abbrev pub expires : CacheArm → Target → Source → Bool
expires nostore target source = false
expires cached target source = false
expires tagged target source = is_about target source
expires blanket target source = source.org_id == target.org_id

module _ {B : Type 0} (target : Target) (o : ℕ) where
  -- An entry is dropped by its tags.
  drop_tagged_twice :
      (resource : Resource) (found : Option (Stored B))
      → ((x : Stored B)
          → found ≡ some x
          → x.tags ≡ tags_for (record { org_id = o; resource = resource }))
      → drop_tagged (conversations target.org_id) (drop_tagged (conversation target.id) found)
        ≡ (if is_about target (record { org_id = o; resource = resource }) then none else found)
  unfolding drop_tagged has_tag tag_eq
  drop_tagged_twice resource none known = ground arith
  drop_tagged_twice (list_page query) (some x) known = let t = known x refl in ground arith
  drop_tagged_twice all_agents (some x) known = let t = known x refl in ground arith
  drop_tagged_twice org_stats (some x) known = let t = known x refl in ground arith
  drop_tagged_twice (row id) (some x) known = let t = known x refl in ground arith
  drop_tagged_twice (messages id) (some x) known = let t = known x refl in ground arith

  drop_tagged_org :
      (resource : Resource) (found : Option (Stored B))
      → ((x : Stored B)
          → found ≡ some x
          → x.tags ≡ tags_for (record { org_id = o; resource = resource }))
      → drop_tagged (org target.org_id) found ≡ (if o == target.org_id then none else found)
  unfolding drop_tagged has_tag tag_eq
  drop_tagged_org resource none known = ground arith
  drop_tagged_org (list_page query) (some x) known = let t = known x refl in ground arith
  drop_tagged_org all_agents (some x) known = let t = known x refl in ground arith
  drop_tagged_org org_stats (some x) known = let t = known x refl in ground arith
  drop_tagged_org (row id) (some x) known = let t = known x refl in ground arith
  drop_tagged_org (messages id) (some x) known = let t = known x refl in ground arith

-- The three ways by which a write expires what it made wrong.
pub data Way : Type 0 where
  by_claim by_status by_route : Way

module _ {B : Type 0} (dc : DataCache B) where
  unfoldable pub write : {A C : Type 0} → Way → Text → Target → WriteReply A C → dc.State → dc.State
  unfolding claim_conversation set_conversation_status revalidate
  write by_claim arm target reply s = (claim_conversation dc arm target reply s).1
  write by_status arm target reply s = (set_conversation_status dc arm target reply s).1
  write by_route arm target reply s = (revalidate dc arm (some target.org_id) (some target.id) s).1

  make_calls-map :
      (tags : List Tag) (s : dc.State)
      → make_calls dc (map update_tag tags) s ≡ expire_all dc tags s
  unfolding make_calls expire_all
  make_calls-map [] s = refl
  make_calls-map (tag ∷ tags) s = make_calls-map tags (dc.expire tag s)

  make_calls-calls_for :
      (tags : List Tag) (s : dc.State) → make_calls dc (calls_for tags) s ≡ expire_all dc tags s
  unfolding calls_for make_calls expire_all
  make_calls-calls_for [] s = refl
  make_calls-calls_for (tag ∷ tags) s = make_calls-map tags (dc.expire tag s)

  pub write-expire_all :
      {A C : Type 0} (way : Way) (arm : Text) (target : Target) (reply : WriteReply A C)
      (s : dc.State)
      → write way arm target reply s ≡ expire_all dc (tags_after_write (cache_arm arm) target) s
  unfolding write claim_conversation set_conversation_status revalidate expire_after_write
  write-expire_all by_claim arm target reply s =
      make_calls-calls_for (tags_after_write (cache_arm arm) target) s
  write-expire_all by_status arm target reply s =
      make_calls-calls_for (tags_after_write (cache_arm arm) target) s
  write-expire_all by_route arm target reply s = refl

  -- Every entry has the tags of its source.
  abbrev pub IsTagged : dc.State → Type 0
  IsTagged s =
      (now : ℕ) (source : Source) (x : Stored B)
      → dc.get now s source ≡ some x
      → x.tags ≡ tags_for source

  get-expire_all :
      (arm : CacheArm) (target : Target) (s : dc.State) (now : ℕ) (source : Source)
      → IsTagged s
      → dc.get now (expire_all dc (tags_after_write arm target) s) source
        ≡ (if expires arm target source then none else dc.get now s source)
  unfolding expire_all tags_after_write
  get-expire_all nostore target s now source known = refl
  get-expire_all cached target s now source known = refl
  get-expire_all tagged target s now source known =
      let row_gone = dc.expire (conversation target.id) s in
      dc.get-expire now (conversations target.org_id) source row_gone
      ∙ ap (drop_tagged (conversations target.org_id))
          (dc.get-expire now (conversation target.id) source s)
      ∙ drop_tagged_twice target source.org_id source.resource (dc.get now s source)
          (known now source)
  get-expire_all blanket target s now source known =
      dc.get-expire now (org target.org_id) source s
      ∙ drop_tagged_org target source.org_id source.resource (dc.get now s source)
          (known now source)

  -- What a write does to the cache, by whichever way it is told: on `tagged` it expires the
  -- entries of the row, of its messages and of the organisation's lists, on `blanket` those
  -- of the organisation, and on the other arms none. Every other entry stays as it is. It
  -- takes a cache whose entries have the tags of their sources.
  pub get-write :
      {A C : Type 0} (way : Way) (arm : Text) (target : Target) (reply : WriteReply A C)
      (s : dc.State) (now : ℕ) (source : Source)
      → IsTagged s
      → dc.get now (write way arm target reply s) source
        ≡ (if expires (cache_arm arm) target source then none else dc.get now s source)
  get-write way arm target reply s now source known =
      ap (λ t. dc.get now t source) (write-expire_all way arm target reply s)
      ∙ get-expire_all (cache_arm arm) target s now source known
