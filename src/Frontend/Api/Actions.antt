-- ===== src/Frontend/Api/Actions.antt =====
-- The writes: the Server Actions of apps/frontend/app/conversations/actions.ts with what they
-- call in apps/frontend/lib/api.ts, and the route of
-- apps/frontend/app/api/revalidate/route.ts.
pub mod Expired
pub mod Fresh
pub mod Held
use drills.Prelude.{ℕ, Bool, true, false, Option, none, some, List, [], ◌∷◌, ◌++◌, map}
use drills.Prelude.Text.{Text}
use drills.Frontend.Api.{DataCache}
use drills.Frontend.Arms.{CacheArm, cache_arm, Tag, Target, tags_after_write}

-- `message` of an error's body.
pub data ApiMessage : Type 0 where
  one : Text → ApiMessage
  several : List Text → ApiMessage

pub record ErrorBody (C : Type 0) : Type 0 where
  pub message : Option ApiMessage
  pub current : Option C

-- What the API says to a write. A body that is not JSON is none.
pub data WriteReply (A C : Type 0) : Type 0 where
  accepted : A → WriteReply A C
  rejected : ℕ → Option (ErrorBody C) → WriteReply A C
  broke : Text → WriteReply A C

pub data Message : Type 0 where
  text : Text → Message
  api_responded : ℕ → Message

pub data WriteResult (A C : Type 0) : Type 0 where
  written : A → WriteResult A C
  refused : ℕ → Message → Option C → WriteResult A C

-- `join(', ')`
unfoldable pub joined : List Text → Text
joined [] = []
joined (m ∷ []) = m
joined (m ∷ n ∷ rest) = m ++ (b',' ∷ b' ' ∷ joined (n ∷ rest))

unfoldable pub message_of : ℕ → Option ApiMessage → Message
unfolding joined
message_of status none = api_responded status
message_of status (some (one m)) = text m
message_of status (some (several ms)) = text (joined ms)

module _ {A C : Type 0} where
  -- `assignConversation`, after its request.
  unfoldable pub assign_conversation : WriteReply A C → WriteResult A C
  unfolding message_of
  assign_conversation (accepted a) = written a
  assign_conversation (rejected status none) = refused status (api_responded status) none
  assign_conversation (rejected status (some body)) =
      refused status (message_of status body.message) body.current
  assign_conversation (broke m) = refused 0 (text m) none

  -- `updateConversationStatus`, after its request.
  unfoldable pub update_conversation_status : WriteReply A C → WriteResult A C
  unfolding message_of
  update_conversation_status (accepted a) = written a
  update_conversation_status (rejected status none) = refused status (api_responded status) none
  update_conversation_status (rejected status (some body)) =
      refused status (message_of status body.message) none
  update_conversation_status (broke m) = refused 0 (text m) none

-- What a write asks of the cache of Next.
pub data CacheCall : Type 0 where
  refresh : CacheCall
  update_tag : Tag → CacheCall

unfoldable pub calls_for : List Tag → List CacheCall
calls_for [] = refresh ∷ []
calls_for (tag ∷ tags) = map update_tag (tag ∷ tags)

module _ {B : Type 0} (dc : DataCache B) where
  -- `refresh` keeps every entry.
  unfoldable pub make_calls : List CacheCall → dc.State → dc.State
  make_calls [] s = s
  make_calls (refresh ∷ calls) s = make_calls calls s
  make_calls (update_tag tag ∷ calls) s = make_calls calls (dc.expire tag s)

  unfoldable pub expire_after_write : CacheArm → Target → dc.State → List Tag × dc.State
  unfolding make_calls calls_for tags_after_write
  expire_after_write arm target s =
      let expired = tags_after_write arm target in (expired, make_calls (calls_for expired) s)

  -- `claimConversation`, after the API has answered.
  unfoldable pub claim_conversation :
      {A C : Type 0} → Text → Target → WriteReply A C → dc.State → WriteResult A C × dc.State
  unfolding assign_conversation expire_after_write cache_arm
  claim_conversation arm target reply s =
      (assign_conversation reply, (expire_after_write (cache_arm arm) target s).1)

  -- `setConversationStatus`, after the API has answered. What came of it is only logged.
  unfoldable pub set_conversation_status :
      {A C : Type 0} → Text → Target → WriteReply A C → dc.State → WriteResult A C × dc.State
  unfolding update_conversation_status expire_after_write cache_arm
  set_conversation_status arm target reply s =
      (update_conversation_status reply, (expire_after_write (cache_arm arm) target s).1)

  -- `revalidateTag` with `expire: 0`
  unfoldable pub expire_all : List Tag → dc.State → dc.State
  expire_all [] s = s
  expire_all (tag ∷ tags) s = expire_all tags (dc.expire tag s)

  -- The route's POST: the tags that were expired, or none for a 400.
  unfoldable pub revalidate : Text → Option ℕ → Option ℕ → dc.State → Option (List Tag) × dc.State
  unfolding expire_all cache_arm tags_after_write
  revalidate arm (some o) (some id) s =
      let expired = tags_after_write (cache_arm arm) (record { org_id = o; id = id }) in
      (some expired, expire_all expired s)
  revalidate arm none id s = (none, s)
  revalidate arm (some o) none s = (none, s)
