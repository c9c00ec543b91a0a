-- ===== src/Frontend/Arms.antt =====
-- The arms of CACHE, the tags and the policies of apps/frontend/lib/api.ts. Ids are numbers, so
-- that a tag names what it is made of.
use drills.Prelude.{ℕ, Bool, false, Option, List, [], ◌∷◌, ◌==◌, if◌then◌else◌}
use drills.Prelude.Text.{Text, text_eq}

pub data CacheArm : Type 0 where
  nostore cached tagged blanket : CacheArm

abbrev nostore_text : Text
nostore_text = b'n' ∷ b'o' ∷ b's' ∷ b't' ∷ b'o' ∷ b'r' ∷ b'e' ∷ []

abbrev cached_text : Text
cached_text = b'c' ∷ b'a' ∷ b'c' ∷ b'h' ∷ b'e' ∷ b'd' ∷ []

abbrev blanket_text : Text
blanket_text = b'b' ∷ b'l' ∷ b'a' ∷ b'n' ∷ b'k' ∷ b'e' ∷ b't' ∷ []

-- `cacheArm`
unfoldable pub cache_arm : Text → CacheArm
cache_arm value =
    if text_eq value nostore_text
    then nostore
    else if text_eq value cached_text
    then cached
    else if text_eq value blanket_text
    then blanket
    else tagged

-- `tags`
pub data Tag : Type 0 where
  org conversations agents stats : ℕ → Tag
  conversation : ℕ → Tag

unfoldable pub tag_eq : Tag → Tag → Bool
tag_eq (org o) (org p) = o == p
tag_eq (conversations o) (conversations p) = o == p
tag_eq (agents o) (agents p) = o == p
tag_eq (stats o) (stats p) = o == p
tag_eq (conversation i) (conversation j) = i == j
tag_eq _ _ = false

-- The conversation that is written, and its organisation.
pub record Target : Type 0 where
  pub org_id : ℕ
  pub id : ℕ

unfoldable pub tags_after_write : CacheArm → Target → List Tag
tags_after_write nostore target = []
tags_after_write cached target = []
tags_after_write tagged target = conversation target.id ∷ conversations target.org_id ∷ []
tags_after_write blanket target = org target.org_id ∷ []

pub data CachePolicy : Type 0 where
  no_store : CachePolicy
  force_cache : List Tag → Option ℕ → CachePolicy

unfoldable pub policy_for : CacheArm → List Tag → Option ℕ → CachePolicy
policy_for nostore cache_tags revalidate = no_store
policy_for cached cache_tags revalidate = force_cache cache_tags revalidate
policy_for tagged cache_tags revalidate = force_cache cache_tags revalidate
policy_for blanket cache_tags revalidate = force_cache cache_tags revalidate
