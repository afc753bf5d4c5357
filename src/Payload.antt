-- ===== src/Payload.antt =====
-- What the cache stores: `json.dumps([s.__dict__ for s in snapshots])`, and
-- `[FlagSnapshot(**item) for item in json.loads(raw)]` (app/cache.py). The text form is JSON's, a
-- parameter elsewhere; here an item is a dict, by the fields of `FlagSnapshot` that it has.
use thinking_feature_flag_se.Common.{
  ℕ, ◌≡◌, refl, String, Bool, false, Option, none, some, List, [], ◌∷◌, map,
}
use thinking_feature_flag_se.Values.{FlagValue}
use thinking_feature_flag_se.Evaluation.{Rule, FlagSnapshot}

-- `none` is a key that the dict lacks; `others` are its keys that no field has.
pub record Item : Type 0 where
  pub key : Option String
  pub type : Option String
  pub default_value : Option FlagValue
  pub enabled : Option Bool
  pub value : Option FlagValue
  pub rollout_percentage : Option ℕ
  pub targeting_rules : Option (List Rule)
  pub is_archived : Option Bool
  pub others : List String

-- `s.__dict__`
abbrev pub to_item : FlagSnapshot → Item
to_item s = record {
  key = some s.key;
  type = some s.type;
  default_value = some s.default_value;
  enabled = some s.enabled;
  value = some s.value;
  rollout_percentage = some s.rollout_percentage;
  targeting_rules = some s.targeting_rules;
  is_archived = some s.is_archived;
  others = [];
}

infixl 5 ◌>>=◌
abbrev ◌>>=◌ {ℓ κ} : {A : Type ℓ} {B : Type κ} → Option A → (A → Option B) → Option B
none >>= f = none
some a >>= f = f a

abbrev no_others : List String → Option (Unit {0})
no_others [] = some tt
no_others (k ∷ ks) = none

-- `archived: bool = False`
abbrev or_false : Option Bool → Bool
or_false none = false
or_false (some b) = b

-- `FlagSnapshot(**item)`; `none` is the `TypeError` for a key that is missing or unexpected.
unfoldable pub from_item : Item → Option FlagSnapshot
from_item item = do
  u ← no_others item.others
  key ← item.key
  type ← item.type
  default_value ← item.default_value
  enabled ← item.enabled
  value ← item.value
  rollout_percentage ← item.rollout_percentage
  targeting_rules ← item.targeting_rules
  some (record {
    key = key;
    type = type;
    default_value = default_value;
    enabled = enabled;
    value = value;
    rollout_percentage = rollout_percentage;
    targeting_rules = targeting_rules;
    is_archived = or_false item.is_archived;
  })

-- The comprehension: one bad item makes the whole set fail.
unfoldable pub from_items : List Item → Option (List FlagSnapshot)
unfolding from_item
from_items [] = some []
from_items (item ∷ items) = do
  snapshot ← from_item item
  snapshots ← from_items items
  some (snapshot ∷ snapshots)

-- A set of snapshots survives the way through its dicts.
pub from_items-to_items :
    (snapshots : List FlagSnapshot) → from_items (map to_item snapshots) ≡ some snapshots
unfolding from_items
from_items-to_items [] = refl
from_items-to_items (s ∷ snapshots) = rw (from_items-to_items snapshots)
