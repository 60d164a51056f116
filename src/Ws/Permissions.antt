-- ===== src/Ws/Permissions.antt =====
-- engine/api/ws/permissions.py: who may subscribe to a channel, and to which room. The values of the
-- parameters are texts.
use Prim.Native.String.{◌++◌ as ◌<>◌}
use nexus_trade_engine.Prelude.{
  String, Option, none, some, Bool, true, false, List, [], ◌∷◌, if◌then◌else◌, ◌==◌, string_eq,
  contains, Dict, lookup, not, ◌&&◌,
}
use nexus_trade_engine.Prelude.Text.{truthy}

pub record PermissionCheck : Type 0 where
  pub required_scope : String
  pub all_scope : String
  pub owner_field : Option String

-- `CHANNEL_PERMISSIONS`
unfoldable pub channel_permissions : Dict String PermissionCheck
channel_permissions =
    (
      "portfolio",
      record {
        required_scope = "read:portfolio";
        all_scope = "read:portfolio:all";
        owner_field = some "account_id";
      },
    )
    ∷ (
      "orders",
      record {
        required_scope = "read:orders";
        all_scope = "read:orders:all";
        owner_field = some "account_id";
      },
    )
    ∷ (
      "strategies",
      record {
        required_scope = "read:strategies";
        all_scope = "read:strategies:all";
        owner_field = some "strategy_id";
      },
    )
    ∷ []

-- `user_id is not None and params[owner_field] != user_id`
abbrev is_other_user : Option String → Option String → Bool
is_other_user (some owner) (some user_id) = not (owner == user_id)
is_other_user _ _ = false

-- The owner that the parameters name belongs to somebody else.
abbrev pub names_other : Option String → Dict String String → Option String → Bool
names_other none params user_id = false
names_other (some field) params user_id =
    truthy field && is_other_user (lookup field params) user_id

-- Whether access is allowed, and the error code.
unfoldable pub check_channel_access :
    String → List String → Dict String String → Option String → Bool × Option String
check_channel_access channel scopes params user_id = elim (lookup channel channel_permissions) [
  | none ↦ (false, some "404")
  | some perm ↦
      if contains scopes perm.all_scope
      then (true, none)
      else if contains scopes perm.required_scope
      then if names_other perm.owner_field params user_id then (false, some "403") else (true, none)
      else (false, some "403")
]

-- `_ROOM_PARAM_MAP`
unfoldable pub room_param_map : Dict String (Dict String String)
room_param_map =
    ("portfolio", ("account_id", "portfolio:account") ∷ ("strategy_id", "portfolio:strategy") ∷ [])
    ∷ ("orders", ("symbol", "orders:symbol") ∷ ("status", "orders:status") ∷ [])
    ∷ ("strategies", ("strategy_id", "strategies:strategy") ∷ [])
    ∷ []

-- The room of the first parameter that is there and not empty.
unfoldable pub first_room : Dict String String → Dict String String → Option String
first_room [] params = none
first_room ((param_name, prefix) ∷ builders) params =
    let rest = first_room builders params in
    elim (lookup param_name params) [
      | none ↦ rest
      | some value ↦ if truthy value then some (prefix <> (":" <> value)) else rest
    ]

unfoldable pub resolve_room_name : String → Dict String String → Option String
unfolding first_room room_param_map
resolve_room_name channel params = elim (lookup channel room_param_map) [
  | none ↦ none
  | some builders ↦ first_room builders params
]
