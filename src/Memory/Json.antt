-- ===== src/Memory/Json.antt =====
-- The values that `json.loads` returns. A number with a fraction is its text; the names of an object are
-- distinct.
use tricoder_agent.Base.{
  String, Bool, ℤ, Text, List, [], ◌∷◌, if◌then◌else◌, ◌==◌, string_eq, Result, ok, err, ◌&&◌, all,
  contains,
}
use tricoder_agent.Memory.{MemoryError, key_error}

mutual
  pub data Json : Type 0 where
    null : Json
    boolean : Bool → Json
    int : ℤ → Json
    float : Text → Json
    string : Text → Json
    array : Items → Json
    object : Members → Json

  pub data Items : Type 0 where
    nil : Items
    cons : Json → Items → Items

  pub data Members : Type 0 where
    end : Members
    member : String → Json → Members → Members

-- `value[name]` of a dictionary.
unfoldable pub field : Members → String → Result MemoryError Json
field end name = err key_error
field (member key value rest) name =
    let found = field rest name in if key == name then ok value else found

unfoldable pub names : Members → List String
names end = []
names (member key value rest) = key ∷ names rest

-- `set(value) == fields`.
unfoldable pub has_fields : Members → List String → Bool
unfolding names
has_fields value fields = all (contains fields) (names value) && all (contains (names value)) fields
