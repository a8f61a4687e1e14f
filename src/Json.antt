-- ===== src/Json.antt =====
-- The values that `JSON.parse` gives. A number is kept as its digits, which no source here computes
-- with; the members of an object are listed in order, and a later one hides an earlier one.
use accp.Prelude.{Bool, Option, none, some, if◌then◌else◌}
use accp.Text.{Text, text_eq}

mutual
  pub data Json : Type 0 where
    null : Json
    bool : Bool → Json
    num : Text → Json
    str : Text → Json
    arr : Items → Json
    obj : Members → Json

  pub data Items : Type 0 where
    nil : Items
    cons : Json → Items → Items

  pub data Members : Type 0 where
    end : Members
    member : Text → Json → Members → Members

abbrev earlier : Option Json → Option Json → Option Json
earlier none found = found
earlier (some v) found = some v

-- Reading a property: `undefined` is `none`.
unfoldable pub property : Text → Members → Option Json
property key end = none
property key (member k v rest) =
    earlier (property key rest) (if text_eq k key then some v else none)
