-- ===== src/Template/Library.antt =====
-- The values that encoding/json decodes to, and the functions of Go's standard library whose
-- results the templates only pass on.
use kubezap_operator.Base.{ℕ, String, Bool, Option, none, some, List, ◌==◌, if◌then◌else◌}
use kubezap_operator.Base.Int.{ℤ}
use kubezap_operator.Base.Assoc.{Assoc}

mutual
  -- A number is the 64 bits of its float64.
  pub data Json : Type 0 where
    null : Json
    boolean : Bool → Json
    number : ℕ → Json
    string : String → Json
    array : Items → Json
    object : Fields → Json

  pub data Items : Type 0 where
    end : Items
    item : Json → Items → Items

  pub data Fields : Type 0 where
    empty : Fields
    field : String → Json → Fields → Fields

-- `v, ok := node[key]`
unfoldable pub field_at : String → Fields → Option Json
field_at key empty = none
field_at key (field name v rest) = if name == key then some v else field_at key rest

-- `node[idx]`, none out of range.
unfoldable pub item_at : ℕ → Items → Option Json
item_at i end = none
item_at ℕ.zero (item v rest) = some v
item_at (ℕ.suc i) (item v rest) = item_at i rest

pub record Library : Type 0 where
  -- json.Unmarshal, of a text that is JSON.
  pub parse_json : String → Option Json
  -- url.ParseQuery.
  pub parse_query : String → Option (Assoc (List String))
  -- The media type of mime.ParseMediaType.
  pub parse_media_type : String → Option String
  pub trim_space : String → String
  pub equal_fold : String → String → Bool
  pub to_lower : String → String
  -- strconv.Atoi.
  pub atoi : String → Option ℤ
  -- strconv.FormatFloat(·, 'f', -1, 64), of the bits.
  pub format_float : ℕ → String
  -- fmt.Sprintf("%d", ·).
  pub format_int : ℤ → String
  -- Sprintf("%v", ·), of any value.
  pub show_value : Json → String
  -- json.Marshal.
  pub marshal : Json → Option String
  -- The RFC 3339 text of an instant, in UTC.
  pub format_time : ℤ → String
