-- ===== src/Controller/Injection/Cel.antt =====
-- celOf and celLiteral of internal/controller/injection.go: an object's JSON as a CEL literal.
use wireguard_operator.Prelude.{Str, Bool, true, false, List, [], ◌∷◌, ◌++◌, map, text, join}
use wireguard_operator.Prelude.Sort.{sort}
use wireguard_operator.Api.Exec.{Result, ok, err}
use wireguard_operator.Controller.Gateway.{text_before}

-- Decoded JSON. A number is the text that strconv.FormatFloat gives it, and the members of an object
-- stand in any order.
mutual
  pub data Json : Type 0 where
    json_object : Members → Json
    json_array : Items → Json
    json_string : Str → Json
    json_number : Str → Json
    json_bool : Bool → Json

  pub data Members : Type 0 where
    no_members : Members
    member : Str → Json → Members → Members

  pub data Items : Type 0 where
    no_items : Items
    item : Json → Items → Items

unfoldable pub dyn : Str → Str
unfolding text
dyn cel = text "dyn(" ++ (cel ++ text ")")

unfoldable pub bool_text : Bool → Str
unfolding text
bool_text true = text "true"
bool_text false = text "false"

unfoldable pub keyed_before : Str × Str → Str × Str → Bool
keyed_before (j, x) (k, y) = text_before j k

-- strconv.Quote is a parameter
module _ (quote : Str → Str) where
  unfoldable pub member_text : Str × Str → Str
  unfolding text dyn
  member_text (k, cel) = quote k ++ (text ": " ++ dyn cel)

  unfoldable mutual
    unfolding text dyn bool_text member_text keyed_before

    -- celLiteral
    pub cel_literal : Json → Str
    cel_literal (json_object ms) =
        text "{"
        ++ (join (map member_text (sort keyed_before (cel_members ms))) (text ", ") ++ text "}")
    cel_literal (json_array es) = text "[" ++ (join (cel_items es) (text ", ") ++ text "]")
    cel_literal (json_string s) = quote s
    cel_literal (json_number n) = n
    cel_literal (json_bool b) = bool_text b

    pub cel_members : Members → List (Str × Str)
    cel_members no_members = []
    cel_members (member k v ms) = (k, cel_literal v) ∷ cel_members ms

    pub cel_items : Items → List Str
    cel_items no_items = []
    cel_items (item e es) = dyn (cel_literal e) ∷ cel_items es

  -- celOf, of what json.Marshal and json.Unmarshal give
  unfoldable pub cel_of : Result Json → Result Str
  cel_of (ok v) = ok (cel_literal v)
  cel_of (err e) = err e
