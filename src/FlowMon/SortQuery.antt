-- ===== src/FlowMon/SortQuery.antt =====
-- ParseSortQuery: the columns that a listing is sorted by.
use hao_vpn.Prelude.{
  ℕ, Bool, List, [], ◌∷◌, Option, none, some, Text, text_beq, codes, nat_beq, if◌then◌else◌,
}
use hao_vpn.NetUtil.Strings.{trim_space, to_lower, cut_first}

pub data SortColumn : Type 0 where
  rx_bytes tx_bytes packets_in packets_out last_seen : SortColumn

-- SortKey; a direction that is not asc is desc.
pub record SortKey : Type 0 where
  pub column : SortColumn
  pub is_asc : Bool

-- validSortKey; none is a key that is passed over.
unfoldable pub sort_column : Text → Option SortColumn
sort_column s =
    if text_beq s (codes "rx_bytes")
    then some rx_bytes
    else if text_beq s (codes "tx_bytes")
    then some tx_bytes
    else if text_beq s (codes "packets_in")
    then some packets_in
    else if text_beq s (codes "packets_out")
    then some packets_out
    else if text_beq s (codes "last_seen")
    then some last_seen
    else none

-- strings.Split at one byte; `word` is the part before the rest, backwards done by appending.
unfoldable pub split : ℕ → Text → List Text
split b [] = [] ∷ []
split b (c ∷ s) = elim (split b s) [
  | [] ↦ [] ∷ []
  | w ∷ ws ↦ if nat_beq c b then [] ∷ w ∷ ws else (c ∷ w) ∷ ws
]

abbrev key_and_dir : Text → Text × Text
key_and_dir part = elim (cut_first b':' part) [ none ↦ (part, codes "desc") | some (k, d) ↦ (k, d) ]

-- One part of the query.
abbrev sort_key : Text → Option SortKey
sort_key part =
    let (key, dir) = key_and_dir part in
    let dir' = trim_space (to_lower dir) in
    elim (sort_column (trim_space (to_lower key))) [
      | none ↦ none
      | some column ↦ some (record { column = column; is_asc = text_beq dir' (codes "asc") })
    ]

sort_keys : List Text → List SortKey
unfolding sort_column
sort_keys [] = []
sort_keys (part ∷ parts) =
    let s = trim_space part in
    let rest = sort_keys parts in
    if text_beq s [] then rest else elim (sort_key s) [ none ↦ rest | some k ↦ k ∷ rest ]

unfoldable pub parse_sort_query : Text → List SortKey
unfolding split sort_keys
parse_sort_query raw =
    let s = trim_space raw in if text_beq s [] then [] else sort_keys (split b',' s)
