-- ===== src/FlowMon/Listing.antt =====
-- List: the flows that pass a filter, sorted and cut into pages. Expired flows go on the way.
pub mod Found
pub mod Columns
pub mod Pages
use hao_vpn.Prelude.{
  ℕ, suc, ◌+◌, Bool, true, false, ◌&&◌, ◌||◌, not, List, [], ◌∷◌, ◌++◌, Text, text_beq, nat_beq,
  ltb, leb, if◌then◌else◌, length, take, drop, codes,
}
use hao_vpn.Prelude.Int.{ℤ, pos, pos_part, leb_ℤ}
use hao_vpn.Prelude.Map.{Map, remove}
use hao_vpn.Prelude.Sort.{sort_by}
use hao_vpn.NetUtil.Strings.{trim_space, contains_text}
use hao_vpn.FlowMon.{Tracker}
use hao_vpn.FlowMon.Key.{FlowKey, key_eq}
use hao_vpn.FlowMon.Shards.{Flow, Shard}
use hao_vpn.FlowMon.Observe.{is_expired, purge}
use hao_vpn.FlowMon.SortQuery.{
  SortKey, SortColumn, rx_bytes, tx_bytes, packets_in, packets_out, last_seen,
}

unfoldable pub proto_name : ℕ → Text
proto_name p =
    if nat_beq p 1
    then codes "ICMP"
    else if nat_beq p 6
    then codes "TCP"
    else if nat_beq p 17
    then codes "UDP"
    else codes "IP"

-- The key and the flow; the other fields of the source's Snapshot are read off them.
pub record Snapshot : Type 0 where
  pub key : FlowKey
  pub flow : Flow

-- Numbers that are not positive do not restrict.
pub record ListFilter : Type 0 where
  pub user_id : ℕ
  pub proto : ℕ
  pub src_ip : Text
  pub dst_ip : Text
  pub sort : List SortKey
  pub limit : ℤ
  pub offset : ℤ

abbrev pub passes_filter : ListFilter → FlowKey → Bool
passes_filter f k =
    (nat_beq f.user_id 0 || nat_beq k.user_id f.user_id)
    && ((nat_beq f.proto 0 || nat_beq k.proto f.proto)
        && ((text_beq (trim_space f.src_ip) [] || contains_text k.src_ip (trim_space f.src_ip))
            && (text_beq (trim_space f.dst_ip) [] || contains_text k.dst_ip (trim_space f.dst_ip))))

-- The snapshots of one shard.
unfoldable pub collect : ℕ → ℕ → ListFilter → Map FlowKey Flow → List Snapshot
collect now ttl f [] = []
collect now ttl f ((k, fl) ∷ m) =
    let rest = collect now ttl f m in
    if is_expired now ttl fl
    then rest
    else if passes_filter f k
    then record { key = k; flow = fl } ∷ rest
    else rest

-- How `range` goes over the entries of each map, which Go leaves open and changes from call to call.
abbrev pub Iteration : Type 0
Iteration = Map FlowKey Flow → Map FlowKey Flow

unfoldable pub collect_all : ℕ → ℕ → ListFilter → Iteration → List Shard → List Snapshot
unfolding collect
collect_all now ttl f range [] = []
collect_all now ttl f range (sh ∷ shards) =
    collect now ttl f (range sh.by_key) ++ collect_all now ttl f range shards

unfoldable pub purge_all : ℕ → ℕ → List Shard → List Shard
unfolding purge
purge_all now ttl [] = []
purge_all now ttl (sh ∷ shards) =
    record sh { by_key = purge now ttl sh.by_key } ∷ purge_all now ttl shards

-- The number that a column compares.
unfoldable pub column_value : SortColumn → Snapshot → ℕ
column_value rx_bytes s = s.flow.bytes_in
column_value tx_bytes s = s.flow.bytes_out
column_value packets_in s = s.flow.packets_in
column_value packets_out s = s.flow.packets_out
column_value last_seen s = s.flow.last_seen

-- The comparison of the sort: the first column that differs decides.
unfoldable pub before : List SortKey → Snapshot → Snapshot → Bool
unfolding column_value
before [] a b = false
before (k ∷ keys) a b =
    let x = column_value k.column a in
    let y = column_value k.column b in
    let later = before keys a b in
    if nat_beq x y then later else if k.is_asc then ltb x y else ltb y x

abbrev pub newest_first : List SortKey
newest_first = record { column = last_seen; is_asc = false } ∷ []

abbrev pub sort_keys_of : ListFilter → List SortKey
sort_keys_of f = elim f.sort [ [] ↦ newest_first | k ∷ ks ↦ k ∷ ks ]

-- The page of the offset and limit; `xs[offset:end]`.
unfoldable pub page : ℤ → ℤ → List Snapshot → List Snapshot
page limit offset xs =
    let start = pos_part offset in
    let size = if leb_ℤ limit (pos 0) then 50 else pos_part limit in
    if leb (length xs) start then [] else take size (drop start xs)

unfoldable pub list_flows : ℕ → ListFilter → Iteration → Tracker → Tracker × List Snapshot × ℕ
unfolding collect_all purge_all before page
list_flows now f range t =
    let found = sort_by (before (sort_keys_of f)) (collect_all now t.ttl f range t.shards) in
    (record t { shards = purge_all now t.ttl t.shards }, page f.limit f.offset found, length found)
