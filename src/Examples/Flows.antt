-- ===== src/Examples/Flows.antt =====
-- A flow table that keeps one flow for an account, and one with two flows.
use mathlib.Core.List.{reverse}
use mathlib.Core.List.Permᴰ
use hao_vpn.Prelude.{
  ℕ, zero, suc, map, inl, inr, ◌≡◌, ◌≤◌, ◌*◌, refl, List, [], ◌∷◌, some, codes, arith, length, All,
  Exists, true, false,
}
use hao_vpn.Prelude.Int.{pos}
use hao_vpn.Prelude.Map.{get, put, remove}
use hao_vpn.Prelude.Sort.{sort_by}
use hao_vpn.NetUtil.Strings.{trim_space}
use hao_vpn.FlowMon.{Tracker, new}
use hao_vpn.FlowMon.Key.{FlowKey, key_eq, dir_in, shard_index}
use hao_vpn.FlowMon.Shards.{Flow, Shard, get_elem?, count_user}
use hao_vpn.FlowMon.Observe.{is_expired, bump, new_flow, insert, make_room}
use hao_vpn.FlowMon.Observe.Cap.{Call, looked_up, inserted, listed, after, after-new_capped}
use hao_vpn.FlowMon.Listing.{
  ListFilter, Iteration, purge_all, column_value, list_flows, passes_filter, before, sort_keys_of,
  collect_all, page,
}
use hao_vpn.FlowMon.Listing.Found.{Belongs, Sorted, as_stored}
use hao_vpn.FlowMon.Listing.Pages.{pages, pages-whole, StandsOut}
use hao_vpn.FlowMon.Listing.Columns.{IsRange}

abbrev ping_key : FlowKey
ping_key = record {
  user_id = 7;
  src_ip = codes "10.88.0.2";
  dst_ip = codes "192.168.5.9";
  proto = 1;
  sport = 0;
  dport = 0;
}

abbrev web_key : FlowKey
web_key = record {
  user_id = 7;
  src_ip = codes "10.88.0.2";
  dst_ip = codes "192.168.5.8";
  proto = 6;
  sport = 40000;
  dport = 80;
}

-- Two flows and a listing, with room for one.
abbrev calls : List Call
calls =
    looked_up 10 84 dir_in ping_key
    ∷ inserted 10 84 dir_in ping_key
    ∷ inserted 11 60 dir_in web_key
    ∷ listed 12 3
    ∷ []

after-new_capped_example :
    count_user 7 (after calls (new (pos 0) (pos 1) (pos 0))).shards
    ≤ (new (pos 0) (pos 1) (pos 0)).max_per_user
after-new_capped_example = after-new_capped (pos 0) (pos 1) (pos 0) calls 7

abbrev table : Tracker
table = new (pos 1000) (pos 8) (pos 0)

abbrev two_flows : Tracker
two_flows = insert 21 60 dir_in web_key (insert 20 84 dir_in ping_key table)

abbrev all_flows : ListFilter
all_flows = record {
  user_id = 7;
  proto = 0;
  src_ip = [];
  dst_ip = codes "192.168";
  sort = [];
  limit = pos 0;
  offset = pos 0;
}

-- The shard of the web flow, and the flow.
abbrev web_flow : Flow
web_flow = bump 21 60 dir_in (new_flow 21)

abbrev web_shard : Shard
web_shard = record { by_key = (web_key, web_flow) ∷ []; observe_n = 0 }

-- Every other page is read with the maps turned round.
abbrev turning : ℕ → Iteration
turning zero m = m
turning (suc zero) m = reverse m
turning (suc (suc j)) m = turning j m

turning-IsRange : (j : ℕ) → IsRange (turning j)
turning-IsRange zero m = Permᴰ.refl m
turning-IsRange (suc zero) m = Permᴰ.reverse m
turning-IsRange (suc (suc j)) m = turning-IsRange j m

pages-whole_example :
    let shown = pages 1 2 0 30 all_flows turning two_flows in
    All (Belongs 30 two_flows.ttl all_flows) shown
    × Sorted (before (sort_keys_of all_flows)) shown
    × (length shown ≡ (list_flows 30 all_flows (turning 0) two_flows).2)
    × Exists (λ s. s ≡ record { key = web_key; flow = web_flow }) shown
pages-whole_example =
    pages-whole 1 2 30 (shard_index web_key) all_flows turning two_flows web_shard web_key web_flow
      (omega arith) turning-IsRange two held there (fresh, passes) alone
  where
    two : (list_flows 30 all_flows (turning 0) two_flows).2 ≤ 2 * 1
    two =
        unfold list_flows new insert shard_index get put remove collect_all trim_space sort_by
          before page make_room count_user in
        omega arith

    held : get_elem? two_flows.shards (shard_index web_key) ≡ some web_shard
    held = unfold new insert shard_index get put remove make_room count_user in refl

    there : get web_key web_shard.by_key ≡ some web_flow
    there = unfold get in refl

    fresh : is_expired 30 two_flows.ttl web_flow ≡ false
    fresh = unfold new insert shard_index get count_user in refl

    passes : passes_filter all_flows web_key ≡ true
    passes = unfold trim_space in refl

    alone :
        StandsOut
          (sort_keys_of all_flows)
          (collect_all 30 two_flows.ttl all_flows as_stored two_flows.shards)
          (record { key = web_key; flow = web_flow })
    alone =
        unfold new insert shard_index get put remove collect_all trim_space make_room count_user
          column_value in
        (inl refl, (inr (λ e. ground (arith, e)), tt))

-- Two flows that were last seen together, in one shard.
abbrev tied_flows : Tracker
tied_flows = record table {
  shards = record { by_key = (ping_key, web_flow) ∷ (web_key, web_flow) ∷ []; observe_n = 0 } ∷ [];
}

-- Read one by one, the pages show one of them twice.
twice : map (λ s. s.key) (pages 1 2 0 30 all_flows turning tied_flows) ≡ ping_key ∷ ping_key ∷ []
twice =
    unfold pages list_flows collect_all trim_space sort_by before page purge_all column_value new in
    refl
