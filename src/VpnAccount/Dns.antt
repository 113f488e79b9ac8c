-- ===== src/VpnAccount/Dns.antt =====
-- dns_write.go, dns_servers.go and dns_normalize.go: managed DNS servers, whom they are for, and the
-- marks that their writes leave. Servers stand in the order of their ids; a new one's id is an
-- argument. Times are left out.
mod Heard
pub mod Told
use hao_vpn.Prelude.{
  ℕ, Bool, true, false, ◌&&◌, ◌||◌, not, List, [], ◌∷◌, ◌++◌, Option, none, some, Text, text_beq,
  nat_beq, ltb, any, map, length, if◌then◌else◌, Result, ok, err, codes,
}
use hao_vpn.Prelude.Sort.{sort_by}
use hao_vpn.Net.{Text6}
use hao_vpn.NetUtil.Strings.{trim_space, mem_text}
use hao_vpn.VpnAccount.{normalize_ipv4}
use hao_vpn.VpnAccount.Tables.{Database, filter}
use hao_vpn.VpnAccount.Apply.{
  Applier, has_user, has_all_members, mark_all, mark_users, mark_members_union,
  normalize_member_user_ids, members_from,
}
use hao_vpn.VpnAccount.Writes.{is_vpn_user}

pub record DnsServer : Type 0 where
  pub id : ℕ
  pub dns_ip : Text
  pub remark : Text
  pub source : Text
  pub member_user_ids : List ℕ
  pub exclude_user_ids : List ℕ

pub data DnsError : Type 0 where
  bad_dns_ip no_dns_members bad_account dns_ip_exists dns_not_found is_config not_for_all : DnsError

pub record DnsPolicy : Type 0 where
  pub applier : Applier
  pub tables : Database
  pub servers : List DnsServer

abbrev pub dns_source_manual : Text
dns_source_manual = codes "manual"

abbrev pub is_config_source : DnsServer → Bool
is_config_source d = text_beq d.source (codes "config")

-- NormalizeExcludeUserIDs: repeated ids and 0 are left out.
unfoldable pub normalize_exclude_user_ids : List ℕ → List ℕ
unfolding members_from
normalize_exclude_user_ids = members_from []

-- validateDNSMemberIDs, and validateDNSExcludeIDs on ids that are not 0.
abbrev pub are_dns_accounts : List ℕ → Database → Bool
are_dns_accounts ids tb = not (any (λ id. not (nat_beq id 0) && not (is_vpn_user id tb)) ids)

abbrev pub dns_applies_to_user : List ℕ → List ℕ → ℕ → Bool
dns_applies_to_user members excludes user =
    not (nat_beq user 0)
    && (if has_all_members members then not (has_user user excludes) else has_user user members)

abbrev pub applies : ℕ → DnsServer → Bool
applies user d = dns_applies_to_user d.member_user_ids d.exclude_user_ids user

unfoldable pub ips_from : List Text → List Text → List Text
ips_from out [] = out
ips_from out (ip ∷ ips) =
    if mem_text ip out then ips_from out ips else ips_from (out ++ (ip ∷ [])) ips

unfoldable pub list_dns_ips_for_user : ℕ → List DnsServer → List Text
unfolding ips_from filter
list_dns_ips_for_user user ds =
    ips_from [] (map {A = DnsServer} (λ d. d.dns_ip) (filter (applies user) ds))

unfoldable pub get_dns_server : ℕ → List DnsServer → Option DnsServer
get_dns_server id [] = none
get_dns_server id (d ∷ ds) = if nat_beq d.id id then some d else get_dns_server id ds

unfoldable pub update_dns_server : ℕ → (DnsServer → DnsServer) → List DnsServer → List DnsServer
update_dns_server id f [] = []
update_dns_server id f (d ∷ ds) =
    if nat_beq d.id id then f d ∷ ds else d ∷ update_dns_server id f ds

unfoldable pub remove_dns_server : ℕ → List DnsServer → List DnsServer
remove_dns_server id [] = []
remove_dns_server id (d ∷ ds) = if nat_beq d.id id then ds else d ∷ remove_dns_server id ds

-- SymmetricDiffUserIDs, of ids that are positive.
unfoldable pub symmetric_diff_user_ids : List ℕ → List ℕ → List ℕ
unfolding filter
symmetric_diff_user_ids a b =
    filter (λ id. ltb 0 id && not (has_user id b)) a
    ++ filter (λ id. ltb 0 id && not (has_user id a)) b

unfoldable pub mark_dns_dirty : List ℕ → List ℕ → Applier → Applier
unfolding mark_all mark_users
mark_dns_dirty members excludes p =
    if has_all_members members then mark_all p else mark_users (members ++ excludes) p

abbrev pub dns_members_set : List ℕ → DnsServer → DnsServer
dns_members_set members d = record d {
  member_user_ids = sort_by ltb members;
  exclude_user_ids = if has_all_members members then d.exclude_user_ids else [];
}

abbrev pub dns_excludes_set : List ℕ → DnsServer → DnsServer
dns_excludes_set excludes d = record d { exclude_user_ids = sort_by ltb excludes }

unfoldable pub update_dns_server_remark :
    ℕ → Text → DnsPolicy → DnsPolicy × Result DnsError (Unit {0})
update_dns_server_remark id text s = elim (get_dns_server id s.servers) [
  | none ↦ (s, err dns_not_found)
  | some d ↦ (
    record s {
      servers = update_dns_server id (λ d. record d { remark = trim_space text }) s.servers;
    },
    ok tt,
  )
]

unfoldable pub replace_dns_server_members :
    ℕ → List ℕ → DnsPolicy → DnsPolicy × Result DnsError (Unit {0})
replace_dns_server_members id member_ids s = elim (get_dns_server id s.servers) [
  | none ↦ (s, err dns_not_found)
  | some old ↦
      let members = normalize_member_user_ids member_ids in
      if is_config_source old
      then (s, err is_config)
      else if nat_beq (length members) 0
      then (s, err no_dns_members)
      else if not (are_dns_accounts members s.tables)
      then (s, err bad_account)
      else (
        record s {
          applier = mark_members_union old.member_user_ids (sort_by ltb members) s.applier;
          servers = update_dns_server id (dns_members_set members) s.servers;
        },
        ok tt,
      )
]

unfoldable pub replace_dns_server_excludes :
    ℕ → List ℕ → DnsPolicy → DnsPolicy × Result DnsError (Unit {0})
replace_dns_server_excludes id exclude_ids s = elim (get_dns_server id s.servers) [
  | none ↦ (s, err dns_not_found)
  | some old ↦
      let excludes = normalize_exclude_user_ids exclude_ids in
      if not (has_all_members old.member_user_ids)
      then (s, err not_for_all)
      else if not (are_dns_accounts excludes s.tables)
      then (s, err bad_account)
      else (
        record s {
          applier =
              mark_users (symmetric_diff_user_ids old.exclude_user_ids (sort_by ltb excludes))
                s.applier;
          servers = update_dns_server id (dns_excludes_set excludes) s.servers;
        },
        ok tt,
      )
]

unfoldable pub delete_dns_server : ℕ → DnsPolicy → DnsPolicy × Result DnsError (Unit {0})
delete_dns_server id s = elim (get_dns_server id s.servers) [
  | none ↦ (s, err dns_not_found)
  | some old ↦ if is_config_source old then (s, err is_config) else (
    record s {
      applier = mark_dns_dirty old.member_user_ids old.exclude_user_ids s.applier;
      servers = remove_dns_server id s.servers;
    },
    ok tt,
  )
]

-- A new row, with the excluded accounts of one that is for all.
abbrev pub new_dns_server : ℕ → Text → Text → List ℕ → List ℕ → DnsServer
new_dns_server id ip text members excludes = record {
  id = id;
  dns_ip = ip;
  remark = trim_space text;
  source = dns_source_manual;
  member_user_ids = sort_by ltb members;
  exclude_user_ids = if has_all_members members then sort_by ltb excludes else [];
}

-- CreateDNSServer; the members of `ApplyAll` are those of the list [0].
unfoldable pub create_dns_server :
    Text6 → ℕ → Text → Text → List ℕ → List ℕ → DnsPolicy → DnsPolicy × Result DnsError (Unit {0})
create_dns_server t id dns_ip text member_ids exclude_ids s = elim (normalize_ipv4 t dns_ip) [
  | none ↦ (s, err bad_dns_ip)
  | some ip ↦
      let members = normalize_member_user_ids member_ids in
      let excludes = normalize_exclude_user_ids exclude_ids in
      let d = new_dns_server id ip text members excludes in
      if nat_beq (length members) 0
      then (s, err no_dns_members)
      else if not (are_dns_accounts members s.tables)
          || (has_all_members members && not (are_dns_accounts excludes s.tables))
      then (s, err bad_account)
      else if any (λ k. text_beq k.dns_ip ip) s.servers
      then (s, err dns_ip_exists)
      else (
        record s {
          applier = mark_dns_dirty d.member_user_ids d.exclude_user_ids s.applier;
          servers = s.servers ++ (d ∷ []);
        },
        ok tt,
      )
]
