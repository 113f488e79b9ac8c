-- ===== src/Examples/Peers.antt =====
-- Writes of peers' policies in the office, and the Apply after them.
use hao_vpn.Prelude.{codes, ◌≡◌, ◌⊎◌, refl, true, false, [], ◌∷◌, List, some, arith}
use hao_vpn.VpnAccount.Tables.{get_user_by_id}
use hao_vpn.VpnAccount.Apply.{Applier, new_applier, marks_users, has_user, apply}
use hao_vpn.VpnAccount.Apply.Served.{Applied, apply-Applied}
use hao_vpn.VpnAccount.Writes.{Peers, is_vpn_user}
use hao_vpn.VpnAccount.Writes.Routes.{Same}
use hao_vpn.VpnAccount.Writes.Followed.{Write, replaces, adds, after_writes, after_writes-kicked}
use hao_vpn.VpnAccount.Writes.Marks.{is_marked}
use hao_vpn.VpnAccount.Dns.{DnsPolicy, dns_source_manual, list_dns_ips_for_user}
use hao_vpn.VpnAccount.Dns.Told.{
  DnsWrite, sets_excludes, creates_dns, after_dns_writes, after_dns_writes-marked,
}
use hao_vpn.Examples.Data.{no_text6}
use hao_vpn.Examples.Leases.{office}

-- Two accounts are marked, of which one is online.
abbrev two_marked : Applier
two_marked = record { is_all = false; ids = 2 ∷ 3 ∷ [] }

-- Bob's account is marked once more while it is being served.
apply-Applied_example :
    Applied false
      (some (2 ∷ []))
      (marks_users (2 ∷ []) ∷ [])
      office.tables
      two_marked
      (apply false (some (2 ∷ [])) (marks_users (2 ∷ []) ∷ []) office.tables two_marked)
apply-Applied_example =
    apply-Applied false (some (2 ∷ [])) (marks_users (2 ∷ []) ∷ []) office.tables two_marked
      (ground arith) (ground arith)

abbrev start : Peers
start = record { applier = new_applier; tables = office.tables }

-- The route of all becomes one of bob's own, and the two may reach each other.
abbrev two_writes : List Write
two_writes = replaces 1 (2 ∷ []) ∷ adds 2 3 ∷ []

cara_has_keys : is_vpn_user 3 office.tables ≡ true
unfolding get_user_by_id
cara_has_keys = refl

after_writes-kicked_example :
    let s' = after_writes no_text6 two_writes start in
    (has_user 3 (apply false (some (2 ∷ 3 ∷ [])) [] s'.tables s'.applier).2 ≡ true)
    ⊎ Same 3 office.tables s'.tables
after_writes-kicked_example =
    after_writes-kicked no_text6 3 (some (2 ∷ 3 ∷ [])) two_writes start (omega arith) (ground arith)
      cara_has_keys refl

-- One DNS server for all but bob.
abbrev resolvers : DnsPolicy
resolvers = record {
  applier = new_applier;
  tables = office.tables;
  servers =
      record {
        id = 1;
        dns_ip = codes "10.88.0.1";
        remark = [];
        source = dns_source_manual;
        member_user_ids = 0 ∷ [];
        exclude_user_ids = 2 ∷ [];
      }
      ∷ [];
}

-- Cara is excluded too, and there is a server for bob.
abbrev dns_writes : List DnsWrite
dns_writes = sets_excludes 1 (3 ∷ 2 ∷ []) ∷ creates_dns 2 (codes "10.88.0.9") [] (2 ∷ []) [] ∷ []

after_dns_writes-marked_example :
    let s' = after_dns_writes no_text6 dns_writes resolvers in
    (is_marked 3 s'.applier ≡ true)
    ⊎ (list_dns_ips_for_user 3 s'.servers ≡ list_dns_ips_for_user 3 resolvers.servers)
after_dns_writes-marked_example =
    after_dns_writes-marked no_text6 3 dns_writes resolvers (omega arith)
