-- ===== src/VpnAccount/Dns/Told.antt =====
-- Any sequence of writes of DNS servers.
use hao_vpn.Prelude.{
  ℕ, ◌≡◌, ◌≢◌, refl, ap, ◌∙◌, ◌⊎◌, inl, inr, true, ◌&&◌, ◌||◌, not, List, [], ◌∷◌, ◌++◌, arith,
  nat_beq, any, length, Bool-cases, Option-cases, Text, text_beq,
}
use hao_vpn.Net.{Text6}
use hao_vpn.VpnAccount.{normalize_ipv4}
use hao_vpn.VpnAccount.Tables.{has_member}
use hao_vpn.VpnAccount.Apply.{has_user, normalize_member_user_ids}
use hao_vpn.VpnAccount.Writes.Marks.{is_marked, has_member_lem}
use hao_vpn.VpnAccount.Dns.{
  DnsServer, DnsPolicy, are_dns_accounts, ips_from, list_dns_ips_for_user, mark_dns_dirty,
  new_dns_server, update_dns_server_remark, replace_dns_server_members, replace_dns_server_excludes,
  delete_dns_server, create_dns_server, normalize_exclude_user_ids,
}
use hao_vpn.VpnAccount.Dns.Heard.{
  heard, Heard, same-Heard, marked-Heard, heard-snoc, mark_dns_dirty-is_marked, delete-Heard,
  remark-Heard, members-Heard, excludes-Heard,
}

pub data DnsWrite : Type 0 where
  creates_dns : ℕ → Text → Text → List ℕ → List ℕ → DnsWrite
  remarks : ℕ → Text → DnsWrite
  sets_members sets_excludes : ℕ → List ℕ → DnsWrite
  deletes_dns : ℕ → DnsWrite

module _ (t : Text6) where
  create_branch :
      (id : ℕ) (dns_ip text : Text) (members excludes : List ℕ) (s : DnsPolicy)
      → ((create_dns_server t id dns_ip text members excludes s).0 ≡ s)
        ⊎ ((ip : Text) × let d =
                new_dns_server id ip text
                  (normalize_member_user_ids members)
                  (normalize_exclude_user_ids excludes) in
              (create_dns_server t id dns_ip text members excludes s).0 ≡ record s {
                applier = mark_dns_dirty d.member_user_ids d.exclude_user_ids s.applier;
                servers = s.servers ++ (d ∷ []);
              })
  unfolding create_dns_server
  create_branch id dns_ip text members excludes s = elim (Option-cases (normalize_ipv4 t dns_ip)) [
    | inl e ↦ inl (ground (arith, e))
    | inr (ip, e) ↦
        let ms = normalize_member_user_ids members in
        let es = normalize_exclude_user_ids excludes in
        let bad =
          not (are_dns_accounts ms s.tables)
          || (has_user 0 ms && not (are_dns_accounts es s.tables)) in
        elim (Bool-cases (nat_beq (length ms) 0)) [
          | inl a ↦ inl (ground (arith, e, a))
          | inr a ↦ elim (Bool-cases bad) [
            | inl b ↦ inl (ground (arith, e, a, b))
            | inr b ↦ elim (Bool-cases (any (λ (k : DnsServer). text_beq k.dns_ip ip) s.servers)) [
              | inl c ↦ inl (ground (arith, e, a, b, c))
              | inr c ↦ inr (ip, ground (arith, e, a, b, c))
            ]
          ]
        ]
  ]

  create-Heard :
      (user id : ℕ) (dns_ip text : Text) (members excludes : List ℕ) (s : DnsPolicy)
      → user ≢ 0
      → Heard user s (create_dns_server t id dns_ip text members excludes s).0
  create-Heard user id dns_ip text members excludes s real =
      let s' = (create_dns_server t id dns_ip text members excludes s).0 in
      elim (create_branch id dns_ip text members excludes s) [
        | inl e ↦ same-Heard user s s' e
        | inr (ip, e) ↦
            let d =
              new_dns_server id ip text (normalize_member_user_ids members)
                (normalize_exclude_user_ids excludes) in
            let told =
              has_member user d.member_user_ids
              || (not (has_user 0 d.member_user_ids) && has_user user d.exclude_user_ids) in
            marked-Heard user s s' told
              (ap (λ (x : DnsPolicy). is_marked user x.applier) e
                ∙ mark_dns_dirty-is_marked user d s.applier real)
              (elim (Bool-cases told) [
                | inl k ↦ inl k
                | inr k ↦ inr (
                    ap (λ (x : DnsPolicy). heard user x.servers) e
                    ∙ heard-snoc user d s.servers
                        (ground (arith, k, has_member_lem user d.member_user_ids)))
              ])
      ]

  unfoldable pub write_dns : DnsWrite → DnsPolicy → DnsPolicy
  write_dns (creates_dns id ip text ms es) s = (create_dns_server t id ip text ms es s).0
  write_dns (remarks id text) s = (update_dns_server_remark id text s).0
  write_dns (sets_members id ms) s = (replace_dns_server_members id ms s).0
  write_dns (sets_excludes id es) s = (replace_dns_server_excludes id es s).0
  write_dns (deletes_dns id) s = (delete_dns_server id s).0

  unfoldable pub after_dns_writes : List DnsWrite → DnsPolicy → DnsPolicy
  after_dns_writes [] s = s
  after_dns_writes (w ∷ ws) s = after_dns_writes ws (write_dns w s)

  write_dns-Heard :
      (user : ℕ) (w : DnsWrite) (s : DnsPolicy) → user ≢ 0 → Heard user s (write_dns w s)
  unfolding write_dns
  write_dns-Heard user (creates_dns id ip text ms es) s real =
      create-Heard user id ip text ms es s real
  write_dns-Heard user (remarks id text) s real = remark-Heard user id text s
  write_dns-Heard user (sets_members id ms) s real = members-Heard user id ms s real
  write_dns-Heard user (sets_excludes id es) s real = excludes-Heard user id es s real
  write_dns-Heard user (deletes_dns id) s real = delete-Heard user id s real

  -- A sequence, with the mark that may be there before.
  after_dns_writes-Heard :
      (user : ℕ) (ws : List DnsWrite) (s : DnsPolicy)
      → user ≢ 0
      → Heard user s (after_dns_writes ws s)
  unfolding after_dns_writes
  after_dns_writes-Heard user [] s real = inr (refl, refl)
  after_dns_writes-Heard user (w ∷ ws) s real = elim (write_dns-Heard user w s real) [
    | inl m ↦ elim (after_dns_writes-Heard user ws (write_dns w s) real) [
      | inl k ↦ inl k
      | inr (k, later) ↦ inl (k ∙ m)
    ]
    | inr (m, one) ↦ elim (after_dns_writes-Heard user ws (write_dns w s) real) [
      | inl k ↦ inl k
      | inr (k, two) ↦ inr (k ∙ m, two ∙ one)
    ]
  ]

  -- After any sequence of writes of managed DNS servers, refused ones included, an account with a
  -- positive id is marked or is told of the same DNS servers as before, in the same order.
  pub after_dns_writes-marked :
      (user : ℕ) (ws : List DnsWrite) (s : DnsPolicy)
      → user ≢ 0
      → let s' = after_dns_writes ws s in
        (is_marked user s'.applier ≡ true)
        ⊎ (list_dns_ips_for_user user s'.servers ≡ list_dns_ips_for_user user s.servers)
  unfolding list_dns_ips_for_user
  after_dns_writes-marked user ws s real = elim (after_dns_writes-Heard user ws s real) [
    | inl m ↦ inl m
    | inr (m, same) ↦ inr (ap (ips_from []) same)
  ]
